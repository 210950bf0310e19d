-- ===== src/DevFile/Transfer.antt =====
-- dev_file.h: the transfer of a file from one device to another, over lower layers that accept every
-- message and hand it on.
use decom.Base.{
  subst, ℕ, zero, suc, ◌-◌, ◌≤◌, ◌<◌, ◌≡◌, refl, ap, sym, ◌∙◌, Bool, true, false, not, some, List,
  [], ◌∷◌, ◌++◌, length, is_empty, arith, length-append, append_assoc, append-nil, All, join, ◌==◌,
}
use decom.Layer.{Eid, eid_any, Effect, to_lower, to_upper, indicate, close_lower, tx_done}
use decom.DevFile.{
  DevFile, write, write_opened, worker, indication, write_progress, receive, read_end, send_segment,
  is_zero,
}
use decom.DevFile.Stream.{Offset, open_in, seek_end, seek_begin, tellg, put, close_out}
use decom.DevFile.Segment.{in_file, sending, behind, not_empty, send_segment-block}

-- The lower layer reports the last message as sent, and the worker takes a round; `n` times.
abbrev pub rounds : ℕ → DevFile → DevFile × List Effect
rounds zero s = (s, [])
rounds (suc n) s =
    let (s', out) = worker true (indication s tx_done eid_any) in
    let (s'', out') = rounds n s' in (s'', out ++ out')

-- A file is written, and `n` further segments are asked for.
abbrev pub send_file : (content : List ℕ) → DevFile → (m n : ℕ) → DevFile × List Effect
send_file content s m n =
    let (s', out, ok) = write (some content) true s m false in
    let (s'', out') = rounds n s' in (s'', out ++ out')

-- What the other device does with the messages.
abbrev pub hear : DevFile → List Effect → DevFile
hear r [] = r
hear r (to_lower bytes id more ∷ out) = hear (receive r bytes id more) out
hear r (to_upper bytes id more ∷ out) = hear r out
hear r (indicate code id ∷ out) = hear r out
hear r (close_lower id ∷ out) = hear r out

-- The messages of the parts of a file; all but the last one are marked as parts.
abbrev pub parcels : Eid → (more : Bool) → List ℕ → List (List ℕ) → List Effect
parcels id more b [] = to_lower b id more ∷ []
parcels id more b (c ∷ cs) = to_lower b id true ∷ parcels id more c cs

-- A device that waits for a file, which already holds `held`.
abbrev pub reading : DevFile → List ℕ → DevFile
reading r held = record r {
  rx_ignore_more = false;
  rx_file = record { is_open = true; content = held; fail = false };
}

pub hear-parcels_open :
    (r : DevFile) (held : List ℕ) (id : Eid) (b : List ℕ) (bs : List (List ℕ))
    → hear (reading r held) (parcels id true b bs) ≡ reading r (held ++ join (b ∷ bs))
unfolding receive put
hear-parcels_open r held id b [] = ap (λ l. reading r (held ++ l)) (sym (append-nil b))
hear-parcels_open r held id b (c ∷ cs) =
    hear-parcels_open r (held ++ b) id c cs ∙ ap (reading r) (append_assoc held b (join (c ∷ cs)))

-- The device when the last part has come.
abbrev pub complete : DevFile → List ℕ → DevFile
complete r held = record r {
  rx_ignore_more = false;
  rx_file = record { is_open = false; content = held; fail = false };
}

hear-parcels_last :
    (r : DevFile) (held : List ℕ) (id : Eid) (b : List ℕ) (bs : List (List ℕ))
    → hear (reading r held) (parcels id false b bs) ≡ complete r (held ++ join (b ∷ bs))
unfolding receive put read_end close_out
hear-parcels_last r held id b [] = ap (λ l. complete r (held ++ l)) (sym (append-nil b))
hear-parcels_last r held id b (c ∷ cs) =
    hear-parcels_last r (held ++ b) id c cs ∙ ap (complete r) (append_assoc held b (join (c ∷ cs)))

-- A segment and then `n` rounds.
abbrev pub and_rounds : ℕ → DevFile × List Effect × Bool → DevFile × List Effect
and_rounds n (s', out, ok) = let (s'', out') = rounds n s' in (s'', out ++ out')

abbrev from_segment : ℕ → DevFile → DevFile × List Effect
from_segment n s = and_rounds n (send_segment true s)

abbrev pub left : (content rest : List ℕ) → Offset
left content rest = some (length content - length rest)

-- A round of the worker when something is left.
pub rounds-behind :
    (s : DevFile) (m n : ℕ) (ev : Bool) (content rest : List ℕ)
    → 0 < length rest
    → rounds (suc n) (behind s m ev content rest)
      ≡ from_segment n (sending s m false content (in_file content rest) (left content rest))
unfolding worker indication
rounds-behind s m n ev content [] h = elim h [ ]
rounds-behind s m n ev content (x ∷ xs) h = refl

-- All whole parts, when `t` follows them.
rounds-blocks :
    (s : DevFile) (m : ℕ) (ev : Bool) (content b : List ℕ) (bs : List (List ℕ)) (t : List ℕ)
    (sent : Offset)
    → 0 < m
    → All (λ c. length c ≡ m) (b ∷ bs)
    → length (join (b ∷ bs) ++ t) ≤ length content
    → (e : Bool) × (from_segment
          (length bs)
          (sending s m ev content (in_file content (join (b ∷ bs) ++ t)) sent)
        ≡ (behind s m e content t, parcels s.tx_eid (not (is_empty t)) b bs))
rounds-blocks s m ev content b [] t sent pos sizes within = (
  ev,
  ap (λ l. from_segment 0 (sending s m ev content (in_file content (l ++ t)) sent)) (append-nil b)
      ∙ ap (and_rounds 0) (
          send_segment-block s m ev content b t sent sizes.0 pos
            (subst (λ l. length (l ++ t) ≤ length content) (append-nil b) within)),
)
rounds-blocks s m ev content b (c ∷ cs) t sent pos sizes within =
    let R = join (c ∷ cs) ++ t in
    let shape : join (b ∷ c ∷ cs) ++ t ≡ b ++ R = append_assoc b (join (c ∷ cs)) t in
    let within' : length (b ++ R) ≤ length content =
      subst (λ l. length l ≤ length content) shape within in
    let some_left : 0 < length R =
      omega (arith, sizes.1.0, length-append (c ++ join cs) t, length-append c (join cs)) in
    let (e, rest) =
      rounds-blocks s m false content c cs t (left content R) pos sizes.1
        (omega (arith, within', length-append b R)) in
    (
      e,
      ap (λ l. from_segment (suc (length cs)) (sending s m ev content (in_file content l) sent))
            shape
          ∙ (ap (and_rounds (suc (length cs)))
                (send_segment-block s m ev content b R sent sizes.0 pos within')
              ∙ (ap (λ q. (q.0, to_lower b s.tx_eid (not (is_empty R)) ∷ q.1))
                    (rounds-behind s m (length cs) ev content R some_left ∙ rest)
                  ∙ ap
                      (λ flag. (
                        behind s m e content t,
                        to_lower b s.tx_eid flag ∷ parcels s.tx_eid (not (is_empty t)) c cs,
                      ))
                      (ap not (not_empty R some_left)))),
    )

-- What `write` does with a file that holds something.
write-segment :
    (s : DevFile) (m : ℕ) (content : List ℕ)
    → 0 < length content
    → s.joinable ≡ true
    → s.tx_file.is_open ≡ false
    → write (some content) true s m false
      ≡ send_segment true (sending s m s.tx_ev content (in_file content content) (some 0))
unfolding write write_opened open_in seek_end seek_begin tellg is_zero
write-segment s m content some_byte joinable closed =
    let whole : length content - 0 ≡ length content = omega arith in
    let not_zero : (length content == 0) ≡ false = ground arith in
    rw (closed, whole, not_zero, joinable) refl

-- The whole parts of a file that holds them and then `t`.
pub send_file-blocks :
    (s : DevFile) (m : ℕ) (b : List ℕ) (bs : List (List ℕ)) (t : List ℕ)
    → 0 < m
    → All (λ c. length c ≡ m) (b ∷ bs)
    → s.joinable ≡ true
    → s.tx_file.is_open ≡ false
    → (e : Bool) × (send_file (join (b ∷ bs) ++ t) s m (length bs)
        ≡ (behind s m e (join (b ∷ bs) ++ t) t, parcels s.tx_eid (not (is_empty t)) b bs))
send_file-blocks s m b bs t pos sizes joinable closed =
    let content = join (b ∷ bs) ++ t in
    let some_byte : 0 < length content =
      omega (arith, sizes.0, length-append (b ++ join bs) t, length-append b (join bs)) in
    let (e, run) = rounds-blocks s m s.tx_ev content b bs t (some 0) pos sizes (omega arith) in
    (e, ap (and_rounds (length bs)) (write-segment s m content some_byte joinable closed) ∙ run)

-- A file that consists of whole parts of the size of a message is sent part by part, only the last one
-- marked as the last: the other device appends exactly the file's bytes to its own file, and closes it.
-- The sender's file is closed, and all of it counts as sent; but when the last part is reported as sent,
-- the progress is that of an error.
pub send_file-hear :
    (s r : DevFile) (m : ℕ) (held b : List ℕ) (bs : List (List ℕ))
    → 0 < m
    → All (λ c. length c ≡ m) (b ∷ bs)
    → s.joinable ≡ true
    → s.tx_file.is_open ≡ false
    → (let (s', out) = send_file (join (b ∷ bs)) s m (length bs) in
        (hear (reading r held) out ≡ complete r (held ++ join (b ∷ bs)))
        × (s'.tx_file.is_open ≡ false)
        × (s'.tx_err ≡ false)
        × (s'.tx_filesent ≡ s'.tx_filesize)
        × (write_progress (indication s' tx_done eid_any) ≡ 255))
unfolding indication write_progress
send_file-hear s r m held b bs pos sizes joinable closed =
    let content = join (b ∷ bs) in
    let n = length bs in
    let whole : length content - 0 ≡ length content = omega arith in
    let (e, run) =
      subst
        (λ l. (e : Bool) × (send_file l s m n ≡ (behind s m e l [], parcels s.tx_eid false b bs)))
        (append-nil content) (send_file-blocks s m b bs [] pos sizes joinable closed) in
    (
      ap (λ q. hear (reading r held) q.1) run ∙ hear-parcels_last r held s.tx_eid b bs,
      ap (λ q. q.0.tx_file.is_open) run,
      ap (λ q. q.0.tx_err) run,
      ap (λ q. q.0.tx_filesent) run ∙ (ap some whole ∙ sym (ap (λ q. q.0.tx_filesize) run)),
      ap (λ q. write_progress (indication q.0 tx_done eid_any)) run,
    )
