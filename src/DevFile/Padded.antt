-- ===== src/DevFile/Padded.antt =====
-- dev_file.h: the transfer of a file whose last part is shorter than a message.
use decom.Base.{
  ℕ, zero, suc, ◌+◌, ◌-◌, ◌≤◌, ◌<◌, ◌≡◌, refl, ap, sym, ◌∙◌, Bool, true, false, not, none, some,
  List, [], ◌∷◌, ◌++◌, length, is_empty, replicate, arith, length-append, append_assoc, append-nil,
  All, join,
}
use decom.Layer.{eid_any, Effect, to_lower, to_upper, indicate, close_lower, tx_done}
use decom.DevFile.{DevFile, write, worker, indication, receive, send_segment}
use decom.DevFile.Stream.{close_in}
use decom.DevFile.Segment.{read_out, sending, behind, not_empty, send_segment-tail}
use decom.DevFile.Transfer.{
  rounds, send_file, hear, parcels, reading, hear-parcels_open, and_rounds, left, rounds-behind,
  send_file-blocks,
}

hear-append : (r : DevFile) (xs ys : List Effect) → hear r (xs ++ ys) ≡ hear (hear r xs) ys
hear-append r [] ys = refl
hear-append r (to_lower bytes id more ∷ xs) ys = hear-append (receive r bytes id more) xs ys
hear-append r (to_upper bytes id more ∷ xs) ys = hear-append r xs ys
hear-append r (indicate code id ∷ xs) ys = hear-append r xs ys
hear-append r (close_lower id ∷ xs) ys = hear-append r xs ys

-- One more round.
rounds-suc :
    (n : ℕ) (s : DevFile)
    → rounds (suc n) s
      ≡ (let (s', out) = rounds n s in let (s'', out') = rounds 1 s' in (s'', out ++ out'))
rounds-suc zero s = refl
rounds-suc (suc n) s =
    let (s', out) = worker true (indication s tx_done eid_any) in
    let (mid, out') = rounds n s' in
    ap (λ q. (q.0, out ++ q.1)) (rounds-suc n s')
    ∙ ap (λ l. ((rounds 1 mid).0, l)) (sym (append_assoc out out' (rounds 1 mid).1))

abbrev one_more : DevFile × List Effect → DevFile × List Effect
one_more (s', out) = let (s'', out') = rounds 1 s' in (s'', out ++ out')

send_file-suc :
    (content : List ℕ) (s : DevFile) (m n : ℕ)
    → send_file content s m (suc n) ≡ one_more (send_file content s m n)
send_file-suc content s m n =
    let (s', out, ok) = write (some content) true s m false in
    let (mid, out') = rounds n s' in
    ap (λ q. (q.0, out ++ q.1)) (rounds-suc n s')
    ∙ ap (λ l. ((rounds 1 mid).0, l)) (sym (append_assoc out out' (rounds 1 mid).1))

-- The round behind the whole parts.
rounds-tail :
    (s : DevFile) (m k : ℕ) (e : Bool) (content t : List ℕ)
    → 0 < length t
    → m ≡ length t + suc k
    → m ≤ length content
    → rounds 1 (behind s m e content t) ≡ (
      sending s m false content (read_out content) none,
      to_lower (t ++ replicate (suc k) 255) s.tx_eid true ∷ [],
    )
rounds-tail s m k e content t some_byte size within =
    rounds-behind s m 0 e content t some_byte
    ∙ ap (and_rounds 0) (send_segment-tail s m k false content t (left content t) size within)

-- A file whose last part is shorter than a message, behind whole parts: the last message is filled up with
-- bytes 0xFF and marked as if another one followed. The other device appends these bytes, too, and its
-- file stays open. The sender's position is then -1 and its file still open; when the last message is
-- confirmed, nothing more is sent and the sender's file is closed.
pub send_file_padded :
    (s r : DevFile) (m : ℕ) (held b : List ℕ) (bs : List (List ℕ)) (t : List ℕ)
    → 0 < length t
    → length t < m
    → All (λ c. length c ≡ m) (b ∷ bs)
    → s.joinable ≡ true
    → s.tx_file.is_open ≡ false
    → (let (s', out) = send_file (join (b ∷ bs) ++ t) s m (suc (length bs)) in
        (hear (reading r held) out
          ≡ reading r ((held ++ join (b ∷ bs)) ++ (t ++ replicate (m - length t) 255)))
        × (s'.tx_file.is_open ≡ true)
        × (s'.tx_filesent ≡ none)
        × ((rounds 1 s').1 ≡ [])
        × ((rounds 1 s').0.tx_file.is_open ≡ false))
unfolding worker indication send_segment close_in
send_file_padded s r m held b bs t some_byte short sizes joinable closed =
    let content = join (b ∷ bs) ++ t in
    let k = m - length t - 1 in
    let fill : suc k ≡ m - length t = omega arith in
    let bytes = t ++ replicate (suc k) 255 in
    let (e, run) = send_file-blocks s m b bs t (omega arith) sizes joinable closed in
    let within : m ≤ length content =
      omega (arith, sizes.0, length-append (b ++ join bs) t, length-append b (join bs)) in
    let last = rounds-tail s m k e content t some_byte (omega arith) within in
    let course : send_file content s m (suc (length bs)) ≡ (
      sending s m false content (read_out content) none,
      parcels s.tx_eid (not (is_empty t)) b bs ++ (to_lower bytes s.tx_eid true ∷ []),
    ) =
      send_file-suc content s m (length bs)
      ∙ (ap one_more run ∙ ap (λ q. (q.0, parcels s.tx_eid (not (is_empty t)) b bs ++ q.1)) last) in
    let heard : hear (reading r held) (parcels s.tx_eid (not (is_empty t)) b bs)
        ≡ reading r (held ++ join (b ∷ bs)) =
      ap (λ flag. hear (reading r held) (parcels s.tx_eid flag b bs))
        (ap not (not_empty t some_byte))
      ∙ hear-parcels_open r held s.tx_eid b bs in
    (
      ap (λ q. hear (reading r held) q.1) course
          ∙ (hear-append (reading r held) (parcels s.tx_eid (not (is_empty t)) b bs)
                (to_lower bytes s.tx_eid true ∷ [])
              ∙ (ap (λ q. hear q (to_lower bytes s.tx_eid true ∷ [])) heard
                  ∙ (hear-parcels_open r (held ++ join (b ∷ bs)) s.tx_eid bytes []
                      ∙ (ap (λ l. reading r ((held ++ join (b ∷ bs)) ++ l)) (append-nil bytes)
                          ∙ ap (λ n. reading r ((held ++ join (b ∷ bs)) ++ (t ++ replicate n 255)))
                              fill)))),
      ap (λ q. q.0.tx_file.is_open) course,
      ap (λ q. q.0.tx_filesent) course,
      ap (λ q. (rounds 1 q.0).1) course,
      ap (λ q. (rounds 1 q.0).0.tx_file.is_open) course,
    )
