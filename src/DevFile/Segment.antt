-- ===== src/DevFile/Segment.antt =====
-- dev_file.h: what a call of `send_segment` takes from the file.
use decom.Base.{
  subst, ℕ, zero, suc, ◌+◌, ◌-◌, ◌≤◌, ◌<◌, ◌≡◌, refl, ap, ◌∙◌, Bool, true, false, not, none, some,
  List, [], ◌∷◌, ◌++◌, length, is_empty, replicate, arith, length-append, ◌==◌, if◌then◌else◌,
}
use decom.Layer.{Effect, to_lower}
use decom.DevFile.{DevFile, read_buffer, msgsize, send_buffer, send_next, send_segment, is_zero}
use decom.DevFile.Stream.{Offset, same_offset, Ifstream, close_in, tellg, get, get_behind}

-- A file that is read, and one that was read beyond its end.
abbrev pub in_file : (content rest : List ℕ) → Ifstream
in_file content rest = record {
  is_open = true;
  content = content;
  rest = rest;
  eof = false;
  fail = false;
}

abbrev pub read_out : (content : List ℕ) → Ifstream
read_out content = record { is_open = true; content = content; rest = []; eof = true; fail = true }

-- A device that sends a file, in parts of `m` bytes.
abbrev pub sending :
    DevFile → (m : ℕ) → (ev : Bool) → (content : List ℕ) → Ifstream → Offset → DevFile
sending s m ev content f sent = record s {
  joinable = true;
  tx_ev = ev;
  tx_err = false;
  tx_msgsize = m;
  tx_lineend = false;
  tx_filesize = some (length content);
  tx_filesent = sent;
  tx_file = f;
}

-- The device when `rest` is left to be sent.
abbrev pub behind : DevFile → (m : ℕ) → (ev : Bool) → (content rest : List ℕ) → DevFile
behind s m ev content rest =
    sending s m ev content
      (if not (is_empty rest)
        then in_file content rest
        else record (in_file content rest) { is_open = false })
      (some (length content - length rest))

read_buffer-block :
    (content b rest : List ℕ) (c : ℕ)
    → read_buffer (length b) false c (in_file content (b ++ rest)) ≡ (b, in_file content rest)
unfolding read_buffer get get_behind
read_buffer-block content [] rest c = refl
read_buffer-block content (x ∷ b) rest c =
    ap (λ q. (x ∷ q.0, q.1)) (read_buffer-block content b rest x)

read_buffer-empty :
    (content : List ℕ) (n c : ℕ)
    → read_buffer n false c (read_out content) ≡ (replicate n 255, read_out content)
unfolding read_buffer get
read_buffer-empty content zero c = refl
read_buffer-empty content (suc n) c = ap (λ q. (255 ∷ q.0, q.1)) (read_buffer-empty content n 255)

-- A read beyond the end of the file gives bytes 0xFF.
read_buffer-tail :
    (content t : List ℕ) (n k c : ℕ)
    → n ≡ length t + suc k
    → read_buffer n false c (in_file content t) ≡ (t ++ replicate (suc k) 255, read_out content)
unfolding read_buffer get get_behind
read_buffer-tail content t zero k c e = absurd (omega (arith, e))
read_buffer-tail content [] (suc n) k c e =
    let same : n ≡ k = omega (arith, e) in
    ap (λ q. (255 ∷ q.0, q.1)) (read_buffer-empty content n 255)
    ∙ ap (λ n. (255 ∷ replicate n 255, read_out content)) same
read_buffer-tail content (x ∷ t) (suc n) k c e =
    ap (λ q. (x ∷ q.0, q.1)) (read_buffer-tail content t n k x (omega (arith, e)))

pub not_empty : (xs : List ℕ) → 0 < length xs → is_empty xs ≡ false
not_empty [] h = elim h [ ]
not_empty (x ∷ xs) h = refl

more_left :
    (content rest : List ℕ)
    → 0 < length content
    → length rest ≤ length content
    → not (same_offset (some (length content - length rest)) (some (length content)))
      ≡ not (is_empty rest)
more_left content [] some_byte within = ground arith
more_left content (x ∷ xs) some_byte within = ground arith

-- The rest of `send_next` and `send_segment`, behind the loop that reads.
abbrev finish : DevFile → List ℕ × Ifstream → DevFile × List Effect × Bool
finish s (bytes, f) =
    let sent = tellg f in
    let more = not (same_offset sent s.tx_filesize) in
    send_buffer true (record s { tx_file = (if more then f else close_in f); tx_filesent = sent })
      bytes more

msgsize-sending :
    (s : DevFile) (m : ℕ) (ev : Bool) (content : List ℕ) (f : Ifstream) (sent : Offset)
    → m ≤ length content
    → msgsize (sending s m ev content f sent) ≡ m
unfolding msgsize
msgsize-sending s m ev content f sent within = ground arith

send_segment-finish :
    (s : DevFile) (m : ℕ) (ev : Bool) (content rest : List ℕ) (sent : Offset)
    → 0 < length content
    → m ≤ length content
    → send_segment true (sending s m ev content (in_file content rest) sent)
      ≡ finish
          (sending s m ev content (in_file content rest) sent)
          (read_buffer m false 0 (in_file content rest))
unfolding send_segment send_next is_zero
send_segment-finish s m ev content rest sent some_byte within =
    let S = sending s m ev content (in_file content rest) sent in
    let zero_no : (length content == 0) ≡ false = ground arith in
    rw zero_no (
      ap (λ n. finish S (read_buffer n false 0 (in_file content rest)))
        (msgsize-sending s m ev content (in_file content rest) sent within))

-- A whole part is sent, and marked as the last one exactly if nothing is left.
pub send_segment-block :
    (s : DevFile) (m : ℕ) (ev : Bool) (content b rest : List ℕ) (sent : Offset)
    → length b ≡ m
    → 0 < m
    → length (b ++ rest) ≤ length content
    → send_segment true (sending s m ev content (in_file content (b ++ rest)) sent)
      ≡ (behind s m ev content rest, to_lower b s.tx_eid (not (is_empty rest)) ∷ [], true)
unfolding tellg send_buffer close_in
send_segment-block s m ev content b rest sent e pos within =
    let count = length-append b rest in
    send_segment-finish s m ev content (b ++ rest) sent (omega (arith, count))
      (omega (arith, count))
    ∙ (ap (finish (sending s m ev content (in_file content (b ++ rest)) sent)) (
          subst
            (λ n. read_buffer n false 0 (in_file content (b ++ rest)) ≡ (b, in_file content rest)) e
            (read_buffer-block content b rest 0))
        ∙ rw
            (
              more_left content rest (omega (arith, count)) (omega (arith, count)),
              not_empty b (omega arith),
            )
            refl)

-- The last part, if it is shorter, is filled up with bytes 0xFF, and marked as if another one followed.
pub send_segment-tail :
    (s : DevFile) (m k : ℕ) (ev : Bool) (content t : List ℕ) (sent : Offset)
    → m ≡ length t + suc k
    → m ≤ length content
    → send_segment true (sending s m ev content (in_file content t) sent) ≡ (
      sending s m ev content (read_out content) none,
      to_lower (t ++ replicate (suc k) 255) s.tx_eid true ∷ [],
      true,
    )
unfolding tellg send_buffer
send_segment-tail s m k ev content t sent e within =
    let S = sending s m ev content (in_file content t) sent in
    let full = length-append t (replicate (suc k) 255) in
    send_segment-finish s m ev content t sent (omega (arith, e)) within
    ∙ (ap (finish S) (read_buffer-tail content t m k 0 e)
        ∙ rw (not_empty (t ++ replicate (suc k) 255) (omega (arith, full))) refl)
