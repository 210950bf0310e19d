-- ===== src/Xmodem/Checksum.antt =====
-- The blocks of prot_xmodem.cpp as the overview in that file describes them.
use decom.Base.{
  ℕ, ◌+◌, ◌-◌, ◌%◌, ◌^◌, ◌<◌, ◌≡◌, refl, ◌∙◌, true, ◌&&◌, Option, none, some, List, [], ◌∷◌, ◌++◌,
  ◌==◌, length, take, get_or, if◌then◌else◌, arith, snoc, length-append, take-append_le, take_all,
  total,
}
use decom.Xmodem.Machine.{
  xmodem_chk, xmodem_crc, xmodem_1k, soh, stx, checksum_from, crc_from, frame,
}

-- A receiver's check of a block: the number and the payload, if the number is beside its complement and
-- the last byte is the sum of the payload without its carry.
abbrev pub unpack : List ℕ → Option (ℕ × List ℕ)
unpack [] = none
unpack (start ∷ []) = none
unpack (start ∷ number ∷ []) = none
unpack (start ∷ number ∷ complement ∷ rest) =
    let payload = take (length rest - 1) rest in
    if start == soh
      && (number + complement == 255 && get_or rest (length rest - 1) 0 == total payload % 256)
    then some (number, payload)
    else none

checksum_from-total :
    (sum : ℕ) (bytes : List ℕ) → sum < 256 → checksum_from sum bytes ≡ (sum + total bytes) % 256
unfolding checksum_from
checksum_from-total sum [] h = omega (arith, h)
checksum_from-total sum (b ∷ bytes) h =
    checksum_from-total ((sum + b) % 2 ^ 8) bytes (omega arith) ∙ omega arith

get_or-snoc : (bytes : List ℕ) (x d : ℕ) → get_or (snoc bytes x) (length bytes) d ≡ x
get_or-snoc [] x d = refl
get_or-snoc (b ∷ bytes) x d = get_or-snoc bytes x d

-- A block of the original protocol, with any number below 256 and any payload, passes a receiver's
-- check and gives the number and the payload back.
pub unpack-frame :
    (number : ℕ) (bytes : List ℕ)
    → number < 256
    → unpack (frame xmodem_chk number bytes) ≡ some (number, bytes)
unfolding frame
unpack-frame number bytes h =
    rw (rest_size, complement, whole, get_or-snoc bytes (checksum_from 0 bytes) 0, sum) refl
  where
    rest_size : length (snoc bytes (checksum_from 0 bytes)) - 1 ≡ length bytes
    rest_size = omega (arith, length-append bytes (checksum_from 0 bytes ∷ []))

    complement : (number + (255 - number) == 255) ≡ true
    complement = ground (arith, h)

    whole : take (length bytes) (snoc bytes (checksum_from 0 bytes)) ≡ bytes
    whole =
        take-append_le (length bytes) bytes (checksum_from 0 bytes ∷ []) (omega arith)
        ∙ take_all (length bytes) bytes (omega arith)

    sum : (checksum_from 0 bytes == total bytes % 256) ≡ true
    sum = rw (checksum_from-total 0 bytes (omega arith)) (ground arith)

crc_from-zero : (bytes : List ℕ) → crc_from 0 bytes ≡ 0
unfolding crc_from
crc_from-zero [] = refl
crc_from-zero (b ∷ bytes) = crc_from-zero bytes

-- In both protocols with a CRC, the two bytes of the CRC are 0 whatever the payload is.
pub frame_crc_is_zero :
    (number : ℕ) (bytes : List ℕ)
    → (frame xmodem_crc number bytes
        ≡ soh ∷ number ∷ (255 - number) ∷ (bytes ++ (0 ∷ []) ++ (0 ∷ [])))
      × (frame xmodem_1k number bytes
          ≡ stx ∷ number ∷ (255 - number) ∷ (bytes ++ (0 ∷ []) ++ (0 ∷ [])))
unfolding frame
frame_crc_is_zero number bytes = (rw (crc_from-zero bytes) refl, rw (crc_from-zero bytes) refl)
