-- ===== src/Xmodem/Payload.antt =====
-- The payloads of the blocks of prot_xmodem.cpp, put together.
use decom.Base.{
  ℕ, ◌+◌, ◌-◌, ◌≤◌, ◌<◌, ◌≡◌, refl, ap, sym, ◌∙◌, List, [], ◌∷◌, ◌++◌, length, take, drop,
  replicate, arith, join, append-nil, append_assoc, take_all, take-append-drop, drop-drop,
  length-drop, dec_lt, lt→ltb, le→not_ltb,
}
use decom.Xmodem.Course.{piece, next_offset, IsCovered}

-- The payloads from an offset on, one more than there are blocks behind the first.
abbrev pub payloads : (size : ℕ) → List ℕ → (offset : ℕ) → List (List (List ℕ)) → List (List ℕ)
payloads size bytes offset [] = piece size bytes offset ∷ []
payloads size bytes offset (bad ∷ blocks) =
    piece size bytes offset ∷ payloads size bytes (next_offset size bytes offset) blocks

module _ (size : ℕ) (bytes : List ℕ) where
  -- A full block.
  piece-full :
      (offset : ℕ)
      → size < length bytes - offset
      → piece size bytes offset ≡ take size (drop offset bytes)
  piece-full offset more =
      rw (lt→ltb size (length bytes - offset) more, none)
        (append-nil (take size (drop offset bytes)))
    where
      none : size - size ≡ 0
      none = omega arith

  next_offset-full :
      (offset : ℕ) → size < length bytes - offset → next_offset size bytes offset ≡ offset + size
  next_offset-full offset more = rw (lt→ltb size (length bytes - offset) more) refl

  -- The last block.
  piece-last :
      (offset : ℕ)
      → length bytes - offset ≤ size
      → piece size bytes offset ≡ drop offset bytes ++ replicate (size - (length bytes - offset)) 0
  piece-last offset few =
      rw
        (
          le→not_ltb size (length bytes - offset) few,
          take_all (length bytes - offset) (drop offset bytes)
              (omega (arith, length-drop offset bytes)),
        )
        refl

  next_offset-last :
      (offset : ℕ)
      → offset ≤ length bytes
      → length bytes - offset ≤ size
      → next_offset size bytes offset ≡ length bytes
  next_offset-last offset h few = rw (le→not_ltb size (length bytes - offset) few) (omega arith)

  -- The payloads are what is left of the message, and the padding of the last block.
  pub join-payloads :
      (offset : ℕ) (blocks : List (List (List ℕ)))
      → offset ≤ length bytes
      → IsCovered size bytes (next_offset size bytes offset) blocks
      → (z : ℕ) × (z ≤ size)
        × (join (payloads size bytes offset blocks) ≡ drop offset bytes ++ replicate z 0)
  join-payloads offset [] h covered = elim (dec_lt size (length bytes - offset)) [
    | yes more ↦ absurd (omega (arith, covered, next_offset-full offset more, more))
    | no few ↦ (
      size - (length bytes - offset),
      omega arith,
      append-nil (piece size bytes offset) ∙ piece-last offset (omega arith),
    )
  ]
  join-payloads offset (bad ∷ blocks) h (pending, covered) =
      elim (dec_lt size (length bytes - offset)) [
        | yes more ↦
            let next = next_offset-full offset more in
            let (z, small, rest) =
              join-payloads (next_offset size bytes offset) blocks (omega (arith, pending))
                covered in
            (
              z,
              small,
              ap (λ l. l ++ join (payloads size bytes (next_offset size bytes offset) blocks))
                    (piece-full offset more)
                  ∙ ap (λ l. take size (drop offset bytes) ++ l)
                      (rest
                        ∙ ap (λ n. drop n bytes ++ replicate z 0) next
                        ∙ ap (λ l. l ++ replicate z 0) (sym (drop-drop offset size bytes)))
                  ∙ sym (
                      append_assoc (take size (drop offset bytes)) (drop size (drop offset bytes))
                        (replicate z 0))
                  ∙ ap (λ l. l ++ replicate z 0) (take-append-drop size (drop offset bytes)),
            )
        | no few ↦ absurd (omega (arith, pending, next_offset-last offset h (omega arith)))
      ]
