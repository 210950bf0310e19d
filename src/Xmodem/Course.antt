-- ===== src/Xmodem/Course.antt =====
-- The course of a transmission of prot_xmodem.cpp, from the receiver's first answer to the end.
use decom.Base.{
  ℕ, suc, ◌+◌, ◌-◌, ◌%◌, ◌^◌, ◌<◌, ◌≡◌, refl, ap, sym, ◌∙◌, Bool, true, false, Option, none, some,
  List, [], ◌∷◌, ◌++◌, ltb, ◌==◌, length, take, drop, replicate, if◌then◌else◌, arith, All,
  append_assoc,
}
use decom.Layer.{Eid, Effect, to_lower, indicate, tx_done}
use decom.Xmodem.Machine.{
  Xmodem, XmodemState, idle, recv_wait, recv, xmit_wait, xmit, xmit_eot, ack, eot, timeout_ack,
  block_size, frame, send_block, is_single, on_ack, on_failure, on_state, receive, max_retries,
}

-- What goes out before the rest of a run.
abbrev pub after : List Effect → Option (Xmodem × List Effect) → Option (Xmodem × List Effect)
after out none = none
after out (some (s, out')) = some (s, out ++ out')

abbrev pub then_hear :
    Option (Xmodem × List Effect)
    → (Xmodem → Option (Xmodem × List Effect))
    → Option (Xmodem × List Effect)
then_hear none k = none
then_hear (some (s, out)) k = after out (k s)

-- Messages of the receiver, heard one after the other.
unfoldable pub hear : Xmodem → List (List ℕ) → Option (Xmodem × List Effect)
hear s [] = some (s, [])
hear s (m ∷ ms) = then_hear (receive s m) (λ s'. hear s' ms)

-- The answers to each block, up to its acknowledge, and those to the end of the transmission.
abbrev pub answers : List (List (List ℕ)) → List (List ℕ) → List (List ℕ)
answers [] last = last ++ ((ack ∷ []) ∷ [])
answers (bad ∷ blocks) last = bad ++ ((ack ∷ []) ∷ answers blocks last)

abbrev pub IsBad : List ℕ → Type 0
IsBad m = is_single m ack ≡ false

-- No block is refused ten times; `k` times the last one has been refused.
abbrev pub IsPatient : ℕ → List (List (List ℕ)) → List (List ℕ) → Type 0
IsPatient k [] last = (k + length last < max_retries) × All IsBad last
IsPatient k (bad ∷ blocks) last =
    (length bad < max_retries) × All IsBad bad × IsPatient (length bad) blocks last

-- The payload of the block at an offset.
abbrev pub piece : (size : ℕ) → List ℕ → (offset : ℕ) → List ℕ
piece size bytes offset =
    let left = length bytes - offset in
    let n = if ltb size left then size else left in
    take n (drop offset bytes) ++ replicate (size - n) 0

-- The offset behind the block.
abbrev pub next_offset : (size : ℕ) → List ℕ → (offset : ℕ) → ℕ
next_offset size bytes offset =
    let left = length bytes - offset in offset + (if ltb size left then size else left)

-- The blocks that remain number as many as there are answers to them.
abbrev pub IsCovered : (size : ℕ) → List ℕ → (offset : ℕ) → List (List (List ℕ)) → Type 0
IsCovered size bytes offset [] = length bytes ≡ offset
IsCovered size bytes offset (bad ∷ blocks) =
    (offset < length bytes) × IsCovered size bytes (next_offset size bytes offset) blocks

abbrev pub is_busy : XmodemState → Bool
is_busy idle = false
is_busy recv_wait = false
is_busy recv = false
is_busy xmit_wait = false
is_busy xmit_eot = true
is_busy xmit = true

on_state-busy :
    (st : XmodemState) (s : Xmodem) (m : List ℕ)
    → is_busy st ≡ true
    → on_state st s m ≡ (if is_single m ack then on_ack s else on_failure s)
unfolding on_state
on_state-busy idle s m busy = cc
on_state-busy recv_wait s m busy = cc
on_state-busy recv s m busy = cc
on_state-busy xmit_wait s m busy = cc
on_state-busy xmit_eot s m busy = refl
on_state-busy xmit s m busy = refl

-- Adding to what goes out twice.
after-after :
    (xs ys : List Effect) (r : Option (Xmodem × List Effect))
    → after xs (after ys r) ≡ after (xs ++ ys) r
after-after xs ys none = refl
after-after xs ys (some (s, out)) = ap (λ es. some (s, es)) (sym (append_assoc xs ys out))

after-nil : (r : Option (Xmodem × List Effect)) → after [] r ≡ r
after-nil none = refl
after-nil (some (s, out)) = refl

pub zero_left : (n : ℕ) → 0 + n ≡ n
zero_left n = omega arith

module _ (s : Xmodem) (bytes : List ℕ) (id : Eid) where
  -- The layer that has sent a block `k` times more than once.
  abbrev pub sending : XmodemState → (offset k : ℕ) → (block : List ℕ) → Xmodem
  sending st offset k block = record s {
    tx_buffer = bytes;
    tx_packet_number = 1;
    tx_eid = id;
    tx_more = false;
    state = st;
    tx_offset = offset;
    tx_retries = k;
    tx_block = block;
    timer_rx = some timeout_ack;
  }

  abbrev pub block_at : ℕ → List ℕ
  block_at offset = frame s.protocol_type 1 (piece (block_size s.protocol_type) bytes offset)

  -- What goes out behind the first block that is answered.
  abbrev pub rest_of : (offset : ℕ) → List (List (List ℕ)) → List (List ℕ) → List Effect
  rest_of offset [] last =
      replicate (suc (length last)) (to_lower (eot ∷ []) id false) ++ (indicate tx_done id ∷ [])
  rest_of offset (bad ∷ blocks) last =
      replicate (suc (length bad)) (to_lower (block_at offset) id false)
      ++ rest_of (next_offset (block_size s.protocol_type) bytes offset) blocks last

  -- A bad answer while the layer is busy.
  receive-bad :
      (st : XmodemState) (offset k : ℕ) (block m : List ℕ)
      → is_busy st ≡ true
      → IsBad m
      → suc k < max_retries
      → receive (sending st offset k block) m
        ≡ some (sending st offset (suc k) block, to_lower block id false ∷ [])
  unfolding receive on_failure
  receive-bad st offset k block m busy bad h =
      on_state-busy st (record (sending st offset k block) { timer_rx = none }) m busy
      ∙ rw (bad, on_failure, wraps, few) refl
    where
      wraps : (k + 1) % 2 ^ 8 ≡ suc k
      wraps = omega (arith, h)

      few : ltb (suc k) max_retries ≡ true
      few = ground (arith, h)

  pub hear-bad :
      (st : XmodemState) (offset k : ℕ) (block : List ℕ) (bad rest : List (List ℕ))
      → is_busy st ≡ true
      → All IsBad bad
      → k + length bad < max_retries
      → hear (sending st offset k block) (bad ++ rest)
        ≡ after
            (replicate (length bad) (to_lower block id false))
            (hear (sending st offset (k + length bad) block) rest)
  unfolding hear
  hear-bad st offset k block [] rest busy all h =
      rw none_more (sym (after-nil (hear (sending st offset k block) rest)))
    where
      none_more : k + 0 ≡ k
      none_more = omega arith
  hear-bad st offset k block (m ∷ bad) rest busy (h, all) few =
      ap (λ r. then_hear r (λ s'. hear s' (bad ++ rest)))
        (receive-bad st offset k block m busy h (omega (arith, few)))
      ∙ ap (after (again ∷ []))
          (hear-bad st offset (suc k) block bad rest busy all (omega (arith, few)))
      ∙ after-after (again ∷ []) (replicate (length bad) again)
          (hear (sending st offset (suc k + length bad) block) rest)
      ∙ ap (λ n. after (replicate (suc (length bad)) again) (hear (sending st offset n block) rest))
          one_more
    where
      again : Effect
      again = to_lower block id false

      one_more : suc k + length bad ≡ k + suc (length bad)
      one_more = omega arith

  -- The acknowledge of a block, with more to come or of the last one, and of the end.
  receive-ack_more :
      (offset k : ℕ) (block : List ℕ)
      → offset < length bytes
      → receive (sending xmit offset k block) (ack ∷ [])
        ≡ some (
          sending xmit (next_offset (block_size s.protocol_type) bytes offset) 0 (block_at offset),
          to_lower (block_at offset) id false ∷ [],
        )
  unfolding receive on_state on_ack send_block
  receive-ack_more offset k block h = rw (on_ack, more, send_block, within) refl
    where
      more : (length bytes == offset) ≡ false
      more = ground arith

      within : ltb (length bytes) offset ≡ false
      within = ground arith

  receive-ack_last :
      (offset k : ℕ) (block : List ℕ)
      → length bytes ≡ offset
      → receive (sending xmit offset k block) (ack ∷ [])
        ≡ some (sending xmit_eot offset k (eot ∷ []), to_lower (eot ∷ []) id false ∷ [])
  unfolding receive on_state on_ack
  receive-ack_last offset k block h = rw (on_ack, all_sent) refl
    where
      all_sent : (length bytes == offset) ≡ true
      all_sent = ground arith

  receive-ack_end :
      (offset k : ℕ) (block : List ℕ)
      → length bytes ≡ offset
      → receive (sending xmit_eot offset k block) (ack ∷ [])
        ≡ some
            (record (sending xmit_eot offset k block) { timer_rx = none }, indicate tx_done id ∷ [])
  unfolding receive on_state on_ack
  receive-ack_end offset k block h = rw (on_ack, all_sent) refl
    where
      all_sent : (length bytes == offset) ≡ true
      all_sent = ground arith

  -- The layer when the transmission has ended.
  abbrev pub ended : (offset k : ℕ) → Xmodem
  ended offset k = record (sending xmit_eot offset k (eot ∷ [])) { timer_rx = none }

  pub hear-answers :
      (offset k : ℕ) (block : List ℕ) (blocks : List (List (List ℕ))) (last : List (List ℕ))
      → IsCovered (block_size s.protocol_type) bytes offset blocks
      → IsPatient k blocks last
      → (o : ℕ) × (n : ℕ) × (hear (sending xmit offset k block) ((ack ∷ []) ∷ answers blocks last)
          ≡ some (ended o n, rest_of offset blocks last))
  unfolding hear
  hear-answers offset k block [] last covered (few, all) = (
    offset,
    k + length last,
    ap (λ r. then_hear r (λ s'. hear s' (last ++ ((ack ∷ []) ∷ []))))
          (receive-ack_last offset k block covered)
        ∙ ap (after (end ∷ []))
            (hear-bad xmit_eot offset k (eot ∷ []) last ((ack ∷ []) ∷ []) refl all few)
        ∙ ap
            (λ r.
              after (end ∷ [])
                (after (replicate (length last) end) (then_hear r (λ s'. hear s' []))))
            (receive-ack_end offset (k + length last) (eot ∷ []) covered),
  )
    where
      end : Effect
      end = to_lower (eot ∷ []) id false
  hear-answers offset k block (bad ∷ blocks) last (more, covered) (few, all, patient) =
      let (o, n, rest) =
        hear-answers (next_offset (block_size s.protocol_type) bytes offset) (length bad)
          (block_at offset) blocks last covered patient in
      (
        o,
        n,
        ap (λ r. then_hear r (λ s'. hear s' (bad ++ ((ack ∷ []) ∷ answers blocks last))))
              (receive-ack_more offset k block more)
            ∙ ap (after (to_lower (block_at offset) id false ∷ [])) (
                hear-bad xmit (next_offset (block_size s.protocol_type) bytes offset) 0
                  (block_at offset) bad ((ack ∷ []) ∷ answers blocks last) refl all
                  (omega (arith, few)))
            ∙ ap
                (λ r.
                  after (to_lower (block_at offset) id false ∷ [])
                    (after (replicate (length bad) (to_lower (block_at offset) id false)) r))
                (ap
                    (λ k'.
                      hear
                        (sending xmit (next_offset (block_size s.protocol_type) bytes offset) k'
                          (block_at offset))
                        ((ack ∷ []) ∷ answers blocks last))
                    (zero_left (length bad))
                  ∙ rest),
      )
