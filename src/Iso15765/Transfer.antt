-- ===== src/Iso15765/Transfer.antt =====
-- A segmented message of prot_iso15765.h arrives as it was sent.
use decom.Base.{
  ℕ, zero, suc, ◌+◌, ◌-◌, ◌%◌, ◌≤◌, ◌<◌, ◌≡◌, refl, ap, sym, ◌∙◌, true, false, none, some, List, [],
  ◌∷◌, ◌++◌, ltb, leb, ◌==◌, length, take, drop, replicate, if◌then◌else◌, arith, append-nil,
  append_assoc, length-append, length-take, length-drop, take_all, take-append_le, Bool-cases, inl,
  inr, ==_refl,
}
use decom.Layer.{Eid, to_upper}
use decom.Iso15765.Link.{is_running}
use decom.Iso15765.Types.{
  Iso, npci_consecutive_frame, cf_datalength, frame_length, n_cr, low_nibble, high_nibble, resize,
  addressed, padded,
}
use decom.Iso15765.Transmit.{consecutive_frame}
use decom.Iso15765.Receive.{take_consecutive, receive_consecutive, receive_frame, receive}

take-nil : {A : Type 0} (n : ℕ) → take {A = A} n [] ≡ []
take-nil zero = refl
take-nil (suc n) = refl

take-take-drop :
    {A : Type 0} (d c : ℕ) (xs : List A) → take d xs ++ take c (drop d xs) ≡ take (d + c) xs
take-take-drop zero c xs = ap (λ n. take n xs) (omega arith)
take-take-drop (suc d) zero [] = sym (take-nil (suc d + 0))
take-take-drop (suc d) (suc c) [] = sym (take-nil (suc d + suc c))
take-take-drop (suc d) c (x ∷ xs) =
    let n : suc (d + c) ≡ suc d + c = omega arith in
    ap (λ l. x ∷ l) (take-take-drop d c xs) ∙ ap (λ n. take n (x ∷ xs)) n

-- The number of padding bytes behind a frame.
abbrev pub pad_length : Iso → List ℕ → ℕ
pad_length s frame =
    if s.use_zero_padding
    then (if ltb (length (addressed s frame)) frame_length
        then frame_length - length (addressed s frame)
        else 0)
    else 0

pub padded-addressed :
    (s : Iso) (frame : List ℕ)
    → padded s (addressed s frame) ≡ addressed s (frame ++ replicate (pad_length s frame) 0)
padded-addressed s frame = elim (Bool-cases s.use_zero_padding) [
  | inl pad ↦ elim (Bool-cases s.use_ext_adr) [
    | inl ext ↦ rw (pad, ext) refl
    | inr normal ↦ rw (pad, normal) refl
  ]
  | inr exact ↦ rw (exact, append-nil)
]

-- Two layers whose addressing agrees, in the direction from `a` to `b`.
pub record Tuned (a b : Iso) : Type 0 where
  pub mode : b.use_ext_adr ≡ a.use_ext_adr
  pub address : b.ext_source_adr ≡ a.ext_target_adr

pub receive-addressed :
    {a b : Iso} (frame : List ℕ) (id : Eid)
    → Tuned a b
    → receive b (addressed a frame) id ≡ receive_frame b frame id
unfolding receive
receive-addressed {a} {b} frame id t = elim (Bool-cases a.use_ext_adr) [
  | inl ext ↦ rw (receive, t.mode, t.address, ext, ==_refl) refl
  | inr normal ↦ rw (receive, t.mode, normal) refl
]

receive_frame-consecutive :
    (b : Iso) (x : ℕ) (rest : List ℕ) (id : Eid)
    → receive_frame b ((npci_consecutive_frame + low_nibble x) ∷ rest) id
      ≡ receive_consecutive b ((npci_consecutive_frame + low_nibble x) ∷ rest) id
unfolding receive_frame
receive_frame-consecutive b x rest id = rw (receive_frame, npci) refl
  where
    npci : high_nibble (npci_consecutive_frame + low_nibble x) ≡ npci_consecutive_frame
    npci = omega arith

-- Between two consecutive frames of a transfer of `bytes`: `d` of them have arrived.
pub record Between (bytes : List ℕ) (d : ℕ) (a b : Iso) : Type 0 where
  pub tuned : Tuned a b
  pub small : length bytes ≤ 4095
  pub pending : d < length bytes
  pub sent : a.cf_frame ≡ bytes
  pub position : a.cf_dl ≡ d
  pub total : a.cf_size ≡ length bytes
  pub no_block_a : a.fc_bs ≡ 0
  pub arrived : b.cf_frame ≡ take d bytes
  pub expected : b.cf_dl ≡ length bytes
  pub in_step : b.cf_sn ≡ a.cf_sn % 16
  pub no_block_b : b.cf_bs ≡ 0
  pub running : is_running a.timer_tx_cf ≡ true

-- The bytes of the consecutive frame that `a` sends next.
abbrev chunk : Iso → List ℕ
chunk a = take (cf_datalength a.use_ext_adr) (drop a.cf_dl a.cf_frame)

abbrev header : Iso → ℕ
header a = npci_consecutive_frame + low_nibble a.cf_sn

-- What `b` makes of that frame, padding included.
receive-consecutive_frame :
    (a b : Iso) (id : Eid)
    → Tuned a b
    → receive b (consecutive_frame a) id
      ≡ receive_consecutive b
          (header a ∷ (chunk a ++ replicate (pad_length a (header a ∷ chunk a)) 0))
          id
receive-consecutive_frame a b id t =
    rw
      (
        padded-addressed a (header a ∷ chunk a),
        receive-addressed (header a ∷ (chunk a ++ replicate (pad_length a (header a ∷ chunk a)) 0))
            id t,
      )
      (receive_frame-consecutive b a.cf_sn
        (chunk a ++ replicate (pad_length a (header a ∷ chunk a)) 0) id)

receive_consecutive-expected :
    (b : Iso) (x : ℕ) (rest : List ℕ) (id : Eid)
    → 0 < b.cf_dl
    → b.cf_sn ≡ x % 16
    → receive_consecutive b ((npci_consecutive_frame + low_nibble x) ∷ rest) id
      ≡ take_consecutive
          (record b { timer_rx_cf = none })
          ((npci_consecutive_frame + low_nibble x) ∷ rest)
          id
unfolding receive_consecutive
receive_consecutive-expected b x rest id pos e = rw (receive_consecutive, busy, same) refl
  where
    busy : (b.cf_dl == 0) ≡ false
    busy = ground arith

    same : (low_nibble (npci_consecutive_frame + low_nibble x) == b.cf_sn) ≡ true
    same = ground arith

-- The frame is not complete yet, and no block size is set.
take_consecutive-more :
    (b : Iso) (hd : ℕ) (rest : List ℕ) (id : Eid)
    → length (b.cf_frame ++ rest) < b.cf_dl
    → b.cf_bs ≡ 0
    → take_consecutive b (hd ∷ rest) id ≡ (
      record b {
        cf_sn = (b.cf_sn + 1) % 16;
        cf_frame = b.cf_frame ++ rest;
        timer_rx_cf = some n_cr;
      },
      [],
    )
unfolding take_consecutive
take_consecutive-more b hd rest id less no_block = rw (take_consecutive, more, no_block_set) refl
  where
    more : leb b.cf_dl (length (b.cf_frame ++ rest)) ≡ false
    more = ground arith

    no_block_set : (b.cf_bs == 0) ≡ true
    no_block_set = ground arith

take_consecutive-done :
    (b : Iso) (hd : ℕ) (rest : List ℕ) (id : Eid)
    → b.cf_dl ≤ length (b.cf_frame ++ rest)
    → (take_consecutive b (hd ∷ rest) id).1
      ≡ to_upper (resize b.cf_dl (b.cf_frame ++ rest)) id false ∷ []
unfolding take_consecutive
take_consecutive-done b hd rest id enough = rw (take_consecutive, complete) refl
  where
    complete : leb b.cf_dl (length (b.cf_frame ++ rest)) ≡ true
    complete = ground arith

resize-padded : (bytes : List ℕ) (k : ℕ) → resize (length bytes) (bytes ++ replicate k 0) ≡ bytes
resize-padded bytes k =
    rw
      (
        take-append_le (length bytes) bytes (replicate k 0) (omega arith),
        take_all (length bytes) bytes (omega arith),
        none_left,
        append-nil,
      )
      refl
  where
    none_left : length bytes - length (bytes ++ replicate k 0) ≡ 0
    none_left = omega (arith, length-append bytes (replicate k 0))

-- A frame with as many data as fit is not padded.
pad_length-full :
    (a : Iso) (hd : ℕ) (ch : List ℕ)
    → length ch ≡ cf_datalength a.use_ext_adr
    → pad_length a (hd ∷ ch) ≡ 0
pad_length-full a hd ch e = ground arith

module _ {bytes : List ℕ} {d : ℕ} {a b : Iso} (v : Between bytes d a b) where
  chunk_is : chunk a ≡ take (cf_datalength a.use_ext_adr) (drop d bytes)
  chunk_is = rw (v.sent, v.position) refl

  length-chunk_full :
      d + cf_datalength a.use_ext_adr < length bytes
      → length (chunk a) ≡ cf_datalength a.use_ext_adr
  length-chunk_full h =
      rw chunk_is (
        omega
          (arith, length-take (cf_datalength a.use_ext_adr) (drop d bytes), length-drop d bytes))

  no_padding :
      d + cf_datalength a.use_ext_adr < length bytes → pad_length a (header a ∷ chunk a) ≡ 0
  no_padding h = pad_length-full a (header a) (chunk a) (length-chunk_full h)

  arrived_next :
      d + cf_datalength a.use_ext_adr < length bytes
      → b.cf_frame ++ chunk a ≡ take (d + cf_datalength a.use_ext_adr) bytes
  arrived_next h = rw (v.arrived, chunk_is) (take-take-drop d (cf_datalength a.use_ext_adr) bytes)

  -- Everything has arrived with the last chunk, padding apart.
  arrived_all :
      length bytes ≤ d + cf_datalength a.use_ext_adr
      → (k : ℕ) → b.cf_frame ++ (chunk a ++ replicate k 0) ≡ bytes ++ replicate k 0
  arrived_all h k =
      rw
        (
          v.arrived,
          chunk_is,
          ← append_assoc,
          take-take-drop d (cf_datalength a.use_ext_adr) bytes,
          take_all (d + cf_datalength a.use_ext_adr) bytes h,
        )
        refl

  pub receives_more :
      (id : Eid)
      → d + cf_datalength a.use_ext_adr < length bytes
      → receive b (consecutive_frame a) id ≡ (
        record b {
          cf_sn = (b.cf_sn + 1) % 16;
          cf_frame = take (d + cf_datalength a.use_ext_adr) bytes;
          timer_rx_cf = some n_cr;
        },
        [],
      )
  receives_more id h =
      receive-consecutive_frame a b id v.tuned
      ∙ rw (no_padding h, append-nil)
          (receive_consecutive-expected b a.cf_sn (chunk a) id (omega (arith, v.expected, h))
              v.in_step
            ∙ take_consecutive-more (record b { timer_rx_cf = none }) (header a) (chunk a) id
                (omega (
                  arith,
                  v.expected,
                  ap length (arrived_next h),
                  length-take (d + cf_datalength a.use_ext_adr) bytes,
                ))
                v.no_block_b
            ∙ rw (arrived_next h) refl)

  pub receives_all :
      (id : Eid)
      → length bytes ≤ d + cf_datalength a.use_ext_adr
      → (receive b (consecutive_frame a) id).1 ≡ to_upper bytes id false ∷ []
  receives_all id h =
      let k = pad_length a (header a ∷ chunk a) in
      rw
        (
          receive-consecutive_frame a b id v.tuned,
          receive_consecutive-expected b a.cf_sn (chunk a ++ replicate k 0) id
              (omega (arith, v.expected, v.pending)) v.in_step,
          take_consecutive-done (record b { timer_rx_cf = none }) (header a)
              (chunk a ++ replicate k 0) id
              (omega (
                arith,
                v.expected,
                ap length (arrived_all h k),
                length-append bytes (replicate k 0),
              )),
        )
        (ap (λ bs. to_upper bs id false ∷ [])
          (rw (arrived_all h k, v.expected) (resize-padded bytes k)))
