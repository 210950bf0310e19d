-- ===== src/Iso15765/Begin.antt =====
-- The first frame of a transfer of prot_iso15765.h and the receiver's answer to it.
use decom.Base.{
  ℕ, ◌+◌, ◌-◌, ◌*◌, ◌/◌, ◌%◌, ◌^◌, ◌≤◌, ◌<◌, ◌≡◌, refl, ◌∙◌, true, false, none, some, List, [], ◌∷◌,
  ltb, leb, length, take, replicate, arith, append-nil, length-take, take_all,
}
use decom.Layer.{Eid, to_lower}
use decom.Iso15765.Types.{
  Iso, npci_first_frame, npci_flow_control, npci_invalid, ff_datalength, sf_datalength, n_cr, n_bs,
  low_nibble, high_nibble, resize, addressed, padded,
}
use decom.Iso15765.Transmit.{first_frame, on_tx_done, indication, send, send_first, start_frame}
use decom.Iso15765.Receive.{receive_first, receive_flow_control, send_fc, receive_frame, receive}
use decom.Iso15765.Link.{hear, begin}
use decom.Iso15765.Transfer.{Tuned, Between, receive-addressed, padded-addressed, pad_length}

-- Two layers that are ready for a segmented transfer of `bytes` from `a` to `b`.
pub record IsReady (bytes : List ℕ) (a b : Iso) : Type 0 where
  pub there : Tuned a b
  pub back : Tuned b a
  pub idle : a.tx_frame ≡ npci_invalid
  pub long : sf_datalength a.use_ext_adr < length bytes
  pub sendable : length bytes ≤ a.cf_max_dl
  pub acceptable : length bytes ≤ b.cf_max_dl
  pub small : length bytes ≤ 4095
  pub no_block : b.cf_bs ≡ 0

-- The flow control frame that the receiver `b` answers with.
abbrev pub clear_to_send : Iso → List ℕ
clear_to_send b = padded b (addressed b (npci_flow_control ∷ b.cf_bs ∷ b.cf_stmin ∷ []))

-- The receiver when it has answered.
abbrev answering : Iso → List ℕ → Iso
answering b bytes = record b {
  cf_dl = length bytes;
  cf_frame = take (ff_datalength b.use_ext_adr) bytes;
  cf_sn = 1;
  cf_bs_cnt = 0;
  tx_frame = npci_flow_control;
  timer_rx_cf = some n_cr;
}

resize-take : (n : ℕ) (bytes : List ℕ) → n ≤ length bytes → resize n (take n bytes) ≡ take n bytes
resize-take n bytes h =
    rw (take_all n (take n bytes) (omega (arith, length-take n bytes)), none_missing, append-nil)
      refl
  where
    none_missing : n - length (take n bytes) ≡ 0
    none_missing = omega (arith, length-take n bytes)

module _ {bytes : List ℕ} {a b : Iso} (r : IsReady bytes a b) (id : Eid) where
  send_starts : send true a bytes id ≡ (
    record (start_frame a bytes id) { timer_tx_fc = some n_bs },
    true,
    to_lower (first_frame a bytes) id false ∷ [],
  )
  unfolding send send_first
  send_starts = rw (send, fits, r.idle, many, send_first) refl
    where
      fits : ltb a.cf_max_dl (length bytes) ≡ false
      fits = ground (arith, r.sendable)

      many : leb (length bytes) (sf_datalength a.use_ext_adr) ≡ false
      many = ground (arith, r.long)

  size_again :
      low_nibble (npci_first_frame + low_nibble (length bytes % 2 ^ 16 / 2 ^ 8)) * 2 ^ 8
        + length bytes % 2 ^ 16 % 2 ^ 8
      ≡ length bytes
  size_again = omega (arith, r.small)

  -- The receiver takes the first frame and answers it.
  first_received :
      receive b (first_frame a bytes) id
      ≡ (answering b bytes, to_lower (clear_to_send b) id false ∷ [])
  unfolding receive_frame receive_first send_fc
  first_received =
      receive-addressed
        ((npci_first_frame + low_nibble (length bytes % 2 ^ 16 / 2 ^ 8))
          ∷ (length bytes % 2 ^ 16 % 2 ^ 8)
          ∷ take (ff_datalength a.use_ext_adr) bytes)
        id r.there
      ∙ rw
          (
            receive_frame,
            npci,
            receive_first,
            size_again,
            long_enough,
            fits,
            ← r.there.mode,
            resize-take (ff_datalength b.use_ext_adr) bytes fill,
          )
          refl
    where
      npci :
          high_nibble (npci_first_frame + low_nibble (length bytes % 2 ^ 16 / 2 ^ 8))
          ≡ npci_first_frame
      npci = omega arith

      long_enough : ltb (length bytes) (ff_datalength b.use_ext_adr + 2) ≡ false
      long_enough = ground (arith, r.long, r.there.mode)

      fill : ff_datalength b.use_ext_adr ≤ length bytes
      fill = ground (arith, r.long, r.there.mode)

      fits : ltb b.cf_max_dl (length bytes) ≡ false
      fits = ground (arith, r.acceptable)

-- What a sender `s` makes of a flow control frame of `b` that clears it to send.
abbrev cleared : Iso → Iso → Iso
cleared s b = record s {
  timer_tx_fc = none;
  fc_fs = 0;
  fc_bs = b.cf_bs;
  fc_stmin = b.cf_stmin;
  cf_bs_cnt = 0;
  timer_tx_cf = some b.cf_stmin;
}

flow_control-received :
    (s b : Iso) (id : Eid) → Tuned b s → receive s (clear_to_send b) id ≡ (cleared s b, [])
unfolding receive_frame receive_flow_control
flow_control-received s b id t =
    rw
      (
        padded-addressed b (npci_flow_control ∷ b.cf_bs ∷ b.cf_stmin ∷ []),
        receive-addressed (npci_flow_control ∷ b.cf_bs ∷ b.cf_stmin ∷ zeros) id t,
        receive_frame,
        receive_flow_control,
        whole,
      )
      refl
  where
    zeros : List ℕ
    zeros = replicate (pad_length b (npci_flow_control ∷ b.cf_bs ∷ b.cf_stmin ∷ [])) 0

    whole : ltb (length (npci_flow_control ∷ b.cf_bs ∷ b.cf_stmin ∷ zeros)) 3 ≡ false
    whole = ground arith

module _ {bytes : List ℕ} {a b : Iso} (r : IsReady bytes a b) (id : Eid) where
  -- The link once the receiver's answer has come back.
  pub begin_lem : begin a b bytes id ≡ record {
    sender =
        cleared
          (record (start_frame a bytes id) { timer_tx_fc = some n_bs; tx_frame = npci_invalid })
          b;
    receiver = record (answering b bytes) { tx_frame = npci_invalid };
    told = [];
    answers = to_lower (clear_to_send b) id false ∷ [];
  }
  unfolding begin hear indication on_tx_done
  begin_lem =
      rw
        (
          begin,
          send_starts r id,
          hear,
          first_received r id,
          hear,
          indication,
          flow_control-received
              (record (start_frame a bytes id) { timer_tx_fc = some n_bs; tx_frame = npci_invalid })
              b id (record { mode = r.back.mode; address = r.back.address }),
        )
        refl

  pub begin-Between :
      Between bytes
        (ff_datalength a.use_ext_adr)
        (begin a b bytes id).sender
        (begin a b bytes id).receiver
  begin-Between = rw begin_lem (record {
    tuned = record { mode = r.there.mode; address = r.there.address };
    small = r.small;
    pending = ground (arith, r.long);
    sent = refl;
    position = refl;
    total = omega (arith, r.small);
    no_block_a = r.no_block;
    arrived = rw r.there.mode refl;
    expected = refl;
    in_step = refl;
    no_block_b = r.no_block;
    running = refl;
  })
