-- ===== src/Iso15765/RoundTrip.antt =====
-- A whole transfer of prot_iso15765.h, from `send` to delivery.
use decom.Base.{
  ℕ, zero, suc, ◌+◌, ◌%◌, ◌^◌, ◌≤◌, ◌<◌, ◌≡◌, refl, ap, ◌∙◌, true, false, none, some, List, [], ◌∷◌,
  ◌++◌, leb, ◌==◌, length, arith, append-nil, snoc, dec_lt,
}
use decom.Layer.{Eid, to_lower, to_upper, indicate, tx_done}
use decom.Iso15765.Types.{Iso, npci_consecutive_frame, npci_invalid, cf_datalength}
use decom.Iso15765.Transmit.{send_cf, confirm_cf, on_tx_done, indication, timer_func_tx_cf}
use decom.Iso15765.Link.{Link, hear, begin, fire, step, steps}
use decom.Iso15765.Begin.{IsReady, clear_to_send, begin_lem, begin-Between}
use decom.Iso15765.Transfer.{Between, receives_more, receives_all}

-- The sender after its consecutive frame is confirmed, with more to send.
abbrev moved_on : Iso → Iso
moved_on a = record a {
  tx_frame = npci_invalid;
  cf_sn = (a.cf_sn + 1) % 2 ^ 8;
  cf_dl = (a.cf_dl + cf_datalength a.use_ext_adr) % 2 ^ 16;
  timer_tx_cf = some a.fc_stmin;
}

confirmed_more :
    (a : Iso) (id : Eid)
    → (a.cf_dl + cf_datalength a.use_ext_adr) % 2 ^ 16 < a.cf_size
    → a.fc_bs ≡ 0
    → indication (record a { timer_tx_cf = none; tx_frame = npci_consecutive_frame }) tx_done id
      ≡ (moved_on a, [])
unfolding indication on_tx_done confirm_cf
confirmed_more a id less no_block = rw (indication, on_tx_done, confirm_cf, more, none_set) refl
  where
    more : leb a.cf_size ((a.cf_dl + cf_datalength a.use_ext_adr) % 2 ^ 16) ≡ false
    more = ground arith

    none_set : (a.fc_bs == 0) ≡ true
    none_set = ground arith

confirmed_all :
    (a : Iso) (id : Eid)
    → a.cf_size ≤ (a.cf_dl + cf_datalength a.use_ext_adr) % 2 ^ 16
    → (indication (record a { timer_tx_cf = none; tx_frame = npci_consecutive_frame }) tx_done id).1
      ≡ indicate tx_done id ∷ []
unfolding indication on_tx_done confirm_cf
confirmed_all a id enough = rw (indication, on_tx_done, confirm_cf, complete) refl
  where
    complete : leb a.cf_size ((a.cf_dl + cf_datalength a.use_ext_adr) % 2 ^ 16) ≡ true
    complete = ground arith

module _ {bytes : List ℕ} {d : ℕ} (l : Link) (id : Eid)
    (v : Between bytes d l.sender l.receiver) where
  cf-le : cf_datalength l.sender.use_ext_adr ≤ 7
  cf-le = ground arith

  step-Between :
      d + cf_datalength l.sender.use_ext_adr < length bytes
      → Between bytes
          (d + cf_datalength l.sender.use_ext_adr)
          (step l id).sender
          (step l id).receiver
  unfolding step fire timer_func_tx_cf send_cf hear
  step-Between h =
      rw
        (
          v.running,
          receives_more v id h,
          confirmed_more l.sender id (omega (arith, v.position, v.total, v.small, cf-le))
              v.no_block_a,
        )
        (record {
          tuned = record { mode = v.tuned.mode; address = v.tuned.address };
          small = v.small;
          pending = h;
          sent = v.sent;
          position = omega (arith, v.position, v.small, cf-le);
          total = v.total;
          no_block_a = v.no_block_a;
          arrived = refl;
          expected = v.expected;
          in_step = omega (arith, v.in_step);
          no_block_b = v.no_block_b;
          running = refl;
        })

  step-more :
      d + cf_datalength l.sender.use_ext_adr < length bytes
      → ((step l id).told ≡ l.told)
        × ((step l id).answers ≡ l.answers)
        × ((step l id).sender.use_ext_adr ≡ l.sender.use_ext_adr)
  unfolding step fire timer_func_tx_cf send_cf hear
  step-more h =
      rw
        (
          v.running,
          receives_more v id h,
          confirmed_more l.sender id (omega (arith, v.position, v.total, v.small, cf-le))
              v.no_block_a,
        )
        (append-nil l.told, append-nil l.answers, refl)

  step-last :
      length bytes ≤ d + cf_datalength l.sender.use_ext_adr
      → ((step l id).told ≡ snoc l.told (indicate tx_done id))
        × ((step l id).answers ≡ snoc l.answers (to_upper bytes id false))
  unfolding step fire timer_func_tx_cf send_cf hear
  step-last h = rw v.running (
    ap (λ es. l.told ++ es)
        (confirmed_all l.sender id (omega (arith, v.position, v.total, v.small, v.pending, cf-le))),
    rw append-nil (ap (λ es. l.answers ++ es) (receives_all v id h)),
  )

cf-pos : (a : Iso) → 0 < cf_datalength a.use_ext_adr
cf-pos a = ground arith

-- Enough steps finish a transfer that is under way.
steps-finish :
    (fuel : ℕ) {bytes : List ℕ} {d : ℕ} (l : Link) (id : Eid)
    → Between bytes d l.sender l.receiver
    → length bytes ≤ d + fuel
    → (k : ℕ) × ((steps k l id).told ≡ snoc l.told (indicate tx_done id))
      × ((steps k l id).answers ≡ snoc l.answers (to_upper bytes id false))
unfolding steps
steps-finish zero l id v h = absurd (omega (arith, v.pending))
steps-finish (suc fuel) {bytes} {d} l id v h =
    elim (dec_lt (d + cf_datalength l.sender.use_ext_adr) (length bytes)) [
      | yes more ↦
          let (k, told, answers) =
            steps-finish fuel (step l id) id (step-Between l id v more)
              (omega (arith, cf-pos l.sender)) in
          let (told_same, answers_same, mode) = step-more l id v more in
          (
            suc k,
            told ∙ ap (λ es. snoc es (indicate tx_done id)) told_same,
            answers ∙ ap (λ es. snoc es (to_upper bytes id false)) answers_same,
          )
      | no last ↦ let (told, answers) = step-last l id v (omega arith) in (1, told, answers)
    ]

-- A message that is too long for a single frame, up to 4095 bytes, is handed by an idle sender to a
-- receiver that sets no block size, with lower layers that accept and confirm every frame. The
-- receiver answers the first frame with a flow control frame; after finitely many steps it has
-- delivered exactly one message, equal to the one sent, and the sender has reported tx_done once.
-- This holds under normal and under extended addressing, with and without padding.
pub segmented_round_trip :
    (bytes : List ℕ) (a b : Iso) (id : Eid)
    → IsReady bytes a b
    → (k : ℕ) × ((steps k (begin a b bytes id) id).told ≡ indicate tx_done id ∷ [])
      × ((steps k (begin a b bytes id) id).answers
          ≡ to_lower (clear_to_send b) id false ∷ to_upper bytes id false ∷ [])
segmented_round_trip bytes a b id r =
    let (k, told, answers) =
      steps-finish (length bytes) (begin a b bytes id) id (begin-Between r id) (omega arith) in
    let start = begin_lem r id in
    (
      k,
      told ∙ ap (λ (l : Link). snoc l.told (indicate tx_done id)) start,
      answers ∙ ap (λ (l : Link). snoc l.answers (to_upper bytes id false)) start,
    )
