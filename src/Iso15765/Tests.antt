-- ===== src/Iso15765/Tests.antt =====
-- Runs of prot_iso15765.h, and its theorems at concrete messages.
use decom.Base.{none, some, true, ℕ, arith, List, [], ◌∷◌, false, ◌≡◌, refl}
use decom.Layer.{eid_any, to_upper, to_lower, indicate, tx_done}
use decom.Iso15765.Types.{npci_single_frame, npci_invalid, Iso, init}
use decom.Iso15765.Transmit.{
  send, send_first, indication, on_tx_done, confirm_cf, send_cf, timer_func_tx_cf,
}
use decom.Iso15765.Receive.{
  send_fc, receive_first, take_consecutive, receive_consecutive, receive_flow_control,
  receive_frame, receive,
}
use decom.Iso15765.Begin.{IsReady, clear_to_send}
use decom.Iso15765.Single.{single_round_trip}
use decom.Iso15765.LostFrame.{IsOutOfTurn, receive_frames, lost_frame_stalls}
use decom.Iso15765.Refused.{refused_send_blocks}
use decom.Iso15765.RoundTrip.{segmented_round_trip}
use decom.Iso15765.Link.{hear, begin, fire, step, steps}

abbrev node : Iso
node = init 5 0 4095

abbrev text : List ℕ
text = 1 ∷ 2 ∷ 3 ∷ 4 ∷ 5 ∷ 6 ∷ 7 ∷ 8 ∷ 9 ∷ 10 ∷ 11 ∷ 12 ∷ 13 ∷ 14 ∷ 15 ∷ []

two_frames :
    (steps 2 (begin node node text eid_any) eid_any).answers
    ≡ to_lower (0x30 ∷ 0 ∷ 5 ∷ []) eid_any false ∷ to_upper text eid_any false ∷ []
unfolding steps step fire begin hear receive receive_frame receive_consecutive take_consecutive
    receive_first receive_flow_control send_fc indication on_tx_done confirm_cf timer_func_tx_cf
    send_cf send send_first
two_frames = refl

text-IsReady : IsReady text node node
text-IsReady = record {
  there = record { mode = refl; address = refl };
  back = record { mode = refl; address = refl };
  idle = refl;
  long = omega arith;
  sendable = omega arith;
  acceptable = omega arith;
  small = omega arith;
  no_block = refl;
}

segmented_round_trip_example :
    (k : ℕ) × ((steps k (begin node node text eid_any) eid_any).told
      ≡ indicate tx_done eid_any ∷ [])
    × ((steps k (begin node node text eid_any) eid_any).answers
        ≡ to_lower (clear_to_send node) eid_any false ∷ to_upper text eid_any false ∷ [])
segmented_round_trip_example = segmented_round_trip text node node eid_any text-IsReady

-- A node that uses extended addressing and padding, and its peer.
abbrev extended : Iso
extended = record node {
  use_ext_adr = true;
  use_zero_padding = true;
  ext_target_adr = 7;
  ext_source_adr = 9;
}

abbrev peer : Iso
peer = record node {
  use_ext_adr = true;
  use_zero_padding = true;
  ext_target_adr = 9;
  ext_source_adr = 7;
}

single_round_trip_example :
    (frame : List ℕ) × (send true extended (1 ∷ 2 ∷ []) eid_any
      ≡ (record extended { tx_frame = npci_single_frame }, true, to_lower frame eid_any false ∷ []))
    × (receive peer frame eid_any
        ≡ (record peer { cf_dl = 0 }, to_upper (1 ∷ 2 ∷ []) eid_any false ∷ []))
    × (indication (record extended { tx_frame = npci_single_frame }) tx_done eid_any
        ≡ (record extended { tx_frame = npci_invalid }, indicate tx_done eid_any ∷ []))
single_round_trip_example = single_round_trip (1 ∷ 2 ∷ []) extended peer eid_any (record {
  there = record { mode = refl; address = refl };
  idle = refl;
  short = omega arith;
  sendable = omega arith;
})

refused_send_blocks_example :
    ((send false node text eid_any).1 ≡ false)
    × (send true (send false node text eid_any).0 (1 ∷ []) eid_any
        ≡ ((send false node text eid_any).0, false, []))
refused_send_blocks_example =
    refused_send_blocks node text (1 ∷ []) true eid_any eid_any (omega arith) refl

-- A receiver that waits for the frame with number 3.
abbrev receiving : Iso
receiving = record node { cf_dl = 100; cf_sn = 3; timer_rx_cf = some 1000 }

abbrev fourth : List ℕ
fourth = 0x24 ∷ 1 ∷ 2 ∷ 3 ∷ 4 ∷ 5 ∷ 6 ∷ 7 ∷ []

abbrev fifth : List ℕ
fifth = 0x25 ∷ 1 ∷ 2 ∷ 3 ∷ 4 ∷ 5 ∷ 6 ∷ 7 ∷ []

fourth-IsOutOfTurn : IsOutOfTurn 3 fourth
fourth-IsOutOfTurn = record {
  consecutive = refl;
  unexpected = λ e. omega (arith, e);
  not_repeated = λ e. omega (arith, e);
}

fifth-IsOutOfTurn : IsOutOfTurn 3 fifth
fifth-IsOutOfTurn = record {
  consecutive = refl;
  unexpected = λ e. omega (arith, e);
  not_repeated = λ e. omega (arith, e);
}

lost_frame_stalls_example :
    receive_frames receiving (fourth ∷ fifth ∷ []) eid_any
    ≡ (record receiving { timer_rx_cf = none }, [])
lost_frame_stalls_example =
    lost_frame_stalls receiving fourth (fifth ∷ []) eid_any refl (omega arith) (omega arith)
      (fourth-IsOutOfTurn, (fifth-IsOutOfTurn, tt))
