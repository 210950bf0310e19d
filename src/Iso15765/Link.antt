-- ===== src/Iso15765/Link.antt =====
-- Two layers of prot_iso15765.h on one bus, with lower layers that accept every frame.
use decom.Base.{
  ℕ, zero, suc, Bool, true, false, Option, none, some, if◌then◌else◌, List, [], ◌∷◌, ◌++◌,
}
use decom.Layer.{Eid, Effect, to_lower, to_upper, indicate, close_lower, tx_done}
use decom.Iso15765.Types.{Iso}
use decom.Iso15765.Transmit.{send, indication, timer_func_tx_cf}
use decom.Iso15765.Receive.{receive}

-- The frames among the effects of one side, received by the other one by one.
unfoldable pub hear : Iso → List Effect → Eid → Iso × List Effect
hear s [] id = (s, [])
hear s (to_lower bytes id' more ∷ es) id =
    let (s', out) = receive s bytes id in let (s'', out') = hear s' es id in (s'', out ++ out')
hear s (to_upper bytes id' more ∷ es) id = hear s es id
hear s (indicate code id' ∷ es) id = hear s es id
hear s (close_lower id' ∷ es) id = hear s es id

-- Sender and receiver of a transfer: what the sender has told its upper layer, and all that the
-- receiver has done.
pub record Link : Type 0 where
  pub sender : Iso
  pub receiver : Iso
  pub told : List Effect
  pub answers : List Effect

-- The first step: `send` hands out the first frame, the lower layer confirms it, the receiver
-- answers, and the sender hears the answer.
unfoldable pub begin : Iso → Iso → List ℕ → Eid → Link
begin a b bytes id =
    let (a1, ok, out) = send true a bytes id in
    let (b1, answer) = hear b out id in
    let (a2, told) = indication a1 tx_done id in
    let (b2, told') = indication b1 tx_done id in
    let (a3, told'') = hear a2 answer id in
    record { sender = a3; receiver = b2; told = told ++ told''; answers = answer ++ told' }

-- One more consecutive frame: the receiver gets what the sender's timer sends, and the lower layer confirms
-- it to the sender.
unfoldable pub fire : Link → Eid → Link
fire l id =
    let (a1, out) = timer_func_tx_cf true l.sender in
    let (b1, answer) = hear l.receiver out id in
    let (a2, told) = indication a1 tx_done id in
    record { sender = a2; receiver = b1; told = l.told ++ told; answers = l.answers ++ answer }

abbrev pub is_running : Option ℕ → Bool
is_running none = false
is_running (some period) = true

-- The time of the sender's timer for consecutive frames passes: nothing happens unless it was started.
unfoldable pub step : Link → Eid → Link
step l id = if is_running l.sender.timer_tx_cf then fire l id else l

unfoldable pub steps : ℕ → Link → Eid → Link
steps zero l id = l
steps (suc n) l id = steps n (step l id) id
