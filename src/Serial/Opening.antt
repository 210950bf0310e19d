-- ===== src/Serial/Opening.antt =====
-- com_serial.h: when a port is open.
use decom.Base.{ℕ, ◌≡◌, Bool, true, false, ◌&&◌, some, List, ◌∷◌, arith}
use decom.Serial.{Serial, Answers, set_param, stop_thread, close, give_up, set_up, open_layer}
use decom.Serial.Param.{dcb_of}

-- Whether the system accepts all that `open` asks for.
abbrev pub all_succeed : Answers → Serial → Bool
all_succeed a s =
    a.create_file && (a.accepts (dcb_of s.params) && (a.set_timeouts && a.begin_thread))

-- With an upper layer and a name, `open` succeeds exactly if every call of the system does; then the port
-- has both of its handles and is free to send, and otherwise it has none of them, whatever was open before.
pub open_layer_lem :
    (a : Answers) (s : Serial) (c : ℕ) (chars : List ℕ)
    → (let (s', out, ok) = open_layer a true s (some (c ∷ chars)) in
        (ok ≡ all_succeed a s)
        × (s'.com_handle ≡ all_succeed a s)
        × (s'.thread_handle ≡ all_succeed a s)
        × ((s'.tx_busy && all_succeed a s) ≡ false))
unfolding open_layer set_up give_up close stop_thread set_param
open_layer_lem a s c chars = ground arith
