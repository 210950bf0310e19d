-- ===== src/Serial/Param.antt =====
-- src/impl/windows/com/com_serial.h: the parameters of a port, and what `set_param` makes of them.
use decom.Base.{ℕ, ◌+◌, ◌-◌, ◌%◌, ◌^◌, Bool, true, false, not}

pub data StopbitType : Type 0 where
  stopbit_0 stopbit_05 stopbit_1 stopbit_15 stopbit_2 : StopbitType

pub data ParityType : Type 0 where
  parity_none parity_odd parity_even parity_mark parity_space : ParityType

pub data FlowctrlType : Type 0 where
  flowctrl_none flowctrl_rts_cts flowctrl_dtr_dsr flowctrl_xon_xoff : FlowctrlType

abbrev pub stopbit_number : StopbitType → ℕ
stopbit_number stopbit_0 = 0
stopbit_number stopbit_05 = 1
stopbit_number stopbit_1 = 2
stopbit_number stopbit_15 = 3
stopbit_number stopbit_2 = 4

abbrev pub parity_number : ParityType → ℕ
parity_number parity_none = 0
parity_number parity_odd = 1
parity_number parity_even = 2
parity_number parity_mark = 3
parity_number parity_space = 4

abbrev pub is_no_parity : ParityType → Bool
is_no_parity parity_none = true
is_no_parity parity = false

abbrev pub is_rts_cts : FlowctrlType → Bool
is_rts_cts flowctrl_rts_cts = true
is_rts_cts flow = false

abbrev pub is_dtr_dsr : FlowctrlType → Bool
is_dtr_dsr flowctrl_dtr_dsr = true
is_dtr_dsr flow = false

abbrev pub is_xon_xoff : FlowctrlType → Bool
is_xon_xoff flowctrl_xon_xoff = true
is_xon_xoff flow = false

pub record Params : Type 0 where
  pub baudrate : ℕ
  pub databits : ℕ
  pub parity : ParityType
  pub stopbits : StopbitType
  pub handshake : FlowctrlType

-- The members of the system's `DCB` that depend on the parameters, and three of those that do not.
pub record Dcb : Type 0 where
  pub f_parity : Bool
  pub baud_rate : ℕ
  pub f_outx_cts_flow : Bool
  pub f_outx_dsr_flow : Bool
  pub dtr_handshake : Bool
  pub f_out_x : Bool
  pub f_in_x : Bool
  pub rts_handshake : Bool
  pub byte_size : ℕ
  pub parity : ℕ
  pub stop_bits : ℕ
  pub xon_char : ℕ
  pub xoff_char : ℕ
  pub eof_char : ℕ

-- The numbers of the stop bits are those of the system and two more; the difference is cast to a byte.
unfoldable pub dcb_of : Params → Dcb
dcb_of p = record {
  f_parity = not (is_no_parity p.parity);
  baud_rate = p.baudrate;
  f_outx_cts_flow = is_rts_cts p.handshake;
  f_outx_dsr_flow = is_dtr_dsr p.handshake;
  dtr_handshake = is_dtr_dsr p.handshake;
  f_out_x = is_xon_xoff p.handshake;
  f_in_x = is_xon_xoff p.handshake;
  rts_handshake = is_rts_cts p.handshake;
  byte_size = p.databits;
  parity = parity_number p.parity;
  stop_bits = (stopbit_number p.stopbits + 2 ^ 32 - 2) % 256;
  xon_char = 0x11;
  xoff_char = 0x13;
  eof_char = 0x04;
}
