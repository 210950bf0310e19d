-- ===== src/Iso15765/Types.antt =====
-- prot_iso15765.h: the protocol's constants and the state of the layer.
use decom.Base.{
  ℕ, ◌-◌, ◌*◌, ◌/◌, ◌%◌, Bool, false, Option, none, List, [], ◌∷◌, ◌++◌, ltb, length, get_or, take,
  replicate, if◌then◌else◌,
}
use decom.Layer.{Eid, eid_any}

abbrev pub npci_single_frame : ℕ
npci_single_frame = 0x00

abbrev pub npci_first_frame : ℕ
npci_first_frame = 0x10

abbrev pub npci_consecutive_frame : ℕ
npci_consecutive_frame = 0x20

abbrev pub npci_flow_control : ℕ
npci_flow_control = 0x30

abbrev pub npci_invalid : ℕ
npci_invalid = 0xFF

-- SF_DATALENGTH and SF_DATALENGTH_EXT, by the addressing
abbrev pub sf_datalength : Bool → ℕ
sf_datalength ext = if ext then 6 else 7

abbrev pub ff_datalength : Bool → ℕ
ff_datalength ext = if ext then 5 else 6

abbrev pub cf_datalength : Bool → ℕ
cf_datalength ext = if ext then 6 else 7

abbrev pub fc_datalength : ℕ
fc_datalength = 3

abbrev pub frame_length : ℕ
frame_length = 8

abbrev pub fc_cts : ℕ
fc_cts = 0

-- N_Bs and N_Cr, in milliseconds
abbrev pub n_bs : ℕ
n_bs = 1000

abbrev pub n_cr : ℕ
n_cr = 1000

-- The data members of class `iso15765`.
pub record Iso : Type 0 where
  pub cf_frame : List ℕ
  pub cf_eid : Eid
  pub cf_sn : ℕ
  pub cf_dl : ℕ
  pub cf_size : ℕ
  pub cf_max_dl : ℕ
  pub cf_stmin : ℕ
  pub cf_bs : ℕ
  pub cf_bs_cnt : ℕ
  pub fc_stmin : ℕ
  pub fc_bs : ℕ
  pub fc_fs : ℕ
  pub tx_frame : ℕ
  pub use_ext_adr : Bool
  pub use_zero_padding : Bool
  pub ext_source_adr : ℕ
  pub ext_target_adr : ℕ
  pub timer_tx_cf : Option ℕ
  pub timer_tx_fc : Option ℕ
  pub timer_rx_cf : Option ℕ

-- The constructor.
abbrev pub init : (stmin bs max_dl : ℕ) → Iso
init stmin bs max_dl = record {
  cf_frame = [];
  cf_eid = eid_any;
  cf_sn = 0;
  cf_dl = 0;
  cf_size = 0;
  cf_max_dl = max_dl;
  cf_stmin = stmin;
  cf_bs = bs;
  cf_bs_cnt = 0;
  fc_stmin = 0;
  fc_bs = 0;
  fc_fs = 0;
  tx_frame = npci_invalid;
  use_ext_adr = false;
  use_zero_padding = false;
  ext_source_adr = 0;
  ext_target_adr = 0;
  timer_tx_cf = none;
  timer_tx_fc = none;
  timer_rx_cf = none;
}

unfoldable pub set_extended_addressing : Bool → ℕ → ℕ → Iso → Iso
set_extended_addressing use_extended source_adr target_adr s = record s {
  use_ext_adr = use_extended;
  ext_source_adr = source_adr;
  ext_target_adr = target_adr;
}

unfoldable pub set_zero_padding : Bool → Iso → Iso
set_zero_padding on s = record s { use_zero_padding = on }

-- `b & 0x0F` and `b & 0xF0` of a byte
abbrev pub low_nibble : ℕ → ℕ
low_nibble b = b % 16

abbrev pub high_nibble : ℕ → ℕ
high_nibble b = b / 16 % 16 * 16

-- `data[i]`: out of range it is the illegal reference of `msg::at`.
abbrev pub byte_at : List ℕ → ℕ → ℕ
byte_at bytes i = get_or bytes i 0xCC

-- `msg::resize`
abbrev pub resize : ℕ → List ℕ → List ℕ
resize n bytes = take n bytes ++ replicate (n - length bytes) 0

-- The address byte before a frame, and the padding behind it.
abbrev pub addressed : Iso → List ℕ → List ℕ
addressed s frame = if s.use_ext_adr then s.ext_target_adr ∷ frame else frame

abbrev pub padded : Iso → List ℕ → List ℕ
padded s frame =
    if s.use_zero_padding
    then frame
      ++ replicate (if ltb (length frame) frame_length then frame_length - length frame else 0) 0
    else frame
