-- ===== src/Iso15765/Refused.antt =====
-- What prot_iso15765.h does when the lower layer refuses a frame.
use decom.Base.{
  ℕ, ◌≤◌, ◌≡◌, refl, false, Bool, List, [], ltb, leb, ◌==◌, length, arith, Bool-cases, inl, inr,
}
use decom.Layer.{Eid}
use decom.Iso15765.Types.{Iso, npci_invalid, sf_datalength}
use decom.Iso15765.Transmit.{send, send_single, send_first}

-- A layer whose last frame has not been confirmed refuses every message.
refuses :
    (s : Iso) (bytes : List ℕ) (lower : Bool) (id : Eid)
    → (s.tx_frame == npci_invalid) ≡ false
    → send lower s bytes id ≡ (s, false, [])
unfolding send
refuses s bytes lower id busy = elim (Bool-cases (ltb s.cf_max_dl (length bytes))) [
  | inl long ↦ rw (send, long) refl
  | inr fits ↦ rw (send, fits, busy) refl
]

busy_after :
    (s : Iso) (bytes : List ℕ) (id : Eid)
    → length bytes ≤ s.cf_max_dl
    → s.tx_frame ≡ npci_invalid
    → ((send false s bytes id).1 ≡ false)
      × (((send false s bytes id).0.tx_frame == npci_invalid) ≡ false)
unfolding send send_single send_first
busy_after s bytes id sendable idle =
    elim (Bool-cases (leb (length bytes) (sf_datalength s.use_ext_adr))) [
      | inl single ↦ rw (send, fits, idle, single, send_single) (refl, refl)
      | inr many ↦ rw (send, fits, idle, many, send_first) (refl, refl)
    ]
  where
    fits : ltb s.cf_max_dl (length bytes) ≡ false
    fits = ground (arith, sendable)

-- If the lower layer refuses the single or first frame of a message that an idle layer could send,
-- `send` returns false, and the layer then refuses any next message without asking the lower layer,
-- and keeps its state.
pub refused_send_blocks :
    (s : Iso) (bytes next : List ℕ) (lower : Bool) (id id' : Eid)
    → length bytes ≤ s.cf_max_dl
    → s.tx_frame ≡ npci_invalid
    → ((send false s bytes id).1 ≡ false)
      × (send lower (send false s bytes id).0 next id' ≡ ((send false s bytes id).0, false, []))
refused_send_blocks s bytes next lower id id' sendable idle =
    let (refused, busy) = busy_after s bytes id sendable idle in
    (refused, refuses (send false s bytes id).0 next lower id' busy)
