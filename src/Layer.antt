-- ===== src/Layer.antt =====
-- layer.h: endpoint identifiers, status codes, and what a layer does to its neighbours.
use decom.Base.{ℕ, Bool, List, ◌&&◌, ◌==◌, ltb, if◌then◌else◌, true, false}
mod Order
pub mod Stack
mod Linked
mod Stats
mod Build
mod Destroy
mod Changes
mod Tests

-- `struct eid`: a 16 byte address, read as its two 64-bit words, and a 32-bit port.
pub record Eid : Type 0 where
  pub addr0 : ℕ
  pub addr1 : ℕ
  pub port : ℕ

-- The default constructor; `eid_any` is such a value.
abbrev pub eid_any : Eid
eid_any = record { addr0 = 0; addr1 = 0; port = 0 }

-- The port constructor.
unfoldable pub eid_of_port : ℕ → Eid
eid_of_port p = record { addr0 = 0; addr1 = 0; port = p }

unfoldable pub is_any : Eid → Bool
is_any e = e.port == 0 && (e.addr0 == 0 && e.addr1 == 0)

-- `operator==`.
unfoldable pub eid_eq : Eid → Eid → Bool
eid_eq a b = a.port == b.port && (a.addr0 == b.addr0 && a.addr1 == b.addr1)

-- `operator<`.
unfoldable pub eid_lt : Eid → Eid → Bool
eid_lt a b =
    if ltb a.addr1 b.addr1
    then true
    else if ltb b.addr1 a.addr1
    then false
    else if ltb a.addr0 b.addr0
    then true
    else if ltb b.addr0 a.addr0
    then false
    else ltb a.port b.port

-- `status_type`.
pub data Status : Type 0 where
  connected disconnected : Status
  tx_done tx_error tx_timeout tx_overrun : Status
  rx_error rx_timeout rx_overrun : Status

-- The calls that a layer makes on its neighbours while it handles one call. A message is the
-- sequence of its bytes.
pub data Effect : Type 0 where
  -- `lower_->send`
  to_lower : List ℕ → Eid → Bool → Effect
  -- `upper_->receive`
  to_upper : List ℕ → Eid → Bool → Effect
  -- `upper_->indication`
  indicate : Status → Eid → Effect
  -- `lower_->close`
  close_lower : Eid → Effect
