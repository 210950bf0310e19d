-- ===== src/Layer/Stats.antt =====
-- layer.h: the handlers of the base class that hand data on, and the statistics that they keep if
-- DECOM_STATS is defined.
use decom.Base.{
  ℕ, zero, suc, ◌+◌, ◌%◌, ◌^◌, ◌<◌, ◌≡◌, refl, Bool, true, false, List, [], ◌∷◌, length, arith,
  if◌then◌else◌,
}
use decom.Layer.{Eid, Effect, to_lower, to_upper}
mod Tests

-- `statistic_type`
pub record Stats : Type 0 where
  pub bytes_in : ℕ
  pub bytes_out : ℕ
  pub packets_in : ℕ
  pub packets_out : ℕ
  pub errors_in : ℕ
  pub errors_out : ℕ

unfoldable pub stats_clear : Stats
stats_clear = record {
  bytes_in = 0;
  bytes_out = 0;
  packets_in = 0;
  packets_out = 0;
  errors_in = 0;
  errors_out = 0;
}

unfoldable pub stats_in : Stats → List ℕ → Stats
stats_in s bytes = record s {
  bytes_in = (s.bytes_in + length bytes) % 2 ^ 64;
  packets_in = (s.packets_in + 1) % 2 ^ 32;
}

unfoldable pub stats_out : Stats → List ℕ → Stats
stats_out s bytes = record s {
  bytes_out = (s.bytes_out + length bytes) % 2 ^ 64;
  packets_out = (s.packets_out + 1) % 2 ^ 32;
}

unfoldable pub stats_error_in : Stats → Stats
stats_error_in s = record s { errors_in = (s.errors_in + 1) % 2 ^ 32 }

unfoldable pub stats_error_out : Stats → Stats
stats_error_out s = record s { errors_out = (s.errors_out + 1) % 2 ^ 32 }

-- `send`: `lower` is the lower layer's answer, and `left` what it leaves of the message.
unfoldable pub send :
    (lower : Bool) (left : List ℕ)
    → Stats
    → List ℕ
    → Eid
    → (more : Bool) → Stats × List Effect × Bool
send lower left s bytes id more =
    if lower
    then (stats_out s left, to_lower bytes id more ∷ [], true)
    else (stats_error_out s, to_lower bytes id more ∷ [], false)

-- `receive`: `upper` tells that there is an upper layer.
unfoldable pub receive : (upper : Bool) → Stats → List ℕ → Eid → (more : Bool) → Stats × List Effect
receive upper s bytes id more =
    (stats_in s bytes, (if upper then to_upper bytes id more ∷ [] else []))

-- What a layer is called with.
pub data Event : Type 0 where
  sent : (lower : Bool) → (left : List ℕ) → List ℕ → Eid → (more : Bool) → Event
  heard : (upper : Bool) → List ℕ → Eid → (more : Bool) → Event

abbrev pub run : Stats → List Event → Stats
run s [] = s
run s (sent lower left bytes id more ∷ events) = run (send lower left s bytes id more).0 events
run s (heard upper bytes id more ∷ events) = run (receive upper s bytes id more).0 events

-- The bytes that the lower layer left of what it accepted, the messages that were refused, and the
-- bytes that were heard.
abbrev pub sent_bytes : List Event → ℕ
sent_bytes [] = 0
sent_bytes (sent true left bytes id more ∷ events) = length left + sent_bytes events
sent_bytes (sent false left bytes id more ∷ events) = sent_bytes events
sent_bytes (heard upper bytes id more ∷ events) = sent_bytes events

abbrev pub heard_bytes : List Event → ℕ
heard_bytes [] = 0
heard_bytes (sent lower left bytes id more ∷ events) = heard_bytes events
heard_bytes (heard upper bytes id more ∷ events) = length bytes + heard_bytes events

abbrev pub refused : List Event → ℕ
refused [] = 0
refused (sent true left bytes id more ∷ events) = refused events
refused (sent false left bytes id more ∷ events) = suc (refused events)
refused (heard upper bytes id more ∷ events) = refused events

run-sums :
    (s : Stats) (events : List Event)
    → s.bytes_out < 2 ^ 64
    → s.bytes_in < 2 ^ 64
    → s.errors_out < 2 ^ 32
    → ((run s events).bytes_out ≡ (s.bytes_out + sent_bytes events) % 2 ^ 64)
      × ((run s events).bytes_in ≡ (s.bytes_in + heard_bytes events) % 2 ^ 64)
      × ((run s events).errors_out ≡ (s.errors_out + refused events) % 2 ^ 32)
unfolding send receive stats_in stats_out stats_error_out
run-sums s [] o i e = (omega (arith, o), omega (arith, i), omega (arith, e))
run-sums s (sent true left bytes id more ∷ events) o i e =
    let ih = run-sums (stats_out s left) events (omega arith) i e in
    (omega (arith, ih.0), ih.1, ih.2)
run-sums s (sent false left bytes id more ∷ events) o i e =
    let ih = run-sums (stats_error_out s) events o i (omega arith) in
    (ih.0, ih.1, omega (arith, ih.2))
run-sums s (heard upper bytes id more ∷ events) o i e =
    let ih = run-sums (stats_in s bytes) events o (omega arith) e in
    (ih.0, omega (arith, ih.1), ih.2)

-- The statistics of a layer that was just built, behind any messages sent and heard: the bytes that
-- the lower layer left of the messages that it accepted modulo 2^64, the bytes that were heard modulo
-- 2^64, and the messages that the lower layer refused modulo 2^32.
pub run-totals :
    (events : List Event)
    → ((run stats_clear events).bytes_out ≡ sent_bytes events % 2 ^ 64)
      × ((run stats_clear events).bytes_in ≡ heard_bytes events % 2 ^ 64)
      × ((run stats_clear events).errors_out ≡ refused events % 2 ^ 32)
unfolding stats_clear
run-totals events =
    let sums = run-sums stats_clear events (omega arith) (omega arith) (omega arith) in
    (omega (arith, sums.0), omega (arith, sums.1), omega (arith, sums.2))
