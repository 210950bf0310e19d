-- ===== src/Generic/Tests.antt =====
-- dev_generic.h at a concrete device.
use decom.Msg.Pages.{Pages, walk}
use decom.Base.{
  true, false, none, some, List, [], ◌∷◌, ◌++◌, ℕ, ◌+◌, ◌≤◌, ◌≡◌, refl, join, if◌then◌else◌,
}
use decom.Layer.{eid_any, eid_of_port, eid_eq, is_any, connected, tx_done}
use decom.Generic.Device.{
  Generic, returns, init, open_device, indication, on_status, receive, read, is_foreign, write,
  collect, take_message,
}
use decom.Generic.Reception.{receive_parts, left, read-receive_parts}
use decom.Generic.Writes.{Event, opened, put, indicated, run, sends, credit, confirms, run-sends}

abbrev device : Generic
device = record init { is_open = true; eid = eid_of_port 7; has_callback = true }

abbrev mark : Pages → Pages
mark data_ = (0x41 ∷ []) ∷ data_

abbrev memory : ℕ → ℕ
memory behind = 0xCC

-- Three parts, the first one in two pages.
abbrev first : Pages
first = (1 ∷ 2 ∷ []) ∷ (3 ∷ []) ∷ []

abbrev second : Pages
second = (4 ∷ []) ∷ []

abbrev third : Pages
third = (5 ∷ []) ∷ []

device_open : device.is_open ≡ true
device_open = refl

own_message : is_foreign device (eid_of_port 7) ≡ false
unfolding is_foreign init eid_of_port eid_eq is_any
own_message = refl

no_part_yet : device.receive_last_more ≡ false
unfolding init
no_part_yet = refl

read-receive_parts_example :
    ((read memory none
        (receive mark
          (receive_parts mark device (first ∷ second ∷ []) (eid_of_port 7))
          third
          (eid_of_port 7)
          false).0).1
      ≡ some (
        left memory mark device.has_callback ((first ++ join (second ∷ [])) ++ third),
        device.rx_eid,
      ))
    × ((receive mark
          (receive_parts mark device (first ∷ second ∷ []) (eid_of_port 7))
          third
          (eid_of_port 7)
          false).1
        ≡ (if device.has_callback
            then some ((first ++ join (second ∷ [])) ++ third, eid_of_port 7)
            else none))
read-receive_parts_example =
    read-receive_parts memory mark device first (second ∷ []) third (eid_of_port 7)
      (device_open, own_message) no_part_yet (refl, (refl, (refl, (refl, tt))))

-- A last part without bytes gives a byte that nobody sent.
stray_byte :
    (read memory none
      (receive mark
        (receive mark (record init { is_open = true }) first eid_any true).0
        ([] ∷ [])
        eid_any
        false).0).1
    ≡ some (1 ∷ 2 ∷ 3 ∷ 0xCC ∷ [], eid_any)
unfolding read receive init is_foreign collect take_message walk eid_eq is_any eid_any
stray_byte = refl

-- The identifier that is read is not the message's.
no_identifier : device.rx_eid ≡ eid_any
unfolding init
no_identifier = refl

-- Three writes and one confirmation: two messages go out.
abbrev events : List Event
events =
    opened true (eid_of_port 7)
    ∷ indicated connected eid_any
    ∷ put true (1 ∷ []) eid_any false false
    ∷ put true (2 ∷ []) eid_any false false
    ∷ indicated tx_done eid_any
    ∷ put true (3 ∷ []) eid_any false false
    ∷ []

run-sends_example : sends (run mark init events) ≤ credit init.tx_ev + confirms events
run-sends_example = run-sends mark init events

two_sent : sends (run mark init events) ≡ 2
unfolding init open_device indication on_status is_foreign is_any eid_eq eid_of_port write
two_sent = refl

-- A write that the lower layer refuses leaves the event reset, so that the next one is refused too.
refused_blocks :
    (write true
      (write false
        (record init { is_open = true; is_connected = true })
        (1 ∷ [])
        eid_any
        false
        true).0
      (2 ∷ [])
      eid_any
      false
      true).2
    ≡ returns false
unfolding init write
refused_blocks = refl
