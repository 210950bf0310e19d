-- ===== src/Slip/RoundTrip.antt =====
-- What a SLIP receiver delivers of the frames that a SLIP sender emits.
use decom.Base.{
  join, ℕ, List, [], ◌∷◌, ◌++◌, true, false, ◌==◌, if◌then◌else◌, snoc, ◌≡◌, refl, ◌≢◌, All,
  Bool-cases, inl, inr, append-nil, append_assoc, arith, is_empty, ◌∙◌, ap, sym, ==_iff,
}
use decom.Layer.{Eid, eid_any, Effect, to_lower, to_upper, indicate, close_lower, tx_done}
use decom.Slip.{
  Slip, RxState, rcv_idle, rcv_data, end_byte, esc, stuff_byte, send, in_data, in_esc, rx_byte,
  rx_loop, receive,
}
use decom.Slip.Frame.{wire, escape, frame, stuff-escape, escape-append, send-frame}

-- A state of the receiver, by its parts.
abbrev pub at_state : RxState → List ℕ → List ℕ → Slip
at_state st m tx = record { rx_state = st; is_open = true; rx_msg = m; tx_msg = tx }

-- The stream can be cut anywhere: what a call of `receive` does not finish, the next one does.
pub rx_loop-append :
    (s : Slip) (xs ys : List ℕ)
    → rx_loop s (xs ++ ys)
      ≡ (let (s', out) = rx_loop s xs in let (s'', out') = rx_loop s' ys in (s'', out ++ out'))
unfolding rx_loop
rx_loop-append s [] ys = refl
rx_loop-append s (x ∷ xs) ys =
    rw (rx_loop-append (rx_byte s.rx_state s x).0 xs ys, append_assoc) refl

rx_opens :
    (rest tx : List ℕ)
    → rx_loop (at_state rcv_idle [] tx) (end_byte ∷ rest) ≡ rx_loop (at_state rcv_data [] tx) rest
unfolding rx_loop rx_byte
rx_opens rest tx = refl

rx_stuff_byte :
    (x : ℕ) (rest m tx : List ℕ)
    → rx_loop (at_state rcv_data m tx) (stuff_byte x ++ rest)
      ≡ rx_loop (at_state rcv_data (snoc m x) tx) rest
unfolding rx_loop rx_byte in_data in_esc stuff_byte
rx_stuff_byte x rest m tx = elim (Bool-cases (x == end_byte)) [
  | inl is_end ↦ rw ((==_iff x end_byte).0 is_end) refl
  | inr not_end ↦ elim (Bool-cases (x == esc)) [
    | inl is_esc ↦ rw ((==_iff x esc).0 is_esc) refl
    | inr not_esc ↦ rw (not_end, not_esc) (rw (not_esc, not_end) refl)
  ]
]

-- A stuffed packet in state RCV_DATA is appended to the receive buffer, with no other effect.
rx_escape :
    (packet rest m tx : List ℕ)
    → rx_loop (at_state rcv_data m tx) (escape packet ++ rest)
      ≡ rx_loop (at_state rcv_data (m ++ packet) tx) rest
unfolding escape
rx_escape [] rest m tx = rw append-nil
rx_escape (x ∷ packet) rest m tx = rw append_assoc (
    rx_stuff_byte x (escape packet ++ rest) m tx
    ∙ rx_escape packet rest (snoc m x) tx
    ∙ ap (λ l. rx_loop (at_state rcv_data l tx) rest) (append_assoc m (x ∷ []) packet))

-- The delimiter ends a packet that is not empty.
rx_end :
    (m rest tx : List ℕ)
    → m ≢ []
    → rx_loop (at_state rcv_data m tx) (end_byte ∷ rest) ≡ (
        let (s, out) = rx_loop (at_state rcv_idle [] tx) rest in
        (s, to_upper m eid_any false ∷ out))
unfolding rx_loop rx_byte in_data
rx_end [] rest tx ne = absurd (ne refl)
rx_end (x ∷ m) rest tx ne = refl

-- A whole frame, followed by more of the stream.
pub rx_frame :
    (packet rest tx : List ℕ)
    → packet ≢ []
    → rx_loop (at_state rcv_idle [] tx) (frame packet ++ rest) ≡ (
        let (s, out) = rx_loop (at_state rcv_idle [] tx) rest in
        (s, to_upper packet eid_any false ∷ out))
rx_frame packet rest tx ne =
    rw append_assoc (rx_start ∙ rx_escape packet (end_byte ∷ rest) [] tx ∙ rx_end packet rest tx ne)
  where
    rx_start :
        rx_loop (at_state rcv_idle [] tx) (end_byte ∷ (escape packet ++ (end_byte ∷ rest)))
        ≡ rx_loop (at_state rcv_data [] tx) (escape packet ++ (end_byte ∷ rest))
    rx_start = rx_opens (escape packet ++ (end_byte ∷ rest)) tx

-- The fragments of one packet, the last without `more`; the sender's effects in order.
abbrev pub send_fragments : Slip → List (List ℕ) → List ℕ → Eid → Slip × List Effect
send_fragments s [] last id = let (s', ok, out) = send true s last id false in (s', out)
send_fragments s (part ∷ parts) last id =
    let (s', ok, out) = send true s part id true in
    let (s'', out') = send_fragments s' parts last id in (s'', out ++ out')

-- Packets sent one after the other, each by one call of `send`.
abbrev pub send_packets : Slip → List (List ℕ) → Eid → Slip × List Effect
send_packets s [] id = (s, [])
send_packets s (packet ∷ packets) id =
    let (s', ok, out) = send true s packet id false in
    let (s'', out') = send_packets s' packets id in (s'', out ++ out')

-- What the upper layer gets, packet by packet.
abbrev pub deliver : List (List ℕ) → List Effect
deliver [] = []
deliver (packet ∷ packets) = to_upper packet eid_any false ∷ deliver packets

pub wire-append : (es es' : List Effect) → wire (es ++ es') ≡ wire es ++ wire es'
wire-append [] es' = refl
wire-append (to_lower bytes id more ∷ es) es' = rw (wire-append es es', append_assoc)
wire-append (to_upper bytes id more ∷ es) es' = wire-append es es'
wire-append (indicate code id ∷ es) es' = wire-append es es'
wire-append (close_lower id ∷ es) es' = wire-append es es'

-- The transmit buffer once the initial delimiter is in it.
abbrev started : List ℕ → List ℕ
started t = if is_empty t then end_byte ∷ t else t

started_grown : (t x : List ℕ) → started (started t ++ x) ≡ started t ++ x
started_grown [] x = refl
started_grown (b ∷ t) x = refl

send_more :
    (s : Slip) (part : List ℕ) (id : Eid)
    → s.is_open ≡ true
    → send true s part id true
      ≡ (record s { tx_msg = started s.tx_msg ++ escape part }, true, indicate tx_done id ∷ [])
unfolding send
send_more s part id o = rw (o, stuff-escape) (ground arith)

send_last :
    (s : Slip) (part : List ℕ) (id : Eid)
    → s.is_open ≡ true
    → (send true s part id false).2
      ≡ to_lower (snoc (started s.tx_msg ++ escape part) end_byte) id false ∷ []
unfolding send
send_last s part id o = rw (o, stuff-escape) refl

wire-send_fragments :
    (parts : List (List ℕ)) (last : List ℕ) (s : Slip) (id : Eid)
    → s.is_open ≡ true
    → wire (send_fragments s parts last id).1
      ≡ started s.tx_msg ++ snoc (escape (join parts ++ last)) end_byte
wire-send_fragments [] last s id o = rw (send_last s last id o, append-nil, append_assoc)
wire-send_fragments (part ∷ parts) last s id o = rw (send_more s part id o) (
    wire-send_fragments parts last (record s { tx_msg = started s.tx_msg ++ escape part }) id o
    ∙ rw started_grown (simp (append_assoc, escape-append)))

-- A packet handed over in fragments (all but the last with `more`) over a receiver that waits for
-- a packet arrives as one packet, the concatenation of the fragments, if that is not empty; the
-- sender is open with an empty buffer.
pub send_fragments-receive :
    (parts : List (List ℕ)) (last : List ℕ) (s : Slip) (id : Eid) (tx : List ℕ)
    → s.is_open ≡ true
    → s.tx_msg ≡ []
    → join parts ++ last ≢ []
    → receive (at_state rcv_idle [] tx) (wire (send_fragments s parts last id).1)
      ≡ (at_state rcv_idle [] tx, to_upper (join parts ++ last) eid_any false ∷ [])
unfolding receive rx_loop
send_fragments-receive parts last s id tx o e ne =
    rw (wire-send_fragments parts last s id o, e)
      (ap (rx_loop (at_state rcv_idle [] tx)) (sym (append-nil (frame (join parts ++ last))))
        ∙ rx_frame (join parts ++ last) [] tx ne)

-- Packets that are sent one after the other over a receiver that waits for a packet arrive in
-- order, complete and unchanged, whatever bytes they hold; sender and receiver end where they
-- started. The packets are not empty, the sender is open with an empty buffer.
pub send_packets-receive :
    (packets : List (List ℕ)) (s : Slip) (id : Eid) (tx : List ℕ)
    → s.is_open ≡ true
    → s.tx_msg ≡ []
    → All (λ p. p ≢ []) packets
    → let (s', out) = send_packets s packets id in
      (s' ≡ s)
      × (receive (at_state rcv_idle [] tx) (wire out) ≡ (at_state rcv_idle [] tx, deliver packets))
unfolding receive rx_loop
send_packets-receive [] s id tx o e ne = (refl, refl)
send_packets-receive (packet ∷ packets) s id tx o e ne =
    let ih = send_packets-receive packets s id tx o e ne.1 in
    rw (send-frame true s packet id o e) (
      ih.0,
      rx_frame packet (wire (send_packets s packets id).1) tx ne.0
          ∙ ap (λ (r : Slip × List Effect). (r.0, to_upper packet eid_any false ∷ r.1)) ih.1,
    )
