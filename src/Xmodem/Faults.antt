-- ===== src/Xmodem/Faults.antt =====
-- Where prot_xmodem.cpp does not do what it is for.
use decom.Msg.Pages.{Pages}
use decom.Base.{
  ℕ, zero, suc, ◌<◌, ◌≡◌, refl, ap, sym, ◌∙◌, Bool, true, false, not, ◌&&◌, none, some, List, [],
  ◌∷◌, ◌++◌, ltb, ◌==◌, length, replicate, arith, join, append-nil, append_assoc,
}
use decom.Layer.{Eid, indicate, tx_done}
use decom.Xmodem.Machine.{
  Xmodem, ProtocolType, recv_wait, xmit_eot, nak, ack, is_xmit, init, send, send_block, on_ack,
  on_state, receive, start,
}
use decom.Xmodem.Course.{after, then_hear, hear}

-- A new layer whose memory holds an offset other than 0 is started for a transmission. If the receiver
-- asks for the start before the upper layer has sent a message, the code iterates behind the end of
-- an empty message.
pub nak_before_send :
    (memory : Xmodem) (protocol : ProtocolType)
    → 0 < memory.tx_offset
    → receive (start (init memory protocol) false).0 (nak ∷ []) ≡ none
unfolding receive start init on_state send_block
nak_before_send memory protocol h = rw (send_block, behind) refl
  where
    behind : ltb 0 memory.tx_offset ≡ true
    behind = ground (arith, h)

waiting_takes :
    (s : Xmodem) (m : List ℕ)
    → s.state ≡ recv_wait
    → receive s m ≡ some (record s { rx_msg = s.rx_msg ++ m; timer_rx = none }, [])
unfolding receive on_state
waiting_takes s m h = ap (λ st. on_state st (record s { timer_rx = none }) m) h

-- A layer that waits for a reception, and hears any messages, collects their bytes: it answers none of
-- them, delivers nothing, and goes on waiting.
pub reception_only_collects :
    (s : Xmodem) (ms : List (List ℕ))
    → s.state ≡ recv_wait
    → (s' : Xmodem) × (hear s ms ≡ some (s', []))
      × (s'.rx_msg ≡ s.rx_msg ++ join ms)
      × (s'.state ≡ recv_wait)
unfolding hear
reception_only_collects s [] h = (s, refl, sym (append-nil s.rx_msg), h)
reception_only_collects s (m ∷ ms) h =
    let (s', e, taken, waits) =
      reception_only_collects (record s { rx_msg = s.rx_msg ++ m; timer_rx = none }) ms h in
    (
      s',
      ap (λ r. then_hear r (λ s'. hear s' ms)) (waiting_takes s m h) ∙ ap (after []) e,
      taken ∙ append_assoc s.rx_msg m (join ms),
      waits,
    )

on_ack-ended :
    (s : Xmodem)
    → s.state ≡ xmit_eot
    → length s.tx_buffer ≡ s.tx_offset
    → on_ack s ≡ some (s, indicate tx_done s.tx_eid ∷ [])
unfolding on_ack
on_ack-ended s h done = rw (on_ack, all_sent, not_xmit) refl
  where
    all_sent : (length s.tx_buffer == s.tx_offset) ≡ true
    all_sent = ground arith

    not_xmit : (not s.tx_more && is_xmit s.state) ≡ false
    not_xmit = ground arith

receive-ended :
    (s : Xmodem)
    → s.state ≡ xmit_eot
    → length s.tx_buffer ≡ s.tx_offset
    → receive s (ack ∷ []) ≡ some (record s { timer_rx = none }, indicate tx_done s.tx_eid ∷ [])
unfolding receive on_state
receive-ended s h done =
    ap (λ st. on_state st (record s { timer_rx = none }) (ack ∷ [])) h
    ∙ on_ack-ended (record s { timer_rx = none }) h done

-- A layer that has sent all of a last message and its end reports tx_done again for every further
-- acknowledge, and accepts neither a message nor a start.
pub end_is_final :
    (s : Xmodem) (n : ℕ) (data_ : Pages) (id : Eid) (more receiving : Bool)
    → s.state ≡ xmit_eot
    → length s.tx_buffer ≡ s.tx_offset
    → (s' : Xmodem) × (hear s (replicate n (ack ∷ []))
        ≡ some (s', replicate n (indicate tx_done s.tx_eid)))
      × (send s' data_ id more ≡ (s', false))
      × (start s' receiving ≡ (s', false))
unfolding hear send start
end_is_final s zero data_ id more receiving h done = (s, refl, rw h refl, rw h refl)
end_is_final s (suc n) data_ id more receiving h done =
    let (s', e, refused, stopped) =
      end_is_final (record s { timer_rx = none }) n data_ id more receiving h done in
    (
      s',
      ap (λ r. then_hear r (λ s'. hear s' (replicate n (ack ∷ [])))) (receive-ended s h done)
          ∙ ap (after (indicate tx_done s.tx_eid ∷ [])) e,
      refused,
      stopped,
    )
