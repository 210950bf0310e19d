-- ===== src/Iso15765/LostFrame.antt =====
-- What prot_iso15765.h does with consecutive frames behind a lost one.
use decom.Base.{
  ℕ, suc, ◌+◌, ◌-◌, ◌%◌, ◌^◌, ◌<◌, ◌≡◌, ◌≢◌, refl, ap, ◌∙◌, false, none, List, [], ◌∷◌, ◌++◌, ◌==◌,
  arith, All, ==_ne,
}
use decom.Layer.{Eid, Effect}
use decom.Iso15765.Types.{Iso, npci_consecutive_frame, low_nibble, high_nibble, byte_at}
use decom.Iso15765.Receive.{receive_consecutive, receive_frame, receive}

-- A consecutive frame with neither the expected sequence number nor the one before it.
pub record IsOutOfTurn (expected : ℕ) (frame : List ℕ) : Type 0 where
  pub consecutive : high_nibble (byte_at frame 0) ≡ npci_consecutive_frame
  pub unexpected : low_nibble (byte_at frame 0) ≢ expected
  pub not_repeated : suc (low_nibble (byte_at frame 0)) ≢ expected

-- Frames received one after the other, with all that the layer does.
unfoldable pub receive_frames : Iso → List (List ℕ) → Eid → Iso × List Effect
receive_frames s [] id = (s, [])
receive_frames s (frame ∷ frames) id =
    let (s', out) = receive s frame id in
    let (s'', out') = receive_frames s' frames id in (s'', out ++ out')

ignored :
    (s : Iso) (frame : List ℕ) (id : Eid)
    → s.use_ext_adr ≡ false
    → 0 < s.cf_dl
    → s.cf_sn < 16
    → IsOutOfTurn s.cf_sn frame
    → receive s frame id ≡ (record s { timer_rx_cf = none }, [])
unfolding receive receive_frame receive_consecutive
ignored s frame id normal busy small o =
    rw
      (
        receive, normal, receive_frame, o.consecutive, receive_consecutive, in_progress, wrong,
        no_repetition,
      )
      refl
  where
    in_progress : (s.cf_dl == 0) ≡ false
    in_progress = ground arith

    wrong : (low_nibble (byte_at frame 0) == s.cf_sn) ≡ false
    wrong = ==_ne (low_nibble (byte_at frame 0)) s.cf_sn o.unexpected

    no_repetition : (low_nibble (byte_at frame 0) == (s.cf_sn + (2 ^ 32 - 1)) % 2 ^ 32) ≡ false
    no_repetition =
        ==_ne (low_nibble (byte_at frame 0)) ((s.cf_sn + (2 ^ 32 - 1)) % 2 ^ 32)
          (λ e. o.not_repeated (omega (arith, e, small)))

stalls :
    (s : Iso) (frames : List (List ℕ)) (id : Eid)
    → s.use_ext_adr ≡ false
    → 0 < s.cf_dl
    → s.cf_sn < 16
    → All (IsOutOfTurn s.cf_sn) frames
    → receive_frames (record s { timer_rx_cf = none }) frames id
      ≡ (record s { timer_rx_cf = none }, [])
unfolding receive_frames
stalls s [] id normal busy small all = refl
stalls s (frame ∷ frames) id normal busy small (o, all) =
    ap (λ (r : Iso × List Effect). then_frames r)
      (ignored (record s { timer_rx_cf = none }) frame id normal busy small
        (record {
          consecutive = o.consecutive;
          unexpected = o.unexpected;
          not_repeated = o.not_repeated;
        }))
    ∙ stalls s frames id normal busy small all
  where
    then_frames : Iso × List Effect → Iso × List Effect
    then_frames (s', out) = let (s'', out') = receive_frames s' frames id in (s'', out ++ out')

-- A receiver under normal addressing that is in a reception, and expects a sequence number below 16,
-- gets consecutive frames, at least one, that have neither this number nor the one before it. It
-- ignores them all, tells neither neighbour, and stays in the reception with its timeout stopped.
pub lost_frame_stalls :
    (s : Iso) (frame : List ℕ) (frames : List (List ℕ)) (id : Eid)
    → s.use_ext_adr ≡ false
    → 0 < s.cf_dl
    → s.cf_sn < 16
    → All (IsOutOfTurn s.cf_sn) (frame ∷ frames)
    → receive_frames s (frame ∷ frames) id ≡ (record s { timer_rx_cf = none }, [])
unfolding receive_frames
lost_frame_stalls s frame frames id normal busy small (o, all) =
    ap
      (λ (r : Iso × List Effect).
        ((receive_frames r.0 frames id).0, r.1 ++ (receive_frames r.0 frames id).1))
      (ignored s frame id normal busy small o)
    ∙ stalls s frames id normal busy small all
