-- ===== src/Stream/Packets.antt =====
-- The audio frames of a stream and the packets of its drains, stream.rs.
use nbe.Prelude.{
  ℕ, ◌-◌, ◌≡◌, refl, ◌∙◌, ap, sym, subst, arith, true, false, Bool-cases, inl, inr, List, [], ◌∷◌,
  ◌++◌, append-nil, append_assoc, length, length-append, length-drop, drop_all, drop, ltb,
}
use nbe.Publisher.{PublishFrame, audio_frame}
use nbe.Stream.{StreamThread, Shared}
use nbe.Stream.Flv.{flv_audio_tag, audio_ts_ms}
use nbe.Stream.Thread.{catch_up, publish, publish_packet, send_packet, send_packets}
use nbe.Stream.AudioView.{audios, numbered, numbered-append, drop-snoc, view-publish, line}

-- After the packets `given`, with what came before the first one.
pub record On (first : List PublishFrame) (given : List (List ℕ)) (l : ℕ × ℕ)
    (fs : List PublishFrame) : Type 0 where
  pub ordered : fs ≡ first ++ numbered 0 (drop 2 given)
  pub primed : l.0 ≡ 2 - length given
  pub counted : l.1 ≡ length given - 2

primed_more :
    (first : List PublishFrame) (given : List (List ℕ)) (p : List ℕ)
    → ltb 0 (2 - length given) ≡ true
    → first ++ numbered 0 (drop 2 given) ≡ first ++ numbered 0 (drop 2 (given ++ (p ∷ [])))
primed_more first given p e =
    ap (λ xs. first ++ numbered 0 xs)
      (drop_all 2 given (ground (arith, e))
        ∙ sym (drop_all 2 (given ++ (p ∷ [])) (ground (arith, e, length-append given (p ∷ [])))))

one_more :
    (first : List PublishFrame) (given : List (List ℕ)) (p : List ℕ)
    → ltb 0 (2 - length given) ≡ false
    → (first ++ numbered 0 (drop 2 given))
        ++ (audio_frame (flv_audio_tag p) (audio_ts_ms (length given - 2)) ∷ [])
      ≡ first ++ numbered 0 (drop 2 (given ++ (p ∷ [])))
one_more first given p e =
    append_assoc first (numbered 0 (drop 2 given)) _
    ∙ ap (λ xs. first ++ xs)
        (ap (λ k. numbered 0 (drop 2 given) ++ (audio_frame (flv_audio_tag p) (audio_ts_ms k) ∷ []))
            (omega (arith, length-drop 2 given))
          ∙ sym (numbered-append 0 (drop 2 given) p)
          ∙ ap (numbered 0) (sym (drop-snoc 2 given p (ground (arith, e)))))

send_packet-On :
    (first : List PublishFrame) (given : List (List ℕ)) (t : StreamThread) (a : Shared) (p : List ℕ)
    → On first given (line t) (audios a.offered)
    → On first
        (given ++ (p ∷ []))
        (line (send_packet t a p).0)
        (audios (send_packet t a p).1.offered)
unfolding send_packet publish_packet
send_packet-On first given t a p v = elim (Bool-cases (ltb 0 t.priming_to_skip)) [
  | inl e ↦
      rw (e, send_packet)
        (record {
          ordered = v.ordered ∙ primed_more first given p (ground (arith, e, v));
          primed = ground (arith, e, v, length-append given (p ∷ []));
          counted = ground (arith, e, v, length-append given (p ∷ []));
        })
  | inr e ↦
      rw (e, send_packet)
        (record {
          ordered =
              frames
              ∙ ap (λ fs. fs ++ (f ∷ [])) v.ordered
              ∙ ap
                  (λ k.
                    (first ++ numbered 0 (drop 2 given))
                    ++ (audio_frame (flv_audio_tag p) (audio_ts_ms k) ∷ []))
                  v.counted
              ∙ one_more first given p (ground (arith, e, v));
          primed = ground (arith, e, v, length-append given (p ∷ []));
          counted = ground (arith, e, v, length-append given (p ∷ []));
        })
]
  where
    f : PublishFrame
    f = audio_frame (flv_audio_tag p) (audio_ts_ms t.audio_packets)

    frames : audios (publish_packet a f).offered ≡ audios a.offered ++ (f ∷ [])
    frames = ground (arith, view-publish a f)

pub send_packets-On :
    (first : List PublishFrame) (given : List (List ℕ)) (t : StreamThread) (a : Shared)
    (ps : List (List ℕ))
    → On first given (line t) (audios a.offered)
    → On first (given ++ ps) (line (send_packets t a ps).0) (audios (send_packets t a ps).1.offered)
unfolding send_packets
send_packets-On first given t a [] v = rw append-nil v
send_packets-On first given t a (p ∷ ps) v =
    subst
      (λ xs.
        On first xs (line (send_packets t a (p ∷ ps)).0)
          (audios (send_packets t a (p ∷ ps)).1.offered))
      (append_assoc given (p ∷ []) ps)
      (send_packets-On first (given ++ (p ∷ [])) (send_packet t a p).0 (send_packet t a p).1 ps
        (send_packet-On first given t a p v))

pub packets-send_packets :
    (t : StreamThread) (a : Shared) (ps : List (List ℕ))
    → (send_packets t a ps).1.packets ≡ a.packets
unfolding send_packets send_packet publish_packet publish catch_up
packets-send_packets t a [] = refl
packets-send_packets t a (p ∷ ps) =
    packets-send_packets (send_packet t a p).0 (send_packet t a p).1 ps ∙ ground arith
