-- ===== src/Stream/AudioView.antt =====
-- The audio frames of a stream, which its video leaves alone, stream.rs.
use nbe.Prelude.{
  ℕ, zero, suc, ◌+◌, ◌≤◌, ◌≡◌, refl, ◌∙◌, ap, arith, Bool-cases, inl, inr, Option, none, some,
  Option-cases, List, [], ◌∷◌, ◌++◌, append-nil, length, drop, ltb, ◌==◌, if◌then◌else◌,
}
use nbe.Mp4.{EncodedUnit}
use nbe.Rtmp.{msg_audio}
use nbe.Publisher.{PublishFrame, video_frame, audio_frame}
use nbe.Stream.{StreamThread, EncodeSession, Shared, Surface}
use nbe.Stream.Flv.{flv_video_tag, flv_audio_tag, aac_sequence_header, media_ts_ms, audio_ts_ms}
use nbe.Stream.Thread.{
  catch_up, publish, drop_frame, get_or_insert, encode_pixel_buffer_at, publish_unit, publish_units,
  publish_header, sequence_header, send_units, encode_drawn, encode_video,
}

-- The audio frames among those offered to the publisher.
abbrev pub audios : List PublishFrame → List PublishFrame
audios [] = []
audios (f ∷ fs) = let rest = audios fs in if f.kind == msg_audio then f ∷ rest else rest

-- Packets with their numbers, from a number on.
abbrev pub numbered : ℕ → List (List ℕ) → List PublishFrame
numbered n [] = []
numbered n (p ∷ ps) = audio_frame (flv_audio_tag p) (audio_ts_ms n) ∷ numbered (suc n) ps

abbrev pub announcement : Option (List ℕ) → List PublishFrame
announcement none = []
announcement (some asc) = audio_frame (aac_sequence_header asc) 0 ∷ []

audios-append :
    (fs : List PublishFrame) (f : PublishFrame)
    → audios (fs ++ (f ∷ [])) ≡ audios fs ++ (if f.kind == msg_audio then f ∷ [] else [])
audios-append [] f = ground arith
audios-append (g ∷ fs) f = ground (arith, audios-append fs f)

pub numbered-append :
    (n : ℕ) (xs : List (List ℕ)) (p : List ℕ)
    → numbered n (xs ++ (p ∷ []))
      ≡ numbered n xs ++ (audio_frame (flv_audio_tag p) (audio_ts_ms (n + length xs)) ∷ [])
numbered-append n [] p = ap (λ k. audio_frame (flv_audio_tag p) (audio_ts_ms k) ∷ []) (omega arith)
numbered-append n (x ∷ xs) p =
    ap (λ r. audio_frame (flv_audio_tag x) (audio_ts_ms n) ∷ r)
      (numbered-append (suc n) xs p
        ∙ ap (λ k. numbered (suc n) xs ++ (audio_frame (flv_audio_tag p) (audio_ts_ms k) ∷ []))
            (omega arith))

pub drop-snoc :
    (k : ℕ) (xs : List (List ℕ)) (p : List ℕ)
    → k ≤ length xs
    → drop k (xs ++ (p ∷ [])) ≡ drop k xs ++ (p ∷ [])
drop-snoc zero xs p h = refl
drop-snoc (suc k) [] p h = absurd (omega arith)
drop-snoc (suc k) (x ∷ xs) p h = drop-snoc k xs p (omega arith)

abbrev pub view : Shared → List PublishFrame × List (List ℕ)
view a = (audios a.offered, a.packets)

pub view-publish :
    (a : Shared) (f : PublishFrame)
    → view (publish a f).1
      ≡ (audios a.offered ++ (if f.kind == msg_audio then f ∷ [] else []), a.packets)
unfolding publish catch_up
view-publish a f = ground (arith, audios-append a.offered f)

view-publish_video :
    (a : Shared) (bytes : List ℕ) (ts : ℕ) → view (publish a (video_frame bytes ts)).1 ≡ view a
view-publish_video a bytes ts =
    view-publish a (video_frame bytes ts) ∙ ap (λ v. (v, a.packets)) (append-nil (audios a.offered))

view-publish_unit : (a : Shared) (u : EncodedUnit) → view (publish_unit a u) ≡ view a
unfolding publish_unit drop_frame
view-publish_unit a u = ground (arith, view-publish_video a (flv_video_tag u) (media_ts_ms u.pts))

view-publish_units : (a : Shared) (us : List EncodedUnit) → view (publish_units a us) ≡ view a
unfolding publish_units
view-publish_units a [] = refl
view-publish_units a (u ∷ us) = view-publish_units (publish_unit a u) us ∙ view-publish_unit a u

view-publish_header :
    (a : Shared) (seq : List ℕ) (pts : ℕ) → view (publish_header a seq pts) ≡ view a
unfolding publish_header drop_frame
view-publish_header a seq pts = ground (arith, view-publish_video a seq (media_ts_ms pts))

-- The thread's own part of the audio line.
abbrev pub line : StreamThread → ℕ × ℕ
line t = (t.priming_to_skip, t.audio_packets)

-- The video of a turn leaves the audio alone.
abbrev Same : StreamThread → Shared → StreamThread × Shared → Type 0
Same t a r = (view r.1 ≡ view a) × (line r.0 ≡ line t)

send_units-Same :
    (t : StreamThread) (a : Shared) (us : List EncodedUnit) (sets : Option (List ℕ × List ℕ))
    → Same t a (send_units t a us sets)
unfolding send_units drop_frame
send_units-Same t a [] sets = (refl, refl)
send_units-Same t a (u ∷ us) sets = elim (Bool-cases t.seq_sent) [
  | inl e ↦ rw e (view-publish_units a (u ∷ us), refl)
  | inr e ↦ elim (Option-cases (sequence_header sets)) [
    | inl n ↦ rw (e, n) (refl, refl)
    | inr (seq, n) ↦
        rw (e, n)
          (
            view-publish_units (publish_header a seq u.pts) (u ∷ us)
                ∙ view-publish_header a seq u.pts,
            refl,
          )
  ]
]

encode_drawn-Same :
    (t : StreamThread) (a : Shared) (enc : EncodeSession) (i : ℕ) (s : Surface)
    → Same t a (encode_drawn t a enc i s)
unfolding encode_drawn drop_frame
encode_drawn-Same t a enc i s = elim (Option-cases (encode_pixel_buffer_at enc i s.answer)) [
  | inl e ↦ rw (e, encode_drawn) (refl, refl)
  | inr ((units, enc'), e) ↦ rw (e, encode_drawn) (send_units-Same _ _ units s.parameter_sets)
]

pub encode_video-Same :
    (t : StreamThread) (a : Shared) (s : Surface) → Same t a (encode_video t a s)
unfolding encode_video drop_frame
encode_video-Same t a s = elim (Option-cases t.encoder) [
  | inl e ↦ rw (e, encode_video) (refl, refl)
  | inr (enc, e) ↦
      rw (e, encode_video)
        (elim (Bool-cases (ltb s.frame (get_or_insert t.base_frame s.frame))) [
          | inl b ↦ rw b (refl, refl)
          | inr b ↦ rw b (elim (Bool-cases s.drawn) [
            | inl d ↦ rw d (encode_drawn-Same _ a enc _ s)
            | inr d ↦ rw d (refl, refl)
          ])
        ])
]
