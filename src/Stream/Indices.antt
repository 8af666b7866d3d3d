-- ===== src/Stream/Indices.antt =====
-- The presentation indices given to VideoToolbox and the session they leave, stream.rs and encode.rs.
use nbe.Prelude.{
  ℕ, suc, ◌+◌, ◌≤◌, ◌≡◌, refl, ◌∙◌, arith, Bool, true, false, Bool-cases, inl, inr, Option, none,
  some, Option-cases, List, [], ◌∷◌, ◌++◌, ◌==◌, if◌then◌else◌,
}
use nbe.Mp4.{EncodedUnit}
use nbe.Publisher.{PublishFrame, video_frame}
use nbe.Stream.{StreamThread, EncodeSession, Shared, Audio}
use nbe.Stream.Flv.{flv_video_tag, media_ts_ms}
use nbe.Stream.Thread.{
  catch_up, publish, drop_frame, follows, publish_unit, publish_units, publish_header,
  sequence_header, send_units, publish_packet, send_packet, send_packets, drain_audio,
}

-- Indices from `low` on, above each one that was taken before, with a keyframe forced as `forced` says up to the first
-- that is taken, and not after it.
abbrev pub Rising : ℕ → Bool → List (ℕ × Bool × Bool) → Type 0
Rising low forced [] = Unit {0}
Rising low forced ((i, k, taken) ∷ xs) =
    (low ≤ i)
    × (k ≡ forced)
    × Rising (if taken then suc i else low) (if taken then false else forced) xs

abbrev above : ℕ → List (ℕ × Bool × Bool) → ℕ
above low [] = low
above low ((i, k, taken) ∷ xs) = above (if taken then suc i else low) xs

abbrev count_taken : List (ℕ × Bool × Bool) → ℕ
count_taken [] = 0
count_taken ((i, k, taken) ∷ xs) = (if taken then 1 else 0) + count_taken xs

Rising-snoc :
    (low i : ℕ) (forced k taken : Bool) (xs : List (ℕ × Bool × Bool))
    → Rising low forced xs
    → above low xs ≤ i
    → k ≡ (if count_taken xs == 0 then forced else false)
    → Rising low forced (xs ++ ((i, k, taken) ∷ []))
Rising-snoc low i forced k taken [] r h e = (h, e, tt)
Rising-snoc low i forced k taken ((j, l, true) ∷ xs) r h e =
    (r.0, r.1, Rising-snoc (suc j) i false k taken xs r.2 h (ground (arith, e)))
Rising-snoc low i forced k taken ((j, l, false) ∷ xs) r h e =
    (r.0, r.1, Rising-snoc low i forced k taken xs r.2 h (ground (arith, e)))

above-snoc :
    (low i : ℕ) (k taken : Bool) (xs : List (ℕ × Bool × Bool))
    → above low (xs ++ ((i, k, taken) ∷ [])) ≡ (if taken then suc i else above low xs)
above-snoc low i k taken [] = refl
above-snoc low i k taken ((j, l, b) ∷ xs) = above-snoc (if b then suc j else low) i k taken xs

taken-snoc :
    (i : ℕ) (k taken : Bool) (xs : List (ℕ × Bool × Bool))
    → count_taken (xs ++ ((i, k, taken) ∷ [])) ≡ count_taken xs + (if taken then 1 else 0)
taken-snoc i k taken [] = omega arith
taken-snoc i k taken ((j, l, b) ∷ xs) = omega (arith, taken-snoc i k taken xs)

abbrev next_of : Option ℕ → ℕ
next_of none = 0
next_of (some last) = suc last

abbrev InStep : Option EncodeSession → List (ℕ × Bool × Bool) → Type 0
InStep none xs = Unit {0}
InStep (some enc) xs =
    (above 0 xs ≡ next_of enc.last_pts_index) × (count_taken xs ≡ enc.frame_index)

-- The session's numbers are those of what was taken.
pub record Timed (encoder : Option EncodeSession) (xs : List (ℕ × Bool × Bool)) : Type 0 where
  pub rising : Rising 0 true xs
  pub in_step : InStep encoder xs

pub taken-Timed :
    (enc : EncodeSession) (i : ℕ) (xs : List (ℕ × Bool × Bool))
    → follows i enc.last_pts_index ≡ true
    → Timed (some enc) xs
    → Timed
        (some (record enc { frame_index = enc.frame_index + 1; last_pts_index = some i }))
        (xs ++ ((i, enc.frame_index == 0, true) ∷ []))
taken-Timed enc i xs f v = record {
  rising =
      Rising-snoc 0 i true (enc.frame_index == 0) true xs v.rising (ground (arith, f, v.in_step))
        (ground (arith, v.in_step));
  in_step = (
    above-snoc 0 i (enc.frame_index == 0) true xs,
    ground (arith, v.in_step, taken-snoc i (enc.frame_index == 0) true xs),
  );
}

pub refused-Timed :
    (enc : EncodeSession) (i : ℕ) (xs : List (ℕ × Bool × Bool))
    → follows i enc.last_pts_index ≡ true
    → Timed (some enc) xs
    → Timed (some enc) (xs ++ ((i, enc.frame_index == 0, false) ∷ []))
refused-Timed enc i xs f v = record {
  rising =
      Rising-snoc 0 i true (enc.frame_index == 0) false xs v.rising (ground (arith, f, v.in_step))
        (ground (arith, v.in_step));
  in_step = (
    above-snoc 0 i (enc.frame_index == 0) false xs ∙ v.in_step.0,
    ground (arith, v.in_step, taken-snoc i (enc.frame_index == 0) false xs),
  );
}

pub submitted-publish : (a : Shared) (f : PublishFrame) → (publish a f).1.submitted ≡ a.submitted
unfolding publish catch_up
submitted-publish a f = ground arith

submitted-publish_units :
    (a : Shared) (us : List EncodedUnit) → (publish_units a us).submitted ≡ a.submitted
unfolding publish_units publish_unit drop_frame
submitted-publish_units a [] = refl
submitted-publish_units a (u ∷ us) = submitted-publish_units (publish_unit a u) us ∙ unit
  where
    unit : (publish_unit a u).submitted ≡ a.submitted
    unit = ground (arith, submitted-publish a (video_frame (flv_video_tag u) (media_ts_ms u.pts)))

submitted-publish_header :
    (a : Shared) (seq : List ℕ) (pts : ℕ) → (publish_header a seq pts).submitted ≡ a.submitted
unfolding publish_header drop_frame
submitted-publish_header a seq pts =
    ground (arith, submitted-publish a (video_frame seq (media_ts_ms pts)))

abbrev pub Kept : StreamThread × Shared → Type 0
Kept r = Timed r.0.encoder r.1.submitted

-- What does not encode keeps the session and what it was given.
abbrev Same : StreamThread → Shared → StreamThread × Shared → Type 0
Same t a r = (r.0.encoder ≡ t.encoder) × (r.1.submitted ≡ a.submitted)

pub Same-Kept :
    (t : StreamThread) (a : Shared) (r : StreamThread × Shared) → Same t a r → Kept (t, a) → Kept r
Same-Kept t a (u, b) (x, y) v = rw (x, y) v

send_units-Same :
    (t : StreamThread) (a : Shared) (us : List EncodedUnit) (sets : Option (List ℕ × List ℕ))
    → Same t a (send_units t a us sets)
unfolding send_units drop_frame
send_units-Same t a [] sets = (refl, refl)
send_units-Same t a (u ∷ us) sets = elim (Bool-cases t.seq_sent) [
  | inl e ↦ rw e (refl, submitted-publish_units a (u ∷ us))
  | inr e ↦ elim (Option-cases (sequence_header sets)) [
    | inl n ↦ rw (e, n) (refl, refl)
    | inr (seq, n) ↦
        rw (e, n)
          (
            refl,
            submitted-publish_units (publish_header a seq u.pts) (u ∷ us)
                ∙ submitted-publish_header a seq u.pts,
          )
  ]
]

pub send_units-Kept :
    (t : StreamThread) (a : Shared) (us : List EncodedUnit) (sets : Option (List ℕ × List ℕ))
    → Timed t.encoder a.submitted
    → Kept (send_units t a us sets)
send_units-Kept t a us sets v =
    Same-Kept t a (send_units t a us sets) (send_units-Same t a us sets) v

send_packets-Same :
    (t : StreamThread) (a : Shared) (ps : List (List ℕ)) → Same t a (send_packets t a ps)
unfolding send_packets send_packet publish_packet publish catch_up
send_packets-Same t a [] = (refl, refl)
send_packets-Same t a (p ∷ ps) =
    let (x, y) = send_packets-Same (send_packet t a p).0 (send_packet t a p).1 ps in
    (x ∙ ground arith, y ∙ ground arith)

pub drain_audio-Same :
    (t : StreamThread) (a : Shared) (audio : Audio) → Same t a (drain_audio t a audio)
unfolding drain_audio
drain_audio-Same t a audio = elim (Option-cases audio.answer) [
  | inl e ↦ ground (arith, e)
  | inr (ps, e) ↦ ground (arith, e, send_packets-Same t (record a { packets = a.packets ++ ps }) ps)
]
