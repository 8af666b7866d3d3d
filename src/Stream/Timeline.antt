-- ===== src/Stream/Timeline.antt =====
-- The presentation indices that the stream submits, stream.rs and encode.rs.
use nbe.Prelude.{
  append-nil, ℕ, ◌≡◌, refl, ◌∙◌, sym, subst, arith, Bool, true, false, ◌||◌, Bool-cases, List-cases,
  inl, inr, Option, none, some, Option-cases, List, [], ◌∷◌, ◌++◌, ltb, if◌then◌else◌,
}
use nbe.Publisher.{audio_frame}
use nbe.Record.Totals.{zeroed}
use nbe.Stream.Handoff.{
  hands_off, opens, turns, stops, Feed, opened, is_done, hand_off_stream_surface, leave, start,
  turn_of, turn, Event, step, run,
}
use nbe.Stream.{StreamThread, EncodeSession, Shared, Surface, Audio, TaskCall}
use nbe.Stream.Flv.{aac_sequence_header}
use nbe.Stream.Thread.{
  catch_up, publish, drop_frame, announce_aac, open_thread, get_or_insert, encode_pixel_buffer_at,
  follows, encode_drawn, encode_video, drain_audio,
}
use nbe.Stream.Indices.{
  Rising, Timed, taken-Timed, refused-Timed, submitted-publish, Kept, Same-Kept, send_units-Kept,
  drain_audio-Same,
}

encode_drawn-Kept :
    (t : StreamThread) (a : Shared) (enc : EncodeSession) (i : ℕ) (s : Surface)
    → t.encoder ≡ some enc
    → Timed (some enc) a.submitted
    → Kept (encode_drawn t a enc i s)
unfolding encode_drawn encode_pixel_buffer_at drop_frame
encode_drawn-Kept t a enc i s h v = elim (Bool-cases (follows i enc.last_pts_index)) [
  | inl f ↦ elim (Option-cases s.answer) [
    | inl e ↦
        rw (e, f, encode_drawn, encode_pixel_buffer_at, e)
          (rw h (refused-Timed enc i a.submitted f v))
    | inr (units, e) ↦
        rw (e, f, encode_drawn, encode_pixel_buffer_at, e, f)
          (send_units-Kept _ _ units s.parameter_sets (taken-Timed enc i a.submitted f v))
  ]
  | inr f ↦ elim (Option-cases s.answer) [
    | inl e ↦ rw (e, f, encode_drawn, encode_pixel_buffer_at) (rw h unsubmitted)
    | inr (units, e) ↦ rw (e, f, encode_drawn, encode_pixel_buffer_at, e, f) (rw h unsubmitted)
  ]
]
  where
    unsubmitted : Timed (some enc) (a.submitted ++ [])
    unsubmitted = rw append-nil v

encode_video-Kept :
    (t : StreamThread) (a : Shared) (s : Surface) → Kept (t, a) → Kept (encode_video t a s)
unfolding encode_video drop_frame
encode_video-Kept t a s v = elim (Option-cases t.encoder) [
  | inl e ↦ rw (e, encode_video) v
  | inr (enc, e) ↦
      rw (e, encode_video)
        (elim (Bool-cases (ltb s.frame (get_or_insert t.base_frame s.frame))) [
          | inl b ↦ rw b v
          | inr b ↦ rw b (elim (Bool-cases s.drawn) [
            | inl d ↦ rw d (encode_drawn-Kept _ a enc _ s e (subst (λ o. Timed o a.submitted) e v))
            | inr d ↦ rw d v
          ])
        ])
]

-- Nothing is encoded before the thread opens.
abbrev InTime : Option StreamThread → List (ℕ × Bool × Bool) → Type 0
InTime none xs = xs ≡ []
InTime (some t) xs = Timed t.encoder xs

abbrev OnTime : Feed → Type 0
OnTime f = InTime f.thread f.shared.submitted

InTime-Rising :
    (o : Option StreamThread) (xs : List (ℕ × Bool × Bool)) → InTime o xs → Rising 0 true xs
InTime-Rising none xs v = rw v tt
InTime-Rising (some t) xs v = v.rising

open_thread-Kept :
    (a : Shared) (encoder : Bool) (asc : Option (List ℕ))
    → a.submitted ≡ []
    → Kept (open_thread a encoder asc)
unfolding open_thread announce_aac publish catch_up
open_thread-Kept a encoder asc h = elim (Option-cases asc) [
  | inl e ↦ rw (e, open_thread, announce_aac, h) (opening encoder)
  | inr (bytes, e) ↦
      rw (e, open_thread, announce_aac) (subst (Timed _) (sym (heard bytes)) (opening encoder))
]
  where
    opening :
        (encoder : Bool)
        → Timed
            (if encoder then some (record { frame_index = 0; last_pts_index = none }) else none)
            []
    opening true = record { rising = tt; in_step = (refl, refl) }
    opening false = record { rising = tt; in_step = tt }

    heard : (bytes : List ℕ) → (open_thread a encoder (some bytes)).1.submitted ≡ []
    heard bytes =
        submitted-publish
          (record a { stats = record a.stats { encoder_ready = encoder || a.stats.encoder_ready } })
          (audio_frame (aac_sequence_header bytes) 0)
        ∙ h

start-OnTime :
    (f : Feed) (encoder : Bool) (asc : Option (List ℕ)) → OnTime f → OnTime (start f encoder asc)
unfolding start
start-OnTime f encoder asc v = elim (Option-cases f.thread) [
  | inl e ↦
      rw (e, start)
        (open_thread-Kept f.shared encoder asc (subst (λ t. InTime t f.shared.submitted) e v))
  | inr (t, e) ↦ rw (e, start) v
]

turn_of-OnTime :
    (f : Feed) (t : StreamThread) (gone : Bool) (audio : Audio)
    → f.thread ≡ some t
    → OnTime f
    → OnTime (turn_of f t gone audio)
unfolding turn_of leave
turn_of-OnTime f t gone audio h v = elim (Bool-cases f.stop) [
  | inl e ↦ rw (e, turn_of) v
  | inr e ↦ elim (List-cases f.channel) [
    | inl c ↦ elim (Bool-cases gone) [
      | inl g ↦ rw (e, c, g, turn_of) v
      | inr g ↦ rw (e, c, g, turn_of) (drained t f.shared w)
    ]
    | inr (s, rest, c) ↦
        rw (e, c, turn_of)
          (drained (encode_video t f.shared s).0 (encode_video t f.shared s).1
            (encode_video-Kept t f.shared s w))
  ]
]
  where
    w : Timed t.encoder f.shared.submitted
    w = subst (λ o. InTime o f.shared.submitted) h v

    drained :
        (t : StreamThread) (a : Shared) → Timed t.encoder a.submitted → Kept (drain_audio t a audio)
    drained t a v = Same-Kept t a (drain_audio t a audio) (drain_audio-Same t a audio) v

step-OnTime : (f : Feed) (e : Event) → OnTime f → OnTime (step f e)
unfolding step
step-OnTime f (hands_off s drawn) v = unfold hand_off_stream_surface drop_frame in ground (arith, v)
step-OnTime f (opens encoder asc) v = start-OnTime f encoder asc v
step-OnTime f (turns gone audio) v = elim (Option-cases f.thread) [
  | inl e ↦ rw (e, turn) v
  | inr (t, e) ↦ elim (Bool-cases (is_done f.phase)) [
    | inl d ↦ rw (e, d, turn) v
    | inr d ↦ rw (e, d, turn) (turn_of-OnTime f t gone audio e v)
  ]
]
step-OnTime f stops v = v

run-OnTime : (f : Feed) (es : List Event) → OnTime f → OnTime (run f es)
unfolding run
run-OnTime f [] v = v
run-OnTime f (e ∷ es) v = run-OnTime (step f e) es (step-OnTime f e v)

-- In whatever order the loop hands off its frames, and whichever of them VideoToolbox refuses: the presentation index of
-- each frame that a stream submits is above those of all frames taken before it, and a keyframe is forced on each frame
-- up to the first one taken, and on none after it.
pub run-Rising :
    (task : List (List TaskCall)) (es : List Event)
    → Rising 0 true (run (opened task zeroed) es).shared.submitted
unfolding opened
run-Rising task es =
    InTime-Rising (run (opened task zeroed) es).thread _ (run-OnTime (opened task zeroed) es refl)
