-- ===== src/Mp4/Total.antt =====
-- Every recording, writer.rs: pushes in any order, and the finish, return.
use nbe.Prelude.{
  ℕ, zero, suc, ◌+◌, ◌-◌, ◌≡◌, refl, sym, ap, subst, ◌∙◌, arith, min, max, ◌%◌, true, false,
  Bool-cases, inl, inr, ◌/◌, Option, none, some, Option-cases, List, [], ◌∷◌, ◌++◌, length, drop,
  length-drop, leb, ◌==◌, ◌>>=◌,
}
use nbe.Mp4.{
  EncodedUnit, BufferedVideo, RecordingWriter, RecordError, input, validate_parameter_sets,
}
use nbe.Mp4.Emit.{fuel_of}
use nbe.Mp4.Writer.{
  new, buffer_video, fix_last, get_or, emit_and_cap, enforce_buffer_caps, shed_audio, shed_packet,
  shed_video, over_audio, open_header, push_video, push_audio, ingest_aac_frames, last_duration,
  before_last, fix_tail, finish, Pushed,
}
use nbe.Mp4.Stall.{Push, video_unit, audio, push, pushes}
use nbe.Mp4.Ends.{fixed_prefix, fixed_prefix-drop, drop_nil, IsSound, try_emit-ends}
use nbe.Mp4.Sound.{
  fixed_prefix-fix_last, fixed_prefix-weaken, length-fix_last, buffer_video-sound,
  ingest_aac_frames-sound, lens_cases,
}

shed_packet-sound : (w : RecordingWriter) → IsSound false w → IsSound false (shed_packet w)
shed_packet-sound w h = elim (lens_cases w.audio_packet_lens) [
  | inl n ↦ subst (IsSound false) (ground (arith, n)) h
  | inr (len, lens, n) ↦ record {
    fixed = ground (arith, h.fixed, n);
    held = ground (arith, h.held, n, length-drop (min len (length w.audio_data)) w.audio_data);
    started = λ c. ground (arith, c, n, h.started);
  }
]

shed_audio-sound :
    (fuel : ℕ) (w : RecordingWriter) → IsSound false w → IsSound false (shed_audio fuel w)
unfolding shed_audio
shed_audio-sound zero w h = h
shed_audio-sound (suc fuel) w h = elim (Bool-cases (over_audio w)) [
  | inl b ↦
      subst (IsSound false) (ground (arith, b))
        (shed_audio-sound fuel (shed_packet w) (shed_packet-sound w h))
  | inr b ↦ subst (IsSound false) (ground (arith, b)) h
]

shed_video-sound : (w : RecordingWriter) → IsSound false w → IsSound false (shed_video w)
unfolding shed_video
shed_video-sound w h =
    let n = length w.video - 180 in
    record {
      fixed = fixed_prefix-drop n (length (drop n w.video) - 1) w.video (
          fixed_prefix-weaken (n + (length (drop n w.video) - 1)) (length w.video - 1) w.video
            (omega (arith, length-drop n w.video)) h.fixed);
      held = h.held;
      started = λ c. drop_nil n w.video (h.started c);
    }

-- A push that returns, with a sound writer.
abbrev Returns : Pushed → Type 0
Returns p =
    (w' : RecordingWriter) × (e : Option RecordError) × (p ≡ some (w', e)) × IsSound false w'

emit_and_cap-Returns : (w : RecordingWriter) → IsSound false w → Returns (emit_and_cap w)
unfolding emit_and_cap enforce_buffer_caps
emit_and_cap-Returns w h =
    let (w', p, s, d) = try_emit-ends (fuel_of w) w false h (omega arith) in
    (
      enforce_buffer_caps w',
      none,
      ap (λ o. o >>= λ v. some (enforce_buffer_caps v, none)) p,
      shed_audio-sound (length (shed_video w').audio_packet_lens) (shed_video w')
          (shed_video-sound w' s),
    )

opened : (w : RecordingWriter) → IsSound false w → IsSound false (open_header w)
opened w h = record { fixed = h.fixed; held = h.held; started = h.started }

waits :
    (w : RecordingWriter) (us : List EncodedUnit)
    → IsSound false w
    → IsSound false (record w { pre_idr = us })
waits w us h = record { fixed = h.fixed; held = h.held; started = h.started }

push_video-Returns :
    (w : RecordingWriter) (unit : EncodedUnit) → IsSound false w → Returns (push_video w unit)
unfolding push_video
push_video-Returns w unit h = elim (Bool-cases w.header_written) [
  | inl a ↦
      let (w', e, r, s) =
        emit_and_cap-Returns (buffer_video w unit) (buffer_video-sound w unit h) in
      (w', e, ground (arith, a, r), s)
  | inr a ↦ elim (Bool-cases unit.is_keyframe) [
    | inl b ↦ elim (Bool-cases (validate_parameter_sets w.sps w.pps)) [
      | inl c ↦
          let (w', e, r, s) =
            emit_and_cap-Returns (buffer_video (open_header w) unit)
              (buffer_video-sound (open_header w) unit (opened w h)) in
          (w', e, ground (arith, a, b, c, r), s)
      | inr c ↦ (record w { pre_idr = [] }, some input, ground (arith, a, b, c), waits w [] h)
    ]
    | inr b ↦ elim (Bool-cases (leb 600 (length w.pre_idr))) [
      | inl c ↦ (w, some input, ground (arith, a, b, c), h)
      | inr c ↦ (
        record w { pre_idr = w.pre_idr ++ (unit ∷ []) },
        none,
        ground (arith, a, b, c),
        waits w (w.pre_idr ++ (unit ∷ [])) h,
      )
    ]
  ]
]

push-Returns : (w : RecordingWriter) (p : Push) → IsSound false w → Returns (push w p)
push-Returns w (video_unit unit) h = push_video-Returns w unit h
push-Returns w (audio samples packets) h = elim (Bool-cases (samples == 0)) [
  | inl z ↦ (w, none, unfold push_audio in ground (arith, z), h)
  | inr z ↦ elim (Bool-cases (samples % 2 == 0)) [
    | inr o ↦ (w, some input, unfold push_audio in ground (arith, z, o), h)
    | inl o ↦
        let (w', e, r, m) =
          emit_and_cap-Returns (ingest_aac_frames w packets)
            (ingest_aac_frames-sound false w packets h) in
        (w', e, unfold push_audio in ground (arith, z, o, r), m)
  ]
]

pushes-returns :
    (w : RecordingWriter) (ps : List Push)
    → IsSound false w
    → (w' : RecordingWriter) × (pushes w ps ≡ some w') × IsSound false w'
pushes-returns w [] h = (w, refl, h)
pushes-returns w (p ∷ ps) h =
    let (v, e, r, s) = push-Returns w p h in
    let (w', t, k) = pushes-returns v ps s in (w', ap (λ o. o >>= λ r. pushes (r.0) ps) r ∙ t, k)

last_fixed :
    (ss : List BufferedVideo) (k : ℕ)
    → last_duration ss ≡ some (some k)
    → fixed_prefix (length ss - 1) ss ≡ true
    → fixed_prefix (length ss) ss ≡ true
last_fixed [] k e h = refl
last_fixed (s ∷ []) k e h = ground (arith, e)
last_fixed (s ∷ s' ∷ ss) k e h =
    let n : length (s ∷ s' ∷ ss) - 1 ≡ suc (length (s' ∷ ss) - 1) = omega arith in
    let m : fixed_prefix (suc (length (s' ∷ ss) - 1)) (s ∷ s' ∷ ss) ≡ true =
      sym (ap (λ i. fixed_prefix i (s ∷ s' ∷ ss)) n) ∙ h in
    ground (arith, m, last_fixed (s' ∷ ss) k e (ground (arith, m)))

no_last : (ss : List BufferedVideo) → last_duration ss ≡ none → fixed_prefix (length ss) ss ≡ true
no_last [] e = refl
no_last (s ∷ []) e = absurd (ground (arith, e))
no_last (s ∷ s' ∷ ss) e = absurd (ground (arith, no_last_more s' ss e))
  where
    no_last_more :
        (s : BufferedVideo) (ss : List BufferedVideo) → last_duration (s ∷ ss) ≡ none → true ≡ false
    no_last_more s [] e = absurd (ground (arith, e))
    no_last_more s (s' ∷ ss) e = no_last_more s' ss e

fix_tail-sound : (w : RecordingWriter) → IsSound false w → IsSound true (fix_tail w)
unfolding fix_tail
fix_tail-sound w h = elim (Option-cases (last_duration w.video)) [
  | inl n ↦ subst (IsSound true) (ground (arith, n)) (kept (no_last w.video n))
  | inr (d, n) ↦ elim (Option-cases d) [
    | inr (k, m) ↦
        subst (IsSound true) (ground (arith, n, m))
          (kept (last_fixed w.video k (ground (arith, n, m)) h.fixed))
    | inl m ↦
        let t = max (get_or (before_last w.video) (90000 / max w.fps 1)) 1 in
        subst (IsSound true) (ground (arith, n, m)) (tailed t)
  ]
]
  where
    kept : fixed_prefix (length w.video) w.video ≡ true → IsSound true w
    kept f = record { fixed = f; held = h.held; started = h.started }

    tailed : (t : ℕ) → IsSound true (record w { video = fix_last w.video t })
    tailed t = record {
      fixed =
          ap (λ i. fixed_prefix i (fix_last w.video t)) (length-fix_last t w.video)
          ∙ fixed_prefix-fix_last t w.video h.fixed;
      held = h.held;
      started = λ c. ground (arith, ap (λ ss. fix_last ss t) (h.started c));
    }

-- Whatever units and packets are pushed into a new writer, in any order and with any times, and whatever packets the
-- encoder has left at the end, every push returns and so does the finish: no sample is emitted without its duration, no
-- packet without its bytes, and the loop of fragments ends.
pub recording-returns :
    (sps pps : List ℕ) (fps : ℕ) (ps : List Push) (tail : List (List ℕ))
    → (w : RecordingWriter) × (w' : RecordingWriter) × (pushes (new sps pps fps) ps ≡ some w)
      × (finish w tail ≡ some w')
recording-returns sps pps fps ps tail =
    let (w, p, s) =
      pushes-returns (new sps pps fps) ps
        (record { fixed = refl; held = refl; started = λ n. refl }) in
    let v = ingest_aac_frames (fix_tail w) tail in
    let (w', q, t, d) =
      try_emit-ends (fuel_of v) v true
        (ingest_aac_frames-sound true (fix_tail w) tail (fix_tail-sound w s)) (omega arith) in
    (w, w', p, unfold finish in q)
