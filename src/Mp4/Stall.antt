-- ===== src/Mp4/Stall.antt =====
-- What shedding does to the recording writer, writer.rs: once the oldest buffered unit starts a second or more after
-- what was emitted, no push writes a fragment any more.
use nbe.Prelude.{
  ℕ, ◌+◌, ◌-◌, ◌≤◌, ◌≡◌, refl, ap, ◌∙◌, arith, Bool, true, false, ◌&&◌, Bool-cases, inl, inr,
  Option, none, some, Option-cases, max, ◌%◌, ◌^◌, List, [], ◌∷◌, leb, ◌==◌, ◌>>=◌,
}
use nbe.Mp4.{EncodedUnit, RecordingWriter, RecordError, input, fragment_ticks}
use nbe.Mp4.Emit.{fuel_of}
use nbe.Mp4.Writer.{
  buffer_video, fix_last, fixed_video, get_or, emit_and_cap, enforce_buffer_caps, push_video,
  push_audio, ingest_aac_frames, ingest_one, Pushed,
}
use nbe.Mp4.Window.{
  all_from, IsStalled, SameOutput, round-stalled, try_emit-stays, all_from-append,
  all_from-fix_last, enforce_buffer_caps-IsStalled,
}

-- A push that returns a writer with the same output, stalled too.
abbrev Held : RecordingWriter → Pushed → Type 0
Held w p =
    (w' : RecordingWriter) × (e : Option RecordError) × (p ≡ some (w', e))
    × SameOutput w w'
    × IsStalled w'

emit_and_cap-stalled : (w : RecordingWriter) → IsStalled w → Held w (emit_and_cap w)
unfolding emit_and_cap
emit_and_cap-stalled w h =
    let (a, b) = enforce_buffer_caps-IsStalled w h in
    (
      enforce_buffer_caps w,
      none,
      ap (λ o. o >>= λ w'. some (enforce_buffer_caps w', none))
          (try_emit-stays (fuel_of w) w false (omega arith) (round-stalled w h)),
      a,
      b,
    )

fixed_video-all_from :
    (w : RecordingWriter) (k pts : ℕ)
    → all_from k w.video ≡ true
    → all_from k (fixed_video w pts) ≡ true
fixed_video-all_from w k pts h = elim (Option-cases w.prev_pts) [
  | inl n ↦
      ap
        (λ p.
          all_from k (elim p [
            | none ↦ w.video
            | some prev ↦ fix_last w.video (max (pts - prev) 1 % 2 ^ 32)
          ]))
        n
      ∙ h
  | inr (p, n) ↦
      ap
        (λ p.
          all_from k (elim p [
            | none ↦ w.video
            | some prev ↦ fix_last w.video (max (pts - prev) 1 % 2 ^ 32)
          ]))
        n
      ∙ all_from-fix_last k (max (pts - p) 1 % 2 ^ 32) w.video h
]

buffer_video-IsStalled :
    (w : RecordingWriter) (unit : EncodedUnit) (b : ℕ)
    → IsStalled w
    → w.pts_base ≡ some b
    → b + w.video_ticks_emitted + fragment_ticks ≤ unit.pts
    → SameOutput w (buffer_video w unit) × IsStalled (buffer_video w unit)
unfolding buffer_video
buffer_video-IsStalled w unit b h p l = (
  record { file = refl; emitted = refl; base = ground (arith, p) },
  record {
    header = h.header;
    beyond =
        all_from-append (w.video_ticks_emitted + fragment_ticks) (fixed_video w unit.pts)
          (record {
            bytes = unit.bytes;
            start_ticks = unit.pts - get_or w.pts_base unit.pts;
            duration_ticks = none;
            keyframe = unit.is_keyframe;
          })
          (fixed_video-all_from w (w.video_ticks_emitted + fragment_ticks) unit.pts h.beyond)
          (ground (arith, p, l));
  },
)

ingest_aac_frames-same :
    (w : RecordingWriter) (fs : List (List ℕ))
    → SameOutput w (ingest_aac_frames w fs)
      × ((ingest_aac_frames w fs).video ≡ w.video)
      × ((ingest_aac_frames w fs).header_written ≡ w.header_written)
unfolding ingest_aac_frames
ingest_aac_frames-same w [] = (record { file = refl; emitted = refl; base = refl }, refl, refl)
ingest_aac_frames-same w (f ∷ fs) =
    let (a, b, c) = ingest_aac_frames-same (ingest_one w f) fs in
    (
      record {
        file = ground (arith, a.file);
        emitted = ground (arith, a.emitted);
        base = ground (arith, a.base);
      },
      ground (arith, b),
      ground (arith, c),
    )

ingest_aac_frames-IsStalled :
    (w : RecordingWriter) (fs : List (List ℕ))
    → IsStalled w
    → SameOutput w (ingest_aac_frames w fs) × IsStalled (ingest_aac_frames w fs)
ingest_aac_frames-IsStalled w fs h =
    let (a, b, c) = ingest_aac_frames-same w fs in
    (
      a,
      record {
        header = c ∙ h.header;
        beyond =
            ap (λ n. all_from (n + fragment_ticks) (ingest_aac_frames w fs).video) a.emitted
            ∙ ap (all_from (w.video_ticks_emitted + fragment_ticks)) b
            ∙ h.beyond;
      },
    )

-- What arrives at a writer: a unit, or the packets for some samples.
pub data Push : Type 0 where
  video_unit : EncodedUnit → Push
  audio : ℕ → List (List ℕ) → Push

abbrev pub push : RecordingWriter → Push → Pushed
push w (video_unit unit) = push_video w unit
push w (audio samples packets) = push_audio w samples packets

-- The writer after some pushes; one that returns an error leaves it as it does.
abbrev pub pushes : RecordingWriter → List Push → Option RecordingWriter
pushes w [] = some w
pushes w (p ∷ ps) = push w p >>= λ r. pushes (r.0) ps

-- Every unit is presented at a tick or later.
abbrev pub presented_from : ℕ → List Push → Bool
presented_from k [] = true
presented_from k (video_unit unit ∷ ps) = leb k unit.pts && presented_from k ps
presented_from k (audio samples packets ∷ ps) = presented_from k ps

compose : (u v w : RecordingWriter) → SameOutput u v → SameOutput v w → SameOutput u w
compose u v w a b = record {
  file = b.file ∙ a.file;
  emitted = b.emitted ∙ a.emitted;
  base = b.base ∙ a.base;
}

push-stalled :
    (w : RecordingWriter) (p : Push) (b : ℕ)
    → IsStalled w
    → w.pts_base ≡ some b
    → presented_from (b + w.video_ticks_emitted + fragment_ticks) (p ∷ []) ≡ true
    → Held w (push w p)
push-stalled w (video_unit unit) b h q l =
    let (s, k) = buffer_video-IsStalled w unit b h q (ground (arith, l)) in
    let (w', e, r, t, m) = emit_and_cap-stalled (buffer_video w unit) k in
    (
      w',
      e,
      unfold push_video in ground (arith, h.header, r),
      compose w (buffer_video w unit) w' s t,
      m,
    )
push-stalled w (audio samples packets) b h q l = elim (Bool-cases (samples == 0)) [
  | inl z ↦ (
    w,
    none,
    unfold push_audio in ground (arith, z),
    record { file = refl; emitted = refl; base = refl },
    h,
  )
  | inr z ↦ elim (Bool-cases (samples % 2 == 0)) [
    | inr o ↦ (
      w,
      some input,
      unfold push_audio in ground (arith, z, o),
      record { file = refl; emitted = refl; base = refl },
      h,
    )
    | inl o ↦
        let (s, k) = ingest_aac_frames-IsStalled w packets h in
        let (w', e, r, t, m) = emit_and_cap-stalled (ingest_aac_frames w packets) k in
        (
          w',
          e,
          unfold push_audio in ground (arith, z, o, r),
          compose w (ingest_aac_frames w packets) w' s t,
          m,
        )
  ]
]

-- After the header, once every buffered unit starts a second or more after what was emitted, as the shedding of the
-- oldest units leaves them, pushes of any packets and of units presented no earlier return, and none of them writes a
-- fragment.
pub pushes-stalled :
    (w : RecordingWriter) (ps : List Push) (b : ℕ)
    → IsStalled w
    → w.pts_base ≡ some b
    → presented_from (b + w.video_ticks_emitted + fragment_ticks) ps ≡ true
    → (w' : RecordingWriter) × (pushes w ps ≡ some w') × (w'.file ≡ w.file)
pushes-stalled w [] b h q l = (w, refl, refl)
pushes-stalled w (p ∷ ps) b h q l =
    let (v, e, r, s, k) =
      push-stalled w p b h q (first (b + w.video_ticks_emitted + fragment_ticks) p ps l) in
    let (w', t, f) = pushes-stalled v ps b k (s.base ∙ q) (
      ap (λ n. presented_from (b + n + fragment_ticks) ps) s.emitted
      ∙ rest (b + w.video_ticks_emitted + fragment_ticks) p ps l) in
    (w', ap (λ o. o >>= λ r. pushes (r.0) ps) r ∙ t, f ∙ s.file)
  where
    first :
        (k : ℕ) (p : Push) (ps : List Push)
        → presented_from k (p ∷ ps) ≡ true
        → presented_from k (p ∷ []) ≡ true
    first k (video_unit unit) ps l = ground (arith, l)
    first k (audio samples packets) ps l = refl

    rest :
        (k : ℕ) (p : Push) (ps : List Push)
        → presented_from k (p ∷ ps) ≡ true
        → presented_from k ps ≡ true
    rest k (video_unit unit) ps l = ground (arith, l)
    rest k (audio samples packets) ps l = l
