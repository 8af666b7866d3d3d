-- ===== src/Mp4/Timeline.antt =====
-- The timeline of the file's fragments, writer.rs.
use nbe.Prelude.{
  ℕ, zero, suc, ◌+◌, ◌*◌, ◌≡◌, refl, sym, ap, ◌∙◌, arith, Bool, true, false, ◌&&◌, ◌%◌, Bool-cases,
  inl, inr, Option, some, Option-cases, List, [], ◌∷◌, length, drop, ◌==◌, ◌>>=◌,
}
use nbe.Mp4.{
  OutSample, EncodedUnit, BufferedVideo, Fragment, RecordingWriter, RecordError,
  validate_parameter_sets,
}
use nbe.Mp4.Emit.{
  Drained, drain_video, drain_audio, emitted, emit_fragment, round, try_emit, fuel_of,
}
use nbe.Mp4.Writer.{
  new, buffer_video, emit_and_cap, enforce_buffer_caps, shed_audio, shed_packet, shed_video,
  open_header, push_video, push_audio, ingest_aac_frames, ingest_one, fix_tail, finish,
}
use nbe.Mp4.Ends.{round_cases, try_emit-emits}
use nbe.Mp4.Stall.{Push, video_unit, audio, push, pushes}

abbrev pub sum_durations : List OutSample → ℕ
sum_durations [] = 0
sum_durations (s ∷ ss) = s.duration + sum_durations ss

-- The fragments, newest first, are numbered from 1 on up to `seq`, and on each track each one begins where the one
-- before it ended, the first at 0 and the newest ending at `ticks` of the video's and at `samples` of the audio's.
abbrev pub joined : List Fragment → ℕ → ℕ → ℕ → Bool
joined [] seq ticks samples = seq == 1 && ticks == 0 && samples == 0
joined (f ∷ fs) seq ticks samples =
    let rest = joined fs f.seq f.video_base f.audio_base in
    f.seq + 1 == seq
    && f.video_base + sum_durations f.video_samples == ticks
    && f.audio_base + sum_durations f.audio_samples == samples
    && rest

abbrev pub is_joined : RecordingWriter → Bool
is_joined w = joined w.file w.seq w.video_ticks_emitted (w.audio_packets_emitted * 1024)

drain_video-ticks :
    (n : ℕ) (ss : List BufferedVideo) (r : Drained)
    → drain_video n ss ≡ some r
    → sum_durations r.samples ≡ r.ticks
drain_video-ticks zero ss r e = ground (arith, e)
drain_video-ticks (suc n) [] r e = absurd (ground (arith, e))
drain_video-ticks (suc n) (s ∷ ss) r e = elim (Option-cases (drain_video n ss)) [
  | inl k ↦ absurd (ground (arith, e, k))
  | inr (q, k) ↦ ground (arith, e, k, drain_video-ticks n ss q k)
]

drain_audio-length :
    (n : ℕ) (lens bytes : List ℕ) (r : List OutSample × List ℕ)
    → drain_audio n lens bytes ≡ some r
    → (length (r.0) ≡ n) × (sum_durations (r.0) ≡ n * 1024)
drain_audio-length zero lens bytes r e = (ground (arith, e), ground (arith, e))
drain_audio-length (suc n) [] bytes r e = absurd (ground (arith, e))
drain_audio-length (suc n) (len ∷ lens) bytes r e =
    elim (Option-cases (drain_audio n lens (drop len bytes))) [
      | inl k ↦ absurd (ground (arith, e, k))
      | inr (q, k) ↦
          let (a, b) = drain_audio-length n lens (drop len bytes) q k in
          (ground (arith, e, k, a), ground (arith, e, k, b))
    ]

emitted-joined :
    (w : RecordingWriter) (m n : ℕ) (v : Drained) (a : List OutSample × List ℕ)
    → sum_durations v.samples ≡ v.ticks
    → length (a.0) ≡ n
    → sum_durations (a.0) ≡ n * 1024
    → is_joined w ≡ true
    → is_joined (emitted w m n v a) ≡ true
emitted-joined w m n v a p q r h = ground (arith, p, r, h)

emit_fragment-joined :
    (w w' : RecordingWriter) (m n : ℕ)
    → emit_fragment w m n ≡ some w'
    → is_joined w ≡ true
    → is_joined w' ≡ true
unfolding emit_fragment
emit_fragment-joined w w' m n e h = elim (Bool-cases (m == 0 && n == 0)) [
  | inl b ↦ let same : w' ≡ w = ground (arith, e, b) in ap is_joined same ∙ h
  | inr b ↦ elim (Option-cases (drain_video m w.video)) [
    | inl k ↦ absurd (ground (arith, e, b, k))
    | inr (v, k) ↦ elim (Option-cases (drain_audio n w.audio_packet_lens w.audio_data)) [
      | inl j ↦ absurd (ground (arith, e, b, k, j))
      | inr (a, j) ↦
          let (x, y) = drain_audio-length n w.audio_packet_lens w.audio_data a j in
          let same : w' ≡ emitted w m n v a = ground (arith, e, b, k, j) in
          ap is_joined same ∙ emitted-joined w m n v a (drain_video-ticks m w.video v k) x y h
    ]
  ]
]

try_emit-joined :
    (fuel : ℕ) (w w' : RecordingWriter) (b : Bool)
    → try_emit fuel w b ≡ some w'
    → is_joined w ≡ true
    → is_joined w' ≡ true
try_emit-joined zero w w' b e h = absurd (unfold try_emit in ground (arith, e))
try_emit-joined (suc fuel) w w' b e h = elim (round_cases (round w b)) [
  | inl r ↦ let same : w' ≡ w = unfold try_emit in ground (arith, e, r) in ap is_joined same ∙ h
  | inr (m, n, r) ↦ elim (Option-cases (emit_fragment w m n)) [
    | inl k ↦ absurd (unfold try_emit in ground (arith, e, r, k))
    | inr (v, k) ↦
        try_emit-joined fuel v w' b (sym (try_emit-emits fuel w v b m n r k) ∙ e)
          (emit_fragment-joined w v m n k h)
  ]
]

shed_audio-joined : (fuel : ℕ) (w : RecordingWriter) → is_joined (shed_audio fuel w) ≡ is_joined w
unfolding shed_audio
shed_audio-joined zero w = refl
shed_audio-joined (suc fuel) w = ground (arith, shed_audio-joined fuel (shed_packet w))

ingest_aac_frames-joined :
    (w : RecordingWriter) (fs : List (List ℕ)) → is_joined (ingest_aac_frames w fs) ≡ is_joined w
unfolding ingest_aac_frames
ingest_aac_frames-joined w [] = refl
ingest_aac_frames-joined w (f ∷ fs) = ingest_aac_frames-joined (ingest_one w f) fs ∙ ground arith

emit_and_cap-joined :
    (w w' : RecordingWriter) (x : Option RecordError)
    → emit_and_cap w ≡ some (w', x)
    → is_joined w ≡ true
    → is_joined w' ≡ true
unfolding emit_and_cap enforce_buffer_caps
emit_and_cap-joined w w' x e h = elim (Option-cases (try_emit (fuel_of w) w false)) [
  | inl k ↦ absurd (ground (arith, e, k))
  | inr (v, k) ↦
      let same : w' ≡ enforce_buffer_caps v = ground (arith, e, k) in
      ap is_joined same
      ∙ shed_audio-joined (length (shed_video v).audio_packet_lens) (shed_video v)
      ∙ (unfold shed_video in try_emit-joined (fuel_of w) w v false k h)
]

push_video-joined :
    (w w' : RecordingWriter) (unit : EncodedUnit) (x : Option RecordError)
    → push_video w unit ≡ some (w', x)
    → is_joined w ≡ true
    → is_joined w' ≡ true
unfolding push_video buffer_video
push_video-joined w w' unit x e h = elim (Bool-cases w.header_written) [
  | inl a ↦ emit_and_cap-joined (buffer_video w unit) w' x (ground (arith, e, a)) h
  | inr a ↦ elim (Bool-cases (unit.is_keyframe && validate_parameter_sets w.sps w.pps)) [
    | inl b ↦
        emit_and_cap-joined (buffer_video (open_header w) unit) w' x (ground (arith, e, a, b)) h
    | inr b ↦ ground (arith, e, a, b, h)
  ]
]

push-joined :
    (w w' : RecordingWriter) (p : Push) (x : Option RecordError)
    → push w p ≡ some (w', x)
    → is_joined w ≡ true
    → is_joined w' ≡ true
push-joined w w' (video_unit unit) x e h = push_video-joined w w' unit x e h
push-joined w w' (audio samples packets) x e h = elim (Bool-cases (samples == 0)) [
  | inl z ↦ let same : w' ≡ w = unfold push_audio in ground (arith, e, z) in ap is_joined same ∙ h
  | inr z ↦ elim (Bool-cases (samples % 2 == 0)) [
    | inr o ↦
        let same : w' ≡ w = unfold push_audio in ground (arith, e, z, o) in ap is_joined same ∙ h
    | inl o ↦
        emit_and_cap-joined (ingest_aac_frames w packets) w' x
          (unfold push_audio in ground (arith, e, z, o)) (ingest_aac_frames-joined w packets ∙ h)
  ]
]

pushes-joined :
    (w w' : RecordingWriter) (ps : List Push)
    → pushes w ps ≡ some w'
    → is_joined w ≡ true
    → is_joined w' ≡ true
pushes-joined w w' [] e h = let same : w' ≡ w = ground (arith, e) in ap is_joined same ∙ h
pushes-joined w w' (p ∷ ps) e h = elim (Option-cases (push w p)) [
  | inl k ↦ absurd (ground (arith, e, k))
  | inr ((v, x), k) ↦
      pushes-joined v w' ps (sym (ap (λ o. o >>= λ r. pushes (r.0) ps) k) ∙ e)
        (push-joined w v p x k h)
]

fix_tail-joined : (w : RecordingWriter) → is_joined (fix_tail w) ≡ is_joined w
unfolding fix_tail
fix_tail-joined w = ground arith

-- In every recording, whatever was pushed and whatever was shed, the fragments of the file are numbered from 1 on, and
-- on each track each one begins where the one before it ended, the first at 0, and the newest ends at the ticks and at
-- 1024 samples for each packet that the writer has counted: no decode time goes back or leaves a gap.
pub finish-joined :
    (sps pps : List ℕ) (fps : ℕ) (ps : List Push) (tail : List (List ℕ)) (w w' : RecordingWriter)
    → pushes (new sps pps fps) ps ≡ some w
    → finish w tail ≡ some w'
    → joined w'.file w'.seq w'.video_ticks_emitted (w'.audio_packets_emitted * 1024) ≡ true
unfolding finish
finish-joined sps pps fps ps tail w w' p q =
    let v = ingest_aac_frames (fix_tail w) tail in
    try_emit-joined (fuel_of v) v w' true q (
      ingest_aac_frames-joined (fix_tail w) tail
      ∙ fix_tail-joined w
      ∙ pushes-joined (new sps pps fps) w ps p refl)
