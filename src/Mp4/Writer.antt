-- ===== src/Mp4/Writer.antt =====
-- The pushes, the caps and the finish of `RecordingWriter`, writer.rs.
use nbe.Prelude.{
  ℕ, zero, suc, ◌+◌, ◌-◌, ◌/◌, ◌%◌, ◌^◌, max, min, Bool, true, false, ◌||◌, not, Option, none, some,
  List, [], ◌∷◌, ◌++◌, length, drop, ltb, leb, ◌==◌, if◌then◌else◌, ◌>>=◌,
}
use nbe.Mp4.{
  EncodedUnit, BufferedVideo, RecordingWriter, RecordError, input, video_timescale,
  max_pre_idr_units, max_buffered_video_frames, max_buffered_audio_packets,
  max_buffered_audio_bytes, validate_parameter_sets,
}
use nbe.Mp4.Emit.{try_emit, fuel_of}

abbrev pub new : List ℕ → List ℕ → ℕ → RecordingWriter
new sps pps fps = record {
  sps = sps;
  pps = pps;
  fps = fps;
  header_written = false;
  pre_idr = [];
  video = [];
  pts_base = none;
  prev_pts = none;
  audio_data = [];
  audio_packet_lens = [];
  video_ticks_emitted = 0;
  audio_packets_emitted = 0;
  dropped_video = 0;
  dropped_audio_packets = 0;
  priming_to_skip = 2;
  seq = 1;
  file = [];
}

unfoldable pub set_parameter_sets :
    RecordingWriter → List ℕ → List ℕ → RecordingWriter × Option RecordError
set_parameter_sets w sps pps =
    if w.header_written then (w, some input) else (record w { sps = sps; pps = pps }, none)

-- The oldest packets go while the caps are passed; each round takes a packet, so the number of them is fuel enough.
abbrev pub over_audio : RecordingWriter → Bool
over_audio w =
    ltb max_buffered_audio_packets (length w.audio_packet_lens)
    || ltb max_buffered_audio_bytes (length w.audio_data)

abbrev pub shed_packet : RecordingWriter → RecordingWriter
shed_packet w = elim w.audio_packet_lens [
  | [] ↦ w
  | len ∷ lens ↦ record w {
    audio_packet_lens = lens;
    audio_data = drop (min len (length w.audio_data)) w.audio_data;
    dropped_audio_packets = w.dropped_audio_packets + 1;
  }
]

unfoldable pub shed_audio : ℕ → RecordingWriter → RecordingWriter
shed_audio zero w = w
shed_audio (suc fuel) w =
    let rest = shed_audio fuel (shed_packet w) in if over_audio w then rest else w

unfoldable pub shed_video : RecordingWriter → RecordingWriter
shed_video w =
    let excess = length w.video - max_buffered_video_frames in
    record w { video = drop excess w.video; dropped_video = w.dropped_video + excess }

unfoldable pub enforce_buffer_caps : RecordingWriter → RecordingWriter
unfolding shed_audio shed_video
enforce_buffer_caps w = let v = shed_video w in shed_audio (length v.audio_packet_lens) v

-- The duration of the last sample, from the time to its successor.
abbrev pub fix_last : List BufferedVideo → ℕ → List BufferedVideo
fix_last [] d = []
fix_last (s ∷ []) d = record s { duration_ticks = some d } ∷ []
fix_last (s ∷ s' ∷ ss) d = s ∷ fix_last (s' ∷ ss) d

abbrev pub get_or : Option ℕ → ℕ → ℕ
get_or none d = d
get_or (some n) d = n

abbrev pub fixed_video : RecordingWriter → ℕ → List BufferedVideo
fixed_video w pts = elim w.prev_pts [
  | none ↦ w.video
  | some prev ↦ fix_last w.video (max (pts - prev) 1 % 2 ^ 32)
]

-- A unit joins the buffer.
unfoldable pub buffer_video : RecordingWriter → EncodedUnit → RecordingWriter
buffer_video w unit =
    let base = get_or w.pts_base unit.pts in
    record w {
      pts_base = some base;
      prev_pts = some unit.pts;
      video =
          fixed_video w unit.pts
          ++ (record {
            bytes = unit.bytes;
            start_ticks = unit.pts - base;
            duration_ticks = none;
            keyframe = unit.is_keyframe;
          }
              ∷ []);
    }

abbrev pub Pushed : Type 0
Pushed = Option (RecordingWriter × Option RecordError)

-- What a push does last: emit what is complete, and shed.
unfoldable pub emit_and_cap : RecordingWriter → Pushed
unfolding try_emit enforce_buffer_caps
emit_and_cap w = try_emit (fuel_of w) w false >>= λ w'. some (enforce_buffer_caps w', none)

-- Before the header: a unit that is no keyframe waits, and the first keyframe opens the file.
abbrev pub open_header : RecordingWriter → RecordingWriter
open_header w = record w { pre_idr = []; header_written = true }

unfoldable pub push_video : RecordingWriter → EncodedUnit → Pushed
unfolding emit_and_cap buffer_video
push_video w unit =
    if w.header_written
    then emit_and_cap (buffer_video w unit)
    else if not unit.is_keyframe
    then if leb max_pre_idr_units (length w.pre_idr)
      then some (w, some input)
      else some (record w { pre_idr = w.pre_idr ++ (unit ∷ []) }, none)
    else if validate_parameter_sets w.sps w.pps
    then emit_and_cap (buffer_video (open_header w) unit)
    else some (record w { pre_idr = [] }, some input)

-- A packet is dropped while there are priming packets to skip.
abbrev pub ingest_one : RecordingWriter → List ℕ → RecordingWriter
ingest_one w f = elim w.priming_to_skip [
  | zero ↦ record w {
    audio_packet_lens = w.audio_packet_lens ++ (length f ∷ []);
    audio_data = w.audio_data ++ f;
  }
  | suc n ↦ record w { priming_to_skip = n }
]

unfoldable pub ingest_aac_frames : RecordingWriter → List (List ℕ) → RecordingWriter
ingest_aac_frames w [] = w
ingest_aac_frames w (f ∷ fs) = ingest_aac_frames (ingest_one w f) fs

-- The encoder returns `packets` for samples that are `samples` many.
unfoldable pub push_audio : RecordingWriter → ℕ → List (List ℕ) → Pushed
unfolding ingest_aac_frames emit_and_cap
push_audio w samples packets =
    if samples == 0
    then some (w, none)
    else if samples % 2 == 0
    then emit_and_cap (ingest_aac_frames w packets)
    else some (w, some input)

-- `iter().rev().nth(1)`'s duration.
abbrev pub before_last : List BufferedVideo → Option ℕ
before_last [] = none
before_last (s ∷ []) = none
before_last (s ∷ s' ∷ []) = s.duration_ticks
before_last (s ∷ s' ∷ s'' ∷ ss) = before_last (s' ∷ s'' ∷ ss)

abbrev pub last_duration : List BufferedVideo → Option (Option ℕ)
last_duration [] = none
last_duration (s ∷ []) = some s.duration_ticks
last_duration (s ∷ s' ∷ ss) = last_duration (s' ∷ ss)

unfoldable pub fix_tail : RecordingWriter → RecordingWriter
fix_tail w = elim (last_duration w.video) [
  | none ↦ w
  | some d ↦ elim d [
    | some k ↦ w
    | none ↦ record w {
      video =
          fix_last w.video (max (get_or (before_last w.video) (video_timescale / max w.fps 1)) 1);
    }
  ]
]

-- `finish` up to the last fragment: the writer at its end. The durations that it then patches in the header, and the
-- sidecar, are not modelled.
unfoldable pub finish : RecordingWriter → List (List ℕ) → Option RecordingWriter
unfolding fix_tail ingest_aac_frames try_emit
finish w tail = let v = ingest_aac_frames (fix_tail w) tail in try_emit (fuel_of v) v true
