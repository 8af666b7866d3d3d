-- ===== src/Mp4/Emit.antt =====
-- `try_emit` and `emit_fragment` of writer.rs.
use nbe.Prelude.{
  ℕ, zero, suc, ◌+◌, ◌-◌, ◌*◌, ◌%◌, ◌^◌, min, Bool, ◌&&◌, not, Option, none, some, List, [], ◌∷◌,
  ◌++◌, length, take, drop, ltb, leb, ◌==◌, if◌then◌else◌, ◌>>=◌,
}
use nbe.Mp4.{
  OutSample, BufferedVideo, RecordingWriter, video_timescale, audio_timescale, frames_per_packet,
  fragment_ticks,
}

-- The drain of video: the samples, their data, the ticks consumed and what stays.
pub record Drained : Type 0 where
  pub samples : List OutSample
  pub bytes : List ℕ
  pub ticks : ℕ

abbrev pub sample_flags : Bool → ℕ
sample_flags keyframe = if keyframe then 33554432 else 16842752

abbrev pub drain_one : BufferedVideo → Drained → Option Drained
drain_one s r = s.duration_ticks >>= λ d. some (record {
  samples =
      record { duration = d; size = length s.bytes % 2 ^ 32; flags = sample_flags s.keyframe }
      ∷ r.samples;
  bytes = s.bytes ++ r.bytes;
  ticks = d + r.ticks;
})

-- `drain(..n)` with `expect`: `none` where a sample is missing or has no duration.
abbrev pub drain_video : ℕ → List BufferedVideo → Option Drained
drain_video zero ss = some (record { samples = []; bytes = []; ticks = 0 })
drain_video (suc n) [] = none
drain_video (suc n) (s ∷ ss) = let rest = drain_video n ss in rest >>= λ r. drain_one s r

-- The packets' samples and bytes: `none` where there are fewer packets or bytes.
abbrev pub drain_audio : ℕ → List ℕ → List ℕ → Option (List OutSample × List ℕ)
drain_audio zero lens bytes = some ([], [])
drain_audio (suc n) [] bytes = none
drain_audio (suc n) (len ∷ lens) bytes =
    let rest = drain_audio n lens (drop len bytes) in
    if leb len (length bytes)
    then (rest >>= λ r. some (
      record { duration = frames_per_packet; size = len % 2 ^ 32; flags = 33554432 } ∷ r.0,
      take len bytes ++ r.1,
    ))
    else none

abbrev pub sum_lens : List ℕ → ℕ
sum_lens [] = 0
sum_lens (n ∷ ns) = n + sum_lens ns

-- The writer after a fragment of some video and packets.
abbrev pub emitted : RecordingWriter → ℕ → ℕ → Drained → List OutSample × List ℕ → RecordingWriter
emitted w n_video n_audio v a = record w {
  video = drop n_video w.video;
  audio_packet_lens = drop n_audio w.audio_packet_lens;
  audio_data = drop (sum_lens (take n_audio w.audio_packet_lens)) w.audio_data;
  file =
      record {
        seq = w.seq;
        video_base = w.video_ticks_emitted;
        video_samples = v.samples;
        video_data = v.bytes;
        audio_base = w.audio_packets_emitted * frames_per_packet;
        audio_samples = a.0;
        audio_data = a.1;
      }
      ∷ w.file;
  seq = w.seq + 1;
  video_ticks_emitted = w.video_ticks_emitted + v.ticks;
  audio_packets_emitted = w.audio_packets_emitted + n_audio;
}

unfoldable pub emit_fragment : RecordingWriter → ℕ → ℕ → Option RecordingWriter
emit_fragment w n_video n_audio =
    if n_video == 0 && n_audio == 0
    then some w
    else (drain_video n_video w.video >>= λ v.
        drain_audio n_audio w.audio_packet_lens w.audio_data >>= λ a.
        some (emitted w n_video n_audio v a))

abbrev pub ticks_of : BufferedVideo → ℕ
ticks_of s = elim s.duration_ticks [ none ↦ 0 | some d ↦ d ]

-- How many of the first samples start inside the window, and where they end.
abbrev pub in_window : ℕ → List BufferedVideo → ℕ → ℕ → ℕ × ℕ
in_window zero ss fend t = (0, t)
in_window (suc fixed) [] fend t = (0, t)
in_window (suc fixed) (s ∷ ss) fend t =
    let rest = in_window fixed ss fend (t + ticks_of s) in
    if leb fend s.start_ticks then (0, t) else (suc (rest.0), rest.1)

-- Packet `k` starts before tick `t`, as fractions of a second.
abbrev pub packet_before : ℕ → ℕ → Bool
packet_before k t = ltb (k * frames_per_packet * video_timescale) (t * audio_timescale)

abbrev pub wanted : List ℕ → ℕ → ℕ → ℕ
wanted [] k t = 0
wanted (len ∷ lens) k t =
    let rest = wanted lens (k + 1) t in if packet_before k t then suc rest else 0

-- What a round of the loop does: break, or emit so many of each and go on.
pub data Round : Type 0 where
  stays : Round
  emits : ℕ → ℕ → Round

abbrev pub fixed_of : RecordingWriter → Bool → ℕ
fixed_of w finishing = if finishing then length w.video else length w.video - 1

abbrev pub leftover : RecordingWriter → Bool → Bool
leftover w finishing = finishing && leb 1 (length w.audio_packet_lens)

-- The window has video: it waits for more, or takes the packets that start before the video's end.
abbrev pub covered : RecordingWriter → Bool → ℕ → ℕ → Round
covered w finishing m t =
    let want = wanted w.audio_packet_lens w.audio_packets_emitted t in
    if not finishing && ltb t (w.video_ticks_emitted + fragment_ticks)
    then stays
    else if not finishing && packet_before (w.audio_packets_emitted + want) t
    then stays
    else emits m want

unfoldable pub round : RecordingWriter → Bool → Round
round w finishing =
    let fixed = fixed_of w finishing in
    let found =
      in_window fixed w.video (w.video_ticks_emitted + fragment_ticks) w.video_ticks_emitted in
    if fixed == 0 && not (leftover w finishing)
    then stays
    else if found.0 == 0
    then if leftover w finishing then emits 0 (min (length w.audio_packet_lens) 46) else stays
    else covered w finishing (found.0) (found.1)

-- The loop, on fuel; `none` where it runs out or panics.
unfoldable pub try_emit : ℕ → RecordingWriter → Bool → Option RecordingWriter
unfolding emit_fragment round
try_emit zero w finishing = none
try_emit (suc fuel) w finishing = elim (round w finishing) [
  | stays ↦ some w
  | emits m n ↦ emit_fragment w m n >>= λ w'. try_emit fuel w' finishing
]

-- Every round that goes on takes a unit or a packet.
abbrev pub fuel_of : RecordingWriter → ℕ
fuel_of w = length w.video + length w.audio_packet_lens + 1
