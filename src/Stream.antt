-- ===== src/Stream.antt =====
-- The stream thread and its session, crates/nbe-engine/src/record/stream.rs, with the checks of
-- `encode_pixel_buffer_at` in crates/nbe-decode/src/encode.rs. What the platform's codecs answer is an input; what they
-- and the publisher are given is kept, oldest first. Times spent are not kept, and counters are unbounded.
pub mod Flv
pub mod Thread
pub mod Handoff
pub mod Counted
pub mod Frames
pub mod Cached
pub mod Headers
pub mod AudioView
pub mod Packets
pub mod AudioLine
pub mod Indices
pub mod Timeline
pub mod AvcC
pub mod Session
mod Tests
use nbe.Prelude.{ℕ, ◌*◌, ◌+◌, min, max, Bool, Option, none, some, List, get_or}
use nbe.Mp4.{EncodedUnit}
use nbe.Publisher.{Publisher, PublishFrame}
use nbe.Record.{SkipCount}

pub data StreamThreadPhase : Type 0 where
  spawned opening_encoders running exiting done : StreamThreadPhase

pub record StreamParams : Type 0 where
  pub width : ℕ
  pub height : ℕ
  pub fps : ℕ
  pub video_bitrate_bps : ℕ
  pub audio_bitrate_bps : ℕ

pub record StreamOutput : Type 0 where
  pub video_bitrate_kbps : Option ℕ
  pub audio_bitrate_kbps : Option ℕ

-- rtmp.rs.
abbrev pub video_bitrate_bps : ℕ
video_bitrate_bps = 8000000

abbrev pub audio_bitrate_bps : ℕ
audio_bitrate_bps = 192000

unfoldable pub new : ℕ → ℕ → ℕ → StreamParams
new width height fps = record {
  width = width;
  height = height;
  fps = max fps 1;
  video_bitrate_bps = video_bitrate_bps;
  audio_bitrate_bps = audio_bitrate_bps;
}

-- `saturating_mul(1000)` of a u32, where the manifest sets a rate.
abbrev pub rate_or : Option ℕ → ℕ → ℕ
rate_or none bps = bps
rate_or (some kbps) bps = min (kbps * 1000) 4294967295

unfoldable pub with_output : StreamParams → Option StreamOutput → StreamParams
with_output p none = p
with_output p (some o) = record p {
  video_bitrate_bps = rate_or o.video_bitrate_kbps p.video_bitrate_bps;
  audio_bitrate_bps = rate_or o.audio_bitrate_kbps p.audio_bitrate_bps;
}

unfoldable pub envelope_bps : StreamParams → ℕ
envelope_bps p = p.video_bitrate_bps + p.audio_bitrate_bps

-- `frame_index` is how many frames VideoToolbox took.
pub record EncodeSession : Type 0 where
  pub frame_index : ℕ
  pub last_pts_index : Option ℕ

-- `phase` stands in `Handoff.Feed`: `run_stream_thread` alone writes it.
pub record StreamStats : Type 0 where
  pub encoder_ready : Bool
  pub aac_ready : Bool
  pub video_frames_encoded : ℕ
  pub video_units_published : ℕ
  pub audio_packets_published : ℕ

-- `StreamThread`. The AAC converter has no state of its own here: it is there or not.
pub record StreamThread : Type 0 where
  pub encoder : Option EncodeSession
  pub aac : Bool
  pub base_frame : Option ℕ
  pub seq_sent : Bool
  pub priming_to_skip : ℕ
  pub audio_packets : ℕ

-- What the publisher's task can do between two sends: receive a frame, drop the backlog after a redial, or end.
pub data TaskCall : Type 0 where
  receives drains ends : TaskCall

-- What the thread shares or calls. `task` is what the publisher's task does before each coming send; `offered` is what
-- went to the publisher, shed or not; `submitted` the indices of the frames submitted, each with whether a keyframe was
-- forced and whether the frame was taken; `packets` the packets that the AAC converter gave.
pub record Shared : Type 0 where
  pub publisher : Publisher
  pub task : List (List TaskCall)
  pub skipped : SkipCount
  pub stats : StreamStats
  pub offered : List PublishFrame
  pub submitted : List (ℕ × Bool × Bool)
  pub packets : List (List ℕ)

-- A message to the thread: the master frame, whether its draw finishes in time, what VideoToolbox answers to it (or that
-- it, or the check of the buffer before it, refuses), and the parameter sets that the session then has.
pub record Surface : Type 0 where
  pub frame : ℕ
  pub drawn : Bool
  pub answer : Option (List EncodedUnit)
  pub parameter_sets : Option (List ℕ × List ℕ)

-- What one drain of the tap gives, and what the AAC converter makes of it.
pub record Audio : Type 0 where
  pub pcm : List ℕ
  pub answer : Option (List (List ℕ))
