-- ===== src/Mp4.antt =====
-- The buffers and the fragments of the recording writer, crates/nbe-engine/src/record/writer.rs. A presentation time is
-- a number of ticks at 90 kHz, where the code rounds an f64 of seconds to them, and the times of fragments are compared
-- as exact fractions. The file is its fragments, without the bytes of their boxes; neither the disk nor the AAC
-- encoder fails, and the encoder's packets are inputs. A panic is `none`.
pub mod Emit
pub mod Writer
pub mod Ends
pub mod Sound
pub mod Total
pub mod Window
pub mod Stall
pub mod Timeline
mod Tests
use nbe.Prelude.{
  ℕ, zero, suc, ◌+◌, ◌%◌, Bool, true, false, ◌&&◌, ◌||◌, Option, none, some, List, [], ◌∷◌, length,
  ltb, leb, ◌==◌, if◌then◌else◌,
}

pub record OutSample : Type 0 where
  pub duration : ℕ
  pub size : ℕ
  pub flags : ℕ

pub record EncodedUnit : Type 0 where
  pub bytes : List ℕ
  pub pts : ℕ
  pub is_keyframe : Bool

pub record BufferedVideo : Type 0 where
  pub bytes : List ℕ
  pub start_ticks : ℕ
  pub duration_ticks : Option ℕ
  pub keyframe : Bool

-- What `write_fragment` is given: the number, and each track's base, samples and data.
pub record Fragment : Type 0 where
  pub seq : ℕ
  pub video_base : ℕ
  pub video_samples : List OutSample
  pub video_data : List ℕ
  pub audio_base : ℕ
  pub audio_samples : List OutSample
  pub audio_data : List ℕ

-- `file` has its newest fragment first. Its header is written or not.
pub record RecordingWriter : Type 0 where
  pub sps : List ℕ
  pub pps : List ℕ
  pub fps : ℕ
  pub header_written : Bool
  pub pre_idr : List EncodedUnit
  pub video : List BufferedVideo
  pub pts_base : Option ℕ
  pub prev_pts : Option ℕ
  pub audio_data : List ℕ
  pub audio_packet_lens : List ℕ
  pub video_ticks_emitted : ℕ
  pub audio_packets_emitted : ℕ
  pub dropped_video : ℕ
  pub dropped_audio_packets : ℕ
  pub priming_to_skip : ℕ
  pub seq : ℕ
  pub file : List Fragment

-- `RecordError`, without its texts.
pub data RecordError : Type 0 where
  disk aac input : RecordError

abbrev pub video_timescale : ℕ
video_timescale = 90000

abbrev pub audio_timescale : ℕ
audio_timescale = 48000

abbrev pub frames_per_packet : ℕ
frames_per_packet = 1024

abbrev pub fragment_ticks : ℕ
fragment_ticks = 90000

abbrev pub max_pre_idr_units : ℕ
max_pre_idr_units = 600

abbrev pub max_buffered_video_frames : ℕ
max_buffered_video_frames = 180

abbrev pub max_buffered_audio_packets : ℕ
max_buffered_audio_packets = 280

abbrev pub max_buffered_audio_bytes : ℕ
max_buffered_audio_bytes = 4194304

-- The low five bits of the first byte, where there is one.
abbrev pub nal_is : List ℕ → ℕ → Bool
nal_is [] t = false
nal_is (b ∷ bs) t = b % 32 == t

-- `validate_parameter_sets` returns `Ok`.
abbrev pub validate_parameter_sets : List ℕ → List ℕ → Bool
validate_parameter_sets sps pps = leb 4 (length sps) && nal_is sps 7 && nal_is pps 8
