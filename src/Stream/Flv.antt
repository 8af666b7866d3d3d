-- ===== src/Stream/Flv.antt =====
-- The FLV payloads and timestamps of a stream, stream.rs. A presentation time is in ticks of 1/90000 s.
use nbe.Prelude.{
  ℕ, ◌+◌, ◌*◌, ◌/◌, ◌%◌, ◌^◌, min, Bool, not, ◌&&◌, ◌||◌, Option, none, some, List, ◌∷◌, ◌++◌,
  length, ltb, ◌==◌, get_or, if◌then◌else◌,
}
use nbe.Prelude.Bytes.{be16}
use nbe.Mp4.{EncodedUnit}

abbrev pub frames_per_packet : ℕ
frames_per_packet = 1024

abbrev pub input_sample_rate : ℕ
input_sample_rate = 48000

-- Rounded to the nearest millisecond; the cast to u32 saturates.
unfoldable pub media_ts_ms : ℕ → ℕ
media_ts_ms pts = min ((pts + 45) / 90) 4294967295

-- The cast to u32 wraps.
unfoldable pub audio_ts_ms : ℕ → ℕ
audio_ts_ms n = n * frames_per_packet * 1000 / input_sample_rate % 2 ^ 32

unfoldable pub flv_video_tag : EncodedUnit → List ℕ
flv_video_tag u = (if u.is_keyframe then 0x17 else 0x27) ∷ 0x01 ∷ 0x00 ∷ 0x00 ∷ 0x00 ∷ u.bytes

unfoldable pub flv_audio_tag : List ℕ → List ℕ
flv_audio_tag bytes = 0xAF ∷ 0x01 ∷ bytes

unfoldable pub aac_sequence_header : List ℕ → List ℕ
aac_sequence_header asc = 0xAF ∷ 0x00 ∷ asc

-- `nal[0] & 0x80 != 0 || nal[0] & 0x1F != kind`, negated.
abbrev pub nal_header_is : ℕ → List ℕ → Bool
nal_header_is kind nal = ltb (get_or nal 0 0) 128 && (get_or nal 0 0 % 32 == kind)

abbrev pub avc_c : List ℕ → List ℕ → List ℕ
avc_c sps pps =
    0x01
    ∷ get_or sps 1 0
    ∷ get_or sps 2 0
    ∷ get_or sps 3 0
    ∷ 0xFF
    ∷ 0xE1
    ∷ (be16 (length sps) ++ (sps ++ (0x01 ∷ (be16 (length pps) ++ pps))))

unfoldable pub avc_sequence_header : List ℕ → List ℕ → Option (List ℕ)
avc_sequence_header sps pps =
    if ltb (length sps) 4 || (length pps == 0)
    then none
    else if not (nal_header_is 7 sps)
    then none
    else if not (nal_header_is 8 pps)
    then none
    else some (0x17 ∷ 0x00 ∷ 0x00 ∷ 0x00 ∷ 0x00 ∷ avc_c sps pps)
