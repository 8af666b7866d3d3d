-- ===== src/Mp4/Tests.antt =====
-- The recording writer at concrete buffers.
use nbe.Prelude.{
  ℕ, zero, suc, ◌+◌, ◌*◌, ◌≡◌, refl, true, Option, none, some, List, [], ◌∷◌, ◌++◌, length,
}
use nbe.Mp4.{EncodedUnit, RecordingWriter}
use nbe.Mp4.Writer.{new, push_video, push_audio, finish}
use nbe.Mp4.Total.{recording-returns}
use nbe.Mp4.Timeline.{joined, finish-joined}
use nbe.Mp4.Window.{IsStalled}
use nbe.Mp4.Stall.{Push, video_unit, audio, pushes, pushes-stalled}

abbrev sps : List ℕ
sps = 103 ∷ 66 ∷ 0 ∷ 30 ∷ []

abbrev unit_at : ℕ → EncodedUnit
unit_at k = record { bytes = k ∷ []; pts = k * 3000; is_keyframe = true }

-- The units of a stream at 30 frames a second, from the one numbered `k` on.
abbrev units : ℕ → ℕ → List Push
units zero k = []
units (suc n) k = video_unit (unit_at k) ∷ units n (k + 1)

-- After 211 units without a packet, 31 of them are shed.
abbrev summary : Option RecordingWriter → List ℕ
summary none = []
summary (some w) = length w.video ∷ w.dropped_video ∷ w.video_ticks_emitted ∷ length w.file ∷ []

starved : summary (pushes (new sps (104 ∷ []) 30) (units 211 0)) ≡ (180 ∷ 31 ∷ 0 ∷ 0 ∷ [])
unfolding push_video
starved = refl

abbrev got : Option RecordingWriter → RecordingWriter
got none = new [] [] 0
got (some w) = w

-- 280 packets of one byte, and two priming ones.
abbrev packets_of : ℕ → List (List ℕ)
packets_of zero = []
packets_of (suc n) = (0 ∷ []) ∷ packets_of n

-- Without shedding the packets that come late let the fragments out.
recovered :
    summary (pushes (new sps (104 ∷ []) 30) (units 170 0 ++ (audio 2 (packets_of 282) ∷ [])))
    ≡ (20 ∷ 0 ∷ 450000 ∷ 5 ∷ [])
unfolding push_video push_audio
recovered = refl

abbrev shed_writer : RecordingWriter
shed_writer = got (pushes (new sps (104 ∷ []) 30) (units 211 0))

shed_writer-IsStalled : IsStalled shed_writer
unfolding push_video
shed_writer-IsStalled = record { header = refl; beyond = refl }

-- Packets for the six seconds shed and the units after them.
abbrev late_pushes : List Push
late_pushes = audio 2 (packets_of 282) ∷ units 20 211

pushes-stalled_example :
    (w' : RecordingWriter) × (pushes shed_writer late_pushes ≡ some w')
    × (w'.file ≡ shed_writer.file)
pushes-stalled_example =
    pushes-stalled shed_writer late_pushes 0 shed_writer-IsStalled (unfold push_video in refl)
      (unfold push_video in refl)

-- Nor does the end of the recording write the 180 units left.
finished : summary (finish shed_writer []) ≡ (180 ∷ 31 ∷ 0 ∷ 0 ∷ [])
unfolding push_video finish
finished = refl

recording-returns_example :
    (w : RecordingWriter) × (w' : RecordingWriter) × (pushes (new sps (104 ∷ []) 30) (units 3 0)
      ≡ some w)
    × (finish w [] ≡ some w')
recording-returns_example = recording-returns sps (104 ∷ []) 30 (units 3 0) []

abbrev recovering : List Push
recovering = units 4 0 ++ (audio 2 (packets_of 6) ∷ [])

abbrev recovered_writer : RecordingWriter
recovered_writer = got (pushes (new sps (104 ∷ []) 30) recovering)

abbrev recovered_end : RecordingWriter
recovered_end = got (finish recovered_writer [])

finish-joined_example :
    joined recovered_end.file recovered_end.seq recovered_end.video_ticks_emitted
      (recovered_end.audio_packets_emitted * 1024)
    ≡ true
unfolding push_video push_audio finish
finish-joined_example =
    finish-joined sps (104 ∷ []) 30 recovering [] recovered_writer recovered_end refl refl
