-- ===== src/Stream/Tests.antt =====
-- The stream's theorems on a short stream: two frames, the second of them while the first still waits, and one drain.
use nbe.Prelude.{
  ℕ, ◌+◌, ◌≡◌, refl, arith, true, false, some, List, [], ◌∷◌, ◌++◌, length, drop, if◌then◌else◌,
}
use nbe.Mp4.{EncodedUnit}
use nbe.Record.Totals.{zeroed}
use nbe.Stream.Handoff.{hands_off, opens, turns, Event, opened, run}
use nbe.Stream.{Surface, Audio, TaskCall, receives}
use nbe.Stream.Flv.{avc_sequence_header}
use nbe.Stream.Frames.{hand_offs, left_out, all_go_on, run-frames}
use nbe.Stream.Counted.{accounted}
use nbe.Stream.Headers.{GivenIn, run-Announced}
use nbe.Stream.Cached.{videos, Announced}
use nbe.Stream.AudioLine.{configuration, run-audio}
use nbe.Stream.AudioView.{audios, announcement, numbered}
use nbe.Stream.Timeline.{run-Rising}
use nbe.Stream.Indices.{Rising}
use nbe.Stream.Session
use nbe.Stream.Session.{
  session, drop_session, IsReleased, stops_and_closes, stop_and_close, transport_did_not_close,
  run-IsReleased, stop_and_close-answer,
}
use nbe.Stream.AvcC.{read_header, read_header-avc}

abbrev sps : List ℕ
sps = 0x27 ∷ 100 ∷ 0 ∷ 31 ∷ []

abbrev pps : List ℕ
pps = 0x28 ∷ 1 ∷ []

abbrev unit : EncodedUnit
unit = record { bytes = 5 ∷ []; pts = 0; is_keyframe = true }

abbrev surface : ℕ → Surface
surface frame = record {
  frame = frame;
  drawn = true;
  answer = some (unit ∷ []);
  parameter_sets = some (sps, pps);
}

abbrev audio : Audio
audio = record { pcm = 1 ∷ 2 ∷ []; answer = some ((9 ∷ []) ∷ (8 ∷ []) ∷ (7 ∷ []) ∷ []) }

abbrev task : List (List TaskCall)
task = [] ∷ (receives ∷ []) ∷ []

abbrev events : List Event
events =
    hands_off (surface 10) true
    ∷ opens true (some (17 ∷ 144 ∷ []))
    ∷ hands_off (surface 11) true
    ∷ turns false audio
    ∷ []

run-frames_example :
    let f = run (opened task zeroed) events in
    hand_offs events
    ≡ accounted f.shared
      + length f.channel
      + (if all_go_on events then 0 else left_out (opened task zeroed) events)
run-frames_example = run-frames task events

run-Announced_example :
    let a = (run (opened task zeroed) events).shared in
    Announced (GivenIn events) (videos a.offered) a.publisher.cached_video_seq
run-Announced_example = run-Announced task events

run-audio_example :
    let a = (run (opened task zeroed) events).shared in
    audios a.offered ≡ announcement (configuration events) ++ numbered 0 (drop 2 a.packets)
run-audio_example = run-audio task events

run-Rising_example : Rising 0 true (run (opened task zeroed) events).shared.submitted
run-Rising_example = run-Rising task events

abbrev header : List ℕ
header =
    0x17 ∷ 0 ∷ 0 ∷ 0 ∷ 0 ∷ 1 ∷ 100 ∷ 0 ∷ 31 ∷ 0xFF ∷ 0xE1 ∷ 0 ∷ 4 ∷ 0x27 ∷ 100 ∷ 0 ∷ 31 ∷ 1 ∷ 0 ∷ 2
    ∷ 0x28 ∷ 1 ∷ []

header-built : avc_sequence_header sps pps ≡ some header
unfolding avc_sequence_header
header-built = refl

read_header-avc_example : read_header header ≡ some (sps, pps)
read_header-avc_example = read_header-avc sps pps header (omega arith) (omega arith) header-built

run-IsReleased_example : IsReleased (
    drop_session (
      Session.run
        (session true true)
        (stops_and_closes true true true ∷ stops_and_closes false false true ∷ [])))
run-IsReleased_example =
    run-IsReleased true true
      (stops_and_closes true true true ∷ stops_and_closes false false true ∷ [])

stop_and_close-answer_example :
    let (error, s) = stop_and_close (session true true) false true false in
    (error ≡ some transport_did_not_close) × (s.joined ≡ true) × (s.closed ≡ true)
stop_and_close-answer_example = stop_and_close-answer true true false true false
