-- ===== src/Stream/Handoff.antt =====
-- The render loop, the channel and the stream thread together, stream.rs: `hand_off_stream_surface`, and
-- `run_stream_thread` with a turn of its loop as a step. The thread's way out is one step.
use nbe.Prelude.{
  ℕ, Bool, true, false, Option, none, some, List, [], ◌∷◌, ◌++◌, length, ltb, if◌then◌else◌,
}
use nbe.Publisher.{spawned}
use nbe.Record.{no_draw, queue_full, SkipCount}
use nbe.Stream.{StreamThread, Shared, Surface, Audio, TaskCall, StreamThreadPhase, running, done}
use nbe.Stream.Thread.{drop_frame, open_thread, encode_video, drain_audio}

abbrev pub stream_channel_bound : ℕ
stream_channel_bound = 2

-- `thread` is there once its encoders are open. `stop` is the message in the control channel.
pub record Feed : Type 0 where
  pub channel : List Surface
  pub stop : Bool
  pub phase : StreamThreadPhase
  pub thread : Option StreamThread
  pub shared : Shared

-- `open_inner`, with the task's calls to come and the counts of the engine.
unfoldable pub opened : List (List TaskCall) → SkipCount → Feed
opened task skipped = record {
  channel = [];
  stop = false;
  phase = StreamThreadPhase.spawned;
  thread = none;
  shared = record {
    publisher = spawned;
    task = task;
    skipped = skipped;
    stats = record {
      encoder_ready = false;
      aac_ready = false;
      video_frames_encoded = 0;
      video_units_published = 0;
      audio_packets_published = 0;
    };
    offered = [];
    submitted = [];
    packets = [];
  };
}

abbrev pub is_done : StreamThreadPhase → Bool
is_done done = true
is_done _ = false

-- Whether the frame went. `drawn` says that the View drew the frame.
unfoldable pub hand_off_stream_surface : Feed → Surface → Bool → Bool × Feed
unfolding drop_frame
hand_off_stream_surface f s drawn =
    if drawn
    then if is_done f.phase
      then (false, f)
      else if ltb (length f.channel) stream_channel_bound
      then (true, record f { channel = f.channel ++ (s ∷ []) })
      else (false, record f { shared = drop_frame f.shared queue_full 1 })
    else (false, record f { shared = drop_frame f.shared no_draw 1 })

-- The thread leaves its loop: its codecs and its end of the channel go.
unfoldable pub leave : Feed → Feed
leave f = record f { channel = []; phase = done }

unfoldable pub start : Feed → Bool → Option (List ℕ) → Feed
unfolding open_thread
start f encoder asc = elim f.thread [
  | some t ↦ f
  | none ↦
      let (t, a) = open_thread f.shared encoder asc in
      record f { thread = some t; phase = running; shared = a }
]

-- A turn of the loop. `gone` says that every sender of the channel is dropped.
unfoldable pub turn_of : Feed → StreamThread → Bool → Audio → Feed
unfolding leave encode_video drain_audio
turn_of f t gone audio = if f.stop then leave f else elim f.channel [
  | s ∷ rest ↦
      let (t', a) = encode_video t f.shared s in
      let (t'', b) = drain_audio t' a audio in
      record f { channel = rest; thread = some t''; shared = b }
  | [] ↦
      if gone
      then leave f
      else let (t', a) = drain_audio t f.shared audio in record f { thread = some t'; shared = a }
]

unfoldable pub turn : Feed → Bool → Audio → Feed
unfolding turn_of
turn f gone audio = elim f.thread [
  | none ↦ f
  | some t ↦ if is_done f.phase then f else turn_of f t gone audio
]

-- What can happen, in any order: the loop hands off a surface, the thread opens its encoders or takes a turn, and
-- `stop_thread` or `abandon` sends its message.
pub data Event : Type 0 where
  hands_off : Surface → Bool → Event
  opens : Bool → Option (List ℕ) → Event
  turns : Bool → Audio → Event
  stops : Event

unfoldable pub step : Feed → Event → Feed
unfolding hand_off_stream_surface start turn
step f (hands_off s drawn) = (hand_off_stream_surface f s drawn).1
step f (opens encoder asc) = start f encoder asc
step f (turns gone audio) = turn f gone audio
step f stops = record f { stop = true }

unfoldable pub run : Feed → List Event → Feed
unfolding step
run f [] = f
run f (e ∷ es) = run (step f e) es
