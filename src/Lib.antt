-- ===== src/Lib.antt =====
-- Verification of the broadcasting engine: models of parts of `nbe-engine` and `nbe-core`, with the
-- theorems listed below.
--
-- The parts, the files that model them and what they model:
--   Prelude      shared names: Boolean tests on native numbers, lists measured by them, bytes.
--   Clock        crates/nbe-engine/src/clock.rs: `MasterClock` with `start` and `stop`, `frame_at`
--                and `boundary`, in whole nanoseconds.
--   Watchdog     crates/nbe-engine/src/watchdog.rs (`Watchdog::report_frame`) and the slate's
--                sources in crates/nbe-engine/src/state.rs (`engage_fallback`, `release_fallback`,
--                `fallback_held_by`, `fallback_active`).
--   AudioRing    crates/nbe-engine/src/audio_ring.rs: `push` and `pop_into` as functions, and in
--                Threads as atomic steps of the audio thread and the device callback.
--   Rtmp         crates/nbe-engine/src/record/rtmp.rs: the chunk writer (`write_chunked`), the
--                chunk reader (`ChunkReader::next_message`), in Rtmp.Amf0 the values of commands
--                (`amf0_decode` and the encoders), and in Rtmp.Url `parse_rtmp_url`.
--   Publisher    the same file: `PublisherHandle::send`, the task's receipt and debit of a frame
--                in `live_loop`, `drain_stale`; in Threads the feeder and the task interleaved, and in
--                Task the states of `publisher_task` with the steps of a shutdown between them.
--   Manifest     the automation rules of crates/nbe-core/src/manifest.rs, and JSON values.
--   Automation   crates/nbe-core/src/automation.rs: `validate_rule` with its triggers and
--                conditions, `audio_level_watch` and `audio_level_watches`.
--   Effects      crates/nbe-core/src/automation_effects.rs: `edge` and `find_cycle`.
--   LoopCache    crates/nbe-core/src/loop_cache.rs: `plan`, `CacheBudget`, `loop_held_frames`.
--   Record       crates/nbe-engine/src/record/skip.rs (`SkipCount`), and the store and the
--                chapters of crates/nbe-engine/src/record/markers.rs (`add`, `chapters`).
--   Directive    crates/nbe-engine/src/directive.rs: `apply` and the handlers of start and stop of
--                the show, take, cut, fallback, overlays, markers, recall and the stops of the
--                outputs; `PlaybackTracker` and the tasks of `schedule_done`; with `Transition` of
--                crates/nbe-engine/src/scene.rs. Transitions, Takes, Outputs and Apply hold the code,
--                the other files what is proved of it.
--   Tick         crates/nbe-engine/src/tick.rs: `WakeStats`, `LineBudget`, `Span` and `Cadence`, and
--                in Loop `run_loop` with the drops that `run_tick` counts, as a state machine whose
--                steps the starts and stops of the clock come between.
--   Stream       crates/nbe-engine/src/record/stream.rs, with `encode_pixel_buffer_at` of
--                crates/nbe-decode/src/encode.rs: the payloads (Flv), the thread's `encode_video` and
--                `drain_audio` on the publisher (Thread), the hand-off of the loop with the channel and
--                the turns of the thread as events in any order (Handoff), and in Session the stop, the
--                close and the abandon of a `StreamSession`. The other files hold what is proved.
--   AudioTap     crates/nbe-engine/src/record/audio_tap.rs: `push` with its evictions, `drain` and
--                `clear`, a call at a time.
--   Sessions     crates/nbe-engine/src/video.rs: `SessionPool` with `acquire`, the drop of a lease and
--                `release_all`.
--   Channel      crates/nbe-engine/src/channel.rs: `ConnectionGate`, the inbound loop of
--                `RenderChannel::run` and the delays of `run_forever`. Cases splits a step; Engine gives
--                the interface `Handler` the handler of Directive.
--   Mp4          crates/nbe-engine/src/record/writer.rs: the buffers of `RecordingWriter`, its caps,
--                `try_emit` and `emit_fragment` (Emit), the pushes and `finish` (Writer).
--
-- How the parts meet: the loop sleeps to the clock's boundaries and reads its frames;
-- the cycle check and the rule check read the same rules; the publisher sends what the chunk writer
-- frames; the watchdog and the operator hold the slate through one bit set, which directives engage
-- and release; a directive's frames are read from the clock; markers go to the recording's store; a
-- connection hands directives to their handler; the stream thread gives its frames to the publisher,
-- whose task acts between any two of its sends, and counts what it gives up in the skip counts.
--
-- Conventions. A struct is a record, an enum a data type, a method a function that returns the new
-- state; a mutex or an atomic is its value, and where two threads meet they are a step relation with
-- sequentially consistent steps. A socket is the list of the bytes it gives. u64 counters are
-- unbounded; fields of fixed width on the wire are numbers with their bytes written out.
--
-- Fuel. `next_message` takes as fuel a bound on the chunks it reads, and the round trip gives one
-- more than the payload's length; `write_loop` takes the payload's length and two; `visit` of the
-- cycle check takes the number of rules, and is proved never to use it up; `amf0_decode` takes a
-- bound on nesting and properties, and the round trip gives the value's size; `try_emit` takes the
-- units and packets buffered and one, and is proved to end with it.
--
-- Taken as given: the table of command effects, a data file (a parameter); tokio's bounded channel
-- (`try_send` refuses at 64 frames or when the receiver is gone); the validity of UTF-8 (a
-- parameter). An f64 on the wire is its eight bytes, a JSON number an exact rational, an alpha a
-- fraction, and a presentation time a whole number of ticks. The answers of the H.264 and the AAC
-- encoders, whether a draw finishes in time, what the stop of a session returns, and the length of a
-- frame are inputs.
--
-- Not modelled: rendering and the GPU, decoding and encoding through the platform's frameworks, the
-- audio graph's arithmetic, sockets, what the dialog and the live loop of the publisher send and read, the
-- bytes of MP4 boxes, the load of a package, resync and the starts of the outputs, what a tick draws
-- and hands to the outputs, the control plane in TypeScript, and the texts of errors and log lines.
pub mod Prelude
pub mod Clock
pub mod AudioRing
pub mod Rtmp
pub mod Publisher
pub mod Watchdog
pub mod Stream
pub mod Channel
pub mod AudioTap
pub mod Sessions
pub mod Tick
pub mod Mp4
pub mod Effects
pub mod Manifest
pub mod Automation
pub mod LoopCache
pub mod Record
pub mod Directive
