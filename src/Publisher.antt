-- ===== src/Publisher.antt =====
-- The publisher's handle and its accounting, crates/nbe-engine/src/record/rtmp.rs: what the feeder
-- does in `send`, and what the publisher task does with the channel and the byte counter. Atomics
-- are numbers; `Threads` interleaves the two sides.
pub mod Sequential
pub mod Threads
pub mod Task
mod Tests
use nbe.Prelude.{
  ℕ, zero, suc, ◌+◌, ◌-◌, min, max, Bool, true, false, ◌&&◌, Option, none, some, List, [], ◌∷◌,
  ◌++◌, length, get_or, ltb, leb, ◌==◌, if◌then◌else◌,
}
use nbe.Rtmp.{msg_audio, msg_video}

pub record PublishFrame : Type 0 where
  pub kind : ℕ
  pub payload : List ℕ
  pub ts_ms : ℕ

abbrev pub video_frame : List ℕ → ℕ → PublishFrame
video_frame payload ts_ms = record { kind = msg_video; payload = payload; ts_ms = ts_ms }

abbrev pub audio_frame : List ℕ → ℕ → PublishFrame
audio_frame payload ts_ms = record { kind = msg_audio; payload = payload; ts_ms = ts_ms }

abbrev pub publish_channel_bound : ℕ
publish_channel_bound = 64

-- What `PublisherHandle` and the task share. `queue` is the channel, oldest first, and `open_end`
-- says that the task still holds its receiver.
pub record Publisher : Type 0 where
  pub queue : List PublishFrame
  pub open_end : Bool
  pub buffered : ℕ
  pub shed : ℕ
  pub cached_video_seq : Option (ℕ × List ℕ)
  pub cached_audio_seq : Option (ℕ × List ℕ)
  pub last_ts : ℕ

-- `spawn_publisher_with_envelope`, before the task runs.
abbrev pub spawned : Publisher
spawned = record {
  queue = [];
  open_end = true;
  buffered = 0;
  shed = 0;
  cached_video_seq = none;
  cached_audio_seq = none;
  last_ts = 0;
}

-- A sequence header of a kind: a first byte, and then 0.
abbrev pub is_seq : ℕ → List ℕ → Bool
is_seq first payload =
    leb 2 (length payload) && (get_or payload 0 0 == first && get_or payload 1 0 == 0)

-- The first sequence header of a kind is kept, with its kind.
abbrev pub cache : ℕ → ℕ → PublishFrame → Option (ℕ × List ℕ) → Option (ℕ × List ℕ)
cache kind first f (some old) = some old
cache kind first f none =
    if f.kind == kind && is_seq first f.payload then some (f.kind, f.payload) else none

-- `tokio::sync::mpsc::Sender::try_send` on a channel of 64.
pub data TrySend : Type 0 where
  sent full closed : TrySend

abbrev pub try_send : Publisher → PublishFrame → TrySend × Publisher
try_send p f =
    if p.open_end
    then if ltb (length p.queue) publish_channel_bound
      then (sent, record p { queue = p.queue ++ (f ∷ []) })
      else (full, p)
    else (closed, p)

-- `send` up to and with `try_send`: the caches and the last timestamp, then the channel.
unfoldable pub admit : Publisher → PublishFrame → TrySend × Publisher
admit p f =
    try_send
      (record p {
        cached_video_seq = cache msg_video 0x17 f p.cached_video_seq;
        cached_audio_seq = cache msg_audio 0xAF f p.cached_audio_seq;
        last_ts = max p.last_ts f.ts_ms;
      })
      f

-- The rest of `send`: the counter moves after the frame is in the channel.
unfoldable pub settle : TrySend × Publisher → PublishFrame → Bool × Publisher
settle (sent, p) f = (true, record p { buffered = p.buffered + length f.payload })
settle (full, p) f = (false, record p { shed = p.shed + 1 })
settle (closed, p) f = (false, p)

unfoldable pub send : Publisher → PublishFrame → Bool × Publisher
unfolding admit settle
send p f = settle (admit p f) f

-- The task takes the oldest frame, and debits it when it is written, refused or abandoned.
unfoldable pub recv : Publisher → Option PublishFrame × Publisher
recv p = elim p.queue [ [] ↦ (none, p) | f ∷ fs ↦ (some f, record p { queue = fs }) ]

-- What a debit of some bytes takes, of the counter as it loads it.
unfoldable pub debited : Publisher → ℕ → ℕ
debited p len = min len p.buffered

unfoldable pub fetch_sub : Publisher → ℕ → Publisher
fetch_sub p value = record p { buffered = p.buffered - value }

unfoldable pub debit : Publisher → ℕ → Publisher
unfolding debited fetch_sub
debit p len = fetch_sub p (debited p len)

abbrev pub queue_bytes : List PublishFrame → ℕ
queue_bytes [] = 0
queue_bytes (f ∷ fs) = length f.payload + queue_bytes fs

-- What the loop of `drain_stale` counts is the length of the queue and its bytes.
unfoldable pub drain_stale : Publisher → Publisher
drain_stale p =
    if ltb 0 (length p.queue)
    then record p {
      queue = [];
      shed = p.shed + length p.queue;
      buffered = p.buffered - min (queue_bytes p.queue) p.buffered;
    }
    else p
