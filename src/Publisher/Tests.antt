-- ===== src/Publisher/Tests.antt =====
-- The publisher's theorems at concrete frames.
use nbe.Prelude.{ℕ, ◌+◌, ◌≤◌, ◌≡◌, refl, arith, true, false, some, none, List, [], ◌∷◌, length}
use nbe.Publisher.{
  PublishFrame, sent, spawned, video_frame, send, queue_bytes, admit, settle, debited,
  publish_channel_bound,
}
use nbe.Publisher.Sequential.{Call, sends, receives, run, apply, receive, run-exact}
use nbe.Publisher.Task.{
  PublisherEvent, task_spawned, step, goes, says_closed, raises_flag, reconnecting, closed, over,
  run-over,
}
use nbe.Publisher.Task
use nbe.Publisher.Threads.{
  System, Reach, here, next, quiet, send_uses_channel, send_counts, task_takes, task_writes,
  task_loads, idle, subtracts, uncounted, Reach-covered, credit_left,
}

abbrev key : PublishFrame
key = video_frame (0x17 ∷ 0 ∷ 1 ∷ []) 40

abbrev calls : List Call
calls = sends key ∷ receives ∷ sends (video_frame (0x27 ∷ 1 ∷ []) 80) ∷ []

calls-open_end : (run spawned calls).open_end ≡ true
unfolding run apply send receive
calls-open_end = refl

run-exact_example :
    ((run spawned calls).buffered ≡ queue_bytes (run spawned calls).queue)
    × (length (run spawned calls).queue ≤ publish_channel_bound)
run-exact_example = run-exact calls calls-open_end

-- The frame is sent, taken and written, its debit has loaded the counter, and the next one is in the channel, with its
-- send not counted yet.
abbrev midway : System
midway = record {
  shared = record spawned {
    queue = key ∷ [];
    buffered = 3;
    cached_video_seq = some (9, 0x17 ∷ 0 ∷ 1 ∷ []);
    last_ts = 40;
  };
  feeder = some (sent, key);
  task = subtracts 3 3;
}

midway-Reach : Reach (quiet spawned) midway
unfolding admit settle debited
midway-Reach =
    let s0 = next here (send_uses_channel (quiet spawned) key refl) in
    let s1 = next s0 (send_counts _ sent key refl) in
    let s2 = next s1 (task_takes _ key [] refl refl) in
    let s3 = next s2 (task_writes _ 3 refl) in
    let s4 = next s3 (task_loads _ 3 refl) in next s4 (send_uses_channel _ key refl)

Reach-covered_example :
    (queue_bytes midway.shared.queue + 3 ≤ midway.shared.buffered + uncounted midway.feeder)
    × ((len value : ℕ) → midway.task ≡ subtracts len value → value ≤ midway.shared.buffered)
Reach-covered_example = Reach-covered midway-Reach

credit_left_example :
    (t : System) × Reach (quiet spawned) t
    × (t.feeder ≡ none)
    × (t.task ≡ idle)
    × (t.shared.queue ≡ [])
    × (t.shared.buffered ≡ 3)
credit_left_example = credit_left key

-- The task dials when it is told to stop.
abbrev stopping : List PublisherEvent
stopping = goes true ∷ goes true ∷ goes true ∷ says_closed ∷ raises_flag ∷ []

abbrev refused : List PublisherEvent
refused =
    goes false ∷ goes false ∷ goes false ∷ goes false ∷ goes false ∷ goes false ∷ goes false ∷ []

stopping-flag : (Task.run task_spawned stopping).flag ≡ true
unfolding Task.run step
stopping-flag = refl

run-over_example :
    ((Task.run (Task.run task_spawned stopping) refused).phase ≡ over)
    × ((Task.run (Task.run task_spawned stopping) refused).state ≡ closed)
run-over_example = run-over stopping refused stopping-flag (omega arith)

-- A shutdown between the look at the flag and the store: `Closed` is overwritten, until the task ends.
closed_overwritten :
    (Task.run task_spawned
      (goes true ∷ goes true ∷ says_closed ∷ raises_flag ∷ goes true ∷ [])).state
    ≡ reconnecting
unfolding Task.run step
closed_overwritten = refl
