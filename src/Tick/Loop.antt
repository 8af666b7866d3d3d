-- ===== src/Tick/Loop.antt =====
-- `run_loop` of tick.rs with the counts of `run_tick`: the loop and the directives that start and stop the clock take
-- turns, and time passes between. `f64` gives the length of a frame, a field here. Drawing and the outputs are left
-- out, and the loop is not stopped.
use nbe.Prelude.{
  ℕ, ◌+◌, ◌-◌, ◌%◌, ◌^◌, max, Bool, true, false, Option, none, some, List, [], ◌∷◌, ltb, leb, ◌==◌,
  if◌then◌else◌, ◌>>=◌,
}
use nbe.Clock.{MasterClock, start, stop, epoch_of, boundary, frame_at}
use nbe.Tick.{Counters}
use nbe.Tick.Cadence.{Cadence, default, new_run, tick, submitted_late}

-- Where the loop is: before it plans a wake, asleep until an instant, or drawing a frame, with the master frame.
pub data Phase : Type 0 where
  planning : Phase
  sleeping : ℕ → Phase
  drawing : ℕ → Option ℕ → Phase

-- `readings` is what `drawn` has been, newest first.
pub record Loop : Type 0 where
  pub clock : MasterClock
  pub now : ℕ
  pub frame_budget : ℕ
  pub next_boundary : ℕ
  pub stopped_frame : ℕ
  pub drawn : Option (ℕ × ℕ)
  pub cadence : Cadence
  pub phase : Phase
  pub readings : List (Option (ℕ × ℕ))

unfoldable pub begin : MasterClock → ℕ → ℕ → Counters → Loop
unfolding default
begin clock now frame_budget state = record {
  clock = clock;
  now = now;
  frame_budget = frame_budget;
  next_boundary = now;
  stopped_frame = 0;
  drawn = none;
  cadence = default state;
  phase = planning;
  readings = [];
}

-- `clock_reading` of state.rs.
unfoldable pub clock_reading : MasterClock → ℕ → Option (ℕ × ℕ)
unfolding epoch_of frame_at
clock_reading clock now = epoch_of clock >>= λ e. frame_at clock now >>= λ f. some (e, f)

abbrev pub or_else : Option ℕ → ℕ → ℕ
or_else none d = d
or_else (some b) d = b

-- The instant the loop sleeps to.
unfoldable pub intended : Loop → ℕ
unfolding clock_reading boundary
intended l = elim (clock_reading l.clock l.now) [
  | none ↦ l.next_boundary
  | some r ↦ elim l.drawn [
    | none ↦ l.now
    | some d ↦ if r.0 == d.0 then or_else (boundary l.clock (d.1 + 1)) l.next_boundary else l.now
  ]
]

abbrev pub another_run : Option (ℕ × ℕ) → Option (ℕ × ℕ) → Bool
another_run none drawn = false
another_run (some r) none = false
another_run (some r) (some d) = if r.0 == d.0 then false else true

abbrev pub frame_of : Option (ℕ × ℕ) → Option ℕ
frame_of none = none
frame_of (some r) = some (r.1)

-- The frame drawn: the master frame, or the loop's own.
abbrev pub drawing_of : Option ℕ → ℕ → Phase
drawing_of (some f) stopped_frame = drawing f (some f)
drawing_of none stopped_frame = drawing stopped_frame none

abbrev pub next_stopped : Option ℕ → ℕ → ℕ
next_stopped (some f) stopped_frame = stopped_frame
next_stopped none stopped_frame = (stopped_frame + 1) % 2 ^ 64

-- From the wake to the draw.
unfoldable pub woke : Loop → ℕ → Bool → Loop
unfolding new_run tick clock_reading
woke l wanted recording =
    let reading = clock_reading l.clock l.now in
    let c = if another_run reading l.drawn then new_run l.cadence else l.cadence in
    record l {
      drawn = reading;
      readings = reading ∷ l.readings;
      stopped_frame = next_stopped (frame_of reading) l.stopped_frame;
      cadence = tick c (frame_of reading) recording (l.now - wanted) l.frame_budget l.now;
      phase = drawing_of (frame_of reading) (next_stopped (frame_of reading) l.stopped_frame);
    }

-- `run_tick`: a running frame submitted at or past the boundary after it is a drop.
unfoldable pub late_by : MasterClock → ℕ → Option ℕ → ℕ → Option ℕ
unfolding boundary
late_by clock frame none submitted = none
late_by clock frame (some f) submitted = boundary clock (frame + 1) >>= λ next.
    if leb next submitted then some (submitted - next) else none

abbrev pub count_drop : Cadence → Option ℕ → Cadence
count_drop c none = c
count_drop c (some late) = record c { state = record c.state { dropped = c.state.dropped + 1 } }

unfoldable pub submitted : Loop → ℕ → Option ℕ → Loop
unfolding submitted_late late_by
submitted l frame master =
    let late = late_by l.clock frame master l.now in
    let due = l.next_boundary + l.frame_budget in
    record l {
      cadence = submitted_late (count_drop l.cadence late) master late l.now;
      next_boundary = if ltb due l.now then l.now + l.frame_budget else due;
      phase = planning;
    }

-- A directive starts or stops the clock; the loop goes on to its next phase. A number is the time that passes first.
pub data Event : Type 0 where
  starts stops : ℕ → Event
  plans : ℕ → Event
  wakes : ℕ → Bool → Event
  submits : ℕ → Event

abbrev pub after : Loop → ℕ → Loop
after l d = record l { now = l.now + d }

unfoldable pub planned : Loop → Loop
unfolding intended
planned l = record l { phase = sleeping (intended l) }

unfoldable pub step : Loop → Event → Loop
unfolding planned woke submitted start stop
step l (starts d) = record (after l (d + 1)) { clock = start l.clock (l.now + (d + 1)) }
step l (stops d) = record (after l (d + 1)) { clock = stop l.clock }
step l (plans d) = elim l.phase [
  | planning ↦ planned (after l d)
  | sleeping i ↦ l
  | drawing f m ↦ l
]
step l (wakes d recording) = elim l.phase [
  | planning ↦ l
  | sleeping i ↦ woke (record l { now = max l.now i + d }) i recording
  | drawing f m ↦ l
]
step l (submits d) = elim l.phase [
  | planning ↦ l
  | sleeping i ↦ l
  | drawing f m ↦ submitted (after l d) f m
]

unfoldable pub run : Loop → List Event → Loop
unfolding step
run l [] = l
run l (x ∷ xs) = run (step l x) xs
