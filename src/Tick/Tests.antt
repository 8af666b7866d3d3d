-- ===== src/Tick/Tests.antt =====
-- The cadence, the line budget and the loop at concrete values.
use nbe.Prelude.{ℕ, ◌+◌, ◌≡◌, refl, arith, true, false, some, List, [], ◌∷◌}
use nbe.Clock.{new, epoch_of, start, boundary, frame_at}
use nbe.Tick.{fresh, take, Counters}
use nbe.Tick.Cadence.{default}
use nbe.Tick.Budget.{takes, through}
use nbe.Tick.Counts.{RunningTick, tick_of, ticks, undrawn, ticks-counts}
use nbe.Tick.Loop.{begin, run, Event, starts, plans, wakes, submits}
use nbe.Tick.Ordered.{ascending}
use nbe.Tick.Once.{run-drawn_once}

abbrev no_counts : Counters
no_counts = record { repeated = 0; skipped = 0; dropped = 0 }

abbrev at_frame : ℕ → RunningTick
at_frame f = record { frame = f; recording = false; woke_late = 0; now = 0 }

-- The frames 630, 630, 632 and 636, the newest first.
abbrev later_ticks : List RunningTick
later_ticks = at_frame 636 ∷ at_frame 632 ∷ at_frame 630 ∷ []

abbrev counts_after : Counters
counts_after =
    (ticks (tick_of (default no_counts) 33333333 (at_frame 630)) 33333333 later_ticks).state

ticks-counts_example :
    (counts_after.skipped ≡ 0 + undrawn 630 7 (636 ∷ 632 ∷ 630 ∷ 630 ∷ []))
    × (counts_after.dropped ≡ 0 + undrawn 630 7 (636 ∷ 632 ∷ 630 ∷ 630 ∷ []))
    × (counts_after.repeated + 7 ≡ 0 + undrawn 630 7 (636 ∷ 632 ∷ 630 ∷ 630 ∷ []) + 4)
ticks-counts_example =
    unfold default in ticks-counts (default no_counts) 33333333 (at_frame 630) later_ticks refl refl

-- Ten lines go, nine of them in just over a millisecond, where a window ends.
abbrev instants_at_edge : List ℕ
instants_at_edge =
    0 ∷ 999000000 ∷ 999000001 ∷ 999000002 ∷ 999000003 ∷ 1000000000 ∷ 1000000001 ∷ 1000000002
    ∷ 1000000003 ∷ 1000000004 ∷ []

lines_at_edge : through ((takes fresh instants_at_edge).0) ≡ 10
unfolding take
lines_at_edge = refl

-- The clock starts, the loop draws frame 0, wakes a frame and a half late, and draws frame 2.
abbrev late_wake : List Event
late_wake =
    starts 0
    ∷ plans 5
    ∷ wakes 0 false
    ∷ submits 10
    ∷ plans 0
    ∷ wakes 50000000 false
    ∷ submits 10
    ∷ []

readings_after_late_wake :
    (run (begin (new 30) 0 33333333 no_counts) late_wake).readings
    ≡ (some (1, 2) ∷ some (1, 0) ∷ [])
unfolding run begin new start boundary frame_at epoch_of
readings_after_late_wake = refl

run-drawn_once_example :
    ((run (begin (new 30) 0 33333333 no_counts) late_wake).cadence.state.repeated ≡ 0)
    × (ascending (run (begin (new 30) 0 33333333 no_counts) late_wake).readings ≡ true)
run-drawn_once_example =
    run-drawn_once (new 30) 0 33333333 no_counts late_wake (unfold new in omega arith)
      (unfold new in omega arith) (λ e p. absurd (unfold new epoch_of in ground (arith, p)))
      (unfold run begin new start boundary frame_at epoch_of in omega arith)
