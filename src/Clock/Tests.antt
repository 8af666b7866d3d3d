-- ===== src/Clock/Tests.antt =====
-- The clock's theorems at concrete clocks.
use nbe.Prelude.{◌≤◌, ◌≡◌, ◌↔◌, refl, arith, [], ◌∷◌, some}
use nbe.Clock.{MasterClock, running, boundary, frame_at, epoch_of, new}
use nbe.Clock.Boundary.{frame_at-le_iff_boundary}
use nbe.Clock.States.{run, IsCoherent, started, ended, run-new-IsCoherent}

abbrev at_thirty : MasterClock
at_thirty = record { house_rate = 30; state = running; epoch = some 1000 }

first_boundary : boundary at_thirty 1 ≡ some 33334334
unfolding boundary epoch_of
first_boundary = refl

frame_then : frame_at at_thirty 33334333 ≡ some 0
unfolding frame_at
frame_then = refl

at_thirty_epoch : epoch_of at_thirty ≡ some 1000
unfolding epoch_of
at_thirty_epoch = refl

frame_at-le_iff_boundary_example : (1 ≤ 0) ↔ (33334334 ≤ 33334333)
frame_at-le_iff_boundary_example =
    frame_at-le_iff_boundary at_thirty 1 33334333 (omega arith) at_thirty_epoch (omega arith)
      first_boundary frame_then

run-new-IsCoherent_example : IsCoherent (run (new 30) (started 5 ∷ ended ∷ started 9 ∷ []))
run-new-IsCoherent_example = run-new-IsCoherent 30 (started 5 ∷ ended ∷ started 9 ∷ [])
