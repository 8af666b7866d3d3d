-- ===== src/Watchdog/Tests.antt =====
-- The watchdog's theorems at concrete reports.
use nbe.Prelude.{◌+◌, ◌≡◌, true, false, ◌||◌, ◌&&◌, [], ◌∷◌, replicate}
use nbe.Watchdog.{
  Watchdog, new, report_frame, run, fallback_held_by, fallback_active, held, watchdog,
}
use nbe.Watchdog.Slate
use nbe.Watchdog.Slate.{Event, reports, holds, lets_go, fresh, run-slate, asked}
use nbe.Watchdog.Hysteresis.{run-hysteresis}

abbrev slow : Watchdog
slow = new fresh 2

run-slate_example :
    let w = Slate.run slow (holds ∷ reports 3 ∷ lets_go ∷ []) in
    (fallback_held_by w.state held ≡ false)
    × (fallback_held_by w.state watchdog ≡ w.tripped)
    × (fallback_active w.state ≡ w.tripped)
    × (w.state.watchdog_trips_total ≡ w.state.watchdog_clears_total + Slate.count w.tripped)
run-slate_example = run-slate 2 (holds ∷ reports 3 ∷ lets_go ∷ [])

run-hysteresis_example :
    let w = run slow (1 ∷ 1 ∷ []) in
    let late = report_frame w 1 in
    (late.tripped ≡ (w.tripped || true))
    × ((run late (replicate 30 0)).tripped ≡ (late.tripped && false))
run-hysteresis_example = run-hysteresis fresh 2 (1 ∷ 1 ∷ []) 0 30
