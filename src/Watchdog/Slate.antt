-- ===== src/Watchdog/Slate.antt =====
-- Who holds the slate, watchdog.rs and state.rs: the watchdog's trips and clears among the operator's calls.
use nbe.Prelude.{ℕ, ◌+◌, ◌*◌, ◌<◌, ◌≡◌, refl, arith, Bool, true, false, ◌||◌, List, [], ◌∷◌}
use nbe.Watchdog.{
  held, watchdog, EngineState, fallback_active, fallback_held_by, engage_fallback, release_fallback,
  Watchdog, new, report_frame, clear, trip, report_late, report_on_time, clear_after_on_time,
}

-- A frame's report, or a call of the operator's: the slate up, or down.
pub data Event : Type 0 where
  reports : ℕ → Event
  holds : Event
  lets_go : Event

unfoldable pub apply : Watchdog → Event → Watchdog
unfolding report_frame engage_fallback release_fallback
apply w (reports n) = report_frame w n
apply w holds = record w { state = engage_fallback w.state held }
apply w lets_go = record w { state = release_fallback w.state held }

unfoldable pub run : Watchdog → List Event → Watchdog
run w [] = w
run w (e ∷ es) = run (apply w e) es

abbrev pub count : Bool → ℕ
count true = 1
count false = 0

-- What the operator's calls alone ask for.
abbrev pub asked : Bool → List Event → Bool
asked b [] = b
asked b (reports n ∷ es) = asked b es
asked b (holds ∷ es) = asked true es
asked b (lets_go ∷ es) = asked false es

-- No source holds the slate, and nothing is counted.
abbrev pub fresh : EngineState
fresh = record { fallback_sources = 0; watchdog_trips_total = 0; watchdog_clears_total = 0 }

-- The bits are the operator's and the watchdog's, and the watchdog's is up between a trip and its clear.
record IsAgreed (w : Watchdog) (up : Bool) : Type 0 where
  bits : w.state.fallback_sources ≡ count up + 2 * count w.tripped
  counts : w.state.watchdog_trips_total ≡ w.state.watchdog_clears_total + count w.tripped
  waits : w.consecutive_on_time < clear_after_on_time

abbrev asks : Bool → Event → Bool
asks b (reports n) = b
asks b holds = true
asks b lets_go = false

apply-IsAgreed :
    (w : Watchdog) (up : Bool) (e : Event) → IsAgreed w up → IsAgreed (apply w e) (asks up e)
unfolding apply report_frame report_late report_on_time clear trip engage_fallback release_fallback
    fallback_held_by
apply-IsAgreed w true (reports n) v = ground arith
apply-IsAgreed w false (reports n) v = ground arith
apply-IsAgreed w true holds v = ground arith
apply-IsAgreed w false holds v = ground arith
apply-IsAgreed w true lets_go v = ground arith
apply-IsAgreed w false lets_go v = ground arith

run-IsAgreed :
    (w : Watchdog) (up : Bool) (es : List Event) → IsAgreed w up → IsAgreed (run w es) (asked up es)
unfolding run
run-IsAgreed w up [] v = v
run-IsAgreed w up (reports n ∷ es) v =
    run-IsAgreed (apply w (reports n)) up es (apply-IsAgreed w up (reports n) v)
run-IsAgreed w up (holds ∷ es) v =
    run-IsAgreed (apply w holds) true es (apply-IsAgreed w up holds v)
run-IsAgreed w up (lets_go ∷ es) v =
    run-IsAgreed (apply w lets_go) false es (apply-IsAgreed w up lets_go v)

IsAgreed-fallback_held_by :
    (w : Watchdog) (up : Bool)
    → IsAgreed w up
    → (fallback_held_by w.state held ≡ up)
      × (fallback_held_by w.state watchdog ≡ w.tripped)
      × (fallback_active w.state ≡ (up || w.tripped))
unfolding fallback_held_by fallback_active
IsAgreed-fallback_held_by w true v = ground arith
IsAgreed-fallback_held_by w false v = ground arith

-- However the reports and the operator's calls follow each other, the operator's hold on the slate is what the
-- operator last asked for, the watchdog's hold is its own fault, the slate is up exactly when one of them holds
-- it, and the trips counted are the clears counted, and one more while the fault lasts.
pub run-slate :
    (threshold : ℕ) (es : List Event)
    → let w = run (new fresh threshold) es in
      (fallback_held_by w.state held ≡ asked false es)
      × (fallback_held_by w.state watchdog ≡ w.tripped)
      × (fallback_active w.state ≡ (asked false es || w.tripped))
      × (w.state.watchdog_trips_total ≡ w.state.watchdog_clears_total + count w.tripped)
unfolding new
run-slate threshold es =
    let w = run (new fresh threshold) es in
    let v =
      run-IsAgreed (new fresh threshold) false es
        (record { bits = refl; counts = refl; waits = omega arith }) in
    let (o, d, a) = IsAgreed-fallback_held_by w (asked false es) v in (o, d, a, v.counts)
