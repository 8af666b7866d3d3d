-- ===== src/Watchdog.antt =====
-- The frame watchdog, crates/nbe-engine/src/watchdog.rs, and the sources that hold the fallback slate,
-- `fallback_sources` of crates/nbe-engine/src/state.rs. The counters are u64 in the code and unbounded here.
pub mod Slate
pub mod Hysteresis
mod Tests
use nbe.Prelude.{
  ℕ, ◌+◌, ◌-◌, ◌/◌, ◌%◌, Bool, true, false, not, List, [], ◌∷◌, ltb, leb, ◌==◌, if◌then◌else◌,
}

pub data FallbackSource : Type 0 where
  held watchdog : FallbackSource

-- `source as u8`.
abbrev pub bit : FallbackSource → ℕ
bit held = 1
bit watchdog = 2

-- What the engine's state keeps for the watchdog.
pub record EngineState : Type 0 where
  pub fallback_sources : ℕ
  pub watchdog_trips_total : ℕ
  pub watchdog_clears_total : ℕ

unfoldable pub fallback_active : EngineState → Bool
fallback_active s = not (s.fallback_sources == 0)

-- `&` with one bit.
unfoldable pub fallback_held_by : EngineState → FallbackSource → Bool
fallback_held_by s source = s.fallback_sources / bit source % 2 == 1

-- `fetch_or` of one bit.
unfoldable pub engage_fallback : EngineState → FallbackSource → EngineState
unfolding fallback_held_by
engage_fallback s source =
    if fallback_held_by s source
    then s
    else record s { fallback_sources = s.fallback_sources + bit source }

-- `fetch_and` of the complement of one bit.
unfoldable pub release_fallback : EngineState → FallbackSource → EngineState
unfolding fallback_held_by
release_fallback s source =
    if fallback_held_by s source
    then record s { fallback_sources = s.fallback_sources - bit source }
    else s

abbrev pub clear_after_on_time : ℕ
clear_after_on_time = 30

pub record Watchdog : Type 0 where
  pub state : EngineState
  pub threshold : ℕ
  pub consecutive_misses : ℕ
  pub tripped : Bool
  pub consecutive_on_time : ℕ

unfoldable pub new : EngineState → ℕ → Watchdog
new state threshold = record {
  state = state;
  threshold = threshold;
  consecutive_misses = 0;
  tripped = false;
  consecutive_on_time = 0;
}

-- The slate goes down, and the clear is counted.
unfoldable pub clear : EngineState → EngineState
unfolding release_fallback
clear s =
    let s' = release_fallback s watchdog in
    record s' { watchdog_clears_total = s'.watchdog_clears_total + 1 }

-- The slate goes up, and the trip is counted.
unfoldable pub trip : EngineState → EngineState
unfolding engage_fallback
trip s =
    let s' = engage_fallback s watchdog in
    record s' { watchdog_trips_total = s'.watchdog_trips_total + 1 }

unfoldable pub report_on_time : Watchdog → Watchdog
unfolding clear
report_on_time w =
    if w.tripped
    then if leb clear_after_on_time (w.consecutive_on_time + 1)
      then record w {
        consecutive_misses = 0;
        tripped = false;
        consecutive_on_time = 0;
        state = clear w.state;
      }
      else record w { consecutive_misses = 0; consecutive_on_time = w.consecutive_on_time + 1 }
    else record w { consecutive_misses = 0 }

unfoldable pub report_late : Watchdog → ℕ → Watchdog
unfolding trip
report_late w frames_missed =
    let misses = w.consecutive_misses + frames_missed in
    let late = record w { consecutive_on_time = 0; consecutive_misses = misses } in
    if ltb w.threshold misses
    then if w.tripped then late else record late { tripped = true; state = trip w.state }
    else late

unfoldable pub report_frame : Watchdog → ℕ → Watchdog
unfolding report_on_time report_late
report_frame w frames_missed =
    if frames_missed == 0 then report_on_time w else report_late w frames_missed

unfoldable pub fault_active : Watchdog → Bool
fault_active w = w.tripped

unfoldable pub run : Watchdog → List ℕ → Watchdog
run w [] = w
run w (n ∷ ns) = run (report_frame w n) ns
