-- ===== src/Clock.antt =====
-- The master clock, crates/nbe-engine/src/clock.rs. An `Instant` is a count of nanoseconds, a
-- `Duration` a number of them; both are unbounded here. `house_rate` is a u32 and frames are u64.
pub mod Boundary
pub mod States
mod Tests
use nbe.Prelude.{
  ℕ, ◌+◌, ◌-◌, ◌*◌, ◌/◌, ◌^◌, max, Bool, Option, none, some, ltb, if◌then◌else◌, ◌>>=◌,
}

pub data ClockState : Type 0 where
  stopped running : ClockState

pub record MasterClock : Type 0 where
  pub house_rate : ℕ
  pub state : ClockState
  pub epoch : Option ℕ

abbrev pub nanos_per_second : ℕ
nanos_per_second = 1000000000

-- `u64::try_from(n).ok()`
abbrev pub to_u64 : ℕ → Option ℕ
to_u64 n = if ltb n (2 ^ 64) then some n else none

-- `n.div_ceil(d)`, where `d` is not 0
abbrev pub div_ceil : ℕ → ℕ → ℕ
div_ceil n d = (n + (d - 1)) / d

unfoldable pub new : ℕ → MasterClock
new house_rate = record { house_rate = house_rate; state = stopped; epoch = none }

-- `now` is what `Instant::now()` reads.
unfoldable pub start : MasterClock → ℕ → MasterClock
start c now = elim c.state [
  | stopped ↦ record c { epoch = some now; state = running }
  | running ↦ c
]

unfoldable pub stop : MasterClock → MasterClock
stop c = record c { state = stopped; epoch = none }

-- The method `epoch`.
unfoldable pub epoch_of : MasterClock → Option ℕ
epoch_of c = elim c.state [ stopped ↦ none | running ↦ c.epoch ]

unfoldable pub boundary : MasterClock → ℕ → Option ℕ
boundary c frame = epoch_of c >>= λ e.
    to_u64 (div_ceil (frame * nanos_per_second) (max c.house_rate 1)) >>= λ nanos. some (e + nanos)

-- `now - e` is `saturating_duration_since`.
unfoldable pub frame_at : MasterClock → ℕ → Option ℕ
frame_at c now = elim c.state [
  | stopped ↦ none
  | running ↦ c.epoch >>= λ e. to_u64 ((now - e) * c.house_rate / nanos_per_second)
]
