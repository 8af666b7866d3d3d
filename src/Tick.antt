-- ===== src/Tick.antt =====
-- The accounts of the render loop's cadence, crates/nbe-engine/src/tick.rs. A `Duration` and an `Instant` are numbers of
-- nanoseconds. The u64 counters are unbounded. A log line is what it carries, without its text.
pub mod Cadence
pub mod Loop
pub mod Counts
pub mod Budget
pub mod Ordered
pub mod Once
mod Tests
use nbe.Prelude.{
  ℕ, zero, suc, ◌+◌, ◌-◌, ◌*◌, ◌/◌, ◌%◌, ◌^◌, max, Bool, true, false, Option, none, some, List, [],
  ◌∷◌, ltb, leb, if◌then◌else◌,
}

-- `buckets` has nine counts.
pub record WakeStats : Type 0 where
  pub ticks : ℕ
  pub total : ℕ
  pub max_late : ℕ
  pub buckets : List ℕ

abbrev pub no_wakes : WakeStats
no_wakes = record {
  ticks = 0;
  total = 0;
  max_late = 0;
  buckets = 0 ∷ 0 ∷ 0 ∷ 0 ∷ 0 ∷ 0 ∷ 0 ∷ 0 ∷ 0 ∷ [];
}

abbrev pub wake_edges_us : List ℕ
wake_edges_us = 100 ∷ 250 ∷ 500 ∷ 1000 ∷ 2000 ∷ 5000 ∷ 10000 ∷ []

-- `iter().position(|&edge| us <= edge)`.
abbrev pub position : List ℕ → ℕ → Option ℕ
position [] us = none
position (edge ∷ edges) us =
    let rest = position edges us in
    if leb us edge then some 0 else elim rest [ none ↦ none | some i ↦ some (suc i) ]

-- `late.as_micros() as u64`.
abbrev pub micros : ℕ → ℕ
micros late = late / 1000 % 2 ^ 64

abbrev pub bucket_of : ℕ → ℕ → ℕ
bucket_of late budget = elim (position wake_edges_us (micros late)) [
  | some i ↦ i
  | none ↦ if leb late budget then 7 else 8
]

abbrev pub count_at : List ℕ → ℕ → List ℕ
count_at [] i = []
count_at (n ∷ ns) zero = suc n ∷ ns
count_at (n ∷ ns) (suc i) = n ∷ count_at ns i

unfoldable pub add : WakeStats → ℕ → ℕ → WakeStats
add w late budget = record {
  ticks = w.ticks + 1;
  total = w.total + late;
  max_late = max w.max_late late;
  buckets = count_at w.buckets (bucket_of late budget);
}

unfoldable pub mean_us : WakeStats → ℕ
mean_us w = elim w.ticks [ zero ↦ 0 | suc n ↦ micros w.total / suc n ]

abbrev pub r33_lines_per_second : ℕ
r33_lines_per_second = 5

pub record LineBudget : Type 0 where
  pub window : Option ℕ
  pub used : ℕ
  pub suppressed : ℕ

abbrev pub fresh : LineBudget
fresh = record { window = none; used = 0; suppressed = 0 }

-- The window that a line at an instant falls in, opened where the last one is a second old.
abbrev pub in_window : LineBudget → ℕ → LineBudget
in_window b now = elim b.window [
  | some w ↦ if ltb (now - w) 1000000000 then b else record b { window = some now; used = 0 }
  | none ↦ record b { window = some now; used = 0 }
]

-- `LineBudget::take`: the lines suppressed since the last one let through, when a line may go.
unfoldable pub take : LineBudget → ℕ → Option ℕ × LineBudget
take b now =
    let w = in_window b now in
    if ltb w.used r33_lines_per_second
    then (some w.suppressed, record w { used = w.used + 1; suppressed = 0 })
    else (none, record w { suppressed = w.suppressed + 1 })

-- The counters of `EngineState` that the loop moves.
pub record Counters : Type 0 where
  pub repeated : ℕ
  pub skipped : ℕ
  pub dropped : ℕ

pub record Span : Type 0 where
  pub ticks : ℕ
  pub repeated : ℕ
  pub skipped : ℕ
  pub dropped : ℕ
  pub wake : WakeStats

pub data SpanKind : Type 0 where
  run_span record_take : SpanKind

-- A log line: a span's summary with its ticks, repeats, skips, drops and wakes; a frame drawn again with the lines
-- suppressed; the first and the last frame never drawn, the drops in all and the lines suppressed; a frame submitted
-- late, by how much, the drops in all and the lines suppressed.
pub data Line : Type 0 where
  summary : SpanKind → ℕ → ℕ → ℕ → ℕ → WakeStats → Line
  drawn_again : ℕ → ℕ → Line
  never_drawn : ℕ → ℕ → ℕ → ℕ → Line
  late_submit : ℕ → ℕ → ℕ → ℕ → Line

-- `Span::open`.
unfoldable pub open_span : Counters → Span
open_span s = record {
  ticks = 0;
  repeated = s.repeated;
  skipped = s.skipped;
  dropped = s.dropped;
  wake = no_wakes;
}

-- `Span::summary`.
unfoldable pub summary_of : SpanKind → Span → Counters → Line
summary_of what span s =
    summary what span.ticks (s.repeated - span.repeated) (s.skipped - span.skipped)
      (s.dropped - span.dropped) span.wake
