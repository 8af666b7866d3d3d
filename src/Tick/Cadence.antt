-- ===== src/Tick/Cadence.antt =====
-- `Cadence` of tick.rs: each running tick is a repeat, a skip or neither, and spans open and close around it.
use nbe.Prelude.{
  ℕ, ◌+◌, ◌-◌, Bool, true, false, Option, none, some, List, [], ◌∷◌, ◌++◌, ltb, ◌==◌, if◌then◌else◌,
}
use nbe.Tick.{
  add, LineBudget, fresh, take, Counters, Span, SpanKind, run_span, record_take, Line, drawn_again,
  never_drawn, late_submit, open_span, summary_of,
}

-- `log` is oldest first. The time of the last tick is only printed, and left out.
pub record Cadence : Type 0 where
  pub last : Option ℕ
  pub run : Option Span
  pub take_span : Option Span
  pub lines : LineBudget
  pub late_lines : LineBudget
  pub state : Counters
  pub log : List Line

unfoldable pub default : Counters → Cadence
default s = record {
  last = none;
  run = none;
  take_span = none;
  lines = fresh;
  late_lines = fresh;
  state = s;
  log = [];
}

-- A line of the budget `lines`, where it may go.
unfoldable pub say : Cadence → ℕ → (ℕ → Line) → Cadence
unfolding take
say c now line =
    let b = take c.lines now in
    elim (b.0) [
      | none ↦ record c { lines = b.1 }
      | some suppressed ↦ record c { lines = b.1; log = c.log ++ (line suppressed ∷ []) }
    ]

abbrev pub summed : SpanKind → Option Span → Counters → List Line
summed what none s = []
summed what (some span) s = summary_of what span s ∷ []

-- `new_run`.
unfoldable pub new_run : Cadence → Cadence
unfolding summary_of
new_run c = record c { run = none; last = none; log = c.log ++ summed run_span c.run c.state }

-- `end`.
unfoldable pub end : Cadence → Cadence
unfolding summary_of
end c = record c {
  run = none;
  take_span = none;
  log = c.log ++ summed record_take c.take_span c.state ++ summed run_span c.run c.state;
}

abbrev pub closes_run : Option ℕ → Option ℕ → Bool
closes_run none last = true
closes_run (some f) none = false
closes_run (some f) (some prev) = ltb f prev

abbrev pub opened : Option ℕ → Option Span → Counters → Option Span
opened none run s = run
opened (some f) none s = some (open_span s)
opened (some f) (some span) s = some span

-- The spans close before the tick is counted, and open at it.
unfoldable pub roll_run : Cadence → Option ℕ → Cadence
unfolding new_run open_span
roll_run c master =
    let d = if closes_run master c.last then new_run c else c in
    record d { run = opened master d.run d.state }

abbrev pub roll_span : Bool → Option Span → Counters → Option Span × List Line
roll_span false (some take) s = (none, summary_of record_take take s ∷ [])
roll_span true none s = (some (open_span s), [])
roll_span false none s = (none, [])
roll_span true (some take) s = (some take, [])

unfoldable pub roll_take : Cadence → Bool → Cadence
unfolding open_span summary_of
roll_take c recording =
    let r = roll_span recording c.take_span c.state in
    record c { take_span = r.0; log = c.log ++ r.1 }

abbrev pub repeat_frame : Cadence → ℕ → ℕ → Cadence
repeat_frame c f now =
    say (record c { state = record c.state { repeated = c.state.repeated + 1 } }) now
      (drawn_again f)

abbrev pub skip_frames : Cadence → ℕ → ℕ → ℕ → Cadence
skip_frames c prev f now =
    let skipped = f - prev - 1 in
    say
      (record c {
        state = record c.state {
          skipped = c.state.skipped + skipped;
          dropped = c.state.dropped + skipped;
        };
      })
      now (never_drawn (prev + 1) (f - 1) (c.state.dropped + skipped))

-- The master frame against the one before it.
unfoldable pub count_frame : Cadence → Option ℕ → Option ℕ → ℕ → Cadence
unfolding say
count_frame c (some f) (some prev) now =
    if f == prev
    then repeat_frame c f now
    else if ltb (prev + 1) f
    then skip_frames c prev f now
    else c
count_frame c (some f) none now = c
count_frame c none last now = c

abbrev pub last_after : Option ℕ → Option ℕ → Option ℕ
last_after (some f) last = some f
last_after none last = last

abbrev pub ticked_span : Option Span → ℕ → ℕ → Option Span
ticked_span none late budget = none
ticked_span (some span) late budget =
    some (record span { ticks = span.ticks + 1; wake = add span.wake late budget })

unfoldable pub keep_last : Cadence → Option ℕ → ℕ → ℕ → Cadence
unfolding add
keep_last c master late budget = record c {
  last = last_after master c.last;
  run = ticked_span c.run late budget;
  take_span = ticked_span c.take_span late budget;
}

-- `Cadence::tick`; `now` is the instant that its line reads.
unfoldable pub tick : Cadence → Option ℕ → Bool → ℕ → ℕ → ℕ → Cadence
unfolding roll_run roll_take count_frame keep_last
tick c master recording woke_late budget now =
    let d = roll_take (roll_run c master) recording in
    keep_last (count_frame d master d.last now) master woke_late budget

-- `submitted_late`, of a frame and how late it was.
unfoldable pub submitted_late : Cadence → Option ℕ → Option ℕ → ℕ → Cadence
unfolding take
submitted_late c none late now = c
submitted_late c (some f) none now = c
submitted_late c (some f) (some late) now =
    let b = take c.late_lines now in
    elim (b.0) [
      | none ↦ record c { late_lines = b.1 }
      | some suppressed ↦ record c {
        late_lines = b.1;
        log = c.log ++ (late_submit f late c.state.dropped suppressed ∷ []);
      }
    ]
