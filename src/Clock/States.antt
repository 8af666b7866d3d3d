-- ===== src/Clock/States.antt =====
-- The clock's two states, clock.rs: what `start` and `stop` keep, over any sequence of calls.
use nbe.Prelude.{ℕ, ◌≡◌, refl, Option, none, some, List, [], ◌∷◌}
use nbe.Clock.{MasterClock, ClockState, stopped, running, new, start, stop}

-- A call on the clock: `start` with what `Instant::now()` reads then, or `stop`.
pub data Call : Type 0 where
  started : ℕ → Call
  ended : Call

pub run : MasterClock → List Call → MasterClock
run c [] = c
run c (started now ∷ calls) = run (start c now) calls
run c (ended ∷ calls) = run (stop c) calls

-- A stopped clock has no epoch and a running one has one.
abbrev Coherent : ClockState → Option ℕ → Type 0
Coherent stopped e = e ≡ none
Coherent running e = (now : ℕ) × (e ≡ some now)

abbrev pub IsCoherent : MasterClock → Type 0
IsCoherent c = Coherent c.state c.epoch

start_keeps :
    (rate now : ℕ) (s : ClockState) (e : Option ℕ)
    → Coherent s e
    → IsCoherent (start (record { house_rate = rate; state = s; epoch = e }) now)
unfolding start
start_keeps rate now stopped e h = (now, refl)
start_keeps rate now running e h = h

start-IsCoherent : (c : MasterClock) (now : ℕ) → IsCoherent c → IsCoherent (start c now)
start-IsCoherent c now h = start_keeps c.house_rate now c.state c.epoch h

run-IsCoherent : (c : MasterClock) (calls : List Call) → IsCoherent c → IsCoherent (run c calls)
unfolding run
run-IsCoherent c [] h = h
run-IsCoherent c (started now ∷ calls) h =
    run-IsCoherent (start c now) calls (start-IsCoherent c now h)
run-IsCoherent c (ended ∷ calls) h = run-IsCoherent (stop c) calls (unfold stop in refl)

-- However a clock made by `new` has been started and stopped, it is stopped with no epoch, or
-- running with one.
pub run-new-IsCoherent : (rate : ℕ) (calls : List Call) → IsCoherent (run (new rate) calls)
unfolding new
run-new-IsCoherent rate calls = run-IsCoherent (new rate) calls refl
