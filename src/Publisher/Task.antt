-- ===== src/Publisher/Task.antt =====
-- The publisher's task, rtmp.rs: `publisher_task` as the states of its loop, with the steps of a shutdown between them. A
-- step's outcome, where the code waits for one, is an input: a dial, a dialog and the replay of the headers succeed or
-- not, also because of the shutdown, and the live loop ends, for either reason. A mutex and an atomic are their values.
use nbe.Prelude.{
  ℕ, suc, ◌-◌, ◌*◌, ◌≤◌, min, ◌≡◌, refl, subst, arith, Bool, true, false, List, [], ◌∷◌,
  if◌then◌else◌,
}

pub data PublisherState : Type 0 where
  live reconnecting closed : PublisherState

-- `checks` is `set_state` before its look at the flag, and `stores` between that and its store: of `Live` with `true`,
-- of `Reconnecting` with `false`. `pauses` is the sleep before a redial.
pub data PublisherPhase : Type 0 where
  top dials talks replays streams pauses over : PublisherPhase
  checks stores : Bool → PublisherPhase

pub record PublisherTask : Type 0 where
  pub phase : PublisherPhase
  pub state : PublisherState
  pub flag : Bool
  pub pause_ms : ℕ

abbrev pub initial_reconnect_pause : ℕ
initial_reconnect_pause = 100

abbrev pub max_reconnect_pause : ℕ
max_reconnect_pause = 1000

abbrev pub task_spawned : PublisherTask
task_spawned = record {
  phase = top;
  state = reconnecting;
  flag = false;
  pause_ms = initial_reconnect_pause;
}

-- The state that is set, and what the task does then.
abbrev pub set_to : Bool → PublisherState
set_to is_live = if is_live then live else reconnecting

abbrev pub after_set : Bool → PublisherPhase
after_set is_live = if is_live then streams else dials

-- The way out of the loop.
abbrev pub end_task : PublisherTask → PublisherTask
end_task t = record t { phase = over; state = closed }

abbrev pub step_in : PublisherTask → PublisherPhase → Bool → PublisherTask
step_in t top ok = if t.flag then end_task t else record t { phase = checks false }
step_in t (checks s) ok = record t { phase = if t.flag then after_set s else stores s }
step_in t (stores s) ok = record t { phase = after_set s; state = set_to s }
step_in t dials ok = record t { phase = if ok then talks else pauses }
step_in t talks ok =
    if ok
    then record t { phase = replays; pause_ms = initial_reconnect_pause }
    else record t { phase = pauses }
step_in t replays ok = record t { phase = if ok then checks true else pauses }
step_in t streams ok = if ok then end_task t else record t { phase = pauses }
step_in t pauses ok =
    if t.flag
    then end_task t
    else record t { phase = top; pause_ms = min (t.pause_ms * 2) max_reconnect_pause }
step_in t over ok = record t { phase = over }

-- A step of the task with its outcome, or one of the two of `shutdown_signal`: it says `Closed`, and raises the flag.
pub data PublisherEvent : Type 0 where
  goes : Bool → PublisherEvent
  says_closed raises_flag : PublisherEvent

unfoldable pub step : PublisherTask → PublisherEvent → PublisherTask
step t (goes ok) = step_in t t.phase ok
step t says_closed = record t { state = closed }
step t raises_flag = record t { flag = true }

unfoldable pub run : PublisherTask → List PublisherEvent → PublisherTask
unfolding step
run t [] = t
run t (e ∷ es) = run (step t e) es

-- How many steps of its own a task that sees the flag has left, at most.
abbrev left : PublisherPhase → ℕ
left over = 0
left top = 1
left pauses = 1
left streams = 2
left (checks true) = 3
left (stores true) = 3
left replays = 4
left talks = 5
left dials = 6
left (checks false) = 7
left (stores false) = 7

abbrev pub own_steps : List PublisherEvent → ℕ
own_steps [] = 0
own_steps (goes ok ∷ es) = suc (own_steps es)
own_steps (says_closed ∷ es) = own_steps es
own_steps (raises_flag ∷ es) = own_steps es

-- A task past its loop has said `Closed`.
abbrev IsSaid : PublisherPhase → PublisherState → Type 0
IsSaid over s = s ≡ closed
IsSaid p s = Unit {0}

closed-IsSaid : (p : PublisherPhase) → IsSaid p closed
closed-IsSaid over = refl
closed-IsSaid top = tt
closed-IsSaid dials = tt
closed-IsSaid talks = tt
closed-IsSaid replays = tt
closed-IsSaid streams = tt
closed-IsSaid pauses = tt
closed-IsSaid (checks b) = tt
closed-IsSaid (stores b) = tt

step_in-IsSaid :
    (t : PublisherTask) (p : PublisherPhase) (ok : Bool)
    → IsSaid p t.state
    → IsSaid (step_in t p ok).phase (step_in t p ok).state
step_in-IsSaid t top ok v = ground (arith, v)
step_in-IsSaid t dials ok v = ground (arith, v)
step_in-IsSaid t talks ok v = ground (arith, v)
step_in-IsSaid t replays ok v = ground (arith, v)
step_in-IsSaid t streams ok v = ground (arith, v)
step_in-IsSaid t pauses ok v = ground (arith, v)
step_in-IsSaid t (checks b) ok v = ground (arith, v)
step_in-IsSaid t (stores b) ok v = ground (arith, v)
step_in-IsSaid t over ok v = v

-- With the flag up a step of the task has fewer of its own left, and leaves the flag.
step_in-left :
    (t : PublisherTask) (p : PublisherPhase) (ok : Bool)
    → t.flag ≡ true
    → (left (step_in t p ok).phase ≤ left p - 1) × ((step_in t p ok).flag ≡ true)
step_in-left t top ok h = ground (arith, h)
step_in-left t dials ok h = ground (arith, h)
step_in-left t talks ok h = ground (arith, h)
step_in-left t replays ok h = ground (arith, h)
step_in-left t streams ok h = ground (arith, h)
step_in-left t pauses ok h = ground (arith, h)
step_in-left t (checks true) ok h = ground (arith, h)
step_in-left t (checks false) ok h = ground (arith, h)
step_in-left t (stores true) ok h = ground (arith, h)
step_in-left t (stores false) ok h = ground (arith, h)
step_in-left t over ok h = ground (arith, h)

left_none : (p : PublisherPhase) → left p ≤ 0 → p ≡ over
left_none over h = refl
left_none top h = absurd (omega (arith, h))
left_none dials h = absurd (omega (arith, h))
left_none talks h = absurd (omega (arith, h))
left_none replays h = absurd (omega (arith, h))
left_none streams h = absurd (omega (arith, h))
left_none pauses h = absurd (omega (arith, h))
left_none (checks true) h = absurd (omega (arith, h))
left_none (checks false) h = absurd (omega (arith, h))
left_none (stores true) h = absurd (omega (arith, h))
left_none (stores false) h = absurd (omega (arith, h))

step-IsSaid :
    (t : PublisherTask) (e : PublisherEvent)
    → IsSaid t.phase t.state
    → IsSaid (step t e).phase (step t e).state
unfolding step
step-IsSaid t (goes ok) v = step_in-IsSaid t t.phase ok v
step-IsSaid t says_closed v = closed-IsSaid t.phase
step-IsSaid t raises_flag v = v

run-IsSaid :
    (t : PublisherTask) (es : List PublisherEvent)
    → IsSaid t.phase t.state
    → IsSaid (run t es).phase (run t es).state
unfolding run
run-IsSaid t [] v = v
run-IsSaid t (e ∷ es) v = run-IsSaid (step t e) es (step-IsSaid t e v)

step-left :
    (t : PublisherTask) (e : PublisherEvent) (es : List PublisherEvent)
    → t.flag ≡ true
    → left t.phase ≤ own_steps (e ∷ es)
    → (left (step t e).phase ≤ own_steps es) × ((step t e).flag ≡ true)
unfolding step
step-left t (goes ok) es h k = let s = step_in-left t t.phase ok h in (omega (arith, k, s.0), s.1)
step-left t says_closed es h k = (k, h)
step-left t raises_flag es h k = (k, refl)

run_up-over :
    (t : PublisherTask) (es : List PublisherEvent)
    → t.flag ≡ true
    → left t.phase ≤ own_steps es
    → (run t es).phase ≡ over
unfolding run
run_up-over t [] h k = left_none t.phase k
run_up-over t (e ∷ es) h k = let s = step-left t e es h k in run_up-over (step t e) es s.1 s.0

left-bound : (p : PublisherPhase) → left p ≤ 7
left-bound over = omega arith
left-bound top = omega arith
left-bound dials = omega arith
left-bound talks = omega arith
left-bound replays = omega arith
left-bound streams = omega arith
left-bound pauses = omega arith
left-bound (checks true) = omega arith
left-bound (checks false) = omega arith
left-bound (stores true) = omega arith
left-bound (stores false) = omega arith

-- Of a task that was spawned and took any steps, with any outcomes and any steps of shutdowns between them, after which
-- the flag is up: whatever the steps from there on, once seven of them are the task's own it is past its loop, and
-- its state is `Closed`.
pub run-over :
    (es fs : List PublisherEvent)
    → (run task_spawned es).flag ≡ true
    → 7 ≤ own_steps fs
    → ((run (run task_spawned es) fs).phase ≡ over)
      × ((run (run task_spawned es) fs).state ≡ closed)
run-over es fs h k =
    let t = run task_spawned es in
    let o = run_up-over t fs h (omega (arith, k, left-bound t.phase)) in
    (o, subst (λ p. IsSaid p (run t fs).state) o (run-IsSaid t fs (run-IsSaid task_spawned es tt)))
