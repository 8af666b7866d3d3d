-- ===== src/Tick/Once.antt =====
-- `run_loop` of tick.rs draws no master frame twice, whatever starts and stops the clock and however late it wakes.
use nbe.Prelude.{
  ℕ, ◌+◌, ◌-◌, ◌^◌, ◌≤◌, ◌<◌, ◌≡◌, refl, sym, subst, ap, ◌∙◌, arith, max, Bool, true, false,
  Bool-cases, inl, inr, Option, none, some, List, [], ◌∷◌, ◌==◌, if◌then◌else◌,
}
use nbe.Clock.{MasterClock, epoch_of, nanos_per_second}
use nbe.Tick.{Counters, take}
use nbe.Tick.Cadence.{Cadence, default, new_run, submitted_late}
use nbe.Tick.Loop.{
  Loop, Phase, planning, sleeping, drawing, clock_reading, another_run, frame_of, woke, submitted,
  late_by, Event, starts, stops, plans, wakes, submits, planned, step, run, begin, after,
  count_drop,
}
use nbe.Tick.Ordered.{
  tick-last, tick-repeated, starts-IsOrdered, stops-IsOrdered, later-IsOrdered, planned-IsOrdered,
  wake-later, read_parts, frame_at_le, repeats, follows, ascending, IsOrdered,
}

-- The reading of a wake follows the one before it, and is no repeat of it.
reading-follows :
    (n i : ℕ) (l : Loop)
    → IsOrdered n l
    → l.now < 2 ^ 63
    → l.phase ≡ sleeping i
    → i ≤ l.now
    → (r d : Option (ℕ × ℕ)) → clock_reading l.clock l.now ≡ r
    → l.drawn ≡ d
    → (follows r d ≡ true)
      × (repeats (frame_of r) (if another_run r d then new_run l.cadence else l.cadence).last
          ≡ false)
unfolding new_run
reading-follows n i l h t p le none d q s = (refl, refl)
reading-follows n i l h t p le (some (e, g)) none q s = (refl, ground (arith, h.last, s))
reading-follows n i l h t p le (some (e, g)) (some (e', f)) q s =
    let (c, k) = read_parts l.clock l.now e g q in
    elim (Bool-cases (e == e')) [
      | inl b ↦
          let lt : f < g = wake-later n i e f g l h t p le (ground (arith, s, b)) c k in
          (ground (arith, b, lt), ground (arith, b, lt, h.last, s))
      | inr b ↦ (ground (arith, b), ground (arith, b))
    ]

woke-IsOrdered :
    (n i : ℕ) (l : Loop) (recording : Bool)
    → IsOrdered n l
    → l.now < 2 ^ 63
    → l.phase ≡ sleeping i
    → i ≤ l.now
    → IsOrdered n (woke l i recording)
unfolding woke
woke-IsOrdered n i l recording h t p le =
    let r = clock_reading l.clock l.now in
    let c = if another_run r l.drawn then new_run l.cadence else l.cadence in
    let (a, b) = reading-follows n i l h t p le r l.drawn refl refl in
    record {
      rate = h.rate;
      top = h.top;
      epoch = h.epoch;
      frame = λ e f q.
          let (x, y) = read_parts l.clock l.now e f q in
          (h.epoch e x, frame_at_le l.clock l.now e f x y);
      last = tick-last c (frame_of r) recording (l.now - i) l.frame_budget l.now;
      slept = λ j e f b q s k. absurd (ground (arith, q));
      head = refl;
      order = ground (arith, a, h.head, h.order);
      repeated =
          tick-repeated c (frame_of r) recording (l.now - i) l.frame_budget l.now b
          ∙ (unfold new_run in ground (arith, h.repeated));
    }

submitted_late-same :
    (c : Cadence) (m late : Option ℕ) (now : ℕ)
    → ((submitted_late c m late now).last ≡ c.last)
      × ((submitted_late c m late now).state ≡ c.state)
unfolding submitted_late take
submitted_late-same c none late now = (refl, refl)
submitted_late-same c (some f) none now = (refl, refl)
submitted_late-same c (some f) (some late) now = (ground arith, ground arith)

count_drop-same :
    (c : Cadence) (late : Option ℕ)
    → ((count_drop c late).last ≡ c.last) × ((count_drop c late).state.repeated ≡ c.state.repeated)
count_drop-same c none = (refl, refl)
count_drop-same c (some late) = (refl, refl)

submitted-IsOrdered :
    (n f : ℕ) (m : Option ℕ) (l : Loop) → IsOrdered n l → IsOrdered n (submitted l f m)
unfolding submitted
submitted-IsOrdered n f m l h =
    let late = late_by l.clock f m l.now in
    let (a, b) = submitted_late-same (count_drop l.cadence late) m late l.now in
    let (x, y) = count_drop-same l.cadence late in
    record {
      rate = h.rate;
      top = h.top;
      epoch = h.epoch;
      frame = h.frame;
      last = a ∙ x ∙ h.last;
      slept = λ i e f b p q s t. absurd (ground (arith, p));
      head = h.head;
      order = h.order;
      repeated = ap (λ s. s.repeated) b ∙ y ∙ h.repeated;
    }

step-now : (l : Loop) (x : Event) → l.now ≤ (step l x).now
unfolding step planned woke submitted
step-now l (starts d) = omega arith
step-now l (stops d) = omega arith
step-now l (plans d) = ground arith
step-now l (wakes d recording) = ground arith
step-now l (submits d) = ground arith

run-now : (l : Loop) (xs : List Event) → l.now ≤ (run l xs).now
unfolding run
run-now l [] = omega arith
run-now l (x ∷ xs) = omega (arith, step-now l x, run-now (step l x) xs)

-- What a step of the loop in a phase does.
phase_step :
    (n : ℕ) (l : Loop) (x : Event) (p : Phase)
    → l.phase ≡ p
    → IsOrdered n l
    → (step l x).now < 2 ^ 63
    → IsOrdered n (step l x)
phase_step n l (starts d) p q h t = starts-IsOrdered n l d h
phase_step n l (stops d) p q h t = stops-IsOrdered n l d h
phase_step n l (plans d) planning q h t =
    unfold step in
    subst
      (λ p.
        IsOrdered n (elim p [ planning ↦ planned (after l d) | sleeping i ↦ l | drawing f m ↦ l ]))
      (sym q)
      (planned-IsOrdered n (after l d) (later-IsOrdered n (l.now + d) l h (omega arith))
        (unfold planned in ground (arith, q, t)))
phase_step n l (plans d) (sleeping i) q h t =
    unfold step in subst (IsOrdered n) (ground (arith, q)) h
phase_step n l (plans d) (drawing f m) q h t =
    unfold step in subst (IsOrdered n) (ground (arith, q)) h
phase_step n l (wakes d r) planning q h t = unfold step in subst (IsOrdered n) (ground (arith, q)) h
phase_step n l (wakes d r) (sleeping i) q h t =
    unfold step in
    subst
      (λ p. IsOrdered n (elim p [
        | planning ↦ l
        | sleeping i ↦ woke (record l { now = max l.now i + d }) i r
        | drawing f m ↦ l
      ]))
      (sym q)
      (woke-IsOrdered n i (record l { now = max l.now i + d }) r
        (later-IsOrdered n (max l.now i + d) l h (omega arith))
        (unfold woke in ground (arith, q, t)) q (omega arith))
phase_step n l (wakes d r) (drawing f m) q h t =
    unfold step in subst (IsOrdered n) (ground (arith, q)) h
phase_step n l (submits d) planning q h t = unfold step in subst (IsOrdered n) (ground (arith, q)) h
phase_step n l (submits d) (sleeping i) q h t =
    unfold step in subst (IsOrdered n) (ground (arith, q)) h
phase_step n l (submits d) (drawing f m) q h t =
    unfold step in
    subst
      (λ p.
        IsOrdered n
          (elim p [ planning ↦ l | sleeping i ↦ l | drawing f m ↦ submitted (after l d) f m ]))
      (sym q)
      (submitted-IsOrdered n f m (after l d) (later-IsOrdered n (l.now + d) l h (omega arith)))

run-IsOrdered :
    (n : ℕ) (l : Loop) (xs : List Event)
    → IsOrdered n l
    → (run l xs).now < 2 ^ 63
    → IsOrdered n (run l xs)
unfolding run
run-IsOrdered n l [] h t = h
run-IsOrdered n l (x ∷ xs) h t =
    run-IsOrdered n (step l x) xs
      (phase_step n l x l.phase refl h (omega (arith, t, run-now (step l x) xs))) t

begin-IsOrdered :
    (clock : MasterClock) (now frame_budget : ℕ) (state : Counters)
    → 0 < clock.house_rate
    → clock.house_rate ≤ nanos_per_second
    → ((e : ℕ) → epoch_of clock ≡ some e → e ≤ now)
    → IsOrdered state.repeated (begin clock now frame_budget state)
unfolding begin
begin-IsOrdered clock now frame_budget state r top h = record {
  rate = r;
  top = top;
  epoch = h;
  frame = λ e f p. absurd (ground (arith, p));
  last = unfold default in refl;
  slept = λ i e f b p q s t. absurd (ground (arith, p));
  head = refl;
  order = refl;
  repeated = unfold default in refl;
}

-- At a rate from 1 to 1,000,000,000, whatever starts and stops the clock between the steps of the loop and however late
-- it wakes, draws and submits, in the first 292 years: the loop counts no master frame as drawn again, and of two
-- successive running ticks on one epoch the later one draws a later frame.
pub run-drawn_once :
    (clock : MasterClock) (now frame_budget : ℕ) (state : Counters) (xs : List Event)
    → 0 < clock.house_rate
    → clock.house_rate ≤ nanos_per_second
    → ((e : ℕ) → epoch_of clock ≡ some e → e ≤ now)
    → (run (begin clock now frame_budget state) xs).now < 2 ^ 63
    → ((run (begin clock now frame_budget state) xs).cadence.state.repeated ≡ state.repeated)
      × (ascending (run (begin clock now frame_budget state) xs).readings ≡ true)
run-drawn_once clock now frame_budget state xs r top e t =
    let h =
      run-IsOrdered state.repeated (begin clock now frame_budget state) xs
        (begin-IsOrdered clock now frame_budget state r top e) t in
    (h.repeated, h.order)
