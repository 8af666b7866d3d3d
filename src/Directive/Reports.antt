-- ===== src/Directive/Reports.antt =====
-- The ends of timed items over runs, directive.rs: directives in any order, with the wakes of the tasks between them.
use nbe.Prelude.{
  ℕ, zero, suc, ◌+◌, ◌≤◌, ◌<◌, ◌≡◌, refl, sym, ap, subst, ◌∙◌, arith, ◌⊎◌, true, ◌++◌, ◌&&◌,
  Bool-cases, inl, inr, none, some, Option-cases, List, [], ◌∷◌, leb, ◌==◌, if◌then◌else◌,
}
use Prim.Native.String.{String}
use text.Mathlib.Text.{◌==◌ as str_eq}
use text.Mathlib.TextEquality.{eq_iff}
use nbe.Directive.{Engine, applied_state_version, item_end, Timer}
use nbe.Directive.Takes.{is_current}
use nbe.Directive.Outputs.{Outcome}
use nbe.Directive.Apply.{
  handle, apply, acknowledge, settled, is_running, report_end, take_out, Event, directive, wakes,
  wake, step, run,
}
use nbe.Directive.Acks.{SaysAlike, handle-SaysAlike}
use nbe.Directive.Ends.{timers_of, ends_of, ends_of-append, Moves, handle-Moves}

abbrev opened : ℕ → ℕ → ℕ → ℕ
opened g a b = if leb g a then 0 else if leb g b then 1 else 0

-- What a step may do to the timers and the reported ends of every generation.
record Reports (e e' : Engine) : Type 0 where
  later : e.playing.generation ≤ e'.playing.generation
  balance :
      (g : ℕ)
      → timers_of g e'.pending + ends_of g e'.outgoing
        ≤ timers_of g e.pending
          + ends_of g e.outgoing
          + opened g e.playing.generation e'.playing.generation
  stale : (g : ℕ) → g < e.playing.generation → ends_of g e'.outgoing ≡ ends_of g e.outgoing

settled-Reports :
    (e : Engine) (version : ℕ) (o : Outcome)
    → SaysAlike e o.0
    → Moves e o.0
    → Reports e (settled o version).0
unfolding acknowledge
settled-Reports e version (e', none) s m = record {
  later = m.later;
  balance = λ g. omega (
    arith,
    m.timers g,
    ap (ends_of g) s.frames,
    ends_of-append g e'.outgoing (applied_state_version version),
  );
  stale = λ g h. omega (
    arith,
    ap (ends_of g) s.frames,
    ends_of-append g e'.outgoing (applied_state_version version),
  );
}
settled-Reports e version (e', some x) s m = record {
  later = m.later;
  balance = λ g. omega (arith, m.timers g, ap (ends_of g) s.frames);
  stale = λ g h. ap (ends_of g) s.frames;
}

take_out-timers :
    (g : ℕ) (ts : List Timer) (i : ℕ) (p : Timer × List Timer)
    → take_out ts i ≡ some p
    → timers_of g ts ≡ (if p.0.generation == g then 1 else 0) + timers_of g p.1
take_out-timers g [] i p h = absurd (ground arith)
take_out-timers g (t ∷ ts) zero p h = ground arith
take_out-timers g (t ∷ ts) (suc i) p h = elim (Option-cases (take_out ts i)) [
  | inl n ↦ absurd (ground arith)
  | inr (q, s) ↦ let r = take_out-timers g ts i q s in ground arith
]

report_end-Reports :
    (e : Engine) (t : Timer) (ts : List Timer)
    → ((g : ℕ) → timers_of g e.pending ≡ (if t.generation == g then 1 else 0) + timers_of g ts)
    → Reports e (report_end (record e { pending = ts }) t)
unfolding report_end is_current
report_end-Reports e t ts h =
    elim (Bool-cases (is_running e.clock && is_current e.playing t.item_ref t.generation)) [
      | inl b ↦ record {
        later = ground (arith, b);
        balance = λ g.
            ground (arith, b, h g, ends_of-append g e.outgoing (item_end t.item_ref t.generation));
        stale = λ g l.
            ground (arith, b, h g, ends_of-append g e.outgoing (item_end t.item_ref t.generation));
      }
      | inr b ↦ record {
        later = ground (arith, b);
        balance = λ g. ground (arith, b, h g);
        stale = λ g l. ground (arith, b);
      }
    ]

wake-Reports : (e : Engine) (i : ℕ) → Reports e (wake e i)
unfolding wake
wake-Reports e i = elim (Option-cases (take_out e.pending i)) [
  | inl n ↦ record {
    later = ground (arith, n);
    balance = λ g. ground (arith, n);
    stale = λ g l. ground (arith, n);
  }
  | inr (p, s) ↦
      subst
        (λ o.
          Reports e (elim o [ none ↦ e | some p ↦ report_end (record e { pending = p.1 }) p.0 ]))
        (sym s) (report_end-Reports e p.0 p.1 (λ g. take_out-timers g e.pending i p s))
]

step-Reports : (e : Engine) (x : Event) → Reports e (step e x)
unfolding step apply
step-Reports e (directive now version c) =
    settled-Reports e version (handle e now c) (handle-SaysAlike e now c) (handle-Moves e now c)
step-Reports e (wakes i) = wake-Reports e i

-- Every generation is reported or pending at most once, and none that is still to come.
unfoldable pub IsTimely : Engine → Type 0
IsTimely e =
    (g : ℕ)
    → timers_of g e.pending + ends_of g e.outgoing ≤ (if leb g e.playing.generation then 1 else 0)

pub step-IsTimely : (e : Engine) (x : Event) → IsTimely e → IsTimely (step e x)
unfolding IsTimely
step-IsTimely e x h g = let r = step-Reports e x in ground (arith, r.later, r.balance g, h g)

pub run-IsTimely : (e : Engine) (xs : List Event) → IsTimely e → IsTimely (run e xs)
unfolding run
run-IsTimely e [] h = h
run-IsTimely e (x ∷ xs) h = run-IsTimely (step e x) xs (step-IsTimely e x h)

pub IsTimely-fresh : (e : Engine) → e.pending ≡ [] → e.outgoing ≡ [] → IsTimely e
unfolding IsTimely
IsTimely-fresh e p o k = ground (arith, p, o)

pub IsTimely-once :
    (g : ℕ) (e : Engine) → IsTimely e → 1 ≤ ends_of g e.outgoing → ends_of g e.outgoing ≡ 1
unfolding IsTimely
IsTimely-once g e h l = ground (arith, h g)

-- A wake reports nothing, or, on a running clock, the end of the item that plays, for its generation.
abbrev pub ReportsPlaying : Engine → Engine → Type 0
ReportsPlaying e e' =
    (e'.outgoing ≡ e.outgoing)
    ⊎ ((r : String) × (is_running e.clock ≡ true)
        × (e.playing.item ≡ some r)
        × (e'.outgoing ≡ e.outgoing ++ (item_end r e.playing.generation ∷ [])))

report_end-ReportsPlaying :
    (e : Engine) (t : Timer) (ts : List Timer)
    → ReportsPlaying e (report_end (record e { pending = ts }) t)
unfolding report_end is_current
report_end-ReportsPlaying e t ts =
    elim (Bool-cases (is_running e.clock && is_current e.playing t.item_ref t.generation)) [
      | inl b ↦ elim (Option-cases e.playing.item) [
        | inl n ↦ absurd (ground (arith, b, n))
        | inr (r, p) ↦
            let same : str_eq r t.item_ref ≡ true = ground (arith, b, p) in
            let i : r ≡ t.item_ref = (eq_iff r t.item_ref).0 same in
            let g : e.playing.generation ≡ t.generation = ground (arith, b, p) in
            inr (r, ground (arith, b), p, rw (i, g) (ground (arith, b)))
      ]
      | inr b ↦ inl (ground (arith, b))
    ]

wake-ReportsPlaying : (e : Engine) (i : ℕ) → ReportsPlaying e (wake e i)
unfolding wake
wake-ReportsPlaying e i = elim (Option-cases (take_out e.pending i)) [
  | inl n ↦ inl (ground (arith, n))
  | inr (p, s) ↦
      subst
        (λ o.
          ReportsPlaying e
            (elim o [ none ↦ e | some p ↦ report_end (record e { pending = p.1 }) p.0 ]))
        (sym s) (report_end-ReportsPlaying e p.0 p.1)
]

-- From an engine that has no timer pending and has reported nothing, whatever of the modelled directives arrive and
-- whatever tasks wake, in any order: the end of each generation of the playback is reported at most once, and a task
-- that wakes then reports nothing, or, on a running clock, the item that plays, for its generation.
pub run-ends_of :
    (e : Engine) (xs : List Event) (g i : ℕ)
    → e.pending ≡ []
    → e.outgoing ≡ []
    → (ends_of g (run e xs).outgoing ≤ 1) × ReportsPlaying (run e xs) (wake (run e xs) i)
unfolding IsTimely
run-ends_of e xs g i p o =
    let h = run-IsTimely e xs (IsTimely-fresh e p o) g in
    (ground (arith, h), wake-ReportsPlaying (run e xs) i)

-- After a take, a recall or a clear has moved the generation on, no run reports the end of an earlier generation.
pub run-superseded :
    (e : Engine) (xs : List Event) (g : ℕ)
    → g < e.playing.generation
    → ends_of g (run e xs).outgoing ≡ ends_of g e.outgoing
unfolding run
run-superseded e [] g l = refl
run-superseded e (x ∷ xs) g l =
    let r = step-Reports e x in
    run-superseded (step e x) xs g (omega (arith, r.later, l)) ∙ r.stale g l
