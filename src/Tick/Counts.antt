-- ===== src/Tick/Counts.antt =====
-- `Cadence::tick` of tick.rs against the frames drawn: over the running ticks of one epoch.
use nbe.Prelude.{
  ℕ, zero, suc, ◌+◌, ◌-◌, ◌≤◌, ◌≡◌, refl, ap, ◌∙◌, arith, Bool, true, false, ◌&&◌, ◌||◌, Bool-cases,
  inl, inr, none, some, List, [], ◌∷◌, length, ltb, leb, ◌==◌, if◌then◌else◌,
}
use nbe.Tick.{Counters, take}
use nbe.Tick.Cadence.{Cadence, new_run, roll_run, roll_take, count_frame, keep_last, say, tick}
use nbe.Tick.Ordered.{tick-last}

-- A running tick: its frame, whether a take records, how late it woke and the instant its line reads.
pub record RunningTick : Type 0 where
  pub frame : ℕ
  pub recording : Bool
  pub woke_late : ℕ
  pub now : ℕ

abbrev pub tick_of : Cadence → ℕ → RunningTick → Cadence
tick_of c budget x = tick c (some x.frame) x.recording x.woke_late budget x.now

-- Ticks, the newest first in the list.
abbrev pub ticks : Cadence → ℕ → List RunningTick → Cadence
ticks c budget [] = c
ticks c budget (x ∷ xs) = tick_of (ticks c budget xs) budget x

-- The frames of a first tick and those after it, the newest first, and whether they go forward.
abbrev pub frames : RunningTick → List RunningTick → List ℕ
frames x0 [] = x0.frame ∷ []
frames x0 (x ∷ xs) = x.frame ∷ frames x0 xs

abbrev pub newest : RunningTick → List RunningTick → ℕ
newest x0 [] = x0.frame
newest x0 (x ∷ xs) = x.frame

abbrev pub forward : RunningTick → List RunningTick → Bool
forward x0 [] = true
forward x0 (x ∷ xs) = leb (newest x0 xs) x.frame && forward x0 xs

abbrev pub member : ℕ → List ℕ → Bool
member k [] = false
member k (f ∷ fs) = k == f || member k fs

-- How many of the `n` frames from `lo` on are not drawn.
abbrev pub undrawn : ℕ → ℕ → List ℕ → ℕ
undrawn lo zero fs = 0
undrawn lo (suc n) fs = undrawn lo n fs + (if member (lo + n) fs then 0 else 1)

undrawn-below : (lo n f : ℕ) (fs : List ℕ) → lo + n ≤ f → undrawn lo n (f ∷ fs) ≡ undrawn lo n fs
undrawn-below lo zero f fs h = refl
undrawn-below lo (suc n) f fs h = ground (arith, undrawn-below lo n f fs (omega arith))

undrawn-again :
    (lo n f : ℕ) (fs : List ℕ) → member f fs ≡ true → undrawn lo n (f ∷ fs) ≡ undrawn lo n fs
undrawn-again lo zero f fs h = refl
undrawn-again lo (suc n) f fs h = elim (Bool-cases ((lo + n) == f)) [
  | inl b ↦
      let e : lo + n ≡ f = ground (arith, b) in
      let k : member (lo + n) fs ≡ true = ap (λ i. member i fs) e ∙ h in
      ground (arith, b, k, undrawn-again lo n f fs h)
  | inr b ↦ ground (arith, b, undrawn-again lo n f fs h)
]

-- Frames above all that are drawn.
abbrev all_under : ℕ → List ℕ → Bool
all_under k [] = true
all_under k (f ∷ fs) = ltb f k && all_under k fs

member-all_under : (k i : ℕ) (fs : List ℕ) → all_under k fs ≡ true → k ≤ i → member i fs ≡ false
member-all_under k i [] h l = refl
member-all_under k i (f ∷ fs) h l = ground (arith, h, member-all_under k i fs (ground (arith, h)) l)

undrawn-above :
    (lo n m : ℕ) (fs : List ℕ)
    → all_under (lo + n) fs ≡ true
    → undrawn lo (n + m) fs ≡ undrawn lo n fs + m
undrawn-above lo n zero fs h =
    let e : n + 0 ≡ n = omega arith in omega (arith, ap (λ i. undrawn lo i fs) e)
undrawn-above lo n (suc m) fs h =
    let k = member-all_under (lo + n) (lo + (n + m)) fs h (omega arith) in
    let e : n + suc m ≡ suc (n + m) = omega arith in
    ap (λ i. undrawn lo i fs) e ∙ ground (arith, k, undrawn-above lo n m fs h)

all_under-more : (k i : ℕ) (fs : List ℕ) → k ≤ i → all_under k fs ≡ true → all_under i fs ≡ true
all_under-more k i [] l h = refl
all_under-more k i (f ∷ fs) l h = ground (arith, h, all_under-more k i fs l (ground (arith, h)))

frames-all_under :
    (x0 : RunningTick) (xs : List RunningTick)
    → forward x0 xs ≡ true
    → all_under (newest x0 xs + 1) (frames x0 xs) ≡ true
frames-all_under x0 [] h = ground arith
frames-all_under x0 (x ∷ xs) h =
    let k = frames-all_under x0 xs (ground (arith, h)) in
    ground (
      arith,
      h,
      all_under-more (newest x0 xs + 1) (x.frame + 1) (frames x0 xs) (ground (arith, h)) k,
    )

frames-member :
    (x0 : RunningTick) (xs : List RunningTick) → member (newest x0 xs) (frames x0 xs) ≡ true
frames-member x0 [] = ground arith
frames-member x0 (x ∷ xs) = ground arith

newest-first :
    (x0 : RunningTick) (xs : List RunningTick) → forward x0 xs ≡ true → x0.frame ≤ newest x0 xs
newest-first x0 [] h = omega arith
newest-first x0 (x ∷ xs) h = ground (arith, h, newest-first x0 xs (ground (arith, h)))

-- A frame drawn again leaves the frames as they are; a later one adds those it passed over.
undrawn-drawn :
    (lo p f : ℕ) (fs : List ℕ)
    → lo ≤ p
    → p ≤ f
    → member p fs ≡ true
    → all_under (p + 1) fs ≡ true
    → undrawn lo (f + 1 - lo) (f ∷ fs) ≡ undrawn lo (p + 1 - lo) fs + (f - p - 1)
undrawn-drawn lo p f fs l k h u = elim (Bool-cases (p == f)) [
  | inl b ↦
      let e : p ≡ f = ground (arith, b) in
      let g = ap (λ i. undrawn lo (i + 1 - lo) (i ∷ fs)) e in
      omega (arith, e, g, undrawn-again lo (p + 1 - lo) p fs h)
  | inr b ↦
      let m : f + 1 - lo ≡ suc (p + 1 - lo + (f - p - 1)) = ground (arith, b, k, l) in
      let x : lo + (p + 1 - lo + (f - p - 1)) ≡ f = ground (arith, b, k, l) in
      let y : lo + (p + 1 - lo) ≡ p + 1 = omega arith in
      let above = undrawn-above lo (p + 1 - lo) (f - p - 1) fs (ap (λ i. all_under i fs) y ∙ u) in
      let below = undrawn-below lo (p + 1 - lo + (f - p - 1)) f fs (omega (arith, x)) in
      ap (λ i. undrawn lo i (f ∷ fs)) m ∙ ground (arith, x, above, below)
]

ticks-last :
    (c : Cadence) (budget : ℕ) (x0 : RunningTick) (xs : List RunningTick)
    → (ticks (tick_of c budget x0) budget xs).last ≡ some (newest x0 xs)
ticks-last c budget x0 [] = tick-last c (some x0.frame) x0.recording x0.woke_late budget x0.now
ticks-last c budget x0 (x ∷ xs) =
    tick-last (ticks (tick_of c budget x0) budget xs) (some x.frame) x.recording x.woke_late budget
      x.now

tick-first :
    (c : Cadence) (budget : ℕ) (x : RunningTick)
    → c.last ≡ none
    → (tick_of c budget x).state ≡ c.state
unfolding tick keep_last count_frame roll_take roll_run new_run
tick-first c budget x h = ground (arith, h)

-- What a tick counts after a tick that drew an earlier frame, or the same one.
record Counted (s s' : Counters) (p f : ℕ) : Type 0 where
  repeated : s'.repeated ≡ s.repeated + (if p == f then 1 else 0)
  skipped : s'.skipped ≡ s.skipped + (f - p - 1)
  dropped : s'.dropped ≡ s.dropped + (f - p - 1)

tick-Counted :
    (c : Cadence) (budget p : ℕ) (x : RunningTick)
    → c.last ≡ some p
    → p ≤ x.frame
    → Counted c.state (tick_of c budget x).state p x.frame
unfolding tick keep_last count_frame say take roll_take roll_run new_run
tick-Counted c budget p x h l = record {
  repeated = ground (arith, h, l);
  skipped = ground (arith, h, l);
  dropped = ground (arith, h, l);
}

-- Over running ticks that go forward from a first one, at every mix of takes and wakes: the frames counted as skipped,
-- and as dropped with them, are those from the first to the newest that no tick drew, and the ticks counted as repeats
-- are those in excess of the frames drawn.
pub ticks-counts :
    (c : Cadence) (budget : ℕ) (x0 : RunningTick) (xs : List RunningTick)
    → c.last ≡ none
    → forward x0 xs ≡ true
    → let s = (ticks (tick_of c budget x0) budget xs).state in
      let span = newest x0 xs + 1 - x0.frame in
      let missed = undrawn x0.frame span (frames x0 xs) in
      (s.skipped ≡ c.state.skipped + missed)
      × (s.dropped ≡ c.state.dropped + missed)
      × (s.repeated + span ≡ c.state.repeated + missed + length (frames x0 xs))
ticks-counts c budget x0 [] n h =
    let e = tick-first c budget x0 n in
    let i : x0.frame + 1 - x0.frame ≡ 1 = omega arith in
    let u : undrawn x0.frame (x0.frame + 1 - x0.frame) (x0.frame ∷ []) ≡ 0 =
      ap (λ k. undrawn x0.frame k (x0.frame ∷ [])) i ∙ ground arith in
    (ground (arith, e, u), ground (arith, e, u), ground (arith, e, u, i))
ticks-counts c budget x0 (x ∷ xs) n h =
    let k : forward x0 xs ≡ true = ground (arith, h) in
    let l : newest x0 xs ≤ x.frame = ground (arith, h) in
    let (a, b, r) = ticks-counts c budget x0 xs n k in
    let t =
      tick-Counted (ticks (tick_of c budget x0) budget xs) budget (newest x0 xs) x
        (ticks-last c budget x0 xs) l in
    let o = newest-first x0 xs k in
    let u =
      undrawn-drawn x0.frame (newest x0 xs) x.frame (frames x0 xs) o l (frames-member x0 xs)
        (frames-all_under x0 xs k) in
    (
      omega (arith, t.skipped, a, u),
      omega (arith, t.dropped, b, u),
      ground (arith, t.repeated, r, u, o, l),
    )
