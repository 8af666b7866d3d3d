-- ===== src/Tick/Ordered.antt =====
-- The order that `run_loop` of tick.rs keeps between the clock, the instant it sleeps to and the last frame drawn.
use nbe.Prelude.{
  ℕ, ◌+◌, ◌-◌, ◌*◌, ◌^◌, ◌≤◌, ◌<◌, ◌≡◌, ◌≢◌, refl, arith, Bool, true, false, inl, inr, Option, none,
  some, Option-cases, List, [], ◌∷◌, ltb, ◌==◌, if◌then◌else◌, ◌&&◌,
}
use nbe.Clock.{MasterClock, start, stop, epoch_of, boundary, frame_at, nanos_per_second}
use nbe.Clock.Boundary.{frame_at-le_iff_boundary, le-div_ceil, max_rate}
use nbe.Tick.{Counters, take, summary_of, open_span, add}
use nbe.Tick.Cadence.{Cadence, new_run, roll_run, roll_take, count_frame, keep_last, say, tick}
use nbe.Tick.Loop.{Loop, sleeping, clock_reading, intended, frame_of, starts, stops, planned, step}

pub tick-last :
    (c : Cadence) (m : Option ℕ) (recording : Bool) (late budget now : ℕ)
    → (tick c m recording late budget now).last ≡ m
unfolding tick keep_last count_frame say roll_take roll_run new_run
tick-last c (some f) recording late budget now = refl
tick-last c none recording late budget now = ground arith

abbrev pub repeats : Option ℕ → Option ℕ → Bool
repeats none last = false
repeats (some f) none = false
repeats (some f) (some prev) = f == prev

say-repeated : (c : Cadence) (now : ℕ) (line : ℕ → nbe.Tick.Line) → (say c now line).state ≡ c.state
unfolding say take
say-repeated c now line = ground arith

pub tick-repeated :
    (c : Cadence) (m : Option ℕ) (recording : Bool) (late budget now : ℕ)
    → repeats m c.last ≡ false
    → (tick c m recording late budget now).state.repeated ≡ c.state.repeated
unfolding tick keep_last count_frame roll_take roll_run new_run
tick-repeated c m recording late budget now h = ground arith

-- The last reading, where there is one.
abbrev pub newest : List (Option (ℕ × ℕ)) → Option (ℕ × ℕ)
newest [] = none
newest (r ∷ rs) = r

-- Of two successive readings on one epoch, the later one is of a later frame.
abbrev pub follows : Option (ℕ × ℕ) → Option (ℕ × ℕ) → Bool
follows none old = true
follows (some r) none = true
follows (some r) (some d) = if r.0 == d.0 then ltb d.1 r.1 else true

abbrev pub ascending : List (Option (ℕ × ℕ)) → Bool
ascending [] = true
ascending (r ∷ rs) = follows r (newest rs) && ascending rs

pub record IsOrdered (n : ℕ) (l : Loop) : Type 0 where
  pub rate : 0 < l.clock.house_rate
  pub top : l.clock.house_rate ≤ nanos_per_second
  pub epoch : (e : ℕ) → epoch_of l.clock ≡ some e → e ≤ l.now
  pub frame :
      (e f : ℕ)
      → l.drawn ≡ some (e, f)
      → (e ≤ l.now) × (f * nanos_per_second ≤ (l.now - e) * l.clock.house_rate)
  pub last : l.cadence.last ≡ frame_of l.drawn
  pub slept :
      (i e f b : ℕ)
      → l.phase ≡ sleeping i
      → l.drawn ≡ some (e, f)
      → epoch_of l.clock ≡ some e
      → boundary l.clock (f + 1) ≡ some b
      → b ≤ i
  pub head : newest l.readings ≡ l.drawn
  pub order : ascending l.readings ≡ true
  pub repeated : l.cadence.state.repeated ≡ n

next_frame_fits :
    (f d r : ℕ)
    → 0 < r
    → f * nanos_per_second ≤ d * r
    → (f + 1) * nanos_per_second ≤ (d + nanos_per_second) * r
next_frame_fits f d r h k = omega arith

-- The boundary after a frame that was read is representable for 292 years.
boundary_exists :
    (c : MasterClock) (e f t : ℕ)
    → 0 < c.house_rate
    → epoch_of c ≡ some e
    → f * nanos_per_second ≤ (t - e) * c.house_rate
    → t < 2 ^ 63
    → boundary c (f + 1) ≢ none
unfolding boundary
boundary_exists c e f t r h k l n =
    let fits =
      le-div_ceil ((f + 1) * nanos_per_second) c.house_rate (t - e + nanos_per_second) r
        (next_frame_fits f (t - e) c.house_rate r k) in
    ground (arith, h, n, l, fits, max_rate c.house_rate r)

pub read_parts :
    (c : MasterClock) (t e f : ℕ)
    → clock_reading c t ≡ some (e, f)
    → (epoch_of c ≡ some e) × (frame_at c t ≡ some f)
unfolding clock_reading
read_parts c t e f h = ground (arith, h)

pub frame_at_le :
    (c : MasterClock) (t e f : ℕ)
    → epoch_of c ≡ some e
    → frame_at c t ≡ some f
    → f * nanos_per_second ≤ (t - e) * c.house_rate
unfolding epoch_of frame_at
frame_at_le c t e f h k = ground (arith, h, k)

later_product : (e n m r : ℕ) → n ≤ m → (n - e) * r ≤ (m - e) * r
later_product e n m r h = grind arith

frame-later :
    (l : Loop) (n m e f : ℕ)
    → IsOrdered n l
    → l.now ≤ m
    → l.drawn ≡ some (e, f)
    → (e ≤ m) × (f * nanos_per_second ≤ (m - e) * l.clock.house_rate)
frame-later l n m e f h le d =
    let (a, b) = h.frame e f d in
    (omega arith, omega (arith, b, later_product e l.now m l.clock.house_rate le))

pub starts-IsOrdered : (n : ℕ) (l : Loop) (d : ℕ) → IsOrdered n l → IsOrdered n (step l (starts d))
unfolding step start epoch_of boundary
starts-IsOrdered n l d h = record {
  rate = ground (arith, h.rate);
  top = ground (arith, h.top);
  epoch = λ e p. ground (arith, p, h.epoch e);
  frame = λ e f p. ground (arith, frame-later l n (l.now + (d + 1)) e f h (omega arith) p);
  last = h.last;
  slept = λ i e f b p q s t. ground (arith, p, q, s, t, h.slept i e f b, h.frame e f q);
  head = h.head;
  order = h.order;
  repeated = h.repeated;
}

pub stops-IsOrdered : (n : ℕ) (l : Loop) (d : ℕ) → IsOrdered n l → IsOrdered n (step l (stops d))
unfolding step stop epoch_of
stops-IsOrdered n l d h = record {
  rate = h.rate;
  top = h.top;
  epoch = λ e p. absurd (ground (arith, p));
  frame = λ e f p. frame-later l n (l.now + (d + 1)) e f h (omega arith) p;
  last = h.last;
  slept = λ i e f b p q s t. absurd (ground (arith, s));
  head = h.head;
  order = h.order;
  repeated = h.repeated;
}

product_top : (d r : ℕ) → r ≤ nanos_per_second → d * r ≤ d * nanos_per_second
product_top d r h = grind arith

frame_exists :
    (c : MasterClock) (e t : ℕ)
    → c.house_rate ≤ nanos_per_second
    → epoch_of c ≡ some e
    → t < 2 ^ 63
    → frame_at c t ≢ none
unfolding epoch_of frame_at
frame_exists c e t r h l n = ground (arith, h, n, l, product_top (t - e) c.house_rate r)

intended-boundary :
    (l : Loop) (e f b : ℕ)
    → l.clock.house_rate ≤ nanos_per_second
    → l.now < 2 ^ 63
    → l.drawn ≡ some (e, f)
    → epoch_of l.clock ≡ some e
    → boundary l.clock (f + 1) ≡ some b
    → intended l ≡ b
unfolding intended clock_reading
intended-boundary l e f b r t d p q = elim (Option-cases (frame_at l.clock l.now)) [
  | inl n ↦ absurd (frame_exists l.clock e l.now r p t n)
  | inr (g, s) ↦ ground (arith, d, p, q, s)
]

pub later-IsOrdered :
    (n m : ℕ) (l : Loop) → IsOrdered n l → l.now ≤ m → IsOrdered n (record l { now = m })
later-IsOrdered n m l h le = record {
  rate = h.rate;
  top = h.top;
  epoch = λ e p. omega (arith, h.epoch e p, le);
  frame = λ e f p. frame-later l n m e f h le p;
  last = h.last;
  slept = h.slept;
  head = h.head;
  order = h.order;
  repeated = h.repeated;
}

pub planned-IsOrdered :
    (n : ℕ) (l : Loop) → IsOrdered n l → l.now < 2 ^ 63 → IsOrdered n (planned l)
unfolding planned
planned-IsOrdered n l h t = record {
  rate = h.rate;
  top = h.top;
  epoch = h.epoch;
  frame = h.frame;
  last = h.last;
  slept = λ i e f b p q s k. ground (arith, p, intended-boundary l e f b h.top t q s k);
  head = h.head;
  order = h.order;
  repeated = h.repeated;
}

-- A wake at or after the boundary of the next frame reads that frame or a later one.
pub wake-later :
    (n i e f g : ℕ) (l : Loop)
    → IsOrdered n l
    → l.now < 2 ^ 63
    → l.phase ≡ sleeping i
    → i ≤ l.now
    → l.drawn ≡ some (e, f)
    → epoch_of l.clock ≡ some e
    → frame_at l.clock l.now ≡ some g
    → f < g
wake-later n i e f g l h t p le d c k = elim (Option-cases (boundary l.clock (f + 1))) [
  | inl m ↦ absurd (boundary_exists l.clock e f l.now h.rate c ((h.frame e f d).1) t m)
  | inr (b, s) ↦ omega (
    arith,
    (frame_at-le_iff_boundary l.clock (f + 1) l.now h.rate c (h.epoch e c) s k).1
        (omega (arith, h.slept i e f b p d c s, le)),
  )
]
