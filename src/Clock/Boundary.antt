-- ===== src/Clock/Boundary.antt =====
-- The clock's frames and their boundaries, clock.rs: `boundary` against `frame_at`.
use nbe.Prelude.{
  ℕ, zero, suc, ◌+◌, ◌-◌, ◌*◌, ◌/◌, ◌^◌, ◌≤◌, ◌<◌, max, some, ◌≡◌, ap, ◌∙◌, ◌↔◌, arith,
}
use nbe.Clock.{MasterClock, div_ceil, nanos_per_second}
use nbe.Clock.{epoch_of, boundary, frame_at}

-- Rounding up is the left adjoint of multiplication, rounding down the right adjoint.
div_ceil-le : (x r y : ℕ) → 0 < r → div_ceil x r ≤ y → x ≤ y * r
div_ceil-le x r y h p = grind arith

pub le-div_ceil : (x r y : ℕ) → 0 < r → x ≤ y * r → div_ceil x r ≤ y
le-div_ceil x r y h p = grind arith

-- What `boundary` and `frame_at` compute when they return.
boundary_value :
    (c : MasterClock) (f : ℕ) {e b : ℕ}
    → epoch_of c ≡ some e
    → boundary c f ≡ some b
    → b ≡ e + div_ceil (f * nanos_per_second) (max c.house_rate 1)
unfolding boundary
boundary_value c f h p = ground arith

frame_at_value :
    (c : MasterClock) (now : ℕ) {e g : ℕ}
    → epoch_of c ≡ some e
    → frame_at c now ≡ some g
    → g ≡ (now - e) * c.house_rate / nanos_per_second
unfolding epoch_of frame_at
frame_at_value c now h p = ground arith

-- `max rate 1` is the rate, where it is not 0.
pub max_rate : (r : ℕ) → 0 < r → max r 1 ≡ r
max_rate r h = omega arith

-- The two roundings, on the nanoseconds `d` since the epoch.
frames-le :
    (f r d : ℕ) → 0 < r → f ≤ d * r / nanos_per_second → div_ceil (f * nanos_per_second) r ≤ d
frames-le f r d h k = le-div_ceil (f * nanos_per_second) r d h (omega arith)

le-frames :
    (f r d : ℕ) → 0 < r → div_ceil (f * nanos_per_second) r ≤ d → f ≤ d * r / nanos_per_second
le-frames f r d h k = omega (arith, div_ceil-le (f * nanos_per_second) r d h k)

-- Rounding up adds less than one frame, up to a frame a nanosecond.
div_ceil_excess : (x r : ℕ) → 0 < r → div_ceil x r * r < x + r
div_ceil_excess x r h = grind arith

frames-div_ceil :
    (f r : ℕ)
    → 0 < r
    → r ≤ nanos_per_second
    → div_ceil (f * nanos_per_second) r * r / nanos_per_second ≡ f
frames-div_ceil f r h k = omega (
  arith,
  div_ceil_excess (f * nanos_per_second) r h,
  div_ceil-le (f * nanos_per_second) r (div_ceil (f * nanos_per_second) r) h (omega arith),
)

-- On a running clock at a rate above 0, and from the epoch on, the frame read at `now` is `f` or a
-- later one exactly when `now` is at or past the boundary of `f`.
pub frame_at-le_iff_boundary :
    (c : MasterClock) (f now : ℕ) {e b g : ℕ}
    → 0 < c.house_rate
    → epoch_of c ≡ some e
    → e ≤ now
    → boundary c f ≡ some b
    → frame_at c now ≡ some g
    → (f ≤ g) ↔ (b ≤ now)
frame_at-le_iff_boundary c f now {e} {b} {g} r h le p q = (
  (λ k. omega (arith, eb, frames-le f c.house_rate (now - e) r (omega (arith, eg)))),
  (λ k. omega (arith, eg, le-frames f c.house_rate (now - e) r (omega (arith, eb)))),
)
  where
    eb : b ≡ e + div_ceil (f * nanos_per_second) c.house_rate
    eb = rw (max_rate c.house_rate r) at (boundary_value c f h p)

    eg : g ≡ (now - e) * c.house_rate / nanos_per_second
    eg = frame_at_value c now h q

frame_at_intro :
    (c : MasterClock) (now n : ℕ) {e : ℕ}
    → epoch_of c ≡ some e
    → (now - e) * c.house_rate / nanos_per_second ≡ n
    → n < 2 ^ 64
    → frame_at c now ≡ some n
unfolding epoch_of frame_at
frame_at_intro c now n h p q = ground arith

frame_at-boundary :
    (c : MasterClock) (f : ℕ) {e b : ℕ}
    → 0 < c.house_rate
    → c.house_rate ≤ nanos_per_second
    → f < 2 ^ 64
    → epoch_of c ≡ some e
    → boundary c f ≡ some b
    → frame_at c b ≡ some f
frame_at-boundary c f {e} {b} r hi fits h p = frame_at_intro c b f h value fits
  where
    since : b - e ≡ div_ceil (f * nanos_per_second) c.house_rate
    since = omega (arith, rw (max_rate c.house_rate r) at (boundary_value c f h p))

    value : (b - e) * c.house_rate / nanos_per_second ≡ f
    value = rw since (frames-div_ceil f c.house_rate r hi)

pred_mul_aux : (x y : ℕ) → x * y ≡ suc x * y - y
pred_mul_aux x y = omega arith

pred_mul : (x y : ℕ) → (x - 1) * y ≡ x * y - y
pred_mul zero y = omega arith
pred_mul (suc x) y = ap (λ (k : ℕ). k * y) (omega arith) ∙ pred_mul_aux x y

-- One nanosecond less, one frame less.
frames_before :
    (f r : ℕ)
    → 0 < r
    → r ≤ nanos_per_second
    → 0 < f
    → (div_ceil (f * nanos_per_second) r - 1) * r / nanos_per_second ≡ f - 1
frames_before f r h k p = omega (
  arith,
  div_ceil_excess (f * nanos_per_second) r h,
  div_ceil-le (f * nanos_per_second) r (div_ceil (f * nanos_per_second) r) h (omega arith),
  pred_mul (div_ceil (f * nanos_per_second) r) r,
)

-- At every rate from 1 to 1,000,000,000 a running clock reads, where there is a frame before `f`, that frame a
-- nanosecond before the boundary of `f`, and `f` at it.
pub frame_at-before_boundary :
    (c : MasterClock) (f : ℕ) {e b : ℕ}
    → 0 < c.house_rate
    → c.house_rate ≤ nanos_per_second
    → 0 < f
    → f < 2 ^ 64
    → epoch_of c ≡ some e
    → boundary c f ≡ some b
    → (frame_at c (b - 1) ≡ some (f - 1)) × (frame_at c b ≡ some f)
frame_at-before_boundary c f {e} {b} r hi pos fits h p =
    (frame_at_intro c (b - 1) (f - 1) h value (omega arith), frame_at-boundary c f r hi fits h p)
  where
    since : b - 1 - e ≡ div_ceil (f * nanos_per_second) c.house_rate - 1
    since = omega (arith, rw (max_rate c.house_rate r) at (boundary_value c f h p))

    value : (b - 1 - e) * c.house_rate / nanos_per_second ≡ f - 1
    value = rw since (frames_before f c.house_rate r hi pos)
