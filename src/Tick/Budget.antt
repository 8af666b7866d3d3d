-- ===== src/Tick/Budget.antt =====
-- `LineBudget::take` of tick.rs over calls: which lines go, and what they say of the others.
use nbe.Prelude.{
  ℕ, suc, ◌+◌, ◌-◌, ◌≤◌, ◌<◌, ◌≡◌, arith, Bool, true, ◌&&◌, Option, none, some, List, [], ◌∷◌,
  length, ltb,
}
use nbe.Tick.{LineBudget, take}

-- What the calls at some instants return, and the budget after them.
abbrev pub takes : LineBudget → List ℕ → List (Option ℕ) × LineBudget
takes b [] = ([], b)
takes b (now ∷ nows) = let r = take b now in let rest = takes (r.1) nows in (r.0 ∷ rest.0, rest.1)

-- How many lines go, and how many they report as suppressed.
abbrev pub through : List (Option ℕ) → ℕ
through [] = 0
through (none ∷ rs) = through rs
through (some n ∷ rs) = suc (through rs)

abbrev pub reported : List (Option ℕ) → ℕ
reported [] = 0
reported (none ∷ rs) = reported rs
reported (some n ∷ rs) = n + reported rs

abbrev pub all_before : ℕ → List ℕ → Bool
all_before t [] = true
all_before t (now ∷ nows) = ltb now t && all_before t nows

-- A call's share of the accounts.
record Accounted (b : LineBudget) (now : ℕ) (r : Option ℕ × LineBudget) : Type 0 where
  sum : b.suppressed + 1 ≡ through (r.0 ∷ []) + reported (r.0 ∷ []) + (r.1).suppressed
  used : (r.1).used ≤ 5
  same :
      (w : ℕ)
      → b.window ≡ some w
      → now - w < 1000000000
      → ((r.1).window ≡ some w) × ((r.1).used ≡ b.used + through (r.0 ∷ []))

take-Accounted : (b : LineBudget) (now : ℕ) → b.used ≤ 5 → Accounted b now (take b now)
unfolding take
take-Accounted b now h = record {
  sum = ground arith;
  used = ground (arith, h);
  same = λ w p l. ground (arith, h, p, l);
}

through-cons :
    (r : Option ℕ) (rs : List (Option ℕ)) → through (r ∷ rs) ≡ through (r ∷ []) + through rs
through-cons none rs = omega arith
through-cons (some n) rs = omega arith

reported-cons :
    (r : Option ℕ) (rs : List (Option ℕ)) → reported (r ∷ rs) ≡ reported (r ∷ []) + reported rs
reported-cons none rs = omega arith
reported-cons (some n) rs = omega arith

takes-sum :
    (b : LineBudget) (nows : List ℕ)
    → b.used ≤ 5
    → let (rs, b') = takes b nows in
      b.suppressed + length nows ≡ through rs + reported rs + b'.suppressed
takes-sum b [] h = omega arith
takes-sum b (now ∷ nows) h =
    let a = take-Accounted b now h in
    let r = take b now in
    let rest = takes (r.1) nows in
    omega (
      arith,
      a.sum,
      through-cons (r.0) (rest.0),
      reported-cons (r.0) (rest.0),
      takes-sum (r.1) nows a.used,
    )

takes-used : (b : LineBudget) (nows : List ℕ) → b.used ≤ 5 → (takes b nows).1.used ≤ 5
takes-used b [] h = h
takes-used b (now ∷ nows) h =
    let a = take-Accounted b now h in takes-used ((take b now).1) nows a.used

takes-window :
    (b : LineBudget) (nows : List ℕ) (w : ℕ)
    → b.used ≤ 5
    → b.window ≡ some w
    → all_before (w + 1000000000) nows ≡ true
    → (takes b nows).1.used ≡ b.used + through ((takes b nows).0)
takes-window b [] w h p k = omega arith
takes-window b (now ∷ nows) w h p k =
    let a = take-Accounted b now h in
    let r = take b now in
    let (q, u) = a.same w p (ground (arith, k)) in
    omega (
      arith,
      u,
      through-cons (r.0) ((takes (r.1) nows).0),
      takes-window (r.1) nows w a.used q (ground (arith, k)),
    )

-- Of the lines asked for on a budget with at most five used, each goes, is reported as suppressed by a later one that
-- goes, or is still to be reported; and of those asked for in the second after a window opened, as many go as the
-- window has left of five.
pub takes-accounted :
    (b : LineBudget) (nows : List ℕ) (w : ℕ)
    → b.used ≤ 5
    → b.window ≡ some w
    → let (rs, b') = takes b nows in
      (b.suppressed + length nows ≡ through rs + reported rs + b'.suppressed)
      × (all_before (w + 1000000000) nows ≡ true → b.used + through rs ≤ 5)
takes-accounted b nows w h p =
    (takes-sum b nows h, λ k. omega (arith, takes-window b nows w h p k, takes-used b nows h))
