-- ===== src/Channel/Backoff.antt =====
-- The delay before the next connection, channel.rs: `run_forever`. A connection is how many milliseconds it took, from
-- before it was made to its end; `run` always ends with an error.
use nbe.Prelude.{
  ℕ, suc, ◌*◌, ◌^◌, min, ◌≡◌, refl, ◌∙◌, ap, arith, Bool, true, false, Bool-cases, inl, inr, List,
  [], ◌∷◌, leb, if◌then◌else◌,
}

abbrev pub initial_delay_ms : ℕ
initial_delay_ms = 100

abbrev pub max_delay_ms : ℕ
max_delay_ms = 10000

-- The delay that is slept after a connection, and the next one.
unfoldable pub slept : ℕ → ℕ → ℕ
slept delay_ms connected_ms = if leb delay_ms connected_ms then initial_delay_ms else delay_ms

unfoldable pub next_delay : ℕ → ℕ → ℕ
unfolding slept
next_delay delay_ms connected_ms = min (slept delay_ms connected_ms * 2) max_delay_ms

-- The loop: the sleeps after these connections.
unfoldable pub sleeps : ℕ → List ℕ → List ℕ
unfolding slept next_delay
sleeps delay_ms [] = []
sleeps delay_ms (c ∷ cs) = slept delay_ms c ∷ sleeps (next_delay delay_ms c) cs

abbrev pub nth_delay : ℕ → ℕ
nth_delay n = min (initial_delay_ms * 2 ^ n) max_delay_ms

-- What the sleeps are: each connection is the nth in a row that ended before its delay, and one that did not end
-- before it is the first again.
abbrev pub backoff : ℕ → List ℕ → List ℕ
backoff n [] = []
backoff n (c ∷ cs) =
    let again = backoff 1 cs in
    let more = backoff (suc n) cs in
    if leb (nth_delay n) c then initial_delay_ms ∷ again else nth_delay n ∷ more

doubled : (n : ℕ) → min (nth_delay n * 2) max_delay_ms ≡ nth_delay (suc n)
doubled n = omega arith

next-nth :
    (n c : ℕ)
    → next_delay (nth_delay n) c ≡ (if leb (nth_delay n) c then nth_delay 1 else nth_delay (suc n))
unfolding next_delay slept
next-nth n c = elim (Bool-cases (leb (nth_delay n) c)) [
  | inl e ↦ rw e refl
  | inr e ↦ rw e (doubled n)
]

sleeps-from : (n : ℕ) (cs : List ℕ) → sleeps (nth_delay n) cs ≡ backoff n cs
unfolding sleeps slept
sleeps-from n [] = refl
sleeps-from n (c ∷ cs) =
    ap (λ d. slept (nth_delay n) c ∷ sleeps d cs) (next-nth n c)
    ∙ go (leb (nth_delay n) c) (sleeps-from 1 cs) (sleeps-from (suc n) cs)
  where
    go :
        (b : Bool)
        → sleeps (nth_delay 1) cs ≡ backoff 1 cs
        → sleeps (nth_delay (suc n)) cs ≡ backoff (suc n) cs
        → (if b then initial_delay_ms else nth_delay n)
            ∷ sleeps (if b then nth_delay 1 else nth_delay (suc n)) cs
          ≡ (if b then initial_delay_ms ∷ backoff 1 cs else nth_delay n ∷ backoff (suc n) cs)
    go true again more = ap (λ ds. initial_delay_ms ∷ ds) again
    go false again more = ap (λ ds. nth_delay n ∷ ds) more

-- The nth connection in a row, from 0 on, that ends before its delay is followed by a sleep of 100 * 2 ^ n ms, at
-- most 10 s; one that lasts as long as its delay is followed by one of 100 ms, and the count goes on from 1.
pub sleeps-backoff : (cs : List ℕ) → sleeps initial_delay_ms cs ≡ backoff 0 cs
sleeps-backoff cs = sleeps-from 0 cs
