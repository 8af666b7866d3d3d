-- ===== src/Sessions.antt =====
-- The pool of decode sessions, crates/nbe-engine/src/video.rs. A counter is a number; a lease is the epoch it was born in.
-- Each call is whole, but the drop of a lease is also given in its two steps.
pub mod Counts
mod Tests
use nbe.Prelude.{
  ℕ, zero, suc, ◌+◌, ◌-◌, max, Bool, true, false, Option, none, some, List, [], ◌∷◌, leb, ◌==◌,
  if◌then◌else◌,
}

pub record SessionPool : Type 0 where
  pub cap : ℕ
  pub active : ℕ
  pub peak : ℕ
  pub refused : ℕ
  pub epoch : ℕ

unfoldable pub with_cap : ℕ → SessionPool
with_cap cap = record { cap = cap; active = 0; peak = 0; refused = 0; epoch = 0 }

-- The loop's one round, in which the exchange succeeds; the lease, if there is one.
unfoldable pub acquire : SessionPool → Option ℕ × SessionPool
acquire p =
    if leb p.cap p.active
    then (none, record p { refused = p.refused + 1 })
    else (some p.epoch, record p { active = p.active + 1; peak = max p.peak (p.active + 1) })

-- `Drop for SessionLease`: the look at the epoch, and the decrement, which stops at 0.
abbrev pub is_current : SessionPool → ℕ → Bool
is_current p lease = p.epoch == lease

abbrev pub give_back : SessionPool → SessionPool
give_back p = record p { active = p.active - 1 }

unfoldable pub drop_lease : SessionPool → ℕ → SessionPool
drop_lease p lease = if is_current p lease then give_back p else p

unfoldable pub release_all : SessionPool → SessionPool
release_all p = record p { active = 0; peak = 0; epoch = p.epoch + 1 }

-- A pool with the leases that are held, newest first.
pub record Held : Type 0 where
  pub pool : SessionPool
  pub leases : List ℕ

pub data Call : Type 0 where
  acquires : Call
  drops : ℕ → Call
  releases : Call

-- The lease at a position, and the others.
abbrev pub take_lease : List ℕ → ℕ → Option (ℕ × List ℕ)
take_lease [] i = none
take_lease (l ∷ ls) zero = some (l, ls)
take_lease (l ∷ ls) (suc i) = elim (take_lease ls i) [ none ↦ none | some r ↦ some (r.0, l ∷ r.1) ]

abbrev pub keep_lease : List ℕ → Option ℕ → List ℕ
keep_lease ls none = ls
keep_lease ls (some l) = l ∷ ls

unfoldable pub apply : Held → Call → Held
unfolding acquire drop_lease release_all
apply h acquires =
    let (lease, p) = acquire h.pool in record { pool = p; leases = keep_lease h.leases lease }
apply h (drops i) = elim (take_lease h.leases i) [
  | none ↦ h
  | some (l, rest) ↦ record { pool = drop_lease h.pool l; leases = rest }
]
apply h releases = record h { pool = release_all h.pool }

unfoldable pub run : Held → List Call → Held
unfolding apply
run h [] = h
run h (c ∷ cs) = run (apply h c) cs
