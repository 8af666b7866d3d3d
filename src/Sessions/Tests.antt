-- ===== src/Sessions/Tests.antt =====
-- The session pool on a few calls, and the drop of a lease that a release of all and an acquire come into.
use nbe.Prelude.{◌≡◌, ◌≤◌, refl, true, some, List, [], ◌∷◌}
use nbe.Sessions.{
  SessionPool, with_cap, acquire, is_current, give_back, release_all, Call, acquires, drops,
  releases, run,
}
use nbe.Sessions.Counts.{of_epoch, unused, run-counts}

abbrev calls : List Call
calls = acquires ∷ acquires ∷ acquires ∷ releases ∷ acquires ∷ drops 1 ∷ []

run-counts_example :
    let h = run (unused 2) calls in
    (h.pool.active ≡ of_epoch h.pool.epoch h.leases)
    × (h.pool.active ≤ h.pool.peak)
    × (h.pool.peak ≤ 2)
run-counts_example = run-counts 2 calls

-- A lease sees its epoch; all are released and a new lease is taken; the decrement of the old one then frees the slot
-- of the new one, and a pool of one session gives out a second.
abbrev taken : SessionPool
taken = record (with_cap 1) { active = 1; peak = 1 }

abbrev raced : SessionPool
raced = give_back (acquire (release_all taken)).1

one_too_many :
    (is_current taken 0 ≡ true)
    × ((acquire (release_all taken)).0 ≡ some 1)
    × ((acquire raced).0 ≡ some 1)
unfolding with_cap acquire release_all
one_too_many = (refl, refl, refl)
