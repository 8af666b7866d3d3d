-- ===== src/Sessions/Counts.antt =====
-- What the counters of the session pool say of the leases, video.rs.
use nbe.Prelude.{
  ℕ, zero, suc, ◌+◌, ◌≤◌, ◌≡◌, refl, ◌∙◌, sym, arith, if-cases, Option-cases, inl, inr, Option,
  some, List, [], ◌∷◌, All, leb, ◌==◌, if◌then◌else◌,
}
use nbe.Sessions.{
  SessionPool, with_cap, acquire, is_current, drop_lease, release_all, Held, Call, acquires, drops,
  releases, take_lease, keep_lease, apply, run,
}

-- The leases of an epoch.
abbrev pub of_epoch : ℕ → List ℕ → ℕ
of_epoch e [] = 0
of_epoch e (l ∷ ls) = (if e == l then 1 else 0) + of_epoch e ls

record Inv (h : Held) : Type 0 where
  counted : h.pool.active ≡ of_epoch h.pool.epoch h.leases
  capped : h.pool.active ≤ h.pool.peak
  peaked : h.pool.peak ≤ h.pool.cap
  born : All (λ l. l ≤ h.pool.epoch) h.leases

take_lease-of_epoch :
    (e : ℕ) (ls : List ℕ) (i l : ℕ) (rest : List ℕ)
    → take_lease ls i ≡ some (l, rest)
    → of_epoch e ls ≡ (if e == l then 1 else 0) + of_epoch e rest
take_lease-of_epoch e [] i l rest h = absurd (ground (arith, h))
take_lease-of_epoch e (x ∷ ls) zero l rest h = ground (arith, h)
take_lease-of_epoch e (x ∷ ls) (suc i) l rest h = elim (Option-cases (take_lease ls i)) [
  | inl n ↦ absurd (ground (arith, h, n))
  | inr ((y, ys), n) ↦ ground (arith, h, n, take_lease-of_epoch e ls i y ys n)
]

take_lease-born :
    (e : ℕ) (ls : List ℕ) (i l : ℕ) (rest : List ℕ)
    → take_lease ls i ≡ some (l, rest)
    → All (λ k. k ≤ e) ls
    → All (λ k. k ≤ e) rest
take_lease-born e [] i l rest h v = absurd (ground (arith, h))
take_lease-born e (x ∷ ls) zero l rest h v = ground (arith, h, v)
take_lease-born e (x ∷ ls) (suc i) l rest h v = elim (Option-cases (take_lease ls i)) [
  | inl n ↦ absurd (ground (arith, h, n))
  | inr ((y, ys), n) ↦ ground (arith, h, n, v, take_lease-born e ls i y ys n v.1)
]

-- No lease is of a later epoch.
none_later : (e : ℕ) (ls : List ℕ) → All (λ l. l ≤ e) ls → of_epoch (e + 1) ls ≡ 0
none_later e [] v = refl
none_later e (l ∷ ls) v = ground (arith, v, none_later e ls v.1)

All-later : (e : ℕ) (ls : List ℕ) → All (λ l. l ≤ e) ls → All (λ l. l ≤ e + 1) ls
All-later e [] v = tt
All-later e (l ∷ ls) v = (omega (arith, v.0), All-later e ls v.1)

apply-Inv : (h : Held) (c : Call) → Inv h → Inv (apply h c)
unfolding apply acquire drop_lease release_all
apply-Inv h acquires v =
    if-cases
      (λ (r : Option ℕ × SessionPool).
        Inv (record { pool = r.1; leases = keep_lease h.leases r.0 }))
      (leb h.pool.cap h.pool.active) _ _
      (λ e. record { counted = v.counted; capped = v.capped; peaked = v.peaked; born = v.born })
      (λ e. record {
        counted = ground (arith, v);
        capped = omega arith;
        peaked = ground (arith, e, v);
        born = (omega arith, v.born);
      })
apply-Inv h (drops i) v = elim (Option-cases (take_lease h.leases i)) [
  | inl e ↦ rw (e, apply) v
  | inr ((l, rest), e) ↦
      rw (e, apply)
        (dropped l rest (take_lease-of_epoch h.pool.epoch h.leases i l rest e)
          (take_lease-born h.pool.epoch h.leases i l rest e v.born))
]
  where
    dropped :
        (l : ℕ) (rest : List ℕ)
        → of_epoch h.pool.epoch h.leases
          ≡ (if h.pool.epoch == l then 1 else 0) + of_epoch h.pool.epoch rest
        → All (λ k. k ≤ h.pool.epoch) rest
        → Inv (record { pool = drop_lease h.pool l; leases = rest })
    dropped l rest n b =
        if-cases (λ (p : SessionPool). Inv (record { pool = p; leases = rest }))
          (is_current h.pool l) _ _
          (λ e. record {
            counted = ground (arith, e, n, v);
            capped = omega (arith, v);
            peaked = v.peaked;
            born = b;
          })
          (λ e. record {
            counted = ground (arith, e, n, v);
            capped = v.capped;
            peaked = v.peaked;
            born = b;
          })
apply-Inv h releases v = record {
  counted = sym (none_later h.pool.epoch h.leases v.born);
  capped = omega arith;
  peaked = omega arith;
  born = All-later h.pool.epoch h.leases v.born;
}

run-Inv : (h : Held) (cs : List Call) → Inv h → Inv (run h cs)
unfolding run
run-Inv h [] v = v
run-Inv h (c ∷ cs) v = run-Inv (apply h c) cs (apply-Inv h c v)

abbrev pub unused : ℕ → Held
unused cap = record { pool = with_cap cap; leases = [] }

cap-run : (h : Held) (cs : List Call) → (run h cs).pool.cap ≡ h.pool.cap
unfolding run apply acquire drop_lease release_all
cap-run h [] = refl
cap-run h (c ∷ cs) = cap-run (apply h c) cs ∙ same c
  where
    same : (c : Call) → (apply h c).pool.cap ≡ h.pool.cap
    same acquires = ground arith
    same (drops i) = ground arith
    same releases = refl

-- After any acquires, drops of leases in any order and releases of all, each of them whole, the count of active
-- sessions is the leases held that were taken since the last release of all, no more than the cap: a lease from before
-- it gives nothing back. The peak lies between the count and the cap.
pub run-counts :
    (cap : ℕ) (cs : List Call)
    → let h = run (unused cap) cs in
      (h.pool.active ≡ of_epoch h.pool.epoch h.leases)
      × (h.pool.active ≤ h.pool.peak)
      × (h.pool.peak ≤ cap)
unfolding with_cap
run-counts cap cs =
    let v =
      run-Inv (unused cap) cs
        (record { counted = refl; capped = omega arith; peaked = omega arith; born = tt }) in
    (v.counted, v.capped, omega (arith, v.peaked, cap-run (unused cap) cs))
