-- ===== src/LoopCache/Residency.antt =====
-- What the plan of loop_cache.rs keeps resident fits the budget.
use nbe.Prelude.{
  ℕ, zero, suc, subst, ◌*◌, ◌/◌, ◌<◌, ◌≤◌, min, max, ◌≡◌, arith, ◌↔◌, ◌⊎◌, true, ◌&&◌, Bool-cases,
  inl, inr, some, ltb, leb, ◌==◌, if◌then◌else◌,
}
use native.Mathlib.Nat.{le-div_iff_mul-le, div-mul-le_self, mul-le-mul_right, le_trans}
use nbe.LoopCache.{
  LoopSpec, CacheBudget, plan, max_frames, effective_mib, half_bytes, loop_frame_cap,
  loop_held_frames, absolute_loop_frame_cap,
}

max_frames-le :
    (period effective cost : ℕ)
    → 0 < cost
    → period ≤ absolute_loop_frame_cap
    → (leb period (max_frames effective cost) ≡ true) ↔ (period * cost ≤ effective * 2097152)
unfolding max_frames
max_frames-le period effective cost h p =
    let d : (period ≤ effective * 2097152 / cost) ↔ (period * cost ≤ effective * 2097152) =
      le-div_iff_mul-le h in
    (λ e. d.0 (ground (arith, e)), λ e. at_most (d.1 e))
  where
    at_most :
        period ≤ effective * 2097152 / cost
        → leb period (if cost == 0 then 0 else min (effective * 2097152 / cost) 4294967295) ≡ true
    at_most k = ground arith

-- A loop of frames that are not empty is resident exactly where it has a frame, no more than 900, and all its frames
-- together are no larger than the effective budget.
pub plan-vram_resident :
    (spec : LoopSpec) (budget : CacheBudget)
    → 0 < half_bytes spec
    → ((plan spec budget).vram_resident ≡ true) ↔ (
        (0 < spec.period_frames)
        × (spec.period_frames ≤ absolute_loop_frame_cap)
        × (spec.period_frames * half_bytes spec ≤ effective_mib budget * 2097152))
unfolding plan
plan-vram_resident spec budget h =
    whole spec.period_frames (effective_mib budget) (half_bytes spec) h
  where
    whole :
        (period effective cost : ℕ)
        → 0 < cost
        → ((ltb 0 period
              && leb period (max_frames effective cost)
              && leb period absolute_loop_frame_cap)
            ≡ true)
          ↔ ((0 < period)
              × (period ≤ absolute_loop_frame_cap)
              × (period * cost ≤ effective * 2097152))
    whole period effective cost h = elim (Bool-cases (leb period absolute_loop_frame_cap)) [
      | inl short ↦
          let (f, g) = max_frames-le period effective cost h (ground (arith, short)) in
          (
            λ e. (ground (arith, e), ground (arith, short), f (ground (arith, e))),
            λ (a, b, c). ground (arith, a, b, g c),
          )
      | inr long ↦
          (λ e. absurd (ground (arith, e, long)), λ (a, b, c). absurd (ground (arith, b, long)))
    ]

max_frames_fits : (effective cost : ℕ) → max_frames effective cost * cost ≤ effective * 2097152
unfolding max_frames
max_frames_fits effective zero = omega arith
max_frames_fits effective (suc c) =
    elim (Bool-cases (leb (effective * 2097152 / suc c) 4294967295)) [
      | inl small ↦
          subst (λ k. k * suc c ≤ effective * 2097152) (ground (arith, small))
            (div-mul-le_self (effective * 2097152) (suc c))
      | inr large ↦
          le_trans (mul-le-mul_right (suc c) (ground (arith, large)))
            (div-mul-le_self (effective * 2097152) (suc c))
    ]

held_fits :
    (length_frames frames cost total : ℕ)
    → frames * cost ≤ total
    → (min length_frames (max frames 1) ≤ 1) ⊎ (min length_frames (max frames 1) * cost ≤ total)
held_fits length_frames frames cost total h = elim (Bool-cases (leb frames 1)) [
  | inl few ↦ inl (ground (arith, few))
  | inr many ↦ inr (le_trans (mul-le-mul_right cost (ground (arith, many))) h)
]

effective_mib-le :
    (budget : CacheBudget)
    → (effective_mib budget ≤ budget.per_loop_mib)
      × (effective_mib budget ≤ budget.total_mib)
      × ((ws : ℕ) → budget.recommended_working_set_mib ≡ some ws → 4 * effective_mib budget ≤ ws)
unfolding effective_mib
effective_mib-le budget = (ground arith, ground arith, λ ws e. ground arith)

-- Of a loop of any length the frames held are one at most, or no larger together than the effective budget, which is
-- itself no more than the loop's, the total and a quarter of the working set.
pub loop_held_frames-le :
    (spec : LoopSpec) (budget : CacheBudget) (length_frames : ℕ)
    → let held = loop_held_frames (plan spec budget) length_frames in
      ((held ≤ 1) ⊎ (held * half_bytes spec ≤ effective_mib budget * 2097152))
      × (effective_mib budget ≤ budget.per_loop_mib)
      × (effective_mib budget ≤ budget.total_mib)
      × ((ws : ℕ) → budget.recommended_working_set_mib ≡ some ws → 4 * effective_mib budget ≤ ws)
unfolding loop_held_frames loop_frame_cap
loop_held_frames-le spec budget length_frames =
    let (a, b, c) = effective_mib-le budget in
    (
      held_fits length_frames (plan spec budget).max_frames_by_budget (half_bytes spec)
          (effective_mib budget * 2097152) fits,
      a,
      b,
      c,
    )
  where
    fits :
        (plan spec budget).max_frames_by_budget * half_bytes spec ≤ effective_mib budget * 2097152
    fits = unfold plan in max_frames_fits (effective_mib budget) (half_bytes spec)
