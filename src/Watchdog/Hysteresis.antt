-- ===== src/Watchdog/Hysteresis.antt =====
-- When the fault comes and goes, watchdog.rs: the run of late frames that trips, the run of on-time frames that clears.
use nbe.Prelude.{
  ℕ, zero, suc, ◌+◌, ◌<◌, ◌≡◌, refl, ap, ◌∙◌, arith, ◌&&◌, ◌||◌, List, [], ◌∷◌, replicate, ltb,
  ◌==◌, if◌then◌else◌,
}
use nbe.Watchdog.{
  EngineState, Watchdog, new, report_frame, report_late, report_on_time, run, clear_after_on_time,
}

-- The misses summed over the late frames since the last frame on time.
abbrev pub late_run : ℕ → List ℕ → ℕ
late_run sum [] = sum
late_run sum (n ∷ ns) = late_run (if n == 0 then 0 else sum + n) ns

-- The frames on time in a row at the end, after `so_far`.
abbrev pub on_time_run : ℕ → List ℕ → ℕ
on_time_run so_far [] = so_far
on_time_run so_far (n ∷ ns) = on_time_run (if n == 0 then so_far + 1 else 0) ns

report_frame-misses :
    (w : Watchdog) (n : ℕ)
    → ((report_frame w n).consecutive_misses ≡ (if n == 0 then 0 else w.consecutive_misses + n))
      × ((report_frame w n).threshold ≡ w.threshold)
unfolding report_frame report_late report_on_time
report_frame-misses w n = ground arith

run-misses :
    (w : Watchdog) (ns : List ℕ)
    → ((run w ns).consecutive_misses ≡ late_run w.consecutive_misses ns)
      × ((run w ns).threshold ≡ w.threshold)
unfolding run
run-misses w [] = (refl, refl)
run-misses w (n ∷ ns) =
    let (m, t) = report_frame-misses w n in
    let (rm, rt) = run-misses (report_frame w n) ns in (rm ∙ ap (λ k. late_run k ns) m, rt ∙ t)

report_frame-late :
    (w : Watchdog) (n : ℕ)
    → (report_frame w (suc n)).tripped
      ≡ (w.tripped || ltb w.threshold (w.consecutive_misses + suc n))
unfolding report_frame report_late
report_frame-late w n = ground arith

-- After any reports a late frame leaves the fault up exactly when it was up or when the misses of the unbroken
-- run of late frames that it ends are more than the threshold.
run-trips :
    (s : EngineState) (threshold : ℕ) (ns : List ℕ) (n : ℕ)
    → let w = run (new s threshold) ns in
      (report_frame w (suc n)).tripped ≡ (w.tripped || ltb threshold (late_run 0 ns + suc n))
unfolding new
run-trips s threshold ns n =
    let (m, t) = run-misses (new s threshold) ns in
    report_frame-late (run (new s threshold) ns) n
    ∙ ap
        (λ k.
          (run (new s threshold) ns).tripped
          || ltb k ((run (new s threshold) ns).consecutive_misses + suc n))
        t
    ∙ ap (λ k. (run (new s threshold) ns).tripped || ltb threshold (k + suc n)) m

report_on_time-bound :
    (w : Watchdog)
    → w.consecutive_on_time < clear_after_on_time
    → (report_frame w 0).consecutive_on_time < clear_after_on_time
unfolding report_frame report_on_time
report_on_time-bound w h = ground arith

report_on_time-shift :
    (w : Watchdog) (k : ℕ)
    → w.consecutive_on_time < clear_after_on_time
    → ((report_frame w 0).tripped
        && ltb ((report_frame w 0).consecutive_on_time + k) clear_after_on_time)
      ≡ (w.tripped && ltb (w.consecutive_on_time + suc k) clear_after_on_time)
unfolding report_frame report_on_time
report_on_time-shift w k h = ground arith

on_time_steps :
    (w : Watchdog) (k : ℕ)
    → w.consecutive_on_time < clear_after_on_time
    → (run w (replicate k 0)).tripped
      ≡ (w.tripped && ltb (w.consecutive_on_time + k) clear_after_on_time)
unfolding run
on_time_steps w zero h = ground arith
on_time_steps w (suc k) h =
    on_time_steps (report_frame w 0) k (report_on_time-bound w h) ∙ report_on_time-shift w k h

late_restarts : (w : Watchdog) (n : ℕ) → (report_frame w (suc n)).consecutive_on_time ≡ 0
unfolding report_frame report_late
late_restarts w n = ground arith

-- After a late frame the fault is up through the next 29 frames on time, and down from the 30th on, where the late
-- frame left it up.
run-clears :
    (w : Watchdog) (n k : ℕ)
    → (run (report_frame w (suc n)) (replicate k 0)).tripped
      ≡ ((report_frame w (suc n)).tripped && ltb k clear_after_on_time)
run-clears w n k =
    on_time_steps (report_frame w (suc n)) k (omega (arith, late_restarts w n))
    ∙ ap (λ c. (report_frame w (suc n)).tripped && ltb c clear_after_on_time)
        (omega (arith, late_restarts w n))

-- After any reports a late frame leaves the fault up exactly when it was up or when the misses of the unbroken run of
-- late frames that it ends are more than the threshold; and a fault that it leaves up is up through the next 29 frames
-- on time, and down from the 30th on.
pub run-hysteresis :
    (s : EngineState) (threshold : ℕ) (ns : List ℕ) (n k : ℕ)
    → let w = run (new s threshold) ns in
      let late = report_frame w (suc n) in
      (late.tripped ≡ (w.tripped || ltb threshold (late_run 0 ns + suc n)))
      × ((run late (replicate k 0)).tripped ≡ (late.tripped && ltb k clear_after_on_time))
run-hysteresis s threshold ns n k =
    (run-trips s threshold ns n, run-clears (run (new s threshold) ns) n k)
