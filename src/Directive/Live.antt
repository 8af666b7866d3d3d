-- ===== src/Directive/Live.antt =====
-- The end of a timed item that nothing supersedes, directive.rs: its task stays ready to report it until it has.
use nbe.Prelude.{
  ℕ, suc, ◌+◌, ◌≤◌, ◌≡◌, refl, sym, ap, subst, ◌∙◌, arith, ◌⊎◌, true, ◌&&◌, Bool-cases, inl, inr,
  none, some, List, [], ◌∷◌, leb, ◌==◌,
}
use Prim.Native.String.{String}
use text.Mathlib.Text.{◌==◌ as str_eq}
use text.Mathlib.TextEquality.{eq_iff}
use nbe.Clock.{start}
use nbe.Directive.{
  Engine, applied_state_version, item_end, Timer, Command, TakePayload, show_start, show_stop,
  record_stop, stream_stop, take, fallback, overlay, marker_add, recall, ignored,
}
use nbe.Directive.Takes.{
  is_current, apply_take, on_fallback, on_overlay, on_marker_add, put_on_air, time_end,
  schedule_done, begin, as_u32,
}
use nbe.Directive.Outputs.{Outcome, on_record_stop, on_stream_stop, close_record, close_stream}
use nbe.Directive.Apply.{
  handle, apply, acknowledge, settled, is_running, report_end, take_out, Event, directive, wakes,
  wake, step, run,
}
use nbe.Directive.Acks.{SaysAlike, handle-SaysAlike}
use nbe.Directive.Reports.{IsTimely, IsTimely-fresh, IsTimely-once, step-IsTimely, run-IsTimely}
use nbe.Directive.Ready.{
  keeps, all_keep, ends_for, ends_for-append, ends_for-le, is_for, timers_for, timers_for-append,
  IsReady, wake-IsReady,
}

-- What a directive that keeps the playback leaves alone.
record LeavesPlayback (e e' : Engine) : Type 0 where
  playing : e'.playing ≡ e.playing
  pending : e'.pending ≡ e.pending
  running : is_running e.clock ≡ true → is_running e'.clock ≡ true

handle-LeavesPlayback :
    (e : Engine) (now version : ℕ) (c : Command)
    → keeps (directive now version c) ≡ true
    → LeavesPlayback e (handle e now c).0
unfolding handle on_record_stop close_record on_stream_stop close_stream on_fallback on_overlay
    on_marker_add start
handle-LeavesPlayback e now v show_start k = record {
  playing = refl;
  pending = refl;
  running = λ h. ground arith;
}
handle-LeavesPlayback e now v (show_stop q f a b) k = absurd (ground arith)
handle-LeavesPlayback e now v (record_stop r) k = record {
  playing = ground arith;
  pending = ground arith;
  running = λ h. ground arith;
}
handle-LeavesPlayback e now v (stream_stop r) k = record {
  playing = ground arith;
  pending = ground arith;
  running = λ h. ground arith;
}
handle-LeavesPlayback e now v (take r p) k = absurd (ground arith)
handle-LeavesPlayback e now v fallback k = record {
  playing = refl;
  pending = refl;
  running = λ h. h;
}
handle-LeavesPlayback e now v (overlay s i f) k = record {
  playing = ground arith;
  pending = ground arith;
  running = λ h. ground arith;
}
handle-LeavesPlayback e now v (marker_add n t) k = record {
  playing = ground arith;
  pending = ground arith;
  running = λ h. ground arith;
}
handle-LeavesPlayback e now v (recall t p) k = absurd (ground arith)
handle-LeavesPlayback e now v ignored k = record {
  playing = refl;
  pending = refl;
  running = λ h. h;
}

settled-IsReady :
    (r : String) (g version : ℕ) (e : Engine) (o : Outcome)
    → SaysAlike e o.0
    → LeavesPlayback e o.0
    → IsReady r g e
    → IsReady r g (settled o version).0
unfolding acknowledge
settled-IsReady r g version e (e', none) s l h = record {
  running = l.running h.running;
  item = ap (λ p. p.item) l.playing ∙ h.item;
  generation = ap (λ p. p.generation) l.playing ∙ h.generation;
  due = omega (
    arith,
    h.due,
    ap (timers_for r g) l.pending,
    ap (ends_for r g) s.frames,
    ends_for-append r g e'.outgoing (applied_state_version version),
  );
}
settled-IsReady r g version e (e', some x) s l h = record {
  running = l.running h.running;
  item = ap (λ p. p.item) l.playing ∙ h.item;
  generation = ap (λ p. p.generation) l.playing ∙ h.generation;
  due = omega (arith, h.due, ap (timers_for r g) l.pending, ap (ends_for r g) s.frames);
}

step-IsReady :
    (r : String) (g : ℕ) (e : Engine) (x : Event)
    → keeps x ≡ true
    → IsReady r g e
    → IsReady r g (step e x)
unfolding step apply
step-IsReady r g e (directive now version c) k h =
    settled-IsReady r g version e (handle e now c) (handle-SaysAlike e now c)
      (handle-LeavesPlayback e now version c k) h
step-IsReady r g e (wakes i) k h = wake-IsReady r g e i h

run-IsReady :
    (r : String) (g : ℕ) (e : Engine) (xs : List Event)
    → all_keep xs ≡ true
    → IsReady r g e
    → IsReady r g (run e xs)
unfolding run
run-IsReady r g e [] k h = h
run-IsReady r g e (x ∷ xs) k h =
    run-IsReady r g (step e x) xs (ground (arith, k)) (step-IsReady r g e x (ground (arith, k)) h)

-- A timer that is pending for an item stands at some position.
timers_for-position :
    (r : String) (g : ℕ) (ts : List Timer)
    → 1 ≤ timers_for r g ts
    → (i : ℕ) × (p : Timer × List Timer) × (take_out ts i ≡ some p) × (is_for r g p.0 ≡ 1)
timers_for-position r g [] h = absurd (omega (arith, h))
timers_for-position r g (t ∷ ts) h = elim (Bool-cases (str_eq r t.item_ref && g == t.generation)) [
  | inl b ↦ (0, (t, ts), refl, ground (arith, b))
  | inr b ↦
      let (i, p, s, q) = timers_for-position r g ts (ground (arith, b, h)) in
      (suc i, (p.0, t ∷ p.1), ground (arith, s), q)
]

due-reports :
    (r : String) (g : ℕ) (e : Engine)
    → IsReady r g e
    → (1 ≤ ends_for r g e.outgoing) ⊎ ((i : ℕ) × (1 ≤ ends_for r g (wake e i).outgoing))
due-reports r g e h = elim (Bool-cases (leb 1 (ends_for r g e.outgoing))) [
  | inl b ↦ inl (ground (arith, b))
  | inr b ↦
      let (i, p, s, q) = timers_for-position r g e.pending (ground (arith, b, h.due)) in
      inr (
        i,
        unfold wake report_end is_current in
            ground (
              arith,
              s,
              q,
              h.running,
              h.item,
              h.generation,
              ends_for-append r g e.outgoing (item_end p.0.item_ref p.0.generation),
            ),
      )
]

take-IsReady :
    (e : Engine) (now version n : ℕ) (r : String) (p : TakePayload)
    → is_running e.clock ≡ true
    → p.item_duration_frames ≡ some n
    → IsReady r (e.playing.generation + 1) (step e (directive now version (take (some r) (some p))))
unfolding step apply handle apply_take put_on_air time_end begin schedule_done acknowledge
take-IsReady e now version n r p c d =
    subst
      (λ o.
        IsReady r (e.playing.generation + 1)
          (acknowledge (time_end (put_on_air e now r p true) r o) version))
      (sym d)
      (record {
        running = c;
        item = refl;
        generation = refl;
        due = ground (
          arith,
          eq_iff r r,
          timers_for-append r (e.playing.generation + 1) e.pending (record {
            item_ref = r;
            duration_frames = as_u32 n;
            rate = e.clock.house_rate;
            generation = e.playing.generation + 1;
          }),
        );
      })

reported_once :
    (r : String) (g : ℕ) (e : Engine)
    → IsTimely e
    → 1 ≤ ends_for r g e.outgoing
    → ends_for r g e.outgoing ≡ 1
reported_once r g e h l =
    let k = ends_for-le r g e.outgoing in
    omega (arith, l, k, IsTimely-once g e h (omega (arith, l, k)))

-- A timed take on a running clock, in any state that a run reaches from an engine with no timer and no report: after
-- any further starts of the show, stops of an output, fallbacks, overlays, markers and wakes, the end has been reported
-- exactly once under the item's name for the generation that the take began, or a task is pending whose wake reports it
-- so, exactly once.
pub take-reports :
    (e0 : Engine) (ws xs : List Event) (now version n : ℕ) (r : String) (p : TakePayload)
    → e0.pending ≡ []
    → e0.outgoing ≡ []
    → is_running (run e0 ws).clock ≡ true
    → p.item_duration_frames ≡ some n
    → all_keep xs ≡ true
    → let e = run (step (run e0 ws) (directive now version (take (some r) (some p)))) xs in
      let g = (run e0 ws).playing.generation + 1 in
      (ends_for r g e.outgoing ≡ 1) ⊎ ((i : ℕ) × (ends_for r g (wake e i).outgoing ≡ 1))
take-reports e0 ws xs now version n r p a b c d k =
    let x = directive now version (take (some r) (some p)) in
    let g = (run e0 ws).playing.generation + 1 in
    let e = run (step (run e0 ws) x) xs in
    let ready =
      run-IsReady r g (step (run e0 ws) x) xs k (take-IsReady (run e0 ws) now version n r p c d) in
    let timely =
      run-IsTimely (step (run e0 ws) x) xs
        (step-IsTimely (run e0 ws) x (run-IsTimely e0 ws (IsTimely-fresh e0 a b))) in
    elim (due-reports r g e ready) [
      | inl h ↦ inl (reported_once r g e timely h)
      | inr (i, h) ↦
          inr (i, reported_once r g (wake e i) (unfold step in step-IsTimely e (wakes i) timely) h)
    ]
