-- ===== src/Directive/Ends.antt =====
-- The timers of timed items and the ends reported, directive.rs: what a directive may do to them.
use nbe.Prelude.{
  ℕ, ◌+◌, ◌≤◌, ◌≡◌, refl, arith, Bool, true, false, Option, none, some, List, [], ◌∷◌, ◌++◌, leb,
  ◌==◌, if◌then◌else◌,
}
use Prim.Native.String.{String}
use nbe.Directive.{
  Engine, EngineFrame, applied_state_version, item_end, Timer, Command, RecallTarget, named,
  nothing, absent, TakePayload, show_start, show_stop, record_stop, stream_stop, take, fallback,
  overlay, marker_add, recall, ignored,
}
use nbe.Directive.Takes.{
  apply_take, on_fallback, on_recall, on_overlay, on_marker_add, put_on_air, time_end,
  schedule_done, clear_view, replace_overlays, with_overlays, begin, clear, as_u32,
}
use nbe.Directive.Outputs.{
  on_record_stop, on_stream_stop, on_show_stop, close_record, close_stream, quiet_outputs, halt,
}
use nbe.Directive.Apply.{outcome, handle}

-- How often a generation is among the pending timers, and among the ends reported.
abbrev pub timers_of : ℕ → List Timer → ℕ
timers_of g [] = 0
timers_of g (t ∷ ts) = (if t.generation == g then 1 else 0) + timers_of g ts

abbrev pub ends_of : ℕ → List EngineFrame → ℕ
ends_of g [] = 0
ends_of g (applied_state_version v ∷ fs) = ends_of g fs
ends_of g (item_end i h ∷ fs) = (if h == g then 1 else 0) + ends_of g fs

abbrev pub is_end : ℕ → EngineFrame → ℕ
is_end g (applied_state_version v) = 0
is_end g (item_end i h) = if h == g then 1 else 0

timers_of-append :
    (g : ℕ) (ts : List Timer) (t : Timer)
    → timers_of g (ts ++ (t ∷ [])) ≡ timers_of g ts + (if t.generation == g then 1 else 0)
timers_of-append g [] t = omega arith
timers_of-append g (x ∷ ts) t = omega (arith, timers_of-append g ts t)

pub ends_of-append :
    (g : ℕ) (fs : List EngineFrame) (f : EngineFrame)
    → ends_of g (fs ++ (f ∷ [])) ≡ ends_of g fs + is_end g f
ends_of-append g [] (applied_state_version v) = omega arith
ends_of-append g [] (item_end i h) = omega arith
ends_of-append g (applied_state_version v ∷ fs) f = ends_of-append g fs f
ends_of-append g (item_end i h ∷ fs) f = omega (arith, ends_of-append g fs f)

-- What a handler may do to the playback and its timers.
pub record Moves (e e' : Engine) : Type 0 where
  pub later : e.playing.generation ≤ e'.playing.generation
  pub timers :
      (g : ℕ)
      → timers_of g e'.pending
        ≤ timers_of g e.pending
          + (if leb g e.playing.generation then 0 else if leb g e'.playing.generation then 1 else 0)

Moves-same : (e e' : Engine) → e'.playing ≡ e.playing → e'.pending ≡ e.pending → Moves e e'
Moves-same e e' p t = record { later = ground (arith, p); timers = λ g. ground (arith, p, t) }

put_on_air-Moves :
    (e : Engine) (now : ℕ) (r : String) (p : TakePayload) (b : Bool) (o : Option ℕ)
    → Moves e (time_end (put_on_air e now r p b) r o)
unfolding put_on_air time_end begin schedule_done
put_on_air-Moves e now r p b none = record { later = omega arith; timers = λ g. ground arith }
put_on_air-Moves e now r p b (some n) = record {
  later = omega arith;
  timers = λ g. ground (
    arith,
    timers_of-append g e.pending (record {
      item_ref = r;
      duration_frames = as_u32 n;
      rate = e.clock.house_rate;
      generation = e.playing.generation + 1;
    }),
  );
}

with_overlays-Moves :
    (e e' : Engine) (now : ℕ) (o : Option (List String))
    → Moves e e'
    → Moves e (with_overlays e' now o)
with_overlays-Moves e e' now none h = h
with_overlays-Moves e e' now (some ids) h =
    unfold replace_overlays in record { later = h.later; timers = h.timers }

apply_take-Moves :
    (e : Engine) (now : ℕ) (r : Option String) (p : Option TakePayload) (b : Bool)
    → Moves e (outcome e (apply_take e now r p b)).0
unfolding apply_take
apply_take-Moves e now r none b = Moves-same e e refl refl
apply_take-Moves e now none (some p) b = Moves-same e e refl refl
apply_take-Moves e now (some r) (some p) b = put_on_air-Moves e now r p b p.item_duration_frames

on_recall-Moves :
    (e : Engine) (now : ℕ) (t : RecallTarget) (p : Option TakePayload)
    → Moves e (outcome e (on_recall e now t p)).0
unfolding on_recall
on_recall-Moves e now t none = Moves-same e e refl refl
on_recall-Moves e now nothing (some p) =
    with_overlays-Moves e (clear_view e now) now p.visible_overlays
      (unfold clear_view clear in record { later = omega arith; timers = λ g. ground arith })
on_recall-Moves e now absent (some p) =
    with_overlays-Moves e e now p.visible_overlays (Moves-same e e refl refl)
on_recall-Moves e now (named r) (some p) =
    unfold apply_take in
    with_overlays-Moves e (time_end (put_on_air e now r p false) r p.item_duration_frames) now
      p.visible_overlays (put_on_air-Moves e now r p false p.item_duration_frames)

pub handle-Moves : (e : Engine) (now : ℕ) (c : Command) → Moves e (handle e now c).0
unfolding handle
handle-Moves e now show_start = Moves-same e _ refl refl
handle-Moves e now (show_stop q f a b) =
    unfold on_show_stop close_record close_stream quiet_outputs halt in
    Moves-same e _ (ground arith) (ground arith)
handle-Moves e now (record_stop r) =
    unfold on_record_stop close_record in Moves-same e _ (ground arith) (ground arith)
handle-Moves e now (stream_stop r) =
    unfold on_stream_stop close_stream in Moves-same e _ (ground arith) (ground arith)
handle-Moves e now (take r p) = apply_take-Moves e now r p true
handle-Moves e now fallback = unfold on_fallback in Moves-same e _ refl refl
handle-Moves e now (overlay s i f) =
    unfold on_overlay in Moves-same e _ (ground arith) (ground arith)
handle-Moves e now (marker_add n t) =
    unfold on_marker_add in Moves-same e _ (ground arith) (ground arith)
handle-Moves e now (recall t p) = on_recall-Moves e now t p
handle-Moves e now ignored = Moves-same e e refl refl
