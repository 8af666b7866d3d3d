-- ===== src/Directive/Underlays.antt =====
-- The underlays of the transitions that directives start, directive.rs, over runs.
use nbe.Prelude.{
  ℕ, ◌-◌, ◌≤◌, ◌≡◌, refl, sym, ap, ◌∙◌, arith, Bool, true, false, inl, inr, Option, none, some,
  Option-cases, List, [], ◌∷◌, length,
}
use Prim.Native.String.{String}
use nbe.Directive.{
  Engine, FrozenLayer, Transition, TransitionKind, cut, mix, Command, RecallTarget, named, nothing,
  absent, TakePayload, show_start, show_stop, record_stop, stream_stop, take, fallback, overlay,
  marker_add, recall, ignored,
}
use nbe.Directive.Transitions.{underlay_for}
use nbe.Directive.Takes.{
  apply_take, on_fallback, on_recall, on_overlay, on_marker_add, put_on_air, time_end,
  schedule_done, clear_view, replace_overlays, with_overlays, transition_to, next_frame, kind_of,
}
use nbe.Directive.Outputs.{
  Outcome, on_record_stop, on_stream_stop, on_show_stop, close_record, close_stream, quiet_outputs,
  halt,
}
use nbe.Directive.Apply.{
  outcome, handle, apply, acknowledge, settled, report_end, take_out, Event, directive, wakes, wake,
  step, run,
}
use nbe.Directive.Layers.{layered, all_visible, underlay_for-layered}

-- Whether the transition in flight has an underlay of one layer to eight visible ones, or none.
abbrev shows_layers : Option Transition → Bool
shows_layers none = true
shows_layers (some t) = layered t.underlay

underlay_for-shows_layers :
    (k : TransitionKind) (o : Option Transition) (frame : ℕ)
    → shows_layers o ≡ true
    → layered (underlay_for k o frame) ≡ true
underlay_for-shows_layers cut none frame h = unfold underlay_for in refl
underlay_for-shows_layers mix none frame h = unfold underlay_for in refl
underlay_for-shows_layers k (some old) frame h = underlay_for-layered k old frame h

put_on_air-shows_layers :
    (e : Engine) (now : ℕ) (r : String) (p : TakePayload) (b : Bool) (o : Option ℕ)
    → shows_layers e.transition ≡ true
    → shows_layers (time_end (put_on_air e now r p b) r o).transition ≡ true
unfolding put_on_air time_end transition_to schedule_done
put_on_air-shows_layers e now r p b none h =
    underlay_for-shows_layers (kind_of p.transition) e.transition (next_frame e now 0 - 1) h
put_on_air-shows_layers e now r p b (some n) h =
    underlay_for-shows_layers (kind_of p.transition) e.transition (next_frame e now 0 - 1) h

with_overlays-transition :
    (e : Engine) (now : ℕ) (o : Option (List String))
    → (with_overlays e now o).transition ≡ e.transition
with_overlays-transition e now none = refl
with_overlays-transition e now (some ids) = unfold replace_overlays in refl

apply_take-shows_layers :
    (e : Engine) (now : ℕ) (r : Option String) (p : Option TakePayload) (b : Bool)
    → shows_layers e.transition ≡ true
    → shows_layers (outcome e (apply_take e now r p b)).0.transition ≡ true
unfolding apply_take
apply_take-shows_layers e now r none b h = h
apply_take-shows_layers e now none (some p) b h = h
apply_take-shows_layers e now (some r) (some p) b h =
    put_on_air-shows_layers e now r p b p.item_duration_frames h

on_recall-shows_layers :
    (e : Engine) (now : ℕ) (t : RecallTarget) (p : Option TakePayload)
    → shows_layers e.transition ≡ true
    → shows_layers (outcome e (on_recall e now t p)).0.transition ≡ true
unfolding on_recall
on_recall-shows_layers e now t none h = h
on_recall-shows_layers e now nothing (some p) h =
    ap shows_layers (with_overlays-transition (clear_view e now) now p.visible_overlays)
    ∙ (unfold clear_view in refl)
on_recall-shows_layers e now absent (some p) h =
    ap shows_layers (with_overlays-transition e now p.visible_overlays) ∙ h
on_recall-shows_layers e now (named r) (some p) h =
    unfold apply_take in
    ap shows_layers (
      with_overlays-transition (time_end (put_on_air e now r p false) r p.item_duration_frames) now
        p.visible_overlays)
    ∙ put_on_air-shows_layers e now r p false p.item_duration_frames h

handle-shows_layers :
    (e : Engine) (now : ℕ) (c : Command)
    → shows_layers e.transition ≡ true
    → shows_layers (handle e now c).0.transition ≡ true
unfolding handle
handle-shows_layers e now show_start h = h
handle-shows_layers e now (show_stop q f a b) h =
    unfold on_show_stop close_record close_stream quiet_outputs halt in ground arith
handle-shows_layers e now (record_stop r) h = unfold on_record_stop close_record in ground arith
handle-shows_layers e now (stream_stop r) h = unfold on_stream_stop close_stream in ground arith
handle-shows_layers e now (take r p) h = apply_take-shows_layers e now r p true h
handle-shows_layers e now fallback h = unfold on_fallback in h
handle-shows_layers e now (overlay s i f) h = unfold on_overlay in ground arith
handle-shows_layers e now (marker_add n t) h = unfold on_marker_add in ground arith
handle-shows_layers e now (recall t p) h = on_recall-shows_layers e now t p h
handle-shows_layers e now ignored h = h

settled-transition : (o : Outcome) (version : ℕ) → (settled o version).0.transition ≡ o.0.transition
unfolding acknowledge
settled-transition (e, none) version = refl
settled-transition (e, some x) version = refl

step-shows_layers :
    (e : Engine) (x : Event)
    → shows_layers e.transition ≡ true
    → shows_layers (step e x).transition ≡ true
unfolding step apply wake report_end
step-shows_layers e (directive now version c) h =
    ap shows_layers (settled-transition (handle e now c) version) ∙ handle-shows_layers e now c h
step-shows_layers e (wakes i) h = elim (Option-cases (take_out e.pending i)) [
  | inl n ↦ ground (arith, n, h)
  | inr (p, s) ↦ ground (arith, s, h)
]

run-shows_layers :
    (e : Engine) (xs : List Event)
    → shows_layers e.transition ≡ true
    → shows_layers (run e xs).transition ≡ true
unfolding run
run-shows_layers e [] h = h
run-shows_layers e (x ∷ xs) h = run-shows_layers (step e x) xs (step-shows_layers e x h)

-- However often mixes interrupt one another, in every run from an engine without a transition, an underlay has one
-- layer to eight, each with an alpha above 0 and at most 1.
pub run-underlay :
    (e : Engine) (xs : List Event) (t : Transition) (layers : List FrozenLayer)
    → e.transition ≡ none
    → (run e xs).transition ≡ some t
    → t.underlay ≡ some layers
    → (1 ≤ length layers) × (length layers ≤ 8) × (all_visible layers ≡ true)
run-underlay e xs t layers n r u =
    let h = run-shows_layers e xs (ap shows_layers n) in
    let k : layered (some layers) ≡ true = sym (ap shows_layers r ∙ ap layered u) ∙ h in
    ground (arith, k)
