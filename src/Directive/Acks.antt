-- ===== src/Directive/Acks.antt =====
-- Which directives of directive.rs are acknowledged, and what one that fails leaves behind.
use nbe.Prelude.{
  ℕ, ◌≡◌, refl, ap, arith, Bool, true, false, ◌&&◌, ◌||◌, not, Option, none, some, List, [], ◌∷◌,
  ◌++◌, if◌then◌else◌,
}
use Prim.Native.String.{String}
use nbe.Clock.{stop}
use nbe.Directive.{
  Engine, applied_state_version, DirectiveError, forbidden_state, Stopped, Command, RecallTarget,
  named, nothing, absent, TakePayload, show_start, show_stop, record_stop, stream_stop, take,
  fallback, overlay, marker_add, recall, ignored,
}
use nbe.Directive.Takes.{
  apply_take, on_fallback, on_recall, on_overlay, on_marker_add, put_on_air, time_end, clear_view,
  replace_overlays, with_overlays,
}
use nbe.Directive.Outputs.{
  Outcome, on_record_stop, on_stream_stop, on_show_stop, close_record, close_stream, quiet_outputs,
  halt, record_active, stream_active, record_error, stream_error, error_if, first_error,
}
use nbe.Directive.Apply.{outcome, handle, apply, acknowledge, settled, is_running}

-- Two states that have told the control plane the same.
pub record SaysAlike (e e' : Engine) : Type 0 where
  pub version : e'.last_applied ≡ e.last_applied
  pub frames : e'.outgoing ≡ e.outgoing

time_end-SaysAlike :
    (e e' : Engine) (r : String) (o : Option ℕ) → SaysAlike e e' → SaysAlike e (time_end e' r o)
unfolding time_end
time_end-SaysAlike e e' r none h = h
time_end-SaysAlike e e' r (some n) h = record { version = h.version; frames = h.frames }

apply_take-SaysAlike :
    (e : Engine) (now : ℕ) (r : Option String) (p : Option TakePayload) (b : Bool)
    → SaysAlike e (outcome e (apply_take e now r p b)).0
unfolding apply_take
apply_take-SaysAlike e now r none b = record { version = refl; frames = refl }
apply_take-SaysAlike e now none (some p) b = record { version = refl; frames = refl }
apply_take-SaysAlike e now (some r) (some p) b =
    time_end-SaysAlike e (put_on_air e now r p b) r p.item_duration_frames
      (unfold put_on_air in record { version = refl; frames = refl })

with_overlays-SaysAlike :
    (e e' : Engine) (now : ℕ) (o : Option (List String))
    → SaysAlike e e'
    → SaysAlike e (with_overlays e' now o)
with_overlays-SaysAlike e e' now none h = h
with_overlays-SaysAlike e e' now (some ids) h =
    unfold replace_overlays in record { version = h.version; frames = h.frames }

on_recall-SaysAlike :
    (e : Engine) (now : ℕ) (t : RecallTarget) (p : Option TakePayload)
    → SaysAlike e (outcome e (on_recall e now t p)).0
unfolding on_recall
on_recall-SaysAlike e now t none = record { version = refl; frames = refl }
on_recall-SaysAlike e now nothing (some p) =
    with_overlays-SaysAlike e (clear_view e now) now p.visible_overlays
      (unfold clear_view in record { version = refl; frames = refl })
on_recall-SaysAlike e now absent (some p) =
    with_overlays-SaysAlike e e now p.visible_overlays (record { version = refl; frames = refl })
on_recall-SaysAlike e now (named r) (some p) =
    unfold apply_take in
    with_overlays-SaysAlike e (time_end (put_on_air e now r p false) r p.item_duration_frames) now
      p.visible_overlays (apply_take-SaysAlike e now (some r) (some p) false)

pub handle-SaysAlike : (e : Engine) (now : ℕ) (c : Command) → SaysAlike e (handle e now c).0
unfolding handle
handle-SaysAlike e now show_start = record { version = refl; frames = refl }
handle-SaysAlike e now (show_stop q f a b) =
    unfold on_show_stop close_record close_stream quiet_outputs halt in ground arith
handle-SaysAlike e now (record_stop r) = unfold on_record_stop close_record in ground arith
handle-SaysAlike e now (stream_stop r) = unfold on_stream_stop close_stream in ground arith
handle-SaysAlike e now (take r p) = apply_take-SaysAlike e now r p true
handle-SaysAlike e now fallback = unfold on_fallback in record { version = refl; frames = refl }
handle-SaysAlike e now (overlay s i f) = unfold on_overlay in ground arith
handle-SaysAlike e now (marker_add n t) = unfold on_marker_add in ground arith
handle-SaysAlike e now (recall t p) = on_recall-SaysAlike e now t p
handle-SaysAlike e now ignored = record { version = refl; frames = refl }

-- A directive that does not fail is acknowledged with its version, once, as the last frame; one that fails is not, and
-- the version last applied stays.
pub apply-acks :
    (e : Engine) (now version : ℕ) (c : Command)
    → let (e', error) = apply e now version c in
      (error ≡ none
        → (e'.last_applied ≡ version)
          × (e'.outgoing ≡ e.outgoing ++ (applied_state_version version ∷ [])))
      × ((x : DirectiveError)
          → error ≡ some x
          → (e'.last_applied ≡ e.last_applied) × (e'.outgoing ≡ e.outgoing))
unfolding apply acknowledge
apply-acks e now version c = go (handle e now c) (handle-SaysAlike e now c)
  where
    go :
        (o : Outcome)
        → SaysAlike e o.0
        → ((settled o version).1 ≡ none
            → ((settled o version).0.last_applied ≡ version)
              × ((settled o version).0.outgoing
                  ≡ e.outgoing ++ (applied_state_version version ∷ [])))
          × ((x : DirectiveError)
              → (settled o version).1 ≡ some x
              → ((settled o version).0.last_applied ≡ e.last_applied)
                × ((settled o version).0.outgoing ≡ e.outgoing))
    go (e', none) h = (
      λ n. (refl, ap (λ os. os ++ (applied_state_version version ∷ [])) h.frames),
      λ x n. absurd (ground arith),
    )
    go (e', some y) h = (λ n. absurd (ground arith), λ x n. (h.version, h.frames))

-- `show.stop` answers that the state forbids it exactly where an output is active and it may neither quiesce nor
-- force, and then changes nothing. Otherwise the clock stands, no transition is left, no decode session is leased and
-- no output is active, and the error is that of the record's close, where it is active, else that of the stream's,
-- where it is active, and none where it forces or nothing is active.
pub on_show_stop-halts :
    (e : Engine) (quiesce force : Bool) (rec str : Stopped)
    → let (e', error) = on_show_stop e quiesce force rec str in
      let refused = (record_active e || stream_active e) && not quiesce && not force in
      let closes =
        first_error
          (error_if (record_active e) (record_error rec))
          (error_if (stream_active e) (stream_error str)) in
      (refused ≡ true → (e' ≡ e) × (error ≡ some forbidden_state))
      × (refused ≡ false
          → (is_running e'.clock ≡ false)
            × (e'.transition ≡ none)
            × (e'.decode_sessions ≡ 0)
            × (record_active e' ≡ false)
            × (stream_active e' ≡ false)
            × (error ≡ (if force then none else closes)))
      × (error ≡ some forbidden_state → refused ≡ true)
unfolding on_show_stop close_record close_stream quiet_outputs halt stop
on_show_stop-halts e quiesce force rec str =
    (λ h. ground arith, λ h. ground arith, λ h. ground arith)
