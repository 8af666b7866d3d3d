-- ===== src/Directive/Tests.antt =====
-- Directives at concrete states.
use nbe.Prelude.{
  ℕ, ◌+◌, ◌≤◌, ◌≡◌, refl, ◌⊎◌, ◌&&◌, ◌||◌, not, true, false, none, some, List, [], ◌∷◌, ◌++◌,
  length,
}
use Prim.Native.String.{String}
use nbe.Clock.{ClockState, frame_at}
use nbe.Directive.{
  timeout, Engine, applied_state_version, TakePayload, Transition, FrozenLayer, mix, RecordState,
  StreamState, DirectiveError, forbidden_state, finished, timed_out, failed, Command, take,
  fallback,
}
use nbe.Directive.Transitions.{opaque, freeze, underlay_for}
use nbe.Directive.Takes.{next_frame}
use nbe.Directive.Outputs.{on_show_stop, record_active, stream_active}
use nbe.Directive.Apply.{apply, Event, directive, wakes, run, step, wake, is_running}
use nbe.Directive.Acks.{apply-acks, on_show_stop-halts}
use nbe.Directive.Ends.{ends_of}
use nbe.Directive.Reports.{ReportsPlaying, run-ends_of}
use nbe.Directive.Ready.{ends_for}
use nbe.Directive.Live.{take-reports}
use nbe.Directive.Layers.{all_visible}
use nbe.Directive.Underlays.{run-underlay}

abbrev pub on_air_engine : Engine
on_air_engine = record {
  clock = record { house_rate = 30; state = ClockState.running; epoch = some 0 };
  slate = record { fallback_sources = 1; watchdog_trips_total = 0; watchdog_clears_total = 0 };
  view_item = some "intro";
  view_item_start_frame = 0;
  transition = none;
  overlays = [];
  enter_frames = [];
  exit_frames = [];
  playing = record { item = some "intro"; generation = 1 };
  audio_commands = [];
  record_state = RecordState.recording;
  record_session = true;
  record_tap = true;
  stream_state = StreamState.idle;
  stream_session = false;
  stream_tap_selection = false;
  stream_tap = false;
  decode_sessions = 1;
  markers = [];
  last_applied = 4;
  pending = [];
  outgoing = [];
}

abbrev mix_payload : TakePayload
mix_payload = record {
  transition = some "mix";
  transition_duration_frames = some 20;
  item_duration_frames = some 90;
  audio = none;
  visible_overlays = none;
}

-- A mix to "vt" at frame 30, and one to "end" at frame 36 that interrupts it.
abbrev mix_take : String → Command
mix_take r = take (some r) (some mix_payload)

abbrev mixes : List Event
mixes = directive 1000000000 5 (mix_take "vt") ∷ directive 1200000000 6 (mix_take "end") ∷ []

apply-acks_example :
    let (e', error) = apply on_air_engine 1000000000 5 (mix_take "vt") in
    (error ≡ none → (e'.last_applied ≡ 5) × (e'.outgoing ≡ [] ++ (applied_state_version 5 ∷ [])))
    × ((x : DirectiveError) → error ≡ some x → (e'.last_applied ≡ 4) × (e'.outgoing ≡ []))
apply-acks_example = apply-acks on_air_engine 1000000000 5 (mix_take "vt")

on_show_stop-halts_example :
    let (e', error) = on_show_stop on_air_engine true false (failed timed_out) finished in
    let refused =
      (record_active on_air_engine || stream_active on_air_engine) && not true && not false in
    (refused ≡ true → (e' ≡ on_air_engine) × (error ≡ some forbidden_state))
    × (refused ≡ false
        → (is_running e'.clock ≡ false)
          × (e'.transition ≡ none)
          × (e'.decode_sessions ≡ 0)
          × (record_active e' ≡ false)
          × (stream_active e' ≡ false)
          × (error ≡ some timeout))
    × (error ≡ some forbidden_state → refused ≡ true)
on_show_stop-halts_example = on_show_stop-halts on_air_engine true false (failed timed_out) finished

abbrev first_mix : Transition
first_mix = record {
  from_item = some "intro";
  from_start_frame = 0;
  to_item = "vt";
  kind = mix;
  duration_frames = 20;
  start_frame = 31;
  underlay = none;
}

-- Five of the twenty frames of the first mix are drawn, so it leaves "intro" and a quarter of "vt".
abbrev frozen_mix : List FrozenLayer
frozen_mix =
    record { item = "intro"; alpha = opaque; t0 = 0 }
    ∷ record { item = "vt"; alpha = record { over = 5; under = 20 }; t0 = 31 }
    ∷ []

freeze_mix : freeze first_mix 36 ≡ some frozen_mix
unfolding freeze
freeze_mix = refl

abbrev second_mix : Transition
second_mix = record {
  from_item = some "vt";
  from_start_frame = 31;
  to_item = "end";
  kind = mix;
  duration_frames = 20;
  start_frame = 37;
  underlay = some frozen_mix;
}

view_after_mixes : (run on_air_engine mixes).transition ≡ some second_mix
unfolding run frame_at next_frame underlay_for
view_after_mixes = refl

run-underlay_example :
    (1 ≤ length frozen_mix) × (length frozen_mix ≤ 8) × (all_visible frozen_mix ≡ true)
run-underlay_example =
    run-underlay on_air_engine mixes second_mix frozen_mix refl view_after_mixes refl

-- The second mix makes the task of the first one stale; the task of the second one reports.
abbrev mixes_and_wakes : List Event
mixes_and_wakes = mixes ++ (wakes 0 ∷ wakes 0 ∷ [])

ends_after_wakes :
    ((ends_of 2 (run on_air_engine mixes_and_wakes).outgoing ≡ 0)
      × (ends_of 3 (run on_air_engine mixes_and_wakes).outgoing ≡ 1))
unfolding run
ends_after_wakes = (refl, refl)

run-ends_of_example :
    let e = run on_air_engine mixes in (ends_of 3 e.outgoing ≤ 1) × ReportsPlaying e (wake e 1)
run-ends_of_example = run-ends_of on_air_engine mixes 3 1 refl refl

take-reports_example :
    let e =
      run
        (step (run on_air_engine []) (directive 1000000000 5 (mix_take "vt")))
        (directive 1200000000 6 fallback ∷ []) in
    let g = (run on_air_engine []).playing.generation + 1 in
    (ends_for "vt" g e.outgoing ≡ 1) ⊎ ((i : ℕ) × (ends_for "vt" g (wake e i).outgoing ≡ 1))
take-reports_example =
    take-reports on_air_engine [] (directive 1200000000 6 fallback ∷ []) 1000000000 5 90 "vt"
      mix_payload refl refl (unfold run in refl) refl refl
