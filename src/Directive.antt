-- ===== src/Directive.antt =====
-- The directives of the control plane, crates/nbe-engine/src/directive.rs, with the transitions of
-- crates/nbe-engine/src/scene.rs and the state of crates/nbe-engine/src/state.rs that they change. A payload stands
-- here as it reads: what `get` and serde find in it. The master frame is the clock's reading when the directive
-- arrives. An alpha is a fraction, which the code holds as an f32: `is_complete` is exact up to 2 ^ 24 frames.
pub mod Transitions
pub mod Takes
pub mod Outputs
pub mod Apply
pub mod Layers
pub mod Underlays
pub mod Ends
pub mod Reports
pub mod Ready
pub mod Live
pub mod Acks
pub mod Tests
use nbe.Prelude.{ℕ, ◌+◌, Bool, Option, none, some, List, [], ◌∷◌}
use Prim.Native.String.{String}
use nbe.Clock.{MasterClock}
use nbe.Watchdog.{EngineState}
use nbe.Record.{Marker}

pub data TransitionKind : Type 0 where
  cut mix : TransitionKind

pub record Fraction : Type 0 where
  pub over : ℕ
  pub under : ℕ

-- One frozen level of the displayed composite.
pub record FrozenLayer : Type 0 where
  pub item : String
  pub alpha : Fraction
  pub t0 : ℕ

-- `underlay` is the list of layers, bottom up.
pub record Transition : Type 0 where
  pub from_item : Option String
  pub from_start_frame : ℕ
  pub to_item : String
  pub kind : TransitionKind
  pub duration_frames : ℕ
  pub start_frame : ℕ
  pub underlay : Option (List FrozenLayer)

pub record TakeAudio : Type 0 where
  pub transition : Option String
  pub duration_frames : Option ℕ

pub record TakePayload : Type 0 where
  pub transition : Option String
  pub transition_duration_frames : Option ℕ
  pub item_duration_frames : Option ℕ
  pub audio : Option TakeAudio
  pub visible_overlays : Option (List String)

pub data OverlayPhase : Type 0 where
  enter steady exit : OverlayPhase

pub record OverlayRuntime : Type 0 where
  pub on_air : Bool
  pub anim_start : ℕ
  pub duration_frames : ℕ
  pub phase : OverlayPhase

-- `PlaybackTracker`: the playing item and the generation.
pub record PlaybackTracker : Type 0 where
  pub item : Option String
  pub generation : ℕ

-- `AudioCommand::TakeItem`, without its sources and its ramp.
pub record TakeItem : Type 0 where
  pub item_ref : String
  pub t0 : ℕ
  pub mode : String
  pub crossfade_frames : ℕ

-- A task of `schedule_done` that sleeps: `duration_frames / rate` seconds.
pub record Timer : Type 0 where
  pub item_ref : String
  pub duration_frames : ℕ
  pub rate : ℕ
  pub generation : ℕ

-- A frame to the control plane. The generation of an end is not on the wire; it names the playback that ended.
pub data EngineFrame : Type 0 where
  applied_state_version : ℕ → EngineFrame
  item_end : String → ℕ → EngineFrame

pub data RecordState : Type 0 where
  idle recording : RecordState

pub data StreamState : Type 0 where
  idle live : StreamState

-- What the modelled directives read and write. A session and a tap are
-- there or not, `decode_sessions` counts the leases, and `outgoing` is oldest first.
pub record Engine : Type 0 where
  pub clock : MasterClock
  pub slate : EngineState
  pub view_item : Option String
  pub view_item_start_frame : ℕ
  pub transition : Option Transition
  pub overlays : List (String × OverlayRuntime)
  pub enter_frames : List (String × ℕ)
  pub exit_frames : List (String × ℕ)
  pub playing : PlaybackTracker
  pub audio_commands : List TakeItem
  pub record_state : RecordState
  pub record_session : Bool
  pub record_tap : Bool
  pub stream_state : StreamState
  pub stream_session : Bool
  pub stream_tap_selection : Bool
  pub stream_tap : Bool
  pub decode_sessions : ℕ
  pub markers : List Marker
  pub last_applied : ℕ
  pub pending : List Timer
  pub outgoing : List EngineFrame

-- `DirectiveError`, without its texts.
pub data DirectiveError : Type 0 where
  no_package fallback_missing io invalid forbidden_state no_hardware_encoder timeout unsupported
        disk :
      DirectiveError

pub data Result {ℓ} (A : Type ℓ) : Type ℓ where
  ok : A → Result A
  err : DirectiveError → Result A

pub data RecallTarget : Type 0 where
  named : String → RecallTarget
  nothing absent : RecallTarget

-- The errors of a session's stop, without their texts; of those of the stream's only that there is one is read.
pub data SessionError : Type 0 where
  no_encoder timed_out disk_failed record_failed : SessionError

-- What the stop of a session returns; its thread is not modelled.
pub data Stopped : Type 0 where
  finished : Stopped
  failed : SessionError → Stopped

-- The commands modelled, each with what it reads of its target and its payload. `take` is also `view.cut`; `ignored`
-- is a command without an effect on the engine, the last arm of the match.
pub data Command : Type 0 where
  show_start : Command
  show_stop : Bool → Bool → Stopped → Stopped → Command
  record_stop : Stopped → Command
  stream_stop : Stopped → Command
  take : Option String → Option TakePayload → Command
  fallback : Command
  overlay : Bool → Option String → Option ℕ → Command
  marker_add : Option String → Option String → Command
  recall : RecallTarget → Option TakePayload → Command
  ignored : Command
