-- ===== src/Directive/Takes.antt =====
-- What a take, a recall, an overlay and a marker do, directive.rs.
use nbe.Prelude.{
  ℕ, ◌+◌, ◌-◌, ◌%◌, Bool, true, false, ◌&&◌, Option, none, some, List, [], ◌∷◌, ◌++◌, leb, ◌==◌,
  if◌then◌else◌,
}
use Prim.Native.String.{String}
use text.Mathlib.Text.{◌==◌ as str_eq}
use nbe.Clock.{frame_at}
use nbe.Watchdog.{held, engage_fallback, release_fallback}
use nbe.Manifest.{lookup}
use nbe.Record.{add}
use nbe.Directive.{
  TransitionKind, cut, mix, Transition, TakeAudio, TakePayload, OverlayPhase, enter, steady, exit,
  OverlayRuntime, PlaybackTracker, Engine, RecordState, Result, ok, err, invalid, forbidden_state,
  RecallTarget, named, nothing, absent,
}
use nbe.Directive.Transitions.{underlay_for}

abbrev pub unwrap_or {ℓ} : {A : Type ℓ} → Option A → A → A
unwrap_or none d = d
unwrap_or (some a) d = a

-- `master_frame().map(|f| f + 1).unwrap_or(d)`.
unfoldable pub next_frame : Engine → ℕ → ℕ → ℕ
next_frame e now d = elim (frame_at e.clock now) [ none ↦ d | some f ↦ f + 1 ]

-- `PlaybackTracker::begin`.
unfoldable pub begin : PlaybackTracker → String → PlaybackTracker
begin p item = record { item = some item; generation = p.generation + 1 }

-- `PlaybackTracker::clear`.
unfoldable pub clear : PlaybackTracker → PlaybackTracker
clear p = record { item = none; generation = p.generation + 1 }

-- `PlaybackTracker::is_current`.
unfoldable pub is_current : PlaybackTracker → String → ℕ → Bool
is_current p item generation = elim p.item [
  | none ↦ false
  | some i ↦ str_eq i item && p.generation == generation
]

-- `frames as u32`.
abbrev pub as_u32 : ℕ → ℕ
as_u32 n = n % 4294967296

-- `schedule_done` up to the sleep.
unfoldable pub schedule_done : Engine → String → ℕ → ℕ → Engine
schedule_done e item frames generation = record e {
  pending =
      e.pending
      ++ (record {
        item_ref = item;
        duration_frames = frames;
        rate = e.clock.house_rate;
        generation = generation;
      }
          ∷ []);
}

abbrev pub kind_of : Option String → TransitionKind
kind_of none = cut
kind_of (some t) = if str_eq t "mix" then mix else cut

abbrev pub default_frames : TransitionKind → ℕ
default_frames mix = 15
default_frames cut = 0

abbrev pub frames_of : TakePayload → ℕ
frames_of p = unwrap_or p.transition_duration_frames (default_frames (kind_of p.transition))

abbrev pub mode_of : Option TakeAudio → String
mode_of none = "follow"
mode_of (some a) = unwrap_or a.transition "follow"

abbrev pub crossfade_of : TransitionKind → Option TakeAudio → ℕ → ℕ
crossfade_of cut audio frames = 0
crossfade_of mix none frames = frames
crossfade_of mix (some a) frames = unwrap_or a.duration_frames frames

-- The transition that a take starts.
unfoldable pub transition_to : Engine → ℕ → String → TakePayload → Transition
unfolding next_frame
transition_to e now r p =
    let start = next_frame e now 0 in
    record {
      from_item = e.view_item;
      from_start_frame = e.view_item_start_frame;
      to_item = r;
      kind = kind_of p.transition;
      duration_frames = frames_of p;
      start_frame = start;
      underlay = underlay_for (kind_of p.transition) e.transition (start - 1);
    }

-- The View, the slate, the clip bus and the generation of `apply_take`.
unfoldable pub put_on_air : Engine → ℕ → String → TakePayload → Bool → Engine
unfolding transition_to begin next_frame
put_on_air e now r p release_held =
    let start = next_frame e now 0 in
    record e {
      transition = some (transition_to e now r p);
      view_item = some r;
      view_item_start_frame = start;
      slate = if release_held then release_fallback e.slate held else e.slate;
      audio_commands =
          e.audio_commands
          ++ (record {
            item_ref = r;
            t0 = start;
            mode = mode_of p.audio;
            crossfade_frames = crossfade_of (kind_of p.transition) p.audio (frames_of p);
          }
              ∷ []);
      playing = begin e.playing r;
    }

-- A timed item's end.
unfoldable pub time_end : Engine → String → Option ℕ → Engine
unfolding schedule_done
time_end e r none = e
time_end e r (some frames) = schedule_done e r (as_u32 frames) e.playing.generation

unfoldable pub apply_take : Engine → ℕ → Option String → Option TakePayload → Bool → Result Engine
unfolding put_on_air time_end
apply_take e now item_ref none release_held = err invalid
apply_take e now none (some p) release_held = ok e
apply_take e now (some r) (some p) release_held =
    ok (time_end (put_on_air e now r p release_held) r p.item_duration_frames)

unfoldable pub on_fallback : Engine → Engine
on_fallback e = record e { slate = engage_fallback e.slate held; view_item = none }

abbrev pub insert {ℓ} : {A : Type ℓ} → String → A → List (String × A) → List (String × A)
insert k v [] = (k, v) ∷ []
insert k v ((j, w) ∷ m) =
    let rest = insert k v m in if str_eq j k then (k, v) ∷ m else (j, w) ∷ rest

abbrev pub steadied : ℕ → List String → List (String × OverlayRuntime)
steadied now [] = []
steadied now (id ∷ ids) =
    insert id (record { on_air = true; anim_start = now; duration_frames = 1; phase = steady })
      (steadied now ids)

unfoldable pub replace_overlays : Engine → List String → ℕ → Engine
replace_overlays e ids now = record e { overlays = steadied now ids }

unfoldable pub clear_view : Engine → ℕ → Engine
unfolding clear next_frame
clear_view e now =
    let start = next_frame e now 0 in
    record e {
      transition = none;
      view_item = none;
      view_item_start_frame = start;
      playing = clear e.playing;
      audio_commands =
          e.audio_commands
          ++ (record { item_ref = ""; t0 = start; mode = "follow"; crossfade_frames = 0 } ∷ []);
    }

abbrev pub with_overlays : Engine → ℕ → Option (List String) → Engine
with_overlays e now none = e
with_overlays e now (some ids) = replace_overlays e ids (unwrap_or (frame_at e.clock now) 0)

abbrev pub map_ok : Result Engine → (Engine → Engine) → Result Engine
map_ok (ok e) f = ok (f e)
map_ok (err x) f = err x

abbrev pub recalled : Engine → ℕ → RecallTarget → TakePayload → Result Engine
recalled e now (named r) p = apply_take e now (some r) (some p) false
recalled e now nothing p = ok (clear_view e now)
recalled e now absent p = ok e

unfoldable pub on_recall : Engine → ℕ → RecallTarget → Option TakePayload → Result Engine
unfolding apply_take clear_view replace_overlays
on_recall e now target none = err invalid
on_recall e now target (some p) =
    map_ok (recalled e now target p) (λ e'. with_overlays e' now p.visible_overlays)

abbrev pub is_exit : OverlayPhase → Bool
is_exit exit = true
is_exit enter = false
is_exit steady = false

-- What a show or a hide makes of an overlay: its new runtime, where it changes.
abbrev pub overlay_after : Bool → Option OverlayRuntime → ℕ → ℕ → Option OverlayRuntime
overlay_after true none start frames =
    some (record { on_air = true; anim_start = start; duration_frames = frames; phase = enter })
overlay_after true (some ov) start frames =
    if ov.on_air && (if is_exit ov.phase then false else true)
    then none
    else some
        (record { on_air = true; anim_start = start; duration_frames = frames; phase = enter })
overlay_after false none start frames = none
overlay_after false (some ov) start frames =
    if is_exit ov.phase
    then none
    else some (record { on_air = true; anim_start = start; duration_frames = frames; phase = exit })

-- The animation's length: the payload's where it is 1 or more, else the package's, else 1.
abbrev pub overlay_frames : Engine → Bool → String → Option ℕ → ℕ
overlay_frames e show id (some n) =
    if leb 1 n then n else unwrap_or (lookup (if show then e.enter_frames else e.exit_frames) id) 1
overlay_frames e show id none =
    unwrap_or (lookup (if show then e.enter_frames else e.exit_frames) id) 1

unfoldable pub on_overlay : Engine → ℕ → Bool → Option String → Option ℕ → Engine
unfolding next_frame
on_overlay e now show none override_frames = e
on_overlay e now show (some id) override_frames =
    elim (overlay_after show (lookup e.overlays id) (next_frame e now 1)
      (overlay_frames e show id override_frames)) [
        | none ↦ e
        | some ov ↦ record e { overlays = insert id ov e.overlays }
      ]

unfoldable pub on_marker_add : Engine → ℕ → Option String → Option String → Result Engine
unfolding next_frame
on_marker_add e now name timecode = elim e.record_state [
  | RecordState.idle ↦ err forbidden_state
  | RecordState.recording ↦ elim name [
    | none ↦ err invalid
    | some n ↦
        if str_eq n ""
        then err invalid
        else ok (record e {
          markers =
              add e.markers (record { name = n; frame = next_frame e now 0; timecode = timecode });
        })
  ]
]
