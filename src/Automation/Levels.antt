-- ===== src/Automation/Levels.antt =====
-- The `audioLevel` trigger of automation.rs: its parameters, and the watches the engine evaluates.
use nbe.Prelude.{
  ℕ, Bool, true, false, ◌&&◌, ◌||◌, Option, none, some, List, [], ◌∷◌, ◌++◌, leb, ◌==◌,
  if◌then◌else◌,
}
use Prim.Native.String.{String}
use Prim.Native.Char.{code}
use text.Mathlib.Text.{◌==◌ as str_eq}
use nbe.Manifest.{
  Number, Value, Object, AutomationRule, AutomationTriggerKind, null, boolean, number, string,
  nested, lookup, contains, text_at, media_end_kind, media_start_kind, timer_kind, time_of_day_kind,
  audio_level_kind, hotkey_kind, rss_keyword_kind, stream_health_kind, state_change_kind,
}
use nbe.Automation.{
  CrossingDirection, rising, falling, is_audio_bus, is_threshold, same_number, AudioLevelWatch,
  Reason, needs_params, unknown_param, needs_bus, unknown_bus, needs_threshold, threshold_outside,
  bad_direction, ParamError, Result, ok, err, ◌>>=◌, check, all_keys,
}

abbrev pub is_audio_level : AutomationTriggerKind → Bool
is_audio_level audio_level_kind = true
is_audio_level media_end_kind = false
is_audio_level media_start_kind = false
is_audio_level timer_kind = false
is_audio_level time_of_day_kind = false
is_audio_level hotkey_kind = false
is_audio_level rss_keyword_kind = false
is_audio_level stream_health_kind = false
is_audio_level state_change_kind = false

abbrev pub codes : String → List ℕ
codes String.[] = []
codes (String.◌∷◌ c s) = code c ∷ codes s

-- The characters that `str::trim` takes off: Unicode's White_Space.
abbrev pub is_white : ℕ → Bool
is_white c =
    (leb 9 c && leb c 13)
    || c == 32
    || c == 133
    || c == 160
    || c == 5760
    || (leb 8192 c && leb c 8202)
    || c == 8232
    || c == 8233
    || c == 8239
    || c == 8287
    || c == 12288

-- `trim().is_empty()`.
abbrev pub is_blank : List ℕ → Bool
is_blank [] = true
is_blank (c ∷ cs) = is_white c && is_blank cs

abbrev pub get_bus : Object → Result Reason String
get_bus params = elim (text_at (some params) "bus") [
  | none ↦ err needs_bus
  | some s ↦ if is_blank (codes s) then err needs_bus else ok s
]

-- `get("thresholdDbfs").and_then(as_f64)`.
abbrev pub as_number : Option Value → Option Number
as_number none = none
as_number (some (number n)) = some n
as_number (some null) = none
as_number (some (boolean b)) = none
as_number (some (string s)) = none
as_number (some nested) = none

abbrev pub get_threshold : Object → Result Reason Number
get_threshold params = elim (as_number (lookup params "thresholdDbfs")) [
  | none ↦ err needs_threshold
  | some n ↦ ok n
]

abbrev pub direction_of : Option Value → Result Reason CrossingDirection
direction_of none = ok rising
direction_of (some (string s)) =
    if str_eq s "rising"
    then ok rising
    else if str_eq s "falling"
    then ok falling
    else err bad_direction
direction_of (some null) = err bad_direction
direction_of (some (boolean b)) = err bad_direction
direction_of (some (number n)) = err bad_direction
direction_of (some nested) = err bad_direction

abbrev pub level_keys : List String
level_keys = "bus" ∷ "thresholdDbfs" ∷ "direction" ∷ []

-- What `audio_level_params` reads from an `audioLevel` rule's parameters.
unfoldable pub read_level : Object → Result Reason AudioLevelWatch
read_level params =
    check (all_keys (contains level_keys) params) unknown_param
    >>= (λ known. get_bus params)
    >>= (λ bus.
        check (is_audio_bus bus) unknown_bus >>= (λ metered. get_threshold params) >>= (λ threshold.
          check (is_threshold threshold) threshold_outside
          >>= (λ inside. direction_of (lookup params "direction"))
          >>= (λ direction.
              ok (record { bus = bus; threshold_dbfs = threshold; direction = direction }))))

unfoldable pub audio_level_params : AutomationRule → Result Reason (Option AudioLevelWatch)
unfolding read_level
audio_level_params rule =
    if is_audio_level rule.trigger.kind
    then elim rule.trigger.params [
      | none ↦ err needs_params
      | some params ↦ read_level params >>= (λ w. ok (some w))
    ]
    else ok none

abbrev pub named {ℓ} : {A : Type ℓ} → AutomationRule → Result Reason A → Result ParamError A
named rule (ok a) = ok a
named rule (err e) = err (record { rule = rule.id; reason = e })

unfoldable pub audio_level_watch : AutomationRule → Result ParamError (Option AudioLevelWatch)
unfolding audio_level_params
audio_level_watch rule = named rule (audio_level_params rule)

abbrev pub same_direction : CrossingDirection → CrossingDirection → Bool
same_direction rising rising = true
same_direction falling falling = true
same_direction rising falling = false
same_direction falling rising = false

-- The derived `==` of a watch.
unfoldable pub same_watch : AudioLevelWatch → AudioLevelWatch → Bool
unfolding same_number
same_watch a b =
    str_eq a.bus b.bus
    && same_number a.threshold_dbfs b.threshold_dbfs
    && same_direction a.direction b.direction

abbrev pub has_watch : List AudioLevelWatch → AudioLevelWatch → Bool
has_watch [] w = false
has_watch (x ∷ xs) w = same_watch x w || has_watch xs w

-- One turn of the loop: the watches and the errors so far.
abbrev pub add_watch :
    List AudioLevelWatch × List ParamError
    → Result ParamError (Option AudioLevelWatch)
    → List AudioLevelWatch × List ParamError
add_watch (ws, es) (ok (some w)) = (if has_watch ws w then ws else ws ++ (w ∷ []), es)
add_watch (ws, es) (ok none) = (ws, es)
add_watch (ws, es) (err e) = (ws, es ++ (e ∷ []))

unfoldable pub watches_from :
    List AudioLevelWatch × List ParamError
    → List AutomationRule
    → List AudioLevelWatch × List ParamError
unfolding audio_level_watch
watches_from so_far [] = so_far
watches_from so_far (rule ∷ rules) = watches_from (add_watch so_far (audio_level_watch rule)) rules

unfoldable pub audio_level_watches : List AutomationRule → List AudioLevelWatch × List ParamError
unfolding watches_from
audio_level_watches rules = watches_from ([], []) rules
