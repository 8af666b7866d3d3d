-- ===== src/Effects.antt =====
-- The static cycle check of automation rules, crates/nbe-core/src/automation_effects.rs, with the rule of
-- crates/nbe-core/src/manifest.rs. `command_effects`, parsed from a data file, is the parameter `effects`; the
-- texts of the reasons are constructors.
pub mod Search
pub mod Graph
pub mod Visit
pub mod Acyclic
pub mod Rules
mod Tests
use nbe.Prelude.{
  ℕ, zero, suc, ◌+◌, Bool, true, false, ◌&&◌, Option, none, some, ◌>>=◌, List, [], ◌∷◌, map,
  if◌then◌else◌,
}
use nbe.Manifest.{
  Value, Object, AutomationTriggerKind, AutomationTrigger, AutomationAction, AutomationRule, lookup,
  contains, as_str, text_at, media_end_kind, media_start_kind, timer_kind, time_of_day_kind,
  audio_level_kind, hotkey_kind, rss_keyword_kind, stream_health_kind, state_change_kind,
}
use Prim.Native.String.{String}
use text.Mathlib.Text.{◌==◌}
use nbe.Effects.Search.{Outcome, exhausted, found, nothing, search}

pub record CommandEffects : Type 0 where
  pub state_change : List String
  pub media_start : Bool
  pub deferred : List String
  pub item : Option String

abbrev pub Table : Type 0
Table = List (String × CommandEffects)

-- Why an action can raise a trigger, with the command and, of a state change, the field.
pub data Reason : Type 0 where
  changes : String → String → Reason
  puts_on_air schedules_end starts_clock moves_transport moves_level : String → Reason

-- `then(|| why)`.
abbrev pub when : Bool → Reason → Option Reason
when true why = some why
when false why = none

abbrev pub item_can_match : Option String → Option String → Bool
item_can_match (some want) (some got) = want == got
item_can_match (some want) none = true
item_can_match none got = true

-- The match on the kind of `to`'s trigger.
abbrev pub raises :
    String → CommandEffects → Bool → AutomationTrigger → AutomationTriggerKind → Option Reason
raises cmd eff matches to state_change_kind =
    text_at to.params "field"
    >>= (λ field. when (contains eff.state_change field) (changes cmd field))
raises cmd eff matches to media_start_kind = when (eff.media_start && matches) (puts_on_air cmd)
raises cmd eff matches to media_end_kind =
    when (contains eff.deferred "mediaEnd" && matches) (schedules_end cmd)
raises cmd eff matches to timer_kind = when (contains eff.deferred "timer") (starts_clock cmd)
raises cmd eff matches to stream_health_kind =
    when (contains eff.deferred "streamHealth") (moves_transport cmd)
raises cmd eff matches to audio_level_kind =
    when (contains eff.deferred "audioLevel") (moves_level cmd)
raises cmd eff matches to hotkey_kind = none
raises cmd eff matches to time_of_day_kind = none
raises cmd eff matches to rss_keyword_kind = none

unfoldable pub edge : Table → AutomationRule → AutomationRule → Option Reason
edge effects from to =
    let cmd = from.action.command in
    lookup effects cmd >>= (λ eff.
      let named_item = eff.item >>= (λ k. text_at from.action.payload k) in
      raises cmd eff (item_can_match (text_at to.trigger.params "itemRef") named_item) to.trigger
        to.trigger.kind)

pub record CycleStep : Type 0 where
  pub rule : String
  pub because : Reason

-- The `filter_map` over the rules, numbered from `b` on.
unfoldable pub edges_from : Table → AutomationRule → ℕ → List AutomationRule → List (ℕ × Reason)
unfolding edge
edges_from effects from b [] = []
edges_from effects from b (to ∷ rules) =
    let rest = edges_from effects from (suc b) rules in
    elim (edge effects from to) [ none ↦ rest | some why ↦ (b, why) ∷ rest ]

unfoldable pub adjacency : Table → List AutomationRule → List (List (ℕ × Reason))
unfolding edges_from
adjacency effects rules = map (λ from. edges_from effects from 0 rules) rules

abbrev pub id_at : List AutomationRule → ℕ → String
id_at [] i = ""
id_at (r ∷ rs) zero = r.id
id_at (r ∷ rs) (suc i) = id_at rs i

abbrev pub step : List AutomationRule → ℕ × Reason → CycleStep
step rules (i, why) = record { rule = id_at rules i; because = why }

-- `exhausted` does not occur: Rules proves it.
abbrev pub reported : List AutomationRule → Outcome Reason → Option (List CycleStep)
reported rules exhausted = none
reported rules (found c) = some (map (step rules) c)
reported rules (nothing color stack) = none

unfoldable pub find_cycle : Table → List AutomationRule → Option (List CycleStep)
unfolding search adjacency
find_cycle effects rules = reported rules (search (adjacency effects rules))
