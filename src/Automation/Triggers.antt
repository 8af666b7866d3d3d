-- ===== src/Automation/Triggers.antt =====
-- `trigger_reason`, `condition_reason` and `validate_rule` of automation.rs.
use nbe.Prelude.{
  ℕ, ◌+◌, ◌-◌, ◌*◌, Bool, false, not, ◌&&◌, Option, none, some, List, [], ◌∷◌, leb, ◌==◌,
  if◌then◌else◌,
}
use Prim.Native.String.{String}
use text.Mathlib.Text.{◌==◌ as str_eq}
use nbe.Manifest.{
  Number, Value, Object, AutomationRule, AutomationTriggerKind, lookup, contains, text_at,
  media_end_kind, media_start_kind, timer_kind, time_of_day_kind, audio_level_kind, hotkey_kind,
  rss_keyword_kind, stream_health_kind, state_change_kind,
}
use nbe.Automation.{
  is_positive, Reason, not_an_item, needs_at_ms, needs_at, not_a_binding, not_a_hotkey, no_feed,
  needs_state, unknown_field, needs_item_ref, stray_item_ref, outside_domain, needs_equals,
  ParamError, Result, ok, err, ◌>>=◌, Check, check, RuleRefs, is_state_field, text_in, in_domain,
  only_keys, contains_key,
}
use nbe.Automation.Levels.{audio_level_params, named, codes, as_number}

-- `split(':')`.
abbrev cons_first : ℕ → List (List ℕ) → List (List ℕ)
cons_first c [] = (c ∷ []) ∷ []
cons_first c (p ∷ ps) = (c ∷ p) ∷ ps

abbrev pub split : ℕ → List ℕ → List (List ℕ)
split sep [] = [] ∷ []
split sep (c ∷ cs) = let rest = split sep cs in if c == sep then [] ∷ rest else cons_first c rest

abbrev pub is_digit : ℕ → Bool
is_digit c = leb b'0' c && leb c b'9'

-- Two digits, which parse to a number of at most `top`.
abbrev pub two_to : ℕ → List ℕ → Bool
two_to top [] = false
two_to top (a ∷ []) = false
two_to top (a ∷ b ∷ []) = is_digit a && is_digit b && leb ((a - b'0') * 10 + (b - b'0')) top
two_to top (a ∷ b ∷ c ∷ rest) = false

abbrev pub are_parts : List (List ℕ) → Bool
are_parts [] = false
are_parts (h ∷ []) = false
are_parts (h ∷ m ∷ []) = two_to 23 h && two_to 59 m
are_parts (h ∷ m ∷ s ∷ []) = two_to 23 h && two_to 59 m && two_to 59 s
are_parts (h ∷ m ∷ s ∷ p ∷ ps) = false

unfoldable pub is_time_of_day : List ℕ → Bool
is_time_of_day cs = are_parts (split b':' cs)

abbrev pub params_of : Option Object → Object
params_of none = []
params_of (some o) = o

abbrev at_time : Option String → Bool
at_time none = false
at_time (some s) = is_time_of_day (codes s)

abbrev at_ms : Option Number → Bool
at_ms none = false
at_ms (some n) = is_positive n

abbrev pub is_item : RuleRefs → Option Value → Bool
is_item refs none = false
is_item refs (some v) = text_in refs.items v

abbrev media_reason : Object → RuleRefs → Check
media_reason params refs = only_keys params ("itemRef" ∷ []) >>= (λ known.
    if contains_key params "itemRef"
    then check (is_item refs (lookup params "itemRef")) not_an_item
    else ok tt)

abbrev hotkey_reason : Object → RuleRefs → Check
hotkey_reason params refs = only_keys params ("bindingId" ∷ []) >>= (λ known.
    elim (text_at (some params) "bindingId") [
      | none ↦ err not_a_binding
      | some id ↦ elim (lookup refs.bindings id) [
        | none ↦ err not_a_binding
        | some kind ↦ elim kind [
          | none ↦ err not_a_hotkey
          | some k ↦ check (str_eq k "hotkey") not_a_hotkey
        ]
      ]
    ])

abbrev health_states : List String
health_states = "live" ∷ "reconnecting" ∷ "closed" ∷ []

abbrev text_is_in : List String → Option String → Bool
text_is_in set none = false
text_is_in set (some s) = contains set s

-- `itemRef` of a field: `itemState` needs one that names an item, and no other field takes one.
abbrev pub item_ref_reason : String → Object → RuleRefs → Check
item_ref_reason field o refs =
    if str_eq field "itemState"
    then check (is_item refs (lookup o "itemRef")) needs_item_ref
    else check (not (contains_key o "itemRef")) stray_item_ref

-- A `from` or a `to`, where there is one.
abbrev pub end_reason : String → RuleRefs → Option Value → Check
end_reason field refs none = ok tt
end_reason field refs (some v) = check (in_domain field v refs) outside_domain

-- `field`, one of the state fields.
abbrev pub field_of : Object → Result Reason String
field_of o = elim (text_at (some o) "field") [
  | none ↦ err unknown_field
  | some f ↦ if is_state_field f then ok f else err unknown_field
]

unfoldable pub state_change_reason : Object → RuleRefs → Check
state_change_reason params refs =
    only_keys params ("field" ∷ "itemRef" ∷ "from" ∷ "to" ∷ [])
    >>= (λ known. field_of params)
    >>= (λ field.
        item_ref_reason field params refs
        >>= (λ item. end_reason field refs (lookup params "from"))
        >>= (λ from. end_reason field refs (lookup params "to")))

abbrev reason_for : AutomationTriggerKind → Object → AutomationRule → RuleRefs → Check
reason_for media_end_kind params rule refs = media_reason params refs
reason_for media_start_kind params rule refs = media_reason params refs
reason_for timer_kind params rule refs =
    only_keys params ("atMs" ∷ [])
    >>= (λ known. check (at_ms (as_number (lookup params "atMs"))) needs_at_ms)
reason_for time_of_day_kind params rule refs =
    only_keys params ("at" ∷ [])
    >>= (λ known. check (at_time (text_at (some params) "at")) needs_at)
reason_for audio_level_kind params rule refs = audio_level_params rule >>= (λ w. ok tt)
reason_for hotkey_kind params rule refs = hotkey_reason params refs
reason_for rss_keyword_kind params rule refs = err no_feed
reason_for stream_health_kind params rule refs =
    only_keys params ("state" ∷ [])
    >>= (λ known. check (text_is_in health_states (text_at (some params) "state")) needs_state)
reason_for state_change_kind params rule refs = state_change_reason params refs

unfoldable pub trigger_reason : AutomationRule → RuleRefs → Check
unfolding state_change_reason
trigger_reason rule refs = reason_for rule.trigger.kind (params_of rule.trigger.params) rule refs

unfoldable pub condition_reason : Object → RuleRefs → Check
condition_reason c refs =
    only_keys c ("field" ∷ "itemRef" ∷ "equals" ∷ []) >>= (λ known. field_of c) >>= (λ field.
      check (contains_key c "equals") needs_equals >>= (λ has. item_ref_reason field c refs))

abbrev pub conditions_reason : List Object → RuleRefs → Check
conditions_reason [] refs = ok tt
conditions_reason (c ∷ cs) refs = condition_reason c refs >>= (λ holds. conditions_reason cs refs)

unfoldable pub validate_rule : AutomationRule → RuleRefs → Result ParamError (Unit {0})
unfolding trigger_reason condition_reason
validate_rule rule refs =
    named rule (trigger_reason rule refs >>= (λ triggers. conditions_reason rule.conditions refs))
