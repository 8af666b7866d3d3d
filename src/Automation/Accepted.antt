-- ===== src/Automation/Accepted.antt =====
-- What a rule that `validate_rule` of automation.rs accepts can be relied on to be.
use nbe.Prelude.{
  ℕ, ◌+◌, ◌*◌, ◌==◌, Bool-cases, ◌/◌, ◌%◌, ◌<◌, ◌≡◌, refl, ap, ◌∙◌, arith, Bool, true, ◌&&◌,
  Option-cases, ◌⊎◌, inl, inr, Option, some, List, [], ◌∷◌, ◌++◌, leb,
}
use Prim.Native.String.{String}
use text.Mathlib.Text.{◌==◌ as str_eq}
use nbe.Manifest.{
  Number, Value, Object, AutomationRule, audio_level_kind, state_change_kind, lookup, text_at,
}
use nbe.Automation.{
  AudioLevelWatch, is_audio_bus, is_threshold, Result, ok, err, RuleRefs, is_state_field, in_domain,
  contains_key,
}
use nbe.Automation.Levels.{as_number, read_level, audio_level_params, audio_level_watch}
use nbe.Automation.Triggers.{
  split, two_to, are_parts, params_of, is_time_of_day, state_change_reason, trigger_reason,
  validate_rule,
}

-- A level in dBFS that is less than 0 and more than -120, or 0.
abbrev pub IsInside : Number → Type 0
IsInside t = ((t.negative ≡ true) × (t.numerator < 120 * (t.below + 1))) ⊎ (t.numerator ≡ 0)

is_threshold-IsInside : (t : Number) → is_threshold t ≡ true → IsInside t
unfolding is_threshold
is_threshold-IsInside t h = elim (Bool-cases (t.numerator == 0)) [
  | inl z ↦ inr (ground (arith, z))
  | inr z ↦ inl (ground (arith, h, z), ground (arith, h, z))
]

-- A watch that the audio graph can cross, of the bus and the threshold that the parameters name.
pub record IsMetered (params : Object) (w : AudioLevelWatch) : Type 0 where
  pub metered : is_audio_bus w.bus ≡ true
  pub inside : IsInside w.threshold_dbfs
  pub bus_named : text_at (some params) "bus" ≡ some w.bus
  pub threshold_named : as_number (lookup params "thresholdDbfs") ≡ some w.threshold_dbfs

read_level-IsMetered :
    (params : Object) (w : AudioLevelWatch) → read_level params ≡ ok w → IsMetered params w
unfolding read_level
read_level-IsMetered params w h = record {
  metered = ground (arith, h);
  inside = is_threshold-IsInside w.threshold_dbfs (ground (arith, h));
  bus_named = ground (arith, h);
  threshold_named = ground (arith, h);
}

Result-cases : {E A : Type 0} (r : Result E A) → ((a : A) × (r ≡ ok a)) ⊎ ((e : E) × (r ≡ err e))
Result-cases (ok a) = inl (a, refl)
Result-cases (err e) = inr (e, refl)

audio_level_params-IsMetered :
    (rule : AutomationRule) (o : Option AudioLevelWatch)
    → rule.trigger.kind ≡ audio_level_kind
    → audio_level_params rule ≡ ok o
    → (w : AudioLevelWatch) × (audio_level_params rule ≡ ok (some w))
      × IsMetered (params_of rule.trigger.params) w
unfolding audio_level_params
audio_level_params-IsMetered rule o k h = elim (Option-cases rule.trigger.params) [
  | inl missing ↦ absurd (ground arith)
  | inr (params, given) ↦ elim (Result-cases (read_level params)) [
    | inl (w, e) ↦ (w, ground arith, rw given (read_level-IsMetered params w e))
    | inr (e, r) ↦ absurd (ground arith)
  ]
]

validate_rule-trigger_reason :
    (rule : AutomationRule) (refs : RuleRefs)
    → validate_rule rule refs ≡ ok tt
    → trigger_reason rule refs ≡ ok tt
unfolding validate_rule
validate_rule-trigger_reason rule refs h = ground arith

-- A rule with an `audioLevel` trigger that `validate_rule` accepts is one that the engine watches: its parameters
-- give a watch, of the bus and the threshold that they name, the bus metered and the threshold in dBFS more than -120
-- and less than 0, or 0.
pub validate_rule-audio_level_watch :
    (rule : AutomationRule) (refs : RuleRefs)
    → rule.trigger.kind ≡ audio_level_kind
    → validate_rule rule refs ≡ ok tt
    → (w : AudioLevelWatch) × (audio_level_watch rule ≡ ok (some w))
      × IsMetered (params_of rule.trigger.params) w
unfolding trigger_reason audio_level_watch
validate_rule-audio_level_watch rule refs k h =
    let t = validate_rule-trigger_reason rule refs h in
    elim (Result-cases (audio_level_params rule)) [
      | inl (o, e) ↦ let (w, r, m) = audio_level_params-IsMetered rule o k e in (w, rw r refl, m)
      | inr (e, r) ↦ absurd (ground arith)
    ]

-- What an accepted state change names: a state field, whose `from` and `to` lie in its domain, with an `itemRef`
-- exactly where the field is `itemState`.
pub record IsStateChange (params : Object) (refs : RuleRefs) : Type 0 where
  pub field : String
  pub named : text_at (some params) "field" ≡ some field
  pub known : is_state_field field ≡ true
  pub inside_from : (v : Value) → lookup params "from" ≡ some v → in_domain field v refs ≡ true
  pub inside_to : (v : Value) → lookup params "to" ≡ some v → in_domain field v refs ≡ true
  pub refers : str_eq field "itemState" ≡ contains_key params "itemRef"

state_change_reason-IsStateChange :
    (params : Object) (refs : RuleRefs)
    → state_change_reason params refs ≡ ok tt
    → IsStateChange params refs
unfolding state_change_reason
state_change_reason-IsStateChange params refs h =
    elim (Option-cases (text_at (some params) "field")) [
      | inl missing ↦ absurd (ground arith)
      | inr (field, e) ↦ record {
        field = field;
        named = e;
        known = ground arith;
        inside_from = λ v l. ground arith;
        inside_to = λ v l. ground arith;
        refers = ground arith;
      }
    ]

-- A rule with a `stateChange` trigger that `validate_rule` accepts names a state field, with its `from` and `to`, where it
-- has them, in that field's domain, and with an `itemRef` exactly where the field is `itemState`.
pub validate_rule-IsStateChange :
    (rule : AutomationRule) (refs : RuleRefs)
    → rule.trigger.kind ≡ state_change_kind
    → validate_rule rule refs ≡ ok tt
    → IsStateChange (params_of rule.trigger.params) refs
unfolding trigger_reason
validate_rule-IsStateChange rule refs k h =
    let t = validate_rule-trigger_reason rule refs h in
    state_change_reason-IsStateChange (params_of rule.trigger.params) refs (ground arith)

abbrev pub digits : ℕ → List ℕ
digits n = (b'0' + n / 10) ∷ (b'0' + n % 10) ∷ []

two_to-digits : (top n : ℕ) → n < 100 → two_to top (digits n) ≡ leb n top
two_to-digits top n h = ground arith

split-digits :
    (n : ℕ) (rest : List ℕ)
    → n < 100
    → split b':' (digits n ++ (b':' ∷ rest)) ≡ digits n ∷ split b':' rest
split-digits n rest h = ground arith

split-digits_end : (n : ℕ) → n < 100 → split b':' (digits n) ≡ digits n ∷ []
split-digits_end n h = ground arith

-- Of the texts of two or three numbers below 100, in two digits each with colons between them, exactly those with
-- hours to 23 and minutes and seconds to 59 are a time of day.
pub is_time_of_day-digits :
    (h m s : ℕ)
    → h < 100
    → m < 100
    → s < 100
    → (is_time_of_day (digits h ++ (b':' ∷ digits m)) ≡ (leb h 23 && leb m 59))
      × (is_time_of_day (digits h ++ (b':' ∷ digits m) ++ (b':' ∷ digits s))
          ≡ (leb h 23 && leb m 59 && leb s 59))
unfolding is_time_of_day
is_time_of_day-digits h m s hh hm hs = (
  ap are_parts (split-digits h (digits m) hh ∙ ap (λ ps. digits h ∷ ps) (split-digits_end m hm))
      ∙ minutes true,
  ap are_parts (
        split-digits h (digits m ++ (b':' ∷ digits s)) hh
        ∙ ap (λ ps. digits h ∷ ps)
            (split-digits m (digits s) hm ∙ ap (λ ps. digits m ∷ ps) (split-digits_end s hs)))
      ∙ ground (arith, two_to-digits 23 h hh, two_to-digits 59 m hm, two_to-digits 59 s hs),
)
  where
    minutes : Bool → (two_to 23 (digits h) && two_to 59 (digits m)) ≡ (leb h 23 && leb m 59)
    minutes b = ground (arith, two_to-digits 23 h hh, two_to-digits 59 m hm)
