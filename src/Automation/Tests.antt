-- ===== src/Automation/Tests.antt =====
-- The rule checks' theorems at concrete rules.
use nbe.Prelude.{◌≡◌, refl, true, none, some, [], ◌∷◌}
use nbe.Manifest.{
  Object, AutomationRule, AutomationTriggerKind, audio_level_kind, state_change_kind, number,
  string,
}
use nbe.Automation.{
  AudioLevelWatch, is_audio_bus, is_threshold, is_state_field, in_domain, only_keys, ok, RuleRefs,
}
use nbe.Automation.Levels.{read_level, audio_level_params, audio_level_watch, audio_level_watches}
use nbe.Automation.Triggers.{params_of, state_change_reason, trigger_reason, validate_rule}
use nbe.Automation.Accepted.{IsMetered, validate_rule-audio_level_watch}
use nbe.Automation.Watches.{IsDistinct, IsCovered, refusals, audio_level_watches-IsDistinct}

abbrev rule_of : AutomationTriggerKind → Object → AutomationRule
rule_of kind params = record {
  id = "r";
  trigger = record { kind = kind; params = some params };
  conditions = [];
  action = record { command = "view.cut"; payload = none };
  enabled = true;
}

abbrev loud : AutomationRule
loud = rule_of audio_level_kind (
    ("bus", string "mic")
    ∷ ("thresholdDbfs", number (record { negative = true; numerator = 20; below = 0 }))
    ∷ [])

abbrev went_live : AutomationRule
went_live = rule_of state_change_kind (("field", string "streamState") ∷ ("to", string "live") ∷ [])

abbrev refs : RuleRefs
refs = record { items = []; scenes = []; bindings = [] }

validate_rule-loud : validate_rule loud refs ≡ ok tt
unfolding validate_rule trigger_reason audio_level_params read_level is_audio_bus is_threshold
validate_rule-loud = refl

validate_rule-went_live : validate_rule went_live refs ≡ ok tt
unfolding validate_rule trigger_reason state_change_reason only_keys is_state_field in_domain
validate_rule-went_live = refl

validate_rule-audio_level_watch_example :
    (w : AudioLevelWatch) × (audio_level_watch loud ≡ ok (some w))
    × IsMetered (params_of loud.trigger.params) w
validate_rule-audio_level_watch_example =
    validate_rule-audio_level_watch loud refs refl validate_rule-loud

audio_level_watches-IsDistinct_example :
    let (ws, es) = audio_level_watches (loud ∷ went_live ∷ loud ∷ []) in
    IsDistinct [] ws
    × IsCovered ws (loud ∷ went_live ∷ loud ∷ [])
    × (es ≡ refusals (loud ∷ went_live ∷ loud ∷ []))
audio_level_watches-IsDistinct_example =
    audio_level_watches-IsDistinct (loud ∷ went_live ∷ loud ∷ [])
