-- ===== src/Automation.antt =====
-- The reading of automation rules, crates/nbe-core/src/automation.rs: trigger parameters, conditions and the
-- engine's audio level watches. A reason is a constructor and not a text, and does not carry the key or the value
-- that the text names, so the order in which an object's keys are looked at does not show.
pub mod Levels
pub mod Triggers
pub mod Watches
pub mod Accepted
mod Tests
use nbe.Prelude.{
  ℕ, ◌+◌, ◌*◌, Bool, true, false, ◌&&◌, ◌||◌, Option, none, some, List, [], ◌∷◌, ltb, leb, ◌==◌,
  if◌then◌else◌,
}
use Prim.Native.String.{String, len}
use text.Mathlib.Text.{◌==◌ as str_eq, starts_with}
use nbe.Manifest.{
  Number, Value, Object, AutomationRule, null, boolean, number, string, nested, lookup, contains,
}

pub data CrossingDirection : Type 0 where
  rising falling : CrossingDirection

abbrev pub audio_buses : List String
audio_buses = "mic" ∷ "clip" ∷ "music" ∷ "sfx" ∷ "guest" ∷ "master" ∷ "guestReturn" ∷ "ifb" ∷ []

unfoldable pub is_audio_bus : String → Bool
is_audio_bus bus =
    contains audio_buses bus || (starts_with bus "guest:" && ltb (len "guest:") (len bus))

-- `-120 < t && t <= 0`; a zero of either sign is zero.
unfoldable pub is_threshold : Number → Bool
is_threshold t = (t.negative && ltb t.numerator (120 * (t.below + 1))) || t.numerator == 0

-- `ms > 0`; a JSON number is finite.
unfoldable pub is_positive : Number → Bool
is_positive t = if t.negative then false else ltb 0 t.numerator

-- The equality of two f64s that are numbers.
unfoldable pub same_number : Number → Number → Bool
same_number a b =
    if a.numerator == 0
    then b.numerator == 0
    else (if a.negative then b.negative else (if b.negative then false else true))
      && a.numerator * (b.below + 1) == b.numerator * (a.below + 1)

pub record AudioLevelWatch : Type 0 where
  pub bus : String
  pub threshold_dbfs : Number
  pub direction : CrossingDirection

pub data Reason : Type 0 where
  needs_params unknown_param needs_bus unknown_bus needs_threshold threshold_outside bad_direction :
      Reason
  not_an_item needs_at_ms needs_at not_a_binding not_a_hotkey no_feed needs_state : Reason
  unknown_field needs_item_ref stray_item_ref outside_domain needs_equals : Reason

pub record ParamError : Type 0 where
  pub rule : String
  pub reason : Reason

pub data Result {ℓ} (E : Type 0) (A : Type ℓ) : Type ℓ where
  ok : A → Result E A
  err : E → Result E A

infixl 5 ◌>>=◌
abbrev pub ◌>>=◌ {ℓ κ} :
    {E : Type 0} {A : Type ℓ} {B : Type κ} → Result E A → (A → Result E B) → Result E B
ok a >>= f = f a
err e >>= f = err e

abbrev pub Check : Type 0
Check = Result Reason (Unit {0})

abbrev pub check : Bool → Reason → Check
check true reason = ok tt
check false reason = err reason

-- `RuleRefs`. A binding with no trigger has no kind.
pub record RuleRefs : Type 0 where
  pub items : List String
  pub scenes : List String
  pub bindings : List (String × Option String)

abbrev pub state_fields : List String
state_fields =
    "showState" ∷ "viewItem" ∷ "previewItem" ∷ "streamState" ∷ "recordState" ∷ "automationHold"
    ∷ "fallbackActive" ∷ "itemState" ∷ []

unfoldable pub is_state_field : String → Bool
is_state_field field = contains state_fields field

abbrev pub show_states : List String
show_states = "UNLOADED" ∷ "LOADED" ∷ "RUNNING" ∷ "STOPPED" ∷ []

abbrev pub stream_states : List String
stream_states = "idle" ∷ "live" ∷ "held" ∷ []

abbrev pub record_states : List String
record_states = "idle" ∷ "recording" ∷ []

abbrev pub item_states : List String
item_states = "READY" ∷ "ARMED" ∷ "LIVE" ∷ "PLAYING" ∷ "DONE" ∷ "MISSING" ∷ "ERROR" ∷ []

-- `as_str().is_some_and(...)`.
abbrev pub text_in : List String → Value → Bool
text_in set (string s) = contains set s
text_in set null = false
text_in set (boolean b) = false
text_in set (number n) = false
text_in set nested = false

abbrev pub is_null : Value → Bool
is_null null = true
is_null (boolean b) = false
is_null (number n) = false
is_null (string s) = false
is_null nested = false

abbrev pub is_boolean : Value → Bool
is_boolean (boolean b) = true
is_boolean null = false
is_boolean (number n) = false
is_boolean (string s) = false
is_boolean nested = false

unfoldable pub in_domain : String → Value → RuleRefs → Bool
in_domain field v refs =
    if str_eq field "showState"
    then text_in show_states v
    else if str_eq field "streamState"
    then text_in stream_states v
    else if str_eq field "recordState"
    then text_in record_states v
    else if str_eq field "itemState"
    then text_in item_states v
    else if str_eq field "automationHold" || str_eq field "fallbackActive"
    then is_boolean v
    else if str_eq field "viewItem"
    then is_null v || text_in refs.items v
    else if str_eq field "previewItem"
    then is_null v || text_in refs.items v || text_in refs.scenes v
    else false

abbrev pub all_keys : (String → Bool) → Object → Bool
all_keys test [] = true
all_keys test ((k, v) ∷ o) = test k && all_keys test o

unfoldable pub only_keys : Object → List String → Check
only_keys params allowed = check (all_keys (contains allowed) params) unknown_param

abbrev pub contains_key : Object → String → Bool
contains_key o k = elim (lookup o k) [ none ↦ false | some v ↦ true ]
