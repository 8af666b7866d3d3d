-- ===== src/Manifest.antt =====
-- Automation rules as crates/nbe-core/src/manifest.rs declares them, and the JSON values they hold.
use nbe.Prelude.{ℕ, Bool, true, false, Option, none, some, ◌>>=◌, List, [], ◌∷◌, if◌then◌else◌}
use Prim.Native.String.{String}
use text.Mathlib.Text.{◌==◌}

-- A JSON number: an f64, which is the rational `numerator / (below + 1)` with a sign.
pub record Number : Type 0 where
  pub negative : Bool
  pub numerator : ℕ
  pub below : ℕ

-- A JSON value; arrays and objects are one constructor, since the rules accept none.
pub data Value : Type 0 where
  null : Value
  boolean : Bool → Value
  number : Number → Value
  string : String → Value
  nested : Value

abbrev pub Object : Type 0
Object = List (String × Value)

pub data AutomationTriggerKind : Type 0 where
  media_end_kind media_start_kind timer_kind time_of_day_kind audio_level_kind :
      AutomationTriggerKind
  hotkey_kind rss_keyword_kind stream_health_kind state_change_kind : AutomationTriggerKind

pub record AutomationTrigger : Type 0 where
  pub kind : AutomationTriggerKind
  pub params : Option Object

pub record AutomationAction : Type 0 where
  pub command : String
  pub payload : Option Object

pub record AutomationRule : Type 0 where
  pub id : String
  pub trigger : AutomationTrigger
  pub conditions : List Object
  pub action : AutomationAction
  pub enabled : Bool

abbrev pub lookup {ℓ} : {A : Type ℓ} → List (String × A) → String → Option A
lookup [] k = none
lookup ((j, v) ∷ m) k = let rest = lookup m k in if j == k then some v else rest

abbrev pub contains : List String → String → Bool
contains [] k = false
contains (j ∷ js) k = let rest = contains js k in if j == k then true else rest

abbrev pub as_str : Value → Option String
as_str (string s) = some s
as_str null = none
as_str (boolean b) = none
as_str (number n) = none
as_str nested = none

-- `get(k)` of an object that may be absent, then `as_str`.
abbrev pub text_at : Option Object → String → Option String
text_at none k = none
text_at (some o) k = lookup o k >>= as_str
