-- ===== src/Effects/Tests.antt =====
-- The cycle check's theorems at concrete rules.
use nbe.Prelude.{ℕ, ◌≡◌, refl, true, none, some, List, [], ◌∷◌, map}
use Prim.Native.String.{String}
use nbe.Manifest.{AutomationRule, AutomationTriggerKind, media_start_kind, timer_kind, string}
use nbe.Effects.{
  Table, Reason, puts_on_air, CycleStep, step, edge, edges_from, adjacency, find_cycle,
}
use nbe.Effects.Search.{search, search_from, visit, walk, back_edge}
use nbe.Effects.Graph.{Loop}
use nbe.Effects.Rules.{CanRaise, find_cycle_sound, find_cycle_complete}

abbrev table : Table
table =
    (
      "view.cut",
      record { state_change = []; media_start = true; deferred = []; item = some "itemRef" },
    )
    ∷ []

abbrev cut : String → String → AutomationTriggerKind → AutomationRule
cut id item kind = record {
  id = id;
  trigger = record { kind = kind; params = none };
  conditions = [];
  action = record { command = "view.cut"; payload = some (("itemRef", string item) ∷ []) };
  enabled = true;
}

abbrev looping : List AutomationRule
looping = cut "opener" "a" timer_kind ∷ cut "again" "b" media_start_kind ∷ []

abbrev resting : List AutomationRule
resting = cut "opener" "a" timer_kind ∷ []

abbrev again : List CycleStep
again = record { rule = "again"; because = puts_on_air "view.cut" } ∷ []

find_cycle-looping : find_cycle table looping ≡ some again
unfolding find_cycle search search_from visit walk back_edge adjacency edges_from edge
find_cycle-looping = refl

find_cycle-resting : find_cycle table resting ≡ none
unfolding find_cycle search search_from visit walk back_edge adjacency edges_from edge
find_cycle-resting = refl

find_cycle_sound_example :
    (c : List (ℕ × Reason)) × Loop (CanRaise table looping) c × (again ≡ map (step looping) c)
find_cycle_sound_example = find_cycle_sound table looping again find_cycle-looping

find_cycle_complete_example : ¬ Loop (CanRaise table resting) ((0, puts_on_air "view.cut") ∷ [])
find_cycle_complete_example =
    find_cycle_complete table resting find_cycle-resting ((0, puts_on_air "view.cut") ∷ [])
