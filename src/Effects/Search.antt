-- ===== src/Effects/Search.antt =====
-- The search of `find_cycle`, crates/nbe-core/src/automation_effects.rs, over numbered nodes: `visit` with its
-- colours and its stack. `visit` calls itself on white nodes only, so the number of nodes is fuel enough.
use nbe.Prelude.{
  ℕ, zero, suc, Option, none, some, List, [], ◌∷◌, ◌++◌, length, get_or, set, drop, replicate, ◌==◌,
  if◌then◌else◌,
}

-- 0 is unvisited, 1 on the stack, 2 done.
abbrev pub Colors : Type 0
Colors = List ℕ

-- A node, and why it leads on to the next.
abbrev pub Stack : Type 0 → Type 0
Stack W = List (ℕ × W)

-- What `visit` returns, with the colours and the stack it leaves where it found nothing.
pub data Outcome (W : Type 0) : Type 0 where
  exhausted : Outcome W
  found : List (ℕ × W) → Outcome W
  nothing : Colors → List (ℕ × W) → Outcome W

module _ {W : Type 0} where
  abbrev pub position : Stack W → ℕ → Option ℕ
  position [] w = none
  position ((u, why) ∷ s) w =
      let rest = position s w in
      if u == w then some 0 else elim rest [ none ↦ none | some i ↦ some (suc i) ]

  abbrev pub pop : Stack W → Stack W
  pop [] = []
  pop (x ∷ []) = []
  pop (x ∷ y ∷ s) = x ∷ pop (y ∷ s)

  -- `return Some(stack[start..])`, or `?`.
  unfoldable pub back_edge : Colors → Stack W → ℕ → Outcome W
  back_edge color stack w = elim (position stack w) [
    | none ↦ nothing color stack
    | some start ↦ found (drop start stack)
  ]

  -- The loop over the edges of `v`; `visit` is the call on a white node.
  unfoldable pub walk :
      (ℕ → Colors → Stack W → Outcome W) → ℕ → List (ℕ × W) → Colors → Stack W → Outcome W
  unfolding back_edge
  walk visit v [] color stack = nothing (set color v 2) stack
  walk visit v ((w, why) ∷ es) color stack =
      let pushed : Stack W = stack ++ ((v, why) ∷ []) in
      let on = walk visit v es in
      if get_or color w 0 == 1
      then back_edge color pushed w
      else if get_or color w 0 == 0
      then elim (visit w color pushed) [
        | exhausted ↦ exhausted
        | found c ↦ found c
        | nothing color' stack' ↦ on color' (pop stack')
      ]
      else on color (pop pushed)

  unfoldable pub visit : ℕ → List (List (ℕ × W)) → ℕ → Colors → Stack W → Outcome W
  unfolding walk
  visit zero adj v color stack = exhausted
  visit (suc fuel) adj v color stack =
      let again = visit fuel adj in walk again v (get_or adj v []) (set color v 1) stack

  -- The loop over `v in 0..n`, from `v` on with `k` nodes left.
  unfoldable pub search_from : ℕ → List (List (ℕ × W)) → ℕ → ℕ → Colors → Stack W → Outcome W
  unfolding visit
  search_from fuel adj v zero color stack = nothing color stack
  search_from fuel adj v (suc k) color stack =
      let on = search_from fuel adj (suc v) k in
      if get_or color v 0 == 0
      then elim (visit fuel adj v color stack) [
        | exhausted ↦ exhausted
        | found c ↦ found c
        | nothing color' stack' ↦ on color' stack'
      ]
      else on color stack

  -- What `find_cycle` does with the adjacency lists.
  unfoldable pub search : List (List (ℕ × W)) → Outcome W
  unfolding search_from
  search adj = search_from (length adj) adj 0 (length adj) (replicate (length adj) 0) []
