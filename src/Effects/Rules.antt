-- ===== src/Effects/Rules.antt =====
-- `find_cycle` of automation_effects.rs on rules: the cycle it names is one, and it names one where there is one.
use nbe.Prelude.{
  ℕ, zero, suc, ◌+◌, ◌<◌, ◌≡◌, refl, sym, ap, subst, ◌∙◌, arith, inl, inr, Option, none, some,
  Option-cases, List, [], ◌∷◌, length, get_or, get_elem?, map,
}
use nbe.Manifest.{AutomationRule}
use nbe.Effects.{Table, Reason, CycleStep, edge, edges_from, adjacency, step, reported, find_cycle}
use nbe.Effects.Search.{Outcome, exhausted, found, nothing, search}
use nbe.Effects.Graph.{In, HasEdge, start, Loop, Loop-map}
use nbe.Effects.Visit.{InRange}
use nbe.Effects.Acyclic.{Found, search-Found, Ends-IsCycle}

-- The action of rule `v` can raise the trigger of rule `w`, by the rules' numbers.
pub record CanRaise (effects : Table) (rules : List AutomationRule) (v w : ℕ) (why : Reason)
    : Type 0 where
  pub from : AutomationRule
  pub to : AutomationRule
  pub from_v : get_elem? rules v ≡ some from
  pub to_w : get_elem? rules w ≡ some to
  pub raised : edge effects from to ≡ some why

get_or-map :
    (f : AutomationRule → List (ℕ × Reason)) (rules : List AutomationRule) (v : ℕ)
    → get_or (map f rules) v [] ≡ elim (get_elem? rules v) [ none ↦ [] | some a ↦ f a ]
get_or-map f [] v = refl
get_or-map f (r ∷ rules) zero = refl
get_or-map f (r ∷ rules) (suc v) = get_or-map f rules v

length-map :
    (f : AutomationRule → List (ℕ × Reason)) (rules : List AutomationRule)
    → length (map f rules) ≡ length rules
length-map f [] = refl
length-map f (r ∷ rules) = ap suc (length-map f rules)

get_elem?-lt :
    (rules : List AutomationRule) (v : ℕ) (r : AutomationRule)
    → get_elem? rules v ≡ some r
    → v < length rules
get_elem?-lt [] v r e = absurd (ground arith)
get_elem?-lt (x ∷ rules) zero r e = omega arith
get_elem?-lt (x ∷ rules) (suc v) r e = omega (arith, get_elem?-lt rules v r e)

-- An entry of `edges_from` is a rule at its number that can be raised.
Entry : Table → AutomationRule → ℕ → List AutomationRule → ℕ → Reason → Type 0
Entry effects from b rules w why =
    (i : ℕ) × (to : AutomationRule) × (b + i ≡ w)
    × (get_elem? rules i ≡ some to)
    × (edge effects from to ≡ some why)

Entry-later :
    (effects : Table) (from : AutomationRule) (b : ℕ) (to : AutomationRule)
    (rules : List AutomationRule) (w : ℕ) (why : Reason)
    → Entry effects from (suc b) rules w why
    → Entry effects from b (to ∷ rules) w why
unfolding Entry
Entry-later effects from b to rules w why (i, r, e, g, h) = (suc i, r, omega arith, g, h)

edges_from-Entry :
    (effects : Table) (from : AutomationRule) (b : ℕ) (rules : List AutomationRule) (w : ℕ)
    (why : Reason)
    → In (w, why) (edges_from effects from b rules)
    → Entry effects from b rules w why
unfolding edges_from
edges_from-Entry effects from b [] w why h = absurd h
edges_from-Entry effects from b (to ∷ rules) w why h =
    go (edges_from-Entry effects from (suc b) rules w why) (edge effects from to) refl h
  where
    go :
        (In (w, why) (edges_from effects from (suc b) rules)
          → Entry effects from (suc b) rules w why)
        → (o : Option Reason) → edge effects from to ≡ o
        → In
            (w, why)
            (elim o [
              | none ↦ edges_from effects from (suc b) rules
              | some y ↦ (b, y) ∷ edges_from effects from (suc b) rules
            ])
        → Entry effects from b (to ∷ rules) w why
    go rest none e h = Entry-later effects from b to rules w why (rest h)
    go rest (some y) e (inl same) =
        unfold Entry in
        (
          0,
          to,
          (omega arith) ∙ sym (ap (λ p. p.0) same),
          refl,
          e ∙ ap some (sym (ap (λ p. p.1) same)),
        )
    go rest (some y) e (inr h) = Entry-later effects from b to rules w why (rest h)

In-edges_from :
    (effects : Table) (from : AutomationRule) (b i : ℕ) (rules : List AutomationRule)
    (to : AutomationRule) (why : Reason)
    → get_elem? rules i ≡ some to
    → edge effects from to ≡ some why
    → In (b + i, why) (edges_from effects from b rules)
unfolding edges_from
In-edges_from effects from b i [] to why g e = absurd (ground arith)
In-edges_from effects from b zero (r ∷ rules) to why g e =
    subst
      (λ o.
        In (b + 0, why)
          (elim o [
            | none ↦ edges_from effects from (suc b) rules
            | some y ↦ (b, y) ∷ edges_from effects from (suc b) rules
          ]))
      (sym this) (inl (ap (λ k. (k, why)) (omega arith)))
  where
    this : edge effects from r ≡ some why
    this = ap (edge effects from) (ap (λ o. elim o [ none ↦ r | some a ↦ a ]) g) ∙ e
In-edges_from effects from b (suc i) (r ∷ rules) to why g e = go (edge effects from r) (
    subst (λ k. In (k, why) (edges_from effects from (suc b) rules)) (omega arith)
      (In-edges_from effects from (suc b) i rules to why g e))
  where
    go :
        (o : Option Reason)
        → In (b + suc i, why) (edges_from effects from (suc b) rules)
        → In
            (b + suc i, why)
            (elim o [
              | none ↦ edges_from effects from (suc b) rules
              | some y ↦ (b, y) ∷ edges_from effects from (suc b) rules
            ])
    go none h = h
    go (some y) h = inr h

HasEdge-CanRaise :
    (effects : Table) (rules : List AutomationRule) (v w : ℕ) (why : Reason)
    → HasEdge (adjacency effects rules) v w why
    → CanRaise effects rules v w why
unfolding adjacency Entry
HasEdge-CanRaise effects rules v w why h = elim (Option-cases (get_elem? rules v)) [
  | inl missing ↦ absurd (subst (In (w, why)) (row ∙ ap row_of missing) h)
  | inr (from, e) ↦
      let (i, to, n, g, r) =
        edges_from-Entry effects from 0 rules w why (subst (In (w, why)) (row ∙ ap row_of e) h) in
      record {
        from = from;
        to = to;
        from_v = e;
        to_w = subst (λ k. get_elem? rules k ≡ some to) (omega arith) g;
        raised = r;
      }
]
  where
    row_of : Option AutomationRule → List (ℕ × Reason)
    row_of o = elim o [ none ↦ [] | some a ↦ edges_from effects a 0 rules ]

    row : get_or (adjacency effects rules) v [] ≡ row_of (get_elem? rules v)
    row = get_or-map (λ from. edges_from effects from 0 rules) rules v

CanRaise-HasEdge :
    (effects : Table) (rules : List AutomationRule) (v w : ℕ) (why : Reason)
    → CanRaise effects rules v w why
    → HasEdge (adjacency effects rules) v w why
unfolding adjacency
CanRaise-HasEdge effects rules v w why c =
    subst (In (w, why))
      (sym (get_or-map (λ from. edges_from effects from 0 rules) rules v ∙ ap row_of c.from_v))
      (subst (λ k. In (k, why) (edges_from effects c.from 0 rules)) (omega arith)
        (In-edges_from effects c.from 0 w rules c.to why c.to_w c.raised))
  where
    row_of : Option AutomationRule → List (ℕ × Reason)
    row_of o = elim o [ none ↦ [] | some a ↦ edges_from effects a 0 rules ]

length-adjacency :
    (effects : Table) (rules : List AutomationRule)
    → length (adjacency effects rules) ≡ length rules
unfolding adjacency
length-adjacency effects rules = length-map (λ from. edges_from effects from 0 rules) rules

adjacency-InRange :
    (effects : Table) (rules : List AutomationRule) → InRange (adjacency effects rules)
adjacency-InRange effects rules v w why h =
    let c = HasEdge-CanRaise effects rules v w why h in
    omega (arith, length-adjacency effects rules, get_elem?-lt rules w c.to c.to_w)

Loop-lt :
    (effects : Table) (rules : List AutomationRule) (u : ℕ) (why : Reason) (c : List (ℕ × Reason))
    → Loop (HasEdge (adjacency effects rules)) ((u, why) ∷ c)
    → u < length (adjacency effects rules)
Loop-lt effects rules u why c l =
    let r = HasEdge-CanRaise effects rules u (start c u) why l.0 in
    omega (arith, length-adjacency effects rules, get_elem?-lt rules u r.from r.from_v)

-- Where `find_cycle` names a cycle, there are rules with the ids it names, in its order, of which each one's action
-- can raise the next one's trigger for the reason it gives, and the last one's the first one's.
pub find_cycle_sound :
    (effects : Table) (rules : List AutomationRule) (steps : List CycleStep)
    → find_cycle effects rules ≡ some steps
    → (c : List (ℕ × Reason)) × Loop (CanRaise effects rules) c × (steps ≡ map (step rules) c)
unfolding find_cycle
find_cycle_sound effects rules steps h =
    go (search (adjacency effects rules))
      (search-Found (adjacency effects rules) (adjacency-InRange effects rules)) h
  where
    go :
        (o : Outcome Reason)
        → Found (adjacency effects rules) o
        → reported rules o ≡ some steps
        → (c : List (ℕ × Reason)) × Loop (CanRaise effects rules) c × (steps ≡ map (step rules) c)
    go exhausted f e = absurd f
    go (found c) f e = (
      c,
      Loop-map (HasEdge (adjacency effects rules)) (CanRaise effects rules)
          (HasEdge-CanRaise effects rules) c f,
      sym (ap (λ o. elim o [ none ↦ [] | some a ↦ a ]) e),
    )
    go (nothing color stack) f e = absurd (ground arith)

-- Where `find_cycle` names none, no list of rules is a cycle: each one able to raise the next, and the last one the
-- first, a rule that raises itself included.
pub find_cycle_complete :
    (effects : Table) (rules : List AutomationRule)
    → find_cycle effects rules ≡ none
    → (c : List (ℕ × Reason)) → ¬ Loop (CanRaise effects rules) c
unfolding find_cycle
find_cycle_complete effects rules h c l =
    go (search (adjacency effects rules))
      (search-Found (adjacency effects rules) (adjacency-InRange effects rules)) h c
      (Loop-map (CanRaise effects rules) (HasEdge (adjacency effects rules))
        (CanRaise-HasEdge effects rules) c l)
  where
    go :
        (o : Outcome Reason)
        → Found (adjacency effects rules) o
        → reported rules o ≡ none
        → (c : List (ℕ × Reason)) → Loop (HasEdge (adjacency effects rules)) c
        → ⊥
    go exhausted f e c l = f
    go (found d) f e c l = absurd (ground arith)
    go (nothing color stack) f e [] l = l
    go (nothing color stack) f e ((u, why) ∷ c) l =
        Ends-IsCycle (adjacency effects rules) u (f u (Loop-lt effects rules u why c l)) why c l
