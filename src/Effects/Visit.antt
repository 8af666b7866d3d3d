-- ===== src/Effects/Visit.antt =====
-- What one `visit` of automation_effects.rs leaves behind: a cycle, or colours whose done nodes lead to no cycle.
use nbe.Prelude.{
  ℕ, ◌<◌, ◌≤◌, ◌≡◌, ◌≢◌, refl, sym, ap, subst, ◌∙◌, arith, ◌⊎◌, inl, inr, true, ◌||◌, Bool-cases,
  none, some, List, [], ◌∷◌, ◌++◌, length, get_or, set, drop, ◌==◌, length-set,
}
use nbe.Effects.Search.{Colors, Stack, Outcome, exhausted, found, nothing, pop, back_edge, walk}
use nbe.Effects.Graph.{
  In, whites, get_or-set, whites-set, HasEdge, start, IsChain, IsCycle, on_stack, pop-append,
  IsChain-append, on_stack-append, position-on_stack, IsCycle-drop,
}

-- Every walk along the edges from `v` ends.
pub data Ends {W : Type 0} (adj : List (List (ℕ × W))) : ℕ → Type 0 where
  ends : (v : ℕ) → ((w : ℕ) (why : W) → HasEdge adj v w why → Ends adj w) → Ends adj v

module _ {W : Type 0} (adj : List (List (ℕ × W))) where
  pub record IsGood (color : Colors) : Type 0 where
    pub sized : length color ≡ length adj
    pub three : (u : ℕ) → get_or color u 0 < 3
    pub done : (u : ℕ) → get_or color u 0 ≡ 2 → Ends adj u

  -- Before `visit v`, and in its loop, where `v` is on the stack too.
  pub record IsReady (v : ℕ) (color : Colors) (stack : Stack W) : Type 0 where
    pub good : IsGood color
    pub chain : IsChain adj stack v
    pub grays : (u : ℕ) → get_or color u 0 ≡ 1 → (on_stack stack u || v == u) ≡ true

  -- From `color` to `color'` the visit of `v` is done, and no gray node is new.
  pub record Visited (v : ℕ) (color color' : Colors) : Type 0 where
    pub good : IsGood color'
    pub done_v : get_or color' v 0 ≡ 2
    pub keeps : (u : ℕ) → get_or color u 0 ≡ 2 → get_or color' u 0 ≡ 2
    pub grays : (u : ℕ) → get_or color' u 0 ≡ 1 → (get_or color u 0 ≡ 1) × (v ≢ u)
    pub fewer : whites color' ≤ whites color

  abbrev pub Holds : ℕ → Colors → Stack W → Outcome W → Type 0
  Holds v color stack exhausted = ⊥
  Holds v color stack (found c) = IsCycle adj c
  Holds v color stack (nothing color' stack') = (stack' ≡ stack) × Visited v color color'

  abbrev pub InRange : Type 0
  InRange = (v w : ℕ) (why : W) → HasEdge adj v w why → w < length adj

  -- What a call of `visit` with `fuel` promises.
  abbrev pub Promise : ℕ → (ℕ → Colors → Stack W → Outcome W) → Type 0
  Promise fuel visits =
      (w : ℕ) (color : Colors) (stack : Stack W)
      → w < length adj
      → get_or color w 0 ≡ 0
      → whites color ≤ fuel
      → IsReady w color stack
      → Holds w color stack (visits w color stack)

  -- The edges of `v` that the loop has passed lead to done nodes.
  abbrev pub Passed : ℕ → List (ℕ × W) → Colors → Type 0
  Passed v es color =
      (w : ℕ) (why : W) → HasEdge adj v w why → In (w, why) es ⊎ (get_or color w 0 ≡ 2)

  finish :
      (v : ℕ) (color : Colors) (stack : Stack W)
      → v < length adj
      → IsReady v color stack
      → Passed v [] color
      → Visited v color (set color v 2)
  finish v color stack hv r passed = record {
    good = record {
      sized = length-set color v 2 ∙ r.good.sized;
      three = λ u. ground (arith, get_or-set color v u 2 0, r.good.three u);
      done = λ u e. elim (Bool-cases (v == u)) [
        | inl same ↦ subst (Ends adj) (ground arith) v_ends
        | inr other ↦ r.good.done u (ground (arith, get_or-set color v u 2 0, e))
      ];
    };
    done_v = ground (arith, get_or-set color v v 2 0, r.good.sized);
    keeps = λ u e. ground (arith, get_or-set color v u 2 0, e);
    grays = λ u e. ground (arith, get_or-set color v u 2 0, e, r.good.sized);
    fewer = omega (arith, whites-set color v 1);
  }
    where
      v_ends : Ends adj v
      v_ends =
          ends v (λ w why h. elim (passed w why h) [ inl i ↦ absurd i | inr e ↦ r.good.done w e ])

  Visited-trans :
      (v : ℕ) (color color' color'' : Colors)
      → ((u : ℕ) → get_or color u 0 ≡ 2 → get_or color' u 0 ≡ 2)
      → ((u : ℕ) → v ≢ u → get_or color' u 0 ≡ 1 → get_or color u 0 ≡ 1)
      → whites color' ≤ whites color
      → Visited v color' color''
      → Visited v color color''
  Visited-trans v color color' color'' keeps grays fewer b = record {
    good = b.good;
    done_v = b.done_v;
    keeps = λ u e. b.keeps u (keeps u e);
    grays = λ u e. let (g, n) = b.grays u e in (grays u n g, n);
    fewer = omega (arith, b.fewer);
  }

  pub Holds-trans :
      (v : ℕ) (color color' : Colors) (stack : Stack W) (o : Outcome W)
      → ((u : ℕ) → get_or color u 0 ≡ 2 → get_or color' u 0 ≡ 2)
      → ((u : ℕ) → v ≢ u → get_or color' u 0 ≡ 1 → get_or color u 0 ≡ 1)
      → whites color' ≤ whites color
      → Holds v color' stack o
      → Holds v color stack o
  Holds-trans v color color' stack exhausted keeps grays fewer h = h
  Holds-trans v color color' stack (found c) keeps grays fewer h = h
  Holds-trans v color color' stack (nothing color'' stack'') keeps grays fewer (e, h) =
      (e, Visited-trans v color color' color'' keeps grays fewer h)

  IsReady-push :
      (v w : ℕ) (why : W) (color : Colors) (stack : Stack W)
      → HasEdge adj v w why
      → IsReady v color stack
      → IsReady w color (stack ++ ((v, why) ∷ []))
  IsReady-push v w why color stack e r = record {
    good = r.good;
    chain = IsChain-append adj stack v w why r.chain e;
    grays = λ u g. ground (arith, on_stack-append stack v u why, r.grays u g);
  }

  -- A gray node is on the stack, so the search does not lose the cycle.
  back_edge-Holds :
      (v w : ℕ) (why : W) (color : Colors) (stack : Stack W)
      → HasEdge adj v w why
      → IsReady v color stack
      → get_or color w 0 ≡ 1
      → Holds v color stack (back_edge color (stack ++ ((v, why) ∷ [])) w)
  unfolding back_edge
  back_edge-Holds v w why color stack e r g =
      let pushed : Stack W = stack ++ ((v, why) ∷ []) in
      let on : on_stack pushed w ≡ true = on_stack-append stack v w why ∙ r.grays w g in
      let (i, p) = position-on_stack pushed w on in
      subst
        (λ o.
          Holds v color stack
            (elim o [ none ↦ nothing color pushed | some start ↦ found (drop start pushed) ]))
        (sym p) (IsCycle-drop adj pushed w i p (IsChain-append adj stack v w why r.chain e))

  -- What the loop promises of the edges that are left.
  abbrev Rest : ℕ → List (ℕ × W) → Stack W → ℕ → (ℕ → Colors → Stack W → Outcome W) → Type 0
  Rest v es stack fuel visits =
      (color : Colors)
      → whites color ≤ fuel
      → IsReady v color stack
      → Passed v es color
      → Holds v color stack (walk visits v es color stack)

  pub walk-Holds :
      InRange
      → (fuel : ℕ) (visits : ℕ → Colors → Stack W → Outcome W) → Promise fuel visits
      → (v : ℕ) → v < length adj
      → (es : List (ℕ × W)) → ((w : ℕ) (why : W) → In (w, why) es → HasEdge adj v w why)
      → (color : Colors) (stack : Stack W) → whites color ≤ fuel
      → IsReady v color stack
      → Passed v es color
      → Holds v color stack (walk visits v es color stack)
  unfolding walk
  walk-Holds range fuel visits promise v hv [] sub color stack few r passed =
      (refl, finish v color stack hv r passed)
  walk-Holds range fuel visits promise v hv ((w, why) ∷ es) sub color stack few r passed =
      let on : Rest v es stack fuel visits = λ color' few' r' p'.
        walk-Holds range fuel visits promise v hv es (λ x y h. sub x y (inr h)) color' stack few' r'
          p' in
      elim (Bool-cases (get_or color w 0 == 1)) [
        | inl gray ↦ rw gray (back_edge-Holds v w why color stack edge r (ground (arith, gray)))
        | inr not_gray ↦ elim (Bool-cases (get_or color w 0 == 0)) [
          | inl white ↦ rw not_gray (
              rw white (
                after on (visits w color pushed) (
                  promise w color pushed (range v w why edge) (ground (arith, white)) few
                    (IsReady-push v w why color stack edge r))))
          | inr black ↦ rw not_gray (
              rw black (
                subst (λ s. Holds v color stack (walk visits v es color s))
                  (sym (pop-append stack (v, why)))
                  (on color few r (
                    passed_on color (λ u h. h) (ground (arith, not_gray, black, r.good.three w))))))
        ]
      ]
    where
      edge : HasEdge adj v w why
      edge = sub w why (inl refl)

      pushed : Stack W
      pushed = stack ++ ((v, why) ∷ [])

      passed_on :
          (color' : Colors)
          → ((u : ℕ) → get_or color u 0 ≡ 2 → get_or color' u 0 ≡ 2)
          → get_or color' w 0 ≡ 2
          → Passed v es color'
      passed_on color' keeps e x y h = elim (passed x y h) [
        | inl (inl same) ↦ inr (subst (λ k. get_or color' k 0 ≡ 2) (sym (ap (λ q. q.0) same)) e)
        | inl (inr later) ↦ inl later
        | inr d ↦ inr (keeps x d)
      ]

      after :
          Rest v es stack fuel visits
          → (o : Outcome W) → Holds w color pushed o
          → Holds v color stack (elim o [
            | exhausted ↦ exhausted
            | found c ↦ found c
            | nothing color' stack' ↦ walk visits v es color' (pop stack')
          ])
      after on exhausted h = h
      after on (found c) h = h
      after on (nothing color' stack') (e, h) =
          subst (λ s. Holds v color stack (walk visits v es color' s))
            (sym (ap pop e ∙ pop-append stack (v, why)))
            (Holds-trans v color color' stack (walk visits v es color' stack) h.keeps
              (λ u n g. (h.grays u g).0) h.fewer
              (on color' (omega (arith, h.fewer))
                (record {
                  good = h.good;
                  chain = r.chain;
                  grays = λ u g. r.grays u (h.grays u g).0;
                })
                (passed_on color' h.keeps h.done_v)))
