-- ===== src/Effects/Acyclic.antt =====
-- The whole search of automation_effects.rs: it ends within its fuel, with a cycle, or with none in the graph.
use nbe.Prelude.{
  ℕ, zero, suc, ◌+◌, ◌<◌, ◌≤◌, ◌≡◌, ◌≢◌, sym, subst, ◌∙◌, arith, inl, inr, Bool-cases, List, [],
  ◌∷◌, ◌++◌, length, get_or, set, replicate, length-replicate, length-set, ◌==◌,
}
use nbe.Effects.Search.{
  Colors, Stack, Outcome, exhausted, found, nothing, visit, search_from, search,
}
use nbe.Effects.Graph.{
  whites, get_or-set, whites-set, get_or_default, get_or-replicate, whites-replicate, IsCycle,
  IsChain-append,
}
use nbe.Effects.Visit.{
  Ends, ends, IsGood, IsReady, Holds, Holds-trans, InRange, Promise, walk-Holds,
}

module _ {W : Type 0} (adj : List (List (ℕ × W))) where
  -- From a node whose walks all end no chain leads back to it.
  pub Ends-IsCycle : (u : ℕ) → Ends adj u → (why : W) (c : Stack W) → IsCycle adj ((u, why) ∷ c) → ⊥
  Ends-IsCycle _ (ends u below) why [] (e, l) = Ends-IsCycle u (below u why e) why [] (e, l)
  Ends-IsCycle _ (ends u below) why ((w, y) ∷ c) (e, l) =
      Ends-IsCycle w (below w why e) y (c ++ ((u, why) ∷ []))
        (IsChain-append adj ((w, y) ∷ c) u w why l e)

  painted-IsReady :
      (w : ℕ) (color : Colors) (stack : Stack W)
      → w < length adj
      → IsReady adj w color stack
      → IsReady adj w (set color w 1) stack
  painted-IsReady w color stack hw r = record {
    good = record {
      sized = length-set color w 1 ∙ r.good.sized;
      three = λ u. ground (arith, get_or-set color w u 1 0, r.good.three u);
      done = λ u e. r.good.done u (ground (arith, get_or-set color w u 1 0, e));
    };
    chain = r.chain;
    grays = λ u g. elim (Bool-cases (w == u)) [
      | inl same ↦ ground (arith, same)
      | inr other ↦ r.grays u (ground (arith, get_or-set color w u 1 0, g))
    ];
  }

  pub visit-Promise : InRange adj → (fuel : ℕ) → Promise adj fuel (visit fuel adj)
  unfolding visit
  visit-Promise range zero w color stack hw white few r =
      omega (arith, whites-set color w 0, some_white)
    where
      some_white : 1 ≤ whites color
      some_white = ground (arith, whites-set color w 0, get_or_default color w 0 1, r.good.sized)
  visit-Promise range (suc fuel) w color stack hw white few r =
      Holds-trans adj w color (set color w 1) stack (visit (suc fuel) adj w color stack)
        (λ u e. ground (arith, get_or-set color w u 1 0, e))
        (λ u n g. ground (arith, get_or-set color w u 1 0, g)) (omega (arith, whites-set color w 0))
        (walk-Holds adj range fuel (visit fuel adj) (visit-Promise range fuel) w hw
          (get_or adj w []) (λ x y h. h) (set color w 1) stack
          (ground (arith, whites-set color w 0, get_or_default color w 0 1, r.good.sized))
          (painted-IsReady w color stack hw r) (λ x y h. inl h))

  -- What a search promises from `v` on: a cycle, or every node done.
  abbrev pub Found : Outcome W → Type 0
  Found exhausted = ⊥
  Found (found c) = IsCycle adj c
  Found (nothing color stack) = (u : ℕ) → u < length adj → Ends adj u

  -- The nodes before `v` are done, and no node is gray.
  record IsSwept (v : ℕ) (color : Colors) : Type 0 where
    good : IsGood adj color
    swept : (u : ℕ) → u < v → get_or color u 0 ≡ 2
    no_gray : (u : ℕ) → get_or color u 0 ≢ 1

  abbrev Onward : ℕ → ℕ → Type 0
  Onward v k =
      (color : Colors)
      → whites color ≤ length adj
      → IsSwept v color
      → Found (search_from (length adj) adj v k color [])

  search_from-Found :
      InRange adj
      → (v k : ℕ) (color : Colors) → v + k ≡ length adj
      → whites color ≤ length adj
      → IsSwept v color
      → Found (search_from (length adj) adj v k color [])
  unfolding search_from
  search_from-Found range v zero color e few s = λ u h. s.good.done u (s.swept u (omega arith))
  search_from-Found range v (suc k) color e few s =
      let on : Onward (suc v) k =
        λ color' few' s'. search_from-Found range (suc v) k color' (omega arith) few' s' in
      elim (Bool-cases (get_or color v 0 == 0)) [
        | inl white ↦ rw white (
            after on (visit (length adj) adj v color []) (
              visit-Promise range (length adj) v color [] (omega arith) (ground (arith, white)) few
                (record { good = s.good; chain = tt; grays = λ u g. absurd (s.no_gray u g) })))
        | inr not_white ↦ rw not_white (
            on color few (record {
              good = s.good;
              swept = λ u h. elim (Bool-cases (u == v)) [
                | inl same ↦ ground (arith, not_white, s.good.three v, s.no_gray v)
                | inr other ↦ s.swept u (ground arith)
              ];
              no_gray = s.no_gray;
            }))
      ]
    where
      after :
          Onward (suc v) k
          → (o : Outcome W) → Holds adj v color [] o
          → Found (elim o [
            | exhausted ↦ exhausted
            | found c ↦ found c
            | nothing color' stack' ↦ search_from (length adj) adj (suc v) k color' stack'
          ])
      after on exhausted h = h
      after on (found c) h = h
      after on (nothing color' stack') (e, h) =
          subst (λ st. Found (search_from (length adj) adj (suc v) k color' st)) (sym e)
            (on color' (omega (arith, h.fewer)) (record {
              good = h.good;
              swept = λ u le. elim (Bool-cases (u == v)) [
                | inl same ↦ subst (λ x. get_or color' x 0 ≡ 2) (ground arith) h.done_v
                | inr other ↦ h.keeps u (s.swept u (ground arith))
              ];
              no_gray = λ u g. s.no_gray u (h.grays u g).0;
            }))

  pub search-Found : InRange adj → Found (search adj)
  unfolding search
  search-Found range =
      search_from-Found range 0 (length adj) (replicate (length adj) 0) (omega arith)
        (omega (arith, whites-replicate (length adj)))
        (record {
          good = record {
            sized = length-replicate (length adj) 0;
            three = λ u. omega (arith, get_or-replicate (length adj) u);
            done = λ u e. absurd (omega (arith, get_or-replicate (length adj) u));
          };
          swept = λ u h. absurd (omega arith);
          no_gray = λ u e. omega (arith, get_or-replicate (length adj) u);
        })
