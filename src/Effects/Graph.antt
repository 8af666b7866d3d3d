-- ===== src/Effects/Graph.antt =====
-- Edges, chains and cycles of the graph that automation_effects.rs searches, and lemmas on its stack and colours.
use nbe.Prelude.{
  ℕ, zero, suc, ◌+◌, ◌<◌, ◌≡◌, refl, sym, ap, subst, arith, ◌⊎◌, inl, inr, Bool, true, false, ◌&&◌,
  ◌||◌, Bool-cases, some, List, [], ◌∷◌, ◌++◌, length, get_or, set, drop, replicate, ltb, ◌==◌,
  if◌then◌else◌,
}
use nbe.Effects.Search.{Colors, Stack, position, pop}

abbrev pub In : {A : Type 0} → A → List A → Type 0
In x [] = ⊥
In x (y ∷ ys) = (x ≡ y) ⊎ In x ys

abbrev pub whites : Colors → ℕ
whites [] = 0
whites (c ∷ cs) = let rest = whites cs in if c == 0 then suc rest else rest

pub get_or-set :
    (xs : List ℕ) (i j v d : ℕ)
    → get_or (set xs i v) j d ≡ (if i == j && ltb i (length xs) then v else get_or xs j d)
get_or-set [] i j v d = ground arith
get_or-set (x ∷ xs) zero zero v d = ground arith
get_or-set (x ∷ xs) zero (suc j) v d = ground arith
get_or-set (x ∷ xs) (suc i) zero v d = ground arith
get_or-set (x ∷ xs) (suc i) (suc j) v d = ground (arith, get_or-set xs i j v d)

pub whites-set :
    (xs : Colors) (i v : ℕ)
    → whites (set xs i (suc v)) + (if get_or xs i 1 == 0 then 1 else 0) ≡ whites xs
whites-set [] i v = ground arith
whites-set (x ∷ xs) zero v = ground arith
whites-set (x ∷ xs) (suc i) v = ground (arith, whites-set xs i v)

pub get_or_default : (xs : List ℕ) (i d e : ℕ) → i < length xs → get_or xs i d ≡ get_or xs i e
get_or_default [] i d e h = absurd (omega arith)
get_or_default (x ∷ xs) zero d e h = refl
get_or_default (x ∷ xs) (suc i) d e h = get_or_default xs i d e (omega arith)

pub get_or-replicate : (n i : ℕ) → get_or {A = ℕ} (replicate n 0) i 0 ≡ 0
get_or-replicate zero i = refl
get_or-replicate (suc n) zero = refl
get_or-replicate (suc n) (suc i) = get_or-replicate n i

pub whites-replicate : (n : ℕ) → whites (replicate n 0) ≡ n
whites-replicate zero = refl
whites-replicate (suc n) = ground (arith, whites-replicate n)

module _ {W : Type 0} where
  abbrev pub HasEdge : List (List (ℕ × W)) → ℕ → ℕ → W → Type 0
  HasEdge adj v w why = In (w, why) (get_or adj v [])

  abbrev pub start : Stack W → ℕ → ℕ
  start [] v = v
  start ((u, why) ∷ s) v = u

  -- Each entry's edge leads to the next entry's node, and the last one's to `v`.
  abbrev pub Linked : (ℕ → ℕ → W → Type 0) → Stack W → ℕ → Type 0
  Linked E [] v = Unit
  Linked E ((u, why) ∷ s) v = E u (start s v) why × Linked E s v

  -- A chain with a step at least, whose last edge leads back to its first node.
  abbrev pub Loop : (ℕ → ℕ → W → Type 0) → Stack W → Type 0
  Loop E [] = ⊥
  Loop E ((u, why) ∷ c) = Linked E ((u, why) ∷ c) u

  abbrev pub IsChain : List (List (ℕ × W)) → Stack W → ℕ → Type 0
  IsChain adj = Linked (HasEdge adj)

  abbrev pub IsCycle : List (List (ℕ × W)) → Stack W → Type 0
  IsCycle adj = Loop (HasEdge adj)

  abbrev pub on_stack : Stack W → ℕ → Bool
  on_stack [] w = false
  on_stack ((u, why) ∷ s) w = u == w || on_stack s w

  pub pop-append : (s : Stack W) (x : ℕ × W) → pop (s ++ (x ∷ [])) ≡ s
  pop-append [] x = refl
  pop-append (y ∷ []) x = refl
  pop-append (y ∷ z ∷ s) x = ap (λ t. y ∷ t) (pop-append (z ∷ s) x)

  pub start-append : (s : Stack W) (v w : ℕ) (why : W) → start (s ++ ((v, why) ∷ [])) w ≡ start s v
  start-append [] v w why = refl
  start-append ((u, y) ∷ s) v w why = refl

  pub IsChain-append :
      (adj : List (List (ℕ × W))) (s : Stack W) (v w : ℕ) (why : W)
      → IsChain adj s v
      → HasEdge adj v w why
      → IsChain adj (s ++ ((v, why) ∷ [])) w
  IsChain-append adj [] v w why c e = (e, tt)
  IsChain-append adj ((u, y) ∷ s) v w why (h, c) e = (
    subst (λ x. HasEdge adj u x y) (sym (start-append s v w why)) h,
    IsChain-append adj s v w why c e,
  )

  pub on_stack-append :
      (s : Stack W) (v w : ℕ) (why : W)
      → on_stack (s ++ ((v, why) ∷ [])) w ≡ (on_stack s w || v == w)
  on_stack-append [] v w why = ground arith
  on_stack-append ((u, y) ∷ s) v w why = ground (arith, on_stack-append s v w why)

  pub position-on_stack :
      (s : Stack W) (w : ℕ) → on_stack s w ≡ true → (i : ℕ) × (position s w ≡ some i)
  position-on_stack [] w h = absurd (ground arith)
  position-on_stack ((u, y) ∷ s) w h = elim (Bool-cases (u == w)) [
    | inl e ↦ (0, ground arith)
    | inr e ↦ let (i, p) = position-on_stack s w (ground arith) in (suc i, ground (arith, p))
  ]

  position-head : (u : ℕ) (y : W) (s : Stack W) (w : ℕ) → position ((u, y) ∷ s) w ≡ some 0 → u ≡ w
  position-head u y s w e = ground arith

  position-tail :
      (u : ℕ) (y : W) (s : Stack W) (w i : ℕ)
      → position ((u, y) ∷ s) w ≡ some (suc i)
      → position s w ≡ some i
  position-tail u y s w i e = ground arith

  -- The part of a chain from a node on is a chain that starts with that node.
  pub IsCycle-drop :
      (adj : List (List (ℕ × W))) (s : Stack W) (w i : ℕ)
      → position s w ≡ some i
      → IsChain adj s w
      → IsCycle adj (drop i s)
  IsCycle-drop adj [] w i e c = absurd (ground arith)
  IsCycle-drop adj ((u, y) ∷ s) w zero e c =
      subst (λ x. IsChain adj ((u, y) ∷ s) x) (sym (position-head u y s w e)) c
  IsCycle-drop adj ((u, y) ∷ s) w (suc i) e c =
      IsCycle-drop adj s w i (position-tail u y s w i e) c.1

  Linked-map :
      (E F : ℕ → ℕ → W → Type 0)
      → ((v w : ℕ) (why : W) → E v w why → F v w why)
      → (c : Stack W) (v : ℕ) → Linked E c v
      → Linked F c v
  Linked-map E F f [] v l = tt
  Linked-map E F f ((u, why) ∷ c) v (e, l) = (f u (start c v) why e, Linked-map E F f c v l)

  pub Loop-map :
      (E F : ℕ → ℕ → W → Type 0)
      → ((v w : ℕ) (why : W) → E v w why → F v w why)
      → (c : Stack W) → Loop E c
      → Loop F c
  Loop-map E F f [] l = l
  Loop-map E F f ((u, why) ∷ c) l = Linked-map E F f ((u, why) ∷ c) u l
