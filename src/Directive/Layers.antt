-- ===== src/Directive/Layers.antt =====
-- The underlay of a transition, directive.rs: which layers the cap keeps, and what every underlay of a run is.
use nbe.Prelude.{
  ℕ, zero, suc, ◌+◌, ◌-◌, ◌≤◌, ◌≡◌, refl, sym, ap, ◌∙◌, arith, Bool, true, false, ◌&&◌, ◌||◌,
  Bool-cases, inl, inr, Option, none, some, List, [], ◌∷◌, ◌++◌, length, length-drop, drop, leb,
  ltb, if◌then◌else◌,
}
use nbe.Directive.{FrozenLayer, Transition, TransitionKind, cut, mix}
use nbe.Directive.Transitions.{
  progress, is_complete, cap_layers, frozen_base, frozen_top, freeze, some_layers, underlay_for,
  is_cut,
}

-- Past the cap of eight the loop keeps the base and the newest seven of the others.
cap_layers-drop :
    (fuel : ℕ) (b : FrozenLayer) (ls : List FrozenLayer)
    → length ls ≤ fuel + 7
    → cap_layers fuel (b ∷ ls) ≡ b ∷ drop (length ls - 7) ls
unfolding cap_layers
cap_layers-drop zero b ls h = ground arith
cap_layers-drop (suc fuel) b [] h = ground arith
cap_layers-drop (suc fuel) b (y ∷ ls) h = elim (Bool-cases (leb 7 (length ls))) [
  | inl k ↦
      let n : suc (length ls) - 7 ≡ suc (length ls - 7) = ground (arith, k) in
      let m : ltb 8 (suc (suc (length ls))) ≡ true = ground (arith, k) in
      ap (λ c. if c then cap_layers fuel (b ∷ ls) else (b ∷ y ∷ ls)) m
      ∙ cap_layers-drop fuel b ls (omega (arith, h))
      ∙ ap (λ i. b ∷ drop i (y ∷ ls)) (sym n)
  | inr k ↦
      let n : suc (length ls) - 7 ≡ 0 = ground (arith, k) in
      let m : ltb 8 (suc (suc (length ls))) ≡ false = ground (arith, k) in
      ap (λ c. if c then cap_layers fuel (b ∷ ls) else (b ∷ y ∷ ls)) m
      ∙ ap (λ i. b ∷ drop i (y ∷ ls)) (sym n)
]

-- The layers of an interrupted mix, its base first and the one it froze last.
abbrev pub base_and : List FrozenLayer → ℕ → List FrozenLayer
base_and [] n = []
base_and (b ∷ ls) n = b ∷ drop (length ls - n) ls

-- What an interrupted mix freezes is the list of its own frozen layers, or else its outgoing item, and of its incoming
-- item where that shows: the first of them and the newest seven of the others, and no underlay where there is none.
pub freeze-base_and :
    (old : Transition) (frame : ℕ)
    → freeze old frame ≡ some_layers (base_and (frozen_base old ++ frozen_top old frame) 7)
unfolding freeze
freeze-base_and old frame = ap some_layers (capped (frozen_base old ++ frozen_top old frame))
  where
    capped : (ls : List FrozenLayer) → cap_layers (length ls) ls ≡ base_and ls 7
    capped [] = unfold cap_layers in refl
    capped (b ∷ ls) = cap_layers-drop (length (b ∷ ls)) b ls (omega arith)

-- A layer whose alpha is above 0 and at most 1.
abbrev pub visible : FrozenLayer → Bool
visible l = ltb 0 l.alpha.over && leb l.alpha.over l.alpha.under

abbrev pub all_visible : List FrozenLayer → Bool
all_visible [] = true
all_visible (l ∷ ls) = visible l && all_visible ls

-- An underlay that has one layer to eight, each of them visible.
abbrev pub layered : Option (List FrozenLayer) → Bool
layered none = true
layered (some ls) = leb 1 (length ls) && leb (length ls) 8 && all_visible ls

all_visible-append :
    (xs ys : List FrozenLayer)
    → all_visible xs ≡ true
    → all_visible ys ≡ true
    → all_visible (xs ++ ys) ≡ true
all_visible-append [] ys h k = k
all_visible-append (x ∷ xs) ys h k =
    ground (arith, h, all_visible-append xs ys (ground (arith, h)) k)

all_visible-drop :
    (n : ℕ) (xs : List FrozenLayer) → all_visible xs ≡ true → all_visible (drop n xs) ≡ true
all_visible-drop zero xs h = h
all_visible-drop (suc n) [] h = refl
all_visible-drop (suc n) (x ∷ xs) h = all_visible-drop n xs (ground (arith, h))

layered-base_and :
    (ls : List FrozenLayer) → all_visible ls ≡ true → layered (some_layers (base_and ls 7)) ≡ true
layered-base_and [] h = refl
layered-base_and (b ∷ ls) h = ground (
  arith,
  h,
  all_visible-drop (length ls - 7) ls (ground (arith, h)),
  length-drop (length ls - 7) ls,
)

frozen_base-visible :
    (old : Transition) → layered old.underlay ≡ true → all_visible (frozen_base old) ≡ true
unfolding frozen_base
frozen_base-visible old h = ground (arith, h)

frozen_top-visible : (old : Transition) (frame : ℕ) → all_visible (frozen_top old frame) ≡ true
unfolding frozen_top progress
frozen_top-visible old frame = ground arith

pub underlay_for-layered :
    (k : TransitionKind) (old : Transition) (frame : ℕ)
    → layered old.underlay ≡ true
    → layered (underlay_for k (some old) frame) ≡ true
unfolding underlay_for
underlay_for-layered cut old frame h = refl
underlay_for-layered mix old frame h =
    elim (Bool-cases (is_cut old.kind || is_complete old frame)) [
      | inl b ↦ ground (arith, b)
      | inr b ↦ ground (
        arith,
        b,
        freeze-base_and old frame,
        layered-base_and (frozen_base old ++ frozen_top old frame) (
            all_visible-append (frozen_base old) (frozen_top old frame) (frozen_base-visible old h)
              (frozen_top-visible old frame)),
      )
    ]
