-- ===== src/Directive/Transitions.antt =====
-- A transition's progress, scene.rs, and the underlay that a take freezes, directive.rs.
use nbe.Prelude.{
  ℕ, zero, suc, ◌-◌, Bool, true, false, ◌||◌, Option, none, some, List, [], ◌∷◌, ◌++◌, length, ltb,
  leb, ◌==◌, if◌then◌else◌,
}
use nbe.Directive.{TransitionKind, cut, mix, Fraction, FrozenLayer, Transition}

abbrev pub is_cut : TransitionKind → Bool
is_cut cut = true
is_cut mix = false

abbrev pub opaque : Fraction
opaque = record { over = 1; under = 1 }

unfoldable pub progress : Transition → ℕ → Fraction
progress t frame =
    if ltb frame t.start_frame
    then record { over = 0; under = 1 }
    else if is_cut t.kind || t.duration_frames == 0
    then opaque
    else if leb t.duration_frames (frame - t.start_frame)
    then opaque
    else record { over = frame - t.start_frame; under = t.duration_frames }

-- `progress(frame) >= 1.0`.
unfoldable pub is_complete : Transition → ℕ → Bool
unfolding progress
is_complete t frame = let p = progress t frame in leb p.under p.over

abbrev pub max_underlay_layers : ℕ
max_underlay_layers = 8

-- `layers.remove(1)`.
abbrev pub remove_second : List FrozenLayer → List FrozenLayer
remove_second [] = []
remove_second (x ∷ []) = x ∷ []
remove_second (x ∷ y ∷ xs) = x ∷ xs

-- The `while` over the cap: each round takes a layer away, so the length is fuel enough.
unfoldable pub cap_layers : ℕ → List FrozenLayer → List FrozenLayer
cap_layers zero layers = layers
cap_layers (suc fuel) layers =
    let rest = cap_layers fuel (remove_second layers) in
    if ltb max_underlay_layers (length layers) then rest else layers

-- The layers that the old transition leaves: its own underlay, or its outgoing item.
unfoldable pub frozen_base : Transition → List FrozenLayer
frozen_base old = elim old.underlay [
  | some layers ↦ layers
  | none ↦ elim old.from_item [
    | none ↦ []
    | some from ↦ record { item = from; alpha = opaque; t0 = old.from_start_frame } ∷ []
  ]
]

-- The incoming item at its frozen alpha, unless that is zero.
unfoldable pub frozen_top : Transition → ℕ → List FrozenLayer
unfolding progress
frozen_top old frame =
    if ltb 0 (progress old frame).over
    then record { item = old.to_item; alpha = progress old frame; t0 = old.start_frame } ∷ []
    else []

abbrev pub some_layers : List FrozenLayer → Option (List FrozenLayer)
some_layers [] = none
some_layers (x ∷ xs) = some (x ∷ xs)

unfoldable pub freeze : Transition → ℕ → Option (List FrozenLayer)
unfolding frozen_base frozen_top cap_layers
freeze old frame =
    let layers = frozen_base old ++ frozen_top old frame in
    some_layers (cap_layers (length layers) layers)

-- The underlay of a new transition of a kind, over the one before it.
unfoldable pub underlay_for : TransitionKind → Option Transition → ℕ → Option (List FrozenLayer)
unfolding freeze is_complete
underlay_for cut previous frozen_frame = none
underlay_for mix none frozen_frame = none
underlay_for mix (some old) frozen_frame =
    if is_cut old.kind || is_complete old frozen_frame then none else freeze old frozen_frame
