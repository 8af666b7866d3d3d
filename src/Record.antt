-- ===== src/Record.antt =====
-- The recording's small stores: skip counts, crates/nbe-engine/src/record/skip.rs, with `count` whole, and markers,
-- crates/nbe-engine/src/record/markers.rs. Counters are unbounded.
pub mod Totals
pub mod Chapters
mod Tests
use nbe.Prelude.{
  ℕ, zero, suc, ◌+◌, Bool, Option, List, [], ◌∷◌, ◌++◌, length, drop, leb, ◌==◌, if◌then◌else◌,
}
use Prim.Native.String.{String}

pub data SkipPath : Type 0 where
  no_surface over_budget no_draw queue_full no_encoder draw_wait refused before_first : SkipPath
  no_sequence_header shed : SkipPath

-- `path as usize`.
abbrev pub index : SkipPath → ℕ
index no_surface = 0
index over_budget = 1
index no_draw = 2
index queue_full = 3
index no_encoder = 4
index draw_wait = 5
index refused = 6
index before_first = 7
index no_sequence_header = 8
index shed = 9

abbrev pub all : List SkipPath
all =
    no_surface ∷ over_budget ∷ no_draw ∷ queue_full ∷ no_encoder ∷ draw_wait ∷ refused
    ∷ before_first ∷ no_sequence_header ∷ shed ∷ []

-- The array of one counter per path is a function.
pub record SkipCount : Type 0 where
  pub total : ℕ
  pub paths : SkipPath → ℕ

unfoldable pub count : SkipCount → SkipPath → ℕ → SkipCount
count s path n = record {
  total = s.total + n;
  paths = λ q. if index path == index q then s.paths q + n else s.paths q;
}

abbrev pub sum_paths : SkipCount → List SkipPath → ℕ
sum_paths s [] = 0
sum_paths s (p ∷ ps) = s.paths p + sum_paths s ps

unfoldable pub paths_total : SkipCount → ℕ
paths_total s = sum_paths s all

unfoldable pub reset : SkipCount → SkipCount
reset s = record { total = 0; paths = λ q. 0 }

pub record Marker : Type 0 where
  pub name : String
  pub frame : ℕ
  pub timecode : Option String

abbrev pub max_markers : ℕ
max_markers = 512

-- The store, oldest marker first.
unfoldable pub add : List Marker → Marker → List Marker
add store marker = (if leb max_markers (length store) then drop 1 store else store) ++ (marker ∷ [])

-- `sort_by_key`, which is stable: a marker goes before those of its frame that came after it.
abbrev pub insert_marker : Marker → List Marker → List Marker
insert_marker m [] = m ∷ []
insert_marker m (x ∷ xs) =
    let rest = insert_marker m xs in if leb m.frame x.frame then m ∷ x ∷ xs else x ∷ rest

unfoldable pub chapters : List Marker → List Marker
chapters [] = []
chapters (m ∷ ms) = insert_marker m (chapters ms)
