-- ===== src/Record/Chapters.antt =====
-- The chapters that the sidecar lists, crates/nbe-engine/src/record/markers.rs: the store's markers by frame.
use nbe.Prelude.{
  ℕ, ◌≤◌, ◌≡◌, refl, ap, ◌∙◌, arith, Bool, true, ◌&&◌, Bool-cases, inl, inr, List, [], ◌∷◌, leb,
  ◌==◌, if◌then◌else◌,
}
use nbe.Record.{Marker, insert_marker, chapters}
use nbe.Record.Totals.{add_all, latest, add_all-latest}

-- No marker is before a frame, and each one is no earlier than those before it.
abbrev pub all_from : ℕ → List Marker → Bool
all_from k [] = true
all_from k (m ∷ ms) = leb k m.frame && all_from k ms

abbrev pub ascending : List Marker → Bool
ascending [] = true
ascending (m ∷ ms) = all_from m.frame ms && ascending ms

-- The markers of a frame, in their order.
abbrev pub at_frame : ℕ → List Marker → List Marker
at_frame k [] = []
at_frame k (m ∷ ms) = let rest = at_frame k ms in if m.frame == k then m ∷ rest else rest

all_from-weaken : (j k : ℕ) (ms : List Marker) → j ≤ k → all_from k ms ≡ true → all_from j ms ≡ true
all_from-weaken j k [] l h = refl
all_from-weaken j k (m ∷ ms) l h =
    ground (arith, l, h, all_from-weaken j k ms l (ground (arith, h)))

all_from-insert_marker :
    (k : ℕ) (m : Marker) (ms : List Marker)
    → k ≤ m.frame
    → all_from k ms ≡ true
    → all_from k (insert_marker m ms) ≡ true
all_from-insert_marker k m [] l h = ground (arith, l)
all_from-insert_marker k m (x ∷ xs) l h =
    ground (arith, l, h, all_from-insert_marker k m xs l (ground (arith, h)))

ascending-insert_marker :
    (m : Marker) (ms : List Marker) → ascending ms ≡ true → ascending (insert_marker m ms) ≡ true
ascending-insert_marker m [] h = refl
ascending-insert_marker m (x ∷ xs) h = elim (Bool-cases (leb m.frame x.frame)) [
  | inl b ↦
      ground
        (arith, b, h, all_from-weaken m.frame x.frame xs (ground (arith, b)) (ground (arith, h)))
  | inr b ↦ ground (
    arith,
    b,
    h,
    all_from-insert_marker x.frame m xs (ground (arith, b)) (ground (arith, h)),
    ascending-insert_marker m xs (ground (arith, h)),
  )
]

at_frame-insert_marker :
    (k : ℕ) (m : Marker) (ms : List Marker) → at_frame k (insert_marker m ms) ≡ at_frame k (m ∷ ms)
at_frame-insert_marker k m [] = refl
at_frame-insert_marker k m (x ∷ xs) = ground (arith, at_frame-insert_marker k m xs)

ascending-chapters : (ms : List Marker) → ascending (chapters ms) ≡ true
unfolding chapters
ascending-chapters [] = refl
ascending-chapters (m ∷ ms) = ascending-insert_marker m (chapters ms) (ascending-chapters ms)

at_frame-chapters : (k : ℕ) (ms : List Marker) → at_frame k (chapters ms) ≡ at_frame k ms
unfolding chapters
at_frame-chapters k [] = refl
at_frame-chapters k (m ∷ ms) =
    at_frame-insert_marker k m (chapters ms) ∙ ground (arith, at_frame-chapters k ms)

-- After any markers are added to an empty store it holds the last 512 of them, or all, in the order of their arrival;
-- and its chapters are in the order of their frames, with the markers of each frame in the order of their arrival.
pub chapters-latest :
    (ms : List Marker)
    → (add_all [] ms ≡ latest ms)
      × (ascending (chapters (add_all [] ms)) ≡ true)
      × ((k : ℕ) → at_frame k (chapters (add_all [] ms)) ≡ at_frame k (latest ms))
chapters-latest ms = (
  add_all-latest ms,
  ascending-chapters (add_all [] ms),
  λ k. at_frame-chapters k (add_all [] ms) ∙ ap (at_frame k) (add_all-latest ms),
)
