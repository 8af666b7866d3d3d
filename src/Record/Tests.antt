-- ===== src/Record/Tests.antt =====
-- The stores' theorems at concrete calls.
use nbe.Prelude.{ℕ, true, refl, ◌≡◌, none, List, [], ◌∷◌}
use nbe.Record.{Marker, chapters}
use nbe.Record.Chapters.{ascending, at_frame, chapters-latest}
use nbe.Record.Totals.{add_all, latest}

abbrev opening : Marker
opening = record { name = "opening"; frame = 3; timecode = none }

abbrev closing : Marker
closing = record { name = "closing"; frame = 1; timecode = none }

-- Added last and first by frame.
abbrev added : List Marker
added = opening ∷ opening ∷ closing ∷ []

chapters_of_added : chapters added ≡ closing ∷ opening ∷ opening ∷ []
unfolding chapters
chapters_of_added = refl

chapters-latest_example :
    (add_all [] added ≡ latest added)
    × (ascending (chapters (add_all [] added)) ≡ true)
    × ((k : ℕ) → at_frame k (chapters (add_all [] added)) ≡ at_frame k (latest added))
chapters-latest_example = chapters-latest added
