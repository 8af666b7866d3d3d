-- ===== src/AudioTap/Tests.antt =====
-- A tap of two frames that three frames and an odd sample are pushed into, and then drained.
use nbe.Prelude.{◌+◌, ◌≡◌, List, [], ◌∷◌, length}
use nbe.AudioTap.{with_capacity}
use nbe.AudioTap.Refine.{contents}
use nbe.AudioTap.Runs.{Call, pushes, drains, run, run-refines}

abbrev calls : List Call
calls = pushes (1 ∷ 2 ∷ 3 ∷ 4 ∷ []) ∷ pushes (5 ∷ 6 ∷ 7 ∷ []) ∷ drains ∷ pushes (8 ∷ 9 ∷ []) ∷ []

run-refines_example :
    let (t, got) = run (with_capacity 5, []) calls in
    (contents t ≡ 8 ∷ 9 ∷ [])
    × (got ≡ 3 ∷ 4 ∷ 5 ∷ 6 ∷ [])
    × (9 ≡ length got + t.dropped + length (contents t))
unfolding with_capacity
run-refines_example = run-refines 5 calls
