-- ===== src/Record/Totals.antt =====
-- Skips add up, skip.rs, and the marker store keeps the latest, markers.rs.
use nbe.Prelude.{
  ℕ, zero, suc, ◌+◌, ◌-◌, ◌≤◌, ◌≡◌, refl, sym, ap, ◌∙◌, arith, true, false, Bool-cases, inl, inr,
  List, [], ◌∷◌, ◌++◌, append-nil, append_assoc, length, drop, length-append, length-drop, leb,
  ◌==◌, if◌then◌else◌,
}
use nbe.Record.{
  SkipPath, no_surface, over_budget, no_draw, queue_full, no_encoder, draw_wait, refused,
  before_first, no_sequence_header, shed, index, SkipCount, count, paths_total, reset, Marker,
  max_markers, add,
}

pub data Call : Type 0 where
  counts : SkipPath → ℕ → Call
  resets : Call

unfoldable pub run : SkipCount → List Call → SkipCount
unfolding count reset
run s [] = s
run s (counts p n ∷ cs) = run (count s p n) cs
run s (resets ∷ cs) = run (reset s) cs

-- The skips counted at a path since the last reset, on top of `so_far`.
abbrev pub counted : SkipPath → ℕ → List Call → ℕ
counted p so_far [] = so_far
counted p so_far (counts q n ∷ cs) =
    counted p (if index q == index p then so_far + n else so_far) cs
counted p so_far (resets ∷ cs) = counted p 0 cs

paths_total-count :
    (s : SkipCount) (p : SkipPath) (n : ℕ) → paths_total (count s p n) ≡ paths_total s + n
unfolding paths_total count
paths_total-count s no_surface n = omega arith
paths_total-count s over_budget n = omega arith
paths_total-count s no_draw n = omega arith
paths_total-count s queue_full n = omega arith
paths_total-count s no_encoder n = omega arith
paths_total-count s draw_wait n = omega arith
paths_total-count s refused n = omega arith
paths_total-count s before_first n = omega arith
paths_total-count s no_sequence_header n = omega arith
paths_total-count s shed n = omega arith

run-adds_up :
    (s : SkipCount) (cs : List Call)
    → paths_total s ≡ s.total
    → paths_total (run s cs) ≡ (run s cs).total
unfolding run
run-adds_up s [] h = h
run-adds_up s (counts p n ∷ cs) h =
    run-adds_up (count s p n) cs (paths_total-count s p n ∙ ap (λ t. t + n) h)
run-adds_up s (resets ∷ cs) h = run-adds_up (reset s) cs (unfold paths_total in refl)

run-counted_at :
    (s : SkipCount) (cs : List Call) (p : SkipPath) → (run s cs).paths p ≡ counted p (s.paths p) cs
unfolding run
run-counted_at s [] p = refl
run-counted_at s (counts q n ∷ cs) p = run-counted_at (count s q n) cs p
run-counted_at s (resets ∷ cs) p = run-counted_at (reset s) cs p

abbrev pub zeroed : SkipCount
zeroed = record { total = 0; paths = λ q. 0 }

-- After any counts and resets each path has what was counted at it since the last reset, and the paths add up to the
-- total.
pub run-paths_total :
    (cs : List Call)
    → (paths_total (run zeroed cs) ≡ (run zeroed cs).total)
      × ((p : SkipPath) → (run zeroed cs).paths p ≡ counted p 0 cs)
unfolding paths_total
run-paths_total cs = (run-adds_up zeroed cs refl, run-counted_at zeroed cs)

unfoldable pub add_all : List Marker → List Marker → List Marker
add_all store [] = store
add_all store (m ∷ ms) = add_all (add store m) ms

abbrev pub latest : List Marker → List Marker
latest ms = drop (length ms - max_markers) ms

drop-append :
    (k : ℕ) (xs : List Marker) (m : Marker)
    → k ≤ length xs
    → drop k (xs ++ (m ∷ [])) ≡ drop k xs ++ (m ∷ [])
drop-append zero xs m h = refl
drop-append (suc k) [] m h = absurd (omega arith)
drop-append (suc k) (x ∷ xs) m h = drop-append k xs m (omega arith)

drop_more : (k : ℕ) (xs : List Marker) → drop 1 (drop k xs) ≡ drop (suc k) xs
drop_more zero [] = refl
drop_more zero (x ∷ xs) = refl
drop_more (suc k) [] = refl
drop_more (suc k) (x ∷ xs) = drop_more k xs

add-latest : (ms : List Marker) (m : Marker) → add (latest ms) m ≡ latest (ms ++ (m ∷ []))
unfolding add
add-latest ms m = elim (Bool-cases (leb max_markers (length ms))) [
  | inl full ↦ rw (at_cap full) (
      ap (λ t. t ++ (m ∷ [])) (drop_more (length ms - max_markers) ms)
      ∙ sym (drop-append (suc (length ms - max_markers)) ms m (ground (arith, full)))
      ∙ ap (λ k. drop k (ms ++ (m ∷ []))) (shift full))
  | inr room ↦ rw (below room) (
      sym (drop-append (length ms - max_markers) ms m (omega arith))
      ∙ ap (λ k. drop k (ms ++ (m ∷ []))) (stay room))
]
  where
    at_cap : leb max_markers (length ms) ≡ true → leb max_markers (length (latest ms)) ≡ true
    at_cap full = ground (arith, full, length-drop (length ms - max_markers) ms)

    below : leb max_markers (length ms) ≡ false → leb max_markers (length (latest ms)) ≡ false
    below room = ground (arith, room, length-drop (length ms - max_markers) ms)

    shift :
        leb max_markers (length ms) ≡ true
        → suc (length ms - max_markers) ≡ length (ms ++ (m ∷ [])) - max_markers
    shift full = ground (arith, full, length-append ms (m ∷ []))

    stay :
        leb max_markers (length ms) ≡ false
        → length ms - max_markers ≡ length (ms ++ (m ∷ [])) - max_markers
    stay room = ground (arith, room, length-append ms (m ∷ []))

add_all-from : (before ms : List Marker) → add_all (latest before) ms ≡ latest (before ++ ms)
unfolding add_all
add_all-from before [] = ap latest (sym (append-nil before))
add_all-from before (m ∷ ms) =
    ap (λ s. add_all s ms) (add-latest before m)
    ∙ add_all-from (before ++ (m ∷ [])) ms
    ∙ ap latest (append_assoc before (m ∷ []) ms)

pub add_all-latest : (ms : List Marker) → add_all [] ms ≡ latest ms
add_all-latest ms = add_all-from [] ms
