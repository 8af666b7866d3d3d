-- ===== src/AudioTap/Latest.antt =====
-- The last so many elements of a list, and the whole frames of samples.
use nbe.Prelude.{
  ℕ, zero, suc, ◌+◌, ◌-◌, ◌%◌, ◌≤◌, ◌≡◌, refl, ◌∙◌, ap, sym, arith, List, [], ◌∷◌, ◌++◌, length,
  length-append, drop, length-drop, drop_all,
}

abbrev pub latest : ℕ → List ℕ → List ℕ
latest n xs = drop (length xs - n) xs

-- Two samples to a frame; an odd one at the end is left out.
abbrev pub whole : List ℕ → List ℕ
whole [] = []
whole (last ∷ []) = []
whole (left ∷ right ∷ rest) = left ∷ right ∷ whole rest

pub length-whole : (xs : List ℕ) → length (whole xs) + length xs % 2 ≡ length xs
length-whole [] = omega arith
length-whole (last ∷ []) = omega arith
length-whole (left ∷ right ∷ rest) = omega (arith, length-whole rest)

pub drop-append : (k : ℕ) (xs ys : List ℕ) → k ≤ length xs → drop k (xs ++ ys) ≡ drop k xs ++ ys
drop-append zero xs ys h = refl
drop-append (suc k) [] ys h = absurd (omega arith)
drop-append (suc k) (x ∷ xs) ys h = drop-append k xs ys (omega arith)

drop-drop : (j k : ℕ) (xs : List ℕ) → drop j (drop k xs) ≡ drop (k + j) xs
drop-drop j zero xs = ap (λ n. drop n xs) (omega arith)
drop-drop j (suc k) [] = drop_all j [] (omega arith) ∙ sym (drop_all (suc k + j) [] (omega arith))
drop-drop j (suc k) (x ∷ xs) =
    drop-drop j k xs ∙ ap (λ n. drop n (x ∷ xs)) {x = suc (k + j)} (omega arith)

-- What is out of the latest stays out of them.
pub latest-latest : (n : ℕ) (xs ys : List ℕ) → latest n (latest n xs ++ ys) ≡ latest n (xs ++ ys)
latest-latest n xs ys =
    ap (λ zs. drop (length (latest n xs ++ ys) - n) zs)
      (sym (drop-append (length xs - n) xs ys (omega arith)))
    ∙ drop-drop (length (latest n xs ++ ys) - n) (length xs - n) (xs ++ ys)
    ∙ ap (λ k. drop k (xs ++ ys))
        (omega (
          arith,
          length-append (latest n xs) ys,
          length-append xs ys,
          length-drop (length xs - n) xs,
        ))
