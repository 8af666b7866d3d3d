-- ===== src/AudioRing/Window.antt =====
-- What a stretch of the ring's buffer holds, audio_ring.rs: windows against stores.
use nbe.Prelude.{
  ℕ, zero, suc, ◌+◌, ◌-◌, ◌%◌, ◌≤◌, ◌<◌, ◌≡◌, ◌≢◌, refl, sym, ap, ◌∙◌, arith, List, [], ◌∷◌, ◌++◌,
  length, get_or, set, take, drop, length-append, length-set, get_or-set_self, get_or-set_ne,
}
use native.Mathlib.Nat.{div-add-mod, mod-lt, zero-add, add-zero}
use mathlib.Core.Path.{ap₂}
use nbe.AudioRing.{store, copy}

-- Two positions less than the capacity apart are not in one slot.
mod-ne : (cap i w : ℕ) → i < w → w < i + cap → i % cap ≢ w % cap
mod-ne cap i w h k e = grind (arith, div-add-mod i cap, div-add-mod w cap)

pub mod_below : (cap w : ℕ) → 0 < cap → w % cap < cap
mod_below cap w h = mod-lt w h

pub length-store :
    (cap : ℕ) (buf : List ℕ) (w : ℕ) (vs : List ℕ) → length (store cap buf w vs) ≡ length buf
unfolding store
length-store cap buf w [] = refl
length-store cap buf w (v ∷ vs) =
    length-store cap (set buf (w % cap) v) (w + 1) vs ∙ length-set buf (w % cap) v

pub length-copy : (cap : ℕ) (buf : List ℕ) (r n : ℕ) → length (copy cap buf r n) ≡ n
length-copy cap buf r zero = refl
length-copy cap buf r (suc n) = ap suc (length-copy cap buf (r + 1) n)

suc_add : (a b : ℕ) → suc a + b ≡ suc (a + b)
suc_add a b = omega arith

add_suc : (r a : ℕ) → r + suc a ≡ r + 1 + a
add_suc r a = omega arith

-- A window is two windows, one after the other.
pub copy-add :
    (cap : ℕ) (buf : List ℕ) (r a b : ℕ)
    → copy cap buf r (a + b) ≡ copy cap buf r a ++ copy cap buf (r + a) b
copy-add cap buf r zero b = rw (zero-add, add-zero)
copy-add cap buf r (suc a) b =
    rw (suc_add a b, add_suc r a)
      (ap (λ xs. get_or buf (r % cap) 0 ∷ xs) (copy-add cap buf (r + 1) a b))

-- Writing a slot past a window, and less than the capacity past its start, leaves the window.
pub copy-set :
    (cap : ℕ) (buf : List ℕ) (r n w v : ℕ)
    → r + n ≤ w
    → w < r + cap
    → copy cap (set buf (w % cap) v) r n ≡ copy cap buf r n
copy-set cap buf r zero w v h k = refl
copy-set cap buf r (suc n) w v h k =
    ap₂ ◌∷◌ (get_or-set_ne buf v 0 (λ e. mod-ne cap r w (omega arith) k (sym e)))
      (copy-set cap buf (r + 1) n w v (omega arith) (omega arith))

-- The same for a run of samples.
pub copy-store_before :
    (cap : ℕ) (buf : List ℕ) (r n w : ℕ) (vs : List ℕ)
    → r + n ≤ w
    → w + length vs ≤ r + cap
    → copy cap (store cap buf w vs) r n ≡ copy cap buf r n
unfolding store
copy-store_before cap buf r n w [] h k = refl
copy-store_before cap buf r n w (v ∷ vs) h k =
    copy-store_before cap (set buf (w % cap) v) r n (w + 1) vs (omega arith) (omega arith)
    ∙ copy-set cap buf r n w v h (omega arith)

-- What was stored is there, if it was no more than the capacity.
pub copy-store_self :
    (cap : ℕ) (buf : List ℕ) (w : ℕ) (vs : List ℕ)
    → length buf ≡ cap
    → length vs ≤ cap
    → copy cap (store cap buf w vs) w (length vs) ≡ vs
unfolding store
copy-store_self cap buf w [] h k = refl
copy-store_self cap buf w (v ∷ vs) h k =
    ap₂ ◌∷◌
      (ap (λ xs. get_or xs 0 0) first
        ∙ get_or-set_self buf (w % cap) v 0 (rw h (mod_below cap w (omega arith))))
      (copy-store_self cap (set buf (w % cap) v) (w + 1) vs (length-set buf (w % cap) v ∙ h)
        (omega arith))
  where
    first :
        copy cap (store cap (set buf (w % cap) v) (w + 1) vs) w 1
        ≡ copy cap (set buf (w % cap) v) w 1
    first = copy-store_before cap (set buf (w % cap) v) w 1 (w + 1) vs (omega arith) (omega arith)

-- Storing behind a window extends it, if the whole is no more than the capacity.
pub copy-store :
    (cap : ℕ) (buf : List ℕ) (r w : ℕ) (vs : List ℕ)
    → length buf ≡ cap
    → r ≤ w
    → w + length vs ≤ r + cap
    → copy cap (store cap buf w vs) r (w + length vs - r) ≡ copy cap buf r (w - r) ++ vs
copy-store cap buf r w vs h p k =
    rw (split, copy-add)
      (ap₂ ◌++◌ (copy-store_before cap buf r (w - r) w vs (omega arith) k)
        (rw (whole) (copy-store_self cap buf w vs h (omega arith))))
  where
    split : w + length vs - r ≡ w - r + length vs
    split = omega arith

    whole : r + (w - r) ≡ w
    whole = omega arith

pub take-copy :
    (cap : ℕ) (buf : List ℕ) (r n m : ℕ) → n ≤ m → take n (copy cap buf r m) ≡ copy cap buf r n
take-copy cap buf r zero m h = refl
take-copy cap buf r (suc n) zero h = absurd (omega arith)
take-copy cap buf r (suc n) (suc m) h =
    ap (λ xs. get_or buf (r % cap) 0 ∷ xs) (take-copy cap buf (r + 1) n m (omega arith))

pub drop-copy :
    (cap : ℕ) (buf : List ℕ) (r n m : ℕ)
    → n ≤ m
    → drop n (copy cap buf r m) ≡ copy cap buf (r + n) (m - n)
drop-copy cap buf r zero m h = ap₂ (copy cap buf) (omega arith) (omega arith)
drop-copy cap buf r (suc n) zero h = absurd (omega arith)
drop-copy cap buf r (suc n) (suc m) h =
    drop-copy cap buf (r + 1) n m (omega arith) ∙ ap₂ (copy cap buf) (omega arith) (omega arith)

-- A window one longer.
pub copy_snoc :
    (cap : ℕ) (buf : List ℕ) (r : ℕ) (xs : List ℕ) (y : ℕ)
    → copy cap buf r (length xs) ≡ xs
    → get_or buf ((r + length xs) % cap) 0 ≡ y
    → copy cap buf r (length (xs ++ (y ∷ []))) ≡ xs ++ (y ∷ [])
copy_snoc cap buf r xs y h k =
    rw (length-append xs (y ∷ []), copy-add) (ap₂ (λ a b. a ++ (b ∷ [])) h k)
