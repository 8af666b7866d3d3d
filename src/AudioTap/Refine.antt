-- ===== src/AudioTap/Refine.antt =====
-- A tap holds the latest whole frames, audio_tap.rs: what a push, a drain and a clear make of what it holds.
use nbe.Prelude.{
  ℕ, ◌+◌, ◌-◌, ◌%◌, ◌≤◌, ◌≡◌, refl, ◌∙◌, ap, sym, arith, Bool-cases, inl, inr, List, [], ◌∷◌, ◌++◌,
  append_assoc, append-nil, length, length-append, drop, leb,
}
use nbe.AudioRing.{store, copy, channels}
use nbe.AudioRing.Window.{length-store, length-copy, copy-store, drop-copy}
use nbe.AudioTap.Latest.{latest, whole, drop-append, latest-latest}
use nbe.AudioTap.{AudioTap, room, evict, push_frame, push_frames}

abbrev pub contents : AudioTap → List ℕ
contents t = copy (room t) t.buf t.tail (t.head - t.tail)

pub record IsValid (t : AudioTap) : Type 0 where
  pub drained : t.tail ≤ t.head
  pub fits : t.head ≤ t.tail + room t
  pub whole_in : t.head % channels ≡ 0
  pub whole_out : t.tail % channels ≡ 0
  pub whole_room : room t % channels ≡ 0
  pub a_frame : channels ≤ room t

evict-IsValid : (t : AudioTap) → IsValid t → IsValid (evict t)
unfolding evict
evict-IsValid t v = ground (arith, v)

evict_room : (t : AudioTap) → IsValid t → (evict t).head + 2 ≤ (evict t).tail + room (evict t)
unfolding evict
evict_room t v = ground (arith, v)

pub push_frame-IsValid : (t : AudioTap) (l r : ℕ) → IsValid t → IsValid (push_frame t l r)
unfolding push_frame
push_frame-IsValid t l r v =
    let u = evict t in
    let w = evict-IsValid t v in
    ground (arith, w, evict_room t v, length-store (room u) u.buf u.head (l ∷ r ∷ []))

contents-evict :
    (t : AudioTap)
    → IsValid t
    → contents (evict t) ≡ drop (t.head - t.tail + 2 - room t) (contents t)
unfolding evict
contents-evict t v = elim (Bool-cases (leb (t.head - t.tail) (room t - channels))) [
  | inl e ↦ rw e (ap (λ k. drop k (contents t)) {x = 0} (ground (arith, e, v)))
  | inr e ↦ rw e (
      ap (copy (room t) t.buf (t.tail + 2)) {y = t.head - t.tail - 2} (omega arith)
      ∙ sym (drop-copy (room t) t.buf t.tail 2 (t.head - t.tail) (ground (arith, e, v)))
      ∙ ap (λ k. drop k (contents t)) {x = 2} (ground (arith, e, v)))
]

contents-push_frame :
    (t : AudioTap) (l r : ℕ)
    → IsValid t
    → contents (push_frame t l r) ≡ latest (room t) (contents t ++ (l ∷ r ∷ []))
unfolding push_frame
contents-push_frame t l r v =
    let u = evict t in
    let w = evict-IsValid t v in
    ap (λ c. copy c (store (room u) u.buf u.head (l ∷ r ∷ [])) u.tail (u.head + 2 - u.tail))
      (length-store (room u) u.buf u.head (l ∷ r ∷ []))
    ∙ copy-store (room u) u.buf u.tail u.head (l ∷ r ∷ []) refl w.drained (evict_room t v)
    ∙ ap (λ xs. xs ++ (l ∷ r ∷ [])) (contents-evict t v)
    ∙ sym (drop-append (t.head - t.tail + 2 - room t) (contents t) (l ∷ r ∷ []) small)
    ∙ ap (λ k. drop k (contents t ++ (l ∷ r ∷ []))) total
  where
    held : length (contents t) ≡ t.head - t.tail
    held = length-copy (room t) t.buf t.tail (t.head - t.tail)

    small : t.head - t.tail + 2 - room t ≤ length (contents t)
    small = omega (arith, held, v)

    total : t.head - t.tail + 2 - room t ≡ length (contents t ++ (l ∷ r ∷ [])) - room t
    total = omega (arith, held, length-append (contents t) (l ∷ r ∷ []))

room-push_frame : (t : AudioTap) (l r : ℕ) → room (push_frame t l r) ≡ room t
unfolding push_frame evict
room-push_frame t l r =
    ground (arith, length-store (room (evict t)) (evict t).buf (evict t).head (l ∷ r ∷ []))

held_all : (t : AudioTap) → IsValid t → contents t ≡ latest (room t) (contents t ++ [])
held_all t v =
    ap (λ k. drop k (contents t)) {x = 0} small
    ∙ ap (latest (room t)) (sym (append-nil (contents t)))
  where
    small : 0 ≡ length (contents t) - room t
    small = omega (arith, length-copy (room t) t.buf t.tail (t.head - t.tail), v)

pub push_frames-contents :
    (t : AudioTap) (xs : List ℕ)
    → IsValid t
    → (contents (push_frames t xs) ≡ latest (room t) (contents t ++ whole xs))
      × IsValid (push_frames t xs)
      × (room (push_frames t xs) ≡ room t)
unfolding push_frames
push_frames-contents t [] v = (held_all t v, v, refl)
push_frames-contents t (last ∷ []) v = (held_all t v, v, refl)
push_frames-contents t (l ∷ r ∷ rest) v =
    let u = push_frame t l r in
    let (c, w, n) = push_frames-contents u rest (push_frame-IsValid t l r v) in
    (
      c
          ∙ ap (λ k. latest k (contents u ++ whole rest)) (room-push_frame t l r)
          ∙ ap (λ xs. latest (room t) (xs ++ whole rest)) (contents-push_frame t l r v)
          ∙ latest-latest (room t) (contents t ++ (l ∷ r ∷ [])) (whole rest)
          ∙ ap (latest (room t)) (append_assoc (contents t) (l ∷ r ∷ []) (whole rest)),
      w,
      n ∙ room-push_frame t l r,
    )
