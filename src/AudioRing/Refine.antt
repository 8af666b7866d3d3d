-- ===== src/AudioRing/Refine.antt =====
-- A ring holds a queue of samples, audio_ring.rs: `push` appends to it, `pop_into` takes from it.
use nbe.Prelude.{
  ℕ, zero, ◌+◌, ◌-◌, ◌*◌, ◌/◌, ◌%◌, ◌≤◌, min, max, ◌≡◌, refl, sym, ap, ◌∙◌, arith, List, [], ◌++◌,
  length, take, drop, length-take, length-replicate, subst,
}
use nbe.AudioRing.{
  Ring, ring, store, copy, push, pop_into, capacity, channels, push_count, pop_count,
}
use nbe.AudioRing.{capacity_frames}
use nbe.AudioRing.Window.{length-store, length-copy, copy-store, take-copy, drop-copy}

-- The samples pushed and not yet popped, oldest first.
abbrev pub contents : Ring → List ℕ
contents r = copy (capacity r) r.buf r.read (r.written - r.read)

pub record IsValid (r : Ring) : Type 0 where
  pub popped : r.read ≤ r.written
  pub room : r.written ≤ r.read + capacity r
  pub frames_in : r.written % channels ≡ 0
  pub frames_out : r.read % channels ≡ 0
  pub frames_held : capacity r % channels ≡ 0

-- A new ring is valid and holds nothing, and has room for the frames asked for, one at least.
pub ring-IsValid :
    (frames : ℕ)
    → IsValid (ring frames)
      × (contents (ring frames) ≡ [])
      × (capacity_frames (ring frames) ≡ max frames 1)
unfolding ring capacity_frames
ring-IsValid frames = (
  record {
    popped = omega arith;
    room = omega arith;
    frames_in = omega arith;
    frames_out = omega arith;
    frames_held = omega (arith, length-replicate {0} (max frames 1 * 2) (zero));
  },
  refl,
  omega (arith, length-replicate {0} (max frames 1 * 2) (zero)),
)

push_fits : (r : Ring) (xs : List ℕ) → IsValid r → r.written + push_count r xs ≤ r.read + capacity r
push_fits r xs v = omega arith

length-pushed : (r : Ring) (xs : List ℕ) → length (take (push_count r xs) xs) ≡ push_count r xs
length-pushed r xs = omega (arith, length-take {0} (push_count r xs) xs)

push-IsValid : (r : Ring) (xs : List ℕ) → IsValid r → IsValid (push r xs).1
unfolding push
push-IsValid r xs v =
    omega (arith, length-store (capacity r) r.buf r.written (take (push_count r xs) xs))

-- On a valid ring `push` takes whole frames, as many as both the input and the free room hold, appends exactly those
-- samples, in order, to what the ring holds, and leaves it valid.
pub push_refines :
    (r : Ring) (xs : List ℕ)
    → IsValid r
    → let (n, r') = push r xs in
      (n ≡ min (length xs) (capacity r - length (contents r)) / channels * channels)
      × (contents r' ≡ contents r ++ take n xs)
      × IsValid r'
unfolding push
push_refines r xs v = (
  omega (arith, length-copy (capacity r) r.buf r.read (r.written - r.read)),
  kept,
  push-IsValid r xs v,
)
  where
    taken : List ℕ
    taken = take (push_count r xs) xs

    kept : contents (push r xs).1 ≡ contents r ++ taken
    kept = rw (length-store (capacity r) r.buf r.written taken) (
        subst
          (λ n.
            copy (capacity r) (store (capacity r) r.buf r.written taken) r.read
              (r.written + n - r.read)
            ≡ contents r ++ taken)
          (length-pushed r xs)
          (copy-store (capacity r) r.buf r.read r.written taken refl v.popped
            (omega (arith, length-pushed r xs, push_fits r xs v))))

pop_into-IsValid : (r : Ring) (out : List ℕ) → IsValid r → IsValid (pop_into r out).2
unfolding pop_into
pop_into-IsValid r out v = omega arith

-- On a valid ring `pop_into` takes whole frames, as many as both `out` and the ring hold: the oldest samples, in
-- order, go to the front of `out`, the rest of `out` stays, and they leave the ring, which stays valid.
pub pop_into_refines :
    (r : Ring) (out : List ℕ)
    → IsValid r
    → let (n, out', r') = pop_into r out in
      (n ≡ min (length out) (length (contents r)) / channels * channels)
      × (out' ≡ take n (contents r) ++ drop n out)
      × (contents r' ≡ drop n (contents r))
      × IsValid r'
unfolding pop_into
pop_into_refines r out v = (
  omega (arith, length-copy (capacity r) r.buf r.read held),
  ap (λ xs. xs ++ drop (pop_count r out) out)
      (sym (take-copy (capacity r) r.buf r.read (pop_count r out) held (omega arith))),
  ap (copy (capacity r) r.buf (r.read + pop_count r out)) (omega arith)
      ∙ sym (drop-copy (capacity r) r.buf r.read (pop_count r out) held (omega arith)),
  pop_into-IsValid r out v,
)
  where
    held : ℕ
    held = r.written - r.read

-- A valid ring refines a queue of whole frames: `push` appends as many of its samples as whole frames fit, in order,
-- and `pop_into` takes as many of the oldest as whole frames are there and wanted, in order, to the front of `out`,
-- whose rest stays; both leave the ring valid.
pub queue_refined :
    (r : Ring) (xs out : List ℕ)
    → IsValid r
    → let (n, pushed) = push r xs in
      let (m, out', popped) = pop_into r out in
      ((n ≡ min (length xs) (capacity r - length (contents r)) / channels * channels)
        × (contents pushed ≡ contents r ++ take n xs)
        × IsValid pushed)
      × ((m ≡ min (length out) (length (contents r)) / channels * channels)
          × (out' ≡ take m (contents r) ++ drop m out)
          × (contents popped ≡ drop m (contents r))
          × IsValid popped)
queue_refined r xs out v = (push_refines r xs v, pop_into_refines r out v)
