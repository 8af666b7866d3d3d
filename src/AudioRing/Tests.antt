-- ===== src/AudioRing/Tests.antt =====
-- Runs of the sample ring, and its theorems at concrete rings.
use nbe.Prelude.{◌-◌, ◌*◌, ◌/◌, min, ◌≡◌, refl, arith, [], ◌∷◌, ◌++◌, take, drop}
use nbe.AudioRing.{Ring, ring, store, push, pop_into, channels, capacity_frames}
use nbe.AudioRing.Refine.{contents, IsValid, ring-IsValid, queue_refined}
use nbe.AudioRing.Threads.{
  Producer, Consumer, System, push_loads, push_stores, pop_loads, Reach, here, next, opened,
}
use nbe.AudioRing.Safety.{Reach-fifo}

-- Two frames of room; the samples 3 and 4 wait, at the end and the start of the storage.
abbrev wrapped : Ring
wrapped = record { buf = 5 ∷ 6 ∷ 3 ∷ 4 ∷ []; written = 4; read = 2 }

wrapped-IsValid : IsValid wrapped
wrapped-IsValid = omega arith

push_around :
    push wrapped (7 ∷ 8 ∷ 9 ∷ []) ≡ (2, record { buf = 7 ∷ 8 ∷ 3 ∷ 4 ∷ []; written = 6; read = 2 })
unfolding push store
push_around = refl

ring-IsValid_example : IsValid (ring 0) × (contents (ring 0) ≡ []) × (capacity_frames (ring 0) ≡ 1)
ring-IsValid_example = ring-IsValid 0

queue_refined_example :
    let (n, pushed) = push wrapped (7 ∷ 8 ∷ 9 ∷ []) in
    let (m, out', popped) = pop_into wrapped (0 ∷ 0 ∷ 1 ∷ []) in
    ((n ≡ min 3 (4 - 2) / channels * channels)
      × (contents pushed ≡ 3 ∷ 4 ∷ take n (7 ∷ 8 ∷ 9 ∷ []))
      × IsValid pushed)
    × ((m ≡ min 3 2 / channels * channels)
        × (out' ≡ take m (3 ∷ 4 ∷ []) ++ drop m (0 ∷ 0 ∷ 1 ∷ []))
        × (contents popped ≡ drop m (3 ∷ 4 ∷ []))
        × IsValid popped)
queue_refined_example = queue_refined wrapped (7 ∷ 8 ∷ 9 ∷ []) (0 ∷ 0 ∷ 1 ∷ []) wrapped-IsValid

-- The audio thread has stored one sample of two when the callback looks.
abbrev half_pushed : System
half_pushed = record {
  ring_of = record { buf = 7 ∷ 0 ∷ []; written = 0; read = 0 };
  producer = Producer.storing (8 ∷ []) (7 ∷ []);
  consumer = Consumer.copying 0 [];
  sent = [];
  got = [];
}

half_pushed-Reach : Reach (opened 1) half_pushed
unfolding ring
half_pushed-Reach =
    next (next (next here (push_loads _ (7 ∷ 8 ∷ []) refl)) (push_stores _ 7 (8 ∷ []) [] refl))
      (pop_loads _ 2 refl)

Reach-fifo_example : [] ++ contents half_pushed.ring_of ≡ half_pushed.sent
Reach-fifo_example = Reach-fifo 1 half_pushed-Reach
