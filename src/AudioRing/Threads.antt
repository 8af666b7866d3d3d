-- ===== src/AudioRing/Threads.antt =====
-- The ring's two threads, audio_ring.rs: the audio thread in `push` and the device callback in
-- `pop_into`, each atomic load and store a step of its own. A thread's loads at the start of a
-- method are one step: each thread loads its own counter, which nobody else writes, and the other's.
use nbe.Prelude.{
  ℕ, suc, ◌+◌, ◌-◌, ◌*◌, ◌/◌, ◌%◌, min, ◌≡◌, List, [], ◌∷◌, ◌++◌, length, get_or, set, take,
}
use nbe.AudioRing.{Ring, ring, capacity, channels, push_count}

-- Where the audio thread stands: outside `push`, or in its loop with the samples still to store and
-- those stored.
pub data Producer : Type 0 where
  idle : Producer
  storing : List ℕ → List ℕ → Producer

-- Where the callback stands: outside `pop_into`, or in its loop with the number of samples still to
-- copy and those copied.
pub data Consumer : Type 0 where
  idle : Consumer
  copying : ℕ → List ℕ → Consumer

-- `sent` and `got` are no fields of the program: all samples ever published by a `push`, and all
-- that a `pop_into` has returned.
pub record System : Type 0 where
  pub ring_of : Ring
  pub producer : Producer
  pub consumer : Consumer
  pub sent : List ℕ
  pub got : List ℕ

-- One atomic step of either thread.
pub data Step : System → System → Type 0 where
  push_loads :
      (s : System) (samples : List ℕ)
      → s.producer ≡ Producer.idle
      → Step s (record s {
        producer = Producer.storing (take (push_count s.ring_of samples) samples) [];
      })
  push_stores :
      (s : System) (v : ℕ) (todo done : List ℕ)
      → s.producer ≡ Producer.storing (v ∷ todo) done
      → Step s (record s {
        ring_of = record (s.ring_of) {
          buf = set s.ring_of.buf ((s.ring_of.written + length done) % capacity s.ring_of) v;
        };
        producer = Producer.storing todo (done ++ (v ∷ []));
      })
  push_publishes :
      (s : System) (done : List ℕ)
      → s.producer ≡ Producer.storing [] done
      → Step s (record s {
        ring_of = record (s.ring_of) { written = s.ring_of.written + length done };
        producer = Producer.idle;
        sent = s.sent ++ done;
      })
  pop_loads :
      (s : System) (out_len : ℕ)
      → s.consumer ≡ Consumer.idle
      → Step s (record s {
        consumer =
            Consumer.copying
              (min out_len (s.ring_of.written - s.ring_of.read) / channels * channels)
              [];
      })
  pop_copies :
      (s : System) (todo : ℕ) (copied : List ℕ)
      → s.consumer ≡ Consumer.copying (suc todo) copied
      → Step s (record s {
        consumer = Consumer.copying todo (
            copied
            ++ (get_or s.ring_of.buf ((s.ring_of.read + length copied) % capacity s.ring_of) 0
                ∷ []));
      })
  pop_publishes :
      (s : System) (copied : List ℕ)
      → s.consumer ≡ Consumer.copying 0 copied
      → Step s (record s {
        ring_of = record (s.ring_of) { read = s.ring_of.read + length copied };
        consumer = Consumer.idle;
        got = s.got ++ copied;
      })

-- What the threads reach together from `s`, in any interleaving.
pub data Reach (s : System) : System → Type 0 where
  here : Reach s s
  next : {t u : System} → Reach s t → Step t u → Reach s u

abbrev pub opened : ℕ → System
opened frames = record {
  ring_of = ring frames;
  producer = Producer.idle;
  consumer = Consumer.idle;
  sent = [];
  got = [];
}
