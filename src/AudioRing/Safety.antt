-- ===== src/AudioRing/Safety.antt =====
-- The ring between its two threads, audio_ring.rs: no interleaving loses, repeats or reorders a
-- sample, or reads one that is half written.
use nbe.Prelude.{
  ℕ, suc, ◌+◌, ◌-◌, ◌%◌, ◌≤◌, ◌≡◌, refl, sym, ap, ◌∙◌, subst, arith, List, [], ◌∷◌, ◌++◌, length,
  get_or, append_assoc, length-append, length-take,
}
use nbe.AudioRing.{Ring, ring, copy, capacity, push_count}
use nbe.AudioRing.Window.{copy-add, copy_snoc}
use nbe.AudioRing.Refine.{contents}
use nbe.AudioRing.Threads.{
  Consumer, System, Step, push_loads, push_stores, push_publishes, pop_loads, pop_copies,
  pop_publishes, Reach, here, next, opened,
}
use nbe.AudioRing.Publish.{ConsumerOk, IsSafe, ProducerOk-read, store-IsSafe, publish-IsSafe}

-- The oldest samples and the rest of the window.
window_parts :
    (r : Ring) (copied : List ℕ)
    → r.read + length copied ≤ r.written
    → copy (capacity r) r.buf r.read (length copied) ≡ copied
    → contents r
      ≡ copied
        ++ copy (capacity r) r.buf (r.read + length copied) (r.written - (r.read + length copied))
window_parts r copied h e =
    ap (copy (capacity r) r.buf r.read) parts
    ∙ copy-add (capacity r) r.buf r.read (length copied) (r.written - (r.read + length copied))
    ∙ ap (λ xs. xs ++ rest) e
  where
    rest : List ℕ
    rest = copy (capacity r) r.buf (r.read + length copied) (r.written - (r.read + length copied))

    parts : r.written - r.read ≡ length copied + (r.written - (r.read + length copied))
    parts = omega arith

copy-IsSafe :
    (s : System) (todo : ℕ) (copied : List ℕ)
    → s.consumer ≡ Consumer.copying (suc todo) copied
    → IsSafe s
    → IsSafe (record s {
      consumer = Consumer.copying todo (
          copied
          ++ (get_or s.ring_of.buf ((s.ring_of.read + length copied) % capacity s.ring_of) 0 ∷ []));
    })
copy-IsSafe s todo copied e safe = record {
  popped = safe.popped;
  room = safe.room;
  producing = safe.producing;
  consuming = (
    omega (arith, length-append {0} copied (slot ∷ []), ok.0),
    copy_snoc (capacity s.ring_of) s.ring_of.buf s.ring_of.read copied slot ok.1 refl,
  );
  history = safe.history;
}
  where
    slot : ℕ
    slot = get_or s.ring_of.buf ((s.ring_of.read + length copied) % capacity s.ring_of) 0

    ok : ConsumerOk s.ring_of (Consumer.copying (suc todo) copied)
    ok = subst (ConsumerOk s.ring_of) e safe.consuming

take-IsSafe :
    (s : System) (copied : List ℕ)
    → s.consumer ≡ Consumer.copying 0 copied
    → IsSafe s
    → IsSafe (record s {
      ring_of = record (s.ring_of) { read = s.ring_of.read + length copied };
      consumer = Consumer.idle;
      got = s.got ++ copied;
    })
take-IsSafe s copied e safe = record {
  popped = omega (arith, ok.0);
  room = omega (arith, safe.room);
  producing = ProducerOk-read s.ring_of s.producer (length copied) safe.producing;
  consuming = tt;
  history =
      append_assoc s.got copied _
      ∙ ap (λ xs. s.got ++ xs) (sym (window_parts s.ring_of copied (omega (arith, ok.0)) ok.1))
      ∙ safe.history;
}
  where
    ok : ConsumerOk s.ring_of (Consumer.copying 0 copied)
    ok = subst (ConsumerOk s.ring_of) e safe.consuming

Step-IsSafe : {s t : System} → Step s t → IsSafe s → IsSafe t
Step-IsSafe (push_loads s samples e) safe = record {
  popped = safe.popped;
  room = safe.room;
  producing = (
    omega (arith, length-take {0} (push_count s.ring_of samples) samples, safe.room, safe.popped),
    refl,
  );
  consuming = safe.consuming;
  history = safe.history;
}
Step-IsSafe (push_stores s v todo done e) safe = store-IsSafe s v todo done e safe
Step-IsSafe (push_publishes s done e) safe = publish-IsSafe s done e safe
Step-IsSafe (pop_loads s out_len e) safe = record {
  popped = safe.popped;
  room = safe.room;
  producing = safe.producing;
  consuming = (omega (arith, safe.popped), refl);
  history = safe.history;
}
Step-IsSafe (pop_copies s todo copied e) safe = copy-IsSafe s todo copied e safe
Step-IsSafe (pop_publishes s copied e) safe = take-IsSafe s copied e safe

opened-IsSafe : (frames : ℕ) → IsSafe (opened frames)
unfolding ring
opened-IsSafe frames = record {
  popped = omega arith;
  room = omega arith;
  producing = tt;
  consuming = tt;
  history = refl;
}

Reach-IsSafe : {s t : System} → IsSafe s → Reach s t → IsSafe t
Reach-IsSafe safe here = safe
Reach-IsSafe safe (next r st) = Step-IsSafe st (Reach-IsSafe safe r)

-- In every interleaving of the two threads on a new ring, what the callback has returned, followed
-- by what the ring holds, is what the audio thread has published: no sample is lost, repeated,
-- reordered or read before it is whole.
pub Reach-fifo :
    (frames : ℕ) {t : System} → Reach (opened frames) t → t.got ++ contents t.ring_of ≡ t.sent
Reach-fifo frames r = (Reach-IsSafe (opened-IsSafe frames) r).history

-- In every interleaving the fill of the ring is no more than its capacity, and `written - read`
-- does not go below zero.
pub Reach-bounds :
    (frames : ℕ) {t : System}
    → Reach (opened frames) t
    → (t.ring_of.read ≤ t.ring_of.written)
      × (t.ring_of.written - t.ring_of.read ≤ capacity t.ring_of)
Reach-bounds frames r = omega (
  arith,
  (Reach-IsSafe (opened-IsSafe frames) r).popped,
  (Reach-IsSafe (opened-IsSafe frames) r).room,
)
