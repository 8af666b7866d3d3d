-- ===== src/AudioRing/Publish.antt =====
-- What the audio thread relies on and what its steps keep, audio_ring.rs.
use nbe.Prelude.{
  ℕ, suc, ◌+◌, ◌-◌, ◌%◌, ◌≤◌, ◌<◌, ◌≡◌, sym, ap, ◌∙◌, subst, arith, List, [], ◌∷◌, ◌++◌, length,
  set, append_assoc, length-append, length-set, get_or-set_self,
}
use nbe.AudioRing.{Ring, copy, capacity}
use nbe.AudioRing.Window.{copy-add, copy-set, copy_snoc, mod_below}
use nbe.AudioRing.Refine.{contents}
use nbe.AudioRing.Threads.{Producer, Consumer, System}

-- What the audio thread relies on in its loop: there is room for the rest, and what it has stored
-- stands behind the published samples.
abbrev pub ProducerOk : Ring → Producer → Type 0
ProducerOk r Producer.idle = Unit
ProducerOk r (Producer.storing todo done) =
    (r.written + length done + length todo ≤ r.read + capacity r)
    × (copy (capacity r) r.buf r.written (length done) ≡ done)

-- What the callback relies on: its samples are published, and those it has copied are the oldest.
abbrev pub ConsumerOk : Ring → Consumer → Type 0
ConsumerOk r Consumer.idle = Unit
ConsumerOk r (Consumer.copying todo copied) =
    (r.read + length copied + todo ≤ r.written)
    × (copy (capacity r) r.buf r.read (length copied) ≡ copied)

pub record IsSafe (s : System) : Type 0 where
  pub popped : s.ring_of.read ≤ s.ring_of.written
  pub room : s.ring_of.written ≤ s.ring_of.read + capacity s.ring_of
  pub producing : ProducerOk s.ring_of s.producer
  pub consuming : ConsumerOk s.ring_of s.consumer
  pub history : s.got ++ contents s.ring_of ≡ s.sent

-- A slot written behind `n` samples from `rd` on, in a ring that has room for it.
set_window :
    (buf : List ℕ) (rd n w v : ℕ)
    → rd + n ≤ w
    → w < rd + length buf
    → copy (length (set buf (w % length buf) v)) (set buf (w % length buf) v) rd n
      ≡ copy (length buf) buf rd n
set_window buf rd n w v h k =
    rw (length-set buf (w % length buf) v) (copy-set (length buf) buf rd n w v h k)

-- The samples behind a window, with the next slot.
set_next :
    (buf done : List ℕ) (w v : ℕ)
    → length done < length buf
    → copy (length buf) buf w (length done) ≡ done
    → copy
        (length (set buf ((w + length done) % length buf) v))
        (set buf ((w + length done) % length buf) v)
        w
        (length (done ++ (v ∷ [])))
      ≡ done ++ (v ∷ [])
set_next buf done w v h e = rw (length-set buf i v) (
    copy_snoc (length buf) (set buf i v) w done v
      (copy-set (length buf) buf w (length done) (w + length done) v (omega arith) (omega arith)
        ∙ e)
      (get_or-set_self buf i v 0 (mod_below (length buf) (w + length done) (omega arith))))
  where
    i : ℕ
    i = (w + length done) % length buf

ConsumerOk-set :
    (r : Ring) (c : Consumer) (w v : ℕ)
    → r.written ≤ w
    → w < r.read + capacity r
    → ConsumerOk r c
    → ConsumerOk (record r { buf = set r.buf (w % capacity r) v }) c
ConsumerOk-set r Consumer.idle w v h k ok = tt
ConsumerOk-set r (Consumer.copying todo copied) w v h k ok =
    (ok.0, set_window r.buf r.read (length copied) w v (omega arith) k ∙ ok.1)

ConsumerOk-written :
    (r : Ring) (c : Consumer) (n : ℕ)
    → ConsumerOk r c
    → ConsumerOk (record r { written = r.written + n }) c
ConsumerOk-written r Consumer.idle n ok = tt
ConsumerOk-written r (Consumer.copying todo copied) n ok = (omega arith, ok.1)

pub ProducerOk-read :
    (r : Ring) (p : Producer) (n : ℕ)
    → ProducerOk r p
    → ProducerOk (record r { read = r.read + n }) p
ProducerOk-read r Producer.idle n ok = tt
ProducerOk-read r (Producer.storing todo done) n ok = (omega arith, ok.1)

pub store-IsSafe :
    (s : System) (v : ℕ) (todo done : List ℕ)
    → s.producer ≡ Producer.storing (v ∷ todo) done
    → IsSafe s
    → IsSafe (record s {
      ring_of = record (s.ring_of) {
        buf = set s.ring_of.buf ((s.ring_of.written + length done) % capacity s.ring_of) v;
      };
      producer = Producer.storing todo (done ++ (v ∷ []));
    })
store-IsSafe s v todo done e safe = record {
  popped = safe.popped;
  room = omega (arith, length-set s.ring_of.buf i v, safe.room);
  producing = (
    omega (arith, length-set s.ring_of.buf i v, length-append {0} done (v ∷ []), fits),
    set_next s.ring_of.buf done s.ring_of.written v (omega (arith, fits, safe.popped)) ok.1,
  );
  consuming =
      ConsumerOk-set s.ring_of s.consumer (s.ring_of.written + length done) v (omega arith)
        (omega (arith, fits)) safe.consuming;
  history =
      ap (λ xs. s.got ++ xs)
        (set_window s.ring_of.buf s.ring_of.read (s.ring_of.written - s.ring_of.read)
          (s.ring_of.written + length done) v (omega (arith, safe.popped)) (omega (arith, fits)))
      ∙ safe.history;
}
  where
    i : ℕ
    i = (s.ring_of.written + length done) % capacity s.ring_of

    ok : ProducerOk s.ring_of (Producer.storing (v ∷ todo) done)
    ok = subst (ProducerOk s.ring_of) e safe.producing

    fits : s.ring_of.written + length done + suc (length todo) ≤ s.ring_of.read + capacity s.ring_of
    fits = ok.0

-- Publishing what stands behind the window extends it.
window_grows :
    (r : Ring) (done : List ℕ)
    → r.read ≤ r.written
    → copy (capacity r) r.buf r.written (length done) ≡ done
    → copy (capacity r) r.buf r.read (r.written + length done - r.read) ≡ contents r ++ done
window_grows r done h e = rw (more, copy-add, whole) (ap (λ xs. contents r ++ xs) e)
  where
    more : r.written + length done - r.read ≡ r.written - r.read + length done
    more = omega arith

    whole : r.read + (r.written - r.read) ≡ r.written
    whole = omega arith

pub publish-IsSafe :
    (s : System) (done : List ℕ)
    → s.producer ≡ Producer.storing [] done
    → IsSafe s
    → IsSafe (record s {
      ring_of = record (s.ring_of) { written = s.ring_of.written + length done };
      producer = Producer.idle;
      sent = s.sent ++ done;
    })
publish-IsSafe s done e safe = record {
  popped = omega (arith, safe.popped);
  room = omega (arith, ok.0);
  producing = tt;
  consuming = ConsumerOk-written s.ring_of s.consumer (length done) safe.consuming;
  history =
      ap (λ xs. s.got ++ xs) longer
      ∙ sym (append_assoc s.got (contents s.ring_of) done)
      ∙ ap (λ xs. xs ++ done) safe.history;
}
  where
    ok : ProducerOk s.ring_of (Producer.storing [] done)
    ok = subst (ProducerOk s.ring_of) e safe.producing

    longer :
        contents (record (s.ring_of) { written = s.ring_of.written + length done })
        ≡ contents s.ring_of ++ done
    longer = window_grows s.ring_of done safe.popped ok.1
