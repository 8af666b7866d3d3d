-- ===== src/AudioTap/Runs.antt =====
-- A tap over a series of pushes, drains and clears, audio_tap.rs, against a list that keeps its latest samples.
use nbe.Prelude.{
  ℕ, zero, ◌+◌, ◌-◌, ◌%◌, ◌≡◌, refl, ◌∙◌, ap, arith, max, List, [], ◌∷◌, ◌++◌, length,
  length-append, length-replicate,
}
use nbe.AudioRing.{copy, channels}
use nbe.AudioRing.Window.{length-copy}
use nbe.AudioTap.Latest.{latest, whole}
use nbe.AudioTap.{
  AudioTap, room, with_capacity, evict, push_frame, push_frames, push, len, drain, clear,
}
use nbe.AudioTap.Refine.{contents, IsValid, push_frame-IsValid, push_frames-contents}

pub data Call : Type 0 where
  pushes : List ℕ → Call
  drains clears : Call

-- The tap, and what its drains have returned, oldest first.
unfoldable pub apply : AudioTap × List ℕ → Call → AudioTap × List ℕ
unfolding push drain clear
apply (t, got) (pushes xs) = (push t xs, got)
apply (t, got) drains = let (out, u) = drain t in (u, got ++ out)
apply (t, got) clears = (clear t, got)

unfoldable pub run : AudioTap × List ℕ → List Call → AudioTap × List ℕ
unfolding apply
run s [] = s
run s (c ∷ cs) = run (apply s c) cs

-- The queue that a tap stands for: what it holds, and what has been taken.
abbrev pub queue_apply : ℕ → List ℕ × List ℕ → Call → List ℕ × List ℕ
queue_apply n (held, got) (pushes xs) = (latest n (held ++ whole xs), got)
queue_apply n (held, got) drains = ([], got ++ held)
queue_apply n (held, got) clears = ([], got)

abbrev pub queue_run : ℕ → List ℕ × List ℕ → List Call → List ℕ × List ℕ
queue_run n q [] = q
queue_run n q (c ∷ cs) = queue_run n (queue_apply n q c) cs

abbrev pub pushed : List Call → ℕ
pushed [] = 0
pushed (pushes xs ∷ cs) = length xs + pushed cs
pushed (drains ∷ cs) = pushed cs
pushed (clears ∷ cs) = pushed cs

abbrev amount : Call → ℕ
amount (pushes xs) = length xs
amount drains = 0
amount clears = 0

-- The samples that have gone or are held.
abbrev spent : AudioTap × List ℕ → ℕ
spent (t, got) = t.dropped + length got + (t.head - t.tail)

spent-push_frames :
    (t : AudioTap) (xs : List ℕ)
    → IsValid t
    → (push_frames t xs).dropped
        + ((push_frames t xs).head - (push_frames t xs).tail)
        + length xs % 2
      ≡ t.dropped + (t.head - t.tail) + length xs
unfolding push_frames
spent-push_frames t [] v = omega arith
spent-push_frames t (last ∷ []) v = omega arith
spent-push_frames t (l ∷ r ∷ rest) v =
    omega (arith, one, spent-push_frames (push_frame t l r) rest (push_frame-IsValid t l r v))
  where
    one :
        (push_frame t l r).dropped + ((push_frame t l r).head - (push_frame t l r).tail)
        ≡ t.dropped + (t.head - t.tail) + 2
    one = unfold push_frame evict in ground (arith, v)

len_all : (t : AudioTap) → IsValid t → len t ≡ t.head - t.tail
len_all t v = omega (arith, v)

emptied :
    (t : AudioTap) (dropped : ℕ)
    → IsValid t
    → contents (record t { tail = t.tail + len t; dropped = dropped }) ≡ []
emptied t dropped v = ap (copy (room t) t.buf (t.tail + len t)) {y = 0} (omega (arith, v))

emptied-IsValid :
    (t : AudioTap) (dropped : ℕ)
    → IsValid t
    → IsValid (record t { tail = t.tail + len t; dropped = dropped })
emptied-IsValid t dropped v = ground (arith, v, len_all t v)

-- A tap, what was taken from it and the queue that it stands for.
record Stands (n : ℕ) (s : AudioTap × List ℕ) (q : List ℕ × List ℕ) : Type 0 where
  valid : IsValid s.0
  sized : room s.0 ≡ n
  held : contents s.0 ≡ q.0
  taken : s.1 ≡ q.1

apply-Stands :
    (n : ℕ) (s : AudioTap × List ℕ) (q : List ℕ × List ℕ) (c : Call)
    → Stands n s q
    → Stands n (apply s c) (queue_apply n q c)
unfolding apply push drain clear
apply-Stands n (t, got) q (pushes xs) v =
    let (c, w, m) = push_frames-contents (counted t xs) xs (counted-IsValid t xs v.valid) in
    record {
      valid = w;
      sized = m ∙ v.sized;
      held =
          c
          ∙ ap (λ k. latest k (contents t ++ whole xs)) v.sized
          ∙ ap (λ h. latest n (h ++ whole xs)) v.held;
      taken = v.taken;
    }
  where
    counted : AudioTap → List ℕ → AudioTap
    counted t xs = record t { dropped = t.dropped + length xs % channels }

    counted-IsValid : (t : AudioTap) (xs : List ℕ) → IsValid t → IsValid (counted t xs)
    counted-IsValid t xs w = ground (arith, w)
apply-Stands n (t, got) q drains v = record {
  valid = emptied-IsValid t t.dropped v.valid;
  sized = v.sized;
  held = emptied t t.dropped v.valid;
  taken =
      ap (λ k. got ++ copy (room t) t.buf t.tail k) (len_all t v.valid)
      ∙ ap (λ h. got ++ h) v.held
      ∙ ap (λ g. g ++ q.0) v.taken;
}
apply-Stands n (t, got) q clears v = record {
  valid = emptied-IsValid t (t.dropped + len t) v.valid;
  sized = v.sized;
  held = emptied t (t.dropped + len t) v.valid;
  taken = v.taken;
}

spent-apply :
    (s : AudioTap × List ℕ) (c : Call) → IsValid s.0 → spent (apply s c) ≡ spent s + amount c
unfolding apply push drain clear
spent-apply (t, got) (pushes xs) v = omega (
  arith,
  spent-push_frames (record t { dropped = t.dropped + length xs % channels }) xs
      (ground (arith, v)),
)
spent-apply (t, got) drains v = omega (
  arith,
  v,
  length-append got (copy (room t) t.buf t.tail (len t)),
  length-copy (room t) t.buf t.tail (len t),
)
spent-apply (t, got) clears v = omega (arith, v)

run-Stands :
    (n : ℕ) (s : AudioTap × List ℕ) (q : List ℕ × List ℕ) (cs : List Call)
    → Stands n s q
    → Stands n (run s cs) (queue_run n q cs) × (spent (run s cs) ≡ spent s + pushed cs)
unfolding run
run-Stands n s q [] v = (v, omega arith)
run-Stands n s q (c ∷ cs) v =
    let (w, e) = run-Stands n (apply s c) (queue_apply n q c) cs (apply-Stands n s q c v) in
    (w, omega (arith, e, spent-apply s c v.valid, amounts c cs))
  where
    amounts : (c : Call) (cs : List Call) → pushed (c ∷ cs) ≡ amount c + pushed cs
    amounts (pushes xs) cs = refl
    amounts drains cs = omega arith
    amounts clears cs = omega arith

new-Stands :
    (samples : ℕ) → Stands (room (with_capacity samples)) (with_capacity samples, []) ([], [])
unfolding with_capacity
new-Stands samples =
    let size = length-replicate {0} (max (samples - samples % channels) channels) zero in
    record { valid = ground (arith, size); sized = refl; held = refl; taken = refl }

-- Over any pushes, drains and clears, each of them whole, a new tap of any size stands for a queue that keeps its latest
-- samples, as many as the tap has room for, and takes them in whole frames: it holds what the queue holds, and its
-- drains have returned what was taken from the queue. Every sample pushed was returned, is counted as dropped, or is held.
pub run-refines :
    (samples : ℕ) (cs : List Call)
    → let new = with_capacity samples in
      let (t, got) = run (new, []) cs in
      let (held, taken) = queue_run (room new) ([], []) cs in
      (contents t ≡ held)
      × (got ≡ taken)
      × (pushed cs ≡ length got + t.dropped + length (contents t))
run-refines samples cs =
    let new = with_capacity samples in
    let (v, e) = run-Stands (room new) (new, []) ([], []) cs (new-Stands samples) in
    let t = (run (new, []) cs).0 in
    (
      v.held,
      v.taken,
      omega (arith, e, unspent, length-copy (room t) t.buf t.tail (t.head - t.tail)),
    )
  where
    unspent : spent (with_capacity samples, []) ≡ 0
    unspent = unfold with_capacity in refl
