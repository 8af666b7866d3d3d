-- ===== src/Publisher/Threads.antt =====
-- The feeder and the publisher task at once, rtmp.rs: `send` is two steps, since the frame is in the
-- channel before the byte counter moves, and a debit or a drain is several, which another send may come between.
use nbe.Prelude.{
  ℕ, suc, min, ◌+◌, ◌≤◌, ◌≡◌, refl, ap, subst, arith, Option, none, some, List, [], ◌∷◌, length,
}
use nbe.Publisher.{PublishFrame, Publisher, TrySend, sent, full, closed, spawned}
use nbe.Publisher.{admit, settle, debited, fetch_sub, queue_bytes}
use nbe.Publisher.Sequential.{queue_bytes-append}

-- Where the task is: it writes a frame to the socket; drains the channel, having taken some frames of some bytes; has
-- drained it and is to count them as shed; owes the counter bytes; or has loaded the counter and is to subtract a value.
pub data Task : Type 0 where
  idle : Task
  writes owes : ℕ → Task
  drains sheds : ℕ → ℕ → Task
  subtracts : ℕ → ℕ → Task

-- `feeder` is a `send` that has used the channel and not yet moved a counter.
pub record System : Type 0 where
  pub shared : Publisher
  pub feeder : Option (TrySend × PublishFrame)
  pub task : Task

-- Each access of the task to the channel or to an atomic is a step of its own; the end of a write is one too.
pub data Step : System → System → Type 0 where
  send_uses_channel :
      (s : System) (f : PublishFrame)
      → s.feeder ≡ none
      → Step s (record s { shared = (admit s.shared f).1; feeder = some ((admit s.shared f).0, f) })
  send_counts :
      (s : System) (outcome : TrySend) (f : PublishFrame)
      → s.feeder ≡ some (outcome, f)
      → Step s (record s { shared = (settle (outcome, s.shared) f).1; feeder = none })
  task_takes :
      (s : System) (f : PublishFrame) (fs : List PublishFrame)
      → s.task ≡ idle
      → s.shared.queue ≡ f ∷ fs
      → Step s
          (record s { shared = record (s.shared) { queue = fs }; task = writes (length f.payload) })
  task_writes : (s : System) (len : ℕ) → s.task ≡ writes len → Step s (record s { task = owes len })
  task_loads :
      (s : System) (len : ℕ)
      → s.task ≡ owes len
      → Step s (record s { task = subtracts len (debited s.shared len) })
  task_subtracts :
      (s : System) (len value : ℕ)
      → s.task ≡ subtracts len value
      → Step s (record s { shared = fetch_sub s.shared value; task = idle })
  task_drains : (s : System) → s.task ≡ idle → Step s (record s { task = drains 0 0 })
  task_drops :
      (s : System) (f : PublishFrame) (fs : List PublishFrame) (n bytes : ℕ)
      → s.task ≡ drains n bytes
      → s.shared.queue ≡ f ∷ fs
      → Step s (record s {
        shared = record (s.shared) { queue = fs };
        task = drains (n + 1) (bytes + length f.payload);
      })
  task_drained_none :
      (s : System) → s.task ≡ drains 0 0 → s.shared.queue ≡ [] → Step s (record s { task = idle })
  task_drained :
      (s : System) (n bytes : ℕ)
      → s.task ≡ drains (suc n) bytes
      → s.shared.queue ≡ []
      → Step s (record s { task = sheds (suc n) bytes })
  task_sheds :
      (s : System) (n bytes : ℕ)
      → s.task ≡ sheds n bytes
      → Step s
          (record s { shared = record (s.shared) { shed = s.shared.shed + n }; task = owes bytes })

pub data Reach (s : System) : System → Type 0 where
  here : Reach s s
  next : {t u : System} → Reach s t → Step t u → Reach s u

abbrev pub quiet : Publisher → System
quiet p = record { shared = p; feeder = none; task = idle }

-- Bytes in the channel and not yet counted.
abbrev pub uncounted : Option (TrySend × PublishFrame) → ℕ
uncounted none = 0
uncounted (some (sent, f)) = length f.payload
uncounted (some (full, f)) = 0
uncounted (some (closed, f)) = 0

-- Bytes that the task took from the channel and has not debited.
abbrev pub held : Task → ℕ
held idle = 0
held (writes len) = len
held (drains n bytes) = bytes
held (sheds n bytes) = bytes
held (owes len) = len
held (subtracts len value) = len

-- The counter never misses a byte that it has been told of.
abbrev IsCovered : System → Type 0
IsCovered s = queue_bytes s.shared.queue + held s.task ≤ s.shared.buffered + uncounted s.feeder

-- What is about to be subtracted is no more than the frames' bytes, and no more than the counter.
abbrev IsSound : Task → ℕ → Type 0
IsSound idle buffered = Unit {0}
IsSound (writes len) buffered = Unit {0}
IsSound (drains n bytes) buffered = Unit {0}
IsSound (sheds n bytes) buffered = Unit {0}
IsSound (owes len) buffered = Unit {0}
IsSound (subtracts len value) buffered = (value ≤ len) × (value ≤ buffered)

IsSound-mono : (x : Task) (a b : ℕ) → a ≤ b → IsSound x a → IsSound x b
IsSound-mono idle a b h v = tt
IsSound-mono (writes len) a b h v = tt
IsSound-mono (drains n bytes) a b h v = tt
IsSound-mono (sheds n bytes) a b h v = tt
IsSound-mono (owes len) a b h v = tt
IsSound-mono (subtracts len value) a b h v = (v.0, omega (arith, v.1, h))

admit_covered :
    (p : Publisher) (f : PublishFrame) (n : ℕ)
    → queue_bytes p.queue + n ≤ p.buffered
    → queue_bytes (admit p f).1.queue + n
      ≤ (admit p f).1.buffered + uncounted (some ((admit p f).0, f))
unfolding admit
admit_covered p f n h = ground (arith, queue_bytes-append p.queue f)

settle_covered :
    (p : Publisher) (o : TrySend) (f : PublishFrame) (n : ℕ)
    → queue_bytes p.queue + n ≤ p.buffered + uncounted (some (o, f))
    → queue_bytes (settle (o, p) f).1.queue + n ≤ (settle (o, p) f).1.buffered
unfolding settle
settle_covered p sent f n h = omega arith
settle_covered p full f n h = omega arith
settle_covered p closed f n h = omega arith

settle_grows :
    (p : Publisher) (o : TrySend) (f : PublishFrame) → p.buffered ≤ (settle (o, p) f).1.buffered
unfolding settle
settle_grows p sent f = omega arith
settle_grows p full f = omega arith
settle_grows p closed f = omega arith

admit_keeps : (p : Publisher) (f : PublishFrame) → (admit p f).1.buffered ≡ p.buffered
unfolding admit
admit_keeps p f = ground arith

Step-IsCovered :
    {s t : System}
    → Step s t
    → IsCovered s × IsSound s.task s.shared.buffered
    → IsCovered t × IsSound t.task t.shared.buffered
Step-IsCovered (send_uses_channel s f e) (h, v) = (
  admit_covered s.shared f (held s.task) (omega (arith, h, ap uncounted e)),
  IsSound-mono s.task _ _ (omega (arith, admit_keeps s.shared f)) v,
)
Step-IsCovered (send_counts s o f e) (h, v) = (
  omega (
    arith,
    settle_covered s.shared o f (held s.task) (
        subst (λ x. queue_bytes s.shared.queue + held s.task ≤ s.shared.buffered + uncounted x) e
          h),
  ),
  IsSound-mono s.task _ _ (settle_grows s.shared o f) v,
)
Step-IsCovered (task_takes s f fs e q) (h, v) = (omega (arith, h, ap held e, ap queue_bytes q), tt)
Step-IsCovered (task_writes s len e) (h, v) = (omega (arith, h, ap held e), tt)
Step-IsCovered (task_loads s len e) (h, v) =
    unfold debited in (omega (arith, h, ap held e), (omega arith, omega arith))
Step-IsCovered (task_subtracts s len value e) (h, v) =
    let w = subst (λ x. IsSound x s.shared.buffered) e v in
    unfold fetch_sub in (omega (arith, h, ap held e, w.0, w.1), tt)
Step-IsCovered (task_drains s e) (h, v) = (omega (arith, h, ap held e), tt)
Step-IsCovered (task_drops s f fs n bytes e q) (h, v) =
    (omega (arith, h, ap held e, ap queue_bytes q), tt)
Step-IsCovered (task_drained_none s e q) (h, v) = (omega (arith, h, ap held e), tt)
Step-IsCovered (task_drained s n bytes e q) (h, v) = (omega (arith, h, ap held e), tt)
Step-IsCovered (task_sheds s n bytes e) (h, v) = (omega (arith, h, ap held e), tt)

Reach-IsCovered :
    {s t : System}
    → IsCovered s × IsSound s.task s.shared.buffered
    → Reach s t
    → IsCovered t × IsSound t.task t.shared.buffered
Reach-IsCovered h here = h
Reach-IsCovered h (next r st) = Step-IsCovered st (Reach-IsCovered h r)

-- In every interleaving of the feeder and a task that lives, access by access: the counter, with the bytes of a send that has
-- not counted its frame yet, is no less than the bytes in the channel and those that the task has taken and not
-- debited; and what the task is about to subtract is no more than the counter, so that the counter does not wrap.
pub Reach-covered :
    {t : System}
    → Reach (quiet spawned) t
    → (queue_bytes t.shared.queue + held t.task ≤ t.shared.buffered + uncounted t.feeder)
      × ((len value : ℕ) → t.task ≡ subtracts len value → value ≤ t.shared.buffered)
Reach-covered {t} r =
    let (h, v) = Reach-IsCovered (omega arith, tt) r in
    (h, λ len value e. (subst (λ x. IsSound x t.shared.buffered) e v).1)

-- Where the task takes a frame and debits it between the two steps of its send, the debit finds nothing to take, and
-- the credit stays: the counter holds the frame's bytes with both sides idle and the channel empty, for every frame.
pub credit_left :
    (f : PublishFrame)
    → (t : System) × Reach (quiet spawned) t
      × (t.feeder ≡ none)
      × (t.task ≡ idle)
      × (t.shared.queue ≡ [])
      × (t.shared.buffered ≡ length f.payload)
unfolding admit settle debited fetch_sub
credit_left f =
    let s0 = next here (send_uses_channel (quiet spawned) f refl) in
    let s1 = next s0 (task_takes _ f [] refl refl) in
    let s2 = next s1 (task_writes _ (length f.payload) refl) in
    let s3 = next s2 (task_loads _ (length f.payload) refl) in
    let s4 = next s3 (task_subtracts _ (length f.payload) (min (length f.payload) 0) refl) in
    (_, next s4 (send_counts _ sent f refl), refl, refl, refl, omega arith)
