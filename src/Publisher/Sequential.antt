-- ===== src/Publisher/Sequential.antt =====
-- The publisher with whole calls one after another, rtmp.rs: its counter, its channel and its
-- cached sequence headers.
use nbe.Prelude.{
  ℕ, ◌+◌, ◌≤◌, max, ◌≡◌, refl, ap, ◌∙◌, arith, true, false, ◌&&◌, Option, none, some, List, [], ◌∷◌,
  ◌++◌, length, length-append, ◌==◌, if◌then◌else◌, ◌⊎◌, inl,
}
use nbe.Rtmp.{msg_audio, msg_video}
use nbe.Publisher.{PublishFrame, Publisher, spawned, is_seq, cache, publish_channel_bound}
use nbe.Publisher.{send, recv, debit, drain_stale, queue_bytes}

-- A call of `send`; the task's receipt of one frame with its debit; `drain_stale`; the task's end,
-- which drops the receiver and what is in the channel.
pub data Call : Type 0 where
  sends : PublishFrame → Call
  receives : Call
  drains : Call
  ends : Call

-- The body of the live loop's arm for a frame, the socket apart.
unfoldable pub receive : Publisher → Publisher
unfolding recv debit
receive p =
    let (f, p') = recv p in elim f [ none ↦ p' | some frame ↦ debit p' (length frame.payload) ]

unfoldable pub close : Publisher → Publisher
close p = record p { queue = []; open_end = false }

unfoldable pub apply : Publisher → Call → Publisher
apply p (sends f) = (send p f).1
apply p receives = receive p
apply p drains = drain_stale p
apply p ends = close p

unfoldable pub run : Publisher → List Call → Publisher
run p [] = p
run p (c ∷ cs) = run (apply p c) cs

-- The counter is the bytes in the channel, and the channel keeps its bound.
record IsExact (p : Publisher) : Type 0 where
  counted : (p.open_end ≡ false) ⊎ (p.buffered ≡ queue_bytes p.queue)
  bounded : length p.queue ≤ publish_channel_bound

pub queue_bytes-append :
    (fs : List PublishFrame) (f : PublishFrame)
    → queue_bytes (fs ++ (f ∷ [])) ≡ queue_bytes fs + length f.payload
queue_bytes-append [] f = omega arith
queue_bytes-append (g ∷ fs) f = omega (arith, queue_bytes-append fs f)

send-IsExact : (p : Publisher) (f : PublishFrame) → IsExact p → IsExact (send p f).1
unfolding send
send-IsExact p f v = ground (arith, queue_bytes-append p.queue f, length-append p.queue (f ∷ []))

receive-IsExact : (p : Publisher) → IsExact p → IsExact (receive p)
unfolding receive
receive-IsExact p v = ground arith

drain_stale-IsExact : (p : Publisher) → IsExact p → IsExact (drain_stale p)
unfolding drain_stale
drain_stale-IsExact p v = ground arith

apply-IsExact : (p : Publisher) (c : Call) → IsExact p → IsExact (apply p c)
unfolding apply
apply-IsExact p (sends f) v = send-IsExact p f v
apply-IsExact p receives v = receive-IsExact p v
apply-IsExact p drains v = drain_stale-IsExact p v
apply-IsExact p ends v = unfold close in record { counted = inl refl; bounded = omega arith }

run-IsExact : (p : Publisher) (cs : List Call) → IsExact p → IsExact (run p cs)
unfolding run
run-IsExact p [] v = v
run-IsExact p (c ∷ cs) v = run-IsExact (apply p c) cs (apply-IsExact p c v)

-- Where calls do not overlap, the counter of a publisher whose task lives is exactly the bytes in
-- the channel, and the channel holds no more than 64 frames.
pub run-exact :
    (cs : List Call)
    → (run spawned cs).open_end ≡ true
    → ((run spawned cs).buffered ≡ queue_bytes (run spawned cs).queue)
      × (length (run spawned cs).queue ≤ publish_channel_bound)
run-exact cs e = ground (arith, run-IsExact spawned cs (omega arith))

-- The first sequence header of a kind among the frames sent.
abbrev pub first_seq : ℕ → ℕ → List Call → Option (ℕ × List ℕ)
first_seq kind first [] = none
first_seq kind first (sends f ∷ cs) =
    let later = first_seq kind first cs in
    if f.kind == kind && is_seq first f.payload then some (f.kind, f.payload) else later
first_seq kind first (receives ∷ cs) = first_seq kind first cs
first_seq kind first (drains ∷ cs) = first_seq kind first cs
first_seq kind first (ends ∷ cs) = first_seq kind first cs

-- The largest timestamp sent.
abbrev pub latest : ℕ → List Call → ℕ
latest ts [] = ts
latest ts (sends f ∷ cs) = latest (max ts f.ts_ms) cs
latest ts (receives ∷ cs) = latest ts cs
latest ts (drains ∷ cs) = latest ts cs
latest ts (ends ∷ cs) = latest ts cs

-- What one call leaves in the caches and the last timestamp.
abbrev kept : ℕ → ℕ → Call → Option (ℕ × List ℕ) → Option (ℕ × List ℕ)
kept kind first (sends f) old = cache kind first f old
kept kind first receives old = old
kept kind first drains old = old
kept kind first ends old = old

abbrev later : Call → ℕ → ℕ
later (sends f) ts = max ts f.ts_ms
later receives ts = ts
later drains ts = ts
later ends ts = ts

receive_keeps :
    (p : Publisher)
    → ((receive p).cached_video_seq ≡ p.cached_video_seq)
      × ((receive p).cached_audio_seq ≡ p.cached_audio_seq)
      × ((receive p).last_ts ≡ p.last_ts)
unfolding receive
receive_keeps p = ground arith

apply_keeps :
    (p : Publisher) (c : Call)
    → ((apply p c).cached_video_seq ≡ kept msg_video 0x17 c p.cached_video_seq)
      × ((apply p c).cached_audio_seq ≡ kept msg_audio 0xAF c p.cached_audio_seq)
      × ((apply p c).last_ts ≡ later c p.last_ts)
unfolding apply
apply_keeps p (sends f) = unfold send in ground arith
apply_keeps p receives = receive_keeps p
apply_keeps p drains = unfold drain_stale in ground arith
apply_keeps p ends = unfold close in (refl, refl, refl)

abbrev or_else : Option (ℕ × List ℕ) → Option (ℕ × List ℕ) → Option (ℕ × List ℕ)
or_else none other = other
or_else (some a) other = some a

kept-first_seq :
    (kind first : ℕ) (c : Call) (cs : List Call) (old : Option (ℕ × List ℕ))
    → or_else (kept kind first c old) (first_seq kind first cs)
      ≡ or_else old (first_seq kind first (c ∷ cs))
kept-first_seq kind first (sends f) cs none = ground arith
kept-first_seq kind first (sends f) cs (some a) = refl
kept-first_seq kind first receives cs old = refl
kept-first_seq kind first drains cs old = refl
kept-first_seq kind first ends cs old = refl

later-latest : (c : Call) (cs : List Call) (ts : ℕ) → latest (later c ts) cs ≡ latest ts (c ∷ cs)
later-latest (sends f) cs ts = refl
later-latest receives cs ts = refl
later-latest drains cs ts = refl
later-latest ends cs ts = refl

run_keeps :
    (p : Publisher) (cs : List Call)
    → ((run p cs).cached_video_seq ≡ or_else p.cached_video_seq (first_seq msg_video 0x17 cs))
      × ((run p cs).cached_audio_seq ≡ or_else p.cached_audio_seq (first_seq msg_audio 0xAF cs))
      × ((run p cs).last_ts ≡ latest p.last_ts cs)
unfolding run
run_keeps p [] = (nil p.cached_video_seq, nil p.cached_audio_seq, refl)
  where
    nil : (o : Option (ℕ × List ℕ)) → o ≡ or_else o none
    nil none = refl
    nil (some a) = refl
run_keeps p (c ∷ cs) =
    let (hv, ha, ht) = apply_keeps p c in
    let (rv, ra, rt) = run_keeps (apply p c) cs in
    (
      rv
          ∙ ap (λ o. or_else o (first_seq msg_video 0x17 cs)) hv
          ∙ kept-first_seq msg_video 0x17 c cs p.cached_video_seq,
      ra
          ∙ ap (λ o. or_else o (first_seq msg_audio 0xAF cs)) ha
          ∙ kept-first_seq msg_audio 0xAF c cs p.cached_audio_seq,
      rt ∙ ap (λ ts. latest ts cs) ht ∙ later-latest c cs p.last_ts,
    )

-- Whatever is shed, received or drained in between, the cached headers are the first video and the
-- first audio sequence header ever sent, and the replay timestamp is the largest ever sent.
pub run-cached :
    (cs : List Call)
    → ((run spawned cs).cached_video_seq ≡ first_seq msg_video 0x17 cs)
      × ((run spawned cs).cached_audio_seq ≡ first_seq msg_audio 0xAF cs)
      × ((run spawned cs).last_ts ≡ latest 0 cs)
run-cached cs = run_keeps spawned cs
