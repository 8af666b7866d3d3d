-- ===== src/Mp4/Ends.antt =====
-- The loop of `try_emit`, writer.rs, comes to its end without a panic: the drained samples have durations and the
-- packets have their bytes.
use nbe.Prelude.{
  ℕ, zero, suc, ◌+◌, ◌-◌, ◌≤◌, ◌<◌, ◌≡◌, ◌⊎◌, refl, sym, ap, ◌∙◌, arith, Bool, true, false, ◌&&◌,
  inl, inr, none, some, Option-cases, List, [], ◌∷◌, length, take, drop, length-drop, if◌then◌else◌,
  ◌>>=◌,
}
use nbe.Mp4.{OutSample, BufferedVideo, RecordingWriter, fragment_ticks}
use nbe.Mp4.Emit.{
  Drained, drain_one, drain_video, drain_audio, sum_lens, emitted, emit_fragment, in_window,
  ticks_of, wanted, Round, stays, emits, fixed_of, round, try_emit, fuel_of,
}

-- The first `n` samples are there and have durations.
abbrev pub fixed_prefix : ℕ → List BufferedVideo → Bool
fixed_prefix zero ss = true
fixed_prefix (suc n) [] = false
fixed_prefix (suc n) (s ∷ ss) =
    (elim s.duration_ticks [ none ↦ false | some d ↦ true ]) && fixed_prefix n ss

in_window-fixed :
    (n k t : ℕ) (ss : List BufferedVideo)
    → fixed_prefix n ss ≡ true
    → (fixed_prefix ((in_window n ss k t).0) ss ≡ true) × ((in_window n ss k t).0 ≤ n)
in_window-fixed zero k t ss h = (refl, omega arith)
in_window-fixed (suc n) k t [] h = (refl, omega arith)
in_window-fixed (suc n) k t (s ∷ ss) h =
    let (a, b) = in_window-fixed n k (t + ticks_of s) ss (ground (arith, h)) in
    (ground (arith, h, a, b), ground (arith, h, a, b))

drain_video-fixed :
    (n : ℕ) (ss : List BufferedVideo)
    → fixed_prefix n ss ≡ true
    → (r : Drained) × (drain_video n ss ≡ some r)
drain_video-fixed zero ss h = (record { samples = []; bytes = []; ticks = 0 }, refl)
drain_video-fixed (suc n) [] h = absurd (ground (arith, h))
drain_video-fixed (suc n) (s ∷ ss) h =
    let (r, e) = drain_video-fixed n ss (ground (arith, h)) in
    elim (Option-cases (drain_one s r)) [
      | inl k ↦ absurd (ground (arith, h, k))
      | inr (r', k) ↦ (r', ap (λ o. o >>= λ r. drain_one s r) e ∙ k)
    ]

drain_audio-held :
    (n : ℕ) (lens bytes : List ℕ)
    → n ≤ length lens
    → sum_lens lens ≤ length bytes
    → (r : List OutSample × List ℕ) × (drain_audio n lens bytes ≡ some r)
drain_audio-held zero lens bytes h k = (([], []), refl)
drain_audio-held (suc n) [] bytes h k = absurd (omega (arith, h))
drain_audio-held (suc n) (len ∷ lens) bytes h k =
    let (r, e) =
      drain_audio-held n lens (drop len bytes) (omega (arith, h))
        (omega (arith, k, length-drop len bytes)) in
    elim (Option-cases (drain_audio (suc n) (len ∷ lens) bytes)) [
      | inl p ↦ absurd (ground (arith, e, k, p))
      | inr (r', p) ↦ (r', p)
    ]

wanted-le : (lens : List ℕ) (k t : ℕ) → wanted lens k t ≤ length lens
wanted-le [] k t = omega arith
wanted-le (len ∷ lens) k t = ground (arith, wanted-le lens (k + 1) t)

pub fixed_prefix-drop :
    (m n : ℕ) (ss : List BufferedVideo)
    → fixed_prefix (m + n) ss ≡ true
    → fixed_prefix n (drop m ss) ≡ true
fixed_prefix-drop zero n ss h =
    let e : zero + n ≡ n = omega arith in ap (λ i. fixed_prefix i ss) (sym e) ∙ h
fixed_prefix-drop (suc m) n [] h =
    let e : suc m + n ≡ suc (m + n) = omega arith in
    absurd (ground (arith, sym (ap (λ i. fixed_prefix i []) e) ∙ h))
fixed_prefix-drop (suc m) n (s ∷ ss) h =
    let e : suc m + n ≡ suc (m + n) = omega arith in
    let k : fixed_prefix (suc (m + n)) (s ∷ ss) ≡ true =
      sym (ap (λ i. fixed_prefix i (s ∷ ss)) e) ∙ h in
    fixed_prefix-drop m n ss (ground (arith, k))

sum_lens-split :
    (n : ℕ) (lens : List ℕ) → sum_lens (take n lens) + sum_lens (drop n lens) ≡ sum_lens lens
sum_lens-split zero lens = omega arith
sum_lens-split (suc n) [] = omega arith
sum_lens-split (suc n) (len ∷ lens) = omega (arith, sum_lens-split n lens)

-- All the samples that may go have durations, the packets have their bytes, and no unit is buffered before one came.
pub record IsSound (finishing : Bool) (w : RecordingWriter) : Type 0 where
  pub fixed : fixed_prefix (fixed_of w finishing) w.video ≡ true
  pub held : sum_lens w.audio_packet_lens ≡ length w.audio_data
  pub started : w.prev_pts ≡ none → w.video ≡ []

-- A round that goes on takes fixed samples and packets that are there, one at least.
round-emits :
    (w : RecordingWriter) (b : Bool) (m n : ℕ)
    → IsSound b w
    → round w b ≡ emits m n
    → (fixed_prefix m w.video ≡ true)
      × (m ≤ fixed_of w b)
      × (n ≤ length w.audio_packet_lens)
      × (1 ≤ m + n)
unfolding round
round-emits w b m n h e =
    let found =
      in_window (fixed_of w b) w.video (w.video_ticks_emitted + fragment_ticks)
        w.video_ticks_emitted in
    let (x, y) =
      in_window-fixed (fixed_of w b) (w.video_ticks_emitted + fragment_ticks) w.video_ticks_emitted
        w.video h.fixed in
    let z = wanted-le w.audio_packet_lens w.audio_packets_emitted (found.1) in
    (
      ground (arith, e, x, y, z),
      ground (arith, e, x, y, z),
      ground (arith, e, x, y, z),
      ground (arith, e, x, y, z),
    )

pub drop_nil : (m : ℕ) (ss : List BufferedVideo) → ss ≡ [] → drop m ss ≡ []
drop_nil zero ss h = h
drop_nil (suc m) [] h = refl
drop_nil (suc m) (s ∷ ss) h = absurd (ground (arith, h))

fixed_of-drop :
    (w : RecordingWriter) (b : Bool) (m k : ℕ)
    → k ≡ length w.video - m
    → m ≤ fixed_of w b
    → fixed_of w b ≡ m + (if b then k else k - 1)
fixed_of-drop w b m k e h = ground (arith, e, h)

emit_fragment-IsSound :
    (w : RecordingWriter) (b : Bool) (m n : ℕ)
    → IsSound b w
    → fixed_prefix m w.video ≡ true
    → m ≤ fixed_of w b
    → n ≤ length w.audio_packet_lens
    → 1 ≤ m + n
    → (w' : RecordingWriter) × (emit_fragment w m n ≡ some w')
      × IsSound b w'
      × (length w'.video + length w'.audio_packet_lens
          < length w.video + length w.audio_packet_lens)
unfolding emit_fragment
emit_fragment-IsSound w b m n h f l k o =
    let (v, p) = drain_video-fixed m w.video f in
    let (a, q) = drain_audio-held n w.audio_packet_lens w.audio_data k (omega (arith, h.held)) in
    let w' = emitted w m n v a in
    let d = fixed_of-drop w b m (length w'.video) (length-drop m w.video) l in
    (
      w',
      ground (arith, p, q, o),
      record {
        fixed =
            fixed_prefix-drop m (fixed_of w' b) w.video
              (ap (λ i. fixed_prefix i w.video) (sym d) ∙ h.fixed);
        held = omega (
          arith,
          h.held,
          sum_lens-split n w.audio_packet_lens,
          length-drop (sum_lens (take n w.audio_packet_lens)) w.audio_data,
        );
        started = λ c. drop_nil m w.video (h.started c);
      },
      ground (arith, l, k, o, length-drop m w.video, length-drop n w.audio_packet_lens),
    )

pub round_cases : (r : Round) → (r ≡ stays) ⊎ ((m : ℕ) × (n : ℕ) × (r ≡ emits m n))
round_cases stays = inl refl
round_cases (emits m n) = inr (m, n, refl)

pub try_emit-emits :
    (fuel : ℕ) (w w' : RecordingWriter) (b : Bool) (m n : ℕ)
    → round w b ≡ emits m n
    → emit_fragment w m n ≡ some w'
    → try_emit (suc fuel) w b ≡ try_emit fuel w' b
unfolding try_emit
try_emit-emits fuel w w' b m n e p =
    ap (λ r. elim r [ stays ↦ some w | emits m n ↦ emit_fragment w m n >>= λ v. try_emit fuel v b ])
      e
    ∙ ap (λ o. o >>= λ v. try_emit fuel v b) p

-- From a sound writer the loop ends: with a step for each unit and each packet, and one more, it returns a writer, sound
-- too, at which it would do nothing more.
pub try_emit-ends :
    (fuel : ℕ) (w : RecordingWriter) (finishing : Bool)
    → IsSound finishing w
    → fuel_of w ≤ fuel
    → (w' : RecordingWriter) × (try_emit fuel w finishing ≡ some w')
      × IsSound finishing w'
      × (round w' finishing ≡ stays)
try_emit-ends zero w b h l = absurd (omega (arith, l))
try_emit-ends (suc fuel) w b h l = elim (round_cases (round w b)) [
  | inl e ↦ (
    w,
    unfold try_emit in
        ap
          (λ r. elim r [
            | stays ↦ some w
            | emits m n ↦ emit_fragment w m n >>= λ v. try_emit fuel v b
          ])
          e,
    h,
    e,
  )
  | inr (m, n, e) ↦
      let (f, x, y, z) = round-emits w b m n h e in
      let (v, p, s, t) = emit_fragment-IsSound w b m n h f x y z in
      let (w', q, r, d) = try_emit-ends fuel v b s (omega (arith, t, l)) in
      (w', try_emit-emits fuel w v b m n e p ∙ q, r, d)
]
