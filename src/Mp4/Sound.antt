-- ===== src/Mp4/Sound.antt =====
-- What a unit and packets keep of a sound writer, writer.rs.
use nbe.Prelude.{
  ℕ, zero, suc, ◌+◌, ◌-◌, ◌≤◌, ◌≡◌, refl, sym, ap, ◌∙◌, arith, max, ◌%◌, ◌^◌, Bool, true, false,
  ◌⊎◌, inl, inr, none, Option-cases, List, [], ◌∷◌, ◌++◌, length, length-append,
}
use nbe.Mp4.{EncodedUnit, BufferedVideo, RecordingWriter}
use nbe.Mp4.Emit.{sum_lens}
use nbe.Mp4.Writer.{buffer_video, fix_last, fixed_video, get_or, ingest_aac_frames, ingest_one}
use nbe.Mp4.Ends.{fixed_prefix, IsSound}

pub fixed_prefix-fix_last :
    (d : ℕ) (ss : List BufferedVideo)
    → fixed_prefix (length ss - 1) ss ≡ true
    → fixed_prefix (length ss) (fix_last ss d) ≡ true
fixed_prefix-fix_last d [] h = refl
fixed_prefix-fix_last d (s ∷ []) h = refl
fixed_prefix-fix_last d (s ∷ s' ∷ ss) h =
    let e : length (s ∷ s' ∷ ss) - 1 ≡ suc (length (s' ∷ ss) - 1) = omega arith in
    let k : fixed_prefix (suc (length (s' ∷ ss) - 1)) (s ∷ s' ∷ ss) ≡ true =
      sym (ap (λ i. fixed_prefix i (s ∷ s' ∷ ss)) e) ∙ h in
    ground (arith, k, fixed_prefix-fix_last d (s' ∷ ss) (ground (arith, k)))

fixed_prefix-append :
    (n : ℕ) (ss ts : List BufferedVideo)
    → fixed_prefix n ss ≡ true
    → fixed_prefix n (ss ++ ts) ≡ true
fixed_prefix-append zero ss ts h = refl
fixed_prefix-append (suc n) [] ts h = absurd (ground (arith, h))
fixed_prefix-append (suc n) (s ∷ ss) ts h =
    ground (arith, h, fixed_prefix-append n ss ts (ground (arith, h)))

pub fixed_prefix-weaken :
    (m n : ℕ) (ss : List BufferedVideo)
    → m ≤ n
    → fixed_prefix n ss ≡ true
    → fixed_prefix m ss ≡ true
fixed_prefix-weaken zero n ss l h = refl
fixed_prefix-weaken (suc m) zero ss l h = absurd (omega (arith, l))
fixed_prefix-weaken (suc m) (suc n) [] l h = absurd (ground (arith, h))
fixed_prefix-weaken (suc m) (suc n) (s ∷ ss) l h =
    ground (arith, h, fixed_prefix-weaken m n ss (omega (arith, l)) (ground (arith, h)))

pub length-fix_last : (d : ℕ) (ss : List BufferedVideo) → length (fix_last ss d) ≡ length ss
length-fix_last d [] = refl
length-fix_last d (s ∷ []) = refl
length-fix_last d (s ∷ s' ∷ ss) = omega (arith, length-fix_last d (s' ∷ ss))

-- With a time before it, a unit's arrival fixes every sample; without one the buffer is empty.
fixed_video-fixed :
    (w : RecordingWriter) (pts : ℕ)
    → IsSound false w
    → (fixed_prefix (length w.video) (fixed_video w pts) ≡ true)
      × (length (fixed_video w pts) ≡ length w.video)
fixed_video-fixed w pts h = elim (Option-cases w.prev_pts) [
  | inl n ↦
      let e : w.video ≡ [] = h.started n in
      (ground (arith, n, ap (λ ss. fixed_prefix (length ss) ss) e), ground (arith, n))
  | inr (p, n) ↦
      let d = max (pts - p) 1 % 2 ^ 32 in
      (
        ground (arith, n, fixed_prefix-fix_last d w.video h.fixed),
        ground (arith, n, length-fix_last d w.video),
      )
]

sum_lens-append : (ns : List ℕ) (n : ℕ) → sum_lens (ns ++ (n ∷ [])) ≡ sum_lens ns + n
sum_lens-append [] n = omega arith
sum_lens-append (x ∷ ns) n = omega (arith, sum_lens-append ns n)

pub buffer_video-sound :
    (w : RecordingWriter) (unit : EncodedUnit)
    → IsSound false w
    → IsSound false (buffer_video w unit)
unfolding buffer_video
buffer_video-sound w unit h =
    let (a, b) = fixed_video-fixed w unit.pts h in
    let s : BufferedVideo = record {
      bytes = unit.bytes;
      start_ticks = unit.pts - get_or w.pts_base unit.pts;
      duration_ticks = none;
      keyframe = unit.is_keyframe;
    } in
    let k : length (fixed_video w unit.pts ++ (s ∷ [])) - 1 ≡ length w.video =
      omega (arith, b, length-append (fixed_video w unit.pts) (s ∷ [])) in
    record {
      fixed =
          ap (λ i. fixed_prefix i (fixed_video w unit.pts ++ (s ∷ []))) k
          ∙ fixed_prefix-append (length w.video) (fixed_video w unit.pts) (s ∷ []) a;
      held = h.held;
      started = λ n. absurd (ground (arith, n));
    }

ingest_one-sound :
    (b : Bool) (w : RecordingWriter) (f : List ℕ) → IsSound b w → IsSound b (ingest_one w f)
ingest_one-sound b w f h = record {
  fixed = ground (arith, h.fixed);
  held =
      ground (
        arith,
        h.held,
        sum_lens-append w.audio_packet_lens (length f),
        length-append w.audio_data f,
      );
  started = λ n. ground (arith, n, h.started);
}

pub ingest_aac_frames-sound :
    (b : Bool) (w : RecordingWriter) (fs : List (List ℕ))
    → IsSound b w
    → IsSound b (ingest_aac_frames w fs)
unfolding ingest_aac_frames
ingest_aac_frames-sound b w [] h = h
ingest_aac_frames-sound b w (f ∷ fs) h =
    ingest_aac_frames-sound b (ingest_one w f) fs (ingest_one-sound b w f h)

pub lens_cases : (ns : List ℕ) → (ns ≡ []) ⊎ ((len : ℕ) × (lens : List ℕ) × (ns ≡ len ∷ lens))
lens_cases [] = inl refl
lens_cases (n ∷ ns) = inr (n, ns, refl)
