-- ===== src/Mp4/Window.antt =====
-- The writer whose buffered units are all past the window, writer.rs: no round emits, and shedding keeps it so.
use nbe.Prelude.{
  ℕ, zero, suc, ◌+◌, ◌-◌, ◌≤◌, ◌≡◌, refl, ap, ◌∙◌, arith, Bool, true, false, ◌&&◌, some, List, [],
  ◌∷◌, ◌++◌, length, drop, leb,
}
use nbe.Mp4.{BufferedVideo, RecordingWriter, fragment_ticks}
use nbe.Mp4.Emit.{in_window, round, stays, try_emit}
use nbe.Mp4.Writer.{fix_last, enforce_buffer_caps, shed_audio, shed_packet, shed_video}

-- Every buffered unit starts at a tick or later.
abbrev pub all_from : ℕ → List BufferedVideo → Bool
all_from k [] = true
all_from k (s ∷ ss) = leb k s.start_ticks && all_from k ss

-- After the header, with every buffered unit out of the window and some units' base.
pub record IsStalled (w : RecordingWriter) : Type 0 where
  pub header : w.header_written ≡ true
  pub beyond : all_from (w.video_ticks_emitted + fragment_ticks) w.video ≡ true

-- What two writers share that is not in the buffers.
pub record SameOutput (w w' : RecordingWriter) : Type 0 where
  pub file : w'.file ≡ w.file
  pub emitted : w'.video_ticks_emitted ≡ w.video_ticks_emitted
  pub base : w'.pts_base ≡ w.pts_base

in_window-all_from :
    (fixed k t : ℕ) (ss : List BufferedVideo)
    → all_from k ss ≡ true
    → (in_window fixed ss k t).0 ≡ 0
in_window-all_from zero k t ss h = refl
in_window-all_from (suc fixed) k t [] h = refl
in_window-all_from (suc fixed) k t (s ∷ ss) h = ground (arith, h)

pub round-stalled : (w : RecordingWriter) → IsStalled w → round w false ≡ stays
unfolding round
round-stalled w h = ground (
  arith,
  in_window-all_from (length w.video - 1) (w.video_ticks_emitted + fragment_ticks)
      w.video_ticks_emitted w.video h.beyond,
)

pub try_emit-stays :
    (fuel : ℕ) (w : RecordingWriter) (b : Bool)
    → 1 ≤ fuel
    → round w b ≡ stays
    → try_emit fuel w b ≡ some w
unfolding try_emit
try_emit-stays zero w b l h = absurd (omega (arith, l))
try_emit-stays (suc fuel) w b l h = ground (arith, h)

shed_audio-same :
    (fuel : ℕ) (w : RecordingWriter)
    → SameOutput w (shed_audio fuel w)
      × ((shed_audio fuel w).video ≡ w.video)
      × ((shed_audio fuel w).header_written ≡ w.header_written)
unfolding shed_audio
shed_audio-same zero w = (record { file = refl; emitted = refl; base = refl }, refl, refl)
shed_audio-same (suc fuel) w =
    let (a, b, c) = shed_audio-same fuel (shed_packet w) in
    (
      record {
        file = ground (arith, a.file);
        emitted = ground (arith, a.emitted);
        base = ground (arith, a.base);
      },
      ground (arith, b),
      ground (arith, c),
    )

all_from-drop :
    (n k : ℕ) (ss : List BufferedVideo) → all_from k ss ≡ true → all_from k (drop n ss) ≡ true
all_from-drop zero k ss h = h
all_from-drop (suc n) k [] h = refl
all_from-drop (suc n) k (s ∷ ss) h = all_from-drop n k ss (ground (arith, h))

pub all_from-append :
    (k : ℕ) (ss : List BufferedVideo) (s : BufferedVideo)
    → all_from k ss ≡ true
    → leb k s.start_ticks ≡ true
    → all_from k (ss ++ (s ∷ [])) ≡ true
all_from-append k [] s h l = ground (arith, l)
all_from-append k (x ∷ ss) s h l = ground (arith, h, all_from-append k ss s (ground (arith, h)) l)

pub all_from-fix_last :
    (k d : ℕ) (ss : List BufferedVideo) → all_from k ss ≡ true → all_from k (fix_last ss d) ≡ true
all_from-fix_last k d [] h = refl
all_from-fix_last k d (s ∷ []) h = ground (arith, h)
all_from-fix_last k d (s ∷ s' ∷ ss) h =
    ground (arith, h, all_from-fix_last k d (s' ∷ ss) (ground (arith, h)))

pub enforce_buffer_caps-IsStalled :
    (w : RecordingWriter)
    → IsStalled w
    → SameOutput w (enforce_buffer_caps w) × IsStalled (enforce_buffer_caps w)
unfolding enforce_buffer_caps shed_video
enforce_buffer_caps-IsStalled w h =
    let v = shed_video w in
    let (a, b, c) = shed_audio-same (length w.audio_packet_lens) v in
    (
      record { file = a.file; emitted = a.emitted; base = a.base },
      record {
        header = c ∙ h.header;
        beyond =
            ap (λ n. all_from (n + fragment_ticks) (enforce_buffer_caps w).video) a.emitted
            ∙ ap (all_from (w.video_ticks_emitted + fragment_ticks)) b
            ∙ all_from-drop (length w.video - 180) (w.video_ticks_emitted + fragment_ticks) w.video
                h.beyond;
      },
    )
