-- ===== src/AudioTap.antt =====
-- The tap between the audio thread and a writer, crates/nbe-engine/src/record/audio_tap.rs. A sample is its bit pattern,
-- a number; the counters do not wrap. Each method is one function: its two ends one after another, not interleaved.
pub mod Latest
pub mod Refine
pub mod Runs
mod Tests
use nbe.Prelude.{
  ℕ, ◌+◌, ◌-◌, ◌%◌, min, max, Bool, List, [], ◌∷◌, length, leb, replicate, if◌then◌else◌,
}
use nbe.AudioRing.{store, copy, channels}

pub record AudioTap : Type 0 where
  pub buf : List ℕ
  pub head : ℕ
  pub tail : ℕ
  pub dropped : ℕ

abbrev pub room : AudioTap → ℕ
room t = length t.buf

unfoldable pub with_capacity : ℕ → AudioTap
with_capacity samples = record {
  buf = replicate (max (samples - samples % channels) channels) 0;
  head = 0;
  tail = 0;
  dropped = 0;
}

-- The loop that makes room for a frame: with one end at a time its exchange succeeds, and it ends.
unfoldable pub evict : AudioTap → AudioTap
evict t =
    if leb (t.head - t.tail) (room t - channels)
    then t
    else record t { tail = t.tail + channels; dropped = t.dropped + channels }

-- The body of the loop over the frames, and the loop: an odd sample at the end is in no frame.
unfoldable pub push_frame : AudioTap → ℕ → ℕ → AudioTap
unfolding evict
push_frame t left right =
    let u : AudioTap = evict t in
    record u { buf = store (room u) u.buf u.head (left ∷ right ∷ []); head = u.head + channels }

unfoldable pub push_frames : AudioTap → List ℕ → AudioTap
unfolding push_frame
push_frames t [] = t
push_frames t (last ∷ []) = t
push_frames t (left ∷ right ∷ rest) = push_frames (push_frame t left right) rest

unfoldable pub push : AudioTap → List ℕ → AudioTap
unfolding push_frames
push t samples = push_frames (record t { dropped = t.dropped + length samples % channels }) samples

abbrev pub len : AudioTap → ℕ
len t = min (t.head - t.tail) (room t)

unfoldable pub drain : AudioTap → List ℕ × AudioTap
drain t = (copy (room t) t.buf t.tail (len t), record t { tail = t.tail + len t })

unfoldable pub clear : AudioTap → AudioTap
clear t = record t { tail = t.tail + len t; dropped = t.dropped + len t }
