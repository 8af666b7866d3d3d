-- ===== src/AudioRing.antt =====
-- The device sink's sample ring, crates/nbe-engine/src/audio_ring.rs. A sample is its bit pattern,
-- a number; the counters `written` and `read` are u64s that never wrap in practice, unbounded here.
-- Each end's method is one function here; `Threads` takes the methods apart into atomic steps.
pub mod Window
pub mod Refine
pub mod Threads
pub mod Publish
pub mod Safety
mod Tests
use nbe.Prelude.{
  ℕ, zero, suc, ◌+◌, ◌-◌, ◌*◌, ◌/◌, ◌%◌, min, max, Bool, List, [], ◌∷◌, ◌++◌, ltb, length, get_or,
  set, take, drop, replicate,
}

-- `Shared`: what both ends hold.
pub record Ring : Type 0 where
  pub buf : List ℕ
  pub written : ℕ
  pub read : ℕ

-- audio.rs: interleaved stereo throughout.
abbrev pub channels : ℕ
channels = 2

unfoldable pub ring : ℕ → Ring
ring capacity_frames = record {
  buf = replicate (max capacity_frames 1 * channels) 0;
  written = 0;
  read = 0;
}

abbrev pub capacity : Ring → ℕ
capacity r = length r.buf

-- The loop of `push`: the samples go in at the counter's positions, modulo the capacity.
unfoldable pub store : ℕ → List ℕ → ℕ → List ℕ → List ℕ
store cap buf w [] = buf
store cap buf w (v ∷ vs) = store cap (set buf (w % cap) v) (w + 1) vs

-- How many samples `push` takes: what fits, in whole frames.
abbrev pub push_count : Ring → List ℕ → ℕ
push_count r samples =
    min (length samples) (capacity r - (r.written - r.read)) / channels * channels

unfoldable pub push : Ring → List ℕ → ℕ × Ring
push r samples =
    let n : ℕ = push_count r samples in
    (
      n,
      record r {
        buf = store (capacity r) r.buf r.written (take n samples);
        written = r.written + n;
      },
    )

-- The loop of `pop_into`: `n` samples from the counter's position `r` on.
abbrev pub copy : ℕ → List ℕ → ℕ → ℕ → List ℕ
copy cap buf r zero = []
copy cap buf r (suc n) = get_or buf (r % cap) 0 ∷ copy cap buf (r + 1) n

abbrev pub pop_count : Ring → List ℕ → ℕ
pop_count r out = min (length out) (r.written - r.read) / channels * channels

-- Returns the count, `out` after the copy, and the ring.
unfoldable pub pop_into : Ring → List ℕ → ℕ × List ℕ × Ring
pop_into r out =
    let n : ℕ = pop_count r out in
    (n, copy (capacity r) r.buf r.read n ++ drop n out, record r { read = r.read + n })

unfoldable pub fill_frames : Ring → ℕ
fill_frames r = (r.written - r.read) / channels

unfoldable pub written_frames : Ring → ℕ
written_frames r = r.written / channels

unfoldable pub capacity_frames : Ring → ℕ
capacity_frames r = capacity r / channels

unfoldable pub read_frames : Ring → ℕ
read_frames r = r.read / channels

unfoldable pub started : Ring → Bool
started r = ltb 0 r.written
