-- ===== src/Rtmp.antt =====
-- The RTMP transport, crates/nbe-engine/src/record/rtmp.rs: its errors, its constants and the
-- messages that the two directions of the socket carry. The children model the chunk writer, the
-- chunk reader and the publisher's accounting.
pub mod Header
pub mod Writer
pub mod Reader
pub mod Chunks
pub mod Continue
pub mod RoundTrip
pub mod Amf0
pub mod Values
pub mod Url
mod Tests
mod Checks
use nbe.Prelude.{ℕ, zero, suc, ◌^◌, ◌≤◌, ◌<◌, Bool, Option, none, some, List, if◌then◌else◌, ◌==◌}

-- `RtmpError`, without the words.
pub data RtmpError : Type 0 where
  parse io protocol : RtmpError

-- A `Result` with that error. `stuck` is no value of the program: a loop ran out of fuel.
pub data Result {ℓ} (A : Type ℓ) : Type ℓ where
  ok : A → Result A
  err : RtmpError → Result A
  stuck : Result A

infixl 5 ◌>>=◌
abbrev pub ◌>>=◌ {ℓ κ} : {A : Type ℓ} {B : Type κ} → Result A → (A → Result B) → Result B
ok a >>= f = f a
err e >>= f = err e
stuck >>= f = stuck

abbrev pub msg_set_chunk_size : ℕ
msg_set_chunk_size = 0x01

abbrev pub msg_user_control : ℕ
msg_user_control = 0x04

abbrev pub msg_audio : ℕ
msg_audio = 0x08

abbrev pub msg_video : ℕ
msg_video = 0x09

abbrev pub default_chunk_size : ℕ
default_chunk_size = 128

-- The timestamp field's escape to the extended timestamp.
abbrev pub escape : ℕ
escape = 0xFF_FF_FF

-- `InMessage`, and the arguments of `write_chunked`.
pub record Message : Type 0 where
  pub csid : ℕ
  pub timestamp : ℕ
  pub msg_type : ℕ
  pub stream_id : ℕ
  pub payload : List ℕ

-- A `HashMap` from chunk stream ids, as a function.
abbrev pub Table : Type 0 → Type 0
Table A = ℕ → Option A

abbrev pub update : {A : Type 0} → Table A → ℕ → Option A → Table A
update t k v j = if j == k then v else t j
