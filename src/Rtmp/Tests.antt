-- ===== src/Rtmp/Tests.antt =====
-- Runs of the chunk writer and reader, and their theorems at concrete messages.
use nbe.Prelude.{ℕ, ◌≡◌, refl, arith, List, [], ◌∷◌, ◌++◌, none, some}
use nbe.Rtmp.{ok, Message}
use nbe.Rtmp.Header.{encode_basic_header}
use nbe.Rtmp.Writer.{write_loop, write_chunked, first_header, message_header, next_header}
use nbe.Rtmp.Reader.{ChunkReader, next_message}
use nbe.Rtmp.Chunks.{IsPlain}
use nbe.Rtmp.Continue.{told}
use nbe.Rtmp.RoundTrip.{next_message-write_chunked}

-- Three bytes in chunks of two, past the timestamp escape.
abbrev late : Message
late = record {
  csid = 4;
  timestamp = 0x1000000;
  msg_type = 9;
  stream_id = 1;
  payload = 7 ∷ 8 ∷ 9 ∷ [];
}

abbrev small_reader : ChunkReader
small_reader = record { in_chunk_size = 2; last = λ k. none; partial = λ k. none }

write_late :
    write_chunked late 2
    ≡ some (
        4 ∷ 255 ∷ 255 ∷ 255 ∷ 0 ∷ 0 ∷ 3 ∷ 9 ∷ 1 ∷ 0 ∷ 0 ∷ 0 ∷ 1 ∷ 0 ∷ 0 ∷ 0 ∷ 7 ∷ 8 ∷ 196 ∷ 1 ∷ 0
        ∷ 0 ∷ 0 ∷ 9 ∷ [])
unfolding write_chunked write_loop first_header message_header next_header encode_basic_header
write_late = refl

late-IsPlain : IsPlain late
late-IsPlain = record {
  csid_lo = omega arith;
  csid_hi = omega arith;
  timestamp_fits = omega arith;
  stream_id_fits = omega arith;
  length_fits = omega arith;
  not_control = omega arith;
}

next_message-write_chunked_example :
    (bytes : List ℕ) × (write_chunked late 2 ≡ some bytes)
    × ((rest : List ℕ)
        → next_message 4 small_reader (bytes ++ rest) ≡ ok (late, told late small_reader, rest))
next_message-write_chunked_example =
    next_message-write_chunked late 2 small_reader late-IsPlain refl refl
