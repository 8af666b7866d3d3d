-- ===== src/Rtmp/Writer.antt =====
-- `write_chunked`, rtmp.rs: one message, cut into chunks. The bytes that it writes are its result.
use nbe.Prelude.{
  ℕ, zero, suc, ◌%◌, ◌^◌, ◌≤◌, ◌<◌, max, ◌≡◌, refl, arith, Bool, true, false, List, [], ◌∷◌, ◌++◌,
  Option, none, some, length, take, drop, append-nil, take_all, drop_all, ap, ◌∙◌, ltb, leb,
  if◌then◌else◌,
}
use mathlib.Core.Option
use nbe.Prelude.Bytes.{be24, be32, le32}
use nbe.Rtmp.{Message, escape}
use nbe.Rtmp.Header.{encode_basic_header}

-- The extended timestamp, where the timestamp wants one.
abbrev pub extended : ℕ → List ℕ
extended timestamp = if leb escape timestamp then be32 timestamp else []

-- The message header of format 0. `len` is cut to a u32.
unfoldable pub message_header : Message → List ℕ
message_header m =
    be24 (if leb escape m.timestamp then escape else m.timestamp)
    ++ be24 (length m.payload % 2 ^ 32)
    ++ (m.msg_type ∷ [])
    ++ le32 m.stream_id
    ++ extended m.timestamp

unfoldable pub first_header : Message → List ℕ
first_header m = encode_basic_header 0 m.csid ++ message_header m

unfoldable pub next_header : Message → List ℕ
next_header m = encode_basic_header 3 m.csid ++ extended m.timestamp

-- `offset < payload.len() || (payload.is_empty() && first)`, where the list is what stands from
-- `offset` on: at the first round it is the payload.
abbrev pub goes_on : Bool → List ℕ → Bool
goes_on first [] = first
goes_on first (b ∷ bs) = true

-- The loop, on the payload from `offset` on; `none` if the fuel runs out.
unfoldable pub write_loop : ℕ → Message → ℕ → Bool → List ℕ → Option (List ℕ)
write_loop zero m chunk_size first left = none
write_loop (suc fuel) m chunk_size first left =
    let header = if first then first_header m else next_header m in
    let piece = take chunk_size left in
    let more =
      Option.map (λ bytes. header ++ (piece ++ bytes))
        (write_loop fuel m chunk_size false (drop chunk_size left)) in
    if goes_on first left then if ltb 0 (length piece) then more else some header else some []

-- A round takes a byte at least, and the first and the last round may take none.
unfoldable pub write_chunked : Message → ℕ → Option (List ℕ)
write_chunked m chunk_size =
    write_loop (suc (suc (length m.payload))) m (max chunk_size 1) true m.payload

-- One round of the loop that is not the last.
pub write_loop-suc :
    (fuel : ℕ) (m : Message) (chunk_size : ℕ) (first : Bool) (left : List ℕ) {bytes : List ℕ}
    → 0 < chunk_size
    → 0 < length left
    → write_loop fuel m chunk_size false (drop chunk_size left) ≡ some bytes
    → write_loop (suc fuel) m chunk_size first left
      ≡ some ((if first then first_header m else next_header m) ++ (take chunk_size left ++ bytes))
unfolding write_loop
write_loop-suc fuel m chunk_size first [] c pos e = absurd (omega arith)
write_loop-suc fuel m zero first (b ∷ bs) c pos e = absurd (omega arith)
write_loop-suc fuel m (suc k) first (b ∷ bs) c pos e = rw e (ground arith)

pub write_loop-nil :
    (fuel : ℕ) (m : Message) (chunk_size : ℕ)
    → 0 < fuel
    → write_loop fuel m chunk_size false [] ≡ some []
unfolding write_loop
write_loop-nil zero m chunk_size h = absurd (omega arith)
write_loop-nil (suc fuel) m chunk_size h = refl

-- What the loop writes of a message that fits one chunk.
pub write_loop-one :
    (fuel : ℕ) (m : Message) (chunk_size : ℕ) (left : List ℕ)
    → 0 < chunk_size
    → length left ≤ chunk_size
    → write_loop (suc (suc fuel)) m chunk_size true left ≡ some (first_header m ++ (left ++ []))
write_loop-one fuel m chunk_size [] c h =
    unfold write_loop in ground (arith, append-nil (first_header m), take_all {A = ℕ} chunk_size [])
write_loop-one fuel m chunk_size (b ∷ bs) c h =
    write_loop-suc (suc fuel) m chunk_size true (b ∷ bs) c (omega arith)
      (rw (drop_all chunk_size (b ∷ bs) h) (write_loop-nil (suc fuel) m chunk_size (omega arith)))
    ∙ ap (λ xs. some (first_header m ++ (xs ++ []))) (take_all chunk_size (b ∷ bs) h)
