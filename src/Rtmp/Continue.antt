-- ===== src/Rtmp/Continue.antt =====
-- The continuation chunks of a message, rtmp.rs: what `write_chunked` sends after the first chunk,
-- `ChunkReader::next_message` takes up from any point inside the message.
use nbe.Prelude.{
  ℕ, zero, suc, ◌+◌, ◌≤◌, ◌<◌, ◌≡◌, ap, ◌∙◌, arith, false, List, [], ◌++◌, none, some, length, take,
  drop, append_assoc, length-append, length-take, length-drop, take-append-drop, take_all, drop_all,
  dec_lt,
}
use nbe.Rtmp.{ok, Message, update}
use nbe.Rtmp.Header.{encode_basic_header, read_basic_header-encode}
use nbe.Rtmp.Writer.{
  extended, message_header, first_header, next_header, write_loop, write_loop-suc, write_loop-nil,
}
use nbe.Rtmp.Reader.{
  LastHeader, ChunkReader, read_chunk_data, read_chunk, next_message, next_message-some,
  next_message-none,
}
use nbe.Rtmp.Chunks.{
  IsPlain, header, update_self, update_twice, read_header-first, read_header-next,
}
use nbe.Rtmp.Chunks.{read_chunk_by, data_more, data_done}

-- The reader between two chunks of a message: it has the header, and the bytes so far.
pub record Amid (m : Message) (r : ChunkReader) (sofar : List ℕ) (base : LastHeader) : Type 0 where
  pub known : r.last m.csid ≡ some (header m)
  pub got : r.partial m.csid ≡ some (base, sofar)
  pub length_kept : base.msg_len ≡ length m.payload

-- The reader when it has a message with nothing left over.
abbrev pub after : Message → ChunkReader → ChunkReader
after m r = record r { partial = update r.partial m.csid none }

-- Past the headers, a chunk is its data.
read_next :
    (m : Message) (r : ChunkReader) (bs : List ℕ)
    → IsPlain m
    → r.last m.csid ≡ some (header m)
    → read_chunk r (next_header m ++ bs) ≡ read_chunk_data r m.csid (header m) bs
unfolding next_header
read_next m r bs v e = rw append_assoc (
    read_chunk_by r (encode_basic_header 3 m.csid ++ (extended m.timestamp ++ bs)) {bs2 = bs}
      {h = header m}
      (read_basic_header-encode 3 m.csid (extended m.timestamp ++ bs) (omega arith) v.csid_lo
        v.csid_hi)
      (rw e (read_header-next m bs v)))

-- The reader with a message's header stored.
abbrev pub told : Message → ChunkReader → ChunkReader
told m r = record r { last = update r.last m.csid (some (header m)) }

pub read_first :
    (m : Message) (r : ChunkReader) (bs : List ℕ)
    → IsPlain m
    → read_chunk r (first_header m ++ bs) ≡ read_chunk_data (told m r) m.csid (header m) bs
unfolding first_header
read_first m r bs v = rw append_assoc (
    read_chunk_by r (encode_basic_header 0 m.csid ++ (message_header m ++ bs)) {bs2 = bs}
      {h = header m}
      (read_basic_header-encode 0 m.csid (message_header m ++ bs) (omega arith) v.csid_lo v.csid_hi)
      (read_header-first m (r.last m.csid) bs v))

next_chunk-more :
    (m : Message) (r : ChunkReader) (sofar : List ℕ) (base : LastHeader) (chunk rest : List ℕ)
    → IsPlain m
    → Amid m r sofar base
    → length chunk ≡ r.in_chunk_size
    → length sofar + length chunk < length m.payload
    → read_chunk r (next_header m ++ (chunk ++ rest))
      ≡ ok
          (none, record r { partial = update r.partial m.csid (some (base, sofar ++ chunk)) }, rest)
next_chunk-more m r sofar base chunk rest v amid p q =
    read_next m r (chunk ++ rest) v amid.known
    ∙ ground
        (arith, amid.known, amid.got, amid.length_kept, data_more r m.csid (header m) chunk rest)

next_chunk-done :
    (m : Message) (r : ChunkReader) (sofar : List ℕ) (base : LastHeader) (chunk rest : List ℕ)
    → IsPlain m
    → Amid m r sofar base
    → length chunk ≤ r.in_chunk_size
    → sofar ++ chunk ≡ m.payload
    → read_chunk r (next_header m ++ (chunk ++ rest)) ≡ ok (some m, after m r, rest)
next_chunk-done m r sofar base chunk rest v amid p q =
    read_next m r (chunk ++ rest) v amid.known
    ∙ ground (
      arith,
      amid.known,
      amid.got,
      amid.length_kept,
      v.not_control,
      ap length q,
      length-append sofar chunk,
      data_done r m.csid (header m) chunk rest,
    )

pub regroup :
    (header piece bytes rest : List ℕ)
    → (header ++ (piece ++ bytes)) ++ rest ≡ header ++ (piece ++ (bytes ++ rest))
regroup header piece bytes rest = simp append_assoc

-- `left` can be written from inside `m`, and read back whatever follows.
abbrev pub Reads : ℕ → ℕ → Message → ChunkReader → List ℕ → Type 0
Reads fuel rounds m r left =
    (bytes : List ℕ) × (write_loop fuel m r.in_chunk_size false left ≡ some bytes)
    × ((rest : List ℕ) → next_message rounds r (bytes ++ rest) ≡ ok (m, after m r, rest))

-- The reader with one more piece.
abbrev advanced : Message → ChunkReader → LastHeader → List ℕ → ChunkReader
advanced m r base sofar = record r { partial = update r.partial m.csid (some (base, sofar)) }

advanced-Amid :
    (m : Message) (r : ChunkReader) (sofar more : List ℕ) (base : LastHeader)
    → Amid m r sofar base
    → Amid m (advanced m r base more) more base
advanced-Amid m r sofar more base amid = record {
  known = amid.known;
  got = update_self r.partial m.csid (some (base, more));
  length_kept = amid.length_kept;
}

after-advanced :
    (m : Message) (r : ChunkReader) (more : List ℕ) (base : LastHeader)
    → after m (advanced m r base more) ≡ after m r
after-advanced m r more base =
    ap (λ t. record r { partial = t }) (update_twice r.partial m.csid (some (base, more)) none)

continue_more :
    (fuel rounds : ℕ) (m : Message) (r : ChunkReader) (sofar left : List ℕ) (base : LastHeader)
    → IsPlain m
    → Amid m r sofar base
    → 1 ≤ r.in_chunk_size
    → sofar ++ left ≡ m.payload
    → r.in_chunk_size < length left
    → Reads fuel rounds m
        (advanced m r base (sofar ++ take r.in_chunk_size left))
        (drop r.in_chunk_size left)
    → Reads (suc fuel) (suc rounds) m r left
continue_more fuel rounds m r sofar left base v amid c e more (bytes, w, rd) = (
  next_header m ++ (piece ++ bytes),
  write_loop-suc fuel m r.in_chunk_size false left c (omega arith) w,
  λ rest. rw regroup (
      next_message-none rounds r (next_header m ++ (piece ++ (bytes ++ rest)))
        (next_chunk-more m r sofar base piece (bytes ++ rest) v amid size fits)
      ∙ rd rest
      ∙ ap (λ r'. ok (m, r', rest)) (after-advanced m r (sofar ++ piece) base)),
)
  where
    piece : List ℕ
    piece = take r.in_chunk_size left

    size : length piece ≡ r.in_chunk_size
    size = omega (arith, length-take {0} r.in_chunk_size left)

    fits : length sofar + length piece < length m.payload
    fits = omega (arith, size, ap length e, length-append {0} sofar left)

continue_last :
    (fuel rounds : ℕ) (m : Message) (r : ChunkReader) (sofar left : List ℕ) (base : LastHeader)
    → IsPlain m
    → Amid m r sofar base
    → 1 ≤ r.in_chunk_size
    → sofar ++ left ≡ m.payload
    → 0 < length left
    → length left ≤ r.in_chunk_size
    → 0 < fuel
    → Reads (suc fuel) (suc rounds) m r left
continue_last fuel rounds m r sofar left base v amid c e pos last hf = (
  next_header m ++ (piece ++ []),
  write_loop-suc fuel m r.in_chunk_size false left c pos
      (rw (drop_all r.in_chunk_size left last) (write_loop-nil fuel m r.in_chunk_size hf)),
  λ rest. rw regroup (
      next_message-some rounds r (next_header m ++ (piece ++ rest)) (
        next_chunk-done m r sofar base piece rest v amid
          (omega (arith, length-take {0} r.in_chunk_size left))
          (rw (take_all r.in_chunk_size left last) e))),
)
  where
    piece : List ℕ
    piece = take r.in_chunk_size left

-- The continuations of a message, from any point inside it.
pub continue_lem :
    (fuel rounds : ℕ) (m : Message) (r : ChunkReader) (sofar left : List ℕ) (base : LastHeader)
    → IsPlain m
    → Amid m r sofar base
    → 1 ≤ r.in_chunk_size
    → sofar ++ left ≡ m.payload
    → 0 < length left
    → length left < fuel
    → length left ≤ rounds
    → Reads fuel rounds m r left
continue_lem zero rounds m r sofar left base v amid c e pos hf hr = absurd (omega arith)
continue_lem (suc fuel) zero m r sofar left base v amid c e pos hf hr = absurd (omega arith)
continue_lem (suc fuel) (suc rounds) m r sofar left base v amid c e pos hf hr =
    elim (dec_lt r.in_chunk_size (length left)) [
      | yes more ↦ continue_more fuel rounds m r sofar left base v amid c e more (
          continue_lem fuel rounds m (advanced m r base (sofar ++ take r.in_chunk_size left))
            (sofar ++ take r.in_chunk_size left) (drop r.in_chunk_size left) base v
            (advanced-Amid m r sofar (sofar ++ take r.in_chunk_size left) base amid) c
            (append_assoc sofar _ _
              ∙ ap (λ xs. sofar ++ xs) (take-append-drop r.in_chunk_size left)
              ∙ e)
            (omega (arith, length-drop {0} r.in_chunk_size left))
            (omega (arith, length-drop {0} r.in_chunk_size left))
            (omega (arith, length-drop {0} r.in_chunk_size left)))
      | no last ↦
          continue_last fuel rounds m r sofar left base v amid c e pos (omega arith) (omega arith)
    ]
