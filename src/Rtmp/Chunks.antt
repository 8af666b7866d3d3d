-- ===== src/Rtmp/Chunks.antt =====
-- One chunk, rtmp.rs: what the reader makes of each header and each piece that the writer sends.
use nbe.Prelude.{
  ℕ, ◌+◌, ◌-◌, ◌^◌, ◌≤◌, ◌<◌, min, ◌≡◌, ◌≢◌, subst, arith, List, ◌++◌, Option, none, some, length,
  leb, ◌==◌, if◌then◌else◌, length-append, take-append_length, drop-append_length,
}
use mathlib.Core.Path.{fun_ext}
use nbe.Prelude.Bytes.{from_be24-be24, from_be32-be32}
use nbe.Rtmp.{ok, Message, Table, update, escape, msg_set_chunk_size}
use nbe.Rtmp.Header.{read_basic_header, read_exact}
use nbe.Rtmp.Writer.{extended, message_header}
use nbe.Rtmp.Reader.{
  LastHeader, ChunkReader, read_header, wanted, collected, kept, complete, read_chunk_data,
  read_chunk,
}

-- The messages that the wire format has room for, other than Set Chunk Size, which the reader applies and does not return.
pub record IsPlain (m : Message) : Type 0 where
  pub csid_lo : 2 ≤ m.csid
  pub csid_hi : m.csid < 65600
  pub timestamp_fits : m.timestamp < 2 ^ 32
  pub stream_id_fits : m.stream_id < 2 ^ 32
  pub length_fits : length m.payload < 2 ^ 24
  pub not_control : m.msg_type ≢ msg_set_chunk_size

-- The header that the reader stores for a message.
abbrev pub header : Message → LastHeader
header m = record {
  timestamp = m.timestamp;
  msg_len = length m.payload;
  msg_type = m.msg_type;
  stream_id = m.stream_id;
  ext = leb escape m.timestamp;
}

pub update_self : {A : Type 0} (t : Table A) (k : ℕ) (v : Option A) → update t k v k ≡ v
update_self t k v = ground arith

pub update_twice :
    {A : Type 0} (t : Table A) (k : ℕ) (v w : Option A) → update (update t k v) k w ≡ update t k w
update_twice t k v w = fun_ext (λ j. ground arith)

read_exact_self :
    (chunk rest : List ℕ) → read_exact (length chunk) (chunk ++ rest) ≡ ok (chunk, rest)
unfolding read_exact
read_exact_self chunk rest =
    ground (
      arith,
      length-append chunk rest,
      take-append_length chunk rest,
      drop-append_length chunk rest,
    )

read_exact-append :
    (n : ℕ) (chunk rest : List ℕ)
    → length chunk ≡ n
    → read_exact n (chunk ++ rest) ≡ ok (chunk, rest)
read_exact-append n chunk rest h =
    subst (λ k. read_exact k (chunk ++ rest) ≡ ok (chunk, rest)) h (read_exact_self chunk rest)

pub read_header-first :
    (m : Message) (prev : Option LastHeader) (rest : List ℕ)
    → IsPlain m
    → read_header 0 prev (message_header m ++ rest) ≡ ok (header m, rest)
unfolding read_header message_header
read_header-first m prev rest v = ground (
  arith,
  from_be24-be24 m.timestamp,
  from_be24-be24 (length m.payload),
  from_be32-be32 m.stream_id,
  from_be32-be32 m.timestamp,
)

pub read_header-next :
    (m : Message) (rest : List ℕ)
    → IsPlain m
    → read_header 3 (some (header m)) (extended m.timestamp ++ rest) ≡ ok (header m, rest)
unfolding read_header
read_header-next m rest v = ground (arith, from_be32-be32 m.timestamp)

pub read_chunk_by :
    (r : ChunkReader) (bs : List ℕ) {bs1 bs2 : List ℕ} {fmt csid : ℕ} {h : LastHeader}
    → read_basic_header bs ≡ ok (fmt, csid, bs1)
    → read_header fmt (r.last csid) bs1 ≡ ok (h, bs2)
    → read_chunk r bs
      ≡ read_chunk_data
          (if fmt == 3 then r else record r { last = update r.last csid (some h) })
          csid
          h
          bs2
unfolding read_chunk
read_chunk_by r bs p q = rw (p, q)

-- A chunk that does not complete the message, and one that does.
pub data_more :
    (r : ChunkReader) (csid : ℕ) (h : LastHeader) (chunk rest : List ℕ)
    → length chunk ≡ r.in_chunk_size
    → length (collected (r.partial csid)) + length chunk < wanted (r.partial csid) h
    → read_chunk_data r csid h (chunk ++ rest)
      ≡ ok (
        none,
        record r {
          partial =
              update r.partial csid
                (some (kept (r.partial csid) h, collected (r.partial csid) ++ chunk));
        },
        rest,
      )
unfolding read_chunk_data
data_more r csid h chunk rest p q = ground (
  arith,
  read_exact-append
      (min (wanted (r.partial csid) h - length (collected (r.partial csid))) r.in_chunk_size) chunk
      rest,
  length-append (collected (r.partial csid)) chunk,
)

pub data_done :
    (r : ChunkReader) (csid : ℕ) (h : LastHeader) (chunk rest : List ℕ)
    → length chunk ≤ r.in_chunk_size
    → length (collected (r.partial csid)) + length chunk ≡ wanted (r.partial csid) h
    → h.msg_type ≢ msg_set_chunk_size
    → read_chunk_data r csid h (chunk ++ rest)
      ≡ ok (
        some (record {
          csid = csid;
          timestamp = h.timestamp;
          msg_type = h.msg_type;
          stream_id = h.stream_id;
          payload = collected (r.partial csid) ++ chunk;
        }),
        record r { partial = update r.partial csid none },
        rest,
      )
unfolding read_chunk_data complete
data_done r csid h chunk rest p q ne = ground (
  arith,
  read_exact-append
      (min (wanted (r.partial csid) h - length (collected (r.partial csid))) r.in_chunk_size) chunk
      rest,
  length-append (collected (r.partial csid)) chunk,
)
