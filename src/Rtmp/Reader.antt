-- ===== src/Rtmp/Reader.antt =====
-- `ChunkReader`, rtmp.rs: messages put together from the chunks that arrive.
use nbe.Prelude.{
  ℕ, zero, suc, ◌+◌, ◌-◌, ◌%◌, ◌^◌, min, ◌≡◌, Bool, false, ◌&&◌, List, [], ◌++◌, Option, none, some,
  length, get_or, ltb, leb, ◌==◌, if◌then◌else◌,
}
use nbe.Prelude.Bytes.{from_be32}
use nbe.Rtmp.{Result, ok, err, stuck, protocol, ◌>>=◌, Message, Table, update, escape}
use nbe.Rtmp.{msg_set_chunk_size, default_chunk_size}
use nbe.Rtmp.Header.{read_basic_header, read_byte, read_u24, read_u32_be, read_u32_le, read_exact}

pub record LastHeader : Type 0 where
  pub timestamp : ℕ
  pub msg_len : ℕ
  pub msg_type : ℕ
  pub stream_id : ℕ
  pub ext : Bool

pub record ChunkReader : Type 0 where
  pub in_chunk_size : ℕ
  pub last : Table LastHeader
  pub partial : Table (LastHeader × List ℕ)

unfoldable pub new : ChunkReader
new = record { in_chunk_size = default_chunk_size; last = λ k. none; partial = λ k. none }

-- `Option::ok_or_else` with a protocol error
abbrev pub history : Option LastHeader → Result LastHeader
history none = err protocol
history (some p) = ok p

-- The timestamp that a field gives: itself by `plain`, or the extended one at the escape.
abbrev pub read_timestamp : ℕ → ℕ → List ℕ → Result (ℕ × List ℕ)
read_timestamp field plain bs = if field == escape then read_u32_be bs else ok (plain, bs)

-- The message header of each format. Formats 0 to 2 also store what they read as the chunk
-- stream's last header; for format 3 that is the header already there.
unfoldable pub read_header : ℕ → Option LastHeader → List ℕ → Result (LastHeader × List ℕ)
unfolding read_byte read_u24 read_u32_be read_u32_le
read_header fmt prev bs =
    let full = (do
      (field, bs1) ← read_u24 bs
      (len, bs2) ← read_u24 bs1
      (typ, bs3) ← read_byte bs2
      (sid, bs4) ← read_u32_le bs3
      (ts, bs5) ← read_timestamp field field bs4
      ok (
        record {
          timestamp = ts;
          msg_len = len;
          msg_type = typ;
          stream_id = sid;
          ext = field == escape;
        },
        bs5,
      )) in
    let same_stream = (do
      (delta, bs1) ← read_u24 bs
      (len, bs2) ← read_u24 bs1
      (typ, bs3) ← read_byte bs2
      p ← history prev
      (ts, bs4) ← read_timestamp delta ((p.timestamp + delta) % 2 ^ 32) bs3
      ok (
        record {
          timestamp = ts;
          msg_len = len;
          msg_type = typ;
          stream_id = p.stream_id;
          ext = delta == escape;
        },
        bs4,
      )) in
    let same_length = (do
      (delta, bs1) ← read_u24 bs
      p ← history prev
      (ts, bs2) ← read_timestamp delta ((p.timestamp + delta) % 2 ^ 32) bs1
      ok (record p { timestamp = ts; ext = delta == escape }, bs2)) in
    let same_header = (do
      p ← history prev
      (ts, bs1) ← if p.ext then read_u32_be bs else ok (0, bs)
      ok (p, bs1)) in
    if fmt == 0
    then full
    else if fmt == 1
    then same_stream
    else if fmt == 2
    then same_length
    else if fmt == 3
    then same_header
    else err protocol

-- What the reader already has of a chunk stream's message: the length wanted, and the bytes.
abbrev pub wanted : Option (LastHeader × List ℕ) → LastHeader → ℕ
wanted none h = h.msg_len
wanted (some (base, buf)) h = base.msg_len

abbrev pub collected : Option (LastHeader × List ℕ) → List ℕ
collected none = []
collected (some (base, buf)) = buf

-- The header kept with a message that is not complete.
abbrev pub kept : Option (LastHeader × List ℕ) → LastHeader → LastHeader
kept none h = record h { ext = false }
kept (some (base, buf)) h = base

-- A complete message: a Set Chunk Size is applied here, any other is returned.
unfoldable pub complete : ChunkReader → ℕ → LastHeader → List ℕ → Option Message × ChunkReader
complete r csid h buf =
    let size = from_be32 (get_or buf 0 0) (get_or buf 1 0) (get_or buf 2 0) (get_or buf 3 0) in
    if (h.msg_type == msg_set_chunk_size) && leb 4 (length buf)
    then (none, if leb 1 size && leb size 65536 then record r { in_chunk_size = size } else r)
    else (
      some (record {
        csid = csid;
        timestamp = h.timestamp;
        msg_type = h.msg_type;
        stream_id = h.stream_id;
        payload = buf;
      }),
      r,
    )

-- The second half of the loop: one chunk's worth of the message's bytes.
unfoldable pub read_chunk_data :
    ChunkReader → ℕ → LastHeader → List ℕ → Result (Option Message × ChunkReader × List ℕ)
read_chunk_data r csid h bs = do
  let before = r.partial csid
  let want_total = wanted before h
  let count = min (want_total - length (collected before)) r.in_chunk_size
  (chunk, bs') ← read_exact count bs
  let buf = collected before ++ chunk
  let unfinished = record r { partial = update r.partial csid (some (kept before h, buf)) }
  let (msg, r') = complete (record r { partial = update r.partial csid none }) csid h buf
  if ltb (length buf) want_total then ok (none, unfinished, bs') else ok (msg, r', bs')

-- One round of the loop: one chunk. `none` is `continue`.
unfoldable pub read_chunk : ChunkReader → List ℕ → Result (Option Message × ChunkReader × List ℕ)
read_chunk r bs = do
  (fmt, csid, bs1) ← read_basic_header bs
  (h, bs2) ← read_header fmt (r.last csid) bs1
  read_chunk_data (if fmt == 3 then r else record r { last = update r.last csid (some h) }) csid h
      bs2

-- The loop of `next_message`, on fuel.
unfoldable pub next_message : ℕ → ChunkReader → List ℕ → Result (Message × ChunkReader × List ℕ)
next_message zero r bs = stuck
next_message (suc fuel) r bs = do
  (msg, r', bs') ← read_chunk r bs
  elim msg [ some m ↦ ok (m, r', bs') | none ↦ next_message fuel r' bs' ]

pub next_message-some :
    (rounds : ℕ) (r : ChunkReader) (bs : List ℕ) {m : Message} {r' : ChunkReader} {bs' : List ℕ}
    → read_chunk r bs ≡ ok (some m, r', bs')
    → next_message (suc rounds) r bs ≡ ok (m, r', bs')
unfolding next_message
next_message-some rounds r bs e = rw e

pub next_message-none :
    (rounds : ℕ) (r : ChunkReader) (bs : List ℕ) {r' : ChunkReader} {bs' : List ℕ}
    → read_chunk r bs ≡ ok (none, r', bs')
    → next_message (suc rounds) r bs ≡ next_message rounds r' bs'
unfolding next_message
next_message-none rounds r bs e = rw e
