-- ===== src/Rtmp/RoundTrip.antt =====
-- What `write_chunked` writes, `ChunkReader::next_message` reads back, rtmp.rs.
use nbe.Prelude.{
  ℕ, suc, ◌≤◌, ◌<◌, max, ◌≡◌, refl, ap, subst, ◌∙◌, arith, true, false, List, [], ◌++◌, Option,
  none, some, length, take, drop, length-take, length-drop, take-append-drop, dec_lt,
}
use mathlib.Core.Path.{fun_ext}
use nbe.Rtmp.{ok, Message, Table, update}
use nbe.Rtmp.Writer.{first_header, write_loop, write_chunked, write_loop-suc, write_loop-one}
use nbe.Rtmp.Reader.{ChunkReader, read_chunk, next_message, next_message-some, next_message-none}
use nbe.Rtmp.Chunks.{IsPlain, header, update_self, update_twice, data_more, data_done}
use nbe.Rtmp.Continue.{Amid, after, told, read_first, regroup, Reads, continue_lem}

update_same : {A : Type 0} (t : Table A) (k : ℕ) (v : Option A) → t k ≡ v → update t k v ≡ t
update_same t k v e = fun_ext (λ j. ground (arith, ap t))

first_chunk-done :
    (m : Message) (r : ChunkReader) (rest : List ℕ)
    → IsPlain m
    → r.partial m.csid ≡ none
    → length m.payload ≤ r.in_chunk_size
    → read_chunk r (first_header m ++ (m.payload ++ rest)) ≡ ok (some m, after m (told m r), rest)
first_chunk-done m r rest v e fits =
    read_first m r (m.payload ++ rest) v
    ∙ ground (arith, v.not_control, data_done (told m r) m.csid (header m) m.payload rest)

-- The reader after the first of several chunks.
abbrev begun : Message → ChunkReader → ChunkReader
begun m r = record r {
  last = update r.last m.csid (some (header m));
  partial =
      update r.partial m.csid
        (some (record (header m) { ext = false }, take r.in_chunk_size m.payload));
}

first_chunk-more :
    (m : Message) (r : ChunkReader) (rest : List ℕ)
    → IsPlain m
    → r.partial m.csid ≡ none
    → r.in_chunk_size < length m.payload
    → read_chunk r (first_header m ++ (take r.in_chunk_size m.payload ++ rest))
      ≡ ok (none, begun m r, rest)
first_chunk-more m r rest v e more =
    read_first m r (take r.in_chunk_size m.payload ++ rest) v
    ∙ ground (
      arith,
      length-take {0} r.in_chunk_size m.payload,
      data_more (told m r) m.csid (header m) (take r.in_chunk_size m.payload) rest,
    )

begun-Amid :
    (m : Message) (r : ChunkReader)
    → Amid m (begun m r) (take r.in_chunk_size m.payload) (record (header m) { ext = false })
begun-Amid m r = record {
  known = update_self r.last m.csid (some (header m));
  got = update_self r.partial m.csid _;
  length_kept = refl;
}

-- `m` can be written, and read back whatever follows, by a reader of the same chunk size.
abbrev ReadsWhole : ℕ → ℕ → Message → ChunkReader → Type 0
ReadsWhole fuel rounds m r =
    (bytes : List ℕ) × (write_loop fuel m r.in_chunk_size true m.payload ≡ some bytes)
    × ((rest : List ℕ) → next_message rounds r (bytes ++ rest) ≡ ok (m, told m r, rest))

module _ (m : Message) (r : ChunkReader) (v : IsPlain m) (e : r.partial m.csid ≡ none)
    (c : 1 ≤ r.in_chunk_size) where
  after-told : after m (told m r) ≡ told m r
  after-told = ap (λ t. record (told m r) { partial = t }) (update_same r.partial m.csid none e)

  reads_one :
      length m.payload ≤ r.in_chunk_size
      → ReadsWhole (suc (suc (length m.payload))) (suc (length m.payload)) m r
  reads_one fits = (
    first_header m ++ (m.payload ++ []),
    write_loop-one (length m.payload) m r.in_chunk_size m.payload c fits,
    λ rest. rw regroup (
        next_message-some (length m.payload) r (first_header m ++ (m.payload ++ rest))
          (first_chunk-done m r rest v e fits)
        ∙ ap (λ r'. ok (m, r', rest)) after-told),
  )

  begun-after : after m (begun m r) ≡ told m r
  begun-after =
      ap (λ t. record (told m r) { partial = t })
        (update_twice r.partial m.csid _ none ∙ update_same r.partial m.csid none e)

  read_all_chunks :
      r.in_chunk_size < length m.payload
      → Reads
          (suc (length m.payload))
          (length m.payload)
          m
          (begun m r)
          (drop r.in_chunk_size m.payload)
      → ReadsWhole (suc (suc (length m.payload))) (suc (length m.payload)) m r
  read_all_chunks more (bytes, w, rd) = (
    first_header m ++ (take r.in_chunk_size m.payload ++ bytes),
    write_loop-suc (suc (length m.payload)) m r.in_chunk_size true m.payload c (omega arith) w,
    λ rest. rw regroup (
        next_message-none (length m.payload) r
          (first_header m ++ (take r.in_chunk_size m.payload ++ (bytes ++ rest)))
          (first_chunk-more m r (bytes ++ rest) v e more)
        ∙ rd rest
        ∙ ap (λ r'. ok (m, r', rest)) begun-after),
  )

  reads_whole : ReadsWhole (suc (suc (length m.payload))) (suc (length m.payload)) m r
  reads_whole = elim (dec_lt r.in_chunk_size (length m.payload)) [
    | yes more ↦ read_all_chunks more (
        continue_lem (suc (length m.payload)) (length m.payload) m (begun m r)
          (take r.in_chunk_size m.payload) (drop r.in_chunk_size m.payload)
          (record (header m) { ext = false }) v (begun-Amid m r) c
          (take-append-drop r.in_chunk_size m.payload)
          (omega (arith, length-drop {0} r.in_chunk_size m.payload))
          (omega (arith, length-drop {0} r.in_chunk_size m.payload))
          (omega (arith, length-drop {0} r.in_chunk_size m.payload)))
    | no last ↦ reads_one (omega arith)
  ]

-- `write_chunked` ends on every message that the wire format has room for, and `next_message`,
-- with the writer's chunk size and nothing pending on the message's chunk stream, reads that
-- message from the bytes, leaves the bytes that follow, and keeps only the message's header.
pub next_message-write_chunked :
    (m : Message) (chunk_size : ℕ) (r : ChunkReader)
    → IsPlain m
    → r.partial m.csid ≡ none
    → r.in_chunk_size ≡ max chunk_size 1
    → (bytes : List ℕ) × (write_chunked m chunk_size ≡ some bytes)
      × ((rest : List ℕ)
          → next_message (suc (length m.payload)) r (bytes ++ rest) ≡ ok (m, told m r, rest))
unfolding write_chunked
next_message-write_chunked m chunk_size r v e c =
    let (bytes, w, rd) = reads_whole m r v e (omega arith) in
    (
      bytes,
      subst (λ k. write_loop (suc (suc (length m.payload))) m k true m.payload ≡ some bytes) c w,
      rd,
    )
