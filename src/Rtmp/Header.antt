-- ===== src/Rtmp/Header.antt =====
-- The basic header of an RTMP chunk, rtmp.rs: what `encode_basic_header` writes, and the first
-- lines of `ChunkReader::next_message`, which read it.
use nbe.Prelude.{
  ℕ, ◌+◌, ◌-◌, ◌*◌, ◌/◌, ◌%◌, ◌≤◌, ◌<◌, ◌≡◌, arith, List, [], ◌∷◌, ◌++◌, length, take, drop, ltb,
  ◌==◌, if◌then◌else◌,
}
use nbe.Prelude.Bytes.{from_be24, from_be32}
use nbe.Rtmp.{Result, ok, err, io, ◌>>=◌}

-- `fmt << 6 | csid` joins disjoint bits for `fmt` up to 3. (v as u8 is v % 256.)
unfoldable pub encode_basic_header : ℕ → ℕ → List ℕ
encode_basic_header fmt csid =
    if ltb csid 64
    then (fmt * 64 + csid) ∷ []
    else if ltb csid 320
    then fmt * 64 ∷ (csid - 64) % 256 ∷ []
    else (fmt * 64 + 1) ∷ (csid - 64) % 256 ∷ (csid - 64) / 256 % 256 ∷ []

-- The socket is the bytes that it still delivers; where they end, a read fails.
unfoldable pub read_byte : List ℕ → Result (ℕ × List ℕ)
read_byte [] = err io
read_byte (b ∷ bs) = ok (b, bs)

unfoldable pub read_u24 : List ℕ → Result (ℕ × List ℕ)
read_u24 (a ∷ b ∷ c ∷ bs) = ok (from_be24 a b c, bs)
read_u24 bs = err io

unfoldable pub read_u32_be : List ℕ → Result (ℕ × List ℕ)
read_u32_be (a ∷ b ∷ c ∷ d ∷ bs) = ok (from_be32 a b c d, bs)
read_u32_be bs = err io

unfoldable pub read_u32_le : List ℕ → Result (ℕ × List ℕ)
read_u32_le (a ∷ b ∷ c ∷ d ∷ bs) = ok (from_be32 d c b a, bs)
read_u32_le bs = err io

unfoldable pub read_exact : ℕ → List ℕ → Result (List ℕ × List ℕ)
read_exact n bs = if ltb (length bs) n then err io else ok (take n bs, drop n bs)

-- The format and the chunk stream id: `fmt_csid >> 6`, and `fmt_csid & 0x3F` or its long forms.
unfoldable pub read_basic_header : List ℕ → Result (ℕ × ℕ × List ℕ)
unfolding read_byte
read_basic_header bs = do
  (fmt_csid, bs') ← read_byte bs
  let fmt = fmt_csid / 64
  let short = fmt_csid % 64
  let one = (do (b, rest) ← read_byte bs'; ok (fmt, b + 64, rest))
  let two = (do
    (a, rest) ← read_byte bs'
    (b, rest') ← read_byte rest
    ok (fmt, a + b * 256 + 64, rest'))
  if short == 0 then one else if short == 1 then two else ok (fmt, short, bs')

-- The reader takes back every chunk stream id from 2 to 65599, in each of the three forms, with the
-- format, and leaves what follows.
pub read_basic_header-encode :
    (fmt csid : ℕ) (rest : List ℕ)
    → fmt < 4
    → 2 ≤ csid
    → csid < 65600
    → read_basic_header (encode_basic_header fmt csid ++ rest) ≡ ok (fmt, csid, rest)
unfolding read_basic_header encode_basic_header
read_basic_header-encode fmt csid rest h lo hi = ground arith
