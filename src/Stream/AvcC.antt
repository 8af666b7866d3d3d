-- ===== src/Stream/AvcC.antt =====
-- A reader of the AVC configuration record, and what it finds in the headers that stream.rs writes.
use nbe.Prelude.{
  ℕ, ◌<◌, ◌≡◌, ap, subst, append-nil, length-append, arith, Bool, true, false, ◌&&◌, Option, none,
  some, ◌>>=◌, List, [], ◌∷◌, ◌++◌, length, take, drop, take-append_length, drop-append_length,
  get_or, leb, ◌==◌, if◌then◌else◌,
}
use nbe.Prelude.Bytes.{be16, from_be16, from_be16-be16}
use nbe.Stream.Flv.{avc_sequence_header, avc_c}

-- A length in two bytes and as many bytes, with what follows.
abbrev pub counted_bytes : List ℕ → Option (List ℕ × List ℕ)
counted_bytes (a ∷ b ∷ rest) =
    if leb (from_be16 a b) (length rest)
    then some (take (from_be16 a b) rest, drop (from_be16 a b) rest)
    else none
counted_bytes _ = none

-- The count of the second kind of set, which is one, and the set.
abbrev pub second_set : List ℕ → Option (List ℕ)
second_set [] = none
second_set (n ∷ rest) = if n == 1 then counted_bytes rest >>= (λ r. some r.0) else none

abbrev pub profile_is : List ℕ → List ℕ → Bool
profile_is bytes sps =
    (get_or sps 1 0 == get_or bytes 6 0)
    && (get_or sps 2 0 == get_or bytes 7 0)
    && (get_or sps 3 0 == get_or bytes 8 0)

abbrev pub same : List ℕ → List ℕ → Bool
same [] [] = true
same [] (y ∷ ys) = false
same (x ∷ xs) [] = false
same (x ∷ xs) (y ∷ ys) = x == y && same xs ys

abbrev pub sets_of : List ℕ → List ℕ × List ℕ → Option (List ℕ × List ℕ)
sets_of bytes (sps, rest) =
    if profile_is bytes sps then second_set rest >>= (λ pps. some (sps, pps)) else none

-- An AVCDecoderConfigurationRecord in an FLV sequence header, as ISO/IEC 14496-15 has it: version 1, one set of each
-- kind, and the profile bytes those of the SPS.
unfoldable pub read_header : List ℕ → Option (List ℕ × List ℕ)
read_header bytes =
    if same (take 6 bytes) (0x17 ∷ 0 ∷ 0 ∷ 0 ∷ 0 ∷ 1 ∷ [])
      && same (take 2 (drop 9 bytes)) (0xFF ∷ 0xE1 ∷ [])
    then counted_bytes (drop 11 bytes) >>= sets_of bytes
    else none

counted_bytes-be16 :
    (xs rest : List ℕ)
    → length xs < 65536
    → counted_bytes (be16 (length xs) ++ (xs ++ rest)) ≡ some (xs, rest)
counted_bytes-be16 xs rest h =
    rw (from_be16-be16 (length xs) h) (
      ground (arith, length-append xs rest, take-append_length xs rest, drop-append_length xs rest))

second_set-be16 :
    (pps : List ℕ) → length pps < 65536 → second_set (1 ∷ (be16 (length pps) ++ pps)) ≡ some pps
second_set-be16 pps h =
    ap (λ o. o >>= (λ r. some r.0))
      (subst (λ xs. counted_bytes (be16 (length pps) ++ xs) ≡ some (pps, [])) (append-nil pps)
        (counted_bytes-be16 pps [] h))

sets_of_avc_c :
    (sps pps : List ℕ)
    → length sps < 65536
    → length pps < 65536
    → read_header (0x17 ∷ 0x00 ∷ 0x00 ∷ 0x00 ∷ 0x00 ∷ avc_c sps pps) ≡ some (sps, pps)
unfolding read_header
sets_of_avc_c sps pps hs hp =
    rw (counted_bytes-be16 sps (1 ∷ (be16 (length pps) ++ pps)) hs)
      (ground (arith, second_set-be16 pps hp))

-- An SPS and a PPS shorter than 65536 bytes that a sequence header is built of are what a reader of the header finds.
pub read_header-avc :
    (sps pps seq : List ℕ)
    → length sps < 65536
    → length pps < 65536
    → avc_sequence_header sps pps ≡ some seq
    → read_header seq ≡ some (sps, pps)
unfolding avc_sequence_header
read_header-avc sps pps seq hs hp e = ground (arith, e, sets_of_avc_c sps pps hs hp)
