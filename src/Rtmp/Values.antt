-- ===== src/Rtmp/Values.antt =====
-- What the AMF0 encoders of rtmp.rs write, `amf0_decode` reads back.
use nbe.Prelude.{
  ℕ, zero, suc, ◌+◌, ◌<◌, ◌≤◌, ◌≡◌, refl, ap, subst, ◌∙◌, arith, Bool, true, false, List, [], ◌∷◌,
  ◌++◌, append_assoc, length, length-append, take-append_length, drop-append_length,
}
use nbe.Prelude.Bytes.{from_be16-be16}
use nbe.Rtmp.Amf0.{
  Amf0, Props, number, bool, string, object, null, undefined, end, prop, Decoded, ok, ◌>>=◌,
  amf0_text, amf0_string, amf0_number, amf0_bool, amf0_null, amf0_entries, amf0_object, get_bytes,
  get_u16, get_text, value_of, props_of, amf0_decode, decode_props,
}

-- A value written by the encoders; there is none for `undefined`.
unfoldable mutual
  unfolding amf0_string amf0_number amf0_bool amf0_null amf0_object

  pub encode : Amf0 → List ℕ
  encode (number n) = amf0_number n
  encode (bool b) = amf0_bool b
  encode (string s) = amf0_string s
  encode (object ps) = amf0_object (encoded ps)
  encode null = amf0_null
  encode undefined = []

  pub encoded : Props → List (List ℕ × List ℕ)
  encoded end = []
  encoded (prop k v ps) = (k, encode v) ∷ encoded ps

unfoldable mutual
  pub size : Amf0 → ℕ
  size (number n) = 1
  size (bool b) = 1
  size (string s) = 1
  size (object ps) = suc (sizes ps)
  size null = 1
  size undefined = 1

  pub sizes : Props → ℕ
  sizes end = 1
  sizes (prop k v ps) = suc (size v + sizes ps)

module _ (utf8 : List ℕ → Bool) where
  -- Texts are UTF-8 of fewer than 65536 bytes, keys are not empty, and numbers have eight bytes.
  unfoldable mutual
    pub IsWire : Amf0 → Type 0
    IsWire (number n) = length n ≡ 8
    IsWire (bool b) = Unit
    IsWire (string s) = (utf8 s ≡ true) × (length s < 65536)
    IsWire (object ps) = AreWire ps
    IsWire null = Unit
    IsWire undefined = ⊥

    pub AreWire : Props → Type 0
    AreWire end = Unit
    AreWire (prop k v ps) =
        (utf8 k ≡ true) × (0 < length k) × (length k < 65536) × IsWire v × AreWire ps

  get_bytes-append : (s rest : List ℕ) → get_bytes (length s) (s ++ rest) ≡ ok (s, rest)
  unfolding get_bytes
  get_bytes-append s rest =
      ground (arith, length-append s rest, take-append_length s rest, drop-append_length s rest)

  get_text-append :
      (s rest : List ℕ) → utf8 s ≡ true → get_text utf8 (length s) (s ++ rest) ≡ ok (s, rest)
  unfolding get_text
  get_text-append s rest u = ground (arith, get_bytes-append s rest)

  get_u16-amf0_text :
      (s rest : List ℕ)
      → length s < 65536
      → get_u16 (amf0_text s ++ rest) ≡ ok (length s, s ++ rest)
  get_u16-amf0_text s rest h = ap (λ n. ok (n, s ++ rest)) (from_be16-be16 (length s) h)

  string-value :
      (props : List ℕ → Decoded (Props × List ℕ)) (s rest : List ℕ)
      → utf8 s ≡ true
      → length s < 65536
      → value_of utf8 props 2 (amf0_text s ++ rest) ≡ ok (string s, rest)
  unfolding value_of
  string-value props s rest u h =
      ap (λ r. r >>= (λ (n, bs'). get_text utf8 n bs') >>= (λ (t, rest'). ok (string t, rest')))
        (get_u16-amf0_text s rest h)
      ∙ ap (λ r. r >>= (λ (t, rest'). ok (string t, rest'))) (get_text-append s rest u)

  number-value :
      (props : List ℕ → Decoded (Props × List ℕ)) (n rest : List ℕ)
      → length n ≡ 8
      → value_of utf8 props 0 (n ++ rest) ≡ ok (number n, rest)
  unfolding value_of
  number-value props n rest e =
      ap (λ r. r >>= (λ (m, rest'). ok (number m, rest')))
        (subst (λ k. get_bytes k (n ++ rest) ≡ ok (n, rest)) e (get_bytes-append n rest))

  prop-read :
      (value : List ℕ → Decoded (Amf0 × List ℕ)) (more : List ℕ → Decoded (Props × List ℕ))
      (k bytes later rest : List ℕ) (v : Amf0) (ps : Props)
      → utf8 k ≡ true
      → 0 < length k
      → length k < 65536
      → value (bytes ++ later) ≡ ok (v, later)
      → more later ≡ ok (ps, rest)
      → props_of utf8 value more (amf0_text k ++ (bytes ++ later)) ≡ ok (prop k v ps, rest)
  unfolding props_of
  prop-read value more k bytes later rest v ps u p h ev em =
      ground (arith, from_be16-be16 (length k) h, get_text-append k (bytes ++ later) u, ev, em)

  size_pos : (v : Amf0) → 0 < size v
  unfolding size
  size_pos (number n) = omega arith
  size_pos (bool b) = omega arith
  size_pos (string s) = omega arith
  size_pos (object ps) = omega arith
  size_pos null = omega arith
  size_pos undefined = omega arith

  sizes_pos : (ps : Props) → 0 < sizes ps
  unfolding size
  sizes_pos end = omega arith
  sizes_pos (prop k v ps) = omega arith

  mutual
    unfolding encode amf0_decode size amf0_string amf0_number amf0_bool amf0_null amf0_object IsWire
        value_of props_of

    decode-encode :
        (fuel : ℕ) (v : Amf0) (rest : List ℕ)
        → IsWire v
        → size v ≤ fuel
        → amf0_decode utf8 fuel (encode v ++ rest) ≡ ok (v, rest)
    decode-encode zero v rest w h = absurd (omega (arith, size_pos v))
    decode-encode (suc fuel) (number n) rest w h = number-value (decode_props utf8 fuel) n rest w
    decode-encode (suc fuel) (bool true) rest w h = refl
    decode-encode (suc fuel) (bool false) rest w h = refl
    decode-encode (suc fuel) (string s) rest w h =
        string-value (decode_props utf8 fuel) s rest w.0 w.1
    decode-encode (suc fuel) (object ps) rest w h =
        ap (λ r. r >>= (λ (qs, rest'). ok (object qs, rest')))
          (decode_props-encoded fuel ps rest w (omega arith))
    decode-encode (suc fuel) null rest w h = refl
    decode-encode (suc fuel) undefined rest w h = absurd w

    decode_props-encoded :
        (fuel : ℕ) (ps : Props) (rest : List ℕ)
        → AreWire ps
        → sizes ps ≤ fuel
        → decode_props utf8 fuel (amf0_entries (encoded ps) ++ rest) ≡ ok (ps, rest)
    decode_props-encoded zero ps rest w h = absurd (omega (arith, sizes_pos ps))
    decode_props-encoded (suc fuel) end rest w h = refl
    decode_props-encoded (suc fuel) (prop k v ps) rest (u, p, l, wv, ws) h =
        ap (λ bs. props_of utf8 (amf0_decode utf8 fuel) (decode_props utf8 fuel) bs)
          (append_assoc (amf0_text k) (encode v ++ amf0_entries (encoded ps)) rest
            ∙ ap (λ bs. amf0_text k ++ bs)
                (append_assoc (encode v) (amf0_entries (encoded ps)) rest))
        ∙ prop-read (amf0_decode utf8 fuel) (decode_props utf8 fuel) k (encode v)
            (amf0_entries (encoded ps) ++ rest) rest v ps u p l
            (decode-encode fuel v (amf0_entries (encoded ps) ++ rest) wv
              (omega (arith, sizes_pos ps)))
            (decode_props-encoded fuel ps rest ws (omega (arith, size_pos v)))

  -- With its size as fuel, `amf0_decode` reads back every value that the encoders write, and leaves what follows, where
  -- texts are UTF-8 of fewer than 65536 bytes, keys are not empty and numbers have eight bytes.
  pub amf0_decode-encode :
      (v : Amf0) (rest : List ℕ)
      → IsWire v
      → amf0_decode utf8 (size v) (encode v ++ rest) ≡ ok (v, rest)
  amf0_decode-encode v rest w = decode-encode (size v) v rest w (omega arith)
