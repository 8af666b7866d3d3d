-- ===== src/Rtmp/Amf0.antt =====
-- AMF0, rtmp.rs: the encoders of a command's values, and `amf0_decode`. A position in the buffer is the list of
-- the bytes from there on. A text is its bytes, and whether they are UTF-8 is the parameter `utf8`; an f64 is its
-- eight bytes. Errors of one kind share a constructor.
use nbe.Prelude.{
  ℕ, zero, suc, Bool, not, ◌||◌, List, [], ◌∷◌, ◌++◌, length, take, drop, leb, ◌==◌, if◌then◌else◌,
}
use nbe.Prelude.Bytes.{be16, from_be16, from_be32}

mutual
  pub data Amf0 : Type 0 where
    number : List ℕ → Amf0
    bool : Bool → Amf0
    string : List ℕ → Amf0
    object : Props → Amf0
    null : Amf0
    undefined : Amf0

  -- `Vec<(String, Amf0)>`.
  pub data Props : Type 0 where
    end : Props
    prop : List ℕ → Amf0 → Props → Props

pub data AmfError : Type 0 where
  truncated bad_utf8 bad_end exhausted : AmfError
  unsupported : ℕ → AmfError

pub data Decoded {ℓ} (A : Type ℓ) : Type ℓ where
  ok : A → Decoded A
  err : AmfError → Decoded A

infixl 5 ◌>>=◌
abbrev pub ◌>>=◌ {ℓ κ} : {A : Type ℓ} {B : Type κ} → Decoded A → (A → Decoded B) → Decoded B
ok a >>= f = f a
err e >>= f = err e

-- `(s.len() as u16).to_be_bytes()`, which wraps.
abbrev pub amf0_text : List ℕ → List ℕ
amf0_text s = be16 (length s) ++ s

unfoldable pub amf0_string : List ℕ → List ℕ
amf0_string s = 0x02 ∷ amf0_text s

unfoldable pub amf0_number : List ℕ → List ℕ
amf0_number n = 0x00 ∷ n

unfoldable pub amf0_bool : Bool → List ℕ
amf0_bool b = 0x01 ∷ (if b then 1 else 0) ∷ []

unfoldable pub amf0_null : List ℕ
amf0_null = 0x05 ∷ []

abbrev pub amf0_entries : List (List ℕ × List ℕ) → List ℕ
amf0_entries [] = 0 ∷ 0 ∷ 0x09 ∷ []
amf0_entries ((k, v) ∷ props) = amf0_text k ++ (v ++ amf0_entries props)

unfoldable pub amf0_object : List (List ℕ × List ℕ) → List ℕ
amf0_object props = 0x03 ∷ amf0_entries props

unfoldable pub amf0_invoke : List ℕ → List ℕ → List ℕ → List ℕ → List ℕ
unfolding amf0_string amf0_number
amf0_invoke name trans props args = amf0_string name ++ amf0_number trans ++ props ++ args

-- `buf.get(pos..pos + n)`.
unfoldable pub get_bytes : ℕ → List ℕ → Decoded (List ℕ × List ℕ)
get_bytes n bs = if leb n (length bs) then ok (take n bs, drop n bs) else err truncated

abbrev pub get_byte : List ℕ → Decoded (ℕ × List ℕ)
get_byte [] = err truncated
get_byte (b ∷ bs) = ok (b, bs)

abbrev pub get_u16 : List ℕ → Decoded (ℕ × List ℕ)
get_u16 [] = err truncated
get_u16 (a ∷ []) = err truncated
get_u16 (a ∷ b ∷ bs) = ok (from_be16 a b, bs)

abbrev pub get_u32 : List ℕ → Decoded (ℕ × List ℕ)
get_u32 (a ∷ b ∷ c ∷ d ∷ bs) = ok (from_be32 a b c d, bs)
get_u32 (a ∷ b ∷ c ∷ []) = err truncated
get_u32 (a ∷ b ∷ []) = err truncated
get_u32 (a ∷ []) = err truncated
get_u32 [] = err truncated

module _ (utf8 : List ℕ → Bool) where
  unfoldable pub get_text : ℕ → List ℕ → Decoded (List ℕ × List ℕ)
  unfolding get_bytes
  get_text n bs = get_bytes n bs >>= (λ (s, rest). if utf8 s then ok (s, rest) else err bad_utf8)

  -- The byte after an empty key.
  abbrev pub end_of : List ℕ → Decoded (Props × List ℕ)
  end_of bs = get_byte bs >>= (λ (b, rest). if b == 0x09 then ok (end, rest) else err bad_end)

  -- The arms of the match on the type byte, with the value of an object's properties given.
  unfoldable pub value_of :
      (List ℕ → Decoded (Props × List ℕ)) → ℕ → List ℕ → Decoded (Amf0 × List ℕ)
  unfolding get_text
  value_of props t bs =
      if t == 0x00
      then get_bytes 8 bs >>= (λ (n, rest). ok (number n, rest))
      else if t == 0x01
      then get_byte bs >>= (λ (b, rest). ok (bool (not (b == 0)), rest))
      else if t == 0x02
      then get_u16 bs >>= (λ (n, bs'). get_text n bs') >>= (λ (s, rest). ok (string s, rest))
      else if t == 0x03
      then props bs >>= (λ (ps, rest). ok (object ps, rest))
      else if t == 0x05 || t == 0x06
      then ok (null, bs)
      else if t == 0x08
      then get_bytes 4 bs >>= (λ (count, bs'). props bs') >>= (λ (ps, rest). ok (object ps, rest))
      else if t == 0x0C
      then get_u32 bs >>= (λ (n, bs'). get_text n bs') >>= (λ (s, rest). ok (string s, rest))
      else err (unsupported t)

  -- One turn of the loop over properties.
  unfoldable pub props_of :
      (List ℕ → Decoded (Amf0 × List ℕ))
      → (List ℕ → Decoded (Props × List ℕ))
      → List ℕ
      → Decoded (Props × List ℕ)
  unfolding get_text
  props_of value more bs = get_u16 bs >>= (λ (n, bs').
      if n == 0
      then end_of bs'
      else get_text n bs' >>= (λ (k, after).
        value after >>= (λ (v, later). more later >>= (λ (ps, rest). ok (prop k v ps, rest)))))

  unfoldable mutual
    unfolding value_of props_of

    pub amf0_decode : ℕ → List ℕ → Decoded (Amf0 × List ℕ)
    amf0_decode zero bs = err exhausted
    amf0_decode (suc fuel) bs = get_byte bs >>= (λ (t, bs'). value_of (decode_props fuel) t bs')

    pub decode_props : ℕ → List ℕ → Decoded (Props × List ℕ)
    decode_props zero bs = err exhausted
    decode_props (suc fuel) bs = props_of (amf0_decode fuel) (decode_props fuel) bs
