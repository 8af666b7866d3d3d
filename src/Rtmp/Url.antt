-- ===== src/Rtmp/Url.antt =====
-- `parse_rtmp_url` of rtmp.rs, on the bytes of the text. `url[..7]` panics where byte 7 is inside a character.
use nbe.Prelude.{
  ℕ, ◌+◌, ◌-◌, ◌*◌, ◌≡◌, refl, sym, ap, ◌∙◌, arith, Bool, true, false, ◌&&◌, ◌||◌, Option, none,
  some, List, [], ◌∷◌, ◌++◌, append_assoc, length, take, drop, get_or, ltb, leb, ◌==◌,
  if◌then◌else◌,
}

pub record RtmpUrl : Type 0 where
  pub host : List ℕ
  pub port : ℕ
  pub app : List ℕ
  pub key : List ℕ

-- `Err(RtmpError::Parse)`, whose text is left out, is `refused`.
pub data Parsed : Type 0 where
  parsed : RtmpUrl → Parsed
  refused panicked : Parsed

abbrev pub colon : ℕ
colon = b':'

abbrev pub slash : ℕ
slash = b'/'

-- `split_once`.
unfoldable pub split_once : ℕ → List ℕ → Option (List ℕ × List ℕ)
split_once sep [] = none
split_once sep (b ∷ bs) =
    let rest = split_once sep bs in
    if b == sep then some ([], bs) else elim rest [ none ↦ none | some p ↦ some (b ∷ p.0, p.1) ]

-- `trim_matches('/')`, the front and then the back.
abbrev pub trim_start : List ℕ → List ℕ
trim_start [] = []
trim_start (b ∷ bs) = let rest = trim_start bs in if b == slash then rest else b ∷ bs

abbrev pub is_empty : List ℕ → Bool
is_empty [] = true
is_empty (b ∷ bs) = false

unfoldable pub trim_end : List ℕ → List ℕ
trim_end [] = []
trim_end (b ∷ bs) = let rest = trim_end bs in if is_empty rest && b == slash then [] else b ∷ rest

abbrev pub digits_from : ℕ → List ℕ → Option ℕ
digits_from n [] = some n
digits_from n (c ∷ cs) =
    let rest = digits_from (n * 10 + (c - b'0')) cs in
    if leb b'0' c && leb c b'9' then rest else none

abbrev pub in_u16 : Option ℕ → Option ℕ
in_u16 none = none
in_u16 (some n) = if leb n 65535 then some n else none

-- `parse::<u16>`, which takes one leading `+`.
unfoldable pub parse_u16 : List ℕ → Option ℕ
parse_u16 [] = none
parse_u16 (c ∷ []) = if c == b'+' then none else in_u16 (digits_from 0 (c ∷ []))
parse_u16 (c ∷ d ∷ cs) =
    if c == b'+' then in_u16 (digits_from 0 (d ∷ cs)) else in_u16 (digits_from 0 (c ∷ d ∷ cs))

abbrev pub lower : ℕ → ℕ
lower c = if leb b'A' c && leb c b'Z' then c + 32 else c

-- `eq_ignore_ascii_case`.
abbrev pub same_text : List ℕ → List ℕ → Bool
same_text [] [] = true
same_text [] (b ∷ bs) = false
same_text (a ∷ as_) [] = false
same_text (a ∷ as_) (b ∷ bs) = lower a == lower b && same_text as_ bs

abbrev pub scheme : List ℕ
scheme = b'r' ∷ b't' ∷ b'm' ∷ b'p' ∷ b':' ∷ b'/' ∷ b'/' ∷ []

-- A byte that continues a character.
abbrev pub continues : ℕ → Bool
continues b = leb 128 b && ltb b 192

-- From the path on.
unfoldable pub parse_path : List ℕ → ℕ → List ℕ → Parsed
unfolding split_once trim_end
parse_path host port path = elim (split_once slash (trim_end (trim_start path))) [
  | none ↦ refused
  | some p ↦
      if is_empty p.0 || is_empty p.1
      then refused
      else parsed (record { host = host; port = port; app = p.0; key = p.1 })
]

-- From the host on; an absent port is 1935.
unfoldable pub parse_host : List ℕ → List ℕ → Parsed
unfolding parse_path parse_u16
parse_host host_port path = elim (split_once colon host_port) [
  | none ↦ parse_path host_port 1935 path
  | some p ↦ elim (parse_u16 p.1) [
    | none ↦ refused
    | some port ↦ if is_empty p.0 then refused else parse_path p.0 port path
  ]
]

unfoldable pub parse_rest : List ℕ → Parsed
unfolding parse_host
parse_rest rest = elim (split_once slash rest) [
  | none ↦ refused
  | some p ↦ if is_empty p.0 then refused else parse_host p.0 p.1
]

unfoldable pub parse_rtmp_url : List ℕ → Parsed
unfolding parse_rest
parse_rtmp_url url =
    if leb 7 (length url)
    then if continues (get_or url 7 0)
      then panicked
      else if same_text (take 7 url) scheme
      then parse_rest (drop 7 url)
      else refused
    else refused

-- `sep` does not occur.
abbrev pub lacks : ℕ → List ℕ → Bool
lacks sep [] = true
lacks sep (b ∷ bs) = if b == sep then false else lacks sep bs

split_once-append :
    (sep : ℕ) (xs ys : List ℕ)
    → lacks sep xs ≡ true
    → split_once sep (xs ++ (sep ∷ ys)) ≡ some (xs, ys)
unfolding split_once
split_once-append sep [] ys h = ground arith
split_once-append sep (x ∷ xs) ys h = ground (arith, split_once-append sep xs ys (ground arith))

split_once-none : (sep : ℕ) (xs : List ℕ) → lacks sep xs ≡ true → split_once sep xs ≡ none
unfolding split_once
split_once-none sep [] h = refl
split_once-none sep (x ∷ xs) h = ground (arith, split_once-none sep xs (ground arith))

trim_end-append :
    (xs key : List ℕ) → is_empty key ≡ false → trim_end key ≡ key → trim_end (xs ++ key) ≡ xs ++ key
unfolding trim_end
trim_end-append [] key n h = h
trim_end-append (x ∷ xs) key n h =
    ground (arith, trim_end-append xs key n h, is_empty-append xs key n)
  where
    is_empty-append : (xs key : List ℕ) → is_empty key ≡ false → is_empty (xs ++ key) ≡ false
    is_empty-append [] key n = n
    is_empty-append (x ∷ xs) key n = refl

parse_path-ok :
    (host : List ℕ) (port a : ℕ) (app key : List ℕ)
    → lacks slash (a ∷ app) ≡ true
    → is_empty key ≡ false
    → trim_end key ≡ key
    → parse_path host port ((a ∷ app) ++ (slash ∷ key))
      ≡ parsed (record { host = host; port = port; app = a ∷ app; key = key })
unfolding parse_path
parse_path-ok host port a app key l n t =
    ground (arith, split_once-append slash (a ∷ app) key l, trimmed)
  where
    trimmed : trim_end ((a ∷ app) ++ (slash ∷ key)) ≡ (a ∷ app) ++ (slash ∷ key)
    trimmed =
        ap trim_end (sym (append_assoc (a ∷ app) (slash ∷ []) key))
        ∙ trim_end-append ((a ∷ app) ++ (slash ∷ [])) key n t
        ∙ append_assoc (a ∷ app) (slash ∷ []) key

-- A URL with no port, with a host that has no colon and no slash, an app that has no slash and a key that does not end
-- with a slash, none of them empty, is read as those three and port 1935, where the host begins with a whole character.
pub parse_rtmp_url-parsed :
    (h a : ℕ) (host app key : List ℕ)
    → continues h ≡ false
    → lacks colon (h ∷ host) ≡ true
    → lacks slash (h ∷ host) ≡ true
    → lacks slash (a ∷ app) ≡ true
    → is_empty key ≡ false
    → trim_end key ≡ key
    → parse_rtmp_url (scheme ++ ((h ∷ host) ++ (slash ∷ ((a ∷ app) ++ (slash ∷ key)))))
      ≡ parsed (record { host = h ∷ host; port = 1935; app = a ∷ app; key = key })
unfolding parse_rtmp_url parse_rest parse_host
parse_rtmp_url-parsed h a host app key c lc ls la n t =
    let path : List ℕ = (a ∷ app) ++ (slash ∷ key) in
    let split = split_once-append slash (h ∷ host) path ls in
    let none_ = split_once-none colon (h ∷ host) lc in
    let done = parse_path-ok (h ∷ host) 1935 a app key la n t in ground (arith, split, none_, done)
