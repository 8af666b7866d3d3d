-- ===== src/Rtmp/Checks.antt =====
-- The theorem on AMF0 at a concrete object.
use nbe.Prelude.{◌≡◌, refl, arith, true, [], ◌∷◌, ◌++◌}
use nbe.Rtmp.Amf0.{Amf0, object, prop, end, bool, string, ok, amf0_decode}
use nbe.Rtmp.Values.{encode, size, IsWire, amf0_decode-encode}

-- An object with the properties `a`, true, and `b`, the text `x`.
abbrev info : Amf0
info = object (prop (b'a' ∷ []) (bool true) (prop (b'b' ∷ []) (string (b'x' ∷ [])) end))

info-IsWire : IsWire (λ s. true) info
unfolding IsWire
info-IsWire =
    (refl, omega arith, omega arith, tt, (refl, omega arith, omega arith, (refl, omega arith), tt))

amf0_decode-encode_example :
    amf0_decode (λ s. true) (size info) (encode info ++ (9 ∷ [])) ≡ ok (info, 9 ∷ [])
amf0_decode-encode_example = amf0_decode-encode (λ s. true) info (9 ∷ []) info-IsWire
