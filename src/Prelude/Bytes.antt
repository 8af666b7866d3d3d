-- ===== src/Prelude/Bytes.antt =====
-- Bytes, and numbers written as bytes in either order (`to_be_bytes`, `to_le_bytes` and back).
use Prim.Native.Nat.{ℕ, ◌+◌, ◌*◌, ◌/◌, ◌%◌, ◌^◌, ◌<◌}
use mathlib.Core.Path.{◌≡◌}
use mathlib.Core.List.{List, [], ◌∷◌}
use native.Mathlib.Omega.{arith}

abbrev pub IsByte : ℕ → Type 0
IsByte b = b < 256

-- The byte of weight 256 ^ k.
abbrev pub byte_at : ℕ → ℕ → ℕ
byte_at v k = v / 256 ^ k % 256

abbrev pub be16 : ℕ → List ℕ
be16 v = byte_at v 1 ∷ byte_at v 0 ∷ []

-- `to_be_bytes()[1..4]` of a u32.
abbrev pub be24 : ℕ → List ℕ
be24 v = byte_at v 2 ∷ byte_at v 1 ∷ byte_at v 0 ∷ []

abbrev pub be32 : ℕ → List ℕ
be32 v = byte_at v 3 ∷ byte_at v 2 ∷ byte_at v 1 ∷ byte_at v 0 ∷ []

abbrev pub le32 : ℕ → List ℕ
le32 v = byte_at v 0 ∷ byte_at v 1 ∷ byte_at v 2 ∷ byte_at v 3 ∷ []

abbrev pub from_be16 : ℕ → ℕ → ℕ
from_be16 a b = a * 256 + b

abbrev pub from_be24 : ℕ → ℕ → ℕ → ℕ
from_be24 a b c = a * 65536 + b * 256 + c

abbrev pub from_be32 : ℕ → ℕ → ℕ → ℕ → ℕ
from_be32 a b c d = a * 16777216 + b * 65536 + c * 256 + d

pub from_be16-be16 : (v : ℕ) → v < 65536 → from_be16 (byte_at v 1) (byte_at v 0) ≡ v
from_be16-be16 v h = omega arith

pub from_be24-be24 :
    (v : ℕ) → v < 16777216 → from_be24 (byte_at v 2) (byte_at v 1) (byte_at v 0) ≡ v
from_be24-be24 v h = omega arith

pub from_be32-be32 :
    (v : ℕ) → v < 4294967296 → from_be32 (byte_at v 3) (byte_at v 2) (byte_at v 1) (byte_at v 0) ≡ v
from_be32-be32 v h = omega arith
