-- ===== src/Base/Bytes.antt =====
-- Numbers in network byte order (htons, htonl and their inverses).
use Prim.Native.Nat.{ℕ, ◌+◌, ◌*◌, ◌/◌, ◌%◌, ◌^◌, ◌<◌}
use mathlib.Core.Path.{◌≡◌}
use mathlib.Core.List.{List, [], ◌∷◌}
use native.Mathlib.Omega.{arith}

abbrev pub byte : ℕ → ℕ → ℕ
byte n k = n / 256 ^ k % 256

abbrev pub be16 : ℕ → List ℕ
be16 n = byte n 1 ∷ byte n 0 ∷ []

abbrev pub be32 : ℕ → List ℕ
be32 n = byte n 3 ∷ byte n 2 ∷ byte n 1 ∷ byte n 0 ∷ []

abbrev pub from_be16 : ℕ → ℕ → ℕ
from_be16 a b = a * 256 + b

abbrev pub from_be32 : ℕ → ℕ → ℕ → ℕ → ℕ
from_be32 a b c d = ((a * 256 + b) * 256 + c) * 256 + d

pub from_be16-be16 : (n : ℕ) → n < 2 ^ 16 → from_be16 (byte n 1) (byte n 0) ≡ n
from_be16-be16 n h = omega arith

pub from_be32-be32 :
    (n : ℕ) → n < 2 ^ 32 → from_be32 (byte n 3) (byte n 2) (byte n 1) (byte n 0) ≡ n
from_be32-be32 n h = omega arith
