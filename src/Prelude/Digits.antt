-- ===== src/Prelude/Digits.antt =====
-- Fixed-width numbers as bytes (encoding/binary).
use cmd.Prelude.Lists.{Bytes}
use Prim.Native.Nat.{ℕ, ◌/◌, ◌%◌, ◌+◌, ◌*◌, ◌<◌, ◌^◌}
use mathlib.Core.Path.{◌≡◌}
use mathlib.Core.List.{[], ◌∷◌, ◌++◌}
use native.Mathlib.Omega.{arith}

-- binary.BigEndian.PutUint32
unfoldable pub put_uint32 : ℕ → Bytes
put_uint32 v = (v / 2 ^ 24 % 256) ∷ (v / 2 ^ 16 % 256) ∷ (v / 2 ^ 8 % 256) ∷ (v % 256) ∷ []

-- binary.BigEndian.PutUint16
unfoldable pub put_uint16 : ℕ → Bytes
put_uint16 v = (v / 2 ^ 8 % 256) ∷ (v % 256) ∷ []

-- binary.BigEndian.Uint32 of the first four bytes; Go panics on fewer, which no caller passes.
unfoldable pub uint32 : Bytes → ℕ
uint32 (a ∷ b ∷ c ∷ d ∷ rest) = a * 2 ^ 24 + b * 2 ^ 16 + c * 2 ^ 8 + d
uint32 _ = 0

unfoldable pub uint16 : Bytes → ℕ
uint16 (a ∷ b ∷ rest) = a * 2 ^ 8 + b
uint16 _ = 0

pub uint32-put_uint32 : (v : ℕ) → v < 2 ^ 32 → uint32 (put_uint32 v) ≡ v
unfolding uint32 put_uint32
uint32-put_uint32 v h = omega arith

pub uint16-put_uint16 : (v : ℕ) → v < 2 ^ 16 → uint16 (put_uint16 v) ≡ v
unfolding uint16 put_uint16
uint16-put_uint16 v h = omega arith

-- Eight bytes as a number, the lowest first, and back (binary.LittleEndian).
unfoldable pub uint64_le : Bytes → ℕ
uint64_le (a ∷ b ∷ c ∷ d ∷ e ∷ f ∷ g ∷ h ∷ rest) =
    a + b * 2 ^ 8 + c * 2 ^ 16 + d * 2 ^ 24 + e * 2 ^ 32 + f * 2 ^ 40 + g * 2 ^ 48 + h * 2 ^ 56
uint64_le _ = 0

unfoldable pub put_uint64_le : ℕ → Bytes
put_uint64_le v =
    (v % 256)
    ∷ (v / 2 ^ 8 % 256)
    ∷ (v / 2 ^ 16 % 256)
    ∷ (v / 2 ^ 24 % 256)
    ∷ (v / 2 ^ 32 % 256)
    ∷ (v / 2 ^ 40 % 256)
    ∷ (v / 2 ^ 48 % 256)
    ∷ (v / 2 ^ 56 % 256)
    ∷ []

pub uint64_le-put_uint64_le :
    (v : ℕ) (rest : Bytes) → v < 2 ^ 64 → uint64_le (put_uint64_le v ++ rest) ≡ v
unfolding uint64_le put_uint64_le
uint64_le-put_uint64_le v rest h = omega arith
