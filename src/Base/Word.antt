-- ===== src/Base/Word.antt =====
-- int64 and uint64 as bit patterns below 2 ^ 64: two's complement, wrap-around included. The
-- conversions between the two types keep the bits, so they are the identity here.
use Prim.Native.Nat.{ℕ, ◌+◌, ◌-◌, ◌%◌, ◌^◌, ◌<◌}
use mathlib.Core.Path.{◌≡◌}
use mathlib.Core.Bool.{Bool}
use native.Mathlib.Omega.{arith}
use mbta_go.Base.Tests.{ltb, leb}

abbrev pub add64 : ℕ → ℕ → ℕ
add64 a b = (a + b) % 2 ^ 64

abbrev pub sub64 : ℕ → ℕ → ℕ
sub64 a b = (a + 2 ^ 64 - b) % 2 ^ 64

-- The signed order: with the sign bit flipped it is the order of the patterns.
abbrev pub flip_sign : ℕ → ℕ
flip_sign a = (a + 2 ^ 63) % 2 ^ 64

abbrev pub slt : ℕ → ℕ → Bool
slt a b = ltb (flip_sign a) (flip_sign b)

abbrev pub sle : ℕ → ℕ → Bool
sle a b = leb (flip_sign a) (flip_sign b)

abbrev pub IsU64 : ℕ → Type 0
IsU64 a = a < 2 ^ 64

-- A signed value that is not negative.
abbrev pub IsNonneg : ℕ → Type 0
IsNonneg a = a < 2 ^ 63

-- On such values the signed order is that of the numbers.
pub slt-IsNonneg : (a b : ℕ) → IsNonneg a → IsNonneg b → slt a b ≡ ltb a b
slt-IsNonneg a b h k = ground arith
