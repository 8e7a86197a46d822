-- ===== src/Base/Arith.antt =====
-- `ULONG` arithmetic: native numbers, with `+` and `-` modulo 2 ^ 32 as in C.
use Prim.Native.Nat.{ℕ, ◌+◌, ◌-◌, ◌%◌, ◌<◌}
use mathlib.Core.Path.{◌≡◌}
use native.Mathlib.Omega.{arith}

abbrev pub ulong : ℕ
ulong = 0x1_0000_0000

abbrev pub add32 : ℕ → ℕ → ℕ
add32 a b = (a + b) % ulong

abbrev pub sub32 : ℕ → ℕ → ℕ
sub32 a b = (a + ulong - b) % ulong

pub add32_small : (a b : ℕ) → a + b < ulong → add32 a b ≡ a + b
add32_small a b h = omega arith
