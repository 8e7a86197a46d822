-- ===== src/Base/Int.antt =====
-- `LONG`: integers, and the reading of a 32-bit pattern as one. `negsuc n` is -(n + 1).
use Prim.Native.Nat.{ℕ, ◌-◌, ◌<◌}
use mathlib.Core.Path.{◌≡◌}
use native.Mathlib.Omega.{arith}
use ntreg.Base.Tests.{ltb, leb, if◌then◌else◌}
use ntreg.Base.Arith.{sub32}

pub data ℤ : Type 0 where
  pos : ℕ → ℤ
  negsuc : ℕ → ℤ

-- a - b, as an integer.
abbrev pub sub_ℕ : ℕ → ℕ → ℤ
sub_ℕ a b = if leb b a then pos (a - b) else negsuc (b - a - 1)

-- The value that a `ULONG` has when it is returned as a `LONG`.
abbrev pub to_long : ℕ → ℤ
to_long w = if ltb w 0x8000_0000 then pos w else negsuc (0xFFFF_FFFF - w)

pub sub_ℕ-zero : (a b : ℕ) → sub_ℕ a b ≡ pos 0 → a ≡ b
sub_ℕ-zero a b h = ground arith

pub to_long-sub32 : (a b : ℕ) → a < 0x8000_0000 → b < 0x8000_0000 → to_long (sub32 a b) ≡ sub_ℕ a b
to_long-sub32 a b ha hb = ground arith
