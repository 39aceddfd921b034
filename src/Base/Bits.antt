-- ===== src/Base/Bits.antt =====
-- Single bits of an unsigned integer, by arithmetic: `x & (1 << k) != 0`, `x | (1 << k)` and
-- `x &^ (1 << k)`.
use Prim.Native.Nat.{ℕ, ◌+◌, ◌-◌, ◌/◌, ◌%◌, ◌^◌, ◌<◌}
use mathlib.Core.Path.{◌≡◌}
use mathlib.Core.Bool.{Bool, not}
use native.Mathlib.Omega.{arith}
use nextendo_mk8d_matchmakin.Base.Tests.{◌==◌, if◌then◌else◌}

abbrev pub test_bit : ℕ → ℕ → Bool
test_bit k x = not (x / 2 ^ k % 2 == 0)

abbrev pub set_bit : ℕ → ℕ → ℕ
set_bit k x = if test_bit k x then x else x + 2 ^ k

abbrev pub clear_bit : ℕ → ℕ → ℕ
clear_bit k x = if test_bit k x then x - 2 ^ k else x

-- Bit 15 of a 32-bit number: set and cleared again, and the bound kept.
pub clear_bit-set_bit_15 : (x : ℕ) → clear_bit 15 (set_bit 15 x) ≡ clear_bit 15 x
clear_bit-set_bit_15 x = ground arith

pub set_bit_15-lt : (x : ℕ) → x < 256 ^ 4 → set_bit 15 x < 256 ^ 4
set_bit_15-lt x h = ground arith

pub set_bit_31-lt : (x : ℕ) → x < 256 ^ 4 → set_bit 31 x < 256 ^ 4
set_bit_31-lt x h = ground arith

pub set_bit_31_idem : (x : ℕ) → set_bit 31 (set_bit 31 x) ≡ set_bit 31 x
set_bit_31_idem x = ground arith
