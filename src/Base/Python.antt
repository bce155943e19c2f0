-- ===== src/Base/Python.antt =====
-- Python's operators on unbounded integers that the library ℤ operations do not cover.
use math_anchor.Base.Int.{ℤ, pos, negsuc, neg, ◌-ℤ◌, ◌*ℤ◌}
use math_anchor.Base.Bits.{bit_and-mask}
use Prim.Native.Nat.{ℕ, suc, ◌-◌, ◌/◌, ◌%◌, ◌^◌, ◌<◌, bit_and}
use mathlib.Core.Path.{◌≡◌}
use native.Mathlib.Nat.{mod-lt}
use native.Mathlib.Omega.{arith}

-- `x & m` for an integer and a mask that is not negative: a negative `x` is the complement of
-- `-x - 1`, with ones above its digits.
unfoldable pub low_bits : ℤ → ℕ → ℕ
low_bits (pos a) m = bit_and a m
low_bits (negsuc a) m = m - bit_and a m

abbrev pub floor_natural : ℤ → ℕ → ℤ
floor_natural (pos a) n = pos (a / n)
floor_natural (negsuc a) n = negsuc (a / n)

-- `x // d` for d ≠ 0, towards minus infinity.
unfoldable pub floor_div : ℤ → ℤ → ℤ
floor_div x (pos d) = floor_natural x d
floor_div x (negsuc d) = floor_natural (neg x) (suc d)

-- divmod(x, d)
unfoldable pub divmod : ℤ → ℤ → ℤ × ℤ
unfolding floor_div
divmod x d = let q = floor_div x d in (q, x -ℤ d *ℤ q)

-- The remainder by a power of two, which the mask below it keeps.
abbrev pub residue : ℤ → ℕ → ℕ
residue (pos a) m = a % m
residue (negsuc a) m = m - 1 - a % m

pub low_bits-mask : (x : ℤ) (w : ℕ) → low_bits x (2 ^ w - 1) ≡ residue x (2 ^ w)
unfolding low_bits
low_bits-mask (pos a) w = bit_and-mask w a
low_bits-mask (negsuc a) w = omega (arith, bit_and-mask w a)

pub residue-lt : (x : ℤ) (m : ℕ) → 0 < m → residue x m < m
residue-lt (pos a) m h = mod-lt a h
residue-lt (negsuc a) m h = omega arith
