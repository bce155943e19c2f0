-- ===== src/Integers/Actions/Alignment.antt =====
-- `align_up` and `align_down` of `bitwise` (src/math_anchor/operations/programmer.py).
use math_anchor.Base.{ℕ, zero, suc, ◌+◌, ◌-◌, ◌*◌, ◌/◌, ◌^◌, ◌≤◌, ◌<◌, ◌≡◌, arith, bit_and}
use math_anchor.Base.Int.{pos, negsuc, neg}
use math_anchor.Base.Bits.{two_pow_pos, bit_and-mask, bit_and_halve}
use math_anchor.Base.Python.{low_bits}
use math_anchor.Integers.Actions.{aligned_up, aligned_down}
use native.Mathlib.Nat.{div-add-mod, mod-lt}

neg-pos : (n : ℕ) → 0 < n → neg (pos n) ≡ negsuc (n - 1)
unfolding neg
neg-pos n h = ground arith

bit_and_comm_below : (n a b : ℕ) → a ≤ n → b ≤ n → bit_and a b ≡ bit_and b a
bit_and_comm_below zero a b p q =
    let za : a ≡ 0 = omega arith in let zb : b ≡ 0 = omega arith in rw (za, zb)
bit_and_comm_below (suc n) a b p q = omega (
  arith,
  bit_and_halve a b,
  bit_and_halve b a,
  bit_and_comm_below n (a / 2) (b / 2) (omega arith) (omega arith),
)

bit_and_comm : (a b : ℕ) → bit_and a b ≡ bit_and b a
bit_and_comm a b = bit_and_comm_below (a + b) a b (omega arith) (omega arith)

-- `x & -2^k` clears the digits below.
cleared : (k x : ℕ) → low_bits (neg (pos (2 ^ k))) x ≡ 2 ^ k * (x / 2 ^ k)
unfolding low_bits
cleared k x =
    rw (neg-pos (2 ^ k) (two_pow_pos k))
      (omega (arith, bit_and_comm (2 ^ k - 1) x, bit_and-mask k x, div-add-mod x (2 ^ k)))

-- Aligning to 2 ^ k: down gives the greatest multiple that is not above the value, up the least one
-- that is not below it.
pub aligned_bounds :
    (k raw : ℕ)
    → let down = aligned_down raw (pos (2 ^ k)) in
      let up = aligned_up raw (pos (2 ^ k)) in
      ((q : ℕ) × (down ≡ 2 ^ k * q))
      × (down ≤ raw)
      × (raw < down + 2 ^ k)
      × ((q : ℕ) × (up ≡ 2 ^ k * q))
      × (raw ≤ up)
      × (up < raw + 2 ^ k)
unfolding aligned_down aligned_up
aligned_bounds k raw =
    let p = two_pow_pos k in
    let d = cleared k raw in
    let x = raw + 2 ^ k - 1 in
    let u = cleared k x in
    (
      (raw / 2 ^ k, d),
      omega (arith, d, div-add-mod raw (2 ^ k)),
      omega (arith, d, div-add-mod raw (2 ^ k), mod-lt raw p),
      (x / 2 ^ k, u),
      omega (arith, u, div-add-mod x (2 ^ k), mod-lt x p),
      omega (arith, u, div-add-mod x (2 ^ k), mod-lt x p),
    )
