-- ===== src/Base/Bits.antt =====
-- The binary operations digit by digit, and as arithmetic where a mask or a disjoint field is met.
use Prim.Native.Nat.{
  ℕ, zero, suc, ◌+◌, ◌-◌, ◌*◌, ◌/◌, ◌%◌, ◌^◌, ◌≤◌, ◌<◌, min, max, digits, differ, bit_and, bit_or,
  bit_xor, bit_and-bitwise, bit_or-bitwise, bit_xor-bitwise,
}
use mathlib.Core.Path.{◌≡◌, refl, ap, ap₂, ◌∙◌}
use native.Mathlib.Nat.{
  pow-suc, one-le-pow, mul-add-mod_self_left, mod-eq_of_lt, mul-add-div, div-eq_of_lt, mod-lt,
  div-add-mod,
}
use native.Mathlib.Omega.{arith}

-- An operation on digits, `f`, with the result `z` once the first number has run out.
module _ (z : ℕ → ℕ) (f : ℕ → ℕ → ℕ) where
  -- Fuel beyond the first number's size changes nothing.
  spare_fuel : (n k a b : ℕ) → a ≤ n → n ≤ k → digits z f k a b ≡ digits z f n a b
  spare_fuel zero zero zero b p q = refl
  spare_fuel zero (suc k) zero b p q = refl
  spare_fuel zero k (suc a) b p q = absurd (omega arith)
  spare_fuel (suc n) zero a b p q = absurd (omega arith)
  spare_fuel (suc n) (suc k) zero b p q = refl
  spare_fuel (suc n) (suc k) (suc a) b p q =
      ap (λ d. d * 2 + f (suc a % 2) (b % 2))
        (spare_fuel n k (suc a / 2) (b / 2) (omega arith) (omega arith))

  -- The lowest digit, and the rest.
  lowest_digit :
      (a b : ℕ)
      → digits z f (suc a) (suc a) b
        ≡ digits z f (suc a / 2) (suc a / 2) (b / 2) * 2 + f (suc a % 2) (b % 2)
  lowest_digit a b =
      ap (λ d. d * 2 + f (suc a % 2) (b % 2))
        (spare_fuel (suc a / 2) a (suc a / 2) (b / 2) (omega arith) (omega arith))

pub bit_and_halve : (a b : ℕ) → bit_and a b ≡ bit_and (a / 2) (b / 2) * 2 + min (a % 2) (b % 2)
bit_and_halve zero b = simp bit_and-bitwise (omega arith)
bit_and_halve (suc a) b = simp bit_and-bitwise (lowest_digit (λ _. 0) min a b)

pub bit_or_halve : (a b : ℕ) → bit_or a b ≡ bit_or (a / 2) (b / 2) * 2 + max (a % 2) (b % 2)
bit_or_halve zero b = simp bit_or-bitwise (omega arith)
bit_or_halve (suc a) b = simp bit_or-bitwise (lowest_digit (λ d. d) max a b)

differ_lt : (a b : ℕ) → a < 2 → b < 2 → differ a b < 2
differ_lt zero b p q = q
differ_lt (suc zero) zero p q = omega arith
differ_lt (suc zero) (suc zero) p q = omega arith
differ_lt (suc zero) (suc (suc b)) p q = absurd (omega arith)
differ_lt (suc (suc a)) b p q = absurd (omega arith)

pub bit_xor_halve : (a b : ℕ) → bit_xor a b ≡ bit_xor (a / 2) (b / 2) * 2 + differ (a % 2) (b % 2)
bit_xor_halve zero b = simp bit_xor-bitwise (omega arith)
bit_xor_halve (suc a) b = simp bit_xor-bitwise (lowest_digit (λ d. d) differ a b)

-- The digit of weight `2 ^ i`.
abbrev pub bit : ℕ → ℕ → ℕ
bit zero x = x % 2
bit (suc i) x = bit i (x / 2)

pub bit_lt : (i x : ℕ) → bit i x < 2
bit_lt zero x = omega arith
bit_lt (suc i) x = bit_lt i (x / 2)

pub bit-bit_and : (i a b : ℕ) → bit i (bit_and a b) ≡ min (bit i a) (bit i b)
bit-bit_and zero a b = omega (arith, bit_and_halve a b)
bit-bit_and (suc i) a b = ap (bit i) (half (bit_and_halve a b)) ∙ bit-bit_and i (a / 2) (b / 2)
  where
    half : {x y : ℕ} → x ≡ y * 2 + min (a % 2) (b % 2) → x / 2 ≡ y
    half e = omega arith

pub bit-bit_or : (i a b : ℕ) → bit i (bit_or a b) ≡ max (bit i a) (bit i b)
bit-bit_or zero a b = omega (arith, bit_or_halve a b)
bit-bit_or (suc i) a b = ap (bit i) (half (bit_or_halve a b)) ∙ bit-bit_or i (a / 2) (b / 2)
  where
    half : {x y : ℕ} → x ≡ y * 2 + max (a % 2) (b % 2) → x / 2 ≡ y
    half e = omega arith

pub bit-bit_xor : (i a b : ℕ) → bit i (bit_xor a b) ≡ differ (bit i a) (bit i b)
bit-bit_xor zero a b =
    omega (arith, bit_xor_halve a b, differ_lt (a % 2) (b % 2) (omega arith) (omega arith))
bit-bit_xor (suc i) a b = ap (bit i) (half (bit_xor_halve a b)) ∙ bit-bit_xor i (a / 2) (b / 2)
  where
    half : {x y : ℕ} → x ≡ y * 2 + differ (a % 2) (b % 2) → x / 2 ≡ y
    half e = omega (arith, differ_lt (a % 2) (b % 2) (omega arith) (omega arith))

-- A shift moves the digits.
bit-zero : (i : ℕ) → bit i 0 ≡ 0
bit-zero zero = refl
bit-zero (suc i) = bit-zero i

pub two_pow_pos : (k : ℕ) → 0 < 2 ^ k
two_pow_pos k = one-le-pow k 2 (omega arith)

pub two_pow_suc : (k : ℕ) → 2 ^ suc k ≡ 2 * 2 ^ k
two_pow_suc k = omega (arith, pow-suc 2 k)

-- Division with remainder is unique.
pub mod_unique : (m q r : ℕ) → r < m → (m * q + r) % m ≡ r
mod_unique m q r h = mul-add-mod_self_left m q r ∙ mod-eq_of_lt h

pub div_unique : (m q r : ℕ) → r < m → (m * q + r) / m ≡ q
div_unique m q r h = omega (arith, mul-add-div {m = m} (omega arith) q r, div-eq_of_lt h)

pub mod_double : (a p : ℕ) → 0 < p → a % (2 * p) ≡ a / 2 % p * 2 + a % 2
mod_double a p h =
    ap (λ x. x % (2 * p)) split
    ∙ mod_unique (2 * p) (a / 2 / p) (a / 2 % p * 2 + a % 2) (omega (arith, mod-lt (a / 2) h))
  where
    split : a ≡ 2 * p * (a / 2 / p) + (a / 2 % p * 2 + a % 2)
    split = omega (arith, div-add-mod (a / 2) p)

bit_and_zero_below : (n a : ℕ) → a ≤ n → bit_and a 0 ≡ 0
bit_and_zero_below n zero h = refl
bit_and_zero_below zero (suc a) h = absurd (omega arith)
bit_and_zero_below (suc n) (suc a) h =
    omega (arith, bit_and_halve (suc a) 0, bit_and_zero_below n (suc a / 2) (omega arith))

bit_or_zero_below : (n a : ℕ) → a ≤ n → bit_or a 0 ≡ a
bit_or_zero_below n zero h = refl
bit_or_zero_below zero (suc a) h = absurd (omega arith)
bit_or_zero_below (suc n) (suc a) h =
    omega (arith, bit_or_halve (suc a) 0, bit_or_zero_below n (suc a / 2) (omega arith))

-- A mask of `k` ones keeps the remainder by `2 ^ k`.
pub bit_and-mask : (k a : ℕ) → bit_and a (2 ^ k - 1) ≡ a % 2 ^ k
bit_and-mask zero a = omega (arith, bit_and_zero_below a a (omega arith))
bit_and-mask (suc k) a =
    let p = 2 ^ k in
    let pos = two_pow_pos k in
    let double = two_pow_suc k in
    let half : (2 ^ suc k - 1) / 2 ≡ 2 ^ k - 1 = omega (arith, pos, double) in
    let odd : (2 ^ suc k - 1) % 2 ≡ 1 = omega (arith, pos, double) in
    bit_and_halve a (2 ^ suc k - 1)
    ∙ ap₂ (λ h l. bit_and (a / 2) h * 2 + min (a % 2) l) half odd
    ∙ ap (λ d. d * 2 + min (a % 2) 1) (bit_and-mask k (a / 2))
    ∙ omega (arith, mod_double a (2 ^ k) pos, ap (λ m. a % m) double)

-- Disjoint fields: `|` is a sum.
pub bit_or-disjoint : (k q r : ℕ) → r < 2 ^ k → bit_or (q * 2 ^ k) r ≡ q * 2 ^ k + r
bit_or-disjoint zero q r h =
    let none_left : r ≡ 0 = omega arith in
    rw none_left (omega (arith, bit_or_zero_below (q * 2 ^ 0) (q * 2 ^ 0) (omega arith)))
bit_or-disjoint (suc k) q r h =
    let double : q * 2 ^ suc k ≡ 2 * (q * 2 ^ k) = omega (arith, ap (λ t. q * t) (two_pow_suc k)) in
    let half : q * 2 ^ suc k / 2 ≡ q * 2 ^ k = omega (arith, double) in
    bit_or_halve (q * 2 ^ suc k) r
    ∙ ap (λ t. bit_or t (r / 2) * 2 + max (q * 2 ^ suc k % 2) (r % 2)) half
    ∙ ap (λ t. t * 2 + max (q * 2 ^ suc k % 2) (r % 2))
        (bit_or-disjoint k q (r / 2) (omega (arith, two_pow_suc k)))
    ∙ omega (arith, double)

-- The digits of a number below `2 ^ w` determine it.
pub bits_ext : (w a b : ℕ) → a < 2 ^ w → b < 2 ^ w → ((i : ℕ) → i < w → bit i a ≡ bit i b) → a ≡ b
bits_ext zero a b p q h = omega arith
bits_ext (suc w) a b p q h = omega (
  arith,
  bits_ext w (a / 2) (b / 2) (omega (arith, two_pow_suc w)) (omega (arith, two_pow_suc w))
      (λ i l. h (suc i) (omega arith)),
  h 0 (omega arith),
)
