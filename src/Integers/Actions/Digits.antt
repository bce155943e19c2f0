-- ===== src/Integers/Actions/Digits.antt =====
-- The logical actions of `bitwise` on single digits (src/math_anchor/operations/programmer.py).
use math_anchor.Base.{
  ℕ, zero, suc, ◌+◌, ◌-◌, ◌*◌, ◌/◌, ◌%◌, ◌^◌, ◌<◌, ◌≡◌, refl, ap, ◌∙◌, arith, min, max, bit_and,
  bit_or, bit_xor,
}
use math_anchor.Base.Int.{pos, negsuc}
use math_anchor.Base.Bits.{
  bit, bit_lt, bit-bit_and, bit-bit_or, bit-bit_xor, two_pow_pos, two_pow_suc, mod_double,
  bit_and_halve, bit_or_halve, bit_xor_halve,
}
use math_anchor.Base.Python.{low_bits, low_bits-mask, residue-lt}
use math_anchor.Integers.Words.{low_bits-lt}
use math_anchor.Integers.Actions.{
  BinaryAction, and_action, or_action, xor_action, nor_action, not_action, binary_result,
  unary_result,
}
use Prim.Native.Nat.{differ}

-- The table of each binary action.
abbrev pub table : BinaryAction → ℕ → ℕ → ℕ
table and_action a b = a * b
table or_action a b = a + b - a * b
table xor_action a b = (a + b) % 2
table nor_action a b = (1 - a) * (1 - b)

bit-complement : (i w a : ℕ) → i < w → a < 2 ^ w → bit i (2 ^ w - 1 - a) ≡ 1 - bit i a
bit-complement i zero a h l = absurd (omega arith)
bit-complement zero (suc w) a h l = omega (arith, two_pow_suc w)
bit-complement (suc i) (suc w) a h l =
    ap (bit i) half ∙ bit-complement i w (a / 2) (omega arith) (omega (arith, two_pow_suc w))
  where
    half : (2 ^ suc w - 1 - a) / 2 ≡ 2 ^ w - 1 - a / 2
    half = omega (arith, two_pow_suc w)

bit-mod : (i w a : ℕ) → i < w → bit i (a % 2 ^ w) ≡ bit i a
bit-mod i zero a h = absurd (omega arith)
bit-mod zero (suc w) a h =
    omega (arith, mod_double a (2 ^ w) (two_pow_pos w), ap (λ m. a % m) (two_pow_suc w))
bit-mod (suc i) (suc w) a h = ap (bit i) half ∙ bit-mod i w (a / 2) (omega arith)
  where
    half : a % 2 ^ suc w / 2 ≡ a / 2 % 2 ^ w
    half = omega (arith, mod_double a (2 ^ w) (two_pow_pos w), ap (λ m. a % m) (two_pow_suc w))

-- An operation that works digit by digit stays below the same power of two.
module _ (op : ℕ → ℕ → ℕ) (digit : ℕ → ℕ → ℕ)
    (halve : (a b : ℕ) → op a b ≡ op (a / 2) (b / 2) * 2 + digit (a % 2) (b % 2))
    (small : (a b : ℕ) → a < 2 → b < 2 → digit a b < 2) (zeros : op 0 0 ≡ 0) where
  op-lt : (w a b : ℕ) → a < 2 ^ w → b < 2 ^ w → op a b < 2 ^ w
  op-lt zero a b p q =
      let za : a ≡ 0 = omega arith in
      let zb : b ≡ 0 = omega arith in rw (za, zb, zeros) (omega arith)
  op-lt (suc w) a b p q = omega (
    arith,
    halve a b,
    small (a % 2) (b % 2) (omega arith) (omega arith),
    op-lt w (a / 2) (b / 2) (omega (arith, two_pow_suc w)) (omega (arith, two_pow_suc w)),
    two_pow_suc w,
  )

differ-table : (a b : ℕ) → a < 2 → b < 2 → differ a b ≡ (a + b) % 2
differ-table zero b p q = omega arith
differ-table (suc zero) zero p q = omega arith
differ-table (suc zero) (suc zero) p q = omega arith
differ-table (suc zero) (suc (suc b)) p q = absurd (omega arith)
differ-table (suc (suc a)) b p q = absurd (omega arith)

max-table : (a b : ℕ) → a < 2 → b < 2 → max a b ≡ a + b - a * b
max-table zero b p q = omega arith
max-table (suc zero) b p q = omega arith
max-table (suc (suc a)) b p q = absurd (omega arith)

min-table : (a b : ℕ) → a < 2 → b < 2 → min a b ≡ a * b
min-table zero b p q = omega arith
min-table (suc zero) b p q = omega arith
min-table (suc (suc a)) b p q = absurd (omega arith)

nor-table : (a b : ℕ) → a < 2 → b < 2 → 1 - max a b ≡ (1 - a) * (1 - b)
nor-table zero b p q = omega arith
nor-table (suc zero) b p q = omega arith
nor-table (suc (suc a)) b p q = absurd (omega arith)

-- The masked complement of a number, digit by digit.
pub bit-low_bits_complement :
    (i w a : ℕ) → i < w → bit i (low_bits (negsuc a) (2 ^ w - 1)) ≡ 1 - bit i a
bit-low_bits_complement i w a h =
    ap (bit i) (low_bits-mask (negsuc a) w)
    ∙ bit-complement i w (a % 2 ^ w) h (residue-lt (pos a) (2 ^ w) (two_pow_pos w))
    ∙ ap (λ d. 1 - d) (bit-mod i w a h)

-- Each binary action works on the digits of equal weight by its table, and its result is a word.
pub bit-binary_result :
    (b : BinaryAction) (w left right i : ℕ)
    → left < 2 ^ w
    → right < 2 ^ w
    → i < w
    → (binary_result b w left right < 2 ^ w)
      × (bit i (binary_result b w left right) ≡ table b (bit i left) (bit i right))
unfolding binary_result
bit-binary_result and_action w l r i p q h = (
  op-lt bit_and min bit_and_halve (λ a b p q. omega arith) refl w l r p q,
  bit-bit_and i l r ∙ min-table _ _ (bit_lt i l) (bit_lt i r),
)
bit-binary_result or_action w l r i p q h = (
  op-lt bit_or max bit_or_halve (λ a b p q. omega arith) refl w l r p q,
  bit-bit_or i l r ∙ max-table _ _ (bit_lt i l) (bit_lt i r),
)
bit-binary_result xor_action w l r i p q h = (
  op-lt bit_xor differ bit_xor_halve (λ a b p q. omega (arith, differ-table a b p q)) refl w l r p
      q,
  bit-bit_xor i l r ∙ differ-table _ _ (bit_lt i l) (bit_lt i r),
)
bit-binary_result nor_action w l r i p q h = (
  low_bits-lt (negsuc (bit_or l r)) w,
  bit-low_bits_complement i w (bit_or l r) h
      ∙ ap (λ d. 1 - d) (bit-bit_or i l r)
      ∙ nor-table _ _ (bit_lt i l) (bit_lt i r),
)

-- `not` turns every digit of the word over.
pub bit-not_action : (i w raw : ℕ) → i < w → bit i (unary_result not_action w raw) ≡ 1 - bit i raw
unfolding unary_result
bit-not_action i w raw h = bit-low_bits_complement i w raw h
