-- ===== src/Integers/Literals/Digits.antt =====
-- The digits that `_representation` prints, as `int(digits, base)` reads them.
use math_anchor.Base.{
  ℕ, zero, suc, ◌+◌, ◌*◌, ◌/◌, ◌%◌, ◌^◌, ◌≤◌, ◌<◌, ◌≡◌, refl, ap, ◌∙◌, arith, true, false, List, [],
  ◌∷◌, ◌++◌, lt→ltb, All, All-append, length, length-append,
}
use math_anchor.Integers.Literals.{digit_value, all_digits, int_from, is_space}
use math_anchor.Integers.Representation.{render, digit_char}
use native.Mathlib.Nat.{div-lt_iff_lt-mul, div-add-mod, pow-suc, pow-zero}

pub digit_value-digit_char : (d : ℕ) → d < 16 → digit_value (digit_char d) ≡ d
digit_value-digit_char d h = ground arith

-- Letters and digits are no spaces.
pub is_space-word : (c : ℕ) → 43 ≤ c → c ≤ 0x7a → is_space c ≡ false
is_space-word c p q = ground arith

digit_char_range : (d : ℕ) → d < 16 → (43 ≤ digit_char d) × (digit_char d ≤ 0x7a)
digit_char_range d h = ground arith

digit_char-not_space : (d : ℕ) → d < 16 → is_space (digit_char d) ≡ false
digit_char-not_space d h =
    is_space-word (digit_char d) (digit_char_range d h).0 (digit_char_range d h).1

int_from-append :
    (b acc : ℕ) (xs : List ℕ) (c : ℕ)
    → int_from b acc (xs ++ c ∷ []) ≡ int_from b acc xs * b + digit_value c
int_from-append b acc [] c = refl
int_from-append b acc (x ∷ xs) c = int_from-append b (acc * b + digit_value x) xs c

all_digits-append :
    (b : ℕ) (xs : List ℕ) (c : ℕ)
    → all_digits b xs ≡ true
    → digit_value c < b
    → all_digits b (xs ++ c ∷ []) ≡ true
all_digits-append b [] c h l = rw (lt→ltb _ _ l)
all_digits-append b (x ∷ xs) c h l = ground (arith, all_digits-append b xs c)

module _ (b : ℕ) (b_pos : 0 < b) (b_le : b ≤ 16) where
  last_digit : (raw : ℕ) → digit_value (digit_char (raw % b)) ≡ raw % b
  last_digit raw = digit_value-digit_char (raw % b) (omega arith)

  pub int_from-render : (n raw : ℕ) → raw < b ^ n → int_from b 0 (render b n raw) ≡ raw
  unfolding render
  int_from-render zero raw h = omega (arith, pow-zero b)
  int_from-render (suc n) raw h =
      int_from-append b 0 (render b n (raw / b)) (digit_char (raw % b))
      ∙ ap (λ t. t * b + digit_value (digit_char (raw % b)))
          (int_from-render n (raw / b) ((div-lt_iff_lt-mul b_pos).1 (rw (pow-suc b n) at h)))
      ∙ omega (arith, last_digit raw, div-add-mod raw b)

  pub all_digits-render : (n raw : ℕ) → all_digits b (render b n raw) ≡ true
  unfolding render
  all_digits-render zero raw = refl
  all_digits-render (suc n) raw =
      all_digits-append b (render b n (raw / b)) (digit_char (raw % b))
        (all_digits-render n (raw / b)) (omega (arith, last_digit raw))

  pub length-render : (n raw : ℕ) → length (render b n raw) ≡ n
  unfolding render
  length-render zero raw = refl
  length-render (suc n) raw = omega (
    arith,
    length-append (render b n (raw / b)) (digit_char (raw % b) ∷ []),
    length-render n (raw / b),
  )

  pub render-no_space : (n raw : ℕ) → All (λ c. is_space c ≡ false) (render b n raw)
  unfolding render
  render-no_space zero raw = tt
  render-no_space (suc n) raw =
      All-append (λ c. is_space c ≡ false) (render b n (raw / b)) (digit_char (raw % b) ∷ [])
        (render-no_space n (raw / b)) (digit_char-not_space (raw % b) (omega arith), tt)
