-- ===== src/Certificates/Fuel.antt =====
-- The loop of `_power` (src/math_anchor/certificate_checker.py) halves what remains, so that the
-- exponent is fuel enough: nothing of the checker ends for want of fuel.
use math_anchor.Base.{
  ℕ, zero, suc, ◌/◌, ◌%◌, ◌≤◌, arith, Bool, true, false, List, [], ◌∷◌, ◌==◌, if◌then◌else◌, length,
  Result, ok, err, Code, certificate_invalid, e_runtime, value_error, require, ◌>>=◌, ◌>>◌, leb,
}
use math_anchor.Base.Int.{ℤ, pos, negsuc}
use math_anchor.Certificates.Coefficients.{Fractions}
use math_anchor.Certificates.{
  Polynomial, add_powers, is_bounded_fraction, nonzero_terms, normalize, degrees_within,
  multiply_term, multiply_terms, multiply, take_bit, next_factor, power_loop, power,
  max_certificate_terms, max_polynomial_degree,
}

-- Not for want of fuel.
abbrev pub Ends {ℓ} : {B : Type ℓ} → Result B → Type 0
Ends (ok b) = Unit
Ends (err e_runtime) = ⊥
Ends (err c) = Unit

>>=-Ends {ℓ κ} :
    {B : Type ℓ} {C : Type κ} (m : Result B) (k : B → Result C)
    → Ends m
    → ((b : B) → Ends (k b))
    → Ends (m >>= k)
>>=-Ends (ok b) k h g = g b
>>=-Ends (err Code.e_input) k h g = tt
>>=-Ends (err Code.e_limit) k h g = tt
>>=-Ends (err Code.e_name) k h g = tt
>>=-Ends (err Code.e_syntax) k h g = tt
>>=-Ends (err Code.e_ast_block) k h g = tt
>>=-Ends (err Code.e_domain) k h g = tt
>>=-Ends (err Code.e_output_limit) k h g = tt
>>=-Ends (err Code.e_receipt) k h g = tt
>>=-Ends (err e_runtime) k h g = absurd h
>>=-Ends (err Code.e_operation) k h g = tt
>>=-Ends (err Code.key_error) k h g = tt
>>=-Ends (err value_error) k h g = tt
>>=-Ends (err certificate_invalid) k h g = tt

require-Ends {ℓ} :
    {C : Type ℓ} (b : Bool) (k : Result C) → Ends k → Ends (require b certificate_invalid >> k)
require-Ends true k h = h
require-Ends false k h = tt

if-Ends {ℓ} : {C : Type ℓ} (b : Bool) (m k : Result C) → Ends m → Ends k → Ends (if b then m else k)
if-Ends true m k h g = h
if-Ends false m k h g = g

add_powers-Ends : (a b : List ℕ) → Ends (add_powers a b)
add_powers-Ends [] [] = tt
add_powers-Ends [] (y ∷ b) = tt
add_powers-Ends (x ∷ a) [] = tt
add_powers-Ends (x ∷ a) (y ∷ b) = >>=-Ends (add_powers a b) _ (add_powers-Ends a b) (λ rest. tt)

module _ {ℓ} {A : Type ℓ} ⦃f : Fractions A⦄ where
  nonzero_terms-Ends : (p : Polynomial A) → Ends (nonzero_terms p)
  nonzero_terms-Ends [] = tt
  nonzero_terms-Ends ((k, c) ∷ p) = >>=-Ends (nonzero_terms p) _ (nonzero_terms-Ends p) (λ rest.
      if-Ends (f.is_zero c) (ok rest) _ tt
        (require-Ends (is_bounded_fraction c) (ok ((k, c) ∷ rest)) tt))

  normalize-Ends : (p : Polynomial A) → Ends (normalize p)
  unfolding normalize
  normalize-Ends p = >>=-Ends (nonzero_terms p) _ (nonzero_terms-Ends p) (λ terms.
      require-Ends (leb (length terms) max_certificate_terms) _
        (require-Ends (degrees_within max_polynomial_degree terms) (ok terms) tt))

  multiply_term-Ends :
      (k : List ℕ) (c : A) (right result : Polynomial A) → Ends (multiply_term k c right result)
  multiply_term-Ends k c [] result = tt
  multiply_term-Ends k c ((j, d) ∷ right) result =
      >>=-Ends (add_powers k j) _ (add_powers-Ends k j) (λ powers. multiply_term-Ends k c right _)

  multiply_terms-Ends : (left right result : Polynomial A) → Ends (multiply_terms left right result)
  multiply_terms-Ends [] right result = tt
  multiply_terms-Ends ((k, c) ∷ left) right result =
      >>=-Ends (multiply_term k c right result) _ (multiply_term-Ends k c right result)
        (λ next. multiply_terms-Ends left right next)

  multiply-Ends : (left right : Polynomial A) → Ends (multiply left right)
  unfolding multiply
  multiply-Ends left right =
      >>=-Ends (multiply_terms left right []) _ (multiply_terms-Ends left right []) normalize-Ends

  next_factor-Ends : (n : ℕ) (p : Polynomial A) → Ends (next_factor n p)
  next_factor-Ends zero p = tt
  next_factor-Ends (suc n) p = multiply-Ends p p

  power_loop-Ends :
      (fuel : ℕ) (result factor : Polynomial A) (n : ℕ)
      → n ≤ fuel
      → Ends (power_loop fuel result factor n)
  unfolding power_loop
  power_loop-Ends fuel result factor zero h = tt
  power_loop-Ends zero result factor (suc n) h = absurd (omega arith)
  power_loop-Ends (suc fuel) result factor (suc n) h =
      >>=-Ends (take_bit (suc n) result factor) _
        (if-Ends (suc n % 2 == 1) (multiply result factor) (ok result) (multiply-Ends result factor)
          tt)
        (λ taken.
          >>=-Ends (next_factor (suc n / 2) factor) _ (next_factor-Ends (suc n / 2) factor)
            (λ squared. power_loop-Ends fuel taken squared (suc n / 2) (omega arith)))

  -- A power of a polynomial never ends for want of fuel: the exponent is rounds enough.
  pub power-Ends : (base : Polynomial A) (n : ℤ) (m : ℕ) → Ends (power base n m)
  unfolding power
  power-Ends base (negsuc n) m = tt
  power-Ends base (pos n) m =
      require-Ends (leb n max_polynomial_degree) _ (power_loop-Ends n _ base n (omega arith))
