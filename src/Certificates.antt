-- ===== src/Certificates.antt =====
-- The polynomials of src/math_anchor/certificate_checker.py: `_normalize`, `_add`, `_multiply` and
-- `_power`. A polynomial is a dict from powers to coefficients, as a list of its items.
pub mod Coefficients
pub mod Evaluation
pub mod Products
pub mod Parser
pub mod Fuel
pub mod Soundness
pub mod Verify
pub mod Terms
pub mod Identity
use math_anchor.Base.{
  ℕ, zero, suc, ◌+◌, ◌/◌, ◌%◌, Bool, true, false, ◌&&◌, not, List, [], ◌∷◌, leb, ◌==◌,
  if◌then◌else◌, length, Result, ok, err, e_runtime, certificate_invalid, value_error, require,
  ◌>>=◌, ◌>>◌,
}
use math_anchor.Base.Int.{ℤ, pos, negsuc, abs, leb_ℤ}
use math_anchor.Certificates.Coefficients.{Fractions, ◌⊕◌, ◌⊗◌, zero_of, one_of}
use math_anchor.Integers.Actions.{bit_length}

abbrev pub max_certificate_terms : ℕ
max_certificate_terms = 512

abbrev pub max_polynomial_degree : ℕ
max_polynomial_degree = 64

abbrev pub max_ast_nodes : ℕ
max_ast_nodes = 1_024

abbrev pub max_coefficient_bits : ℕ
max_coefficient_bits = 16_384

abbrev pub powers_eq : List ℕ → List ℕ → Bool
powers_eq [] [] = true
powers_eq (a ∷ left) (b ∷ right) = if a == b then powers_eq left right else false
powers_eq _ _ = false

-- tuple(a + b for a, b in zip(left, right, strict=True))
abbrev pub add_powers : List ℕ → List ℕ → Result (List ℕ)
add_powers [] [] = ok []
add_powers (a ∷ left) (b ∷ right) = do rest ← add_powers left right; ok ((a + b) ∷ rest)
add_powers _ _ = err value_error

-- sum(powers)
abbrev pub degree : List ℕ → ℕ
degree [] = 0
degree (k ∷ ks) = k + degree ks

-- (0,) * variable_count
abbrev pub zeros : ℕ → List ℕ
zeros zero = []
zeros (suc n) = 0 ∷ zeros n

abbrev pub Polynomial {ℓ} : Type ℓ → Type ℓ
Polynomial A = List (List ℕ × A)

module _ {ℓ} {A : Type ℓ} ⦃f : Fractions A⦄ where
  -- `_bounded_fraction`
  abbrev pub is_bounded_fraction : A → Bool
  is_bounded_fraction c =
      leb (bit_length (abs (f.numerator c))) max_coefficient_bits
      && leb (bit_length (f.denominator c)) max_coefficient_bits

  -- The comprehension of `_normalize`.
  abbrev pub nonzero_terms : Polynomial A → Result (Polynomial A)
  nonzero_terms [] = ok []
  nonzero_terms ((k, c) ∷ p) = do
    rest ← nonzero_terms p
    if f.is_zero c
        then ok rest
        else do require (is_bounded_fraction c) certificate_invalid; ok ((k, c) ∷ rest)

  abbrev pub degrees_within : ℕ → Polynomial A → Bool
  degrees_within limit [] = true
  degrees_within limit ((k, c) ∷ p) = leb (degree k) limit && degrees_within limit p

  unfoldable pub normalize : Polynomial A → Result (Polynomial A)
  normalize p = do
    terms ← nonzero_terms p
    require (leb (length terms) max_certificate_terms) certificate_invalid
    require (degrees_within max_polynomial_degree terms) certificate_invalid
    ok terms

  -- result[powers] = result.get(powers, Fraction(0)) + coefficient
  abbrev pub add_term : List ℕ → A → Polynomial A → Polynomial A
  add_term k c [] = (k, zero_of ⊕ c) ∷ []
  add_term k c ((j, d) ∷ p) =
      let rest = add_term k c p in if powers_eq j k then (j, d ⊕ c) ∷ p else (j, d) ∷ rest

  abbrev pub add_terms : ℤ → Polynomial A → Polynomial A → Polynomial A
  add_terms scale result [] = result
  add_terms scale result ((k, c) ∷ right) =
      add_terms scale (add_term k (f.from_int scale ⊗ c) result) right

  -- `_add`
  unfoldable pub add : Polynomial A → Polynomial A → ℤ → Result (Polynomial A)
  unfolding normalize
  add left right scale = normalize (add_terms scale left right)

  -- The inner loop of `_multiply`, for one term of the left factor.
  abbrev pub multiply_term : List ℕ → A → Polynomial A → Polynomial A → Result (Polynomial A)
  multiply_term k c [] result = ok result
  multiply_term k c ((j, d) ∷ right) result = do
    powers ← add_powers k j
    multiply_term k c right (add_term powers (c ⊗ d) result)

  abbrev pub multiply_terms : Polynomial A → Polynomial A → Polynomial A → Result (Polynomial A)
  multiply_terms [] right result = ok result
  multiply_terms ((k, c) ∷ left) right result = do
    next ← multiply_term k c right result
    multiply_terms left right next

  -- `_multiply`
  unfoldable pub multiply : Polynomial A → Polynomial A → Result (Polynomial A)
  unfolding normalize
  multiply left right = do product ← multiply_terms left right []; normalize product

  abbrev pub take_bit : ℕ → Polynomial A → Polynomial A → Result (Polynomial A)
  take_bit remaining result factor =
      if remaining % 2 == 1 then multiply result factor else ok result

  -- The factor is squared only if the loop goes on.
  abbrev pub next_factor : ℕ → Polynomial A → Result (Polynomial A)
  next_factor zero factor = ok factor
  next_factor (suc n) factor = multiply factor factor

  -- while remaining: …, on fuel
  unfoldable pub power_loop : ℕ → Polynomial A → Polynomial A → ℕ → Result (Polynomial A)
  unfolding multiply
  power_loop fuel result factor zero = ok result
  power_loop zero result factor (suc n) = err e_runtime
  power_loop (suc fuel) result factor (suc n) = do
    taken ← take_bit (suc n) result factor
    squared ← next_factor (suc n / 2) factor
    power_loop fuel taken squared (suc n / 2)

  abbrev pub power_of : Polynomial A → ℤ → ℕ → Result (Polynomial A)
  power_of base (negsuc n) variable_count = err certificate_invalid
  power_of base (pos n) variable_count = do
    require (leb n max_polynomial_degree) certificate_invalid
    power_loop n ((zeros variable_count, one_of) ∷ []) base n

  -- `_power`
  unfoldable pub power : Polynomial A → ℤ → ℕ → Result (Polynomial A)
  unfolding power_loop
  power base exponent variable_count = power_of base exponent variable_count
