-- ===== src/Dimensions/Formulas.antt =====
-- `DimensionFormula` and `DimensionExpressionAnalyzer` of src/math_anchor/dimension_expression.py: the
-- dimension of an expression, as a vector and multiples of unknown symbols, and the constraints that
-- the expression puts on it. An expression is the tree that `ast.parse` gives; a literal is the number
-- that `Fraction` reads from it.
pub mod Values
pub mod Analysis
use Prim.Native.String.{String}
use math_anchor.Base.{
  ℕ, ◌+◌, Bool, true, false, ◌&&◌, not, Option, none, some, List, [], ◌∷◌, ◌++◌, length, ◌*◌, ltb,
  leb, if◌then◌else◌, Result, ok, err, e_limit, e_input, e_name, Code, require, ◌>>=◌, ◌>>◌,
}
use math_anchor.Base.Int.{ℤ, pos, negsuc, abs}
use math_anchor.Base.Json.{str_eq}
use math_anchor.Certificates.Coefficients.{Fractions, ◌⊕◌, ◌⊗◌, zero_of, one_of}
use math_anchor.Dimensions.{Components, text_lt, combined, scaled, sum_of, scale}

pub record Formula {ℓ} (A : Type ℓ) : Type ℓ where
  pub constant : Components A
  pub coefficients : Components A

pub record Constraint {ℓ} (A : Type ℓ) : Type ℓ where
  pub left : Formula A
  pub right : Formula A

-- A power's exponent: a number, a sign, a quotient, or anything else.
pub data Literal {ℓ} (A : Type ℓ) : Type ℓ where
  number : A → Literal A
  plus minus : Literal A → Literal A
  ratio : Literal A → Literal A → Literal A
  other : Literal A

-- A numeric literal, a symbol, a sign, the operators, `abs`, `sqrt` and the functions of a
-- dimensionless argument, or what raises a CalculatorError, with the code of the first one.
pub data Expression {ℓ} (A : Type ℓ) : Type ℓ where
  numeral : Expression A
  symbol : String → Expression A
  signed absolute root function_of : Expression A → Expression A
  power : Expression A → Literal A → Expression A
  additive product quotient : Expression A → Expression A → Expression A
  refused : Code → Expression A

abbrev pub max_dimension_exponent_part : ℕ
max_dimension_exponent_part = 1_000_000

abbrev pub max_dimension_power : ℕ
max_dimension_power = 12

abbrev pub max_dimension_constraints : ℕ
max_dimension_constraints = 256

abbrev pub insert_by_name {ℓ} : {A : Type ℓ} → String × A → Components A → Components A
insert_by_name c [] = c ∷ []
insert_by_name c (d ∷ ds) =
    let rest = insert_by_name c ds in if text_lt d.0 c.0 then d ∷ rest else c ∷ d ∷ ds

-- sorted(cs), where no two items have the same name
abbrev pub sorted_by_name {ℓ} : {A : Type ℓ} → Components A → Components A
sorted_by_name [] = []
sorted_by_name (c ∷ cs) = insert_by_name c (sorted_by_name cs)

module _ {ℓ} {A : Type ℓ} ⦃f : Fractions A⦄ where
  abbrev pub dimensionless : Formula A
  dimensionless = record { constant = []; coefficients = [] }

  -- The limits of `_bounded_fraction`
  abbrev pub is_bounded : A → Bool
  is_bounded e =
      leb (abs (f.numerator e)) max_dimension_exponent_part
      && leb (f.denominator e) max_dimension_exponent_part

  abbrev pub bounded_coefficients : Components A → Result (Components A)
  bounded_coefficients [] = ok []
  bounded_coefficients ((k, e) ∷ cs) = do
    rest ← bounded_coefficients cs
    if f.is_zero e then ok rest else (do require (is_bounded e) e_limit; ok ((k, e) ∷ rest))

  -- `__add__`
  unfoldable pub formula_sum : Formula A → Formula A → Result (Formula A)
  unfolding sum_of
  formula_sum left right = do
    constant ← sum_of left.constant right.constant
    coefficients ← bounded_coefficients (combined left.coefficients right.coefficients)
    ok (record { constant = constant; coefficients = sorted_by_name coefficients })

  -- `scale`
  unfoldable pub formula_scale : A → Formula A → Result (Formula A)
  unfolding scale
  formula_scale factor formula = do
    constant ← scale factor formula.constant
    coefficients ← bounded_coefficients (scaled factor formula.coefficients)
    ok (record { constant = constant; coefficients = coefficients })

  -- `__sub__`
  unfoldable pub formula_difference : Formula A → Formula A → Result (Formula A)
  unfolding formula_sum formula_scale
  formula_difference left right = do
    opposite ← formula_scale (f.from_int (negsuc 0)) right
    formula_sum left opposite

  -- `_literal_fraction`: the limits hold for each part.
  abbrev pub within_limits : A → Result A
  within_limits e = do require (is_bounded e) e_limit; ok e

  abbrev pub literal_fraction : Literal A → Result A
  literal_fraction (number e) = within_limits e
  literal_fraction (plus l) = do e ← literal_fraction l; within_limits e
  literal_fraction (minus l) = do e ← literal_fraction l; within_limits (f.neg e)
  literal_fraction (ratio l m) = do
    e ← literal_fraction l
    d ← literal_fraction m
    require (not (f.is_zero d)) e_input
    within_limits (f.div e d)
  literal_fraction other = err e_input

  -- abs(exponent) <= 12
  abbrev pub is_small_power : A → Bool
  is_small_power e = leb (abs (f.numerator e)) (max_dimension_power * f.denominator e)

  -- Fraction(1, 2)
  abbrev pub one_half : A
  one_half = f.div one_of (f.from_int (pos 2))

  -- `_add_constraint`
  abbrev pub add_constraint :
      Formula A → Formula A → List (Constraint A) → Result (List (Constraint A))
  add_constraint left right constraints = do
    require (ltb (length constraints) max_dimension_constraints) e_limit
    ok (record { left = left; right = right } ∷ constraints)

  abbrev pub bound : Option (Formula A) → Result (Formula A)
  bound none = err e_name
  bound (some formula) = ok formula

  module _ (bindings : String → Option (Formula A)) where
    -- `visit`: the formula and the constraints, the latest first.
    unfoldable pub visit :
        Expression A → List (Constraint A) → Result (Formula A × List (Constraint A))
    unfolding formula_sum formula_scale formula_difference
    visit numeral cs = ok (dimensionless, cs)
    visit (symbol x) cs = do formula ← bound (bindings x); ok (formula, cs)
    visit (signed e) cs = visit e cs
    visit (absolute e) cs = visit e cs
    visit (root e) cs = do
      (argument, after) ← visit e cs
      formula ← formula_scale one_half argument
      ok (formula, after)
    visit (function_of e) cs = do
      (argument, after) ← visit e cs
      constraints ← add_constraint argument dimensionless after
      ok (dimensionless, constraints)
    visit (power e l) cs = do
      (base, after) ← visit e cs
      exponent ← literal_fraction l
      require (is_small_power exponent) e_limit
      formula ← formula_scale exponent base
      ok (formula, after)
    visit (additive l r) cs = do
      (left, after_left) ← visit l cs
      (right, after) ← visit r after_left
      constraints ← add_constraint left right after
      ok (left, constraints)
    visit (product l r) cs = do
      (left, after_left) ← visit l cs
      (right, after) ← visit r after_left
      formula ← formula_sum left right
      ok (formula, after)
    visit (quotient l r) cs = do
      (left, after_left) ← visit l cs
      (right, after) ← visit r after_left
      formula ← formula_difference left right
      ok (formula, after)
    visit (refused code) cs = err code
