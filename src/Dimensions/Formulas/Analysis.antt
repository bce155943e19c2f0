-- ===== src/Dimensions/Formulas/Analysis.antt =====
-- `DimensionExpressionAnalyzer` (src/math_anchor/dimension_expression.py) against the dimension of an
-- expression by its structure.
use Prim.Native.String.{String}
use math_anchor.Base.{
  ◌≡◌, ◌↔◌, refl, sym, ap, ap₂, ◌∙◌, subst, not, Option, none, some, List, [], All, Result, ok,
  e_limit, e_input, >>=-eq-ok, require-eq-ok, ok_inj, ◌>>=◌, length, ltb,
}
use math_anchor.Certificates.Coefficients.{Fractions, ◌⊕◌, ◌⊗◌, zero_of, add-zero}
use math_anchor.Dimensions.Vectors.{IsVector}
use math_anchor.Dimensions.Formulas.{
  Formula, Constraint, Literal, number, plus, minus, ratio, other, Expression, numeral, symbol,
  signed, absolute, root, function_of, power, additive, product, quotient, refused, dimensionless,
  is_bounded, within_limits, literal_fraction, is_small_power, one_half, add_constraint, bound,
  visit, formula_sum, formula_scale, formula_difference, max_dimension_constraints,
}
use math_anchor.Dimensions.Formulas.Values.{value, value-sum, value-scale, value-difference}

module _ {ℓ} {A : Type ℓ} ⦃f : Fractions A⦄ where
  -- The number of a literal.
  abbrev pub literal_value : Literal A → A
  literal_value (number e) = e
  literal_value (plus l) = literal_value l
  literal_value (minus l) = f.neg (literal_value l)
  literal_value (ratio l m) = f.div (literal_value l) (literal_value m)
  literal_value other = zero_of

  within_limits-eq : (e : A) {d : A} → within_limits e ≡ ok d → d ≡ e
  within_limits-eq e h = sym (ok_inj (require-eq-ok (is_bounded e) e_limit _ h).1)

  literal_fraction-value : (l : Literal A) {e : A} → literal_fraction l ≡ ok e → e ≡ literal_value l
  literal_fraction-value (number e) h = within_limits-eq e h
  literal_fraction-value (plus l) h =
      let found = >>=-eq-ok (literal_fraction l) _ h in
      within_limits-eq found.0 found.2 ∙ literal_fraction-value l found.1
  literal_fraction-value (minus l) h =
      let found = >>=-eq-ok (literal_fraction l) _ h in
      within_limits-eq (f.neg found.0) found.2 ∙ ap f.neg (literal_fraction-value l found.1)
  literal_fraction-value (ratio l m) h =
      let top = >>=-eq-ok (literal_fraction l) _ h in
      let bottom = >>=-eq-ok (literal_fraction m) _ top.2 in
      let rest = require-eq-ok (not (f.is_zero bottom.0)) e_input _ bottom.2 in
      within_limits-eq (f.div top.0 bottom.0) rest.1
      ∙ ap₂ f.div (literal_fraction-value l top.1) (literal_fraction-value m bottom.1)
  literal_fraction-value other h = absurd (cc)

module _ {ℓ} {A : Type ℓ} ⦃f : Fractions A⦄ (ρ : String → A)
    (bindings : String → Option (Formula A)) (n : String) where
  abbrev pub bound_value : Option (Formula A) → A
  bound_value none = zero_of
  bound_value (some formula) = value ρ n formula

  -- The exponent of a dimension in an expression, once the unknown symbols have theirs.
  abbrev pub dimension_of : Expression A → A
  dimension_of numeral = zero_of
  dimension_of (symbol x) = bound_value (bindings x)
  dimension_of (signed e) = dimension_of e
  dimension_of (absolute e) = dimension_of e
  dimension_of (root e) = dimension_of e ⊗ one_half
  dimension_of (function_of e) = zero_of
  dimension_of (power e l) = dimension_of e ⊗ literal_value l
  dimension_of (additive l r) = dimension_of l
  dimension_of (product l r) = dimension_of l ⊕ dimension_of r
  dimension_of (quotient l r) = dimension_of l ⊕ f.neg (dimension_of r)
  dimension_of (refused code) = zero_of

  -- The terms of each sum agree, and the argument of each function is dimensionless.
  abbrev pub IsConsistent : Expression A → Type ℓ
  IsConsistent (signed e) = IsConsistent e
  IsConsistent (absolute e) = IsConsistent e
  IsConsistent (root e) = IsConsistent e
  IsConsistent (function_of e) = (dimension_of e ≡ zero_of) × IsConsistent e
  IsConsistent (power e l) = IsConsistent e
  IsConsistent (additive l r) = (dimension_of l ≡ dimension_of r) × IsConsistent r × IsConsistent l
  IsConsistent (product l r) = IsConsistent r × IsConsistent l
  IsConsistent (quotient l r) = IsConsistent r × IsConsistent l
  IsConsistent _ = Unit

  abbrev pub Holds : Constraint A → Type ℓ
  Holds c = value ρ n c.left ≡ value ρ n c.right

  -- What a visit tells: the formula is a formula of the expression's dimension, and the constraints
  -- that it leaves hold just where those before hold and the expression is consistent.
  abbrev pub Tells : Expression A → List (Constraint A) → Formula A → List (Constraint A) → Type ℓ
  Tells e before formula after =
      IsVector formula.constant
      × (value ρ n formula ≡ dimension_of e)
      × (All Holds after → All Holds before × IsConsistent e)
      × (All Holds before → IsConsistent e → All Holds after)

  abbrev answered : Formula A → List (Constraint A) → Result (Formula A × List (Constraint A))
  answered formula constraints = ok (formula, constraints)

  Tells-same :
      (e : Expression A) (before : List (Constraint A)) {F G : Formula A}
      {cs ds : List (Constraint A)}
      → answered F cs ≡ answered G ds
      → Tells e before F cs
      → Tells e before G ds
  Tells-same e before h t = subst (λ x. Tells e before x.0 x.1) (ok_inj h) t

  visit-Tells :
      ((x : String) (formula : Formula A) → bindings x ≡ some formula → IsVector formula.constant)
      → (e : Expression A) (before : List (Constraint A)) {formula : Formula A}
        {after : List (Constraint A)}
      → visit bindings e before ≡ ok (formula, after)
      → Tells e before formula after
  unfolding visit formula_sum formula_scale formula_difference
  visit-Tells known numeral before h =
      Tells-same numeral before h ((tt, tt), add-zero zero_of, λ a. (a, tt), λ a c. a)
  visit-Tells known (symbol x) before h = found (bindings x) refl h
    where
      found :
          (o : Option (Formula A)) {formula : Formula A} {after : List (Constraint A)}
          → bindings x ≡ o
          → (bound o >>= (λ F. answered F before)) ≡ answered formula after
          → Tells (symbol x) before formula after
      found none e g = absurd (cc)
      found (some F) e g =
          Tells-same (symbol x) before g
            (known x F e, ap bound_value (sym e), λ a. (a, tt), λ a c. a)
  visit-Tells known (signed e) before h = visit-Tells known e before h
  visit-Tells known (absolute e) before h = visit-Tells known e before h
  visit-Tells known (root e) before h =
      let found = >>=-eq-ok (visit bindings e before) _ h in
      let (vector, same, down, up) = visit-Tells known e before found.1 in
      let scaled = >>=-eq-ok (formula_scale one_half found.0.0) _ found.2 in
      let made = value-scale ρ one_half found.0.0 vector scaled.1 in
      Tells-same (root e) before scaled.2 (made.0, made.1 n ∙ ap (λ x. x ⊗ one_half) same, down, up)
  visit-Tells known (function_of e) before h =
      let found = >>=-eq-ok (visit bindings e before) _ h in
      let (vector, same, down, up) = visit-Tells known e before found.1 in
      let added = >>=-eq-ok (add_constraint found.0.0 dimensionless found.0.1) _ found.2 in
      let room =
        require-eq-ok (ltb (length found.0.1) max_dimension_constraints) e_limit _ added.1 in
      Tells-same (function_of e) before (ap (answered dimensionless) (ok_inj room.1) ∙ added.2) (
        (tt, tt),
        add-zero zero_of,
        λ a. let rest = down a.1 in (rest.0, (sym same ∙ a.0 ∙ add-zero zero_of, rest.1)),
        λ a c. (same ∙ c.0 ∙ sym (add-zero zero_of), up a c.1),
      )
  visit-Tells known (power e l) before h =
      let found = >>=-eq-ok (visit bindings e before) _ h in
      let (vector, same, down, up) = visit-Tells known e before found.1 in
      let read = >>=-eq-ok (literal_fraction l) _ found.2 in
      let small = require-eq-ok (is_small_power read.0) e_limit _ read.2 in
      let scaled = >>=-eq-ok (formula_scale read.0 found.0.0) _ small.1 in
      let made = value-scale ρ read.0 found.0.0 vector scaled.1 in
      Tells-same (power e l) before scaled.2
        (made.0, made.1 n ∙ ap₂ (λ x y. x ⊗ y) same (literal_fraction-value l read.1), down, up)
  visit-Tells known (additive l r) before h =
      let one = >>=-eq-ok (visit bindings l before) _ h in
      let two = >>=-eq-ok (visit bindings r one.0.1) _ one.2 in
      let (vector, same, down, up) = visit-Tells known l before one.1 in
      let (vector', same', down', up') = visit-Tells known r one.0.1 two.1 in
      let added = >>=-eq-ok (add_constraint one.0.0 two.0.0 two.0.1) _ two.2 in
      let room = require-eq-ok (ltb (length two.0.1) max_dimension_constraints) e_limit _ added.1 in
      Tells-same (additive l r) before (ap (answered one.0.0) (ok_inj room.1) ∙ added.2) (
        vector,
        same,
        λ a.
            let late = down' a.1 in
            let early = down late.0 in (early.0, (sym same ∙ a.0 ∙ same', late.1, early.1)),
        λ a c. (same ∙ c.0 ∙ sym same', up' (up a c.2) c.1),
      )
  visit-Tells known (product l r) before h =
      let one = >>=-eq-ok (visit bindings l before) _ h in
      let two = >>=-eq-ok (visit bindings r one.0.1) _ one.2 in
      let (vector, same, down, up) = visit-Tells known l before one.1 in
      let (vector', same', down', up') = visit-Tells known r one.0.1 two.1 in
      let sum = >>=-eq-ok (formula_sum one.0.0 two.0.0) _ two.2 in
      let made = value-sum ρ one.0.0 two.0.0 vector vector' sum.1 in
      Tells-same (product l r) before sum.2 (
        made.0,
        made.1 n ∙ ap₂ (λ x y. x ⊕ y) same same',
        λ a. let late = down' a in let early = down late.0 in (early.0, (late.1, early.1)),
        λ a c. up' (up a c.1) c.0,
      )
  visit-Tells known (quotient l r) before h =
      let one = >>=-eq-ok (visit bindings l before) _ h in
      let two = >>=-eq-ok (visit bindings r one.0.1) _ one.2 in
      let (vector, same, down, up) = visit-Tells known l before one.1 in
      let (vector', same', down', up') = visit-Tells known r one.0.1 two.1 in
      let less = >>=-eq-ok (formula_difference one.0.0 two.0.0) _ two.2 in
      let made = value-difference ρ one.0.0 two.0.0 vector vector' less.1 in
      Tells-same (quotient l r) before less.2 (
        made.0,
        made.1 n ∙ ap₂ (λ x y. x ⊕ f.neg y) same same',
        λ a. let late = down' a in let early = down late.0 in (early.0, (late.1, early.1)),
        λ a c. up' (up a c.1) c.0,
      )
  visit-Tells known (refused code) before h = absurd (cc)

  -- An expression that is visited, from no constraints, with formulas for its symbols whose constants
  -- are vectors: under any exponents of the unknown symbols, the formula comes to the dimension of the
  -- expression, and the constraints hold just where the expression is consistent, that is, where the
  -- terms of its sums agree and the arguments of its functions are dimensionless.
  pub visit-dimension :
      ((x : String) (formula : Formula A) → bindings x ≡ some formula → IsVector formula.constant)
      → (e : Expression A) {formula : Formula A} {constraints : List (Constraint A)}
      → visit bindings e [] ≡ ok (formula, constraints)
      → (value ρ n formula ≡ dimension_of e) × (All Holds constraints ↔ IsConsistent e)
  visit-dimension known e h =
      let (vector, same, down, up) = visit-Tells known e [] h in
      (same, ((λ a. (down a).1), (λ c. up tt c)))
