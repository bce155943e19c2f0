-- ===== src/Certificates/Soundness.antt =====
-- What `_PolynomialParser` of src/math_anchor/certificate_checker.py makes of an expression has the
-- expression's value at every point.
use Prim.Native.String.{String}
use math_anchor.Base.{
  ℕ, zero, suc, ◌≡◌, refl, sym, ap, ap₂, ◌∙◌, arith, true, false, not, Bool-cases, inl, inr, Option,
  none, some, List, [], ◌∷◌, if◌then◌else◌, length, ok, certificate_invalid, >>=-eq-ok,
  require-eq-ok, ok_inj,
}
use math_anchor.Base.Int.{ℤ, pos, negsuc}
use math_anchor.Base.Json.{str_eq}
use math_anchor.Certificates.Coefficients.{
  Fractions, ◌⊕◌, ◌⊗◌, zero_of, one_of, add-zero, mul-one, mul_right_comm, zero-mul, div_lem,
  neg_unique, neg-mul, neg-add_both, minus_one-mul,
}
use math_anchor.Certificates.{Polynomial, powers_eq, zeros, power}
use math_anchor.Certificates.Evaluation.{
  pow, monomial, evaluate, evaluate-normalize, evaluate-add, powers_eq→≡,
}
use math_anchor.Certificates.Products.{monomial-zeros, evaluate-multiply, evaluate-power}
use math_anchor.Certificates.Parser.{
  Operator, plus, minus, times, over, Expression, integer, constant, name, positive, negative,
  binary, raised, unsupported, shifted, unit_powers, exponent_of, is_some_int, constant_of,
  variable_of, negated, divided, divide_by, operate, raise_to, next_node, visit,
}

some_inj {ℓ} : {A : Type ℓ} {x y : A} → some x ≡ some y → x ≡ y
some_inj h = cc

shifted-some :
    (o : Option (List ℕ)) {ks : List ℕ}
    → shifted o ≡ some ks
    → (j : List ℕ) × (o ≡ some j) × (ks ≡ 0 ∷ j)
shifted-some none h = absurd (cc)
shifted-some (some j) h = (j, refl, sym (some_inj h))

module _ {ℓ} {A : Type ℓ} ⦃f : Fractions A⦄ where
  -- The value that a point gives to the variable with this name.
  abbrev pub value_of : String → List String → List A → A
  value_of x [] point = one_of
  value_of x (v ∷ vs) [] = one_of
  value_of x (v ∷ vs) (a ∷ point) = if str_eq v x then a else value_of x vs point

  abbrev pub apply : Operator → A → A → A
  apply plus a b = a ⊕ b
  apply minus a b = a ⊕ f.neg b
  apply times a b = a ⊗ b
  apply over a b = f.div a b

  -- A power with a natural exponent; other exponents have no value.
  abbrev pub raise : A → Option ℤ → A
  raise a (some (pos n)) = pow a n
  raise a _ = zero_of

  module _ (variables : List String) (point : List A) where
    -- The value of an expression; nodes that have none are 0.
    abbrev pub value : Expression → A
    value (integer n) = f.from_int n
    value (name x) = value_of x variables point
    value (positive e) = value e
    value (negative e) = f.neg (value e)
    value (binary operator l r) = apply operator (value l) (value r)
    value (raised b e) = raise (value b) (exponent_of e)
    value constant = zero_of
    value unsupported = zero_of

  module _ (point : List A) where
    evaluate-single : (k : List ℕ) (c : A) → evaluate point ((k, c) ∷ []) ≡ c ⊗ monomial k point
    evaluate-single k c = add-zero _

    evaluate-constant_of : (n : ℤ) (m : ℕ) → evaluate point (constant_of n m) ≡ f.from_int n
    evaluate-constant_of (pos zero) m = refl
    evaluate-constant_of (pos (suc n)) m =
        evaluate-single (zeros m) (f.from_int (pos (suc n)))
        ∙ ap (λ x. f.from_int (pos (suc n)) ⊗ x) (monomial-zeros point m point)
        ∙ mul-one _
    evaluate-constant_of (negsuc n) m =
        evaluate-single (zeros m) (f.from_int (negsuc n))
        ∙ ap (λ x. f.from_int (negsuc n) ⊗ x) (monomial-zeros point m point)
        ∙ mul-one _

    evaluate-negated : (p : Polynomial A) → evaluate point (negated p) ≡ f.neg (evaluate point p)
    evaluate-negated [] = neg_unique zero_of zero_of (f.zero-add zero_of)
    evaluate-negated ((k, c) ∷ p) =
        ap₂ ◌⊕◌ (neg-mul c (monomial k point)) (evaluate-negated p) ∙ sym (neg-add_both _ _)

    evaluate-divided :
        (d : A) (p : Polynomial A)
        → f.is_zero d ≡ false
        → evaluate point (divided d p) ≡ evaluate point p ⊗ f.div one_of d
    evaluate-divided d [] h = sym (zero-mul _)
    evaluate-divided d ((k, c) ∷ p) h =
        ap₂ ◌⊕◌
          (ap (λ x. x ⊗ monomial k point) (div_lem c d h)
            ∙ mul_right_comm c (f.div one_of d) (monomial k point))
          (evaluate-divided d p h)
        ∙ sym (f.add-mul _ _ _)

    evaluate-divide_by :
        (m : ℕ) (left right : Polynomial A) {out : Polynomial A}
        → divide_by m left right ≡ ok out
        → evaluate point out ≡ f.div (evaluate point left) (evaluate point right)
    evaluate-divide_by m left [] h = absurd (cc)
    evaluate-divide_by m left (t ∷ u ∷ right) h = absurd (cc)
    evaluate-divide_by m left ((k, d) ∷ []) h =
        let (unit, h₁) = require-eq-ok (powers_eq k (zeros m)) certificate_invalid _ h in
        let (some_d, h₂) = require-eq-ok (not (f.is_zero d)) certificate_invalid _ h₁ in
        let z : f.is_zero d ≡ false = ground (arith, some_d) in
        let same : evaluate point ((k, d) ∷ []) ≡ d =
          evaluate-single k d
          ∙ ap (λ j. d ⊗ monomial j point) (powers_eq→≡ k (zeros m) unit)
          ∙ ap (λ x. d ⊗ x) (monomial-zeros point m point)
          ∙ mul-one d in
        evaluate-normalize point (divided d left) h₂
        ∙ evaluate-divided d left z
        ∙ sym (div_lem (evaluate point left) d z)
        ∙ ap (λ x. f.div (evaluate point left) x) (sym same)

    evaluate-operate :
        (operator : Operator) (m : ℕ) (left right : Polynomial A) {out : Polynomial A}
        → operate operator m left right ≡ ok out
        → evaluate point out ≡ apply operator (evaluate point left) (evaluate point right)
    evaluate-operate plus m left right h =
        evaluate-add point left right (pos 1) h
        ∙ ap (λ x. evaluate point left ⊕ x) (f.one-mul (evaluate point right))
    evaluate-operate minus m left right h =
        evaluate-add point left right (negsuc 0) h
        ∙ ap (λ x. evaluate point left ⊕ x) (minus_one-mul (evaluate point right))
    evaluate-operate times m left right h = evaluate-multiply point left right h
    evaluate-operate over m left right h = evaluate-divide_by m left right h

    evaluate-raise_to :
        (n : Option ℤ) (m : ℕ) (base : Polynomial A) {out : Polynomial A}
        → raise_to n m base ≡ ok out
        → evaluate point out ≡ raise (evaluate point base) n
    unfolding power
    evaluate-raise_to none m base h = absurd (cc)
    evaluate-raise_to (some (pos n)) m base h = evaluate-power point base n m h
    evaluate-raise_to (some (negsuc n)) m base h = absurd (cc)

  monomial-first :
      (x v : String) (vs : List String) (point : List A)
      → str_eq v x ≡ true
      → monomial (1 ∷ zeros (length vs)) point ≡ value_of x (v ∷ vs) point
  monomial-first x v vs [] e = refl
  monomial-first x v vs (a ∷ point) e =
      ap (λ y. (a ⊗ one_of) ⊗ y) (monomial-zeros point (length vs) point)
      ∙ mul-one _
      ∙ mul-one a
      ∙ ap (λ b. if b then a else value_of x vs point) (sym e)

  monomial-later :
      (x v : String) (vs : List String) (j : List ℕ)
      → ((point : List A) → monomial j point ≡ value_of x vs point)
      → str_eq v x ≡ false
      → (point : List A) → monomial (0 ∷ j) point ≡ value_of x (v ∷ vs) point
  monomial-later x v vs j h n [] = refl
  monomial-later x v vs j h n (a ∷ point) =
      f.one-mul _ ∙ h point ∙ ap (λ b. if b then a else value_of x vs point) (sym n)

  monomial-unit_powers :
      (x : String) (vs : List String) (point : List A) {ks : List ℕ}
      → unit_powers x vs ≡ some ks
      → monomial ks point ≡ value_of x vs point
  monomial-unit_powers x [] point h = absurd (cc)
  monomial-unit_powers x (v ∷ vs) point {ks} h = elim (Bool-cases (str_eq v x)) [
    | inl e ↦
        ap (λ j. monomial j point) (sym (some_inj (rw e at h))) ∙ monomial-first x v vs point e
    | inr n ↦
        let (j, there, same) = shifted-some (unit_powers x vs) (rw n at h) in
        ap (λ i. monomial i point) same
        ∙ monomial-later x v vs j (λ rest. monomial-unit_powers x vs rest there) n point
  ]

  module _ (variables : List String) (point : List A) where
    evaluate-variable_of :
        (x : String) (o : Option (List ℕ)) {p : Polynomial A}
        → unit_powers x variables ≡ o
        → variable_of o ≡ ok p
        → evaluate point p ≡ value_of x variables point
    evaluate-variable_of x none there h = absurd (cc)
    evaluate-variable_of x (some ks) there h =
        ap (evaluate point) (sym (ok_inj h))
        ∙ evaluate-single point ks one_of
        ∙ f.one-mul _
        ∙ monomial-unit_powers x variables point there

    -- The polynomial of an expression has the expression's value at the point.
    pub evaluate-visit :
        (e : Expression) (nodes : ℕ) {p : Polynomial A} {after : ℕ}
        → visit variables e nodes ≡ ok (p, after)
        → evaluate point p ≡ value variables point e
    unfolding visit
    evaluate-visit (integer n) nodes h =
        let (seen, _, h₁) = >>=-eq-ok (next_node nodes) _ h in
        ap (λ r. evaluate point r.0) (sym (ok_inj h₁))
        ∙ evaluate-constant_of point n (length variables)
    evaluate-visit constant nodes h =
        let (seen, _, h₁) = >>=-eq-ok (next_node nodes) _ h in absurd (cc)
    evaluate-visit (name x) nodes h =
        let (seen, _, h₁) = >>=-eq-ok (next_node nodes) _ h in
        let (q, found, h₂) = >>=-eq-ok (variable_of (unit_powers x variables)) _ h₁ in
        ap (λ r. evaluate point r.0) (sym (ok_inj h₂)) ∙ evaluate-variable_of x _ refl found
    evaluate-visit (positive e) nodes h =
        let (seen, _, h₁) = >>=-eq-ok (next_node nodes) _ h in evaluate-visit e seen h₁
    evaluate-visit (negative e) nodes h =
        let (seen, _, h₁) = >>=-eq-ok (next_node nodes) _ h in
        let (q, visited, h₂) = >>=-eq-ok (visit variables e seen) _ h₁ in
        ap (λ r. evaluate point r.0) (sym (ok_inj h₂))
        ∙ evaluate-negated point q.0
        ∙ ap f.neg (evaluate-visit e seen visited)
    evaluate-visit (binary operator l r) nodes {p} h =
        let (seen, _, h₁) = >>=-eq-ok (next_node nodes) _ h in
        let (left, visited_left, h₂) = >>=-eq-ok (visit variables l seen) _ h₁ in
        let (right, visited_right, h₃) = >>=-eq-ok (visit variables r left.1) _ h₂ in
        let (q, operated, h₄) =
          >>=-eq-ok (operate operator (length variables) left.0 right.0) _ h₃ in
        ap (λ r. evaluate point r.0) (sym (ok_inj h₄))
        ∙ evaluate-operate point operator (length variables) left.0 right.0 operated
        ∙ ap₂ (apply operator) (evaluate-visit l seen visited_left)
            (evaluate-visit r left.1 visited_right)
    evaluate-visit (raised b e) nodes h =
        let (seen, _, h₁) = >>=-eq-ok (next_node nodes) _ h in
        let (_, h₂) = require-eq-ok (is_some_int (exponent_of e)) certificate_invalid _ h₁ in
        let (base, visited, h₃) = >>=-eq-ok (visit variables b seen) _ h₂ in
        let (q, powered, h₄) =
          >>=-eq-ok (raise_to (exponent_of e) (length variables) base.0) _ h₃ in
        ap (λ r. evaluate point r.0) (sym (ok_inj h₄))
        ∙ evaluate-raise_to point (exponent_of e) (length variables) base.0 powered
        ∙ ap (λ x. raise x (exponent_of e)) (evaluate-visit b seen visited)
    evaluate-visit unsupported nodes h =
        let (seen, _, h₁) = >>=-eq-ok (next_node nodes) _ h in absurd (cc)
