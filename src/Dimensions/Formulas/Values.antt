-- ===== src/Dimensions/Formulas/Values.antt =====
-- What a `DimensionFormula` (src/math_anchor/dimension_expression.py) comes to, by the name of a dimension,
-- once its unknown symbols have exponents: sums, multiples and differences of formulas.
use Prim.Native.String.{String}
use math_anchor.Base.{
  ◌≡◌, refl, sym, ap, ap₂, ◌∙◌, subst, Bool, true, false, [], ◌∷◌, Bool-cases, inl, inr,
  if◌then◌else◌, ok, e_limit, require, >>=-eq-ok, require-eq-ok, ok_inj, ◌>>◌,
}
use math_anchor.Base.Int.{negsuc}
use math_anchor.Base.Json.{str_eq}
use math_anchor.Certificates.Coefficients.{
  Fractions, ◌⊕◌, ◌⊗◌, zero_of, add-zero, add_right_comm, zero-mul, minus_one-mul,
}
use math_anchor.Dimensions.{Components, text_lt, put, exponent, combined, scaled, sum_of, scale}
use math_anchor.Dimensions.Vectors.{IsVector, sum_of-exponent, scale-exponent}
use math_anchor.Dimensions.Formulas.{
  Formula, insert_by_name, sorted_by_name, is_bounded, bounded_coefficients, formula_sum,
  formula_scale, formula_difference,
}
use text.Mathlib.TextEquality.{eq_iff}

module _ {ℓ} {A : Type ℓ} ⦃f : Fractions A⦄ (ρ : String → A) where
  -- The sum of the coefficients, each by the exponent of its symbol.
  abbrev pub weighted : Components A → A
  weighted [] = zero_of
  weighted ((k, e) ∷ cs) = (e ⊗ ρ k) ⊕ weighted cs

  abbrev pub value : String → Formula A → A
  value n formula = exponent n formula.constant ⊕ weighted formula.coefficients

  put-weighted :
      (k : String) (e : A) (cs : Components A)
      → weighted (put k (exponent k cs ⊕ e) cs) ≡ weighted cs ⊕ (e ⊗ ρ k)
  put-weighted k e [] =
      add-zero ((zero_of ⊕ e) ⊗ ρ k) ∙ ap (λ x. x ⊗ ρ k) (f.zero-add e) ∙ sym (f.zero-add (e ⊗ ρ k))
  put-weighted k e ((j, d) ∷ cs) = elim (Bool-cases (str_eq j k)) [
    | inl same ↦ rw same (
        subst (λ x. ((d ⊕ e) ⊗ ρ j) ⊕ weighted cs ≡ ((d ⊗ ρ j) ⊕ weighted cs) ⊕ (e ⊗ ρ x))
          ((eq_iff j k).0 same)
          (ap (λ x. x ⊕ weighted cs) (f.add-mul d e (ρ j))
            ∙ add_right_comm (d ⊗ ρ j) (e ⊗ ρ j) (weighted cs)))
    | inr other ↦ rw other (
        ap (λ x. (d ⊗ ρ j) ⊕ weighted (put k (x ⊕ e) cs))
          (ap (λ b. if b then d else exponent k cs) other)
        ∙ ap (λ x. (d ⊗ ρ j) ⊕ x) (put-weighted k e cs)
        ∙ sym (f.add_assoc (d ⊗ ρ j) (weighted cs) (e ⊗ ρ k)))
  ]

  combined-weighted :
      (cs others : Components A) → weighted (combined cs others) ≡ weighted cs ⊕ weighted others
  combined-weighted cs [] = sym (add-zero (weighted cs))
  combined-weighted cs ((k, e) ∷ others) =
      combined-weighted (put k (exponent k cs ⊕ e) cs) others
      ∙ ap (λ x. x ⊕ weighted others) (put-weighted k e cs)
      ∙ f.add_assoc (weighted cs) (e ⊗ ρ k) (weighted others)

  scaled-weighted : (c : A) (cs : Components A) → weighted (scaled c cs) ≡ weighted cs ⊗ c
  scaled-weighted c [] = sym (zero-mul c)
  scaled-weighted c ((k, e) ∷ cs) =
      ap₂ (λ x y. x ⊕ y)
        (f.mul_assoc e c (ρ k) ∙ ap (λ x. e ⊗ x) (f.mul_comm c (ρ k)) ∙ sym (f.mul_assoc e (ρ k) c))
        (scaled-weighted c cs)
      ∙ sym (f.add-mul (e ⊗ ρ k) (weighted cs) c)

  sorted-weighted : (cs : Components A) → weighted (sorted_by_name cs) ≡ weighted cs
  sorted-weighted [] = refl
  sorted-weighted ((k, e) ∷ cs) =
      inserted (sorted_by_name cs) ∙ ap (λ x. (e ⊗ ρ k) ⊕ x) (sorted-weighted cs)
    where
      inserted : (ds : Components A) → weighted (insert_by_name (k, e) ds) ≡ (e ⊗ ρ k) ⊕ weighted ds
      inserted [] = refl
      inserted ((j, d) ∷ ds) = elim (Bool-cases (text_lt j k)) [
        | inl first ↦ rw first (
            ap (λ x. (d ⊗ ρ j) ⊕ x) (inserted ds)
            ∙ sym (f.add_assoc (d ⊗ ρ j) (e ⊗ ρ k) (weighted ds))
            ∙ ap (λ x. x ⊕ weighted ds) (f.add_comm (d ⊗ ρ j) (e ⊗ ρ k))
            ∙ f.add_assoc (e ⊗ ρ k) (d ⊗ ρ j) (weighted ds))
        | inr later ↦ rw later refl
      ]

  bounded-weighted :
      (cs : Components A) {ds : Components A}
      → bounded_coefficients cs ≡ ok ds
      → weighted ds ≡ weighted cs
  bounded-weighted [] h = ap weighted (sym (ok_inj h))
  bounded-weighted ((k, e) ∷ cs) h =
      let found = >>=-eq-ok (bounded_coefficients cs) _ h in
      kept found.0 (f.is_zero e) refl found.2
      ∙ ap (λ x. (e ⊗ ρ k) ⊕ x) (bounded-weighted cs found.1)
    where
      kept :
          (rest : Components A) {ds : Components A} (z : Bool)
          → f.is_zero e ≡ z
          → (if z then ok rest else (require (is_bounded e) e_limit >> ok ((k, e) ∷ rest))) ≡ ok ds
          → weighted ds ≡ (e ⊗ ρ k) ⊕ weighted rest
      kept rest true zero g =
          ap weighted (sym (ok_inj g))
          ∙ sym (f.zero-add (weighted rest))
          ∙ ap (λ x. x ⊕ weighted rest) (sym (zero-mul (ρ k)))
          ∙ ap (λ x. (x ⊗ ρ k) ⊕ weighted rest) (sym (f.is_zero_eq e zero))
      kept rest false other g =
          ap weighted (sym (ok_inj (require-eq-ok (is_bounded e) e_limit _ g).1))

  add_pairs : (a b c d : A) → (a ⊕ b) ⊕ (c ⊕ d) ≡ (a ⊕ c) ⊕ (b ⊕ d)
  add_pairs a b c d =
      sym (f.add_assoc (a ⊕ b) c d)
      ∙ ap (λ x. x ⊕ d) (add_right_comm a b c)
      ∙ f.add_assoc (a ⊕ c) b d

  pub value-sum :
      (F G : Formula A) {H : Formula A}
      → IsVector F.constant
      → IsVector G.constant
      → formula_sum F G ≡ ok H
      → IsVector H.constant × ((n : String) → value n H ≡ value n F ⊕ value n G)
  unfolding formula_sum
  value-sum F G h g e =
      let vector = >>=-eq-ok (sum_of F.constant G.constant) _ e in
      let found =
        >>=-eq-ok (bounded_coefficients (combined F.coefficients G.coefficients)) _ vector.2 in
      let made = sum_of-exponent F.constant G.constant h g vector.1 in
      let same = ok_inj found.2 in
      (
        subst (λ H. IsVector H.constant) same made.0,
        λ n.
            ap (value n) (sym same)
            ∙ ap₂ (λ x y. x ⊕ y) (made.1 n)
                (sorted-weighted found.0
                  ∙ bounded-weighted (combined F.coefficients G.coefficients) found.1
                  ∙ combined-weighted F.coefficients G.coefficients)
            ∙ add_pairs (exponent n F.constant) (exponent n G.constant) (weighted F.coefficients)
                (weighted G.coefficients),
      )

  pub value-scale :
      (c : A) (F : Formula A) {H : Formula A}
      → IsVector F.constant
      → formula_scale c F ≡ ok H
      → IsVector H.constant × ((n : String) → value n H ≡ value n F ⊗ c)
  unfolding formula_scale
  value-scale c F h e =
      let vector = >>=-eq-ok (scale c F.constant) _ e in
      let found = >>=-eq-ok (bounded_coefficients (scaled c F.coefficients)) _ vector.2 in
      let made = scale-exponent c F.constant h vector.1 in
      let same = ok_inj found.2 in
      (
        subst (λ H. IsVector H.constant) same made.0,
        λ n.
            ap (value n) (sym same)
            ∙ ap₂ (λ x y. x ⊕ y) (made.1 n)
                (bounded-weighted (scaled c F.coefficients) found.1
                  ∙ scaled-weighted c F.coefficients)
            ∙ sym (f.add-mul (exponent n F.constant) (weighted F.coefficients) c),
      )

  pub value-difference :
      (F G : Formula A) {H : Formula A}
      → IsVector F.constant
      → IsVector G.constant
      → formula_difference F G ≡ ok H
      → IsVector H.constant × ((n : String) → value n H ≡ value n F ⊕ f.neg (value n G))
  unfolding formula_difference
  value-difference F G h g e =
      let found = >>=-eq-ok (formula_scale (f.from_int (negsuc 0)) G) _ e in
      let opposite = value-scale (f.from_int (negsuc 0)) G g found.1 in
      let made = value-sum F found.0 h opposite.0 found.2 in
      (
        made.0,
        λ n.
            made.1 n
            ∙ ap (λ x. value n F ⊕ x)
                (opposite.1 n
                  ∙ f.mul_comm (value n G) (f.from_int (negsuc 0))
                  ∙ minus_one-mul (value n G)),
      )
