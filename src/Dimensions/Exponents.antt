-- ===== src/Dimensions/Exponents.antt =====
-- The exponents of `DimensionVector` (src/math_anchor/dimension_expression.py): by the name of a dimension
-- what stands under it, through the loops that add, multiply, order and copy components.
use Prim.Native.String.{String}
use math_anchor.Base.{
  ◌≡◌, refl, sym, ap, ap₂, ◌∙◌, subst, arith, Bool, true, false, [], ◌∷◌, Bool-cases, inl, inr,
  if◌then◌else◌,
}
use math_anchor.Base.Json.{str_eq}
use math_anchor.Certificates.Coefficients.{
  Fractions, ◌⊕◌, ◌⊗◌, zero_of, add-zero, add_right_comm, zero-mul,
}
use math_anchor.Dimensions.{
  Components, has_name, put, insert_component, sorted_components, comes_before, exponent, combined,
  scaled,
}
use math_anchor.Dimensions.Names.{Distinct, Named, Named-put}
use text.Mathlib.TextEquality.{eq_iff}

module _ {ℓ} {A : Type ℓ} ⦃f : Fractions A⦄ where
  -- The sum of what stands under a name.
  abbrev pub share : Bool → A → A
  share b e = if b then e else zero_of

  abbrev pub total : String → Components A → A
  total n [] = zero_of
  total n ((k, e) ∷ cs) = share (str_eq k n) e ⊕ total n cs

  absent-total : (n : String) (cs : Components A) → has_name n cs ≡ false → total n cs ≡ zero_of
  absent-total n [] h = refl
  absent-total n ((k, e) ∷ cs) h =
      let apart : str_eq k n ≡ false = ground arith in
      let rest : has_name n cs ≡ false = ground arith in
      ap (λ b. share b e ⊕ total n cs) apart ∙ f.zero-add (total n cs) ∙ absent-total n cs rest

  pub exponent-total : (n : String) (cs : Components A) → Distinct cs → exponent n cs ≡ total n cs
  exponent-total n [] h = refl
  exponent-total n ((k, e) ∷ cs) (own, rest) = elim (Bool-cases (str_eq k n)) [
    | inl same ↦
        let absent =
          absent-total n cs (subst (λ x. has_name x cs ≡ false) ((eq_iff k n).0 same) own) in
        ap (λ b. if b then e else exponent n cs) same
        ∙ sym (add-zero e)
        ∙ ap₂ (λ x t. x ⊕ t) (ap (λ b. share b e) (sym same)) (sym absent)
    | inr other ↦
        ap (λ b. if b then e else exponent n cs) other
        ∙ exponent-total n cs rest
        ∙ sym (f.zero-add (total n cs))
        ∙ ap (λ b. share b e ⊕ total n cs) (sym other)
  ]

  share-add : (b : Bool) (d e : A) → share b (d ⊕ e) ≡ share b d ⊕ share b e
  share-add true d e = refl
  share-add false d e = sym (f.zero-add zero_of)

  put-total :
      (n k : String) (e : A) (cs : Components A)
      → total n (put k (exponent k cs ⊕ e) cs) ≡ total n cs ⊕ share (str_eq k n) e
  put-total n k e [] =
      add-zero (share (str_eq k n) (zero_of ⊕ e))
      ∙ ap (share (str_eq k n)) (f.zero-add e)
      ∙ sym (f.zero-add (share (str_eq k n) e))
  put-total n k e ((j, d) ∷ cs) = elim (Bool-cases (str_eq j k)) [
    | inl same ↦ rw same (
        subst
          (λ x.
            share (str_eq j n) (d ⊕ e) ⊕ total n cs
            ≡ (share (str_eq j n) d ⊕ total n cs) ⊕ share (str_eq x n) e)
          ((eq_iff j k).0 same)
          (ap (λ x. x ⊕ total n cs) (share-add (str_eq j n) d e)
            ∙ add_right_comm (share (str_eq j n) d) (share (str_eq j n) e) (total n cs)))
    | inr other ↦ rw other (
        ap (λ x. share (str_eq j n) d ⊕ total n (put k (x ⊕ e) cs))
          (ap (λ b. if b then d else exponent k cs) other)
        ∙ ap (λ x. share (str_eq j n) d ⊕ x) (put-total n k e cs)
        ∙ sym (f.add_assoc (share (str_eq j n) d) (total n cs) (share (str_eq k n) e)))
  ]

  pub put_absent-total :
      (n k : String) (e : A) (cs : Components A)
      → has_name k cs ≡ false
      → total n (put k e cs) ≡ total n cs ⊕ share (str_eq k n) e
  put_absent-total n k e [] h = f.add_comm (share (str_eq k n) e) zero_of
  put_absent-total n k e ((j, d) ∷ cs) h =
      let apart : str_eq j k ≡ false = ground arith in
      let rest : has_name k cs ≡ false = ground arith in
      rw apart (
        ap (λ x. share (str_eq j n) d ⊕ x) (put_absent-total n k e cs rest)
        ∙ sym (f.add_assoc (share (str_eq j n) d) (total n cs) (share (str_eq k n) e)))

  pub combined-total :
      (n : String) (cs others : Components A)
      → total n (combined cs others) ≡ total n cs ⊕ total n others
  combined-total n cs [] = sym (add-zero (total n cs))
  combined-total n cs ((k, e) ∷ others) =
      combined-total n (put k (exponent k cs ⊕ e) cs) others
      ∙ ap (λ x. x ⊕ total n others) (put-total n k e cs)
      ∙ f.add_assoc (total n cs) (share (str_eq k n) e) (total n others)

  pub Named-combined :
      (cs others : Components A) → Named cs → Named others → Named (combined cs others)
  Named-combined cs [] h g = h
  Named-combined cs ((k, e) ∷ others) h (own, rest) =
      Named-combined (put k (exponent k cs ⊕ e) cs) others
        (Named-put k (exponent k cs ⊕ e) cs own h) rest

  share-mul : (b : Bool) (e c : A) → share b (e ⊗ c) ≡ share b e ⊗ c
  share-mul true e c = refl
  share-mul false e c = sym (zero-mul c)

  pub scaled-total :
      (n : String) (c : A) (cs : Components A) → total n (scaled c cs) ≡ total n cs ⊗ c
  scaled-total n c [] = sym (zero-mul c)
  scaled-total n c ((k, e) ∷ cs) =
      ap₂ (λ x y. x ⊕ y) (share-mul (str_eq k n) e c) (scaled-total n c cs)
      ∙ sym (f.add-mul (share (str_eq k n) e) (total n cs) c)

  pub Named-scaled : (c : A) (cs : Components A) → Named cs → Named (scaled c cs)
  Named-scaled c [] h = tt
  Named-scaled c ((k, e) ∷ cs) (own, rest) = (own, Named-scaled c cs rest)

  pub sorted-total : (n : String) (cs : Components A) → total n (sorted_components cs) ≡ total n cs
  sorted-total n [] = refl
  sorted-total n ((k, e) ∷ cs) =
      inserted (sorted_components cs) ∙ ap (λ x. share (str_eq k n) e ⊕ x) (sorted-total n cs)
    where
      inserted :
          (ds : Components A)
          → total n (insert_component (k, e) ds) ≡ share (str_eq k n) e ⊕ total n ds
      inserted [] = refl
      inserted ((j, d) ∷ ds) = elim (Bool-cases (comes_before j k)) [
        | inl first ↦ rw first (
            ap (λ x. share (str_eq j n) d ⊕ x) (inserted ds)
            ∙ sym (f.add_assoc (share (str_eq j n) d) (share (str_eq k n) e) (total n ds))
            ∙ ap (λ x. x ⊕ total n ds) (f.add_comm (share (str_eq j n) d) (share (str_eq k n) e))
            ∙ f.add_assoc (share (str_eq k n) e) (share (str_eq j n) d) (total n ds))
        | inr later ↦ rw later refl
      ]
