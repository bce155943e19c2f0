-- ===== src/Certificates/Evaluation.antt =====
-- The value of a polynomial of src/math_anchor/certificate_checker.py at a point, and what `_add`,
-- `_multiply` and `_power` do to it.
use math_anchor.Base.{
  ℕ, zero, suc, ◌+◌, ◌≡◌, refl, sym, ap, ap₂, ◌∙◌, arith, true, false, Bool-cases, inl, inr, List,
  [], ◌∷◌, ◌==◌, length, ok, certificate_invalid, >>=-eq-ok, require-eq-ok, ok_inj, leb,
}
use math_anchor.Base.Int.{ℤ}
use math_anchor.Certificates.Coefficients.{
  Fractions, ◌⊕◌, ◌⊗◌, zero_of, one_of, add-zero, add_right_comm, mul-add, zero-mul,
}
use math_anchor.Certificates.{
  Polynomial, powers_eq, nonzero_terms, normalize, is_bounded_fraction, degrees_within, add_term,
  add_terms, add, max_certificate_terms, max_polynomial_degree,
}

pub powers_eq→≡ : (a b : List ℕ) → powers_eq a b ≡ true → a ≡ b
powers_eq→≡ [] [] h = refl
powers_eq→≡ [] (b ∷ bs) h = absurd (cc)
powers_eq→≡ (a ∷ as₁) [] h = absurd (cc)
powers_eq→≡ (a ∷ as₁) (b ∷ bs) h = elim (Bool-cases (a == b)) [
  | inl e ↦ ap₂ ◌∷◌ (ground (arith, e)) (powers_eq→≡ as₁ bs (rw e at h))
  | inr n ↦ absurd (ne (rw n at h))
]
  where
    ne : false ≡ true → ⊥
    ne k = cc

module _ {ℓ} {A : Type ℓ} ⦃f : Fractions A⦄ where
  abbrev pub pow : A → ℕ → A
  pow x zero = one_of
  pow x (suc n) = x ⊗ pow x n

  -- The product of the variables' values to these powers.
  abbrev pub monomial : List ℕ → List A → A
  monomial (k ∷ ks) (x ∷ xs) = pow x k ⊗ monomial ks xs
  monomial [] xs = one_of
  monomial (k ∷ ks) [] = one_of

  abbrev pub evaluate : List A → Polynomial A → A
  evaluate point [] = zero_of
  evaluate point ((k, c) ∷ p) = (c ⊗ monomial k point) ⊕ evaluate point p

  pub pow-add : (x : A) (m n : ℕ) → pow x (m + n) ≡ pow x m ⊗ pow x n
  pow-add x zero n = ap (pow x) {x = 0 + n} {y = n} (omega arith) ∙ sym (f.one-mul (pow x n))
  pow-add x (suc m) n =
      ap (pow x) {x = suc m + n} {y = suc (m + n)} (omega arith)
      ∙ ap (λ y. x ⊗ y) (pow-add x m n)
      ∙ sym (f.mul_assoc x (pow x m) (pow x n))

  pub pow_square : (x : A) (n : ℕ) → pow (x ⊗ x) n ≡ pow x (n + n)
  pow_square x zero = refl
  pow_square x (suc n) =
      ap (λ y. (x ⊗ x) ⊗ y) (pow_square x n)
      ∙ f.mul_assoc x x (pow x (n + n))
      ∙ ap (pow x) {x = suc (suc (n + n))} {y = suc n + suc n} (omega arith)

  module _ (point : List A) where
    pub evaluate-add_term :
        (k : List ℕ) (c : A) (p : Polynomial A)
        → evaluate point (add_term k c p) ≡ evaluate point p ⊕ (c ⊗ monomial k point)
    evaluate-add_term k c [] =
        add-zero _ ∙ ap (λ x. x ⊗ monomial k point) (f.zero-add c) ∙ sym (f.zero-add _)
    evaluate-add_term k c ((j, d) ∷ p) = elim (Bool-cases (powers_eq j k)) [
      | inl e ↦ rw e (
          ap (λ x. x ⊕ evaluate point p) (f.add-mul d c (monomial j point))
          ∙ ap (λ i. ((d ⊗ monomial j point) ⊕ (c ⊗ monomial i point)) ⊕ evaluate point p)
              (powers_eq→≡ j k e)
          ∙ add_right_comm _ _ _)
      | inr n ↦
          rw n (
            ap (λ x. (d ⊗ monomial j point) ⊕ x) (evaluate-add_term k c p)
            ∙ sym (f.add_assoc _ _ _))
    ]

    evaluate-add_terms :
        (scale : ℤ) (result right : Polynomial A)
        → evaluate point (add_terms scale result right)
          ≡ evaluate point result ⊕ (f.from_int scale ⊗ evaluate point right)
    evaluate-add_terms scale result [] =
        sym (add-zero _)
        ∙ ap (λ x. evaluate point result ⊕ x) (sym (f.mul_comm _ _ ∙ zero-mul (f.from_int scale)))
    evaluate-add_terms scale result ((k, c) ∷ right) =
        let s = f.from_int scale in
        evaluate-add_terms scale (add_term k (s ⊗ c) result) right
        ∙ ap (λ x. x ⊕ (s ⊗ evaluate point right)) (evaluate-add_term k (s ⊗ c) result)
        ∙ f.add_assoc _ _ _
        ∙ ap (λ x. evaluate point result ⊕ (x ⊕ (s ⊗ evaluate point right))) (f.mul_assoc s c _)
        ∙ ap (λ x. evaluate point result ⊕ x) (sym (mul-add s _ _))

    evaluate-nonzero_terms :
        (p : Polynomial A) {q : Polynomial A}
        → nonzero_terms p ≡ ok q
        → evaluate point q ≡ evaluate point p
    evaluate-nonzero_terms [] h = ap (evaluate point) (sym (ok_inj h))
    evaluate-nonzero_terms ((k, c) ∷ p) {q} h =
        let (rest, done, h₁) = >>=-eq-ok (nonzero_terms p) _ h in
        let same = evaluate-nonzero_terms p done in
        elim (Bool-cases (f.is_zero c)) [
          | inl z ↦
              ap (evaluate point) (sym (ok_inj (rw z at h₁)))
              ∙ same
              ∙ sym (f.zero-add _)
              ∙ ap (λ x. x ⊕ evaluate point p) (sym (zero-mul (monomial k point)))
              ∙ ap (λ x. (x ⊗ monomial k point) ⊕ evaluate point p) (sym (f.is_zero_eq c z))
          | inr n ↦
              let (_, h₂) =
                require-eq-ok (is_bounded_fraction c) certificate_invalid (ok ((k, c) ∷ rest))
                  (rw n at h₁) in
              ap (evaluate point) (sym (ok_inj h₂)) ∙ ap (λ x. (c ⊗ monomial k point) ⊕ x) same
        ]

    pub evaluate-normalize :
        (p : Polynomial A) {q : Polynomial A}
        → normalize p ≡ ok q
        → evaluate point q ≡ evaluate point p
    unfolding normalize
    evaluate-normalize p {q} h =
        let (terms, done, h₁) = >>=-eq-ok (nonzero_terms p) _ h in
        let (_, h₂) =
          require-eq-ok (leb (length terms) max_certificate_terms) certificate_invalid _ h₁ in
        let (_, h₃) =
          require-eq-ok (degrees_within max_polynomial_degree terms) certificate_invalid (ok terms)
            h₂ in
        ap (evaluate point) (sym (ok_inj h₃)) ∙ evaluate-nonzero_terms p done

    pub evaluate-add :
        (left right : Polynomial A) (scale : ℤ) {q : Polynomial A}
        → add left right scale ≡ ok q
        → evaluate point q ≡ evaluate point left ⊕ (f.from_int scale ⊗ evaluate point right)
    unfolding add
    evaluate-add left right scale h =
        evaluate-normalize (add_terms scale left right) h ∙ evaluate-add_terms scale left right
