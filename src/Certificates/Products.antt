-- ===== src/Certificates/Products.antt =====
-- `_multiply` and `_power` of src/math_anchor/certificate_checker.py on the values of polynomials.
use math_anchor.Base.{
  ℕ, zero, suc, ◌+◌, ◌/◌, ◌%◌, ◌≡◌, refl, sym, ap, ap₂, ◌∙◌, arith, Bool-cases, inl, inr, List, [],
  ◌∷◌, ◌==◌, ok, certificate_invalid, >>=-eq-ok, require-eq-ok, ok_inj, leb,
}
use math_anchor.Base.Int.{pos}
use math_anchor.Certificates.Coefficients.{
  Fractions, ◌⊕◌, ◌⊗◌, one_of, add-zero, mul-one, mul_interchange, mul-add, zero-mul,
}
use math_anchor.Certificates.{
  Polynomial, add_powers, zeros, add_term, multiply_term, multiply_terms, multiply, take_bit,
  next_factor, power_loop, power, max_polynomial_degree,
}
use math_anchor.Certificates.Evaluation.{
  pow, monomial, evaluate, pow-add, pow_square, evaluate-add_term, evaluate-normalize,
}

module _ {ℓ} {A : Type ℓ} ⦃f : Fractions A⦄ (point : List A) where
  pub monomial-zeros : (n : ℕ) (xs : List A) → monomial (zeros n) xs ≡ one_of
  monomial-zeros zero xs = refl
  monomial-zeros (suc n) [] = refl
  monomial-zeros (suc n) (x ∷ xs) = f.one-mul _ ∙ monomial-zeros n xs

  monomial-add_powers :
      (a b : List ℕ) (xs : List A) {c : List ℕ}
      → add_powers a b ≡ ok c
      → monomial c xs ≡ monomial a xs ⊗ monomial b xs
  monomial-add_powers [] [] xs h = ap (λ k. monomial k xs) (sym (ok_inj h)) ∙ sym (mul-one one_of)
  monomial-add_powers [] (b ∷ bs) xs h = absurd (cc)
  monomial-add_powers (a ∷ as₁) [] xs h = absurd (cc)
  monomial-add_powers (a ∷ as₁) (b ∷ bs) [] h =
      let (rest, _, e) = >>=-eq-ok (add_powers as₁ bs) _ h in
      ap (λ k. monomial k []) (sym (ok_inj e)) ∙ sym (mul-one one_of)
  monomial-add_powers (a ∷ as₁) (b ∷ bs) (x ∷ xs) h =
      let (rest, more, e) = >>=-eq-ok (add_powers as₁ bs) _ h in
      ap (λ k. monomial k (x ∷ xs)) (sym (ok_inj e))
      ∙ ap₂ ◌⊗◌ (pow-add x a b) (monomial-add_powers as₁ bs xs more)
      ∙ mul_interchange (pow x a) (pow x b) (monomial as₁ xs) (monomial bs xs)

  evaluate-multiply_term :
      (k : List ℕ) (c : A) (right result : Polynomial A) {out : Polynomial A}
      → multiply_term k c right result ≡ ok out
      → evaluate point out ≡ evaluate point result ⊕ ((c ⊗ monomial k point) ⊗ evaluate point right)
  evaluate-multiply_term k c [] result h =
      ap (evaluate point) (sym (ok_inj h))
      ∙ sym (add-zero _)
      ∙ ap (λ x. evaluate point result ⊕ x) (sym (f.mul_comm _ _ ∙ zero-mul _))
  evaluate-multiply_term k c ((j, d) ∷ right) result h =
      let (powers, added, e) = >>=-eq-ok (add_powers k j) _ h in
      let m = c ⊗ monomial k point in
      evaluate-multiply_term k c right (add_term powers (c ⊗ d) result) e
      ∙ ap (λ x. x ⊕ (m ⊗ evaluate point right)) (evaluate-add_term point powers (c ⊗ d) result)
      ∙ f.add_assoc _ _ _
      ∙ ap (λ x. evaluate point result ⊕ (x ⊕ (m ⊗ evaluate point right)))
          (ap (λ x. (c ⊗ d) ⊗ x) (monomial-add_powers k j point added)
            ∙ mul_interchange c d (monomial k point) (monomial j point))
      ∙ ap (λ x. evaluate point result ⊕ x) (sym (mul-add m _ _))

  evaluate-multiply_terms :
      (left right result : Polynomial A) {out : Polynomial A}
      → multiply_terms left right result ≡ ok out
      → evaluate point out ≡ evaluate point result ⊕ (evaluate point left ⊗ evaluate point right)
  evaluate-multiply_terms [] right result h =
      ap (evaluate point) (sym (ok_inj h))
      ∙ sym (add-zero _)
      ∙ ap (λ x. evaluate point result ⊕ x) (sym (zero-mul _))
  evaluate-multiply_terms ((k, c) ∷ left) right result h =
      let (next, done, e) = >>=-eq-ok (multiply_term k c right result) _ h in
      evaluate-multiply_terms left right next e
      ∙ ap (λ x. x ⊕ (evaluate point left ⊗ evaluate point right))
          (evaluate-multiply_term k c right result done)
      ∙ f.add_assoc _ _ _
      ∙ ap (λ x. evaluate point result ⊕ x) (sym (f.add-mul _ _ _))

  pub evaluate-multiply :
      (left right : Polynomial A) {out : Polynomial A}
      → multiply left right ≡ ok out
      → evaluate point out ≡ evaluate point left ⊗ evaluate point right
  unfolding multiply
  evaluate-multiply left right h =
      let (product, done, e) = >>=-eq-ok (multiply_terms left right []) _ h in
      evaluate-normalize point product e ∙ evaluate-multiply_terms left right [] done ∙ f.zero-add _

  -- The bit that is taken, and the square for the bits that are left.
  evaluate-take_bit :
      (n : ℕ) (result factor : Polynomial A) {taken : Polynomial A}
      → take_bit n result factor ≡ ok taken
      → evaluate point taken ⊗ pow (evaluate point factor ⊗ evaluate point factor) (n / 2)
        ≡ evaluate point result ⊗ pow (evaluate point factor) n
  evaluate-take_bit n result factor h =
      let x = evaluate point factor in
      elim (Bool-cases (n % 2 == 1)) [
        | inl odd ↦
            ap (λ y. y ⊗ pow (x ⊗ x) (n / 2)) (evaluate-multiply result factor (rw odd at h))
            ∙ f.mul_assoc (evaluate point result) x (pow (x ⊗ x) (n / 2))
            ∙ ap (λ y. evaluate point result ⊗ (x ⊗ y)) (pow_square x (n / 2))
            ∙ ap (λ k. evaluate point result ⊗ pow x k) {x = suc (n / 2 + n / 2)} {y = n}
                (ground (arith, odd))
        | inr even ↦
            ap (λ p. evaluate point p ⊗ pow (x ⊗ x) (n / 2)) (sym (ok_inj (rw even at h)))
            ∙ ap (λ y. evaluate point result ⊗ y) (pow_square x (n / 2))
            ∙ ap (λ k. evaluate point result ⊗ pow x k) {x = n / 2 + n / 2} {y = n}
                (ground (arith, even))
      ]

  evaluate-next_factor :
      (n : ℕ) (factor : Polynomial A) {squared : Polynomial A}
      → next_factor n factor ≡ ok squared
      → pow (evaluate point squared) n ≡ pow (evaluate point factor ⊗ evaluate point factor) n
  evaluate-next_factor zero factor h = refl
  evaluate-next_factor (suc n) factor h =
      ap (λ x. pow x (suc n)) (evaluate-multiply factor factor h)

  evaluate-power_loop :
      (fuel : ℕ) (result factor : Polynomial A) (n : ℕ) {out : Polynomial A}
      → power_loop fuel result factor n ≡ ok out
      → evaluate point out ≡ evaluate point result ⊗ pow (evaluate point factor) n
  unfolding power_loop
  evaluate-power_loop fuel result factor zero h =
      ap (evaluate point) (sym (ok_inj h)) ∙ sym (mul-one _)
  evaluate-power_loop zero result factor (suc n) h = absurd (cc)
  evaluate-power_loop (suc fuel) result factor (suc n) h =
      let (taken, took, h₁) = >>=-eq-ok (take_bit (suc n) result factor) _ h in
      let (squared, square, h₂) = >>=-eq-ok (next_factor (suc n / 2) factor) _ h₁ in
      evaluate-power_loop fuel taken squared (suc n / 2) h₂
      ∙ ap (λ y. evaluate point taken ⊗ y) (evaluate-next_factor (suc n / 2) factor square)
      ∙ evaluate-take_bit (suc n) result factor took

  pub evaluate-power :
      (base : Polynomial A) (n variable_count : ℕ) {out : Polynomial A}
      → power base (pos n) variable_count ≡ ok out
      → evaluate point out ≡ pow (evaluate point base) n
  unfolding power
  evaluate-power base n variable_count h =
      let (_, h₁) = require-eq-ok (leb n max_polynomial_degree) certificate_invalid _ h in
      evaluate-power_loop n ((zeros variable_count, one_of) ∷ []) base n h₁
      ∙ ap (λ x. x ⊗ pow (evaluate point base) n)
          (add-zero _ ∙ f.one-mul _ ∙ monomial-zeros variable_count point)
      ∙ f.one-mul _
