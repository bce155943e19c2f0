-- ===== src/Certificates/Coefficients.antt =====
-- The coefficients of src/math_anchor/certificate_checker.py: `Fraction` of Python's fractions module,
-- as any field with the operations and the laws that the checker relies on.
use math_anchor.Base.{◌≡◌, sym, ap, ◌∙◌, ℕ, Bool, true, false}
use math_anchor.Base.Int.{ℤ, pos, negsuc}
use mathlib.Core.Path.{◌≡⟨◌⟩◌, ◌∎}

pub record Fractions {ℓ} (A : Type ℓ) : Type ℓ where
  -- Fraction(n)
  pub from_int : ℤ → A
  pub add : A → A → A
  pub mul : A → A → A
  pub neg : A → A
  pub div : A → A → A
  -- not value
  pub is_zero : A → Bool
  pub numerator : A → ℤ
  pub denominator : A → ℕ
  pub is_zero_eq : (a : A) → is_zero a ≡ true → a ≡ from_int (pos 0)
  pub minus_one : from_int (negsuc 0) ≡ neg (from_int (pos 1))
  pub add_comm : (x y : A) → add x y ≡ add y x
  pub mul_comm : (x y : A) → mul x y ≡ mul y x
  pub zero-add : (x : A) → add (from_int (pos 0)) x ≡ x
  pub one-mul : (x : A) → mul (from_int (pos 1)) x ≡ x
  pub neg-add : (x : A) → add (neg x) x ≡ from_int (pos 0)
  pub div-mul : (x d : A) → is_zero d ≡ false → mul (div x d) d ≡ x
  pub add-mul : (x y z : A) → mul (add x y) z ≡ add (mul x z) (mul y z)
  pub mul_assoc : (x y z : A) → mul (mul x y) z ≡ mul x (mul y z)
  pub add_assoc : (x y z : A) → add (add x y) z ≡ add x (add y z)

module _ {ℓ} {A : Type ℓ} ⦃f : Fractions A⦄ where
  abbrev pub zero_of : A
  zero_of = f.from_int (pos 0)

  abbrev pub one_of : A
  one_of = f.from_int (pos 1)

  infixl 70 ◌⊗◌
  abbrev pub ◌⊗◌ : A → A → A
  x ⊗ y = f.mul x y

  infixl 65 ◌⊕◌
  abbrev pub ◌⊕◌ : A → A → A
  x ⊕ y = f.add x y

  pub add-zero : (a : A) → a ⊕ zero_of ≡ a
  add-zero a = f.add_comm a zero_of ∙ f.zero-add a

  pub mul-one : (a : A) → a ⊗ one_of ≡ a
  mul-one a = f.mul_comm a one_of ∙ f.one-mul a

  pub add-neg : (a : A) → a ⊕ f.neg a ≡ zero_of
  add-neg a = f.add_comm a (f.neg a) ∙ f.neg-add a

  pub add_right_comm : (a b c : A) → (a ⊕ b) ⊕ c ≡ (a ⊕ c) ⊕ b
  add_right_comm a b c =
      (a ⊕ b) ⊕ c
      ≡⟨ f.add_assoc a b c ⟩ a ⊕ (b ⊕ c)
      ≡⟨ ap (λ x. a ⊕ x) (f.add_comm b c) ⟩ a ⊕ (c ⊕ b)
      ≡⟨ sym (f.add_assoc a c b) ⟩ (a ⊕ c) ⊕ b ∎

  pub mul_right_comm : (a b c : A) → (a ⊗ b) ⊗ c ≡ (a ⊗ c) ⊗ b
  mul_right_comm a b c =
      (a ⊗ b) ⊗ c
      ≡⟨ f.mul_assoc a b c ⟩ a ⊗ (b ⊗ c)
      ≡⟨ ap (λ x. a ⊗ x) (f.mul_comm b c) ⟩ a ⊗ (c ⊗ b)
      ≡⟨ sym (f.mul_assoc a c b) ⟩ (a ⊗ c) ⊗ b ∎

  pub mul_interchange : (a b c d : A) → (a ⊗ b) ⊗ (c ⊗ d) ≡ (a ⊗ c) ⊗ (b ⊗ d)
  mul_interchange a b c d =
      (a ⊗ b) ⊗ (c ⊗ d)
      ≡⟨ sym (f.mul_assoc (a ⊗ b) c d) ⟩ ((a ⊗ b) ⊗ c) ⊗ d
      ≡⟨ ap (λ x. x ⊗ d) (mul_right_comm a b c) ⟩ ((a ⊗ c) ⊗ b) ⊗ d
      ≡⟨ f.mul_assoc (a ⊗ c) b d ⟩ (a ⊗ c) ⊗ (b ⊗ d) ∎

  pub mul-add : (a b c : A) → a ⊗ (b ⊕ c) ≡ (a ⊗ b) ⊕ (a ⊗ c)
  mul-add a b c =
      f.mul_comm a (b ⊕ c) ∙ f.add-mul b c a ∙ rw (f.mul_comm b a, f.mul_comm c a) refl_of
    where
      refl_of : {x : A} → x ≡ x
      refl_of = cc

  -- a is 0 if a + a is a.
  pub add_cancel : (a b c : A) → a ⊕ b ≡ c ⊕ b → a ≡ c
  add_cancel a b c h =
      a
      ≡⟨ sym (undo a) ⟩ (a ⊕ b) ⊕ f.neg b
      ≡⟨ ap (λ x. x ⊕ f.neg b) h ⟩ (c ⊕ b) ⊕ f.neg b
      ≡⟨ undo c ⟩ c ∎
    where
      undo : (x : A) → (x ⊕ b) ⊕ f.neg b ≡ x
      undo x = f.add_assoc x b (f.neg b) ∙ ap (λ y. x ⊕ y) (add-neg b) ∙ add-zero x

  pub zero-mul : (a : A) → zero_of ⊗ a ≡ zero_of
  zero-mul a = add_cancel (zero_of ⊗ a) (zero_of ⊗ a) zero_of (
      sym (f.add-mul zero_of zero_of a)
      ∙ ap (λ x. x ⊗ a) (f.zero-add zero_of)
      ∙ sym (f.zero-add (zero_of ⊗ a)))

  pub neg_unique : (a b : A) → a ⊕ b ≡ zero_of → b ≡ f.neg a
  neg_unique a b h = add_cancel b a (f.neg a) (f.add_comm b a ∙ h ∙ sym (f.neg-add a))

  pub neg-mul : (a b : A) → f.neg a ⊗ b ≡ f.neg (a ⊗ b)
  neg-mul a b =
      neg_unique (a ⊗ b) (f.neg a ⊗ b)
        (sym (f.add-mul a (f.neg a) b) ∙ ap (λ x. x ⊗ b) (add-neg a) ∙ zero-mul b)

  pub minus_one-mul : (a : A) → f.from_int (negsuc 0) ⊗ a ≡ f.neg a
  minus_one-mul a = ap (λ x. x ⊗ a) f.minus_one ∙ neg-mul one_of a ∙ ap f.neg (f.one-mul a)

  pub neg-add_both : (a b : A) → f.neg (a ⊕ b) ≡ f.neg a ⊕ f.neg b
  neg-add_both a b =
      sym (minus_one-mul (a ⊕ b))
      ∙ mul-add _ a b
      ∙ ap (λ x. x ⊕ (f.from_int (negsuc 0) ⊗ b)) (minus_one-mul a)
      ∙ ap (λ x. f.neg a ⊕ x) (minus_one-mul b)

  -- Division is multiplication by the inverse.
  pub div_lem : (a d : A) → f.is_zero d ≡ false → f.div a d ≡ a ⊗ f.div one_of d
  div_lem a d h =
      f.div a d
      ≡⟨ sym (mul-one (f.div a d)) ⟩ f.div a d ⊗ one_of
      ≡⟨ ap (λ x. f.div a d ⊗ x) (sym (f.div-mul one_of d h) ∙ f.mul_comm _ d) ⟩
        f.div a d ⊗ (d ⊗ f.div one_of d)
      ≡⟨ sym (f.mul_assoc _ d _) ⟩ (f.div a d ⊗ d) ⊗ f.div one_of d
      ≡⟨ ap (λ x. x ⊗ f.div one_of d) (f.div-mul a d h) ⟩ a ⊗ f.div one_of d ∎
