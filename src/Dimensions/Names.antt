-- ===== src/Dimensions/Names.antt =====
-- The names of the components of `DimensionVector` (src/math_anchor/dimension_expression.py): no name
-- stands twice, through the steps that build a vector.
use Prim.Native.String.{String}
use math_anchor.Base.{
  ◌≡◌, refl, sym, ap, ◌∙◌, subst, arith, Bool, true, false, false≢true, [], ◌∷◌, Bool-cases, inl,
  inr, if◌then◌else◌, ok,
}
use math_anchor.Base.Json.{str_eq}
use math_anchor.Dimensions.{
  Components, canonical_name, has_name, put, insert_component, sorted_components, comes_before,
}
use text.Mathlib.TextEquality.{eq_iff}

str_eq-sym : (a b : String) → str_eq a b ≡ false → str_eq b a ≡ false
str_eq-sym a b n = elim (Bool-cases (str_eq b a)) [
  | inl same ↦ absurd (false≢true (sym n ∙ (eq_iff a b).1 (sym ((eq_iff b a).0 same))))
  | inr other ↦ other
]

if-swap :
    (a b c : Bool)
    → (if a then true else if b then true else c) ≡ (if b then true else if a then true else c)
if-swap a b c = ground arith

if-twice : (a c : Bool) → (if a then true else c) ≡ (if a then true else if a then true else c)
if-twice a c = ground arith

module _ {ℓ} {A : Type ℓ} where
  -- No two components have the same name; each name is a canonical one.
  abbrev pub Distinct : Components A → Type 0
  Distinct [] = Unit
  Distinct ((k, e) ∷ cs) = (has_name k cs ≡ false) × Distinct cs

  abbrev pub Named : Components A → Type 0
  Named [] = Unit
  Named ((k, e) ∷ cs) = (canonical_name k ≡ ok k) × Named cs

  has_name-insert :
      (n k : String) (e : A) (cs : Components A)
      → has_name n (insert_component (k, e) cs) ≡ (if str_eq k n then true else has_name n cs)
  has_name-insert n k e [] = refl
  has_name-insert n k e ((j, d) ∷ cs) = elim (Bool-cases (comes_before j k)) [
    | inl first ↦ rw first (
        ap (λ x. if str_eq j n then true else x) (has_name-insert n k e cs)
        ∙ if-swap (str_eq j n) (str_eq k n) (has_name n cs))
    | inr later ↦ rw later refl
  ]

  Distinct-insert :
      (k : String) (e : A) (cs : Components A)
      → has_name k cs ≡ false
      → Distinct cs
      → Distinct (insert_component (k, e) cs)
  Distinct-insert k e [] h g = (refl, tt)
  Distinct-insert k e ((j, d) ∷ cs) h (own, rest) = elim (Bool-cases (comes_before j k)) [
    | inl first ↦
        let apart : str_eq j k ≡ false = ground arith in
        let absent : has_name k cs ≡ false = ground arith in
        let back : str_eq k j ≡ false = str_eq-sym j k apart in
        rw first (
          has_name-insert j k e cs ∙ ap (λ x. if x then true else has_name j cs) back ∙ own,
          Distinct-insert k e cs absent rest,
        )
    | inr later ↦ rw later (h, (own, rest))
  ]

  Named-insert :
      (k : String) (e : A) (cs : Components A)
      → canonical_name k ≡ ok k
      → Named cs
      → Named (insert_component (k, e) cs)
  Named-insert k e [] h g = (h, tt)
  Named-insert k e ((j, d) ∷ cs) h (own, rest) = elim (Bool-cases (comes_before j k)) [
    | inl first ↦ rw first (own, Named-insert k e cs h rest)
    | inr later ↦ rw later (h, (own, rest))
  ]

  has_name-sorted :
      (n : String) (cs : Components A) → has_name n (sorted_components cs) ≡ has_name n cs
  has_name-sorted n [] = refl
  has_name-sorted n ((k, e) ∷ cs) =
      has_name-insert n k e (sorted_components cs)
      ∙ ap (λ x. if str_eq k n then true else x) (has_name-sorted n cs)

  pub Distinct-sorted : (cs : Components A) → Distinct cs → Distinct (sorted_components cs)
  Distinct-sorted [] h = tt
  Distinct-sorted ((k, e) ∷ cs) (own, rest) =
      Distinct-insert k e (sorted_components cs) (has_name-sorted k cs ∙ own)
        (Distinct-sorted cs rest)

  pub Named-sorted : (cs : Components A) → Named cs → Named (sorted_components cs)
  Named-sorted [] h = tt
  Named-sorted ((k, e) ∷ cs) (own, rest) =
      Named-insert k e (sorted_components cs) own (Named-sorted cs rest)

  has_name-put :
      (n k : String) (e : A) (cs : Components A)
      → has_name n (put k e cs) ≡ (if str_eq k n then true else has_name n cs)
  has_name-put n k e [] = refl
  has_name-put n k e ((j, d) ∷ cs) = elim (Bool-cases (str_eq j k)) [
    | inl same ↦ rw same (
        subst
          (λ x.
            (if str_eq j n then true else has_name n cs)
            ≡ (if str_eq x n then true else if str_eq j n then true else has_name n cs))
          ((eq_iff j k).0 same) (if-twice (str_eq j n) (has_name n cs)))
    | inr other ↦ rw other (
        ap (λ x. if str_eq j n then true else x) (has_name-put n k e cs)
        ∙ if-swap (str_eq j n) (str_eq k n) (has_name n cs))
  ]

  pub Named-put :
      (k : String) (e : A) (cs : Components A)
      → canonical_name k ≡ ok k
      → Named cs
      → Named (put k e cs)
  Named-put k e [] h g = (h, tt)
  Named-put k e ((j, d) ∷ cs) h (own, rest) = elim (Bool-cases (str_eq j k)) [
    | inl same ↦ rw same (own, rest)
    | inr other ↦ rw other (own, Named-put k e cs h rest)
  ]

  pub Distinct-put : (k : String) (e : A) (cs : Components A) → Distinct cs → Distinct (put k e cs)
  Distinct-put k e [] h = (refl, tt)
  Distinct-put k e ((j, d) ∷ cs) (own, rest) = elim (Bool-cases (str_eq j k)) [
    | inl same ↦ rw same (own, rest)
    | inr other ↦
        let back : str_eq k j ≡ false = str_eq-sym j k other in
        rw other (
          has_name-put j k e cs ∙ ap (λ x. if x then true else has_name j cs) back ∙ own,
          Distinct-put k e cs rest,
        )
  ]
