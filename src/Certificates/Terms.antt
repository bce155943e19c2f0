-- ===== src/Certificates/Terms.antt =====
-- The list of terms of a certificate (src/math_anchor/certificate_checker.py, `_canonical_terms`), by what
-- stands in the JSON: which numbers, which texts, in which order.
use Prim.Native.String.{String, ◌++◌ as ◌+++◌}
use math_anchor.Base.{
  ℕ, ◌≡◌, ◌≢◌, ◌<◌, ◌⊎◌, inl, inr, refl, sym, ap, ◌∙◌, arith, Bool, true, false, ◌&&◌, Bool-cases,
  false≢true, Option, none, some, List, [], ◌∷◌, All, ◌==◌, ==_iff, lt→ltb,
}
use math_anchor.Base.Int.{pos, negsuc}
use math_anchor.Base.Json.{
  Json, null, boolean, integer, float, string, array, object, Items, Fields, end, field, get,
  to_list, str_eq, is_text,
}
use math_anchor.Errors.{one_of}
use math_anchor.Certificates.Coefficients.{Fractions}
use math_anchor.Certificates.{Polynomial}
use math_anchor.Certificates.Verify.{
  Checker, keys_among, all_there, has_exactly, powers_gt, insert_term, sorted_terms, number_is,
  numbers_are, powers_are, term_is, fraction_text, terms_are,
}
use mathlib.Core.List.{Permᴰ}
use mathlib.Core.List.Permᴰ
use text.Mathlib.TextEquality.{eq_iff}

-- left > right, for tuples.
pub data Above : List ℕ → List ℕ → Type 0 where
  longer : {a : ℕ} {ks : List ℕ} → Above (a ∷ ks) []
  first_above : {a b : ℕ} {ks js : List ℕ} → b < a → Above (a ∷ ks) (b ∷ js)
  rest_above : {a b : ℕ} {ks js : List ℕ} → a ≡ b → Above ks js → Above (a ∷ ks) (b ∷ js)

Above-powers_gt : {ks js : List ℕ} → Above ks js → powers_gt ks js ≡ true
Above-powers_gt longer = refl
Above-powers_gt (first_above {a} {b} h) = rw (lt→ltb b a h) refl
Above-powers_gt (rest_above {a} {b} e h) = rw ((==_iff a b).1 e, Above-powers_gt h) (ground arith)

powers_gt-asym : (ks js : List ℕ) → powers_gt ks js ≡ true → powers_gt js ks ≡ false
powers_gt-asym [] js h = absurd (cc)
powers_gt-asym (a ∷ ks) [] h = refl
powers_gt-asym (a ∷ ks) (b ∷ js) h = ground (arith, powers_gt-asym ks js)

not-Above : (ks js : List ℕ) → powers_gt ks js ≡ false → ¬ (Above ks js)
not-Above ks js n h = false≢true (sym n ∙ Above-powers_gt h)

module _ {ℓ} {A : Type ℓ} where
  -- No term stands right before one whose powers are above its own.
  abbrev pub Leads : List ℕ × A → Polynomial A → Type 0
  Leads t [] = Unit
  Leads t (u ∷ us) = ¬ (Above u.0 t.0)

  abbrev pub Descending : Polynomial A → Type 0
  Descending [] = Unit
  Descending (t ∷ ts) = Leads t ts × Descending ts

  Leads-insert :
      (s t : List ℕ × A) (us : Polynomial A)
      → ¬ (Above t.0 s.0)
      → Leads s us
      → Leads s (insert_term t us)
  Leads-insert s t [] h g = h
  Leads-insert s t (u ∷ us) h g = elim (Bool-cases (powers_gt u.0 t.0)) [
    | inl above ↦ rw above g
    | inr below ↦ rw below h
  ]

  Descending-insert :
      (t : List ℕ × A) (us : Polynomial A) → Descending us → Descending (insert_term t us)
  Descending-insert t [] h = (tt, tt)
  Descending-insert t (u ∷ us) (leads, rest) = elim (Bool-cases (powers_gt u.0 t.0)) [
    | inl above ↦ rw above (
      Leads-insert u t us (not-Above t.0 u.0 (powers_gt-asym u.0 t.0 above)) leads,
      Descending-insert t us rest,
    )
    | inr below ↦ rw below (not-Above u.0 t.0 below, (leads, rest))
  ]

  pub Descending-sorted : (d : Polynomial A) → Descending (sorted_terms d)
  Descending-sorted [] = tt
  Descending-sorted (t ∷ ts) = Descending-insert t (sorted_terms ts) (Descending-sorted ts)

  insert_term-Perm : (t : List ℕ × A) (us : Polynomial A) → Permᴰ (insert_term t us) (t ∷ us)
  insert_term-Perm t [] = Permᴰ.refl (t ∷ [])
  insert_term-Perm t (u ∷ us) = elim (Bool-cases (powers_gt u.0 t.0)) [
    | inl above ↦
        rw above (Permᴰ.trans (Permᴰ.cons refl (insert_term-Perm t us)) (Permᴰ.swap refl refl))
    | inr below ↦ rw below (Permᴰ.refl (t ∷ u ∷ us))
  ]

  pub sorted_terms-Perm : (d : Polynomial A) → Permᴰ (sorted_terms d) d
  sorted_terms-Perm [] = Permᴰ.nil
  sorted_terms-Perm (t ∷ ts) =
      Permᴰ.trans (insert_term-Perm t (sorted_terms ts)) (Permᴰ.cons refl (sorted_terms-Perm ts))

-- The names of a dict's items.
abbrev pub names_of : Json → List String
names_of (object end) = []
names_of (object (field k v fs)) = k ∷ names_of (object fs)
names_of _ = []

module _ (checker : Checker) where
  -- A JSON value that Python takes as equal to a natural number.
  pub data IsNumber : Json → ℕ → Type 0 where
    whole : {m n : ℕ} → m ≡ n → IsNumber (integer (pos m)) n
    yes_number : {n : ℕ} → n ≡ 1 → IsNumber (boolean true) n
    no_number : {n : ℕ} → n ≡ 0 → IsNumber (boolean false) n
    equal_float : {i n : ℕ} → checker.float_is i n ≡ true → IsNumber (float i true) n

  pub data AreNumbers : List Json → List ℕ → Type 0 where
    no_more : AreNumbers [] []
    one_more :
        {x : Json} {n : ℕ} {xs : List Json} {ns : List ℕ}
        → IsNumber x n
        → AreNumbers xs ns
        → AreNumbers (x ∷ xs) (n ∷ ns)

  -- A term of the list: the powers, the coefficient's text, and nothing else.
  pub record IsTerm (x : Json) (powers : List ℕ) (text : String) : Type 0 where
    pub items : Items
    pub powers_there : get "powers" x ≡ some (array items)
    pub powers_equal : AreNumbers (to_list items) powers
    pub coefficient_there : get "coefficient" x ≡ some (string text)
    pub no_other : All (λ name. (name ≡ "powers") ⊎ (name ≡ "coefficient")) (names_of x)

  and-true : (a b : Bool) → (a && b) ≡ true → (a ≡ true) × (b ≡ true)
  and-true a b h = ground arith

  number_is-IsNumber : (x : Json) (n : ℕ) → number_is checker x n ≡ true → IsNumber x n
  number_is-IsNumber (integer (pos m)) n h = whole ((==_iff m n).0 h)
  number_is-IsNumber (integer (negsuc m)) n h = absurd (cc)
  number_is-IsNumber (boolean true) n h = yes_number (sym ((==_iff 1 n).0 h))
  number_is-IsNumber (boolean false) n h = no_number (sym ((==_iff 0 n).0 h))
  number_is-IsNumber (float i true) n h = equal_float h
  number_is-IsNumber (float i false) n h = absurd (cc)
  number_is-IsNumber null n h = absurd (cc)
  number_is-IsNumber (string s) n h = absurd (cc)
  number_is-IsNumber (array xs) n h = absurd (cc)
  number_is-IsNumber (object fs) n h = absurd (cc)

  numbers_are-AreNumbers :
      (xs : List Json) (ns : List ℕ) → numbers_are checker xs ns ≡ true → AreNumbers xs ns
  numbers_are-AreNumbers [] [] h = no_more
  numbers_are-AreNumbers [] (n ∷ ns) h = absurd (cc)
  numbers_are-AreNumbers (x ∷ xs) [] h = absurd (cc)
  numbers_are-AreNumbers (x ∷ xs) (n ∷ ns) h =
      let (own, rest) = and-true (number_is checker x n) (numbers_are checker xs ns) h in
      one_more (number_is-IsNumber x n own) (numbers_are-AreNumbers xs ns rest)

  powers_are-there :
      (o : Option Json) (ks : List ℕ)
      → powers_are checker o ks ≡ true
      → (items : Items) × (o ≡ some (array items)) × AreNumbers (to_list items) ks
  powers_are-there (some (array xs)) ks h = (xs, refl, numbers_are-AreNumbers (to_list xs) ks h)
  powers_are-there none ks h = absurd (cc)
  powers_are-there (some null) ks h = absurd (cc)
  powers_are-there (some (boolean b)) ks h = absurd (cc)
  powers_are-there (some (integer n)) ks h = absurd (cc)
  powers_are-there (some (float i finite)) ks h = absurd (cc)
  powers_are-there (some (string s)) ks h = absurd (cc)
  powers_are-there (some (object fs)) ks h = absurd (cc)

  is_text-eq : (o : Option Json) (s : String) → is_text o s ≡ true → o ≡ some (string s)
  is_text-eq (some (string t)) s h = ap (λ x. some (string x)) ((eq_iff t s).0 h)
  is_text-eq none s h = absurd (cc)
  is_text-eq (some null) s h = absurd (cc)
  is_text-eq (some (boolean b)) s h = absurd (cc)
  is_text-eq (some (integer n)) s h = absurd (cc)
  is_text-eq (some (float i finite)) s h = absurd (cc)
  is_text-eq (some (array xs)) s h = absurd (cc)
  is_text-eq (some (object fs)) s h = absurd (cc)

  one_of-two : (s a b : String) → one_of s (a ∷ b ∷ []) ≡ true → (s ≡ a) ⊎ (s ≡ b)
  one_of-two s a b h = elim (Bool-cases (str_eq s a)) [
    | inl e ↦ inl ((eq_iff s a).0 e)
    | inr n ↦ elim (Bool-cases (str_eq s b)) [
      | inl e ↦ inr ((eq_iff s b).0 e)
      | inr m ↦ absurd (false≢true (rw (n, m) at h))
    ]
  ]

  keys_among-names :
      (fs : Fields)
      → keys_among ("powers" ∷ "coefficient" ∷ []) fs ≡ true
      → All (λ name. (name ≡ "powers") ⊎ (name ≡ "coefficient")) (names_of (object fs))
  keys_among-names end h = tt
  keys_among-names (field k v fs) h =
      let (own, rest) =
        and-true (one_of k ("powers" ∷ "coefficient" ∷ []))
          (keys_among ("powers" ∷ "coefficient" ∷ []) fs) h in
      (one_of-two k "powers" "coefficient" own, keys_among-names fs rest)

  has_exactly-names :
      (x : Json)
      → has_exactly ("powers" ∷ "coefficient" ∷ []) x ≡ true
      → All (λ name. (name ≡ "powers") ⊎ (name ≡ "coefficient")) (names_of x)
  has_exactly-names (object fs) h =
      keys_among-names fs
        (and-true (keys_among ("powers" ∷ "coefficient" ∷ []) fs)
          (all_there ("powers" ∷ "coefficient" ∷ []) fs) h).0
  has_exactly-names null h = tt
  has_exactly-names (boolean b) h = tt
  has_exactly-names (integer n) h = tt
  has_exactly-names (float i finite) h = tt
  has_exactly-names (string s) h = tt
  has_exactly-names (array xs) h = tt

  term_is-IsTerm :
      (x : Json) (ks : List ℕ) (text : String) → term_is checker x ks text ≡ true → IsTerm x ks text
  term_is-IsTerm x ks text h =
      let exact = has_exactly ("powers" ∷ "coefficient" ∷ []) x in
      let numbers = powers_are checker (get "powers" x) ks in
      let named = is_text (get "coefficient" x) text in
      let (keys, rest) = and-true exact (numbers && named) (ground (arith, h)) in
      let (powers, coefficient) = and-true numbers named rest in
      let (items, there, equal) = powers_are-there (get "powers" x) ks powers in
      record {
        items = items;
        powers_there = there;
        powers_equal = equal;
        coefficient_there = is_text-eq (get "coefficient" x) text coefficient;
        no_other = has_exactly-names x keys;
      }

  module _ {ℓ} {A : Type ℓ} ⦃f : Fractions A⦄ where
    -- The text of a coefficient: an integer, or a numerator over a denominator.
    pub data IsText (c : A) (text : String) : Type 0 where
      integral : f.denominator c ≡ 1 → text ≡ checker.str_int (f.numerator c) → IsText c text
      fractional :
          f.denominator c ≢ 1
          → text
            ≡ checker.str_int (f.numerator c) +++ "/" +++ checker.str_int (pos (f.denominator c))
          → IsText c text

    pub data Lists : List Json → Polynomial A → Type ℓ where
      no_terms : Lists [] []
      one_term :
          {x : Json} {ks : List ℕ} {c : A} {text : String} {xs : List Json} {p : Polynomial A}
          → IsText c text
          → IsTerm x ks text
          → Lists xs p
          → Lists (x ∷ xs) ((ks, c) ∷ p)

    fraction_text-IsText : (c : A) → IsText c (fraction_text checker c)
    fraction_text-IsText c = elim (Bool-cases (f.denominator c == 1)) [
      | inl one ↦ rw one (integral ((==_iff (f.denominator c) 1).0 one) refl)
      | inr more ↦
          rw more (fractional (λ e. false≢true (sym more ∙ (==_iff (f.denominator c) 1).1 e)) refl)
    ]

    pub terms_are-Lists :
        (xs : List Json) (p : Polynomial A) → terms_are checker xs p ≡ true → Lists xs p
    terms_are-Lists [] [] h = no_terms
    terms_are-Lists [] (t ∷ p) h = absurd (cc)
    terms_are-Lists (x ∷ xs) [] h = absurd (cc)
    terms_are-Lists (x ∷ xs) ((ks, c) ∷ p) h =
        let (own, rest) =
          and-true (term_is checker x ks (fraction_text checker c)) (terms_are checker xs p) h in
        one_term (fraction_text-IsText c) (term_is-IsTerm x ks (fraction_text checker c) own)
          (terms_are-Lists xs p rest)
