-- ===== src/Certificates/Identity.antt =====
-- What a certificate that `verify_polynomial_identity_certificate` (src/math_anchor/certificate_checker.py)
-- takes establishes.
use Prim.Native.String.{String, count}
use math_anchor.Base.{
  ℕ, ◌≡◌, refl, sym, ap, ap₂, ◌∙◌, arith, subst, Bool, true, false, false≢true, ◌↔◌, Bool-cases,
  inl, inr, Option, none, some, List, [], ◌∷◌, length, ok, err, certificate_invalid, ◌>>=◌,
  >>=-eq-ok, require-eq-ok, ok_inj, leb,
}
use math_anchor.Base.Int.{negsuc}
use math_anchor.Base.Json.{
  Json, null, boolean, integer, float, string, array, object, Items, to_list, get, bool_eq,
}
use math_anchor.Certificates.Terms.{
  Descending, Lists, Descending-sorted, sorted_terms-Perm, terms_are-Lists,
}
use mathlib.Core.List.{Permᴰ}
use math_anchor.Obligations.Answers.{texts_of}
use math_anchor.Obligations.Entries.{Verified}
use math_anchor.Certificates.Coefficients.{
  Fractions, ◌⊕◌, zero_of, add-neg, add_cancel, minus_one-mul,
}
use math_anchor.Certificates.{Polynomial, add, max_certificate_terms}
use math_anchor.Certificates.Evaluation.{evaluate, evaluate-add}
use math_anchor.Certificates.Parser.{Expression}
use math_anchor.Certificates.Soundness.{value, evaluate-visit}
use math_anchor.Certificates.Verify.{
  Checker, variables_of, checked_variables, valid_variables, bool_of, list_of, statement_of,
  has_format, has_digests, sorted_terms, terms_are, parse_expression, parse, difference_of,
  is_empty, verify_polynomial_identity_certificate,
}

-- The statement of a certificate: its variables, its texts, and what they parse to.
pub record States (checker : Checker) (statement : Json) (variables : List String)
    (left right : Expression) : Type 0 where
  pub left_text : String
  pub right_text : String
  pub variables_there : texts_of (get "variables" statement) ≡ some variables
  pub left_there : get "left" statement ≡ some (string left_text)
  pub right_there : get "right" statement ≡ some (string right_text)
  pub left_parsed : checker.parse_source left_text ≡ some left
  pub right_parsed : checker.parse_source right_text ≡ some right

checked_variables-ok :
    (o : Option (List String)) {vs : List String} → checked_variables o ≡ ok vs → o ≡ some vs
checked_variables-ok none h = absurd (cc)
checked_variables-ok (some ws) {vs} h = elim (Bool-cases (valid_variables ws)) [
  | inl v ↦ ap some (ok_inj (rw v at h))
  | inr n ↦ absurd (ne (rw n at h))
]
  where
    ne : err certificate_invalid ≡ ok vs → ⊥
    ne k = cc

some_inj {ℓ} : {A : Type ℓ} {x y : A} → some x ≡ some y → x ≡ y
some_inj h = cc

module _ {ℓ} {A : Type ℓ} ⦃f : Fractions A⦄ (checker : Checker) where
  evaluate-parse :
      (point : List A) (variables : List String) (s : String) (e : Expression) (nodes : ℕ)
      {p : Polynomial A} {seen : ℕ}
      → checker.parse_source s ≡ some e
      → parse checker variables (some (string s)) nodes ≡ ok (p, seen)
      → evaluate point p ≡ value variables point e
  evaluate-parse point variables s e nodes {p} {seen} parsed h =
      let (_, h₁) = require-eq-ok (leb (count s) 4_096) certificate_invalid _ h in
      evaluate-visit variables point e nodes
        (subst (λ o. parse_expression variables o nodes ≡ ok (p, seen)) parsed h₁)

  -- The difference polynomial is left minus right.
  evaluate-difference_of :
      (point : List A) (variables : List String) (statement : Json) (left right : Expression)
      {d : Polynomial A}
      → States checker statement variables left right
      → difference_of checker variables statement ≡ ok d
      → evaluate point d ≡ value variables point left ⊕ f.neg (value variables point right)
  evaluate-difference_of point variables statement left right {d} s h =
      let h₀ : (parse checker variables (some (string s.left_text)) 0 >>= λ l.
      (parse checker variables (some (string s.right_text)) l.1 >>= λ r. add l.0 r.0 (negsuc 0)))
          ≡ ok d =
        subst
          (λ o.
            (parse checker variables (some (string s.left_text)) 0 >>= λ l.
            (parse checker variables o l.1 >>= λ r. add l.0 r.0 (negsuc 0)))
            ≡ ok d)
          s.right_there
          (subst
            (λ o.
              (parse checker variables o 0 >>= λ l.
              (parse checker variables (get "right" statement) l.1 >>= λ r. add l.0 r.0 (negsuc 0)))
              ≡ ok d)
            s.left_there h) in
      let (l, visited_left, h₁) =
        >>=-eq-ok (parse checker variables (some (string s.left_text)) 0) _ h₀ in
      let (r, visited_right, h₂) =
        >>=-eq-ok (parse checker variables (some (string s.right_text)) l.1) _ h₁ in
      evaluate-add point l.0 r.0 (negsuc 0) h₂
      ∙ ap (λ x. evaluate point l.0 ⊕ x) (minus_one-mul (evaluate point r.0))
      ∙ ap₂ (λ a b. a ⊕ f.neg b)
          (evaluate-parse point variables s.left_text left 0 s.left_parsed visited_left)
          (evaluate-parse point variables s.right_text right l.1 s.right_parsed visited_right)

  minus_zero : (a b : A) → a ⊕ f.neg b ≡ zero_of → a ≡ b
  minus_zero a b h = add_cancel a (f.neg b) b (h ∙ sym (add-neg b))

  empty-zero : (point : List A) (d : Polynomial A) → is_empty d ≡ true → evaluate point d ≡ zero_of
  empty-zero point [] h = refl
  empty-zero point (t ∷ p) h = absurd (cc)

bool_eq→≡ : (a b : Bool) → bool_eq a b ≡ true → a ≡ b
bool_eq→≡ a b h = ground arith

-- What was found of a certificate on the way to its answer.
pub record Found {ℓ} {A : Type ℓ} (f : Fractions A) (checker : Checker) (certificate : Json)
    (v : Verified) : Type ℓ where
  pub variables : List String
  pub there : texts_of (get "variables" (statement_of certificate)) ≡ some variables
  pub difference : Polynomial A
  pub made : difference_of checker ⦃f = f⦄ variables (statement_of certificate) ≡ ok difference
  pub claimed : List Json
  pub listed : list_of (get "normalizedDifference" certificate) ≡ ok claimed
  pub same_terms : terms_are checker ⦃f = f⦄ claimed (sorted_terms difference) ≡ true
  pub exact : v.identity ≡ is_empty difference
  pub called : bool_of (get "identity" certificate) ≡ ok v.identity

pub verify-Found {ℓ} :
    {A : Type ℓ} (f : Fractions A) (checker : Checker) (certificate : Json) {v : Verified}
    → verify_polynomial_identity_certificate f checker certificate ≡ ok v
    → Found f checker certificate v
unfolding verify_polynomial_identity_certificate
verify-Found f checker certificate {v} h =
    let statement = statement_of certificate in
    let (_, h₁) = require-eq-ok (has_format certificate) certificate_invalid _ h in
    let (variables, named, h₂) = >>=-eq-ok (variables_of (get "variables" statement)) _ h₁ in
    let (_, h₃) = require-eq-ok (has_digests checker certificate) certificate_invalid _ h₂ in
    let (claimed_identity, called, h₄) = >>=-eq-ok (bool_of (get "identity" certificate)) _ h₃ in
    let (claimed, listed, h₅) = >>=-eq-ok (list_of (get "normalizedDifference" certificate)) _ h₄ in
    let (_, h₆) =
      require-eq-ok (leb (length claimed) max_certificate_terms) certificate_invalid _ h₅ in
    let (difference, made, h₇) =
      >>=-eq-ok (difference_of checker ⦃f = f⦄ variables statement) _ h₆ in
    let (same_terms, h₈) =
      require-eq-ok (terms_are checker ⦃f = f⦄ claimed (sorted_terms difference))
        certificate_invalid _ h₇ in
    let (agrees, h₉) =
      require-eq-ok (bool_eq claimed_identity (is_empty difference)) certificate_invalid _ h₈ in
    record {
      variables = variables;
      there = checked_variables-ok (texts_of (get "variables" statement)) named;
      difference = difference;
      made = made;
      claimed = claimed;
      listed = listed;
      same_terms = same_terms;
      exact = sym (ap (λ w. w.identity) (ok_inj h₉));
      called =
          called
          ∙ ap ok (
              bool_eq→≡ claimed_identity (is_empty difference) agrees
              ∙ ap (λ w. w.identity) (ok_inj h₉));
    }

-- A certificate that `verify_polynomial_identity_certificate` takes as an identity: the two sides of
-- its statement have the same value at every point.
pub verify-identity {ℓ} :
    {A : Type ℓ} (f : Fractions A) (checker : Checker) (certificate : Json) {v : Verified}
    (variables : List String) (left right : Expression) (point : List A)
    → verify_polynomial_identity_certificate f checker certificate ≡ ok v
    → v.identity ≡ true
    → States checker (statement_of certificate) variables left right
    → value ⦃f = f⦄ variables point left ≡ value ⦃f = f⦄ variables point right
verify-identity f checker certificate variables left right point h holds s =
    let found = verify-Found f checker certificate h in
    let named : found.variables ≡ variables = some_inj (sym found.there ∙ s.variables_there) in
    let made =
      ap (λ vs. difference_of checker ⦃f = f⦄ vs (statement_of certificate)) (sym named)
      ∙ found.made in
    minus_zero ⦃f = f⦄ checker _ _ (
      sym (
        evaluate-difference_of ⦃f = f⦄ checker point variables (statement_of certificate) left right
          s made)
      ∙ empty-zero ⦃f = f⦄ checker point found.difference (sym found.exact ∙ holds))

list_of-there :
    (o : Option Json) {xs : List Json}
    → list_of o ≡ ok xs
    → (items : Items) × (o ≡ some (array items)) × (to_list items ≡ xs)
list_of-there (some (array items)) h = (items, refl, ok_inj h)
list_of-there none h = absurd (cc)
list_of-there (some null) h = absurd (cc)
list_of-there (some (boolean b)) h = absurd (cc)
list_of-there (some (integer n)) h = absurd (cc)
list_of-there (some (float i finite)) h = absurd (cc)
list_of-there (some (string t)) h = absurd (cc)
list_of-there (some (object fs)) h = absurd (cc)

bool_of-there : (o : Option Json) {b : Bool} → bool_of o ≡ ok b → o ≡ some (boolean b)
bool_of-there (some (boolean c)) h = ap (λ x. some (boolean x)) (ok_inj h)
bool_of-there none h = absurd (cc)
bool_of-there (some null) h = absurd (cc)
bool_of-there (some (integer n)) h = absurd (cc)
bool_of-there (some (float i finite)) h = absurd (cc)
bool_of-there (some (string t)) h = absurd (cc)
bool_of-there (some (array xs)) h = absurd (cc)
bool_of-there (some (object fs)) h = absurd (cc)

is_empty-nil {ℓ} :
    {A : Type ℓ} (d : Polynomial A) {b : Bool} → b ≡ is_empty d → (b ≡ true) ↔ (d ≡ [])
is_empty-nil [] e = (λ h. refl, λ h. e)
is_empty-nil (t ∷ p) e =
    (λ h. absurd (false≢true (sym e ∙ h)), λ h. absurd (true_false (ap is_empty h)))
  where
    true_false : false ≡ true → ⊥
    true_false = false≢true

-- What a certificate says of the two sides of its statement: one polynomial that is their difference
-- at every point, and the terms of that polynomial, each once, in descending order.
pub record Says {ℓ} {A : Type ℓ} (f : Fractions A) (checker : Checker) (certificate : Json)
    (variables : List String) (left right : Expression) (v : Verified) : Type ℓ where
  pub difference : Polynomial A
  pub value_at :
      (point : List A)
      → evaluate ⦃f = f⦄ point difference
        ≡ f.add (value ⦃f = f⦄ variables point left) (f.neg (value ⦃f = f⦄ variables point right))
  pub items : Items
  pub items_there : get "normalizedDifference" certificate ≡ some (array items)
  pub terms : Polynomial A
  pub rearranged : Permᴰ terms difference
  pub descending : Descending terms
  pub lists : Lists checker ⦃f = f⦄ (to_list items) terms
  pub called : get "identity" certificate ≡ some (boolean v.identity)
  pub identity : (v.identity ≡ true) ↔ (difference ≡ [])

-- A certificate that `verify_polynomial_identity_certificate` takes, for a statement whose sides are
-- texts that parse: there is one polynomial that at every point has the value of the left side less
-- the value of the right side, and the certificate's list is a list of its terms, each with its powers
-- and the text of its coefficient and no other field, none before a term whose powers are above its
-- own; the certificate calls itself an identity, and is answered to be one, just where that
-- polynomial has no terms.
pub verify-difference {ℓ} :
    {A : Type ℓ} (f : Fractions A) (checker : Checker) (certificate : Json) {v : Verified}
    (variables : List String) (left right : Expression)
    → verify_polynomial_identity_certificate f checker certificate ≡ ok v
    → States checker (statement_of certificate) variables left right
    → Says f checker certificate variables left right v
verify-difference f checker certificate variables left right h s =
    let found = verify-Found f checker certificate h in
    let named : found.variables ≡ variables = some_inj (sym found.there ∙ s.variables_there) in
    let made =
      ap (λ vs. difference_of checker ⦃f = f⦄ vs (statement_of certificate)) (sym named)
      ∙ found.made in
    let (items, there, same) =
      list_of-there (get "normalizedDifference" certificate) found.listed in
    record {
      difference = found.difference;
      value_at = λ point.
          evaluate-difference_of ⦃f = f⦄ checker point variables (statement_of certificate) left
            right s made;
      items = items;
      items_there = there;
      terms = sorted_terms found.difference;
      rearranged = sorted_terms-Perm found.difference;
      descending = Descending-sorted found.difference;
      lists = terms_are-Lists checker ⦃f = f⦄ (to_list items) (sorted_terms found.difference) (
          ap (λ xs. terms_are checker ⦃f = f⦄ xs (sorted_terms found.difference)) same
          ∙ found.same_terms);
      called = bool_of-there (get "identity" certificate) found.called;
      identity = is_empty-nil found.difference found.exact;
    }
