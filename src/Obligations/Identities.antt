-- ===== src/Obligations/Identities.antt =====
-- Polynomial obligations of src/math_anchor/obligations.py over the certificate checker
-- (src/math_anchor/certificate_checker.py).
use Prim.Native.String.{String}
use text.Mathlib.TextEquality.{eq_iff}
use math_anchor.Base.{
  ◌≡◌, refl, ap, ◌∙◌, arith, subst, Bool, true, false, ◌&&◌, Bool-cases, inl, inr, Option, none,
  some, List, [], ◌∷◌, if◌then◌else◌, map, Result, ok, err,
}
use math_anchor.Base.Json.{Json, string, get, or_null, is_text, str_eq}
use math_anchor.Obligations.{Obligation}
use math_anchor.Obligations.Answers.{texts_of, text_of, texts_eq, same_texts}
use math_anchor.Obligations.Entries.{checked, falsified, unknown, Verified, Services}
use math_anchor.Obligations.Findings.{
  statement_of, expected_statement, states, polynomial_answer, polynomial_finding,
}
use math_anchor.Certificates.Coefficients.{Fractions}
use math_anchor.Certificates.Parser.{Expression}
use math_anchor.Certificates.Soundness.{value}
use math_anchor.Certificates.Verify.{Checker, verify_polynomial_identity_certificate}
use math_anchor.Certificates.Identity.{States, verify-identity}

-- The answer of the checker, for a certificate that is there.
abbrev pub accepted : Result Verified → Option Verified
accepted (ok v) = some v
accepted (err code) = none

abbrev pub checked_by {ℓ} : {A : Type ℓ} → Fractions A → Checker → Option Json → Option Verified
checked_by f checker certificate =
    accepted (verify_polynomial_identity_certificate f checker (or_null certificate))

-- The services whose certificates are checked by the checker.
abbrev pub with_checker {ℓ} : {A : Type ℓ} → Fractions A → Checker → Services → Services
with_checker f checker services = record services { verify = checked_by f checker }

-- A claim whose two sides parse, once they are normalized, over its variables without their spaces.
pub record Claims (services : Services) (checker : Checker) (claim : Json) (variables : List String)
    (left right : Expression) : Type 0 where
  pub left_text : String
  pub right_text : String
  pub names : List String
  pub left_there : text_of (get "left" claim) ≡ some left_text
  pub right_there : text_of (get "right" claim) ≡ some right_text
  pub names_there : texts_of (get "variables" claim) ≡ some names
  pub stripped : map services.strip names ≡ variables
  pub left_parsed : checker.parse_source (services.normalize left_text) ≡ some left
  pub right_parsed : checker.parse_source (services.normalize right_text) ≡ some right

is_text-some : (o : Option Json) (s : String) → is_text o s ≡ true → o ≡ some (string s)
is_text-some none s h = absurd (cc)
is_text-some (some (string t)) s h = ap (λ x. some (string x)) ((eq_iff t s).0 h)
is_text-some (some Json.null) s h = absurd (cc)
is_text-some (some (Json.boolean b)) s h = absurd (cc)
is_text-some (some (Json.integer n)) s h = absurd (cc)
is_text-some (some (Json.float i finite)) s h = absurd (cc)
is_text-some (some (Json.array xs)) s h = absurd (cc)
is_text-some (some (Json.object fs)) s h = absurd (cc)

texts_eq→≡ : (ss ts : List String) → texts_eq ss ts ≡ true → ss ≡ ts
texts_eq→≡ [] [] h = refl
texts_eq→≡ [] (t ∷ ts) h = absurd (cc)
texts_eq→≡ (s ∷ ss) [] h = absurd (cc)
texts_eq→≡ (s ∷ ss) (t ∷ ts) h = elim (Bool-cases (str_eq s t)) [
  | inl e ↦ rw ((eq_iff s t).0 e) (ap (λ x. t ∷ x) (texts_eq→≡ ss ts (rw e at h)))
  | inr n ↦ absurd (ne (rw n at h))
]
  where
    ne : false ≡ true → ⊥
    ne k = cc

same_texts-some :
    (o : Option (List String)) (ts : List String) → same_texts o ts ≡ true → o ≡ some ts
same_texts-some none ts h = absurd (cc)
same_texts-some (some ss) ts h = ap some (texts_eq→≡ ss ts h)

three_parts : (a b c : Bool) → (a && b && c) ≡ true → (a ≡ true) × (b ≡ true) × (c ≡ true)
three_parts a b c h = ground arith

accepted-some : (r : Result Verified) {v : Verified} → accepted r ≡ some v → r ≡ ok v
accepted-some (ok w) h = cc
accepted-some (err code) h = absurd (cc)

status_of : (b : Bool) → (if b then checked else falsified) ≡ checked → b ≡ true
status_of true h = refl
status_of false h = absurd (cc)

-- A polynomial claim that is checked: the checker took the certificate as an identity, of the claim's
-- statement.
polynomial_answer-checked :
    (services : Services) (o : Obligation) (raw : Json) (r : Option Verified)
    → (polynomial_answer services o raw r).status ≡ checked
    → (v : Verified) × (r ≡ some v)
      × (v.identity ≡ true)
      × (states services
            (or_null (get "statement" (or_null (get "certificate" raw))))
            (expected_statement services o.claim)
          ≡ true)
polynomial_answer-checked services o raw none h = absurd (cc)
polynomial_answer-checked services o raw (some v) h =
    let statement = or_null (get "statement" (or_null (get "certificate" raw))) in
    elim (Bool-cases (states services statement (expected_statement services o.claim))) [
      | inl s ↦ (v, refl, status_of v.identity (rw s at h), s)
      | inr n ↦ absurd (ne (rw n at h))
    ]
  where
    ne : unknown ≡ checked → ⊥
    ne k = cc

module _ (services : Services) (checker : Checker) (variables : List String)
    (left right : Expression) where
  claimed_statement :
      (claim : Json) (c : Claims services checker claim variables left right)
      → expected_statement services claim
        ≡ some (services.normalize c.left_text, services.normalize c.right_text, variables)
  claimed_statement claim c =
      ap
        (λ l.
          statement_of services l (text_of (get "right" claim)) (texts_of (get "variables" claim)))
        c.left_there
      ∙ ap (λ r. statement_of services (some c.left_text) r (texts_of (get "variables" claim)))
          c.right_there
      ∙ ap (statement_of services (some c.left_text) (some c.right_text)) c.names_there
      ∙ ap (λ vs. some (services.normalize c.left_text, services.normalize c.right_text, vs))
          c.stripped

  states-States :
      (claim statement : Json)
      → Claims services checker claim variables left right
      → states services statement (expected_statement services claim) ≡ true
      → States checker statement variables left right
  states-States claim statement c h =
      let s = subst (λ e. states services statement e ≡ true) (claimed_statement claim c) h in
      let is_left = is_text (get "left" statement) (services.normalize c.left_text) in
      let is_right = is_text (get "right" statement) (services.normalize c.right_text) in
      let is_named = same_texts (texts_of (get "variables" statement)) variables in
      let (l, r, names) = three_parts is_left is_right is_named s in
      record {
        left_text = services.normalize c.left_text;
        right_text = services.normalize c.right_text;
        variables_there = same_texts-some (texts_of (get "variables" statement)) variables names;
        left_there = is_text-some (get "left" statement) _ l;
        right_there = is_text-some (get "right" statement) _ r;
        left_parsed = c.left_parsed;
        right_parsed = c.right_parsed;
      }

-- A polynomial obligation whose entry is checked: the two sides of its claim have the same value at
-- every point, whatever the provider answered. Assumed: the sides of the claim are texts that parse
-- once normalized, and its variables are texts.
pub polynomial_finding-value {ℓ} :
    {A : Type ℓ} (f : Fractions A) (services : Services) (checker : Checker) (o : Obligation)
    (raw : Json) (variables : List String) (left right : Expression) (point : List A)
    → (polynomial_finding (with_checker f checker services) o raw).status ≡ checked
    → Claims services checker o.claim variables left right
    → value ⦃f = f⦄ variables point left ≡ value ⦃f = f⦄ variables point right
unfolding polynomial_finding
polynomial_finding-value f services checker o raw variables left right point h c =
    let certificate = or_null (get "certificate" raw) in
    let (v, taken, holds, s) =
      polynomial_answer-checked (with_checker f checker services) o raw
        (checked_by f checker (get "certificate" raw)) h in
    verify-identity f checker certificate variables left right point
      (accepted-some (verify_polynomial_identity_certificate f checker certificate) taken) holds
      (states-States services checker variables left right o.claim
        (or_null (get "statement" certificate)) c s)
