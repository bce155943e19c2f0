-- ===== src/Certificates/Verify.antt =====
-- `verify_polynomial_identity_certificate` of src/math_anchor/certificate_checker.py, on JSON.
use Prim.Native.Char.{code}
use Prim.Native.String.{String, count, ◌++◌ as ◌+++◌}
use math_anchor.Base.{
  ℕ, zero, suc, Bool, true, false, ◌&&◌, ◌||◌, not, Option, none, some, List, [], ◌∷◌, leb, ltb,
  ◌==◌, if◌then◌else◌, length, Result, ok, err, certificate_invalid, require, ◌>>=◌, ◌>>◌,
}
use math_anchor.Base.Int.{ℤ, pos, negsuc}
use math_anchor.Base.Json.{
  Json, boolean, integer, float, string, array, object, Fields, end, field, get, get_field, without,
  or_null, is_text, str_eq, bool_eq, to_list,
}
use math_anchor.Errors.{one_of}
use math_anchor.Obligations.Answers.{texts_of}
use math_anchor.Obligations.Entries.{Verified}
use math_anchor.Certificates.Coefficients.{Fractions}
use math_anchor.Certificates.{Polynomial, add, max_certificate_terms}
use math_anchor.Certificates.Parser.{Expression, visit}

-- The digest of a value's canonical JSON, `ast.parse` (`none` for a SyntaxError), `str` of an
-- integer, and whether a float is equal to a natural number.
pub record Checker : Type 0 where
  pub digest : Json → String
  pub parse_source : String → Option Expression
  pub str_int : ℤ → String
  pub float_is : ℕ → ℕ → Bool

-- set(d) == names, for a dict
abbrev pub keys_among : List String → Fields → Bool
keys_among names end = true
keys_among names (field j v fs) = one_of j names && keys_among names fs

abbrev pub is_some_field : Option Json → Bool
is_some_field none = false
is_some_field (some v) = true

abbrev pub all_there : List String → Fields → Bool
all_there [] fs = true
all_there (k ∷ ks) fs = is_some_field (get_field k fs) && all_there ks fs

abbrev pub has_exactly : List String → Json → Bool
has_exactly names (object fs) = keys_among names fs && all_there names fs
has_exactly names _ = false

-- [A-Za-z_]
abbrev pub is_name_start : ℕ → Bool
is_name_start c = leb b'A' c && leb c b'Z' || leb b'a' c && leb c b'z' || c == b'_'

abbrev pub name_continues : String → Bool
name_continues String.[] = true
name_continues (String.◌∷◌ c s) =
    (is_name_start (code c) || leb b'0' (code c) && leb (code c) b'9') && name_continues s

-- `_VARIABLE`
abbrev pub is_variable : String → Bool
is_variable String.[] = false
is_variable (String.◌∷◌ c s) = is_name_start (code c) && name_continues s

abbrev pub all_variables : List String → Bool
all_variables [] = true
all_variables (v ∷ vs) = is_variable v && all_variables vs

abbrev pub distinct_texts : List String → Bool
distinct_texts [] = true
distinct_texts (t ∷ ts) = not (one_of t ts) && distinct_texts ts

abbrev pub valid_variables : List String → Bool
valid_variables vs = leb 1 (length vs) && leb (length vs) 8 && all_variables vs && distinct_texts vs

abbrev pub checked_variables : Option (List String) → Result (List String)
checked_variables none = err certificate_invalid
checked_variables (some vs) = if valid_variables vs then ok vs else err certificate_invalid

abbrev pub variables_of : Option Json → Result (List String)
variables_of value = checked_variables (texts_of value)

-- [0-9a-f]{n}
abbrev pub is_hex : ℕ → String → Bool
is_hex zero String.[] = true
is_hex zero (String.◌∷◌ c s) = false
is_hex (suc n) String.[] = false
is_hex (suc n) (String.◌∷◌ c s) =
    (leb b'0' (code c) && leb (code c) b'9' || leb b'a' (code c) && leb (code c) b'f') && is_hex n s

abbrev pub after_prefix : String → String → Option String
after_prefix String.[] s = some s
after_prefix (String.◌∷◌ p ps) String.[] = none
after_prefix (String.◌∷◌ p ps) (String.◌∷◌ c s) =
    if code p == code c then after_prefix ps s else none

abbrev pub is_hex_text : Option String → Bool
is_hex_text none = false
is_hex_text (some s) = is_hex 64 s

-- isinstance(v, str), `_DIGEST`, and v == expected
abbrev pub is_digest_of : String → Option Json → Bool
is_digest_of expected (some (string s)) =
    is_hex_text (after_prefix "sha256:" s) && str_eq s expected
is_digest_of expected _ = false

abbrev pub bool_of : Option Json → Result Bool
bool_of (some (boolean b)) = ok b
bool_of _ = err certificate_invalid

abbrev pub list_of : Option Json → Result (List Json)
list_of (some (array xs)) = ok (to_list xs)
list_of _ = err certificate_invalid

-- left > right, for tuples of natural numbers
abbrev pub powers_gt : List ℕ → List ℕ → Bool
powers_gt [] right = false
powers_gt (a ∷ left) [] = true
powers_gt (a ∷ left) (b ∷ right) = ltb b a || a == b && powers_gt left right

abbrev pub insert_term {ℓ} : {A : Type ℓ} → List ℕ × A → Polynomial A → Polynomial A
insert_term t [] = t ∷ []
insert_term t (u ∷ us) =
    let rest = insert_term t us in if powers_gt u.0 t.0 then u ∷ rest else t ∷ u ∷ us

-- sorted(polynomial.items(), reverse=True), for a dict: no two items have the same powers
abbrev pub sorted_terms {ℓ} : {A : Type ℓ} → Polynomial A → Polynomial A
sorted_terms [] = []
sorted_terms (t ∷ ts) = insert_term t (sorted_terms ts)

-- not difference
abbrev pub is_empty {ℓ} : {A : Type ℓ} → Polynomial A → Bool
is_empty [] = true
is_empty (t ∷ p) = false

module _ {ℓ} {A : Type ℓ} ⦃f : Fractions A⦄ where
  abbrev pub parse_expression : List String → Option Expression → ℕ → Result (Polynomial A × ℕ)
  parse_expression variables none nodes = err certificate_invalid
  parse_expression variables (some e) nodes = visit variables e nodes

module _ (checker : Checker) where
  -- value == n
  abbrev pub number_is : Json → ℕ → Bool
  number_is (integer (pos m)) n = m == n
  number_is (boolean b) n = (if b then 1 else 0) == n
  number_is (float i finite) n = finite && checker.float_is i n
  number_is _ n = false

  abbrev pub numbers_are : List Json → List ℕ → Bool
  numbers_are [] [] = true
  numbers_are (x ∷ xs) (n ∷ ns) = number_is x n && numbers_are xs ns
  numbers_are _ _ = false

  abbrev pub powers_are : Option Json → List ℕ → Bool
  powers_are (some (array xs)) powers = numbers_are (to_list xs) powers
  powers_are _ powers = false

  -- claimed == {"powers": …, "coefficient": …}
  abbrev pub term_is : Json → List ℕ → String → Bool
  term_is claimed powers coefficient =
      has_exactly ("powers" ∷ "coefficient" ∷ []) claimed
      && powers_are (get "powers" claimed) powers
      && is_text (get "coefficient" claimed) coefficient

  module _ {ℓ} {A : Type ℓ} ⦃f : Fractions A⦄ where
    -- `_fraction_text`
    abbrev pub fraction_text : A → String
    fraction_text c =
        if f.denominator c == 1
        then checker.str_int (f.numerator c)
        else checker.str_int (f.numerator c) +++ "/" +++ checker.str_int (pos (f.denominator c))

    -- claimed_terms == the sorted terms
    abbrev pub terms_are : List Json → Polynomial A → Bool
    terms_are [] [] = true
    terms_are (x ∷ xs) ((k, c) ∷ p) = term_is x k (fraction_text c) && terms_are xs p
    terms_are _ _ = false

    -- `parse`
    abbrev pub parse : List String → Option Json → ℕ → Result (Polynomial A × ℕ)
    parse variables (some (string s)) nodes = do
      require (leb (count s) 4_096) certificate_invalid
      parse_expression variables (checker.parse_source s) nodes
    parse variables _ nodes = err certificate_invalid

    -- The polynomial that is left minus right.
    abbrev pub difference_of : List String → Json → Result (Polynomial A)
    difference_of variables statement = do
      (left, seen) ← parse variables (get "left" statement) 0
      (right, all_seen) ← parse variables (get "right" statement) seen
      add left right (negsuc 0)

abbrev pub checker_json : Json
checker_json = object (
    field "system" (string "math-anchor-stdlib-polynomial-checker")
      (field "version" (string "1.0.0") end))

abbrev pub certificate_fields : List String
certificate_fields =
    "format" ∷ "statement" ∷ "statementDigest" ∷ "identity" ∷ "normalizedDifference"
    ∷ "certificateDigest" ∷ []

-- The statement of a certificate, or null.
abbrev pub statement_of : Json → Json
statement_of certificate = or_null (get "statement" certificate)

abbrev pub has_format : Json → Bool
has_format certificate =
    has_exactly certificate_fields certificate
    && is_text (get "format" certificate) "math-anchor.polynomial-identity.v1"
    && has_exactly ("left" ∷ "right" ∷ "variables" ∷ []) (statement_of certificate)

abbrev pub has_digests : Checker → Json → Bool
has_digests checker certificate =
    is_digest_of (checker.digest (statement_of certificate)) (get "statementDigest" certificate)
    && is_digest_of (checker.digest (without "certificateDigest" certificate))
        (get "certificateDigest" certificate)

-- `verify_polynomial_identity_certificate`
unfoldable pub verify_polynomial_identity_certificate {ℓ} :
    {A : Type ℓ} → Fractions A → Checker → Json → Result Verified
unfolding visit add
verify_polynomial_identity_certificate {A} f checker certificate = do
  require (has_format certificate) certificate_invalid
  variables ← variables_of (get "variables" (statement_of certificate))
  require (has_digests checker certificate) certificate_invalid
  claimed_identity ← bool_of (get "identity" certificate)
  claimed_terms ← list_of (get "normalizedDifference" certificate)
  require (leb (length claimed_terms) max_certificate_terms) certificate_invalid
  difference ← difference_of checker {A = A} ⦃f = f⦄ variables (statement_of certificate)
  require (terms_are checker ⦃f = f⦄ claimed_terms (sorted_terms difference)) certificate_invalid
  require (bool_eq claimed_identity (is_empty difference)) certificate_invalid
  ok (record {
    identity = is_empty difference;
    certificate_digest = or_null (get "certificateDigest" certificate);
    checker = checker_json;
  })
