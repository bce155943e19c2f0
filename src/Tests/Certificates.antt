-- ===== src/Tests/Certificates.antt =====
-- A certificate of (x + 1) * (x - 1) = x ** 2 - 1, over the field of two elements.
use Prim.Native.String.{String}
use math_anchor.Base.{ℕ, ◌≡◌, refl, true, false, none, some, [], ◌∷◌, ok, if◌then◌else◌}
use math_anchor.Base.Int.{pos}
use math_anchor.Base.Json.{
  Json, boolean, integer, string, array, object, cons, nil, end, field, str_eq,
}
use math_anchor.Certificates.{normalize, add, multiply, power_loop, power}
use math_anchor.Certificates.Parser.{
  plus, minus, times, Expression, integer as whole, name, binary, raised, visit,
}
use math_anchor.Certificates.Soundness.{value}
use math_anchor.Certificates.Verify.{
  Checker, statement_of, verify_polynomial_identity_certificate, checker_json,
}
use math_anchor.Certificates.Identity.{States, Says, verify-identity, verify-difference}
use math_anchor.Obligations.Entries.{Verified, Services, checked}
use math_anchor.Obligations.{Obligation, polynomial_identity}
use math_anchor.Obligations.Findings.{polynomial_finding}
use math_anchor.Obligations.Identities.{with_checker, polynomial_finding-value}
use math_anchor.Integers.Actions.{bit_length}
use math_anchor.Tests.Parity.{two}

abbrev x : Expression
x = name "x"

abbrev one : Expression
one = whole (pos 1)

abbrev left_side : Expression
left_side = binary times (binary plus x one) (binary minus x one)

abbrev right_side : Expression
right_side = binary minus (raised x (whole (pos 2))) one

abbrev sha : String
sha = "sha256:0123456789abcdef0123456789abcdef0123456789abcdef0123456789abcdef"

abbrev checker : Checker
checker = record {
  digest = λ v. sha;
  parse_source = λ s.
      if str_eq s "(x + 1) * (x - 1)"
      then some left_side
      else if str_eq s "x ** 2 - 1"
      then some right_side
      else if str_eq s "x + 1"
      then some (binary plus x one)
      else if str_eq s "x + x"
      then some (binary plus x x)
      else none;
  str_int = λ n. "1";
  float_is = λ i n. false;
}

abbrev statement : Json
statement = object (
    field "left" (string "(x + 1) * (x - 1)")
      (field "right" (string "x ** 2 - 1") (field "variables" (array (cons (string "x") nil)) end)))

abbrev certificate : Json
certificate = object (
    field "format" (string "math-anchor.polynomial-identity.v1") (
      field "statement" statement (
        field "statementDigest" (string sha) (
          field "identity" (boolean true) (
            field "normalizedDifference" (array nil)
              (field "certificateDigest" (string sha) end))))))

abbrev verified : Verified
verified = record { identity = true; certificate_digest = string sha; checker = checker_json }

taken : verify_polynomial_identity_certificate two checker certificate ≡ ok verified
unfolding verify_polynomial_identity_certificate visit add multiply power power_loop normalize
    bit_length
taken = refl

stated : States checker (statement_of certificate) ("x" ∷ []) left_side right_side
stated = record {
  left_text = "(x + 1) * (x - 1)";
  right_text = "x ** 2 - 1";
  variables_there = refl;
  left_there = refl;
  right_there = refl;
  left_parsed = refl;
  right_parsed = refl;
}

verify-identity_example :
    value ⦃f = two⦄ ("x" ∷ []) (true ∷ []) left_side
    ≡ value ⦃f = two⦄ ("x" ∷ []) (true ∷ []) right_side
verify-identity_example =
    verify-identity two checker certificate ("x" ∷ []) left_side right_side (true ∷ []) taken refl
      stated

-- x + 1 less x + x, whose difference is x + 1: a certificate that is no identity.
abbrev sum_side : Expression
sum_side = binary plus x one

abbrev twice_side : Expression
twice_side = binary plus x x

abbrev difference_statement : Json
difference_statement = object (
    field "left" (string "x + 1")
      (field "right" (string "x + x") (field "variables" (array (cons (string "x") nil)) end)))

abbrev term : ℕ → Json
term power =
    object (
      field "powers" (array (cons (integer (pos power)) nil))
        (field "coefficient" (string "1") end))

abbrev difference_certificate : Json
difference_certificate = object (
    field "format" (string "math-anchor.polynomial-identity.v1") (
      field "statement" difference_statement (
        field "statementDigest" (string sha) (
          field "identity" (boolean false) (
            field "normalizedDifference" (array (cons (term 1) (cons (term 0) nil)))
              (field "certificateDigest" (string sha) end))))))

abbrev different : Verified
different = record { identity = false; certificate_digest = string sha; checker = checker_json }

taken_different :
    verify_polynomial_identity_certificate two checker difference_certificate ≡ ok different
unfolding verify_polynomial_identity_certificate visit add multiply power power_loop normalize
    bit_length
taken_different = refl

verify-difference_example :
    Says two checker difference_certificate ("x" ∷ []) sum_side twice_side different
verify-difference_example =
    verify-difference two checker difference_certificate ("x" ∷ []) sum_side twice_side
      taken_different
      (record {
        left_text = "x + 1";
        right_text = "x + x";
        variables_there = refl;
        left_there = refl;
        right_there = refl;
        left_parsed = refl;
        right_parsed = refl;
      })

abbrev services : Services
services = record {
  digest = λ value. sha;
  size = λ value. 400;
  verify = λ c. none;
  normalize = λ text. text;
  strip = λ text. text;
  str_of = λ v. "None";
  scope_of = λ operation. "";
}

abbrev claim : Obligation
claim = record {
  id = 1;
  kind = polynomial_identity;
  claim = statement;
  assumption_set = none;
  depends_on = [];
}

abbrev answer : Json
answer = object (field "status" (string "ok") (field "certificate" certificate end))

claimed_checked :
    (polynomial_finding (with_checker two checker services) claim answer).status ≡ checked
unfolding polynomial_finding verify_polynomial_identity_certificate visit add multiply power
    power_loop normalize bit_length
claimed_checked = refl

polynomial_finding-value_example :
    value ⦃f = two⦄ ("x" ∷ []) (false ∷ []) left_side
    ≡ value ⦃f = two⦄ ("x" ∷ []) (false ∷ []) right_side
polynomial_finding-value_example =
    polynomial_finding-value two services checker claim answer ("x" ∷ []) left_side right_side
      (false ∷ []) claimed_checked
      (record {
        left_text = "(x + 1) * (x - 1)";
        right_text = "x ** 2 - 1";
        names = "x" ∷ [];
        left_there = refl;
        right_there = refl;
        names_there = refl;
        stripped = refl;
        left_parsed = refl;
        right_parsed = refl;
      })
