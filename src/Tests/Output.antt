-- ===== src/Tests/Output.antt =====
-- An answer and an error that are too large.
use math_anchor.Base.{ℕ, ◌≡◌, ◌≤◌, ◌<◌, ◌⊎◌, ◌+◌, refl, true, ◌∷◌, All}
use math_anchor.Base.Int.{pos}
use math_anchor.Base.Json.{
  Json, null, string, integer, float, array, object, end, field, Fields, boolean,
}
use math_anchor.Output.{chosen, limit_failure, apply_output_policy, trim_error_envelope}
use math_anchor.Output.Cuts.{cuts, first_within, TooLarge}
use math_anchor.Output.Exact.{exact_part, apply_output_policy-exact}
use math_anchor.Output.Limit.{Fitting, error_code, apply_output_policy-error}

abbrev mutual
  -- A size for tests: less for null than for other values.
  weight : Json → ℕ
  weight null = 1
  weight (boolean b) = 10
  weight (integer n) = 10
  weight (float i finite) = 10
  weight (string s) = 10
  weight (array xs) = 2
  weight (object fs) = weights fs

  weights : Fields → ℕ
  weights end = 2
  weights (field j v fs) = weight v + weights fs

abbrev answer : Json
answer = object (
    field "status" (string "ok")
      (field "exact" (integer (pos 2)) (field "approx" (float 2 true) end)))

abbrev failed : Json
failed = object (
    field "status" (string "error") (
      field "error"
        (object (
          field "code" (string "E_DOMAIN")
            (field "message" (string "no root") (field "details" (string "x") end))))
        end))

approximation_left_out :
    apply_output_policy weight 25 "auto" answer
    ≡ object
        (field "status" (string "ok") (field "exact" (integer (pos 2)) (field "approx" null end)))
unfolding apply_output_policy
approximation_left_out = refl

details_left_out :
    apply_output_policy weight 40 "auto" failed
    ≡ object (
        field "status" (string "error") (
          field "error"
            (object (field "code" (string "E_DOMAIN") (field "message" (string "no root") end)))
            end))
unfolding apply_output_policy trim_error_envelope
details_left_out = refl

apply_output_policy-exact_example :
    ((exact_part (apply_output_policy weight 25 "auto" answer) ≡ exact_part answer)
      × (weight (apply_output_policy weight 25 "auto" answer) ≤ 25))
    ⊎ ((apply_output_policy weight 25 "auto" answer
          ≡ limit_failure weight 25 "auto" (chosen weight 25 "auto" answer))
        × (25 < weight (chosen weight 25 "auto" answer)))
apply_output_policy-exact_example = apply_output_policy-exact weight 25 "auto" answer refl refl

nothing_fits : apply_output_policy weight 30 "auto" failed ≡ limit_failure weight 30 "auto" failed
unfolding apply_output_policy trim_error_envelope
nothing_fits = refl

apply_output_policy-error_example :
    (apply_output_policy weight 40 "auto" failed
      ≡ first_within weight 40 (failed ∷ cuts failed) (limit_failure weight 40 "auto" failed))
    × (Fitting weight 40 (error_code failed) (apply_output_policy weight 40 "auto" failed)
        ⊎ ((apply_output_policy weight 40 "auto" failed ≡ limit_failure weight 40 "auto" failed)
            × All (TooLarge weight 40) (failed ∷ cuts failed)))
apply_output_policy-error_example = apply_output_policy-error weight 40 "auto" failed refl
