-- ===== src/Tests/Formulas.antt =====
-- The expression v * t + x, where t is an unknown symbol, with exponents in the field of two elements.
use Prim.Native.String.{String}
use math_anchor.Base.{
  ◌≡◌, ◌↔◌, refl, subst, Bool, true, false, Option, none, some, List, [], ◌∷◌, All, ok,
  if◌then◌else◌,
}
use math_anchor.Base.Json.{str_eq}
use math_anchor.Dimensions.{from_derived_mapping, sum_of}
use math_anchor.Dimensions.Vectors.{IsVector}
use math_anchor.Dimensions.Formulas.{
  Formula, Constraint, Expression, symbol, additive, product, visit, formula_sum,
}
use math_anchor.Dimensions.Formulas.Values.{value}
use math_anchor.Dimensions.Formulas.Analysis.{dimension_of, Holds, IsConsistent, visit-dimension}
use math_anchor.Tests.Parity.{two}

abbrev speed : Formula Bool
speed = record { constant = ("length", true) ∷ ("time", true) ∷ []; coefficients = [] }

abbrev duration : Formula Bool
duration = record { constant = []; coefficients = ("t", true) ∷ [] }

abbrev distance : Formula Bool
distance = record { constant = ("length", true) ∷ []; coefficients = [] }

abbrev chosen : Bool → Bool → Bool → Option (Formula Bool)
chosen v t x =
    if v then some speed else if t then some duration else if x then some distance else none

abbrev bindings : String → Option (Formula Bool)
bindings s = chosen (str_eq s "v") (str_eq s "t") (str_eq s "x")

abbrev IsKnown : Option (Formula Bool) → Type 0
IsKnown none = Unit
IsKnown (some formula) = IsVector ⦃f = two⦄ formula.constant

chosen-IsKnown : (v t x : Bool) → IsKnown (chosen v t x)
chosen-IsKnown true t x = ((refl, (refl, tt)), (refl, (refl, tt)))
chosen-IsKnown false true x = (tt, tt)
chosen-IsKnown false false true = ((refl, tt), (refl, tt))
chosen-IsKnown false false false = tt

known :
    (s : String) (formula : Formula Bool)
    → bindings s ≡ some formula
    → IsVector ⦃f = two⦄ formula.constant
known s formula h = subst IsKnown h (chosen-IsKnown (str_eq s "v") (str_eq s "t") (str_eq s "x"))

abbrev way : Expression Bool
way = additive (product (symbol "v") (symbol "t")) (symbol "x")

abbrev travelled : Formula Bool
travelled = record {
  constant = ("length", true) ∷ ("time", true) ∷ [];
  coefficients = ("t", true) ∷ [];
}

abbrev constraints : List (Constraint Bool)
constraints = record { left = travelled; right = distance } ∷ []

way_visited : visit ⦃f = two⦄ bindings way [] ≡ ok (travelled, constraints)
unfolding visit formula_sum sum_of from_derived_mapping
way_visited = refl

abbrev one : String → Bool
one s = true

visit-dimension_example :
    (value ⦃f = two⦄ one "time" travelled ≡ dimension_of ⦃f = two⦄ one bindings "time" way)
    × (All (Holds ⦃f = two⦄ one bindings "time") constraints
        ↔ IsConsistent ⦃f = two⦄ one bindings "time" way)
visit-dimension_example = visit-dimension ⦃f = two⦄ one bindings "time" known way way_visited
