-- ===== src/Tests/Dimensions.antt =====
-- The difference of two vectors, with exponents in the field of two elements.
use Prim.Native.String.{String}
use math_anchor.Base.{◌≡◌, refl, Bool, true, [], ◌∷◌, ok}
use math_anchor.Dimensions.{Components, exponent, from_derived_mapping, sum_of, scale, difference}
use math_anchor.Dimensions.Vectors.{IsVector, difference-exponent}
use math_anchor.Tests.Parity.{two}

abbrev speed : Components Bool
speed = ("length", true) ∷ ("time", true) ∷ []

abbrev frequency : Components Bool
frequency = ("time", true) ∷ []

abbrev distance : Components Bool
distance = ("length", true) ∷ []

speed_by_frequency : difference ⦃f = two⦄ speed frequency ≡ ok distance
unfolding difference sum_of scale from_derived_mapping
speed_by_frequency = refl

difference-exponent_example :
    IsVector ⦃f = two⦄ distance
    × ((n : String)
        → exponent ⦃f = two⦄ n distance
          ≡ two.add (exponent ⦃f = two⦄ n speed) (two.neg (exponent ⦃f = two⦄ n frequency)))
difference-exponent_example =
    difference-exponent ⦃f = two⦄ speed frequency (((refl, (refl, tt)), (refl, (refl, tt))))
      (((refl, tt), (refl, tt))) speed_by_frequency
