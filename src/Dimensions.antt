-- ===== src/Dimensions.antt =====
-- `DimensionVector` of src/math_anchor/dimension_expression.py: exact exponents by the name of a
-- dimension, and their sums, differences and multiples. A dict is the list of its items; a vector's
-- components are such a list, in the order of `_dimension_sort_key`.
pub mod Names
pub mod Exponents
pub mod Vectors
pub mod Formulas
use Prim.Native.Char.{Char, code}
use Prim.Native.String.{String, count}
use math_anchor.Base.{
  ℕ, zero, suc, ◌+◌, ◌^◌, Bool, true, false, ◌&&◌, ◌||◌, not, Option, none, some, List, [], ◌∷◌,
  length, ltb, leb, ◌==◌, if◌then◌else◌, Result, ok, err, e_limit, e_input, require, ◌>>=◌, ◌>>◌,
}
use math_anchor.Base.Int.{ℤ, pos, negsuc, abs}
use math_anchor.Base.Json.{str_eq}
use math_anchor.Certificates.Coefficients.{Fractions, ◌⊕◌, ◌⊗◌, zero_of}
use math_anchor.Certificates.Verify.{is_variable, after_prefix}

abbrev pub Components {ℓ} : Type ℓ → Type ℓ
Components A = List (String × A)

abbrev pub base_dimensions : List String
base_dimensions =
    "mass" ∷ "length" ∷ "time" ∷ "current" ∷ "temperature" ∷ "substance" ∷ "luminosity"
    ∷ "information" ∷ []

-- The index of a base dimension, or how many there are.
abbrev pub base_index : String → List String → ℕ
base_index name [] = 0
base_index name (d ∷ ds) = let rest = base_index name ds in if str_eq name d then 0 else rest + 1

abbrev pub text_lt : String → String → Bool
text_lt String.[] String.[] = false
text_lt String.[] (String.◌∷◌ d t) = true
text_lt (String.◌∷◌ c s) String.[] = false
text_lt (String.◌∷◌ c s) (String.◌∷◌ d t) = ltb (code c) (code d) || code c == code d && text_lt s t

-- `_dimension_sort_key`, compared
abbrev pub comes_before : String → String → Bool
comes_before a b =
    let i = base_index a base_dimensions in
    let j = base_index b base_dimensions in ltb i j || i == j && text_lt a b

abbrev pub prepended : Char → Option String → Option String
prepended c none = none
prepended c (some s) = some (String.◌∷◌ c s)

-- name without the bracket at its end
abbrev pub without_close : String → Option String
without_close String.[] = none
without_close (String.◌∷◌ c String.[]) = if code c == b']' then some "" else none
without_close (String.◌∷◌ c (String.◌∷◌ d s)) = prepended c (without_close (String.◌∷◌ d s))

abbrev pub unbracketed : Option String → Option String
unbracketed none = none
unbracketed (some s) = without_close s

abbrev pub checked_name : Option String → Result String
checked_name none = err e_input
checked_name (some s) = if is_variable s then ok s else err e_input

-- `_canonical_dimension_name`, of a text
abbrev pub canonical_name : String → Result String
canonical_name s = do
  require (leb (count s) 64) e_limit
  if is_variable s then ok s else checked_name (unbracketed (after_prefix "[" s))

abbrev pub max_dimension_components : ℕ
max_dimension_components = 16

abbrev pub max_literal_digit_budget : ℕ
max_literal_digit_budget = 2_048

module _ {ℓ} {A : Type ℓ} where
  abbrev pub has_name : String → Components A → Bool
  has_name n [] = false
  has_name n ((k, e) ∷ cs) = if str_eq k n then true else has_name n cs

  -- cs[k] = e
  abbrev pub put : String → A → Components A → Components A
  put k e [] = (k, e) ∷ []
  put k e ((j, d) ∷ cs) = let rest = put k e cs in if str_eq j k then (j, e) ∷ cs else (j, d) ∷ rest

  abbrev pub insert_component : String × A → Components A → Components A
  insert_component c [] = c ∷ []
  insert_component c (d ∷ ds) =
      let rest = insert_component c ds in if comes_before d.0 c.0 then d ∷ rest else c ∷ d ∷ ds

  -- sorted(cs.items(), key=…), where no two items have the same name
  abbrev pub sorted_components : Components A → Components A
  sorted_components [] = []
  sorted_components (c ∷ cs) = insert_component c (sorted_components cs)

module _ {ℓ} {A : Type ℓ} ⦃f : Fractions A⦄ where
  -- cs.get(name, Fraction())
  abbrev pub exponent : String → Components A → A
  exponent n [] = zero_of
  exponent n ((k, e) ∷ cs) = if str_eq k n then e else exponent n cs

  -- `_bounded_derived_fraction`: an integer has at most d digits when it is less than 10 ** d.
  abbrev pub is_bounded_derived : A → Bool
  is_bounded_derived e =
      ltb (abs (f.numerator e)) (10 ^ max_literal_digit_budget)
      && ltb (f.denominator e) (10 ^ max_literal_digit_budget)

  -- The loop of `_from_mapping` over derived exponents.
  abbrev pub normalized_from : Components A → Components A → Result (Components A)
  normalized_from [] normalized = ok normalized
  normalized_from ((raw_name, e) ∷ values) normalized = do
    name ← canonical_name raw_name
    require (not (has_name name normalized)) e_input
    require (is_bounded_derived e) e_limit
    normalized_from values (if f.is_zero e then normalized else put name e normalized)

  -- `_from_derived_mapping`
  unfoldable pub from_derived_mapping : Components A → Result (Components A)
  from_derived_mapping values = do
    require (leb (length values) max_dimension_components) e_limit
    normalized ← normalized_from values []
    ok (sorted_components normalized)

  -- The loop of `__add__`.
  abbrev pub combined : Components A → Components A → Components A
  combined cs [] = cs
  combined cs ((k, e) ∷ others) = combined (put k (exponent k cs ⊕ e) cs) others

  abbrev pub scaled : A → Components A → Components A
  scaled factor [] = []
  scaled factor ((k, e) ∷ cs) = (k, e ⊗ factor) ∷ scaled factor cs

  -- `__add__`
  unfoldable pub sum_of : Components A → Components A → Result (Components A)
  unfolding from_derived_mapping
  sum_of left right = from_derived_mapping (combined left right)

  -- `scale`
  unfoldable pub scale : A → Components A → Result (Components A)
  unfolding from_derived_mapping
  scale factor cs = from_derived_mapping (scaled factor cs)

  -- `__sub__`
  unfoldable pub difference : Components A → Components A → Result (Components A)
  unfolding sum_of scale
  difference left right = do opposite ← scale (f.from_int (negsuc 0)) right; sum_of left opposite
