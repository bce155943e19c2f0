-- ===== src/Certificates/Parser.antt =====
-- `_PolynomialParser` of src/math_anchor/certificate_checker.py, on the tree that `ast.parse` gives.
-- The count of nodes, which the parses of both sides share, is passed along.
use Prim.Native.String.{String}
use math_anchor.Base.{
  ℕ, zero, ◌+◌, Bool, true, false, not, Option, none, some, List, [], ◌∷◌, leb, if◌then◌else◌,
  length, Result, ok, err, certificate_invalid, require, ◌>>=◌, ◌>>◌,
}
use math_anchor.Base.Int.{ℤ, pos, negsuc}
use math_anchor.Base.Json.{str_eq}
use math_anchor.Certificates.Coefficients.{Fractions, one_of}
use math_anchor.Certificates.{
  Polynomial, powers_eq, zeros, normalize, add, multiply, power, max_ast_nodes,
}

pub data Operator : Type 0 where
  plus minus times over : Operator

-- The nodes that the parser tells apart: `constant` holds a value that is no integer, and
-- `unsupported` stands for every other node.
pub data Expression : Type 0 where
  integer : ℤ → Expression
  constant : Expression
  name : String → Expression
  positive negative : Expression → Expression
  binary : Operator → Expression → Expression → Expression
  raised : Expression → Expression → Expression
  unsupported : Expression

abbrev pub is_some_int : Option ℤ → Bool
is_some_int none = false
is_some_int (some n) = true

abbrev pub is_int_zero : ℤ → Bool
is_int_zero (pos zero) = true
is_int_zero _ = false

abbrev pub shifted : Option (List ℕ) → Option (List ℕ)
shifted none = none
shifted (some ks) = some (0 ∷ ks)

-- The powers of the variable with this name; `none` for a name that is no variable.
abbrev pub unit_powers : String → List String → Option (List ℕ)
unit_powers x [] = none
unit_powers x (v ∷ vs) =
    let rest = shifted (unit_powers x vs) in
    if str_eq v x then some (1 ∷ zeros (length vs)) else rest

-- The exponent of a power, if it is an integer.
abbrev pub exponent_of : Expression → Option ℤ
exponent_of (integer n) = some n
exponent_of _ = none

-- The count of nodes after one more, within its limit.
abbrev pub next_node : ℕ → Result ℕ
next_node nodes = do require (leb (nodes + 1) max_ast_nodes) certificate_invalid; ok (nodes + 1)

module _ {ℓ} {A : Type ℓ} ⦃f : Fractions A⦄ where
  abbrev pub constant_of : ℤ → ℕ → Polynomial A
  constant_of n variable_count =
      if is_int_zero n then [] else (zeros variable_count, f.from_int n) ∷ []

  abbrev pub variable_of : Option (List ℕ) → Result (Polynomial A)
  variable_of none = err certificate_invalid
  variable_of (some powers) = ok ((powers, one_of) ∷ [])

  abbrev pub negated : Polynomial A → Polynomial A
  negated [] = []
  negated ((k, c) ∷ p) = (k, f.neg c) ∷ negated p

  abbrev pub divided : A → Polynomial A → Polynomial A
  divided d [] = []
  divided d ((k, c) ∷ p) = (k, f.div c d) ∷ divided d p

  -- set(denominator) == {zero}, and the division
  abbrev pub divide_by : ℕ → Polynomial A → Polynomial A → Result (Polynomial A)
  divide_by variable_count numerator ((k, d) ∷ []) = do
    require (powers_eq k (zeros variable_count)) certificate_invalid
    require (not (f.is_zero d)) certificate_invalid
    normalize (divided d numerator)
  divide_by variable_count numerator _ = err certificate_invalid

  abbrev pub operate : Operator → ℕ → Polynomial A → Polynomial A → Result (Polynomial A)
  operate plus variable_count left right = add left right (pos 1)
  operate minus variable_count left right = add left right (negsuc 0)
  operate times variable_count left right = multiply left right
  operate over variable_count left right = divide_by variable_count left right

  abbrev pub raise_to : Option ℤ → ℕ → Polynomial A → Result (Polynomial A)
  raise_to none variable_count base = err certificate_invalid
  raise_to (some n) variable_count base = power base n variable_count

  module _ (variables : List String) where
    -- `_visit`: the polynomial and the count of nodes. The exponent of a power is looked at first,
    -- and not visited.
    unfoldable pub visit : Expression → ℕ → Result (Polynomial A × ℕ)
    unfolding add multiply power normalize
    visit (integer n) nodes = do seen ← next_node nodes; ok (constant_of n (length variables), seen)
    visit constant nodes = do seen ← next_node nodes; err certificate_invalid
    visit (name x) nodes = do
      seen ← next_node nodes
      p ← variable_of (unit_powers x variables)
      ok (p, seen)
    visit (positive e) nodes = do seen ← next_node nodes; visit e seen
    visit (negative e) nodes = do
      seen ← next_node nodes
      (p, after) ← visit e seen
      ok (negated p, after)
    visit (binary operator l r) nodes = do
      seen ← next_node nodes
      (left, after_left) ← visit l seen
      (right, after) ← visit r after_left
      p ← operate operator (length variables) left right
      ok (p, after)
    visit (raised b e) nodes = do
      seen ← next_node nodes
      require (is_some_int (exponent_of e)) certificate_invalid
      (base, after) ← visit b seen
      p ← raise_to (exponent_of e) (length variables) base
      ok (p, after)
    visit unsupported nodes = do seen ← next_node nodes; err certificate_invalid
