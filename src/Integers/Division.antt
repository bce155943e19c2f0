-- ===== src/Integers/Division.antt =====
-- `_divide` of operations/programmer.py and `divide_integer` of operations/rounding.py, which
-- computes the same by other means and checks its own result.
pub mod Laws
pub mod Agreement
use math_anchor.Base.{
  ℕ, Bool, true, false, not, Result, ok, err, e_domain, e_runtime, require, ◌>>=◌, ◌>>◌,
  if◌then◌else◌, ◌&&◌, ltb, ◌/◌,
}
use math_anchor.Base.Int.{ℤ, pos, neg, abs, ltb_ℤ, leb_ℤ, ◌+ℤ◌, ◌-ℤ◌, ◌*ℤ◌, pos_part, neg_part}
use math_anchor.Base.Python.{floor_div, divmod}

pub data DivisionMode : Type 0 where
  truncating floor euclidean : DivisionMode

-- (x < 0) != (y < 0)
abbrev pub signs_differ : ℤ → ℤ → Bool
signs_differ x y = if ltb_ℤ x (pos 0) then not (ltb_ℤ y (pos 0)) else ltb_ℤ y (pos 0)

-- abs(x) // abs(y), negated where the signs differ
abbrev pub truncated : ℤ → ℤ → ℤ
truncated x y = if signs_differ x y then neg (pos (abs x / abs y)) else pos (abs x / abs y)

unfoldable pub quotient : ℤ → ℤ → DivisionMode → ℤ
unfolding floor_div
quotient x y floor = floor_div x y
quotient x y euclidean = if ltb_ℤ (pos 0) y then floor_div x y else neg (floor_div x (neg y))
quotient x y truncating = truncated x y

-- `_divide`; the caller has checked that the divisor is not 0.
unfoldable pub divide : ℤ → ℤ → DivisionMode → ℤ × ℤ
unfolding quotient
divide x y mode = let q = quotient x y mode in (q, x -ℤ y *ℤ q)

-- The three branches of `divide_integer`.
unfoldable pub divide_branch : ℤ → ℤ → DivisionMode → ℤ × ℤ
unfolding divmod
divide_branch x y truncating = let q = truncated x y in (q, x -ℤ y *ℤ q)
divide_branch x y floor = divmod x y
divide_branch x y euclidean =
    let (q, r) = divmod x (pos (abs y)) in (if ltb_ℤ y (pos 0) then neg q else q, r)

-- x == y on integers
abbrev pub eq_ℤ : ℤ → ℤ → Bool
eq_ℤ x y = leb_ℤ x y && leb_ℤ y x

pub record IntegerDivision : Type 0 where
  pub division_mode : DivisionMode
  pub dividend : ℤ
  pub divisor : ℤ
  pub quotient : ℤ
  pub remainder : ℤ
  pub remainder_nonnegative : Bool
  pub remainder_magnitude_less_than_divisor : Bool

-- `divide_integer` from the parsed integers on.
unfoldable pub divide_integer : ℤ → ℤ → DivisionMode → Result IntegerDivision
unfolding divide_branch
divide_integer x y mode = do
  require (not (eq_ℤ y (pos 0))) e_domain
  let (q, r) = divide_branch x y mode
  require (eq_ℤ x (y *ℤ q +ℤ r)) e_runtime
  ok (record {
    division_mode = mode;
    dividend = x;
    divisor = y;
    quotient = q;
    remainder = r;
    remainder_nonnegative = leb_ℤ (pos 0) r;
    remainder_magnitude_less_than_divisor = ltb (abs r) (abs y);
  })
