-- ===== src/Integers/Division/Agreement.antt =====
-- `divide_integer` (src/math_anchor/operations/rounding.py) against `_divide`.
use math_anchor.Base.{
  ℕ, zero, suc, ◌≡◌, ◌≢◌, refl, arith, true, if◌then◌else◌, ok, not, ltb, lt→ltb, ◌↔◌,
}
use math_anchor.Base.Int.{
  ℤ, pos, negsuc, neg, abs, ◌*ℤ◌, ◌≤ℤ◌, int_laws, *ℤ_parts, neg_parts, ltb_ℤ, leb_ℤ,
}
use math_anchor.Base.Python.{floor_div, divmod}
use math_anchor.Integers.Division.{
  DivisionMode, truncating, floor, euclidean, quotient, divide, divide_branch, divide_integer, eq_ℤ,
  IntegerDivision,
}
use math_anchor.Integers.Division.Laws.{divide-IsDivision}

mul-negsuc_neg : (d : ℕ) (z : ℤ) → negsuc d *ℤ neg z ≡ pos (suc d) *ℤ z
mul-negsuc_neg d z =
    let there = rw ((neg_parts z).0, (neg_parts z).1) at (*ℤ_parts (negsuc d) (neg z)) in
    omega (int_laws, there, *ℤ_parts (pos (suc d)) z)

neg-negsuc : (a : ℕ) → neg (negsuc a) ≡ pos (suc a)
unfolding neg
neg-negsuc a = ground arith

quotient_positive : (x : ℤ) (d : ℕ) → quotient x (pos (suc d)) euclidean ≡ floor_div x (pos (suc d))
unfolding quotient
quotient_positive x d = ground arith

quotient_negative :
    (x : ℤ) (d : ℕ) → quotient x (negsuc d) euclidean ≡ neg (floor_div x (pos (suc d)))
unfolding quotient
quotient_negative x d = rw (neg-negsuc d) (ground arith)

-- The two implementations give the same quotient and remainder.
divide_branch-eq-divide :
    (mode : DivisionMode) (x y : ℤ) → y ≢ pos 0 → divide_branch x y mode ≡ divide x y mode
unfolding divide_branch divide divmod
divide_branch-eq-divide truncating x y ne = unfold quotient in refl
divide_branch-eq-divide floor x y ne = unfold quotient in refl
divide_branch-eq-divide euclidean x (pos zero) ne = absurd (ne refl)
divide_branch-eq-divide euclidean x (pos (suc d)) ne = rw (quotient_positive x d) (ground arith)
divide_branch-eq-divide euclidean x (negsuc d) ne =
    let q = floor_div x (pos (suc d)) in
    let signed : (if ltb_ℤ (negsuc d) (pos 0) then neg q else q) ≡ neg q = ground arith in
    rw (quotient_negative x d, mul-negsuc_neg d q, signed)

eq_ℤ_refl : (x y : ℤ) → x ≡ y → eq_ℤ x y ≡ true
eq_ℤ_refl x y h = rw h (ground arith)

nonzero : (y : ℤ) → y ≢ pos 0 → not (eq_ℤ y (pos 0)) ≡ true
nonzero (pos zero) ne = absurd (ne refl)
nonzero (pos (suc n)) ne = ground arith
nonzero (negsuc n) ne = ground arith

-- What `divide_integer` reports of a dividend and a divisor.
pub record Reports (mode : DivisionMode) (x y : ℤ) (d : IntegerDivision) : Type 0 where
  pub operands : (d.dividend ≡ x) × (d.divisor ≡ y) × (d.division_mode ≡ mode)
  pub agrees : (d.quotient, d.remainder) ≡ divide x y mode
  pub nonnegative : (d.remainder_nonnegative ≡ true) ↔ (pos 0 ≤ℤ d.remainder)
  pub magnitude : d.remainder_magnitude_less_than_divisor ≡ true

report : DivisionMode → ℤ → ℤ → IntegerDivision
report mode x y =
    let (q, r) = divide x y mode in
    record {
      division_mode = mode;
      dividend = x;
      divisor = y;
      quotient = q;
      remainder = r;
      remainder_nonnegative = leb_ℤ (pos 0) r;
      remainder_magnitude_less_than_divisor = ltb (abs r) (abs y);
    }

-- For every nonzero divisor, in every mode, `divide_integer` succeeds, its internal check included,
-- and reports the quotient and remainder that `_divide` computes, with true statements on the
-- remainder.
pub divide_integer-Reports :
    (mode : DivisionMode) (x y : ℤ)
    → y ≢ pos 0
    → (d : IntegerDivision) × (divide_integer x y mode ≡ ok d) × Reports mode x y d
unfolding divide_integer
divide_integer-Reports mode x y ne =
    let law = divide-IsDivision mode x y ne in
    let guard = nonzero y ne in
    let exact = eq_ℤ_refl x _ law.exact in
    let same = divide_branch-eq-divide mode x y ne in
    (
      report mode x y,
      unfold report in rw (guard, same, exact),
      record {
        operands = unfold report in (refl, refl, refl);
        agrees = unfold report in refl;
        nonnegative = unfold report in ground arith;
        magnitude = unfold report in lt→ltb _ _ law.small;
      },
    )
