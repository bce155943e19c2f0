-- ===== src/Tests/Parity.antt =====
-- The field of two elements, for the `Fraction` of concrete runs.
use math_anchor.Base.{◌≡◌, refl, arith, Bool, true, false, not, ◌&&◌, ◌%◌, ◌==◌, if◌then◌else◌}
use math_anchor.Base.Int.{pos, abs}
use math_anchor.Certificates.Coefficients.{Fractions}

abbrev pub xor : Bool → Bool → Bool
xor true b = not b
xor false b = b

pub xor_assoc : (a b c : Bool) → xor (xor a b) c ≡ xor a (xor b c)
xor_assoc a b c = ground arith

pub xor_comm : (a b : Bool) → xor a b ≡ xor b a
xor_comm a b = ground arith

pub xor_self : (a : Bool) → xor a a ≡ false
xor_self a = ground arith

pub and_assoc : (a b c : Bool) → ((a && b) && c) ≡ (a && (b && c))
and_assoc a b c = ground arith

pub and_comm : (a b : Bool) → (a && b) ≡ (b && a)
and_comm a b = ground arith

pub xor-and : (a b c : Bool) → (xor a b && c) ≡ xor (a && c) (b && c)
xor-and a b c = ground arith

pub not-true_case : (a : Bool) → not a ≡ true → a ≡ false
not-true_case a h = ground arith

pub and_true : (a d : Bool) → not d ≡ false → (a && d) ≡ a
and_true a d h = ground arith

abbrev pub two : Fractions Bool
two = record {
  from_int = λ n. abs n % 2 == 1;
  add = xor;
  mul = ◌&&◌;
  neg = λ a. a;
  div = λ a d. a;
  is_zero = not;
  numerator = λ a. if a then pos 1 else pos 0;
  denominator = λ a. 1;
  is_zero_eq = not-true_case;
  minus_one = refl;
  add_comm = xor_comm;
  mul_comm = and_comm;
  zero-add = λ a. refl;
  one-mul = λ a. refl;
  neg-add = xor_self;
  div-mul = and_true;
  add-mul = xor-and;
  mul_assoc = and_assoc;
  add_assoc = xor_assoc;
}
