-- ===== src/Tests/Integers.antt =====
-- Words, literals, divisions and machine results at concrete numbers.
use math_anchor.Base.{◌≡◌, ◌≢◌, refl, arith, none, [], ◌∷◌, ok}
use math_anchor.Base.Int.{pos, negsuc, neg, ◌+ℤ◌, ◌-ℤ◌, ◌*ℤ◌}
use math_anchor.Base.Python.{low_bits, floor_div}
use math_anchor.Integers.{
  Format, int, text, unset, chosen, bits, twos_complement, value, selected_value, signed_value,
}
use math_anchor.Integers.Division.{
  truncating, floor, euclidean, divide, divide_integer, IntegerDivision, quotient,
}
use math_anchor.Integers.Division.Laws.{IsDivision, divide-IsDivision}
use math_anchor.Integers.Division.Agreement.{Reports, divide_integer-Reports}
use math_anchor.Integers.Literals.{decode_literal}
use math_anchor.Integers.Literals.RoundTrip.{decode_literal-representation}
use math_anchor.Integers.Representation.{representation}
use math_anchor.Integers.Arithmetic.{
  Arguments, MachineResult, add, saturating, exact, report, machine_arithmetic,
}
use math_anchor.Integers.Arithmetic.Outcomes.{IsFaithful, machine_arithmetic-IsFaithful}
use math_anchor.Integers.Arithmetic.Operands.{Law, machine_arithmetic-Law}

three_ne_zero : pos 3 ≢ pos 0
three_ne_zero e = ground (arith, e)

divide-IsDivision_example :
    IsDivision euclidean
      (negsuc 6)
      (pos 3)
      (divide (negsuc 6) (pos 3) euclidean).0
      (divide (negsuc 6) (pos 3) euclidean).1
divide-IsDivision_example = divide-IsDivision euclidean (negsuc 6) (pos 3) three_ne_zero

divide_integer-Reports_example :
    (d : IntegerDivision) × (divide_integer (negsuc 6) (pos 3) floor ≡ ok d)
    × Reports floor (negsuc 6) (pos 3) d
divide_integer-Reports_example = divide_integer-Reports floor (negsuc 6) (pos 3) three_ne_zero

-- -7 by 3, in the three modes
modes :
    (divide (negsuc 6) (pos 3) truncating ≡ (negsuc 1, negsuc 0))
    × (divide (negsuc 6) (pos 3) floor ≡ (negsuc 2, pos 2))
    × (divide (negsuc 6) (pos 3) euclidean ≡ (negsuc 2, pos 2))
unfolding divide quotient floor_div neg ◌-ℤ◌ ◌*ℤ◌ ◌+ℤ◌
modes = (refl, refl, refl)

abbrev byte : Format
byte = record { bit_width = 8; signedness = twos_complement; input_mode = bits }

decode_literal-representation_example :
    let r = representation 172 8 twos_complement in
    (decode_literal (text (b'0' ∷ b'b' ∷ r.binary)) byte ≡ ok 172)
    × (decode_literal (text (b'0' ∷ b'o' ∷ r.octal)) byte ≡ ok 172)
    × (decode_literal (text (b'0' ∷ b'x' ∷ r.hexadecimal)) byte ≡ ok 172)
decode_literal-representation_example =
    decode_literal-representation 8 172 twos_complement refl (omega arith)

-- 100 + 100 in a signed byte, saturating
abbrev sum : Arguments
sum = record {
  action = chosen add;
  bit_width = int (pos 8);
  signedness = chosen twos_complement;
  input_mode = unset;
  overflow_behavior = chosen saturating;
  division_mode = unset;
  left = text (b'1' ∷ b'0' ∷ b'0' ∷ []);
  right = text (b'0' ∷ b'x' ∷ b'6' ∷ b'4' ∷ []);
}

abbrev saturated : MachineResult
saturated =
    report add (record { bit_width = 8; signedness = twos_complement; input_mode = value })
      saturating 100 100 (record { result = pos 200; remainder = none; division_mode = none })

saturates : machine_arithmetic sum ≡ ok saturated
unfolding machine_arithmetic exact selected_value signed_value ◌+ℤ◌ low_bits neg
saturates = refl

machine_arithmetic-IsFaithful_example : IsFaithful saturated
machine_arithmetic-IsFaithful_example = machine_arithmetic-IsFaithful sum saturates

machine_arithmetic-Law_example :
    Law saturated.action saturated.left.decimal saturated.right.decimal
      saturated.mathematical_result saturated.mathematical_remainder saturated.division_mode
machine_arithmetic-Law_example = machine_arithmetic-Law sum saturates
