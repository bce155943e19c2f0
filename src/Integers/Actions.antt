-- ===== src/Integers/Actions.antt =====
-- What the actions of `bitwise` (src/math_anchor/operations/programmer.py) compute on raw words.
pub mod Digits
pub mod Rotation
pub mod Alignment
use math_anchor.Base.{
  ℕ, zero, suc, ◌+◌, ◌-◌, ◌*◌, ◌/◌, ◌%◌, ◌^◌, min, bit_and, bit_or, bit_xor, Bool, true, false,
  ◌&&◌, not, Option, none, some, List, [], ◌∷◌, ◌++◌, reverse, ltb, leb, ◌==◌, if◌then◌else◌,
  Result, ok, err, e_input, require, ◌>>=◌, ◌>>◌, take, drop,
}
use math_anchor.Base.Int.{ℤ, pos, negsuc, pos_part, neg, ltb_ℤ, ◌+ℤ◌, ◌-ℤ◌, ◌*ℤ◌}
use math_anchor.Base.Python.{low_bits, floor_natural}
use math_anchor.Integers.{
  Arg, Choice, enum_arg, integer_arg, Format, Signedness, unsigned, twos_complement, InputMode,
  value, bits, common, signed_value, selected_value, selected_range_contains,
}
use math_anchor.Integers.Literals.{
  decode_literal, decode_unbounded_literal, decode_field_literal, int_from,
}
use math_anchor.Integers.Representation.{Representation, representation, render}

pub data BinaryAction : Type 0 where
  and_action or_action xor_action nor_action : BinaryAction

pub data UnaryAction : Type 0 where
  not_action negate count_ones leading_zeros trailing_zeros reverse_bits : UnaryAction

pub data ShiftAction : Type 0 where
  shift_left logical_shift_right arithmetic_shift_right rotate_left rotate_right : ShiftAction

pub data Action : Type 0 where
  binary : BinaryAction → Action
  unary : UnaryAction → Action
  shift : ShiftAction → Action
  reverse_bytes reverse_words extract insert align_up align_down : Action

abbrev pub mask : ℕ → ℕ
mask w = 2 ^ w - 1

unfoldable pub binary_result : BinaryAction → ℕ → ℕ → ℕ → ℕ
unfolding low_bits
binary_result and_action w left right = bit_and left right
binary_result or_action w left right = bit_or left right
binary_result xor_action w left right = bit_xor left right
binary_result nor_action w left right = low_bits (negsuc (bit_or left right)) (mask w)

-- `int.bit_count` over the digits of a word, and `int.bit_length`, whose fuel is the number itself.
abbrev pub bit_count : ℕ → ℕ → ℕ
bit_count zero raw = 0
bit_count (suc w) raw = raw % 2 + bit_count w (raw / 2)

abbrev pub bit_length_from : ℕ → ℕ → ℕ
bit_length_from zero x = 0
bit_length_from (suc fuel) x = elim (x == 0) [ true ↦ 0 | false ↦ 1 + bit_length_from fuel (x / 2) ]

unfoldable pub bit_length : ℕ → ℕ
bit_length x = bit_length_from x x

unfoldable pub unary_result : UnaryAction → ℕ → ℕ → ℕ
unfolding low_bits bit_length render neg
unary_result not_action w raw = low_bits (negsuc raw) (mask w)
unary_result negate w raw = low_bits (neg (pos raw)) (mask w)
unary_result count_ones w raw = bit_count w raw
unary_result leading_zeros w raw = w - bit_length raw
unary_result trailing_zeros w raw =
    if raw == 0 then w else bit_length (low_bits (neg (pos raw)) raw) - 1
unary_result reverse_bits w raw = int_from 2 0 (reverse (render 2 w raw))

-- Only `negate` sets `overflow`.
unfoldable pub unary_overflow : UnaryAction → Format → ℕ → Bool
unfolding selected_value selected_range_contains neg
unary_overflow negate f raw = not (
    selected_range_contains (neg (selected_value raw f.bit_width f.signedness)) f.bit_width
      f.signedness)
unary_overflow _ f raw = false

unfoldable pub rotated_left : ℕ → ℕ → ℕ → ℕ
rotated_left w raw e =
    if e == 0 then raw else bit_and (bit_or (raw * 2 ^ e) (raw / 2 ^ (w - e))) (mask w)

unfoldable pub rotated_right : ℕ → ℕ → ℕ → ℕ
rotated_right w raw e =
    if e == 0 then raw else bit_and (bit_or (raw / 2 ^ e) (raw * 2 ^ (w - e))) (mask w)

unfoldable pub shift_result : ShiftAction → ℕ → ℕ → ℕ → ℕ
unfolding low_bits signed_value rotated_left rotated_right
shift_result shift_left w raw count = if leb w count then 0 else bit_and (raw * 2 ^ count) (mask w)
shift_result logical_shift_right w raw count = if leb w count then 0 else raw / 2 ^ count
shift_result arithmetic_shift_right w raw count =
    low_bits (floor_natural (signed_value raw w) (2 ^ count)) (mask w)
shift_result rotate_left w raw count = rotated_left w raw (count % w)
shift_result rotate_right w raw count = rotated_right w raw (count % w)

-- bits[:n] and bits[-n:] of the word's digits; nothing for n = 0.
unfoldable pub discarded : ShiftAction → ℕ → ℕ → ℕ → Option (List ℕ)
unfolding render
discarded rotate_left w raw count = none
discarded rotate_right w raw count = none
discarded shift_left w raw count =
    let n = min count w in if n == 0 then none else some (take n (render 2 w raw))
discarded _ w raw count =
    let n = min count w in if n == 0 then none else some (drop (w - n) (render 2 w raw))

abbrev pub effective : ShiftAction → ℕ → ℕ → ℕ
effective rotate_left w count = count % w
effective rotate_right w count = count % w
effective _ w count = min count w

-- Only `shift_left` sets `overflow`.
unfoldable pub shift_overflow : ShiftAction → Format → ℕ → ℕ → Bool
unfolding selected_value selected_range_contains
shift_overflow shift_left f raw count = not (
    selected_range_contains (selected_value raw f.bit_width f.signedness *ℤ pos (2 ^ count))
      f.bit_width f.signedness)
shift_overflow _ f raw count = false

abbrev pub shift_guard : ShiftAction → Signedness → Result (Unit {0})
shift_guard arithmetic_shift_right unsigned = err e_input
shift_guard _ _ = ok tt

-- The loop of `_reverse_chunks`, at an index with rounds left.
unfoldable pub reverse_chunks : ℕ → ℕ → ℕ → ℕ → ℕ → ℕ → ℕ
reverse_chunks zero index raw w chunk result = result
reverse_chunks (suc left) index raw w chunk result = reverse_chunks left (index + 1) raw w chunk (
    bit_or result
      (bit_and (raw / 2 ^ (index * chunk)) (mask chunk) * 2 ^ (w - (index + 1) * chunk)))

unfoldable pub extracted : ℕ → ℕ → ℕ → ℕ
extracted raw offset field_width = bit_and (raw / 2 ^ offset) (mask field_width)

-- (raw & ~(field_mask << offset)) | (field << offset)
unfoldable pub inserted : ℕ → ℕ → ℕ → ℕ → ℕ
unfolding low_bits
inserted raw offset field_width field =
    bit_or (low_bits (negsuc (mask field_width * 2 ^ offset)) raw) (field * 2 ^ offset)

-- alignment > 0 and alignment & (alignment - 1) == 0
abbrev pub is_power : ℤ → Bool
is_power (pos (suc a)) = bit_and (suc a) a == 0
is_power _ = false

-- The mathematical result of `align_up`, for an unsigned value and a positive alignment.
unfoldable pub aligned_up : ℕ → ℤ → ℕ
unfolding low_bits neg
aligned_up raw alignment = low_bits (neg alignment) (raw + pos_part alignment - 1)

unfoldable pub aligned_down : ℕ → ℤ → ℕ
unfolding low_bits neg
aligned_down raw alignment = low_bits (neg alignment) raw
