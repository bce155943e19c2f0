-- ===== src/Integers/Bitwise.antt =====
-- `bitwise` of operations/programmer.py, one function for each of its branches.
use math_anchor.Base.{
  ℕ, ◌+◌, ◌/◌, ◌%◌, bit_and, Bool, true, false, not, Option, none, some, List, [], ◌∷◌, leb, ◌==◌,
  if◌then◌else◌, Result, ok, err, e_input, require, ◌>>=◌, ◌>>◌,
}
use math_anchor.Base.Int.{ℤ, pos}
use math_anchor.Integers.{
  Arg, Choice, enum_arg, integer_arg, Format, Signedness, unsigned, twos_complement, InputMode,
  value, bits, common, selected_range_contains,
}
use math_anchor.Integers.Literals.{decode_literal, decode_unbounded_literal, decode_field_literal}
use math_anchor.Integers.Actions.{
  BinaryAction, and_action, ShiftAction, Action, binary, unary, shift, reverse_bytes, reverse_words,
  extract, insert, align_up, align_down, mask, binary_result, unary_result, unary_overflow,
  shift_result, discarded, effective, shift_overflow, shift_guard, reverse_chunks, extracted,
  inserted, is_power, aligned_up, aligned_down,
}
use math_anchor.Integers.Representation.{Representation, representation}

pub record Arguments : Type 0 where
  pub action : Choice Action
  pub bit_width : Arg
  pub signedness : Choice Signedness
  pub input_mode : Choice InputMode
  pub left : Arg
  pub right : Arg
  pub value_text : Arg
  pub count : Arg
  pub offset : Arg
  pub field_width : Arg
  pub field : Arg
  pub alignment : Arg

pub data Metadata : Type 0 where
  no_metadata : Metadata
  bit_field : ℕ → ℕ → Metadata
  aligned : ℤ → Metadata

-- What the branches of the action leave in the local variables.
pub record Locals : Type 0 where
  pub operands : List Representation
  pub raw_result : ℕ
  pub overflow : Bool
  pub discarded_bits : Option (List ℕ)
  pub count : Option ℕ
  pub effective_count : Option ℕ
  pub metadata : Metadata

abbrev pub plain : List Representation → ℕ → Bool → Locals
plain operands raw overflow = record {
  operands = operands;
  raw_result = raw;
  overflow = overflow;
  discarded_bits = none;
  count = none;
  effective_count = none;
  metadata = no_metadata;
}

-- The branches that read `value`.
unfoldable pub shift_branch : ShiftAction → Arg → Format → ℕ → Result Locals
unfolding integer_arg shift_result discarded shift_overflow representation
shift_branch a counted f raw = do
  count ← integer_arg counted 1 0 256
  shift_guard a f.signedness
  ok (record {
    operands = representation raw f.bit_width f.signedness ∷ [];
    raw_result = shift_result a f.bit_width raw count;
    overflow = shift_overflow a f raw count;
    discarded_bits = discarded a f.bit_width raw count;
    count = some count;
    effective_count = some (effective a f.bit_width count);
    metadata = no_metadata;
  })

abbrev pub field_bounds : Arg → Arg → ℕ → Result (ℕ × ℕ)
field_bounds offsets widths w = do
  offset ← integer_arg offsets 0 0 255
  field_width ← integer_arg widths 1 1 256
  require (leb (offset + field_width) w) e_input
  ok (offset, field_width)

unfoldable pub extract_branch : Arguments → Format → ℕ → Result Locals
unfolding integer_arg extracted representation
extract_branch a f raw = do
  (offset, field_width) ← field_bounds a.offset a.field_width f.bit_width
  let base =
      plain (representation raw f.bit_width f.signedness ∷ []) (extracted raw offset field_width)
        false
  ok (record base { metadata = bit_field offset field_width })

unfoldable pub insert_branch : Arguments → Format → ℕ → Result Locals
unfolding integer_arg decode_field_literal inserted representation
insert_branch a f raw = do
  (offset, field_width) ← field_bounds a.offset a.field_width f.bit_width
  field ← decode_field_literal a.field field_width
  let shown =
      representation raw f.bit_width f.signedness ∷ representation field field_width unsigned ∷ []
  let base = plain shown (inserted raw offset field_width field) false
  ok (record base { metadata = bit_field offset field_width })

abbrev pub is_unsigned : Signedness → Bool
is_unsigned unsigned = true
is_unsigned twos_complement = false

abbrev pub is_value_mode : InputMode → Bool
is_value_mode value = true
is_value_mode bits = false

abbrev pub aligning : Arguments → Format → Result ℤ
aligning a f = do
  require (is_unsigned f.signedness) e_input
  require (is_value_mode f.input_mode) e_input
  alignment ← decode_unbounded_literal a.alignment
  require (is_power alignment) e_input
  ok alignment

unfoldable pub align_up_branch : Arguments → Format → ℕ → Result Locals
unfolding decode_unbounded_literal aligned_up selected_range_contains representation
align_up_branch a f raw = do
  alignment ← aligning a f
  let mathematical = aligned_up raw alignment
  let over = not (selected_range_contains (pos mathematical) f.bit_width f.signedness)
  let base =
      plain (representation raw f.bit_width f.signedness ∷ [])
        (bit_and mathematical (mask f.bit_width)) over
  ok (record base { metadata = aligned alignment })

unfoldable pub align_down_branch : Arguments → Format → ℕ → Result Locals
unfolding decode_unbounded_literal aligned_down representation
align_down_branch a f raw = do
  alignment ← aligning a f
  let base =
      plain (representation raw f.bit_width f.signedness ∷ []) (aligned_down raw alignment) false
  ok (record base { metadata = aligned alignment })

unfoldable pub value_branch : Action → Arguments → Format → ℕ → Result Locals
unfolding shift_branch extract_branch insert_branch align_up_branch align_down_branch unary_result
    unary_overflow reverse_chunks representation
value_branch (binary b) a f raw = err e_input
value_branch (unary u) a f raw = ok (
    plain (representation raw f.bit_width f.signedness ∷ []) (unary_result u f.bit_width raw)
      (unary_overflow u f raw))
value_branch (shift s) a f raw = shift_branch s a.count f raw
value_branch reverse_bytes a f raw = ok (
    plain (representation raw f.bit_width f.signedness ∷ [])
      (reverse_chunks (f.bit_width / 8) 0 raw f.bit_width 8 0) false)
value_branch reverse_words a f raw = do
  require (f.bit_width % 16 == 0) e_input
  ok (
      plain (representation raw f.bit_width f.signedness ∷ [])
        (reverse_chunks (f.bit_width / 16) 0 raw f.bit_width 16 0) false)
value_branch extract a f raw = extract_branch a f raw
value_branch insert a f raw = insert_branch a f raw
value_branch align_up a f raw = align_up_branch a f raw
value_branch align_down a f raw = align_down_branch a f raw

unfoldable pub binary_branch : BinaryAction → Arguments → Format → Result Locals
unfolding decode_literal binary_result representation
binary_branch b a f = do
  left ← decode_literal a.left f
  right ← decode_literal a.right f
  ok (
      plain
        (representation left f.bit_width f.signedness
          ∷ representation right f.bit_width f.signedness
          ∷ [])
        (binary_result b f.bit_width left right) false)

unfoldable pub read_value : Action → Arguments → Format → Result Locals
unfolding decode_literal value_branch
read_value act a f = do raw ← decode_literal a.value_text f; value_branch act a f raw

abbrev pub branch : Action → Arguments → Format → Result Locals
branch (binary b) a f = binary_branch b a f
branch act a f = read_value act a f

-- "1" in discarded_bits
abbrev pub has_one : List ℕ → Bool
has_one [] = false
has_one (c ∷ cs) = if c == b'1' then true else has_one cs

abbrev pub truncation : Option (List ℕ) → Bool
truncation none = false
truncation (some cs) = has_one cs

pub record BitwiseResult : Type 0 where
  pub action : Action
  pub format : Format
  pub locals : Locals
  pub result : Representation
  pub wrapped : Bool
  pub truncated : Bool

unfoldable pub bitwise : Arguments → Result BitwiseResult
unfolding common enum_arg binary_branch read_value representation
bitwise a = do
  action ← enum_arg a.action (binary and_action)
  f ← common a.bit_width a.signedness a.input_mode
  l ← branch action a f
  ok (record {
    action = action;
    format = f;
    locals = l;
    result = representation l.raw_result f.bit_width f.signedness;
    wrapped = l.overflow;
    truncated = truncation l.discarded_bits;
  })

-- `represent`
unfoldable pub represent : Arg → Arg → Choice Signedness → Choice InputMode → Result Representation
unfolding common decode_literal representation
represent v width signs mode = do
  f ← common width signs mode
  raw ← decode_literal v f
  ok (representation raw f.bit_width f.signedness)
