-- ===== src/Integers.antt =====
-- The programmer's integers: fixed-width words and what they stand for
-- (src/math_anchor/operations/programmer.py and the integer division of operations/rounding.py).
-- A raw word is a number below 2 ^ bit_width; `str`, which prints an integer, is left to the reader.
pub mod Words
pub mod Division
pub mod Literals
pub mod Representation
pub mod Arithmetic
pub mod Actions
pub mod Bitwise
use math_anchor.Base.{
  ℕ, ◌+◌, ◌-◌, ◌*◌, ◌/◌, ◌%◌, ◌^◌, Bool, true, false, ◌&&◌, not, Option, none, some, List, [], ◌∷◌,
  ◌++◌, ltb, leb, ◌==◌, if◌then◌else◌, bit_and, Result, ok, err, Code, e_input, e_limit, require,
  ◌>>=◌, ◌>>◌,
}
use math_anchor.Base.Int.{ℤ, pos, negsuc, pos_part, neg, sub_ℕ, leb_ℤ}

pub data Signedness : Type 0 where
  unsigned twos_complement : Signedness

pub data InputMode : Type 0 where
  value bits : InputMode

-- What a dictionary of arguments holds under a name: nothing, an int that is no bool, a string as
-- its code points, or something else.
pub data Arg : Type 0 where
  missing : Arg
  int : ℤ → Arg
  text : List ℕ → Arg
  other : Arg

-- An argument that is read by `enum_arg`: one of the choices, or a value that is none of them.
pub data Choice (A : Type 0) : Type 0 where
  unset : Choice A
  chosen : A → Choice A
  invalid : Choice A

unfoldable pub enum_arg : {A : Type 0} → Choice A → A → Result A
enum_arg unset d = ok d
enum_arg (chosen a) d = ok a
enum_arg invalid d = err e_input

abbrev within : ℕ → ℕ → ℤ → Result ℕ
within lo hi v = do require (leb_ℤ (pos lo) v && leb_ℤ v (pos hi)) e_limit; ok (pos_part v)

-- `integer_arg`, where the minimum is not negative.
unfoldable pub integer_arg : Arg → ℕ → ℕ → ℕ → Result ℕ
integer_arg missing d lo hi = within lo hi (pos d)
integer_arg (int v) d lo hi = within lo hi v
integer_arg _ d lo hi = err e_input

-- bit_width in _BIT_WIDTHS
abbrev pub is_bit_width : ℕ → Bool
is_bit_width w =
    if w == 8
    then true
    else if w == 16
    then true
    else if w == 32
    then true
    else if w == 64
    then true
    else if w == 128
    then true
    else w == 256

pub record Format : Type 0 where
  pub bit_width : ℕ
  pub signedness : Signedness
  pub input_mode : InputMode

-- `_common`
unfoldable pub common : Arg → Choice Signedness → Choice InputMode → Result Format
unfolding integer_arg enum_arg
common width signs mode = do
  bit_width ← integer_arg width 64 8 256
  require (is_bit_width bit_width) e_input
  signedness ← enum_arg signs unsigned
  input_mode ← enum_arg mode value
  ok (record { bit_width = bit_width; signedness = signedness; input_mode = input_mode })

-- `_signed_value`; the width is positive.
unfoldable pub signed_value : ℕ → ℕ → ℤ
signed_value raw w = if bit_and raw (2 ^ (w - 1)) == 0 then pos raw else sub_ℕ raw (2 ^ w)

unfoldable pub selected_value : ℕ → ℕ → Signedness → ℤ
unfolding signed_value
selected_value raw w twos_complement = signed_value raw w
selected_value raw w unsigned = pos raw

-- `_selected_range`
unfoldable pub selected_range : ℕ → Signedness → ℤ × ℤ
unfolding neg
selected_range w unsigned = (pos 0, pos (2 ^ w - 1))
selected_range w twos_complement = (neg (pos (2 ^ (w - 1))), pos (2 ^ (w - 1) - 1))

-- `_selected_range_contains`
unfoldable pub selected_range_contains : ℤ → ℕ → Signedness → Bool
unfolding neg
selected_range_contains v w unsigned = leb_ℤ (pos 0) v && leb_ℤ v (pos (2 ^ w - 1))
selected_range_contains v w twos_complement =
    leb_ℤ (neg (pos (2 ^ (w - 1)))) v && leb_ℤ v (pos (2 ^ (w - 1) - 1))
