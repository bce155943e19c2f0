-- ===== src/Integers/Literals.antt =====
-- Integer literals of operations/programmer.py: `string_arg` of validation.py, the pattern
-- `_LITERAL`, and the three decoders. A text is the list of its code points.
pub mod Digits
pub mod RoundTrip
use math_anchor.Base.{
  ℕ, zero, suc, ◌+◌, ◌-◌, ◌*◌, ◌/◌, ◌%◌, ◌^◌, Bool, true, false, ◌&&◌, ◌||◌, not, Option, none,
  some, List, [], ◌∷◌, ◌++◌, reverse, ltb, leb, ◌==◌, if◌then◌else◌, Result, ok, err, e_input,
  e_limit, require, ◌>>=◌, ◌>>◌, length,
}
use math_anchor.Base.Int.{ℤ, pos, pos_part, neg, leb_ℤ, ltb_ℤ}
use math_anchor.Base.Python.{low_bits}
use math_anchor.Integers.{
  Arg, missing, int, text, other, Signedness, unsigned, twos_complement, InputMode, value, bits,
  Format, selected_range_contains,
}

abbrev between : ℕ → ℕ → ℕ → Bool
between lo hi c = leb lo c && leb c hi

-- The characters that `str.strip` takes off.
abbrev pub is_space : ℕ → Bool
is_space c =
    between 9 13 c
    || between 28 32 c
    || c == 0x85
    || c == 0xa0
    || c == 0x1680
    || between 0x2000 0x200a c
    || between 0x2028 0x2029 c
    || c == 0x202f
    || c == 0x205f
    || c == 0x3000

abbrev pub skip_spaces : List ℕ → List ℕ
skip_spaces [] = []
skip_spaces (c ∷ cs) = if is_space c then skip_spaces cs else c ∷ cs

abbrev pub strip : List ℕ → List ℕ
strip cs = reverse (skip_spaces (reverse (skip_spaces cs)))

abbrev pub is_empty : List ℕ → Bool
is_empty [] = true
is_empty (_ ∷ _) = false

-- `string_arg`, with no default
unfoldable pub string_arg : Arg → ℕ → Result (List ℕ)
string_arg (text cs) max_length = do
  let v = strip cs
  require (not (is_empty v)) e_input
  require (leb (length v) max_length) e_limit
  ok v
string_arg _ max_length = err e_input

-- The value of a digit; 16 for a character that is no digit of any base here.
abbrev pub digit_value : ℕ → ℕ
digit_value c =
    if between b'0' b'9' c
    then c - 48
    else if between b'a' b'f' c
    then c - 87
    else if between b'A' b'F' c
    then c - 55
    else 16

abbrev pub all_digits : ℕ → List ℕ → Bool
all_digits base [] = true
all_digits base (c ∷ cs) = if ltb (digit_value c) base then all_digits base cs else false

-- int(digits, base), for a text of digits of the base
abbrev pub int_from : ℕ → ℕ → List ℕ → ℕ
int_from base acc [] = acc
int_from base acc (c ∷ cs) = int_from base (acc * base + digit_value c) cs

-- The sign and what follows it.
abbrev pub split_sign : List ℕ → Bool × List ℕ
split_sign [] = (false, [])
split_sign (c ∷ cs) =
    if c == b'-' then (true, cs) else if c == b'+' then (false, cs) else (false, c ∷ cs)

-- The base by the letter behind a leading 0; 0 for none.
abbrev pub base_of : ℕ → ℕ
base_of c =
    if c == b'b' || c == b'B'
    then 2
    else if c == b'o' || c == b'O'
    then 8
    else if c == b'x' || c == b'X'
    then 16
    else 0

abbrev pub split_base : List ℕ → ℕ × List ℕ
split_base (z ∷ c ∷ cs) =
    if z == b'0' && not (base_of c == 0) then (base_of c, cs) else (10, z ∷ c ∷ cs)
split_base cs = (10, cs)

-- A literal that `_LITERAL` matches: whether it is negative, and its magnitude. A leading `0b`, `0o`
-- or `0x` is no decimal text, so the pattern's alternatives never overlap.
abbrev pub parse_digits : Bool → ℕ × List ℕ → Result (Bool × ℕ)
parse_digits negative (base, digits) = do
  require (not (is_empty digits) && all_digits base digits) e_input
  ok (negative, int_from base 0 digits)

unfoldable pub parse_literal : List ℕ → Result (Bool × ℕ)
parse_literal cs = parse_digits (split_sign cs).0 (split_base (split_sign cs).1)

abbrev pub signed : Bool → ℕ → ℤ
signed negative n = if negative then neg (pos n) else pos n

abbrev pub encode : Format → Bool → ℕ → Result ℕ
encode f negative parsed = elim f.input_mode [
  | bits ↦ do
    require (not negative) e_input
    require (leb parsed (2 ^ f.bit_width - 1)) e_limit
    ok parsed
  | value ↦ do
    require (selected_range_contains (signed negative parsed) f.bit_width f.signedness) e_limit
    ok (low_bits (signed negative parsed) (2 ^ f.bit_width - 1))
]

-- `_decode_literal`. Its own two range checks are those of `_selected_range_contains`.
unfoldable pub decode_literal : Arg → Format → Result ℕ
unfolding string_arg parse_literal
decode_literal a f = do
  literal ← string_arg a 260
  (negative, parsed) ← parse_literal literal
  encode f negative parsed

-- `_decode_unbounded_literal`
unfoldable pub decode_unbounded_literal : Arg → Result ℤ
unfolding string_arg parse_literal
decode_unbounded_literal a = do
  literal ← string_arg a 260
  (negative, parsed) ← parse_literal literal
  ok (signed negative parsed)

-- `_decode_field_literal`
unfoldable pub decode_field_literal : Arg → ℕ → Result ℕ
unfolding decode_unbounded_literal
decode_field_literal a field_width = do
  v ← decode_unbounded_literal a
  require (leb_ℤ (pos 0) v) e_input
  require (ltb_ℤ v (pos (2 ^ field_width))) e_limit
  ok (pos_part v)
