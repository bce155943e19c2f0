-- ===== src/Integers/Representation.antt =====
-- `_representation` and `_character` of operations/programmer.py. Of a character the model keeps what
-- the word determines by itself; its name and whether it prints are Python's Unicode tables.
use math_anchor.Base.{
  ℕ, zero, suc, ◌+◌, ◌/◌, ◌%◌, Bool, true, false, ◌&&◌, not, Option, none, some, List, [], ◌∷◌,
  ◌++◌, ltb, leb, if◌then◌else◌,
}
use math_anchor.Base.Int.{ℤ}
use math_anchor.Integers.{Signedness, signed_value, selected_value}

abbrev pub digit_char : ℕ → ℕ
digit_char d = if ltb d 10 then 48 + d else 55 + d

-- The digits of a number below base ^ width, padded with zeros to the width, the highest first:
-- `f"{raw:0{width}b}"` and the like.
unfoldable pub render : ℕ → ℕ → ℕ → List ℕ
render base zero raw = []
render base (suc n) raw = render base n (raw / base) ++ digit_char (raw % base) ∷ []

pub record Character : Type 0 where
  pub valid_unicode_scalar : Bool
  -- the scalar that `U+…` prints
  pub unicode_scalar : Option ℕ
  pub ascii : Bool

unfoldable pub character : ℕ → Character
character raw =
    if leb raw 0x10ffff && not (leb 0xd800 raw && leb raw 0xdfff)
    then record { valid_unicode_scalar = true; unicode_scalar = some raw; ascii = leb raw 0x7f }
    else record { valid_unicode_scalar = false; unicode_scalar = none; ascii = false }

pub record Representation : Type 0 where
  pub unsigned_decimal : ℕ
  pub signed_decimal : ℤ
  pub decimal : ℤ
  pub binary : List ℕ
  pub octal : List ℕ
  pub hexadecimal : List ℕ
  pub character_of : Character

unfoldable pub representation : ℕ → ℕ → Signedness → Representation
unfolding signed_value selected_value render character
representation raw bit_width signedness = record {
  unsigned_decimal = raw;
  signed_decimal = signed_value raw bit_width;
  decimal = selected_value raw bit_width signedness;
  binary = render 2 bit_width raw;
  octal = render 8 ((bit_width + 2) / 3) raw;
  hexadecimal = render 16 (bit_width / 4) raw;
  character_of = character raw;
}
