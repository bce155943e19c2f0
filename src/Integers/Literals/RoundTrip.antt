-- ===== src/Integers/Literals/RoundTrip.antt =====
-- `_decode_literal` on the digits of `_representation` (src/math_anchor/operations/programmer.py).
use math_anchor.Base.{
  ℕ, zero, suc, ◌+◌, ◌-◌, ◌/◌, ◌^◌, ◌≤◌, ◌<◌, ◌≡◌, refl, ap, subst, sym, ◌∙◌, arith, true, false,
  List, [], ◌∷◌, reverse, reverse-reverse, le→leb, ◌==◌, All, All-append, length, ok, reverse-cons,
}
use math_anchor.Integers.{text, Format, Signedness, bits, is_bit_width}
use math_anchor.Integers.Literals.{
  is_space, skip_spaces, strip, string_arg, parse_literal, decode_literal, base_of, is_empty,
}
use math_anchor.Integers.Literals.Digits.{
  int_from-render, all_digits-render, length-render, render-no_space, is_space-word,
}
use math_anchor.Integers.Representation.{render, representation}

abbrev NoSpace : List ℕ → Type 0
NoSpace = All (λ c. is_space c ≡ false)

skip_spaces-none : (cs : List ℕ) → NoSpace cs → skip_spaces cs ≡ cs
skip_spaces-none [] h = refl
skip_spaces-none (c ∷ cs) h = rw h.0

reverse-NoSpace : (cs : List ℕ) → NoSpace cs → NoSpace (reverse cs)
reverse-NoSpace [] h = tt
reverse-NoSpace (c ∷ cs) h =
    subst NoSpace (sym (reverse-cons c cs)) (
      All-append (λ c. is_space c ≡ false) (reverse cs) (c ∷ []) (reverse-NoSpace cs h.1) (h.0, tt))

is_empty-length : (cs : List ℕ) → 0 < length cs → is_empty cs ≡ false
is_empty-length [] h = absurd (omega arith)
is_empty-length (c ∷ cs) h = refl

-- A text without spaces is what `strip` leaves of it.
strip-none : (cs : List ℕ) → NoSpace cs → strip cs ≡ cs
strip-none cs h =
    ap (λ t. reverse (skip_spaces (reverse t))) (skip_spaces-none cs h)
    ∙ ap reverse (skip_spaces-none (reverse cs) (reverse-NoSpace cs h))
    ∙ reverse-reverse cs

string_arg-word :
    (c : ℕ) (cs : List ℕ)
    → NoSpace (c ∷ cs)
    → length (c ∷ cs) ≤ 260
    → string_arg (text (c ∷ cs)) 260 ≡ ok (c ∷ cs)
unfolding string_arg
string_arg-word c cs h l = rw (strip-none (c ∷ cs) h, le→leb _ _ l)

module _ (b letter : ℕ) (b_pos : 0 < b) (b_le : b ≤ 16) (lettered : base_of letter ≡ b) where
  -- Digits behind a prefix, as the pattern reads them.
  parse_literal-render :
      (n raw : ℕ)
      → raw < b ^ suc n
      → parse_literal (b'0' ∷ letter ∷ render b (suc n) raw) ≡ ok (false, raw)
  unfolding parse_literal
  parse_literal-render n raw h =
      let positive : (b == 0) ≡ false = ground arith in
      rw (
        lettered,
        positive,
        is_empty-length (render b (suc n) raw)
            (omega (arith, length-render b b_pos b_le (suc n) raw)),
        all_digits-render b b_pos b_le (suc n) raw,
        int_from-render b b_pos b_le (suc n) raw h,
      )

  decode_literal-render :
      (n raw w : ℕ) (s : Signedness)
      → raw < b ^ suc n
      → raw < 2 ^ w
      → suc n ≤ 258
      → 43 ≤ letter
      → letter ≤ 0x7a
      → decode_literal
          (text (b'0' ∷ letter ∷ render b (suc n) raw))
          (record { bit_width = w; signedness = s; input_mode = bits })
        ≡ ok raw
  unfolding decode_literal
  decode_literal-render n raw w s h k l lo hi = rw (
    string_arg-word b'0' (letter ∷ render b (suc n) raw)
        (refl, (is_space-word letter lo hi, render-no_space b b_pos b_le (suc n) raw))
        (omega (arith, length-render b b_pos b_le (suc n) raw)),
    parse_literal-render n raw h,
    le→leb raw (2 ^ w - 1) (omega arith),
  )

fits :
    (w : ℕ)
    → is_bit_width w ≡ true
    → (2 ^ w ≤ 8 ^ ((w + 2) / 3)) × (2 ^ w ≤ 16 ^ (w / 4)) × (w ≤ 256) × (8 ≤ w)
fits w h = ground arith

module _ (b letter : ℕ) (b_pos : 0 < b) (b_le : b ≤ 16) (lettered : base_of letter ≡ b) where
  decode_literal-width :
      (n raw w : ℕ) (s : Signedness)
      → raw < 2 ^ w
      → 2 ^ w ≤ b ^ n
      → 0 < n
      → n ≤ 258
      → 43 ≤ letter
      → letter ≤ 0x7a
      → decode_literal
          (text (b'0' ∷ letter ∷ render b n raw))
          (record { bit_width = w; signedness = s; input_mode = bits })
        ≡ ok raw
  decode_literal-width zero raw w s h k p l lo hi = absurd (omega arith)
  decode_literal-width (suc n) raw w s h k p l lo hi =
      decode_literal-render b letter b_pos b_le lettered n raw w s (omega arith) h l lo hi

-- Every word is read back from its own representation: its binary, octal and hexadecimal digits,
-- behind `0b`, `0o` and `0x`, decode in the input mode `bits` to the word.
pub decode_literal-representation :
    (w raw : ℕ) (s : Signedness)
    → is_bit_width w ≡ true
    → raw < 2 ^ w
    → let f : Format = record { bit_width = w; signedness = s; input_mode = bits } in
      let r = representation raw w s in
      (decode_literal (text (b'0' ∷ b'b' ∷ r.binary)) f ≡ ok raw)
      × (decode_literal (text (b'0' ∷ b'o' ∷ r.octal)) f ≡ ok raw)
      × (decode_literal (text (b'0' ∷ b'x' ∷ r.hexadecimal)) f ≡ ok raw)
unfolding representation
decode_literal-representation w raw s width h =
    let (octal, hexadecimal, le, ge) = fits w width in
    (
      decode_literal-width 2 b'b' (omega arith) (omega arith) refl w raw w s h (omega arith)
          (omega arith) (omega arith) (omega arith) (omega arith),
      decode_literal-width 8 b'o' (omega arith) (omega arith) refl ((w + 2) / 3) raw w s h octal
          (omega arith) (omega arith) (omega arith) (omega arith),
      decode_literal-width 16 b'x' (omega arith) (omega arith) refl (w / 4) raw w s h hexadecimal
          (omega arith) (omega arith) (omega arith) (omega arith),
    )
