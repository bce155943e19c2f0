-- ===== src/Integers/Arithmetic/Outcomes.antt =====
-- The overflow behaviours of `machine_arithmetic` (src/math_anchor/operations/programmer.py).
use math_anchor.Base.{
  ℕ, zero, suc, ◌-◌, ◌^◌, ◌<◌, ◌≡◌, refl, ap, sym, ◌∙◌, arith, Bool, true, false, not, Option, none,
  some, ok, false≢true, >>=-eq-ok, require-eq-ok, ok_inj, e_input, inl, inr, ◌⊎◌, subst,
}
use math_anchor.Base.Int.{ℤ, pos, neg, ◌+ℤ◌, ◌*ℤ◌, ◌<ℤ◌}
use math_anchor.Base.Bits.{two_pow_pos}
use math_anchor.Base.Python.{low_bits}
use math_anchor.Integers.{
  Format, Signedness, unsigned, twos_complement, common, selected_value, selected_range,
  selected_range_contains, is_bit_width, Arg, Choice, InputMode, enum_arg, integer_arg, value,
}
use math_anchor.Integers.Words.{selected_value-low_bits, low_bits-lt, low_bits-congruent}
use math_anchor.Integers.Literals.{decode_literal}
use math_anchor.Integers.Arithmetic
use math_anchor.Integers.Arithmetic.{
  Action, Arguments, MachineResult, Exact, OverflowBehavior, checked, wrapping, saturating, Outcome,
  value_outcome, overflow_outcome, clamp, machine_word, report, machine_arithmetic, represent_word,
  outcome_of,
}

-- The word `raw` of the format stands for `x`.
abbrev pub Denotes : Format → ℕ → ℤ → Type 0
Denotes f raw x = (raw < 2 ^ f.bit_width) × (selected_value raw f.bit_width f.signedness ≡ x)

clamp-above :
    (v : ℕ) (x : ℤ) (s : Signedness)
    → (selected_range (suc v) s).1 <ℤ x
    → clamp (selected_range (suc v) s) x ≡ (selected_range (suc v) s).1
unfolding selected_range neg
clamp-above v x unsigned h = ground arith
clamp-above v x twos_complement h =
    let e : suc v - 1 ≡ v = omega arith in ground (arith, e, two_pow_pos v)

clamp-below :
    (v : ℕ) (x : ℤ) (s : Signedness)
    → x <ℤ (selected_range (suc v) s).0
    → clamp (selected_range (suc v) s) x ≡ (selected_range (suc v) s).0
unfolding selected_range neg
clamp-below v x unsigned h = ground arith
clamp-below v x twos_complement h =
    let e : suc v - 1 ≡ v = omega arith in ground (arith, e, two_pow_pos v)

-- The ends of the range are in it, and what is outside lies beyond one of them.
ends_in_range :
    (v : ℕ) (s : Signedness)
    → (selected_range_contains (selected_range (suc v) s).0 (suc v) s ≡ true)
      × (selected_range_contains (selected_range (suc v) s).1 (suc v) s ≡ true)
unfolding selected_range selected_range_contains neg
ends_in_range v unsigned = ground arith
ends_in_range v twos_complement =
    let e : suc v - 1 ≡ v = omega arith in
    (ground (arith, e, two_pow_pos v), ground (arith, e, two_pow_pos v))

beyond :
    (v : ℕ) (x : ℤ) (s : Signedness)
    → selected_range_contains x (suc v) s ≡ false
    → ((selected_range (suc v) s).1 <ℤ x) ⊎ (x <ℤ (selected_range (suc v) s).0)
unfolding selected_range selected_range_contains neg
beyond v x unsigned h = ground arith
beyond v x twos_complement h = ground arith

-- A format of positive width.
abbrev pub format : ℕ → Signedness → InputMode → Format
format v s m = record { bit_width = suc v; signedness = s; input_mode = m }

-- What `result` holds, by the overflow behaviour.
abbrev pub Fits : OverflowBehavior → Format → ℤ → Option ℕ → Type 0
Fits checked f x word = word ≡ none
Fits wrapping f x word =
    (raw : ℕ) × (word ≡ some raw)
    × (raw < 2 ^ f.bit_width)
    × ((k : ℤ) × (x ≡ selected_value raw f.bit_width f.signedness +ℤ pos (2 ^ f.bit_width) *ℤ k))
Fits saturating f x word =
    (raw : ℕ) × (word ≡ some raw)
    × (raw < 2 ^ f.bit_width)
    × (let range = selected_range f.bit_width f.signedness in
        let y = selected_value raw f.bit_width f.signedness in
        ((range.1 <ℤ x) × (y ≡ range.1)) ⊎ ((x <ℤ range.0) × (y ≡ range.0)))

module _ (v : ℕ) (s : Signedness) (m : InputMode) (x : ℤ) where
  machine_word-exact :
      (b : OverflowBehavior)
      → selected_range_contains x (suc v) s ≡ true
      → (raw : ℕ) × (machine_word b (format v s m) x ≡ some raw) × Denotes (format v s m) raw x
  unfolding machine_word
  machine_word-exact b h =
      (low_bits x (2 ^ suc v - 1), rw h, (low_bits-lt x (suc v), selected_value-low_bits v x s h))

  saturated_value :
      (y : ℤ)
      → selected_range_contains y (suc v) s ≡ true
      → clamp (selected_range (suc v) s) x ≡ y
      → selected_value (low_bits (clamp (selected_range (suc v) s) x) (2 ^ suc v - 1)) (suc v) s ≡ y
  saturated_value y h e =
      ap (λ t. selected_value (low_bits t (2 ^ suc v - 1)) (suc v) s) e
      ∙ selected_value-low_bits v y s h

  machine_word-Fits :
      (b : OverflowBehavior)
      → selected_range_contains x (suc v) s ≡ false
      → Fits b (format v s m) x (machine_word b (format v s m) x)
  unfolding machine_word
  machine_word-Fits checked h = rw h
  machine_word-Fits wrapping h =
      (low_bits x (2 ^ suc v - 1), rw h, low_bits-lt x (suc v), low_bits-congruent v x s)
  machine_word-Fits saturating h = (
    low_bits (clamp (selected_range (suc v) s) x) (2 ^ suc v - 1),
    rw h,
    low_bits-lt _ (suc v),
    elim (beyond v x s h) [
      | inl above ↦ inl (above, saturated_value _ (ends_in_range v s).1 (clamp-above v x s above))
      | inr below ↦ inr (below, saturated_value _ (ends_in_range v s).0 (clamp-below v x s below))
    ],
  )

-- What `result` holds, by whether the mathematical result overflows.
abbrev pub Told : Bool → OverflowBehavior → Format → ℤ → Option ℕ → Type 0
Told false b f x word = (raw : ℕ) × (word ≡ some raw) × Denotes f raw x
Told true b f x word = Fits b f x word

-- The report on a mathematical result `x` in a format: which flags are raised, and the word.
pub record IsFaithful (m : MachineResult) : Type 0 where
  pub width : is_bit_width m.format.bit_width ≡ true
  pub flagged :
      m.overflow
      ≡ not (selected_range_contains m.mathematical_result m.format.bit_width m.format.signedness)
  pub word : Option ℕ
  pub shown : m.result ≡ represent_word m.format word
  pub outcome_shown : m.outcome ≡ outcome_of word
  pub told : Told m.overflow m.overflow_behavior m.format m.mathematical_result word

common-width :
    (w : Arg) (s : Choice Signedness) (i : Choice InputMode) {f : Format}
    → common w s i ≡ ok f
    → is_bit_width f.bit_width ≡ true
unfolding common
common-width w s i h =
    let (bits, _, h₁) = >>=-eq-ok (integer_arg w 64 8 256) _ h in
    let (wide, h₂) = require-eq-ok (is_bit_width bits) e_input _ h₁ in
    let (_, _, h₃) = >>=-eq-ok (enum_arg s unsigned) _ h₂ in
    let (_, _, h₄) = >>=-eq-ok (enum_arg i value) _ h₃ in
    subst (λ f. is_bit_width f.bit_width ≡ true) (ok_inj h₄) wide

positive_width : (w : ℕ) → is_bit_width w ≡ true → (v : ℕ) × (w ≡ suc v)
positive_width zero h = absurd (false≢true h)
positive_width (suc v) h = (v, refl)

format-eq : (f : Format) (v : ℕ) → f.bit_width ≡ suc v → f ≡ format v f.signedness f.input_mode
format-eq f v e = ground arith

-- The result of one operation in a format of positive width.
word-Fits :
    (b : OverflowBehavior) (f : Format) (x : ℤ)
    → is_bit_width f.bit_width ≡ true
    → selected_range_contains x f.bit_width f.signedness ≡ false
    → Fits b f x (machine_word b f x)
word-Fits b f x wide h =
    let (v, e) = positive_width f.bit_width wide in
    let g = format-eq f v e in
    subst (λ f. Fits b f x (machine_word b f x)) (sym g)
      (machine_word-Fits v f.signedness f.input_mode x b
        (ap (λ f. selected_range_contains x f.bit_width f.signedness) (sym g) ∙ h))

word-exact :
    (b : OverflowBehavior) (f : Format) (x : ℤ)
    → is_bit_width f.bit_width ≡ true
    → selected_range_contains x f.bit_width f.signedness ≡ true
    → (raw : ℕ) × (machine_word b f x ≡ some raw) × Denotes f raw x
word-exact b f x wide h =
    let (v, e) = positive_width f.bit_width wide in
    let g = format-eq f v e in
    subst (λ f. (raw : ℕ) × (machine_word b f x ≡ some raw) × Denotes f raw x) (sym g)
      (machine_word-exact v f.signedness f.input_mode x b
        (ap (λ f. selected_range_contains x f.bit_width f.signedness) (sym g) ∙ h))

told :
    (c : Bool) (b : OverflowBehavior) (f : Format) (x : ℤ) (word : Option ℕ)
    → (c ≡ true → (raw : ℕ) × (word ≡ some raw) × Denotes f raw x)
    → (c ≡ false → Fits b f x word)
    → Told (not c) b f x word
told true b f x word exact overflowed = exact refl
told false b f x word exact overflowed = overflowed refl

report-IsFaithful :
    (a : Action) (f : Format) (b : OverflowBehavior) (l r : ℕ) (e : Exact)
    → is_bit_width f.bit_width ≡ true
    → IsFaithful (report a f b l r e)
unfolding report
report-IsFaithful a f b l r e wide = record {
  width = wide;
  flagged = refl;
  word = machine_word b f e.result;
  shown = refl;
  outcome_shown = refl;
  told = told _ b f e.result _ (word-exact b f e.result wide) (word-Fits b f e.result wide);
}

-- Whenever `machine_arithmetic` gives an answer, its width is one of the six, `overflow` says that
-- the mathematical result does not fit the format, and `result` and `outcome` show one word, or its
-- absence: a word that stands for the mathematical result if that fits; otherwise none (checked), a
-- word that stands for it up to a multiple of 2 ^ bit_width (wrapping), or the word of the end of
-- the range that it lies beyond (saturating).
pub machine_arithmetic-IsFaithful :
    (a : Arguments) {m : MachineResult} → machine_arithmetic a ≡ ok m → IsFaithful m
unfolding machine_arithmetic
machine_arithmetic-IsFaithful a h =
    let (act, _, h₁) = >>=-eq-ok (enum_arg a.action Action.add) _ h in
    let (f, wide, h₂) = >>=-eq-ok (common a.bit_width a.signedness a.input_mode) _ h₁ in
    let (b, _, h₃) = >>=-eq-ok (enum_arg a.overflow_behavior checked) _ h₂ in
    let (l, _, h₄) = >>=-eq-ok (decode_literal a.left f) _ h₃ in
    let (r, _, h₅) = >>=-eq-ok (decode_literal a.right f) _ h₄ in
    let (e, _, h₆) = >>=-eq-ok (Arithmetic.exact act a.division_mode _ _) _ h₅ in
    subst IsFaithful (ok_inj h₆)
      (report-IsFaithful act f b l r e (common-width a.bit_width a.signedness a.input_mode wide))
