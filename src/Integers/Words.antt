-- ===== src/Integers/Words.antt =====
-- Words and the integers that they stand for: `value & mask`, `_signed_value`, `_selected_range`.
use math_anchor.Base.{
  ℕ, zero, suc, ◌+◌, ◌-◌, ◌*◌, ◌/◌, ◌%◌, ◌^◌, ◌<◌, ◌≡◌, ap, ap₂, ◌∙◌, sym, true, false, arith,
  bit_and, ◌==◌, ltb, ltb→lt, ◌↔◌, Bool-cases, inl, inr, if◌then◌else◌, min,
}
use math_anchor.Base.Int.{ℤ, pos, negsuc, neg, ◌+ℤ◌, ◌*ℤ◌, *ℤ_parts, int_laws}
use math_anchor.Base.Bits.{bit_and-mask, two_pow_pos, two_pow_suc, bit_and_halve, div_unique}
use math_anchor.Base.Python.{low_bits, residue, residue-lt, low_bits-mask, floor_natural}
use math_anchor.Integers.{
  Signedness, unsigned, twos_complement, signed_value, selected_value, selected_range_contains,
}
use native.Mathlib.Nat.{div-div-eq-div-mul, div-eq_of_lt, mod-eq_of_lt, div-add-mod, mod-lt}

-- One digit is kept by a mask of one digit.
bit_and-two_pow : (k a : ℕ) → bit_and a (2 ^ k) ≡ a / 2 ^ k % 2 * 2 ^ k
bit_and-two_pow zero a = omega (arith, bit_and-mask 1 a)
bit_and-two_pow (suc k) a =
    let pos = two_pow_pos k in
    let double = two_pow_suc k in
    let half : 2 ^ suc k / 2 ≡ 2 ^ k = omega (arith, double) in
    let even : 2 ^ suc k % 2 ≡ 0 = omega (arith, double) in
    bit_and_halve a (2 ^ suc k)
    ∙ ap₂ (λ h l. bit_and (a / 2) h * 2 + min (a % 2) l) half even
    ∙ ap (λ d. d * 2 + min (a % 2) 0) (bit_and-two_pow k (a / 2))
    ∙ ap (λ q. q % 2 * 2 ^ k * 2 + min (a % 2) 0)
        (div-div-eq-div-mul a 2 (2 ^ k) ∙ ap (λ m. a / m) (sym double))
    ∙ omega (arith, ap (λ t. a / 2 ^ suc k % 2 * t) double)

top_digit : (h a : ℕ) → a < 2 * h → (a / h % 2 * h == 0) ≡ ltb a h
top_digit h a l = elim (Bool-cases (ltb a h)) [
  | inl low ↦ let q : a / h ≡ 0 = div-eq_of_lt (ltb→lt a h low) in rw (q, low) (ground arith)
  | inr high ↦
      let q : a / h ≡ 1 = ap (λ x. x / h) (upper high) ∙ div_unique h 1 (a - h) (ground arith) in
      rw (q, high) (ground arith)
]
  where
    upper : ltb a h ≡ false → a ≡ h * 1 + (a - h)
    upper high = ground arith

-- The sign digit of a word says on which side of the middle it lies.
sign_digit : (v a : ℕ) → a < 2 ^ suc v → (bit_and a (2 ^ v) == 0) ≡ ltb a (2 ^ v)
sign_digit v a l =
    ap (λ t. t == 0) (bit_and-two_pow v a) ∙ top_digit (2 ^ v) a (omega (arith, two_pow_suc v))

-- The sign of a word without its digits.
abbrev pub as_signed : ℕ → ℕ → ℤ
as_signed h a = if ltb a h then pos a else negsuc (2 * h - a - 1)

signed_value-eq : (v a : ℕ) → a < 2 ^ suc v → signed_value a (suc v) ≡ as_signed (2 ^ v) a
unfolding signed_value
signed_value-eq v a l =
    let e : suc v - 1 ≡ v = omega arith in rw (e, sign_digit v a l) (ground (arith, two_pow_suc v))

-- The range that words of a signedness stand for, by the middle `h` of their values.
abbrev pub InRange : ℕ → Signedness → ℤ → Type 0
InRange h unsigned (pos a) = a < 2 * h
InRange h unsigned (negsuc a) = ⊥
InRange h twos_complement (pos a) = a < h
InRange h twos_complement (negsuc a) = a < h

pub selected_range_contains_iff :
    (v : ℕ) (x : ℤ) (s : Signedness)
    → (selected_range_contains x (suc v) s ≡ true) ↔ InRange (2 ^ v) s x
unfolding selected_range_contains neg
selected_range_contains_iff v (pos a) unsigned = ground (arith, two_pow_suc v, two_pow_pos v)
selected_range_contains_iff v (negsuc a) unsigned = ground arith
selected_range_contains_iff v (pos a) twos_complement =
    let e : suc v - 1 ≡ v = omega arith in rw e (ground (arith, two_pow_pos v))
selected_range_contains_iff v (negsuc a) twos_complement =
    let e : suc v - 1 ≡ v = omega arith in rw e (ground (arith, two_pow_pos v))

-- A word stands for an integer of its range.
pub selected_value-InRange :
    (v a : ℕ) (s : Signedness) → a < 2 ^ suc v → InRange (2 ^ v) s (selected_value a (suc v) s)
unfolding selected_value
selected_value-InRange v a unsigned l = omega (arith, two_pow_suc v)
selected_value-InRange v a twos_complement l =
    rw (signed_value-eq v a l) (ground (arith, two_pow_suc v))

-- Masking an integer of the range gives a word that stands for it.
residue-decode :
    (v : ℕ) (x : ℤ) (s : Signedness)
    → InRange (2 ^ v) s x
    → selected_value (residue x (2 ^ suc v)) (suc v) s ≡ x
unfolding selected_value
residue-decode v (pos a) unsigned r = ap pos (mod-eq_of_lt (omega (arith, two_pow_suc v)))
residue-decode v (negsuc a) unsigned r = absurd r
residue-decode v (pos a) twos_complement r =
    let small : a % 2 ^ suc v ≡ a = mod-eq_of_lt (omega (arith, two_pow_suc v)) in
    rw small (signed_value-eq v a (omega (arith, two_pow_suc v)) ∙ ground arith)
residue-decode v (negsuc a) twos_complement r =
    let small : a % 2 ^ suc v ≡ a = mod-eq_of_lt (omega (arith, two_pow_suc v)) in
    rw small (
      signed_value-eq v (2 ^ suc v - 1 - a) (omega (arith, two_pow_pos (suc v)))
      ∙ ground (arith, two_pow_suc v))

-- `value & mask` of an integer that fits is a word that stands for it.
pub selected_value-low_bits :
    (v : ℕ) (x : ℤ) (s : Signedness)
    → selected_range_contains x (suc v) s ≡ true
    → selected_value (low_bits x (2 ^ suc v - 1)) (suc v) s ≡ x
selected_value-low_bits v x s h =
    rw (low_bits-mask x (suc v)) (residue-decode v x s ((selected_range_contains_iff v x s).0 h))

pub low_bits-lt : (x : ℤ) (w : ℕ) → low_bits x (2 ^ w - 1) < 2 ^ w
low_bits-lt x w = rw low_bits-mask (residue-lt x (2 ^ w) (two_pow_pos w))

residue-as_signed : (h a : ℕ) → a < 2 * h → residue (as_signed h a) (2 * h) ≡ a
residue-as_signed h a l = elim (Bool-cases (ltb a h)) [
  | inl low ↦ rw low (mod-eq_of_lt l)
  | inr high ↦ rw high (omega (arith, mod-eq_of_lt {n = 2 * h - a - 1} {m = 2 * h} (omega arith)))
]

-- Masking what a word stands for gives the word again.
pub low_bits-selected_value :
    (v a : ℕ) (s : Signedness)
    → a < 2 ^ suc v
    → low_bits (selected_value a (suc v) s) (2 ^ suc v - 1) ≡ a
low_bits-selected_value v a s l = rw low_bits-mask (again s)
  where
    again : (s : Signedness) → residue (selected_value a (suc v) s) (2 ^ suc v) ≡ a
    again unsigned = unfold selected_value in mod-eq_of_lt l
    again twos_complement =
        unfold selected_value in
        ap₂ residue (signed_value-eq v a l) (two_pow_suc v)
        ∙ residue-as_signed (2 ^ v) a (omega (arith, two_pow_suc v))

module _ (m : ℕ) (m_pos : 0 < m) where
  -- One more lap of `m`.
  abbrev lap : ℤ → ℤ
  lap (pos q) = pos (suc q)
  lap (negsuc zero) = pos 0
  lap (negsuc (suc q)) = negsuc q

  residue-floor : (x : ℤ) → x ≡ pos (residue x m) +ℤ pos m *ℤ floor_natural x m
  residue-floor (pos a) = omega (int_laws, *ℤ_parts (pos m) (pos (a / m)), div-add-mod a m)
  residue-floor (negsuc a) =
      omega (int_laws, *ℤ_parts (pos m) (negsuc (a / m)), div-add-mod a m, mod-lt a m_pos)

  lap-eq : (r : ℕ) (k : ℤ) → r < m → pos r +ℤ pos m *ℤ k ≡ negsuc (m - r - 1) +ℤ pos m *ℤ lap k
  lap-eq r (pos q) l = omega (int_laws, *ℤ_parts (pos m) (pos q), *ℤ_parts (pos m) (pos (suc q)))
  lap-eq r (negsuc zero) l = omega (int_laws, *ℤ_parts (pos m) (negsuc 0), *ℤ_parts (pos m) (pos 0))
  lap-eq r (negsuc (suc q)) l =
      omega (int_laws, *ℤ_parts (pos m) (negsuc (suc q)), *ℤ_parts (pos m) (negsuc q))

-- Any integer differs from what its masked word stands for by a multiple of 2 ^ bit_width.
pub low_bits-congruent :
    (v : ℕ) (x : ℤ) (s : Signedness)
    → (k : ℤ) × (x ≡ selected_value (low_bits x (2 ^ suc v - 1)) (suc v) s +ℤ pos (2 ^ suc v) *ℤ k)
low_bits-congruent v x s = rw low_bits-mask (by_sign s)
  where
    m : ℕ
    m = 2 ^ suc v

    floor : x ≡ pos (residue x m) +ℤ pos m *ℤ floor_natural x m
    floor = residue-floor m (two_pow_pos (suc v)) x

    r_lt : residue x m < m
    r_lt = residue-lt x m (two_pow_pos (suc v))

    k : ℤ
    k = floor_natural x m

    value : selected_value (residue x m) (suc v) twos_complement ≡ as_signed (2 ^ v) (residue x m)
    value = unfold selected_value in signed_value-eq v (residue x m) r_lt

    as_low : ltb (residue x m) (2 ^ v) ≡ true → as_signed (2 ^ v) (residue x m) ≡ pos (residue x m)
    as_low low = rw low

    as_high :
        ltb (residue x m) (2 ^ v) ≡ false
        → as_signed (2 ^ v) (residue x m) ≡ negsuc (m - residue x m - 1)
    as_high high = rw (high, two_pow_suc v)

    by_sign :
        (s : Signedness)
        → (k : ℤ) × (x ≡ selected_value (residue x (2 ^ suc v)) (suc v) s +ℤ pos (2 ^ suc v) *ℤ k)
    by_sign unsigned = (floor_natural x m, unfold selected_value in floor)
    by_sign twos_complement = elim (Bool-cases (ltb (residue x m) (2 ^ v))) [
      | inl low ↦ (k, floor ∙ ap (λ t. t +ℤ pos m *ℤ k) (sym (value ∙ as_low low)))
      | inr high ↦ (
        lap m (two_pow_pos (suc v)) k,
        floor
            ∙ lap-eq m (two_pow_pos (suc v)) (residue x m) k r_lt
            ∙ ap (λ t. t +ℤ pos m *ℤ lap m (two_pow_pos (suc v)) k) (sym (value ∙ as_high high)),
      )
    ]
