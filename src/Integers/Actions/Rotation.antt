-- ===== src/Integers/Actions/Rotation.antt =====
-- The rotations of `bitwise` (src/math_anchor/operations/programmer.py): a word as two fields.
use math_anchor.Base.{
  ℕ, zero, suc, ◌+◌, ◌-◌, ◌*◌, ◌/◌, ◌%◌, ◌^◌, ◌≤◌, ◌<◌, ◌≡◌, refl, ap, sym, ◌∙◌, arith, bit_and,
  bit_or, ◌==◌, false,
}
use math_anchor.Base.Bits.{
  two_pow_pos, two_pow_suc, bit_and-mask, bit_or-disjoint, mod_unique, div_unique, bit_or_halve,
}
use math_anchor.Integers.Actions.{
  rotated_left, rotated_right, shift_result, rotate_left, rotate_right, mask,
}
use native.Mathlib.Nat.{div-add-mod, mod-lt, div-lt_iff_lt-mul}

pub two_pow-add : (a b : ℕ) → 2 ^ (a + b) ≡ 2 ^ a * 2 ^ b
two_pow-add a zero = let e : a + 0 ≡ a = omega arith in rw e (omega arith)
two_pow-add a (suc b) =
    let e : a + suc b ≡ suc (a + b) = omega arith in
    rw e (omega (arith, two_pow_suc (a + b), two_pow-add a b, ap (λ t. 2 ^ a * t) (two_pow_suc b)))

bit_or_comm_below : (n a b : ℕ) → a ≤ n → b ≤ n → bit_or a b ≡ bit_or b a
bit_or_comm_below zero a b p q =
    let za : a ≡ 0 = omega arith in let zb : b ≡ 0 = omega arith in rw (za, zb)
bit_or_comm_below (suc n) a b p q = omega (
  arith,
  bit_or_halve a b,
  bit_or_halve b a,
  bit_or_comm_below n (a / 2) (b / 2) (omega arith) (omega arith),
)

bit_or_comm : (a b : ℕ) → bit_or a b ≡ bit_or b a
bit_or_comm a b = bit_or_comm_below (a + b) a b (omega arith) (omega arith)

below_product : (p q lo hi : ℕ) → lo < q → hi < p → lo * p + hi < q * p
below_product p q lo hi l h = grind arith

-- Rotating by `e` swaps the two fields that it cuts the word into.
rotated_left-fields :
    (w e hi lo : ℕ)
    → 0 < e
    → e < w
    → lo < 2 ^ (w - e)
    → hi < 2 ^ e
    → rotated_left w (hi * 2 ^ (w - e) + lo) e ≡ lo * 2 ^ e + hi
unfolding rotated_left
rotated_left-fields w e hi lo p q l h = rw nonzero (
    ap (λ t. bit_and (bit_or (raw * 2 ^ e) t) (mask w)) high
    ∙ ap (λ t. bit_and t (mask w)) (bit_or-disjoint e raw hi h)
    ∙ bit_and-mask w (raw * 2 ^ e + hi)
    ∙ ap (λ t. t % 2 ^ w) regroup
    ∙ mod_unique (2 ^ w) hi (lo * 2 ^ e + hi) fits)
  where
    raw : ℕ
    raw = hi * 2 ^ (w - e) + lo

    nonzero : (e == 0) ≡ false
    nonzero = ground arith

    product : 2 ^ w ≡ 2 ^ (w - e) * 2 ^ e
    product = ap (λ n. 2 ^ n) (omega arith) ∙ two_pow-add (w - e) e

    high : raw / 2 ^ (w - e) ≡ hi
    high = ap (λ t. t / 2 ^ (w - e)) (omega arith) ∙ div_unique (2 ^ (w - e)) hi lo l

    regroup : raw * 2 ^ e + hi ≡ 2 ^ w * hi + (lo * 2 ^ e + hi)
    regroup = omega (arith, ap (λ t. t * hi) product)

    fits : lo * 2 ^ e + hi < 2 ^ w
    fits = rw product (below_product (2 ^ e) (2 ^ (w - e)) lo hi l h)

rotated_right-as_left :
    (w raw e : ℕ) → 0 < e → e < w → rotated_right w raw e ≡ rotated_left w raw (w - e)
unfolding rotated_left rotated_right
rotated_right-as_left w raw e p q =
    let here : (e == 0) ≡ false = ground arith in
    let there : (w - e == 0) ≡ false = ground arith in
    let back : w - (w - e) ≡ e = omega arith in
    rw (here, there, back)
      (ap (λ t. bit_and t (mask w)) (bit_or_comm (raw / 2 ^ e) (raw * 2 ^ (w - e))))

rotated_back : (w raw e : ℕ) → e < w → raw < 2 ^ w → rotated_right w (rotated_left w raw e) e ≡ raw
rotated_back w raw zero q h = unfold rotated_left rotated_right in refl
rotated_back w raw (suc d) q h =
    rotated_right-as_left w (rotated_left w raw e) e (omega arith) q
    ∙ ap (λ t. rotated_left w t (w - e))
        (ap (λ t. rotated_left w t e) whole
          ∙ rotated_left-fields w e hi lo (omega arith) q lo_lt hi_lt
          ∙ ap (λ n. lo * 2 ^ n + hi) (sym back))
    ∙ rotated_left-fields w (w - e) lo hi (omega arith) (omega arith) (rw back hi_lt) lo_lt
    ∙ sym whole
  where
    e : ℕ
    e = suc d

    hi : ℕ
    hi = raw / 2 ^ (w - e)

    lo : ℕ
    lo = raw % 2 ^ (w - e)

    back : w - (w - e) ≡ e
    back = omega arith

    product : 2 ^ w ≡ 2 ^ e * 2 ^ (w - e)
    product = ap (λ n. 2 ^ n) (omega arith) ∙ two_pow-add e (w - e)

    whole : raw ≡ hi * 2 ^ (w - e) + lo
    whole = omega (arith, div-add-mod raw (2 ^ (w - e)))

    lo_lt : lo < 2 ^ (w - e)
    lo_lt = mod-lt raw (two_pow_pos (w - e))

    hi_lt : hi < 2 ^ e
    hi_lt = (div-lt_iff_lt-mul (two_pow_pos (w - e))).1 (rw product at h)

-- Rotating left and then right by the same count, of any size, gives the word back.
pub rotate_right-rotate_left :
    (w raw count : ℕ)
    → 0 < w
    → raw < 2 ^ w
    → shift_result rotate_right w (shift_result rotate_left w raw count) count ≡ raw
unfolding shift_result
rotate_right-rotate_left w raw count p h = rotated_back w raw (count % w) (omega arith) h
