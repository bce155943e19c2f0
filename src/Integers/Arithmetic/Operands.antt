-- ===== src/Integers/Arithmetic/Operands.antt =====
-- The actions of `machine_arithmetic` on its operands (src/math_anchor/operations/programmer.py).
use math_anchor.Base.{
  ◌≡◌, ◌≢◌, refl, sym, true, not, Option, none, some, ok, err, >>=-eq-ok, subst, require-eq-ok,
  ok_inj, e_domain,
}
use math_anchor.Base.Int.{ℤ, pos, ◌+ℤ◌, ◌-ℤ◌, ◌*ℤ◌}
use math_anchor.Integers.{Choice, enum_arg, common}
use math_anchor.Integers.Division.{DivisionMode, truncating, divide, eq_ℤ}
use math_anchor.Integers.Division.Laws.{IsDivision, divide-IsDivision}
use math_anchor.Integers.Literals.{decode_literal}
use math_anchor.Integers.Representation.{representation}
use math_anchor.Integers.Arithmetic.{
  Action, add, subtract, multiply, divide_action, remainder_action, Arguments, MachineResult, Exact,
  checked, division, as_quotient, as_remainder, exact, report, machine_arithmetic,
}

-- The result `z`, its remainder and its mode of division, for operands `x` and `y`.
abbrev pub Law : Action → ℤ → ℤ → ℤ → Option ℤ → Option DivisionMode → Type 0
Law add x y z rest mode = (z ≡ x +ℤ y) × (rest ≡ none)
Law subtract x y z rest mode = (z ≡ x -ℤ y) × (rest ≡ none)
Law multiply x y z rest mode = (z ≡ x *ℤ y) × (rest ≡ none)
Law divide_action x y z rest mode =
    (m : DivisionMode) × (r : ℤ) × (mode ≡ some m) × (rest ≡ some r) × IsDivision m x y z r
Law remainder_action x y z rest mode =
    (m : DivisionMode) × (q : ℤ) × (mode ≡ some m) × IsDivision m x y q z

nonzero : (y : ℤ) → not (eq_ℤ y (pos 0)) ≡ true → y ≢ pos 0
nonzero y h e = absurd (bad (rw e at h))
  where
    bad : not (eq_ℤ (pos 0) (pos 0)) ≡ true → ⊥
    bad b = cc

division-Law :
    (c : Choice DivisionMode) (x y : ℤ) (k : ℤ × ℤ → Exact) {e : Exact}
    → division c x y k ≡ ok e
    → (m : DivisionMode) × (e ≡ record (k (divide x y m)) { division_mode = some m })
      × IsDivision m x y (divide x y m).0 (divide x y m).1
unfolding division
division-Law c x y k h =
    let (ne, h₁) = require-eq-ok (not (eq_ℤ y (pos 0))) e_domain _ h in
    let (m, _, h₂) = >>=-eq-ok (enum_arg c truncating) _ h₁ in
    (m, sym (ok_inj h₂), divide-IsDivision m x y (nonzero y ne))

exact-Law :
    (a : Action) (c : Choice DivisionMode) (x y : ℤ) {e : Exact}
    → exact a c x y ≡ ok e
    → Law a x y e.result e.remainder e.division_mode
unfolding exact
exact-Law add c x y h = rw (← ok_inj h) (refl, refl)
exact-Law subtract c x y h = rw (← ok_inj h) (refl, refl)
exact-Law multiply c x y h = rw (← ok_inj h) (refl, refl)
exact-Law divide_action c x y h =
    let (m, e, d) = division-Law c x y as_quotient h in rw e (m, (divide x y m).1, refl, refl, d)
exact-Law remainder_action c x y h =
    let (m, e, d) = division-Law c x y as_remainder h in rw e (m, (divide x y m).0, refl, d)

-- An answer's mathematical result comes from the operands that it shows, by its action: their sum,
-- difference or product, or the quotient or the remainder of a division that is exact and whose
-- remainder is small and has the sign of the mode that is shown.
pub machine_arithmetic-Law :
    (a : Arguments) {m : MachineResult}
    → machine_arithmetic a ≡ ok m
    → Law m.action m.left.decimal m.right.decimal m.mathematical_result m.mathematical_remainder
        m.division_mode
unfolding machine_arithmetic
machine_arithmetic-Law a h =
    let (act, _, h₁) = >>=-eq-ok (enum_arg a.action add) _ h in
    let (f, wide, h₂) = >>=-eq-ok (common a.bit_width a.signedness a.input_mode) _ h₁ in
    let (b, _, h₃) = >>=-eq-ok (enum_arg a.overflow_behavior checked) _ h₂ in
    let (l, _, h₄) = >>=-eq-ok (decode_literal a.left f) _ h₃ in
    let (r, _, h₅) = >>=-eq-ok (decode_literal a.right f) _ h₄ in
    let (e, law, h₆) = >>=-eq-ok (exact act a.division_mode _ _) _ h₅ in
    subst
      (λ m.
        Law m.action m.left.decimal m.right.decimal m.mathematical_result m.mathematical_remainder
          m.division_mode)
      (ok_inj h₆) (unfold report representation in exact-Law act a.division_mode _ _ law)

-- Dividing by zero is refused, in every mode and for every dividend.
pub exact_zero_divisor :
    (c : Choice DivisionMode) (x : ℤ)
    → (exact divide_action c x (pos 0) ≡ err e_domain)
      × (exact remainder_action c x (pos 0) ≡ err e_domain)
unfolding exact
exact_zero_divisor c x = (refl, refl)
