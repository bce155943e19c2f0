-- ===== src/Integers/Arithmetic.antt =====
-- `machine_arithmetic` of operations/programmer.py. Messages are left out: which warning is given
-- follows from `overflow` and the overflow behaviour.
pub mod Outcomes
pub mod Operands
use math_anchor.Base.{
  ℕ, ◌-◌, ◌^◌, Bool, true, false, ◌&&◌, not, Option, none, some, if◌then◌else◌, Result, ok, err,
  e_domain, require, ◌>>=◌, ◌>>◌,
}
use math_anchor.Base.Int.{ℤ, pos, ltb_ℤ, ◌+ℤ◌, ◌-ℤ◌, ◌*ℤ◌}
use math_anchor.Base.Python.{low_bits}
use math_anchor.Integers.{
  Arg, Choice, enum_arg, Format, Signedness, InputMode, common, selected_value, selected_range,
  selected_range_contains,
}
use math_anchor.Integers.Division.{DivisionMode, truncating, divide, eq_ℤ}
use math_anchor.Integers.Literals.{decode_literal}
use math_anchor.Integers.Representation.{Representation, representation}

pub data Action : Type 0 where
  add subtract multiply divide_action remainder_action : Action

pub data OverflowBehavior : Type 0 where
  checked wrapping saturating : OverflowBehavior

pub data Outcome : Type 0 where
  value_outcome overflow_outcome : Outcome

pub record Arguments : Type 0 where
  pub action : Choice Action
  pub bit_width : Arg
  pub signedness : Choice Signedness
  pub input_mode : Choice InputMode
  pub overflow_behavior : Choice OverflowBehavior
  pub division_mode : Choice DivisionMode
  pub left : Arg
  pub right : Arg

-- The mathematical result, before it meets the width.
pub record Exact : Type 0 where
  pub result : ℤ
  pub remainder : Option ℤ
  pub division_mode : Option DivisionMode

unfoldable pub division : Choice DivisionMode → ℤ → ℤ → (ℤ × ℤ → Exact) → Result Exact
unfolding enum_arg
division mode x y k = do
  require (not (eq_ℤ y (pos 0))) e_domain
  m ← enum_arg mode truncating
  ok (record (k (divide x y m)) { division_mode = some m })

abbrev pub as_quotient : ℤ × ℤ → Exact
as_quotient (q, r) = record { result = q; remainder = some r; division_mode = none }

abbrev pub as_remainder : ℤ × ℤ → Exact
as_remainder (q, r) = record { result = r; remainder = none; division_mode = none }

-- The chain of tests on the action.
unfoldable pub exact : Action → Choice DivisionMode → ℤ → ℤ → Result Exact
unfolding division
exact add mode x y = ok (record { result = x +ℤ y; remainder = none; division_mode = none })
exact subtract mode x y = ok (record { result = x -ℤ y; remainder = none; division_mode = none })
exact multiply mode x y = ok (record { result = x *ℤ y; remainder = none; division_mode = none })
exact divide_action mode x y = division mode x y as_quotient
exact remainder_action mode x y = division mode x y as_remainder

pub record MachineResult : Type 0 where
  pub action : Action
  pub format : Format
  pub overflow_behavior : OverflowBehavior
  pub division_mode : Option DivisionMode
  pub left : Representation
  pub right : Representation
  pub mathematical_result : ℤ
  pub mathematical_remainder : Option ℤ
  pub outcome : Outcome
  pub overflow : Bool
  pub wrapped : Bool
  pub saturated : Bool
  pub result : Option Representation
  pub remainder : Option Representation

-- min(max(x, minimum), maximum)
abbrev pub clamp : ℤ × ℤ → ℤ → ℤ
clamp (minimum, maximum) x =
    let low = if ltb_ℤ x minimum then minimum else x in if ltb_ℤ maximum low then maximum else low

-- The raw word of the result: none for checked arithmetic that overflowed.
unfoldable pub machine_word : OverflowBehavior → Format → ℤ → Option ℕ
unfolding selected_range selected_range_contains low_bits
machine_word behavior f x =
    let mask = 2 ^ f.bit_width - 1 in
    if selected_range_contains x f.bit_width f.signedness
    then some (low_bits x mask)
    else elim behavior [
      | checked ↦ none
      | wrapping ↦ some (low_bits x mask)
      | saturating ↦ some (low_bits (clamp (selected_range f.bit_width f.signedness) x) mask)
    ]

abbrev pub is_wrapping : OverflowBehavior → Bool
is_wrapping wrapping = true
is_wrapping _ = false

abbrev pub is_saturating : OverflowBehavior → Bool
is_saturating saturating = true
is_saturating _ = false

abbrev pub represent_word : Format → Option ℕ → Option Representation
represent_word f none = none
represent_word f (some raw) = some (representation raw f.bit_width f.signedness)

-- The raw word of the remainder, which is masked whatever the overflow behaviour.
abbrev pub remainder_word : Format → Option ℤ → Option ℕ
remainder_word f none = none
remainder_word f (some r) = some (low_bits r (2 ^ f.bit_width - 1))

abbrev pub outcome_of : Option ℕ → Outcome
outcome_of none = overflow_outcome
outcome_of (some _) = value_outcome

unfoldable pub report : Action → Format → OverflowBehavior → ℕ → ℕ → Exact → MachineResult
unfolding machine_word representation
report action f behavior left right e =
    let overflow = not (selected_range_contains e.result f.bit_width f.signedness) in
    let word = machine_word behavior f e.result in
    record {
      action = action;
      format = f;
      overflow_behavior = behavior;
      division_mode = e.division_mode;
      left = representation left f.bit_width f.signedness;
      right = representation right f.bit_width f.signedness;
      mathematical_result = e.result;
      mathematical_remainder = e.remainder;
      outcome = outcome_of word;
      overflow = overflow;
      wrapped = overflow && is_wrapping behavior;
      saturated = overflow && is_saturating behavior;
      result = represent_word f word;
      remainder = represent_word f (remainder_word f e.remainder);
    }

unfoldable pub machine_arithmetic : Arguments → Result MachineResult
unfolding common enum_arg decode_literal exact report
machine_arithmetic a = do
  action ← enum_arg a.action add
  f ← common a.bit_width a.signedness a.input_mode
  behavior ← enum_arg a.overflow_behavior checked
  left ← decode_literal a.left f
  right ← decode_literal a.right f
  e ←
      exact action a.division_mode (selected_value left f.bit_width f.signedness)
        (selected_value right f.bit_width f.signedness)
  ok (report action f behavior left right e)
