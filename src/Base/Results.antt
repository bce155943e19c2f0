-- ===== src/Base/Results.antt =====
-- Outcomes of fallible code: a value, or the code of the `CalculatorError` that was raised.
use math_anchor.Base.Tests.{if◌then◌else◌}
use mathlib.Core.Path.{◌≡◌, refl}
use mathlib.Core.Bool.{Bool, true, false}

-- The codes of src/math_anchor/errors.py that the modelled parts raise.
pub data Code : Type 0 where
  e_input e_limit e_domain e_output_limit e_receipt e_runtime e_operation e_name e_ast_block
        e_syntax :
      Code
  -- Python's own KeyError and ValueError
  key_error value_error : Code
  -- CertificateValidationError of src/math_anchor/certificate_checker.py
  certificate_invalid : Code

pub data Result {ℓ} (A : Type ℓ) : Type ℓ where
  ok : A → Result A
  err : Code → Result A

-- `require(condition, code, …)`
abbrev pub require : Bool → Code → Result (Unit {0})
require condition code = if condition then ok tt else err code

infixl 5 ◌>>=◌
-- The rest of the body runs on the value, and an exception ends it.
abbrev pub ◌>>=◌ {ℓ κ} : {A : Type ℓ} {B : Type κ} → Result A → (A → Result B) → Result B
err code >>= rest = err code
ok value >>= rest = rest value

infixl 5 ◌>>◌
abbrev pub ◌>>◌ {κ} : {B : Type κ} → Result (Unit {0}) → Result B → Result B
err code >> rest = err code
ok _ >> rest = rest

-- Inversion of a successful step.
pub >>=-eq-ok {ℓ κ} :
    {A : Type ℓ} {B : Type κ} (step : Result A) (rest : A → Result B) {answer : B}
    → (step >>= rest) ≡ ok answer
    → (value : A) × (step ≡ ok value) × (rest value ≡ ok answer)
>>=-eq-ok (err code) rest raised = cc
>>=-eq-ok (ok value) rest returned = (value, refl, returned)

pub >>-eq-ok {ℓ} :
    {B : Type ℓ} (step : Result (Unit {0})) (rest : Result B) {answer : B}
    → (step >> rest) ≡ ok answer
    → (step ≡ ok tt) × (rest ≡ ok answer)
>>-eq-ok (err code) rest raised = cc
>>-eq-ok (ok tt) rest returned = (refl, returned)

pub require-eq-ok {ℓ} :
    {B : Type ℓ} (condition : Bool) (code : Code) (rest : Result B) {answer : B}
    → (require condition code >> rest) ≡ ok answer
    → (condition ≡ true) × (rest ≡ ok answer)
require-eq-ok false code rest raised = cc
require-eq-ok true code rest returned = (refl, returned)

pub ok_inj {ℓ} : {A : Type ℓ} {value answer : A} → ok value ≡ ok answer → value ≡ answer
ok_inj same = cc
