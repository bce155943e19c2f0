-- ===== src/Requests.antt =====
-- `_run_operation_impl` and `_execute_admitted_operation` of src/math_anchor/sandbox.py: one request
-- through the breaker, the admission controller and the worker pool. What the call does to them is
-- a list of acts, in order; what they, the worker and the clock answer is its `Surroundings`.
pub mod Accounts
pub mod Probe
use Prim.Native.String.{String}
use math_anchor.Base.{
  ℕ, Bool, true, false, ◌&&◌, ◌||◌, not, Option, none, some, List, [], ◌∷◌, ◌++◌, if◌then◌else◌,
}
use math_anchor.Base.Int.{ℤ, pos, leb_ℤ}
use math_anchor.Base.Json.{
  Json, integer, string, object, end, field, get, is_object, is_text, str_eq,
}
use math_anchor.Admission.{Lease}
use math_anchor.Admission
use math_anchor.Breaker.{CircuitPermit, Answer, permitted, refused}
use math_anchor.Breaker
use math_anchor.Errors.{error_payload, one_of}
use math_anchor.Output.{apply_output_policy}
use math_anchor.Pool.{Worker}
use math_anchor.Transport.{
  Encoded, line, rejected, no_answer, Refusal, max_request_nodes, max_request_depth,
  max_request_bytes,
}

-- `_error` (src/math_anchor/sandbox_errors.py), with an empty message.
abbrev pub failure : String → Option Json → Option String → Option ℤ → Json
failure code details phase retry_after_ms = object (
    field "status" (string "error")
      (field "error" (error_payload code "" details phase retry_after_ms none) end))

abbrev pub plain_failure : String → Json
plain_failure code = failure code none none none

-- {"phase": …, "timeoutMs": …}
abbrev pub phase_details : String → Json → Json
phase_details phase timeout_ms =
    object (field "phase" (string phase) (field "timeoutMs" timeout_ms end))

pub record Request : Type 0 where
  pub operation : Json
  pub arguments : Json
  pub timeout_ms : Json
  pub memory_mb : Json
  pub result_mode : Json
  pub max_output_bytes : Json
  -- operation in UNIT_REGISTRY_OPERATIONS
  pub uses_units : Bool

-- What the pool's `acquire` comes to.
pub data Taken : Type 0 where
  handed : Worker → Taken
  not_handed : Option Json → Taken
  pool_raised : Taken

-- What `_execute_worker` comes to: a result, whether the worker can be used again and whether the
-- output policy was applied; an `Exception`; or an exception that is none.
pub data Execution : Type 0 where
  executed : Json → Bool → Bool → Execution
  failed interrupted : Execution

pub record Surroundings : Type 0 where
  -- whether the call has been cancelled, at its start and once it has its worker
  pub cancelled_first : Bool
  pub cancelled_later : Bool
  -- whether the deadline has passed by then
  pub expired : Bool
  pub encoding : Encoded
  pub allowed : Answer
  pub admission : Admission.Outcome
  pub taken : Taken
  pub execution : Execution
  pub maximum_queued : ℕ
  -- the bytes of a value's JSON text
  pub size : Json → ℕ

-- What a call does to the breaker, the controller and the pool.
pub data Act : Type 0 where
  asks : Answer → Act
  abandons : CircuitPermit → Act
  records : Breaker.Outcome → CircuitPermit → Act
  enters : Lease → Act
  leaves : Lease → Act
  takes : Worker → Act
  -- and whether the worker can be used again
  gives_back : Worker → Bool → Act

pub data Reply : Type 0 where
  replied : Json → Reply
  escaped : Reply

pub record Run : Type 0 where
  pub acts : List Act
  pub reply : Reply

abbrev pub run_of : List Act → Reply → Run
run_of acts reply = record { acts = acts; reply = reply }

-- isinstance(n, int), not a bool, and low <= n <= high
abbrev pub int_within : ℕ → ℕ → Json → Bool
int_within low high (integer n) = leb_ℤ (pos low) n && leb_ℤ n (pos high)
int_within low high _ = false

abbrev pub is_operation : Json → Bool
is_operation (string s) = not (str_eq s "")
is_operation _ = false

abbrev pub is_result_mode : Json → Bool
is_result_mode (string s) = one_of s ("auto" ∷ "exact" ∷ "approx" ∷ "both" ∷ [])
is_result_mode _ = false

-- The guards of `_run_operation_impl`, in their order.
abbrev pub guard_failure : Request → Surroundings → Option Json
guard_failure r s =
    if s.cancelled_first
    then some (plain_failure "E_CANCELLED")
    else if not (int_within 100 30_000 r.timeout_ms)
    then some (plain_failure "E_LIMIT")
    else if not (int_within 256 4_096 r.memory_mb)
    then some (plain_failure "E_LIMIT")
    else if not (is_operation r.operation)
    then some (plain_failure "E_INPUT")
    else if not (is_object r.arguments)
    then some (plain_failure "E_INPUT")
    else if not (is_result_mode r.result_mode)
    then some (plain_failure "E_INPUT")
    else if not (int_within 1_024 1_048_576 r.max_output_bytes)
    then some (plain_failure "E_LIMIT")
    else none

abbrev pub rule_text : Refusal → Option String
rule_text max_request_nodes = some "maxRequestNodes"
rule_text max_request_depth = some "maxRequestDepth"
rule_text max_request_bytes = some "maxRequestBytes"
rule_text _ = none

abbrev pub budget_failure : Option String → Json
budget_failure (some rule) =
    failure "E_LIMIT"
      (some (
        object (
          field "rule" (string rule) (
            field "maxRequestBytes" (integer (pos 8_388_608))
              (field "maxRequestNodes" (integer (pos 250_000)) end)))))
      (some "input") none
budget_failure none = plain_failure "E_INPUT"

-- The failure of an encoding; an encoding always answers.
abbrev pub encoding_failure : Encoded → Option Json
encoding_failure (line s) = none
encoding_failure (rejected r) = some (budget_failure (rule_text r))
encoding_failure no_answer = some (plain_failure "E_INPUT")

-- worker.unit_registry_loaded = True, where it is reached
abbrev pub used_worker : Request → Worker → Json → Bool → Worker
used_worker r w result reusable =
    if reusable && r.uses_units && is_text (get "status" result) "ok"
    then record w { unit_registry_loaded = true }
    else w

-- `apply_output_policy` for the request, whose mode is a text and whose limit is a number here.
abbrev pub limited_to : (Json → ℕ) → Json → Json → Json → Json
limited_to size (string result_mode) (integer (pos n)) result =
    apply_output_policy size n result_mode result
limited_to size _ _ result = result

abbrev pub limited : Request → Surroundings → Json → Json
limited r s result = limited_to s.size r.result_mode r.max_output_bytes result

abbrev pub supervised : Request → Surroundings → Worker → Execution → Run
supervised r s w (executed result reusable policy_applied) =
    run_of (gives_back (used_worker r w result reusable) reusable ∷ [])
      (replied (if policy_applied then result else limited r s result))
supervised r s w failed =
    run_of (gives_back w false ∷ []) (replied (limited r s (plain_failure "E_RUNTIME")))
supervised r s w interrupted = run_of (gives_back w false ∷ []) escaped

abbrev pub with_worker : Request → Surroundings → Worker → Run
with_worker r s w =
    if s.cancelled_later
    then run_of (gives_back w true ∷ []) (replied (plain_failure "E_CANCELLED"))
    else if s.expired
    then run_of (gives_back w true ∷ [])
        (replied (failure "E_TIMEOUT" (some (phase_details "startup" r.timeout_ms)) none none))
    else supervised r s w s.execution

abbrev pub executed_with : Request → Surroundings → Taken → Run
executed_with r s (handed w) = let run = with_worker r s w in run_of (takes w ∷ run.acts) run.reply
executed_with r s (not_handed (some startup_error)) = run_of [] (replied startup_error)
executed_with r s (not_handed none) =
    run_of [] (replied (failure "E_RUNTIME" none (some "startup") none))
executed_with r s pool_raised = run_of [] escaped

unfoldable pub execute_admitted_operation : Request → Surroundings → Run
execute_admitted_operation r s = executed_with r s s.taken

-- The evidence that a result gives the breaker.
abbrev pub code_of : Option Json → Option Json
code_of none = none
code_of (some error) = get "code" error

abbrev pub outcome_of : Json → Breaker.Outcome
outcome_of result =
    if is_text (get "status" result) "error"
    then (if is_text (code_of (get "error" result)) "E_RUNTIME"
        then Breaker.Outcome.infrastructure_failure
        else Breaker.Outcome.error)
    else Breaker.Outcome.success

-- The `except`, the `finally` and what follows them.
abbrev pub accounted : CircuitPermit → Lease → List Act → Reply → Run
accounted p l acts (replied result) =
    run_of (acts ++ leaves l ∷ records (outcome_of result) p ∷ []) (replied result)
accounted p l acts escaped =
    run_of (acts ++ records Breaker.Outcome.infrastructure_failure p ∷ leaves l ∷ []) escaped

-- Once there is a permit. An answer `unsupported` or `lost` is a ValueError, which escapes.
abbrev pub admitted_with : Request → Surroundings → CircuitPermit → Admission.Outcome → Run
admitted_with r s p (Admission.Outcome.admitted l) =
    let run = execute_admitted_operation r s in accounted p l (enters l ∷ run.acts) run.reply
admitted_with r s p Admission.Outcome.unsupported = run_of [] escaped
admitted_with r s p Admission.Outcome.lost = run_of [] escaped
admitted_with r s p Admission.Outcome.overloaded = run_of (abandons p ∷ []) (
    replied (
      failure "E_OVERLOADED"
        (some (object (field "queueLimit" (integer (pos s.maximum_queued)) end))) (some "admission")
        (some (pos 100))))
admitted_with r s p Admission.Outcome.cancelled =
    run_of (abandons p ∷ []) (replied (plain_failure "E_CANCELLED"))
admitted_with r s p Admission.Outcome.timeout = run_of (abandons p ∷ []) (
    replied
      (failure "E_TIMEOUT" (some (phase_details "admission" r.timeout_ms)) (some "admission") none))
-- `acquire` returns no such answer
admitted_with r s p Admission.Outcome.waiting = run_of (abandons p ∷ []) escaped

abbrev pub permitted_with : Request → Surroundings → Answer → Run
permitted_with r s (refused retry_after_ms) =
    run_of []
      (replied (failure "E_UNAVAILABLE" none (some "admission") (some (pos retry_after_ms))))
permitted_with r s (permitted p) = admitted_with r s p s.admission

abbrev pub encoded_with : Request → Surroundings → Option Json → Run
encoded_with r s (some error) = run_of [] (replied (limited r s error))
encoded_with r s none =
    let run = permitted_with r s s.allowed in run_of (asks s.allowed ∷ run.acts) run.reply

abbrev pub guarded_with : Request → Surroundings → Option Json → Run
guarded_with r s (some error) = run_of [] (replied error)
guarded_with r s none = encoded_with r s (encoding_failure s.encoding)

unfoldable pub run_operation_impl : Request → Surroundings → Run
unfolding execute_admitted_operation
run_operation_impl r s = guarded_with r s (guard_failure r s)
