-- ===== src/Errors.antt =====
-- `error_payload` of src/math_anchor/errors.py: the error contract that callers branch on.
use math_anchor.Base.{Bool, true, false, List, [], ◌∷◌, Option, none, some, if◌then◌else◌}
use math_anchor.Base.Int.{ℤ, pos, ltb_ℤ}
use math_anchor.Base.Json.{Json, string, boolean, integer, object, end, field, Fields, str_eq, get}
use Prim.Native.String.{String}

-- code in codes
abbrev pub one_of : String → List String → Bool
one_of s [] = false
one_of s (t ∷ ts) = if str_eq s t then true else one_of s ts

abbrev pub retryable_codes : List String
retryable_codes = "E_OVERLOADED" ∷ "E_RUNTIME" ∷ "E_UNAVAILABLE" ∷ []

abbrev pub input_codes : List String
input_codes =
    "E_AST_BLOCK" ∷ "E_DOMAIN" ∷ "E_INPUT" ∷ "E_LIMIT" ∷ "E_NAME" ∷ "E_OPERATION" ∷ "E_SYNTAX"
    ∷ "E_UNIT" ∷ []

unfoldable pub default_phase : String → String
default_phase code =
    if one_of code input_codes
    then "input"
    else if str_eq code "E_OUTPUT_LIMIT"
    then "output"
    else if str_eq code "E_CANCELLED"
    then "cancellation"
    else if one_of code ("E_MEMORY" ∷ "E_TIMEOUT" ∷ [])
    then "execution"
    else if one_of code ("E_OVERLOADED" ∷ "E_UNAVAILABLE" ∷ [])
    then "admission"
    else "execution"

-- The last test of `_default_action` has one answer on both sides.
unfoldable pub default_action : String → String
default_action code =
    if str_eq code "E_OPERATION"
    then "search_operation"
    else if one_of code input_codes
    then "correct_input"
    else if one_of code ("E_OUTPUT_LIMIT" ∷ "E_MEMORY" ∷ [])
    then "reduce_request"
    else if str_eq code "E_TIMEOUT"
    then "split_or_reduce"
    else if one_of code retryable_codes
    then "retry"
    else "stop"

abbrev pub stated_phase : String → Option Json → String
stated_phase code (some (string p)) = p
stated_phase code _ = default_phase code

-- details["phase"] if it is a text, else the default
abbrev pub detailed_phase : String → Option Json → String
detailed_phase code none = default_phase code
detailed_phase code (some d) = stated_phase code (get "phase" d)

-- An empty text counts as none.
abbrev pub resolved_phase : String → Option Json → Option String → String
resolved_phase code details none = detailed_phase code details
resolved_phase code details (some p) = if str_eq p "" then detailed_phase code details else p

abbrev pub resolved_action : String → Option String → String
resolved_action code none = default_action code
resolved_action code (some a) = if str_eq a "" then default_action code else a

abbrev pub with_details : Option Json → Fields
with_details none = end
with_details (some d) = field "details" d end

-- max(1, retry_after_ms)
abbrev pub with_retry : Option ℤ → Fields → Fields
with_retry none rest = rest
with_retry (some ms) rest =
    field "retryAfterMs" (integer (if ltb_ℤ ms (pos 1) then pos 1 else ms)) rest

-- `error_payload`; empty details are passed as none.
unfoldable pub error_payload :
    String → String → Option Json → Option String → Option ℤ → Option String → Json
unfolding default_phase default_action
error_payload code message details phase retry_after_ms suggested_action = object (
    field "code" (string code) (
      field "message" (string message) (
        field "retryable" (boolean (one_of code retryable_codes)) (
          field "phase" (string (resolved_phase code details phase)) (
            field "suggestedAction" (string (resolved_action code suggested_action))
              (with_retry retry_after_ms (with_details details)))))))
