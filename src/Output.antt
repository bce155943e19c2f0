-- ===== src/Output.antt =====
-- `apply_output_policy` of src/math_anchor/output_policy.py: what a result mode leaves out, and how a
-- result is made to fit a limit of bytes. The size of a value's JSON text is a parameter.
pub mod Exact
pub mod Cuts
pub mod Limit
use Prim.Native.String.{String, ◌++◌ as ◌+++◌}
use math_anchor.Base.{
  ℕ, Bool, true, false, ◌&&◌, ◌||◌, not, Option, none, some, List, [], ◌∷◌, leb, ltb, ◌==◌,
  if◌then◌else◌,
}
use math_anchor.Base.Int.{pos}
use math_anchor.Base.Json.{
  Json, null, boolean, integer, float, string, array, object, Items, nil, cons, Fields, end, field,
  get, get_field, drop_field, is_text, str_eq,
}
use math_anchor.Errors.{error_payload}
use math_anchor.Obligations.Answers.{prefix}

abbrev pub filled : Option Json → Bool
filled none = false
filled (some null) = false
filled (some _) = true

abbrev pub has : String → Fields → Bool
has k end = false
has k (field j v fs) = if str_eq j k then true else has k fs

-- d[k] = v, for a key that is there
abbrev pub set_field : String → Json → Fields → Fields
set_field k v end = end
set_field k v (field j w fs) = field j (if str_eq j k then v else w) (set_field k v fs)

-- field in value and counterpart in value and value[counterpart] is not None
abbrev pub redundant : String → String → Fields → Bool
redundant name counterpart fs = has name fs && filled (get_field counterpart fs)

-- The loop over the values comes first here: it changes neither which keys there are nor which values
-- are null, and a value that is set to null has nothing to drop.
abbrev mutual
  pub drop_redundant : String → String → Json → Json
  drop_redundant name counterpart (object fs) =
      let inner = drop_redundant_fields name counterpart fs in
      object (if redundant name counterpart fs then set_field name null inner else inner)
  drop_redundant name counterpart (array xs) = array (drop_redundant_items name counterpart xs)
  drop_redundant name counterpart null = null
  drop_redundant name counterpart (boolean b) = boolean b
  drop_redundant name counterpart (integer n) = integer n
  drop_redundant name counterpart (float i finite) = float i finite
  drop_redundant name counterpart (string s) = string s

  pub drop_redundant_items : String → String → Items → Items
  drop_redundant_items name counterpart nil = nil
  drop_redundant_items name counterpart (cons x xs) =
      cons (drop_redundant name counterpart x) (drop_redundant_items name counterpart xs)

  pub drop_redundant_fields : String → String → Fields → Fields
  drop_redundant_fields name counterpart end = end
  drop_redundant_fields name counterpart (field j v fs) =
      field j (drop_redundant name counterpart v) (drop_redundant_fields name counterpart fs)

abbrev mutual
  pub drop_all : String → Json → Json
  drop_all name (object fs) = object (set_field name null (drop_all_fields name fs))
  drop_all name (array xs) = array (drop_all_items name xs)
  drop_all name null = null
  drop_all name (boolean b) = boolean b
  drop_all name (integer n) = integer n
  drop_all name (float i finite) = float i finite
  drop_all name (string s) = string s

  pub drop_all_items : String → Items → Items
  drop_all_items name nil = nil
  drop_all_items name (cons x xs) = cons (drop_all name x) (drop_all_items name xs)

  pub drop_all_fields : String → Fields → Fields
  drop_all_fields name end = end
  drop_all_fields name (field j v fs) = field j (drop_all name v) (drop_all_fields name fs)

abbrev pub message_limits : List ℕ
message_limits = 512 ∷ 256 ∷ 128 ∷ 64 ∷ 32 ∷ 16 ∷ 8 ∷ 0 ∷ []

-- message[:limit] + ("…" if limit else "")
abbrev pub shortened : String → ℕ → String
shortened message limit = prefix limit message +++ (if limit == 0 then "" else "…")

abbrev pub with_error : Fields → Fields → Json
with_error error fs = object (set_field "error" (object error) fs)

module _ (size : Json → ℕ) (max_output_bytes : ℕ) where
  abbrev pub fits : Json → Bool
  fits v = leb (size v) max_output_bytes

  abbrev pub first_fitting : String → Fields → Fields → List ℕ → Option Json
  first_fitting message error fs [] = none
  first_fitting message error fs (n ∷ ns) =
      let rest = first_fitting message error fs ns in
      let short = with_error (set_field "message" (string (shortened message n)) error) fs in
      if fits short then some short else rest

  abbrev pub shorten_message : Option Json → Fields → Fields → Option Json
  shorten_message (some (string message)) error fs =
      if str_eq message "" then none else first_fitting message error fs message_limits
  shorten_message _ error fs = none

  abbrev pub trim_details : Fields → Fields → Option Json
  trim_details error fs =
      let rest = drop_field "details" error in
      if fits (with_error rest fs)
      then some (with_error rest fs)
      else shorten_message (get_field "message" rest) rest fs

  abbrev pub trim_error : Option Json → Fields → Option Json
  trim_error (some (object error)) fs = trim_details error fs
  trim_error _ fs = none

  -- `_trim_error_envelope`
  unfoldable pub trim_error_envelope : Json → Option Json
  trim_error_envelope (object fs) = trim_error (get_field "error" fs) fs
  trim_error_envelope _ = none

  -- The failure E_OUTPUT_LIMIT for a value, its message empty.
  abbrev pub limit_failure : String → Json → Json
  limit_failure result_mode selected = object (
      field "status" (string "error") (
        field "error"
          (error_payload "E_OUTPUT_LIMIT" ""
            (some (
              object (
                field "bytes" (integer (pos (size selected))) (
                  field "maxOutputBytes" (integer (pos max_output_bytes))
                    (field "resultMode" (string result_mode) end)))))
            none none none)
          end))

  -- status in {"ok", "uncertain"}
  abbrev pub is_answer : Json → Bool
  is_answer result = is_text (get "status" result) "ok" || is_text (get "status" result) "uncertain"

  abbrev pub by_mode : String → Json → Json
  by_mode result_mode result =
      if is_answer result
      then (if str_eq result_mode "exact"
          then drop_redundant "approx" "exact" result
          else if str_eq result_mode "approx"
          then drop_all "exact" result
          else result)
      else result

  -- What is measured in the end.
  abbrev pub chosen : String → Json → Json
  chosen result_mode result =
      let selected = by_mode result_mode result in
      if is_answer result && str_eq result_mode "auto" && not (fits selected)
      then drop_redundant "approx" "exact" selected
      else selected

  abbrev pub trimmed : String → Json → Option Json → Json
  trimmed result_mode selected none = limit_failure result_mode selected
  trimmed result_mode selected (some envelope) = envelope

  unfoldable pub apply_output_policy : String → Json → Json
  unfolding trim_error_envelope
  apply_output_policy result_mode result =
      let selected = chosen result_mode result in
      if fits selected
      then selected
      else if is_text (get "status" result) "error"
      then trimmed result_mode selected (trim_error_envelope selected)
      else limit_failure result_mode selected
