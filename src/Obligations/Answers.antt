-- ===== src/Obligations/Answers.antt =====
-- Reading a provider's answer (src/math_anchor/obligations.py): `_normalized_provider_error`, and values
-- of the wrong shape.
use Prim.Native.String.{String, count, ◌++◌ as ◌+++◌}
use math_anchor.Base.{
  ℕ, zero, suc, Bool, true, false, ◌||◌, Option, none, some, List, [], ◌∷◌, ltb, if◌then◌else◌,
}
use math_anchor.Base.Int.{ℤ, pos, ltb_ℤ}
use math_anchor.Base.Json.{
  Json, null, integer, string, array, object, Items, nil, cons, get, str_eq, to_list,
}
use math_anchor.Errors.{error_payload, one_of}

-- The first n characters of a text.
abbrev pub prefix : ℕ → String → String
prefix zero s = ""
prefix (suc n) String.[] = ""
prefix (suc n) (String.◌∷◌ c s) = String.◌∷◌ c (prefix n s)

abbrev pub dict_or_null : Option Json → Json
dict_or_null (some (object fs)) = object fs
dict_or_null _ = null

abbrev pub list_or_empty : Option Json → Json
list_or_empty (some (array xs)) = array xs
list_or_empty _ = array nil

-- `_normalized_provider_error`, value by value.
abbrev pub normal_code : Option Json → String
normal_code (some (string s)) = if str_eq s "" || ltb 64 (count s) then "E_RUNTIME" else s
normal_code _ = "E_RUNTIME"

abbrev pub invalid_message : String
invalid_message = "provider returned an invalid error envelope"

abbrev pub normal_message : Option Json → String
normal_message (some (string s)) =
    if str_eq s ""
    then invalid_message
    else if ltb 1_024 (count s)
    then prefix 1_021 s +++ "..."
    else s
normal_message _ = invalid_message

-- A text of the list, or none.
abbrev pub choice_of : List String → Option Json → Option String
choice_of names (some (string s)) = if one_of s names then some s else none
choice_of names _ = none

abbrev pub normal_retry : Option Json → Option ℤ
normal_retry (some (integer n)) = if ltb_ℤ n (pos 1) then none else some n
normal_retry _ = none

abbrev pub error_phases : List String
error_phases =
    "input" ∷ "admission" ∷ "queue" ∷ "startup" ∷ "execution" ∷ "output" ∷ "batch" ∷ "cancellation"
    ∷ []

abbrev pub error_actions : List String
error_actions =
    "correct_input" ∷ "search_operation" ∷ "reduce_request" ∷ "split_or_reduce" ∷ "retry" ∷ "stop"
    ∷ []

unfoldable pub normalized_provider_error : Option Json → Json
unfolding error_payload
normalized_provider_error value =
    let raw = dict_or_null value in
    error_payload (normal_code (get "code" raw)) (normal_message (get "message" raw)) none
      (choice_of error_phases (get "phase" raw)) (normal_retry (get "retryAfterMs" raw))
      (choice_of error_actions (get "suggestedAction" raw))

-- A list of texts; `none` for a list with another value.
abbrev pub texts_in : Items → Option (List String)
texts_in nil = some []
texts_in (cons (string s) xs) = elim (texts_in xs) [ none ↦ none | some ts ↦ some (s ∷ ts) ]
texts_in (cons _ xs) = none

abbrev pub texts_of : Option Json → Option (List String)
texts_of (some (array xs)) = texts_in xs
texts_of _ = none

abbrev pub text_of : Option Json → Option String
text_of (some (string s)) = some s
text_of _ = none

abbrev pub texts_eq : List String → List String → Bool
texts_eq [] [] = true
texts_eq (s ∷ ss) (t ∷ ts) = if str_eq s t then texts_eq ss ts else false
texts_eq _ _ = false

abbrev pub same_texts : Option (List String) → List String → Bool
same_texts none ts = false
same_texts (some ss) ts = texts_eq ss ts

abbrev pub items_of : Option Json → List Json
items_of (some (array xs)) = to_list xs
items_of _ = []
