-- ===== src/Batches.antt =====
-- `run_batch` and `_run_batch_item` of src/math_anchor/sandbox.py: items with the same JSON text are
-- run once, in any order, and answered in the order of the items, within a limit of bytes. The
-- number of threads bounds the orders in which the items complete and nothing else, so that any
-- order is taken here, and the answer of an item is the one of its own call.
mod Items
pub mod Direct
pub mod Grouping
pub mod Charges
pub mod Agreement
pub use math_anchor.Batches.Items.{
  Key, serialized, unserializable, key_eq, Entry, Group, BatchRequest, BatchSurroundings, reindexed,
}
unfoldable pub use math_anchor.Batches.Items.{run_batch_item}
use Prim.Native.String.{String}
use math_anchor.Base.{
  ℕ, zero, suc, ◌+◌, Bool, true, ◌&&◌, not, Option, none, some, List, [], ◌∷◌, ◌++◌, length, ltb,
  leb, ◌==◌, if◌then◌else◌, Result, ok, err, key_error, ◌>>=◌,
}
use math_anchor.Base.Int.{pos}
use math_anchor.Base.Json.{
  Json, integer, string, array, object, end, field, to_list, of_list, get, is_text,
}
use math_anchor.Requests.{failure, plain_failure, phase_details, int_within, rule_text}
use math_anchor.Transport.{Encoded, line, rejected, no_answer}

abbrev pub items_of : Json → List Json
items_of (array xs) = to_list xs
items_of _ = []

abbrev pub is_item_list : Json → Bool
is_item_list items = leb 1 (length (items_of items)) && leb (length (items_of items)) 32

abbrev pub guard_failure : BatchRequest → BatchSurroundings → Option Json
guard_failure r b =
    if b.cancelled_first
    then some (plain_failure "E_CANCELLED")
    else if not (is_item_list r.items)
    then some (plain_failure "E_LIMIT")
    else if not (int_within 100 30_000 r.timeout_ms)
    then some (plain_failure "E_LIMIT")
    else if not (int_within 1_024 1_048_576 r.max_output_bytes)
    then some (plain_failure "E_LIMIT")
    else none

abbrev pub budget_failure : Option String → Json
budget_failure (some rule) =
    failure "E_LIMIT"
      (some (
        object (
          field "rule" (string rule) (
            field "maxRequestBytes" (integer (pos 16_777_216))
              (field "maxRequestNodes" (integer (pos 500_000)) end)))))
      (some "input") none
budget_failure none = failure "E_INPUT" none (some "input") none

-- Then the failure of the encoding, and the deadline. An encoding always answers.
abbrev pub preflight_failure : BatchRequest → BatchSurroundings → Encoded → Option Json
preflight_failure r b (rejected refusal) = some (budget_failure (rule_text refusal))
preflight_failure r b no_answer = some (budget_failure none)
preflight_failure r b (line s) =
    if b.expired
    then some (failure "E_TIMEOUT" (some (phase_details "input" r.timeout_ms)) (some "input") none)
    else none

abbrev pub first_failure : Option Json → Option Json → Option Json
first_failure (some error) later = some error
first_failure none later = later

abbrev pub batch_failure : BatchRequest → BatchSurroundings → Option Json
batch_failure r b = first_failure (guard_failure r b) (preflight_failure r b b.encoding)

abbrev pub representative : Option Json → Json
representative none = plain_failure "E_RUNTIME"
representative (some result) = result

abbrev pub serialized_or : ℕ → Option String → Key
serialized_or i none = unserializable i
serialized_or i (some text) = serialized text

abbrev pub key_of : BatchSurroundings → Entry → Key
key_of b e = serialized_or e.0 (b.text_of e.1)

-- grouped.setdefault(key, []).append(entry)
abbrev pub add_entry : Key → Entry → List Group → List Group
add_entry k e [] = record { key = k; first = e; more = [] } ∷ []
add_entry k e (g ∷ gs) =
    let rest = add_entry k e gs in
    if key_eq g.key k then record g { more = g.more ++ e ∷ [] } ∷ gs else g ∷ rest

abbrev pub group_from : BatchSurroundings → ℕ → List Json → List Group → List Group
group_from b i [] gs = gs
group_from b i (item ∷ items) gs =
    group_from b (i + 1) items (add_entry (key_of b (i, item)) (i, item) gs)

-- `results_by_index` and `encoded_bytes`, or the bytes at which the batch was aborted.
pub data Collected : Type 0 where
  collecting : List Entry → ℕ → Collected
  aborted : ℕ → Collected

-- The inner loop: the results of one group.
abbrev pub store : (Json → ℕ) → ℕ → Json → List Entry → List Entry → ℕ → Collected
store size maximum result [] results bytes = collecting results bytes
store size maximum result (e ∷ entries) results bytes =
    let total = bytes + size (reindexed e.0 result) in
    let rest = store size maximum result entries ((e.0, reindexed e.0 result) ∷ results) total in
    if ltb maximum total then aborted total else rest

abbrev pub result_of : BatchRequest → BatchSurroundings → Group → Json
result_of r b g = representative (run_batch_item r b g.first.0 g.first.1)

abbrev pub entries_of : Group → List Entry
entries_of g = g.first ∷ g.more

abbrev pub limit_of : Json → ℕ
limit_of (integer (pos n)) = n
limit_of _ = 0

-- The loop over the completed groups.
abbrev pub collect : BatchRequest → BatchSurroundings → List Group → Collected → Collected
collect r b gs (aborted n) = aborted n
collect r b [] (collecting results bytes) = collecting results bytes
collect r b (g ∷ gs) (collecting results bytes) =
    collect r b gs
      (store b.size (limit_of r.max_output_bytes) (result_of r b g) (entries_of g) results bytes)

-- results_by_index[index]
abbrev pub look : ℕ → List Entry → Result Json
look i [] = err key_error
look i (e ∷ results) = let rest = look i results in if e.0 == i then ok e.1 else rest

-- [results_by_index[index] for index in range(…)], from an index on
abbrev pub gather : ℕ → ℕ → List Entry → Result (List Json)
gather i zero results = ok []
gather i (suc n) results = do
  result ← look i results
  rest ← gather (i + 1) n results
  ok (result ∷ rest)

abbrev pub all_ok : List Json → Bool
all_ok [] = true
all_ok (result ∷ results) = is_text (get "status" result) "ok" && all_ok results

abbrev pub envelope : List Json → Json
envelope results = object (
    field "status" (string (if all_ok results then "ok" else "partial")) (
      field "count" (integer (pos (length results)))
        (field "results" (array (of_list results)) end)))

abbrev pub output_failure : BatchRequest → ℕ → Option String → Json
output_failure r bytes phase =
    failure "E_OUTPUT_LIMIT"
      (some (
        object
          (field "bytes" (integer (pos bytes)) (field "maxOutputBytes" r.max_output_bytes end))))
      phase none

abbrev pub measured : BatchRequest → BatchSurroundings → Json → Json
measured r b result =
    if ltb (limit_of r.max_output_bytes) (b.size result)
    then output_failure r (b.size result) none
    else result

abbrev pub settled : BatchRequest → BatchSurroundings → Collected → Result Json
settled r b (aborted bytes) = ok (output_failure r bytes (some "output"))
settled r b (collecting results bytes) =
    if b.cancelled_last then ok (plain_failure "E_CANCELLED") else (do
      ordered ← gather 0 (length (items_of r.items)) results
      ok (measured r b (envelope ordered)))

abbrev pub answered_with : BatchRequest → BatchSurroundings → Option Json → Result Json
answered_with r b (some error) = ok error
answered_with r b none =
    settled r b (collect r b (b.completed (group_from b 0 (items_of r.items) [])) (collecting [] 0))

unfoldable pub run_batch : BatchRequest → BatchSurroundings → Result Json
unfolding run_batch_item
run_batch r b = answered_with r b (batch_failure r b)
