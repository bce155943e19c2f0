-- ===== src/Batches/Items.antt =====
-- One item of a batch: `_run_batch_item` of src/math_anchor/sandbox.py, with the groups of items and what a
-- batch meets. Outside the main thread an exception that escapes a call is an `Exception`.
use Prim.Native.String.{String}
use math_anchor.Base.{
  ℕ, ◌+◌, Bool, true, false, ◌&&◌, not, Option, none, some, List, [], ◌∷◌, ◌==◌, if◌then◌else◌,
}
use math_anchor.Base.Int.{ℤ, pos, ltb_ℤ}
use math_anchor.Base.Json.{
  Json, Fields, integer, string, object, end, field, get, get_field, drop_field, is_object, str_eq,
}
use math_anchor.Errors.{one_of}
use math_anchor.Requests.{
  Request, Surroundings, Reply, replied, escaped, run_operation_impl, failure, plain_failure,
  phase_details,
}
use math_anchor.Transport.{Encoded}

-- json.dumps(item, sort_keys=True), or the text for an item that has none, which is no JSON text.
pub data Key : Type 0 where
  serialized : String → Key
  unserializable : ℕ → Key

abbrev pub key_eq : Key → Key → Bool
key_eq (serialized s) (serialized t) = str_eq s t
key_eq (unserializable i) (unserializable j) = i == j
key_eq _ _ = false

-- An item and its index.
abbrev pub Entry : Type 0
Entry = ℕ × Json

-- A list of `grouped`: its entries are `first` and `more`.
pub record Group : Type 0 where
  pub key : Key
  pub first : Entry
  pub more : List Entry

pub record BatchRequest : Type 0 where
  pub items : Json
  pub timeout_ms : Json
  pub max_output_bytes : Json

-- What a batch meets: the cancel event at its start and its end, the encoding of the items, whether
-- the deadline has passed by then; for an item the milliseconds that remain when it starts and the
-- surroundings of its call; the order in which the groups complete; and the json module.
pub record BatchSurroundings : Type 0 where
  pub cancelled_first : Bool
  pub cancelled_last : Bool
  pub encoding : Encoded
  pub expired : Bool
  pub remaining_ms : ℕ → ℤ
  pub call : ℕ → Surroundings
  pub completed : List Group → List Group
  pub text_of : Json → Option String
  pub size : Json → ℕ
  -- operation in UNIT_REGISTRY_OPERATIONS
  pub uses_units : Json → Bool

-- {"index": index, **result}; a result is a dict
abbrev pub present : ℕ → Option Json → Json
present i none = integer (pos i)
present i (some v) = v

abbrev pub indexed : ℕ → Json → Json
indexed i (object fs) =
    object (field "index" (present i (get_field "index" fs)) (drop_field "index" fs))
indexed i v = v

-- d[k] = v
abbrev pub put : String → Json → Fields → Fields
put k v end = field k v end
put k v (field j w fs) =
    let rest = put k v fs in if str_eq j k then field j v fs else field j w rest

-- indexed_result["index"] = index
abbrev pub reindexed : ℕ → Json → Json
reindexed i (object fs) = object (put "index" (integer (pos i)) fs)
reindexed i v = v

abbrev pub batch_item_fields : List String
batch_item_fields =
    "operation" ∷ "arguments" ∷ "timeoutMs" ∷ "memoryMb" ∷ "resultMode" ∷ "maxOutputBytes" ∷ []

-- len(set(item) - BATCH_ITEM_FIELDS)
abbrev pub unexpected_fields : Json → ℕ
unexpected_fields (object end) = 0
unexpected_fields (object (field k v fs)) =
    let rest = unexpected_fields (object fs) in
    if one_of k batch_item_fields then rest else rest + 1
unexpected_fields v = 0

abbrev pub is_string_value : Option Json → Bool
is_string_value (some (string s)) = true
is_string_value _ = false

abbrev pub is_dict_value : Option Json → Bool
is_dict_value (some (object fs)) = true
is_dict_value _ = false

abbrev pub has_item_shape : Json → Bool
has_item_shape item =
    is_object item && is_string_value (get "operation" item) && is_dict_value (get "arguments" item)

abbrev pub or_default : Json → Option Json → Json
or_default d none = d
or_default d (some v) = v

abbrev pub within_remaining : ℤ → Json → Json
within_remaining remaining (integer n) = integer (if ltb_ℤ remaining n then remaining else n)
within_remaining remaining v = v

abbrev pub item_request : BatchSurroundings → ℕ → Json → Request
item_request b i item = record {
  operation = or_default (string "") (get "operation" item);
  arguments = or_default (object end) (get "arguments" item);
  timeout_ms =
      within_remaining (b.remaining_ms i)
        (or_default (integer (pos 10_000)) (get "timeoutMs" item));
  memory_mb = or_default (integer (pos 1_024)) (get "memoryMb" item);
  result_mode = or_default (string "auto") (get "resultMode" item);
  max_output_bytes = or_default (integer (pos 65_536)) (get "maxOutputBytes" item);
  uses_units = b.uses_units (or_default (string "") (get "operation" item));
}

-- What a future's `result` comes to: a dict, or `none` for an exception. Outside the main thread an
-- exception that escapes a call is an `Exception`.
abbrev pub called : ℕ → Reply → Option Json
called i (replied result) = some (indexed i result)
called i escaped = none

-- `_run_batch_item`
unfoldable pub run_batch_item : BatchRequest → BatchSurroundings → ℕ → Json → Option Json
unfolding run_operation_impl
run_batch_item r b i item =
    if not (has_item_shape item)
    then some (indexed i (plain_failure "E_INPUT"))
    else if not (unexpected_fields item == 0)
    then some (
        indexed i (
          failure "E_INPUT"
            (some (object (field "fieldCount" (integer (pos (unexpected_fields item))) end))) none
            none))
    else if ltb_ℤ (b.remaining_ms i) (pos 100)
    then some
        (indexed i (failure "E_TIMEOUT" (some (phase_details "batch" r.timeout_ms)) none none))
    else called i (run_operation_impl (item_request b i item) (b.call i)).reply
