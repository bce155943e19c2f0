-- ===== src/Tests/Batches.antt =====
-- A batch of three items, two of them alike, whose groups complete in the other order.
use Prim.Native.String.{String}
use math_anchor.Base.{
  ℕ, ◌+◌, ◌≤◌, ◌≡◌, refl, arith, Option, none, some, List, [], ◌∷◌, reverse, false, ok,
}
use math_anchor.Base.Int.{pos}
use math_anchor.Base.Json.{
  Json, Items, Fields, integer, string, array, object, nil, cons, end, field, of_list, get,
}
use math_anchor.Batches.{
  BatchRequest, BatchSurroundings, envelope, output_failure, run_batch, run_batch_item,
}
use math_anchor.Batches.Agreement.{
  sizes, reference, run_batch-reference, run_batch-over, run_batch-answers,
}
use math_anchor.Requests.{run_operation_impl, execute_admitted_operation}
use math_anchor.Tests.Requests.{served}
use math_anchor.Transport.{line}
use mathlib.Core.List.Permᴰ

-- The bytes of a value, where a text has the given number of them.
abbrev mutual
  weight : ℕ → Json → ℕ
  weight n (object fs) = 2 + weight_fields n fs
  weight n (array xs) = 2 + weight_items n xs
  weight n (string s) = n
  weight n v = 4

  weight_items : ℕ → Items → ℕ
  weight_items n nil = 0
  weight_items n (cons v vs) = weight n v + weight_items n vs

  weight_fields : ℕ → Fields → ℕ
  weight_fields n end = 0
  weight_fields n (field k v fs) = 12 + weight n v + weight_fields n fs

weight_items-of_list :
    (n : ℕ) (results : List Json) → weight_items n (of_list results) ≡ sizes (weight n) results
weight_items-of_list n [] = refl
weight_items-of_list n (v ∷ vs) = let rest = weight_items-of_list n vs in omega arith

weight-envelope :
    (n : ℕ) (results : List Json) → sizes (weight n) results ≤ weight n (envelope results)
weight-envelope n results = let whole = weight_items-of_list n results in omega arith

abbrev item : String → Json
item operation = object (field "operation" (string operation) (field "arguments" (object end) end))

abbrev operation_text : Json → Option String
operation_text v = text (get "operation" v)
  where
    text : Option Json → Option String
    text (some (string s)) = some s
    text _ = none

abbrev batch : BatchRequest
batch = record {
  items = array (cons (item "algebra") (cons (item "units") (cons (item "algebra") nil)));
  timeout_ms = integer (pos 5_000);
  max_output_bytes = integer (pos 4_096);
}

abbrev surroundings : ℕ → BatchSurroundings
surroundings n = record {
  cancelled_first = false;
  cancelled_last = false;
  encoding = line "{}";
  expired = false;
  remaining_ms = λ i. pos 4_000;
  call = λ i. served;
  completed = reverse;
  text_of = operation_text;
  size = weight n;
  uses_units = λ operation. false;
}

abbrev result : ℕ → Json
result i = object (field "index" (integer (pos i)) (field "status" (string "ok") end))

in_order : reference batch (surroundings 8) ≡ result 0 ∷ result 1 ∷ result 2 ∷ []
unfolding run_batch_item run_operation_impl execute_admitted_operation
in_order = refl

run_batch-reference_example :
    run_batch batch (surroundings 8) ≡ ok (envelope (reference batch (surroundings 8)))
unfolding run_batch_item run_operation_impl execute_admitted_operation
run_batch-reference_example =
    run_batch-reference batch (surroundings 8) refl (Permᴰ.swap refl refl) refl (weight-envelope 8)
      (omega arith)

run_batch-over_example :
    (n : ℕ) × (phase : Option String) × (run_batch batch (surroundings 2_000)
      ≡ ok (output_failure batch n phase))
unfolding run_batch_item run_operation_impl execute_admitted_operation
run_batch-over_example =
    run_batch-over batch (surroundings 2_000) refl (Permᴰ.swap refl refl) refl (omega arith)

run_batch-answers_example : (v : Json) × (run_batch batch (surroundings 8) ≡ ok v)
run_batch-answers_example = run_batch-answers batch (surroundings 8) (Permᴰ.swap refl refl)
