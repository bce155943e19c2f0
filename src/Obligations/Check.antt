-- ===== src/Obligations/Check.antt =====
-- `check_obligation_set` of src/math_anchor/obligations.py up to the entries: which obligations run, in
-- which order, and what their entries are. `entries_by_id` is a list with the latest entry first.
use math_anchor.Base.{
  ℕ, ◌+◌, Bool, true, false, Option, none, some, List, [], ◌∷◌, ◌==◌, if◌then◌else◌, map, Result,
  ok, err, key_error, ◌>>=◌,
}
use math_anchor.Base.Int.{ℤ, pos, ltb_ℤ}
use math_anchor.Base.Json.{
  Json, string, array, object, end, field, to_list, get, without, is_object,
}
use math_anchor.Obligations.{Obligation, Kind, dependency_layers}
use math_anchor.Obligations.Entries.{Entry, Services, is_checked, provider_of, entry}
use math_anchor.Obligations.Findings.{
  unsupported_finding, blocked_finding, provider_finding, deadline_finding,
}

-- entries_by_id[i]
abbrev pub entry_of : ℕ → List Entry → Result Entry
entry_of i [] = err key_error
entry_of i (e ∷ es) = if e.id == i then ok e else entry_of i es

-- The dependencies whose entries are not checked.
abbrev pub blocked_by : List Entry → List ℕ → Result (List ℕ)
blocked_by es [] = ok []
blocked_by es (d ∷ ds) = do
  e ← entry_of d es
  rest ← blocked_by es ds
  ok (if is_checked e.status then rest else d ∷ rest)

-- obligation["kind"] in _KNOWN_PROVIDERS
abbrev pub is_known : Kind → Bool
is_known k = elim (provider_of k) [ none ↦ false | some operation ↦ true ]

-- How the clock, `run_operation` and `run_batch` answer, by the number of the layer.
pub record Environment : Type 0 where
  pub remaining_ms : ℕ → ℤ
  pub run_operation : ℕ → Obligation → Json
  pub run_batch : ℕ → List Obligation → Json

abbrev pub same_length : List Json → List Obligation → Bool
same_length [] [] = true
same_length (x ∷ xs) (o ∷ os) = same_length xs os
same_length _ _ = false

abbrev pub listed : Option Json → List Obligation → Option (List Json)
listed (some (array xs)) os = if same_length (to_list xs) os then some (to_list xs) else none
listed _ os = none

-- The results of a batch, or the whole answer for each of its items.
abbrev pub or_whole : Json → List Obligation → Option (List Json) → List Json
or_whole answer os none = map (λ (o : Obligation). answer) os
or_whole answer os (some results) = results

abbrev pub batch_results : Json → List Obligation → List Json
batch_results answer os = or_whole answer os (listed (get "results" answer) os)

abbrev pub raw_results : Environment → ℕ → List Obligation → List Json
raw_results env n (o ∷ []) = env.run_operation n o ∷ []
raw_results env n os = batch_results (env.run_batch n os) os

abbrev pub invalid_envelope : Json
invalid_envelope = object (
    field "status" (string "error") (
      field "error"
        (object (
          field "code" (string "E_RUNTIME")
            (field "message" (string "obligation provider returned an invalid envelope") end)))
        end))

-- An answer that is no dict is replaced; a batch's index is taken off.
abbrev pub cleaned : Json → Json
cleaned raw = without "index" (if is_object raw then raw else invalid_envelope)

module _ (services : Services) (sets : List (ℕ × List Json)) (env : Environment) where
  -- One obligation of a layer, once its dependencies are looked up: an entry, or it runs.
  abbrev pub settle : Obligation → List ℕ → List Entry → List Entry
  settle o (d ∷ ds) es = entry services sets o (blocked_finding services (d ∷ ds)) ∷ es
  settle o [] es =
      if is_known o.kind then es else entry services sets o (unsupported_finding services) ∷ es

  abbrev pub runs : Obligation → List ℕ → Bool
  runs o (d ∷ ds) = false
  runs o [] = is_known o.kind

  -- The loop over a layer: the entries so far, and the obligations that are to run.
  unfoldable pub gate : List Obligation → List Entry → Result (List Entry × List Obligation)
  unfolding entry
  gate [] es = ok (es, [])
  gate (o ∷ os) es = do
    blocked ← blocked_by es o.depends_on
    (after, runnable) ← gate os (settle o blocked es)
    ok (after, if runs o blocked then o ∷ runnable else runnable)

  abbrev pub deadline_entries : List Obligation → List Entry → List Entry
  deadline_entries [] es = es
  deadline_entries (o ∷ os) es =
      deadline_entries os (entry services sets o (deadline_finding services o) ∷ es)

  -- zip(runnable, raw_results, strict=True): the ValueError of unequal lengths, which `raw_results`
  -- rules out, is written as the KeyError.
  abbrev pub provider_entries : List Obligation → List Json → List Entry → Result (List Entry)
  provider_entries [] [] es = ok es
  provider_entries (o ∷ os) (raw ∷ raws) es =
      provider_entries os raws
        (entry services sets o (provider_finding services o (cleaned raw)) ∷ es)
  provider_entries _ _ es = err key_error

  -- The rest of a layer's round.
  unfoldable pub execute : ℕ → List Obligation → List Entry → Result (List Entry)
  unfolding entry provider_finding
  execute n [] es = ok es
  execute n (o ∷ os) es =
      if ltb_ℤ (env.remaining_ms n) (pos 100)
      then ok (deadline_entries (o ∷ os) es)
      else provider_entries (o ∷ os) (raw_results env n (o ∷ os)) es

  unfoldable pub check_layers : ℕ → List (List Obligation) → List Entry → Result (List Entry)
  unfolding gate execute
  check_layers n [] es = ok es
  check_layers n (l ∷ ls) es = do
    (after, runnable) ← gate l es
    done ← execute n runnable after
    check_layers (n + 1) ls done

-- [entries_by_id[item["id"]] for item in request["obligations"]]
abbrev pub collect : List Obligation → List Entry → Result (List Entry)
collect [] es = ok []
collect (o ∷ os) es = do e ← entry_of o.id es; rest ← collect os es; ok (e ∷ rest)

-- `check_obligation_set`, up to its entries.
unfoldable pub check_entries :
    Services → List (ℕ × List Json) → Environment → List Obligation → Result (List Entry)
unfolding dependency_layers check_layers
check_entries services sets env os = do
  layers ← dependency_layers os
  es ← check_layers services sets env 0 layers []
  collect os es
