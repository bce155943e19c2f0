-- ===== src/Obligations/Receipts.antt =====
-- `_validate_request`, `_summary`, and what a receipt holds
-- (src/math_anchor/obligations.py). The JSON of a record is what is hashed and measured.
use Prim.Native.String.{String}
use math_anchor.Base.{
  ℕ, ◌+◌, Bool, true, ◌&&◌, not, Option, none, some, List, [], ◌∷◌, ◌==◌, map, Result, ok, e_input,
  e_operation, require, ◌>>=◌, ◌>>◌,
}
use math_anchor.Base.Int.{pos}
use math_anchor.Base.Json.{
  Json, null, boolean, integer, string, array, object, Fields, end, field, of_list,
}
use math_anchor.Obligations.{Obligation, Kind, mem, subset, ids_of, dependency_layers}
use math_anchor.Obligations.Entries.{
  Status, checked, falsified, unknown, unsupported, Assurance, formal_kernel_checked,
  exact_symbolic, rigorous_interval, numerical, heuristic, Entry, Provider, provider_of,
}

abbrev pub max_receipt_bytes : ℕ
max_receipt_bytes = 1_048_576

-- The limits of the transport, the JSON schemas, the catalog and the contracts of its operations.
pub record Checks : Type 0 where
  pub bounded_request : Json → Result (Unit {0})
  pub bounded_receipt : Json → Result (Unit {0})
  pub request_conforms : Json → Bool
  pub receipt_conforms : Json → Bool
  pub feedback_conforms : Json → Bool
  pub is_registered : String → Bool
  pub valid_arguments : String → Json → Result (Unit {0})

-- A request, as JSON and as what is read from it.
pub record Request : Type 0 where
  pub source : Json
  pub sets : List (ℕ × List Json)
  pub obligations : List Obligation
  pub policy : String
  pub is_full : Bool
  pub feedback_bytes : ℕ

-- len(ids) == len(set(ids))
abbrev pub unique : List ℕ → Bool
unique [] = true
unique (i ∷ is) = not (mem i is) && unique is

abbrev pub set_ids : List (ℕ × List Json) → List ℕ
set_ids [] = []
set_ids ((i, texts) ∷ sets) = i ∷ set_ids sets

abbrev pub known_set : List ℕ → Option ℕ → Bool
known_set ids none = true
known_set ids (some i) = mem i ids

abbrev pub valid_claim : Checks → Json → Option String → Result (Unit {0})
valid_claim checks claim none = ok tt
valid_claim checks claim (some operation) = do
  require (checks.is_registered operation) e_operation
  checks.valid_arguments operation claim

abbrev pub valid_obligations : Checks → List ℕ → List ℕ → List Obligation → Result (Unit {0})
valid_obligations checks sets ids [] = ok tt
valid_obligations checks sets ids (o ∷ os) = do
  require (known_set sets o.assumption_set) e_input
  require (not (mem o.id o.depends_on)) e_input
  require (subset o.depends_on ids) e_input
  valid_claim checks o.claim (provider_of o.kind)
  valid_obligations checks sets ids os

-- `_validate_request`
unfoldable pub validate_request : Checks → Request → Result (Unit {0})
validate_request checks r = do
  checks.bounded_request r.source
  require (checks.request_conforms r.source) e_input
  require (unique (set_ids r.sets)) e_input
  require (unique (ids_of r.obligations)) e_input
  valid_obligations checks (set_ids r.sets) (ids_of r.obligations) r.obligations
  layers ← dependency_layers r.obligations
  ok tt

pub record Summary : Type 0 where
  pub checked_count : ℕ
  pub falsified_count : ℕ
  pub unknown_count : ℕ
  pub unsupported_count : ℕ
  pub total : ℕ

abbrev pub counted : Status → Summary → Summary
counted checked s = record s { checked_count = s.checked_count + 1; total = s.total + 1 }
counted falsified s = record s { falsified_count = s.falsified_count + 1; total = s.total + 1 }
counted unknown s = record s { unknown_count = s.unknown_count + 1; total = s.total + 1 }
counted unsupported s = record s {
  unsupported_count = s.unsupported_count + 1;
  total = s.total + 1;
}

abbrev pub empty_summary : Summary
empty_summary = record {
  checked_count = 0;
  falsified_count = 0;
  unknown_count = 0;
  unsupported_count = 0;
  total = 0;
}

-- `_summary`
abbrev pub summary : List Entry → Summary
summary [] = empty_summary
summary (e ∷ es) = counted e.status (summary es)

abbrev pub summary_eq : Summary → Summary → Bool
summary_eq a b =
    a.checked_count == b.checked_count
    && a.falsified_count == b.falsified_count
    && a.unknown_count == b.unknown_count
    && a.unsupported_count == b.unsupported_count
    && a.total == b.total

abbrev pub status_text : Status → String
status_text checked = "checked"
status_text falsified = "falsified"
status_text unknown = "unknown"
status_text unsupported = "unsupported"

abbrev pub assurance_json : Option Assurance → Json
assurance_json none = null
assurance_json (some formal_kernel_checked) = string "formal_kernel_checked"
assurance_json (some exact_symbolic) = string "exact_symbolic"
assurance_json (some rigorous_interval) = string "rigorous_interval"
assurance_json (some numerical) = string "numerical"
assurance_json (some heuristic) = string "heuristic"

abbrev pub kind_text : Kind → String
kind_text Kind.polynomial_identity = "polynomial_identity"
kind_text Kind.expression_equivalence = "expression_equivalence"
kind_text Kind.dimension_consistency = "dimension_consistency"
kind_text Kind.local_almost_complex_integrability = "local_almost_complex_integrability"
kind_text (Kind.other k) = k

abbrev pub number : ℕ → Json
number n = integer (pos n)

abbrev pub numbers : List ℕ → Json
numbers is = array (of_list (map number is))

abbrev pub number_or_null : Option ℕ → Json
number_or_null none = null
number_or_null (some n) = number n

abbrev pub provider_json : Option Provider → Json
provider_json none = null
provider_json (some p) = object (
    field "operation" (string p.operation) (
      field "resultDigest" (string p.result_digest)
        (field "runtime" p.runtime (field "backends" p.backends end))))

abbrev pub assumptions_json : Entry → Json
assumptions_json e = object (
    field "setId" (number_or_null e.assumptions.set_id) (
      field "digest" (string e.assumptions.digest) (
        field "count" (number e.assumptions.count_of)
          (field "interpretation" (string "bound_not_evaluated") end))))

abbrev pub entry_json : Entry → Json
entry_json e = object (
    field "id" (number e.id) (
      field "kind" (string (kind_text e.kind)) (
        field "status" (string (status_text e.status)) (
          field "assuranceLevel" (assurance_json e.assurance_level) (
            field "scope" (string e.scope) (
              field "claimDigest" (string e.claim_digest) (
                field "assumptions" (assumptions_json e) (
                  field "dependsOn" (numbers e.depends_on) (
                    field "blockedBy" (numbers e.blocked_by) (
                      field "provider" (provider_json e.provider) (
                        field "detail" e.detail (
                          field "detailDigest" (string e.detail_digest) (
                            field "detailOmitted" (boolean e.detail_omitted) (
                              field "limitations" (array (of_list (map string e.limitations)))
                                end))))))))))))))

-- `_outcome_payload`
abbrev pub outcome_json : Entry → Json
outcome_json e = object (
    field "id" (number e.id) (
      field "kind" (string (kind_text e.kind)) (
        field "status" (string (status_text e.status)) (
          field "assuranceLevel" (assurance_json e.assurance_level) (
            field "scope" (string e.scope) (
              field "claimDigest" (string e.claim_digest) (
                field "assumptionsDigest" (string e.assumptions.digest) (
                  field "blockedBy" (numbers e.blocked_by)
                    (field "detailDigest" (string e.detail_digest) end)))))))))

abbrev pub outcome_payload : List Entry → Json
outcome_payload es = array (of_list (map outcome_json es))

abbrev pub summary_json : Summary → Json
summary_json s = object (
    field "checked" (number s.checked_count) (
      field "falsified" (number s.falsified_count) (
        field "unknown" (number s.unknown_count)
          (field "unsupported" (number s.unsupported_count) (field "total" (number s.total) end)))))

pub record Receipt : Type 0 where
  pub request_digest : String
  pub runtime : Json
  pub policy : String
  pub summary_of : Summary
  pub obligations : List Entry
  pub outcome_digest : String
  pub receipt_digest : String

-- The receipt without its own digest.
abbrev pub body_fields : Receipt → Fields → Fields
body_fields r rest = field "schemaVersion" (string "math-anchor.obligation-receipt.v0.1") (
    field "requestSchemaVersion" (string "math-anchor.obligation-set.v0.1") (
      field "requestDigest" (string r.request_digest) (
        field "runtime" r.runtime (
          field "assurancePolicy" (string r.policy) (
            field "summary" (summary_json r.summary_of) (
              field "obligations" (array (of_list (map entry_json r.obligations)))
                (field "outcomeDigest" (string r.outcome_digest) rest)))))))

abbrev pub body_json : Receipt → Json
body_json r = object (body_fields r end)

abbrev pub receipt_json : Receipt → Json
receipt_json r = object (body_fields r (field "receiptDigest" (string r.receipt_digest) end))
