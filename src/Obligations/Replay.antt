-- ===== src/Obligations/Replay.antt =====
-- `check_obligation_set` from its entries on, with its feedback, and `replay_obligation_set`
-- (src/math_anchor/obligations.py).
pub mod Integrity
pub mod Outcomes
use Prim.Native.String.{String}
use math_anchor.Base.{
  ℕ, zero, suc, ◌+◌, Bool, true, false, ◌&&◌, not, Option, none, some, List, [], ◌∷◌, leb, ◌==◌,
  if◌then◌else◌, length, map, Result, ok, err, e_input, e_output_limit, e_receipt, require, ◌>>=◌,
  ◌>>◌,
}
use math_anchor.Base.Json.{Json, string, array, object, end, field, of_list, str_eq, boolean}
use math_anchor.Obligations.Entries.{Status, Entry, Services, is_checked}
use math_anchor.Obligations.Check.{Environment, check_entries}
use math_anchor.Obligations.Receipts.{
  Checks, Request, validate_request, Summary, summary, summary_eq, summary_json, entry_json,
  outcome_payload, Receipt, body_json, receipt_json, max_receipt_bytes,
}

module _ (services : Services) where
  open services use {digest, size}

  -- `_validate_receipt_integrity`
  abbrev pub intact_details : List Entry → Result (Unit {0})
  intact_details [] = ok tt
  intact_details (e ∷ es) = do
    require (not e.detail_omitted) e_receipt
    require (str_eq e.detail_digest (digest e.detail)) e_receipt
    intact_details es

  unfoldable pub validate_receipt_integrity : Receipt → Result (Unit {0})
  validate_receipt_integrity r = do
    require (str_eq r.receipt_digest (digest (body_json r))) e_receipt
    require (summary_eq r.summary_of (summary r.obligations)) e_receipt
    require (str_eq r.outcome_digest (digest (outcome_payload r.obligations))) e_receipt
    intact_details r.obligations

  -- The receipt of some entries, sealed by its own digest.
  abbrev pub sealed : Receipt → Receipt
  sealed r = record r { receipt_digest = digest (body_json r) }

  abbrev pub receipt_of : Request → Json → List Entry → Receipt
  receipt_of request runtime es = sealed (record {
    request_digest = digest request.source;
    runtime = runtime;
    policy = request.policy;
    summary_of = summary es;
    obligations = es;
    outcome_digest = digest (outcome_payload es);
    receipt_digest = "";
  })

pub record Feedback : Type 0 where
  pub all_checked : Bool
  pub is_full : Bool
  pub request_digest : String
  pub receipt_digest : String
  pub outcome_digest : String
  pub summary_of : Summary
  pub obligations : List Entry

abbrev pub unchecked : List Entry → List Entry
unchecked [] = []
unchecked (e ∷ es) = let rest = unchecked es in if is_checked e.status then rest else e ∷ rest

abbrev pub selected : Bool → List Entry → List Entry
selected full es = if full then es else unchecked es

abbrev pub feedback_of : Request → Receipt → Feedback
feedback_of request r = record {
  all_checked = r.summary_of.checked_count == r.summary_of.total;
  is_full = request.is_full;
  request_digest = r.request_digest;
  receipt_digest = r.receipt_digest;
  outcome_digest = r.outcome_digest;
  summary_of = r.summary_of;
  obligations = selected request.is_full r.obligations;
}

abbrev pub feedback_json : Feedback → Json
feedback_json f = object (
    field "schemaVersion" (string "math-anchor.obligation-feedback.v0.1") (
      field "status" (string (if f.all_checked then "checked" else "attention_required")) (
        field "responseMode" (string (if f.is_full then "full" else "failures_only")) (
          field "requestDigest" (string f.request_digest) (
            field "receiptDigest" (string f.receipt_digest) (
              field "outcomeDigest" (string f.outcome_digest) (
                field "summary" (summary_json f.summary_of)
                  (field "obligations" (array (of_list (map entry_json f.obligations))) end))))))))

-- An entry whose detail is left out.
abbrev pub omitted : Entry → Entry
omitted e = record e {
  detail = object (field "digest" (string e.detail_digest) end);
  detail_omitted = true;
}

abbrev pub compact : Feedback → Feedback
compact f = record f { obligations = map omitted f.obligations }

module _ (services : Services) where
  open services use {digest, size}

  -- `_fit_feedback`
  unfoldable pub fit_feedback : ℕ → Feedback → Result Feedback
  fit_feedback maximum f =
      if leb (size (feedback_json f)) maximum
      then ok f
      else if leb (size (feedback_json (compact f))) maximum
      then ok (compact f)
      else err e_output_limit

  -- `check_obligation_set` once the entries are there.
  unfoldable pub report : Checks → Request → Receipt → Result (Feedback × Receipt)
  report checks request r = do
    require (leb (size (receipt_json r)) max_receipt_bytes) e_output_limit
    require (checks.receipt_conforms (receipt_json r)) e_input
    f ← fit_feedback request.feedback_bytes (feedback_of request r)
    require (checks.feedback_conforms (feedback_json f)) e_input
    ok (f, r)

  unfoldable pub check_obligation_set :
      Checks → Environment → Json → Request → Result (Feedback × Receipt)
  check_obligation_set checks env runtime request = do
    validate_request checks request
    es ← check_entries services request.sets env request.obligations
    report checks request (receipt_of services request runtime es)

pub data ReplayStatus : Type 0 where
  matched runtime_drift outcome_drift : ReplayStatus

pub record Replay : Type 0 where
  pub status : ReplayStatus
  pub request_digest : String
  pub previous_receipt_digest : String
  pub current_receipt_digest : String
  pub previous_outcome_digest : String
  pub current_outcome_digest : String
  pub outcome_match : Bool

abbrev pub classify : Bool → Bool → ReplayStatus
classify receipt_match outcome_match =
    if receipt_match then matched else if outcome_match then runtime_drift else outcome_drift

abbrev pub compared : Receipt → Receipt → Replay
compared previous current =
    let outcome_match = str_eq previous.outcome_digest current.outcome_digest in
    record {
      status = classify (str_eq previous.receipt_digest current.receipt_digest) outcome_match;
      request_digest = current.request_digest;
      previous_receipt_digest = previous.receipt_digest;
      current_receipt_digest = current.receipt_digest;
      previous_outcome_digest = previous.outcome_digest;
      current_outcome_digest = current.outcome_digest;
      outcome_match = outcome_match;
    }

module _ (services : Services) where
  -- `replay_obligation_set`; whether the two runtimes are equal is left to the reader.
  unfoldable pub replay_obligation_set :
      Checks → Environment → Json → Request → Receipt → Result (Replay × Feedback × Receipt)
  replay_obligation_set checks env runtime request previous = do
    checks.bounded_receipt (receipt_json previous)
    require (checks.receipt_conforms (receipt_json previous)) e_input
    validate_receipt_integrity services previous
    validate_request checks request
    require (str_eq previous.request_digest (services.digest request.source)) e_input
    (feedback, current) ← check_obligation_set services checks env runtime request
    ok (compared previous current, feedback, current)
