-- ===== src/Tests/Receipts.antt =====
-- A request of two dimension checks, the second on the first, and the runs of it.
use math_anchor.Base.{ℕ, none, ◌≡◌, refl, arith, true, false, List, [], ◌∷◌, ok, map}
use math_anchor.Base.Int.{pos}
use math_anchor.Base.Json.{Json, null, boolean, string, object, end, field}
use math_anchor.Obligations.{dimension_consistency, Obligation, dependency_layers, layers_from}
use math_anchor.Obligations.Entries.{Services, Entry, entry}
use math_anchor.Obligations.Findings.{provider_finding, dimension_finding}
use math_anchor.Obligations.Growth.{CheckedIn}
use math_anchor.Obligations.Gating.{entry_ids, check_entries-ok, check_entries-CheckedIn}
use math_anchor.Obligations.Check.{Environment, gate, execute, check_layers, check_entries}
use math_anchor.Obligations.Receipts.{Checks, Request, validate_request, Receipt}
use math_anchor.Obligations.Replay.{
  Replay, matched, receipt_of, feedback_of, fit_feedback, report, check_obligation_set,
  validate_receipt_integrity, replay_obligation_set,
}
use math_anchor.Obligations.Replay.Outcomes.{Tells, check-Tells}
use math_anchor.Obligations.Replay.Integrity.{check-validate_receipt_integrity, replay-check}

abbrev services : Services
services = record {
  digest = λ value. "sha256";
  size = λ value. 400;
  verify = λ certificate. none;
  normalize = λ text. text;
  strip = λ text. text;
  str_of = λ v. "None";
  scope_of = λ operation. "dimensional_consistency_only";
}

abbrev checks : Checks
checks = record {
  bounded_request = λ value. ok tt;
  bounded_receipt = λ value. ok tt;
  request_conforms = λ value. true;
  receipt_conforms = λ value. true;
  feedback_conforms = λ value. true;
  is_registered = λ operation. true;
  valid_arguments = λ operation claim. ok tt;
}

abbrev consistent : Json
consistent =
    object (field "status" (string "ok") (field "dimensionallyConsistent" (boolean true) end))

abbrev env : Environment
env = record {
  remaining_ms = λ layer. pos 30_000;
  run_operation = λ layer item. consistent;
  run_batch = λ layer items. consistent;
}

abbrev dimensions : ℕ → List ℕ → Obligation
dimensions i ds = record {
  id = i;
  kind = dimension_consistency;
  claim = null;
  assumption_set = none;
  depends_on = ds;
}

abbrev request : Request
request = record {
  source = null;
  sets = [];
  obligations = dimensions 2 (1 ∷ []) ∷ dimensions 1 ([]) ∷ [];
  policy = "strongest_available";
  is_full = false;
  feedback_bytes = 8_192;
}

abbrev found : Obligation → Entry
found o = entry services [] o (dimension_finding services consistent)

abbrev receipt : Receipt
receipt = receipt_of services request null (map found request.obligations)

both_checked :
    check_entries services [] env request.obligations ≡ ok (map found request.obligations)
unfolding check_entries dependency_layers layers_from check_layers gate execute provider_finding
    dimension_finding entry
both_checked = refl

whole_run :
    check_obligation_set services checks env null request
    ≡ ok (feedback_of request receipt, receipt)
unfolding check_obligation_set validate_request report fit_feedback check_entries dependency_layers
    layers_from check_layers gate execute provider_finding dimension_finding entry
whole_run = refl

check_entries-ok_example :
    (out : List Entry) × (check_entries services [] env request.obligations ≡ ok out)
    × (entry_ids out ≡ 2 ∷ 1 ∷ [])
check_entries-ok_example =
    check_entries-ok services [] env (λ i. i) request.obligations ((refl, (refl, tt)))
      (((refl, omega arith), tt), (tt, tt))

check_entries-CheckedIn_example : CheckedIn (map found request.obligations) 1
unfolding dimension_finding entry
check_entries-CheckedIn_example =
    check_entries-CheckedIn services [] env request.obligations 2 1 (refl, (refl, tt)) both_checked
      refl refl refl

check-Tells_example : Tells services request receipt (feedback_of request receipt)
check-Tells_example = check-Tells services checks env null request whole_run

check-validate_receipt_integrity_example : validate_receipt_integrity services receipt ≡ ok tt
check-validate_receipt_integrity_example =
    check-validate_receipt_integrity services checks env null request whole_run

replay-check_example :
    (p : Replay) × (replay_obligation_set services checks env null request receipt
      ≡ ok (p, feedback_of request receipt, receipt))
    × (p.status ≡ matched)
    × (p.outcome_match ≡ true)
replay-check_example = replay-check services checks env null request whole_run refl
