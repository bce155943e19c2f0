-- ===== src/Obligations/Findings.antt =====
-- What each provider's answer establishes (src/math_anchor/obligations.py): `_polynomial_entry` and its
-- companions, up to the fields that every entry has. The text of a rejection is left out.
use Prim.Native.String.{String}
use math_anchor.Base.{
  ℕ, Bool, false, ◌&&◌, Option, none, some, List, [], ◌∷◌, if◌then◌else◌, length, map,
}
use math_anchor.Base.Int.{pos}
use math_anchor.Base.Json.{
  Json, null, boolean, integer, string, array, object, end, field, nil, of_list, get, or_null,
  is_true, is_text,
}
use math_anchor.Errors.{error_payload}
use math_anchor.Obligations.Answers.{texts_of, text_of, same_texts, items_of}
use math_anchor.Obligations.Entries.{
  Status, checked, falsified, unknown, unsupported, exact_symbolic, Verified, Services, provider_of,
  Finding, provider, error_finding, assurance_level_of,
}
use math_anchor.Obligations.{
  Obligation, Kind, polynomial_identity, expression_equivalence, dimension_consistency,
  local_almost_complex_integrability, other,
}

module _ (services : Services) where
  open services use {digest, verify, normalize, strip, scope_of}

  -- The statement that a polynomial claim asks for; `none` for a claim of another shape.
  abbrev pub statement_of :
      Option String → Option String → Option (List String) → Option (String × String × List String)
  statement_of (some left) (some right) (some variables) =
      some (normalize left, normalize right, map strip variables)
  statement_of _ _ _ = none

  abbrev pub expected_statement : Json → Option (String × String × List String)
  expected_statement claim =
      statement_of (text_of (get "left" claim)) (text_of (get "right" claim))
        (texts_of (get "variables" claim))

  -- certificate["statement"] == expected, for a certificate that the checker took, so that its
  -- statement has these three fields and no other
  abbrev pub states : Json → Option (String × String × List String) → Bool
  states statement none = false
  states statement (some (left, right, variables)) =
      is_text (get "left" statement) left
      && is_text (get "right" statement) right
      && same_texts (texts_of (get "variables" statement)) variables

  abbrev pub polynomial_rejected : Json → Finding
  polynomial_rejected raw = record {
    status = unknown;
    assurance_level = none;
    scope = "polynomial_identity_over_rationals";
    provider = some (provider services raw "certificate.polynomial_identity");
    detail = object (field "reason" (string "certificate_rejected") end);
    blocked_by = [];
    limitations = "independent_checker_rejected_provider_output" ∷ [];
  }

  -- The terms of the certificate: how many, and the first.
  abbrev pub first_item : List Json → Json
  first_item [] = null
  first_item (t ∷ ts) = t

  abbrev pub polynomial_detail : Json → Verified → Json
  polynomial_detail certificate v =
      let terms = items_of (get "normalizedDifference" certificate) in
      object (
        field "identity" (boolean v.identity) (
          field "statementDigest" (or_null (get "statementDigest" certificate)) (
            field "certificateDigest" v.certificate_digest (
              field "differenceTermCount" (integer (pos (length terms)))
                (field "firstDifferenceTerm" (first_item terms) (field "checker" v.checker end))))))

  -- What follows the call of the checker.
  abbrev pub polynomial_answer : Obligation → Json → Option Verified → Finding
  polynomial_answer o raw none = polynomial_rejected raw
  polynomial_answer o raw (some v) =
      let certificate = or_null (get "certificate" raw) in
      if states (or_null (get "statement" certificate)) (expected_statement o.claim)
      then record {
        status = if v.identity then checked else falsified;
        assurance_level = some exact_symbolic;
        scope = "polynomial_identity_over_rationals";
        provider = some (provider services raw "certificate.polynomial_identity");
        detail = polynomial_detail certificate v;
        blocked_by = [];
        limitations = "natural_language_to_claim_translation_unchecked" ∷ [];
      }
      else polynomial_rejected raw

  -- `_polynomial_entry`
  unfoldable pub polynomial_finding : Obligation → Json → Finding
  polynomial_finding o raw = polynomial_answer o raw (verify (get "certificate" raw))

  abbrev pub equivalence_status : Bool → Option Json → Status
  equivalence_status proven equivalence =
      if proven && is_text equivalence "equivalent"
      then checked
      else if proven && is_text equivalence "not_equivalent"
      then falsified
      else unknown

  abbrev pub inconclusive : Status → List String
  inconclusive unknown = "symbolic_and_bounded_probe_result_inconclusive" ∷ []
  inconclusive _ = []

  -- str(raw_result.get("scope", default))
  abbrev pub scope_text : Option Json → String
  scope_text (some (string s)) = s
  scope_text none = "declared_domain_and_definedness_policy"
  scope_text (some v) = services.str_of v

  -- `_equivalence_entry`
  unfoldable pub equivalence_finding : Json → Finding
  equivalence_finding raw =
      let proven = is_true (get "proven" raw) in
      let status = equivalence_status proven (get "equivalence" raw) in
      record {
        status = status;
        assurance_level = assurance_level_of (get "assurance" raw);
        scope = scope_text (get "scope" raw);
        provider = some (provider services raw "expression.equivalent");
        detail = object (
            field "equivalence" (or_null (get "equivalence" raw)) (
              field "proven" (boolean proven) (
                field "definedness" (or_null (get "definedness" raw)) (
                  field "difference" (or_null (get "difference" raw))
                    (field "counterexample" (or_null (get "counterexample" raw)) end)))));
        blocked_by = [];
        limitations = "natural_language_to_claim_translation_unchecked" ∷ inconclusive status;
      }

  abbrev pub or_nil : Option Json → Json
  or_nil none = array nil
  or_nil (some v) = v

  -- `_dimension_entry`
  unfoldable pub dimension_finding : Json → Finding
  dimension_finding raw =
      let consistent = is_true (get "dimensionallyConsistent" raw) in
      record {
        status = if consistent then checked else falsified;
        assurance_level = some exact_symbolic;
        scope = "dimensional_consistency_only";
        provider = some (provider services raw "dimension.check");
        detail = object (
            field "dimensionallyConsistent" (boolean consistent) (
              field "leftDimension" (or_null (get "leftDimension" raw)) (
                field "rightDimension" (or_null (get "rightDimension" raw))
                  (field "issues" (or_nil (get "issues" raw)) end))));
        blocked_by = [];
        limitations =
            "formula_correctness_and_coefficients_unchecked"
            ∷ "natural_language_to_claim_translation_unchecked" ∷ [];
      }

  -- `_geometry_entry`; `get` of a value that is no dict gives nothing, as `isinstance` asks
  unfoldable pub geometry_finding : Json → Finding
  geometry_finding raw =
      let square = or_null (get "square" raw) in
      let nijenhuis = or_null (get "nijenhuis" raw) in
      let satisfied = is_true (get "satisfied" square) && is_true (get "vanished" nijenhuis) in
      record {
        status = if satisfied then checked else falsified;
        assurance_level = some exact_symbolic;
        scope = "local_coordinate_rational_polynomial_almost_complex_check";
        provider = some (provider services raw "geometry.almost_complex.local_check");
        detail = object (
            field "localConclusion" (or_null (get "localConclusion" raw)) (
              field "square" square (
                field "nijenhuis" nijenhuis (
                  field "uncheckedGlobalObligations" (or_nil (get "uncheckedGlobalObligations" raw))
                    end))));
        blocked_by = [];
        limitations =
            "chart_and_global_manifold_obligations_unchecked"
            ∷ "natural_language_to_claim_translation_unchecked" ∷ [];
      }

  abbrev pub supported_kinds : List String
  supported_kinds =
      "dimension_consistency" ∷ "expression_equivalence" ∷ "local_almost_complex_integrability"
      ∷ "polynomial_identity" ∷ []

  -- `_unsupported_entry`
  abbrev pub unsupported_finding : Finding
  unsupported_finding = record {
    status = unsupported;
    assurance_level = none;
    scope = "unregistered_obligation_kind";
    provider = none;
    detail = object (
        field "reason" (string "no_registered_obligation_provider")
          (field "supportedKinds" (array (of_list (map string supported_kinds))) end));
    blocked_by = [];
    limitations = "claim_not_interpreted_or_executed" ∷ [];
  }

  -- `_blocked_entry`
  abbrev pub blocked_finding : List ℕ → Finding
  blocked_finding blocked = record {
    status = unknown;
    assurance_level = none;
    scope = "dependency_gated_obligation";
    provider = none;
    detail = object (
        field "reason" (string "dependency_not_checked")
          (field "blockedBy" (array (of_list (map (λ i. integer (pos i)) blocked))) end));
    blocked_by = blocked;
    limitations = "provider_not_executed" ∷ [];
  }

  -- The finding of an answer with the status "ok", by kind.
  abbrev pub ok_finding : Obligation → Kind → Json → Finding
  ok_finding o polynomial_identity raw = polynomial_finding o raw
  ok_finding o expression_equivalence raw = equivalence_finding raw
  ok_finding o dimension_consistency raw = dimension_finding raw
  ok_finding o local_almost_complex_integrability raw = geometry_finding raw
  ok_finding o (other k) raw = unsupported_finding

  abbrev pub operation_of : Kind → String
  operation_of k = elim (provider_of k) [ none ↦ "" | some operation ↦ operation ]

  -- `_map_provider_result`, for a kind with a provider
  unfoldable pub provider_finding : Obligation → Json → Finding
  unfolding polynomial_finding equivalence_finding dimension_finding geometry_finding
  provider_finding o raw =
      if is_text (get "status" raw) "ok"
      then ok_finding o o.kind raw
      else error_finding services (operation_of o.kind) raw

  abbrev pub deadline_answer : Json
  deadline_answer = object (
      field "status" (string "error") (
        field "error"
          (error_payload "E_TIMEOUT" "obligation set exhausted its cumulative deadline" none
            (some "batch") none (some "split_or_reduce"))
          end))

  -- `_deadline_entry`
  abbrev pub deadline_finding : Obligation → Finding
  deadline_finding o = error_finding services (operation_of o.kind) deadline_answer
