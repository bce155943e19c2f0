-- ===== src/Obligations/Entries.antt =====
-- The entries of a receipt (src/math_anchor/obligations.py): how a provider's answer becomes a status.
use Prim.Native.String.{String}
use math_anchor.Base.{
  ℕ, Bool, true, false, Option, none, some, List, [], ◌∷◌, ◌==◌, if◌then◌else◌, length,
}
use math_anchor.Base.Json.{Json, string, array, object, end, field, of_list, get, str_eq}
use math_anchor.Errors.{one_of}
use math_anchor.Obligations.Answers.{
  dict_or_null, list_or_empty, normal_code, normalized_provider_error,
}
use math_anchor.Obligations.{
  Obligation, Kind, polynomial_identity, expression_equivalence, dimension_consistency,
  local_almost_complex_integrability, other,
}

pub data Status : Type 0 where
  checked falsified unknown unsupported : Status

abbrev pub is_checked : Status → Bool
is_checked checked = true
is_checked _ = false

pub data Assurance : Type 0 where
  formal_kernel_checked exact_symbolic rigorous_interval numerical heuristic : Assurance

-- What `verify_polynomial_identity_certificate` answers for a valid certificate.
pub record Verified : Type 0 where
  pub identity : Bool
  pub certificate_digest : Json
  pub checker : Json

-- What the obligations ask of other parts: the digest of a value's canonical JSON and its size, the
-- certificate checker, the normal form of an expression's source, `str.strip`, `str` of a value that is no
-- text, the scope that the
-- catalog gives a provider's operation, and the kinds' provider names.
pub record Services : Type 0 where
  pub digest : Json → String
  pub size : Json → ℕ
  pub verify : Option Json → Option Verified
  pub normalize : String → String
  pub strip : String → String
  pub str_of : Json → String
  pub scope_of : String → String

-- _KNOWN_PROVIDERS.get(kind)
abbrev pub provider_of : Kind → Option String
provider_of polynomial_identity = some "certificate.polynomial_identity"
provider_of expression_equivalence = some "expression.equivalent"
provider_of dimension_consistency = some "dimension.check"
provider_of local_almost_complex_integrability = some "geometry.almost_complex.local_check"
provider_of (other k) = none

pub record AssumptionReference : Type 0 where
  pub set_id : Option ℕ
  pub digest : String
  pub count_of : ℕ

pub record Provider : Type 0 where
  pub operation : String
  pub result_digest : String
  pub runtime : Json
  pub backends : Json

pub record Entry : Type 0 where
  pub id : ℕ
  pub kind : Kind
  pub status : Status
  pub assurance_level : Option Assurance
  pub scope : String
  pub claim_digest : String
  pub assumptions : AssumptionReference
  pub depends_on : List ℕ
  pub blocked_by : List ℕ
  pub provider : Option Provider
  pub detail : Json
  pub detail_digest : String
  pub detail_omitted : Bool
  pub limitations : List String

-- assumption_sets[set_id]; the request's validation has seen that the set is there.
abbrev pub assumptions_of : ℕ → List (ℕ × List Json) → List Json
assumptions_of i [] = []
assumptions_of i ((j, texts) ∷ sets) = if j == i then texts else assumptions_of i sets

abbrev pub referenced : Option ℕ → List (ℕ × List Json) → List Json
referenced none sets = []
referenced (some i) sets = assumptions_of i sets

-- list(dict.fromkeys(texts))
abbrev pub drop_text : String → List String → List String
drop_text s [] = []
drop_text s (t ∷ ts) = let rest = drop_text s ts in if str_eq t s then rest else t ∷ rest

abbrev pub dedupe : List String → List String
dedupe [] = []
dedupe (t ∷ ts) = t ∷ drop_text t (dedupe ts)

-- `_assurance_level`
abbrev pub level_of : String → Option Assurance
level_of s =
    if str_eq s "kernel_checked"
    then some formal_kernel_checked
    else if one_of s ("certified" ∷ "deterministic" ∷ [])
    then some exact_symbolic
    else if str_eq s "diagnostic"
    then some numerical
    else if str_eq s "heuristic"
    then some heuristic
    else none

abbrev pub assurance_level_of : Option Json → Option Assurance
assurance_level_of (some (string s)) = level_of s
assurance_level_of _ = none

abbrev pub unsupported_provider_errors : List String
unsupported_provider_errors =
    "E_AST_BLOCK" ∷ "E_DOMAIN" ∷ "E_INPUT" ∷ "E_NAME" ∷ "E_SYNTAX" ∷ "E_UNIT" ∷ []

-- What an entry says beside the obligation's own fields.
pub record Finding : Type 0 where
  pub status : Status
  pub assurance_level : Option Assurance
  pub scope : String
  pub provider : Option Provider
  pub detail : Json
  pub blocked_by : List ℕ
  pub limitations : List String

module _ (services : Services) (sets : List (ℕ × List Json)) where
  open services use {digest}

  -- `_assumption_reference`
  abbrev pub assumption_reference : Obligation → AssumptionReference
  assumption_reference o =
      let texts = referenced o.assumption_set sets in
      record {
        set_id = o.assumption_set;
        digest = digest (array (of_list texts));
        count_of = length texts;
      }

  -- `_entry`
  unfoldable pub entry : Obligation → Finding → Entry
  entry o f = record {
    id = o.id;
    kind = o.kind;
    status = f.status;
    assurance_level = f.assurance_level;
    scope = f.scope;
    claim_digest = digest o.claim;
    assumptions = assumption_reference o;
    depends_on = o.depends_on;
    blocked_by = f.blocked_by;
    provider = f.provider;
    detail = f.detail;
    detail_digest = digest f.detail;
    detail_omitted = false;
    limitations = dedupe f.limitations;
  }

module _ (services : Services) where
  open services use {digest, scope_of}

  -- `_provider`
  abbrev pub provider : Json → String → Provider
  provider raw operation =
      let provenance = dict_or_null (get "provenance" raw) in
      record {
        operation = operation;
        result_digest = digest raw;
        runtime = dict_or_null (get "runtime" provenance);
        backends = list_or_empty (get "backends" provenance);
      }

  -- The finding of `_error_entry`.
  abbrev pub error_finding : String → Json → Finding
  error_finding operation raw =
      let error = normalized_provider_error (get "error" raw) in
      let rejected =
        one_of (normal_code (get "code" (dict_or_null (get "error" raw))))
          unsupported_provider_errors in
      record {
        status = if rejected then unsupported else unknown;
        assurance_level = none;
        scope = scope_of operation;
        provider = some (provider raw operation);
        detail = object (
            field "reason"
              (string (if rejected then "provider_rejected_claim" else "provider_inconclusive"))
              (field "error" error end));
        blocked_by = [];
        limitations = "provider_did_not_establish_the_claim" ∷ [];
      }
