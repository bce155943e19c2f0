-- ===== src/Obligations/Replay/Integrity.antt =====
-- The digests of a receipt that `check_obligation_set` made, as `_validate_receipt_integrity` and
-- `replay_obligation_set` read them (src/math_anchor/obligations.py).
use text.Mathlib.TextPositions.{eq_refl}
use math_anchor.Base.{
  ℕ, ◌+◌, ◌≡◌, refl, sym, ap, ◌∙◌, arith, true, false, List, [], ◌∷◌, ◌==◌, if◌then◌else◌, ok, All,
  ok_inj, Bool-cases, inl, inr, >>=-eq-ok, >>-eq-ok, subst,
}
use math_anchor.Base.Int.{pos, ltb_ℤ}
use math_anchor.Base.Json.{Json, str_eq}
use math_anchor.Obligations.{Obligation, dependency_layers}
use math_anchor.Obligations.Entries.{Entry, Services, entry}
use math_anchor.Obligations.Check.{
  Environment, entry_of, blocked_by, settle, gate, deadline_entries, provider_entries, execute,
  check_layers, collect, check_entries, is_known,
}
use math_anchor.Obligations.Receipts.{
  Checks, Request, validate_request, Receipt, receipt_json, Summary, summary, summary_eq,
}
use math_anchor.Obligations.Replay.Outcomes.{report-eq-ok}
use math_anchor.Obligations.Replay.{
  intact_details, validate_receipt_integrity, receipt_of, Feedback, check_obligation_set, Replay,
  matched, compared, replay_obligation_set,
}

module _ (services : Services) where
  -- The entry has its detail, and the digest of it.
  abbrev Sealed : Entry → Type 0
  Sealed e = (e.detail_digest ≡ services.digest e.detail) × (e.detail_omitted ≡ false)

  intact : (es : List Entry) → All Sealed es → intact_details services es ≡ ok tt
  intact [] h = refl
  intact (e ∷ es) ((d, o), h) = rw (o, d, eq_refl, intact es h) refl

  entry_of-Sealed :
      (i : ℕ) (es : List Entry) {e : Entry} → All Sealed es → entry_of i es ≡ ok e → Sealed e
  entry_of-Sealed i [] h found = absurd (cc)
  entry_of-Sealed i (x ∷ es) {e} h found = elim (Bool-cases (x.id == i)) [
    | inl s ↦
        subst Sealed (ok_inj (sym (ap (λ b. if b then ok x else entry_of i es) s) ∙ found)) h.0
    | inr n ↦ entry_of-Sealed i es h.1 (sym (ap (λ b. if b then ok x else entry_of i es) n) ∙ found)
  ]

  collect-Sealed :
      (os : List Obligation) (es : List Entry) {out : List Entry}
      → All Sealed es
      → collect os es ≡ ok out
      → All Sealed out
  collect-Sealed [] es h e = subst (All Sealed) (ok_inj e) tt
  collect-Sealed (o ∷ os) es h e =
      let (x, found, e₁) = >>=-eq-ok (entry_of o.id es) _ e in
      let (rest, more, e₂) = >>=-eq-ok (collect os es) _ e₁ in
      subst (All Sealed) (ok_inj e₂) (entry_of-Sealed o.id es h found, collect-Sealed os es h more)

  module _ (sets : List (ℕ × List Json)) (env : Environment) where
    settle-Sealed :
        (o : Obligation) (b : List ℕ) (es : List Entry)
        → All Sealed es
        → All Sealed (settle services sets env o b es)
    unfolding entry
    settle-Sealed o (d ∷ ds) es h = ((refl, refl), h)
    settle-Sealed o [] es h = elim (Bool-cases (is_known o.kind)) [
      | inl k ↦ rw k h
      | inr u ↦ rw u ((refl, refl), h)
    ]

    gate-Sealed :
        (os : List Obligation) (es : List Entry) {r : List Entry × List Obligation}
        → All Sealed es
        → gate services sets env os es ≡ ok r
        → All Sealed r.0
    unfolding gate
    gate-Sealed [] es h e = subst (λ r. All Sealed r.0) (ok_inj e) h
    gate-Sealed (o ∷ os) es h e =
        let (b, _, e₁) = >>=-eq-ok (blocked_by es o.depends_on) _ e in
        let (r, went, e₂) =
          >>=-eq-ok (gate services sets env os (settle services sets env o b es)) _ e₁ in
        subst (λ r. All Sealed r.0) (ok_inj e₂) (gate-Sealed os _ (settle-Sealed o b es h) went)

    deadline_entries-Sealed :
        (os : List Obligation) (es : List Entry)
        → All Sealed es
        → All Sealed (deadline_entries services sets env os es)
    unfolding entry
    deadline_entries-Sealed [] es h = h
    deadline_entries-Sealed (o ∷ os) es h = deadline_entries-Sealed os _ ((refl, refl), h)

    provider_entries-Sealed :
        (os : List Obligation) (raws : List Json) (es : List Entry) {done : List Entry}
        → All Sealed es
        → provider_entries services sets env os raws es ≡ ok done
        → All Sealed done
    unfolding entry
    provider_entries-Sealed [] [] es h e = subst (All Sealed) (ok_inj e) h
    provider_entries-Sealed [] (raw ∷ raws) es h e = absurd (cc)
    provider_entries-Sealed (o ∷ os) [] es h e = absurd (cc)
    provider_entries-Sealed (o ∷ os) (raw ∷ raws) es h e =
        provider_entries-Sealed os raws _ ((refl, refl), h) e

    execute-Sealed :
        (n : ℕ) (os : List Obligation) (es : List Entry) {done : List Entry}
        → All Sealed es
        → execute services sets env n os es ≡ ok done
        → All Sealed done
    unfolding execute
    execute-Sealed n [] es h e = subst (All Sealed) (ok_inj e) h
    execute-Sealed n (o ∷ os) es h e = elim (Bool-cases (ltb_ℤ (env.remaining_ms n) (pos 100))) [
      | inl late ↦
          subst (All Sealed) (ok_inj (rw late at e)) (deadline_entries-Sealed (o ∷ os) es h)
      | inr early ↦ provider_entries-Sealed (o ∷ os) _ es h (rw early at e)
    ]

    check_layers-Sealed :
        (n : ℕ) (ls : List (List Obligation)) (es : List Entry) {done : List Entry}
        → All Sealed es
        → check_layers services sets env n ls es ≡ ok done
        → All Sealed done
    unfolding check_layers
    check_layers-Sealed n [] es h e = subst (All Sealed) (ok_inj e) h
    check_layers-Sealed n (l ∷ ls) es h e =
        let (r, gated, e₁) = >>=-eq-ok (gate services sets env l es) _ e in
        let (mid, ran, e₂) = >>=-eq-ok (execute services sets env n r.1 r.0) _ e₁ in
        check_layers-Sealed (n + 1) ls mid (execute-Sealed n r.1 r.0 (gate-Sealed l es h gated) ran)
          e₂

    check_entries-Sealed :
        (os : List Obligation) {out : List Entry}
        → check_entries services sets env os ≡ ok out
        → All Sealed out
    unfolding check_entries
    check_entries-Sealed os e =
        let (ls, _, e₁) = >>=-eq-ok (dependency_layers os) _ e in
        let (es, went, e₂) = >>=-eq-ok (check_layers services sets env 0 ls []) _ e₁ in
        collect-Sealed os es (check_layers-Sealed 0 ls [] tt went) e₂

-- What a run of `check_obligation_set` came by.
record Checked (services : Services) (checks : Checks) (env : Environment) (runtime : Json)
    (request : Request) (r : Receipt) : Type 0 where
  entries : List Entry
  made : r ≡ receipt_of services request runtime entries
  found : check_entries services request.sets env request.obligations ≡ ok entries
  valid : validate_request checks request ≡ ok tt
  conforms : checks.receipt_conforms (receipt_json r) ≡ true

module _ (services : Services) (checks : Checks) (env : Environment) (runtime : Json)
    (request : Request) where
  check-Checked :
      {out : Feedback × Receipt}
      → check_obligation_set services checks env runtime request ≡ ok out
      → Checked services checks env runtime request out.1
  unfolding check_obligation_set
  check-Checked h =
      let (v, h₁) = >>-eq-ok (validate_request checks request) _ h in
      let (es, f, h₂) =
        >>=-eq-ok (check_entries services request.sets env request.obligations) _ h₁ in
      let (c, _, e) = report-eq-ok services checks request _ h₂ in
      record {
        entries = es;
        made = sym e;
        found = f;
        valid = v;
        conforms = ap (λ r. checks.receipt_conforms (receipt_json r)) (sym e) ∙ c;
      }

summary_eq_refl : (s : Summary) → summary_eq s s ≡ true
summary_eq_refl s = ground arith

intact_receipt :
    (services : Services) (request : Request) (runtime : Json) (es : List Entry)
    → intact_details services es ≡ ok tt
    → validate_receipt_integrity services (receipt_of services request runtime es) ≡ ok tt
unfolding validate_receipt_integrity
intact_receipt services request runtime es h =
    rw (eq_refl, summary_eq_refl (summary es), eq_refl, h) refl

-- A receipt that `check_obligation_set` gave passes `_validate_receipt_integrity`: its own digest, its
-- summary, its outcome digest and every entry's detail digest are those of its contents.
pub check-validate_receipt_integrity :
    (services : Services) (checks : Checks) (env : Environment) (runtime : Json) (request : Request)
    {f : Feedback} {r : Receipt}
    → check_obligation_set services checks env runtime request ≡ ok (f, r)
    → validate_receipt_integrity services r ≡ ok tt
check-validate_receipt_integrity services checks env runtime request {f} {r} h =
    let c = check-Checked services checks env runtime request h in
    rw c.made (
      intact_receipt services request runtime c.entries (
        intact services c.entries
          (check_entries-Sealed services request.sets env request.obligations c.found)))

-- A receipt that `check_obligation_set` gave is replayed as matched, with the same feedback and
-- receipt, if the clock, the providers and the runtime answer as before. Assumed: the receipt is
-- within the limits of the transport.
pub replay-check :
    (services : Services) (checks : Checks) (env : Environment) (runtime : Json) (request : Request)
    {f : Feedback} {r : Receipt}
    → check_obligation_set services checks env runtime request ≡ ok (f, r)
    → checks.bounded_receipt (receipt_json r) ≡ ok tt
    → (p : Replay) × (replay_obligation_set services checks env runtime request r ≡ ok (p, f, r))
      × (p.status ≡ matched)
      × (p.outcome_match ≡ true)
unfolding replay_obligation_set
replay-check services checks env runtime request {f} {r} h bounded =
    let c = check-Checked services checks env runtime request h in
    let sound = check-validate_receipt_integrity services checks env runtime request h in
    let own : str_eq r.request_digest (services.digest request.source) ≡ true =
      ap (λ x. str_eq x.request_digest (services.digest request.source)) c.made
      ∙ eq_refl (services.digest request.source) in
    (
      compared r r,
      rw (bounded, c.conforms, sound, c.valid, own, h) refl,
      rw (eq_refl r.receipt_digest) refl,
      eq_refl r.outcome_digest,
    )
