-- ===== src/Obligations/Replay/Outcomes.antt =====
-- What `check_obligation_set` (src/math_anchor/obligations.py) tells its caller.
use math_anchor.Base.{
  ℕ, ◌+◌, ◌≤◌, ◌<◌, ◌≡◌, ◌≢◌, Bool, false, false≢true, ==_iff, refl, sym, ap, ◌∙◌, arith, true,
  List, [], ◌∷◌, ◌==◌, leb, ok, err, All, ok_inj, Bool-cases, inl, inr, ◌⊎◌, map, length, >>=-eq-ok,
  require-eq-ok, >>-eq-ok, ◌↔◌, subst, leb→le, e_output_limit,
}
use math_anchor.Base.Json.{Json, object, string, field, end}
use math_anchor.Obligations.Entries.{
  Status, checked, falsified, unknown, unsupported, Entry, Services, is_checked,
}
use math_anchor.Obligations.Check.{Environment, check_entries}
use math_anchor.Obligations.Receipts.{
  Checks, Request, validate_request, Summary, summary, Receipt, counted, receipt_json,
}
use math_anchor.Obligations.Replay.{
  Feedback, unchecked, selected, feedback_of, feedback_json, omitted, compact, fit_feedback, report,
  check_obligation_set, receipt_of,
}

abbrev pub AllChecked : List Entry → Type 0
AllChecked = All (λ e. e.status ≡ checked)

-- One for the same status, and zero otherwise.
abbrev pub mark : Status → Status → ℕ
mark checked checked = 1
mark falsified falsified = 1
mark unknown unknown = 1
mark unsupported unsupported = 1
mark _ _ = 0

-- How many entries have a status.
abbrev pub tally : Status → List Entry → ℕ
tally st [] = 0
tally st (e ∷ es) = mark st e.status + tally st es

-- The counts of a summary are the numbers of the entries of each status, and add up.
pub record Counts (es : List Entry) (s : Summary) : Type 0 where
  pub checked_exact : s.checked_count ≡ tally checked es
  pub falsified_exact : s.falsified_count ≡ tally falsified es
  pub unknown_exact : s.unknown_count ≡ tally unknown es
  pub unsupported_exact : s.unsupported_count ≡ tally unsupported es
  pub total_exact : s.total ≡ length es
  pub parts : s.checked_count + s.falsified_count + s.unknown_count + s.unsupported_count ≡ s.total

counted-Counts :
    (st : Status) (e : Entry) (es : List Entry) (s : Summary)
    → e.status ≡ st
    → Counts es s
    → Counts (e ∷ es) (counted st s)
counted-Counts checked e es s h c = rw h (ground arith)
counted-Counts falsified e es s h c = rw h (ground arith)
counted-Counts unknown e es s h c = rw h (ground arith)
counted-Counts unsupported e es s h c = rw h (ground arith)

summary-Counts : (es : List Entry) → Counts es (summary es)
summary-Counts [] = ground arith
summary-Counts (e ∷ es) = counted-Counts e.status e es (summary es) refl (summary-Counts es)

tally-le : (es : List Entry) → tally checked es ≤ length es
tally-le [] = omega arith
tally-le (e ∷ es) = ground (arith, tally-le es)

status_one : (st : Status) → mark checked st ≡ 1 → st ≡ checked
status_one checked h = refl
status_one falsified h = absurd (omega arith)
status_one unknown h = absurd (omega arith)
status_one unsupported h = absurd (omega arith)

status_le : (st : Status) → mark checked st ≤ 1
status_le st = ground arith

tally-all : (es : List Entry) → tally checked es ≡ length es → AllChecked es
tally-all [] h = tt
tally-all (e ∷ es) h =
    let rest = tally-le es in
    let own = status_le e.status in (status_one e.status (omega arith), tally-all es (omega arith))

all-tally : (es : List Entry) → AllChecked es → tally checked es ≡ length es
all-tally [] h = refl
all-tally (e ∷ es) (own, rest) =
    let later = all-tally es rest in
    let one : mark checked e.status ≡ 1 = ap (mark checked) own in omega arith

AllChecked-iff :
    (es : List Entry) → (((summary es).checked_count == (summary es).total) ≡ true) ↔ AllChecked es
AllChecked-iff es =
    let c = summary-Counts es in
    (
      λ h. tally-all es (sym c.checked_exact ∙ (==_iff _ _).0 h ∙ c.total_exact),
      λ h. (==_iff _ _).1 (c.checked_exact ∙ all-tally es h ∙ sym c.total_exact),
    )

-- An entry as it stands, or with its digest for its detail.
abbrev pub presented : Bool → Entry → Entry
presented false e = e
presented true e = record e {
  detail = object (field "digest" (string e.detail_digest) end);
  detail_omitted = true;
}

-- The entries that are shown of some entries, in their order: all in the full mode, and those that are
-- not checked otherwise; each as it stands, or each without its detail.
pub data Shown (full bare : Bool) : List Entry → List Entry → Type 0 where
  nothing : Shown full bare [] []
  shown :
      {e d : Entry} {es ds : List Entry}
      → (full ≡ true) ⊎ (e.status ≢ checked)
      → d ≡ presented bare e
      → Shown full bare es ds
      → Shown full bare (e ∷ es) (d ∷ ds)
  left_out :
      {e : Entry} {es ds : List Entry}
      → full ≡ false
      → e.status ≡ checked
      → Shown full bare es ds
      → Shown full bare (e ∷ es) ds

status-eq : (st : Status) → is_checked st ≡ true → st ≡ checked
status-eq checked h = refl
status-eq falsified h = absurd (cc)
status-eq unknown h = absurd (cc)
status-eq unsupported h = absurd (cc)

status-ne : (st : Status) → is_checked st ≡ false → st ≢ checked
status-ne st h e = false≢true (sym h ∙ ap is_checked e)

Shown-all : (es : List Entry) → Shown true false es es
Shown-all [] = nothing
Shown-all (e ∷ es) = shown (inl refl) refl (Shown-all es)

Shown-unchecked : (es : List Entry) → Shown false false es (unchecked es)
Shown-unchecked [] = nothing
Shown-unchecked (e ∷ es) = elim (Bool-cases (is_checked e.status)) [
  | inl c ↦ rw c (left_out refl (status-eq e.status c) (Shown-unchecked es))
  | inr u ↦ rw u (shown (inr (status-ne e.status u)) refl (Shown-unchecked es))
]

Shown-selected : (full : Bool) (es : List Entry) → Shown full false es (selected full es)
Shown-selected true es = Shown-all es
Shown-selected false es = Shown-unchecked es

Shown-omitted :
    {full : Bool} {es ds : List Entry}
    → Shown full false es ds
    → Shown full true es (map omitted ds)
Shown-omitted nothing = nothing
Shown-omitted (shown h e s) = shown h (ap omitted e) (Shown-omitted s)
Shown-omitted (left_out h e s) = left_out h e (Shown-omitted s)

-- What the feedback says of the receipt `r`, for a request and a limit of bytes. Details are left out
-- only where the feedback with the details is too large.
pub record Tells (services : Services) (request : Request) (r : Receipt) (f : Feedback)
    : Type 0 where
  pub status : (f.all_checked ≡ true) ↔ AllChecked r.obligations
  pub mode : f.is_full ≡ request.is_full
  pub counts : Counts r.obligations f.summary_of
  pub bare : Bool
  pub listed : Shown request.is_full bare r.obligations f.obligations
  pub whole : List Entry
  pub listed_whole : Shown request.is_full false r.obligations whole
  pub needed :
      (bare ≡ false)
      ⊎ (request.feedback_bytes < services.size (feedback_json (record f { obligations = whole })))
  pub digests :
      (f.request_digest ≡ r.request_digest)
      × (f.receipt_digest ≡ r.receipt_digest)
      × (f.outcome_digest ≡ r.outcome_digest)
  pub fits : services.size (feedback_json f) ≤ request.feedback_bytes

fit_feedback-cases :
    (services : Services) (maximum : ℕ) (f : Feedback) {g : Feedback}
    → fit_feedback services maximum f ≡ ok g
    → ((g ≡ f) ⊎ ((g ≡ compact f) × (maximum < services.size (feedback_json f))))
      × (services.size (feedback_json g) ≤ maximum)
unfolding fit_feedback
fit_feedback-cases services maximum f {g} h =
    elim (Bool-cases (leb (services.size (feedback_json f)) maximum)) [
      | inl a ↦
          let e : f ≡ g = ok_inj (rw a at h) in
          (inl (sym e), subst (λ x. services.size (feedback_json x) ≤ maximum) e (leb→le _ _ a))
      | inr a ↦ elim (Bool-cases (leb (services.size (feedback_json (compact f))) maximum)) [
        | inl b ↦
            let e : compact f ≡ g = ok_inj (rw (a, b) at h) in
            (
              inr (sym e, ground arith),
              subst (λ x. services.size (feedback_json x) ≤ maximum) e (leb→le _ _ b),
            )
        | inr b ↦ absurd (ne (rw (a, b) at h))
      ]
    ]
  where
    ne : err e_output_limit ≡ ok g → ⊥
    ne k = cc

feedback_of-Tells :
    (services : Services) (request : Request) (r : Receipt) {g : Feedback}
    → r.summary_of ≡ summary r.obligations
    → (g ≡ feedback_of request r)
      ⊎ ((g ≡ compact (feedback_of request r))
          × (request.feedback_bytes < services.size (feedback_json (feedback_of request r))))
    → services.size (feedback_json g) ≤ request.feedback_bytes
    → Tells services request r g
feedback_of-Tells services request r s (inl e) b = record {
  status = rw (e, s) (AllChecked-iff r.obligations);
  mode = ap (λ g. g.is_full) e;
  counts = rw (e, s) (summary-Counts r.obligations);
  bare = false;
  listed = rw e (Shown-selected request.is_full r.obligations);
  whole = selected request.is_full r.obligations;
  listed_whole = Shown-selected request.is_full r.obligations;
  needed = inl refl;
  digests =
      (ap (λ g. g.request_digest) e, ap (λ g. g.receipt_digest) e, ap (λ g. g.outcome_digest) e);
  fits = b;
}
feedback_of-Tells services request r s (inr (e, large)) b = record {
  status = rw (e, s) (AllChecked-iff r.obligations);
  mode = ap (λ g. g.is_full) e;
  counts = rw (e, s) (summary-Counts r.obligations);
  bare = true;
  listed = rw e (Shown-omitted (Shown-selected request.is_full r.obligations));
  whole = selected request.is_full r.obligations;
  listed_whole = Shown-selected request.is_full r.obligations;
  needed = inr (rw e large);
  digests =
      (ap (λ g. g.request_digest) e, ap (λ g. g.receipt_digest) e, ap (λ g. g.outcome_digest) e);
  fits = b;
}

-- A report that is given: the receipt conforms, and the feedback was made to fit.
pub report-eq-ok :
    (services : Services) (checks : Checks) (request : Request) (r : Receipt)
    {out : Feedback × Receipt}
    → report services checks request r ≡ ok out
    → (checks.receipt_conforms (receipt_json r) ≡ true)
      × (fit_feedback services request.feedback_bytes (feedback_of request r) ≡ ok out.0)
      × (r ≡ out.1)
unfolding report
report-eq-ok services checks request r {out} h =
    let (_, h₁) = require-eq-ok _ _ _ h in
    let (c, h₂) = require-eq-ok _ _ _ h₁ in
    let (f, fitted, h₃) =
      >>=-eq-ok (fit_feedback services request.feedback_bytes (feedback_of request r)) _ h₂ in
    let (_, h₄) = require-eq-ok _ _ _ h₃ in
    (c, fitted ∙ ap ok (ap (λ p. p.0) (ok_inj h₄)), ap (λ p. p.1) (ok_inj h₄))

-- What `check_obligation_set` tells of the receipt it gives: `all_checked` holds just where every
-- entry is checked; the summary counts the entries of each status, and the counts add up; the entries
-- listed are, in their order, all of the receipt's in the full mode and those that are not checked
-- otherwise, either each as it stands or each with its digest for its detail, and the latter only
-- where the feedback with the details is too large; the mode is the request's, the digests are the
-- receipt's, and the feedback has at most the bytes asked for.
pub check-Tells :
    (services : Services) (checks : Checks) (env : Environment) (runtime : Json) (request : Request)
    {f : Feedback} {r : Receipt}
    → check_obligation_set services checks env runtime request ≡ ok (f, r)
    → Tells services request r f
unfolding check_obligation_set
check-Tells services checks env runtime request {f} h =
    let (_, h₁) = >>-eq-ok (validate_request checks request) _ h in
    let (es, _, h₂) =
      >>=-eq-ok (check_entries services request.sets env request.obligations) _ h₁ in
    let r₀ = receipt_of services request runtime es in
    let (_, fitted, e) = report-eq-ok services checks request r₀ h₂ in
    let (c, b) =
      fit_feedback-cases services request.feedback_bytes (feedback_of request r₀) fitted in
    subst (λ q. Tells services request q f) e (feedback_of-Tells services request r₀ refl c b)
