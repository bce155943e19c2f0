-- ===== src/Obligations/Rounds.antt =====
-- The rounds of `check_obligation_set` (src/math_anchor/obligations.py): a layer's gate, and its runs.
use math_anchor.Base.{
  ℕ, ◌≡◌, refl, ◌∙◌, arith, true, false, List, [], ◌∷◌, ◌==◌, if◌then◌else◌, ok, All, Bool-cases,
  inl, inr, ◌⊎◌, subst,
}
use math_anchor.Base.Json.{Json}
use math_anchor.Obligations.{Obligation, mem, ids_of}
use math_anchor.Obligations.Entries.{Entry, Services, is_checked, entry}
use math_anchor.Obligations.Check.{entry_of, blocked_by, Environment, gate, settle, runs, is_known}
use math_anchor.Obligations.Growth.{
  Distinct, Fresh, Present, CheckedIn, Grows, same, adds, Grows-trans, Grows-CheckedIn,
  Grows-Present,
}

-- An obligation that may run: it has no entry yet, and its dependencies are checked.
abbrev pub Runnable : List Entry → Obligation → Type 0
Runnable es o = Fresh o.id es × All (CheckedIn es) o.depends_on

-- What a stage adds: only entries of these ids, and one for each.
pub record Settles (ids : List ℕ) (es after : List Entry) : Type 0 where
  pub grows : Grows es after
  pub frame : (i : ℕ) → mem i ids ≡ false → entry_of i after ≡ entry_of i es

-- The dependencies of an obligation, looked up.
pub blocked_by-ok :
    (es : List Entry) (ds : List ℕ)
    → All (λ d. Present d es) ds
    → (b : List ℕ) × (blocked_by es ds ≡ ok b) × ((b ≡ []) → All (CheckedIn es) ds)
blocked_by-ok es [] h = ([], refl, λ e. tt)
blocked_by-ok es (d ∷ ds) ((e, found), rest) =
    let (b, h, k) = blocked_by-ok es ds rest in
    elim (Bool-cases (is_checked e.status)) [
      | inl c ↦ (b, rw (found, h, c) refl, λ n. ((e, found, c), k n))
      | inr u ↦ (d ∷ b, rw (found, h, u) refl, λ n. absurd (cc (n)))
    ]

pub Fresh-cons :
    (x : Entry) (i : ℕ) (es : List Entry) → (x.id == i) ≡ false → Fresh i es → Fresh i (x ∷ es)
Fresh-cons x i es n f = rw n f

pub mem-head : (i j : ℕ) (js : List ℕ) → mem i (j ∷ js) ≡ false → (j == i) ≡ false
mem-head i j js h = ground (arith, h)

pub mem-tail : (i j : ℕ) (js : List ℕ) → mem i (j ∷ js) ≡ false → mem i js ≡ false
mem-tail i j js h = ground (arith, h)

-- Obligations of other ids stay without an entry.
abbrev pub AllFresh : List Entry → List Obligation → Type 0
AllFresh es = All (λ o. Fresh o.id es)

pub AllFresh-cons :
    (x : Entry) (es : List Entry) (os : List Obligation)
    → mem x.id (ids_of os) ≡ false
    → AllFresh es os
    → AllFresh (x ∷ es) os
AllFresh-cons x es [] h f = tt
AllFresh-cons x es (o ∷ os) h f = (
  Fresh-cons x o.id es (ground (arith, h)) f.0,
  AllFresh-cons x es os (mem-tail x.id o.id (ids_of os) h) f.1,
)

pub CheckedIn-grow :
    {a b : List Entry} (ds : List ℕ) → Grows a b → All (CheckedIn a) ds → All (CheckedIn b) ds
CheckedIn-grow [] g h = tt
CheckedIn-grow (d ∷ ds) g h = (Grows-CheckedIn d g h.0, CheckedIn-grow ds g h.1)

pub Present-grow :
    {a b : List Entry} (ds : List ℕ)
    → Grows a b
    → All (λ d. Present d a) ds
    → All (λ d. Present d b) ds
Present-grow [] g h = tt
Present-grow (d ∷ ds) g h = (Grows-Present d g h.0, Present-grow ds g h.1)

abbrev pub Supplied : List Entry → List Obligation → Type 0
Supplied es = All (λ o. All (λ d. Present d es) o.depends_on)

pub Supplied-grow :
    {a b : List Entry} (os : List Obligation) → Grows a b → Supplied a os → Supplied b os
Supplied-grow [] g h = tt
Supplied-grow (o ∷ os) g h = (Present-grow o.depends_on g h.0, Supplied-grow os g h.1)

pub Present-new : (x : Entry) (es : List Entry) → Present x.id (x ∷ es)
Present-new x es = (x, ground arith)

-- The state after a gate: some of the layer have entries, the others run.
pub record Gated (os : List Obligation) (es after : List Entry) (rs : List Obligation)
    : Type 0 where
  pub settled : Settles (ids_of os) es after
  pub runnable : All (Runnable after) rs
  pub distinct : Distinct (ids_of rs)
  pub chosen : (i : ℕ) → mem i (ids_of os) ≡ false → mem i (ids_of rs) ≡ false
  pub covered : (i : ℕ) → mem i (ids_of os) ≡ true → Present i after ⊎ (mem i (ids_of rs) ≡ true)

-- No id of the obligations is `i`.
pub apart :
    (i : ℕ) (os : List Obligation)
    → mem i (ids_of os) ≡ false
    → All (λ o. mem o.id (i ∷ []) ≡ false) os
apart i [] h = tt
apart i (o ∷ os) h = (ground (arith, h), apart i os (mem-tail i o.id (ids_of os) h))

pub frame-AllFresh :
    (ids : List ℕ) (es after : List Entry) (os : List Obligation)
    → Settles ids es after
    → All (λ o. mem o.id ids ≡ false) os
    → AllFresh es os
    → AllFresh after os
frame-AllFresh ids es after [] s h f = tt
frame-AllFresh ids es after (o ∷ os) s h f =
    (s.frame o.id h.0 ∙ f.0, frame-AllFresh ids es after os s h.1 f.1)

pub Settles-cons :
    (i : ℕ) (ids : List ℕ) (es mid after : List Entry)
    → Settles (i ∷ []) es mid
    → Settles ids mid after
    → Settles (i ∷ ids) es after
Settles-cons i ids es mid after s t = record {
  grows = Grows-trans s.grows t.grows;
  frame = λ j h. t.frame j (mem-tail j i ids h) ∙ s.frame j (ground (arith, h));
}

covered_head :
    (j i : ℕ) (is js : List ℕ) (after : List Entry)
    → mem j (i ∷ is) ≡ true
    → (mem j is ≡ true → Present j after ⊎ (mem j js ≡ true))
    → Present j after ⊎ (mem j (i ∷ js) ≡ true)
covered_head j i is js after h k = elim (Bool-cases (j == i)) [
  | inl e ↦ inr (rw e refl)
  | inr n ↦ elim (k (ground (arith, h, n))) [ inl p ↦ inl p | inr m ↦ inr (rw n m) ]
]

-- A gate of one more obligation, by whether it runs.
Gated-running :
    (o : Obligation) (os : List Obligation) (es after : List Entry) (rs : List Obligation)
    → Fresh o.id es
    → mem o.id (ids_of os) ≡ false
    → All (CheckedIn es) o.depends_on
    → Gated os es after rs
    → Gated (o ∷ os) es after (o ∷ rs)
Gated-running o os es after rs f apart deps g = record {
  settled = record {
    grows = g.settled.grows;
    frame = λ j h. g.settled.frame j (mem-tail j o.id (ids_of os) h);
  };
  runnable = (
    (g.settled.frame o.id apart ∙ f, CheckedIn-grow o.depends_on g.settled.grows deps),
    g.runnable,
  );
  distinct = (g.chosen o.id apart, g.distinct);
  chosen = λ j h. ground (arith, h, g.chosen j (mem-tail j o.id (ids_of os) h));
  covered = λ j h. covered_head j o.id (ids_of os) (ids_of rs) after h (g.covered j);
}

Gated-settled :
    (o : Obligation) (os : List Obligation) (es mid after : List Entry) (rs : List Obligation)
    → Settles (o.id ∷ []) es mid
    → Present o.id mid
    → Gated os mid after rs
    → Gated (o ∷ os) es after rs
Gated-settled o os es mid after rs s here g = record {
  settled = Settles-cons o.id (ids_of os) es mid after s g.settled;
  runnable = g.runnable;
  distinct = g.distinct;
  chosen = λ j h. g.chosen j (mem-tail j o.id (ids_of os) h);
  covered = λ j h. elim (Bool-cases (j == o.id)) [
    | inl e ↦
        let q : o.id ≡ j = ground arith in
        inl (subst (λ k. Present k after) q (Grows-Present o.id g.settled.grows here))
    | inr n ↦ g.covered j (ground (arith, h, n))
  ];
}

module _ (services : Services) (sets : List (ℕ × List Json)) (env : Environment) where
  -- What the gate does with one obligation.
  settle-Settles :
      (o : Obligation) (b : List ℕ) (es : List Entry)
      → Fresh o.id es
      → Settles (o.id ∷ []) es (settle services sets env o b es)
        × ((runs services sets env o b ≡ true) → settle services sets env o b es ≡ es)
        × ((runs services sets env o b ≡ false) → Present o.id (settle services sets env o b es))
        × ((runs services sets env o b ≡ true) → b ≡ [])
  unfolding entry
  settle-Settles o (d ∷ ds) es f = (
    record { grows = adds _ same f (inl refl); frame = λ i h. rw (mem-head i o.id [] h) refl },
    λ h. cc,
    λ h. Present-new _ es,
    λ h. cc,
  )
  settle-Settles o [] es f = elim (Bool-cases (is_known o.kind)) [
    | inl k ↦ rw k (record { grows = same; frame = λ i h. refl }, λ h. refl, λ h. cc, λ h. refl)
    | inr u ↦ rw u (
      record { grows = adds _ same f (inl refl); frame = λ i h. rw (mem-head i o.id [] h) refl },
      λ h. cc,
      λ h. Present-new _ es,
      λ h. refl,
    )
  ]

  pub gate-Gated :
      (os : List Obligation) (es : List Entry)
      → Supplied es os
      → AllFresh es os
      → Distinct (ids_of os)
      → (after : List Entry) × (rs : List Obligation) × (gate services sets env os es
          ≡ ok (after, rs))
        × Gated os es after rs
  unfolding gate
  gate-Gated [] es p f d = (
    es,
    [],
    refl,
    record {
      settled = record { grows = same; frame = λ i h. refl };
      runnable = tt;
      distinct = tt;
      chosen = λ i h. h;
      covered = λ i h. absurd (cc);
    },
  )
  gate-Gated (o ∷ os) es p f d =
      let (b, found, gated) = blocked_by-ok es o.depends_on p.0 in
      let mid = settle services sets env o b es in
      let (s, kept, entered, empty) = settle-Settles o b es f.0 in
      let rest_fresh : AllFresh mid os =
        frame-AllFresh (o.id ∷ []) es mid os s (apart o.id os d.0) f.1 in
      let (after, rs, went, g) = gate-Gated os mid (Supplied-grow os s.grows p.1) rest_fresh d.1 in
      (
        after,
        if runs services sets env o b then o ∷ rs else rs,
        rw (found, went) refl,
        elim (Bool-cases (runs services sets env o b)) [
          | inl r ↦ rw r (
              Gated-running o os es after rs f.0 d.0 (gated (empty r))
                (subst (λ m. Gated os m after rs) (kept r) g))
          | inr r ↦ rw r (Gated-settled o os es mid after rs s (entered r) g)
        ],
      )
