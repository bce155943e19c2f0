-- ===== src/Obligations/Gating.antt =====
-- `check_obligation_set` (src/math_anchor/obligations.py): an entry for each obligation, and what a
-- checked entry rests on.
use math_anchor.Base.{
  ℕ, zero, suc, ◌≡◌, refl, sym, ap, ◌∙◌, arith, true, false, List, [], ◌∷◌, ◌==◌, if◌then◌else◌, ok,
  err, key_error, All, ok_inj, Bool-cases, inl, inr, false≢true, length, >>=-eq-ok,
}
use math_anchor.Base.Json.{Json}
use math_anchor.Obligations.{Obligation, mem, ids_of, layer_of, layers_from, dependency_layers}
use math_anchor.Obligations.Layers.{covers, dependency_layers-Ordered, round-ok}
use math_anchor.Obligations.Acyclic.{minus-mem, IsRanked, dependency_layers-ok}
use math_anchor.Obligations.Entries.{Entry, Services, is_checked}
use math_anchor.Obligations.Check.{entry_of, Environment, collect, check_entries}
use math_anchor.Obligations.Growth.{Distinct, Present, CheckedIn, Grows, Grows-gated}
use math_anchor.Obligations.Runs.{AllDistinct, check_layers-Complete}

mem-layer_of :
    (i : ℕ) (pending completed : List ℕ) (os : List Obligation)
    → mem i (ids_of os) ≡ false
    → mem i (ids_of (layer_of pending completed os)) ≡ false
mem-layer_of i pending completed [] h = h
mem-layer_of i pending completed (o ∷ os) h = ground (arith, h, mem-layer_of i pending completed os)

layer_of-Distinct :
    (pending completed : List ℕ) (os : List Obligation)
    → Distinct (ids_of os)
    → Distinct (ids_of (layer_of pending completed os))
layer_of-Distinct pending completed [] d = tt
layer_of-Distinct pending completed (o ∷ os) d =
    ground (
      arith,
      mem-layer_of o.id pending completed os d.0,
      layer_of-Distinct pending completed os d.1,
    )

-- Every id of a layer is pending.
layer-pending :
    (i : ℕ) (pending completed : List ℕ) (os : List Obligation)
    → mem i (ids_of (layer_of pending completed os)) ≡ true
    → mem i pending ≡ true
layer-pending i pending completed [] h = absurd (false≢true h)
layer-pending i pending completed (o ∷ os) h =
    ground (arith, h, layer-pending i pending completed os)

layers_from-Distinct :
    (fuel : ℕ) (os : List Obligation) (pending completed : List ℕ) {ls : List (List Obligation)}
    → Distinct (ids_of os)
    → layers_from fuel os pending completed ≡ ok ls
    → AllDistinct ls × ((i : ℕ) → covers i ls ≡ true → mem i pending ≡ true)
unfolding layers_from
layers_from-Distinct fuel os [] completed d h = rw (← ok_inj h) (tt, λ i k. absurd (false≢true k))
layers_from-Distinct zero os (i ∷ is) completed d h = cc
layers_from-Distinct (suc fuel) os (i ∷ is) completed d h =
    let pending = i ∷ is in
    let layer = layer_of pending completed os in
    let (more, h₁, e) = round-ok layer _ h in
    let (distinct, own) = layers_from-Distinct fuel os _ _ d h₁ in
    rw e (
      (layer_of-Distinct pending completed os d, distinct),
      λ j k. elim (Bool-cases (mem j (ids_of layer))) [
        | inl m ↦ layer-pending j pending completed os m
        | inr m ↦
            minus-mem j pending (ids_of layer)
              (own j (sym (ap (λ b. if b then true else covers j more) m) ∙ k))
      ],
    )

entry_of-id : (i : ℕ) (es : List Entry) {e : Entry} → entry_of i es ≡ ok e → e.id ≡ i
entry_of-id i [] h = absurd (cc)
entry_of-id i (x ∷ es) {e} h = elim (Bool-cases (x.id == i)) [
  | inl s ↦
      let same : x ≡ e = ok_inj (sym (ap (λ b. if b then ok x else entry_of i es) s) ∙ h) in
      let own : x.id ≡ i = ground arith in ap (λ y. y.id) (sym same) ∙ own
  | inr n ↦ entry_of-id i es (sym (ap (λ b. if b then ok x else entry_of i es) n) ∙ h)
]

abbrev pub entry_ids : List Entry → List ℕ
entry_ids [] = []
entry_ids (e ∷ es) = e.id ∷ entry_ids es

-- The entries in the order of the request.
collect-ok :
    (os : List Obligation) (es : List Entry)
    → All (λ i. Present i es) (ids_of os)
    → (out : List Entry) × (collect os es ≡ ok out)
      × (entry_ids out ≡ ids_of os)
      × ((i : ℕ) → mem i (ids_of os) ≡ true → entry_of i out ≡ entry_of i es)
      × ((i : ℕ) → mem i (ids_of os) ≡ false → entry_of i out ≡ err key_error)
collect-ok [] es p = ([], refl, refl, λ i h. absurd (false≢true h), λ i h. refl)
collect-ok (o ∷ os) es ((e, found), p) =
    let (out, h, ids, own, none) = collect-ok os es p in
    let id : e.id ≡ o.id = entry_of-id o.id es found in
    (
      e ∷ out,
      rw (found, h) refl,
      rw (id, ids) refl,
      λ i m. elim (Bool-cases (e.id == i)) [
        | inl s ↦
            let q : o.id ≡ i = ground (arith, id) in rw s (sym found ∙ ap (λ k. entry_of k es) q)
        | inr n ↦ rw n (own i (ground (arith, m, n, id)))
      ],
      λ i m.
          let n : (e.id == i) ≡ false = ground (arith, m, id) in rw n (none i (ground (arith, m))),
    )

All-Present :
    (is : List ℕ) (ls : List (List Obligation)) (es : List Entry)
    → All (λ i. covers i ls ≡ true) is
    → ((i : ℕ) → covers i ls ≡ true → Present i es)
    → All (λ i. Present i es) is
All-Present [] ls es h k = tt
All-Present (i ∷ is) ls es h k = (k i h.0, All-Present is ls es h.1 k)

uncovered :
    (i : ℕ) (ls : List (List Obligation)) (is : List ℕ)
    → (covers i ls ≡ true → mem i is ≡ true)
    → mem i is ≡ false
    → covers i ls ≡ false
uncovered i ls is h m = elim (Bool-cases (covers i ls)) [
  | inl c ↦ absurd (false≢true (sym m ∙ h c))
  | inr n ↦ n
]

unique_layers :
    (os : List Obligation) {ls : List (List Obligation)}
    → Distinct (ids_of os)
    → dependency_layers os ≡ ok ls
    → AllDistinct ls × ((i : ℕ) → covers i ls ≡ true → mem i (ids_of os) ≡ true)
unfolding dependency_layers
unique_layers os d h = layers_from-Distinct (length os) os (ids_of os) [] d h

module _ (services : Services) (sets : List (ℕ × List Json)) (env : Environment) where
  -- What the loop over the layers leaves, and the entries in the order of the request.
  entries-Grows :
      (os : List Obligation) {ls : List (List Obligation)}
      → Distinct (ids_of os)
      → dependency_layers os ≡ ok ls
      → (es : List Entry) × (out : List Entry) × (check_entries services sets env os ≡ ok out)
        × Grows [] es
        × (entry_ids out ≡ ids_of os)
        × ((i : ℕ) → entry_of i out ≡ entry_of i es)
  unfolding check_entries
  entries-Grows os {ls} d h =
      let (distinct, own) = unique_layers os d h in
      let (ordered, covered) = dependency_layers-Ordered os h in
      let (es, went, grows, present, frame) =
        check_layers-Complete services sets env 0 ls [] [] ordered distinct
          (λ i m. absurd (false≢true m), λ i m. refl) in
      let (out, collected, ids, inside, outside) =
        collect-ok os es (All-Present (ids_of os) ls es covered present) in
      (
        es,
        out,
        rw (h, went) collected,
        grows,
        ids,
        λ i. elim (Bool-cases (mem i (ids_of os))) [
          | inl m ↦ inside i m
          | inr m ↦ outside i m ∙ sym (frame i (uncovered i ls (ids_of os) (own i) m))
        ],
      )

check_entries-layers :
    (services : Services) (sets : List (ℕ × List Json)) (env : Environment) (os : List Obligation)
    {out : List Entry}
    → check_entries services sets env os ≡ ok out
    → (ls : List (List Obligation)) × (dependency_layers os ≡ ok ls)
unfolding check_entries
check_entries-layers services sets env os h =
    let (ls, layered, _) = >>=-eq-ok (dependency_layers os) _ h in (ls, layered)

-- Every request whose ids are distinct, whose dependencies are obligations of the request and have
-- no cycle gets an entry for each of its obligations, in the request's order, whatever the clock and
-- the providers answer.
pub check_entries-ok :
    (services : Services) (sets : List (ℕ × List Json)) (env : Environment) (rank : ℕ → ℕ)
    (os : List Obligation)
    → Distinct (ids_of os)
    → IsRanked rank os os
    → (out : List Entry) × (check_entries services sets env os ≡ ok out)
      × (entry_ids out ≡ ids_of os)
check_entries-ok services sets env rank os d ranked =
    let (ls, h) = dependency_layers-ok rank os ranked in
    let (es, out, e, grows, ids, same) = entries-Grows services sets env os d h in (out, e, ids)

-- An entry is checked only if the entry of each of its dependencies is there and is checked, whatever
-- the clock and the providers answer. Assumed: the request's ids are distinct.
pub check_entries-CheckedIn :
    (services : Services) (sets : List (ℕ × List Json)) (env : Environment) (os : List Obligation)
    (i d : ℕ) {out : List Entry} {e : Entry}
    → Distinct (ids_of os)
    → check_entries services sets env os ≡ ok out
    → entry_of i out ≡ ok e
    → is_checked e.status ≡ true
    → mem d e.depends_on ≡ true
    → CheckedIn out d
check_entries-CheckedIn services sets env os i d {out} {e} distinct h found c m =
    let (ls, layered) = check_entries-layers services sets env os h in
    let (es, out', e', grows, ids, same) = entries-Grows services sets env os distinct layered in
    let q : out' ≡ out = ok_inj (sym e' ∙ h) in
    let at = λ (k : ℕ). ap (entry_of k) (sym q) ∙ same k in
    let (x, there, checked_there) = Grows-gated i d grows (sym (at i) ∙ found) c m in
    (x, at d ∙ there, checked_there)
