-- ===== src/Obligations/Acyclic.antt =====
-- Requests whose dependencies have no cycle, in `_dependency_layers` (src/math_anchor/obligations.py).
use math_anchor.Base.{
  ℕ, zero, suc, ◌≤◌, ◌<◌, ◌≡◌, ◌≢◌, refl, ap, ◌∙◌, arith, Bool, true, false, List, [], ◌∷◌, ◌++◌,
  ◌==◌, if◌then◌else◌, length, All, Result, ok, Bool-cases, inl, inr, false≢true, subst, sym, ◌⊎◌,
}
use math_anchor.Obligations.{
  Obligation, mem, subset, ready, layer_of, minus, ids_of, round, layers_from, dependency_layers,
}
use math_anchor.Obligations.Layers.{mem-append, mem-append_left, mem-minus, shrinks, length-ids_of}

-- A rank that goes down along every dependency; every dependency is an obligation of the request.
abbrev pub IsRanked : (ℕ → ℕ) → List Obligation → List Obligation → Type 0
IsRanked rank all os =
    All (λ o. All (λ d. (mem d (ids_of all) ≡ true) × (rank d < rank o.id)) o.depends_on) os

abbrev In : Obligation → List Obligation → Type 0
In o [] = ⊥
In o (x ∷ xs) = (o ≡ x) ⊎ In o xs

find :
    (i : ℕ) (os : List Obligation)
    → mem i (ids_of os) ≡ true
    → (o : Obligation) × In o os × (o.id ≡ i)
find i [] h = absurd (false≢true h)
find i (o ∷ os) h = elim (Bool-cases (i == o.id)) [
  | inl e ↦ (o, inl refl, ground arith)
  | inr e ↦ let (x, x_in, same) = find i os (ground (arith, h, e)) in (x, inr x_in, same)
]

All-In {κ} :
    (P : Obligation → Type κ) (o : Obligation) (os : List Obligation) → In o os → All P os → P o
All-In P o [] h k = absurd h
All-In P o (x ∷ xs) (inl e) k = subst P (sym e) k.0
All-In P o (x ∷ xs) (inr h) k = All-In P o xs h k.1

taken :
    (b : Bool) (y : Obligation) (ys : List Obligation) → b ≡ true → (if b then y ∷ ys else ys) ≢ []
taken true y ys h e = absurd (cc)
taken false y ys h e = absurd (false≢true h)

tail_nil :
    (b : Bool) (y : Obligation) (ys : List Obligation) → (if b then y ∷ ys else ys) ≡ [] → ys ≡ []
tail_nil true y ys h = absurd (cc)
tail_nil false y ys h = h

-- An obligation that is ready makes the layer not empty.
layer-ne-nil :
    (pending completed : List ℕ) (o : Obligation) (os : List Obligation)
    → In o os
    → ready pending completed o ≡ true
    → layer_of pending completed os ≢ []
layer-ne-nil pending completed o [] h k e = h
layer-ne-nil pending completed o (x ∷ xs) (inl s) k e =
    taken (ready pending completed x) x _ (subst (λ z. ready pending completed z ≡ true) s k) e
layer-ne-nil pending completed o (x ∷ xs) (inr h) k e =
    layer-ne-nil pending completed o xs h k (tail_nil (ready pending completed x) x _ e)

subset-All :
    (ds completed : List ℕ) → All (λ d. mem d completed ≡ true) ds → subset ds completed ≡ true
subset-All [] completed h = refl
subset-All (d ∷ ds) completed h = rw (h.0, subset-All ds completed h.1) refl

pub minus-mem : (i : ℕ) (xs ids : List ℕ) → mem i (minus xs ids) ≡ true → mem i xs ≡ true
minus-mem i [] ids h = h
minus-mem i (x ∷ xs) ids h = ground (arith, minus-mem i xs ids, h)

-- A round that found a layer gives layers, where the next rounds do.
round-ok_of :
    (layer : List Obligation) (rest : Result (List (List Obligation)))
    → layer ≢ []
    → ((o : Obligation) (more : List Obligation)
        → layer ≡ o ∷ more
        → (ls : List (List Obligation)) × (rest ≡ ok ls))
    → (ls : List (List Obligation)) × (round layer rest ≡ ok ls)
round-ok_of [] rest ne h = absurd (ne refl)
round-ok_of (o ∷ os) rest ne h = let (ls, e) = h o os refl in ((o ∷ os) ∷ ls, rw e refl)

module _ (rank : ℕ → ℕ) (os : List Obligation) (ranked : IsRanked rank os os) where
  -- Each obligation of the request is pending or completed, and nothing else is pending.
  abbrev Split : List ℕ → List ℕ → Type 0
  Split pending completed =
      ((i : ℕ) → mem i (ids_of os) ≡ true → (mem i pending ≡ true) ⊎ (mem i completed ≡ true))
      × ((i : ℕ) → mem i pending ≡ true → mem i (ids_of os) ≡ true)

  module _ (pending completed : List ℕ) (split : Split pending completed)
      (stuck : layer_of pending completed os ≡ []) where
    abbrev NonePending : ℕ → Type 0
    NonePending n = (o : Obligation) → In o os → rank o.id < n → mem o.id pending ≡ true → ⊥

    finished :
        (n top : ℕ) (ds : List ℕ)
        → NonePending n
        → top ≤ n
        → All (λ d. (mem d (ids_of os) ≡ true) × (rank d < top)) ds
        → All (λ d. mem d completed ≡ true) ds
    finished n top [] none le h = tt
    finished n top (d ∷ ds) none le h = (
      elim (split.0 d h.0.0) [
        | inl p ↦
            let (o, o_in, same) = find d os h.0.0 in
            let low : rank o.id < n = omega (arith, h.0.1, le, ap rank same) in
            absurd (none o o_in low (ap (λ i. mem i pending) same ∙ p))
        | inr c ↦ c
      ],
      finished n top ds none le h.1,
    )

    none_pending : (n : ℕ) → NonePending n
    none_pending zero o o_in low p = absurd (omega (arith, low))
    none_pending (suc n) o o_in low p =
        let own =
          All-In (λ x. All (λ d. (mem d (ids_of os) ≡ true) × (rank d < rank x.id)) x.depends_on) o
            os o_in ranked in
        let done = finished n (rank o.id) o.depends_on (none_pending n) (omega (arith, low)) own in
        layer-ne-nil pending completed o os o_in
          (rw (p, subset-All o.depends_on completed done) refl) stuck

    -- The layer of a round is empty only where nothing is pending.
    stuck_pending : (i : ℕ) → mem i pending ≡ true → ⊥
    stuck_pending i p =
        let (o, o_in, same) = find i os (split.1 i p) in
        none_pending (suc (rank o.id)) o o_in (omega arith) (ap (λ j. mem j pending) same ∙ p)

  Split-next :
      (pending completed ids : List ℕ)
      → Split pending completed
      → Split (minus pending ids) (ids ++ completed)
  Split-next pending completed ids (known, own) = (
    λ i h. elim (Bool-cases (mem i ids)) [
      | inl e ↦ inr (mem-append_left i ids completed e)
      | inr e ↦ elim (known i h) [
        | inl p ↦ inl (mem-minus i pending ids e ∙ p)
        | inr c ↦ inr (mem-append i ids completed c)
      ]
    ],
    λ i h. own i (minus-mem i pending ids h),
  )

  layers_from-ok :
      (fuel : ℕ) (pending completed : List ℕ)
      → length pending ≤ fuel
      → Split pending completed
      → (ls : List (List Obligation)) × (layers_from fuel os pending completed ≡ ok ls)
  unfolding layers_from
  layers_from-ok fuel [] completed le split = ([], refl)
  layers_from-ok zero (i ∷ is) completed le split = absurd (omega (arith, le))
  layers_from-ok (suc fuel) (i ∷ is) completed le split =
      round-ok_of (layer_of (i ∷ is) completed os) _
        (λ stuck. stuck_pending (i ∷ is) completed split stuck i (ground arith))
        (λ o more e.
          layers_from-ok fuel _ _ (omega (arith, le, shrinks os (i ∷ is) completed e))
            (Split-next (i ∷ is) completed _ split))

-- Where every dependency is an obligation of the request, and some rank goes down along every
-- dependency, so that there is no cycle, `dependency_layers` gives layers.
pub dependency_layers-ok :
    (rank : ℕ → ℕ) (os : List Obligation)
    → IsRanked rank os os
    → (ls : List (List Obligation)) × (dependency_layers os ≡ ok ls)
unfolding dependency_layers
dependency_layers-ok rank os ranked =
    layers_from-ok rank os ranked (length os) (ids_of os) [] (omega (arith, length-ids_of os))
      (λ i h. inl h, λ i h. h)
