-- ===== src/Obligations/Layers.antt =====
-- The loop of `_dependency_layers` (src/math_anchor/obligations.py): its end, its order, its cover.
use math_anchor.Base.{
  ℕ, zero, suc, ◌≤◌, ◌<◌, ◌≡◌, ◌≢◌, refl, ap, ◌∙◌, arith, Bool, true, false, List, [], ◌∷◌, ◌++◌,
  if◌then◌else◌, length, All, Result, ok, err, e_runtime, Bool-cases, inl, inr, ok_inj, false≢true,
  ◌&&◌, subst, sym,
}
use math_anchor.Obligations.{
  Obligation, mem, subset, ready, layer_of, minus, ids_of, round, layers_from, dependency_layers,
}

-- A layer holds what is ready.
pub layer_of-ready :
    (pending completed : List ℕ) (os : List Obligation)
    → All (λ o. ready pending completed o ≡ true) (layer_of pending completed os)
layer_of-ready pending completed [] = tt
layer_of-ready pending completed (o ∷ os) = ground (arith, layer_of-ready pending completed os)

pub mem-append : (i : ℕ) (xs ys : List ℕ) → mem i ys ≡ true → mem i (xs ++ ys) ≡ true
mem-append i [] ys h = h
mem-append i (x ∷ xs) ys h = ground (arith, mem-append i xs ys h)

pub mem-append_left : (i : ℕ) (xs ys : List ℕ) → mem i xs ≡ true → mem i (xs ++ ys) ≡ true
mem-append_left i [] ys h = absurd (false≢true h)
mem-append_left i (x ∷ xs) ys h = ground (arith, mem-append_left i xs ys)

pub mem-minus : (i : ℕ) (xs ids : List ℕ) → mem i ids ≡ false → mem i (minus xs ids) ≡ mem i xs
mem-minus i [] ids h = refl
mem-minus i (x ∷ xs) ids h = ground (arith, mem-minus i xs ids h, h)

mem-minus_out : (i : ℕ) (xs ids : List ℕ) → mem i ids ≡ true → mem i (minus xs ids) ≡ false
mem-minus_out i [] ids h = refl
mem-minus_out i (x ∷ xs) ids h = ground (arith, mem-minus_out i xs ids h, h)

length-minus : (xs ids : List ℕ) → length (minus xs ids) ≤ length xs
length-minus [] ids = omega arith
length-minus (x ∷ xs) ids = ground (arith, length-minus xs ids)

length-minus_lt :
    (i : ℕ) (xs ids : List ℕ)
    → mem i ids ≡ true
    → mem i xs ≡ true
    → length (minus xs ids) < length xs
length-minus_lt i [] ids h k = absurd (false≢true k)
length-minus_lt i (x ∷ xs) ids h k =
    ground (arith, length-minus xs ids, length-minus_lt i xs ids h, h)

-- The loop ends with the layers or with the error of a cycle: each round that goes on takes an id.
round-ends :
    (layer : List Obligation) (rest : Result (List (List Obligation)))
    → ((o : Obligation) (os : List Obligation) → layer ≡ o ∷ os → rest ≢ err e_runtime)
    → round layer rest ≢ err e_runtime
round-ends [] rest h e = absurd (cc)
round-ends (o ∷ os) (ok ls) h e = absurd (cc)
round-ends (o ∷ os) (err code) h e = h o os refl (cc)

module _ (os : List Obligation) where
  first_pending :
      (pending completed : List ℕ) {o : Obligation} {more : List Obligation}
      → layer_of pending completed os ≡ o ∷ more
      → mem o.id pending ≡ true
  first_pending pending completed {o} {more} e =
      let h : All (λ x. ready pending completed x ≡ true) (o ∷ more) =
        subst (All (λ x. ready pending completed x ≡ true)) e
          (layer_of-ready pending completed os) in
      ground (arith, h)

  pub shrinks :
      (pending completed : List ℕ) {o : Obligation} {more : List Obligation}
      → layer_of pending completed os ≡ o ∷ more
      → length (minus pending (ids_of (layer_of pending completed os))) < length pending
  shrinks pending completed {o} {more} e =
      length-minus_lt o.id pending _ (ap (λ l. mem o.id (ids_of l)) e ∙ ground arith)
        (first_pending pending completed e)

  layers_from-ends :
      (fuel : ℕ) (pending completed : List ℕ)
      → length pending ≤ fuel
      → layers_from fuel os pending completed ≢ err e_runtime
  unfolding layers_from
  layers_from-ends fuel [] completed le e = absurd (cc)
  layers_from-ends zero (i ∷ is) completed le e = absurd (omega (arith, le))
  layers_from-ends (suc fuel) (i ∷ is) completed le bad =
      round-ends (layer_of (i ∷ is) completed os) _
        (λ o more e. layers_from-ends fuel _ _ (omega (arith, le, shrinks (i ∷ is) completed e)))
        bad

pub length-ids_of : (os : List Obligation) → length (ids_of os) ≡ length os
length-ids_of [] = refl
length-ids_of (o ∷ os) = ap suc (length-ids_of os)

-- The fuel, as many rounds as there are obligations, is enough: `dependency_layers` never runs out of
-- it, whatever the dependencies.
pub dependency_layers-ends : (os : List Obligation) → dependency_layers os ≢ err e_runtime
unfolding dependency_layers
dependency_layers-ends os =
    layers_from-ends os (length os) (ids_of os) [] (omega (arith, length-ids_of os))

-- The layers in order: what a layer depends on stands in earlier layers, and what stands in it does
-- not stand in an earlier one.
abbrev pub Ordered : List ℕ → List (List Obligation) → Type 0
Ordered completed [] = Unit
Ordered completed (l ∷ ls) =
    All (λ o. (subset o.depends_on completed ≡ true) × (mem o.id completed ≡ false)) l
    × Ordered (ids_of l ++ completed) ls

-- The id stands in one of the layers.
abbrev pub covers : ℕ → List (List Obligation) → Bool
covers i [] = false
covers i (l ∷ ls) = if mem i (ids_of l) then true else covers i ls

mem-append_none :
    (i : ℕ) (xs ys : List ℕ) → mem i xs ≡ false → mem i ys ≡ false → mem i (xs ++ ys) ≡ false
mem-append_none i [] ys h k = k
mem-append_none i (x ∷ xs) ys h k = ground (arith, mem-append_none i xs ys, h, k)

pub both : (a b : Bool) → (a && b) ≡ true → (a ≡ true) × (b ≡ true)
both a b h = ground arith

covers-next :
    (j : ℕ) (pending : List ℕ) (layer : List Obligation) (more : List (List Obligation))
    → mem j pending ≡ true
    → (mem j (minus pending (ids_of layer)) ≡ true → covers j more ≡ true)
    → covers j (layer ∷ more) ≡ true
covers-next j pending layer more k h = elim (Bool-cases (mem j (ids_of layer))) [
  | inl e ↦ rw e refl
  | inr e ↦ rw e (h (mem-minus j pending (ids_of layer) e ∙ k))
]

-- What holds of every member of a list.
pub All-mem : (xs : List ℕ) (P : ℕ → Type 0) → ((i : ℕ) → mem i xs ≡ true → P i) → All P xs
All-mem [] P h = tt
All-mem (x ∷ xs) P h = (h x (ground arith), All-mem xs P (λ i k. h i (ground (arith, k))))

abbrev Apart : List ℕ → List ℕ → Type 0
Apart pending completed = (i : ℕ) → mem i pending ≡ true → mem i completed ≡ false

Apart-next :
    (pending completed ids : List ℕ)
    → Apart pending completed
    → Apart (minus pending ids) (ids ++ completed)
Apart-next pending completed ids h i k = elim (Bool-cases (mem i ids)) [
  | inl e ↦ absurd (false≢true (sym (mem-minus_out i pending ids e) ∙ k))
  | inr e ↦ mem-append_none i ids completed e (h i (sym (mem-minus i pending ids e) ∙ k))
]

ready-Ordered :
    (pending completed : List ℕ) (os : List Obligation)
    → Apart pending completed
    → All (λ o. ready pending completed o ≡ true) os
    → All (λ o. (subset o.depends_on completed ≡ true) × (mem o.id completed ≡ false)) os
ready-Ordered pending completed [] h k = tt
ready-Ordered pending completed (o ∷ os) h k =
    let (p, s) = both (mem o.id pending) (subset o.depends_on completed) k.0 in
    ((s, h o.id p), ready-Ordered pending completed os h k.1)

-- The rounds of a loop that ended with layers.
pub round-ok :
    (layer : List Obligation) (rest : Result (List (List Obligation))) {ls : List (List Obligation)}
    → round layer rest ≡ ok ls
    → (more : List (List Obligation)) × (rest ≡ ok more) × (ls ≡ layer ∷ more)
round-ok [] rest h = cc
round-ok (o ∷ os) (ok more) h = (more, refl, sym (ok_inj h))
round-ok (o ∷ os) (err code) h = cc

module _ (os : List Obligation) where
  layers_from-Ordered :
      (fuel : ℕ) (pending completed : List ℕ) {ls : List (List Obligation)}
      → Apart pending completed
      → layers_from fuel os pending completed ≡ ok ls
      → Ordered completed ls × ((i : ℕ) → mem i pending ≡ true → covers i ls ≡ true)
  unfolding layers_from
  layers_from-Ordered fuel [] completed a h = rw (← ok_inj h) (tt, λ i k. absurd (false≢true k))
  layers_from-Ordered zero (i ∷ is) completed a h = cc
  layers_from-Ordered (suc fuel) (i ∷ is) completed a h =
      let pending = i ∷ is in
      let layer = layer_of pending completed os in
      let (more, h₁, e) = round-ok layer _ h in
      let (ordered, covered) =
        layers_from-Ordered fuel _ _ (Apart-next pending completed (ids_of layer) a) h₁ in
      rw e (
        (ready-Ordered pending completed layer a (layer_of-ready pending completed os), ordered),
        λ j k. covers-next j pending layer more k (covered j),
      )

-- Whenever `dependency_layers` gives layers, each obligation's dependencies all stand in earlier
-- layers than its own, no obligation stands in two layers, and every obligation stands in one.
pub dependency_layers-Ordered :
    (os : List Obligation) {ls : List (List Obligation)}
    → dependency_layers os ≡ ok ls
    → Ordered [] ls × All (λ i. covers i ls ≡ true) (ids_of os)
unfolding dependency_layers
dependency_layers-Ordered os h =
    let (ordered, covered) = layers_from-Ordered os (length os) (ids_of os) [] (λ i k. refl) h in
    (ordered, All-mem (ids_of os) _ covered)
