-- ===== src/Obligations/Runs.antt =====
-- The runs of a layer and the loop over the layers, in `check_obligation_set`
-- (src/math_anchor/obligations.py).
use math_anchor.Base.{
  ℕ, ◌+◌, ◌≡◌, refl, sym, ap, ◌∙◌, arith, true, false, List, [], ◌∷◌, ◌++◌, ◌==◌, if◌then◌else◌, ok,
  All, Bool-cases, inl, inr, Option, none, some, map, false≢true, subst,
}
use math_anchor.Base.Int.{pos, ltb_ℤ}
use math_anchor.Base.Json.{Json, get, array, to_list}
use math_anchor.Obligations.{Obligation, mem, ids_of, subset}
use math_anchor.Obligations.Layers.{Ordered, covers, mem-append_left}
use math_anchor.Obligations.Entries.{Entry, Services, entry}
use math_anchor.Obligations.Findings.{provider_finding, deadline_finding}
use math_anchor.Obligations.Check.{
  entry_of, Environment, deadline_entries, provider_entries, execute, raw_results, batch_results,
  same_length, cleaned, listed, or_whole, check_layers,
}
use math_anchor.Obligations.Growth.{
  Distinct, Fresh, Present, Gates, Grows, same, adds, Grows-trans, Grows-Present,
}
use math_anchor.Obligations.Rounds.{
  Runnable, Settles, Settles-cons, Supplied, AllFresh, Gated, gate-Gated, Fresh-cons, mem-head,
  mem-tail, CheckedIn-grow, Present-new,
}

same_length-map :
    (a : Json) (os : List Obligation) → same_length (map (λ (o : Obligation). a) os) os ≡ true
same_length-map a [] = refl
same_length-map a (o ∷ os) = same_length-map a os

listed-same_length :
    (v : Option Json) (os : List Obligation) {xs : List Json}
    → listed v os ≡ some xs
    → same_length xs os ≡ true
listed-same_length none os h = absurd (cc)
listed-same_length (some (array xs)) os h = elim (Bool-cases (same_length (to_list xs) os)) [
  | inl e ↦ ground (arith, h, e)
  | inr e ↦ ground (arith, h, e)
]
listed-same_length (some Json.null) os h = absurd (cc)
listed-same_length (some (Json.boolean b)) os h = absurd (cc)
listed-same_length (some (Json.integer n)) os h = absurd (cc)
listed-same_length (some (Json.float n b)) os h = absurd (cc)
listed-same_length (some (Json.string s)) os h = absurd (cc)
listed-same_length (some (Json.object fs)) os h = absurd (cc)

batch_results-same_length :
    (answer : Json) (os : List Obligation) → same_length (batch_results answer os) os ≡ true
batch_results-same_length answer os =
    go (listed (get "results" answer) os) (λ xs h. listed-same_length (get "results" answer) os h)
  where
    go :
        (v : Option (List Json))
        → ((xs : List Json) → v ≡ some xs → same_length xs os ≡ true)
        → same_length (or_whole answer os v) os ≡ true
    go none h = same_length-map answer os
    go (some xs) h = h xs refl

-- There is an answer for each obligation that runs.
raw_results-same_length :
    (env : Environment) (n : ℕ) (os : List Obligation)
    → same_length (raw_results env n os) os ≡ true
raw_results-same_length env n [] = batch_results-same_length (env.run_batch n []) []
raw_results-same_length env n (o ∷ []) = refl
raw_results-same_length env n (o ∷ p ∷ os) =
    batch_results-same_length (env.run_batch n (o ∷ p ∷ os)) _

-- One more entry leaves the others' obligations as they were.
Runnable-next :
    (x : Entry) (es : List Entry) (os : List Obligation)
    → Fresh x.id es
    → Gates es x
    → mem x.id (ids_of os) ≡ false
    → All (Runnable es) os
    → All (Runnable (x ∷ es)) os
Runnable-next x es [] f g h r = tt
Runnable-next x es (o ∷ os) f g h r = (
  (
    Fresh-cons x o.id es (ground (arith, h)) r.0.0,
    CheckedIn-grow o.depends_on (adds x same f g) r.0.1,
  ),
  Runnable-next x es os f g (mem-tail x.id o.id (ids_of os) h) r.1,
)

-- What a run of several obligations leaves.
abbrev pub Ran : List Obligation → List Entry → List Entry → Type 0
Ran os es done = Settles (ids_of os) es done × ((i : ℕ) → mem i (ids_of os) ≡ true → Present i done)

Ran-cons :
    (o : Obligation) (os : List Obligation) (x : Entry) (es done : List Entry)
    → x.id ≡ o.id
    → x.depends_on ≡ o.depends_on
    → Runnable es o
    → Ran os (x ∷ es) done
    → Ran (o ∷ os) es done
Ran-cons o os x es done same_id same_deps (f, deps) (s, covered) = (
  Settles-cons o.id (ids_of os) es (x ∷ es) done
      (record {
        grows = adds x same (rw same_id f) (inr (rw same_deps deps));
        frame = λ i h. let n : (x.id == i) ≡ false = rw same_id (mem-head i o.id [] h) in rw n refl;
      })
      s,
  λ i h. elim (Bool-cases (i == o.id)) [
    | inl e ↦
        let q : x.id ≡ i = ground (arith, same_id) in
        subst (λ k. Present k done) q (Grows-Present x.id s.grows (Present-new x es))
    | inr n ↦ covered i (ground (arith, h, n))
  ],
)

mem-append_right : (i : ℕ) (xs ys : List ℕ) → mem i xs ≡ false → mem i ys ≡ mem i (xs ++ ys)
mem-append_right i [] ys h = refl
mem-append_right i (x ∷ xs) ys h = ground (arith, mem-append_right i xs ys, h)

mem-append_left_none : (i : ℕ) (xs ys : List ℕ) → mem i (xs ++ ys) ≡ false → mem i xs ≡ false
mem-append_left_none i [] ys h = refl
mem-append_left_none i (x ∷ xs) ys h = ground (arith, mem-append_left_none i xs ys, h)

-- What is done after some layers: an entry for each id that is completed, and for no other.
abbrev pub Complete : List ℕ → List Entry → Type 0
Complete completed es =
    ((i : ℕ) → mem i completed ≡ true → Present i es)
    × ((i : ℕ) → mem i completed ≡ false → Fresh i es)

abbrev pub AllDistinct : List (List Obligation) → Type 0
AllDistinct = All (λ l. Distinct (ids_of l))

subset-All :
    (P : ℕ → Type 0) (ds completed : List ℕ)
    → ((i : ℕ) → mem i completed ≡ true → P i)
    → subset ds completed ≡ true
    → All P ds
subset-All P [] completed h s = tt
subset-All P (d ∷ ds) completed h s =
    (h d (ground (arith, s)), subset-All P ds completed h (ground (arith, s)))

layer-Supplied :
    (l : List Obligation) (completed : List ℕ) (es : List Entry)
    → Complete completed es
    → All (λ o. (subset o.depends_on completed ≡ true) × (mem o.id completed ≡ false)) l
    → Supplied es l × AllFresh es l
layer-Supplied [] completed es c h = (tt, tt)
layer-Supplied (o ∷ os) completed es c h =
    let (s, f) = layer-Supplied os completed es c h.1 in
    ((subset-All (λ d. Present d es) o.depends_on completed c.0 h.0.0, s), (c.1 o.id h.0.1, f))

covers_none :
    (i : ℕ) (l : List Obligation) (ls : List (List Obligation))
    → covers i (l ∷ ls) ≡ false
    → (mem i (ids_of l) ≡ false) × (covers i ls ≡ false)
covers_none i l ls h = ground (arith, h)

module _ (services : Services) (sets : List (ℕ × List Json)) (env : Environment) where
  deadline_entries-Ran :
      (os : List Obligation) (es : List Entry)
      → All (Runnable es) os
      → Distinct (ids_of os)
      → Ran os es (deadline_entries services sets env os es)
  unfolding entry
  deadline_entries-Ran [] es r d =
      (record { grows = same; frame = λ i h. refl }, λ i h. absurd (cc))
  deadline_entries-Ran (o ∷ os) es r d =
      let x = entry services sets o (deadline_finding services o) in
      Ran-cons o os x es _ refl refl r.0
        (deadline_entries-Ran os (x ∷ es) (Runnable-next x es os r.0.0 (inr r.0.1) d.0 r.1) d.1)

  provider_entries-Ran :
      (os : List Obligation) (raws : List Json) (es : List Entry)
      → same_length raws os ≡ true
      → All (Runnable es) os
      → Distinct (ids_of os)
      → (done : List Entry) × (provider_entries services sets env os raws es ≡ ok done)
        × Ran os es done
  unfolding entry
  provider_entries-Ran [] [] es l r d =
      (es, refl, (record { grows = same; frame = λ i h. refl }, λ i h. absurd (cc)))
  provider_entries-Ran [] (raw ∷ raws) es l r d = absurd (cc)
  provider_entries-Ran (o ∷ os) [] es l r d = absurd (cc)
  provider_entries-Ran (o ∷ os) (raw ∷ raws) es l r d =
      let x = entry services sets o (provider_finding services o (cleaned raw)) in
      let (done, h, k) =
        provider_entries-Ran os raws (x ∷ es) l (Runnable-next x es os r.0.0 (inr r.0.1) d.0 r.1)
          d.1 in
      (done, h, Ran-cons o os x es done refl refl r.0 k)

  execute-Ran :
      (n : ℕ) (os : List Obligation) (es : List Entry)
      → All (Runnable es) os
      → Distinct (ids_of os)
      → (done : List Entry) × (execute services sets env n os es ≡ ok done) × Ran os es done
  unfolding execute
  execute-Ran n [] es r d =
      (es, refl, (record { grows = same; frame = λ i h. refl }, λ i h. absurd (cc)))
  execute-Ran n (o ∷ os) es r d = elim (Bool-cases (ltb_ℤ (env.remaining_ms n) (pos 100))) [
    | inl late ↦ (
      deadline_entries services sets env (o ∷ os) es,
      rw late refl,
      deadline_entries-Ran (o ∷ os) es r d,
    )
    | inr early ↦
        let (done, h, k) =
          provider_entries-Ran (o ∷ os) (raw_results env n (o ∷ os)) es
            (raw_results-same_length env n (o ∷ os)) r d in
        (done, rw early h, k)
  ]

  -- One layer: its gate, then its runs.
  layer-Complete :
      (l : List Obligation) (completed : List ℕ) (es after done : List Entry) (rs : List Obligation)
      → Complete completed es
      → Gated l es after rs
      → Ran rs after done
      → Complete (ids_of l ++ completed) done
  layer-Complete l completed es after done rs c g (s, ran) = (
    λ i h. elim (Bool-cases (mem i (ids_of l))) [
      | inl m ↦ elim (g.covered i m) [ inl p ↦ Grows-Present i s.grows p | inr r ↦ ran i r ]
      | inr n ↦
          let old : mem i completed ≡ true = mem-append_right i (ids_of l) completed n ∙ h in
          Grows-Present i s.grows (Grows-Present i g.settled.grows (c.0 i old))
    ],
    λ i h.
        let n = mem-append_left_none i (ids_of l) completed h in
        s.frame i (g.chosen i n)
        ∙ g.settled.frame i n
        ∙ c.1 i (mem-append_right i (ids_of l) completed n ∙ h),
  )

  -- The loop over the layers ends with an entry for each obligation.
  pub check_layers-Complete :
      (n : ℕ) (ls : List (List Obligation)) (completed : List ℕ) (es : List Entry)
      → Ordered completed ls
      → AllDistinct ls
      → Complete completed es
      → (done : List Entry) × (check_layers services sets env n ls es ≡ ok done)
        × Grows es done
        × ((i : ℕ) → covers i ls ≡ true → Present i done)
        × ((i : ℕ) → covers i ls ≡ false → entry_of i done ≡ entry_of i es)
  unfolding check_layers
  check_layers-Complete n [] completed es o d c =
      (es, refl, same, λ i h. absurd (false≢true h), λ i h. refl)
  check_layers-Complete n (l ∷ ls) completed es o d c =
      let (p, f) = layer-Supplied l completed es c o.0 in
      let (after, rs, went, g) = gate-Gated services sets env l es p f d.0 in
      let (mid, ran, r) = execute-Ran n rs after g.runnable g.distinct in
      let now = layer-Complete l completed es after mid rs c g r in
      let (done, rest, grows, covered, frame) =
        check_layers-Complete (n + 1) ls (ids_of l ++ completed) mid o.1 d.1 now in
      let all = Grows-trans g.settled.grows (Grows-trans r.0.grows grows) in
      (
        done,
        rw (went, ran) rest,
        all,
        λ i h. elim (Bool-cases (mem i (ids_of l))) [
          | inl m ↦ Grows-Present i grows (now.0 i (mem-append_left i (ids_of l) completed m))
          | inr m ↦ covered i (sym (ap (λ b. if b then true else covers i ls) m) ∙ h)
        ],
        λ i h.
            let m = covers_none i l ls h in
            frame i m.1 ∙ r.0.frame i (g.chosen i m.0) ∙ g.settled.frame i m.0,
      )
