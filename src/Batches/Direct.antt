-- ===== src/Batches/Direct.antt =====
-- A reference for `run_batch` of src/math_anchor/sandbox.py, without groups, threads or a running count:
-- the answers of the items in their order, each the answer of the first item with the same key.
use math_anchor.Base.{
  ℕ, ◌+◌, ◌≤◌, ◌≡◌, refl, ap, ◌∙◌, sym, arith, List, [], ◌∷◌, ◌++◌, length, ◌==◌, ==_iff,
  if◌then◌else◌, Bool-cases, inl, inr, ok,
}
use math_anchor.Base.Json.{Json}
use math_anchor.Batches.{
  Key, key_eq, Entry, BatchRequest, BatchSurroundings, representative, run_batch_item, key_of, look,
  gather, reindexed,
}
use mathlib.Core.List.{Memᴰ}
use mathlib.Core.List.Memᴰ

module _ (r : BatchRequest) (b : BatchSurroundings) where
  -- The first entry with a key, or else the given one.
  abbrev pub leader : Key → Entry → List Entry → Entry
  leader k e [] = e
  leader k e (d ∷ ds) = let rest = leader k e ds in if key_eq (key_of b d) k then d else rest

  abbrev pub answer_by : Entry → ℕ → Json
  answer_by e i = reindexed i (representative (run_batch_item r b e.0 e.1))

  abbrev pub direct_from : List Entry → ℕ → List Json → List Entry
  direct_from earlier i [] = []
  direct_from earlier i (item ∷ items) =
      (i, answer_by (leader (key_of b (i, item)) (i, item) earlier) i)
      ∷ direct_from (earlier ++ (i, item) ∷ []) (i + 1) items

  abbrev pub values : List Entry → List Json
  values [] = []
  values (e ∷ es) = e.1 ∷ values es

  abbrev pub direct_results : List Json → List Json
  direct_results items = values (direct_from [] 0 items)

  pub direct-ge :
      (earlier : List Entry) (m : ℕ) (items : List Json) {i : ℕ} {v : Json}
      → Memᴰ (i, v) (direct_from earlier m items)
      → m ≤ i
  direct-ge earlier m [] h = absurd (Memᴰ.not-nil h)
  direct-ge earlier m (item ∷ items) (Memᴰ.head e) = let same = ap (λ p. p.0) e in omega arith
  direct-ge earlier m (item ∷ items) (Memᴰ.tail h) =
      let later = direct-ge (earlier ++ (m, item) ∷ []) (m + 1) items h in omega arith

  pub direct_unique :
      (earlier : List Entry) (m : ℕ) (items : List Json) {i : ℕ} {v w : Json}
      → Memᴰ (i, v) (direct_from earlier m items)
      → Memᴰ (i, w) (direct_from earlier m items)
      → v ≡ w
  direct_unique earlier m [] h g = absurd (Memᴰ.not-nil h)
  direct_unique earlier m (item ∷ items) (Memᴰ.head d) (Memᴰ.head e) =
      ap (λ p. p.1) d ∙ sym (ap (λ p. p.1) e)
  direct_unique earlier m (item ∷ items) (Memᴰ.head d) (Memᴰ.tail g) =
      let same = ap (λ p. p.0) d in
      let later = direct-ge (earlier ++ (m, item) ∷ []) (m + 1) items g in absurd (omega arith)
  direct_unique earlier m (item ∷ items) (Memᴰ.tail h) (Memᴰ.head e) =
      let same = ap (λ p. p.0) e in
      let later = direct-ge (earlier ++ (m, item) ∷ []) (m + 1) items h in absurd (omega arith)
  direct_unique earlier m (item ∷ items) (Memᴰ.tail h) (Memᴰ.tail g) =
      direct_unique (earlier ++ (m, item) ∷ []) (m + 1) items h g

  pub gather-direct :
      (results : List Entry) (earlier : List Entry) (m : ℕ) (items : List Json)
      → ((i : ℕ) (v : Json) → Memᴰ (i, v) (direct_from earlier m items) → look i results ≡ ok v)
      → gather m (length items) results ≡ ok (values (direct_from earlier m items))
  gather-direct results earlier m [] h = refl
  gather-direct results earlier m (item ∷ items) h = rw (h m _ (Memᴰ.head refl)) (
      rw
        (gather-direct results (earlier ++ (m, item) ∷ []) (m + 1) items
          (λ i v k. h i v (Memᴰ.tail k)))
        refl)

-- A table that gives an index one value gives it on a look.
pub look-consistent :
    (results : List Entry) (i : ℕ) (v : Json)
    → Memᴰ (i, v) results
    → ((w : Json) → Memᴰ (i, w) results → w ≡ v)
    → look i results ≡ ok v
look-consistent [] i v h one = absurd (Memᴰ.not-nil h)
look-consistent ((j, w) ∷ results) i v (Memᴰ.head e) one =
    let same = ap (λ p. p.0) e in
    let hit = (==_iff j i).1 (sym same) in rw hit (ap ok (sym (ap (λ p. p.1) e)))
look-consistent ((j, w) ∷ results) i v (Memᴰ.tail h) one = elim (Bool-cases (j == i)) [
  | inl hit ↦ rw hit (ap ok (one w (Memᴰ.head (ap (λ n. (n, w)) (sym ((==_iff j i).0 hit))))))
  | inr miss ↦ rw miss (look-consistent results i v h (λ u k. one u (Memᴰ.tail k)))
]
