-- ===== src/Batches/Grouping.antt =====
-- The groups of `run_batch` (src/math_anchor/sandbox.py) hold each item once, under the first item with
-- its key.
use math_anchor.Base.{
  ℕ, ◌+◌, ◌≡◌, refl, sym, ap, ◌∙◌, subst, true, false, List, [], ◌∷◌, ◌++◌, if◌then◌else◌,
  Bool-cases, inl, inr, append_assoc, ==_iff,
}
use math_anchor.Base.Json.{Json}
use math_anchor.Batches.{
  Key, serialized, unserializable, key_eq, Entry, Group, BatchRequest, BatchSurroundings, key_of,
  add_entry, group_from, result_of, entries_of, reindexed,
}
use math_anchor.Batches.Direct.{leader, answer_by, direct_from}
use mathlib.Core.List.{Permᴰ}
use mathlib.Core.List.Permᴰ
use text.Mathlib.TextEquality.{eq_iff}

pub key_eq-true : (k l : Key) → key_eq k l ≡ true → k ≡ l
key_eq-true (serialized s) (serialized t) h = ap serialized ((eq_iff s t).0 h)
key_eq-true (serialized s) (unserializable j) h = absurd (cc)
key_eq-true (unserializable i) (serialized t) h = absurd (cc)
key_eq-true (unserializable i) (unserializable j) h = ap unserializable ((==_iff i j).0 h)

-- The entry that the group of a key was made for, or else the given one.
abbrev pub head_of : Key → Entry → List Group → Entry
head_of k e [] = e
head_of k e (g ∷ gs) = let rest = head_of k e gs in if key_eq g.key k then g.first else rest

head_of-add_entry :
    (k l : Key) (d e : Entry) (gs : List Group)
    → head_of k e (add_entry l d gs) ≡ head_of k (if key_eq l k then d else e) gs
head_of-add_entry k l d e [] = refl
head_of-add_entry k l d e (g ∷ gs) = elim (Bool-cases (key_eq g.key l)) [
  | inl same ↦ rw same (elim (Bool-cases (key_eq g.key k)) [
    | inl hit ↦ rw hit refl
    | inr miss ↦
        let apart : key_eq l k ≡ false =
          subst (λ x. key_eq x k ≡ false) (key_eq-true g.key l same) miss in
        rw miss (sym (ap (λ x. head_of k (if x then d else e) gs) apart))
  ])
  | inr other ↦ rw other (elim (Bool-cases (key_eq g.key k)) [
    | inl hit ↦ rw hit refl
    | inr miss ↦ rw miss (head_of-add_entry k l d e gs)
  ])
]

module _ (r : BatchRequest) (b : BatchSurroundings) where
  leader-snoc :
      (k : Key) (d e : Entry) (earlier : List Entry)
      → leader r b k e (earlier ++ d ∷ [])
        ≡ leader r b k (if key_eq (key_of b d) k then d else e) earlier
  leader-snoc k d e [] = refl
  leader-snoc k d e (c ∷ earlier) =
      ap (λ x. if key_eq (key_of b c) k then c else x) (leader-snoc k d e earlier)

  -- The results of the entries of a group, under a result, and of all groups.
  abbrev pub answers_of : Json → List Entry → List Entry
  answers_of result [] = []
  answers_of result (e ∷ es) = (e.0, reindexed e.0 result) ∷ answers_of result es

  abbrev pub all_answers : List Group → List Entry
  all_answers [] = []
  all_answers (g ∷ gs) = answers_of (result_of r b g) (entries_of g) ++ all_answers gs

  answers_of-snoc :
      (result : Json) (es : List Entry) (e : Entry)
      → answers_of result (es ++ e ∷ []) ≡ answers_of result es ++ (e.0, reindexed e.0 result) ∷ []
  answers_of-snoc result [] e = refl
  answers_of-snoc result (d ∷ es) e =
      ap (λ x. (d.0, reindexed d.0 result) ∷ x) (answers_of-snoc result es e)

  all_answers-add_entry :
      (k : Key) (e : Entry) (gs : List Group)
      → Permᴰ
          (all_answers (add_entry k e gs))
          ((e.0, answer_by r b (head_of k e gs) e.0) ∷ all_answers gs)
  all_answers-add_entry k e [] = Permᴰ.refl _
  all_answers-add_entry k e (g ∷ gs) = elim (Bool-cases (key_eq g.key k)) [
    | inl hit ↦ rw hit (
        rw (answers_of-snoc (result_of r b g) g.more e) (
          rw
            (append_assoc (answers_of (result_of r b g) (entries_of g))
              ((e.0, reindexed e.0 (result_of r b g)) ∷ []) (all_answers gs))
            (Permᴰ.middle _ (answers_of (result_of r b g) (entries_of g)) (all_answers gs))))
    | inr miss ↦ rw miss (
        Permᴰ.trans
          (Permᴰ.append_left (answers_of (result_of r b g) (entries_of g))
            (all_answers-add_entry k e gs))
          (Permᴰ.middle _ (answers_of (result_of r b g) (entries_of g)) (all_answers gs)))
  ]

  pub group_from-Perm :
      (i : ℕ) (items : List Json) (gs : List Group) (earlier : List Entry)
      → ((k : Key) (e : Entry) → head_of k e gs ≡ leader r b k e earlier)
      → Permᴰ
          (all_answers (group_from b i items gs))
          (direct_from r b earlier i items ++ all_answers gs)
  group_from-Perm i [] gs earlier h = Permᴰ.refl _
  group_from-Perm i (item ∷ items) gs earlier h =
      let e : Entry = (i, item) in
      Permᴰ.trans
        (group_from-Perm (i + 1) items (add_entry (key_of b e) e gs) (earlier ++ e ∷ []) (λ k d.
          head_of-add_entry k (key_of b e) e d gs
          ∙ h k (if key_eq (key_of b e) k then e else d)
          ∙ sym (leader-snoc k e d earlier)))
        (Permᴰ.trans
          (Permᴰ.append_left (direct_from r b (earlier ++ e ∷ []) (i + 1) items)
            (all_answers-add_entry (key_of b e) e gs))
          (rw (h (key_of b e) e)
            (Permᴰ.middle _ (direct_from r b (earlier ++ e ∷ []) (i + 1) items) (all_answers gs))))

  pub all_answers-Perm :
      {gs hs : List Group} → Permᴰ gs hs → Permᴰ (all_answers gs) (all_answers hs)
  all_answers-Perm Permᴰ.nil = Permᴰ.nil
  all_answers-Perm (Permᴰ.cons {a = g} {b = h} {l₁ = gs} {l₂ = hs} e p) =
      subst (λ x. Permᴰ (all_answers (g ∷ gs)) (all_answers (x ∷ hs))) e
        (Permᴰ.append_left (answers_of (result_of r b g) (entries_of g)) (all_answers-Perm p))
  all_answers-Perm (Permᴰ.swap {a = g} {b = h} {a' = g'} {b' = h'} {l = l} e₁ e₂) =
      subst (λ x. Permᴰ (all_answers (g ∷ h ∷ l)) (all_answers (x ∷ h' ∷ l))) e₂
        (subst (λ x. Permᴰ (all_answers (g ∷ h ∷ l)) (all_answers (h ∷ x ∷ l))) e₁ swapped)
    where
      one : List Entry
      one = answers_of (result_of r b g) (entries_of g)

      two : List Entry
      two = answers_of (result_of r b h) (entries_of h)

      swapped : Permᴰ (one ++ (two ++ all_answers l)) (two ++ (one ++ all_answers l))
      swapped = rw (sym (append_assoc one two (all_answers l))) (
          rw (sym (append_assoc two one (all_answers l)))
            (Permᴰ.append_right (all_answers l) (Permᴰ.append_comm one two)))
  all_answers-Perm (Permᴰ.trans p q) = Permᴰ.trans (all_answers-Perm p) (all_answers-Perm q)
