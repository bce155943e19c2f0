-- ===== src/Batches/Charges.antt =====
-- The bytes that `run_batch` (src/math_anchor/sandbox.py) charges while groups complete: within the limit
-- every result is stored, beyond it the batch is aborted, in whatever order.
use math_anchor.Base.{
  ℕ, ◌+◌, ◌≤◌, ◌<◌, ◌≡◌, refl, sym, ap, ◌∙◌, arith, false, List, [], ◌∷◌, ◌++◌, Bool-cases, inl,
  inr, ltb, ltb→lt,
}
use math_anchor.Base.Json.{Json}
use math_anchor.Batches.{
  Entry, Group, BatchRequest, BatchSurroundings, collecting, aborted, store, collect, result_of,
  entries_of, reindexed, limit_of,
}
use math_anchor.Batches.Grouping.{answers_of, all_answers}
use mathlib.Core.List.{Permᴰ}
use mathlib.Core.List.Permᴰ

-- The results as they are put into the table, the last one first.
abbrev pub stored : List Entry → List Entry → List Entry
stored [] results = results
stored (e ∷ es) results = stored es (e ∷ results)

abbrev pub bytes_of : (Json → ℕ) → List Entry → ℕ
bytes_of size [] = 0
bytes_of size (e ∷ es) = size e.1 + bytes_of size es

pub bytes_of-append :
    (size : Json → ℕ) (es ds : List Entry)
    → bytes_of size (es ++ ds) ≡ bytes_of size es + bytes_of size ds
bytes_of-append size [] ds = omega arith
bytes_of-append size (e ∷ es) ds = rw (bytes_of-append size es ds) (omega arith)

stored-append :
    (es ds results : List Entry) → stored (es ++ ds) results ≡ stored ds (stored es results)
stored-append [] ds results = refl
stored-append (e ∷ es) ds results = stored-append es ds (e ∷ results)

pub stored-Perm : (es results : List Entry) → Permᴰ (stored es results) (es ++ results)
stored-Perm [] results = Permᴰ.refl results
stored-Perm (e ∷ es) results =
    Permᴰ.trans (stored-Perm es (e ∷ results)) (Permᴰ.middle e es results)

pub bytes_of-Perm :
    (size : Json → ℕ) {es ds : List Entry} → Permᴰ es ds → bytes_of size es ≡ bytes_of size ds
bytes_of-Perm size Permᴰ.nil = refl
bytes_of-Perm size (Permᴰ.cons {l₁ = es} {l₂ = ds} e p) =
    let same = ap (λ x. size x.1) e in let rest = bytes_of-Perm size p in omega arith
bytes_of-Perm size (Permᴰ.swap {l = l} e₁ e₂) =
    let one = ap (λ x. size x.1) e₁ in let two = ap (λ x. size x.1) e₂ in omega arith
bytes_of-Perm size (Permᴰ.trans p q) = bytes_of-Perm size p ∙ bytes_of-Perm size q

module _ (size : Json → ℕ) (maximum : ℕ) where
  store-fits :
      (r : BatchRequest) (b : BatchSurroundings) (result : Json) (es results : List Entry) (n t : ℕ)
      → t ≡ n + bytes_of size (answers_of r b result es)
      → t ≤ maximum
      → store size maximum result es results n
        ≡ collecting (stored (answers_of r b result es) results) t
  store-fits r b result [] results n t e h = ap (collecting results) (omega arith)
  store-fits r b result (d ∷ es) results n t e h =
      let total = n + size (reindexed d.0 result) in
      let under : ltb maximum total ≡ false = ground arith in
      rw under
        (store-fits r b result es ((d.0, reindexed d.0 result) ∷ results) total t (omega arith) h)

  store-over :
      (r : BatchRequest) (b : BatchSurroundings) (result : Json) (es results : List Entry) (n : ℕ)
      → n ≤ maximum
      → maximum < n + bytes_of size (answers_of r b result es)
      → (k : ℕ) × (store size maximum result es results n ≡ aborted k)
  store-over r b result [] results n low h = absurd (omega arith)
  store-over r b result (e ∷ es) results n low h =
      let total = n + size (reindexed e.0 result) in
      elim (Bool-cases (ltb maximum total)) [
        | inl over ↦ (total, rw over refl)
        | inr under ↦
            let fits : total ≤ maximum = ground arith in
            rw under (
              store-over r b result es ((e.0, reindexed e.0 result) ∷ results) total fits
                (omega arith))
      ]

module _ (r : BatchRequest) (b : BatchSurroundings) where
  abbrev pub limit : ℕ
  limit = limit_of r.max_output_bytes

  pub collect-fits :
      (gs : List Group) (results : List Entry) (n t : ℕ)
      → t ≡ n + bytes_of b.size (all_answers r b gs)
      → t ≤ limit
      → collect r b gs (collecting results n) ≡ collecting (stored (all_answers r b gs) results) t
  collect-fits [] results n t e h = ap (collecting results) (omega arith)
  collect-fits (g ∷ gs) results n t e h =
      let own = answers_of r b (result_of r b g) (entries_of g) in
      let later = all_answers r b gs in
      let split = bytes_of-append b.size own later in
      ap (λ c. collect r b gs c)
        (store-fits b.size limit r b (result_of r b g) (entries_of g) results n
          (n + bytes_of b.size own) refl (omega arith))
      ∙ collect-fits gs (stored own results) (n + bytes_of b.size own) t (omega arith) h
      ∙ ap (λ x. collecting x t) (sym (stored-append own later results))

  collect-aborted : (gs : List Group) (k : ℕ) → collect r b gs (aborted k) ≡ aborted k
  collect-aborted [] k = refl
  collect-aborted (g ∷ gs) k = refl

  pub collect-over :
      (gs : List Group) (results : List Entry) (n : ℕ)
      → n ≤ limit
      → limit < n + bytes_of b.size (all_answers r b gs)
      → (k : ℕ) × (collect r b gs (collecting results n) ≡ aborted k)
  collect-over [] results n low h = absurd (omega arith)
  collect-over (g ∷ gs) results n low h =
      let own = answers_of r b (result_of r b g) (entries_of g) in
      let later = all_answers r b gs in
      let split = bytes_of-append b.size own later in
      elim (Bool-cases (ltb limit (n + bytes_of b.size own))) [
        | inl over ↦
            let stop =
              store-over b.size limit r b (result_of r b g) (entries_of g) results n low
                (ltb→lt limit _ over) in
            (stop.0, ap (λ c. collect r b gs c) stop.1 ∙ collect-aborted gs stop.0)
        | inr under ↦
            let fits : n + bytes_of b.size own ≤ limit = ground arith in
            let stop =
              collect-over gs (stored own results) (n + bytes_of b.size own) fits (omega arith) in
            (
              stop.0,
              ap (λ c. collect r b gs c)
                    (store-fits b.size limit r b (result_of r b g) (entries_of g) results n
                      (n + bytes_of b.size own) refl fits)
                  ∙ stop.1,
            )
      ]
