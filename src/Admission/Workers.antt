-- ===== src/Admission/Workers.antt =====
-- `batch_worker_count` of src/math_anchor/runtime_control.py.
use math_anchor.Base.{
  ℕ, ◌*◌, ◌/◌, ◌≡◌, ◌≤◌, ◌<◌, min, max, false, some, List, [], ◌∷◌, arith, ◌⊎◌, inl, inr, length,
  All, leb, Bool-cases,
}
use math_anchor.Base.Int.{ℤ, pos, pos_part, ◌≤ℤ◌}
use math_anchor.Admission.{
  BatchItem, requested_limits, largest_limit, largest_from, max_ℤ, batch_worker_count,
  max_active_batch_requests, global_memory_budget_mb,
}
use native.Mathlib.Nat.{mul-div-le, le_trans, mul-le-mul}

max_ℤ_bounds : (a b : ℤ) → (a ≤ℤ max_ℤ a b) × (b ≤ℤ max_ℤ a b)
max_ℤ_bounds a b = ground arith

largest_from-ge :
    (m : ℤ) (xs : List ℤ) → (m ≤ℤ largest_from m xs) × All (λ x. x ≤ℤ largest_from m xs) xs
largest_from-ge m [] = (omega arith, tt)
largest_from-ge m (x ∷ xs) =
    let rest = largest_from-ge (max_ℤ m x) xs in
    let both = max_ℤ_bounds m x in
    (omega (arith, rest.0, both.0), (omega (arith, rest.0, both.1), rest.1))

largest_limit-ge : (d : ℕ) (xs : List ℤ) → All (λ x. x ≤ℤ largest_limit d xs) xs
largest_limit-ge d [] = tt
largest_limit-ge d (x ∷ xs) = largest_from-ge x xs

-- The divisor of the memory budget bounds every limit.
abbrev divisor : ℕ → List ℤ → ℕ
divisor d xs = pos_part (max_ℤ (pos d) (largest_limit d xs))

All-map {ℓ κ ι} :
    {A : Type ℓ} (P : A → Type κ) (Q : A → Type ι) (xs : List A)
    → ((x : A) → P x → Q x)
    → All P xs
    → All Q xs
All-map P Q [] f h = tt
All-map P Q (x ∷ xs) f h = (f x h.0, All-map P Q xs f h.1)

divisor-ge : (d : ℕ) (xs : List ℤ) → (d ≤ divisor d xs) × All (λ x. pos_part x ≤ divisor d xs) xs
divisor-ge d xs =
    let top = largest_limit d xs in
    let both = max_ℤ_bounds (pos d) top in
    (
      ground (arith, both),
      All-map (λ x. x ≤ℤ top) (λ x. pos_part x ≤ divisor d xs) xs (λ x h. ground arith)
          (largest_limit-ge d xs),
    )

abbrev chosen : ℕ → ℕ → ℕ
chosen n v = max 1 (min (min 3 n) (max 1 (4096 / v)))

chosen-le : (n v : ℕ) → leb (chosen n v) 1 ≡ false → chosen n v ≤ 4096 / v
chosen-le n v more = ground arith

chosen-fits : (n v x : ℕ) → x ≤ v → (chosen n v ≡ 1) ⊎ (x * chosen n v ≤ 4096)
chosen-fits n v x h = elim (Bool-cases (leb (chosen n v) 1)) [
  | inl one ↦ inl (ground arith)
  | inr more ↦ inr (le_trans (mul-le-mul h (chosen-le n v more)) (mul-div-le 4096 v))
]

-- With a positive default limit there is an answer: from 1 to 3 workers, no more than items (but at
-- least one), and unless it is one worker, that many times any item's limit, or the default, fits the
-- memory budget.
pub batch_worker_count_bounds :
    (items : List BatchItem) (d : ℕ)
    → 0 < d
    → (w : ℕ) × (batch_worker_count items d ≡ some w)
      × (1 ≤ w)
      × (w ≤ max_active_batch_requests)
      × (w ≤ max 1 (length items))
      × ((w ≡ 1) ⊎ (d * w ≤ global_memory_budget_mb))
      × All (λ x. (w ≡ 1) ⊎ (pos_part x * w ≤ global_memory_budget_mb)) (requested_limits d items)
unfolding batch_worker_count
batch_worker_count_bounds items d p =
    let xs = requested_limits d items in
    let v = divisor d xs in
    let ge = divisor-ge d xs in
    let w = chosen (length items) v in
    (
      w,
      ground (arith, ge.0),
      omega arith,
      omega arith,
      omega arith,
      chosen-fits (length items) v d ge.0,
      All-map (λ x. pos_part x ≤ v) (λ x. (w ≡ 1) ⊎ (pos_part x * w ≤ 4096)) xs
          (λ x h. chosen-fits (length items) v (pos_part x) h) ge.1,
    )
