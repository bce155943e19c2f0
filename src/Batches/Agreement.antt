-- ===== src/Batches/Agreement.antt =====
-- `run_batch` (src/math_anchor/sandbox.py) agrees with the reference of Batches.Direct, in whatever order
-- its groups complete.
use Prim.Native.String.{String}
use math_anchor.Base.{
  ℕ, ◌+◌, ◌≤◌, ◌<◌, ◌≡◌, refl, sym, ap, ◌∙◌, subst, arith, true, false, Option, none, some, List,
  [], ◌∷◌, append-nil, if◌then◌else◌, Bool-cases, Option-cases, ◌⊎◌, inl, inr, ltb, ltb→lt, length,
  Result, ok, ◌>>=◌,
}
use math_anchor.Base.Json.{Json}
use math_anchor.Batches.{
  Entry, Group, BatchRequest, BatchSurroundings, collecting, aborted, collect, gather, items_of,
  envelope, output_failure, measured, settled, group_from, batch_failure, answered_with, run_batch,
  limit_of,
}
use math_anchor.Requests.{plain_failure}
use math_anchor.Batches.Direct.{
  direct_from, direct_results, values, direct_unique, gather-direct, look-consistent,
}
use math_anchor.Batches.Grouping.{all_answers, all_answers-Perm, group_from-Perm}
use math_anchor.Batches.Charges.{
  stored, bytes_of, stored-Perm, bytes_of-Perm, collect-fits, collect-over,
}
use mathlib.Core.List.{Permᴰ, Memᴰ}
use mathlib.Core.List.Permᴰ

Memᴰ-Perm {ℓ} : {A : Type ℓ} {a : A} {xs ys : List A} → Permᴰ xs ys → Memᴰ a xs → Memᴰ a ys
Memᴰ-Perm Permᴰ.nil h = h
Memᴰ-Perm (Permᴰ.cons e p) (Memᴰ.head d) = Memᴰ.head (d ∙ e)
Memᴰ-Perm (Permᴰ.cons e p) (Memᴰ.tail h) = Memᴰ.tail (Memᴰ-Perm p h)
Memᴰ-Perm (Permᴰ.swap d e) (Memᴰ.head c) = Memᴰ.tail (Memᴰ.head (c ∙ d))
Memᴰ-Perm (Permᴰ.swap d e) (Memᴰ.tail (Memᴰ.head c)) = Memᴰ.head (c ∙ e)
Memᴰ-Perm (Permᴰ.swap d e) (Memᴰ.tail (Memᴰ.tail h)) = Memᴰ.tail (Memᴰ.tail h)
Memᴰ-Perm (Permᴰ.trans p q) h = Memᴰ-Perm q (Memᴰ-Perm p h)

-- The bytes of some results, apart.
abbrev pub sizes : (Json → ℕ) → List Json → ℕ
sizes size [] = 0
sizes size (x ∷ xs) = size x + sizes size xs

sizes-values :
    (r : BatchRequest) (b : BatchSurroundings) (es : List Entry)
    → sizes b.size (values r b es) ≡ bytes_of b.size es
sizes-values r b [] = refl
sizes-values r b (e ∷ es) = ap (λ n. b.size e.1 + n) (sizes-values r b es)

module _ (r : BatchRequest) (b : BatchSurroundings) where
  -- The groups of the batch, its reference answers, and their JSON text.
  abbrev pub groups : List Group
  groups = group_from b 0 (items_of r.items) []

  abbrev pub reference : List Json
  reference = direct_results r b (items_of r.items)

  answers-Perm :
      Permᴰ groups (b.completed groups)
      → Permᴰ (all_answers r b (b.completed groups)) (direct_from r b [] 0 (items_of r.items))
  answers-Perm p = Permᴰ.trans (Permᴰ.symm (all_answers-Perm r b p)) (
      rw (append-nil (direct_from r b [] 0 (items_of r.items))) at
        (group_from-Perm r b 0 (items_of r.items) [] [] (λ k e. refl)))

  gathered :
      (table : List Entry)
      → Permᴰ table (direct_from r b [] 0 (items_of r.items))
      → gather 0 (length (items_of r.items)) table ≡ ok reference
  gathered table p = gather-direct r b table [] 0 (items_of r.items) (λ i v h.
      look-consistent table i v (Memᴰ-Perm (Permᴰ.symm p) h)
        (λ w k. direct_unique r b [] 0 (items_of r.items) (Memᴰ-Perm p k) h))

  measured-fits :
      (v : Json) → ltb (limit_of r.max_output_bytes) (b.size v) ≡ false → measured r b v ≡ v
  measured-fits v h = ap (λ x. if x then output_failure r (b.size v) none else v) h

  measured-over :
      (v : Json)
      → ltb (limit_of r.max_output_bytes) (b.size v) ≡ true
      → measured r b v ≡ output_failure r (b.size v) none
  measured-over v h = ap (λ x. if x then output_failure r (b.size v) none else v) h

  settled-collecting :
      (table : List Entry) (n : ℕ)
      → b.cancelled_last ≡ false
      → gather 0 (length (items_of r.items)) table ≡ ok reference
      → settled r b (collecting table n) ≡ ok (measured r b (envelope reference))
  settled-collecting table n live e =
      let finish : Result (List Json) → Result Json =
        λ g. g >>= (λ ordered. ok (measured r b (envelope ordered))) in
      ap
        (λ x.
          if x
          then ok (plain_failure "E_CANCELLED")
          else finish (gather 0 (length (items_of r.items)) table))
        live
      ∙ ap finish e

  abbrev pub table_of : List Entry
  table_of = stored (all_answers r b (b.completed groups)) []

  -- What the loop over the completed groups comes to.
  collect-fitting :
      Permᴰ groups (b.completed groups)
      → sizes b.size reference ≤ limit_of r.max_output_bytes
      → (n : ℕ) × (collect r b (b.completed groups) (collecting [] 0) ≡ collecting table_of n)
  collect-fitting p h =
      let es = all_answers r b (b.completed groups) in
      let bytes =
        bytes_of-Perm b.size (answers-Perm p)
        ∙ sym (sizes-values r b (direct_from r b [] 0 (items_of r.items))) in
      (
        bytes_of b.size es,
        collect-fits r b (b.completed groups) [] 0 (bytes_of b.size es) zero_first
            (subst (λ n. n ≤ limit_of r.max_output_bytes) (sym bytes) h),
      )
    where
      zero_first : {n : ℕ} → n ≡ 0 + n
      zero_first = omega arith

  collect-settled :
      Permᴰ groups (b.completed groups)
      → b.cancelled_last ≡ false
      → sizes b.size reference ≤ limit_of r.max_output_bytes
      → settled r b (collect r b (b.completed groups) (collecting [] 0))
        ≡ ok (measured r b (envelope reference))
  collect-settled p live h =
      let es = all_answers r b (b.completed groups) in
      let done = collect-fitting p h in
      let table = Permᴰ.trans (stored-Perm es []) (rw (append-nil es) (answers-Perm p)) in
      ap (settled r b) done.1 ∙ settled-collecting table_of done.0 live (gathered table_of table)

  collect-cancelled :
      Permᴰ groups (b.completed groups)
      → b.cancelled_last ≡ true
      → sizes b.size reference ≤ limit_of r.max_output_bytes
      → settled r b (collect r b (b.completed groups) (collecting [] 0))
        ≡ ok (plain_failure "E_CANCELLED")
  collect-cancelled p stop h =
      let done = collect-fitting p h in
      let finish : Result Json =
        gather 0 (length (items_of r.items)) table_of
        >>= (λ ordered. ok (measured r b (envelope ordered))) in
      ap (settled r b) done.1
      ∙ ap (λ x. if x then ok (plain_failure "E_CANCELLED") else finish) stop

  -- The loop is aborted, or the results fit.
  collected :
      Permᴰ groups (b.completed groups)
      → ((k : ℕ) × (collect r b (b.completed groups) (collecting [] 0) ≡ aborted k))
        ⊎ (sizes b.size reference ≤ limit_of r.max_output_bytes)
  collected p =
      let es = all_answers r b (b.completed groups) in
      let bytes =
        bytes_of-Perm b.size (answers-Perm p)
        ∙ sym (sizes-values r b (direct_from r b [] 0 (items_of r.items))) in
      elim (Bool-cases (ltb (limit_of r.max_output_bytes) (bytes_of b.size es))) [
        | inl early ↦
            let past = ltb→lt (limit_of r.max_output_bytes) (bytes_of b.size es) early in
            inl (collect-over r b (b.completed groups) [] 0 (omega arith) (omega arith))
        | inr later ↦ inr (subst (λ n. n ≤ limit_of r.max_output_bytes) bytes (ground arith))
      ]

-- A batch that passes its first checks and is not cancelled answers, in the order of its items, with the
-- results that the first item of each text has, each under its own index, whatever the order in which
-- the groups complete, where the whole fits the limit of bytes. The json module writes a list of
-- results in no fewer bytes than the results apart.
pub run_batch-reference :
    (r : BatchRequest) (b : BatchSurroundings)
    → batch_failure r b ≡ none
    → Permᴰ (groups r b) (b.completed (groups r b))
    → b.cancelled_last ≡ false
    → ((results : List Json) → sizes b.size results ≤ b.size (envelope results))
    → b.size (envelope (reference r b)) ≤ limit_of r.max_output_bytes
    → run_batch r b ≡ ok (envelope (reference r b))
unfolding run_batch
run_batch-reference r b passed p live law fits =
    let whole = law (reference r b) in
    let under : ltb (limit_of r.max_output_bytes) (b.size (envelope (reference r b))) ≡ false =
      ground arith in
    rw passed (
      collect-settled r b p live (omega arith)
      ∙ ap ok (measured-fits r b (envelope (reference r b)) under))

-- Where the whole does not fit, the batch answers with the failure of its limit, whatever the order in
-- which the groups complete: no result is cut, and none is left out.
pub run_batch-over :
    (r : BatchRequest) (b : BatchSurroundings)
    → batch_failure r b ≡ none
    → Permᴰ (groups r b) (b.completed (groups r b))
    → b.cancelled_last ≡ false
    → limit_of r.max_output_bytes < b.size (envelope (reference r b))
    → (n : ℕ) × (phase : Option String) × (run_batch r b ≡ ok (output_failure r n phase))
unfolding run_batch
run_batch-over r b passed p live over = elim (collected r b p) [
  | inl stop ↦ (stop.0, some "output", rw passed (ap (settled r b) stop.1))
  | inr fit ↦
      let past : ltb (limit_of r.max_output_bytes) (b.size (envelope (reference r b))) ≡ true =
        ground arith in
      (
        b.size (envelope (reference r b)),
        none,
        rw passed (
            collect-settled r b p live fit
            ∙ ap ok (measured-over r b (envelope (reference r b)) past)),
      )
]

-- A batch always answers, whatever the order in which its groups complete: the result of every index is
-- there when the results are put in order.
pub run_batch-answers :
    (r : BatchRequest) (b : BatchSurroundings)
    → Permᴰ (groups r b) (b.completed (groups r b))
    → (v : Json) × (run_batch r b ≡ ok v)
unfolding run_batch
run_batch-answers r b p = elim (Option-cases (batch_failure r b)) [
  | inl passed ↦ elim (collected r b p) [
    | inl stop ↦ (_, ap (answered_with r b) passed ∙ ap (settled r b) stop.1)
    | inr fit ↦ elim (Bool-cases b.cancelled_last) [
      | inl cancelled ↦ (_, ap (answered_with r b) passed ∙ collect-cancelled r b p cancelled fit)
      | inr live ↦ (_, ap (answered_with r b) passed ∙ collect-settled r b p live fit)
    ]
  ]
  | inr failed ↦ (failed.0, ap (answered_with r b) failed.1)
]
