-- ===== src/Pool/Accounts.antt =====
-- The slots of `_WorkerPool` and the generations of its workers (src/math_anchor/worker_pool.py).
use math_anchor.Base.{
  ℕ, zero, suc, ◌+◌, ◌-◌, ◌≤◌, ◌<◌, ◌≡◌, refl, sym, ap, subst, Bool, true, false, Option, none,
  some, List, [], ◌∷◌, arith, length, All, if◌then◌else◌,
}
use math_anchor.Pool.{
  Worker, Pool, Acquired, selected, starting, pop_loaded, pop_available, select, without_worker,
  after_select, acquire, start_failed, release, reserve_prewarm, start_prewarm_thread,
  finish_prewarm, clear_prewarm_thread, shutdown, new,
}
use math_anchor.Pool.System.{
  System, start, slots, acquires, fails, releases, Step, acquire_step, failed_step, release_step,
  reserve_step, thread_step, finish_step, clear_step, shutdown_step, Reach, here, next,
}

-- The slot of a prewarm that is reserved.
abbrev pub reserved : Option ℕ → ℕ
reserved none = 0
reserved (some _) = 1

abbrev pub Current : Option ℕ → ℕ → Type 0
Current none g = Unit
Current (some p) g = p ≡ g

abbrev pub OfGeneration : ℕ → Worker → Type 0
OfGeneration g w = w.pool_generation ≡ g

-- `total` counts the workers in the pool, the slots that callers hold and the reserved prewarm, and
-- stays within the maximum; so does the number of workers to keep warm. Each worker in the pool, and
-- the reserved prewarm, is of the pool's generation.
pub record IsBalanced (maximum out : ℕ) (p : Pool) : Type 0 where
  pub limit : p.maximum ≡ maximum
  pub slots_exact : p.total ≡ length p.available + out + reserved p.prewarm_generation
  pub total_le : p.total ≤ maximum
  pub warm_le : p.desired_warm ≤ maximum
  pub current : Current p.prewarm_generation p.generation
  pub same_generation : All (OfGeneration p.generation) p.available

-- What taking a worker off the list does: `worker` goes, `rest` stays.
record Taken (g : ℕ) (ws : List Worker) (r : Worker × List Worker) : Type 0 where
  taken_length : length ws ≡ suc (length r.1)
  taken_worker : OfGeneration g r.0
  taken_rest : All (OfGeneration g) r.1

abbrev TakenIfAny : ℕ → List Worker → Option (Worker × List Worker) → Type 0
TakenIfAny g ws none = Unit
TakenIfAny g ws (some r) = Taken g ws r

either {ℓ} : {A : Type ℓ} (P : A → Type 0) (b : Bool) (x y : A) → P x → P y → P (if b then x else y)
either P true x y hx hy = hx
either P false x y hx hy = hy

module _ (g : ℕ) (w : Worker) (ws : List Worker) (h : All (OfGeneration g) (w ∷ ws)) where
  first-Taken : Taken g (w ∷ ws) (w, ws)
  first-Taken = record { taken_length = refl; taken_worker = h.0; taken_rest = h.1 }

  later-Taken :
      (o : Option (Worker × List Worker))
      → TakenIfAny g ws o
      → TakenIfAny g (w ∷ ws) (elim o [ none ↦ none | some (x, rest) ↦ some (x, w ∷ rest) ])
  later-Taken none k = tt
  later-Taken (some (x, rest)) k = record {
    taken_length = ap suc k.taken_length;
    taken_worker = k.taken_worker;
    taken_rest = (h.0, k.taken_rest);
  }

  loaded-Taken :
      (o : Option (Worker × List Worker))
      → TakenIfAny g (w ∷ ws) o
      → Taken g (w ∷ ws) (elim o [ none ↦ (w, ws) | some found ↦ found ])
  loaded-Taken none k = first-Taken
  loaded-Taken (some found) k = k

pop_loaded-Taken :
    (g : ℕ) (ws : List Worker) → All (OfGeneration g) ws → TakenIfAny g ws (pop_loaded ws)
pop_loaded-Taken g [] h = tt
pop_loaded-Taken g (w ∷ ws) h =
    either (TakenIfAny g (w ∷ ws)) w.unit_registry_loaded _ _ (first-Taken g w ws h)
      (later-Taken g w ws h (pop_loaded ws) (pop_loaded-Taken g ws h.1))

pop_available-Taken :
    (g : ℕ) (prefer : Bool) (w : Worker) (ws : List Worker)
    → All (OfGeneration g) (w ∷ ws)
    → Taken g (w ∷ ws) (pop_available prefer w ws)
pop_available-Taken g prefer w ws h =
    either (Taken g (w ∷ ws)) prefer _ _
      (loaded-Taken g w ws h (pop_loaded (w ∷ ws)) (pop_loaded-Taken g (w ∷ ws) h))
      (first-Taken g w ws h)

-- What the loop of `acquire` answers: a worker of the generation, or an empty list.
abbrev Selected : ℕ → Pool → Option Worker × Pool × List Worker → Type 0
Selected out p (some w, q, _) =
    OfGeneration p.generation w × IsBalanced p.maximum (out + 1) q × (q.generation ≡ p.generation)
Selected out p (none, q, _) =
    (q.available ≡ []) × IsBalanced p.maximum out q × (q.generation ≡ p.generation)

module _ (out : ℕ) (prefer : Bool) (healthy : Worker → Bool) where
  select-Selected :
      (fuel : ℕ) (ws : List Worker) (p : Pool) (discarded : List Worker)
      → length ws ≤ fuel
      → IsBalanced p.maximum out (record p { available = ws })
      → Selected out p (select fuel prefer healthy (record p { available = ws }) discarded)
  unfolding select
  select-Selected zero [] p discarded le h = (refl, h, refl)
  select-Selected zero (w ∷ ws) p discarded le h = absurd (omega (arith, le))
  select-Selected (suc fuel) [] p discarded le h = (refl, h, refl)
  select-Selected (suc fuel) (w ∷ ws) p discarded le h =
      let t = pop_available-Taken p.generation prefer w ws h.same_generation in
      let r = pop_available prefer w ws in
      either (Selected out p) (healthy r.0) _ _
        (
          t.taken_worker,
          record {
            limit = h.limit;
            slots_exact = omega (arith, h.slots_exact, t.taken_length);
            total_le = omega (arith, h.total_le);
            warm_le = h.warm_le;
            current = h.current;
            same_generation = t.taken_rest;
          },
          refl,
        )
        (select-Selected fuel r.1 (record p { total = p.total - 1 }) (r.0 ∷ discarded)
          (omega (arith, le, t.taken_length))
          record {
            limit = h.limit;
            slots_exact = omega (arith, h.slots_exact, t.taken_length);
            total_le = omega (arith, h.total_le);
            warm_le = h.warm_le;
            current = h.current;
            same_generation = t.taken_rest;
          })

  select_all :
      (p : Pool)
      → IsBalanced p.maximum out p
      → Selected out p (select (length p.available) prefer healthy p [])
  select_all p h = select-Selected (length p.available) p.available p [] (omega arith) h

without_worker-IsBalanced :
    (m out : ℕ) (expired : Bool) (p : Pool)
    → IsBalanced m out p
    → IsBalanced m (out + slots (without_worker expired p).1) (without_worker expired p).0
unfolding without_worker
without_worker-IsBalanced m out expired p h = ground arith

-- What `acquire` hands to its caller is of this generation.
abbrev pub HandsCurrent : ℕ → Acquired → Type 0
HandsCurrent g (selected w _) = OfGeneration g w
HandsCurrent g (starting g1) = g1 ≡ g
HandsCurrent g _ = Unit

without_worker-HandsCurrent :
    (expired : Bool) (p : Pool) → HandsCurrent p.generation (without_worker expired p).1
unfolding without_worker
without_worker-HandsCurrent expired p = ground arith

module _ (out : ℕ) (expired : Bool) (p : Pool) where
  -- The slots and the generation, at the end of a round.
  abbrev RoundIsBalanced : Pool × Acquired × List Worker → Type 0
  RoundIsBalanced r = IsBalanced p.maximum (out + slots r.1) r.0 × HandsCurrent p.generation r.1

  round-IsBalanced :
      (r : Option Worker × Pool × List Worker)
      → Selected out p r
      → RoundIsBalanced (after_select expired r)
  round-IsBalanced (some w, q, ds) (current, balanced, same) = (balanced, current)
  round-IsBalanced (none, q, ds) (empty, balanced, same) = (
    without_worker-IsBalanced p.maximum out expired q balanced,
    subst (λ g. HandsCurrent g (without_worker expired q).1) same
        (without_worker-HandsCurrent expired q),
  )

  acquire-Round :
      (is_set prefer : Bool) (healthy : Worker → Bool)
      → IsBalanced p.maximum out p
      → RoundIsBalanced (acquire is_set expired prefer healthy p)
  unfolding acquire
  acquire-Round true prefer healthy h = (ground arith, tt)
  acquire-Round false prefer healthy h = round-IsBalanced _ (select_all out prefer healthy p h)

-- A pool's own maximum serves.
own : {m out : ℕ} {p : Pool} → IsBalanced m out p → IsBalanced p.maximum out p
own {m} {out} {p} h = subst (λ k. IsBalanced k out p) (sym h.limit) h

Step-IsBalanced :
    (m : ℕ) {s t : System}
    → 0 < m
    → IsBalanced m s.out s.pool
    → Step s t
    → IsBalanced m t.out t.pool
unfolding acquires fails start_failed releases release reserve_prewarm start_prewarm_thread
    finish_prewarm clear_prewarm_thread shutdown
Step-IsBalanced m {s} {t} p h (acquire_step is_set expired prefer healthy) =
    subst (λ k. IsBalanced k t.out t.pool) h.limit
      (acquire-Round s.out expired s.pool is_set prefer healthy (own h)).0
Step-IsBalanced m {s} {t} p h (failed_step o) = ground arith
Step-IsBalanced m {s} {t} p h (release_step w reusable running heavy o) = ground arith
Step-IsBalanced m {s} {t} p h reserve_step = ground arith
Step-IsBalanced m {s} {t} p h (thread_step g) = ground arith
Step-IsBalanced m {s} {t} p h (finish_step none running g) = ground arith
Step-IsBalanced m {s} {t} p h (finish_step (some w) running g) = ground arith
Step-IsBalanced m {s} {t} p h (clear_step is_thread) = ground arith
Step-IsBalanced m {s} {t} p h shutdown_step = ground arith

-- After any interleaving of the callers, the prewarm threads and shutdowns, the pool's `total` is
-- the number of its workers, of the slots that callers hold and of the reserved prewarm together,
-- it is within the maximum, and so is the number of workers to keep warm; every worker in the pool
-- and the reserved prewarm are of the pool's generation. Assumed: the maximum is positive.
pub Reach-IsBalanced : (m : ℕ) {u : System} → 0 < m → Reach (start m) u → IsBalanced m u.out u.pool
unfolding start new
Reach-IsBalanced m p here = ground arith
Reach-IsBalanced m p (next r st) = Step-IsBalanced m p (Reach-IsBalanced m p r) st

-- In every state that the pool reaches, the worker that a step of `acquire` takes from the pool is of
-- the pool's generation in that state, and where the step reserves a slot for a new worker, the
-- generation that it notes for it is the pool's in that state. Assumed: the maximum is positive. A
-- shutdown that comes while the new worker starts is not looked at: the worker has the noted
-- generation then.
pub acquire-HandsCurrent :
    (m : ℕ) {u : System} (is_set expired prefer : Bool) (healthy : Worker → Bool)
    → 0 < m
    → Reach (start m) u
    → HandsCurrent u.pool.generation (acquire is_set expired prefer healthy u.pool).1
acquire-HandsCurrent m {u} is_set expired prefer healthy p r =
    (acquire-Round u.out expired u.pool is_set prefer healthy (own (Reach-IsBalanced m p r))).1
