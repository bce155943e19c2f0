-- ===== src/Pool.antt =====
-- `_WorkerPool` of src/math_anchor/worker_pool.py. What a call sees of the processes enters as an
-- argument: `healthy`, whether a worker runs and its resident memory is within the request's. The
-- list `available` is kept with its end first, since `pop` and `append` work at the end. What a
-- method does under the condition's lock is one step; the processes that it ends are listed.
pub mod System
pub mod Accounts
use math_anchor.Base.{
  ℕ, zero, suc, ◌+◌, ◌-◌, max, Bool, true, false, ◌&&◌, ◌||◌, not, Option, none, some, List, [],
  ◌∷◌, ◌++◌, ltb, leb, ◌==◌, if◌then◌else◌, length,
}

abbrev pub max_requests_per_worker : ℕ
max_requests_per_worker = 5_000

pub record Worker : Type 0 where
  pub pid : ℕ
  pub unit_registry_loaded : Bool
  pub requests_completed : ℕ
  pub pool_generation : ℕ

pub record Pool : Type 0 where
  pub maximum : ℕ
  pub available : List Worker
  pub total : ℕ
  pub generation : ℕ
  pub prewarm_generation : Option ℕ
  -- whether a prewarm thread is registered
  pub prewarm_thread : Bool
  pub desired_warm : ℕ

unfoldable pub new : ℕ → Pool
new maximum = record {
  maximum = maximum;
  available = [];
  total = 0;
  generation = 0;
  prewarm_generation = none;
  prewarm_thread = false;
  desired_warm = 1;
}

-- self.prewarm_generation == generation
abbrev pub owns : Option ℕ → ℕ → Bool
owns none g = false
owns (some p) g = p == g

abbrev pub is_none : Option ℕ → Bool
is_none none = true
is_none (some _) = false

-- The last worker with its unit registry loaded, and the others; `none` if there is none.
abbrev pub pop_loaded : List Worker → Option (Worker × List Worker)
pop_loaded [] = none
pop_loaded (w ∷ ws) =
    if w.unit_registry_loaded
    then some (w, ws)
    else elim (pop_loaded ws) [ none ↦ none | some (x, rest) ↦ some (x, w ∷ rest) ]

-- `_pop_available_worker`, on a list that is not empty
abbrev pub pop_available : Bool → Worker → List Worker → Worker × List Worker
pop_available prefer w ws =
    if prefer then elim (pop_loaded (w ∷ ws)) [ none ↦ (w, ws) | some found ↦ found ] else (w, ws)

-- `_should_replenish`
abbrev pub should_replenish : ℕ → Pool → Bool
should_replenish g p =
    g == p.generation && ltb p.total p.desired_warm && is_none p.prewarm_generation

-- The loop `while self.available`: the worker that was selected, if any, the pool, and the workers
-- that were discarded. Each round takes a worker off the list, so the list's length is fuel enough.
unfoldable pub select :
    ℕ → Bool → (Worker → Bool) → Pool → List Worker → Option Worker × Pool × List Worker
select zero prefer healthy p discarded = (none, p, discarded)
select (suc fuel) prefer healthy p discarded = elim p.available [
  | [] ↦ (none, p, discarded)
  | w ∷ ws ↦
      let (worker, rest) = pop_available prefer w ws in
      let next = record p { available = rest; total = p.total - 1 } in
      let more = select fuel prefer healthy next (worker ∷ discarded) in
      if healthy worker then (some worker, record p { available = rest }, discarded) else more
]

pub data Acquired : Type 0 where
  -- a pooled worker, and whether to prewarm another
  selected : Worker → Bool → Acquired
  -- a slot is taken, and a worker is to be started for this generation
  starting : ℕ → Acquired
  waiting cancelled timeout : Acquired

-- The part of `acquire` below the loop.
unfoldable pub without_worker : Bool → Pool → Pool × Acquired
without_worker expired p =
    if owns p.prewarm_generation p.generation
    then (p, if expired then timeout else waiting)
    else if ltb p.total p.maximum
    then (
      record p { total = p.total + 1; desired_warm = max p.desired_warm (p.total + 1) },
      starting p.generation,
    )
    else (p, if expired then timeout else waiting)

-- The end of a round of `acquire`, by what the loop selected.
abbrev pub after_select : Bool → Option Worker × Pool × List Worker → Pool × Acquired × List Worker
after_select expired (some worker, p, discarded) =
    (p, selected worker (should_replenish p.generation p), discarded)
after_select expired (none, p, discarded) =
    let (q, outcome) = without_worker expired p in (q, outcome, discarded)

-- One round of `acquire` under the lock.
unfoldable pub acquire : Bool → Bool → Bool → (Worker → Bool) → Pool → Pool × Acquired × List Worker
unfolding select without_worker
acquire is_set expired prefer healthy p =
    if is_set
    then (p, cancelled, [])
    else after_select expired (select (length p.available) prefer healthy p [])

-- `acquire` after a start that failed
unfoldable pub start_failed : Pool → Pool
start_failed p = record p { total = p.total - 1 }

-- `acquire` after a start that succeeded
abbrev pub adopt : ℕ → Worker → Worker
adopt g w = record w { pool_generation = g }

-- `release`: whether the worker runs, and whether its resident memory is above the limit, are
-- arguments. The answer says whether the worker is ended, and whether to prewarm another.
unfoldable pub release : Worker → Bool → Bool → Bool → Pool → Pool × Bool × Bool
release worker reusable running heavy p =
    let used =
      if reusable
      then record worker { requests_completed = worker.requests_completed + 1 }
      else worker in
    let fresh = reusable && not (leb max_requests_per_worker used.requests_completed || heavy) in
    if fresh && running && used.pool_generation == p.generation
    then (record p { available = used ∷ p.available }, false, false)
    else let q = record p { total = p.total - 1 } in
      (q, true, should_replenish used.pool_generation q)

unfoldable pub reserve_prewarm : Pool → Pool × Option ℕ
reserve_prewarm p =
    if leb p.desired_warm p.total || not (is_none p.prewarm_generation) || p.prewarm_thread
    then (p, none)
    else (
      record p { total = p.total + 1; prewarm_generation = some p.generation },
      some p.generation,
    )

unfoldable pub start_prewarm_thread : ℕ → Pool → Pool × Bool
start_prewarm_thread g p =
    if not (owns p.prewarm_generation g) || p.prewarm_thread
    then (p, false)
    else (record p { prewarm_thread = true }, true)

abbrev pub runs : Option Worker → Bool
runs none = false
runs (some _) = true

abbrev pub keep_worker : ℕ → Option Worker → Pool → Pool
keep_worker g none p = p
keep_worker g (some w) p = record p { available = adopt g w ∷ p.available }

-- `finish_prewarm`, up to the end of the worker: the worker, if one was started, and whether it still
-- runs. The answer says whether the worker is ended.
unfoldable pub finish_prewarm : Option Worker → Bool → ℕ → Pool → Pool × Bool
finish_prewarm worker running g p =
    let mine = owns p.prewarm_generation g in
    let q = if mine then record p { prewarm_generation = none } else p in
    let kept = mine && g == p.generation && runs worker && running in
    (
      if kept then keep_worker g worker q else if mine then record q { total = q.total - 1 } else q,
      runs worker && not kept,
    )

-- The second time that `finish_prewarm` takes the lock, by whether the caller is the thread that is
-- registered.
unfoldable pub clear_prewarm_thread : Bool → Pool → Pool
clear_prewarm_thread is_thread p = record p {
  prewarm_thread = if is_thread then false else p.prewarm_thread;
}

-- `shutdown`, and the workers that it ends
unfoldable pub shutdown : Pool → Pool × List Worker
shutdown p = (
  record p {
    generation = p.generation + 1;
    available = [];
    total = p.total - length p.available - (if is_none p.prewarm_generation then 0 else 1);
    prewarm_generation = none;
    desired_warm = 1;
  },
  p.available,
)
