-- ===== src/Tests/Pool.antt =====
-- A pool of two workers, from its start to a shutdown.
use math_anchor.Base.{◌≡◌, refl, arith, Bool, true, false, []}
use math_anchor.Pool.{Worker, selected, acquire, release, shutdown, new, select, without_worker}
use math_anchor.Pool.System.{
  System, start, acquires, releases, Reach, here, next, acquire_step, release_step,
}
use math_anchor.Pool.Accounts.{IsBalanced, Reach-IsBalanced, HandsCurrent, acquire-HandsCurrent}

abbrev healthy : Worker → Bool
healthy w = true

abbrev worker : Worker
worker = record {
  pid = 7;
  unit_registry_loaded = true;
  requests_completed = 0;
  pool_generation = 0;
}

abbrev s0 : System
s0 = start 2

abbrev s1 : System
s1 = acquires s0 false false true healthy

abbrev s2 : System
s2 = releases s1 worker true true false

reach : Reach s0 s2
unfolding start new acquires acquire select without_worker
reach =
    next (next here (acquire_step false false true healthy))
      (release_step worker true true false (omega arith))

Reach-IsBalanced_example : IsBalanced 2 s2.out s2.pool
Reach-IsBalanced_example = Reach-IsBalanced 2 (omega arith) reach

acquire-HandsCurrent_example :
    HandsCurrent s2.pool.generation (acquire false false true healthy s2.pool).1
acquire-HandsCurrent_example = acquire-HandsCurrent 2 false false true healthy (omega arith) reach

-- The worker that came back is handed out again, with its count of requests.
again :
    (acquire false false true healthy s2.pool).1
    ≡ selected (record worker { requests_completed = 1 }) false
unfolding start new acquires acquire select without_worker releases release
again = refl

-- A worker of an earlier generation is not taken back.
after_shutdown :
    (release worker true true false (shutdown (record s1.pool { total = 1 })).0).0.available ≡ []
unfolding start new acquires acquire select without_worker release shutdown
after_shutdown = refl
