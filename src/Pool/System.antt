-- ===== src/Pool/System.antt =====
-- The threads around the pool: `out` counts the slots that a caller holds, with a worker that was
-- handed out or with one that it is starting. A caller gives a slot back by `release`, or by the
-- branch of `acquire` for a start that failed.
use math_anchor.Base.{ℕ, ◌+◌, ◌-◌, ◌<◌, Bool, Option}
use math_anchor.Pool.{
  Worker, Pool, Acquired, selected, starting, acquire, start_failed, release, reserve_prewarm,
  start_prewarm_thread, finish_prewarm, clear_prewarm_thread, shutdown, new,
}

pub record System : Type 0 where
  pub pool : Pool
  pub out : ℕ

unfoldable pub start : ℕ → System
unfolding new
start maximum = record { pool = new maximum; out = 0 }

-- The slots that a call hands to its caller.
abbrev pub slots : Acquired → ℕ
slots (selected _ _) = 1
slots (starting _) = 1
slots _ = 0

unfoldable pub acquires : System → Bool → Bool → Bool → (Worker → Bool) → System
unfolding acquire
acquires s is_set expired prefer healthy =
    let r = acquire is_set expired prefer healthy s.pool in
    record { pool = r.0; out = s.out + slots r.1 }

unfoldable pub fails : System → System
unfolding start_failed
fails s = record { pool = start_failed s.pool; out = s.out - 1 }

unfoldable pub releases : System → Worker → Bool → Bool → Bool → System
unfolding release
releases s worker reusable running heavy = record {
  pool = (release worker reusable running heavy s.pool).0;
  out = s.out - 1;
}

pub data Step (s : System) : System → Type 0 where
  acquire_step :
      (is_set expired prefer : Bool) (healthy : Worker → Bool)
      → Step s (acquires s is_set expired prefer healthy)
  failed_step : 0 < s.out → Step s (fails s)
  release_step :
      (worker : Worker) (reusable running heavy : Bool)
      → 0 < s.out
      → Step s (releases s worker reusable running heavy)
  reserve_step : Step s (record s { pool = (reserve_prewarm s.pool).0 })
  thread_step : (g : ℕ) → Step s (record s { pool = (start_prewarm_thread g s.pool).0 })
  finish_step :
      (worker : Option Worker) (running : Bool) (g : ℕ)
      → Step s (record s { pool = (finish_prewarm worker running g s.pool).0 })
  clear_step :
      (is_thread : Bool) → Step s (record s { pool = clear_prewarm_thread is_thread s.pool })
  shutdown_step : Step s (record s { pool = (shutdown s.pool).0 })

pub data Reach (s : System) : System → Type 0 where
  here : Reach s s
  next : {t u : System} → Reach s t → Step t u → Reach s u
