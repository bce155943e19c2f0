-- ===== src/Breaker/Streak.antt =====
-- Streaks of failures, in `record` of `CircuitBreaker` (src/math_anchor/runtime_control.py).
use math_anchor.Base.{
  ℕ, ◌+◌, ◌≡◌, ◌↔◌, ◌⊎◌, ◌∙◌, ◌<◌, true, false, none, some, List, [], ◌∷◌, arith, length, ap,
}
use math_anchor.Breaker.{
  CircuitPermit, CircuitBreaker, success, infrastructure_failure, Event, records, step, run,
  record_call,
}

-- The permit of an ordinary call in a closed circuit.
abbrev pub ordinary : CircuitBreaker → CircuitPermit
ordinary b = record { generation = b.generation; probe_id = none }

-- One failure after the other, recorded with the permit `q` at the times `ts`.
abbrev pub failures : CircuitPermit → List ℕ → List Event
failures q [] = []
failures q (t ∷ ts) = records infrastructure_failure (some q) t ∷ failures q ts

failure_below :
    (t : ℕ) (b : CircuitBreaker)
    → b.opened_at ≡ none
    → b.consecutive_failures + 1 < b.failure_threshold
    → step (records infrastructure_failure (some (ordinary b)) t) b
      ≡ record b { consecutive_failures = b.consecutive_failures + 1 }
unfolding record_call
failure_below t b c h = ground arith

-- A streak below the threshold is only counted: the circuit stays closed and nothing else changes.
pub streak_below :
    (ts : List ℕ) (b : CircuitBreaker)
    → b.opened_at ≡ none
    → b.consecutive_failures + length ts < b.failure_threshold
    → run (failures (ordinary b) ts) b
      ≡ record b { consecutive_failures = b.consecutive_failures + length ts }
streak_below [] b c h = ground arith
streak_below (t ∷ ts) b c h =
    let n = record b { consecutive_failures = b.consecutive_failures + 1 } in
    ap (run (failures (ordinary b) ts)) (failure_below t b c (omega arith))
    ∙ streak_below ts n c (omega arith)
    ∙ ground arith

-- From a closed circuit with no failures counted, any streak of fewer failures than the threshold
-- leaves the circuit closed, and the next failure opens it, at its time, in a new generation, exactly
-- if it makes the threshold full. A success in between starts the count again.
pub opens_at_threshold :
    (ts : List ℕ) (t : ℕ) (b : CircuitBreaker)
    → b.opened_at ≡ none
    → b.consecutive_failures ≡ 0
    → length ts < b.failure_threshold
    → let c = run (failures (ordinary b) ts) b in
      let r = record_call infrastructure_failure (some (ordinary b)) t c in
      (c.opened_at ≡ none)
      × ((r.1 ≡ true) ↔ (length ts + 1 ≡ b.failure_threshold))
      × ((r.1 ≡ false) ⊎ ((r.0.opened_at ≡ some t) × (r.0.generation ≡ b.generation + 1)))
      × ((record_call success (some (ordinary b)) t c).0 ≡ b)
unfolding record_call
opens_at_threshold ts t b c z h =
    rw (streak_below ts b c (omega arith)) (c, ground arith, ground arith, ground arith)
