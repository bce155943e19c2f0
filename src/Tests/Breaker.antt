-- ===== src/Tests/Breaker.antt =====
-- A breaker with a threshold of 3 failures and an open period of a second.
use math_anchor.Base.{◌≡◌, refl, arith, false, none, some, List, [], ◌∷◌}
use math_anchor.Breaker.{
  CircuitPermit, CircuitBreaker, Event, allows, records, success, infrastructure_failure, new,
  allow, abandon_probe, record_call, run,
}
use math_anchor.Breaker.Invariant.{IsSound, run-IsSound, stale_permit}
use math_anchor.Breaker.Probe.{Refuses, probe_exclusive, Recovers, probe-Recovers}
use math_anchor.Breaker.Streak.{ordinary, failures}

abbrev fresh : CircuitBreaker
fresh = new 3 1_000_000

-- Three failures, at 10, 20 and 30.
abbrev outage : List Event
outage = failures (record { generation = 0; probe_id = none }) (10 ∷ 20 ∷ 30 ∷ [])

-- The circuit is open, since 30.
abbrev resting : CircuitBreaker
resting = record {
  failure_threshold = 3;
  open_time = 1_000_000;
  consecutive_failures = 3;
  opened_at = some 30;
  generation = 1;
  next_probe_id = 0;
  active_probe_id = none;
}

abbrev probe : CircuitPermit
probe = record { generation = 1; probe_id = some 1 }

opened : run outage fresh ≡ resting
unfolding new record_call
opened = refl

run-IsSound_example : IsSound 3 1_000_000 (run outage fresh)
run-IsSound_example = run-IsSound 3 1_000_000 outage (omega arith)

stale_permit_example :
    let later =
      run
        (records infrastructure_failure none 30 ∷ allows 40 ∷ [])
        (run (failures (ordinary fresh) (10 ∷ 20 ∷ [])) fresh) in
    (record_call success (some (ordinary fresh)) 50 later ≡ (later, false))
    × (abandon_probe (ordinary fresh) later ≡ later)
unfolding new record_call
stale_permit_example =
    stale_permit success (ordinary fresh) 50 (run (failures (ordinary fresh) (10 ∷ 20 ∷ [])) fresh)
      (records infrastructure_failure none 30) (allows 40 ∷ []) (omega arith) refl

probe_exclusive_example :
    Refuses
      (allow 9_000_000 (
        run
          (allows 2_000_000 ∷ records success (some (ordinary resting)) 3_000_000 ∷ [])
          (allow 1_000_040 resting).0)).1
unfolding allow
probe_exclusive_example =
    probe_exclusive 1_000_040 9_000_000 1 resting probe
      (allows 2_000_000 ∷ records success (some (ordinary resting)) 3_000_000 ∷ []) refl refl
      ((λ h. h), ((λ h. cc), tt))

probe-Recovers_example : Recovers 30 1_000_040 1_000_050 1_000_060 resting
probe-Recovers_example =
    probe-Recovers 30 1_000_040 1_000_050 1_000_060 resting (record { at = refl; no_probe = refl })
      (omega arith) (omega arith)
