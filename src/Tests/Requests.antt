-- ===== src/Tests/Requests.antt =====
-- Requests on paths that succeed, that find the worker cancelled, and that are turned away.
use math_anchor.Base.{none, some, ◌≡◌, refl, true, false, [], ◌∷◌}
use math_anchor.Base.Int.{pos}
use math_anchor.Base.Json.{Json, string, integer, object, end, field}
use math_anchor.Admission.{Lease, single}
use math_anchor.Admission
use math_anchor.Breaker.{CircuitPermit, CircuitBreaker, permitted, success, allow, run}
use math_anchor.Pool.{Worker}
use math_anchor.Requests.{
  Request, handed, executed, interrupted, Surroundings, Execution, asks, abandons, records, enters,
  leaves, takes, gives_back, run_operation_impl, execute_admitted_operation,
}
use math_anchor.Requests.Accounts.{Accounted, nothing_held, run_operation_impl-Accounted}
use math_anchor.Requests.Probe.{events, run_operation_impl-Returned}
use math_anchor.Transport.{line}

abbrev request : Request
request = record {
  operation = string "units.convert";
  arguments = object end;
  timeout_ms = integer (pos 5_000);
  memory_mb = integer (pos 512);
  result_mode = string "auto";
  max_output_bytes = integer (pos 65_536);
  uses_units = true;
}

abbrev probe : CircuitPermit
probe = record { generation = 1; probe_id = some 5 }

abbrev lease : Lease
lease = record { memory_mb = 512; request_class = single }

abbrev worker : Worker
worker = record {
  pid = 9;
  unit_registry_loaded = false;
  requests_completed = 3;
  pool_generation = 1;
}

abbrev answer : Json
answer = object (field "status" (string "ok") end)

abbrev surroundings : Admission.Outcome → Execution → Surroundings
surroundings admission execution = record {
  cancelled_first = false;
  cancelled_later = false;
  expired = false;
  encoding = line "{}";
  allowed = permitted probe;
  admission = admission;
  taken = handed worker;
  execution = execution;
  maximum_queued = 32;
  size = λ value. 200;
}

abbrev pub served : Surroundings
served = surroundings (Admission.Outcome.admitted lease) (executed answer true true)

whole_path :
    (run_operation_impl request served).acts
    ≡ asks (permitted probe)
      ∷ enters lease
      ∷ takes worker
      ∷ gives_back (record worker { unit_registry_loaded = true }) true
      ∷ leaves lease
      ∷ records success probe
      ∷ []
unfolding run_operation_impl execute_admitted_operation
whole_path = refl

turned_away :
    (run_operation_impl request (surroundings Admission.Outcome.overloaded interrupted)).acts
    ≡ asks (permitted probe) ∷ abandons probe ∷ []
unfolding run_operation_impl execute_admitted_operation
turned_away = refl

-- Open since 0, past its time, with four probes given out before.
abbrev half_open : CircuitBreaker
half_open = record {
  failure_threshold = 3;
  open_time = 1_000_000;
  consecutive_failures = 3;
  opened_at = some 0;
  generation = 1;
  next_probe_id = 4;
  active_probe_id = none;
}

run_operation_impl-Accounted_example :
    Accounted nothing_held (run_operation_impl request served).acts
run_operation_impl-Accounted_example = run_operation_impl-Accounted request served tt

run_operation_impl-Returned_example :
    (run
      (events 2_000_000 2_500_000 (run_operation_impl request served).acts)
      half_open).active_probe_id
    ≡ none
unfolding allow
run_operation_impl-Returned_example =
    run_operation_impl-Returned 2_000_000 2_500_000 request served half_open refl tt refl
