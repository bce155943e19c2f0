-- ===== src/Requests/Probe.antt =====
-- The breaker (src/math_anchor/runtime_control.py) under the acts of a request
-- (src/math_anchor/sandbox.py).
use math_anchor.Base.{
  ℕ, ◌≡◌, refl, arith, Option, none, some, List, [], ◌∷◌, ◌++◌, Bool-cases, inl, inr,
}
use math_anchor.Base.Json.{Json}
use math_anchor.Admission.{Lease}
use math_anchor.Admission
use math_anchor.Breaker.{
  CircuitPermit, CircuitBreaker, Answer, permitted, refused, Event, allow, abandon_probe,
  record_call, run, success, error, infrastructure_failure, step, is_some,
}
use math_anchor.Breaker
use math_anchor.Pool.{Worker}
use math_anchor.Requests.{
  Request, Taken, handed, not_handed, pool_raised, Execution, executed, failed, interrupted,
  Surroundings, Act, asks, abandons, records, enters, leaves, takes, gives_back, Reply, replied,
  escaped, supervised, with_worker, executed_with, execute_admitted_operation, accounted,
  admitted_with, permitted_with, encoded_with, encoding_failure, guarded_with, guard_failure,
  run_operation_impl,
}
use math_anchor.Requests.Accounts.{Answers}

-- The calls of the breaker's methods among the acts, at the time of the question and later.
abbrev pub events : ℕ → ℕ → List Act → List Event
events now later [] = []
events now later (asks a ∷ acts) = Event.allows now ∷ events now later acts
events now later (abandons p ∷ acts) = Event.abandons p ∷ events now later acts
events now later (records o p ∷ acts) = Event.records o (some p) later ∷ events now later acts
events now later (enters l ∷ acts) = events now later acts
events now later (leaves l ∷ acts) = events now later acts
events now later (takes w ∷ acts) = events now later acts
events now later (gives_back w reusable ∷ acts) = events now later acts

-- No probe is out after a permit that the breaker gave is settled.
abandon-none :
    (now : ℕ) (p : CircuitPermit) (b : CircuitBreaker)
    → b.active_probe_id ≡ none
    → (allow now b).1 ≡ permitted p
    → (abandon_probe p (allow now b).0).active_probe_id ≡ none
unfolding allow abandon_probe
abandon-none now p b h a = ground arith

record-none :
    (now later : ℕ) (o : Breaker.Outcome) (p : CircuitPermit) (b : CircuitBreaker)
    → b.active_probe_id ≡ none
    → (allow now b).1 ≡ permitted p
    → (record_call o (some p) later (allow now b).0).0.active_probe_id ≡ none
unfolding allow record_call
record-none now later success p b h a = ground arith
record-none now later error p b h a = ground arith
record-none now later infrastructure_failure p b h a = ground arith

refused-none :
    (now ms : ℕ) (b : CircuitBreaker)
    → b.active_probe_id ≡ none
    → (allow now b).1 ≡ refused ms
    → (allow now b).0.active_probe_id ≡ none
unfolding allow
refused-none now ms b h a = ground arith

module _ (now later : ℕ) (r : Request) (s : Surroundings) where
  -- The worker's part does not touch the breaker.
  supervised-events :
      (w : Worker) (e : Execution) (tail : List Act)
      → events now later ((supervised r s w e).acts ++ tail) ≡ events now later tail
  supervised-events w (executed result reusable policy_applied) tail = refl
  supervised-events w failed tail = refl
  supervised-events w interrupted tail = refl

  with_worker-events :
      (w : Worker) (tail : List Act)
      → events now later ((with_worker r s w).acts ++ tail) ≡ events now later tail
  with_worker-events w tail = elim (Bool-cases s.cancelled_later) [
    | inl c ↦ rw c refl
    | inr n ↦ elim (Bool-cases s.expired) [
      | inl e ↦ rw (n, e) refl
      | inr m ↦ rw (n, m) (supervised-events w s.execution tail)
    ]
  ]

  executed_with-events :
      (t : Taken) (tail : List Act)
      → events now later ((executed_with r s t).acts ++ tail) ≡ events now later tail
  executed_with-events (handed w) tail = with_worker-events w tail
  executed_with-events (not_handed (some startup_error)) tail = refl
  executed_with-events (not_handed none) tail = refl
  executed_with-events pool_raised tail = refl

  module _ (b : CircuitBreaker) (none_out : b.active_probe_id ≡ none) where
    -- No probe is out after the acts.
    abbrev Returned : List Act → Type 0
    Returned acts = (run (events now later acts) (allow now b).0).active_probe_id ≡ none

    accounted-Returned :
        (p : CircuitPermit) (l : Lease) (reply : Reply)
        → (allow now b).1 ≡ permitted p
        → Returned (accounted p l (enters l ∷ (executed_with r s s.taken).acts) reply).acts
    accounted-Returned p l (replied result) a =
        rw (executed_with-events s.taken) (record-none now later _ p b none_out a)
    accounted-Returned p l escaped a =
        rw (executed_with-events s.taken) (record-none now later _ p b none_out a)

    admitted_with-Returned :
        (p : CircuitPermit) (o : Admission.Outcome)
        → Answers o
        → (allow now b).1 ≡ permitted p
        → Returned (admitted_with r s p o).acts
    unfolding execute_admitted_operation
    admitted_with-Returned p (Admission.Outcome.admitted l) h a =
        accounted-Returned p l (executed_with r s s.taken).reply a
    admitted_with-Returned p Admission.Outcome.unsupported h a = absurd h
    admitted_with-Returned p Admission.Outcome.lost h a = absurd h
    admitted_with-Returned p Admission.Outcome.overloaded h a = abandon-none now p b none_out a
    admitted_with-Returned p Admission.Outcome.cancelled h a = abandon-none now p b none_out a
    admitted_with-Returned p Admission.Outcome.timeout h a = abandon-none now p b none_out a
    admitted_with-Returned p Admission.Outcome.waiting h a = abandon-none now p b none_out a

    permitted_with-Returned :
        (answer : Answer)
        → Answers s.admission
        → (allow now b).1 ≡ answer
        → Returned (permitted_with r s answer).acts
    permitted_with-Returned (refused ms) h a = refused-none now ms b none_out a
    permitted_with-Returned (permitted p) h a = admitted_with-Returned p s.admission h a

    encoded_with-Returned :
        (e : Option Json)
        → Answers s.admission
        → (allow now b).1 ≡ s.allowed
        → (run (events now later (encoded_with r s e).acts) b).active_probe_id ≡ none
    encoded_with-Returned (some e) h a = none_out
    encoded_with-Returned none h a = permitted_with-Returned s.allowed h a

    guarded_with-Returned :
        (g : Option Json)
        → Answers s.admission
        → (allow now b).1 ≡ s.allowed
        → (run (events now later (guarded_with r s g).acts) b).active_probe_id ≡ none
    guarded_with-Returned (some e) h a = none_out
    guarded_with-Returned none h a = encoded_with-Returned (encoding_failure s.encoding) h a

-- A request that has the breaker to itself leaves no half-open probe behind, on any path: where no
-- probe is out before it and the breaker's own answer is the one that the request is given, none is
-- out after it. Assumed: the controller's `acquire` does not raise.
pub run_operation_impl-Returned :
    (now later : ℕ) (r : Request) (s : Surroundings) (b : CircuitBreaker)
    → b.active_probe_id ≡ none
    → Answers s.admission
    → (allow now b).1 ≡ s.allowed
    → (run (events now later (run_operation_impl r s).acts) b).active_probe_id ≡ none
unfolding run_operation_impl
run_operation_impl-Returned now later r s b none_out h a =
    guarded_with-Returned now later r s b none_out (guard_failure r s) h a
