-- ===== src/Requests/Accounts.antt =====
-- What a request takes from the breaker, the controller and the pool, and gives back
-- (src/math_anchor/sandbox.py).
use math_anchor.Base.{
  ◌≡◌, refl, arith, Bool, true, false, Option, none, some, List, [], ◌∷◌, ◌++◌, Bool-cases, inl,
  inr,
}
use math_anchor.Base.Json.{Json}
use math_anchor.Admission.{Lease}
use math_anchor.Admission
use math_anchor.Breaker.{CircuitPermit, Answer, permitted, refused}
use math_anchor.Pool.{Worker}
use math_anchor.Requests.{
  Request, Taken, handed, not_handed, pool_raised, Execution, executed, failed, interrupted,
  Surroundings, Act, asks, abandons, records, enters, leaves, takes, gives_back, Reply, replied,
  escaped, used_worker, supervised, with_worker, executed_with, execute_admitted_operation,
  accounted, admitted_with, permitted_with, encoded_with, encoding_failure, guarded_with,
  guard_failure, run_operation_impl,
}

-- What a request holds.
pub record Held : Type 0 where
  pub permit : Option CircuitPermit
  pub lease : Option Lease
  pub worker : Option Worker

abbrev pub held : Option CircuitPermit → Option Lease → Option Worker → Held
held p l w = record { permit = p; lease = l; worker = w }

abbrev pub nothing_held : Held
nothing_held = held none none none

abbrev pub is_there {ℓ} : {A : Type ℓ} → Option A → Bool
is_there none = false
is_there (some _) = true

-- The worker that was taken, but for its registry of units.
abbrev pub Same : Option Worker → Worker → Type 0
Same none w = ⊥
Same (some v) w =
    (v.pid ≡ w.pid)
    × (v.requests_completed ≡ w.requests_completed)
    × (v.pool_generation ≡ w.pool_generation)

-- Each act has what it needs, and nothing is held at the end: a lease is taken under a permit and a
-- worker under a lease, and each is given back once, the worker before the lease.
abbrev pub Accounted : Held → List Act → Type 0
Accounted h [] = (h.permit ≡ none) × (h.lease ≡ none) × (h.worker ≡ none)
Accounted h (asks (permitted p) ∷ acts) =
    (h.permit ≡ none) × Accounted (record h { permit = some p }) acts
Accounted h (asks (refused ms) ∷ acts) = Accounted h acts
Accounted h (abandons p ∷ acts) = (h.permit ≡ some p) × Accounted (record h { permit = none }) acts
Accounted h (records o p ∷ acts) = (h.permit ≡ some p) × Accounted (record h { permit = none }) acts
Accounted h (enters l ∷ acts) =
    (is_there h.permit ≡ true) × (h.lease ≡ none) × Accounted (record h { lease = some l }) acts
Accounted h (leaves l ∷ acts) =
    (h.lease ≡ some l) × (h.worker ≡ none) × Accounted (record h { lease = none }) acts
Accounted h (takes w ∷ acts) =
    (is_there h.lease ≡ true) × (h.worker ≡ none) × Accounted (record h { worker = some w }) acts
Accounted h (gives_back w reusable ∷ acts) =
    Same h.worker w × Accounted (record h { worker = none }) acts

-- `acquire` of the controller does not raise.
abbrev pub Answers : Admission.Outcome → Type 0
Answers Admission.Outcome.unsupported = ⊥
Answers Admission.Outcome.lost = ⊥
Answers _ = Unit

used_worker-Same :
    (r : Request) (w : Worker) (result : Json) (reusable : Bool)
    → Same (some w) (used_worker r w result reusable)
used_worker-Same r w result reusable = ground arith

module _ (r : Request) (s : Surroundings) (p : CircuitPermit) (l : Lease) (tail : List Act)
    (rest : Accounted (held (some p) (some l) none) tail) where
  supervised-Accounted :
      (w : Worker) (e : Execution)
      → Accounted (held (some p) (some l) (some w)) ((supervised r s w e).acts ++ tail)
  supervised-Accounted w (executed result reusable policy_applied) =
      (used_worker-Same r w result reusable, rest)
  supervised-Accounted w failed = ((refl, refl, refl), rest)
  supervised-Accounted w interrupted = ((refl, refl, refl), rest)

  with_worker-Accounted :
      (w : Worker) → Accounted (held (some p) (some l) (some w)) ((with_worker r s w).acts ++ tail)
  with_worker-Accounted w = elim (Bool-cases s.cancelled_later) [
    | inl c ↦ rw c ((refl, refl, refl), rest)
    | inr n ↦ elim (Bool-cases s.expired) [
      | inl e ↦ rw (n, e) ((refl, refl, refl), rest)
      | inr m ↦ rw (n, m) (supervised-Accounted w s.execution)
    ]
  ]

  executed_with-Accounted :
      (t : Taken) → Accounted (held (some p) (some l) none) ((executed_with r s t).acts ++ tail)
  executed_with-Accounted (handed w) = (refl, refl, with_worker-Accounted w)
  executed_with-Accounted (not_handed (some startup_error)) = rest
  executed_with-Accounted (not_handed none) = rest
  executed_with-Accounted pool_raised = rest

module _ (r : Request) (s : Surroundings) where
  accounted-Accounted :
      (p : CircuitPermit) (l : Lease) (acts : List Act) (reply : Reply)
      → ((tail : List Act)
          → Accounted (held (some p) (some l) none) tail
          → Accounted (held (some p) (some l) none) (acts ++ tail))
      → Accounted (held (some p) none none) (accounted p l (enters l ∷ acts) reply).acts
  accounted-Accounted p l acts (replied result) h =
      (refl, refl, h _ (refl, refl, (refl, (refl, refl, refl))))
  accounted-Accounted p l acts escaped h =
      (refl, refl, h _ (refl, (refl, refl, (refl, refl, refl))))

  admitted_with-Accounted :
      (p : CircuitPermit) (o : Admission.Outcome)
      → Answers o
      → Accounted (held (some p) none none) (admitted_with r s p o).acts
  unfolding execute_admitted_operation
  admitted_with-Accounted p (Admission.Outcome.admitted l) h =
      accounted-Accounted p l (executed_with r s s.taken).acts (executed_with r s s.taken).reply
        (λ tail rest. executed_with-Accounted r s p l tail rest s.taken)
  admitted_with-Accounted p Admission.Outcome.unsupported h = absurd h
  admitted_with-Accounted p Admission.Outcome.lost h = absurd h
  admitted_with-Accounted p Admission.Outcome.overloaded h = (refl, (refl, refl, refl))
  admitted_with-Accounted p Admission.Outcome.cancelled h = (refl, (refl, refl, refl))
  admitted_with-Accounted p Admission.Outcome.timeout h = (refl, (refl, refl, refl))
  admitted_with-Accounted p Admission.Outcome.waiting h = (refl, (refl, refl, refl))

  permitted_with-Accounted :
      (a : Answer)
      → Answers s.admission
      → Accounted nothing_held (asks a ∷ (permitted_with r s a).acts)
  permitted_with-Accounted (refused ms) h = (refl, refl, refl)
  permitted_with-Accounted (permitted p) h = (refl, admitted_with-Accounted p s.admission h)

  encoded_with-Accounted :
      (e : Option Json) → Answers s.admission → Accounted nothing_held (encoded_with r s e).acts
  encoded_with-Accounted (some error) h = (refl, refl, refl)
  encoded_with-Accounted none h = permitted_with-Accounted s.allowed h

  guarded_with-Accounted :
      (g : Option Json) → Answers s.admission → Accounted nothing_held (guarded_with r s g).acts
  guarded_with-Accounted (some error) h = (refl, refl, refl)
  guarded_with-Accounted none h = encoded_with-Accounted (encoding_failure s.encoding) h

-- Whatever the guards, the breaker, the controller, the pool, the worker and the clock answer, and
-- also where the worker or its supervision raises: the permit is settled once, the lease is given
-- back once, the worker is given back once and before the lease, and nothing stays held. Assumed:
-- the controller's `acquire` does not raise.
pub run_operation_impl-Accounted :
    (r : Request) (s : Surroundings)
    → Answers s.admission
    → Accounted nothing_held (run_operation_impl r s).acts
unfolding run_operation_impl
run_operation_impl-Accounted r s h = guarded_with-Accounted r s (guard_failure r s) h
