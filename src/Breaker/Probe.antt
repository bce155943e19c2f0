-- ===== src/Breaker/Probe.antt =====
-- The half-open probe of `CircuitBreaker` (src/math_anchor/runtime_control.py), and recovery.
use math_anchor.Base.{ℕ, ◌+◌, ◌*◌, ◌≡◌, ◌≤◌, ◌<◌, ◌↔◌, true, none, some, List, [], ◌∷◌, arith, All}
use math_anchor.Breaker.{
  CircuitPermit, CircuitBreaker, Answer, permitted, refused, success, error, infrastructure_failure,
  Event, allows, abandons, records, resets, step, run, allow, abandon_probe, record_call, reset,
  is_some,
}

-- The success of the probe that is out, recorded in its generation; or a reset.
abbrev pub Closes : Event → CircuitBreaker → Type 0
Closes (records success (some q) now) b =
    (q.generation ≡ b.generation) × (q.probe_id ≡ b.active_probe_id) × (is_some q.probe_id ≡ true)
Closes resets b = Unit
Closes _ b = ⊥

-- A call closes an open circuit exactly when it is a reset or records the success of the probe that
-- is out, with a permit of the current generation.
pub step-Closes_iff :
    (e : Event) (b : CircuitBreaker)
    → is_some b.opened_at ≡ true
    → ((step e b).opened_at ≡ none) ↔ Closes e b
unfolding allow abandon_probe record_call reset
step-Closes_iff (records success (some q) now) b h = ground arith
step-Closes_iff (records success none now) b h = ground arith
step-Closes_iff (records error q now) b h = ground arith
step-Closes_iff (records infrastructure_failure q now) b h = ground arith
step-Closes_iff (allows now) b h = ground arith
step-Closes_iff (abandons q) b h = ground arith
step-Closes_iff resets b h = ground arith

-- The circuit is open and the probe `i` is out.
pub record IsProbing (i : ℕ) (b : CircuitBreaker) : Type 0 where
  pub is_open : is_some b.opened_at ≡ true
  pub probe : b.active_probe_id ≡ some i

-- The calls that give the probe `i` back: with its permit, or a reset.
abbrev pub Settles : ℕ → Event → Type 0
Settles i (records o (some q) now) = q.probe_id ≡ some i
Settles i (abandons q) = q.probe_id ≡ some i
Settles i resets = Unit
Settles i _ = ⊥

step-IsProbing :
    (i : ℕ) (e : Event) (b : CircuitBreaker)
    → ¬ Settles i e
    → IsProbing i b
    → IsProbing i (step e b)
unfolding allow abandon_probe record_call
step-IsProbing i (records o (some q) now) b h p = ground arith
step-IsProbing i (records o none now) b h p = ground arith
step-IsProbing i (abandons q) b h p = ground arith
step-IsProbing i (allows now) b h p = ground arith
step-IsProbing i resets b h p = absurd (h tt)

run-IsProbing :
    (i : ℕ) (es : List Event) (b : CircuitBreaker)
    → All (λ e. ¬ Settles i e) es
    → IsProbing i b
    → IsProbing i (run es b)
run-IsProbing i [] b h p = p
run-IsProbing i (e ∷ es) b h p = run-IsProbing i es (step e b) h.1 (step-IsProbing i e b h.0 p)

-- The call was refused, with a delay of at least a millisecond.
abbrev pub Refuses : Answer → Type 0
Refuses (refused r) = 1 ≤ r
Refuses (permitted q) = ⊥

allow-IsProbing : (i now : ℕ) (b : CircuitBreaker) → IsProbing i b → Refuses (allow now b).1
unfolding allow
allow-IsProbing i now b p = ground arith

given-IsProbing :
    (now i : ℕ) (b : CircuitBreaker) (q : CircuitPermit)
    → (allow now b).1 ≡ permitted q
    → q.probe_id ≡ some i
    → IsProbing i (allow now b).0
unfolding allow
given-IsProbing now i b q h e = ground arith

-- One probe at a time: once `allow` has given out a probe, every call is refused, with a positive
-- delay, at any later time, until a call is made with that probe's id or the breaker is reset.
pub probe_exclusive :
    (now later i : ℕ) (b : CircuitBreaker) (q : CircuitPermit) (es : List Event)
    → (allow now b).1 ≡ permitted q
    → q.probe_id ≡ some i
    → All (λ e. ¬ Settles i e) es
    → Refuses (allow later (run es (allow now b).0)).1
probe_exclusive now later i b q es h e quiet =
    allow-IsProbing i later _ (run-IsProbing i es _ quiet (given-IsProbing now i b q h e))

-- The circuit opened at `opened`, and no probe is out.
pub record IsResting (opened : ℕ) (b : CircuitBreaker) : Type 0 where
  pub at : b.opened_at ≡ some opened
  pub no_probe : b.active_probe_id ≡ none

-- The permit is a probe that `b` has out.
abbrev pub IsProbe : CircuitBreaker → Answer → Type 0
IsProbe b (permitted q) =
    (q.generation ≡ b.generation) × (q.probe_id ≡ b.active_probe_id) × (is_some q.probe_id ≡ true)
IsProbe b (refused r) = ⊥

-- While the open period runs every call is refused; a call that waits longer than the delay it was
-- given, by a millisecond, is let through as the probe.
pub retry_after :
    (opened now later r : ℕ) (b : CircuitBreaker)
    → IsResting opened b
    → opened ≤ now
    → (allow now b).1 ≡ refused r
    → now + (r + 1) * 1000 ≤ later
    → (now < opened + b.open_time) × IsProbe (allow later b).0 (allow later b).1
unfolding allow
retry_after opened now later r b rest order h late = ground arith

-- The permit of a probe.
abbrev permit_of : Answer → CircuitPermit
permit_of (permitted q) = q
permit_of (refused r) = record { generation = 0; probe_id = none }

-- What the probe that is let through at `now` leads to, by its outcome at `done`.
abbrev pub Recovers : ℕ → ℕ → ℕ → ℕ → CircuitBreaker → Type 0
Recovers opened now done again b =
    let (b', a) = allow now b in
    let q = permit_of a in
    let closed = (record_call success (some q) done b').0 in
    let reopened = record_call infrastructure_failure (some q) done b' in
    let unsure = (record_call error (some q) done b').0 in
    let dropped = abandon_probe q b' in
    IsProbe b' a
    × ((closed.opened_at ≡ none) × (closed.consecutive_failures ≡ 0))
    × (IsResting done reopened.0 × (reopened.1 ≡ true) × (b.generation < reopened.0.generation))
    × (IsResting opened unsure × IsProbe (allow again unsure).0 (allow again unsure).1)
    × (IsResting opened dropped × IsProbe (allow again dropped).0 (allow again dropped).1)

-- After the open period a resting circuit gives out a probe. Its success closes the circuit with no
-- failures counted; its failure opens it anew; a caller-side error of the probe, and its being
-- abandoned before it ran, leave the circuit open and resting, so that the next call is a probe
-- again.
pub probe-Recovers :
    (opened now done again : ℕ) (b : CircuitBreaker)
    → IsResting opened b
    → opened + b.open_time ≤ now
    → now ≤ again
    → Recovers opened now done again b
unfolding allow abandon_probe record_call
probe-Recovers opened now done again b rest late next = (
  ground arith,
  (ground arith, ground arith),
  (ground arith, ground arith, ground arith),
  (ground arith, ground arith),
  (ground arith, ground arith),
)
