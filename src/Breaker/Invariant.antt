-- ===== src/Breaker/Invariant.antt =====
-- Sequences of calls of `CircuitBreaker` (src/math_anchor/runtime_control.py), and stale permits.
use math_anchor.Base.{ℕ, ◌≡◌, ◌≤◌, ◌<◌, true, false, Option, none, some, List, [], ◌∷◌, arith}
use math_anchor.Breaker.{
  CircuitPermit, CircuitBreaker, Outcome, Event, allows, abandons, records, resets, step, run,
  allow, abandon_probe, record_call, reset, new,
}

abbrev pub Given : Option ℕ → ℕ → Type 0
Given none n = Unit
Given (some i) n = i ≤ n

-- The streak and the probe of a circuit that is closed, and of one that is open.
abbrev pub Phase : ℕ → Option ℕ → ℕ → Option ℕ → Type 0
Phase k none failures probe = (failures < k) × (probe ≡ none)
Phase k (some opened) failures probe = k ≤ failures

-- A closed circuit has no probe and a streak below the threshold; an open one has a full streak; a
-- probe that is out has an id that was given out; no one sets the limits.
pub record IsSound (threshold time : ℕ) (b : CircuitBreaker) : Type 0 where
  pub limit : b.failure_threshold ≡ threshold
  pub period : b.open_time ≡ time
  pub phase : Phase threshold b.opened_at b.consecutive_failures b.active_probe_id
  pub probe_given : Given b.active_probe_id b.next_probe_id

step-IsSound :
    (k time : ℕ) (e : Event) (b : CircuitBreaker)
    → 0 < k
    → IsSound k time b
    → IsSound k time (step e b)
unfolding allow abandon_probe record_call reset
step-IsSound k time (allows now) b p s = ground arith
step-IsSound k time (abandons q) b p s = ground arith
step-IsSound k time (records o q now) b p s = ground arith
step-IsSound k time resets b p s = ground arith

run_from-IsSound :
    (k time : ℕ) (es : List Event) (b : CircuitBreaker)
    → 0 < k
    → IsSound k time b
    → IsSound k time (run es b)
run_from-IsSound k time [] b p s = s
run_from-IsSound k time (e ∷ es) b p s =
    run_from-IsSound k time es (step e b) p (step-IsSound k time e b p s)

-- After any sequence of calls, by any threads and with any permits, a closed circuit has a streak of
-- failures below the threshold and no probe out, an open one has a streak of at least the threshold,
-- and the limits are those that the breaker was made with. Assumed: the threshold is positive.
pub run-IsSound : (k time : ℕ) (es : List Event) → 0 < k → IsSound k time (run es (new k time))
unfolding new
run-IsSound k time es p = run_from-IsSound k time es _ p (ground arith)

-- Generations do not go down.
step-generation : (e : Event) (b : CircuitBreaker) → b.generation ≤ (step e b).generation
unfolding allow abandon_probe record_call reset
step-generation (allows now) b = ground arith
step-generation (abandons q) b = ground arith
step-generation (records o q now) b = ground arith
step-generation resets b = ground arith

run-generation : (es : List Event) (b : CircuitBreaker) → b.generation ≤ (run es b).generation
run-generation [] b = omega arith
run-generation (e ∷ es) b = omega (arith, step-generation e b, run-generation es (step e b))

-- The call opened the circuit, or reset it.
abbrev pub Opens : Event → CircuitBreaker → Type 0
Opens (records o p now) b = (record_call o p now b).1 ≡ true
Opens resets b = Unit
Opens _ b = ⊥

Opens-generation :
    (e : Event) (b : CircuitBreaker) → Opens e b → b.generation < (step e b).generation
unfolding record_call reset
Opens-generation (records o q now) b h = ground arith
Opens-generation resets b h = ground arith
Opens-generation (allows now) b h = absurd h
Opens-generation (abandons q) b h = absurd h

stale_abandon :
    (q : CircuitPermit) (b : CircuitBreaker) → q.generation < b.generation → abandon_probe q b ≡ b
unfolding abandon_probe
stale_abandon q b h = ground arith

stale_record :
    (o : Outcome) (q : CircuitPermit) (now : ℕ) (b : CircuitBreaker)
    → q.generation < b.generation
    → record_call o (some q) now b ≡ (b, false)
unfolding record_call
stale_record o q now b h = ground arith

-- A permit that was given out before the circuit opened, or was reset, has no effect in any later
-- state: recording any outcome with it, or abandoning it, changes nothing and opens nothing.
pub stale_permit :
    (o : Outcome) (q : CircuitPermit) (now : ℕ) (b : CircuitBreaker) (e : Event) (es : List Event)
    → q.generation ≤ b.generation
    → Opens e b
    → let later = run (e ∷ es) b in
      (record_call o (some q) now later ≡ (later, false)) × (abandon_probe q later ≡ later)
stale_permit o q now b e es h opened =
    let late : q.generation < (run (e ∷ es) b).generation =
      omega (arith, Opens-generation e b opened, run-generation es (step e b)) in
    (stale_record o q now _ late, stale_abandon q _ late)
