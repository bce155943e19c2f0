-- ===== src/Breaker.antt =====
-- `CircuitBreaker` of src/math_anchor/runtime_control.py. Every method runs under the lock, so a
-- call is one step. The clock is read as an argument, `now`; times are whole microseconds, so
-- `int(remaining * 1000)` is a division by 1000. The clock is monotonic: it is never behind
-- `opened_at`, where `-` on numbers would stop at 0 and Python's would be negative.
pub mod Invariant
pub mod Probe
pub mod Streak
use math_anchor.Base.{
  ℕ, ◌+◌, ◌-◌, ◌*◌, ◌/◌, max, Bool, true, false, ◌&&◌, ◌||◌, not, Option, none, some, List, [], ◌∷◌,
  ltb, leb, ◌==◌, if◌then◌else◌,
}

abbrev pub circuit_failure_threshold : ℕ
circuit_failure_threshold = 3

-- CIRCUIT_OPEN_SECONDS, in microseconds
abbrev pub circuit_open : ℕ
circuit_open = 1_000_000

pub record CircuitPermit : Type 0 where
  pub generation : ℕ
  pub probe_id : Option ℕ

pub record CircuitBreaker : Type 0 where
  pub failure_threshold : ℕ
  pub open_time : ℕ
  pub consecutive_failures : ℕ
  pub opened_at : Option ℕ
  pub generation : ℕ
  pub next_probe_id : ℕ
  pub active_probe_id : Option ℕ

unfoldable pub new : ℕ → ℕ → CircuitBreaker
new failure_threshold open_time = record {
  failure_threshold = failure_threshold;
  open_time = open_time;
  consecutive_failures = 0;
  opened_at = none;
  generation = 0;
  next_probe_id = 0;
  active_probe_id = none;
}

-- `==` on an optional id, and `is not None`
abbrev pub same_id : Option ℕ → Option ℕ → Bool
same_id none none = true
same_id (some a) (some b) = a == b
same_id _ _ = false

abbrev pub is_some : Option ℕ → Bool
is_some none = false
is_some (some _) = true

pub data Answer : Type 0 where
  permitted : CircuitPermit → Answer
  -- milliseconds after which to retry
  refused : ℕ → Answer

abbrev pub half_open : CircuitBreaker → CircuitBreaker × Answer
half_open b =
    let id = b.next_probe_id + 1 in
    (
      record b { next_probe_id = id; active_probe_id = some id },
      permitted (record { generation = b.generation; probe_id = some id }),
    )

abbrev pub allow_open : ℕ → CircuitBreaker → ℕ → CircuitBreaker × Answer
allow_open now b opened =
    let remaining = b.open_time - (now - opened) in
    if ltb 0 remaining
    then (b, refused (max 1 (remaining / 1000)))
    else if is_some b.active_probe_id
    then (b, refused (max 1 (b.open_time / 1000)))
    else half_open b

unfoldable pub allow : ℕ → CircuitBreaker → CircuitBreaker × Answer
allow now b = elim b.opened_at [
  | none ↦ (b, permitted (record { generation = b.generation; probe_id = none }))
  | some opened ↦ allow_open now b opened
]

unfoldable pub abandon_probe : CircuitPermit → CircuitBreaker → CircuitBreaker
abandon_probe permit b =
    if permit.generation == b.generation && same_id permit.probe_id b.active_probe_id
    then record b { active_probe_id = none }
    else b

pub data Outcome : Type 0 where
  success error infrastructure_failure : Outcome

abbrev pub is_current_generation : Option CircuitPermit → CircuitBreaker → Bool
is_current_generation none b = true
is_current_generation (some permit) b = permit.generation == b.generation

abbrev pub has_probe : Option CircuitPermit → Bool
has_probe none = false
has_probe (some permit) = is_some permit.probe_id

abbrev pub is_current_probe : Option CircuitPermit → CircuitBreaker → Bool
is_current_probe none b = false
is_current_probe (some permit) b =
    permit.generation == b.generation
    && is_some permit.probe_id
    && same_id permit.probe_id b.active_probe_id

-- The branch `self.opened_at is not None`, for the current probe.
abbrev pub record_probe : Outcome → ℕ → CircuitBreaker → CircuitBreaker × Bool
record_probe success now b =
    (record b { active_probe_id = none; consecutive_failures = 0; opened_at = none }, false)
record_probe infrastructure_failure now b = (
  record b {
    active_probe_id = none;
    consecutive_failures = max b.consecutive_failures b.failure_threshold;
    generation = b.generation + 1;
    opened_at = some now;
  },
  true,
)
record_probe error now b = (record b { active_probe_id = none }, false)

-- The closed circuit, for an ordinary call of the current generation.
abbrev pub record_ordinary : Outcome → ℕ → CircuitBreaker → CircuitBreaker × Bool
record_ordinary infrastructure_failure now b =
    let n = b.consecutive_failures + 1 in
    if leb b.failure_threshold n
    then (
      record b { consecutive_failures = n; generation = b.generation + 1; opened_at = some now },
      true,
    )
    else (record b { consecutive_failures = n }, false)
record_ordinary success now b = (record b { consecutive_failures = 0; opened_at = none }, false)
record_ordinary error now b = (b, false)

-- `record`: the new state, and whether this call opened the circuit.
unfoldable pub record_call :
    Outcome → Option CircuitPermit → ℕ → CircuitBreaker → CircuitBreaker × Bool
record_call outcome permit now b = elim b.opened_at [
  | some _ ↦ if is_current_probe permit b then record_probe outcome now b else (b, false)
  | none ↦
      if not (is_current_generation permit b) || has_probe permit
      then (b, false)
      else record_ordinary outcome now b
]

unfoldable pub reset : CircuitBreaker → CircuitBreaker
reset b = record b {
  consecutive_failures = 0;
  opened_at = none;
  active_probe_id = none;
  generation = b.generation + 1;
}

pub record Snapshot : Type 0 where
  pub consecutive_failures : ℕ
  pub is_open : Bool
  pub half_open_probe : Bool

unfoldable pub snapshot : CircuitBreaker → Snapshot
snapshot b = record {
  consecutive_failures = b.consecutive_failures;
  is_open = is_some b.opened_at;
  half_open_probe = is_some b.active_probe_id;
}

-- A call of one of the methods, by any thread.
pub data Event : Type 0 where
  allows : ℕ → Event
  abandons : CircuitPermit → Event
  records : Outcome → Option CircuitPermit → ℕ → Event
  resets : Event

abbrev pub step : Event → CircuitBreaker → CircuitBreaker
step (allows now) b = (allow now b).0
step (abandons p) b = abandon_probe p b
step (records o p now) b = (record_call o p now b).0
step resets b = reset b

abbrev pub run : List Event → CircuitBreaker → CircuitBreaker
run [] b = b
run (e ∷ es) b = run es (step e b)
