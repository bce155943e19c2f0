-- ===== src/Admission.antt =====
-- `AdmissionController` of src/math_anchor/runtime_control.py, and `batch_worker_count`.
-- A ticket is an object: it has an identity, and two fields by which the dataclass compares it
-- equal. `deque.remove` removes the first EQUAL ticket, `_may_enter` looks for the identical one.
-- A clock reading enters as the answer to `remaining <= 0`, a cancel event as the answer to
-- `is_set()`. Each method runs under the condition's lock, so a call up to its `wait` is one step.
pub mod System
pub mod Removal
pub mod Invariant
pub mod Lane
pub mod Stranded
pub mod Workers
use math_anchor.Base.Int.{ℤ, pos, pos_part, ltb_ℤ}
use math_anchor.Base.{
  ℕ, ◌+◌, ◌-◌, ◌/◌, min, max, Bool, true, false, ◌&&◌, Option, none, some, List, [], ◌∷◌, ◌++◌, ltb,
  leb, ◌==◌, if◌then◌else◌, length,
}

abbrev pub max_active_requests : ℕ
max_active_requests = 4

abbrev pub max_active_batch_requests : ℕ
max_active_batch_requests = 3

abbrev pub max_queued_requests : ℕ
max_queued_requests = 32

abbrev pub global_memory_budget_mb : ℕ
global_memory_budget_mb = 4096

-- `unknown` is any other string.
pub data RequestClass : Type 0 where
  single batch unknown : RequestClass

abbrev pub is_single : RequestClass → Bool
is_single single = true
is_single _ = false

abbrev pub is_batch : RequestClass → Bool
is_batch batch = true
is_batch _ = false

abbrev pub same_class : RequestClass → RequestClass → Bool
same_class single single = true
same_class batch batch = true
same_class unknown unknown = true
same_class _ _ = false

pub record Ticket : Type 0 where
  pub id : ℕ
  pub memory_mb : ℕ
  pub request_class : RequestClass

-- `is`
abbrev pub identical : Ticket → Ticket → Bool
identical a b = a.id == b.id

-- the `==` that the dataclass generates
abbrev pub equal : Ticket → Ticket → Bool
equal a b = a.memory_mb == b.memory_mb && same_class a.request_class b.request_class

pub record Lease : Type 0 where
  pub memory_mb : ℕ
  pub request_class : RequestClass

pub record Controller : Type 0 where
  pub maximum_active : ℕ
  pub maximum_batch_active : ℕ
  pub maximum_queued : ℕ
  pub memory_budget_mb : ℕ
  pub queue : List Ticket
  pub active : ℕ
  pub active_batch : ℕ
  pub memory_mb : ℕ

-- `__init__`
unfoldable pub new : ℕ → ℕ → ℕ → ℕ → Controller
new maximum_active maximum_batch_active maximum_queued memory_budget_mb = record {
  maximum_active = maximum_active;
  maximum_batch_active = min maximum_batch_active maximum_active;
  maximum_queued = maximum_queued;
  memory_budget_mb = memory_budget_mb;
  queue = [];
  active = 0;
  active_batch = 0;
  memory_mb = 0;
}

-- any(queued.request_class == "single" for queued in self.queue)
abbrev pub any_single : List Ticket → Bool
any_single [] = false
any_single (q ∷ qs) = if is_single q.request_class then true else any_single qs

-- The loop at the end of `_may_enter`.
abbrev pub scan : Ticket → List Ticket → Bool
scan t [] = false
scan t (q ∷ qs) =
    if identical q t
    then true
    else if is_single t.request_class
    then (if is_single q.request_class then false else scan t qs)
    else false

unfoldable pub may_enter : Controller → Ticket → Bool
may_enter c t =
    if leb c.maximum_active c.active
    then false
    else if ltb c.memory_budget_mb (c.memory_mb + t.memory_mb)
    then false
    else if is_batch t.request_class && leb c.maximum_batch_active c.active_batch
    then false
    else if is_batch t.request_class && any_single c.queue
    then false
    else scan t c.queue

-- `deque.remove`; `none` is its ValueError.
abbrev pub remove : Ticket → List Ticket → Option (List Ticket)
remove t [] = none
remove t (q ∷ qs) =
    if equal q t then some qs else elim (remove t qs) [ none ↦ none | some rest ↦ some (q ∷ rest) ]

pub data Outcome : Type 0 where
  admitted : Lease → Outcome
  waiting overloaded cancelled timeout : Outcome
  -- ValueError: an unsupported class, or a ticket that is not in the queue
  unsupported lost : Outcome

-- `self.queue.remove(ticket)`, then the rest of the branch.
abbrev pub removing :
    Controller → Option (List Ticket) → (List Ticket → Controller × Outcome) → Controller × Outcome
removing c none k = (c, lost)
removing c (some rest) k = k rest

unfoldable pub leave : Controller → Ticket → Outcome → Controller × Outcome
leave c t why = removing c (remove t c.queue) (λ rest. (record c { queue = rest }, why))

unfoldable pub enter : Controller → Ticket → Controller × Outcome
enter c t = removing c (remove t c.queue) (λ rest. (
  record c {
    queue = rest;
    active = c.active + 1;
    memory_mb = c.memory_mb + t.memory_mb;
    active_batch = if is_batch t.request_class then c.active_batch + 1 else c.active_batch;
  },
  admitted (record { memory_mb = t.memory_mb; request_class = t.request_class }),
))

-- One round of the `while True` loop.
unfoldable pub poll : Bool → Bool → Ticket → Controller → Controller × Outcome
unfolding leave enter may_enter
poll is_set expired t c =
    if is_set
    then leave c t cancelled
    else if may_enter c t
    then enter c t
    else if expired
    then leave c t timeout
    else (c, waiting)

-- `acquire` up to its first wait.
unfoldable pub acquire : Bool → Bool → Ticket → Controller → Controller × Outcome
unfolding poll
acquire is_set expired t c = elim t.request_class [
  | unknown ↦ (c, unsupported)
  | _ ↦
      if leb c.maximum_queued (length c.queue)
      then (c, overloaded)
      else poll is_set expired t (record c { queue = c.queue ++ t ∷ [] })
]

unfoldable pub release : Lease → Controller → Controller
release l c = record c {
  active = c.active - 1;
  memory_mb = c.memory_mb - l.memory_mb;
  active_batch = if is_batch l.request_class then c.active_batch - 1 else c.active_batch;
}

pub record Snapshot : Type 0 where
  pub active : ℕ
  pub active_batch : ℕ
  pub queued : ℕ
  pub memory_mb : ℕ

unfoldable pub snapshot : Controller → Snapshot
snapshot c = record {
  active = c.active;
  active_batch = c.active_batch;
  queued = length c.queue;
  memory_mb = c.memory_mb;
}

-- One entry of `batch_worker_count`'s items: a dict without `memoryMb`, a dict whose `memoryMb` is
-- an int and no bool, or anything else.
pub data BatchItem : Type 0 where
  absent : BatchItem
  limit : ℤ → BatchItem
  other : BatchItem

abbrev pub requested_limits : ℕ → List BatchItem → List ℤ
requested_limits d [] = []
requested_limits d (absent ∷ items) = pos d ∷ requested_limits d items
requested_limits d (limit m ∷ items) = m ∷ requested_limits d items
requested_limits d (other ∷ items) = requested_limits d items

abbrev pub max_ℤ : ℤ → ℤ → ℤ
max_ℤ a b = if ltb_ℤ a b then b else a

abbrev pub largest_from : ℤ → List ℤ → ℤ
largest_from m [] = m
largest_from m (x ∷ xs) = largest_from (max_ℤ m x) xs

-- max(requested_limits, default=default_memory_mb)
abbrev pub largest_limit : ℕ → List ℤ → ℤ
largest_limit d [] = pos d
largest_limit d (x ∷ xs) = largest_from x xs

-- The divisor is at least the default, so its value is its positive part; `none` is the
-- ZeroDivisionError of a default of 0 with no positive limit.
unfoldable pub batch_worker_count : List BatchItem → ℕ → Option ℕ
batch_worker_count items d =
    let divisor = pos_part (max_ℤ (pos d) (largest_limit d (requested_limits d items))) in
    if divisor == 0
    then none
    else some (
        max 1 (
          min (min max_active_batch_requests (length items))
            (max 1 (global_memory_budget_mb / divisor))))
