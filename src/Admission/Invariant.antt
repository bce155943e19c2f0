-- ===== src/Admission/Invariant.antt =====
-- The counters and the queue of `AdmissionController` between any two calls
-- (src/math_anchor/runtime_control.py).
use math_anchor.Base.{
  ℕ, ◌+◌, ◌≡◌, ◌≤◌, ◌<◌, ◌≢◌, refl, Bool, true, false, List, [], ◌∷◌, ◌++◌, arith, ap, ◌∙◌, leb,
  if◌then◌else◌, length, min, length-append,
}
use math_anchor.Admission.{
  RequestClass, Ticket, Lease, Controller, Outcome, lost, is_batch, may_enter, poll, equal, acquire,
  release, single, batch, unknown, new,
}
use math_anchor.Admission.Removal.{
  one, count, equal_refl, count-append, count-middle, count-remove, length-remove, remove-none,
  Polled, stayed, gave_up, ran_out, entered, missing, poll-Polled,
}
use math_anchor.Admission.System.{
  System, start, settle, ticket, arrive, wake, finish, Step, arrives, wakes, finishes, Reach, here,
  next,
}

abbrev pub memory_of : List Lease → ℕ
memory_of [] = 0
memory_of (l ∷ ls) = l.memory_mb + memory_of ls

abbrev pub batches : List Lease → ℕ
batches [] = 0
batches (l ∷ ls) = one (is_batch l.request_class) + batches ls

-- The counters of the controller are exact and within the limits that it was made with.
pub record IsBounded (a b q m : ℕ) (c : Controller) (held : List Lease) : Type 0 where
  pub limit_active : c.maximum_active ≡ a
  pub limit_batch : c.maximum_batch_active ≡ min b a
  pub limit_queue : c.maximum_queued ≡ q
  pub limit_memory : c.memory_budget_mb ≡ m
  pub active_exact : c.active ≡ length held
  pub memory_exact : c.memory_mb ≡ memory_of held
  pub batch_exact : c.active_batch ≡ batches held
  pub active_le : c.active ≤ a
  pub memory_le : c.memory_mb ≤ m
  pub batch_le : c.active_batch ≤ min b a
  pub queue_le : length c.queue ≤ q

-- The queue holds the tickets of the threads that wait, up to the equality of tickets.
abbrev pub Matched : List Ticket → List Ticket → Type 0
Matched queue threads = (v : Ticket) → count v queue ≡ count v threads

pub record Inv (a b q m : ℕ) (s : System) : Type 0 where
  pub bounded : IsBounded a b q m s.ctl s.held
  pub matched : Matched s.ctl.queue s.threads

may_enter_fits :
    (c : Controller) (t : Ticket)
    → may_enter c t ≡ true
    → (c.active < c.maximum_active)
      × (c.memory_mb + t.memory_mb ≤ c.memory_budget_mb)
      × (is_batch t.request_class ≡ true → c.active_batch < c.maximum_batch_active)
unfolding may_enter
may_enter_fits c t h = ground arith

length-middle :
    (xs : List Lease) (l : Lease) (ys : List Lease) → length (xs ++ l ∷ ys) ≡ length (xs ++ ys) + 1
length-middle [] l ys = omega arith
length-middle (x ∷ xs) l ys = omega (arith, length-middle xs l ys)

memory_of-middle :
    (xs : List Lease) (l : Lease) (ys : List Lease)
    → memory_of (xs ++ l ∷ ys) ≡ memory_of (xs ++ ys) + l.memory_mb
memory_of-middle [] l ys = omega arith
memory_of-middle (x ∷ xs) l ys = omega (arith, memory_of-middle xs l ys)

batches-middle :
    (xs : List Lease) (l : Lease) (ys : List Lease)
    → batches (xs ++ l ∷ ys) ≡ batches (xs ++ ys) + one (is_batch l.request_class)
batches-middle [] l ys = omega arith
batches-middle (x ∷ xs) l ys = omega (arith, batches-middle xs l ys)

module _ (a b q m : ℕ) where
  settle-Inv :
      {c : Controller} {t : Ticket} {r : Controller × Outcome} (s : System)
      (others kept : List Ticket)
      → Polled c t r
      → IsBounded a b q m c s.held
      → Matched c.queue kept
      → ((v : Ticket) → count v kept ≡ count v others + one (equal t v))
      → Inv a b q m (settle s others kept r)
  settle-Inv s others kept (stayed e) bd mt ex = record { bounded = bd; matched = mt }
  settle-Inv {c} {t} s others kept (gave_up rest e) bd mt ex = record {
    bounded = ground (arith, length-remove t c.queue e);
    matched = λ v. omega (arith, mt v, ex v, count-remove v t c.queue e);
  }
  settle-Inv {c} {t} s others kept (ran_out rest e _) bd mt ex = record {
    bounded = ground (arith, length-remove t c.queue e);
    matched = λ v. omega (arith, mt v, ex v, count-remove v t c.queue e);
  }
  settle-Inv {c} {t} s others kept (entered rest e ok) bd mt ex = record {
    bounded = ground (arith, may_enter_fits c t, length-remove t c.queue e);
    matched = λ v. omega (arith, mt v, ex v, count-remove v t c.queue e);
  }
  settle-Inv {c} {t} s others kept (missing e) bd mt ex =
      absurd (omega (arith, mt t, ex t, remove-none t c.queue e, ap one (equal_refl t)))

  -- A call of a queued request: it waits in the queue with the others.
  count-kept :
      (s : System) (t v : Ticket)
      → count v (s.threads ++ t ∷ []) ≡ count v s.threads + one (equal t v)
  count-kept s t v = omega (arith, count-append v s.threads (t ∷ []))

  queued-Inv :
      (s : System) (t : Ticket) (x e : Bool)
      → Inv a b q m s
      → leb s.ctl.maximum_queued (length s.ctl.queue) ≡ false
      → Inv a b q m (
          settle
            (record s { next_id = s.next_id + 1 })
            s.threads
            (s.threads ++ t ∷ [])
            (poll x e t (record s.ctl { queue = s.ctl.queue ++ t ∷ [] })))
  queued-Inv s t x e i room =
      settle-Inv (record s { next_id = s.next_id + 1 }) s.threads (s.threads ++ t ∷ [])
        (poll-Polled x e t (record s.ctl { queue = s.ctl.queue ++ t ∷ [] }))
        (ground (arith, i.bounded, length-append s.ctl.queue (t ∷ [])))
        (λ v. omega (arith, i.matched v, count-append v s.ctl.queue (t ∷ []), count-kept s t v))
        (λ v. count-kept s t v)

  queued_or_not :
      (s : System) (mem : ℕ) (k : RequestClass) (x e full : Bool)
      → Inv a b q m s
      → leb s.ctl.maximum_queued (length s.ctl.queue) ≡ full
      → Inv a b q m (
          settle
            (record s { next_id = s.next_id + 1 })
            s.threads
            (s.threads ++ ticket s mem k ∷ [])
            (if full
              then (s.ctl, Outcome.overloaded)
              else poll x e
                  (ticket s mem k)
                  (record s.ctl { queue = s.ctl.queue ++ ticket s mem k ∷ [] })))
  queued_or_not s mem k x e true i h = record { bounded = i.bounded; matched = i.matched }
  queued_or_not s mem k x e false i h = queued-Inv s (ticket s mem k) x e i h

  arrive-Inv :
      (s : System) (mem : ℕ) (k : RequestClass) (x e : Bool)
      → Inv a b q m s
      → Inv a b q m (arrive s mem k x e)
  unfolding arrive acquire
  arrive-Inv s mem single x e i = queued_or_not s mem single x e _ i refl
  arrive-Inv s mem batch x e i = queued_or_not s mem batch x e _ i refl
  arrive-Inv s mem unknown x e i = record { bounded = i.bounded; matched = i.matched }

  wake-Inv :
      (s : System) (xs : List Ticket) (t : Ticket) (ys : List Ticket) (x e : Bool)
      → s.threads ≡ xs ++ t ∷ ys
      → Inv a b q m s
      → Inv a b q m (wake s xs t ys x e)
  unfolding wake
  wake-Inv s xs t ys x e h i =
      settle-Inv s (xs ++ ys) (xs ++ t ∷ ys) (poll-Polled x e t s.ctl) i.bounded
        (λ v. i.matched v ∙ ap (count v) h) (λ v. count-middle v xs t ys)

  finish-Inv :
      (s : System) (xs : List Lease) (l : Lease) (ys : List Lease)
      → s.held ≡ xs ++ l ∷ ys
      → Inv a b q m s
      → Inv a b q m (finish s xs l ys)
  unfolding finish release
  finish-Inv s xs l ys h i =
      let n = ap length h ∙ length-middle xs l ys in
      let mem = ap memory_of h ∙ memory_of-middle xs l ys in
      let bat = ap batches h ∙ batches-middle xs l ys in
      let bd = i.bounded in
      record { bounded = ground (arith, n, mem, bat, bd); matched = i.matched }

  Step-Inv : {s u : System} → Step s u → Inv a b q m s → Inv a b q m u
  Step-Inv {s} (arrives mem k x e) i = arrive-Inv s mem k x e i
  Step-Inv {s} (wakes xs t ys x e h) i = wake-Inv s xs t ys x e h i
  Step-Inv {s} (finishes xs l ys h) i = finish-Inv s xs l ys h i

  start-Inv : Inv a b q m (start a b q m)
  unfolding start new
  start-Inv = record { bounded = ground arith; matched = λ v. refl }

  pub Reach-Inv : {u : System} → Reach (start a b q m) u → Inv a b q m u
  Reach-Inv here = start-Inv
  Reach-Inv (next r st) = Step-Inv st (Reach-Inv r)

-- In every interleaving of arrivals, wake-ups, cancellations, timeouts and releases the controller's
-- counters are exact for the leases held, and stay within the limits that it was made with.
pub Reach-IsBounded :
    (a b q m : ℕ) {u : System} → Reach (start a b q m) u → IsBounded a b q m u.ctl u.held
Reach-IsBounded a b q m r = (Reach-Inv a b q m r).bounded

-- `queue.remove(ticket)` never raises its ValueError: in every reachable state, a round of the loop
-- of a thread that waits ends in another way.
pub poll-ne-lost :
    (a b q m : ℕ) {u : System} (xs : List Ticket) (t : Ticket) (ys : List Ticket) (x e : Bool)
    → Reach (start a b q m) u
    → u.threads ≡ xs ++ t ∷ ys
    → (poll x e t u.ctl).1 ≢ lost
poll-ne-lost a b q m {u} xs t ys x e r h = never (poll-Polled x e t u.ctl)
  where
    queued : 0 < count t u.ctl.queue
    queued = omega (
      arith,
      (Reach-Inv a b q m r).matched t,
      ap (count t) h,
      count-middle t xs t ys,
      ap one (equal_refl t),
    )

    never : {p : Controller × Outcome} → Polled u.ctl t p → p.1 ≢ lost
    never (stayed _) = cc
    never (gave_up _ _) = cc
    never (ran_out _ _ _) = cc
    never (entered _ _ _) = cc
    never (missing n) = absurd (omega (arith, remove-none t u.ctl.queue n, queued))
