-- ===== src/Tests/Admission.antt =====
-- A controller of 4 slots, 3 of them for batches, with a budget of 2048 MB: an interactive request
-- takes the whole budget, a batch and an interactive request queue up behind it, and it finishes.
use math_anchor.Base.{
  ℕ, ◌≡◌, ◌≢◌, ◌≤◌, refl, arith, true, false, some, List, [], ◌∷◌, ◌⊎◌, max, ◌*◌, length, All,
}
use math_anchor.Base.Int.{pos, pos_part}
use math_anchor.Admission.{
  Ticket, Lease, single, batch, new, poll, acquire, enter, leave, may_enter, release, lost,
  BatchItem, absent, limit, other, batch_worker_count, max_active_batch_requests,
  global_memory_budget_mb, requested_limits,
}
use math_anchor.Admission.System.{
  System, start, arrive, wake, finish, Reach, here, next, arrives, finishes,
}
use math_anchor.Admission.Invariant.{IsBounded, Reach-IsBounded, poll-ne-lost}
use math_anchor.Admission.Lane.{interactive_lane, InOrder, admission-InOrder}
use math_anchor.Admission.Stranded.{cancel_strands_equal}
use math_anchor.Admission.Workers.{batch_worker_count_bounds}

abbrev s0 : System
s0 = start 4 3 32 2048

abbrev s1 : System
s1 = arrive s0 2048 single false false

abbrev s2 : System
s2 = arrive s1 512 batch false false

abbrev s3 : System
s3 = arrive s2 1024 single false false

abbrev lease : Lease
lease = record { memory_mb = 2048; request_class = single }

abbrev s4 : System
s4 = finish s3 [] lease []

abbrev queued_batch : Ticket
queued_batch = record { id = 1; memory_mb = 512; request_class = batch }

abbrev queued_single : Ticket
queued_single = record { id = 2; memory_mb = 1024; request_class = single }

reach : Reach s0 s4
unfolding start new arrive acquire poll may_enter enter leave
reach =
    next
      (next (next (next here (arrives 2048 single false false)) (arrives 512 batch false false))
        (arrives 1024 single false false))
      (finishes [] lease [] refl)

queue_of_s4 : s4.ctl.queue ≡ queued_batch ∷ queued_single ∷ []
unfolding start new arrive acquire poll may_enter enter leave finish release
queue_of_s4 = refl

Reach-IsBounded_example : IsBounded 4 3 32 2048 s4.ctl s4.held
Reach-IsBounded_example = Reach-IsBounded 4 3 32 2048 reach

interactive_lane_example : may_enter s4.ctl queued_single ≡ true
unfolding start new arrive acquire poll may_enter enter leave finish release
interactive_lane_example =
    interactive_lane 4 3 32 2048 (queued_batch ∷ []) queued_single [] reach refl refl (refl, tt)
      (omega arith) (omega arith)

poll-ne-lost_example : (poll true false queued_single s4.ctl).1 ≢ lost
unfolding start new arrive acquire poll may_enter enter leave finish release
poll-ne-lost_example =
    poll-ne-lost 4 3 32 2048 (queued_batch ∷ []) queued_single [] true false reach refl

admission-InOrder_example :
    InOrder queued_single
      (queued_batch ∷ queued_single ∷ [])
      (poll false false queued_single s4.ctl).0.queue
unfolding start new arrive acquire poll may_enter enter leave finish release
admission-InOrder_example =
    admission-InOrder false false queued_single s4.ctl (λ e. absurd (cc))
      ((λ e. absurd (omega (arith, e))), ((λ _. refl), tt)) refl

-- Two batch requests of the same size wait; the younger is cancelled.
abbrev old_batch : Ticket
old_batch = record { id = 0; memory_mb = 512; request_class = batch }

abbrev twins : System
twins = record {
  ctl = record {
    maximum_active = 4;
    maximum_batch_active = 3;
    maximum_queued = 32;
    memory_budget_mb = 2048;
    queue = old_batch ∷ queued_batch ∷ [];
    active = 4;
    active_batch = 0;
    memory_mb = 1024;
  };
  threads = old_batch ∷ queued_batch ∷ [];
  held = [];
  next_id = 2;
}

cancel_strands_equal_example :
    may_enter (wake twins (old_batch ∷ []) queued_batch [] true false).ctl old_batch ≡ false
cancel_strands_equal_example =
    cancel_strands_equal twins [] (queued_batch ∷ []) old_batch queued_batch (old_batch ∷ []) []
      false refl tt refl ((λ e. absurd (omega (arith, e))), tt) (omega arith) here

abbrev items : List BatchItem
items = limit (pos 1000) ∷ absent ∷ other ∷ []

batch_worker_count_bounds_example :
    (w : ℕ) × (batch_worker_count items 512 ≡ some w)
    × (1 ≤ w)
    × (w ≤ max_active_batch_requests)
    × (w ≤ max 1 (length items))
    × ((w ≡ 1) ⊎ (512 * w ≤ global_memory_budget_mb))
    × All (λ x. (w ≡ 1) ⊎ (pos_part x * w ≤ global_memory_budget_mb)) (requested_limits 512 items)
batch_worker_count_bounds_example = batch_worker_count_bounds items 512 (omega arith)

three_workers : batch_worker_count items 512 ≡ some 3
unfolding batch_worker_count
three_workers = refl
