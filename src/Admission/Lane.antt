-- ===== src/Admission/Lane.antt =====
-- `_may_enter` of src/math_anchor/runtime_control.py: the interactive lane, the order of admission.
use math_anchor.Base.{
  ℕ, ◌+◌, ◌≡◌, ◌≤◌, ◌<◌, ◌≢◌, refl, Bool, true, false, List, [], ◌∷◌, ◌++◌, arith, if◌then◌else◌,
  length, min, Bool-cases, false≢true, inl, inr, some, some_inj, All, All-middle, subst, ap, sym,
  ◌∙◌, ==_iff,
}
use math_anchor.Admission.{
  RequestClass, Ticket, Lease, Controller, Outcome, admitted, single, batch, is_single, identical,
  is_batch, may_enter, poll, scan, any_single, remove, equal,
}
use math_anchor.Admission.Removal.{
  equal_refl, Polled, stayed, gave_up, ran_out, entered, missing, poll-Polled,
}
use math_anchor.Admission.System.{System, start, Reach}
use math_anchor.Admission.Invariant.{Reach-IsBounded, batches}

-- The leases that are not a batch's.
abbrev pub interactive : List Lease → ℕ
interactive [] = 0
interactive (l ∷ ls) = if is_batch l.request_class then interactive ls else 1 + interactive ls

length-split : (ls : List Lease) → length ls ≡ batches ls + interactive ls
length-split [] = omega arith
length-split (l ∷ ls) = ground (arith, length-split ls)

abbrev pub NoSingle : List Ticket → Type 0
NoSingle = All (λ q. is_single q.request_class ≡ false)

identical_refl : (t : Ticket) → identical t t ≡ true
identical_refl t = ground arith

scan-first_single :
    (xs : List Ticket) (t : Ticket) (ys : List Ticket)
    → is_single t.request_class ≡ true
    → NoSingle xs
    → scan t (xs ++ t ∷ ys) ≡ true
scan-first_single [] t ys k h = rw (identical_refl t)
scan-first_single (x ∷ xs) t ys k h = ground (arith, scan-first_single xs t ys k h.1)

-- An interactive request that no other interactive request precedes in the queue may enter in every
-- reachable state in which its memory fits and fewer interactive leases are held than the slots that
-- are kept from batches, however many batch requests wait or run.
pub interactive_lane :
    (a b q m : ℕ) {u : System} (xs : List Ticket) (t : Ticket) (ys : List Ticket)
    → Reach (start a b q m) u
    → t.request_class ≡ single
    → u.ctl.queue ≡ xs ++ t ∷ ys
    → NoSingle xs
    → interactive u.held + min b a < a
    → u.ctl.memory_mb + t.memory_mb ≤ m
    → may_enter u.ctl t ≡ true
unfolding may_enter
interactive_lane a b q m {u} xs t ys r k h ahead free fits = ground (
  arith,
  Reach-IsBounded a b q m r,
  length-split u.held,
  ap (scan t) h,
  scan-first_single xs t ys (ap is_single k) ahead,
)

any_single-NoSingle : (qs : List Ticket) → any_single qs ≡ false → NoSingle qs
any_single-NoSingle [] h = tt
any_single-NoSingle (q ∷ qs) h = ground (arith, any_single-NoSingle qs)

-- Where the ticket stands in the queue when it may enter.
pub record Place (t : Ticket) (queue : List Ticket) : Type 0 where
  pub ahead : List Ticket
  pub found : Ticket
  pub behind : List Ticket
  pub split : queue ≡ ahead ++ found ∷ behind
  pub same : found.id ≡ t.id
  pub passed : NoSingle ahead

Place-behind :
    (t q : Ticket) (qs : List Ticket)
    → is_single q.request_class ≡ false
    → Place t qs
    → Place t (q ∷ qs)
Place-behind t q qs k p = record {
  ahead = q ∷ p.ahead;
  found = p.found;
  behind = p.behind;
  split = ap (λ l. q ∷ l) p.split;
  same = p.same;
  passed = (k, p.passed);
}

scan-Place : (t : Ticket) (qs : List Ticket) → scan t qs ≡ true → Place t qs
scan-Place t [] h = absurd (false≢true h)
scan-Place t (q ∷ qs) h = elim (Bool-cases (identical q t)) [
  | inl e ↦ record {
    ahead = [];
    found = q;
    behind = qs;
    split = refl;
    same = (==_iff _ _).0 e;
    passed = tt;
  }
  | inr e ↦
      let parts : (scan t qs ≡ true) × (is_single q.request_class ≡ false) = ground arith in
      Place-behind t q qs parts.1 (scan-Place t qs parts.0)
]

-- A batch ticket is found at the head alone.
scan-head :
    (t q : Ticket) (qs : List Ticket)
    → t.request_class ≡ batch
    → scan t (q ∷ qs) ≡ true
    → q.id ≡ t.id
scan-head t q qs k h = ground (arith, ==_iff q.id t.id)

-- Tickets that are one object have one content.
abbrev pub OneObject : Ticket → List Ticket → Type 0
OneObject t = All (λ q. q.id ≡ t.id → q ≡ t)

remove-first_single :
    (xs : List Ticket) (t : Ticket) (ys : List Ticket)
    → is_single t.request_class ≡ true
    → NoSingle xs
    → remove t (xs ++ t ∷ ys) ≡ some (xs ++ ys)
remove-first_single [] t ys k h = rw (equal_refl t)
remove-first_single (x ∷ xs) t ys k h = ground (arith, remove-first_single xs t ys k h.1)

-- What an admission did to the queue: it took out the caller's own ticket, which only requests of
-- the batch class preceded; for a batch request none preceded it and no interactive one waited.
-- A batch request is at the head, and no interactive request waits.
abbrev pub Yields : RequestClass → List Ticket → List Ticket → Type 0
Yields batch ahead before = (ahead ≡ []) × NoSingle before
Yields _ ahead before = Unit

pub record InOrder (t : Ticket) (before after : List Ticket) : Type 0 where
  pub ahead : List Ticket
  pub behind : List Ticket
  pub split : before ≡ ahead ++ t ∷ behind
  pub left : after ≡ ahead ++ behind
  pub passed : NoSingle ahead
  pub yields : Yields t.request_class ahead before

may_enter-scan :
    (c : Controller) (t : Ticket)
    → may_enter c t ≡ true
    → (scan t c.queue ≡ true) × (t.request_class ≡ batch → any_single c.queue ≡ false)
unfolding may_enter
may_enter-scan c t h = ground arith

single-InOrder :
    (t : Ticket) (queue rest : List Ticket)
    → t.request_class ≡ single
    → OneObject t queue
    → scan t queue ≡ true
    → remove t queue ≡ some rest
    → InOrder t queue rest
single-InOrder t queue rest k one_object found e =
    let p = scan-Place t queue found in
    let own : p.found ≡ t =
      All-middle (λ q. q.id ≡ t.id → q ≡ t) p.ahead p.found p.behind
        (subst (OneObject t) p.split one_object) p.same in
    let split : queue ≡ p.ahead ++ t ∷ p.behind = p.split ∙ ap (λ w. p.ahead ++ w ∷ p.behind) own in
    let cut = remove-first_single p.ahead t p.behind (ap is_single k) p.passed in
    record {
      ahead = p.ahead;
      behind = p.behind;
      split = split;
      left = some_inj (sym e ∙ ap (remove t) split ∙ cut);
      passed = p.passed;
      yields = subst (λ c. Yields c p.ahead queue) (sym k) tt;
    }

head-InOrder :
    (t : Ticket) (queue rest : List Ticket)
    → t.request_class ≡ batch
    → OneObject t queue
    → scan t queue ≡ true
    → any_single queue ≡ false
    → remove t queue ≡ some rest
    → InOrder t queue rest
head-InOrder t [] rest k one_object found none_waits e = absurd (false≢true found)
head-InOrder t (q ∷ qs) rest k one_object found none_waits e =
    let own : q ≡ t = one_object.0 (scan-head t q qs k found) in
    let head_equal : equal q t ≡ true = rw own (equal_refl t) in
    record {
      ahead = [];
      behind = qs;
      split = ap (λ w. w ∷ qs) own;
      left = ground (arith, head_equal, e);
      passed = tt;
      yields =
          subst (λ c. Yields c [] (q ∷ qs)) (sym k) (refl, any_single-NoSingle (q ∷ qs) none_waits);
    }

entered-InOrder :
    (k : RequestClass) (c : Controller) (t : Ticket) (rest : List Ticket)
    → t.request_class ≡ k
    → t.request_class ≢ RequestClass.unknown
    → OneObject t c.queue
    → may_enter c t ≡ true
    → remove t c.queue ≡ some rest
    → InOrder t c.queue rest
entered-InOrder single c t rest k known o ok e =
    single-InOrder t c.queue rest k o (may_enter-scan c t ok).0 e
entered-InOrder batch c t rest k known o ok e =
    head-InOrder t c.queue rest k o (may_enter-scan c t ok).0 ((may_enter-scan c t ok).1 k) e
entered-InOrder RequestClass.unknown c t rest k known o ok e = absurd (known k)

Polled-InOrder :
    {c : Controller} {t : Ticket} {r : Controller × Outcome} {l : Lease}
    → Polled c t r
    → t.request_class ≢ RequestClass.unknown
    → OneObject t c.queue
    → r.1 ≡ admitted l
    → InOrder t c.queue r.0.queue
Polled-InOrder (stayed _) known o h = absurd (cc)
Polled-InOrder (gave_up _ _) known o h = absurd (cc)
Polled-InOrder (ran_out _ _ _) known o h = absurd (cc)
Polled-InOrder {c} {t} (entered rest e ok) known o h =
    entered-InOrder t.request_class c t rest refl known o ok e
Polled-InOrder (missing _) known o h = absurd (cc)

-- A call that is admitted takes its own ticket out of the queue, though the removal is by value; an
-- interactive request passes batch requests only, and a batch request enters from the head of the
-- queue and while no interactive request waits. Assumed: the caller's ticket is one object, and its
-- class is one that `acquire` accepts.
pub admission-InOrder :
    (x e : Bool) (t : Ticket) (c : Controller) {l : Lease}
    → t.request_class ≢ RequestClass.unknown
    → OneObject t c.queue
    → (poll x e t c).1 ≡ admitted l
    → InOrder t c.queue (poll x e t c).0.queue
admission-InOrder x e t c known o h = Polled-InOrder (poll-Polled x e t c) known o h
