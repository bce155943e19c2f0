-- ===== src/Admission/Removal.antt =====
-- `deque.remove` by value, counted by value, and the four ways in which a round of the loop ends.
use math_anchor.Base.{
  ℕ, ◌+◌, ◌≡◌, refl, Bool, true, false, none, some, List, [], ◌∷◌, ◌++◌, arith, if◌then◌else◌,
  length, Option-cases, inl, inr, Bool-cases,
}
use math_anchor.Admission.{
  Ticket, Controller, Outcome, waiting, admitted, cancelled, timeout, lost, equal, remove, is_batch,
  may_enter, poll, leave, enter, same_class, RequestClass,
}

abbrev pub one : Bool → ℕ
one true = 1
one false = 0

-- How many tickets of the list are equal to `v`.
abbrev pub count : Ticket → List Ticket → ℕ
count v [] = 0
count v (q ∷ qs) = one (equal q v) + count v qs

same_class_trans : (a b c : RequestClass) → same_class a b ≡ true → same_class a c ≡ same_class b c
same_class_trans a b c h = ground arith

equal_trans : (a b v : Ticket) → equal a b ≡ true → equal a v ≡ equal b v
equal_trans a b v h =
    ground (arith, same_class_trans a.request_class b.request_class v.request_class)

pub equal_refl : (a : Ticket) → equal a a ≡ true
equal_refl a = ground arith

pub count-append : (v : Ticket) (xs ys : List Ticket) → count v (xs ++ ys) ≡ count v xs + count v ys
count-append v [] ys = omega arith
count-append v (x ∷ xs) ys = omega (arith, count-append v xs ys)

pub count-middle :
    (v : Ticket) (xs : List Ticket) (t : Ticket) (ys : List Ticket)
    → count v (xs ++ t ∷ ys) ≡ count v (xs ++ ys) + one (equal t v)
count-middle v [] t ys = omega arith
count-middle v (x ∷ xs) t ys = omega (arith, count-middle v xs t ys)

-- Removing takes exactly one equal ticket away.
pub count-remove :
    (v t : Ticket) (qs : List Ticket) {rest : List Ticket}
    → remove t qs ≡ some rest
    → count v qs ≡ count v rest + one (equal t v)
count-remove v t [] h = cc
count-remove v t (q ∷ qs) h = elim (Option-cases (remove t qs)) [
  | inl e ↦ ground (arith, equal_trans q t v)
  | inr (r, e) ↦ ground (arith, equal_trans q t v, count-remove v t qs e)
]

pub length-remove :
    (t : Ticket) (qs : List Ticket) {rest : List Ticket}
    → remove t qs ≡ some rest
    → length qs ≡ length rest + 1
length-remove t [] h = cc
length-remove t (q ∷ qs) h = elim (Option-cases (remove t qs)) [
  | inl e ↦ ground arith
  | inr (r, e) ↦ ground (arith, length-remove t qs e)
]

-- It fails only where no equal ticket is there.
pub remove-none : (t : Ticket) (qs : List Ticket) → remove t qs ≡ none → count t qs ≡ 0
remove-none t [] h = refl
remove-none t (q ∷ qs) h = elim (Option-cases (remove t qs)) [
  | inl e ↦ ground (arith, remove-none t qs e)
  | inr (r, e) ↦ ground arith
]

-- What one round does, by how it ends.
pub data Polled (c : Controller) (t : Ticket) : Controller × Outcome → Type 0 where
  stayed : may_enter c t ≡ false → Polled c t (c, waiting)
  gave_up :
      (rest : List Ticket)
      → remove t c.queue ≡ some rest
      → Polled c t (record c { queue = rest }, cancelled)
  ran_out :
      (rest : List Ticket)
      → remove t c.queue ≡ some rest
      → may_enter c t ≡ false
      → Polled c t (record c { queue = rest }, timeout)
  entered :
      (rest : List Ticket)
      → remove t c.queue ≡ some rest
      → may_enter c t ≡ true
      → Polled c t (
        record c {
          queue = rest;
          active = c.active + 1;
          memory_mb = c.memory_mb + t.memory_mb;
          active_batch = if is_batch t.request_class then c.active_batch + 1 else c.active_batch;
        },
        admitted (record { memory_mb = t.memory_mb; request_class = t.request_class }),
      )
  missing : remove t c.queue ≡ none → Polled c t (c, lost)

cancelled-Polled : (c : Controller) (t : Ticket) → Polled c t (leave c t cancelled)
unfolding leave
cancelled-Polled c t = elim (Option-cases (remove t c.queue)) [
  | inl e ↦ rw e (missing e)
  | inr (r, e) ↦ rw e (gave_up r e)
]

timeout-Polled :
    (c : Controller) (t : Ticket) → may_enter c t ≡ false → Polled c t (leave c t timeout)
unfolding leave
timeout-Polled c t h = elim (Option-cases (remove t c.queue)) [
  | inl e ↦ rw e (missing e)
  | inr (r, e) ↦ rw e (ran_out r e h)
]

enter-Polled : (c : Controller) (t : Ticket) → may_enter c t ≡ true → Polled c t (enter c t)
unfolding enter
enter-Polled c t h = elim (Option-cases (remove t c.queue)) [
  | inl e ↦ rw e (missing e)
  | inr (r, e) ↦ rw e (entered r e h)
]

pub poll-Polled :
    (is_set expired : Bool) (t : Ticket) (c : Controller) → Polled c t (poll is_set expired t c)
unfolding poll
poll-Polled true expired t c = cancelled-Polled c t
poll-Polled false expired t c = elim (Bool-cases (may_enter c t)) [
  | inl e ↦ rw e (enter-Polled c t e)
  | inr e ↦ rw e (late expired e)
]
  where
    late :
        (x : Bool)
        → may_enter c t ≡ false
        → Polled c t (if x then leave c t timeout else (c, waiting))
    late true e = timeout-Polled c t e
    late false e = stayed e
