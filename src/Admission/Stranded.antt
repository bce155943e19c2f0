-- ===== src/Admission/Stranded.antt =====
-- `self.queue.remove(ticket)` where `acquire` gives up (src/math_anchor/runtime_control.py), with
-- another request of the same class and memory in the queue.
use math_anchor.Base.{
  ℕ, ◌+◌, ◌≡◌, ◌<◌, ◌≢◌, refl, Bool, true, false, List, [], ◌∷◌, ◌++◌, arith, if◌then◌else◌, none,
  some, ◌⊎◌, All, All-append, Option-cases, inl, inr, Bool-cases,
}
use math_anchor.Admission.{
  RequestClass, Ticket, Controller, Outcome, single, batch, unknown, may_enter, poll, leave,
  acquire, release, scan, remove, equal,
}
use math_anchor.Admission.Removal.{Polled, stayed, gave_up, ran_out, entered, missing, poll-Polled}
use math_anchor.Admission.System.{
  System, settle, ticket, arrive, wake, finish, Step, arrives, wakes, finishes, Reach, here, next,
}

-- No ticket in the queue is the object `id`.
abbrev pub Absent : ℕ → List Ticket → Type 0
Absent id = All (λ q. q.id ≢ id)

scan-Absent : (t : Ticket) (qs : List Ticket) → Absent t.id qs → scan t qs ≡ false
scan-Absent t [] h = refl
scan-Absent t (q ∷ qs) h = ground (arith, scan-Absent t qs h.1)

may_enter-Absent : (c : Controller) (t : Ticket) → Absent t.id c.queue → may_enter c t ≡ false
unfolding may_enter
may_enter-Absent c t h = ground (arith, scan-Absent t c.queue h)

remove-cases :
    (t q : Ticket) (qs : List Ticket) {rest : List Ticket}
    → remove t (q ∷ qs) ≡ some rest
    → (rest ≡ qs) ⊎ ((r : List Ticket) × (remove t qs ≡ some r) × (rest ≡ q ∷ r))
remove-cases t q qs e = elim (Option-cases (remove t qs)) [
  | inl n ↦ inl (ground (arith, n))
  | inr (r, n) ↦ elim (Bool-cases (equal q t)) [
    | inl y ↦ inl (ground arith)
    | inr y ↦ inr (r, n, ground arith)
  ]
]

remove-Absent :
    (id : ℕ) (t : Ticket) (qs : List Ticket) {rest : List Ticket}
    → Absent id qs
    → remove t qs ≡ some rest
    → Absent id rest
remove-Absent id t [] h e = absurd (none≢some e)
  where
    none≢some : {A : Type 0} {a : A} → none ≡ some a → ⊥
    none≢some n = cc
remove-Absent id t (q ∷ qs) h e = elim (remove-cases t q qs e) [
  | inl same ↦ rw same h.1
  | inr (r, n, shorter) ↦ rw shorter (h.0, remove-Absent id t qs h.1 n)
]

-- The removal of an equal ticket takes the first such one out.
remove-first :
    (xs : List Ticket) (old t : Ticket) (ys : List Ticket)
    → All (λ q. equal q t ≡ false) xs
    → equal old t ≡ true
    → remove t (xs ++ old ∷ ys) ≡ some (xs ++ ys)
remove-first [] old t ys h e = rw e
remove-first (x ∷ xs) old t ys h e = ground (arith, remove-first xs old t ys h.1 e)

-- What stays true of an object that a thread waits for and that is not in the queue.
pub record IsStranded (id : ℕ) (s : System) : Type 0 where
  pub absent : Absent id s.ctl.queue
  pub old : id < s.next_id

settle-IsStranded :
    (id : ℕ) {c : Controller} {t : Ticket} {r : Controller × Outcome} (s : System)
    (others kept : List Ticket)
    → Polled c t r
    → Absent id c.queue
    → id < s.next_id
    → IsStranded id (settle s others kept r)
settle-IsStranded id s others kept (stayed _) a o = record { absent = a; old = o }
settle-IsStranded id {c} {t} s others kept (gave_up rest e) a o = record {
  absent = remove-Absent id t c.queue a e;
  old = o;
}
settle-IsStranded id {c} {t} s others kept (ran_out rest e _) a o = record {
  absent = remove-Absent id t c.queue a e;
  old = o;
}
settle-IsStranded id {c} {t} s others kept (entered rest e _) a o = record {
  absent = remove-Absent id t c.queue a e;
  old = o;
}
settle-IsStranded id s others kept (missing _) a o = record { absent = a; old = o }

queued-IsStranded :
    (id : ℕ) (s : System) (mem : ℕ) (k : RequestClass) (x e full : Bool)
    → IsStranded id s
    → IsStranded id (
        settle
          (record s { next_id = s.next_id + 1 })
          s.threads
          (s.threads ++ ticket s mem k ∷ [])
          (if full
            then (s.ctl, Outcome.overloaded)
            else poll x e
                (ticket s mem k)
                (record s.ctl { queue = s.ctl.queue ++ ticket s mem k ∷ [] })))
queued-IsStranded id s mem k x e true i = record { absent = i.absent; old = omega (arith, i.old) }
queued-IsStranded id s mem k x e false i =
    settle-IsStranded id (record s { next_id = s.next_id + 1 }) s.threads
      (s.threads ++ ticket s mem k ∷ [])
      (poll-Polled x e (ticket s mem k)
        (record s.ctl { queue = s.ctl.queue ++ ticket s mem k ∷ [] }))
      (All-append (λ q. q.id ≢ id) s.ctl.queue (ticket s mem k ∷ []) i.absent
        ((λ h. omega (arith, i.old)), tt))
      (omega (arith, i.old))

Step-IsStranded : (id : ℕ) {s u : System} → Step s u → IsStranded id s → IsStranded id u
unfolding arrive acquire wake finish release
Step-IsStranded id {s} (arrives mem single x e) i = queued-IsStranded id s mem single x e _ i
Step-IsStranded id {s} (arrives mem batch x e) i = queued-IsStranded id s mem batch x e _ i
Step-IsStranded id {s} (arrives mem unknown x e) i = record {
  absent = i.absent;
  old = omega (arith, i.old);
}
Step-IsStranded id {s} (wakes xs t ys x e h) i =
    settle-IsStranded id s (xs ++ ys) (xs ++ t ∷ ys) (poll-Polled x e t s.ctl) i.absent i.old
Step-IsStranded id {s} (finishes xs l ys h) i = record { absent = i.absent; old = i.old }

Reach-IsStranded : (id : ℕ) {s u : System} → Reach s u → IsStranded id s → IsStranded id u
Reach-IsStranded id here i = i
Reach-IsStranded id (next r st) i = Step-IsStranded id st (Reach-IsStranded id r i)

-- When a request `t` is cancelled while the first ticket equal to its own is another request's,
-- `old`, then in every later state `old` may not enter, however much capacity is free. Assumed: no
-- other ticket in the queue is the object `old`, and no later ticket gets its identity.
pub cancel_strands_equal :
    (s : System) (xs ys : List Ticket) (old t : Ticket) (before after : List Ticket) (e : Bool)
    {u : System}
    → s.ctl.queue ≡ xs ++ old ∷ ys
    → All (λ q. equal q t ≡ false) xs
    → equal old t ≡ true
    → Absent old.id (xs ++ ys)
    → old.id < s.next_id
    → Reach (wake s before t after true e) u
    → may_enter u.ctl old ≡ false
cancel_strands_equal s xs ys old t before after e {u} split first same unique known r =
    may_enter-Absent u.ctl old (Reach-IsStranded old.id r gone).absent
  where
    gone : IsStranded old.id (wake s before t after true e)
    gone =
        unfold wake poll leave in
        rw (split, remove-first xs old t ys first same) (record { absent = unique; old = known })
