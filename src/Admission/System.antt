-- ===== src/Admission/System.antt =====
-- The callers around the controller: threads that wait in `acquire`, leases that are held, and the
-- interleavings of their calls. A thread that waits may wake at any time.
use math_anchor.Base.{ℕ, ◌+◌, ◌≡◌, Bool, List, [], ◌∷◌, ◌++◌}
use math_anchor.Admission.{
  RequestClass, Ticket, Lease, Controller, Outcome, admitted, waiting, new, poll, acquire, release,
}

pub record System : Type 0 where
  pub ctl : Controller
  pub threads : List Ticket
  pub held : List Lease
  pub next_id : ℕ

unfoldable pub start : ℕ → ℕ → ℕ → ℕ → System
unfolding new
start a b q m = record { ctl = new a b q m; threads = []; held = []; next_id = 0 }

-- What a call leaves behind: `others` wait besides the caller, `kept` is the list with it.
abbrev pub settle : System → List Ticket → List Ticket → Controller × Outcome → System
settle s others kept (c, waiting) = record s { ctl = c; threads = kept }
settle s others kept (c, admitted l) = record s { ctl = c; threads = others; held = l ∷ s.held }
settle s others kept (c, _) = record s { ctl = c; threads = others }

-- A new ticket object has an identity of its own.
abbrev pub ticket : System → ℕ → RequestClass → Ticket
ticket s mem k = record { id = s.next_id; memory_mb = mem; request_class = k }

unfoldable pub arrive : System → ℕ → RequestClass → Bool → Bool → System
arrive s mem k is_set expired =
    let t = ticket s mem k in
    settle (record s { next_id = s.next_id + 1 }) s.threads (s.threads ++ t ∷ [])
      (acquire is_set expired t s.ctl)

unfoldable pub wake : System → List Ticket → Ticket → List Ticket → Bool → Bool → System
wake s xs t ys is_set expired = settle s (xs ++ ys) (xs ++ t ∷ ys) (poll is_set expired t s.ctl)

unfoldable pub finish : System → List Lease → Lease → List Lease → System
finish s xs l ys = record s { ctl = release l s.ctl; held = xs ++ ys }

pub data Step (s : System) : System → Type 0 where
  arrives : (mem : ℕ) (k : RequestClass) (c e : Bool) → Step s (arrive s mem k c e)
  wakes :
      (xs : List Ticket) (t : Ticket) (ys : List Ticket) (c e : Bool)
      → s.threads ≡ xs ++ t ∷ ys
      → Step s (wake s xs t ys c e)
  finishes :
      (xs : List Lease) (l : Lease) (ys : List Lease)
      → s.held ≡ xs ++ l ∷ ys
      → Step s (finish s xs l ys)

pub data Reach (s : System) : System → Type 0 where
  here : Reach s s
  next : {t u : System} → Reach s t → Step t u → Reach s u
