-- ===== src/Obligations/Growth.antt =====
-- How `entries_by_id` grows in `check_obligation_set` (src/math_anchor/obligations.py).
use math_anchor.Base.{
  ℕ, ◌≡◌, refl, sym, ap, ◌∙◌, arith, true, false, List, [], ◌∷◌, ◌==◌, if◌then◌else◌, ok, err,
  key_error, All, ok_inj, Bool-cases, inl, inr, ◌⊎◌,
}
use math_anchor.Obligations.{mem}
use math_anchor.Obligations.Entries.{Entry, is_checked}
use math_anchor.Obligations.Check.{entry_of}

abbrev pub Distinct : List ℕ → Type 0
Distinct [] = Unit
Distinct (i ∷ is) = (mem i is ≡ false) × Distinct is

abbrev pub Fresh : ℕ → List Entry → Type 0
Fresh i es = entry_of i es ≡ err key_error

abbrev pub Present : ℕ → List Entry → Type 0
Present i es = (e : Entry) × (entry_of i es ≡ ok e)

abbrev pub CheckedIn : List Entry → ℕ → Type 0
CheckedIn es i = (e : Entry) × (entry_of i es ≡ ok e) × (is_checked e.status ≡ true)

-- An entry may be added if its id is new, and as checked only if its dependencies are checked.
abbrev pub Gates : List Entry → Entry → Type 0
Gates es x = (is_checked x.status ≡ false) ⊎ All (CheckedIn es) x.depends_on

pub data Grows (start : List Entry) : List Entry → Type 0 where
  same : Grows start start
  adds :
      {es : List Entry} (x : Entry)
      → Grows start es
      → Fresh x.id es
      → Gates es x
      → Grows start (x ∷ es)

pub Grows-trans : {a b c : List Entry} → Grows a b → Grows b c → Grows a c
Grows-trans g same = g
Grows-trans g (adds x h f k) = adds x (Grows-trans g h) f k

pub CheckedIn-cons :
    (x : Entry) (es : List Entry) (d : ℕ) → Fresh x.id es → CheckedIn es d → CheckedIn (x ∷ es) d
CheckedIn-cons x es d f (e, found, c) = elim (Bool-cases (x.id == d)) [
  | inl s ↦ absurd (ne (sym f ∙ ap (λ i. entry_of i es) (ground arith) ∙ found))
  | inr n ↦ (e, rw n found, c)
]
  where
    ne : {y : Entry} → err key_error ≡ ok y → ⊥
    ne h = cc

pub Grows-CheckedIn : {a b : List Entry} (d : ℕ) → Grows a b → CheckedIn a d → CheckedIn b d
Grows-CheckedIn d same c = c
Grows-CheckedIn d (adds {es} x g f k) c = CheckedIn-cons x es d f (Grows-CheckedIn d g c)

pub Present-cons : (x : Entry) (es : List Entry) (d : ℕ) → Present d es → Present d (x ∷ es)
Present-cons x es d (e, found) = elim (Bool-cases (x.id == d)) [
  | inl s ↦ (x, rw s refl)
  | inr n ↦ (e, rw n found)
]

pub Grows-Present : {a b : List Entry} (d : ℕ) → Grows a b → Present d a → Present d b
Grows-Present d same p = p
Grows-Present d (adds {es} x g f k) p = Present-cons x es d (Grows-Present d g p)

pub All-lookup {κ} : (P : ℕ → Type κ) (d : ℕ) (ds : List ℕ) → All P ds → mem d ds ≡ true → P d
All-lookup P d [] h m = absurd (cc)
All-lookup P d (x ∷ xs) h m = elim (Bool-cases (d == x)) [
  | inl s ↦ let e : x ≡ d = ground arith in rw (← e) h.0
  | inr n ↦ All-lookup P d xs h.1 (ground (arith, m, n))
]

-- In what grew from nothing, the dependencies of a checked entry are checked.
pub Grows-gated :
    {es : List Entry} (i d : ℕ) {e : Entry}
    → Grows [] es
    → entry_of i es ≡ ok e
    → is_checked e.status ≡ true
    → mem d e.depends_on ≡ true
    → CheckedIn es d
Grows-gated i d same found c m = absurd (cc)
Grows-gated i d {e} (adds {es} x g f k) found c m = elim (Bool-cases (x.id == i)) [
  | inl s ↦
      CheckedIn-cons x es d f
        (own k (ok_inj (sym (ap (λ b. if b then ok x else entry_of i es) s) ∙ found)))
  | inr n ↦
      CheckedIn-cons x es d f
        (Grows-gated i d g (sym (ap (λ b. if b then ok x else entry_of i es) n) ∙ found) c m)
]
  where
    own : Gates es x → x ≡ e → CheckedIn es d
    own (inl u) s = absurd (cc (u, c, s))
    own (inr all) s =
        All-lookup (CheckedIn es) d x.depends_on all (ap (λ y. mem d y.depends_on) s ∙ m)
