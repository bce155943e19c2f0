-- ===== src/Integers/Division/Laws.antt =====
-- The law of a division with remainder, for `_divide` (src/math_anchor/operations/programmer.py).
use math_anchor.Base.{ℕ, zero, suc, ◌+◌, ◌/◌, ◌<◌, ◌≡◌, ◌≢◌, refl, arith}
use math_anchor.Base.Int.{
  ℤ, pos, negsuc, neg, abs, ◌+ℤ◌, ◌-ℤ◌, ◌*ℤ◌, ◌≤ℤ◌, ◌<ℤ◌, pos_part, neg_part, int_laws, *ℤ_parts,
  neg_parts,
}
use math_anchor.Base.Python.{floor_div}
use math_anchor.Integers.Division.{DivisionMode, truncating, floor, euclidean, quotient, divide}

abbrev pub HasSign : DivisionMode → ℤ → ℤ → ℤ → Type 0
HasSign truncating x y r = (pos 0 ≤ℤ x → pos 0 ≤ℤ r) × (x ≤ℤ pos 0 → r ≤ℤ pos 0)
HasSign floor x y r = (pos 0 <ℤ y → pos 0 ≤ℤ r) × (y <ℤ pos 0 → r ≤ℤ pos 0)
HasSign euclidean x y r = pos 0 ≤ℤ r

pub record IsDivision (mode : DivisionMode) (x y q r : ℤ) : Type 0 where
  pub exact : x ≡ y *ℤ q +ℤ r
  pub small : abs r < abs y
  pub has_sign : HasSign mode x y r

-- What `divide` leaves with the quotient `q`.
abbrev rest : ℤ → ℤ → ℤ → ℤ
rest x y q = x -ℤ y *ℤ q

-- The bounds that say that the magnitude is below `n`.
abbrev Below : ℕ → ℤ → Type 0
Below n r = (pos_part r < n + neg_part r) × (neg_part r < n + pos_part r)

abs-lt : (n : ℕ) (r : ℤ) → Below n r → abs r < n
abs-lt n (pos a) h = omega arith
abs-lt n (negsuc a) h = omega arith

mul-neg_parts :
    (y z : ℤ)
    → pos_part (y *ℤ neg z) + pos_part (y *ℤ z) ≡ neg_part (y *ℤ neg z) + neg_part (y *ℤ z)
mul-neg_parts y z =
    let there = rw ((neg_parts z).0, (neg_parts z).1) at (*ℤ_parts y (neg z)) in
    omega (arith, there, *ℤ_parts y z)

-- The rests by the signs of the dividend and the divisor; `n` is suc d.
rest-pp :
    (a d : ℕ)
    → let r = rest (pos a) (pos (suc d)) (pos (a / suc d)) in
      Below (suc d) r × (pos 0 ≤ℤ r) × (r ≤ℤ pos a)
rest-pp a d = omega (int_laws, *ℤ_parts (pos (suc d)) (pos (a / suc d)))

rest-np_floor :
    (a d : ℕ)
    → let r = rest (negsuc a) (pos (suc d)) (negsuc (a / suc d)) in Below (suc d) r × (pos 0 ≤ℤ r)
rest-np_floor a d = omega (int_laws, *ℤ_parts (pos (suc d)) (negsuc (a / suc d)))

rest-np :
    (a d : ℕ)
    → let r = rest (negsuc a) (pos (suc d)) (neg (pos (suc a / suc d))) in
      Below (suc d) r × (r ≤ℤ pos 0)
rest-np a d = omega (
  int_laws,
  mul-neg_parts (pos (suc d)) (pos (suc a / suc d)),
  *ℤ_parts (pos (suc d)) (pos (suc a / suc d)),
)

rest-pn :
    (a d : ℕ)
    → let r = rest (pos a) (negsuc d) (neg (pos (a / suc d))) in
      Below (suc d) r × (pos 0 ≤ℤ r) × (r ≤ℤ pos a)
rest-pn a d =
    omega
      (int_laws, mul-neg_parts (negsuc d) (pos (a / suc d)), *ℤ_parts (negsuc d) (pos (a / suc d)))

rest-pn_floor :
    (b d : ℕ)
    → let r = rest (pos (suc b)) (negsuc d) (negsuc (b / suc d)) in Below (suc d) r × (r ≤ℤ pos 0)
rest-pn_floor b d = omega (int_laws, *ℤ_parts (negsuc d) (negsuc (b / suc d)))

rest-zero_floor :
    (d : ℕ) → let r = rest (pos 0) (negsuc d) (pos (0 / suc d)) in Below (suc d) r × (r ≤ℤ pos 0)
rest-zero_floor d = omega (int_laws, *ℤ_parts (negsuc d) (pos (0 / suc d)))

rest-nn :
    (a d : ℕ)
    → let r = rest (negsuc a) (negsuc d) (pos (suc a / suc d)) in Below (suc d) r × (r ≤ℤ pos 0)
rest-nn a d = omega (int_laws, *ℤ_parts (negsuc d) (pos (suc a / suc d)))

rest-nn_euclidean :
    (a d : ℕ)
    → let r = rest (negsuc a) (negsuc d) (neg (negsuc (a / suc d))) in
      Below (suc d) r × (pos 0 ≤ℤ r)
rest-nn_euclidean a d = omega (
  int_laws,
  mul-neg_parts (negsuc d) (negsuc (a / suc d)),
  *ℤ_parts (negsuc d) (negsuc (a / suc d)),
)

-- The quotients by signs.
neg-negsuc : (a : ℕ) → neg (negsuc a) ≡ pos (suc a)
unfolding neg
neg-negsuc a = ground arith

neg-pos_suc : (a : ℕ) → neg (pos (suc a)) ≡ negsuc a
unfolding neg
neg-pos_suc a = ground arith

-- A quotient with a rest of the right size and sign is the mode's division.
from_rest :
    (mode : DivisionMode) (x y q : ℤ)
    → Below (abs y) (rest x y q)
    → HasSign mode x y (rest x y q)
    → IsDivision mode x y q (rest x y q)
from_rest mode x y q h s = record {
  exact = omega int_laws;
  small = abs-lt (abs y) (rest x y q) h;
  has_sign = s;
}

of_quotient :
    (mode : DivisionMode) (x y q : ℤ)
    → quotient x y mode ≡ q
    → Below (abs y) (rest x y q)
    → HasSign mode x y (rest x y q)
    → IsDivision mode x y (divide x y mode).0 (divide x y mode).1
unfolding divide
of_quotient mode x y q e h s = rw e (from_rest mode x y q h s)

-- `_divide`, in each of its modes and for all signs: the dividend is the divisor times the quotient
-- plus the remainder, the remainder's magnitude is below the divisor's, and its sign is the
-- dividend's (truncating), the divisor's (floor), or not negative (euclidean). Assumed: the divisor
-- is not 0.
pub divide-IsDivision :
    (mode : DivisionMode) (x y : ℤ)
    → y ≢ pos 0
    → IsDivision mode x y (divide x y mode).0 (divide x y mode).1
unfolding quotient floor_div neg
divide-IsDivision mode x (pos zero) ne = absurd (ne refl)
divide-IsDivision truncating (pos a) (pos (suc d)) ne =
    of_quotient truncating _ _ (pos (a / suc d)) (ground arith) (rest-pp a d).0
      (omega (arith, rest-pp a d))
divide-IsDivision truncating (negsuc a) (pos (suc d)) ne =
    of_quotient truncating _ _ (neg (pos (suc a / suc d))) (ground arith) (rest-np a d).0
      (omega (arith, rest-np a d))
divide-IsDivision truncating (pos a) (negsuc d) ne =
    of_quotient truncating _ _ (neg (pos (a / suc d))) (ground arith) (rest-pn a d).0
      (omega (arith, rest-pn a d))
divide-IsDivision truncating (negsuc a) (negsuc d) ne =
    of_quotient truncating _ _ (pos (suc a / suc d)) (ground arith) (rest-nn a d).0
      (omega (arith, rest-nn a d))
divide-IsDivision floor (pos a) (pos (suc d)) ne =
    of_quotient floor _ _ (pos (a / suc d)) (ground arith) (rest-pp a d).0
      (omega (arith, rest-pp a d))
divide-IsDivision floor (negsuc a) (pos (suc d)) ne =
    of_quotient floor _ _ (negsuc (a / suc d)) (ground arith) (rest-np_floor a d).0
      (omega (arith, rest-np_floor a d))
divide-IsDivision floor (pos zero) (negsuc d) ne =
    of_quotient floor _ _ (pos (0 / suc d)) (ground arith) (rest-zero_floor d).0
      (omega (arith, rest-zero_floor d))
divide-IsDivision floor (pos (suc b)) (negsuc d) ne =
    of_quotient floor _ _ (negsuc (b / suc d)) (ground arith) (rest-pn_floor b d).0
      (omega (arith, rest-pn_floor b d))
divide-IsDivision floor (negsuc a) (negsuc d) ne =
    of_quotient floor _ _ (pos (suc a / suc d)) (ground arith) (rest-nn a d).0
      (omega (arith, rest-nn a d))
divide-IsDivision euclidean (pos a) (pos (suc d)) ne =
    of_quotient euclidean _ _ (pos (a / suc d)) (ground arith) (rest-pp a d).0
      (omega (arith, rest-pp a d))
divide-IsDivision euclidean (negsuc a) (pos (suc d)) ne =
    of_quotient euclidean _ _ (negsuc (a / suc d)) (ground arith) (rest-np_floor a d).0
      (omega (arith, rest-np_floor a d))
divide-IsDivision euclidean (pos a) (negsuc d) ne =
    of_quotient euclidean _ _ (neg (pos (a / suc d))) (ground arith) (rest-pn a d).0
      (omega (arith, rest-pn a d))
divide-IsDivision euclidean (negsuc a) (negsuc d) ne =
    of_quotient euclidean _ _ (neg (negsuc (a / suc d))) (ground arith) (rest-nn_euclidean a d).0
      (omega (arith, rest-nn_euclidean a d))
