-- ===== src/Dimensions/Vectors.antt =====
-- Sums, multiples and differences of `DimensionVector` (src/math_anchor/dimension_expression.py) by the
-- exponents of each name; what comes out is a vector again.
use Prim.Native.String.{String}
use math_anchor.Base.{
  ◌≡◌, refl, sym, ap, ap₂, ◌∙◌, subst, arith, Bool, true, false, not, [], ◌∷◌, if◌then◌else◌,
  length, leb, ok, e_limit, e_input, >>=-eq-ok, require-eq-ok, ok_inj,
}
use math_anchor.Base.Int.{negsuc}
use math_anchor.Base.Json.{str_eq}
use math_anchor.Certificates.Coefficients.{Fractions, ◌⊕◌, ◌⊗◌, zero_of, add-zero, minus_one-mul}
use math_anchor.Dimensions.{
  Components, has_name, put, sorted_components, exponent, is_bounded_derived, normalized_from,
  from_derived_mapping, combined, scaled, sum_of, scale, difference, max_dimension_components,
}
use math_anchor.Dimensions.Names.{
  Distinct, Named, Distinct-sorted, Named-sorted, Named-put, Distinct-put,
}
use math_anchor.Dimensions.Exponents.{
  share, total, exponent-total, put_absent-total, combined-total, Named-combined, scaled-total,
  Named-scaled, sorted-total,
}

module _ {ℓ} {A : Type ℓ} ⦃f : Fractions A⦄ where
  normalized_from-total :
      (n : String) (values cs : Components A) {v : Components A}
      → Named values
      → normalized_from values cs ≡ ok v
      → total n v ≡ total n cs ⊕ total n values
  normalized_from-total n [] cs h g = ap (total n) (sym (ok_inj g)) ∙ sym (add-zero (total n cs))
  normalized_from-total n ((k, e) ∷ values) cs (own, rest) g =
      let named = (rw own at g) in
      let fresh = require-eq-ok (not (has_name k cs)) e_input _ named in
      let bounded = require-eq-ok (is_bounded_derived e) e_limit _ fresh.1 in
      normalized_from-total n values (if f.is_zero e then cs else put k e cs) rest bounded.1
      ∙ ap (λ x. x ⊕ total n values) (kept (f.is_zero e) refl fresh.0)
      ∙ f.add_assoc (total n cs) (share (str_eq k n) e) (total n values)
    where
      kept :
          (z : Bool)
          → f.is_zero e ≡ z
          → not (has_name k cs) ≡ true
          → total n (if z then cs else put k e cs) ≡ total n cs ⊕ share (str_eq k n) e
      kept true zero free =
          sym (add-zero (total n cs)) ∙ ap (λ x. total n cs ⊕ x) (sym (nothing (str_eq k n)))
        where
          nothing : (b : Bool) → share b e ≡ zero_of
          nothing true = f.is_zero_eq e zero
          nothing false = refl
      kept false other free = put_absent-total n k e cs (ground arith)

  -- A vector: its names are canonical, and none stands twice.
  abbrev pub IsVector : Components A → Type 0
  IsVector cs = Distinct cs × Named cs

  normalized_from-IsVector :
      (values cs : Components A) {v : Components A}
      → Named values
      → IsVector cs
      → normalized_from values cs ≡ ok v
      → IsVector v
  normalized_from-IsVector [] cs h w g = subst IsVector (ok_inj g) w
  normalized_from-IsVector ((k, e) ∷ values) cs (own, rest) w g =
      let named = (rw own at g) in
      let fresh = require-eq-ok (not (has_name k cs)) e_input _ named in
      let bounded = require-eq-ok (is_bounded_derived e) e_limit _ fresh.1 in
      normalized_from-IsVector values (if f.is_zero e then cs else put k e cs) rest
        (kept (f.is_zero e)) bounded.1
    where
      kept : (z : Bool) → IsVector (if z then cs else put k e cs)
      kept true = w
      kept false = (Distinct-put k e cs w.0, Named-put k e cs own w.1)

  from_derived_mapping-lem :
      (values : Components A) {v : Components A}
      → Named values
      → from_derived_mapping values ≡ ok v
      → IsVector v × ((n : String) → exponent n v ≡ total n values)
  unfolding from_derived_mapping
  from_derived_mapping-lem values h g =
      let few = require-eq-ok (leb (length values) max_dimension_components) e_limit _ g in
      let found = >>=-eq-ok (normalized_from values []) _ few.1 in
      let built = normalized_from-IsVector values [] h (tt, tt) found.1 in
      let sorted_built : IsVector (sorted_components found.0) =
        (Distinct-sorted found.0 built.0, Named-sorted found.0 built.1) in
      let result = subst IsVector (ok_inj found.2) sorted_built in
      (
        result,
        λ n.
            exponent-total n _ result.0
            ∙ ap (total n) (sym (ok_inj found.2))
            ∙ sorted-total n found.0
            ∙ normalized_from-total n values [] h found.1
            ∙ f.zero-add (total n values),
      )

  -- A sum of two vectors, where there is one: a vector, whose exponent of each name is the sum of theirs.
  pub sum_of-exponent :
      (left right : Components A) {v : Components A}
      → IsVector left
      → IsVector right
      → sum_of left right ≡ ok v
      → IsVector v × ((n : String) → exponent n v ≡ exponent n left ⊕ exponent n right)
  unfolding sum_of
  sum_of-exponent left right h g e =
      let made =
        from_derived_mapping-lem (combined left right) (Named-combined left right h.1 g.1) e in
      (
        made.0,
        λ n.
            made.1 n
            ∙ combined-total n left right
            ∙ ap₂ (λ x y. x ⊕ y) (sym (exponent-total n left h.0))
                (sym (exponent-total n right g.0)),
      )

  -- A multiple of a vector, where there is one: a vector, whose exponent of each name is multiplied.
  pub scale-exponent :
      (factor : A) (cs : Components A) {v : Components A}
      → IsVector cs
      → scale factor cs ≡ ok v
      → IsVector v × ((n : String) → exponent n v ≡ exponent n cs ⊗ factor)
  unfolding scale
  scale-exponent factor cs h e =
      let made = from_derived_mapping-lem (scaled factor cs) (Named-scaled factor cs h.1) e in
      (
        made.0,
        λ n.
            made.1 n
            ∙ scaled-total n factor cs
            ∙ ap (λ x. x ⊗ factor) (sym (exponent-total n cs h.0)),
      )

  -- A difference of two vectors, where there is one: a vector, whose exponent of each name is the
  -- exponent in the first less the exponent in the second.
  pub difference-exponent :
      (left right : Components A) {v : Components A}
      → IsVector left
      → IsVector right
      → difference left right ≡ ok v
      → IsVector v × ((n : String) → exponent n v ≡ exponent n left ⊕ f.neg (exponent n right))
  unfolding difference
  difference-exponent left right h g e =
      let found = >>=-eq-ok (scale (f.from_int (negsuc 0)) right) _ e in
      let opposite = scale-exponent (f.from_int (negsuc 0)) right g found.1 in
      let made = sum_of-exponent left found.0 h opposite.0 found.2 in
      (
        made.0,
        λ n.
            made.1 n
            ∙ ap (λ x. exponent n left ⊕ x)
                (opposite.1 n
                  ∙ f.mul_comm (exponent n right) (f.from_int (negsuc 0))
                  ∙ minus_one-mul (exponent n right)),
      )
