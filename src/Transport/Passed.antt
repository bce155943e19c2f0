-- ===== src/Transport/Passed.antt =====
-- What a walk that passes says of its value (src/math_anchor/transport_budget.py).
use math_anchor.Base.{
  ℕ, ◌+◌, ◌≤◌, ◌≡◌, refl, arith, Bool, true, false, List, ◌∷◌, if◌then◌else◌, Bool-cases, inl, inr,
}
use math_anchor.Transport.{
  Value, nothing, boolean, integer, float, text, array, object, alien, Items, nil, cons, Members,
  end, member, Refusal, max_request_bytes, circular, not_finite, key_not_text, Limits, Tally, among,
  text_keys, counted, next_node, add_text, fits_text,
}
use math_anchor.Transport.Walk.{
  Outcome, passed, stopped, followed, entering, after_text, walk, walk_items, entered, walk_members,
}
use math_anchor.Transport.Counts.{
  node_count, node_count_items, node_count_members, byte_count, byte_count_items,
  byte_count_members, IsJson, IsJsonItems, IsJsonMembers, grown, Within, Added,
}

module _ (limits : Limits) where
  entering-passed :
      (d : ℕ) (t : Tally) (rest : Tally → Outcome) {t₁ : Tally}
      → entering limits d t rest ≡ passed t₁
      → (rest (next_node limits t) ≡ passed t₁)
        × (d ≤ limits.max_depth)
        × (t.nodes + 1 ≤ limits.max_nodes)
  entering-passed d t rest h = elim (Bool-cases (counted limits t d)) [
    | inl c ↦ (rw c at h, ground (arith, c), ground (arith, c))
    | inr n ↦ absurd (ne (rw n at h))
  ]
    where
      ne : {r : Refusal} {t₂ : Tally} → stopped r ≡ passed t₂ → ⊥
      ne k = cc

  followed-passed :
      (o : Outcome) (f : Tally → Outcome) {t₁ : Tally}
      → followed o f ≡ passed t₁
      → (t : Tally) × (o ≡ passed t) × (f t ≡ passed t₁)
  followed-passed (passed t) f h = (t, refl, h)
  followed-passed (stopped r) f h = absurd (cc)

  passed_inj : {t t₁ : Tally} → passed t ≡ passed t₁ → t ≡ t₁
  passed_inj h = cc

  -- Two parts, one after the other.
  grown-grown :
      (n b m c : ℕ) (t t₁ : Tally) {t₂ : Tally}
      → t₁ ≡ grown n b t
      → t₂ ≡ grown m c t₁
      → t₂ ≡ grown (n + m) (b + c) t
  grown-grown n b m c t t₁ {t₂} h k = rw (k, h) (ground arith)

  next_node-grown :
      (n b : ℕ) (t : Tally) {t₁ : Tally}
      → t₁ ≡ grown n b (next_node limits t)
      → t₁ ≡ grown (1 + n) b t
  next_node-grown n b t h = rw h (ground arith)

  after_text-passed :
      (t : Tally) {t₁ : Tally}
      → after_text limits t ≡ passed t₁
      → (t ≡ t₁) × (t.text_bytes ≤ limits.max_bytes)
  after_text-passed t h = elim (Bool-cases (fits_text limits t)) [
    | inl f ↦ (passed_inj (rw f at h), ground (arith, f))
    | inr n ↦ absurd (ne (rw n at h))
  ]
    where
      ne : {t₂ : Tally} → stopped max_request_bytes ≡ passed t₂ → ⊥
      ne k = cc

  unstopped :
      (b : Bool) (r : Refusal) (o : Outcome) {t : Tally}
      → (if b then stopped r else o) ≡ passed t
      → (b ≡ false) × (o ≡ passed t)
  unstopped true r o h = absurd (cc)
  unstopped false r o h = (refl, h)

  allowed :
      (b : Bool) (r : Refusal) (o : Outcome) {t : Tally}
      → (if b then o else stopped r) ≡ passed t
      → (b ≡ true) × (o ≡ passed t)
  allowed true r o h = (refl, h)
  allowed false r o h = absurd (cc)

  scalar-Added :
      (d : ℕ) (t : Tally) {t₁ : Tally}
      → Within limits t
      → entering limits d t passed ≡ passed t₁
      → Added limits 1 0 (d ≤ limits.max_depth) t t₁
  scalar-Added d t w h =
      let (e, deep, few) = entering-passed d t passed h in
      (rw⁻¹ (passed_inj e) (ground arith), rw⁻¹ (passed_inj e) (few, w.1), deep)

  mutual
    pub walk-Added :
        (v : Value) (d : ℕ) (path : List ℕ) (t : Tally) {t₁ : Tally}
        → Within limits t
        → walk limits v d path t ≡ passed t₁
        → Added limits (node_count v) (byte_count v) (IsJson limits.max_depth d path v) t t₁
    walk-Added nothing d path t w h = scalar-Added d t w h
    walk-Added (boolean b) d path t w h = scalar-Added d t w h
    walk-Added (integer n) d path t w h = scalar-Added d t w h
    walk-Added (float finite) d path t w h =
        let (e, deep, few) = entering-passed d t (entered limits (float finite) d path) h in
        let (f, same) = allowed finite not_finite (passed (next_node limits t)) e in
        (rw⁻¹ (passed_inj same) (ground arith), rw⁻¹ (passed_inj same) (few, w.1), (deep, f))
    walk-Added (text s) d path t w h =
        let (e, deep, few) = entering-passed d t (entered limits (text s) d path) h in
        let (same, short) = after_text-passed (add_text limits s (next_node limits t)) e in
        (rw⁻¹ same (ground arith), rw⁻¹ same (few, short), deep)
    walk-Added (array i vs) d path t w h =
        let (e, deep, few) = entering-passed d t (entered limits (array i vs) d path) h in
        let (fresh, inner) = unstopped (among i path) circular _ e in
        let (a, w₁, j) = walk_items-Added vs d (i ∷ path) (next_node limits t) (few, w.1) inner in
        (next_node-grown _ _ t a, w₁, (deep, fresh, j))
    walk-Added (object i ms) d path t w h =
        let (e, deep, few) = entering-passed d t (entered limits (object i ms) d path) h in
        let (fresh, e₁) = unstopped (among i path) circular _ e in
        let (keys, inner) = allowed (text_keys ms) key_not_text _ e₁ in
        let (a, w₁, j) = walk_members-Added ms d (i ∷ path) (next_node limits t) (few, w.1) inner in
        (next_node-grown _ _ t a, w₁, (deep, fresh, keys, j))
    walk-Added alien d path t w h =
        let (e, deep, few) = entering-passed d t (entered limits alien d path) h in absurd (cc)

    walk_items-Added :
        (vs : Items) (d : ℕ) (path : List ℕ) (t : Tally) {t₁ : Tally}
        → Within limits t
        → walk_items limits vs d path t ≡ passed t₁
        → Added limits
            (node_count_items vs)
            (byte_count_items vs)
            (IsJsonItems limits.max_depth d path vs)
            t
            t₁
    walk_items-Added nil d path t w h =
        (rw⁻¹ (passed_inj h) (ground arith), rw⁻¹ (passed_inj h) w, tt)
    walk_items-Added (cons v vs) d path t w h =
        let (t₁, e, e₁) = followed-passed (walk limits v (d + 1) path t) _ h in
        let (a, w₁, j) = walk-Added v (d + 1) path t w e in
        let (b, w₂, k) = walk_items-Added vs d path t₁ w₁ e₁ in
        (grown-grown _ _ _ _ t t₁ a b, w₂, (j, k))

    walk_members-Added :
        (ms : Members) (d : ℕ) (path : List ℕ) (t : Tally) {t₁ : Tally}
        → Within limits t
        → walk_members limits ms d path t ≡ passed t₁
        → Added limits
            (node_count_members ms)
            (byte_count_members ms)
            (IsJsonMembers limits.max_depth d path ms)
            t
            t₁
    walk_members-Added end d path t w h =
        (rw⁻¹ (passed_inj h) (ground arith), rw⁻¹ (passed_inj h) w, tt)
    walk_members-Added (member k v ms) d path t w h =
        let (t₁, e, e₁) = followed-passed (walk_members limits ms d path t) _ h in
        let (t₂, e₂, e₃) = followed-passed (walk limits k (d + 1) path t₁) _ e₁ in
        let (a, w₁, j) = walk_members-Added ms d path t w e in
        let (b, w₂, j₁) = walk-Added k (d + 1) path t₁ w₁ e₂ in
        let (c, w₃, j₂) = walk-Added v (d + 1) path t₂ w₂ e₃ in
        (grown-grown _ _ _ _ t t₁ a (grown-grown _ _ _ _ t₁ t₂ b c), w₃, (j, j₁, j₂))
