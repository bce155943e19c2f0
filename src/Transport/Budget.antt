-- ===== src/Transport/Budget.antt =====
-- What `_validate_shape` (src/math_anchor/transport_budget.py) accepts, by the whole value.
use math_anchor.Base.{ℕ, ◌+◌, ◌≤◌, ◌≡◌, ◌↔◌, refl, sym, ap, ◌∙◌, arith, true, List, [], ◌∷◌}
use math_anchor.Transport.{
  Value, nothing, boolean, integer, float, text, array, object, alien, Items, nil, cons, Members,
  end, member, Limits, Tally, accepted, counted, next_node, add_text, fits_text, no_tally,
  validate_shape,
}
use math_anchor.Transport.Walk.{
  Outcome, passed, stopped, followed, verdict_of, entering, after_text, walk, walk_items, entered,
  walk_members, validate_shape-walk,
}
use math_anchor.Transport.Counts.{
  node_count, node_count_items, node_count_members, byte_count, byte_count_items,
  byte_count_members, IsJson, IsJsonItems, IsJsonMembers, grown, Within,
}
use math_anchor.Transport.Passed.{walk-Added}

module _ (limits : Limits) where
  entering-within :
      (d : ℕ) (t : Tally) (rest : Tally → Outcome)
      → d ≤ limits.max_depth
      → t.nodes + 1 ≤ limits.max_nodes
      → entering limits d t rest ≡ rest (next_node limits t)
  entering-within d t rest h k =
      let c : counted limits t d ≡ true = ground (arith, h, k) in rw c refl

  entering-grown :
      (v : Value) (d : ℕ) (path : List ℕ) (t : Tally) {o : Outcome}
      → d ≤ limits.max_depth
      → t.nodes + 1 ≤ limits.max_nodes
      → entered limits v d path (next_node limits t) ≡ o
      → entering limits d t (entered limits v d path) ≡ o
  entering-grown v d path t deep few e = entering-within d t (entered limits v d path) deep few ∙ e

  after_text-within : (t : Tally) → t.text_bytes ≤ limits.max_bytes → after_text limits t ≡ passed t
  after_text-within t h = let f : fits_text limits t ≡ true = ground (arith, h) in rw f refl

  followed-walk :
      (o : Outcome) (f : Tally → Outcome) {t : Tally} {o₁ : Outcome}
      → o ≡ passed t
      → f t ≡ o₁
      → followed o f ≡ o₁
  followed-walk o f h k = ap (λ x. followed x f) h ∙ k

  mutual
    walk-IsJson :
        (v : Value) (d : ℕ) (path : List ℕ) (t : Tally)
        → IsJson limits.max_depth d path v
        → Within limits (grown (node_count v) (byte_count v) t)
        → walk limits v d path t ≡ passed (grown (node_count v) (byte_count v) t)
    walk-IsJson nothing d path t j w = entering-grown nothing d path t j w.0 (ground arith)
    walk-IsJson (boolean b) d path t j w = entering-grown (boolean b) d path t j w.0 (ground arith)
    walk-IsJson (integer n) d path t j w = entering-grown (integer n) d path t j w.0 (ground arith)
    walk-IsJson (float finite) d path t j w =
        entering-grown (float finite) d path t j.0 w.0 (ground (arith, j.1))
    walk-IsJson (text s) d path t j w =
        entering-grown (text s) d path t j w.0
          (after_text-within (add_text limits s (next_node limits t)) w.1)
    walk-IsJson (array i vs) d path t j w =
        entering-grown (array i vs) d path t j.0 (omega (arith, w.0)) (
          rw j.1 (
            walk_items-IsJson vs d (i ∷ path) (next_node limits t) j.2 (omega (arith, w.0), w.1)
            ∙ ap passed (ground arith)))
    walk-IsJson (object i ms) d path t j w =
        entering-grown (object i ms) d path t j.0 (omega (arith, w.0)) (
          rw (j.1, j.2)
            (walk_members-IsJson ms d (i ∷ path) (next_node limits t) j.3 (omega (arith, w.0), w.1)
              ∙ ap passed (ground arith)))
    walk-IsJson alien d path t j w = absurd j

    walk_items-IsJson :
        (vs : Items) (d : ℕ) (path : List ℕ) (t : Tally)
        → IsJsonItems limits.max_depth d path vs
        → Within limits (grown (node_count_items vs) (byte_count_items vs) t)
        → walk_items limits vs d path t
          ≡ passed (grown (node_count_items vs) (byte_count_items vs) t)
    walk_items-IsJson nil d path t j w = ap passed (ground arith)
    walk_items-IsJson (cons v vs) d path t j w =
        let t₁ = grown (node_count v) (byte_count v) t in
        followed-walk (walk limits v (d + 1) path t) (walk_items limits vs d path)
          (walk-IsJson v (d + 1) path t j.0 (omega (arith, w.0), omega (arith, w.1)))
          (walk_items-IsJson vs d path t₁ j.1 (omega (arith, w.0), omega (arith, w.1))
            ∙ ap passed (ground arith))

    walk_members-IsJson :
        (ms : Members) (d : ℕ) (path : List ℕ) (t : Tally)
        → IsJsonMembers limits.max_depth d path ms
        → Within limits (grown (node_count_members ms) (byte_count_members ms) t)
        → walk_members limits ms d path t
          ≡ passed (grown (node_count_members ms) (byte_count_members ms) t)
    walk_members-IsJson end d path t j w = ap passed (ground arith)
    walk_members-IsJson (member k v ms) d path t j w =
        let t₁ = grown (node_count_members ms) (byte_count_members ms) t in
        let t₂ = grown (node_count k) (byte_count k) t₁ in
        followed-walk (walk_members limits ms d path t)
          (λ x. followed (walk limits k (d + 1) path x) (walk limits v (d + 1) path))
          (walk_members-IsJson ms d path t j.0 (omega (arith, w.0), omega (arith, w.1)))
          (followed-walk (walk limits k (d + 1) path t₁) (walk limits v (d + 1) path)
            (walk-IsJson k (d + 1) path t₁ j.1 (omega (arith, w.0), omega (arith, w.1)))
            (walk-IsJson v (d + 1) path t₂ j.2 (omega (arith, w.0), omega (arith, w.1))
              ∙ ap passed (ground arith)))

verdict_of-accepted :
    (o : Outcome) → verdict_of o (λ t. accepted) ≡ accepted → (t : Tally) × (o ≡ passed t)
verdict_of-accepted (passed t) h = (t, refl)
verdict_of-accepted (stopped r) h = absurd (cc)

-- `_validate_shape` accepts exactly the JSON values (finite numbers, texts for keys, no container
-- within itself) that stand no deeper than the limit of depth, with no more values than the limit of
-- nodes and no more bytes in their texts than the limit of bytes.
pub validate_shape-accepts :
    (limits : Limits) (v : Value)
    → (validate_shape limits v ≡ accepted) ↔ (
        (node_count v ≤ limits.max_nodes)
        × (byte_count v ≤ limits.max_bytes)
        × IsJson limits.max_depth 0 [] v)
validate_shape-accepts limits v = (
  λ h.
      let (t, e) =
        verdict_of-accepted (walk limits v 0 [] no_tally)
          (sym (validate_shape-walk limits v) ∙ h) in
      let (g, w, j) = walk-Added limits v 0 [] no_tally (omega arith, omega arith) e in
      (omega (arith, ap (λ x. x.nodes) g, w.0), omega (arith, ap (λ x. x.text_bytes) g, w.1), j),
  λ h.
      validate_shape-walk limits v
      ∙ ap (λ o. verdict_of o (λ t. accepted))
          (walk-IsJson limits v 0 [] no_tally h.2 (omega (arith, h.0), omega (arith, h.1))),
)
