-- ===== src/Transport/Walk.antt =====
-- `_validate_shape` (src/math_anchor/transport_budget.py) against a recursive walk of the value: the
-- explicit stack visits what the recursion visits, and the set of active containers is the path.
use math_anchor.Base.{
  ℕ, suc, ◌+◌, ◌≡◌, refl, sym, ap, ◌∙◌, arith, Bool, true, false, List, [], ◌∷◌, if◌then◌else◌,
  Bool-cases, inl, inr,
}
use math_anchor.Transport.{
  Value, nothing, boolean, integer, float, text, array, object, alien, Items, nil, cons, Members,
  end, member, Refusal, max_request_bytes, circular, not_finite, key_not_text, non_json, Limits,
  Tally, Frame, enter, exiting, Verdict, accepted, refused, among, discard, push_items,
  push_members, text_keys, counted, count_refusal, next_node, add_text, fits_text, turn, loop,
  rounds, rounds_items, rounds_members, no_tally, validate_shape,
}

-- What a walk gives: the tally after it.
pub data Outcome : Type 0 where
  passed : Tally → Outcome
  stopped : Refusal → Outcome

abbrev pub followed : Outcome → (Tally → Outcome) → Outcome
followed (passed t) rest = rest t
followed (stopped r) rest = stopped r

abbrev pub verdict_of : Outcome → (Tally → Verdict) → Verdict
verdict_of (passed t) rest = rest t
verdict_of (stopped r) rest = refused r

module _ (limits : Limits) where
  -- The tests that each value meets first.
  abbrev pub entering : ℕ → Tally → (Tally → Outcome) → Outcome
  entering d t rest =
      if counted limits t d then rest (next_node limits t) else stopped (count_refusal limits t)

  abbrev pub after_text : Tally → Outcome
  after_text t = if fits_text limits t then passed t else stopped max_request_bytes

  abbrev mutual
    -- A value that stands at a depth, within the containers of a path.
    pub walk : Value → ℕ → List ℕ → Tally → Outcome
    walk nothing d path t = entering d t passed
    walk (boolean b) d path t = entering d t passed
    walk (integer n) d path t = entering d t passed
    walk (float finite) d path t =
        entering d t (λ t₁. if finite then passed t₁ else stopped not_finite)
    walk (text s) d path t = entering d t (λ t₁. after_text (add_text limits s t₁))
    walk (array i vs) d path t =
        entering d t
          (λ t₁. if among i path then stopped circular else walk_items vs d (i ∷ path) t₁)
    walk (object i ms) d path t = entering d t (λ t₁.
        if among i path
        then stopped circular
        else if text_keys ms
        then walk_members ms d (i ∷ path) t₁
        else stopped key_not_text)
    walk alien d path t = entering d t (λ t₁. stopped non_json)

    pub walk_items : Items → ℕ → List ℕ → Tally → Outcome
    walk_items nil d path t = passed t
    walk_items (cons v vs) d path t = followed (walk v (d + 1) path t) (walk_items vs d path)

    -- The last member first, and its key before its value.
    pub walk_members : Members → ℕ → List ℕ → Tally → Outcome
    walk_members end d path t = passed t
    walk_members (member k v ms) d path t =
        followed (walk_members ms d path t)
          (λ t₁. followed (walk k (d + 1) path t₁) (walk v (d + 1) path))

  -- What a value gives once it is counted.
  abbrev pub entered : Value → ℕ → List ℕ → Tally → Outcome
  entered nothing d path t = passed t
  entered (boolean b) d path t = passed t
  entered (integer n) d path t = passed t
  entered (float finite) d path t = if finite then passed t else stopped not_finite
  entered (text s) d path t = after_text (add_text limits s t)
  entered (array i vs) d path t =
      if among i path then stopped circular else walk_items vs d (i ∷ path) t
  entered (object i ms) d path t =
      if among i path
      then stopped circular
      else if text_keys ms
      then walk_members ms d (i ∷ path) t
      else stopped key_not_text
  entered alien d path t = stopped non_json

  discard_absent : (i : ℕ) (path : List ℕ) → among i path ≡ false → discard i path ≡ path
  discard_absent i [] h = refl
  discard_absent i (j ∷ js) h = ground (arith, h, discard_absent i js)

  discard_first : (i : ℕ) (path : List ℕ) → among i path ≡ false → discard i (i ∷ path) ≡ path
  discard_first i path h = ground (arith, h, discard_absent i path h)

  verdict_of-followed :
      (o : Outcome) (f : Tally → Outcome) (rest : Tally → Verdict)
      → verdict_of (followed o f) rest ≡ verdict_of o (λ t. verdict_of (f t) rest)
  verdict_of-followed (passed t) f rest = refl
  verdict_of-followed (stopped r) f rest = refl

  verdict_of-eq :
      (o : Outcome) (f g : Tally → Verdict)
      → ((t : Tally) → f t ≡ g t)
      → verdict_of o f ≡ verdict_of o g
  verdict_of-eq (passed t) f g h = h t
  verdict_of-eq (stopped r) f g h = refl

  abbrev going : ℕ → List ℕ → List Frame → Tally → Verdict
  going fuel path stack t = loop limits fuel t path stack

  -- The end of a container takes it out of the active ones.
  leave :
      (fuel : ℕ) (t : Tally) (i : ℕ) (path : List ℕ) (stack : List Frame)
      → among i path ≡ false
      → loop limits (suc fuel) t (i ∷ path) (exiting i ∷ stack) ≡ loop limits fuel t path stack
  unfolding loop
  leave fuel t i path stack h =
      ap (λ active. loop limits fuel t active stack) (discard_first i path h)

  loop-empty : (t : Tally) → loop limits 0 t [] [] ≡ accepted
  unfolding loop
  loop-empty t = refl

  -- A test that stops the walk, and one that lets it go on.
  refusing :
      (b : Bool) (r : Refusal) {x : Verdict} (o : Outcome) (k : Tally → Verdict)
      → (b ≡ false → x ≡ verdict_of o k)
      → (if b then refused r else x) ≡ verdict_of (if b then stopped r else o) k
  refusing true r o k h = refl
  refusing false r o k h = h refl

  allowing :
      (b : Bool) (r : Refusal) {x : Verdict} (o : Outcome) (k : Tally → Verdict)
      → x ≡ verdict_of o k
      → (if b then x else refused r) ≡ verdict_of (if b then o else stopped r) k
  allowing true r o k h = h
  allowing false r o k h = refl

  enter-walk :
      (v : Value) (d fuel n extra : ℕ) (t : Tally) (path : List ℕ) (stack : List Frame)
      → n ≡ suc extra
      → ((t₁ : Tally)
          → turn limits (loop limits extra) t₁ path v d stack
            ≡ verdict_of (entered v d path t₁) (going fuel path stack))
      → loop limits n t path (enter v d ∷ stack)
        ≡ verdict_of (entering d t (entered v d path)) (going fuel path stack)
  unfolding loop
  enter-walk v d fuel n extra t path stack e h =
      ap (λ m. loop limits m t path (enter v d ∷ stack)) e
      ∙ elim (Bool-cases (counted limits t d)) [
        | inl c ↦ rw c (h (next_node limits t))
        | inr k ↦ rw k refl
      ]

  container-walk :
      (fuel n i : ℕ) (t : Tally) (path : List ℕ) (stack pushed : List Frame) (o : Outcome)
      → among i path ≡ false
      → ((extra : ℕ)
          → loop limits (n + extra) t (i ∷ path) pushed
            ≡ verdict_of o (λ t₁. loop limits extra t₁ (i ∷ path) (exiting i ∷ stack)))
      → loop limits (suc (n + fuel)) t (i ∷ path) pushed
        ≡ verdict_of o (λ t₁. loop limits fuel t₁ path stack)
  container-walk fuel n i t path stack pushed o h inner =
      ap (λ m. loop limits m t (i ∷ path) pushed) (omega arith)
      ∙ inner (suc fuel)
      ∙ verdict_of-eq o _ _ (λ t₁. leave fuel t₁ i path stack h)

  mutual
    loop-walk :
        (v : Value) (d fuel : ℕ) (t : Tally) (path : List ℕ) (stack : List Frame)
        → loop limits (rounds v + fuel) t path (enter v d ∷ stack)
          ≡ verdict_of (walk v d path t) (λ t₁. loop limits fuel t₁ path stack)
    loop-walk nothing d fuel t path stack =
        enter-walk nothing d fuel _ fuel t path stack (omega arith) (λ t₁. refl)
    loop-walk (boolean b) d fuel t path stack =
        enter-walk (boolean b) d fuel _ fuel t path stack (omega arith) (λ t₁. refl)
    loop-walk (integer n) d fuel t path stack =
        enter-walk (integer n) d fuel _ fuel t path stack (omega arith) (λ t₁. refl)
    loop-walk (float finite) d fuel t path stack =
        enter-walk (float finite) d fuel _ fuel t path stack (omega arith)
          (λ t₁. allowing finite not_finite (passed t₁) (going fuel path stack) refl)
    loop-walk (text s) d fuel t path stack =
        enter-walk (text s) d fuel _ fuel t path stack (omega arith) (λ t₁.
          let t₂ = add_text limits s t₁ in
          allowing (fits_text limits t₂) max_request_bytes (passed t₂) (going fuel path stack) refl)
    loop-walk (array i vs) d fuel t path stack =
        enter-walk (array i vs) d fuel _ (suc (rounds_items vs + fuel)) t path stack (omega arith)
          (λ t₁.
            refusing (among i path) circular (walk_items vs d (i ∷ path) t₁) (going fuel path stack)
              (λ n.
                container-walk fuel (rounds_items vs) i t₁ path stack
                  (push_items vs d (exiting i ∷ stack)) (walk_items vs d (i ∷ path) t₁) n
                  (λ extra. loop-walk_items vs d extra t₁ (i ∷ path) (exiting i ∷ stack))))
    loop-walk (object i ms) d fuel t path stack =
        enter-walk (object i ms) d fuel _ (suc (rounds_members ms + fuel)) t path stack
          (omega arith)
          (λ t₁.
            refusing (among i path) circular
              (if text_keys ms then walk_members ms d (i ∷ path) t₁ else stopped key_not_text)
              (going fuel path stack)
              (λ n.
                allowing (text_keys ms) key_not_text (walk_members ms d (i ∷ path) t₁)
                  (going fuel path stack)
                  (container-walk fuel (rounds_members ms) i t₁ path stack
                    (push_members ms d (exiting i ∷ stack)) (walk_members ms d (i ∷ path) t₁) n
                    (λ extra. loop-walk_members ms d extra t₁ (i ∷ path) (exiting i ∷ stack)))))
    loop-walk alien d fuel t path stack =
        enter-walk alien d fuel _ fuel t path stack (omega arith) (λ t₁. refl)

    loop-walk_items :
        (vs : Items) (d fuel : ℕ) (t : Tally) (path : List ℕ) (stack : List Frame)
        → loop limits (rounds_items vs + fuel) t path (push_items vs d stack)
          ≡ verdict_of (walk_items vs d path t) (λ t₁. loop limits fuel t₁ path stack)
    loop-walk_items nil d fuel t path stack = ap (λ m. loop limits m t path stack) (omega arith)
    loop-walk_items (cons v vs) d fuel t path stack =
        ap (λ m. loop limits m t path (enter v (d + 1) ∷ push_items vs d stack)) (omega arith)
        ∙ loop-walk v (d + 1) (rounds_items vs + fuel) t path (push_items vs d stack)
        ∙ verdict_of-eq (walk v (d + 1) path t) _ _ (λ t₁. loop-walk_items vs d fuel t₁ path stack)
        ∙ sym (
            verdict_of-followed (walk v (d + 1) path t) (walk_items vs d path)
              (going fuel path stack))

    loop-walk_members :
        (ms : Members) (d fuel : ℕ) (t : Tally) (path : List ℕ) (stack : List Frame)
        → loop limits (rounds_members ms + fuel) t path (push_members ms d stack)
          ≡ verdict_of (walk_members ms d path t) (λ t₁. loop limits fuel t₁ path stack)
    loop-walk_members end d fuel t path stack = ap (λ m. loop limits m t path stack) (omega arith)
    loop-walk_members (member k v ms) d fuel t path stack =
        ap
          (λ m.
            loop limits m t path (push_members ms d (enter k (d + 1) ∷ enter v (d + 1) ∷ stack)))
          (omega arith)
        ∙ loop-walk_members ms d (rounds k + (rounds v + fuel)) t path
            (enter k (d + 1) ∷ enter v (d + 1) ∷ stack)
        ∙ verdict_of-eq (walk_members ms d path t) _ _ (λ t₁.
          loop-walk k (d + 1) (rounds v + fuel) t₁ path (enter v (d + 1) ∷ stack)
          ∙ verdict_of-eq (walk k (d + 1) path t₁) _ _
              (λ t₂. loop-walk v (d + 1) fuel t₂ path stack)
          ∙ sym (
              verdict_of-followed (walk k (d + 1) path t₁) (walk v (d + 1) path)
                (going fuel path stack)))
        ∙ sym (
            verdict_of-followed (walk_members ms d path t)
              (λ t₁. followed (walk k (d + 1) path t₁) (walk v (d + 1) path))
              (going fuel path stack))

-- `_validate_shape` always ends, and gives what the recursive walk gives.
pub validate_shape-walk :
    (limits : Limits) (v : Value)
    → validate_shape limits v ≡ verdict_of (walk limits v 0 [] no_tally) (λ t. accepted)
unfolding validate_shape loop
validate_shape-walk limits v =
    ap (λ m. loop limits m no_tally [] (enter v 0 ∷ [])) (omega arith)
    ∙ loop-walk limits v 0 0 no_tally [] []
    ∙ verdict_of-eq limits (walk limits v 0 [] no_tally) _ _ (λ t. loop-empty limits t)
