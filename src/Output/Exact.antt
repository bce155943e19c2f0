-- ===== src/Output/Exact.antt =====
-- What `apply_output_policy` (src/math_anchor/output_policy.py) leaves of an answer.
use Prim.Native.String.{String}
use math_anchor.Base.{
  ℕ, ◌≡◌, ◌≤◌, ◌<◌, leb→le, refl, ap, ap₂, ◌∙◌, arith, ◌⊎◌, inl, inr, Bool, true, false, ◌&&◌, not,
  if◌then◌else◌, Bool-cases,
}
use math_anchor.Base.Json.{
  Json, null, boolean, integer, float, string, array, object, Items, nil, cons, Fields, end, field,
  get, is_text, str_eq,
}
use math_anchor.Output.{
  set_field, redundant, drop_redundant, drop_redundant_items, drop_redundant_fields, drop_all,
  drop_all_items, drop_all_fields, fits, is_answer, by_mode, chosen, limit_failure,
  apply_output_policy,
}

-- A value that is dropped twice over.
set_field-twice :
    (name : String) (fs : Fields)
    → set_field name null (drop_all_fields name (set_field name null fs))
      ≡ set_field name null (drop_all_fields name fs)
set_field-twice name end = refl
set_field-twice name (field j v fs) = elim (Bool-cases (str_eq j name)) [
  | inl e ↦ rw (e, set_field-twice name fs) refl
  | inr n ↦ rw (n, set_field-twice name fs) refl
]

dropping :
    (b : Bool) (name : String) (fs : Fields)
    → set_field name null (drop_all_fields name (if b then set_field name null fs else fs))
      ≡ set_field name null (drop_all_fields name fs)
dropping true name fs = set_field-twice name fs
dropping false name fs = refl

-- Nothing but values of the name is dropped.
mutual
  drop_all-drop_redundant :
      (name counterpart : String) (v : Json)
      → drop_all name (drop_redundant name counterpart v) ≡ drop_all name v
  drop_all-drop_redundant name counterpart (object fs) = ap object (
      dropping (redundant name counterpart fs) name (drop_redundant_fields name counterpart fs)
      ∙ ap (set_field name null) (drop_all-drop_redundant_fields name counterpart fs))
  drop_all-drop_redundant name counterpart (array xs) =
      ap array (drop_all-drop_redundant_items name counterpart xs)
  drop_all-drop_redundant name counterpart null = refl
  drop_all-drop_redundant name counterpart (boolean b) = refl
  drop_all-drop_redundant name counterpart (integer n) = refl
  drop_all-drop_redundant name counterpart (float i finite) = refl
  drop_all-drop_redundant name counterpart (string s) = refl

  drop_all-drop_redundant_items :
      (name counterpart : String) (xs : Items)
      → drop_all_items name (drop_redundant_items name counterpart xs) ≡ drop_all_items name xs
  drop_all-drop_redundant_items name counterpart nil = refl
  drop_all-drop_redundant_items name counterpart (cons x xs) =
      ap₂ cons (drop_all-drop_redundant name counterpart x)
        (drop_all-drop_redundant_items name counterpart xs)

  drop_all-drop_redundant_fields :
      (name counterpart : String) (fs : Fields)
      → drop_all_fields name (drop_redundant_fields name counterpart fs) ≡ drop_all_fields name fs
  drop_all-drop_redundant_fields name counterpart end = refl
  drop_all-drop_redundant_fields name counterpart (field j v fs) =
      ap₂ (field j) (drop_all-drop_redundant name counterpart v)
        (drop_all-drop_redundant_fields name counterpart fs)

-- A value but for its approximations.
abbrev pub exact_part : Json → Json
exact_part v = drop_all "approx" v

module _ (size : Json → ℕ) (max_output_bytes : ℕ) where
  by_mode-exact :
      (result_mode : String) (result : Json)
      → str_eq result_mode "approx" ≡ false
      → exact_part (by_mode size max_output_bytes result_mode result) ≡ exact_part result
  by_mode-exact result_mode result h = elim (Bool-cases (is_answer size max_output_bytes result)) [
    | inr n ↦ rw n refl
    | inl a ↦ elim (Bool-cases (str_eq result_mode "exact")) [
      | inl e ↦ rw (a, e) (drop_all-drop_redundant "approx" "exact" result)
      | inr n ↦ rw (a, n, h) refl
    ]
  ]

  chosen-exact :
      (result_mode : String) (result : Json)
      → str_eq result_mode "approx" ≡ false
      → exact_part (chosen size max_output_bytes result_mode result) ≡ exact_part result
  chosen-exact result_mode result h =
      let selected = by_mode size max_output_bytes result_mode result in
      choosing
        (is_answer size max_output_bytes result
          && str_eq result_mode "auto"
          && not (fits size max_output_bytes selected))
        selected
      ∙ by_mode-exact result_mode result h
    where
      choosing :
          (b : Bool) (v : Json)
          → exact_part (if b then drop_redundant "approx" "exact" v else v) ≡ exact_part v
      choosing true v = drop_all-drop_redundant "approx" "exact" v
      choosing false v = refl

  -- A result that is no error, in a mode other than "approx", comes back within the limit of bytes
  -- and with nothing but values of "approx" left out, or as the failure E_OUTPUT_LIMIT where it does
  -- not fit.
  pub apply_output_policy-exact :
      (result_mode : String) (result : Json)
      → str_eq result_mode "approx" ≡ false
      → is_text (get "status" result) "error" ≡ false
      → ((exact_part (apply_output_policy size max_output_bytes result_mode result)
            ≡ exact_part result)
          × (size (apply_output_policy size max_output_bytes result_mode result)
              ≤ max_output_bytes))
        ⊎ ((apply_output_policy size max_output_bytes result_mode result
              ≡ limit_failure size max_output_bytes result_mode
                  (chosen size max_output_bytes result_mode result))
            × (max_output_bytes < size (chosen size max_output_bytes result_mode result)))
  unfolding apply_output_policy
  apply_output_policy-exact result_mode result h e =
      let selected = chosen size max_output_bytes result_mode result in
      elim (Bool-cases (fits size max_output_bytes selected)) [
        | inl f ↦ inl (rw f (chosen-exact result_mode result h, leb→le _ _ f))
        | inr n ↦ inr (rw (n, e) (refl, ground (arith, n)))
      ]
