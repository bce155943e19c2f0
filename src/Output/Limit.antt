-- ===== src/Output/Limit.antt =====
-- How `apply_output_policy` (src/math_anchor/output_policy.py) makes an error fit.
use Prim.Native.String.{String}
use text.Mathlib.TextEquality.{eq_iff}
use math_anchor.Base.{
  ℕ, ◌≡◌, ◌≤◌, refl, sym, ap, ◌∙◌, subst, ◌⊎◌, inl, inr, true, false, Option, none, some, ◌∷◌,
  Bool-cases, leb, All,
}
use math_anchor.Base.Json.{
  Json, null, boolean, integer, float, string, array, object, Fields, end, field, get, get_field,
  drop_field, is_text, str_eq, or_null,
}
use math_anchor.Output.Cuts.{
  cut_messages, cut_error, cuts, first_within, TooLarge, or_else, trim_error_envelope-within,
  within-cases,
}
use math_anchor.Output.{
  set_field, with_error, trim_error_envelope, limit_failure, chosen, trimmed, apply_output_policy,
}

-- error["code"] of an envelope
abbrev pub error_code : Json → Option Json
error_code envelope = get "code" (or_null (get "error" envelope))

get_field-set_field :
    (k : String) (v w : Json) (fs : Fields)
    → get_field k fs ≡ some w
    → get_field k (set_field k v fs) ≡ some v
get_field-set_field k v w end h = absurd (cc)
get_field-set_field k v w (field j u fs) h = elim (Bool-cases (str_eq j k)) [
  | inl e ↦ rw e refl
  | inr n ↦ rw n (get_field-set_field k v w fs (rw n at h))
]

get_field-set_field_other :
    (k m : String) (v : Json) (fs : Fields)
    → str_eq m k ≡ false
    → get_field k (set_field m v fs) ≡ get_field k fs
get_field-set_field_other k m v end h = refl
get_field-set_field_other k m v (field j u fs) h = elim (Bool-cases (str_eq j m)) [
  | inl e ↦
      let apart : str_eq j k ≡ false = subst (λ x. str_eq x k ≡ false) (sym ((eq_iff j m).0 e)) h in
      rw (apart, get_field-set_field_other k m v fs h) refl
  | inr n ↦ rw (n, get_field-set_field_other k m v fs h) refl
]

get_field-drop_field :
    (k m : String) (fs : Fields)
    → str_eq m k ≡ false
    → get_field k (drop_field m fs) ≡ get_field k fs
get_field-drop_field k m end h = refl
get_field-drop_field k m (field j u fs) h = elim (Bool-cases (str_eq j m)) [
  | inl e ↦
      let apart : str_eq j k ≡ false = subst (λ x. str_eq x k ≡ false) (sym ((eq_iff j m).0 e)) h in
      rw (e, apart) (get_field-drop_field k m fs h)
  | inr n ↦ rw (n, get_field-drop_field k m fs h) refl
]

-- An error has another status than an answer.
apart_status :
    (status : Option Json) (s t : String)
    → str_eq s t ≡ false
    → is_text status s ≡ true
    → is_text status t ≡ false
apart_status (some (string u)) s t h e = subst (λ x. str_eq x t ≡ false) (sym ((eq_iff u s).0 e)) h
apart_status none s t h e = absurd (cc)
apart_status (some null) s t h e = absurd (cc)
apart_status (some (boolean b)) s t h e = absurd (cc)
apart_status (some (integer n)) s t h e = absurd (cc)
apart_status (some (float i finite)) s t h e = absurd (cc)
apart_status (some (array xs)) s t h e = absurd (cc)
apart_status (some (object fs)) s t h e = absurd (cc)

-- The cuts of an error have its code.
module _ (fs error : Fields) (there : get_field "error" fs ≡ some (object error)) where
  with_error-code : (other : Fields) → error_code (with_error other fs) ≡ get_field "code" other
  with_error-code other =
      ap (λ x. get "code" (or_null x))
        (get_field-set_field "error" (object other) (object error) fs there)

  with_message-code :
      (other : Fields) (m : String)
      → error_code (with_error (set_field "message" (string m) other) fs) ≡ get_field "code" other
  with_message-code other m =
      with_error-code (set_field "message" (string m) other)
      ∙ get_field-set_field_other "code" "message" (string m) other refl

  cut_messages-code :
      (message : Option Json) (other : Fields)
      → All (λ v. error_code v ≡ get_field "code" other) (cut_messages message other fs)
  cut_messages-code (some (string m)) other = elim (Bool-cases (str_eq m "")) [
    | inl e ↦ rw e tt
    | inr n ↦
        let code = with_message-code other in
        rw n (code _, (code _, (code _, (code _, (code _, (code _, (code _, (code _, tt))))))))
  ]
  cut_messages-code none other = tt
  cut_messages-code (some null) other = tt
  cut_messages-code (some (boolean b)) other = tt
  cut_messages-code (some (integer n)) other = tt
  cut_messages-code (some (float i finite)) other = tt
  cut_messages-code (some (array xs)) other = tt
  cut_messages-code (some (object es)) other = tt

cut_error-code :
    (e : Option Json) (fs : Fields)
    → get_field "error" fs ≡ e
    → All (λ v. error_code v ≡ get "code" (or_null e)) (cut_error e fs)
cut_error-code (some (object error)) fs there =
    let bare = drop_field "details" error in
    let code : get_field "code" bare ≡ get_field "code" error =
      get_field-drop_field "code" "details" error refl in
    (
      with_error-code fs error there bare ∙ code,
      subst (λ c. All (λ v. error_code v ≡ c) (cut_messages (get_field "message" bare) bare fs))
          code (cut_messages-code fs error there (get_field "message" bare) bare),
    )
cut_error-code none fs there = tt
cut_error-code (some null) fs there = tt
cut_error-code (some (boolean b)) fs there = tt
cut_error-code (some (integer n)) fs there = tt
cut_error-code (some (float i finite)) fs there = tt
cut_error-code (some (array xs)) fs there = tt
cut_error-code (some (string m)) fs there = tt

cuts-code : (result : Json) → All (λ v. error_code v ≡ error_code result) (cuts result)
cuts-code (object fs) = cut_error-code (get_field "error" fs) fs refl
cuts-code null = tt
cuts-code (boolean b) = tt
cuts-code (integer n) = tt
cuts-code (float i finite) = tt
cuts-code (array xs) = tt
cuts-code (string m) = tt

module _ (size : Json → ℕ) (max_output_bytes : ℕ) where
  -- An envelope that fits and has a code.
  abbrev pub Fitting : Option Json → Json → Type 0
  Fitting code v = (size v ≤ max_output_bytes) × (error_code v ≡ code)

  -- An error is left as it is by the modes.
  chosen-error :
      (result_mode : String) (result : Json)
      → is_text (get "status" result) "error" ≡ true
      → chosen size max_output_bytes result_mode result ≡ result
  chosen-error result_mode result e =
      let a = apart_status (get "status" result) "error" "ok" refl e in
      let b = apart_status (get "status" result) "error" "uncertain" refl e in rw (a, b) refl

  trimmed-or_else :
      (result_mode : String) (selected : Json) (o : Option Json)
      → trimmed size max_output_bytes result_mode selected o
        ≡ or_else size max_output_bytes o (limit_failure size max_output_bytes result_mode selected)
  trimmed-or_else result_mode selected none = refl
  trimmed-or_else result_mode selected (some v) = refl

  -- An error comes back as the first of itself and its cuts that fits, or else as E_OUTPUT_LIMIT.
  apply_output_policy-first :
      (result_mode : String) (result : Json)
      → is_text (get "status" result) "error" ≡ true
      → apply_output_policy size max_output_bytes result_mode result
        ≡ first_within size max_output_bytes
            (result ∷ cuts result)
            (limit_failure size max_output_bytes result_mode result)
  unfolding apply_output_policy
  apply_output_policy-first result_mode result e =
      rw (chosen-error result_mode result e)
        (elim (Bool-cases (leb (size result) max_output_bytes)) [
          | inl f ↦ rw f refl
          | inr n ↦
              rw (n, e)
                (trimmed-or_else result_mode result
                    (trim_error_envelope size max_output_bytes result)
                  ∙ trim_error_envelope-within size max_output_bytes result
                      (limit_failure size max_output_bytes result_mode result))
        ])

  -- An error comes back as the first that fits of: itself, itself without its details, and that with
  -- its message cut to 512, 256, 128, 64, 32, 16, 8 and 0 characters, the mark of a cut after all but
  -- the last; so within the limit of bytes and with its own code. Only where none of these fits is
  -- it the failure E_OUTPUT_LIMIT. An error that is no dict, or a message that is no text or is empty,
  -- is not cut.
  pub apply_output_policy-error :
      (result_mode : String) (result : Json)
      → is_text (get "status" result) "error" ≡ true
      → (apply_output_policy size max_output_bytes result_mode result
          ≡ first_within size max_output_bytes
              (result ∷ cuts result)
              (limit_failure size max_output_bytes result_mode result))
        × (Fitting
              (error_code result)
              (apply_output_policy size max_output_bytes result_mode result)
            ⊎ ((apply_output_policy size max_output_bytes result_mode result
                  ≡ limit_failure size max_output_bytes result_mode result)
                × All (TooLarge size max_output_bytes) (result ∷ cuts result)))
  apply_output_policy-error result_mode result e =
      let first = apply_output_policy-first result_mode result e in
      (
        first,
        subst Settled (sym first) (
            within-cases size max_output_bytes (λ v. error_code v ≡ error_code result)
              (result ∷ cuts result) (limit_failure size max_output_bytes result_mode result)
              (refl, cuts-code result)),
      )
    where
      Settled : Json → Type 0
      Settled v =
          Fitting (error_code result) v
          ⊎ ((v ≡ limit_failure size max_output_bytes result_mode result)
              × All (TooLarge size max_output_bytes) (result ∷ cuts result))
