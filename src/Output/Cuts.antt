-- ===== src/Output/Cuts.antt =====
-- What `_trim_error_envelope` (src/math_anchor/output_policy.py) may cut an error to, as a list of values,
-- and that it takes the first of them that fits.
use Prim.Native.String.{String, ◌++◌ as ◌+++◌}
use math_anchor.Obligations.Answers.{prefix}
use math_anchor.Base.{
  ℕ, ◌≡◌, ◌≤◌, ◌<◌, refl, ap, ◌∙◌, arith, ◌⊎◌, inl, inr, true, false, Option, none, some, List, [],
  ◌∷◌, Bool, Bool-cases, leb→le, leb, All, if◌then◌else◌,
}
use math_anchor.Base.Json.{
  Json, null, boolean, integer, float, string, array, object, Fields, get_field, drop_field, str_eq,
}
use math_anchor.Output.{
  set_field, with_error, shortened, message_limits, first_fitting, shorten_message, trim_error,
  trim_error_envelope,
}

-- What an error may be cut to, the largest first: the error without its details, then with its message
-- cut to 512 characters, to 256 and so on, and to none, each but the last marked as cut.
abbrev with_message : Fields → Fields → String → Json
with_message error fs m = with_error (set_field "message" (string m) error) fs

abbrev pub cut_messages : Option Json → Fields → Fields → List Json
cut_messages (some (string m)) error fs =
    if str_eq m ""
    then []
    else with_message error fs (prefix 512 m +++ "…")
      ∷ with_message error fs (prefix 256 m +++ "…")
      ∷ with_message error fs (prefix 128 m +++ "…")
      ∷ with_message error fs (prefix 64 m +++ "…")
      ∷ with_message error fs (prefix 32 m +++ "…")
      ∷ with_message error fs (prefix 16 m +++ "…")
      ∷ with_message error fs (prefix 8 m +++ "…")
      ∷ with_message error fs (prefix 0 m +++ "")
      ∷ []
cut_messages _ error fs = []

abbrev pub cut_error : Option Json → Fields → List Json
cut_error (some (object error)) fs =
    let bare = drop_field "details" error in
    with_error bare fs ∷ cut_messages (get_field "message" bare) bare fs
cut_error _ fs = []

abbrev pub cuts : Json → List Json
cuts (object fs) = cut_error (get_field "error" fs) fs
cuts _ = []

module _ (size : Json → ℕ) (max_output_bytes : ℕ) where
  -- The first of some values that fits, or else the given one.
  abbrev pub first_within : List Json → Json → Json
  first_within [] other = other
  first_within (v ∷ vs) other =
      let rest = first_within vs other in if leb (size v) max_output_bytes then v else rest

  abbrev pub TooLarge : Json → Type 0
  TooLarge v = max_output_bytes < size v

  abbrev pub or_else : Option Json → Json → Json
  or_else none other = other
  or_else (some v) other = v

  if-or_else :
      (b : Bool) (v other : Json) (o : Option Json)
      → or_else (if b then some v else o) other ≡ (if b then v else or_else o other)
  if-or_else true v other o = refl
  if-or_else false v other o = refl

  shorten_message-within :
      (message : Option Json) (error fs : Fields) (other : Json)
      → or_else (shorten_message size max_output_bytes message error fs) other
        ≡ first_within (cut_messages message error fs) other
  shorten_message-within (some (string m)) error fs other = elim (Bool-cases (str_eq m "")) [
    | inl e ↦ rw e refl
    | inr n ↦ rw n (first_fitting-within m)
  ]
    where
      -- the limits, one after the other
      step :
          (m : String) (k : ℕ) (ks : List ℕ) {w : Json}
          → or_else (first_fitting size max_output_bytes m error fs ks) other ≡ w
          → or_else (first_fitting size max_output_bytes m error fs (k ∷ ks)) other ≡ (
              if leb (size (with_message error fs (shortened m k))) max_output_bytes
              then with_message error fs (shortened m k)
              else w)
      step m k ks e =
          if-or_else (leb (size (with_message error fs (shortened m k))) max_output_bytes)
            (with_message error fs (shortened m k)) other
            (first_fitting size max_output_bytes m error fs ks)
          ∙ ap
              (λ w.
                if leb (size (with_message error fs (shortened m k))) max_output_bytes
                then with_message error fs (shortened m k)
                else w)
              e

      first_fitting-within :
          (m : String)
          → or_else (first_fitting size max_output_bytes m error fs message_limits) other
            ≡ first_within
                (with_message error fs (prefix 512 m +++ "…")
                  ∷ with_message error fs (prefix 256 m +++ "…")
                  ∷ with_message error fs (prefix 128 m +++ "…")
                  ∷ with_message error fs (prefix 64 m +++ "…")
                  ∷ with_message error fs (prefix 32 m +++ "…")
                  ∷ with_message error fs (prefix 16 m +++ "…")
                  ∷ with_message error fs (prefix 8 m +++ "…")
                  ∷ with_message error fs (prefix 0 m +++ "")
                  ∷ [])
                other
      first_fitting-within m = step m 512 (256 ∷ 128 ∷ 64 ∷ 32 ∷ 16 ∷ 8 ∷ 0 ∷ []) (
          step m 256 (128 ∷ 64 ∷ 32 ∷ 16 ∷ 8 ∷ 0 ∷ []) (
            step m 128 (64 ∷ 32 ∷ 16 ∷ 8 ∷ 0 ∷ []) (
              step m 64 (32 ∷ 16 ∷ 8 ∷ 0 ∷ []) (
                step m 32 (16 ∷ 8 ∷ 0 ∷ [])
                  (step m 16 (8 ∷ 0 ∷ []) (step m 8 (0 ∷ []) (step m 0 [] refl)))))))
  shorten_message-within none error fs other = refl
  shorten_message-within (some null) error fs other = refl
  shorten_message-within (some (boolean b)) error fs other = refl
  shorten_message-within (some (integer n)) error fs other = refl
  shorten_message-within (some (float i finite)) error fs other = refl
  shorten_message-within (some (array xs)) error fs other = refl
  shorten_message-within (some (object es)) error fs other = refl

  trim_error-within :
      (e : Option Json) (fs : Fields) (other : Json)
      → or_else (trim_error size max_output_bytes e fs) other ≡ first_within (cut_error e fs) other
  trim_error-within (some (object error)) fs other =
      let bare = drop_field "details" error in
      if-or_else (leb (size (with_error bare fs)) max_output_bytes) (with_error bare fs) other
        (shorten_message size max_output_bytes (get_field "message" bare) bare fs)
      ∙ ap (λ w. if leb (size (with_error bare fs)) max_output_bytes then with_error bare fs else w)
          (shorten_message-within (get_field "message" bare) bare fs other)
  trim_error-within none fs other = refl
  trim_error-within (some null) fs other = refl
  trim_error-within (some (boolean b)) fs other = refl
  trim_error-within (some (integer n)) fs other = refl
  trim_error-within (some (float i finite)) fs other = refl
  trim_error-within (some (array xs)) fs other = refl
  trim_error-within (some (string m)) fs other = refl

  pub trim_error_envelope-within :
      (envelope other : Json)
      → or_else (trim_error_envelope size max_output_bytes envelope) other
        ≡ first_within (cuts envelope) other
  unfolding trim_error_envelope
  trim_error_envelope-within (object fs) other = trim_error-within (get_field "error" fs) fs other
  trim_error_envelope-within null other = refl
  trim_error_envelope-within (boolean b) other = refl
  trim_error_envelope-within (integer n) other = refl
  trim_error_envelope-within (float i finite) other = refl
  trim_error_envelope-within (array xs) other = refl
  trim_error_envelope-within (string m) other = refl

  -- The other one where none of the values fits, and otherwise one of them, which fits.
  pub within-cases {κ} :
      (P : Json → Type κ) (vs : List Json) (other : Json)
      → All P vs
      → ((size (first_within vs other) ≤ max_output_bytes) × P (first_within vs other))
        ⊎ ((first_within vs other ≡ other) × All TooLarge vs)
  within-cases P [] other h = inr (refl, tt)
  within-cases P (v ∷ vs) other (own, rest) = elim (Bool-cases (leb (size v) max_output_bytes)) [
    | inl f ↦ inl (rw f (leb→le _ _ f, own))
    | inr n ↦
        let large : max_output_bytes < size v = ground arith in
        rw n (later large (within-cases P vs other rest))
  ]
    where
      later :
          {w : Json}
          → max_output_bytes < size v
          → ((size w ≤ max_output_bytes) × P w) ⊎ ((w ≡ other) × All TooLarge vs)
          → ((size w ≤ max_output_bytes) × P w) ⊎ ((w ≡ other) × (TooLarge v × All TooLarge vs))
      later large (inl f) = inl f
      later large (inr (e, more)) = inr (e, (large, more))
