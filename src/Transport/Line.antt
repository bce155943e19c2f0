-- ===== src/Transport/Line.antt =====
-- The lines that `encode_json_line` (src/math_anchor/transport_budget.py) gives.
use Prim.Native.String.append
use Prim.Native.String.{String, ◌++◌ as ◌+++◌}
use math_anchor.Base.{
  ℕ, ◌+◌, ◌≤◌, ◌≡◌, refl, ap, ◌∙◌, arith, true, List, [], ◌∷◌, ltb, Bool-cases, inl, inr,
}
use math_anchor.Transport.{
  Value, Limits, max_request_bytes, Verdict, accepted, refused, unfinished, utf8_length,
  validate_shape, line, rejected, chunks_fit, joined, encoded_chunks, encode_json_line,
}
use math_anchor.Transport.Counts.{node_count, IsJson}
use math_anchor.Transport.Budget.{validate_shape-accepts}

utf8_length-append : (s t : String) → utf8_length (s +++ t) ≡ utf8_length s + utf8_length t
utf8_length-append String.[] t = ap utf8_length (append.nil t) ∙ omega arith
utf8_length-append (String.◌∷◌ c s) t =
    ap utf8_length (append.cons c s t) ∙ omega (arith, utf8_length-append s t)

-- Chunks that fit after `n` bytes end within the limit, with the newline among the first ones.
chunks_fit-joined :
    (maximum n : ℕ) (chunks : List String)
    → n ≤ maximum
    → 1 ≤ n
    → chunks_fit maximum n chunks ≡ true
    → utf8_length (joined chunks) + n ≤ maximum + 1
chunks_fit-joined maximum n [] h k f = omega (arith, h)
chunks_fit-joined maximum n (c ∷ cs) h k f = elim (Bool-cases (ltb maximum (n + utf8_length c))) [
  | inl over ↦ cc
  | inr fits ↦ omega (
    arith,
    utf8_length-append c (joined cs),
    chunks_fit-joined maximum (n + utf8_length c) cs (ground (arith, fits)) (omega (arith, k))
        (rw fits at f),
  )
]

encoded_chunks-line :
    (limits : Limits) (chunks : List String) (verdict : Verdict) {s : String}
    → encoded_chunks limits chunks verdict ≡ line s
    → (verdict ≡ accepted) × (chunks_fit limits.max_bytes 1 chunks ≡ true) × (s ≡ joined chunks)
encoded_chunks-line limits chunks (refused r) h = absurd (cc)
encoded_chunks-line limits chunks unfinished h = absurd (cc)
encoded_chunks-line limits chunks accepted {s} h =
    elim (Bool-cases (chunks_fit limits.max_bytes 1 chunks)) [
      | inl f ↦ (refl, f, line_inj (rw f at h))
      | inr n ↦ absurd (ne (rw n at h))
    ]
  where
    line_inj : line (joined chunks) ≡ line s → s ≡ joined chunks
    line_inj k = cc

    ne : rejected max_request_bytes ≡ line s → ⊥
    ne k = cc

-- A line that `encode_json_line` gives is the chunks of the encoder with a newline, has no more bytes
-- than the limit, and is of a JSON value within the limits of nodes and depth. Assumed: the limit of
-- bytes is not 0.
pub encode_json_line-line :
    (iterencode : Value → List String) (limits : Limits) (v : Value) {s : String}
    → 1 ≤ limits.max_bytes
    → encode_json_line iterencode limits v ≡ line s
    → (s ≡ joined (iterencode v))
      × (utf8_length s ≤ limits.max_bytes)
      × (node_count v ≤ limits.max_nodes)
      × IsJson limits.max_depth 0 [] v
unfolding encode_json_line
encode_json_line-line iterencode limits v some_bytes h =
    let (ended, fit, e) = encoded_chunks-line limits (iterencode v) (validate_shape limits v) h in
    let within = (validate_shape-accepts limits v).0 ended in
    (
      e,
      rw e (
          omega (
            arith,
            chunks_fit-joined limits.max_bytes 1 (iterencode v) some_bytes (omega arith) fit,
          )),
      within.0,
      within.2,
    )
