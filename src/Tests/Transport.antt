-- ===== src/Tests/Transport.antt =====
-- A request of one list under a key, and a list within itself.
use Prim.Native.String.{String}
use math_anchor.Base.{◌≡◌, refl, arith, true, List, [], ◌∷◌, ◌≤◌, ◌↔◌}
use math_anchor.Base.Int.{pos}
use math_anchor.Transport.{
  Value, integer, float, text, array, object, nil, cons, end, member, circular, max_request_depth,
  Limits, accepted, refused, no_tally, validate_shape, loop, line, encode_json_line, joined,
  utf8_length,
}
use math_anchor.Transport.Walk.{verdict_of, walk, validate_shape-walk}
use math_anchor.Transport.Counts.{node_count, byte_count, IsJson}
use math_anchor.Transport.Budget.{validate_shape-accepts}
use math_anchor.Transport.Line.{encode_json_line-line}

abbrev limits : Limits
limits = record { max_bytes = 64; max_nodes = 5; max_depth = 2 }

abbrev request : Value
request =
    object 1 (member (text "values") (array 2 (cons (integer (pos 3)) (cons (float true) nil))) end)

small_request : validate_shape limits request ≡ accepted
unfolding validate_shape loop
small_request = refl

-- The inner list is the outer one.
looped : validate_shape limits (array 1 (cons (array 1 nil) nil)) ≡ refused circular
unfolding validate_shape loop
looped = refl

too_deep :
    validate_shape limits (array 1 (cons (array 2 (cons (array 3 (cons (text "") nil)) nil)) nil))
    ≡ refused max_request_depth
unfolding validate_shape loop
too_deep = refl

abbrev chunks : Value → List String
chunks v = "{" ∷ "\"values\"" ∷ ":[3,1.0]" ∷ "}" ∷ []

one_line : encode_json_line chunks limits request ≡ line (joined (chunks request))
unfolding encode_json_line validate_shape loop
one_line = refl

validate_shape-walk_example :
    validate_shape limits request ≡ verdict_of (walk limits request 0 [] no_tally) (λ t. accepted)
validate_shape-walk_example = validate_shape-walk limits request

validate_shape-accepts_example :
    (validate_shape limits request ≡ accepted)
    ↔ ((node_count request ≤ 5) × (byte_count request ≤ 64) × IsJson 2 0 [] request)
validate_shape-accepts_example = validate_shape-accepts limits request

encode_json_line-line_example :
    (joined (chunks request) ≡ joined (chunks request))
    × (utf8_length (joined (chunks request)) ≤ 64)
    × (node_count request ≤ 5)
    × IsJson 2 0 [] request
encode_json_line-line_example = encode_json_line-line chunks limits request (omega arith) one_line
