-- ===== src/Transport.antt =====
-- `_validate_shape` and `encode_json_line` of src/math_anchor/transport_budget.py. A value is a tree whose containers carry
-- their identities, so that one that stands within itself shows as a repeated identity.
pub mod Walk
pub mod Counts
pub mod Passed
pub mod Budget
pub mod Line
use Prim.Native.Char.{code}
use Prim.Native.String.{String, ◌++◌ as ◌+++◌}
use math_anchor.Base.{
  ℕ, zero, suc, ◌+◌, ◌*◌, Bool, true, false, ◌&&◌, not, List, [], ◌∷◌, ltb, ◌==◌, if◌then◌else◌,
}
use math_anchor.Base.Int.{ℤ}

mutual
  pub data Value : Type 0 where
    nothing : Value
    boolean : Bool → Value
    integer : ℤ → Value
    -- whether it is finite
    float : Bool → Value
    text : String → Value
    array : ℕ → Items → Value
    object : ℕ → Members → Value
    -- of another type
    alien : Value

  pub data Items : Type 0 where
    nil : Items
    cons : Value → Items → Items

  -- The keys and the values of a dict, in its order.
  pub data Members : Type 0 where
    end : Members
    member : Value → Value → Members → Members

-- The rules of a `TransportBudgetError`, the `ValueError`s and the `TypeError`s.
pub data Refusal : Type 0 where
  max_request_nodes max_request_depth max_request_bytes : Refusal
  circular not_finite key_not_text non_json : Refusal

pub record Limits : Type 0 where
  pub max_bytes : ℕ
  pub max_nodes : ℕ
  pub max_depth : ℕ

pub record Tally : Type 0 where
  pub nodes : ℕ
  pub text_bytes : ℕ

-- len(char.encode("utf-8"))
abbrev pub utf8_width : ℕ → ℕ
utf8_width c = if ltb c 128 then 1 else if ltb c 2_048 then 2 else if ltb c 65_536 then 3 else 4

abbrev pub utf8_length : String → ℕ
utf8_length String.[] = 0
utf8_length (String.◌∷◌ c s) = utf8_width (code c) + utf8_length s

-- A frame of the stack: a value with its depth, or the end of a container.
pub data Frame : Type 0 where
  enter : Value → ℕ → Frame
  exiting : ℕ → Frame

pub data Verdict : Type 0 where
  accepted : Verdict
  refused : Refusal → Verdict
  -- the fuel is used up
  unfinished : Verdict

-- id(current) in active_containers
abbrev pub among : ℕ → List ℕ → Bool
among i [] = false
among i (j ∷ js) = if i == j then true else among i js

abbrev pub discard : ℕ → List ℕ → List ℕ
discard i [] = []
discard i (j ∷ js) = let rest = discard i js in if i == j then rest else j ∷ rest

abbrev pub push_items : Items → ℕ → List Frame → List Frame
push_items nil d stack = stack
push_items (cons v vs) d stack = enter v (d + 1) ∷ push_items vs d stack

abbrev pub is_text : Value → Bool
is_text (text s) = true
is_text _ = false

abbrev pub text_keys : Members → Bool
text_keys end = true
text_keys (member k v ms) = is_text k && text_keys ms

abbrev pub push_members : Members → ℕ → List Frame → List Frame
push_members end d stack = stack
push_members (member k v ms) d stack = push_members ms d (enter k (d + 1) ∷ enter v (d + 1) ∷ stack)

module _ (limits : Limits) where
  -- The tests that each value meets: how many there are, and how deep it stands.
  abbrev pub counted : Tally → ℕ → Bool
  counted t d = not (ltb limits.max_nodes (t.nodes + 1)) && not (ltb limits.max_depth d)

  abbrev pub count_refusal : Tally → Refusal
  count_refusal t =
      if ltb limits.max_nodes (t.nodes + 1) then max_request_nodes else max_request_depth

  abbrev pub next_node : Tally → Tally
  next_node t = record t { nodes = t.nodes + 1 }

  abbrev pub add_text : String → Tally → Tally
  add_text s t = record t { text_bytes = t.text_bytes + utf8_length s }

  abbrev pub fits_text : Tally → Bool
  fits_text t = not (ltb limits.max_bytes t.text_bytes)

  -- A value that was popped, its node counted: what `rest` does with the tally, the containers
  -- that are open and the stack.
  abbrev pub turn :
      (Tally → List ℕ → List Frame → Verdict) → Tally → List ℕ → Value → ℕ → List Frame → Verdict
  turn rest t active nothing d stack = rest t active stack
  turn rest t active (boolean b) d stack = rest t active stack
  turn rest t active (integer n) d stack = rest t active stack
  turn rest t active (float finite) d stack =
      if finite then rest t active stack else refused not_finite
  turn rest t active (text s) d stack =
      if fits_text (add_text s t)
      then rest (add_text s t) active stack
      else refused max_request_bytes
  turn rest t active (array i vs) d stack =
      if among i active
      then refused circular
      else rest t (i ∷ active) (push_items vs d (exiting i ∷ stack))
  turn rest t active (object i ms) d stack =
      if among i active
      then refused circular
      else if text_keys ms
      then rest t (i ∷ active) (push_members ms d (exiting i ∷ stack))
      else refused key_not_text
  turn rest t active alien d stack = refused non_json

  -- while stack: …
  unfoldable pub loop : ℕ → Tally → List ℕ → List Frame → Verdict
  loop fuel t active [] = accepted
  loop zero t active (frame ∷ stack) = unfinished
  loop (suc fuel) t active (exiting i ∷ stack) = loop fuel t (discard i active) stack
  loop (suc fuel) t active (enter v d ∷ stack) =
      if counted t d
      then turn (loop fuel) (next_node t) active v d stack
      else refused (count_refusal t)

-- The rounds that a value takes: one for each value in it, and one more for each container.
abbrev mutual
  pub rounds : Value → ℕ
  rounds nothing = 1
  rounds (boolean b) = 1
  rounds (integer n) = 1
  rounds (float finite) = 1
  rounds (text s) = 1
  rounds (array i vs) = 2 + rounds_items vs
  rounds (object i ms) = 2 + rounds_members ms
  rounds alien = 1

  pub rounds_items : Items → ℕ
  rounds_items nil = 0
  rounds_items (cons v vs) = rounds v + rounds_items vs

  pub rounds_members : Members → ℕ
  rounds_members end = 0
  rounds_members (member k v ms) = rounds_members ms + (rounds k + rounds v)

abbrev pub no_tally : Tally
no_tally = record { nodes = 0; text_bytes = 0 }

unfoldable pub validate_shape : Limits → Value → Verdict
unfolding loop
validate_shape limits v = loop limits (rounds v) no_tally [] (enter v 0 ∷ [])

-- The defaults of `encode_json_line`.
abbrev pub request_limits : Limits
request_limits = record { max_bytes = 8 * 1_024 * 1_024; max_nodes = 250_000; max_depth = 64 }

pub data Encoded : Type 0 where
  line : String → Encoded
  rejected : Refusal → Encoded
  no_answer : Encoded

-- The loop over the encoder's chunks: the bytes so far stay within the limit.
abbrev pub chunks_fit : ℕ → ℕ → List String → Bool
chunks_fit maximum n [] = true
chunks_fit maximum n (c ∷ cs) =
    let rest = chunks_fit maximum (n + utf8_length c) cs in
    if ltb maximum (n + utf8_length c) then false else rest

-- "".join(chunks) + "\n"
abbrev pub joined : List String → String
joined [] = "\n"
joined (c ∷ cs) = c +++ joined cs

abbrev pub encoded_chunks : Limits → List String → Verdict → Encoded
encoded_chunks limits chunks (refused r) = rejected r
encoded_chunks limits chunks unfinished = no_answer
encoded_chunks limits chunks accepted =
    if chunks_fit limits.max_bytes 1 chunks
    then line (joined chunks)
    else rejected max_request_bytes

-- `iterencode` stands for the encoder of the json module.
unfoldable pub encode_json_line : (Value → List String) → Limits → Value → Encoded
unfolding validate_shape
encode_json_line iterencode limits v =
    encoded_chunks limits (iterencode v) (validate_shape limits v)
