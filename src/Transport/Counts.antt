-- ===== src/Transport/Counts.antt =====
-- The counts of a value that is sent (src/math_anchor/transport_budget.py), and what JSON it is.
use math_anchor.Base.{ℕ, ◌+◌, ◌≤◌, ◌≡◌, true, false, List, ◌∷◌}
use math_anchor.Transport.{
  Value, nothing, boolean, integer, float, text, array, object, alien, Items, nil, cons, Members,
  end, member, Limits, Tally, among, text_keys, utf8_length,
}

abbrev mutual
  -- The values in a value, itself and its keys included.
  pub node_count : Value → ℕ
  node_count (array i vs) = 1 + node_count_items vs
  node_count (object i ms) = 1 + node_count_members ms
  node_count nothing = 1
  node_count (boolean b) = 1
  node_count (integer n) = 1
  node_count (float finite) = 1
  node_count (text s) = 1
  node_count alien = 1

  pub node_count_items : Items → ℕ
  node_count_items nil = 0
  node_count_items (cons v vs) = node_count v + node_count_items vs

  pub node_count_members : Members → ℕ
  node_count_members end = 0
  node_count_members (member k v ms) = node_count_members ms + (node_count k + node_count v)

abbrev mutual
  -- The bytes of its texts.
  pub byte_count : Value → ℕ
  byte_count (array i vs) = byte_count_items vs
  byte_count (object i ms) = byte_count_members ms
  byte_count nothing = 0
  byte_count (boolean b) = 0
  byte_count (integer n) = 0
  byte_count (float finite) = 0
  byte_count (text s) = utf8_length s
  byte_count alien = 0

  pub byte_count_items : Items → ℕ
  byte_count_items nil = 0
  byte_count_items (cons v vs) = byte_count v + byte_count_items vs

  pub byte_count_members : Members → ℕ
  byte_count_members end = 0
  byte_count_members (member k v ms) = byte_count_members ms + (byte_count k + byte_count v)

abbrev mutual
  -- JSON that stands at a depth of at most `limit`, within the containers of a path: finite numbers,
  -- texts for keys, and no container within itself.
  pub IsJson : ℕ → ℕ → List ℕ → Value → Type 0
  IsJson limit d path (array i vs) =
      (d ≤ limit) × (among i path ≡ false) × IsJsonItems limit d (i ∷ path) vs
  IsJson limit d path (object i ms) =
      (d ≤ limit)
      × (among i path ≡ false)
      × (text_keys ms ≡ true)
      × IsJsonMembers limit d (i ∷ path) ms
  IsJson limit d path nothing = d ≤ limit
  IsJson limit d path (boolean b) = d ≤ limit
  IsJson limit d path (integer n) = d ≤ limit
  IsJson limit d path (float finite) = (d ≤ limit) × (finite ≡ true)
  IsJson limit d path (text s) = d ≤ limit
  IsJson limit d path alien = ⊥

  pub IsJsonItems : ℕ → ℕ → List ℕ → Items → Type 0
  IsJsonItems limit d path nil = Unit
  IsJsonItems limit d path (cons v vs) = IsJson limit (d + 1) path v × IsJsonItems limit d path vs

  pub IsJsonMembers : ℕ → ℕ → List ℕ → Members → Type 0
  IsJsonMembers limit d path end = Unit
  IsJsonMembers limit d path (member k v ms) =
      IsJsonMembers limit d path ms × IsJson limit (d + 1) path k × IsJson limit (d + 1) path v

abbrev pub grown : ℕ → ℕ → Tally → Tally
grown n b t = record { nodes = t.nodes + n; text_bytes = t.text_bytes + b }

module _ (limits : Limits) where
  -- The tally is within the limits.
  abbrev pub Within : Tally → Type 0
  Within t = (t.nodes ≤ limits.max_nodes) × (t.text_bytes ≤ limits.max_bytes)

  -- A part that passes has the form `J`, and adds its counts to the tally.
  abbrev pub Added : ℕ → ℕ → Type 0 → Tally → Tally → Type 0
  Added n b J t t₁ = (t₁ ≡ grown n b t) × Within t₁ × J
