-- ===== src/Obligations.antt =====
-- Obligations and `_dependency_layers` of src/math_anchor/obligations.py. Ids are numbers, and sets
-- are lists.
pub mod Layers
pub mod Acyclic
pub mod Answers
pub mod Entries
pub mod Findings
pub mod Check
pub mod Growth
pub mod Rounds
pub mod Runs
pub mod Gating
pub mod Receipts
pub mod Replay
pub mod Identities
use Prim.Native.String.{String}
use math_anchor.Base.Json.{Json}
use math_anchor.Base.{
  Option, ℕ, zero, suc, Bool, true, false, ◌&&◌, not, List, [], ◌∷◌, ◌++◌, ◌==◌, if◌then◌else◌, map,
  length, Result, ok, err, e_input, e_runtime, ◌>>=◌,
}

-- `other` is a kind that no provider is registered for.
pub data Kind : Type 0 where
  polynomial_identity expression_equivalence dimension_consistency : Kind
  local_almost_complex_integrability : Kind
  other : String → Kind

pub record Obligation : Type 0 where
  pub id : ℕ
  pub kind : Kind
  pub claim : Json
  pub assumption_set : Option ℕ
  pub depends_on : List ℕ

-- i in ids
abbrev pub mem : ℕ → List ℕ → Bool
mem i [] = false
mem i (j ∷ js) = if i == j then true else mem i js

-- ids <= completed
abbrev pub subset : List ℕ → List ℕ → Bool
subset [] completed = true
subset (d ∷ ds) completed = mem d completed && subset ds completed

abbrev pub ready : List ℕ → List ℕ → Obligation → Bool
ready pending completed o = mem o.id pending && subset o.depends_on completed

-- The comprehension that makes a layer.
abbrev pub layer_of : List ℕ → List ℕ → List Obligation → List Obligation
layer_of pending completed [] = []
layer_of pending completed (o ∷ os) =
    let rest = layer_of pending completed os in if ready pending completed o then o ∷ rest else rest

-- pending - ids
abbrev pub minus : List ℕ → List ℕ → List ℕ
minus [] ids = []
minus (i ∷ is) ids = let rest = minus is ids in if mem i ids then rest else i ∷ rest

abbrev pub ids_of : List Obligation → List ℕ
ids_of [] = []
ids_of (o ∷ os) = o.id ∷ ids_of os

abbrev pub prepend :
    List Obligation → Result (List (List Obligation)) → Result (List (List Obligation))
prepend layer (ok layers) = ok (layer ∷ layers)
prepend layer (err code) = err code

-- One round of the loop, by the layer that it found and what the next rounds give.
abbrev pub round :
    List Obligation → Result (List (List Obligation)) → Result (List (List Obligation))
round [] rest = err e_input
round (o ∷ os) rest = prepend (o ∷ os) rest

-- The loop `while pending`, on fuel: each round that goes on takes an id away.
unfoldable pub layers_from : ℕ → List Obligation → List ℕ → List ℕ → Result (List (List Obligation))
layers_from fuel os [] completed = ok []
layers_from zero os (i ∷ is) completed = err e_runtime
layers_from (suc fuel) os (i ∷ is) completed =
    let layer = layer_of (i ∷ is) completed os in
    round layer (layers_from fuel os (minus (i ∷ is) (ids_of layer)) (ids_of layer ++ completed))

unfoldable pub dependency_layers : List Obligation → Result (List (List Obligation))
unfolding layers_from
dependency_layers os = layers_from (length os) os (ids_of os) []
