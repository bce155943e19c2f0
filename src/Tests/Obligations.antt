-- ===== src/Tests/Obligations.antt =====
-- Requests of three and of two obligations.
use math_anchor.Base.{
  ℕ, none, ◌≡◌, ◌≢◌, refl, arith, true, List, [], ◌∷◌, All, ok, err, e_input, e_runtime,
}
use math_anchor.Base.Json.{null}
use math_anchor.Obligations.{
  dimension_consistency, Obligation, dependency_layers, ids_of, layers_from,
}
use math_anchor.Obligations.Layers.{
  dependency_layers-ends, Ordered, covers, dependency_layers-Ordered,
}
use math_anchor.Obligations.Acyclic.{dependency_layers-ok}

abbrev obligation : ℕ → List ℕ → Obligation
obligation i ds = record {
  id = i;
  kind = dimension_consistency;
  claim = null;
  assumption_set = none;
  depends_on = ds;
}

abbrev premise : Obligation
premise = obligation 1 ([])

abbrev lemma : Obligation
lemma = obligation 2 (1 ∷ [])

abbrev conclusion : Obligation
conclusion = obligation 3 (2 ∷ 1 ∷ [])

abbrev request : List Obligation
request = conclusion ∷ premise ∷ lemma ∷ []

abbrev layers : List (List Obligation)
layers = (premise ∷ []) ∷ (lemma ∷ []) ∷ (conclusion ∷ []) ∷ []

layered : dependency_layers request ≡ ok layers
unfolding dependency_layers layers_from
layered = refl

-- Two obligations that depend on each other.
cycle : dependency_layers (obligation 1 (2 ∷ []) ∷ obligation 2 (1 ∷ []) ∷ []) ≡ err e_input
unfolding dependency_layers layers_from
cycle = refl

dependency_layers-ends_example : dependency_layers request ≢ err e_runtime
dependency_layers-ends_example = dependency_layers-ends request

dependency_layers-Ordered_example :
    Ordered [] layers × All (λ i. covers i layers ≡ true) (ids_of request)
dependency_layers-Ordered_example = dependency_layers-Ordered request layered

dependency_layers-ok_example : (ls : List (List Obligation)) × (dependency_layers request ≡ ok ls)
dependency_layers-ok_example =
    dependency_layers-ok (λ i. i) request
      (((refl, omega arith), ((refl, omega arith), tt)), (tt, (((refl, omega arith), tt), tt)))
