-- ===== src/Dag/Tips/Tests.antt =====
-- Parents in the graph of the tests of dag.rs.
use nexus_chain.Base.{◌≡◌, ◌↔◌, [], ◌∷◌, some, Result, ok}
use nexus_chain.Dag.Graph.Tests.{grown}
use nexus_chain.Dag.Tips.{TipValidationError, validate_parents}
use nexus_chain.Dag.Tips.Valid.{AreValid, validate_parents_iff}

-- Genesis is an ancestor of the other parent: the two are refused.
validate_parents_iff_example :
    (r : Result TipValidationError Unit) × (validate_parents grown (0 ∷ 16 ∷ []) ≡ some r)
    × ((r ≡ ok tt) ↔ AreValid grown (0 ∷ 16 ∷ []))
validate_parents_iff_example = validate_parents_iff grown (0 ∷ 16 ∷ [])
