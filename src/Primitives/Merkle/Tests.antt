-- ===== src/Primitives/Merkle/Tests.antt =====
-- The root of three hashes and of the four in which the last is repeated.
use nexus_chain.Base.{◌≡◌, [], ◌∷◌, some, sum}
use nexus_chain.Primitives.Merkle.{Hash, compute_merkle_root}
use nexus_chain.Primitives.Merkle.Root.{compute_merkle_root_lem}

compute_merkle_root_lem_example :
    ((root : Hash) × (compute_merkle_root sum (1 ∷ 2 ∷ 3 ∷ 4 ∷ 5 ∷ []) ≡ some root))
    × (compute_merkle_root sum (7 ∷ 8 ∷ 9 ∷ []) ≡ compute_merkle_root sum (7 ∷ 8 ∷ 9 ∷ 9 ∷ []))
compute_merkle_root_lem_example = compute_merkle_root_lem sum (1 ∷ 2 ∷ 3 ∷ 4 ∷ 5 ∷ []) (7, 8) [] 9
