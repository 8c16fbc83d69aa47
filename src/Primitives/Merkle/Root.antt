-- ===== src/Primitives/Merkle/Root.antt =====
-- The loop of `compute_merkle_root` of crypto.rs ends, and what its root does not tell apart.
use nexus_chain.Base.{
  ℕ, zero, suc, ◌+◌, ◌≤◌, ◌<◌, ◌≡◌, refl, ap, ◌∙◌, List, [], ◌∷◌, ◌++◌, some, arith, length,
  length-append,
}
use nexus_chain.Primitives.Merkle.{Hash, combine, next_level, merkle_loop, compute_merkle_root}

module _ (blake3 : List ℕ → Hash) where
  length-next_level :
      (a b : Hash) (rest : List Hash)
      → length (next_level blake3 (a ∷ b ∷ rest)) < length (a ∷ b ∷ rest)
  unfolding next_level
  length-next_level a b [] = omega arith
  length-next_level a b (c ∷ []) = omega arith
  length-next_level a b (c ∷ d ∷ rest) = omega (arith, length-next_level c d rest)

  merkle_loop_returns :
      (fuel : ℕ) (hashes : List Hash)
      → length hashes ≤ suc fuel
      → (root : Hash) × (merkle_loop blake3 fuel hashes ≡ some root)
  unfolding merkle_loop
  merkle_loop_returns fuel [] h = (0, refl)
  merkle_loop_returns fuel (a ∷ []) h = (a, refl)
  merkle_loop_returns zero (a ∷ b ∷ rest) h = ground arith
  merkle_loop_returns (suc fuel) (a ∷ b ∷ rest) h =
      merkle_loop_returns fuel (next_level blake3 (a ∷ b ∷ rest))
        (omega (arith, length-next_level a b rest))

  -- Any two amounts of fuel that suffice give the same.
  merkle_loop_fuel :
      (f g : ℕ) (hashes : List Hash)
      → length hashes ≤ suc f
      → length hashes ≤ suc g
      → merkle_loop blake3 f hashes ≡ merkle_loop blake3 g hashes
  unfolding merkle_loop
  merkle_loop_fuel f g [] hf hg = refl
  merkle_loop_fuel f g (a ∷ []) hf hg = refl
  merkle_loop_fuel zero g (a ∷ b ∷ rest) hf hg = ground arith
  merkle_loop_fuel (suc f) zero (a ∷ b ∷ rest) hf hg = ground arith
  merkle_loop_fuel (suc f) (suc g) (a ∷ b ∷ rest) hf hg =
      merkle_loop_fuel f g (next_level blake3 (a ∷ b ∷ rest))
        (omega (arith, length-next_level a b rest)) (omega (arith, length-next_level a b rest))

  -- A list of pairs, and one hash more.
  abbrev pub unpair : List (Hash × Hash) → List Hash
  unpair [] = []
  unpair ((a, b) ∷ rest) = a ∷ b ∷ unpair rest

  next_level_twice :
      (ps : List (Hash × Hash)) (a : Hash)
      → next_level blake3 (unpair ps ++ (a ∷ [])) ≡ next_level blake3 (unpair ps ++ (a ∷ a ∷ []))
  unfolding next_level
  next_level_twice [] a = refl
  next_level_twice ((p, q) ∷ ps) a = ap (λ l. combine blake3 p q ∷ l) (next_level_twice ps a)

  -- The loop ends with a root for every list. An odd list of at least three hashes has the root of
  -- the longer list in which its last hash stands twice.
  pub compute_merkle_root_lem :
      (hashes : List Hash) (p : Hash × Hash) (ps : List (Hash × Hash)) (a : Hash)
      → ((root : Hash) × (compute_merkle_root blake3 hashes ≡ some root))
        × (compute_merkle_root blake3 (unpair (p ∷ ps) ++ (a ∷ []))
            ≡ compute_merkle_root blake3 (unpair (p ∷ ps) ++ (a ∷ a ∷ [])))
  unfolding compute_merkle_root merkle_loop
  compute_merkle_root_lem hashes (p, q) ps a =
      let odd = unpair ps ++ (a ∷ []) in
      let twice = unpair ps ++ (a ∷ a ∷ []) in
      let fits : length odd ≡ length (unpair ps) + 1 = length-append (unpair ps) (a ∷ []) in
      let fits' : length twice ≡ length (unpair ps) + 2 = length-append (unpair ps) (a ∷ a ∷ []) in
      let shorter = length-next_level p q odd in
      (
        merkle_loop_returns (length hashes) hashes (omega arith),
        merkle_loop_fuel (suc (length odd)) (suc (length twice)) (next_level blake3 (p ∷ q ∷ odd))
              (omega arith) (omega arith)
            ∙ ap (merkle_loop blake3 (suc (length twice))) (next_level_twice ((p, q) ∷ ps) a),
      )
