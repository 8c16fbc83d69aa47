-- ===== src/Dag/Graph/Store.antt =====
-- What `insert_vertex` of dag.rs writes, and what stays as it was.
use nexus_chain.Base.{
  ◌≡◌, refl, ap, true, false, ◌&&◌, List, [], ◌∷◌, arith, if◌then◌else◌, ◌==◌, elem, filter_map,
}
use nexus_chain.Base.Map.{Map, contains_key, lookup-insert}
use nexus_chain.Primitives.Merkle.{Hash}
use nexus_chain.Dag.Vertex.{Vertex, no_hashes}
use nexus_chain.Dag.Graph.{
  Dag, set_insert, set_remove, height_at, height_above, expected_height, missing_of, link_parents,
  set_at, add_at,
}

pub elem-set_insert :
    (k h : Hash) (hs : List Hash) → elem k (set_insert h hs) ≡ (if k == h then true else elem k hs)
elem-set_insert k h hs = ground arith

pub elem-set_remove :
    (k h : Hash) (hs : List Hash) → elem k (set_remove h hs) ≡ (if h == k then false else elem k hs)
elem-set_remove k h [] = ground arith
elem-set_remove k h (x ∷ hs) = ground (arith, elem-set_remove k h hs)

pub set_at-add_at :
    (q p h : Hash) (m : Map (List Hash))
    → set_at q (add_at p h m) ≡ (if q == p then set_insert h (set_at p m) else set_at q m)
set_at-add_at q p h m = ground (arith, lookup-insert q p (set_insert h (set_at p m)) m)

-- An entry gains exactly the hash, at exactly the key.
pub elem-add_at :
    (k q p h : Hash) (m : Map (List Hash))
    → elem k (set_at q (add_at p h m))
      ≡ (if (q == p) && (k == h) then true else elem k (set_at q m))
elem-add_at k q p h m = ground (arith, set_at-add_at q p h m, elem-set_insert k h (set_at p m))

-- The linking of the parents leaves all but the children and the tips.
pub link_parents-keeps :
    (h : Hash) (ps : List Hash) (d : Dag)
    → ((link_parents h ps d).vertices ≡ d.vertices)
      × ((link_parents h ps d).pending ≡ d.pending)
      × ((link_parents h ps d).orphan_deps ≡ d.orphan_deps)
      × ((link_parents h ps d).by_height ≡ d.by_height)
unfolding link_parents
link_parents-keeps h [] d = (refl, refl, refl, refl)
link_parents-keeps h (p ∷ ps) d =
    link_parents-keeps h ps
      (record d { children = add_at p h d.children; tips = set_remove p d.tips })

-- It takes exactly the parents off the tips.
pub link_parents-tips :
    (h : Hash) (ps : List Hash) (d : Dag) (k : Hash)
    → elem k (link_parents h ps d).tips ≡ (if elem k ps then false else elem k d.tips)
unfolding link_parents
link_parents-tips h [] d k = refl
link_parents-tips h (p ∷ ps) d k = ground (
  arith,
  link_parents-tips h ps (record d { children = add_at p h d.children; tips = set_remove p d.tips })
      k,
  elem-set_remove k p d.tips,
)

-- It makes the vertex a child of exactly its parents.
pub link_parents-children :
    (h : Hash) (ps : List Hash) (d : Dag) (k q : Hash)
    → elem k (set_at q (link_parents h ps d).children)
      ≡ (if (elem q ps) && (k == h) then true else elem k (set_at q d.children))
unfolding link_parents
link_parents-children h [] d k q = refl
link_parents-children h (p ∷ ps) d k q = ground (
  arith,
  link_parents-children h ps
      (record d { children = add_at p h d.children; tips = set_remove p d.tips }) k q,
  elem-add_at k q p h d.children,
)

pub missing_none :
    (m : Map Vertex) (ps : List Hash) (p : Hash)
    → missing_of m ps ≡ []
    → elem p ps ≡ true
    → contains_key p m ≡ true
missing_none m [] p e h = cc
missing_none m (q ∷ ps) p e h = ground (arith, missing_none m ps p)

-- The expected height depends on the heights of the parents alone.
pub expected_height-same :
    (m n : Map Vertex) (ps : List Hash)
    → ((p : Hash) → elem p ps ≡ true → height_at m p ≡ height_at n p)
    → expected_height m ps ≡ expected_height n ps
unfolding expected_height
expected_height-same m n ps h = ap height_above (heights ps h)
  where
    heights :
        (ps : List Hash)
        → ((p : Hash) → elem p ps ≡ true → height_at m p ≡ height_at n p)
        → filter_map (height_at m) ps ≡ filter_map (height_at n) ps
    heights [] h = refl
    heights (p ∷ ps) h = ground (arith, h p (ground arith), heights ps (λ q e. h q (ground arith)))

pub no_hashes-empty : (hs : List Hash) → no_hashes hs ≡ true → hs ≡ []
no_hashes-empty [] e = refl
no_hashes-empty (h ∷ hs) e = ground arith
