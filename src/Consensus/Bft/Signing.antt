-- ===== src/Consensus/Bft/Signing.antt =====
-- What validators sign, and that the engine accepts its own votes.
use nexus_chain.Base.{ℕ, ◌<◌, ◌≡◌, ◌≢◌, true, some, List, ◌∷◌, arith, u64_mod, u256_mod}
use nexus_chain.Base.Bytes.{word_prefix-injective, to_be_bytes-injective}
use nexus_chain.Consensus.Errors.{Hash}
use nexus_chain.Consensus.Validator.{Validator, get}
use nexus_chain.Consensus.Bft.Crypto.{Crypto, as_bytes, sign_hash, verify_ecdsa}
use nexus_chain.Consensus.Bft.Messages.{
  PrepareVote, CommitVote, prepare_bytes, commit_bytes, prepare_hash, commit_hash,
}
use nexus_chain.Consensus.Bft.Engine.{
  BftConsensus, own_prepare, own_commit, add_prepare, add_commit, on_prepare, on_commit,
}

tail_eq : {x y : ℕ} {xs ys : List ℕ} → x ∷ xs ≡ y ∷ ys → xs ≡ ys
tail_eq e = cc

-- The bytes that a prepare vote signs fix its view and its vertex, and are never those of a commit
-- vote; nor are two commit votes for different views or vertices signed by the same bytes.
pub vote_bytes-injective :
    (v w : PrepareVote) (x y : CommitVote)
    → (v.view < u64_mod) × (w.view < u64_mod) × (x.view < u64_mod) × (y.view < u64_mod)
    → (v.vertex_hash < u256_mod) × (w.vertex_hash < u256_mod)
    → (x.vertex_hash < u256_mod) × (y.vertex_hash < u256_mod)
    → (prepare_bytes v ≡ prepare_bytes w → (v.view ≡ w.view) × (v.vertex_hash ≡ w.vertex_hash))
      × (commit_bytes x ≡ commit_bytes y → (x.view ≡ y.view) × (x.vertex_hash ≡ y.vertex_hash))
      × (prepare_bytes v ≢ commit_bytes x)
unfolding prepare_bytes commit_bytes as_bytes
vote_bytes-injective v w x y (hv, hw, hx, hy) (kv, kw) (kx, ky) = (
  λ e.
      let (views, hashes) =
        word_prefix-injective 8 v.view w.view (as_bytes v.vertex_hash) (as_bytes w.vertex_hash) hv
          hw (tail_eq e) in
      (views, to_be_bytes-injective 32 v.vertex_hash w.vertex_hash kv kw hashes),
  λ e.
      let (views, hashes) =
        word_prefix-injective 8 x.view y.view (as_bytes x.vertex_hash) (as_bytes y.vertex_hash) hx
          hy (tail_eq e) in
      (views, to_be_bytes-injective 32 x.vertex_hash y.vertex_hash kx ky hashes),
  λ e. cc,
)

-- Signatures of the own key verify under the public key that the validator set holds for it, as
-- ECDSA promises. Then the own prepare and commit votes pass the checks of voter and signature.
own_votes_accepted :
    (c : Crypto) (b : BftConsensus c) (h : Hash) (v : Validator)
    → ((m : List ℕ) → verify_ecdsa c v.pubkey m (c.sign_bytes b.keys.signing_key m) ≡ true)
    → get b.validator_set b.keys.address ≡ some v
    → (on_prepare c b (own_prepare c b h) ≡ add_prepare c b (own_prepare c b h))
      × (on_commit c b (own_commit c b h) ≡ add_commit c b (own_commit c b h))
unfolding on_prepare on_commit own_prepare own_commit prepare_hash commit_hash prepare_bytes
    commit_bytes sign_hash
own_votes_accepted c b h v signs known = (
  ground (arith, signs (as_bytes (prepare_hash c (own_prepare c b h)))),
  ground (arith, signs (as_bytes (commit_hash c (own_commit c b h)))),
)
