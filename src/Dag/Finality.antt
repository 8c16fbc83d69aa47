-- ===== src/Dag/Finality.antt =====
-- The finality gadget of crates/nexus-dag/src/finality.rs. The maps are those of Base/Map.antt, and
-- weights are u128 that wrap as in a release build. The locks guard single calls and are left out.
pub mod Votes
pub mod Proofs
pub mod Heights
pub mod Missed
pub mod Candidate
mod Tests
use nexus_chain.Base.{
  ℕ, zero, suc, ◌+◌, ◌-◌, Bool, true, false, not, ◌&&◌, ◌||◌, List, [], ◌∷◌, ◌++◌, map, Option,
  none, some, Result, ok, err, ok_or, ◌>>=◌, if◌then◌else◌, ◌==◌, ltb, leb, elem, select,
  to_be_bytes, add64, add128, mul128, sum128,
}
use nexus_chain.Base.Map.{Map, lookup, insert, values}
use nexus_chain.Primitives.Errors.{
  NexusError, past_round, unknown_validator, invalid_vote_signature, epoch_mismatch,
  duplicate_voter, vote_target_mismatch, insufficient_vote_weight, proof_target_not_found,
}
use nexus_chain.Primitives.Merkle.{Hash, hash_bytes}
use nexus_chain.Primitives.Signature.{EcdsaSignature, Secp, PublicKey, sign_hash, verify_signature}
use nexus_chain.Dag.Graph.{Dag}
use nexus_chain.Dag.Graph.Queries.{get_vertex, set_finalized_height}

pub record FinalityConfig : Type 0 where
  pub min_validators : ℕ
  pub vote_timeout_ms : ℕ
  pub max_stall_rounds : ℕ
  pub finality_check_interval : ℕ

abbrev pub default_config : FinalityConfig
default_config = record {
  min_validators = 3;
  vote_timeout_ms = 5000;
  max_stall_rounds = 10;
  finality_check_interval = 10;
}

pub record ValidatorInfo : Type 0 where
  pub id : Hash
  pub public_key : PublicKey
  pub stake : ℕ
  pub address : ℕ

pub record ValidatorSet : Type 0 where
  pub validators : Map ValidatorInfo
  pub total_weight : ℕ
  pub epoch : ℕ

-- `collect` into a map: of two entries for one id the later stays.
abbrev pub by_id : List ValidatorInfo → Map ValidatorInfo → Map ValidatorInfo
by_id [] m = m
by_id (v ∷ vs) m = by_id vs (insert v.id v m)

abbrev pub new_set : List ValidatorInfo → ℕ → ValidatorSet
new_set validators epoch = record {
  validators = by_id validators [];
  total_weight = sum128 (map (λ v. v.stake) validators);
  epoch = epoch;
}

unfoldable pub has_supermajority : ValidatorSet → ℕ → Bool
has_supermajority set weight =
    if set.total_weight == 0 then false else ltb (mul128 set.total_weight 2) (mul128 weight 3)

abbrev pub get_validator : ValidatorSet → Hash → Option ValidatorInfo
get_validator set id = lookup id set.validators

pub record FinalityVote : Type 0 where
  pub round : ℕ
  pub target_hash : Hash
  pub target_height : ℕ
  pub voter : Hash
  pub signature : EcdsaSignature

unfoldable pub signing_message : ℕ → Hash → ℕ → List ℕ
signing_message round target height =
    to_be_bytes 8 round ++ (hash_bytes target ++ to_be_bytes 8 height)

pub record FinalityProof : Type 0 where
  pub round : ℕ
  pub target_hash : Hash
  pub target_height : ℕ
  pub votes : List FinalityVote
  pub total_weight : ℕ
  pub epoch : ℕ

pub record FinalityState : Type 0 where
  pub round : ℕ
  pub finalized_height : ℕ
  pub finalized_hash : Hash
  pub votes : Map FinalityVote
  pub best_candidate : Option (Hash × ℕ)

pub record FinalityGadget : Type 0 where
  pub config : FinalityConfig
  pub state : FinalityState
  pub validator_set : ValidatorSet
  pub proofs : List FinalityProof

abbrev pub new_gadget : FinalityConfig → List ValidatorInfo → FinalityGadget
new_gadget config validators = record {
  config = config;
  state = record {
    round = 0;
    finalized_height = 0;
    finalized_hash = 0;
    votes = [];
    best_candidate = none;
  };
  validator_set = new_set validators 0;
  proofs = [];
}

-- The votes for one target, an entry of `target_weights`.
pub record Target : Type 0 where
  pub hash : Hash
  pub height : ℕ
  pub weight : ℕ
  pub votes : List FinalityVote

abbrev pub same_target : Hash → ℕ → FinalityVote → Bool
same_target hash height vote = vote.target_hash == hash && vote.target_height == height

-- `entry(key).or_insert((0, Vec::new()))` and the two writes.
abbrev pub count_vote : FinalityVote → ℕ → List Target → List Target
count_vote vote stake [] =
    record {
      hash = vote.target_hash;
      height = vote.target_height;
      weight = add128 0 stake;
      votes = vote ∷ [];
    }
    ∷ []
count_vote vote stake (t ∷ ts) =
    if same_target t.hash t.height vote
    then record t { weight = add128 t.weight stake; votes = t.votes ++ (vote ∷ []) } ∷ ts
    else t ∷ count_vote vote stake ts

abbrev pub group_votes : ValidatorSet → List FinalityVote → List Target → List Target
group_votes set [] ts = ts
group_votes set (vote ∷ votes) ts = elim (get_validator set vote.voter) [
  | none ↦ group_votes set votes ts
  | some validator ↦ group_votes set votes (count_vote vote validator.stake ts)
]

abbrev pub find_target : ValidatorSet → ℕ → List Target → Option Target
find_target set finalized [] = none
find_target set finalized (t ∷ ts) =
    if has_supermajority set t.weight && ltb finalized t.height
    then some t
    else find_target set finalized ts

abbrev pub proof_of : FinalityGadget → Target → FinalityProof
proof_of g t = record {
  round = g.state.round;
  target_hash = t.hash;
  target_height = t.height;
  votes = t.votes;
  total_weight = t.weight;
  epoch = g.validator_set.epoch;
}

-- The writes of `try_finalize` for a target.
abbrev pub finalize : FinalityGadget → Target → FinalityGadget
finalize g t = record g {
  state = record g.state {
    finalized_height = t.height;
    finalized_hash = t.hash;
    round = add64 g.state.round 1;
    votes = [];
  };
  proofs = g.proofs ++ (proof_of g t ∷ []);
}

abbrev pub finish : FinalityGadget → Option Target → Option FinalityProof × FinalityGadget
finish g none = (none, g)
finish g (some t) = (some (proof_of g t), finalize g t)

unfoldable pub try_finalize : FinalityGadget → Option FinalityProof × FinalityGadget
try_finalize g = finish g (
    find_target g.validator_set g.state.finalized_height
      (group_votes g.validator_set (values g.state.votes) []))

abbrev pub update_validator_set : FinalityGadget → List ValidatorInfo → ℕ → FinalityGadget
update_validator_set g validators epoch = record g {
  validator_set = new_set validators epoch;
  state = record g.state { votes = [] };
}

abbrev pub get_proofs : FinalityGadget → ℕ → ℕ → List FinalityProof
get_proofs g from_height to_height =
    select (λ p. leb from_height p.target_height && leb p.target_height to_height) g.proofs

abbrev pub contains_vertex : Dag → Hash → Bool
contains_vertex d h = elim (get_vertex d h) [ none ↦ false | some _ ↦ true ]

module _ (c : Secp) where
  open c use {SigningKey, blake3}

  -- FinalityVote::new
  abbrev pub new_vote : ℕ → Hash → ℕ → Hash → SigningKey → Result NexusError FinalityVote
  new_vote round target height voter key =
      sign_hash c key (blake3 (signing_message round target height)) >>= λ signature. ok (record {
        round = round;
        target_hash = target;
        target_height = height;
        voter = voter;
        signature = signature;
      })

  -- FinalityVote::verify
  abbrev pub verify_vote : FinalityVote → PublicKey → Result NexusError Bool
  verify_vote vote key =
      verify_signature c (blake3 (signing_message vote.round vote.target_hash vote.target_height))
        vote.signature key

  -- The lookup of the voter and the check of the signature, in `verify` and in `add_vote`.
  abbrev pub check_voter : ValidatorSet → FinalityVote → Result NexusError ValidatorInfo
  check_voter set vote = ok_or (get_validator set vote.voter) unknown_validator >>= λ validator.
      verify_vote vote validator.public_key >>= λ good.
      if good then ok validator else err invalid_vote_signature

  -- The loop of FinalityProof::verify: the voters seen, and the weight so far.
  unfoldable pub check_votes :
      ValidatorSet → Hash → ℕ → List FinalityVote → List Hash → ℕ → Result NexusError ℕ
  check_votes set hash height [] seen weight = ok weight
  check_votes set hash height (vote ∷ votes) seen weight =
      let rest = check_voter set vote >>= λ validator.
      check_votes set hash height votes (vote.voter ∷ seen) (add128 weight validator.stake) in
      if elem vote.voter seen
      then err duplicate_voter
      else if same_target hash height vote
      then rest
      else err vote_target_mismatch

  -- FinalityProof::verify
  unfoldable pub verify : FinalityProof → ValidatorSet → Result NexusError Bool
  verify proof set =
      if set.epoch == proof.epoch
      then (check_votes set proof.target_hash proof.target_height proof.votes [] 0 >>= λ weight.
          if has_supermajority set weight then ok true else err insufficient_vote_weight)
      else err epoch_mismatch

  unfoldable pub add_vote :
      FinalityGadget → FinalityVote → Result NexusError (Option FinalityProof) × FinalityGadget
  add_vote g vote =
      if ltb vote.round g.state.round
      then (err past_round, g)
      else elim (check_voter g.validator_set vote) [
        | err e ↦ (err e, g)
        | ok _ ↦
            let (proof, g') = try_finalize (record g {
              state = record g.state { votes = insert vote.voter vote g.state.votes };
            }) in
            (ok proof, g')
      ]

  unfoldable pub apply_proof :
      FinalityGadget → Dag → FinalityProof → Result NexusError Unit × FinalityGadget × Dag
  apply_proof g d proof = elim (verify proof g.validator_set) [
    | err e ↦ (err e, g, d)
    | ok _ ↦
        if contains_vertex d proof.target_hash
        then if ltb g.state.finalized_height proof.target_height
          then (
            ok tt,
            record g {
              state = record g.state {
                finalized_height = proof.target_height;
                finalized_hash = proof.target_hash;
              };
              proofs = g.proofs ++ (proof ∷ []);
            },
            set_finalized_height d proof.target_height,
          )
          else (ok tt, g, d)
        else (err proof_target_not_found, g, d)
  ]
