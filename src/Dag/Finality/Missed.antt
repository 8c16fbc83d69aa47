-- ===== src/Dag/Finality/Missed.antt =====
-- `try_finalize` of finality.rs misses no target that has enough weight.
use nexus_chain.Base.{
  ℕ, ◌<◌, ◌≡◌, refl, sym, ◌∙◌, ap, false, ◌&&◌, List, [], ◌∷◌, Option, none, some, inl, inr, arith,
  if◌then◌else◌, ◌==◌, Bool-cases, Option-cases, add128,
}
use nexus_chain.Base.Map.{values}
use nexus_chain.Primitives.Merkle.{Hash}
use nexus_chain.Dag.Finality.{
  ValidatorSet, FinalityVote, FinalityGadget, Target, get_validator, has_supermajority, same_target,
  count_vote, group_votes, find_target, try_finalize, finish,
}

-- The stakes of the validators whose vote is for a target, summed as u128.
abbrev pub vote_weight : ValidatorSet → Hash → ℕ → List FinalityVote → ℕ → ℕ
vote_weight set hash height [] weight = weight
vote_weight set hash height (vote ∷ votes) weight = elim (get_validator set vote.voter) [
  | none ↦ vote_weight set hash height votes weight
  | some validator ↦
      vote_weight set hash height votes
        (if same_target hash height vote then add128 weight validator.stake else weight)
]

-- The weight of a target in the groups, 0 when it is not there.
abbrev weight_in : Hash → ℕ → List Target → ℕ
weight_in hash height [] = 0
weight_in hash height (t ∷ ts) =
    if t.hash == hash && t.height == height then t.weight else weight_in hash height ts

count_vote-weight :
    (hash : Hash) (height : ℕ) (vote : FinalityVote) (stake : ℕ) (ts : List Target)
    → weight_in hash height (count_vote vote stake ts) ≡ (
        if same_target hash height vote
        then add128 (weight_in hash height ts) stake
        else weight_in hash height ts)
count_vote-weight hash height vote stake [] = ground arith
count_vote-weight hash height vote stake (t ∷ ts) =
    elim (Bool-cases (same_target t.hash t.height vote)) [
      | inl same ↦ ground (arith, same)
      | inr other ↦ ground (arith, other, count_vote-weight hash height vote stake ts)
    ]

group_votes-weight :
    (set : ValidatorSet) (hash : Hash) (height : ℕ) (votes : List FinalityVote) (ts : List Target)
    → weight_in hash height (group_votes set votes ts)
      ≡ vote_weight set hash height votes (weight_in hash height ts)
group_votes-weight set hash height [] ts = refl
group_votes-weight set hash height (vote ∷ votes) ts =
    elim (Option-cases (get_validator set vote.voter)) [
      | inl absent ↦
          rw (absent, group_votes, vote_weight) (group_votes-weight set hash height votes ts)
      | inr (v, there) ↦
          rw (there, group_votes, vote_weight)
            (group_votes-weight set hash height votes (count_vote vote v.stake ts)
              ∙ ap (vote_weight set hash height votes)
                  (count_vote-weight hash height vote v.stake ts))
    ]

no_supermajority : (set : ValidatorSet) → has_supermajority set 0 ≡ false
unfolding has_supermajority
no_supermajority set = ground arith

find_target-none :
    (set : ValidatorSet) (fin : ℕ) (hash : Hash) (height : ℕ) (ts : List Target)
    → find_target set fin ts ≡ none
    → fin < height
    → has_supermajority set (weight_in hash height ts) ≡ false
find_target-none set fin hash height [] e higher = no_supermajority set
find_target-none set fin hash height (t ∷ ts) e higher =
    elim (Bool-cases (t.hash == hash && t.height == height)) [
      | inl same ↦ rw (same, weight_in) (ground arith)
      | inr other ↦
          rw (other, weight_in) (find_target-none set fin hash height ts (ground arith) higher)
    ]

-- When `try_finalize` makes no proof, no target above the finalized height has the votes of a
-- supermajority of the validators' weight.
pub try_finalize-none :
    (g : FinalityGadget) (hash : Hash) (height : ℕ)
    → (try_finalize g).0 ≡ none
    → g.state.finalized_height < height
    → has_supermajority g.validator_set
        (vote_weight g.validator_set hash height (values g.state.votes) 0)
      ≡ false
unfolding try_finalize
try_finalize-none g hash height e higher =
    ap (has_supermajority g.validator_set)
      (sym (group_votes-weight g.validator_set hash height (values g.state.votes) []))
    ∙ find_target-none g.validator_set g.state.finalized_height hash height
        (group_votes g.validator_set (values g.state.votes) [])
        (finish-none
          (find_target g.validator_set g.state.finalized_height
            (group_votes g.validator_set (values g.state.votes) []))
          e)
        higher
  where
    finish-none : (o : Option Target) → (finish g o).0 ≡ none → o ≡ none
    finish-none none e = refl
    finish-none (some t) e = ground arith
