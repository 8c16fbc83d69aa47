-- ===== src/Dag/Finality/Votes.antt =====
-- The votes that the gadget of finality.rs holds, and the proofs that it makes of them.
use nexus_chain.Base.{
  ℕ, ◌≡◌, refl, sym, ◌∙◌, ap, true, false, ◌&&◌, List, [], ◌∷◌, ◌++◌, map, none, some, ok, inl, inr,
  arith, ◌==◌, ltb, elem, Bool-cases, Option-cases, Result-cases, ==-refl, All, ◌<◌, add128,
}
use mathlib.Core.Path.{subst}
use nexus_chain.Base.Map.{Map, lookup, insert, remove, values, Unique, insert-Unique}
use nexus_chain.Primitives.Merkle.{Hash}
use nexus_chain.Primitives.Signature.{Secp}
use nexus_chain.Dag.Finality.{
  ValidatorInfo, ValidatorSet, FinalityVote, Target, get_validator, has_supermajority, same_target,
  count_vote, group_votes, find_target, check_voter, check_votes,
}

abbrev voters : List FinalityVote → List Hash
voters votes = map (λ v. v.voter) votes

module _ (c : Secp) (set : ValidatorSet) where
  -- The voter is in the set, and the signature is the voter's.
  abbrev pub IsValid : FinalityVote → Type 0
  IsValid vote =
      (info : ValidatorInfo) × (get_validator set vote.voter ≡ some info)
      × (check_voter c set vote ≡ ok info)

  pub check_voter-get :
      (vote : FinalityVote) (info : ValidatorInfo) → check_voter c set vote ≡ ok info → IsValid vote
  check_voter-get vote info e = elim (Option-cases (get_validator set vote.voter)) [
    | inl absent ↦ ground arith
    | inr (known, there) ↦ (known, there, ground arith)
  ]

  module _ (hash : Hash) (height : ℕ) where
    abbrev Passes : FinalityVote → List Hash → ValidatorInfo → Type 0
    Passes v seen info =
        (elem v.voter seen ≡ false)
        × (same_target hash height v ≡ true)
        × (check_voter c set v ≡ ok info)

    check_votes-step :
        (v : FinalityVote) (vs : List FinalityVote) (seen : List Hash) (w : ℕ)
        (info : ValidatorInfo)
        → Passes v seen info
        → check_votes c set hash height (v ∷ vs) seen w
          ≡ check_votes c set hash height vs (v.voter ∷ seen) (add128 w info.stake)
    unfolding check_votes
    check_votes-step v vs seen w info (new, target, good) = rw (new, target, good) refl

    check_votes-head :
        (v : FinalityVote) (vs : List FinalityVote) (seen : List Hash) (w w' : ℕ)
        → check_votes c set hash height (v ∷ vs) seen w ≡ ok w'
        → (info : ValidatorInfo) × Passes v seen info
    unfolding check_votes
    check_votes-head v vs seen w w' e = elim (Bool-cases (elem v.voter seen)) [
      | inl old ↦ ground arith
      | inr new ↦ elim (Bool-cases (same_target hash height v)) [
        | inl target ↦ elim (Result-cases (check_voter c set v)) [
          | inl (x, bad) ↦ ground arith
          | inr (info, good) ↦ (info, (new, target, good))
        ]
        | inr other ↦ ground arith
      ]
    ]

    check_votes-append :
        (vote : FinalityVote) (info : ValidatorInfo) (vs : List FinalityVote) (seen : List Hash)
        (w w' : ℕ)
        → check_votes c set hash height vs seen w ≡ ok w'
        → elem vote.voter (voters vs) ≡ false
        → Passes vote seen info
        → check_votes c set hash height (vs ++ (vote ∷ [])) seen w ≡ ok (add128 w' info.stake)
    unfolding check_votes
    check_votes-append vote info [] seen w w' e new p =
        check_votes-step vote [] seen w info p ∙ ground arith
    check_votes-append vote info (v ∷ vs) seen w w' e new p =
        let (known, head) = check_votes-head v vs seen w w' e in
        check_votes-step v (vs ++ (vote ∷ [])) seen w known head
        ∙ check_votes-append vote info vs (v.voter ∷ seen) (add128 w known.stake) w'
            (sym (check_votes-step v vs seen w known head) ∙ e) (ground arith)
            (ground arith, p.1, p.2)

  -- The votes of a target pass the checks of a proof and weigh what the target says.
  abbrev pub IsTarget : Target → Type 0
  IsTarget t = check_votes c set t.hash t.height t.votes [] 0 ≡ ok t.weight

  abbrev Fresh : List Target → Hash → Type 0
  Fresh ts k = All (λ t. elem k (voters t.votes) ≡ false) ts

  count_vote-IsTarget :
      (vote : FinalityVote) (info : ValidatorInfo) (ts : List Target)
      → check_voter c set vote ≡ ok info
      → Fresh ts vote.voter
      → All IsTarget ts
      → All IsTarget (count_vote vote info.stake ts)
  unfolding check_votes
  count_vote-IsTarget vote info [] good f a = (
    check_votes-step vote.target_hash vote.target_height vote [] [] 0 info
        (refl, ground (arith, ==-refl vote.target_hash, ==-refl vote.target_height), good),
    tt,
  )
  count_vote-IsTarget vote info (t ∷ ts) good f a =
      elim (Bool-cases (same_target t.hash t.height vote)) [
        | inl same ↦
            rw (same, count_vote)
              (
                check_votes-append t.hash t.height vote info t.votes [] 0 t.weight a.0 f.0
                    (refl, same, good),
                a.1,
              )
        | inr other ↦ rw (other, count_vote) (a.0, count_vote-IsTarget vote info ts good f.1 a.1)
      ]

  elem-voters_append :
      (k : Hash) (vs : List FinalityVote) (vote : FinalityVote)
      → (k == vote.voter) ≡ false
      → elem k (voters vs) ≡ false
      → elem k (voters (vs ++ (vote ∷ []))) ≡ false
  elem-voters_append k [] vote other e = ground arith
  elem-voters_append k (v ∷ vs) vote other e = ground (arith, elem-voters_append k vs vote other)

  count_vote-Fresh :
      (k : Hash) (vote : FinalityVote) (stake : ℕ) (ts : List Target)
      → (k == vote.voter) ≡ false
      → Fresh ts k
      → Fresh (count_vote vote stake ts) k
  count_vote-Fresh k vote stake [] other f = (ground arith, tt)
  count_vote-Fresh k vote stake (t ∷ ts) other f =
      elim (Bool-cases (same_target t.hash t.height vote)) [
        | inl same ↦ rw (same, count_vote) (elem-voters_append k t.votes vote other f.0, f.1)
        | inr new ↦ rw (new, count_vote) (f.0, count_vote-Fresh k vote stake ts other f.1)
      ]

  count_vote-Fresh_list :
      (vote : FinalityVote) (stake : ℕ) (ts : List Target) (vs : List FinalityVote)
      → elem vote.voter (voters vs) ≡ false
      → All (λ v. Fresh ts v.voter) vs
      → All (λ v. Fresh (count_vote vote stake ts) v.voter) vs
  count_vote-Fresh_list vote stake ts [] new f = tt
  count_vote-Fresh_list vote stake ts (v ∷ vs) new f = (
    count_vote-Fresh v.voter vote stake ts (ground arith) f.0,
    count_vote-Fresh_list vote stake ts vs (ground arith) f.1,
  )

  abbrev Distinct : List FinalityVote → Type 0
  Distinct [] = Unit
  Distinct (v ∷ vs) = (elem v.voter (voters vs) ≡ false) × Distinct vs

  pub group_votes-IsTarget :
      (vs : List FinalityVote) (ts : List Target)
      → All IsValid vs
      → Distinct vs
      → All (λ v. Fresh ts v.voter) vs
      → All IsTarget ts
      → All IsTarget (group_votes set vs ts)
  group_votes-IsTarget [] ts valid d f a = a
  group_votes-IsTarget (v ∷ vs) ts valid d f a =
      let (info, there, good) = valid.0 in
      rw (there, group_votes)
        (group_votes-IsTarget vs (count_vote v info.stake ts) valid.1 d.1
          (count_vote-Fresh_list v info.stake ts vs d.0 f.1)
          (count_vote-IsTarget v info ts good f.0 a))

  pub no_targets : (vs : List FinalityVote) → All (λ v. Fresh [] v.voter) vs
  no_targets [] = tt
  no_targets (v ∷ vs) = (tt, no_targets vs)

  pub find_target-found :
      (fin : ℕ) (ts : List Target) (t : Target)
      → All IsTarget ts
      → find_target set fin ts ≡ some t
      → IsTarget t × (has_supermajority set t.weight ≡ true) × (fin < t.height)
  find_target-found fin [] t a e = ground arith
  find_target-found fin (s ∷ ts) t a e =
      elim (Bool-cases (has_supermajority set s.weight && ltb fin s.height)) [
        | inl enough ↦
            let same : s ≡ t = ground arith in
            subst (λ x. IsTarget x × (has_supermajority set x.weight ≡ true) × (fin < x.height))
              same (a.0, ground arith, ground arith)
        | inr few ↦ find_target-found fin ts t a.1 (ground arith)
      ]

  -- The votes stand under their voters, each voter once, and each is valid.
  abbrev pub AreVotes : Map FinalityVote → Type 0
  AreVotes votes = Unique votes × All (λ e. (e.1.voter ≡ e.0) × IsValid e.1) votes

  elem-voters :
      (k : Hash) (m : Map FinalityVote)
      → All (λ e. (e.1.voter ≡ e.0) × IsValid e.1) m
      → lookup k m ≡ none
      → elem k (voters (values m)) ≡ false
  elem-voters k [] a e = refl
  elem-voters k (x ∷ m) a e = ground (arith, elem-voters k m a.1, a.0.0)

  pub values-Distinct : (m : Map FinalityVote) → AreVotes m → Distinct (values m)
  values-Distinct [] a = tt
  values-Distinct (x ∷ m) (u, a) =
      (elem-voters x.1.voter m a.1 (ap (λ k. lookup k m) a.0.0 ∙ u.0), values-Distinct m (u.1, a.1))

  pub values-IsValid :
      (m : Map FinalityVote) → All (λ e. (e.1.voter ≡ e.0) × IsValid e.1) m → All IsValid (values m)
  values-IsValid [] a = tt
  values-IsValid (x ∷ m) a = (a.0.1, values-IsValid m a.1)

  remove-AreVotes :
      (k : Hash) (m : Map FinalityVote)
      → All (λ e. (e.1.voter ≡ e.0) × IsValid e.1) m
      → All (λ e. (e.1.voter ≡ e.0) × IsValid e.1) (remove k m)
  remove-AreVotes k [] a = tt
  remove-AreVotes k (x ∷ m) a = elim (Bool-cases (k == x.0)) [
    | inl same ↦ rw (same, remove) (remove-AreVotes k m a.1)
    | inr other ↦ rw (other, remove) (a.0, remove-AreVotes k m a.1)
  ]

  pub insert-AreVotes :
      (vote : FinalityVote) (m : Map FinalityVote)
      → IsValid vote
      → AreVotes m
      → AreVotes (insert vote.voter vote m)
  insert-AreVotes vote m valid (u, a) =
      (insert-Unique vote.voter vote m u, ((refl, valid), remove-AreVotes vote.voter m a))
