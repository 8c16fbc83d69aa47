-- ===== src/Consensus/Bft/ViewChange.antt =====
-- View changes: what one validator can do by itself.
use nexus_chain.Base.{
  ℕ, zero, suc, ◌*◌, ◌<◌, ◌≡◌, refl, ap, ◌∙◌, true, some, List, [], ◌∷◌, ◌++◌, map, none, arith,
  u64_mod, sum, filter_map, lt→ltb,
}
use nexus_chain.Base.Map.{lookup}
use nexus_chain.Consensus.Errors.{Address}
use nexus_chain.Consensus.Validator.{Validator, ValidatorSet, get, has_supermajority, active_stake}
use nexus_chain.Consensus.Bft.Crypto.{Crypto}
use nexus_chain.Consensus.Bft.Messages.{ViewChangeRequest, new_round}
use nexus_chain.Consensus.Bft.Engine.{BftConsensus, voted_stake, enter_view}
use nexus_chain.Consensus.Bft.Views.{on_view_change, requests_for, requesters}

abbrev copies : ℕ → Address → List Address
copies zero a = []
copies (suc n) a = a ∷ copies n a

sum-copies :
    (s : ValidatorSet) (a : Address) (v : Validator) (n : ℕ)
    → get s a ≡ some v
    → sum (map (λ w. w.stake) (filter_map (get s) (copies n a))) ≡ n * v.stake
sum-copies s a v zero e = omega arith
sum-copies s a v (suc n) e = ground (arith, sum-copies s a v n e)

copies-append : (n : ℕ) (a : Address) → copies n a ++ a ∷ [] ≡ copies (suc n) a
copies-append zero a = refl
copies-append (suc n) a = ap (λ l. a ∷ l) (copies-append n a)

requesters-append :
    (rs : List ViewChangeRequest) (r : ViewChangeRequest)
    → requesters (rs ++ r ∷ []) ≡ requesters rs ++ r.requester ∷ []
requesters-append [] r = refl
requesters-append (x ∷ rs) r = ap (λ l. x.requester ∷ l) (requesters-append rs r)

module _ (c : Crypto) (r : ViewChangeRequest) where
  -- The same request `n` times.
  unfoldable pub replay : ℕ → BftConsensus c → BftConsensus c
  replay zero b = b
  replay (suc n) b = (on_view_change c (replay n b) r).1

  on_view_change_records :
      (b : BftConsensus c) (v : Validator)
      → get b.validator_set r.requester ≡ some v
      → let b' = (on_view_change c b r).1 in
        (b'.validator_set ≡ b.validator_set)
        × (requests_for r.new_view b'.view_change_votes
            ≡ requests_for r.new_view b.view_change_votes ++ r ∷ [])
  unfolding on_view_change
  on_view_change_records b v known = ground arith

  replay_records :
      (n : ℕ) (b : BftConsensus c) (v : Validator)
      → get b.validator_set r.requester ≡ some v
      → lookup r.new_view b.view_change_votes ≡ none
      → ((replay n b).validator_set ≡ b.validator_set)
        × (requesters (requests_for r.new_view (replay n b).view_change_votes)
            ≡ copies n r.requester)
  unfolding replay
  replay_records zero b v known none_yet = ground arith
  replay_records (suc n) b v known none_yet =
      let (set, recorded) = replay_records n b v known none_yet in
      let (set', recorded') =
        on_view_change_records (replay n b) v (ap (λ s. get s r.requester) set ∙ known) in
      (
        set' ∙ set,
        ap requesters recorded'
            ∙ requesters-append (requests_for r.new_view (replay n b).view_change_votes) r
            ∙ ap (λ l. l ++ r.requester ∷ []) recorded
            ∙ copies-append n r.requester,
      )

  -- With a supermajority of requests the round starts again in the requested view.
  on_view_change_passes :
      (b : BftConsensus c) (v : Validator)
      → get b.validator_set r.requester ≡ some v
      → has_supermajority b.validator_set (
          voted_stake b.validator_set
            (requesters (requests_for r.new_view b.view_change_votes ++ r ∷ [])))
        ≡ true
      → (on_view_change c b r).1.state ≡ enter_view c r.new_view b.state
  unfolding on_view_change
  on_view_change_passes b v known enough = ground arith

  copies_supermajority :
      (n : ℕ) (s : ValidatorSet) (v : Validator)
      → get s r.requester ≡ some v
      → active_stake s * 2 < n * v.stake * 3
      → n * v.stake * 3 < u64_mod
      → has_supermajority s (voted_stake s (copies n r.requester)) ≡ true
  unfolding has_supermajority voted_stake
  copies_supermajority n s v known enough room =
      let total = sum-copies s r.requester v n known in lt→ltb _ _ (omega arith)

  -- One validator with any stake forces the view that it likes, below or above the current one, by
  -- sending the same request again: requests are not counted once per validator, and neither their
  -- signature nor their view is checked. It takes as many as make its stake, so multiplied, a
  -- supermajority; the votes and the proposal of the round are lost.
  pub view_change_replay :
      (n : ℕ) (b : BftConsensus c) (v : Validator)
      → get b.validator_set r.requester ≡ some v
      → lookup r.new_view b.view_change_votes ≡ none
      → active_stake b.validator_set * 2 < suc n * v.stake * 3
      → suc n * v.stake * 3 < u64_mod
      → let b' = replay (suc n) b in
        (b'.state.view ≡ r.new_view)
        × (b'.state.phase ≡ new_round)
        × (b'.state.proposal ≡ none)
        × (b'.state.prepare_votes ≡ [])
        × (b'.state.commit_votes ≡ [])
  unfolding replay
  view_change_replay n b v known none_yet enough room =
      let (set, recorded) = replay_records n b v known none_yet in
      let reqs = requests_for r.new_view (replay n b).view_change_votes in
      let all : requesters (reqs ++ r ∷ []) ≡ copies (suc n) r.requester =
        requesters-append reqs r
        ∙ ap (λ l. l ++ r.requester ∷ []) recorded
        ∙ copies-append n r.requester in
      let here : get (replay n b).validator_set r.requester ≡ some v =
        ap (λ s. get s r.requester) set ∙ known in
      let passes =
        on_view_change_passes (replay n b) v here
          (rw (all, set) (copies_supermajority (suc n) b.validator_set v known enough room)) in
      (rw passes, rw passes, rw passes, rw passes, rw passes)
