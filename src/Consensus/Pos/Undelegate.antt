-- ===== src/Consensus/Pos/Undelegate.antt =====
-- `undelegate`: the way back from `delegate`, the shares that stay, and the delegations that go.
use nexus_chain.Base.{
  ℕ, ◌+◌, ◌*◌, ◌≤◌, ◌<◌, ◌≡◌, refl, ◌∙◌, saturating_sub64, none, some, List, [], ◌∷◌, ◌++◌, ok,
  arith, u64_mod, add64, not, ◌==◌, select,
}
use nexus_chain.Base.Map.{lookup, modify, lookup-modify, le-sum_of_lookup}
use nexus_chain.Consensus.Errors.{Address}
use nexus_chain.Consensus.Validator.{Validator, get, apply_change, stake_increase}
use nexus_chain.Consensus.Validator.Stake.{IsConsistent, stakes, stake_of}
use nexus_chain.Consensus.Pos.State.{
  ProofOfStake, Delegation, UnbondingEntry, delegate, undelegate, delegations_of, find_delegation,
  update_first, reduce, after_undelegate, withdraw_stake, share_precision, issued_shares,
  total_shares,
}

module _ (validator : Address) where
  find-append :
      (ds : List Delegation) (d : Delegation)
      → find_delegation validator ds ≡ none
      → d.validator ≡ validator
      → find_delegation validator (ds ++ d ∷ []) ≡ some d
  find-append [] d h e = ground arith
  find-append (x ∷ ds) d h e = ground (arith, find-append ds d)

  -- The last delegation, used up, is the only one that goes.
  retain-update_append :
      (f : Delegation → Delegation) (ds : List Delegation) (d : Delegation)
      → find_delegation validator ds ≡ none
      → d.validator ≡ validator
      → (f d).validator ≡ validator
      → select (λ x. not (x.validator == validator)) (update_first validator f (ds ++ d ∷ [])) ≡ ds
  retain-update_append f [] d h e k = ground arith
  retain-update_append f (x ∷ ds) d h e k = ground (arith, retain-update_append f ds d)

  find-retain :
      (ds : List Delegation)
      → find_delegation validator (select (λ x. not (x.validator == validator)) ds) ≡ none
  find-retain [] = refl
  find-retain (x ∷ ds) = ground (arith, find-retain ds)

  find-update_first :
      (f : Delegation → Delegation) (d : Delegation) (ds : List Delegation)
      → ((x : Delegation) → (f x).validator ≡ x.validator)
      → find_delegation validator ds ≡ some d
      → find_delegation validator (update_first validator f ds) ≡ some (f d)
  find-update_first f d [] same h = cc
  find-update_first f d (x ∷ ds) same h = ground (arith, same x, find-update_first f d ds same)

  find-validator :
      (d : Delegation) (ds : List Delegation)
      → find_delegation validator ds ≡ some d
      → d.validator ≡ validator
  find-validator d [] h = cc
  find-validator d (x ∷ ds) h = ground (arith, find-validator d ds)

undelegate_absent :
    (p : ProofOfStake) (a v : Address) (n : ℕ)
    → find_delegation v (delegations_of a p.delegations) ≡ none
    → (undelegate p a v n).1 ≡ p
unfolding undelegate
undelegate_absent p a v n h = ground arith

module _ (p : ProofOfStake) (a v : Address) (n : ℕ) where
  undelegate_rest :
      (ds : List Delegation) (d : Delegation)
      → lookup a p.delegations ≡ some ds
      → find_delegation v ds ≡ some d
      → n ≤ d.amount
      → ((undelegate p a v n).0 ≡ ok tt)
        × (delegations_of a (undelegate p a v n).1.delegations ≡ after_undelegate v n d ds)
  unfolding undelegate
  undelegate_rest ds d here found enough =
      ground (arith, lookup-modify a a (after_undelegate v n d) ds p.delegations here)

  -- Taking back a part of a delegation that holds its first shares, a million for each base unit,
  -- takes one share for each base unit: the delegation keeps more than its part of the shares.
  undelegate_keeps_shares :
      (ds : List Delegation) (d : Delegation)
      → lookup a p.delegations ≡ some ds
      → find_delegation v ds ≡ some d
      → d.shares ≡ d.amount * share_precision
      → 0 < n
      → n < d.amount
      → d.amount < u64_mod
      → (e : Delegation) × (find_delegation v (delegations_of a (undelegate p a v n).1.delegations)
          ≡ some e)
        × (e.amount + n ≡ d.amount)
        × (e.shares + n ≡ d.shares)
        × (e.amount * share_precision < e.shares)
  undelegate_keeps_shares ds d here found first pos part fits =
      let (_, rest) = undelegate_rest ds d here found (omega arith) in
      let updated = find-update_first v (reduce n) d ds (λ x. refl) found in
      (reduce n d, rw rest (ground arith), omega arith, omega arith, omega arith)

  -- Taking back the whole of the first delegation to a validator drops all delegations to it, so
  -- what the delegator had delegated to it beside that one can no longer be taken back.
  undelegate_drops_others :
      (ds : List Delegation) (d : Delegation) (m : ℕ)
      → lookup a p.delegations ≡ some ds
      → find_delegation v ds ≡ some d
      → n ≡ d.amount
      → d.amount < u64_mod
      → let p' = (undelegate p a v n).1 in
        ((undelegate p a v n).0 ≡ ok tt)
        × (find_delegation v (delegations_of a p'.delegations) ≡ none)
        × ((undelegate p' a v m).1 ≡ p')
  undelegate_drops_others ds d m here found whole fits =
      let (done, rest) = undelegate_rest ds d here found (omega arith) in
      let gone : find_delegation v (delegations_of a (undelegate p a v n).1.delegations) ≡ none =
        rw rest (ground (arith, find-retain v (update_first v (reduce n) ds))) in
      (done, gone, undelegate_absent (undelegate p a v n).1 a v m gone)

  abbrev entry : UnbondingEntry
  entry = record {
    delegator = a;
    validator = v;
    amount = n;
    completion_epoch = add64 p.current_epoch p.config.unbonding_period;
  }

  undelegate_moves :
      (ds : List Delegation) (d : Delegation)
      → lookup a p.delegations ≡ some ds
      → find_delegation v ds ≡ some d
      → n ≤ d.amount
      → ((undelegate p a v n).1.validators ≡ withdraw_stake v n p.validators)
        × ((undelegate p a v n).1.unbonding ≡ p.unbonding ++ entry ∷ [])
  unfolding undelegate
  undelegate_moves ds d here found enough = ground arith

  abbrev delegated : Validator → Delegation
  delegated w = record {
    delegator = a;
    validator = v;
    amount = n;
    shares = issued_shares n (total_shares v p.delegations) w.stake;
    last_claim_epoch = p.current_epoch;
  }

  delegate_moves :
      (w : Validator)
      → get p.validators v ≡ some w
      → p.config.min_delegation ≤ n
      → let p' = (delegate p a v n).1 in
        (lookup a p'.delegations ≡ some (delegations_of a p.delegations ++ delegated w ∷ []))
        × (p'.validators ≡ (apply_change p.validators (stake_increase v n)).1)
        × (p'.unbonding ≡ p.unbonding)
        × (p'.config ≡ p.config)
        × (p'.current_epoch ≡ p.current_epoch)
  unfolding delegate apply_change
  delegate_moves w known enough = ground arith

  -- Stake put in and taken out again.
  stake_back :
      (w : Validator)
      → IsConsistent p.validators
      → stakes p.validators + n < u64_mod
      → get p.validators v ≡ some w
      → let s = withdraw_stake v n (apply_change p.validators (stake_increase v n)).1 in
        (get s v ≡ some w) × (s.total_stake ≡ p.validators.total_stake)
  unfolding apply_change
  stake_back w c room known =
      let more = λ (x : Validator). record x { stake = add64 x.stake n } in
      let less = λ (x : Validator). record x { stake = saturating_sub64 x.stake n } in
      let put = lookup-modify v v more w p.validators.validators known in
      ground (
        arith,
        put,
        lookup-modify v v less (more w) (modify v more p.validators.validators),
        le-sum_of_lookup stake_of w v p.validators.validators known,
      )

-- A first delegation to a validator and the undelegation of its amount: the delegations of the
-- delegator, the stake of the validator and the total are as before, and the amount is in the
-- unbonding queue until the end of the period.
pub undelegate-delegate :
    (p : ProofOfStake) (a v : Address) (n : ℕ) (w : Validator)
    → IsConsistent p.validators
    → stakes p.validators + n < u64_mod
    → get p.validators v ≡ some w
    → find_delegation v (delegations_of a p.delegations) ≡ none
    → p.config.min_delegation ≤ n
    → let p' = (undelegate (delegate p a v n).1 a v n).1 in
      ((undelegate (delegate p a v n).1 a v n).0 ≡ ok tt)
      × (delegations_of a p'.delegations ≡ delegations_of a p.delegations)
      × (get p'.validators v ≡ some w)
      × (p'.validators.total_stake ≡ p.validators.total_stake)
      × (p'.unbonding
          ≡ p.unbonding
            ++ record {
              delegator = a;
              validator = v;
              amount = n;
              completion_epoch = add64 p.current_epoch p.config.unbonding_period;
            }
              ∷ [])
undelegate-delegate p a v n w c room known absent enough =
    let p1 = (delegate p a v n).1 in
    let old = delegations_of a p.delegations in
    let (held, moved, waiting, config, epoch) = delegate_moves p a v n w known enough in
    let found = find-append v old (delegated p a v n w) absent refl in
    let (done, rest) =
      undelegate_rest p1 a v n (old ++ delegated p a v n w ∷ []) (delegated p a v n w) held found
        (omega arith) in
    let (set, queue) =
      undelegate_moves p1 a v n (old ++ delegated p a v n w ∷ []) (delegated p a v n w) held found
        (omega arith) in
    let kept = retain-update_append v (reduce n) old (delegated p a v n w) absent refl refl in
    let (stake, total) = stake_back p a v n w c room known in
    (
      done,
      rest ∙ ground (arith, kept),
      rw (set, moved) stake,
      rw (set, moved) total,
      rw (queue, waiting, config, epoch) refl,
    )
