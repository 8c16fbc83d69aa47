-- ===== src/Consensus/Validator/Sampling.antt =====
-- The choice of a validator by its stake: the loop that bft.rs (over u128) and pos.rs (over u64)
-- share, for a word of `m` values.
use nexus_chain.Base.{
  ℕ, ◌+◌, ◌%◌, ◌≤◌, ◌<◌, ◌≡◌, refl, ap, true, false, Option, none, some, List, [], ◌∷◌, ◌++◌, map,
  arith, inl, inr, sum, ltb, if◌then◌else◌, Bool-cases, ltb→lt, ltb-false,
}
use nexus_chain.Consensus.Errors.{Address}
use nexus_chain.Consensus.Validator.{Validator}
use nexus_chain.Consensus.Validator.Stake.{stake_of}
use native.Mathlib.Nat.{mod-eq_of_lt}

-- The first validator whose running stake passes the target.
unfoldable pub pick : ℕ → ℕ → ℕ → List Validator → Option Address
pick m cum target [] = none
pick m cum target (v ∷ vs) =
    let cum' = (cum + v.stake) % m in
    let rest = pick m cum' target vs in if ltb target cum' then some v.address else rest

-- `v` is chosen from `vs` by the targets from `start` on, as many as its stake.
pub record IsChosen (start target : ℕ) (vs : List Validator) (v : Validator) : Type 0 where
  pub before : List Validator
  pub after : List Validator
  pub split : vs ≡ before ++ v ∷ after
  pub from : start + sum (map stake_of before) ≤ target
  pub to : target < start + sum (map stake_of before) + v.stake

IsChosen-cons :
    (start target : ℕ) (x v : Validator) (vs : List Validator)
    → IsChosen (start + x.stake) target vs v
    → IsChosen start target (x ∷ vs) v
IsChosen-cons start target x v vs h = record {
  before = x ∷ h.before;
  after = h.after;
  split = ap (λ l. x ∷ l) h.split;
  from = omega (arith, h.from);
  to = omega (arith, h.to);
}

module _ (m cum target : ℕ) (x : Validator) (vs : List Validator) (room : cum + x.stake < m) where
  exact : (cum + x.stake) % m ≡ cum + x.stake
  exact = mod-eq_of_lt room

  pick_here : ltb target (cum + x.stake) ≡ true → pick m cum target (x ∷ vs) ≡ some x.address
  unfolding pick
  pick_here passed = rw (exact, passed)

  pick_later :
      (a : Option Address)
      → ltb target (cum + x.stake) ≡ false
      → pick m (cum + x.stake) target vs ≡ a
      → pick m cum target (x ∷ vs) ≡ a
  unfolding pick
  pick_later a missed found = rw (exact, missed) found

-- While the stakes fit in the word, every target below their sum chooses a validator, and the one
-- in whose interval it lies.
pub pick_chooses :
    (m cum target : ℕ) (vs : List Validator)
    → cum ≤ target
    → target < cum + sum (map stake_of vs)
    → cum + sum (map stake_of vs) < m
    → (v : Validator) × (pick m cum target vs ≡ some v.address) × IsChosen cum target vs v
pick_chooses m cum target [] low high room = absurd (omega arith)
pick_chooses m cum target (x ∷ vs) low high room = elim (Bool-cases (ltb target (cum + x.stake))) [
  | inl passed ↦ (
    x,
    pick_here m cum target x vs (omega arith) passed,
    record {
      before = [];
      after = vs;
      split = refl;
      from = omega arith;
      to = omega (arith, ltb→lt target (cum + x.stake) passed);
    },
  )
  | inr missed ↦
      let (v, found, chosen) =
        pick_chooses m (cum + x.stake) target vs (ltb-false target (cum + x.stake) missed)
          (omega arith) (omega arith) in
      (
        v,
        pick_later m cum target x vs (omega arith) (some v.address) missed found,
        IsChosen-cons cum target x v vs chosen,
      )
]
