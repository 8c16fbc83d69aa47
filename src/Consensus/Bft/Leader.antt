-- ===== src/Consensus/Bft/Leader.antt =====
-- The leader of a view in bft.rs: round robin over the active validators, and the weighted choice.
use nexus_chain.Base.{
  ℕ, ◌/◌, ◌%◌, Bool, false, Option, none, some, List, [], ◌∷◌, ◌++◌, map, if◌then◌else◌, ◌==◌,
  length, get_elem?, sum128, to_le_bytes, u128_mod,
}
use nexus_chain.Consensus.Errors.{Address}
use nexus_chain.Consensus.Validator.{active_validators}
use nexus_chain.Consensus.Validator.Sampling.{pick}
use nexus_chain.Consensus.Bft.Crypto.{Crypto}
use nexus_chain.Consensus.Bft.Engine.{BftConsensus}

abbrev pub is_some_address : Option Address → Address → Bool
is_some_address none a = false
is_some_address (some b) a = b == a

-- `active.get(view % active.len()) == Some(address)`, and false on an empty list.
abbrev pub leads : List Address → ℕ → Address → Bool
leads [] view a = false
leads (x ∷ xs) view a = is_some_address (get_elem? (x ∷ xs) (view % length (x ∷ xs))) a

module _ (c : Crypto) where
  unfoldable pub is_leader : BftConsensus c → Bool
  is_leader b =
      leads (map (λ v. v.address) (active_validators b.validator_set)) b.state.view b.keys.address

  -- The first 16 bytes of the digest, read as a big-endian number.
  abbrev pub leader_rand : BftConsensus c → ℕ
  leader_rand b =
      c.keccak256 (to_le_bytes 8 b.state.view ++ to_le_bytes 8 b.state.epoch) / u128_mod % u128_mod

  unfoldable pub weighted_leader : BftConsensus c → Option Address
  weighted_leader b =
      let active = active_validators b.validator_set in
      let total_stake = sum128 (map (λ v. v.stake) active) in
      if total_stake == 0 then none else pick u128_mod 0 (leader_rand b % total_stake) active

  unfoldable pub is_weighted_leader : BftConsensus c → Address → Bool
  is_weighted_leader b my_addr = is_some_address (weighted_leader b) my_addr
