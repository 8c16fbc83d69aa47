-- ===== src/Lib.antt =====
-- Nexus chain: the DAG and its finality, validators, BFT consensus, proof of stake, gas and EVM
-- state, transactions, the mempool and ISO 8583 messages.
--
-- The program is a set of Rust crates. crates/nexus-consensus keeps the validator set of an epoch
-- and lets a BFT engine decide which vertices of the DAG are final; its staking module moves stake
-- between delegators and validators and pays rewards. crates/nexus-evm runs transactions on
-- accounts and storage and meters their gas. crates/nexus-dag keeps the graph of vertices, chooses
-- parents for new ones, and collects votes into finality proofs that move the finalized height of
-- the graph. crates/nexus-primitives has the numbers, hashes, signatures and transactions of all
-- of them, crates/nexus-rpc holds transactions until a vertex takes them, and crates/nexus-iso
-- reads and writes card messages.
--
-- What is modelled, and where:
--
--   - Consensus/Validator: crates/nexus-consensus/src/validator.rs. `ValidatorSet` keeps a map
--     and a running total; `advance_epoch` of the registry applies the queued changes; `slash` and
--     the history of the sets.
--   - Consensus/Bft: crates/nexus-consensus/src/bft.rs. Messages.antt has the messages and the
--     round state, Engine.antt the votes (`on_prepare`, `on_commit` and the own votes),
--     Proposals.antt `propose` and `on_proposal`, Views.antt the view changes and the accessors,
--     Leader.antt the two leader rules. Calls.antt runs sequences of calls. The engine asks the
--     validator set for stakes, supermajorities and public keys.
--   - Consensus/Pos: crates/nexus-consensus/src/pos.rs. State.antt has registration, delegation
--     and undelegation, Rewards.antt the end of an epoch, rewards, claims and the leader of a
--     slot.
--   - Evm/Gas: crates/nexus-evm/src/gas.rs. The schedule, the meter of a transaction, the fee
--     market, and the storage writes.
--   - Evm/State: crates/nexus-evm/src/state.rs. `StateDb` and, in Journal.antt, `JournaledState`
--     with its checkpoints.
--   - Primitives: crates/nexus-primitives/src/types.rs. U256.antt has the four limbs with their
--     loops and bytes, Number.antt the operators on the numbers that they stand for, which the
--     other parts use. The quotient of `checked_div` is taken from the numbers: its loop over the
--     bits is not modelled.
--   - Primitives/Merkle and Primitives/Signature: crates/nexus-primitives/src/crypto.rs, the
--     Merkle root, the hash of a vertex, signatures and keys. Primitives/Transaction:
--     crates/nexus-primitives/src/transaction.rs without the RLP decoding. Primitives/Errors: the
--     variants of crates/nexus-primitives/src/error.rs that these give.
--   - Dag/Vertex and Dag/Graph: crates/nexus-dag/src/vertex.rs and dag.rs. Graph.antt has the
--     insertion of vertices and of those that wait for parents, Queries.antt the queries, `prune`
--     and the searches.
--   - Dag/Finality: crates/nexus-dag/src/finality.rs. The gadget, its votes and proofs;
--     Candidate.antt asks the graph for a common ancestor of its tips, and `apply_proof` sets the
--     finalized height of the graph.
--   - Dag/Tips: the parts of crates/nexus-dag/src/tip_selection.rs without random numbers, on
--     the graph's searches.
--   - Iso/Iso8583: crates/nexus-iso/src/iso8583.rs. Where the source moves `pos` through the
--     data, the model passes on what is left.
--   - Rpc/Mempool: crates/nexus-rpc/src/mempool.rs.
--   - Base: words, maps, lists, bytes and signed integers that the parts share.
--
-- How it is modelled. A method takes `self` and returns it beside its result. A lock that guards
-- one call is left out, and with two of them their order (Rpc/Mempool); the one that a call takes
-- while it reads the same value is the parameter `grants_write` of `on_proposal`. A hash map is an
-- association list over numeric keys (Base/Map.antt), in some order of iteration that no theorem
-- fixes. The release profile of Cargo.toml leaves overflow checks off, so `+`, `-` and `*` on
-- machine words wrap around and are written with their `%`; casts are `%` too. Outside
-- Primitives/U256 a `U256` is a number below 2^256, and a panic of its operators is `none`. Error
-- texts are constructors. The crates k256 and sha3 are the parameter `Crypto` of the engine, k256,
-- sha3 and blake3 the record `Secp` of the transactions and the DAG, and the hash function a
-- parameter elsewhere; the theorems about the own votes assume that ECDSA verifies what the key
-- signs.
--
-- The theorems about the graph have a parameter `origin`, the parents that a hash stands for: that
-- two vertices with one hash have the same parents is what a hash function without collisions
-- gives, since the hashed bytes fix the parents (Primitives/Merkle/Bytes.antt).
--
-- Loops over lists are structural recursion. The loop of `revert_checkpoint` pops the journal and
-- recurses on it. Fuel bounds four loops: the levels of the Merkle tree, by the number of hashes;
-- the calls between `insert_vertex` and `process_orphans`, by the number of waiting vertices, of
-- which each call takes one; and the searches over a queue, by the number of parent or child
-- links, each of which enters the queue once. For the Merkle tree, the insertion and `is_ancestor`
-- a theorem says that the fuel is enough.
--
-- Not modelled: the random strategies of the tip selection, the RLP decoding of transactions, the
-- executor and precompiles, the trie, checkpoints and storage backend, network, RPC, node, ISO
-- 20022 messages and zero-knowledge proofs. The validators' key generation and the engine's
-- message channel are input and output. `max_validators` is kept in the set and no operation reads
-- it.
pub mod Base
pub mod Primitives
pub mod Consensus
pub mod Evm
pub mod Dag
pub mod Iso
pub mod Rpc
