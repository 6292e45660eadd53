-- ===== src/Lib.antt =====
-- A model of ngcore, a proof-of-work node with a commit-reveal mempool, and what holds of it.
--
-- Digests and addresses are numbers, compared as their big-endian bytes; amounts are numbers, since
-- the wire format carries no negative integer. Hashes, signatures, RLP and `sort.Slice` are library
-- code and are arguments. A call under a lock or in one database transaction is one step: an error
-- is a result without a new state.
--
-- Base: shared names, Boolean tests, lists, 64-bit words and integers.
-- Params: the constants of ngtypes/defaults.go and the height lines of blockchain/fork.go.
-- Types: transactions, commitments, headers and blocks (ngtypes/tx.go, ngtypes/commitment.go,
--   ngtypes/block_header.go, ngtypes/block.go).
-- Forks: the schedule and the active fork (ngtypes/forks.go).
-- Fee: the base fee (ngtypes/feemarket.go, `checkTxBaseFee` of ngstate/state_check.go).
-- Reward: the reward curve (ngtypes/reward_curve.go).
-- Difficulty: `GetNextDiff` (ngtypes/difficulty.go); a panic is `none`.
-- Trie: the sparse Merkle tree (statetrie/statetrie.go). Trie.Keys, Trie.Paths and Trie.Consistent
--   are about its nodes, Trie.Proofs, Trie.History, Trie.Canonical and Trie.Binding about its users.
-- Maps: Go maps and database buckets with one kind of key.
-- Pool: the transaction pool (ngpool/pool.go, ngpool/pool_put.go), and Pool.Pack the block template
--   (ngpool/pool_get.go). Pool.Env is what the pool reads of the chain and the state.
-- Commits: the commit-reveal store (ngstate/commit.go), and Commits.Reveal its users `consumeReveal`
--   and `checkReveal` (ngstate/state_handle.go, ngstate/state_check.go).
-- Blocks: the block store (ngblocks). `putBlock`, `PutSideBlock`, `PruneSideBlocks` and
--   `SwitchToBranch` act on the bodies, the height index and the side marks. Blocks.Linked states
--   what a linked chain is; Blocks.Branch, Blocks.Marks and Blocks.Rewrite follow `SwitchToBranch`.
-- Chain: fork choice (blockchain/fork.go, blockchain/check_block.go, blockchain/pow_chain.go) on top
--   of Blocks, Difficulty and Fee. Chain.Branches is about `collectBranch`, and Chain.Takeover goes from
--   the side path to the end of `SwitchToBranch`.
--
-- Envelope: signature envelopes, senders and signing (ngtypes/tx.go, ngtypes/commitment.go,
--   ngtypes/keys.go, ngtypes/address.go). The packages of the cryptography are the record `Crypto`.
-- Changeset: a state domain with its archive and its leaves (ngstate/changeset.go, with the write of
--   `setBalance` and its kin): `revertDomain`, `balanceAtHeight`.
-- Accounts: the plain state (ngstate/state_helper.go). Accounts.Code is the bucket of shared modules,
--   Accounts.Keys the key registry, Accounts.Beacon ngstate/beacon.go, Accounts.Deps ngstate/deps.go,
--   Accounts.Journal one contract execution (ngstate/journal.go, ngstate/rent.go and the host functions
--   of ngstate/imports_kv.go and ngstate/imports_coin.go), Accounts.Run `runContract`, Accounts.Apply
--   the handlers and `Upgrade` (ngstate/state_handle.go, ngstate/state.go), Accounts.Generates and
--   Accounts.Check the checks of ngstate/state_check.go, Accounts.Unwind `unwindHeightTxn`.
--   Accounts.Moves and Accounts.Reach are relations of steps: the moves of a contract's run, and the
--   writes of a block; Accounts.Rent, Accounts.Supply and Accounts.Unwind go by induction on them.
--   Accounts.Writes are stores and deletions of contract slots.
-- Orphans: the blocks that came before their parents (consensus/orphan_pool.go).
-- Relay: the held commitments and reveals (ngpool/relay.go), on top of Accounts and Commits; its
--   heights are taken to be so far below 2 ^ 64 that the sums of the windows do not wrap around.
--
-- A contract call is the list of the host functions that the engine asks for, which is an argument
-- (`Engine.run`); the model executes them on the journal, and a trap drops it. The reserved entries of
-- a contract's context (`_active`, `_refs`, `_deps`, `_rent`) are fields of their own.
--
-- Fuel: the walk of `cumulativeWork` takes one step for each link to the origin or to a memoized
-- block, and more fuel than links is enough; the walk over a block's ancestors takes at most as many
-- steps as the height of the block, where each stored parent is one lower than its child.
--
-- Not modelled: the wasm engine and the imports that only read, receipts and events, the sheets and
-- rebuilds of a whole state and the remote state of a lazy fork, the transaction index of ngblocks,
-- the fast path of `ApplyBlock`, which hands the block to the state, the checks of a block's own form,
-- network synchronisation, peer-to-peer, JSON-RPC, the light client and the command line.
pub mod Accounts
pub mod Base
pub mod Params
pub mod Types
pub mod Forks
pub mod Envelope
pub mod Fee
pub mod Orphans
pub mod Relay
pub mod Reward
pub mod Difficulty
pub mod Trie
pub mod Maps
pub mod Pool
pub mod Commits
pub mod Blocks
pub mod Chain
pub mod Changeset
