-- ===== src/Accounts.antt =====
-- The plain state (ngstate/state_helper.go): balances, contract slots, the shared modules of code,
-- the key registry, the commitments and the beacon, with the slot's context (ngtypes/contract.go, ngtypes/contract_context.go).
-- An address is a number. A context's reserved entries are fields, and the others a list. The remote
-- state of a lazy fork, which a node does not have, is left out.
pub mod Code
pub mod Shared
pub mod Writes
pub mod Journal
pub mod Effects
pub mod Moves
pub mod Rent
pub mod Flush
pub mod Keys
pub mod Beacon
pub mod Deps
pub mod Run
pub mod Apply
pub mod Supply
pub mod Charges
pub mod Deploys
pub mod Issuance
pub mod Generates
pub mod Check
pub mod Admitted
pub mod Reach
pub mod Steps
pub mod BlockSteps
pub mod Unwind
pub mod Registry
mod Examples
use ngcore.Base.{
  ℕ, zero, suc, ◌+◌, ◌-◌, ◌/◌, ◌^◌, Bool, true, false, not, ◌&&◌, Option, none, some, List, [], ◌∷◌,
  ltb, leb, ◌==◌, length, bytes_eq, if◌then◌else◌,
}
use ngcore.Forks.{Network}
use ngcore.Types.{Address, Hash, Bytes}
use ngcore.Maps.{Map, lookup, insert, erase}
use ngcore.Changeset.{Domain, Recorder, write, remove}
use ngcore.Commits.{CommitStore}
use Code.{CodeBucket, load_code, reconcile_code, drop_code}

-- 32 bytes of 0x01.
abbrev pub storage_deposit_escrow : Address
storage_deposit_escrow = (256 ^ 32 - 1) / 255

-- An entry's key is a byte string. `active`, `refs`, `deps` and `rent` are the reserved entries.
pub record ContractContext : Type 0 where
  pub active : Bool
  pub refs : ℕ
  pub deps : List Address
  pub rent : ℕ
  pub entries : List (Bytes × Bytes)

abbrev pub empty_context : ContractContext
empty_context = record { active = false; refs = 0; deps = []; rent = 0; entries = [] }

pub record Contract : Type 0 where
  pub owner : Address
  pub source : Bytes
  pub context : ContractContext

pub record StoredContract : Type 0 where
  pub owner : Address
  pub code_hash : Hash
  pub context : ContractContext

-- `recorder` is the changeset of the block that is being applied.
pub record State : Type 0 where
  pub network : Network
  pub recorder : Recorder
  pub balances : Domain ℕ
  pub slots : Domain StoredContract
  pub code : CodeBucket
  -- scheme ‖ key; the registry has no index of change heights.
  pub keys : Domain Bytes
  pub commits : CommitStore
  -- The seed of the randomness beacon, its leaf, and its pre-image at each height.
  pub beacon : Option Hash
  pub beacon_leaf : Option Hash
  pub beacon_changes : Map (Option Hash)

-- A zero balance has no leaf.
unfoldable pub balance_leaf : ℕ → Option ℕ
balance_leaf n = if n == 0 then none else some n

-- The leaf of a slot is what is stored.
abbrev pub slot_leaf : StoredContract → Option StoredContract
slot_leaf = some

pub amount_or_zero : Option ℕ → ℕ
amount_or_zero none = 0
amount_or_zero (some n) = n

-- `getBalance`
unfoldable pub get_balance : State → Address → ℕ
unfolding amount_or_zero
get_balance s a = amount_or_zero (lookup a s.balances.current)

-- `setBalance`
unfoldable pub set_balance : State → Address → ℕ → State
unfolding write balance_leaf
set_balance s a n = record s { balances = write balance_leaf s.recorder a n s.balances }

-- `Contract.IsActive` and the test of an empty source.
unfoldable pub is_live : Contract → Bool
is_live c = c.context.active && not (length c.source == 0)

-- `decodeStoredContract`
unfoldable pub decode_stored_contract : CodeBucket → StoredContract → Contract
unfolding load_code
decode_stored_contract code stored = record {
  owner = stored.owner;
  source = load_code code stored.code_hash;
  context = stored.context;
}

-- `getContract`
unfoldable pub get_contract : State → Address → Option Contract
unfolding decode_stored_contract
get_contract s a = elim (lookup a s.slots.current) [
  | none ↦ none
  | some stored ↦ some (decode_stored_contract s.code stored)
]

-- `contractExists`
unfoldable pub contract_exists : State → Address → Bool
contract_exists s a = elim (lookup a s.slots.current) [ none ↦ false | some stored ↦ true ]

-- What a recorder makes of reclaiming code: an archive keeps it.
pub keeps_history : Recorder → Bool
keeps_history none = false
keeps_history (some h) = true

pub stored_hash : Option StoredContract → Option Hash
stored_hash none = none
stored_hash (some stored) = some stored.code_hash

module _ (hash256 : Bytes → Hash) where
  -- `setContract`
  unfoldable pub set_contract : State → Contract → State
  unfolding write reconcile_code keeps_history stored_hash
  set_contract s c =
      let old = stored_hash (lookup c.owner s.slots.current) in
      let stored : StoredContract = record {
        owner = c.owner;
        code_hash = hash256 c.source;
        context = c.context;
      } in
      record s {
        code = reconcile_code (keeps_history s.recorder) old (hash256 c.source) c.source s.code;
        slots = write slot_leaf s.recorder c.owner stored s.slots;
      }

-- `delContract`
unfoldable pub del_contract : State → Address → State
unfolding remove drop_code keeps_history stored_hash
del_contract s a = record s {
  code = drop_code (keeps_history s.recorder) (stored_hash (lookup a s.slots.current)) s.code;
  slots = remove slot_leaf s.recorder a s.slots;
}
