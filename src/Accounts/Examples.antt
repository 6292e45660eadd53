-- ===== src/Accounts/Examples.antt =====
-- A block with a generate and a transfer to a contract, which pays on and stores an entry.
use ngcore.Base.{
  ℕ, zero, suc, ◌+◌, ◌*◌, ◌^◌, ◌≡◌, ◌≢◌, ◌≤◌, ◌<◌, refl, Bool, true, false, Option, none, some,
  List, [], ◌∷◌, ◌==◌, All, length, inl, inr, Bool-cases, arith, if◌then◌else◌,
}
use ngcore.Forks.{zeronet}
use ngcore.Types.{Address, Hash, FullTx, FullBlock, generate_tx, transact_tx}
use ngcore.Maps.{Map, lookup}
use ngcore.Changeset.{value_at_height}
use ngcore.Changeset.Leaves.{IsMirror}
use ngcore.Reward.{get_block_reward}
use ngcore.Envelope.{Crypto}
use ngcore.Envelope.Toy.{toy, toy_hash, toy_key, payer, salt16, signed_by}
use ngcore.Accounts.{
  State, StoredContract, Contract, empty_context, balance_leaf, slot_leaf, get_contract,
  set_contract, del_contract,
}
use ngcore.Accounts.Journal.{
  VmJournal, new_vm_journal, HostOp, coin_transfer, kv_set, run_ops, flush, deposit_per_byte,
}
use ngcore.Accounts.Effects.{supply}
use ngcore.Accounts.Run.{Engine}
use ngcore.Accounts.Apply.{Step, ok, err, upgrade, handle_tx}
use ngcore.Accounts.Shared.{IsCounted, set_contract-IsCounted, del_contract-IsCounted}
use ngcore.Accounts.Writes.{sets, deletes, write_slots, get_contract-write_slots}
use ngcore.Accounts.Flush.{Healthy, flush-run_ops}
use ngcore.Accounts.Beacon.{update_beacon, revert_beacon, revert_beacon-update_beacon}
use ngcore.Accounts.Issuance.{all_burned, commit_fees}
use ngcore.Accounts.Generates.{uncle_rewards}
use ngcore.Accounts.Check.{check_block_txs, check_block_txs-supply, check_tx}
use ngcore.Accounts.Admitted.{Succeeds, check_tx-handle_tx}
use ngcore.Accounts.Unwind.{
  unwind_height, Same, Ready, unwind_height-upgrade, upgrade-balance_at_height,
}
use ngcore.Accounts.Keys.{IsRegistry}
use ngcore.Accounts.Registry.{upgrade-invariants}

abbrev shop : Address
shop = 77

abbrev shop_slot : StoredContract
shop_slot = record {
  owner = shop;
  code_hash = toy_hash (9 ∷ []);
  context = record { active = true; refs = 0; deps = []; rent = 0; entries = [] };
}

abbrev opening : State
opening = record {
  network = zeronet;
  recorder = none;
  balances = record {
    current = (payer, 100) ∷ (shop, 3 * deposit_per_byte) ∷ [];
    pre_images = [];
    history = (payer, 2) ∷ [];
    leaves = (payer, 100) ∷ (shop, 3 * deposit_per_byte) ∷ [];
  };
  slots = record {
    current = (shop, shop_slot) ∷ [];
    pre_images = [];
    history = [];
    leaves = (shop, shop_slot) ∷ [];
  };
  code = (toy_hash (9 ∷ []), (1, 9 ∷ [])) ∷ [];
  keys = record { current = []; pre_images = []; history = []; leaves = [] };
  commits = record { pending = ((4, 7), payer) ∷ []; spent = []; leaves = ((4, 7), payer) ∷ [] };
  beacon = some 11;
  beacon_leaf = some 11;
  beacon_changes = [];
}

abbrev calls : List HostOp
calls = coin_transfer shop 88 4 ∷ kv_set shop (1 ∷ []) (2 ∷ []) ∷ []

abbrev engine : Engine
engine = record {
  imports_of = λ source. some [];
  bs58_address = λ name. none;
  has_export = λ source entry. false;
  decode_commit_code = λ extra. none;
  run = λ s c tx time entry gas. record { gas_used = 5; calls = some calls };
}

abbrev reveal_hash : FullTx → Hash
reveal_hash tx = 7

abbrev reward : FullTx
reward = signed_by toy_key (record {
  network = zeronet;
  type = generate_tx;
  height = 5;
  to = payer;
  value = get_block_reward 5;
  fee = 0;
  extra = [];
  sign = [];
  salt = [];
})

abbrev purchase : FullTx
purchase = signed_by toy_key (record {
  network = zeronet;
  type = transact_tx;
  height = 5;
  to = shop;
  value = 20;
  fee = 3;
  extra = [];
  sign = [];
  salt = salt16;
})

abbrev block : FullBlock
block = record {
  header = record {
    network = zeronet;
    height = 5;
    timestamp = 0;
    prev_block_hash = 1;
    tx_trie_hash = 0;
    witness_root = 0;
    difficulty = 1;
    coinbase = payer;
    uncles_hash = 0;
    state_root = 0;
    base_fee = 0;
    nonce = [];
  };
  txs = reward ∷ purchase ∷ [];
  uncles = [];
  commits = [];
}

abbrev size_of : FullTx → Option ℕ
size_of tx = some 200

abbrev state_of : Step → State
state_of (ok s gas) = s
state_of (err e) = opening

abbrev gas_of : Step → ℕ
gas_of (ok s gas) = gas
gas_of (err e) = 0

abbrev closing : State
closing = state_of (upgrade toy engine reveal_hash true opening block)

abbrev left : ℕ
left = gas_of (upgrade toy engine reveal_hash true opening block)

abbrev is_ok : Step → Bool
is_ok (ok s gas) = true
is_ok (err e) = false

ok-parts : (st : Step) → is_ok st ≡ true → st ≡ ok (state_of st) (gas_of st)
ok-parts (ok s gas) e = refl
ok-parts (err x) e = absurd (ground arith)

block-is_ok : is_ok (upgrade toy engine reveal_hash true opening block) ≡ true
unfolding upgrade ngcore.Envelope.Sign.signature ngcore.Base.bytes_eq get_block_reward
    ngcore.Reward.decay ngcore.Commits.Reveal.consume_reveal ngcore.Commits.find_commit
    ngcore.Commits.find_from ngcore.Commits.Buckets.get lookup ngcore.Maps.insert
block-is_ok = refl

block-applies : upgrade toy engine reveal_hash true opening block ≡ ok closing left
block-applies = ok-parts (upgrade toy engine reveal_hash true opening block) block-is_ok

block-checks : check_block_txs toy engine reveal_hash size_of opening block ≡ none
unfolding check_block_txs ngcore.Envelope.Sign.signature ngcore.Reward.decay ngcore.Base.bytes_eq
    ngcore.Commits.find_commit ngcore.Commits.find_from ngcore.Commits.Buckets.get lookup
    ngcore.Forks.is_fork_active ngcore.Forks.fork_height
block-checks = refl

check_block_txs-supply_example :
    supply closing + all_burned block.txs + commit_fees block.commits
    ≡ supply opening + get_block_reward block.height + uncle_rewards block.height block.uncles
check_block_txs-supply_example =
    check_block_txs-supply toy engine reveal_hash size_of true opening closing block left
      block-checks block-applies

opening-balances : IsMirror balance_leaf opening.balances
unfolding lookup balance_leaf
opening-balances a = elim (Bool-cases (payer == a)) [
  | inl here ↦ ground arith
  | inr other ↦ elim (Bool-cases (shop == a)) [ inl here ↦ ground arith | inr away ↦ ground arith ]
]

opening-slots : IsMirror slot_leaf opening.slots
unfolding lookup
opening-slots a = elim (Bool-cases (shop == a)) [
  | inl here ↦ ground arith
  | inr away ↦ ground arith
]

opening-Ready : Ready opening 5
unfolding ngcore.Commits.Buckets.entries_at
opening-Ready = record {
  no_balances = refl;
  no_slots = refl;
  balance_leaves = opening-balances;
  slot_leaves = opening-slots;
}

unwind_height-upgrade_example :
    Same shop opening.balances (unwind_height closing 5).balances
    × Same shop opening.slots (unwind_height closing 5).slots
unwind_height-upgrade_example =
    unwind_height-upgrade toy engine reveal_hash opening closing block left shop opening-Ready
      block-applies

upgrade-balance_at_height_example :
    (value_at_height closing.balances payer 3 ≡ value_at_height opening.balances payer 3)
    × (value_at_height closing.balances payer 5 ≡ lookup payer closing.balances.current)
upgrade-balance_at_height_example =
    upgrade-balance_at_height toy engine reveal_hash opening closing block left payer 3
      opening-Ready (omega arith, tt) (omega arith) block-applies

upgrade-invariants_example :
    IsRegistry toy closing.keys.current
    × IsMirror balance_leaf closing.balances
    × IsMirror slot_leaf closing.slots
upgrade-invariants_example =
    upgrade-invariants toy engine reveal_hash true opening closing block left tt opening-balances
      opening-slots block-applies

abbrev shop_contract : Contract
shop_contract = record { owner = shop; source = 9 ∷ []; context = shop_slot.context }

abbrev journal_of : Option VmJournal → VmJournal
journal_of none = new_vm_journal shop_contract
journal_of (some j) = j

abbrev after_calls : VmJournal
after_calls = journal_of (run_ops opening true (new_vm_journal shop_contract) calls)

calls-run : run_ops opening true (new_vm_journal shop_contract) calls ≡ some after_calls
unfolding run_ops lookup new_vm_journal ngcore.Maps.insert
calls-run = refl

opening-Healthy : Healthy opening
opening-Healthy = record { owned = (refl, tt); solvent = omega arith }

flush-run_ops_example :
    (supply (flush toy_hash after_calls opening) ≡ supply opening)
    × Healthy (flush toy_hash after_calls opening)
unfolding get_contract lookup
flush-run_ops_example =
    flush-run_ops toy_hash opening shop shop_contract true calls after_calls opening-Healthy refl
      (omega arith, (omega arith, tt)) calls-run

opening-IsCounted : IsCounted opening
unfolding lookup
opening-IsCounted = record {
  counted = λ h. elim (Bool-cases (toy_hash (9 ∷ []) == h)) [
    | inl here ↦ ground arith
    | inr other ↦ ground arith
  ];
  distinct = (refl, tt);
}

abbrev copy : Contract
copy = record { owner = 99; source = 9 ∷ []; context = empty_context }

set_contract-IsCounted_example : IsCounted (set_contract toy_hash opening copy)
set_contract-IsCounted_example =
    set_contract-IsCounted toy_hash opening copy opening-IsCounted (omega arith)

-- Two slots share a module; one of them is deleted and another is stored.
abbrev unused : State
unused = record opening { slots = record opening.slots { current = [] }; code = [] }

abbrev other : Contract
other = record { owner = 98; source = 9 ∷ []; context = empty_context }

get_contract-write_slots_example :
    get_contract
      (write_slots toy_hash
        (write_slots toy_hash unused (sets copy ∷ sets other ∷ []))
        (deletes 99 ∷ sets copy ∷ deletes 99 ∷ []))
      98
    ≡ get_contract (write_slots toy_hash unused (sets copy ∷ sets other ∷ [])) 98
get_contract-write_slots_example =
    get_contract-write_slots toy_hash unused (sets copy ∷ sets other ∷ [])
      (deletes 99 ∷ sets copy ∷ deletes 99 ∷ []) 98 refl refl (omega arith)
      (omega arith, (omega arith, (omega arith, tt)))

del_contract-IsCounted_example :
    IsCounted (del_contract opening 99)
    × (get_contract (del_contract opening 99) shop ≡ get_contract opening shop)
del_contract-IsCounted_example =
    del_contract-IsCounted opening 99 shop opening-IsCounted (omega arith)

check_tx-handle_tx_example : Succeeds (handle_tx toy engine reveal_hash opening purchase 0 1000)
unfolding ngcore.Envelope.Sign.signature ngcore.Envelope.tx_from get_contract lookup check_tx
    ngcore.Commits.find_commit ngcore.Commits.find_from ngcore.Commits.Buckets.get
    ngcore.Base.bytes_eq
check_tx-handle_tx_example =
    check_tx-handle_tx toy engine reveal_hash size_of opening purchase payer 0 1000 refl refl refl
      refl

abbrev recording : State
recording = record opening { recorder = some 5 }

revert_beacon-update_beacon_example :
    ((revert_beacon (update_beacon toy_hash recording block) 5).beacon ≡ recording.beacon)
    × ((revert_beacon (update_beacon toy_hash recording block) 5).beacon_leaf
        ≡ recording.beacon_leaf)
unfolding lookup
revert_beacon-update_beacon_example =
    revert_beacon-update_beacon toy_hash recording block 5 refl refl refl
