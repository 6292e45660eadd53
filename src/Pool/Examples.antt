-- ===== src/Pool/Examples.antt =====
-- The pool on small queues: a node at height 6, whose senders are the recipients and whose encoded
-- sizes are 100.
use ngcore.Base.{
  ℕ, ◌≡◌, ◌≤◌, ◌<◌, ◌⊎◌, refl, true, none, some, List, [], ◌∷◌, length, ◌==◌, Bool-cases, inl, inr,
  arith,
}
use ngcore.Base.Int.{pos}
use ngcore.Types.{FullTx, FullBlock, Address}
use ngcore.Forks.{zeronet, is_fork_active, fork_height}
use ngcore.Fee.{next_base_fee, update_base_fee, sane_parent, block_used_bytes, check_tx_base_fee}
use ngcore.Maps.{Map, Distinct, lookup, insert, erase}
use ngcore.Pool.{
  TxPool, cheapest_entry, cheapest_from, cheaper, next_height, consensus_floor,
  effective_floor_per_byte, clears_floor, admit, place_tx, put_tx,
}
use ngcore.Pool.Env.{PoolEnv, ok}
use ngcore.Pool.Admission.{IsAdmissible, IsValid, put_tx-IsValid}
use ngcore.Pool.Effects.{put_tx-replaces, put_tx-keeps}
use ngcore.Pool.Floor.{check_tx_base_fee-admissible}

abbrev tx_of : Address → ℕ → FullTx
tx_of to fee = record {
  network = zeronet;
  type = 2;
  height = 7;
  to = to;
  value = 0;
  fee = fee;
  extra = [];
  sign = [];
  salt = [];
}

abbrev node : PoolEnv
node = record {
  latest_height = 6;
  tip = none;
  tx_size = λ tx. some 100;
  commit_size = λ c. some 100;
  tx_from = λ tx. some tx.to;
  commit_from = λ c. none;
  check_tx = λ tx. true;
  check_commitment = λ c h. true;
}

abbrev pool_of : Map FullTx → List FullTx → TxPool
pool_of m announced = record {
  tx_map = m;
  commit_map = [];
  max_size = 2;
  min_fee_per_byte = 0;
  announced = announced;
  announced_commits = [];
}

-- A pool that is full, and the pool after a better transaction of a third sender.
abbrev full : TxPool
full = pool_of ((1, tx_of 1 50) ∷ (2, tx_of 2 30) ∷ []) []

abbrev evicted : TxPool
evicted = pool_of ((1, tx_of 1 50) ∷ (3, tx_of 3 40) ∷ []) (tx_of 3 40 ∷ [])

abbrev replaced : TxPool
replaced = pool_of ((1, tx_of 1 50) ∷ (2, tx_of 2 40) ∷ []) (tx_of 2 40 ∷ [])

evicts : put_tx node full (tx_of 3 40) ≡ ok evicted
unfolding put_tx next_height clears_floor effective_floor_per_byte consensus_floor place_tx admit
    lookup insert erase cheapest_entry cheapest_from cheaper
evicts = refl

replaces : put_tx node full (tx_of 2 40) ≡ ok replaced
unfolding put_tx next_height clears_floor effective_floor_per_byte consensus_floor place_tx admit
    lookup insert erase
replaces = refl

entry : (a : Address) (tx : FullTx) → lookup a full.tx_map ≡ some tx → IsAdmissible node full a tx
unfolding lookup clears_floor effective_floor_per_byte consensus_floor next_height
entry a tx e = elim (Bool-cases (1 == a)) [
  | inl first ↦ record {
    sender = ground arith;
    height = ground arith;
    checked = refl;
    priced = refl;
  }
  | inr later ↦ elim (Bool-cases (2 == a)) [
    | inl second ↦ record {
      sender = ground arith;
      height = ground arith;
      checked = refl;
      priced = refl;
    }
    | inr other ↦ ground arith
  ]
]

full-IsValid : IsValid node full
unfolding lookup
full-IsValid = record { distinct = (refl, (refl, tt)); entries = entry; bounded = omega arith }

put_tx-IsValid_example : IsValid node evicted
put_tx-IsValid_example = put_tx-IsValid node full evicted (tx_of 3 40) full-IsValid evicts

held : lookup 2 full.tx_map ≡ some (tx_of 2 30)
unfolding lookup
held = refl

put_tx-replaces_example : (lookup 2 replaced.tx_map ≡ some (tx_of 2 40)) × (30 < 40)
put_tx-replaces_example =
    put_tx-replaces node full replaced (tx_of 2 40) 2 (tx_of 2 30) replaces refl held

put_tx-keeps_example :
    (lookup 2 evicted.tx_map ≡ some (tx_of 2 30))
    ⊎ ((2 ≤ length full.tx_map)
        × ((c : Address) (t : FullTx)
            → lookup c full.tx_map ≡ some t
            → (30 < t.fee) ⊎ ((30 ≡ t.fee) × (c ≤ 2)))
        × (30 < 40))
put_tx-keeps_example =
    put_tx-keeps node full evicted (tx_of 3 40) 3 2 (tx_of 2 30) full-IsValid evicts refl
      (omega arith) held

cheapest : cheapest_entry full.tx_map ≡ some (2, 30)
unfolding cheapest_entry cheapest_from cheaper
cheapest = refl

abbrev turned : Map FullTx
turned = (2, tx_of 2 30) ∷ (1, tx_of 1 50) ∷ []

same_lookups : (k : ℕ) → lookup k full.tx_map ≡ lookup k turned
unfolding lookup
same_lookups k = elim (Bool-cases (1 == k)) [
  | inl first ↦ elim (Bool-cases (2 == k)) [
    | inl both ↦ absurd (ground arith)
    | inr other ↦ rw (first, other) refl
  ]
  | inr later ↦ rw later refl
]

turned-Distinct : Distinct turned
unfolding lookup
turned-Distinct = (refl, (refl, tt))

abbrev tip : FullBlock
tip = record {
  header = record {
    network = zeronet;
    height = 6;
    timestamp = 0;
    prev_block_hash = 0;
    tx_trie_hash = 0;
    witness_root = 0;
    difficulty = 1;
    coinbase = 0;
    uncles_hash = 0;
    state_root = 0;
    base_fee = 20000000000;
    nonce = [];
  };
  txs = [];
  uncles = [];
  commits = [];
}

-- The block above the tip.
abbrev child : FullBlock
child = record tip {
  header = record tip.header {
    height = 7;
    base_fee =
        next_base_fee zeronet 6 (some (pos 20000000000)) (block_used_bytes (λ tx. some 100) tip);
  };
}

abbrev fee_node : PoolEnv
fee_node = record node { tip = some tip }

paid : IsAdmissible fee_node full 5 (tx_of 5 2000000000000)
unfolding clears_floor effective_floor_per_byte consensus_floor next_height is_fork_active
    fork_height next_base_fee update_base_fee sane_parent block_used_bytes
paid = record { sender = refl; height = refl; checked = refl; priced = refl }

check_tx_base_fee-admissible_example :
    check_tx_base_fee (λ tx. some 100) child (tx_of 5 2000000000000) ≡ none
check_tx_base_fee-admissible_example =
    check_tx_base_fee-admissible fee_node full 5 (tx_of 5 2000000000000) tip child refl refl refl
      refl paid
