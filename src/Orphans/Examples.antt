-- ===== src/Orphans/Examples.antt =====
-- Two orphans of one parent.
use ngcore.Base.{◌+◌, ◌≡◌, ◌≤◌, refl, true, false, [], ◌∷◌, ◌++◌, length}
use ngcore.Types.{Hash, FullBlock}
use ngcore.Orphans.{OrphanPool, add, max_orphan_blocks, take_children, waiting, is_waiting}
use ngcore.Maps.{lookup, insert}
use ngcore.Maps.Weigh.{weigh}
use ngcore.Orphans.Delivery.{arrives, run_events, take_children-add}

-- The digest of an example block is its state root.
abbrev digest : FullBlock → Hash
digest b = b.state_root

abbrev orphan : Hash → Hash → FullBlock
orphan prev hash = record {
  header = record {
    network = 0;
    height = 9;
    timestamp = 0;
    prev_block_hash = prev;
    tx_trie_hash = 0;
    witness_root = 0;
    difficulty = 1;
    coinbase = 0;
    uncles_hash = 0;
    state_root = hash;
    base_fee = 0;
    nonce = [];
  };
  txs = [];
  uncles = [];
  commits = [];
}

-- Two orphans of different parents have come.
abbrev two_waiting : OrphanPool
two_waiting = record { by_prev = (7, orphan 7 70 ∷ []) ∷ (8, orphan 8 80 ∷ []) ∷ []; count = 2 }

-- A third waits for the parent of the first.
abbrev three_waiting : OrphanPool
three_waiting = record {
  by_prev = (7, orphan 7 70 ∷ orphan 7 71 ∷ []) ∷ (8, orphan 8 80 ∷ []) ∷ [];
  count = 3;
}

arrived :
    add digest
      (orphan 7 71)
      (run_events digest (arrives (orphan 8 80) ∷ arrives (orphan 7 70) ∷ []))
    ≡ (true, three_waiting)
unfolding add run_events waiting is_waiting lookup insert
arrived = refl

twice : (add digest (orphan 7 70) three_waiting).0 ≡ false
unfolding add waiting is_waiting lookup
twice = refl

take_children-add_example :
    (three_waiting.count ≡ weigh length three_waiting.by_prev)
    × (three_waiting.count ≤ max_orphan_blocks)
    × (is_waiting digest 71 (waiting 7 two_waiting) ≡ false)
    × ((take_children 7 three_waiting).0 ≡ waiting 7 two_waiting ++ (orphan 7 71 ∷ []))
    × ((take_children 7 three_waiting).1.count + length (waiting 7 two_waiting) + 1
        ≡ three_waiting.count)
    × ((take_children 7 (take_children 7 three_waiting).1).0 ≡ [])
unfolding run_events add waiting is_waiting lookup insert
take_children-add_example =
    take_children-add digest (arrives (orphan 8 80) ∷ arrives (orphan 7 70) ∷ []) (orphan 7 71)
      three_waiting arrived
