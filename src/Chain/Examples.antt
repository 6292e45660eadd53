-- ===== src/Chain/Examples.antt =====
-- Fork choice on a chain of two blocks, against a rival of the second with a lower digest.
use ngcore.Base.{
  ℕ, ap, ◌+◌, ◌^◌, ◌≡◌, ◌≤◌, ◌<◌, ◌⊎◌, inl, inr, refl, true, false, Option, none, some, [], ◌∷◌,
  arith, sub64, Bool-cases, ◌==◌,
}
use ngcore.Base.Int.{int64_of, ◌+ℤ◌, quo, ◌*ℤ◌, wrap64, ◌-ℤ◌}
use ngcore.Params.{finality_height, uncle_max_depth}
use ngcore.Types.{Hash, FullBlock, FullTx, BlockHeader}
use ngcore.Forks.{zeronet, is_fork_active, fork_height}
use ngcore.Fee.{next_base_fee, update_base_fee, sane_parent, block_used_bytes}
use ngcore.Difficulty.{
  get_next_diff, get_genesis_timestamp, minimum_diff_of, clamp_factor, raw_factor,
}
use ngcore.Maps.{lookup, insert}
use ngcore.Blocks.{
  ok, switch_to_branch, BlockStore, get_block_by_hash, get_latest_block, put_block_work,
  put_side_block,
}
use ngcore.Chain.{
  replaces_tip, cumulative_work, is_canonical, collect_branch, check_block_target, validate_uncles,
  ancestors_of, check_uncle, depth_of, check_uncles, lowest_ancestor,
}
use ngcore.Chain.Order.{choose, beats, choose_comm}
use ngcore.Chain.Work.{WorkTo, origin, above, IsMemo, Same, cumulative_work-WorkTo}
use ngcore.Chain.Finality.{reorg, check_branch_block, switch_if_open, choose_side, apply_side}
use ngcore.Chain.Branches.{Links, OffMain, IsFork}
use ngcore.Chain.Takeover.{IsTall, apply_side-reorg}
use ngcore.Blocks.Linked.{IsChain, some_block}
use ngcore.Chain.Uncles.{validate_uncles-Unique}
use ngcore.Pool.Pack.Lists.{Unique}

choose_comm_example :
    (choose (choose (5, 9) (7, 3)) (7, 2) ≡ choose (choose (5, 9) (7, 2)) (7, 3))
    × (beats (7, 3) (choose (choose (5, 9) (7, 3)) (7, 2)) ≡ false)
    × (beats (7, 2) (choose (choose (5, 9) (7, 3)) (7, 2)) ≡ false)
choose_comm_example = choose_comm (5, 9) (7, 3) (7, 2)

-- The digest of an example block is its state root.
abbrev digest : FullBlock → Hash
digest b = b.state_root

abbrev header_digest : BlockHeader → Hash
header_digest h = h.state_root

abbrev block_of : ℕ → ℕ → Hash → Hash → ℕ → FullBlock
block_of height timestamp prev hash difficulty = record {
  header = record {
    network = zeronet;
    height = height;
    timestamp = timestamp;
    prev_block_hash = prev;
    tx_trie_hash = 0;
    witness_root = 0;
    difficulty = difficulty;
    coinbase = 0;
    uncles_hash = 0;
    state_root = hash;
    base_fee = 10000000000;
    nonce = [];
  };
  txs = [];
  uncles = [];
  commits = [];
}

abbrev genesis : FullBlock
genesis = block_of 0 1603497600000 0 100 4096000

abbrev slot : Option ℕ
slot = get_next_diff 1 1603497615000 zeronet 1603497600000 4096000

abbrev first : FullBlock
first = block_of 1 1603497615000 100 101 4090500

abbrev rival : FullBlock
rival = block_of 1 1603497615000 100 50 4090500

abbrev chain : BlockStore
chain = record {
  bodies = (100, genesis) ∷ (101, first) ∷ [];
  canon = (0, 100) ∷ (1, 101) ∷ [];
  side = [];
  work = [];
  latest_height = 1;
  latest_hash = 101;
  origin_height = 0;
  origin_hash = 100;
}

slot_difficulty : slot ≡ some 4090500
unfolding get_next_diff get_genesis_timestamp minimum_diff_of clamp_factor raw_factor int64_of ◌+ℤ◌
    quo ◌*ℤ◌ wrap64 ◌-ℤ◌
slot_difficulty = refl

digests : (b : FullBlock) (g : Hash) → lookup g chain.bodies ≡ some b → digest b ≡ g
unfolding lookup
digests b g e = elim (Bool-cases (100 == g)) [
  | inl here ↦ ground arith
  | inr later ↦ elim (Bool-cases (101 == g)) [
    | inl here ↦ ground arith
    | inr other ↦ absurd (ground arith)
  ]
]

no-IsMemo : IsMemo chain
unfolding lookup
no-IsMemo = λ g w e. cc

first-WorkTo : WorkTo chain 101 1 8186500
unfolding lookup
first-WorkTo = above first 101 0 4096000 (omega arith) refl (origin genesis 100 refl refl)

first_held : lookup 101 chain.bodies ≡ some first
unfolding lookup
first_held = refl

cumulative_work-WorkTo_example :
    (s' : BlockStore) × (cumulative_work digest 2 chain first ≡ some (8186500, s'))
    × IsMemo s'
    × Same chain s'
cumulative_work-WorkTo_example =
    cumulative_work-WorkTo digest 2 chain first 1 8186500 digests no-IsMemo first_held first-WorkTo
      (omega arith)

abbrev weighed : BlockStore
weighed = record {
  bodies = (100, genesis) ∷ (101, first) ∷ (50, rival) ∷ [];
  canon = (0, 100) ∷ (1, 101) ∷ [];
  side = (50, 1) ∷ [];
  work = (100, 4096000) ∷ (50, 8186500) ∷ (101, 8186500) ∷ [];
  latest_height = 1;
  latest_hash = 101;
  origin_height = 0;
  origin_hash = 100;
}

abbrev size : FullTx → Option ℕ
size tx = some 100

wins :
    apply_side digest header_digest size (λ b. 4096000) (λ b. true) 3 chain rival
    ≡ reorg weighed (rival ∷ [])
unfolding apply_side choose_side switch_if_open check_branch_block check_block_target
    validate_uncles cumulative_work collect_branch is_canonical replaces_tip put_block_work
    put_side_block get_latest_block get_block_by_hash lookup insert get_next_diff
    get_genesis_timestamp minimum_diff_of clamp_factor raw_factor int64_of ◌+ℤ◌ quo ◌*ℤ◌ wrap64 ◌-ℤ◌
    next_base_fee update_base_fee sane_parent block_used_bytes is_fork_active fork_height
    finality_height
wins = refl

-- The chain with the rival stored beside it.
abbrev stored : BlockStore
stored = put_side_block digest chain rival

stored-bodies :
    (g : Hash) (b : FullBlock)
    → lookup g stored.bodies ≡ some b
    → ((g ≡ 100) × (genesis ≡ b)) ⊎ (((g ≡ 101) × (first ≡ b)) ⊎ ((g ≡ 50) × (rival ≡ b)))
unfolding put_side_block lookup insert
stored-bodies g b e = elim (Bool-cases (100 == g)) [
  | inl here ↦ inl (ground arith, some_block (ground arith))
  | inr later ↦ elim (Bool-cases (101 == g)) [
    | inl here ↦ inr (inl (ground arith, some_block (ground arith)))
    | inr other ↦ elim (Bool-cases (50 == g)) [
      | inl here ↦ inr (inr (ground arith, some_block (ground arith)))
      | inr nothing ↦ absurd (ground arith)
    ]
  ]
]

stored-IsTall : IsTall digest stored
unfolding put_side_block lookup insert
stored-IsTall = record {
  digests = λ g b e. ground (arith, stored-bodies g b e);
  small = λ g b e. ground (arith, stored-bodies g b e);
  rising = λ g b parent e f. ground (arith, stored-bodies g b e);
  origin = refl;
}

stored-IsChain : IsChain stored
unfolding put_side_block lookup insert
stored-IsChain = record {
  consistent = record {
    indexed = record {
      canonical = λ h g e. elim (Bool-cases (0 == h)) [
        | inl zeroth ↦ (genesis, ground arith, ground arith)
        | inr later ↦ elim (Bool-cases (1 == h)) [
          | inl one ↦ (first, ground arith, ground arith)
          | inr other ↦ absurd (ground arith)
        ]
      ];
      marked = λ g h e. (rival, ground arith, ground arith);
    };
    tip = refl;
  };
  chain = record {
    linked = λ h g b o le at held. elim (stored-bodies g b held) [
      | inl (here, is) ↦ absurd (ground arith)
      | inr (inl (here, is)) ↦ ground (arith, ap (λ (x : FullBlock). x.prev_block_hash) is)
      | inr (inr (here, is)) ↦ absurd (ground arith)
    ];
    under = λ h g at. inl (ground arith);
  };
  above_origin = omega arith;
}

apply_side-reorg_example :
    ((prev : FullBlock) × (get_block_by_hash chain 100 ≡ some prev)
      × (true ≡ true)
      × (check_block_target size (λ b. 4096000) rival prev ≡ none)
      × (validate_uncles (get_block_by_hash chain) digest header_digest rival ≡ none))
    × ((s₁ : BlockStore) × (tip : FullBlock) × (work : ℕ) × (tip_work : ℕ) × (cumulative_work digest
            3 stored rival
          ≡ some (work, s₁))
        × (get_latest_block s₁ ≡ some tip)
        × (cumulative_work digest 3 s₁ tip ≡ some (tip_work, weighed))
        × ((tip_work < work) ⊎ ((work ≡ tip_work) × (50 < digest tip)))
        × (finality_height tip.height ≤ sub64 1 1))
    × Links weighed rival [] rival
    × OffMain digest weighed (rival ∷ [])
    × IsFork digest weighed rival
    × ((s'' : BlockStore) × (switch_to_branch digest weighed (rival ∷ []) ≡ ok s'')
        × (s''.latest_hash ≡ 50)
        × (s''.latest_height ≡ 1))
apply_side-reorg_example =
    apply_side-reorg digest header_digest size (λ b. 4096000) (λ b. true) 3 chain weighed rival
      rival [] (record { tall = stored-IsTall; chain = stored-IsChain }) wins

-- A block of height 2 that references the rival as an uncle.
abbrev nephew : FullBlock
nephew = record (block_of 2 1603497630000 101 102 4096000) { uncles = rival.header ∷ [] }

accepted : validate_uncles (λ h. lookup h chain.bodies) digest header_digest nephew ≡ none
unfolding validate_uncles ancestors_of check_uncle depth_of check_uncles lowest_ancestor lookup
    insert get_next_diff get_genesis_timestamp minimum_diff_of clamp_factor raw_factor int64_of ◌+ℤ◌
    quo ◌*ℤ◌ wrap64 ◌-ℤ◌
accepted = refl

chain-small : (g : Hash) (b : FullBlock) → lookup g chain.bodies ≡ some b → b.height < 2 ^ 63
unfolding lookup
chain-small g b e = elim (Bool-cases (100 == g)) [
  | inl here ↦ ground arith
  | inr later ↦ elim (Bool-cases (101 == g)) [
    | inl here ↦ ground arith
    | inr other ↦ absurd (ground arith)
  ]
]

validate_uncles-Unique_example :
    Unique header_digest (rival.header ∷ []) × (1 < 2) × (2 ≤ 1 + uncle_max_depth)
validate_uncles-Unique_example =
    validate_uncles-Unique (λ h. lookup h chain.bodies) digest header_digest nephew rival.header
      (omega arith) (omega arith) chain-small accepted (inl refl)
