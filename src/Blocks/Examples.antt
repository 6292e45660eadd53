-- ===== src/Blocks/Examples.antt =====
-- A chain of two blocks, a side block of the second height, and a branch over it.
use ngcore.Base.{
  ℕ, ◌+◌, ◌≡◌, ◌<◌, ◌⊎◌, refl, none, some, [], ◌∷◌, ◌==◌, Bool-cases, inl, inr, arith,
}
use ngcore.Types.{FullBlock, Hash}
use ngcore.Maps.{Distinct, lookup, insert, erase}
use ngcore.Blocks.{
  BlockStore, ok, get_block_by_height, get_block_by_hash, block_height_exists,
  block_prev_hash_exists, check_block, put_block, put_latest_tags, put_new_block, put_side_block,
  prune_side_blocks, mark_side, connect_branch, connected, unlink, last, switch_to_branch,
}
use ngcore.Blocks.Consistent.{Holds, Fits, IsConsistent, put_side_block-IsConsistent}
use ngcore.Blocks.Prune.{prune_side_blocks-IsConsistent}
use ngcore.Blocks.Linked.{IsLinked, IsChain, Own, put_new_block-IsChain}
use ngcore.Blocks.Branch.{AllOwn}
use ngcore.Blocks.Rewrite.{switch_to_branch-IsChain}

-- The digest of an example block is its state root.
abbrev digest : FullBlock → Hash
digest b = b.state_root

abbrev block_of : ℕ → Hash → Hash → FullBlock
block_of height prev hash = record {
  header = record {
    network = 0;
    height = height;
    timestamp = 0;
    prev_block_hash = prev;
    tx_trie_hash = 0;
    witness_root = 0;
    difficulty = 1;
    coinbase = 0;
    uncles_hash = 0;
    state_root = hash;
    base_fee = 0;
    nonce = [];
  };
  txs = [];
  uncles = [];
  commits = [];
}

abbrev genesis : FullBlock
genesis = block_of 0 0 100

abbrev first : FullBlock
first = block_of 1 100 101

abbrev second : FullBlock
second = block_of 2 101 102

-- A rival of the first block, and a block above it.
abbrev rival : FullBlock
rival = block_of 1 100 201

abbrev above : FullBlock
above = block_of 2 201 202

abbrev chain : BlockStore
chain = record {
  bodies = (100, genesis) ∷ (101, first) ∷ [];
  canon = (0, 100) ∷ (1, 101) ∷ [];
  side = [];
  work = [];
  latest_height = 1;
  latest_hash = 101;
  origin_height = 0;
  origin_hash = 100;
}

chain-canonical : (h : ℕ) (g : Hash) → lookup h chain.canon ≡ some g → Holds chain.bodies g h
unfolding lookup
chain-canonical h g e = elim (Bool-cases (0 == h)) [
  | inl zeroth ↦ (genesis, ground arith, ground arith)
  | inr later ↦ elim (Bool-cases (1 == h)) [
    | inl one ↦ (first, ground arith, ground arith)
    | inr other ↦ absurd (ground arith)
  ]
]

chain-digests : (b : FullBlock) (h : Hash) → lookup h chain.bodies ≡ some b → digest b ≡ h
unfolding lookup
chain-digests b h e = elim (Bool-cases (100 == h)) [
  | inl here ↦ ground arith
  | inr later ↦ elim (Bool-cases (101 == h)) [
    | inl here ↦ ground arith
    | inr other ↦ absurd (ground arith)
  ]
]

chain-IsConsistent : IsConsistent chain
unfolding lookup
chain-IsConsistent = record {
  indexed = record { canonical = chain-canonical; marked = λ g h e. cc };
  tip = refl;
}

unknown : (hash height : ℕ) → lookup hash chain.bodies ≡ none → Fits chain.bodies hash height
unknown hash height e c f = cc

rival-new : lookup 201 chain.bodies ≡ none
unfolding lookup
rival-new = refl

second-new : lookup 102 chain.bodies ≡ none
unfolding lookup
second-new = refl

with_rival-IsConsistent :
    IsConsistent (put_side_block digest chain rival)
    × ((put_side_block digest chain rival).canon ≡ chain.canon)
with_rival-IsConsistent =
    put_side_block-IsConsistent digest chain rival (unknown 201 1 rival-new) chain-IsConsistent

abbrev longer : BlockStore
longer = put_latest_tags (put_block digest chain second) 2 102

puts : put_new_block digest chain second ≡ ok longer
unfolding put_new_block check_block block_height_exists block_prev_hash_exists get_block_by_height
    get_block_by_hash lookup
puts = refl

chain-IsLinked : IsLinked chain 1 1
unfolding lookup
chain-IsLinked = record {
  linked = λ h g b o le at held. elim (Bool-cases (101 == g)) [
    | inl here ↦ ground arith
    | inr other ↦ absurd (ground arith)
  ];
  under = λ h g at. inl (ground arith);
}

chain-IsChain : IsChain chain
chain-IsChain = record {
  consistent = chain-IsConsistent;
  chain = chain-IsLinked;
  above_origin = omega arith;
}

second-Own : Own digest chain.bodies second
unfolding lookup
second-Own c e = absurd (ground arith)

first_is_canonical :
    (b : FullBlock)
    → lookup second.prev_block_hash chain.bodies ≡ some b
    → lookup b.height chain.canon ≡ some second.prev_block_hash
unfolding lookup
first_is_canonical b e = ground arith

put_new_block-IsChain_example :
    IsChain longer
    × (second.prev_block_hash ≡ chain.latest_hash)
    × (longer.latest_height ≡ chain.latest_height + 1)
    × (longer.latest_hash ≡ digest second)
put_new_block-IsChain_example =
    put_new_block-IsChain digest chain longer second (omega arith) (omega arith) second-Own
      first_is_canonical chain-IsChain puts

one_side : Distinct (put_side_block digest chain rival).side
unfolding put_side_block insert lookup
one_side = (refl, tt)

prune_side_blocks-IsConsistent_example :
    IsConsistent (prune_side_blocks (put_side_block digest chain rival) 2)
    × (get_block_by_height (prune_side_blocks (put_side_block digest chain rival) 2) 1
        ≡ get_block_by_height (put_side_block digest chain rival) 1)
prune_side_blocks-IsConsistent_example =
    prune_side_blocks-IsConsistent (put_side_block digest chain rival) 2 1 one_side
      with_rival-IsConsistent.0

abbrev rewritten : BlockStore
rewritten = record {
  bodies = (100, genesis) ∷ (101, first) ∷ (201, rival) ∷ (202, above) ∷ [];
  canon = (0, 100) ∷ (1, 201) ∷ (2, 202) ∷ [];
  side = (101, 1) ∷ [];
  work = [];
  latest_height = 2;
  latest_hash = 202;
  origin_height = 0;
  origin_hash = 100;
}

switches : switch_to_branch digest chain (rival ∷ above ∷ []) ≡ ok rewritten
unfolding switch_to_branch connected mark_side get_block_by_height connect_branch unlink
    put_latest_tags put_block last lookup insert erase
switches = refl

branch-AllOwn : AllOwn digest chain.bodies (rival ∷ above ∷ [])
unfolding lookup insert
branch-AllOwn =
    (λ c e. absurd (ground arith), omega arith, (λ c e. absurd (ground arith), omega arith, tt))

switch_to_branch-IsChain_example :
    IsChain rewritten
    × (rewritten.latest_height ≡ (last rival (above ∷ [])).height)
    × (rewritten.latest_hash ≡ digest (last rival (above ∷ [])))
    × ((h : ℕ) → h < rival.height → lookup h rewritten.canon ≡ lookup h chain.canon)
    × ((h : ℕ) (g : Hash)
        → lookup h chain.canon ≡ some g
        → (lookup h rewritten.canon ≡ some g) ⊎ (lookup g rewritten.side ≡ some h))
switch_to_branch-IsChain_example =
    switch_to_branch-IsChain digest chain rewritten rival (above ∷ []) (omega arith) chain-digests
      branch-AllOwn chain-IsChain switches
