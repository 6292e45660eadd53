-- ===== src/Blocks.antt =====
-- The block store (ngblocks/put.go, ngblocks/check.go, ngblocks/get.go, ngblocks/work.go,
-- ngblocks/branch.go): the block bucket as one map for each kind of key, and the two tags.
-- An RLP body is the block it encodes. The digests of blocks are arguments. The transaction index
-- is not part of the model.
pub mod Consistent
pub mod Prune
pub mod Switch
pub mod Linked
pub mod Branch
pub mod Marks
pub mod Rewrite
mod Examples
use ngcore.Base.{
  ℕ, zero, suc, ◌+◌, ◌-◌, Bool, true, false, not, ◌&&◌, ◌||◌, Option, none, some, List, [], ◌∷◌,
  ◌==◌, ltb, leb, add64, sub64, if◌then◌else◌,
}
use ngcore.Types.{Hash, FullBlock}
use ngcore.Maps.{Map, lookup, insert, erase}

pub record BlockStore : Type 0 where
  -- hash -> block
  pub bodies : Map FullBlock
  -- height -> hash of the canonical block
  pub canon : Map Hash
  -- hash -> height of a side block
  pub side : Map ℕ
  -- hash -> cumulative work
  pub work : Map ℕ
  pub latest_height : ℕ
  pub latest_hash : Hash
  pub origin_height : ℕ
  pub origin_hash : Hash

pub data BlockError : Type 0 where
  height_conflict no_prev_block key_not_found branch_empty branch_disconnected branch_detached :
      BlockError

pub data Stored (A : Type 0) : Type 0 where
  ok : A → Stored A
  err : BlockError → Stored A

-- `GetBlockByHash`
unfoldable pub get_block_by_hash : BlockStore → Hash → Option FullBlock
get_block_by_hash s hash = lookup hash s.bodies

-- `GetBlockByHeight`
unfoldable pub get_block_by_height : BlockStore → ℕ → Option FullBlock
get_block_by_height s height = elim (lookup height s.canon) [
  | none ↦ none
  | some hash ↦ lookup hash s.bodies
]

-- `GetLatestBlock`
unfoldable pub get_latest_block : BlockStore → Option FullBlock
unfolding get_block_by_hash
get_latest_block s = get_block_by_hash s s.latest_hash

-- `blockHeightExists`
unfoldable pub block_height_exists : BlockStore → ℕ → Bool
block_height_exists s height =
    if height == 0
    then true
    else elim (get_block_by_height s height) [ none ↦ false | some b ↦ true ]

-- `blockPrevHashExists`
unfoldable pub block_prev_hash_exists : BlockStore → ℕ → Hash → Bool
block_prev_hash_exists s height prev =
    if height == 0 && prev == 0
    then true
    else elim (get_block_by_hash s prev) [ none ↦ false | some b ↦ b.height == sub64 height 1 ]

-- `checkBlock`
unfoldable pub check_block : BlockStore → ℕ → Hash → Option BlockError
check_block s height prev =
    if block_height_exists s height
    then some height_conflict
    else if block_prev_hash_exists s height prev
    then none
    else some no_prev_block

-- `putLatestTags`
unfoldable pub put_latest_tags : BlockStore → ℕ → Hash → BlockStore
put_latest_tags s height hash = record s { latest_height = height; latest_hash = hash }

-- The keys that `PruneSideBlocks` collects, in the order of its cursor.
unfoldable pub victims : BlockStore → ℕ → Map ℕ → List Hash
victims s below [] = []
victims s below ((hash, height) ∷ m) =
    let rest = victims s below m in
    if leb below height then rest else elim (lookup height s.canon) [
      | none ↦ hash ∷ rest
      | some canonical ↦ if canonical == hash then rest else hash ∷ rest
    ]

unfoldable pub drop_side : Hash → BlockStore → BlockStore
drop_side hash s = record s {
  bodies = erase hash s.bodies;
  work = erase hash s.work;
  side = erase hash s.side;
}

unfoldable pub drop_all : List Hash → BlockStore → BlockStore
drop_all [] s = s
drop_all (hash ∷ hashes) s = drop_all hashes (drop_side hash s)

-- `PruneSideBlocks`
unfoldable pub prune_side_blocks : BlockStore → ℕ → BlockStore
prune_side_blocks s below = drop_all (victims s below s.side) s

-- `ListSideBlocksInRange`: a listed block without a body is an error.
unfoldable pub list_side_blocks_in_range : BlockStore → ℕ → ℕ → Map ℕ → Option (List FullBlock)
list_side_blocks_in_range s low high [] = some []
list_side_blocks_in_range s low high ((hash, height) ∷ m) =
    let rest = list_side_blocks_in_range s low high m in
    if ltb height low || ltb high height then rest else elim (get_block_by_hash s hash) [
      | none ↦ none
      | some b ↦ elim rest [ none ↦ none | some bs ↦ some (b ∷ bs) ]
    ]

-- `PutBlockWork`
unfoldable pub put_block_work : BlockStore → Hash → ℕ → BlockStore
put_block_work s hash total = record s { work = insert hash total s.work }

-- The stale canonical heights from `height` on, `n` of them, are unlinked.
unfoldable pub unlink : BlockStore → ℕ → ℕ → BlockStore
unlink s height zero = s
unlink s height (suc n) = unlink (record s { canon = erase height s.canon }) (suc height) n

unfoldable pub last : FullBlock → List FullBlock → FullBlock
last block [] = block
last block (next ∷ blocks) = last next blocks

module _ (block_hash : FullBlock → Hash) where
  -- `putBlock`
  unfoldable pub put_block : BlockStore → FullBlock → BlockStore
  put_block s block =
      let hash = block_hash block in
      record s {
        bodies = insert hash block s.bodies;
        canon = insert block.height hash s.canon;
        side = erase hash s.side;
      }

  -- `PutNewBlock`
  unfoldable pub put_new_block : BlockStore → FullBlock → Stored BlockStore
  unfolding put_block put_latest_tags
  put_new_block s block = elim (check_block s block.height block.prev_block_hash) [
    | some e ↦ err e
    | none ↦ ok (put_latest_tags (put_block s block) block.height (block_hash block))
  ]

  -- `PutSideBlock`
  unfoldable pub put_side_block : BlockStore → FullBlock → BlockStore
  put_side_block s block =
      let hash = block_hash block in
      record s { bodies = insert hash block s.bodies; side = insert hash block.height s.side }

  -- The branch connects internally.
  unfoldable pub connected : FullBlock → List FullBlock → Bool
  connected prev [] = true
  connected prev (block ∷ blocks) =
      let rest = connected block blocks in
      block.height == add64 prev.height 1 && block.prev_block_hash == block_hash prev && rest

  -- The side marks of the canonical blocks from `height` on, `n` heights.
  unfoldable pub mark_side : BlockStore → ℕ → ℕ → Option BlockStore
  mark_side s height zero = some s
  mark_side s height (suc n) = elim (get_block_by_height s height) [
    | none ↦ none
    | some old ↦
        mark_side (record s { side = insert (block_hash old) old.height s.side }) (suc height) n
  ]

  unfoldable pub connect_branch : BlockStore → List FullBlock → BlockStore
  unfolding put_block
  connect_branch s [] = s
  connect_branch s (block ∷ blocks) = connect_branch (put_block s block) blocks

  -- `SwitchToBranch`
  unfoldable pub switch_to_branch : BlockStore → List FullBlock → Stored BlockStore
  unfolding last
  switch_to_branch s [] = err branch_empty
  switch_to_branch s (block ∷ blocks) =
      if connected block blocks
      then elim (lookup (sub64 block.height 1) s.canon) [
        | none ↦ err branch_detached
        | some ancestor ↦
            if ancestor == block.prev_block_hash
            then elim (mark_side s block.height (s.latest_height + 1 - block.height)) [
              | none ↦ err key_not_found
              | some marked ↦
                  let tip = last block blocks in
                  let linked = connect_branch marked (block ∷ blocks) in
                  let stale = add64 tip.height 1 in
                  ok (
                    put_latest_tags (unlink linked stale (s.latest_height + 1 - stale)) tip.height
                      (block_hash tip))
            ]
            else err branch_detached
      ]
      else err branch_disconnected
