-- ===== src/Chain.antt =====
-- Fork choice (blockchain/fork.go, blockchain/check_block.go, the side path of ApplyBlock in
-- blockchain/pow_chain.go): cumulative work, branches, uncles and the choice between two tips.
-- Walks over previous-block links run on fuel: the height of a block bounds the length of its walk.
pub mod Order
pub mod Work
pub mod Uncles
pub mod Finality
pub mod Branches
pub mod Takeover
mod Examples
use ngcore.Base.{
  ℕ, zero, suc, ◌+◌, ◌-◌, Bool, true, false, not, ◌&&◌, ◌||◌, Option, none, some, List, [], ◌∷◌,
  ◌++◌, length, ◌==◌, ltb, leb, sub64, if◌then◌else◌,
}
use ngcore.Base.Int.{ℤ, pos, ltb_ℤ, int64_of, wrap64, ◌-ℤ◌}
use ngcore.Params.{uncle_max_depth, finality_height}
use ngcore.Types.{Hash, BlockHeader, FullBlock, FullTx}
use ngcore.Maps.{Map, lookup, insert}
use ngcore.Difficulty.{get_next_diff}
use ngcore.Fee.{next_base_fee, block_used_bytes}
use ngcore.Blocks.{BlockStore, get_block_by_hash, get_latest_block, put_block_work, put_side_block}

pub data ChainError : Type 0 where
  not_connected below_origin beyond_finality no_tip : ChainError
  branch_disconnected invalid_block bad_timestamp bad_difficulty bad_pow bad_base_fee : ChainError
  uncle_depth uncle_fork uncle_ancestor uncle_referenced uncle_timestamp uncle_difficulty :
      ChainError
  panic : ChainError

-- `workOf`
abbrev pub work_of : FullBlock → ℕ
work_of block = block.difficulty

-- The fork choice of `ApplyBlock` and `SwitchToBranch`: does (work, hash) replace the tip's?
unfoldable pub replaces_tip : ℕ → Hash → ℕ → Hash → Bool
replaces_tip work hash tip_work tip_hash =
    not (ltb work tip_work || (work == tip_work && leb tip_hash hash))

module _ (block_hash : FullBlock → Hash) where
  -- `cumulativeWork`: the work up to a block, and the store with the work of each block walked.
  unfoldable pub cumulative_work : ℕ → BlockStore → FullBlock → Option (ℕ × BlockStore)
  cumulative_work zero s block = none
  cumulative_work (suc fuel) s block =
      let hash = block_hash block in
      elim (lookup hash s.work) [
        | some total ↦ some (total, s)
        | none ↦
            if hash == s.origin_hash
            then some (work_of block, put_block_work s hash (work_of block))
            else elim (get_block_by_hash s block.prev_block_hash) [
              | none ↦ none
              | some parent ↦ elim (cumulative_work fuel s parent) [
                | none ↦ none
                | some (total, s') ↦
                    some (total + work_of block, put_block_work s' hash (total + work_of block))
              ]
            ]
      ]

  -- `isCanonical`
  unfoldable pub is_canonical : BlockStore → FullBlock → Bool
  is_canonical s block = elim (lookup block.height s.canon) [
    | none ↦ false
    | some hash ↦ hash == block_hash block
  ]

  -- The loop of `collectBranch`, with the branch collected so far.
  unfoldable pub collect_branch :
      ℕ → BlockStore → FullBlock → List FullBlock → Option ChainError × List FullBlock
  collect_branch zero s block branch = (some not_connected, [])
  collect_branch (suc fuel) s block branch =
      if is_canonical s block
      then (none, branch)
      else if leb block.height (s.origin_height + 1)
      then if block.prev_block_hash == s.origin_hash
        then (none, block ∷ branch)
        else (some below_origin, [])
      else elim (get_block_by_hash s block.prev_block_hash) [
        | none ↦ (some not_connected, [])
        | some parent ↦ collect_branch fuel s parent (block ∷ branch)
      ]

module _ (tx_size : FullTx → Option ℕ) (actual_diff : FullBlock → ℕ) where
  -- `checkBlockTarget`
  unfoldable pub check_block_target : FullBlock → FullBlock → Option ChainError
  check_block_target block prev =
      if leb block.timestamp prev.timestamp
      then some bad_timestamp
      else elim (get_next_diff block.height block.timestamp prev.network prev.timestamp
          prev.difficulty) [
            | none ↦ some panic
            | some correct ↦
                if not (block.difficulty == correct)
                then some bad_difficulty
                else if ltb (actual_diff block) correct
                then some bad_pow
                else if block.base_fee
                    == next_base_fee block.network prev.height (some (pos prev.base_fee))
                        (block_used_bytes tx_size prev)
                then none
                else some bad_base_fee
          ]

-- The lowest height of the ancestors that `validateUncles` collects.
unfoldable pub lowest_ancestor : ℕ → ℕ
lowest_ancestor height =
    if ltb (uncle_max_depth + 1) height then height - (uncle_max_depth + 1) else 0

-- How many generations an uncle's height is below a block's, as the difference of two int64 values.
unfoldable pub depth_of : ℕ → ℕ → ℤ
unfolding int64_of wrap64 ◌-ℤ◌
depth_of height uncle = wrap64 (int64_of height -ℤ int64_of uncle)

pub has : Hash → List Hash → Bool
has hash [] = false
has hash (k ∷ ks) = k == hash || has hash ks

module _ (get_block : Hash → Option FullBlock) (block_hash : FullBlock → Hash)
    (header_hash : BlockHeader → Hash) where
  pub uncle_hashes : List BlockHeader → List Hash
  uncle_hashes [] = []
  uncle_hashes (u ∷ us) = header_hash u ∷ uncle_hashes us

  -- The walk over a block's ancestors: the ancestors by height, and the uncles they referenced.
  unfoldable pub ancestors_of :
      ℕ → ℕ → FullBlock → Map FullBlock → List Hash → Option (Map FullBlock × List Hash)
  unfolding uncle_hashes
  ancestors_of zero lowest cur ancestors referenced =
      if ltb lowest cur.height then none else some (ancestors, referenced)
  ancestors_of (suc fuel) lowest cur ancestors referenced =
      if ltb lowest cur.height
      then elim (get_block cur.prev_block_hash) [
        | none ↦ none
        | some parent ↦
            ancestors_of fuel lowest parent (insert parent.height parent ancestors)
              (uncle_hashes parent.uncles ++ referenced)
      ]
      else some (ancestors, referenced)

  -- The checks of one uncle, of a block at `height`.
  unfoldable pub check_uncle : ℕ → Map FullBlock → List Hash → BlockHeader → Option ChainError
  unfolding has depth_of
  check_uncle height ancestors referenced u =
      let depth = depth_of height u.height in
      if ltb_ℤ depth (pos 1) || ltb_ℤ (pos uncle_max_depth) depth
      then some uncle_depth
      else elim (lookup (sub64 u.height 1) ancestors) [
        | none ↦ some uncle_fork
        | some parent ↦
            if not (block_hash parent == u.prev_block_hash)
            then some uncle_fork
            else if elim (lookup u.height ancestors) [
              | none ↦ false
              | some b ↦ block_hash b == header_hash u
            ]
            then some uncle_ancestor
            else if has (header_hash u) referenced
            then some uncle_referenced
            else if leb u.timestamp parent.timestamp
            then some uncle_timestamp
            else elim (get_next_diff u.height u.timestamp parent.network parent.timestamp
                parent.difficulty) [
                  | none ↦ some panic
                  | some correct ↦ if u.difficulty == correct then none else some uncle_difficulty
                ]
      ]

  unfoldable pub check_uncles : ℕ → Map FullBlock → List Hash → List BlockHeader → Option ChainError
  check_uncles height ancestors referenced [] = none
  check_uncles height ancestors referenced (u ∷ us) =
      let rest = check_uncles height ancestors (header_hash u ∷ referenced) us in
      elim (check_uncle height ancestors referenced u) [ none ↦ rest | some e ↦ some e ]

  -- `validateUncles`, whose walk takes at most one step more than the depth of an uncle.
  unfoldable pub validate_uncles : FullBlock → Option ChainError
  unfolding lowest_ancestor
  validate_uncles block =
      if length block.uncles == 0
      then none
      else elim (ancestors_of block.height (lowest_ancestor block.height) block [] []) [
        | none ↦ some not_connected
        | some (ancestors, referenced) ↦ check_uncles block.height ancestors referenced block.uncles
      ]
