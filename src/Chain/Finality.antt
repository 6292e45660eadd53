-- ===== src/Chain/Finality.antt =====
-- The side path of `ApplyBlock` (blockchain/pow_chain.go): a block that does not extend the tip is
-- checked, stored and weighed, and the chain switches to its branch if it wins and its fork point is
-- not below the finality line. `check_error` is the block's own check (`FullBlock.CheckError`).
use ngcore.Base.{
  ℕ, ◌≡◌, ◌≤◌, ◌<◌, ap, sym, ◌∙◌, Bool, true, not, Option, none, some, List, [], ◌∷◌, ◌==◌, ltb,
  add64, sub64, inl, inr, ◌⊎◌, Bool-cases, Option-cases, if◌then◌else◌, arith,
}
use mathlib.Core.Path.{subst}
use ngcore.Params.{finality_height}
use ngcore.Types.{Hash, BlockHeader, FullBlock, FullTx}
use ngcore.Blocks.{BlockStore, get_block_by_hash, get_latest_block, put_side_block}
use ngcore.Chain.{
  ChainError, not_connected, beyond_finality, no_tip, branch_disconnected, invalid_block, panic,
  replaces_tip, cumulative_work, collect_branch, check_block_target, validate_uncles,
}

pub data SideResult : Type 0 where
  -- Stored, and the canonical chain is left as it is.
  stored : BlockStore → SideResult
  -- The canonical chain is to switch to the branch.
  reorg : BlockStore → List FullBlock → SideResult
  failed : ChainError → SideResult

-- What `ApplyBlock` does with a branch that has won against the tip.
unfoldable pub switch_if_open :
    BlockStore → FullBlock → Option ChainError × List FullBlock → SideResult
switch_if_open s tip (some e, branch) = failed e
switch_if_open s tip (none, []) = failed panic
switch_if_open s tip (none, first ∷ rest) =
    if ltb (sub64 first.height 1) (finality_height tip.height)
    then failed beyond_finality
    else reorg s (first ∷ rest)

switch_if_open-first :
    (s s' : BlockStore) (tip first : FullBlock) (rest : List FullBlock)
    (c : Option ChainError × List FullBlock)
    → switch_if_open s tip c ≡ reorg s' (first ∷ rest)
    → (finality_height tip.height ≤ sub64 first.height 1) × (s ≡ s') × (c ≡ (none, first ∷ rest))
unfolding switch_if_open
switch_if_open-first s s' tip first rest (some x, b) e = cc
switch_if_open-first s s' tip first rest (none, []) e = cc
switch_if_open-first s s' tip first rest (none, f ∷ fs) e =
    elim (Bool-cases (ltb (sub64 f.height 1) (finality_height tip.height))) [
      | inl below ↦ ground arith
      | inr open_fork ↦
          let same : reorg s (f ∷ fs) ≡ reorg s' (first ∷ rest) = ground arith in
          let p : f ≡ first = cc in
          let line : finality_height tip.height ≤ sub64 f.height 1 = ground arith in
          (subst (λ (x : FullBlock). finality_height tip.height ≤ sub64 x.height 1) p line, cc, cc)
    ]

replaces_tip-cases : (w h v g : ℕ) → replaces_tip w h v g ≡ true → (v < w) ⊎ ((w ≡ v) × (h < g))
unfolding replaces_tip
replaces_tip-cases w h v g e = elim (Bool-cases (ltb v w)) [
  | inl more ↦ inl (ground arith)
  | inr level ↦ inr (ground arith, ground arith)
]

module _ (block_hash : FullBlock → Hash) (header_hash : BlockHeader → Hash)
    (tx_size : FullTx → Option ℕ) (actual_diff : FullBlock → ℕ)
    (check_error : FullBlock → Bool) where
  -- `checkBranchBlock`
  unfoldable pub check_branch_block : BlockStore → FullBlock → FullBlock → Option ChainError
  check_branch_block s block prev =
      if not (check_error block)
      then some invalid_block
      else if not (block.height == add64 prev.height 1)
      then some branch_disconnected
      else if not (block.prev_block_hash == block_hash prev)
      then some branch_disconnected
      else elim (check_block_target tx_size actual_diff block prev) [
        | some e ↦ some e
        | none ↦ validate_uncles (get_block_by_hash s) block_hash header_hash block
      ]

  -- The fork choice between a stored side block and the tip, on fuel for the two walks.
  unfoldable pub choose_side : ℕ → BlockStore → FullBlock → SideResult
  choose_side fuel s block = elim (cumulative_work block_hash fuel s block) [
    | none ↦ failed not_connected
    | some (work, s₁) ↦ elim (get_latest_block s₁) [
      | none ↦ failed no_tip
      | some tip ↦ elim (cumulative_work block_hash fuel s₁ tip) [
        | none ↦ failed not_connected
        | some (tip_work, s₂) ↦
            if replaces_tip work (block_hash block) tip_work (block_hash tip)
            then switch_if_open s₂ tip (collect_branch block_hash fuel s₂ block [])
            else stored s₂
      ]
    ]
  ]

  unfoldable pub apply_side : ℕ → BlockStore → FullBlock → SideResult
  apply_side fuel s block = elim (get_block_by_hash s block.prev_block_hash) [
    | none ↦ failed not_connected
    | some prev ↦ elim (check_branch_block s block prev) [
      | some e ↦ failed e
      | none ↦ choose_side fuel (put_side_block block_hash s block) block
    ]
  ]

  pub choose_side-reorg :
      (fuel : ℕ) (s s' : BlockStore) (block first : FullBlock) (rest : List FullBlock)
      → choose_side fuel s block ≡ reorg s' (first ∷ rest)
      → (s₁ : BlockStore) × (tip : FullBlock) × (work : ℕ) × (tip_work : ℕ) × (cumulative_work
            block_hash fuel s block
          ≡ some (work, s₁))
        × (get_latest_block s₁ ≡ some tip)
        × (cumulative_work block_hash fuel s₁ tip ≡ some (tip_work, s'))
        × ((tip_work < work) ⊎ ((work ≡ tip_work) × (block_hash block < block_hash tip)))
        × (finality_height tip.height ≤ sub64 first.height 1)
        × (collect_branch block_hash fuel s' block [] ≡ (none, first ∷ rest))
  unfolding choose_side
  choose_side-reorg fuel s s' block first rest e =
      elim (Option-cases (cumulative_work block_hash fuel s block)) [
        | inl cut ↦ ground arith
        | inr ((work, s₁), weighed) ↦ elim (Option-cases (get_latest_block s₁)) [
          | inl missing ↦ ground arith
          | inr (tip, latest) ↦ elim (Option-cases (cumulative_work block_hash fuel s₁ tip)) [
            | inl cut ↦ ground arith
            | inr ((tip_work, s₂), tip_weighed) ↦
                elim (Bool-cases (replaces_tip work (block_hash block) tip_work (block_hash tip))) [
                  | inr loses ↦ ground arith
                  | inl wins ↦
                      let q : switch_if_open s₂ tip (collect_branch block_hash fuel s₂ block [])
                          ≡ reorg s' (first ∷ rest) =
                        ground arith in
                      let (line, same, branch) = switch_if_open-first s₂ s' tip first rest _ q in
                      (
                        s₁,
                        tip,
                        work,
                        tip_work,
                        weighed,
                        latest,
                        tip_weighed ∙ ap (λ (x : BlockStore). some (tip_work, x)) same,
                        replaces_tip-cases work (block_hash block) tip_work (block_hash tip) wins,
                        line,
                        ap (λ (x : BlockStore). collect_branch block_hash fuel x block [])
                              (sym same)
                            ∙ branch,
                      )
                ]
          ]
        ]
      ]

  -- A block that switches the chain has passed its checks, and won the choice after it was stored.
  pub apply_side-choose :
      (fuel : ℕ) (s s' : BlockStore) (block first : FullBlock) (rest : List FullBlock)
      → apply_side fuel s block ≡ reorg s' (first ∷ rest)
      → (prev : FullBlock) × (get_block_by_hash s block.prev_block_hash ≡ some prev)
        × (check_branch_block s block prev ≡ none)
        × (choose_side fuel (put_side_block block_hash s block) block ≡ reorg s' (first ∷ rest))
  unfolding apply_side
  apply_side-choose fuel s s' block first rest e =
      elim (Option-cases (get_block_by_hash s block.prev_block_hash)) [
        | inl unknown ↦ ground arith
        | inr (prev, there) ↦ elim (Option-cases (check_branch_block s block prev)) [
          | inr (x, bad) ↦ ground arith
          | inl good ↦ (prev, there, good, ground (arith, there, good))
        ]
      ]

  pub check_branch_block-passed :
      (s : BlockStore) (block prev : FullBlock)
      → check_branch_block s block prev ≡ none
      → (check_error block ≡ true)
        × (check_block_target tx_size actual_diff block prev ≡ none)
        × (validate_uncles (get_block_by_hash s) block_hash header_hash block ≡ none)
  unfolding check_branch_block
  check_branch_block-passed s block prev e =
      elim (Option-cases (check_block_target tx_size actual_diff block prev)) [
        | inl met ↦ (ground arith, met, ground arith)
        | inr (x, bad) ↦ absurd (ground arith)
      ]
