-- ===== src/Blocks/Marks.antt =====
-- The side marks that `SwitchToBranch` sets on the blocks it replaces (ngblocks/branch.go).
use ngcore.Base.{
  ℕ, zero, suc, ◌+◌, ◌≡◌, ◌≤◌, ◌<◌, sym, ap, ◌∙◌, some, ◌⊎◌, inl, inr, ◌==◌, ==_self, Bool-cases,
  Option-cases, arith,
}
use ngcore.Types.{Hash, FullBlock}
use ngcore.Maps.{lookup, insert}
use ngcore.Maps.Laws.{lookup-insert}
use ngcore.Blocks.{BlockStore, get_block_by_height, mark_side}
use ngcore.Blocks.Consistent.{IsIndexed}
use ngcore.Blocks.Linked.{some_block, same_hash}
use ngcore.Blocks.Switch.{marked-IsIndexed}

module _ (block_hash : FullBlock → Hash) where
  -- The canonical block of a height is stored under its digest.
  old-held :
      (s : BlockStore) (height : ℕ) (old : FullBlock)
      → ((b : FullBlock) (k : Hash) → lookup k s.bodies ≡ some b → block_hash b ≡ k)
      → get_block_by_height s height ≡ some old
      → (lookup height s.canon ≡ some (block_hash old))
        × (lookup (block_hash old) s.bodies ≡ some old)
  unfolding get_block_by_height
  old-held s height old digests here = elim (Option-cases (lookup height s.canon)) [
    | inl missing ↦ absurd (ground arith)
    | inr (k, at) ↦
        let held : lookup k s.bodies ≡ some old = ground (arith, at) in
        let p : k ≡ block_hash old = sym (digests old k held) in
        (at ∙ ap (λ (j : Hash). some j) p, ap (λ j. lookup j s.bodies) (sym p) ∙ held)
  ]

  mark_one-keeps :
      (s : BlockStore) (old : FullBlock) (h : ℕ) (g : Hash)
      → lookup (block_hash old) s.bodies ≡ some old
      → IsIndexed s
      → lookup g s.side ≡ some h
      → lookup g (insert (block_hash old) old.height s.side) ≡ some h
  mark_one-keeps s old h g held i marked = elim (Bool-cases (block_hash old == g)) [
    | inr other ↦ ground (arith, lookup-insert (block_hash old) g old.height s.side)
    | inl same ↦
        let p : block_hash old ≡ g = ground arith in
        let (c, held', at) = i.marked g h marked in
        let q : c ≡ old = some_block (sym held' ∙ ap (λ k. lookup k s.bodies) (sym p) ∙ held) in
        ground (
          arith,
          lookup-insert (block_hash old) g old.height s.side,
          at,
          ap (λ (x : FullBlock). x.height) q,
        )
  ]

  -- Marking keeps the marks, and marks the canonical block of each height it passes.
  pub mark_side-marks :
      (s s' : BlockStore) (height n h : ℕ) (g : Hash)
      → ((b : FullBlock) (k : Hash) → lookup k s.bodies ≡ some b → block_hash b ≡ k)
      → mark_side block_hash s height n ≡ some s'
      → IsIndexed s
      → (lookup g s.side ≡ some h) ⊎ ((height ≤ h) × (h < height + n) × (lookup h s.canon ≡ some g))
      → lookup g s'.side ≡ some h
  unfolding mark_side
  mark_side-marks s s' height zero h g digests e i (inl marked) =
      let p : s ≡ s' = cc in ap (λ (r : BlockStore). lookup g r.side) (sym p) ∙ marked
  mark_side-marks s s' height zero h g digests e i (inr (low, high, at)) = absurd (omega arith)
  mark_side-marks s s' height (suc n) h g digests e i from =
      elim (Option-cases (get_block_by_height s height)) [
        | inl missing ↦ absurd (ground arith)
        | inr (old, here) ↦
            let s₁ : BlockStore = record s { side = insert (block_hash old) old.height s.side } in
            let step : mark_side block_hash s₁ (suc height) n ≡ some s' = ground (arith, here) in
            let (at_old, held) = old-held s height old digests here in
            let next : (lookup g s₁.side ≡ some h)
                ⊎ ((suc height ≤ h) × (h < suc height + n) × (lookup h s₁.canon ≡ some g)) =
              elim from [
                | inl marked ↦ inl (mark_one-keeps s old h g held i marked)
                | inr (low, high, at) ↦ elim (Bool-cases (height == h)) [
                  | inr later ↦ inr (ground arith, omega arith, at)
                  | inl now ↦
                      let p : height ≡ h = ground arith in
                      let named : block_hash old ≡ g =
                        same_hash (sym at_old ∙ ap (λ k. lookup k s.canon) p ∙ at) in
                      let (c, held', tall) = i.canonical height (block_hash old) at_old in
                      let q : c ≡ old = some_block (sym held' ∙ held) in
                      inl (
                        ground (
                          arith,
                          lookup-insert (block_hash old) g old.height s.side,
                          ==_self g,
                          named,
                          tall,
                          ap (λ (x : FullBlock). x.height) q,
                        ))
                ]
              ] in
            mark_side-marks s₁ s' (suc height) n h g digests step
              (marked-IsIndexed block_hash s old height digests here i) next
      ]
