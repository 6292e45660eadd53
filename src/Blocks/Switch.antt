-- ===== src/Blocks/Switch.antt =====
-- What `SwitchToBranch` makes the canonical chain.
use ngcore.Base.{
  ℕ, zero, suc, ◌+◌, ◌-◌, ◌≡◌, refl, sym, ap, ◌∙◌, ◌&&◌, none, some, List, [], ◌∷◌, inl, inr, leb,
  Option-cases, if◌then◌else◌, arith, add64, sub64, ◌<◌, ◌^◌, true,
}
use ngcore.Types.{Hash, FullBlock}
use ngcore.Maps.{Map, lookup, insert, erase}
use ngcore.Maps.Laws.{lookup-erase}
use ngcore.Blocks.{
  BlockStore, ok, put_block, put_latest_tags, mark_side, connect_branch, connected, unlink, last,
  switch_to_branch, get_block_by_height,
}
use ngcore.Blocks.Consistent.{
  Fits, IsIndexed, IsConsistent, put_block-IsIndexed, put_block-canon, insert-named,
}

-- Unlinking only takes heights away, and none below where it starts.
pub unlink-canon :
    (s : BlockStore) (height n : ℕ) (h : ℕ)
    → lookup h (unlink s height n).canon
      ≡ (if leb height h && leb (h + 1) (height + n) then none else lookup h s.canon)
unfolding unlink
unlink-canon s height zero h = ground arith
unlink-canon s height (suc n) h = ground (
  arith,
  unlink-canon (record s { canon = erase height s.canon }) (suc height) n h,
  lookup-erase height h s.canon,
)

pub unlink-rest :
    (s : BlockStore) (height n : ℕ)
    → ((unlink s height n).bodies ≡ s.bodies)
      × ((unlink s height n).side ≡ s.side)
      × ((unlink s height n).origin_height ≡ s.origin_height)
unfolding unlink
unlink-rest s height zero = (refl, refl, refl)
unlink-rest s height (suc n) =
    unlink-rest (record s { canon = erase height s.canon }) (suc height) n

unlink-IsIndexed : (s : BlockStore) (height n : ℕ) → IsIndexed s → IsIndexed (unlink s height n)
unlink-IsIndexed s height n i = record {
  canonical = λ h g e.
      let old : lookup h s.canon ≡ some g = ground (arith, unlink-canon s height n h) in
      rw ((unlink-rest s height n).0) (i.canonical h g old);
  marked = λ g h e.
      rw ((unlink-rest s height n).0)
        (i.marked g h (sym (ap (lookup g) (unlink-rest s height n).1) ∙ e));
}

module _ (block_hash : FullBlock → Hash) where
  -- Every block of the branch fits the bodies that are stored when it is put.
  abbrev pub AllFit : Map FullBlock → List FullBlock → Type 0
  AllFit bodies [] = Unit
  AllFit bodies (b ∷ bs) =
      Fits bodies (block_hash b) b.height × AllFit (insert (block_hash b) b bodies) bs

  pub connect_branch-IsIndexed :
      (s : BlockStore) (bs : List FullBlock)
      → AllFit s.bodies bs
      → IsIndexed s
      → IsIndexed (connect_branch block_hash s bs)
  unfolding connect_branch put_block
  connect_branch-IsIndexed s [] f i = i
  connect_branch-IsIndexed s (b ∷ bs) f i =
      connect_branch-IsIndexed (put_block block_hash s b) bs f.1
        (put_block-IsIndexed block_hash s b f.0 i)

  -- The last block of a branch is the canonical one of its height.
  connect_branch-last :
      (s : BlockStore) (b : FullBlock) (bs : List FullBlock)
      → lookup (last b bs).height (connect_branch block_hash s (b ∷ bs)).canon
        ≡ some (block_hash (last b bs))
  unfolding connect_branch last put_block
  connect_branch-last s b [] = put_block-canon block_hash s b
  connect_branch-last s b (c ∷ cs) = connect_branch-last (put_block block_hash s b) c cs

  pub marked-IsIndexed :
      (s : BlockStore) (old : FullBlock) (height : ℕ)
      → ((b : FullBlock) (h : Hash) → lookup h s.bodies ≡ some b → block_hash b ≡ h)
      → get_block_by_height s height ≡ some old
      → IsIndexed s
      → IsIndexed (record s { side = insert (block_hash old) old.height s.side })
  unfolding get_block_by_height
  marked-IsIndexed s old height digests here i = record {
    canonical = i.canonical;
    marked = λ g h e. elim (insert-named (block_hash old) g old.height h s.side e) [
      | inr before ↦ i.marked g h before
      | inl (p, q) ↦ elim (Option-cases (lookup height s.canon)) [
        | inl missing ↦ ground arith
        | inr (hash, at) ↦
            let body : lookup hash s.bodies ≡ some old = ground (arith) in
            let same : hash ≡ g = sym (digests old hash body) ∙ p in
            (old, ap (λ k. lookup k s.bodies) (sym same) ∙ body, q)
      ]
    ];
  }

  pub some_eq : {a b : BlockStore} → some a ≡ some b → a ≡ b
  some_eq e = cc

  pub mark_side-IsIndexed :
      (s s' : BlockStore) (height n : ℕ)
      → ((b : FullBlock) (h : Hash) → lookup h s.bodies ≡ some b → block_hash b ≡ h)
      → mark_side block_hash s height n ≡ some s'
      → IsIndexed s
      → IsIndexed s'
        × (s'.bodies ≡ s.bodies)
        × (s'.canon ≡ s.canon)
        × (s'.origin_height ≡ s.origin_height)
  unfolding mark_side
  mark_side-IsIndexed s s' height zero digests e i =
      let p : s ≡ s' = some_eq e in rw (← p) (i, refl, refl, refl)
  mark_side-IsIndexed s s' height (suc n) digests e i =
      elim (Option-cases (get_block_by_height s height)) [
        | inl missing ↦ ground arith
        | inr (old, here) ↦
            let s₁ : BlockStore = record s { side = insert (block_hash old) old.height s.side } in
            let step : mark_side block_hash s₁ (suc height) n ≡ some s' = ground (arith, here) in
            mark_side-IsIndexed s₁ s' (suc height) n digests step
              (marked-IsIndexed s old height digests here i)
      ]

  -- The store after the switch, from the store with the side marks.
  abbrev pub switched : BlockStore → BlockStore → FullBlock → List FullBlock → BlockStore
  switched s marked block blocks =
      put_latest_tags
        (unlink (connect_branch block_hash marked (block ∷ blocks))
          (add64 (last block blocks).height 1)
          (s.latest_height + 1 - add64 (last block blocks).height 1))
        (last block blocks).height (block_hash (last block blocks))

  switched-IsConsistent :
      (s marked : BlockStore) (block : FullBlock) (blocks : List FullBlock)
      → ((b : FullBlock) (h : Hash) → lookup h s.bodies ≡ some b → block_hash b ≡ h)
      → AllFit s.bodies (block ∷ blocks)
      → IsIndexed s
      → (last block blocks).height + 1 < 2 ^ 64
      → mark_side block_hash s block.height (s.latest_height + 1 - block.height) ≡ some marked
      → IsConsistent (switched s marked block blocks)
  unfolding put_latest_tags
  switched-IsConsistent s marked block blocks digests fits i low m =
      let (j, same, _, _) = mark_side-IsIndexed s marked _ _ digests m i in
      let fits' : AllFit marked.bodies (block ∷ blocks) = rw same fits in
      let linked = connect_branch block_hash marked (block ∷ blocks) in
      let tip = last block blocks in
      let k =
        unlink-IsIndexed linked (add64 tip.height 1) (s.latest_height + 1 - add64 tip.height 1)
          (connect_branch-IsIndexed marked (block ∷ blocks) fits' j) in
      record {
        indexed = record { canonical = k.canonical; marked = k.marked };
        tip = ground (
          arith,
          unlink-canon linked (add64 tip.height 1) (s.latest_height + 1 - add64 tip.height 1)
              tip.height,
          connect_branch-last marked block blocks,
        );
      }

  pub switched-of :
      (s s' : BlockStore) (block : FullBlock) (blocks : List FullBlock)
      → switch_to_branch block_hash s (block ∷ blocks) ≡ ok s'
      → (marked : BlockStore) × (mark_side block_hash s block.height
            (s.latest_height + 1 - block.height)
          ≡ some marked)
        × (switched s marked block blocks ≡ s')
        × (connected block_hash block blocks ≡ true)
        × (lookup (sub64 block.height 1) s.canon ≡ some block.prev_block_hash)
  unfolding switch_to_branch put_latest_tags
  switched-of s s' block blocks e = elim (Option-cases (lookup (sub64 block.height 1) s.canon)) [
    | inl detached ↦ ground arith
    | inr (ancestor, at) ↦
        elim (Option-cases
          (mark_side block_hash s block.height (s.latest_height + 1 - block.height))) [
            | inl broken ↦ ground arith
            | inr (marked, m) ↦ (marked, m, ground arith, ground arith, ground arith)
          ]
  ]

  -- A successful switch of a consistent store, where each body is stored under its digest and no
  -- block of the branch has the digest of a body of another height, leaves a consistent store,
  -- whose tip is the last block of the branch, below the highest height of a 64-bit word.
  pub switch_to_branch-IsConsistent :
      (s s' : BlockStore) (block : FullBlock) (blocks : List FullBlock)
      → ((b : FullBlock) (h : Hash) → lookup h s.bodies ≡ some b → block_hash b ≡ h)
      → AllFit s.bodies (block ∷ blocks)
      → (last block blocks).height + 1 < 2 ^ 64
      → IsConsistent s
      → switch_to_branch block_hash s (block ∷ blocks) ≡ ok s'
      → IsConsistent s'
        × (s'.latest_height ≡ (last block blocks).height)
        × (s'.latest_hash ≡ block_hash (last block blocks))
  unfolding put_latest_tags
  switch_to_branch-IsConsistent s s' block blocks digests fits low c e =
      let (marked, m, q, _, _) = switched-of s s' block blocks e in
      rw (← q)
        (switched-IsConsistent s marked block blocks digests fits c.indexed low m, refl, refl)
