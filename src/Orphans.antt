-- ===== src/Orphans.antt =====
-- The pool of orphans (consensus/orphan_pool.go): blocks that came before their parents, kept by the
-- hash of the parent that they wait for. A block's hash is a parameter.
pub mod Delivery
mod Examples
use ngcore.Base.{
  ℕ, ◌+◌, ◌-◌, Bool, true, false, Option, none, some, List, [], ◌∷◌, ◌++◌, length, leb, ◌==◌,
  if◌then◌else◌,
}
use ngcore.Types.{Hash, FullBlock}
use ngcore.Maps.{Map, lookup, insert, erase}

-- `maxOrphanBlocks`
abbrev pub max_orphan_blocks : ℕ
max_orphan_blocks = 128

pub record OrphanPool : Type 0 where
  pub by_prev : Map (List FullBlock)
  pub count : ℕ

-- `newOrphanPool`
abbrev pub new_orphan_pool : OrphanPool
new_orphan_pool = record { by_prev = []; count = 0 }

-- A missing key of the map reads as no blocks.
unfoldable pub waiting : Hash → OrphanPool → List FullBlock
waiting key p = elim (lookup key p.by_prev) [ none ↦ [] | some blocks ↦ blocks ]

module _ (digest : FullBlock → Hash) where
  -- The loop of `add` over the blocks that wait for the same parent.
  unfoldable pub is_waiting : Hash → List FullBlock → Bool
  is_waiting hash [] = false
  is_waiting hash (b ∷ bs) =
      let rest = is_waiting hash bs in if digest b == hash then true else rest

  unfoldable pub add : FullBlock → OrphanPool → Bool × OrphanPool
  add block p =
      if leb max_orphan_blocks p.count
      then (false, p)
      else if is_waiting (digest block) (waiting block.prev_block_hash p)
      then (false, p)
      else (
        true,
        record p {
          by_prev =
              insert block.prev_block_hash (waiting block.prev_block_hash p ++ (block ∷ []))
                p.by_prev;
          count = p.count + 1;
        },
      )

-- `take`: what waits for a parent, and the pool without it.
unfoldable pub take_children : Hash → OrphanPool → List FullBlock × OrphanPool
take_children parent p = elim (lookup parent p.by_prev) [
  | none ↦ ([], p)
  | some children ↦
      (children, record p { by_prev = erase parent p.by_prev; count = p.count - length children })
]
