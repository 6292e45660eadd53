-- ===== src/Blocks/Consistent.antt =====
-- The block store's invariant: the height index and the side marks name stored bodies.
use ngcore.Base.{
  ℕ, ◌≡◌, refl, sym, ap, ◌∙◌, some, ◌⊎◌, inl, inr, ◌==◌, Bool-cases, Option-cases, arith, ==_self,
}
use ngcore.Types.{Hash, FullBlock}
use ngcore.Maps.{Map, lookup, insert, erase}
use ngcore.Maps.Laws.{lookup-insert, lookup-erase}
use ngcore.Blocks.{
  BlockStore, ok, check_block, put_block, put_latest_tags, put_new_block, put_side_block,
}

-- A body of the height is stored under the digest.
abbrev pub Holds : Map FullBlock → Hash → ℕ → Type 0
Holds bodies hash height = (b : FullBlock) × (lookup hash bodies ≡ some b) × (b.height ≡ height)

-- The height index and the side marks name stored bodies of the height they give.
pub record IsIndexed (s : BlockStore) : Type 0 where
  pub canonical :
      (height : ℕ) (hash : Hash) → lookup height s.canon ≡ some hash → Holds s.bodies hash height
  pub marked :
      (hash : Hash) (height : ℕ) → lookup hash s.side ≡ some height → Holds s.bodies hash height

-- And the tags name the canonical block of their height.
pub record IsConsistent (s : BlockStore) : Type 0 where
  pub indexed : IsIndexed s
  pub tip : lookup s.latest_height s.canon ≡ some s.latest_hash

-- No stored body has the digest at another height.
abbrev pub Fits : Map FullBlock → Hash → ℕ → Type 0
Fits bodies hash height = (c : FullBlock) → lookup hash bodies ≡ some c → c.height ≡ height

pub insert-Holds :
    (bodies : Map FullBlock) (hash g : Hash) (block : FullBlock) (h : ℕ)
    → Fits bodies hash block.height
    → Holds bodies g h
    → Holds (insert hash block bodies) g h
insert-Holds bodies hash g block h fits (b, e, q) = elim (Bool-cases (hash == g)) [
  | inr other ↦ (b, rw (lookup-insert, other) e, q)
  | inl same ↦
      let p : hash ≡ g = ground arith in
      (block, rw (lookup-insert, same) refl, sym (fits b (ap (λ k. lookup k bodies) p ∙ e)) ∙ q)
]

insert-Holds_self :
    (bodies : Map FullBlock) (hash : Hash) (block : FullBlock)
    → Holds (insert hash block bodies) hash block.height
insert-Holds_self bodies hash block = (block, rw (lookup-insert, ==_self hash) refl, refl)

-- An index that gains one entry, for a body that is stored.
pub insert-named :
    (k j x y : ℕ) (m : Map ℕ)
    → lookup j (insert k x m) ≡ some y
    → ((k ≡ j) × (x ≡ y)) ⊎ (lookup j m ≡ some y)
insert-named k j x y m e = elim (Bool-cases (k == j)) [
  | inl same ↦ inl (ground arith, ground (arith, lookup-insert k j x m))
  | inr other ↦ inr (ground (arith, lookup-insert k j x m))
]

erase-named : (k j y : ℕ) (m : Map ℕ) → lookup j (erase k m) ≡ some y → lookup j m ≡ some y
erase-named k j y m e = ground (arith, lookup-erase k j m)

module _ (block_hash : FullBlock → Hash) where
  pub put_block-IsIndexed :
      (s : BlockStore) (block : FullBlock)
      → Fits s.bodies (block_hash block) block.height
      → IsIndexed s
      → IsIndexed (put_block block_hash s block)
  unfolding put_block
  put_block-IsIndexed s block fits i = record {
    canonical = λ h g e. elim (insert-named block.height h (block_hash block) g s.canon e) [
      | inl (p, q) ↦ rw (← p, ← q) (insert-Holds_self s.bodies (block_hash block) block)
      | inr old ↦ insert-Holds s.bodies (block_hash block) g block h fits (i.canonical h g old)
    ];
    marked = λ g h e.
        insert-Holds s.bodies (block_hash block) g block h fits
          (i.marked g h (erase-named (block_hash block) g h s.side e));
  }

  pub put_block-canon :
      (s : BlockStore) (block : FullBlock)
      → lookup block.height (put_block block_hash s block).canon ≡ some (block_hash block)
  unfolding put_block
  put_block-canon s block = rw (lookup-insert, ==_self block.height) refl

  -- Storing a side block in a consistent store, where no stored body has its digest at another
  -- height, keeps the store consistent, and the height index as it was.
  pub put_side_block-IsConsistent :
      (s : BlockStore) (block : FullBlock)
      → Fits s.bodies (block_hash block) block.height
      → IsConsistent s
      → IsConsistent (put_side_block block_hash s block)
        × ((put_side_block block_hash s block).canon ≡ s.canon)
  unfolding put_side_block
  put_side_block-IsConsistent s block fits c = (
    record {
      indexed = record {
        canonical = λ h g e.
            insert-Holds s.bodies (block_hash block) g block h fits (c.indexed.canonical h g e);
        marked = λ g h e. elim (insert-named (block_hash block) g block.height h s.side e) [
          | inl (p, q) ↦ rw (← p, ← q) (insert-Holds_self s.bodies (block_hash block) block)
          | inr old ↦
              insert-Holds s.bodies (block_hash block) g block h fits (c.indexed.marked g h old)
        ];
      };
      tip = c.tip;
    },
    refl,
  )

  -- A block that is put into a consistent store, where no stored body has its digest at another
  -- height, leaves the store consistent and is its new tip.
  pub put_new_block-IsConsistent :
      (s s' : BlockStore) (block : FullBlock)
      → Fits s.bodies (block_hash block) block.height
      → IsConsistent s
      → put_new_block block_hash s block ≡ ok s'
      → IsConsistent s' × (s'.latest_height ≡ block.height) × (s'.latest_hash ≡ block_hash block)
  unfolding put_new_block put_latest_tags
  put_new_block-IsConsistent s s' block fits c e =
      elim (Option-cases (check_block s block.height block.prev_block_hash)) [
        | inr (x, bad) ↦ ground arith
        | inl good ↦
            let q : put_latest_tags (put_block block_hash s block) block.height (block_hash block)
                ≡ s' =
              ground arith in
            rw (← q) (
              record {
                indexed = record {
                  canonical = (put_block-IsIndexed s block fits c.indexed).canonical;
                  marked = (put_block-IsIndexed s block fits c.indexed).marked;
                };
                tip = put_block-canon s block;
              },
              refl,
              refl,
            )
      ]
