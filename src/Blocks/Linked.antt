-- ===== src/Blocks/Linked.antt =====
-- The canonical chain as the height index gives it: linked by previous-block hashes from the tip down
-- to the origin, with nothing above the tip.
use ngcore.Base.{
  ℕ, zero, suc, ◌+◌, ◌-◌, ◌^◌, ◌≡◌, ◌≤◌, ◌<◌, sym, ap, ◌∙◌, none, some, ◌⊎◌, inl, inr, ◌==◌, ltb,
  subst, Bool-cases, Option-cases, arith, false,
}
use ngcore.Types.{Hash, FullBlock}
use ngcore.Maps.{Map, lookup}
use ngcore.Maps.Laws.{lookup-insert}
use ngcore.Blocks.{
  BlockStore, ok, check_block, block_height_exists, block_prev_hash_exists, get_block_by_height,
  get_block_by_hash, put_block, put_latest_tags, put_new_block,
}
use ngcore.Blocks.Consistent.{Fits, IsIndexed, IsConsistent, put_new_block-IsConsistent}

-- Up to height `t` each canonical block above the origin builds on the canonical block below it, and
-- no height above `t` and `m` is canonical.
pub record IsLinked (s : BlockStore) (t m : ℕ) : Type 0 where
  pub linked :
      (h : ℕ) (g : Hash) (b : FullBlock)
      → s.origin_height < h
      → h ≤ t
      → lookup h s.canon ≡ some g
      → lookup g s.bodies ≡ some b
      → lookup (h - 1) s.canon ≡ some b.prev_block_hash
  pub under : (h : ℕ) (g : Hash) → lookup h s.canon ≡ some g → (h ≤ t) ⊎ (h ≤ m)

-- A consistent store whose tip ends a linked chain and is its highest block.
pub record IsChain (s : BlockStore) : Type 0 where
  pub consistent : IsConsistent s
  pub chain : IsLinked s s.latest_height s.latest_height
  pub above_origin : s.origin_height ≤ s.latest_height

-- Every height from the origin to the tip is canonical.
pub canonical-below :
    (s : BlockStore) (k h : ℕ)
    → IsChain s
    → h + k ≡ s.latest_height
    → s.origin_height ≤ h
    → (g : Hash) × (lookup h s.canon ≡ some g)
canonical-below s zero h c e o =
    let p : s.latest_height ≡ h = omega arith in
    (s.latest_hash, ap (λ k. lookup k s.canon) (sym p) ∙ c.consistent.tip)
canonical-below s (suc k) h c e o =
    let (g, at) = canonical-below s k (suc h) c (omega arith) (omega arith) in
    let (b, held, _) = c.consistent.indexed.canonical (suc h) g at in
    let below = c.chain.linked (suc h) g b (omega arith) (omega arith) at held in
    let p : h ≡ suc h - 1 = omega arith in (b.prev_block_hash, ap (λ k. lookup k s.canon) p ∙ below)

pub some_block : {b c : FullBlock} → some b ≡ some c → b ≡ c
some_block e = cc

pub same_hash : {g h : Hash} → some g ≡ some h → g ≡ h
same_hash e = cc

-- A chain that has grown to its tip.
pub top-IsLinked :
    (s : BlockStore) (m : ℕ)
    → s.latest_height ≡ m + 1
    → IsLinked s (m + 1) m
    → IsLinked s s.latest_height s.latest_height
top-IsLinked s m top l = record {
  linked = λ h g b o le at held. l.linked h g b o (omega arith) at held;
  under =
      λ h g at. elim (l.under h g at) [ inl low ↦ inl (omega arith) | inr low ↦ inl (omega arith) ];
}

module _ (block_hash : FullBlock → Hash) where
  -- No other block is stored under the digest of a block.
  abbrev pub Own : Map FullBlock → FullBlock → Type 0
  Own bodies block = (c : FullBlock) → lookup (block_hash block) bodies ≡ some c → c ≡ block

  -- A block put right above height `t`, on the canonical block of that height.
  pub put_block-IsLinked :
      (s : BlockStore) (block : FullBlock) (t m : ℕ)
      → Own s.bodies block
      → block.height ≡ t + 1
      → lookup t s.canon ≡ some block.prev_block_hash
      → IsIndexed s
      → IsLinked s t m
      → IsLinked (put_block block_hash s block) (t + 1) m
  unfolding put_block
  put_block-IsLinked s block t m own high on i l =
      let hash = block_hash block in
      record {
        linked = λ h g b o le at held. elim (Bool-cases (block.height == h)) [
          | inl same ↦
              let named : hash ≡ g = ground (arith, lookup-insert block.height h hash s.canon) in
              let body : block ≡ b =
                some_block
                  (sym (ground (arith, lookup-insert hash g block s.bodies, named)) ∙ held) in
              let down : h - 1 ≡ t = ground arith in
              ground (
                arith,
                lookup-insert block.height (h - 1) hash s.canon,
                on,
                ap (λ k. lookup k s.canon) down,
                ap (λ (x : FullBlock). x.prev_block_hash) body,
              )
          | inr other ↦
              let old : lookup h s.canon ≡ some g =
                ground (arith, lookup-insert block.height h hash s.canon) in
              let (c, was, at_h) = i.canonical h g old in
              let apart : (hash == g) ≡ false = elim (Bool-cases (hash == g)) [
                | inr n ↦ n
                | inl e ↦
                    let p : hash ≡ g = ground arith in
                    let q : c ≡ block = own c (ap (λ k. lookup k s.bodies) p ∙ was) in
                    absurd (ground (arith, ap (λ (x : FullBlock). x.height) q))
              ] in
              let body : lookup g s.bodies ≡ some b =
                sym (ground (arith, lookup-insert hash g block s.bodies)) ∙ held in
              let low : h ≤ t = ground arith in
              ground (
                arith,
                l.linked h g b o low old body,
                lookup-insert block.height (h - 1) hash s.canon,
              )
        ];
        under = λ h g at. elim (Bool-cases (block.height == h)) [
          | inl same ↦ inl (ground arith)
          | inr other ↦
              elim (l.under h g (ground (arith, lookup-insert block.height h hash s.canon))) [
                | inl low ↦ inl (omega arith)
                | inr low ↦ inr low
              ]
        ];
      }

  -- What `checkBlock` has found: the height is free, and the parent is stored one height below.
  check_block-found :
      (s : BlockStore) (block : FullBlock)
      → block.height < 2 ^ 64
      → check_block s block.height block.prev_block_hash ≡ none
      → (0 < block.height)
        × (get_block_by_height s block.height ≡ none)
        × ((b : FullBlock) × (lookup block.prev_block_hash s.bodies ≡ some b)
            × (b.height + 1 ≡ block.height))
  unfolding check_block block_height_exists block_prev_hash_exists get_block_by_hash
  check_block-found s block word e = elim (Option-cases (lookup block.prev_block_hash s.bodies)) [
    | inl missing ↦ absurd (ground arith)
    | inr (b, held) ↦ elim (Option-cases (get_block_by_height s block.height)) [
      | inr (c, taken) ↦ absurd (ground arith)
      | inl free ↦ (ground arith, free, (b, held, ground arith))
    ]
  ]

  -- A height without a canonical block is above the tip.
  free-above :
      (s : BlockStore) (h : ℕ)
      → IsChain s
      → s.origin_height ≤ h
      → get_block_by_height s h ≡ none
      → s.latest_height < h
  unfolding get_block_by_height
  free-above s h c o free = elim (Bool-cases (ltb s.latest_height h)) [
    | inl above ↦ ground arith
    | inr below ↦
        let (g, at) = canonical-below s (s.latest_height - h) h c (ground arith) o in
        let (b, held, _) = c.consistent.indexed.canonical h g at in absurd (ground (arith, held))
  ]

  -- Where the parent of a block is no side block, a block above the origin that is accepted into a
  -- linked chain, and whose digest is no other stored block's, extends the chain by one: it builds
  -- on the tip, it is the new tip, and the chain is consistent and linked from it to the origin, with
  -- no canonical height above it.
  pub put_new_block-IsChain :
      (s s' : BlockStore) (block : FullBlock)
      → block.height < 2 ^ 64
      → s.origin_height < block.height
      → Own s.bodies block
      → ((b : FullBlock)
          → lookup block.prev_block_hash s.bodies ≡ some b
          → lookup b.height s.canon ≡ some block.prev_block_hash)
      → IsChain s
      → put_new_block block_hash s block ≡ ok s'
      → IsChain s'
        × (block.prev_block_hash ≡ s.latest_hash)
        × (s'.latest_height ≡ s.latest_height + 1)
        × (s'.latest_hash ≡ block_hash block)
  unfolding put_new_block put_latest_tags put_block
  put_new_block-IsChain s s' block word above own main c e =
      elim (Option-cases (check_block s block.height block.prev_block_hash)) [
        | inr (x, bad) ↦ absurd (ground arith)
        | inl good ↦
            let (positive, free, (b, held, up)) = check_block-found s block word good in
            let fits : Fits s.bodies (block_hash block) block.height =
              λ d there. ap (λ (x : FullBlock). x.height) (own d there) in
            let (consistent, height, hash) =
              put_new_block-IsConsistent block_hash s s' block fits c.consistent e in
            let on = main b held in
            let low : b.height ≤ s.latest_height =
              elim (c.chain.under b.height block.prev_block_hash on) [
                | inl le ↦ le
                | inr le ↦ le
              ] in
            let high = free-above s block.height c (omega arith) free in
            let at_tip : b.height ≡ s.latest_height = omega arith in
            let on_tip : lookup s.latest_height s.canon ≡ some block.prev_block_hash =
              ap (λ k. lookup k s.canon) (sym at_tip) ∙ on in
            let longer =
              put_block-IsLinked s block s.latest_height s.latest_height own (omega arith) on_tip
                c.consistent.indexed c.chain in
            let q : put_latest_tags (put_block block_hash s block) block.height (block_hash block)
                ≡ s' =
              ground arith in
            let next : IsLinked s' (s.latest_height + 1) s.latest_height =
              subst (λ (r : BlockStore). IsLinked r (s.latest_height + 1) s.latest_height) q
                (record { linked = longer.linked; under = longer.under }) in
            let top : s'.latest_height ≡ s.latest_height + 1 = omega arith in
            (
              record {
                consistent = consistent;
                chain = top-IsLinked s' s.latest_height top next;
                above_origin =
                    let origin : s.origin_height ≡ s'.origin_height =
                      ap (λ (r : BlockStore). r.origin_height) q in
                    omega arith;
              },
              same_hash (sym on_tip ∙ c.consistent.tip),
              top,
              hash,
            )
      ]
