-- ===== src/Chain/Uncles.antt =====
-- What `validateUncles` accepts.
use ngcore.Base.{
  ℕ, zero, suc, ◌+◌, ◌^◌, ◌++◌, ◌≡◌, ◌≤◌, ◌<◌, sym, ap, ◌∙◌, false, Option, none, some, List, [],
  ◌∷◌, In, length, sub64, ltb, inl, inr, Option-cases, Bool-cases, arith,
}
use mathlib.Core.Path.{subst}
use ngcore.Params.{uncle_max_depth}
use ngcore.Types.{Hash, BlockHeader, FullBlock}
use ngcore.Base.Int.{pos, ltb_ℤ, int64_of, wrap64, ◌-ℤ◌}
use ngcore.Maps.{Map, lookup, insert}
use ngcore.Maps.Laws.{lookup-insert}
use ngcore.Chain.{
  has, depth_of, uncle_hashes, ancestors_of, check_uncle, check_uncles, lowest_ancestor,
  validate_uncles,
}
use ngcore.Pool.Pack.Lists.{Unique, In-All}

In-length : {A : Type 0} (x : A) (xs : List A) → In x xs → 0 < length xs
In-length x [] i = absurd i
In-length x (y ∷ ys) i = omega arith

some_fst :
    {m n : Map FullBlock} {r t : List Hash}
    → ◌≡◌ {A = Option (Map FullBlock × List Hash)} (some (m, r)) (some (n, t))
    → m ≡ n
some_fst e = cc

depth_of-near :
    (height uncle : ℕ)
    → height < 2 ^ 63
    → uncle < 2 ^ 64
    → sub64 uncle 1 < 2 ^ 63
    → ltb_ℤ (depth_of height uncle) (pos 1) ≡ false
    → ltb_ℤ (pos uncle_max_depth) (depth_of height uncle) ≡ false
    → (uncle < height) × (height ≤ uncle + uncle_max_depth)
unfolding depth_of wrap64 int64_of ◌-ℤ◌
depth_of-near height uncle low word small deep near = ground arith

module _ (get_block : Hash → Option FullBlock) (block_hash : FullBlock → Hash)
    (header_hash : BlockHeader → Hash) where
  -- An uncle's depth passes, it forks off an ancestor, and it was not referenced before.
  record IsUncle (height : ℕ) (ancestors : Map FullBlock) (referenced : List Hash) (u : BlockHeader)
      : Type 0 where
    pub deep : ltb_ℤ (depth_of height u.height) (pos 1) ≡ false
    pub near : ltb_ℤ (pos uncle_max_depth) (depth_of height u.height) ≡ false
    pub fork :
        (parent : FullBlock) × (lookup (sub64 u.height 1) ancestors ≡ some parent)
        × (block_hash parent ≡ u.prev_block_hash)
        × (parent.timestamp < u.timestamp)
    pub fresh : has (header_hash u) referenced ≡ false

  check_uncle-IsUncle :
      (height : ℕ) (ancestors : Map FullBlock) (referenced : List Hash) (u : BlockHeader)
      → check_uncle get_block block_hash header_hash height ancestors referenced u ≡ none
      → IsUncle height ancestors referenced u
  unfolding check_uncle
  check_uncle-IsUncle height ancestors referenced u e =
      elim (Option-cases (lookup (sub64 u.height 1) ancestors)) [
        | inl missing ↦ ground arith
        | inr (parent, there) ↦ record {
          deep = ground arith;
          near = ground arith;
          fork = (parent, there, ground arith, ground arith);
          fresh = ground arith;
        }
      ]

  check_uncles-IsUncle :
      (height : ℕ) (ancestors : Map FullBlock) (referenced : List Hash) (us : List BlockHeader)
      (u : BlockHeader)
      → check_uncles get_block block_hash header_hash height ancestors referenced us ≡ none
      → In u us
      → IsUncle height ancestors referenced u
  unfolding check_uncles has
  check_uncles-IsUncle height ancestors referenced [] u e i = absurd i
  check_uncles-IsUncle height ancestors referenced (v ∷ vs) u e i =
      elim (Option-cases
        (check_uncle get_block block_hash header_hash height ancestors referenced v)) [
          | inr (x, bad) ↦ ground arith
          | inl good ↦ elim i [
            | inl same ↦
                subst (λ (x : BlockHeader). IsUncle height ancestors referenced x) (sym same)
                  (check_uncle-IsUncle height ancestors referenced v good)
            | inr later ↦
                let rest =
                  check_uncles-IsUncle height ancestors (header_hash v ∷ referenced) vs u
                    (ground arith) later in
                record {
                  deep = rest.deep;
                  near = rest.near;
                  fork = rest.fork;
                  fresh = ground (arith, rest.fresh);
                }
          ]
        ]

  check_uncles-Unique :
      (height : ℕ) (ancestors : Map FullBlock) (referenced : List Hash) (us : List BlockHeader)
      → check_uncles get_block block_hash header_hash height ancestors referenced us ≡ none
      → Unique header_hash us
  unfolding check_uncles has
  check_uncles-Unique height ancestors referenced [] e = tt
  check_uncles-Unique height ancestors referenced (v ∷ vs) e =
      elim (Option-cases
        (check_uncle get_block block_hash header_hash height ancestors referenced v)) [
          | inr (x, bad) ↦ ground arith
          | inl good ↦
              let rest : check_uncles get_block block_hash header_hash height ancestors
                    (header_hash v ∷ referenced) vs
                  ≡ none =
                ground arith in
              (
                In-All _ vs (λ u i same. ground (
                  arith,
                  (check_uncles-IsUncle height ancestors (header_hash v ∷ referenced) vs u rest
                      i).fresh,
                  same,
                )),
                check_uncles-Unique height ancestors (header_hash v ∷ referenced) vs rest,
              )
        ]

  -- The walk collects stored blocks only, each under its height.
  ancestors_of-small :
      (fuel lowest : ℕ) (cur : FullBlock) (before ancestors : Map FullBlock)
      (seen referenced : List Hash)
      → ((g : Hash) (b : FullBlock) → get_block g ≡ some b → b.height < 2 ^ 63)
      → ((k : ℕ) (b : FullBlock) → lookup k before ≡ some b → k < 2 ^ 63)
      → ancestors_of get_block block_hash header_hash fuel lowest cur before seen
        ≡ some (ancestors, referenced)
      → (k : ℕ) (b : FullBlock) → lookup k ancestors ≡ some b
      → k < 2 ^ 63
  unfolding ancestors_of
  ancestors_of-small zero lowest cur before ancestors seen referenced small old e k b there =
      let same : before ≡ ancestors = some_fst {r = seen} {t = referenced} (ground arith) in
      old k b (ap (lookup k) same ∙ there)
  ancestors_of-small (suc fuel) lowest cur before ancestors seen referenced small old e k b there =
      elim (Bool-cases (ltb lowest cur.height)) [
        | inr done ↦
            let same : before ≡ ancestors = some_fst {r = seen} {t = referenced} (ground arith) in
            old k b (ap (lookup k) same ∙ there)
        | inl more ↦ elim (Option-cases (get_block cur.prev_block_hash)) [
          | inl cut ↦ absurd (ground arith)
          | inr (parent, found) ↦
              ancestors_of-small fuel lowest parent (insert parent.height parent before) ancestors
                (uncle_hashes get_block block_hash header_hash parent.uncles ++ seen) referenced
                small
                (λ j c held.
                  ground
                    (arith, lookup-insert parent.height j parent before, old j c, small _ _ found))
                (ground (arith, more, found)) k b there
        ]
      ]

  -- A block below height 2 ^ 63 whose uncles are accepted, where the stored blocks are below that
  -- height too, references none twice, and each of them stands 1 to 30 heights below the block: the
  -- int64 depth that is tested then wraps around for no uncle whose parent is an ancestor.
  pub validate_uncles-Unique :
      (block : FullBlock) (u : BlockHeader)
      → block.height < 2 ^ 63
      → u.height < 2 ^ 64
      → ((g : Hash) (b : FullBlock) → get_block g ≡ some b → b.height < 2 ^ 63)
      → validate_uncles get_block block_hash header_hash block ≡ none
      → In u block.uncles
      → Unique header_hash block.uncles
        × (u.height < block.height)
        × (block.height ≤ u.height + uncle_max_depth)
  unfolding validate_uncles lookup
  validate_uncles-Unique block u low word small e i =
      let some_uncle = In-length u block.uncles i in
      elim (Option-cases (
        ancestors_of get_block block_hash header_hash block.height (lowest_ancestor block.height)
          block [] [])) [
            | inl cut ↦ ground arith
            | inr ((ancestors, referenced), walked) ↦
                let q : check_uncles get_block block_hash header_hash block.height ancestors
                      referenced block.uncles
                    ≡ none =
                  ground arith in
                let uncle =
                  check_uncles-IsUncle block.height ancestors referenced block.uncles u q i in
                let (parent, there, _, _) = uncle.fork in
                let near =
                  depth_of-near block.height u.height low word
                    (ancestors_of-small block.height (lowest_ancestor block.height) block []
                      ancestors [] referenced small (λ k b e. cc) walked (sub64 u.height 1) parent
                      there)
                    uncle.deep uncle.near in
                (
                  check_uncles-Unique block.height ancestors referenced block.uncles q,
                  near.0,
                  near.1,
                )
          ]
