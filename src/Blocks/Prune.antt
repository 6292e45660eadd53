-- ===== src/Blocks/Prune.antt =====
-- What `PruneSideBlocks` spares.
use ngcore.Base.{
  ℕ, ◌≡◌, refl, sym, ap, ◌∙◌, Bool, false, ◌||◌, none, some, List, [], ◌∷◌, inl, inr, ◌==◌,
  Bool-cases, Option-cases, if◌then◌else◌, arith, In,
}
use ngcore.Types.{Hash, FullBlock}
use ngcore.Maps.{Map, lookup, Distinct}
use ngcore.Maps.Laws.{lookup-erase, In-lookup}
use ngcore.Blocks.{BlockStore, victims, drop_side, drop_all, prune_side_blocks, get_block_by_height}
use ngcore.Blocks.Consistent.{IsIndexed, IsConsistent}

abbrev listed : Hash → List Hash → Bool
listed g [] = false
listed g (k ∷ ks) = k == g || listed g ks

lookup-drop_all :
    (ks : List Hash) (s : BlockStore) (g : Hash)
    → (lookup g (drop_all ks s).bodies ≡ (if listed g ks then none else lookup g s.bodies))
      × (lookup g (drop_all ks s).side ≡ (if listed g ks then none else lookup g s.side))
unfolding drop_all drop_side
lookup-drop_all [] s g = (refl, refl)
lookup-drop_all (k ∷ ks) s g =
    let (body, mark) = lookup-drop_all ks (drop_side k s) g in
    (ground (arith, body, lookup-erase k g s.bodies), ground (arith, mark, lookup-erase k g s.side))

drop_all-canon :
    (ks : List Hash) (s : BlockStore)
    → ((drop_all ks s).canon ≡ s.canon)
      × ((drop_all ks s).latest_height ≡ s.latest_height)
      × ((drop_all ks s).latest_hash ≡ s.latest_hash)
unfolding drop_all drop_side
drop_all-canon [] s = (refl, refl, refl)
drop_all-canon (k ∷ ks) s = drop_all-canon ks (drop_side k s)

-- A canonical block is no victim, whatever mark it still has of its height.
victims-spare :
    (s : BlockStore) (below h : ℕ) (g : Hash) (m : Map ℕ)
    → lookup h s.canon ≡ some g
    → ((k : ℕ) → In (g, k) m → k ≡ h)
    → listed g (victims s below m) ≡ false
unfolding victims
victims-spare s below h g [] e marks = refl
victims-spare s below h g ((j, k) ∷ m) e marks =
    let rest = victims-spare s below h g m e (λ k i. marks k (inr i)) in
    elim (Bool-cases (j == g)) [
      | inr other ↦ elim (Option-cases (lookup k s.canon)) [
        | inl unset ↦ ground (arith)
        | inr (c, there) ↦ ground (arith)
      ]
      | inl same ↦
          let p : k ≡ h = marks k (inl (ap (λ z. (z, k)) (ground arith))) in
          let q : lookup k s.canon ≡ some g = ap (λ z. lookup z s.canon) p ∙ e in ground (arith, q)
    ]

some_eq : (b c : FullBlock) → some b ≡ some c → b ≡ c
some_eq b c e = cc

module _ (s : BlockStore) (below : ℕ) (d : Distinct s.side) (i : IsIndexed s) where
  abbrev dropped : List Hash
  dropped = victims s below s.side

  spared : (h : ℕ) (g : Hash) → lookup h s.canon ≡ some g → listed g dropped ≡ false
  spared h g e =
      let (b, body, at) = i.canonical h g e in
      victims-spare s below h g s.side e (λ k m.
        let (c, body', at') = i.marked g k (In-lookup g k s.side d m) in
        ground (arith, ap (λ (o : FullBlock). o.height) (some_eq b c (sym body ∙ body')), at, at'))

  pruned-IsIndexed : IsIndexed (prune_side_blocks s below)
  unfolding prune_side_blocks
  pruned-IsIndexed = record {
    canonical = λ h g e.
        let kept = ap (lookup h) (drop_all-canon dropped s).0 in
        let (b, body, at) = i.canonical h g (sym kept ∙ e) in
        (b, ground (arith, (lookup-drop_all dropped s g).0, spared h g (sym kept ∙ e), body), at);
    marked = λ g h e.
        let (same_body, same_mark) = lookup-drop_all dropped s g in
        elim (Bool-cases (listed g dropped)) [
          | inl gone ↦ ground (arith, same_mark)
          | inr kept ↦
              let (b, body, at) = i.marked g h (ground (arith, same_mark)) in
              (b, ground (arith, same_body, body), at)
        ];
  }

  pruned-block :
      (h : ℕ) → get_block_by_height (prune_side_blocks s below) h ≡ get_block_by_height s h
  unfolding prune_side_blocks get_block_by_height
  pruned-block h =
      let kept = ap (lookup h) (drop_all-canon dropped s).0 in
      elim (Option-cases (lookup h s.canon)) [
        | inl unset ↦ ground (arith, kept, unset)
        | inr (g, e) ↦ ground (arith, kept, e, (lookup-drop_all dropped s g).0, spared h g e)
      ]

pruned-tip :
    (s : BlockStore) (below : ℕ)
    → lookup s.latest_height s.canon ≡ some s.latest_hash
    → lookup (prune_side_blocks s below).latest_height (prune_side_blocks s below).canon
      ≡ some (prune_side_blocks s below).latest_hash
unfolding prune_side_blocks
pruned-tip s below e =
    let (canon, height, hash) = drop_all-canon (victims s below s.side) s in
    rw (canon, height, hash) e

-- Pruning the side blocks of a consistent store below any height keeps it consistent, and the
-- canonical block of every height as it was. The side marks have no digest twice.
pub prune_side_blocks-IsConsistent :
    (s : BlockStore) (below h : ℕ)
    → Distinct s.side
    → IsConsistent s
    → IsConsistent (prune_side_blocks s below)
      × (get_block_by_height (prune_side_blocks s below) h ≡ get_block_by_height s h)
prune_side_blocks-IsConsistent s below h d c = (
  record { indexed = pruned-IsIndexed s below d c.indexed; tip = pruned-tip s below c.tip },
  pruned-block s below d c.indexed h,
)
