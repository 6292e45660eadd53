-- ===== src/Trie/Canonical.antt =====
-- The root of a consistent store is a function of its leaves.
use ngcore.Base.{
  ℕ, zero, suc, ◌+◌, ◌-◌, ◌≤◌, ◌≡◌, ◌≢◌, refl, sym, ap, ap₂, ◌∙◌, ◌⊎◌, inl, inr, List, [], ◌∷◌,
  length, All, arith,
}
use ngcore.Types.{Bytes}
use ngcore.Trie.{
  Key, Store, tree_depth, empty_store, zero_hash, node_key, get_node, internal_hash, leaf_hash,
  update, root,
}
use ngcore.Trie.Paths.{IsPath}
use ngcore.Trie.Consistent.{IsConsistent, key_split, empty_store-IsConsistent}
use ngcore.Trie.Leaves.{leaf-update_ne}
use ngcore.Trie.History.{
  Write, IsWrite, latest, run, run-IsConsistent, run-leaf, leaf_at, zero_leaf, empty_leaf,
}

-- Whether a write of the history is at the key `k`.
Misses : Key → List Write → Type 0
Misses k ws = All (λ (w : Write). node_key tree_depth w.0 ≢ k) ws

find-IsPath :
    (k : Key) (ws : List Write)
    → All IsWrite ws
    → ((path : Bytes) × IsPath path × (node_key tree_depth path ≡ k)) ⊎ Misses k ws
unfolding Misses
find-IsPath k [] ok = inr tt
find-IsPath k ((p, v) ∷ ws) ok = elim (key_split (node_key tree_depth p) k) [
  | inl e ↦ inl (p, ok.0.0, e)
  | inr ne ↦ elim (find-IsPath k ws ok.1) [ inl found ↦ inl found | inr rest ↦ inr (ne, rest) ]
]

module _ (hash256 : Bytes → Bytes) where
  run-Misses :
      (s : Store) (k : Key) (ws : List Write)
      → tree_depth ≤ length k
      → Misses k ws
      → leaf_at hash256 (run hash256 s ws) k ≡ leaf_at hash256 s k
  unfolding run Misses
  run-Misses s k [] le m = refl
  run-Misses s k ((p, v) ∷ ws) le m =
      run-Misses (update hash256 s p v) k ws le m.1 ∙ leaf-update_ne hash256 s p v k le m.0

  -- Two consistent stores with the same leaves have the same nodes.
  nodes-eq :
      (s t : Store) (h : ℕ) (k : Key)
      → IsConsistent hash256 s
      → IsConsistent hash256 t
      → ((j : Key) → length j ≡ tree_depth → leaf_at hash256 s j ≡ leaf_at hash256 t j)
      → length k + h ≡ tree_depth
      → get_node hash256 s k h ≡ get_node hash256 t k h
  nodes-eq s t zero k c d leaves e = leaves k (omega arith)
  nodes-eq s t (suc h) k c d leaves e =
      let up : tree_depth - length k ≡ suc h = omega arith in
      let down : tree_depth - suc (length k) ≡ h = omega arith in
      let below = λ (b : ℕ). nodes-eq s t h (b ∷ k) c d leaves (omega arith) in
      rw (up, down) at (c k (omega arith))
      ∙ ap₂ (internal_hash hash256) (below 0) (below 1)
      ∙ sym (rw (up, down) at (d k (omega arith)))

  abbrev SameEntries : List Write → List Write → Type 0
  SameEntries us ws =
      (path : Bytes) → IsPath path → latest us path zero_hash ≡ latest ws path zero_hash

  hit_leaf :
      (us ws : List Write) (path : Bytes)
      → All IsWrite us
      → All IsWrite ws
      → SameEntries us ws
      → IsPath path
      → leaf_at hash256 (run hash256 empty_store us) (node_key tree_depth path)
        ≡ leaf_at hash256 (run hash256 empty_store ws) (node_key tree_depth path)
  hit_leaf us ws path oku okw same hp =
      let start = empty_leaf hash256 (node_key tree_depth path) ∙ sym (zero_leaf hash256 path) in
      run-leaf hash256 empty_store us path zero_hash oku hp start
      ∙ ap (leaf_hash hash256 path) (same path hp)
      ∙ sym (run-leaf hash256 empty_store ws path zero_hash okw hp start)

  same_leaves :
      (us ws : List Write)
      → All IsWrite us
      → All IsWrite ws
      → SameEntries us ws
      → (k : Key) → length k ≡ tree_depth
      → leaf_at hash256 (run hash256 empty_store us) k
        ≡ leaf_at hash256 (run hash256 empty_store ws) k
  same_leaves us ws oku okw same k l = elim (find-IsPath k us oku) [
    | inl (path, hp, e) ↦ rw (← e) (hit_leaf us ws path oku okw same hp)
    | inr mu ↦ elim (find-IsPath k ws okw) [
      | inl (path, hp, e) ↦ rw (← e) (hit_leaf us ws path oku okw same hp)
      | inr mw ↦
          run-Misses empty_store k us (omega arith) mu
          ∙ sym (run-Misses empty_store k ws (omega arith) mw)
    ]
  ]

  -- Two histories of updates of the empty tree that leave the same entries have the same root, in
  -- whatever order and however often they wrote.
  pub root-run :
      (us ws : List Write)
      → All IsWrite us
      → All IsWrite ws
      → ((path : Bytes) → IsPath path → latest us path zero_hash ≡ latest ws path zero_hash)
      → root hash256 (run hash256 empty_store us) ≡ root hash256 (run hash256 empty_store ws)
  unfolding root
  root-run us ws oku okw same =
      nodes-eq _ _ tree_depth []
        (run-IsConsistent hash256 empty_store us (empty_store-IsConsistent hash256))
        (run-IsConsistent hash256 empty_store ws (empty_store-IsConsistent hash256))
        (same_leaves us ws oku okw same) refl
