-- ===== src/Trie/Leaves.antt =====
-- What an update does to the leaves.
use ngcore.Base.{ℕ, zero, suc, ◌-◌, ◌≤◌, ◌≡◌, ◌≢◌, refl, ◌∙◌, length, arith}
use ngcore.Types.{Bytes}
use ngcore.Trie.{
  Key, Store, tree_depth, path_bit, node_key, sibling_key, get_node, set_node, join, leaf_hash,
  update_from, update,
}
use ngcore.Trie.Keys.{length-node_key, length_ne, get_node-set_node_self, get_node-set_node_ne}

module _ (hash256 : Bytes → Bytes) where
  -- The loop writes no node at the depth where it starts or deeper.
  update_from-deep :
      (s : Store) (path : Bytes) (d : ℕ) (cur : Bytes) (k : Key) (h : ℕ)
      → d ≤ length k
      → get_node hash256 (update_from hash256 s path d cur) k h ≡ get_node hash256 s k h
  unfolding update_from
  update_from-deep s path zero cur k h le = refl
  update_from-deep s path (suc d) cur k h le =
      let up =
        join hash256 (path_bit path d) cur
          (get_node hash256 s (sibling_key (suc d) path) (tree_depth - suc d)) in
      let l : length (node_key d path) ≡ d = length-node_key d path in
      update_from-deep (set_node hash256 s (node_key d path) (tree_depth - d) up) path d up k h
        (omega arith)
      ∙ get_node-set_node_ne hash256 s (node_key d path) k (tree_depth - d) h up
          (length_ne (node_key d path) k (λ e. absurd (omega arith)))

  pub leaf-update_self :
      (s : Store) (path v : Bytes)
      → get_node hash256 (update hash256 s path v) (node_key tree_depth path) 0
        ≡ leaf_hash hash256 path v
  unfolding update
  leaf-update_self s path v =
      let l : length (node_key tree_depth path) ≡ tree_depth = length-node_key tree_depth path in
      update_from-deep _ path tree_depth (leaf_hash hash256 path v) (node_key tree_depth path) 0
        (omega arith)
      ∙ get_node-set_node_self hash256 s (node_key tree_depth path) 0 _

  pub leaf-update_ne :
      (s : Store) (path v : Bytes) (k : Key)
      → tree_depth ≤ length k
      → node_key tree_depth path ≢ k
      → get_node hash256 (update hash256 s path v) k 0 ≡ get_node hash256 s k 0
  unfolding update
  leaf-update_ne s path v k le ne =
      update_from-deep _ path tree_depth (leaf_hash hash256 path v) k 0 le
      ∙ get_node-set_node_ne hash256 s (node_key tree_depth path) k 0 0 _ ne
