-- ===== src/Trie/History.antt =====
-- Histories of updates: what the proofs show afterwards, and that the root depends only on the
-- entries, not on the order in which they were written.
use ngcore.Base.{
  ◌≡◌, refl, sym, ◌∙◌, inl, inr, List, [], ◌∷◌, true, length, All, bytes_eq, bytes_eq_self,
  bytes_eq-ne, arith, if◌then◌else◌,
}
use ngcore.Types.{Bytes}
use ngcore.Params.{hash_size}
use ngcore.Trie.{
  Key, Store, tree_depth, empty_store, zero_hash, node_key, get_node, defaults, leaf_hash, update,
  root, prove, verify,
}
use ngcore.Trie.Keys.{length-node_key}
use ngcore.Trie.Paths.{IsPath, node_key-injective}
use ngcore.Trie.Consistent.{IsConsistent, key_split, empty_store-IsConsistent, update-IsConsistent}
use ngcore.Trie.Proofs.{IsSized, empty_store-IsSized, update-IsSized, verify-prove}
use ngcore.Trie.Leaves.{leaf-update_self, leaf-update_ne}

-- A write of a value hash at a path; the zero hash deletes.
abbrev pub Write : Type 0
Write = Bytes × Bytes

abbrev pub IsWrite : Write → Type 0
IsWrite (path, v) = IsPath path × (length v ≡ hash_size)

-- The specification: the last value hash written at the path.
abbrev pub latest : List Write → Bytes → Bytes → Bytes
latest [] path cur = cur
latest ((p, v) ∷ ws) path cur = latest ws path (if bytes_eq p path then v else cur)

module _ (hash256 : Bytes → Bytes) where
  unfoldable pub run : Store → List Write → Store
  run s [] = s
  run s ((p, v) ∷ ws) = run (update hash256 s p v) ws

  pub run-IsConsistent :
      (s : Store) (ws : List Write) → IsConsistent hash256 s → IsConsistent hash256 (run s ws)
  unfolding run
  run-IsConsistent s [] c = c
  run-IsConsistent s ((p, v) ∷ ws) c =
      run-IsConsistent (update hash256 s p v) ws (update-IsConsistent hash256 s p v c)

  -- The leaf that a path's entry puts at a key.
  abbrev pub leaf_at : Store → Key → Bytes
  leaf_at s k = get_node hash256 s k 0

  step-leaf :
      (s : Store) (p v path cur : Bytes)
      → IsPath p
      → IsPath path
      → leaf_at s (node_key tree_depth path) ≡ leaf_hash hash256 path cur
      → leaf_at (update hash256 s p v) (node_key tree_depth path)
        ≡ leaf_hash hash256 path (if bytes_eq p path then v else cur)
  step-leaf s p v path cur hp hq e = elim (key_split p path) [
    | inl same ↦ rw (same, bytes_eq_self path) (leaf-update_self hash256 s path v)
    | inr other ↦ rw (bytes_eq-ne p path other) (
        leaf-update_ne hash256 s p v (node_key tree_depth path) (rw length-node_key (omega arith))
          (λ f. other (node_key-injective p path hp hq f))
        ∙ e)
  ]

  pub run-leaf :
      (s : Store) (ws : List Write) (path cur : Bytes)
      → All IsWrite ws
      → IsPath path
      → leaf_at s (node_key tree_depth path) ≡ leaf_hash hash256 path cur
      → leaf_at (run s ws) (node_key tree_depth path) ≡ leaf_hash hash256 path (latest ws path cur)
  unfolding run
  run-leaf s [] path cur ok hq e = e
  run-leaf s ((p, v) ∷ ws) path cur ok hq e =
      run-leaf (update hash256 s p v) ws path _ ok.1 hq (step-leaf s p v path cur ok.0.0 hq e)

  pub zero_leaf : (path : Bytes) → leaf_hash hash256 path zero_hash ≡ zero_hash
  unfolding leaf_hash
  zero_leaf path = refl

  pub empty_leaf : (k : Key) → leaf_at empty_store k ≡ zero_hash
  unfolding get_node defaults
  empty_leaf k = refl

  latest-size :
      (ws : List Write) (path cur : Bytes)
      → All IsWrite ws
      → length cur ≡ hash_size
      → length (latest ws path cur) ≡ hash_size
  latest-size [] path cur ok e = e
  latest-size ((p, v) ∷ ws) path cur ok e = latest-size ws path _ ok.1 (ground (arith, ok.0.1))

module _ (hash256 : Bytes → Bytes)
    (hash256_size : (b : Bytes) → length (hash256 b) ≡ hash_size) where
  run-IsSized :
      (s : Store) (ws : List Write)
      → IsSized hash256 hash256_size s
      → IsSized hash256 hash256_size (run hash256 s ws)
  unfolding run
  run-IsSized s [] c = c
  run-IsSized s ((p, v) ∷ ws) c =
      run-IsSized (update hash256 s p v) ws (update-IsSized hash256 hash256_size s p v c)

  -- After any updates of the empty tree, the proof that `Prove` gives for any path verifies against the
  -- root, and shows the last value hash written at that path (the zero hash, an absence, if none was).
  pub verify-run :
      (ws : List Write) (path : Bytes)
      → All IsWrite ws
      → IsPath path
      → verify hash256
          (root hash256 (run hash256 empty_store ws))
          path
          (latest ws path zero_hash)
          (prove hash256 (run hash256 empty_store ws) path)
        ≡ true
  verify-run ws path ok hq =
      verify-prove hash256 hash256_size (run hash256 empty_store ws) path (latest ws path zero_hash)
        (run-IsConsistent hash256 empty_store ws (empty_store-IsConsistent hash256))
        (run-IsSized empty_store ws (empty_store-IsSized hash256 hash256_size)) hq.size
        (latest-size hash256 ws path zero_hash ok refl)
        (run-leaf hash256 empty_store ws path zero_hash ok hq
          (empty_leaf hash256 (node_key tree_depth path) ∙ sym (zero_leaf hash256 path)))
