-- ===== src/Trie/Proofs.antt =====
-- What an update does to the leaves, and that the proofs of a consistent store verify.
use ngcore.Base.{
  ℕ, zero, suc, ◌-◌, ◌≤◌, ◌≡◌, refl, sym, ap, ◌∙◌, [], ◌∷◌, ◌++◌, some, true, length, bytes_eq_self,
  arith,
}
use ngcore.Types.{Bytes}
use ngcore.Params.{hash_size}
use ngcore.Trie.{
  Key, Store, tree_depth, leaf_tag, internal_tag, empty_store, path_bit, node_key, sibling_key,
  flip, get_node, set_node, defaults, join, leaf_hash, update_from, update, root, prove_from, prove,
  verify_from, verify,
}
use ngcore.Trie.Keys.{path_bit-lt, length-node_key}
use ngcore.Trie.Consistent.{IsConsistent, join-children}

-- `Hash256` returns 32 bytes.
module _ (hash256 : Bytes → Bytes)
    (hash256_size : (b : Bytes) → length (hash256 b) ≡ hash_size) where
  pub leaf_hash-size : (path v : Bytes) → length (leaf_hash hash256 path v) ≡ hash_size
  unfolding leaf_hash
  leaf_hash-size path v = ground (arith, hash256_size (leaf_tag ∷ path ++ v))

  join-size : (b : ℕ) (x y : Bytes) → length (join hash256 b x y) ≡ hash_size
  unfolding join
  join-size b x y =
      ground (arith, hash256_size (internal_tag ∷ x ++ y), hash256_size (internal_tag ∷ y ++ x))

  defaults-size : (h : ℕ) → length (defaults hash256 h) ≡ hash_size
  unfolding defaults
  defaults-size zero = refl
  defaults-size (suc h) = hash256_size _

  -- Every node that is read has the size of a digest.
  abbrev pub IsSized : Store → Type 0
  IsSized s = (k : Key) (h : ℕ) → length (get_node hash256 s k h) ≡ hash_size

  set_node-IsSized :
      (s : Store) (key : Key) (h : ℕ) (v : Bytes)
      → length v ≡ hash_size
      → IsSized s
      → IsSized (set_node hash256 s key h v)
  unfolding set_node get_node
  set_node-IsSized s key h v e c k j = ground (arith, c k j, defaults-size j)

  pub empty_store-IsSized : IsSized empty_store
  unfolding get_node
  empty_store-IsSized k h = defaults-size h

  update_from-IsSized :
      (s : Store) (path : Bytes) (d : ℕ) (cur : Bytes)
      → IsSized s
      → IsSized (update_from hash256 s path d cur)
  unfolding update_from
  update_from-IsSized s path zero cur c = c
  update_from-IsSized s path (suc d) cur c =
      let sib = get_node hash256 s (sibling_key (suc d) path) (tree_depth - suc d) in
      let up = join hash256 (path_bit path d) cur sib in
      update_from-IsSized (set_node hash256 s (node_key d path) (tree_depth - d) up) path d
        (join hash256 (path_bit path d) cur sib)
        (set_node-IsSized s (node_key d path) (tree_depth - d) _
          (join-size (path_bit path d) cur sib) c)

  pub update-IsSized : (s : Store) (path v : Bytes) → IsSized s → IsSized (update hash256 s path v)
  unfolding update
  update-IsSized s path v c =
      update_from-IsSized _ path tree_depth _
        (set_node-IsSized s (node_key tree_depth path) 0 _ (leaf_hash-size path v) c)

  -- The loop of `Verify` over the siblings of a consistent store climbs to its root.
  verify_from-prove_from :
      (s : Store) (path : Bytes) (d : ℕ)
      → d ≤ tree_depth
      → IsConsistent hash256 s
      → IsSized s
      → verify_from hash256 path d
          (get_node hash256 s (node_key d path) (tree_depth - d))
          (prove_from hash256 s path d)
        ≡ some (root hash256 s)
  unfolding verify_from prove_from root node_key sibling_key
  verify_from-prove_from s path zero le c z = refl
  verify_from-prove_from s path (suc d) le c z =
      let bit = path_bit path d in
      let k = node_key d path in
      let l : length k ≡ d = length-node_key d path in
      let up : join hash256 bit (get_node hash256 s (bit ∷ k) (tree_depth - suc d))
            (get_node hash256 s (flip bit ∷ k) (tree_depth - suc d))
          ≡ get_node hash256 s k (tree_depth - d) =
        join-children hash256 s bit k (tree_depth - suc d) (path_bit-lt path d)
        ∙ sym (rw l at (c k (omega arith))) in
      rw (z (flip bit ∷ k) (tree_depth - suc d), up)
        (verify_from-prove_from s path d (omega arith) c z)

  length-prove_from : (s : Store) (path : Bytes) (d : ℕ) → length (prove_from hash256 s path d) ≡ d
  unfolding prove_from
  length-prove_from s path zero = refl
  length-prove_from s path (suc d) = ap suc (length-prove_from s path d)

  root-size : (s : Store) → IsSized s → length (root hash256 s) ≡ hash_size
  unfolding root
  root-size s z = z [] tree_depth

  climbed :
      (s : Store) (path v : Bytes)
      → IsConsistent hash256 s
      → IsSized s
      → get_node hash256 s (node_key tree_depth path) 0 ≡ leaf_hash hash256 path v
      → verify_from hash256 path tree_depth
          (leaf_hash hash256 path v)
          (prove_from hash256 s path tree_depth)
        ≡ some (root hash256 s)
  climbed s path v c z leaf =
      rw (← leaf) (verify_from-prove_from s path tree_depth (omega arith) c z)

  -- The proof of any leaf of a consistent store verifies against the store's root: it shows the value
  -- hash that the leaf holds, all zero for an absent one.
  pub verify-prove :
      (s : Store) (path v : Bytes)
      → IsConsistent hash256 s
      → IsSized s
      → length path ≡ hash_size
      → length v ≡ hash_size
      → get_node hash256 s (node_key tree_depth path) 0 ≡ leaf_hash hash256 path v
      → verify hash256 (root hash256 s) path v (prove hash256 s path) ≡ true
  unfolding verify prove
  verify-prove s path v c z l m leaf =
      rw (root-size s z, l, m, length-prove_from s path tree_depth, climbed s path v c z leaf)
        (bytes_eq_self (root hash256 s))
