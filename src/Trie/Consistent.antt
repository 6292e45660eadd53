-- ===== src/Trie/Consistent.antt =====
-- A store in which every internal node is the hash of its two children, and that `Update` keeps it so.
use ngcore.Base.{
  ℕ, zero, suc, ◌-◌, ◌<◌, ◌≡◌, ◌≢◌, refl, sym, ap, ap₂, ◌∙◌, ◌⊎◌, inl, inr, ◌∷◌, Bool-cases, length,
  bytes_eq, bytes_eq_sound, bytes_eq-apart, arith,
}
use ngcore.Types.{Bytes}
use native.Mathlib.Decide.{dec_lt}
use ngcore.Trie.{
  Key, Store, tree_depth, empty_store, path_bit, node_key, sibling_key, flip, get_node, set_node,
  defaults, internal_hash, join, leaf_hash, update_from, update,
}
use ngcore.Trie.Keys.{
  path_bit-lt, length-node_key, tail_eq, length_ne, get_node-set_node_self, get_node-set_node_ne,
}

pub key_split : (k j : Key) → (k ≡ j) ⊎ (k ≢ j)
key_split k j = elim (Bool-cases (bytes_eq k j)) [
  | inl e ↦ inl (bytes_eq_sound k j e)
  | inr e ↦ inr (bytes_eq-apart k j e)
]

module _ (hash256 : Bytes → Bytes) where
  -- The node at the key `k` is the hash of its children.
  abbrev pub IsHashed : Store → Key → Type 0
  IsHashed s k =
      get_node hash256 s k (tree_depth - length k)
      ≡ internal_hash hash256 (get_node hash256 s (0 ∷ k) (tree_depth - suc (length k)))
          (get_node hash256 s (1 ∷ k) (tree_depth - suc (length k)))

  abbrev pub IsConsistent : Store → Type 0
  IsConsistent s = (k : Key) → length k < tree_depth → IsHashed s k

  -- The key is that of a node above depth `d` on the path.
  abbrev OnBranch : Bytes → ℕ → Key → Type 0
  OnBranch path d k = (length k < d) × (k ≡ node_key (length k) path)

  abbrev IsConsistentOff : Store → Bytes → ℕ → Type 0
  IsConsistentOff s path d = (k : Key) → length k < tree_depth → ¬ OnBranch path d k → IsHashed s k

  pub join-children :
      (s : Store) (b : ℕ) (k : Key) (h : ℕ)
      → b < 2
      → join hash256 b (get_node hash256 s (b ∷ k) h) (get_node hash256 s (flip b ∷ k) h)
        ≡ internal_hash hash256 (get_node hash256 s (0 ∷ k) h) (get_node hash256 s (1 ∷ k) h)
  unfolding join
  join-children s zero k h lt = refl
  join-children s (suc zero) k h lt = refl
  join-children s (suc (suc b)) k h lt = absurd (omega arith)

  -- The store after one round of the loop of `Update`.
  round : Store → Bytes → ℕ → Bytes → Store
  round s path d cur = set_node hash256 s (node_key d path) (tree_depth - d) (
      join hash256 (path_bit path d) cur
        (get_node hash256 s (sibling_key (suc d) path) (tree_depth - suc d)))

  round-child :
      (s : Store) (path : Bytes) (d : ℕ) (cur : Bytes) (k : Key) (h : ℕ)
      → k ≢ node_key d path
      → get_node hash256 (round s path d cur) k h ≡ get_node hash256 s k h
  unfolding round
  round-child s path d cur k h ne =
      get_node-set_node_ne hash256 s (node_key d path) k (tree_depth - d) h _ (λ e. ne (sym e))

  round-at :
      (s : Store) (path : Bytes) (d : ℕ)
      → IsHashed
          (round s path d (get_node hash256 s (node_key (suc d) path) (tree_depth - suc d)))
          (node_key d path)
  unfolding round node_key sibling_key
  round-at s path d =
      let cur = get_node hash256 s (node_key (suc d) path) (tree_depth - suc d) in
      let below = λ (b : ℕ).
        round-child s path d cur (b ∷ node_key d path) (tree_depth - suc d)
          (length_ne _ _ (λ e. absurd (omega arith))) in
      rw length-node_key (
        get_node-set_node_self hash256 s (node_key d path) (tree_depth - d) _
        ∙ join-children s (path_bit path d) (node_key d path) (tree_depth - suc d)
            (path_bit-lt path d)
        ∙ sym (ap₂ (internal_hash hash256) (below 0) (below 1)))

  child_off : (path : Bytes) (d b : ℕ) (k : Key) → ¬ OnBranch path d k → b ∷ k ≢ node_key d path
  unfolding node_key
  child_off path zero b k off e = cc
  child_off path (suc d) b k off e =
      let t : k ≡ node_key d path = tail_eq b (path_bit path d) k (node_key d path) e in
      let l : length k ≡ d = ap (λ (x : Key). length x) t ∙ length-node_key d path in
      off (omega arith, rw l t)

  widen :
      (path : Bytes) (d : ℕ) (k : Key)
      → ¬ OnBranch path d k
      → k ≢ node_key d path
      → ¬ OnBranch path (suc d) k
  widen path d k off ne (short, e) = elim (dec_lt (length k) d) [
    | yes p ↦ off (p, e)
    | no p ↦ let l : length k ≡ d = omega arith in ne (e ∙ rw l)
  ]

  round-IsConsistentOff :
      (s : Store) (path : Bytes) (d : ℕ)
      → IsConsistentOff s path (suc d)
      → IsConsistentOff
          (round s path d (get_node hash256 s (node_key (suc d) path) (tree_depth - suc d)))
          path
          d
  round-IsConsistentOff s path d c k short off = elim (key_split k (node_key d path)) [
    | inl e ↦ rw e (round-at s path d)
    | inr ne ↦
        let cur = get_node hash256 s (node_key (suc d) path) (tree_depth - suc d) in
        let below = λ (b : ℕ).
          round-child s path d cur (b ∷ k) (tree_depth - suc (length k))
            (child_off path d b k off) in
        round-child s path d cur k (tree_depth - length k) ne
        ∙ c k short (widen path d k off ne)
        ∙ sym (ap₂ (internal_hash hash256) (below 0) (below 1))
  ]

  update_from-IsConsistent :
      (s : Store) (path : Bytes) (d : ℕ) (cur : Bytes)
      → get_node hash256 s (node_key d path) (tree_depth - d) ≡ cur
      → IsConsistentOff s path d
      → IsConsistent (update_from hash256 s path d cur)
  unfolding update_from round
  update_from-IsConsistent s path zero cur e c = λ k short. c k short (λ on. absurd (omega arith))
  update_from-IsConsistent s path (suc d) cur e c =
      let up =
        join hash256 (path_bit path d) cur
          (get_node hash256 s (sibling_key (suc d) path) (tree_depth - suc d)) in
      update_from-IsConsistent (round s path d cur) path d up
        (get_node-set_node_self hash256 s (node_key d path) (tree_depth - d) up)
        (rw (← e) (round-IsConsistentOff s path d c))

  leaf-IsHashed :
      (s : Store) (path cur : Bytes) (k : Key)
      → length k < tree_depth
      → IsConsistent s
      → ¬ OnBranch path tree_depth k
      → IsHashed (set_node hash256 s (node_key tree_depth path) 0 cur) k
  leaf-IsHashed s path cur k short c off =
      let leaf = node_key tree_depth path in
      let l : length leaf ≡ tree_depth = length-node_key tree_depth path in
      let below = λ (b : ℕ).
        get_node-set_node_ne hash256 s leaf (b ∷ k) 0 (tree_depth - suc (length k)) cur
          (λ e. child_off path tree_depth b k off (sym e)) in
      get_node-set_node_ne hash256 s leaf k 0 (tree_depth - length k) cur
        (length_ne leaf k (λ e. absurd (omega arith)))
      ∙ c k short
      ∙ sym (ap₂ (internal_hash hash256) (below 0) (below 1))

  -- An update of any path keeps every internal node the hash of its two children.
  pub update-IsConsistent :
      (s : Store) (path value_hash : Bytes)
      → IsConsistent s
      → IsConsistent (update hash256 s path value_hash)
  unfolding update
  update-IsConsistent s path value_hash c =
      update_from-IsConsistent _ path tree_depth (leaf_hash hash256 path value_hash)
        (get_node-set_node_self hash256 s (node_key tree_depth path) 0 _)
        (λ k short off. leaf-IsHashed s path (leaf_hash hash256 path value_hash) k short c off)

  -- The empty store is consistent: every node is the default of its height.
  pub empty_store-IsConsistent : IsConsistent empty_store
  unfolding get_node defaults internal_hash
  empty_store-IsConsistent k short =
      let e : tree_depth - length k ≡ suc (tree_depth - suc (length k)) = omega arith in rw e refl
