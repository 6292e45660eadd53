-- ===== src/Trie/Keys.antt =====
-- Node keys, and what one write does to the nodes that are read.
use ngcore.Base.{
  ℕ, zero, suc, ◌<◌, ◌≡◌, ◌≢◌, refl, ap, ◌∷◌, length, bytes_eq_sound, bytes_eq_self, bytes_eq-ne,
  arith,
}
use ngcore.Types.{Bytes}
use ngcore.Trie.{Key, Store, path_bit, node_key, get_node, set_node, defaults}

pub path_bit-lt : (path : Bytes) (i : ℕ) → path_bit path i < 2
unfolding path_bit
path_bit-lt path i = omega arith

pub length-node_key : (d : ℕ) (path : Bytes) → length (node_key d path) ≡ d
unfolding node_key
length-node_key zero path = refl
length-node_key (suc d) path = ap suc (length-node_key d path)

pub tail_eq : (a b : ℕ) (k j : Key) → ◌≡◌ {A = Key} (a ∷ k) (b ∷ j) → k ≡ j
tail_eq a b k j e = cc

pub length_ne : (k j : Key) → length k ≢ length j → k ≢ j
length_ne k j h e = h (ap (λ (x : Key). length x) e)

module _ (hash256 : Bytes → Bytes) where
  pub get_node-set_node_self :
      (s : Store) (key : Key) (h : ℕ) (val : Bytes)
      → get_node hash256 (set_node hash256 s key h val) key h ≡ val
  unfolding get_node set_node
  get_node-set_node_self s key h val =
      ground (arith, bytes_eq_sound val (defaults hash256 h), bytes_eq_self key)

  pub get_node-set_node_ne :
      (s : Store) (key k : Key) (h j : ℕ) (val : Bytes)
      → key ≢ k
      → get_node hash256 (set_node hash256 s key h val) k j ≡ get_node hash256 s k j
  unfolding get_node set_node
  get_node-set_node_ne s key k h j val ne = ground (arith, bytes_eq-ne key k ne)
