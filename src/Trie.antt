-- ===== src/Trie.antt =====
-- The sparse Merkle tree of the state commitment (statetrie/statetrie.go).
-- A node's store key, depth(2B) ‖ path with the bits below that depth zeroed, is the list of its
-- `depth` path bits, the deepest first: the two determine one another.
-- The store is a map that never fails, as `MemStore` is.
pub mod Keys
pub mod Paths
pub mod Consistent
pub mod Proofs
pub mod Leaves
pub mod History
pub mod Canonical
pub mod Binding
mod Examples
use ngcore.Base.{
  ℕ, zero, suc, ◌+◌, ◌-◌, ◌*◌, ◌/◌, ◌%◌, ◌^◌, Bool, true, false, ◌&&◌, Option, none, some, List, [],
  ◌∷◌, ◌++◌, ◌==◌, length, get_or, replicate, bytes_eq, if◌then◌else◌,
}
use ngcore.Types.{Bytes}
use ngcore.Params.{hash_size}

abbrev pub tree_depth : ℕ
tree_depth = 256

abbrev pub leaf_tag : ℕ
leaf_tag = 0

abbrev pub internal_tag : ℕ
internal_tag = 1

-- The domain tags of the leaves.
abbrev pub domain_balance : ℕ
domain_balance = 1

abbrev pub domain_key : ℕ
domain_key = 2

abbrev pub domain_contract : ℕ
domain_contract = 3

abbrev pub domain_commit : ℕ
domain_commit = 4

abbrev pub domain_beacon : ℕ
domain_beacon = 5

abbrev pub zero_hash : Bytes
zero_hash = replicate hash_size 0

unfoldable pub is_zero : Bytes → Bool
is_zero [] = true
is_zero (c ∷ b) = c == 0 && is_zero b

-- `(path[i/8] >> (7 - i%8)) & 1`
unfoldable pub path_bit : Bytes → ℕ → ℕ
path_bit path i = get_or path (i / 8) 0 / 2 ^ (7 - i % 8) % 2

abbrev pub Key : Type 0
Key = List ℕ

pub node_key : ℕ → Bytes → Key
node_key zero path = []
node_key (suc depth) path = path_bit path depth ∷ node_key depth path

abbrev pub flip : ℕ → ℕ
flip b = if b == 0 then 1 else 0

-- The key at a depth above 0 with its deepest bit flipped.
pub sibling_key : ℕ → Bytes → Key
unfolding node_key
sibling_key zero path = []
sibling_key (suc depth) path = flip (path_bit path depth) ∷ node_key depth path

-- `MemStore`, read through `Get`.
abbrev pub Store : Type 0
Store = Key → Option Bytes

abbrev pub empty_store : Store
empty_store k = none

abbrev pub store_put : Store → Key → Bytes → Store
store_put s key val k = if bytes_eq key k then some val else s k

abbrev pub store_delete : Store → Key → Store
store_delete s key k = if bytes_eq key k then none else s k

module _ (hash256 : Bytes → Bytes) where
  unfoldable pub leaf_path : ℕ → Bytes → Bytes
  leaf_path domain raw_key = hash256 (domain ∷ raw_key)

  unfoldable pub leaf_hash : Bytes → Bytes → Bytes
  unfolding is_zero
  leaf_hash path value_hash =
      if is_zero value_hash then zero_hash else hash256 (leaf_tag ∷ path ++ value_hash)

  unfoldable pub internal_hash : Bytes → Bytes → Bytes
  internal_hash left right = hash256 (internal_tag ∷ left ++ right)

  -- The hash of an empty subtree, by its height.
  unfoldable pub defaults : ℕ → Bytes
  unfolding internal_hash
  defaults zero = zero_hash
  defaults (suc h) = let below = defaults h in internal_hash below below

  unfoldable pub empty_root : Bytes
  unfolding defaults
  empty_root = defaults tree_depth

  unfoldable pub get_node : Store → Key → ℕ → Bytes
  get_node s key height = elim (s key) [ some v ↦ v | none ↦ defaults height ]

  unfoldable pub set_node : Store → Key → ℕ → Bytes → Store
  set_node s key height val =
      if bytes_eq val (defaults height) then store_delete s key else store_put s key val

  -- One level of the loops of `Update` and `Verify`.
  unfoldable pub join : ℕ → Bytes → Bytes → Bytes
  unfolding internal_hash
  join bit cur sib = if bit == 0 then internal_hash cur sib else internal_hash sib cur

  -- The loop of `Update`, on the depth of the node that holds `cur`.
  pub update_from : Store → Bytes → ℕ → Bytes → Store
  update_from s path zero cur = s
  update_from s path (suc depth) cur =
      let sib = get_node s (sibling_key (suc depth) path) (tree_depth - suc depth) in
      let up = join (path_bit path depth) cur sib in
      update_from (set_node s (node_key depth path) (tree_depth - depth) up) path depth up

  unfoldable pub update : Store → Bytes → Bytes → Store
  update s path value_hash =
      let cur = leaf_hash path value_hash in
      update_from (set_node s (node_key tree_depth path) 0 cur) path tree_depth cur

  unfoldable pub root : Store → Bytes
  root s = get_node s [] tree_depth

  -- The loop of `Prove`: the siblings, bottom-up.
  pub prove_from : Store → Bytes → ℕ → List Bytes
  prove_from s path zero = []
  prove_from s path (suc depth) =
      get_node s (sibling_key (suc depth) path) (tree_depth - suc depth) ∷ prove_from s path depth

  unfoldable pub prove : Store → Bytes → List Bytes
  prove s path = prove_from s path tree_depth

  -- The loop of `Verify`: `none` where a sibling has a wrong length.
  pub verify_from : Bytes → ℕ → Bytes → List Bytes → Option Bytes
  verify_from path zero cur proof = some cur
  verify_from path (suc depth) cur [] = none
  verify_from path (suc depth) cur (sib ∷ proof) =
      let rest = verify_from path depth (join (path_bit path depth) cur sib) proof in
      if length sib == hash_size then rest else none

  unfoldable pub verify : Bytes → Bytes → Bytes → List Bytes → Bool
  verify root path value_hash proof =
      if length root == hash_size
        && (length path == hash_size
            && (length value_hash == hash_size && length proof == tree_depth))
      then elim (verify_from path tree_depth (leaf_hash path value_hash) proof) [
        | some cur ↦ bytes_eq cur root
        | none ↦ false
      ]
      else false
