-- ===== src/Trie/Paths.antt =====
-- A path is a 32-byte string, and its 256 bits determine it.
use ngcore.Base.{
  ℕ, zero, suc, ◌+◌, ◌*◌, ◌/◌, ◌%◌, ◌<◌, ◌≡◌, ap₂, sym, ◌∙◌, refl, ◌-◌, ◌^◌, [], ◌∷◌, length,
  get_or, All, arith,
}
use native.Mathlib.Decide.{ℕ_discrete}
use ngcore.Types.{Bytes}
use ngcore.Params.{hash_size}
use ngcore.Trie.{Key, tree_depth, path_bit, node_key}
use ngcore.Trie.Keys.{tail_eq}

pub record IsPath (path : Bytes) : Type 0 where
  pub size : length path ≡ hash_size
  pub bytes : All (λ (b : ℕ). b < 256) path

get_or-lt : (xs : Bytes) (i : ℕ) → All (λ (b : ℕ). b < 256) xs → get_or xs i 0 < 256
get_or-lt [] i h = omega arith
get_or-lt (x ∷ xs) zero h = h.0
get_or-lt (x ∷ xs) (suc i) h = get_or-lt xs i h.1

head_eq : (a b : ℕ) (k j : Key) → ◌≡◌ {A = Key} (a ∷ k) (b ∷ j) → a ≡ b
head_eq a b k j e = cc

path_bit-eq :
    (d : ℕ) (p q : Bytes) (i : ℕ)
    → node_key d p ≡ node_key d q
    → i < d
    → path_bit p i ≡ path_bit q i
unfolding node_key
path_bit-eq zero p q i e h = elim h [ ]
path_bit-eq (suc d) p q i e h = elim (ℕ_discrete i d) [
  | yes s ↦ rw s (head_eq _ _ (node_key d p) (node_key d q) e)
  | no n ↦ path_bit-eq d p q i (tail_eq _ _ (node_key d p) (node_key d q) e) (omega arith)
]

-- Eight bits determine a byte.
byte_eq :
    (a b : ℕ)
    → a < 256
    → b < 256
    → a / 128 % 2 ≡ b / 128 % 2
    → a / 64 % 2 ≡ b / 64 % 2
    → a / 32 % 2 ≡ b / 32 % 2
    → a / 16 % 2 ≡ b / 16 % 2
    → a / 8 % 2 ≡ b / 8 % 2
    → a / 4 % 2 ≡ b / 4 % 2
    → a / 2 % 2 ≡ b / 2 % 2
    → a % 2 ≡ b % 2
    → a ≡ b
byte_eq a b x y p q r s t u v w = omega arith

-- Bit `r` of byte `j`.
bit_of_byte :
    (p : Bytes) (j r : ℕ) → r < 8 → path_bit p (8 * j + r) ≡ get_or p j 0 / 2 ^ (7 - r) % 2
unfolding path_bit
bit_of_byte p j r h =
    let e : (8 * j + r) / 8 ≡ j = omega arith in
    let f : (8 * j + r) % 8 ≡ r = omega arith in rw (e, f)

get_or-eq :
    (p q : Bytes)
    → IsPath p
    → IsPath q
    → node_key tree_depth p ≡ node_key tree_depth q
    → (j : ℕ) → j < hash_size
    → get_or p j 0 ≡ get_or q j 0
get_or-eq p q hp hq e j lt =
    let bit = λ (r : ℕ) (h : r < 8).
      sym (bit_of_byte p j r h)
      ∙ path_bit-eq tree_depth p q (8 * j + r) e (omega arith)
      ∙ bit_of_byte q j r h in
    byte_eq _ _ (get_or-lt p j hp.bytes) (get_or-lt q j hq.bytes) (bit 0 (omega arith))
      (bit 1 (omega arith)) (bit 2 (omega arith)) (bit 3 (omega arith)) (bit 4 (omega arith))
      (bit 5 (omega arith)) (bit 6 (omega arith)) (omega (arith, bit 7 (omega arith)))

list_ext :
    (p q : Bytes)
    → length p ≡ length q
    → ((j : ℕ) → j < length p → get_or p j 0 ≡ get_or q j 0)
    → p ≡ q
list_ext [] [] l h = refl
list_ext (x ∷ p) (y ∷ q) l h =
    ap₂ (λ (a : ℕ) (r : Bytes). a ∷ r) (h 0 (omega arith))
      (list_ext p q (omega arith) (λ j lt. h (suc j) (omega arith)))
list_ext [] (y ∷ q) l h = absurd (omega arith)
list_ext (x ∷ p) [] l h = absurd (omega arith)

-- Two paths at one leaf position are one path.
pub node_key-injective :
    (p q : Bytes) → IsPath p → IsPath q → node_key tree_depth p ≡ node_key tree_depth q → p ≡ q
node_key-injective p q hp hq e =
    list_ext p q (omega (arith, hp.size, hq.size))
      (λ j lt. get_or-eq p q hp hq e j (omega (arith, hp.size)))
