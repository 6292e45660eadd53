-- ===== src/Pool/Pack.antt =====
-- Packing a block template (ngpool/pool_get.go, NewTxTrie of ngtypes/tx_trie.go).
-- `sort.Slice` is a library's: it is a parameter that is given the source's comparison, and what the
-- code relies on is that it returns its input in an order that the comparison allows.
pub mod Lists
pub mod Laws
mod Examples
use ngcore.Base.{
  ℕ, ◌+◌, Bool, true, false, ◌||◌, ◌&&◌, Option, none, some, List, [], ◌∷◌, All, In, length, take,
  ltb, ◌==◌, ◌≡◌, if◌then◌else◌,
}
use ngcore.Params.{max_block_tx_count}
use ngcore.Types.{FullTx, Commitment, Hash}
use ngcore.Maps.{Map}
use ngcore.Pool.{TxPool}
use mathlib.Core.List.{Permᴰ}

abbrev pub max_txs_per_pack : ℕ
max_txs_per_pack = max_block_tx_count

-- No element may stand before one that goes before it.
abbrev pub Ordered : {A : Type 0} → (A → A → Bool) → List A → Type 0
Ordered less [] = Unit
Ordered less (x ∷ xs) = All (λ y. less y x ≡ false) xs × Ordered less xs

abbrev pub Sorter : Type 0 → Type 0
Sorter A = (A → A → Bool) → List A → List A

pub record Sorts {A : Type 0} (sort : Sorter A) (less : A → A → Bool) : Type 0 where
  pub perm : (xs : List A) → Permᴰ (sort less xs) xs
  pub ordered : (xs : List A) → Ordered less (sort less xs)

-- The values of a map, in the order of its iteration, that are locked on the height.
unfoldable pub at_height : {A : Type 0} → (A → ℕ) → ℕ → Map A → List A
at_height lock height [] = []
at_height lock height ((a, x) ∷ m) =
    let rest = at_height lock height m in if lock x == height then x ∷ rest else rest

abbrev pub member : ℕ → List ℕ → Bool
member k [] = false
member k (j ∷ ks) = j == k || member k ks

-- `dedupByKey`, with the keys seen so far.
unfoldable pub dedup_by_key : {A : Type 0} → (A → ℕ) → List ℕ → List A → List A
dedup_by_key key seen [] = []
dedup_by_key key seen (x ∷ xs) =
    if member (key x) seen then dedup_by_key key seen xs else x ∷ dedup_by_key key (key x ∷ seen) xs

-- A higher fee first, ties broken by the lower digest.
unfoldable pub by_fee : {A : Type 0} → (A → ℕ) → (A → Hash) → A → A → Bool
by_fee fee hash x y = ltb (fee y) (fee x) || (fee x == fee y && ltb (hash x) (hash y))

unfoldable pub by_hash : {A : Type 0} → (A → Hash) → A → A → Bool
by_hash hash x y = ltb (hash x) (hash y)

-- The part that `GetPack` and `GetCommitPack` share: the entries at the height, the best fee first,
-- one for each digest, up to the cap.
unfoldable pub select :
    {A : Type 0} → Sorter A → (A → ℕ) → (A → ℕ) → (A → Hash) → ℕ → Map A → List A
select sort lock fee hash height m =
    take max_txs_per_pack (dedup_by_key hash [] (sort (by_fee fee hash) (at_height lock height m)))

module _ (tx_hash : FullTx → Hash) (sort : Sorter FullTx) where
  -- `NewTxTrie`
  unfoldable pub new_tx_trie : List FullTx → List FullTx
  new_tx_trie txs = sort (by_hash tx_hash) txs

  unfoldable pub get_pack : TxPool → ℕ → List FullTx
  unfolding new_tx_trie
  get_pack pool height =
      new_tx_trie (select sort (λ tx. tx.height) (λ tx. tx.fee) tx_hash height pool.tx_map)

unfoldable pub get_commit_pack : Sorter Commitment → TxPool → ℕ → List Commitment
get_commit_pack sort pool height =
    select sort (λ c. c.height) (λ c. c.fee) (λ c. c.hash) height pool.commit_map
