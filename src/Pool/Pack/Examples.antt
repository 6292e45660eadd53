-- ===== src/Pool/Pack/Examples.antt =====
-- Packing on a pool of three, with insertion sort for the library's.
use ngcore.Base.{
  ℕ, ◌≡◌, refl, Bool, true, false, List, [], ◌∷◌, All, In, ◌⊎◌, inl, inr, length, ◌≤◌, Bool-cases,
  arith, if◌then◌else◌,
}
use mathlib.Core.List.{Permᴰ}
use ngcore.Types.{FullTx, Hash}
use ngcore.Forks.{zeronet}
use ngcore.Pool.{TxPool}
use ngcore.Pool.Pack.{
  Ordered, Sorts, Sorter, by_fee, by_hash, get_pack, new_tx_trie, select, at_height, dedup_by_key,
}
use ngcore.Pool.Pack.Lists.{Perm-In, Perm-refl, In-All, All-In}
use ngcore.Pool.Pack.Laws.{get_pack-covers}

module _ {A : Type 0} where
  place : (A → A → Bool) → A → List A → List A
  place less x [] = x ∷ []
  place less x (y ∷ ys) = if less y x then y ∷ place less x ys else x ∷ y ∷ ys

  insertion_sort : Sorter A
  insertion_sort less [] = []
  insertion_sort less (x ∷ xs) = place less x (insertion_sort less xs)

  place-perm : (less : A → A → Bool) (x : A) (xs : List A) → Permᴰ (place less x xs) (x ∷ xs)
  unfolding place
  place-perm less x [] = Permᴰ.cons refl Permᴰ.nil
  place-perm less x (y ∷ ys) = elim (Bool-cases (less y x)) [
    | inl after ↦
        rw after (Permᴰ.trans (Permᴰ.cons refl (place-perm less x ys)) (Permᴰ.swap refl refl))
    | inr here ↦ rw here (Perm-refl (x ∷ y ∷ ys))
  ]

  sort-perm : (less : A → A → Bool) (xs : List A) → Permᴰ (insertion_sort less xs) xs
  unfolding insertion_sort
  sort-perm less [] = Permᴰ.nil
  sort-perm less (x ∷ xs) =
      Permᴰ.trans (place-perm less x (insertion_sort less xs)) (Permᴰ.cons refl (sort-perm less xs))

  module _ (less : A → A → Bool) (asym : (x y : A) → less x y ≡ true → less y x ≡ false)
      (trans : (x y z : A) → less y x ≡ false → less z y ≡ false → less z x ≡ false) where
    place-Ordered : (x : A) (xs : List A) → Ordered less xs → Ordered less (place less x xs)
    unfolding place
    place-Ordered x [] h = (tt, tt)
    place-Ordered x (y ∷ ys) h = elim (Bool-cases (less y x)) [
      | inr here ↦ rw here ((here, In-All _ ys (λ z i. trans x y z here (All-In _ z ys h.0 i))), h)
      | inl after ↦ rw after (
        In-All _ _ (λ z i. elim (Perm-In z (place-perm less x ys) i) [
          | inl e ↦ rw e (asym y x after)
          | inr j ↦ All-In _ z ys h.0 j
        ]),
        place-Ordered x ys h.1,
      )
    ]

    sort-Ordered : (xs : List A) → Ordered less (insertion_sort less xs)
    unfolding insertion_sort
    sort-Ordered [] = tt
    sort-Ordered (x ∷ xs) = place-Ordered x (insertion_sort less xs) (sort-Ordered xs)

    sort-Sorts : Sorts insertion_sort less
    sort-Sorts = record { perm = sort-perm less; ordered = sort-Ordered }

abbrev tx_of : ℕ → ℕ → FullTx
tx_of to fee = record {
  network = zeronet;
  type = 2;
  height = 7;
  to = to;
  value = 0;
  fee = fee;
  extra = [];
  sign = [];
  salt = [];
}

-- The digest of an example is its recipient.
abbrev digest : FullTx → Hash
digest tx = tx.to

abbrev three : TxPool
three = record {
  tx_map = (1, tx_of 30 5) ∷ (2, tx_of 10 9) ∷ (3, tx_of 20 7) ∷ [];
  commit_map = [];
  max_size = 4;
  min_fee_per_byte = 0;
  announced = [];
  announced_commits = [];
}

fees : Sorts insertion_sort (by_fee (λ (tx : FullTx). tx.fee) digest)
unfolding by_fee
fees = sort-Sorts _ (λ x y e. ground arith) (λ x y z e f. ground arith)

hashes : Sorts insertion_sort (by_hash digest)
unfolding by_hash
hashes = sort-Sorts _ (λ x y e. ground arith) (λ x y z e f. ground arith)

abbrev packed : List FullTx
packed = get_pack digest insertion_sort three 7

packed_in_order : packed ≡ tx_of 10 9 ∷ tx_of 20 7 ∷ tx_of 30 5 ∷ []
unfolding get_pack new_tx_trie select at_height dedup_by_key by_fee by_hash insertion_sort place
packed_in_order = refl

packed_head : In (tx_of 10 9) packed
packed_head = rw packed_in_order (inl refl)

get_pack-covers_example :
    ((y : FullTx) × In y packed × (digest y ≡ 30) × (5 ≤ y.fee))
    ⊎ ((length packed ≡ 512) × All (λ y. 5 ≤ y.fee) packed)
get_pack-covers_example =
    get_pack-covers digest insertion_sort fees hashes three 7 1 (tx_of 30 5) (inl refl) refl
