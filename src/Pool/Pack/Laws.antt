-- ===== src/Pool/Pack/Laws.antt =====
-- What a block template holds.
use ngcore.Base.{
  ℕ, zero, suc, ◌≤◌, ◌≡◌, refl, sym, ap, ◌∙◌, true, List, [], ◌∷◌, All, In, ◌⊎◌, inl, inr, length,
  length-take, take, ◌==◌, Bool-cases, arith,
}
use ngcore.Types.{FullTx, Hash}
use ngcore.Pool.{TxPool}
use ngcore.Pool.Pack.{
  Ordered, Sorter, Sorts, max_txs_per_pack, at_height, member, dedup_by_key, by_fee, by_hash,
  select, new_tx_trie, get_pack,
}
use ngcore.Pool.Pack.Lists.{
  Perm-In, Perm-symm, Perm-All, Perm-length, Perm-Unique, Unique, In-take, All-In, In-All,
  Unique-take, at_height-In, In-at_height, dedup-Unique, dedup-In,
}

module _ {A : Type 0} (fee : A → ℕ) (hash : A → Hash) where
  abbrev FeesFall : List A → Type 0
  FeesFall [] = Unit
  FeesFall (x ∷ xs) = All (λ y. fee y ≤ fee x) xs × FeesFall xs

  ordered-FeesFall : (xs : List A) → Ordered (by_fee fee hash) xs → FeesFall xs
  unfolding by_fee
  ordered-FeesFall [] h = tt
  ordered-FeesFall (x ∷ xs) h =
      (In-All _ xs (λ y i. ground (arith, All-In _ y xs h.0 i)), ordered-FeesFall xs h.1)

  dedup-FeesFall :
      (seen : List ℕ) (xs : List A) → FeesFall xs → FeesFall (dedup_by_key hash seen xs)
  unfolding dedup_by_key
  dedup-FeesFall seen [] h = tt
  dedup-FeesFall seen (x ∷ xs) h = elim (Bool-cases (member (hash x) seen)) [
    | inl old ↦ rw old (dedup-FeesFall seen xs h.1)
    | inr new ↦ rw new (
      In-All _ _ (λ y i. All-In _ y xs h.0 (dedup-In hash (hash x ∷ seen) xs y i)),
      dedup-FeesFall (hash x ∷ seen) xs h.1,
    )
  ]

  -- Everything was seen, or has a representative that is kept and pays at least as much.
  dedup-covers :
      (seen : List ℕ) (xs : List A) (x : A)
      → FeesFall xs
      → In x xs
      → (member (hash x) seen ≡ true)
        ⊎ ((y : A) × In y (dedup_by_key hash seen xs) × (hash y ≡ hash x) × (fee x ≤ fee y))
  unfolding dedup_by_key
  dedup-covers seen [] x h i = absurd i
  dedup-covers seen (y ∷ xs) x h i = elim (Bool-cases (member (hash y) seen)) [
    | inl old ↦ elim i [
      | inl e ↦ inl (ground (arith, ap hash e))
      | inr j ↦ rw old (dedup-covers seen xs x h.1 j)
    ]
    | inr new ↦ elim i [
      | inl e ↦ rw new (inr (y, inl refl, sym (ap hash e), ground (arith, ap fee e)))
      | inr j ↦ elim (dedup-covers (hash y ∷ seen) xs x h.1 j) [
        | inr (z, k, e, le) ↦ rw new (inr (z, inr k, e, le))
        | inl again ↦ elim (Bool-cases (hash y == hash x)) [
          | inl same ↦ rw new (inr (y, inl refl, ground arith, All-In _ x xs h.0 j))
          | inr other ↦ inl (ground arith)
        ]
      ]
    ]
  ]

  -- Of a list of falling fees, what is cut off pays no more than what stays.
  take-covers :
      (n : ℕ) (xs : List A) (x : A)
      → FeesFall xs
      → In x xs
      → In x (take n xs) ⊎ (All (λ y. fee x ≤ fee y) (take n xs) × (length (take n xs) ≡ n))
  take-covers zero xs x h i = inr (tt, refl)
  take-covers (suc n) [] x h i = absurd i
  take-covers (suc n) (y ∷ ys) x h (inl e) = inl (inl e)
  take-covers (suc n) (y ∷ ys) x h (inr i) = elim (take-covers n ys x h.1 i) [
    | inl j ↦ inl (inr j)
    | inr (all, full) ↦ inr ((All-In _ x ys h.0 i, all), ap suc full)
  ]

module _ (tx_hash : FullTx → Hash) (sort : Sorter FullTx)
    (fees : Sorts sort (by_fee (λ (tx : FullTx). tx.fee) tx_hash))
    (hashes : Sorts sort (by_hash tx_hash)) (pool : TxPool) (height : ℕ) where
  abbrev best : List FullTx
  best = select sort (λ tx. tx.height) (λ tx. tx.fee) tx_hash height pool.tx_map

  abbrev ranked : List FullTx
  ranked =
      sort (by_fee (λ (tx : FullTx). tx.fee) tx_hash)
        (at_height (λ tx. tx.height) height pool.tx_map)

  best-get_pack : (tx : FullTx) → In tx best → In tx (get_pack tx_hash sort pool height)
  unfolding get_pack new_tx_trie
  best-get_pack tx i = Perm-In tx (Perm-symm (hashes.perm best)) i

  get_pack-best : (tx : FullTx) → In tx (get_pack tx_hash sort pool height) → In tx best
  unfolding get_pack new_tx_trie
  get_pack-best tx i = Perm-In tx (hashes.perm best) i

  -- Where the sort returns its input in an order that the comparison allows, every packed
  -- transaction is queued, and is locked on the height asked for.
  pub get_pack-queued :
      (tx : FullTx)
      → In tx (get_pack tx_hash sort pool height)
      → (a : ℕ) × In (a, tx) pool.tx_map × (tx.height ≡ height)
  unfolding select
  get_pack-queued tx i = at_height-In _ height pool.tx_map tx (
      Perm-In tx (fees.perm _)
        (dedup-In tx_hash [] ranked tx (In-take max_txs_per_pack tx _ (get_pack-best tx i))))

  -- Where the sort returns its input in an order that the comparison allows, a pack holds at most
  -- 512 transactions, and no digest twice, in the order of digests.
  pub get_pack-canonical :
      (length (get_pack tx_hash sort pool height) ≤ 512)
      × Unique tx_hash (get_pack tx_hash sort pool height)
      × Ordered (by_hash tx_hash) (get_pack tx_hash sort pool height)
  unfolding get_pack new_tx_trie select
  get_pack-canonical =
      let same = hashes.perm best in
      (
        ground (
          arith,
          Perm-length same,
          length-take max_txs_per_pack (dedup_by_key tx_hash [] ranked),
        ),
        Perm-Unique tx_hash (Perm-symm same)
            (Unique-take tx_hash max_txs_per_pack _ (dedup-Unique tx_hash [] ranked)),
        hashes.ordered best,
      )

  -- Where the sort returns its input in an order that the comparison allows, a queued transaction
  -- of the height is packed, by itself or as another that has its digest and pays at least as much,
  -- or the pack is full (512) and everything in it pays at least as much.
  pub get_pack-covers :
      (a : ℕ) (tx : FullTx)
      → In (a, tx) pool.tx_map
      → tx.height ≡ height
      → ((y : FullTx) × In y (get_pack tx_hash sort pool height)
          × (tx_hash y ≡ tx_hash tx)
          × (tx.fee ≤ y.fee))
        ⊎ ((length (get_pack tx_hash sort pool height) ≡ 512)
            × All (λ y. tx.fee ≤ y.fee) (get_pack tx_hash sort pool height))
  unfolding get_pack new_tx_trie select
  get_pack-covers a tx i e =
      let fall = ordered-FeesFall (λ tx. tx.fee) tx_hash ranked (fees.ordered _) in
      let kept = dedup_by_key tx_hash [] ranked in
      let sorted =
        Perm-In tx (Perm-symm (fees.perm _)) (In-at_height _ height pool.tx_map a tx i e) in
      elim (dedup-covers (λ tx. tx.fee) tx_hash [] ranked tx fall sorted) [
        | inl seen ↦ cc
        | inr (y, k, same, le) ↦
            elim (take-covers (λ tx. tx.fee) tx_hash max_txs_per_pack kept y
              (dedup-FeesFall (λ tx. tx.fee) tx_hash [] ranked fall) k) [
                | inl j ↦ inl (y, best-get_pack y j, same, le)
                | inr (all, full) ↦ inr (
                  Perm-length (hashes.perm best) ∙ full,
                  Perm-All _ (Perm-symm (hashes.perm best))
                      (In-All _ _ (λ z m. ground (arith, All-In _ z best all m))),
                )
              ]
      ]
