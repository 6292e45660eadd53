-- ===== src/Pool/Admission.antt =====
-- What `PutTx` admits, what it keeps, and what it leaves alone.
use ngcore.Base.{
  ℕ, suc, ◌≤◌, ◌<◌, ◌≡◌, true, none, some, ◌∷◌, ◌++◌, [], inl, inr, length, leb, ◌==◌, Bool-cases,
  Option-cases, arith,
}
use ngcore.Types.{FullTx, Address}
use ngcore.Maps.{Map, lookup, insert, erase, Distinct}
use ngcore.Maps.Laws.{
  lookup-insert, lookup-erase, insert-Distinct, erase-Distinct, length-insert_new,
  length-insert_old, length-erase_lt,
}
use ngcore.Pool.{
  TxPool, cheapest_entry, next_height, clears_floor, effective_floor_per_byte, admit, place_tx,
  put_tx,
}
use ngcore.Pool.Env.{PoolEnv, ok}
use ngcore.Pool.Eviction.{cheapest_entry-found}

module _ (env : PoolEnv) where
  -- A queued transaction passes every gate of `PutTx` for the next block.
  pub record IsAdmissible (pool : TxPool) (from : Address) (tx : FullTx) : Type 0 where
    pub sender : env.tx_from tx ≡ some from
    pub height : tx.height ≡ next_height env
    pub checked : env.check_tx tx ≡ true
    pub priced : clears_floor env pool (env.tx_size tx) tx.fee ≡ none

  -- One entry for each sender, each of them admissible, and no more than the pool may hold.
  pub record IsValid (pool : TxPool) : Type 0 where
    pub distinct : Distinct pool.tx_map
    pub entries :
        (a : Address) (tx : FullTx) → lookup a pool.tx_map ≡ some tx → IsAdmissible pool a tx
    pub bounded : length pool.tx_map ≤ pool.max_size

  -- A call that succeeds has passed the gates, and has placed the transaction.
  pub put_tx-ok :
      (pool pool' : TxPool) (tx : FullTx)
      → put_tx env pool tx ≡ ok pool'
      → (from : Address) × IsAdmissible pool from tx × (place_tx env pool from tx ≡ ok pool')
  unfolding put_tx
  put_tx-ok pool pool' tx e = elim (Option-cases (clears_floor env pool (env.tx_size tx) tx.fee)) [
    | inr (x, bad) ↦ ground arith
    | inl good ↦ elim (Option-cases (env.tx_from tx)) [
      | inl missing ↦ ground arith
      | inr (from, sent) ↦ (
        from,
        record { sender = sent; height = ground arith; checked = ground arith; priced = good },
        ground arith,
      )
    ]
  ]

  -- The pool after a write of `tx` into the map `m`, which is announced.
  abbrev pub Wrote : TxPool → Map FullTx → Address → FullTx → TxPool → Type 0
  Wrote pool m from tx pool' =
      (pool'.tx_map ≡ insert from tx m)
      × (pool'.commit_map ≡ pool.commit_map)
      × (pool'.max_size ≡ pool.max_size)
      × (pool'.min_fee_per_byte ≡ pool.min_fee_per_byte)
      × (pool'.announced ≡ pool.announced ++ tx ∷ [])
      × (pool'.announced_commits ≡ pool.announced_commits)

  admit-Wrote :
      (pool pool' : TxPool) (m : Map FullTx) (from : Address) (tx : FullTx)
      → admit env pool m from tx ≡ ok pool'
      → Wrote pool m from tx pool'
  unfolding admit
  admit-Wrote pool pool' m from tx e = ground arith

  -- The map that `place_tx` inserts into: the pool's, less the evicted entry if there is one.
  pub data Placed (pool : TxPool) (from : Address) (tx : FullTx) (pool' : TxPool) : Type 0 where
    replaced :
        (old : FullTx)
        → lookup from pool.tx_map ≡ some old
        → old.fee < tx.fee
        → Wrote pool pool.tx_map from tx pool'
        → Placed pool from tx pool'
    added :
        lookup from pool.tx_map ≡ none
        → length pool.tx_map < pool.max_size
        → Wrote pool pool.tx_map from tx pool'
        → Placed pool from tx pool'
    evicting :
        (a : Address) (f : ℕ)
        → lookup from pool.tx_map ≡ none
        → pool.max_size ≤ length pool.tx_map
        → cheapest_entry pool.tx_map ≡ some (a, f)
        → f < tx.fee
        → Wrote pool (erase a pool.tx_map) from tx pool'
        → Placed pool from tx pool'

  pub place_tx-Placed :
      (pool pool' : TxPool) (from : Address) (tx : FullTx)
      → place_tx env pool from tx ≡ ok pool'
      → Placed pool from tx pool'
  unfolding place_tx
  place_tx-Placed pool pool' from tx e = elim (Option-cases (lookup from pool.tx_map)) [
    | inr (old, h) ↦ replaced old h (ground arith) (ground arith)
    | inl h ↦ elim (Bool-cases (leb pool.max_size (length pool.tx_map))) [
      | inl full ↦ elim (Option-cases (cheapest_entry pool.tx_map)) [
        | inl no_entry ↦ ground arith
        | inr ((a, f), c) ↦ evicting a f h (ground arith) c (ground arith) (ground arith)
      ]
      | inr room ↦ added h (ground arith) (ground arith)
    ]
  ]

  -- Admissibility reads only the relay floor of the pool.
  IsAdmissible-same :
      (pool pool' : TxPool) (from : Address) (tx : FullTx)
      → pool'.min_fee_per_byte ≡ pool.min_fee_per_byte
      → IsAdmissible pool from tx
      → IsAdmissible pool' from tx
  unfolding clears_floor effective_floor_per_byte
  IsAdmissible-same pool pool' from tx e h = record {
    sender = h.sender;
    height = h.height;
    checked = h.checked;
    priced = ground (arith, h.priced);
  }

  entries-insert :
      (pool pool' : TxPool) (m : Map FullTx) (from : Address) (tx : FullTx)
      → Wrote pool m from tx pool'
      → IsAdmissible pool from tx
      → ((a : Address) (u : FullTx) → lookup a m ≡ some u → IsAdmissible pool a u)
      → (a : Address) (u : FullTx) → lookup a pool'.tx_map ≡ some u
      → IsAdmissible pool' a u
  entries-insert pool pool' m from tx w h all a u e = elim (Bool-cases (from == a)) [
    | inl same ↦
        let p : from ≡ a = ground arith in
        let q : tx ≡ u = ground (arith, lookup-insert from a tx m) in
        IsAdmissible-same pool pool' a u w.3 (rw (← p, ← q) h)
    | inr other ↦
        IsAdmissible-same pool pool' a u w.3 (all a u (ground (arith, lookup-insert from a tx m)))
  ]

  still_there :
      (a b : Address) (u : FullTx) (m : Map FullTx)
      → lookup b (erase a m) ≡ some u
      → lookup b m ≡ some u
  still_there a b u m k = ground (arith, lookup-erase a b m)

  -- Evicting an entry makes room for one.
  evicted_room :
      (pool : TxPool) (a : Address) (f : ℕ)
      → IsValid pool
      → cheapest_entry pool.tx_map ≡ some (a, f)
      → suc (length (erase a pool.tx_map)) ≤ pool.max_size
  evicted_room pool a f v c =
      let (t, e, q) = cheapest_entry-found pool.tx_map a f v.distinct c in
      omega (arith, length-erase_lt a t pool.tx_map e, v.bounded)

  Placed-IsValid :
      (pool pool' : TxPool) (from : Address) (tx : FullTx)
      → IsValid pool
      → IsAdmissible pool from tx
      → Placed pool from tx pool'
      → IsValid pool'
  Placed-IsValid pool pool' from tx v h (replaced old e lt w) = record {
    distinct = rw w.0 (insert-Distinct from tx pool.tx_map v.distinct);
    entries = entries-insert pool pool' pool.tx_map from tx w h v.entries;
    bounded = rw (w.0, w.2, length-insert_old from tx old pool.tx_map e) v.bounded;
  }
  Placed-IsValid pool pool' from tx v h (added e lt w) = record {
    distinct = rw w.0 (insert-Distinct from tx pool.tx_map v.distinct);
    entries = entries-insert pool pool' pool.tx_map from tx w h v.entries;
    bounded = rw (w.0, w.2, length-insert_new from tx pool.tx_map e) lt;
  }
  Placed-IsValid pool pool' from tx v h (evicting a f e full c lt w) =
      let m = erase a pool.tx_map in
      let gone : lookup from m ≡ none = ground (arith, lookup-erase a from pool.tx_map) in
      record {
        distinct = rw w.0 (insert-Distinct from tx m (erase-Distinct a pool.tx_map v.distinct));
        entries =
            entries-insert pool pool' m from tx w h
              (λ b u k. v.entries b u (still_there a b u pool.tx_map k));
        bounded = rw (w.0, w.2, length-insert_new from tx m gone) (evicted_room pool a f v c);
      }

  -- A valid pool that admits a transaction stays valid: one entry for each sender, all of them
  -- admissible for the next block, and never more than the pool may hold.
  pub put_tx-IsValid :
      (pool pool' : TxPool) (tx : FullTx)
      → IsValid pool
      → put_tx env pool tx ≡ ok pool'
      → IsValid pool'
  put_tx-IsValid pool pool' tx v e =
      let (from, h, placed) = put_tx-ok pool pool' tx e in
      Placed-IsValid pool pool' from tx v h (place_tx-Placed pool pool' from tx placed)
