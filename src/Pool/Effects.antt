-- ===== src/Pool/Effects.antt =====
-- What an admitted transaction does to the queue.
use ngcore.Base.{
  ◌≤◌, ◌<◌, ◌≡◌, ◌≢◌, some, ◌⊎◌, inl, inr, length, ◌==◌, Bool-cases, Option-cases, arith, ==_self,
  ==_ne,
}
use ngcore.Types.{FullTx, Address}
use ngcore.Maps.{lookup}
use ngcore.Maps.Laws.{lookup-insert, lookup-erase}
use ngcore.Pool.Admission.{
  IsAdmissible, IsValid, Placed, replaced, added, evicting, put_tx-ok, place_tx-Placed,
}
use ngcore.Pool.{TxPool, reset, cheapest_entry, clears_floor, place_tx, put_tx}
use ngcore.Pool.Env.{PoolEnv, ok, panic}
use ngcore.Pool.Eviction.{cheapest_entry-found, cheapest_entry-least, cheapest_entry-empty}

module _ (env : PoolEnv) where
  Placed-self :
      (pool pool' : TxPool) (from : Address) (tx : FullTx)
      → Placed env pool from tx pool'
      → lookup from pool'.tx_map ≡ some tx
  Placed-self pool pool' from tx (replaced old e lt w) = rw (w.0, lookup-insert, ==_self from)
  Placed-self pool pool' from tx (added e lt w) = rw (w.0, lookup-insert, ==_self from)
  Placed-self pool pool' from tx (evicting a f e full c lt w) =
      rw (w.0, lookup-insert, ==_self from)

  sender-eq :
      (pool : TxPool) (from from' : Address) (tx : FullTx)
      → env.tx_from tx ≡ some from
      → IsAdmissible env pool from' tx
      → from' ≡ from
  sender-eq pool from from' tx e h = ground (arith, h.sender)

  admitted :
      (pool pool' : TxPool) (from : Address) (tx : FullTx)
      → put_tx env pool tx ≡ ok pool'
      → env.tx_from tx ≡ some from
      → Placed env pool from tx pool'
  admitted pool pool' from tx e s =
      let (from', h, placed) = put_tx-ok env pool pool' tx e in
      rw (← sender-eq pool from from' tx s h) (place_tx-Placed env pool pool' from' tx placed)

  outbid :
      (pool pool' : TxPool) (from : Address) (tx old : FullTx)
      → lookup from pool.tx_map ≡ some old
      → Placed env pool from tx pool'
      → old.fee < tx.fee
  outbid pool pool' from tx old h (replaced o e lt w) = ground (arith, h, e)
  outbid pool pool' from tx old h (added e lt w) = cc
  outbid pool pool' from tx old h (evicting a f e full c lt w) = cc

  kept :
      (pool pool' : TxPool) (from b : Address) (tx u : FullTx)
      → IsValid env pool
      → from ≢ b
      → lookup b pool.tx_map ≡ some u
      → Placed env pool from tx pool'
      → (lookup b pool'.tx_map ≡ some u)
        ⊎ ((pool.max_size ≤ length pool.tx_map)
            × ((c : Address) (t : FullTx)
                → lookup c pool.tx_map ≡ some t
                → (u.fee < t.fee) ⊎ ((u.fee ≡ t.fee) × (c ≤ b)))
            × (u.fee < tx.fee))
  kept pool pool' from b tx u v ne h (replaced old e lt w) =
      inl (rw (w.0, lookup-insert, ==_ne from b ne) h)
  kept pool pool' from b tx u v ne h (added e lt w) =
      inl (rw (w.0, lookup-insert, ==_ne from b ne) h)
  kept pool pool' from b tx u v ne h (evicting a f e full c lt w) = elim (Bool-cases (a == b)) [
    | inr other ↦ inl (rw (w.0, lookup-insert, ==_ne from b ne, lookup-erase, other) h)
    | inl same ↦
        let (t, g, q) = cheapest_entry-found pool.tx_map a f v.distinct c in
        let p : a ≡ b = ground arith in
        let r : f ≡ u.fee = ground arith in
        let found : cheapest_entry pool.tx_map ≡ some (b, u.fee) = rw (← p, ← r) c in
        inr (
          full,
          λ d t e. (cheapest_entry-least pool.tx_map b u.fee d t v.distinct found e).1,
          rw (← r) lt,
        )
  ]

  -- An admitted transaction whose sender had one queued takes its place, and has a strictly higher
  -- fee.
  pub put_tx-replaces :
      (pool pool' : TxPool) (tx : FullTx) (from : Address) (old : FullTx)
      → put_tx env pool tx ≡ ok pool'
      → env.tx_from tx ≡ some from
      → lookup from pool.tx_map ≡ some old
      → (lookup from pool'.tx_map ≡ some tx) × (old.fee < tx.fee)
  put_tx-replaces pool pool' tx from old e s h =
      let placed = admitted pool pool' from tx e s in
      (Placed-self pool pool' from tx placed, outbid pool pool' from tx old h placed)

  -- When a valid pool admits a transaction, any other sender's stays queued, unless the pool was
  -- full and it was evicted as strictly cheaper than the new one: then no queued transaction had a
  -- lower fee, and none of the same fee a sender of a higher address.
  pub put_tx-keeps :
      (pool pool' : TxPool) (tx : FullTx) (from b : Address) (u : FullTx)
      → IsValid env pool
      → put_tx env pool tx ≡ ok pool'
      → env.tx_from tx ≡ some from
      → from ≢ b
      → lookup b pool.tx_map ≡ some u
      → (lookup b pool'.tx_map ≡ some u)
        ⊎ ((pool.max_size ≤ length pool.tx_map)
            × ((c : Address) (t : FullTx)
                → lookup c pool.tx_map ≡ some t
                → (u.fee < t.fee) ⊎ ((u.fee ≡ t.fee) × (c ≤ b)))
            × (u.fee < tx.fee))
  put_tx-keeps pool pool' tx from b u v e s ne h =
      kept pool pool' from b tx u v ne h (admitted pool pool' from tx e s)

  place_tx-ne-panic :
      (pool : TxPool) (from : Address) (tx : FullTx)
      → 0 < pool.max_size
      → place_tx env pool from tx ≢ panic
  unfolding place_tx
  place_tx-ne-panic pool from tx room e = elim (Option-cases (lookup from pool.tx_map)) [
    | inr (old, h) ↦ ground arith
    | inl h ↦ elim (Option-cases (cheapest_entry pool.tx_map)) [
      | inl no_entry ↦ let empty = cheapest_entry-empty pool.tx_map no_entry in ground arith
      | inr ((a, f), c) ↦ ground arith
    ]
  ]

  -- The nil fee of an empty map is never read: a pool that may hold an entry does not panic.
  pub put_tx-ne-panic :
      (pool : TxPool) (tx : FullTx) → 0 < pool.max_size → put_tx env pool tx ≢ panic
  unfolding put_tx
  put_tx-ne-panic pool tx room e =
      elim (Option-cases (clears_floor env pool (env.tx_size tx) tx.fee)) [
        | inr (x, bad) ↦ ground arith
        | inl good ↦ elim (Option-cases (env.tx_from tx)) [
          | inl missing ↦ ground arith
          | inr (from, sent) ↦ ground (arith, place_tx-ne-panic pool from tx)
        ]
      ]

  -- A call that fails returns no new pool: the caller's is unchanged, and a valid pool stays valid
  -- under `Reset`.
  pub reset-IsValid : (pool : TxPool) → IsValid env (reset pool)
  unfolding reset lookup
  reset-IsValid pool = record { distinct = tt; entries = λ a tx e. cc; bounded = omega arith }
