-- ===== src/Pool/Floor.antt =====
-- The pool's fee floor and the base fee that the next block enforces.
use ngcore.Base.{
  ℕ, ◌*◌, ◌≤◌, ◌<◌, ◌≡◌, refl, sym, ap, ◌∙◌, true, Option, none, some, inl, inr, Bool-cases, add64,
  arith,
}
use ngcore.Base.Int.{pos}
use ngcore.Types.{FullTx, FullBlock, Address}
use ngcore.Forks.{is_fork_active, fork_fee_market}
use ngcore.Fee.{next_base_fee, block_used_bytes, check_tx_base_fee}
use ngcore.Fee.Bounds.{next_base_fee-floor}
use ngcore.Pool.{TxPool, consensus_floor, effective_floor_per_byte, clears_floor}
use ngcore.Pool.Env.{PoolEnv}
use ngcore.Pool.Admission.{IsAdmissible}

-- A product with a larger factor.
mul_le : (a b n x : ℕ) → a ≤ b → b * n ≤ x → a * n ≤ x
mul_le a b n x h k = grind arith

module _ (env : PoolEnv) where
  consensus_floor-some :
      (tip : FullBlock)
      → env.tip ≡ some tip
      → is_fork_active tip.network fork_fee_market (add64 tip.height 1) ≡ true
      → consensus_floor env
        ≡ some (
            next_base_fee tip.network tip.height
              (some (pos tip.base_fee))
              (block_used_bytes env.tx_size tip))
  unfolding consensus_floor
  consensus_floor-some tip t active = rw (t, active) refl

  positive :
      (tip block : FullBlock)
      → block.base_fee
        ≡ next_base_fee tip.network tip.height
            (some (pos tip.base_fee))
            (block_used_bytes env.tx_size tip)
      → 0 < block.base_fee
  positive tip block fee = omega (
    arith,
    fee,
    next_base_fee-floor tip.network tip.height (some (pos tip.base_fee))
        (block_used_bytes env.tx_size tip),
  )

  effective_floor-ge :
      (pool : TxPool) (floor : ℕ)
      → consensus_floor env ≡ some floor
      → floor ≤ effective_floor_per_byte env pool
  unfolding effective_floor_per_byte
  effective_floor-ge pool floor e = ground arith

  -- What clears the floor has a size, and pays the consensus floor for each of its bytes.
  clears_floor-pays :
      (pool : TxPool) (size : Option ℕ) (fee floor : ℕ)
      → consensus_floor env ≡ some floor
      → 0 < floor
      → clears_floor env pool size fee ≡ none
      → (n : ℕ) × (size ≡ some n) × (floor * n ≤ fee)
  unfolding clears_floor
  clears_floor-pays pool none fee floor e p h = ground (arith, effective_floor-ge pool floor e)
  clears_floor-pays pool (some n) fee floor e p h =
      let ge = effective_floor-ge pool floor e in
      (n, refl, mul_le floor (effective_floor_per_byte env pool) n fee ge (ground arith))

  -- A transaction that the pool holds pays the base fee of the next block: `checkTxBaseFee` accepts it
  -- in any block that stands on the tip and carries the base fee that the tip determines.
  pub check_tx_base_fee-admissible :
      (pool : TxPool) (a : Address) (tx : FullTx) (tip block : FullBlock)
      → env.tip ≡ some tip
      → block.network ≡ tip.network
      → block.height ≡ add64 tip.height 1
      → block.base_fee
        ≡ next_base_fee tip.network tip.height
            (some (pos tip.base_fee))
            (block_used_bytes env.tx_size tip)
      → IsAdmissible env pool a tx
      → check_tx_base_fee env.tx_size block tx ≡ none
  unfolding check_tx_base_fee
  check_tx_base_fee-admissible pool a tx tip block t net height fee h =
      elim (Bool-cases (is_fork_active tip.network fork_fee_market (add64 tip.height 1))) [
        | inr before_fork ↦ rw (net, height, before_fork) refl
        | inl active ↦
            let floor = consensus_floor-some tip t active in
            let (n, size, paid) =
              clears_floor-pays pool (env.tx_size tx) tx.fee block.base_fee
                (floor ∙ ap some (sym fee)) (positive tip block fee) h.priced in
            rw (net, height, active, size) (ground arith)
      ]
