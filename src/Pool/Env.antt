-- ===== src/Pool/Env.antt =====
-- What the pool reads of the rest of the node: the chain's tip, the encoded sizes and the senders
-- of wire objects (RLP and signature envelopes), and the state layer's admission checks.
use ngcore.Base.{ℕ, Bool, Option}
use ngcore.Types.{FullTx, FullBlock, Commitment, Address}

pub record PoolEnv : Type 0 where
  pub latest_height : ℕ
  -- `none` where the latest block is not a full block.
  pub tip : Option FullBlock
  -- `none` where the encoder fails.
  pub tx_size : FullTx → Option ℕ
  pub commit_size : Commitment → Option ℕ
  -- `none` where the envelope has no sender.
  pub tx_from : FullTx → Option Address
  pub commit_from : Commitment → Option Address
  -- `ngstate.CheckTx` and `ngstate.CheckCommitment`, against the committed state.
  pub check_tx : FullTx → Bool
  pub check_commitment : Commitment → ℕ → Bool

pub data Error : Type 0 where
  invalid_height fee_below_floor encode_failed rejected no_from fee_too_low pool_full : Error

-- `panic` is the dereference of a nil fee.
pub data Outcome (A : Type 0) : Type 0 where
  ok : A → Outcome A
  err : Error → Outcome A
  panic : Outcome A
