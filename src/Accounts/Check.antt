-- ===== src/Accounts/Check.antt =====
-- The checks of a block's transactions against the state (ngstate/state_check.go).
use ngcore.Base.{
  ℕ, ◌+◌, ◌≡◌, Bool, not, ◌||◌, Option, none, some, List, [], ◌∷◌, length, ltb, ◌==◌, inl, inr,
  Option-cases, arith, if◌then◌else◌,
}
use ngcore.Types.{
  Address, Hash, Bytes, FullTx, FullBlock, generate_tx, transact_tx, deploy_tx, total_expenditure,
  tx_is_signed,
}
use ngcore.Reward.{get_block_reward}
use ngcore.Fee.{FeeError, check_tx_base_fee}
use ngcore.Commits.Reveal.{RevealError, check_reveal}
use ngcore.Envelope.{Crypto, tx_from, verify_tx, tx_max_extra_size}
use ngcore.Accounts.{State, get_balance}
use ngcore.Accounts.Effects.{supply}
use ngcore.Accounts.Keys.{key_resolver}
use ngcore.Accounts.Deps.{extract_contract_deps, all_live}
use ngcore.Accounts.Run.{on_upgrade, Engine}
use ngcore.Accounts.Apply.{
  StateError, bad_sign, no_sender, balance_insufficient, decode_failed, source_too_large,
  nothing_to_destroy, contract_refd, bad_deps, ok, max_contract_source_size, live_slot,
  check_deploy, upgrade,
}
use ngcore.Accounts.Issuance.{all_burned, commit_fees, upgrade-supply}
use ngcore.Accounts.Generates.{
  GenerateError, check_block_generates, uncle_rewards, check_block_generates-minted,
}

pub data CheckError : Type 0 where
  generates : GenerateError → CheckError
  reveal : RevealError → CheckError
  state : StateError → CheckError
  fee : FeeError → CheckError
  tx_unsigned tx_sign_invalid tx_extra_excess tx_type_invalid immutable : CheckError

module _ (k : Crypto) (engine : Engine) (reveal_hash : FullTx → Hash)
    (encoded_length : FullTx → Option ℕ) where
  -- `fromWithBalance`
  unfoldable pub from_with_balance : State → FullTx → ℕ → Option CheckError
  unfolding tx_from get_balance
  from_with_balance s tx expense = elim (tx_from k tx) [
    | none ↦ some (state no_sender)
    | some from ↦
        if ltb (get_balance s from) expense then some (state balance_insufficient) else none
  ]

  -- `checkTransaction`, with `FullTx.CheckTransaction`
  unfoldable pub check_transaction : State → FullTx → Option CheckError
  unfolding verify_tx key_resolver from_with_balance total_expenditure
  check_transaction s tx = elim (verify_tx k (key_resolver s) tx) [
    | some e ↦ some (state (bad_sign e))
    | none ↦ from_with_balance s tx (total_expenditure tx)
  ]

  -- The part of `checkDeploy` on the code, after the balance.
  unfoldable pub check_code : State → Address → Bytes → Option CheckError
  unfolding live_slot extract_contract_deps all_live
  check_code s from source =
      if ltb max_contract_source_size (length source)
      then some (state source_too_large)
      else if length source == 0
      then elim (live_slot s from) [
        | none ↦ some (state nothing_to_destroy)
        | some slot ↦
            if not (engine.has_export slot.source on_upgrade)
            then some immutable
            else if ltb 0 slot.context.refs
            then some (state contract_refd)
            else none
      ]
      else elim (extract_contract_deps engine.bs58_address engine.imports_of source) [
        | none ↦ some (state bad_deps)
        | some deps ↦
            if not (all_live s from deps) then some (state bad_deps) else elim (live_slot s from) [
              | none ↦ none
              | some slot ↦
                  if engine.has_export slot.source on_upgrade then none else some immutable
            ]
      ]

  -- `checkDeploy`
  unfoldable pub check_deploy_tx : State → FullTx → Option CheckError
  unfolding check_deploy from_with_balance total_expenditure tx_from check_code
  check_deploy_tx s tx = elim (check_deploy k engine reveal_hash s tx) [
    | some e ↦ some (state e)
    | none ↦ elim (from_with_balance s tx (total_expenditure tx)) [
      | some e ↦ some e
      | none ↦ elim (tx_from k tx) [
        | none ↦ some (state no_sender)
        | some from ↦ elim (engine.decode_commit_code tx.extra) [
          | none ↦ some (state decode_failed)
          | some source ↦ check_code s from source
        ]
      ]
    ]
  ]

  -- The checks of a transaction's effect, by its type.
  unfoldable pub check_effect : State → FullTx → Option CheckError
  unfolding check_transaction check_deploy_tx
  check_effect s tx =
      if tx.type == transact_tx
      then check_transaction s tx
      else if tx.type == deploy_tx
      then check_deploy_tx s tx
      else some tx_type_invalid

  -- `CheckRevealExceptCommitment`
  unfoldable pub check_reveal_except_commitment : State → FullTx → Option CheckError
  unfolding tx_is_signed check_effect
  check_reveal_except_commitment s tx =
      if not (tx_is_signed tx)
      then some tx_sign_invalid
      else if ltb tx_max_extra_size (length tx.extra)
      then some tx_extra_excess
      else check_effect s tx

  -- `CheckTx`
  unfoldable pub check_tx : State → FullTx → Option CheckError
  unfolding tx_is_signed check_effect check_reveal
  check_tx s tx =
      if not (tx_is_signed tx)
      then some tx_sign_invalid
      else if ltb tx_max_extra_size (length tx.extra)
      then some tx_extra_excess
      else if tx.type == transact_tx || tx.type == deploy_tx
      then elim (check_reveal (tx_from k) reveal_hash s.commits tx) [
        | some e ↦ some (reveal e)
        | none ↦ check_effect s tx
      ]
      else some tx_type_invalid

  -- One round of the loop of `CheckBlockTxs`.
  unfoldable pub check_block_tx : State → FullBlock → FullTx → Option CheckError
  unfolding tx_is_signed check_tx check_tx_base_fee
  check_block_tx s block tx =
      if tx.type == generate_tx
      then none
      else if not (tx_is_signed tx)
      then some tx_unsigned
      else if ltb tx_max_extra_size (length tx.extra)
      then some tx_extra_excess
      else elim (check_tx s tx) [
        | some e ↦ some e
        | none ↦ elim (check_tx_base_fee encoded_length block tx) [
          | some e ↦ some (fee e)
          | none ↦ none
        ]
      ]

  unfoldable pub check_each : State → FullBlock → List FullTx → Option CheckError
  unfolding check_block_tx
  check_each s block [] = none
  check_each s block (tx ∷ txs) =
      let rest = check_each s block txs in
      elim (check_block_tx s block tx) [ some e ↦ some e | none ↦ rest ]

  -- `CheckBlockTxs`
  unfoldable pub check_block_txs : State → FullBlock → Option CheckError
  unfolding check_block_generates key_resolver check_each
  check_block_txs s block = elim (check_block_generates k (key_resolver s) block) [
    | some e ↦ some (generates e)
    | none ↦ check_each s block block.txs
  ]

  -- A block whose transactions pass the check and that applies raises the coins by the block's reward
  -- and the rewards of its uncles, and lowers them by the fees of its transactions and commitments.
  pub check_block_txs-supply :
      (archive : Bool) (s s' : State) (block : FullBlock) (gas : ℕ)
      → check_block_txs s block ≡ none
      → upgrade k engine reveal_hash archive s block ≡ ok s' gas
      → supply s' + all_burned block.txs + commit_fees block.commits
        ≡ supply s + get_block_reward block.height + uncle_rewards block.height block.uncles
  unfolding check_block_txs
  check_block_txs-supply archive s s' block gas checked applies =
      elim (Option-cases (check_block_generates k (key_resolver s) block)) [
        | inr (bad, there) ↦ absurd (ground arith)
        | inl good ↦ omega (
          arith,
          upgrade-supply k engine reveal_hash archive s s' block gas applies,
          check_block_generates-minted k (key_resolver s) block good,
        )
      ]
