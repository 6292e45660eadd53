-- ===== src/Accounts/Apply.antt =====
-- Applying a block to the state (ngstate/state_handle.go, and `Upgrade` and `handleCommits` of
-- ngstate/state.go). The error of a block that fails is kept; the state of a failed block is dropped.
use ngcore.Base.{
  ℕ, ◌+◌, ◌-◌, ◌*◌, Bool, true, not, Option, none, some, List, [], ◌∷◌, length, ltb, ◌==◌,
  if◌then◌else◌,
}
use ngcore.Forks.{is_fork_active, fork_state_rent}
use ngcore.Types.{
  Address, Hash, Bytes, FullTx, FullBlock, Commitment, generate_tx, transact_tx, deploy_tx,
  total_expenditure,
}
use ngcore.Commits.{put_commit, commit_from_pending, prune_commits}
use ngcore.Commits.Reveal.{RevealError, applied, refused, consume_reveal}
use ngcore.Envelope.{Crypto, SignError, tx_from, verify_tx, commitment_from, verify_commitment}
use ngcore.Accounts.{
  State, Contract, ContractContext, empty_context, storage_deposit_escrow, get_balance, set_balance,
  get_contract, contract_exists, set_contract, del_contract, is_live,
}
use ngcore.Accounts.Keys.{key_resolver, register_pub_key}
use ngcore.Accounts.Beacon.{update_beacon}
use ngcore.Accounts.Deps.{
  extract_contract_deps, all_live, pin_deps, release_deps, set_contract_deps,
}
use ngcore.Accounts.Run.{on_tx, on_activate, on_upgrade, on_validate, Engine, run_contract}
use ngcore.Params.{max_block_gas}

abbrev pub max_contract_source_size : ℕ
max_contract_source_size = 256 * 1024

pub data StateError : Type 0 where
  bad_sign : SignError → StateError
  bad_reveal : RevealError → StateError
  tx_type_invalid no_sender balance_insufficient unauthorized to_invalid value_invalid : StateError
  decode_failed source_too_large nothing_to_destroy contract_refd bad_deps : StateError
  commit_duplicate commit_unaffordable : StateError

-- A step of a block: the state and the gas left, or the error.
pub data Step : Type 0 where
  ok : State → ℕ → Step
  err : StateError → Step

unfoldable pub and_then : Step → (State → ℕ → Step) → Step
and_then (ok s gas) f = f s gas
and_then (err e) f = err e

-- `refundContractDeposit`, of the context that the caller holds.
unfoldable pub refund_contract_deposit : State → Address → ContractContext → State
unfolding get_balance set_balance
refund_contract_deposit s a ctx =
    let escrow_bal = get_balance s storage_deposit_escrow in
    let pay = if ltb escrow_bal ctx.rent then escrow_bal else ctx.rent in
    if ctx.rent == 0
    then s
    else if pay == 0
    then s
    else let s' = set_balance s storage_deposit_escrow (escrow_bal - pay) in
      set_balance s' a (get_balance s' a + pay)

-- The end of `handleGenerate` and of the transfer of `handleTransaction`.
unfoldable pub mint : State → Address → ℕ → State
unfolding get_balance set_balance
mint s a n = set_balance s a (get_balance s a + n)

-- The slot of the sender, where it is live.
unfoldable pub live_slot : State → Address → Option Contract
unfolding get_contract is_live
live_slot s from = elim (get_contract s from) [
  | none ↦ none
  | some c ↦ if is_live c then some c else none
]

module _ (k : Crypto) (engine : Engine) (reveal_hash : FullTx → Hash) where
  -- `consumeReveal`
  unfoldable pub reveal_step : State → FullTx → ℕ → Step
  reveal_step s tx gas = elim (consume_reveal (tx_from k) reveal_hash s.commits tx) [
    | applied commits ↦ ok (record s { commits = commits }) gas
    | refused e ↦ err (bad_reveal e)
  ]

  -- `runValidate`
  unfoldable pub run_validate : State → FullTx → ℕ → ℕ → Step
  unfolding get_contract is_live run_contract
  run_validate s tx block_time gas = elim (tx_from k tx) [
    | none ↦ err no_sender
    | some from ↦ elim (get_contract s from) [
      | none ↦ ok s gas
      | some account ↦
          if not (is_live account)
          then ok s gas
          else if not (engine.has_export account.source on_validate)
          then ok s gas
          else let ran = run_contract k.hash256 engine s from tx on_validate block_time gas in
            if ran.ok then ok ran.state ran.gas else err unauthorized
    ]
  ]

  -- The verification of a transaction and the reveal of its key.
  unfoldable pub verify_and_register : State → FullTx → ℕ → Step
  unfolding verify_tx key_resolver register_pub_key
  verify_and_register s tx gas = elim (verify_tx k (key_resolver s) tx) [
    | some e ↦ err (bad_sign e)
    | none ↦ ok (register_pub_key k s tx) gas
  ]

  -- `handleGenerate`
  unfoldable pub handle_generate : State → FullTx → ℕ → Step
  unfolding and_then verify_and_register mint
  handle_generate s tx gas =
      and_then (if length tx.sign == 0 then ok s gas else verify_and_register s tx gas)
        (λ s' gas'. ok (mint s' tx.to tx.value) gas')

  -- The part of `chargeFrom` after the key is registered.
  unfoldable pub burn : State → FullTx → ℕ → ℕ → Step
  unfolding tx_from get_balance set_balance
  burn s tx expense gas = elim (tx_from k tx) [
    | none ↦ err no_sender
    | some from ↦
        if ltb (get_balance s from) expense
        then err balance_insufficient
        else ok (set_balance s from (get_balance s from - expense)) gas
  ]

  -- `chargeFrom`; the address that it answers is `tx_from`'s.
  unfoldable pub charge_from : State → FullTx → ℕ → ℕ → Step
  unfolding and_then verify_and_register burn
  charge_from s tx expense gas =
      and_then (verify_and_register s tx gas) (λ s' gas'. burn s' tx expense gas')

  -- The call of the recipient's contract.
  unfoldable pub call_recipient : State → FullTx → ℕ → ℕ → Step
  unfolding contract_exists run_contract
  call_recipient s tx block_time gas =
      let ran = run_contract k.hash256 engine s tx.to tx on_tx block_time gas in
      if contract_exists s tx.to then ok ran.state ran.gas else ok s gas

  -- `handleTransaction`
  unfoldable pub handle_transaction : State → FullTx → ℕ → ℕ → Step
  unfolding and_then charge_from mint call_recipient total_expenditure
  handle_transaction s tx block_time gas =
      and_then (charge_from s tx (total_expenditure tx) gas)
        (λ s' gas'. call_recipient (mint s' tx.to tx.value) tx block_time gas')

  -- The end of a destroy, after the hook: `slot` is the contract that was read before the hook ran.
  unfoldable pub finish_destroy : State → Address → Contract → FullTx → ℕ → Step
  unfolding release_deps refund_contract_deposit del_contract
  finish_destroy s from slot tx gas = elim (release_deps k.hash256 s slot.context.deps) [
    | none ↦ err bad_deps
    | some s' ↦
        let rent = is_fork_active s.network fork_state_rent tx.height in
        ok (del_contract (if rent then refund_contract_deposit s' from slot.context else s') from)
          gas
  ]

  -- `handleDeploy`, for empty code.
  unfoldable pub destroy : State → Address → FullTx → ℕ → ℕ → Step
  unfolding live_slot run_contract finish_destroy
  destroy s from tx block_time gas = elim (live_slot s from) [
    | none ↦ err nothing_to_destroy
    | some slot ↦
        if ltb 0 slot.context.refs
        then err contract_refd
        else let ran = run_contract k.hash256 engine s from tx on_upgrade block_time gas in
          if ran.ok then finish_destroy ran.state from slot tx ran.gas else ok ran.state ran.gas
  ]

  -- The end of a deploy or an upgrade: the new code is stored in `slot`, and its `init` hook run.
  unfoldable pub finish_deploy :
      State → Address → Contract → Bytes → List Address → FullTx → ℕ → ℕ → Step
  unfolding pin_deps set_contract_deps set_contract run_contract
  finish_deploy s from slot source deps tx block_time gas = elim (pin_deps k.hash256 s deps) [
    | none ↦ err bad_deps
    | some s' ↦
        let live : Contract = record slot {
          source = source;
          context = record slot.context { active = true };
        } in
        let s'' = set_contract k.hash256 s' (set_contract_deps live deps) in
        let ran = run_contract k.hash256 engine s'' from tx on_activate block_time gas in
        ok ran.state ran.gas
  ]

  -- `handleDeploy`, for code that is not empty and that compiles; `slot` is read before the hook.
  unfoldable pub deploy : State → Address → Bytes → List Address → FullTx → ℕ → ℕ → Step
  unfolding live_slot run_contract finish_deploy release_deps
  deploy s from source deps tx block_time gas = elim (live_slot s from) [
    | none ↦
        finish_deploy s from (record { owner = from; source = []; context = empty_context }) source
          deps tx block_time gas
    | some slot ↦
        let ran = run_contract k.hash256 engine s from tx on_upgrade block_time gas in
        if ran.ok
        then elim (release_deps k.hash256 ran.state slot.context.deps) [
          | none ↦ err bad_deps
          | some s' ↦ finish_deploy s' from slot source deps tx block_time ran.gas
        ]
        else ok ran.state ran.gas
  ]

  -- `validateDeps` after the new module has compiled.
  unfoldable pub deploy_code : State → Address → Bytes → FullTx → ℕ → ℕ → Step
  unfolding extract_contract_deps all_live deploy
  deploy_code s from source tx block_time gas =
      elim (extract_contract_deps engine.bs58_address engine.imports_of source) [
        | none ↦ err bad_deps
        | some deps ↦
            if all_live s from deps
            then deploy s from source deps tx block_time gas
            else err bad_deps
      ]

  -- `handleDeploy` after the charge.
  unfoldable pub change_code : State → FullTx → ℕ → ℕ → Step
  unfolding tx_from destroy deploy_code
  change_code s tx block_time gas = elim (tx_from k tx) [
    | none ↦ err no_sender
    | some from ↦ elim (engine.decode_commit_code tx.extra) [
      | none ↦ err decode_failed
      | some source ↦
          if ltb max_contract_source_size (length source)
          then err source_too_large
          else if length source == 0
          then destroy s from tx block_time gas
          else deploy_code s from source tx block_time gas
    ]
  ]

  -- `FullTx.CheckDeploy`
  unfoldable pub check_deploy : State → FullTx → Option StateError
  unfolding verify_tx key_resolver
  check_deploy s tx =
      if not (tx.to == 0)
      then some to_invalid
      else if not (tx.value == 0)
      then some value_invalid
      else elim (verify_tx k (key_resolver s) tx) [ none ↦ none | some e ↦ some (bad_sign e) ]

  -- `handleDeploy`
  unfoldable pub handle_deploy : State → FullTx → ℕ → ℕ → Step
  unfolding check_deploy and_then charge_from change_code total_expenditure
  handle_deploy s tx block_time gas = elim (check_deploy s tx) [
    | some e ↦ err e
    | none ↦
        and_then (charge_from s tx (total_expenditure tx) gas)
          (λ s' gas'. change_code s' tx block_time gas')
  ]

  -- What stands before the effect of a transaction in `HandleTxs`.
  unfoldable pub reveal_and_validate : State → FullTx → ℕ → ℕ → Step
  unfolding and_then reveal_step run_validate
  reveal_and_validate s tx block_time gas =
      and_then (reveal_step s tx gas) (λ s' gas'. run_validate s' tx block_time gas')

  -- One round of `HandleTxs`.
  unfoldable pub handle_tx : State → FullTx → ℕ → ℕ → Step
  unfolding and_then handle_generate reveal_and_validate handle_transaction handle_deploy
  handle_tx s tx block_time gas =
      if tx.type == generate_tx
      then handle_generate s tx gas
      else if tx.type == transact_tx
      then and_then (reveal_and_validate s tx block_time gas)
          (λ s' gas'. handle_transaction s' tx block_time gas')
      else if tx.type == deploy_tx
      then and_then (reveal_and_validate s tx block_time gas)
          (λ s' gas'. handle_deploy s' tx block_time gas')
      else err tx_type_invalid

  -- The loop of `HandleTxs`.
  unfoldable pub handle_txs : State → List FullTx → ℕ → ℕ → Step
  unfolding and_then handle_tx
  handle_txs s [] block_time gas = ok s gas
  handle_txs s (tx ∷ txs) block_time gas =
      and_then (handle_tx s tx block_time gas) (λ s' gas'. handle_txs s' txs block_time gas')

  -- One round of `handleCommits`.
  unfoldable pub handle_commit : State → Commitment → ℕ → Step
  unfolding verify_commitment commitment_from key_resolver commit_from_pending get_balance
      set_balance put_commit
  handle_commit s c gas = elim (verify_commitment k (key_resolver s) c) [
    | some e ↦ err (bad_sign e)
    | none ↦ elim (commitment_from k c) [
      | none ↦ err no_sender
      | some from ↦
          if commit_from_pending s.commits from c.hash c.height
          then err commit_duplicate
          else if ltb (get_balance s from) c.fee
          then err commit_unaffordable
          else let s' = set_balance s from (get_balance s from - c.fee) in
            ok (record s' { commits = put_commit s'.commits c.height c.hash from }) gas
    ]
  ]

  -- `handleCommits`
  unfoldable pub handle_commits : State → List Commitment → ℕ → Step
  unfolding and_then handle_commit
  handle_commits s [] gas = ok s gas
  handle_commits s (c ∷ cs) gas =
      and_then (handle_commit s c gas) (λ s' gas'. handle_commits s' cs gas')

  -- The changeset of the block on an archive node, which `Upgrade` sets and clears.
  unfoldable pub start_recording : Bool → ℕ → State → State
  start_recording archive h s = record s { recorder = if archive then some h else none }

  unfoldable pub finish_block : State → FullBlock → State
  unfolding update_beacon prune_commits
  finish_block s block =
      let s' = update_beacon k.hash256 s block in
      record s' { commits = prune_commits s'.commits block.height; recorder = none }

  -- `Upgrade`
  unfoldable pub upgrade : Bool → State → FullBlock → Step
  unfolding and_then start_recording handle_commits handle_txs finish_block
  upgrade archive s block =
      and_then (handle_commits (start_recording archive block.height s) block.commits max_block_gas)
        (λ s' gas.
          and_then (handle_txs s' block.txs block.timestamp gas)
            (λ s'' gas'. ok (finish_block s'' block) gas'))
