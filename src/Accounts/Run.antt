-- ===== src/Accounts/Run.antt =====
-- One contract call (`runContract` of ngstate/state_handle.go): the block's gas budget, the run, and
-- the journal written back when the call succeeds. Receipts are left out: nothing reads them back.
use ngcore.Base.{ℕ, ◌-◌, Bool, true, false, not, Option, none, some, List, leb, ◌==◌, if◌then◌else◌}
use ngcore.Forks.{is_fork_active, fork_state_rent}
use ngcore.Types.{Address, Hash, Bytes, FullTx}
use ngcore.Accounts.{State, Contract, get_contract, is_live}
use ngcore.Accounts.Deps.{ImportName}
use ngcore.Accounts.Journal.{new_vm_journal, HostOp, run_ops, flush}

-- VMEntryOnTx and its kin
pub data Entry : Type 0 where
  on_tx on_activate on_upgrade on_validate : Entry

-- What the engine says of a call: the toll it used, and the host functions that it called, in order,
-- where the call ran to its end. A module that does not link, an export that is missing and a trap of
-- the code are `none`.
pub record Called : Type 0 where
  pub gas_used : ℕ
  pub calls : Option (List HostOp)

-- The engine of another package, with what is asked of the modules. `run` has the state, the contract,
-- the transaction, the block's time, the entry and the gas left; its host functions read the state.
pub record Engine : Type 0 where
  pub imports_of : Bytes → Option (List ImportName)
  pub bs58_address : ImportName → Option Address
  pub has_export : Bytes → Entry → Bool
  pub decode_commit_code : Bytes → Option Bytes
  pub run : State → Contract → FullTx → ℕ → Entry → ℕ → Called

-- Whether the entry ran to its end, the state, and the gas that the block has left.
pub record Ran : Type 0 where
  pub ok : Bool
  pub state : State
  pub gas : ℕ

module _ (hash256 : Bytes → Hash) (engine : Engine) where
  -- The journal of a call that has ended, written back.
  unfoldable pub finish_run : State → Contract → FullTx → Option (List HostOp) → ℕ → Ran
  unfolding run_ops new_vm_journal flush
  finish_run s account tx none gas = record { ok = false; state = s; gas = gas }
  finish_run s account tx (some ops) gas =
      elim (run_ops s (is_fork_active tx.network fork_state_rent tx.height) (new_vm_journal account)
        ops) [
          | none ↦ record { ok = false; state = s; gas = gas }
          | some j ↦ record { ok = true; state = flush hash256 j s; gas = gas }
        ]

  -- `runContract`
  unfoldable pub run_contract : State → Address → FullTx → Entry → ℕ → ℕ → Ran
  unfolding get_contract is_live finish_run
  run_contract s a tx entry block_time gas =
      let stopped : Ran = record { ok = false; state = s; gas = gas } in
      elim (get_contract s a) [
        | none ↦ stopped
        | some account ↦
            if not (is_live account)
            then stopped
            else if gas == 0
            then stopped
            else let called = engine.run s account tx block_time entry gas in
              finish_run s account tx called.calls
                (if leb gas called.gas_used then 0 else gas - called.gas_used)
      ]
