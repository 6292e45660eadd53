-- ===== src/Accounts/Deploys.antt =====
-- A deploy, an upgrade and a destroy burn their fee and move coins besides.
use ngcore.Base.{
  ℕ, ◌+◌, ◌≡◌, ◌∙◌, true, none, List, [], length, ltb, ◌==◌, inl, inr, Bool-cases, Option-cases,
  arith,
}
use ngcore.Forks.{is_fork_active, fork_state_rent}
use ngcore.Types.{Address, Hash, Bytes, FullTx, total_expenditure}
use ngcore.Envelope.{Crypto, tx_from}
use ngcore.Accounts.{State, Contract, empty_context, set_contract, del_contract}
use ngcore.Accounts.Effects.{supply}
use ngcore.Accounts.Deps.{
  extract_contract_deps, all_live, pin_deps, release_deps, set_contract_deps,
}
use ngcore.Accounts.Run.{on_activate, on_upgrade, Engine, run_contract}
use ngcore.Accounts.Supply.{
  supply-run_contract, supply-pin_deps, supply-release_deps, supply-set_contract,
}
use ngcore.Accounts.Apply.{
  ok, refund_contract_deposit, charge_from, live_slot, finish_destroy, destroy, finish_deploy,
  deploy, deploy_code, change_code, check_deploy, handle_deploy, max_contract_source_size,
}
use ngcore.Accounts.Charges.{
  and_then-ok, supply-ok, supply-refund_contract_deposit, supply-charge_from,
}

module _ (k : Crypto) (engine : Engine) (reveal_hash : FullTx → Hash) where
  pub supply-finish_destroy :
      (s s' : State) (from : Address) (slot : Contract) (tx : FullTx) (gas gas' : ℕ)
      → finish_destroy k engine reveal_hash s from slot tx gas ≡ ok s' gas'
      → supply s' ≡ supply s
  unfolding finish_destroy del_contract
  supply-finish_destroy s s' from slot tx gas gas' e =
      elim (Option-cases (release_deps k.hash256 s slot.context.deps)) [
        | inl missing ↦ absurd (ground arith)
        | inr (mid, released) ↦
            let kept = supply-release_deps k.hash256 slot.context.deps s mid released in
            let paid = refund_contract_deposit mid from slot.context in
            elim (Bool-cases (is_fork_active s.network fork_state_rent tx.height)) [
              | inl active ↦
                  supply-ok (del_contract paid from) s' gas gas' (ground arith)
                  ∙ supply-refund_contract_deposit mid from slot.context
                  ∙ kept
              | inr before ↦ supply-ok (del_contract mid from) s' gas gas' (ground arith) ∙ kept
            ]
      ]

  pub supply-destroy :
      (s s' : State) (from : Address) (tx : FullTx) (block_time gas gas' : ℕ)
      → destroy k engine reveal_hash s from tx block_time gas ≡ ok s' gas'
      → supply s' ≡ supply s
  unfolding destroy
  supply-destroy s s' from tx block_time gas gas' e = elim (Option-cases (live_slot s from)) [
    | inl missing ↦ absurd (ground arith)
    | inr (slot, there) ↦ elim (Bool-cases (ltb 0 slot.context.refs)) [
      | inl referenced ↦ absurd (ground arith)
      | inr unreferenced ↦
          let ran = run_contract k.hash256 engine s from tx on_upgrade block_time gas in
          let kept = supply-run_contract k.hash256 engine s from tx on_upgrade block_time gas in
          elim (Bool-cases ran.ok) [
            | inl allowed ↦
                supply-finish_destroy ran.state s' from slot tx ran.gas gas' (ground arith) ∙ kept
            | inr trapped ↦ supply-ok ran.state s' ran.gas gas' (ground arith) ∙ kept
          ]
    ]
  ]

  pub supply-finish_deploy :
      (s s' : State) (from : Address) (slot : Contract) (source : Bytes) (deps : List Address)
      (tx : FullTx) (block_time gas gas' : ℕ)
      → finish_deploy k engine reveal_hash s from slot source deps tx block_time gas ≡ ok s' gas'
      → supply s' ≡ supply s
  unfolding finish_deploy
  supply-finish_deploy s s' from slot source deps tx block_time gas gas' e =
      elim (Option-cases (pin_deps k.hash256 s deps)) [
        | inl missing ↦ absurd (ground arith)
        | inr (mid, pinned) ↦
            let kept = supply-pin_deps k.hash256 deps s mid pinned in
            let live : Contract = record slot {
              source = source;
              context = record slot.context { active = true };
            } in
            let stored = set_contract k.hash256 mid (set_contract_deps live deps) in
            let ran = run_contract k.hash256 engine stored from tx on_activate block_time gas in
            supply-ok ran.state s' ran.gas gas' (ground arith)
            ∙ supply-run_contract k.hash256 engine stored from tx on_activate block_time gas
            ∙ supply-set_contract k.hash256 mid (set_contract_deps live deps)
            ∙ kept
      ]

  pub supply-deploy :
      (s s' : State) (from : Address) (source : Bytes) (deps : List Address) (tx : FullTx)
      (block_time gas gas' : ℕ)
      → deploy k engine reveal_hash s from source deps tx block_time gas ≡ ok s' gas'
      → supply s' ≡ supply s
  unfolding deploy
  supply-deploy s s' from source deps tx block_time gas gas' e =
      elim (Option-cases (live_slot s from)) [
        | inl empty ↦
            supply-finish_deploy s s' from
              (record { owner = from; source = []; context = empty_context }) source deps tx
              block_time gas gas' (ground arith)
        | inr (slot, there) ↦
            let ran = run_contract k.hash256 engine s from tx on_upgrade block_time gas in
            let kept = supply-run_contract k.hash256 engine s from tx on_upgrade block_time gas in
            elim (Bool-cases ran.ok) [
              | inr trapped ↦ supply-ok ran.state s' ran.gas gas' (ground arith) ∙ kept
              | inl allowed ↦
                  elim (Option-cases (release_deps k.hash256 ran.state slot.context.deps)) [
                    | inl missing ↦ absurd (ground arith)
                    | inr (mid, released) ↦
                        supply-finish_deploy mid s' from slot source deps tx block_time ran.gas gas'
                          (ground arith)
                        ∙ supply-release_deps k.hash256 slot.context.deps ran.state mid released
                        ∙ kept
                  ]
            ]
      ]

  supply-deploy_code :
      (s s' : State) (from : Address) (source : Bytes) (tx : FullTx) (block_time gas gas' : ℕ)
      → deploy_code k engine reveal_hash s from source tx block_time gas ≡ ok s' gas'
      → supply s' ≡ supply s
  unfolding deploy_code
  supply-deploy_code s s' from source tx block_time gas gas' e =
      elim (Option-cases (extract_contract_deps engine.bs58_address engine.imports_of source)) [
        | inl bad ↦ absurd (ground arith)
        | inr (deps, there) ↦ elim (Bool-cases (all_live s from deps)) [
          | inl live ↦ supply-deploy s s' from source deps tx block_time gas gas' (ground arith)
          | inr dead ↦ absurd (ground arith)
        ]
      ]

  supply-change_code :
      (s s' : State) (tx : FullTx) (block_time gas gas' : ℕ)
      → change_code k engine reveal_hash s tx block_time gas ≡ ok s' gas'
      → supply s' ≡ supply s
  unfolding change_code
  supply-change_code s s' tx block_time gas gas' e = elim (Option-cases (tx_from k tx)) [
    | inl missing ↦ absurd (ground arith)
    | inr (from, there) ↦ elim (Option-cases (engine.decode_commit_code tx.extra)) [
      | inl bad ↦ absurd (ground arith)
      | inr (source, decoded) ↦ elim (Bool-cases (ltb max_contract_source_size (length source))) [
        | inl large ↦ absurd (ground arith)
        | inr fits ↦ elim (Bool-cases (length source == 0)) [
          | inl empty ↦ supply-destroy s s' from tx block_time gas gas' (ground arith)
          | inr code ↦ supply-deploy_code s s' from source tx block_time gas gas' (ground arith)
        ]
      ]
    ]
  ]

  check_deploy-value :
      (s : State) (tx : FullTx) → check_deploy k engine reveal_hash s tx ≡ none → tx.value ≡ 0
  unfolding check_deploy
  check_deploy-value s tx e = elim (Bool-cases (tx.to == 0)) [
    | inr bad ↦ absurd (ground arith)
    | inl to ↦ elim (Bool-cases (tx.value == 0)) [
      | inr bad ↦ absurd (ground arith)
      | inl value ↦ ground arith
    ]
  ]

  pub supply-handle_deploy :
      (s s' : State) (tx : FullTx) (block_time gas gas' : ℕ)
      → handle_deploy k engine reveal_hash s tx block_time gas ≡ ok s' gas'
      → supply s' + tx.fee ≡ supply s
  unfolding handle_deploy total_expenditure
  supply-handle_deploy s s' tx block_time gas gas' e =
      elim (Option-cases (check_deploy k engine reveal_hash s tx)) [
        | inr (bad, there) ↦ absurd (ground arith)
        | inl good ↦
            let (mid, g, charged, out) =
              and_then-ok (charge_from k engine reveal_hash s tx (total_expenditure tx) gas)
                (λ t g. change_code k engine reveal_hash t tx block_time g) s' gas'
                (ground arith) in
            omega (
              arith,
              check_deploy-value s tx good,
              supply-charge_from k engine reveal_hash s mid tx (total_expenditure tx) gas g charged,
              supply-change_code mid s' tx block_time g gas' out,
            )
      ]
