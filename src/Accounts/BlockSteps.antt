-- ===== src/Accounts/BlockSteps.antt =====
-- Deploys, and a whole block, as sequences of writes.
use ngcore.Base.{
  ℕ, ◌-◌, ◌≡◌, sym, Bool, true, none, List, [], ◌∷◌, length, ltb, ◌==◌, inl, inr, Bool-cases,
  Option-cases, arith,
}
use ngcore.Forks.{is_fork_active, fork_state_rent}
use ngcore.Types.{
  Address, Hash, Bytes, FullTx, FullBlock, Commitment, generate_tx, transact_tx, deploy_tx,
  total_expenditure,
}
use ngcore.Commits.{commit_from_pending, put_commit, prune_commits}
use ngcore.Envelope.{Crypto, tx_from, commitment_from, verify_commitment}
use ngcore.Accounts.{
  State, Contract, empty_context, get_balance, set_balance, set_contract, del_contract,
}
use ngcore.Accounts.Keys.{key_resolver}
use ngcore.Accounts.Beacon.{update_beacon}
use ngcore.Accounts.Deps.{
  extract_contract_deps, all_live, pin_deps, release_deps, set_contract_deps,
}
use ngcore.Accounts.Run.{Entry, on_activate, on_upgrade, Engine, run_contract}
use ngcore.Params.{max_block_gas}
use ngcore.Accounts.Charges.{and_then-ok, state-ok}
use ngcore.Accounts.Apply.{
  ok, and_then, refund_contract_deposit, charge_from, handle_transaction, live_slot, finish_destroy,
  destroy, finish_deploy, deploy, deploy_code, change_code, check_deploy, handle_deploy,
  reveal_and_validate, handle_tx, handle_txs, handle_commit, handle_commits, start_recording,
  finish_block, upgrade, max_contract_source_size,
}
use ngcore.Accounts.Reach.{
  Reach, here, to_balance, to_slot, to_no_slot, to_commits, Reach-trans, Reach-ok,
  Reach-run_contract, Reach-pin_deps, Reach-release_deps, Reach-refund_contract_deposit,
  Reach-update_beacon,
}
use ngcore.Accounts.Steps.{
  Reaches, Reaches-and_then, handle_generate-Reaches, charge_from-Reaches,
  handle_transaction-Reaches, reveal_and_validate-Reaches,
}

module _ (k : Crypto) (engine : Engine) (reveal_hash : FullTx → Hash) where
  finish_destroy-Reaches :
      (s t : State) (from : Address) (slot : Contract) (tx : FullTx) (gas : ℕ)
      → Reach k s t
      → Reaches k engine reveal_hash s (finish_destroy k engine reveal_hash t from slot tx gas)
  unfolding finish_destroy
  finish_destroy-Reaches s t from slot tx gas r u g e =
      elim (Option-cases (release_deps k.hash256 t slot.context.deps)) [
        | inl missing ↦ absurd (ground arith)
        | inr (mid, released) ↦
            let q = Reach-release_deps k slot.context.deps s t mid r released in
            let paid = refund_contract_deposit mid from slot.context in
            elim (Bool-cases (is_fork_active t.network fork_state_rent tx.height)) [
              | inl active ↦
                  Reach-ok k s (del_contract paid from) u gas g
                    (to_no_slot (Reach-refund_contract_deposit k s mid from slot.context q) from)
                    (ground arith)
              | inr before ↦
                  Reach-ok k s (del_contract mid from) u gas g (to_no_slot q from) (ground arith)
            ]
      ]

  hook-Reach :
      (s t : State) (from : Address) (tx : FullTx) (entry : Entry) (block_time gas : ℕ)
      → Reach k s t
      → Reach k s (run_contract k.hash256 engine t from tx entry block_time gas).state
  hook-Reach s t from tx entry block_time gas r =
      Reach-trans k s t _ r (Reach-run_contract k engine t from tx entry block_time gas)

  destroy-Reaches :
      (s t : State) (from : Address) (tx : FullTx) (block_time gas : ℕ)
      → Reach k s t
      → Reaches k engine reveal_hash s (destroy k engine reveal_hash t from tx block_time gas)
  unfolding destroy
  destroy-Reaches s t from tx block_time gas r u g e = elim (Option-cases (live_slot t from)) [
    | inl missing ↦ absurd (ground arith)
    | inr (slot, there) ↦ elim (Bool-cases (ltb 0 slot.context.refs)) [
      | inl referenced ↦ absurd (ground arith)
      | inr unreferenced ↦
          let ran = run_contract k.hash256 engine t from tx on_upgrade block_time gas in
          let q = hook-Reach s t from tx on_upgrade block_time gas r in
          elim (Bool-cases ran.ok) [
            | inl allowed ↦
                finish_destroy-Reaches s ran.state from slot tx ran.gas q u g (ground arith)
            | inr trapped ↦ Reach-ok k s ran.state u ran.gas g q (ground arith)
          ]
    ]
  ]

  finish_deploy-Reaches :
      (s t : State) (from : Address) (slot : Contract) (source : Bytes) (deps : List Address)
      (tx : FullTx) (block_time gas : ℕ)
      → Reach k s t
      → Reaches k engine reveal_hash s
          (finish_deploy k engine reveal_hash t from slot source deps tx block_time gas)
  unfolding finish_deploy
  finish_deploy-Reaches s t from slot source deps tx block_time gas r u g e =
      elim (Option-cases (pin_deps k.hash256 t deps)) [
        | inl missing ↦ absurd (ground arith)
        | inr (mid, pinned) ↦
            let q = Reach-pin_deps k deps s t mid r pinned in
            let live : Contract = record slot {
              source = source;
              context = record slot.context { active = true };
            } in
            let stored = set_contract k.hash256 mid (set_contract_deps live deps) in
            let ran = run_contract k.hash256 engine stored from tx on_activate block_time gas in
            Reach-ok k s ran.state u ran.gas g
              (hook-Reach s stored from tx on_activate block_time gas
                (to_slot q (set_contract_deps live deps)))
              (ground arith)
      ]

  deploy-Reaches :
      (s t : State) (from : Address) (source : Bytes) (deps : List Address) (tx : FullTx)
      (block_time gas : ℕ)
      → Reach k s t
      → Reaches k engine reveal_hash s
          (deploy k engine reveal_hash t from source deps tx block_time gas)
  unfolding deploy
  deploy-Reaches s t from source deps tx block_time gas r u g e =
      elim (Option-cases (live_slot t from)) [
        | inl empty ↦
            finish_deploy-Reaches s t from
              (record { owner = from; source = []; context = empty_context }) source deps tx
              block_time gas r u g (ground arith)
        | inr (slot, there) ↦
            let ran = run_contract k.hash256 engine t from tx on_upgrade block_time gas in
            let q = hook-Reach s t from tx on_upgrade block_time gas r in
            elim (Bool-cases ran.ok) [
              | inr trapped ↦ Reach-ok k s ran.state u ran.gas g q (ground arith)
              | inl allowed ↦
                  elim (Option-cases (release_deps k.hash256 ran.state slot.context.deps)) [
                    | inl missing ↦ absurd (ground arith)
                    | inr (mid, released) ↦
                        finish_deploy-Reaches s mid from slot source deps tx block_time ran.gas
                          (Reach-release_deps k slot.context.deps s ran.state mid q released) u g
                          (ground arith)
                  ]
            ]
      ]

  change_code-Reaches :
      (s t : State) (tx : FullTx) (block_time gas : ℕ)
      → Reach k s t
      → Reaches k engine reveal_hash s (change_code k engine reveal_hash t tx block_time gas)
  unfolding change_code deploy_code
  change_code-Reaches s t tx block_time gas r u g e = elim (Option-cases (tx_from k tx)) [
    | inl missing ↦ absurd (ground arith)
    | inr (from, there) ↦ elim (Option-cases (engine.decode_commit_code tx.extra)) [
      | inl bad ↦ absurd (ground arith)
      | inr (source, decoded) ↦ elim (Bool-cases (ltb max_contract_source_size (length source))) [
        | inl large ↦ absurd (ground arith)
        | inr fits ↦ elim (Bool-cases (length source == 0)) [
          | inl empty ↦ destroy-Reaches s t from tx block_time gas r u g (ground arith)
          | inr code ↦
              elim (Option-cases
                (extract_contract_deps engine.bs58_address engine.imports_of source)) [
                  | inl bad ↦ absurd (ground arith)
                  | inr (deps, resolved) ↦ elim (Bool-cases (all_live t from deps)) [
                    | inl live ↦
                        deploy-Reaches s t from source deps tx block_time gas r u g (ground arith)
                    | inr dead ↦ absurd (ground arith)
                  ]
                ]
        ]
      ]
    ]
  ]

  handle_deploy-Reaches :
      (s t : State) (tx : FullTx) (block_time gas : ℕ)
      → Reach k s t
      → Reaches k engine reveal_hash s (handle_deploy k engine reveal_hash t tx block_time gas)
  unfolding handle_deploy
  handle_deploy-Reaches s t tx block_time gas r u g e =
      elim (Option-cases (check_deploy k engine reveal_hash t tx)) [
        | inr (bad, there) ↦ absurd (ground arith)
        | inl good ↦
            Reaches-and_then k engine reveal_hash s
              (charge_from k engine reveal_hash t tx (total_expenditure tx) gas)
              (λ t' g. change_code k engine reveal_hash t' tx block_time g)
              (charge_from-Reaches k engine reveal_hash s t tx (total_expenditure tx) gas r)
              (λ t' g r'. change_code-Reaches s t' tx block_time g r') u g (ground arith)
      ]

  handle_tx-Reaches :
      (s t : State) (tx : FullTx) (block_time gas : ℕ)
      → Reach k s t
      → Reaches k engine reveal_hash s (handle_tx k engine reveal_hash t tx block_time gas)
  unfolding handle_tx
  handle_tx-Reaches s t tx block_time gas r u g e =
      let before = reveal_and_validate-Reaches k engine reveal_hash s t tx block_time gas r in
      elim (Bool-cases (tx.type == generate_tx)) [
        | inl generate ↦
            handle_generate-Reaches k engine reveal_hash s t tx gas r u g (ground arith)
        | inr effect ↦ elim (Bool-cases (tx.type == transact_tx)) [
          | inl transact ↦
              Reaches-and_then k engine reveal_hash s
                (reveal_and_validate k engine reveal_hash t tx block_time gas)
                (λ t' g. handle_transaction k engine reveal_hash t' tx block_time g) before
                (λ t' g r'. handle_transaction-Reaches k engine reveal_hash s t' tx block_time g r')
                u g (ground arith)
          | inr other ↦ elim (Bool-cases (tx.type == deploy_tx)) [
            | inr unknown ↦ absurd (ground arith)
            | inl is_deploy ↦
                Reaches-and_then k engine reveal_hash s
                  (reveal_and_validate k engine reveal_hash t tx block_time gas)
                  (λ t' g. handle_deploy k engine reveal_hash t' tx block_time g) before
                  (λ t' g r'. handle_deploy-Reaches s t' tx block_time g r') u g (ground arith)
          ]
        ]
      ]

  handle_txs-Reaches :
      (txs : List FullTx) (s t : State) (block_time gas : ℕ)
      → Reach k s t
      → Reaches k engine reveal_hash s (handle_txs k engine reveal_hash t txs block_time gas)
  unfolding handle_txs
  handle_txs-Reaches [] s t block_time gas r u g e = Reach-ok k s t u gas g r e
  handle_txs-Reaches (tx ∷ txs) s t block_time gas r u g e =
      Reaches-and_then k engine reveal_hash s (handle_tx k engine reveal_hash t tx block_time gas)
        (λ t' g. handle_txs k engine reveal_hash t' txs block_time g)
        (handle_tx-Reaches s t tx block_time gas r)
        (λ t' g r'. handle_txs-Reaches txs s t' block_time g r') u g e

  handle_commit-Reaches :
      (s t : State) (c : Commitment) (gas : ℕ)
      → Reach k s t
      → Reaches k engine reveal_hash s (handle_commit k engine reveal_hash t c gas)
  unfolding handle_commit
  handle_commit-Reaches s t c gas r u g e =
      elim (Option-cases (verify_commitment k (key_resolver t) c)) [
        | inr (bad, there) ↦ absurd (ground arith)
        | inl good ↦ elim (Option-cases (commitment_from k c)) [
          | inl missing ↦ absurd (ground arith)
          | inr (from, there) ↦
              elim (Bool-cases (commit_from_pending t.commits from c.hash c.height)) [
                | inl twice ↦ absurd (ground arith)
                | inr fresh ↦ elim (Bool-cases (ltb (get_balance t from) c.fee)) [
                  | inl short ↦ absurd (ground arith)
                  | inr enough ↦
                      let left = get_balance t from - c.fee in
                      let paid = set_balance t from left in
                      let commits = put_commit paid.commits c.height c.hash from in
                      Reach-ok k s (record paid { commits = commits }) u gas g
                        (to_commits (to_balance r from left) commits) (ground arith)
                ]
              ]
        ]
      ]

  handle_commits-Reaches :
      (cs : List Commitment) (s t : State) (gas : ℕ)
      → Reach k s t
      → Reaches k engine reveal_hash s (handle_commits k engine reveal_hash t cs gas)
  unfolding handle_commits
  handle_commits-Reaches [] s t gas r u g e = Reach-ok k s t u gas g r e
  handle_commits-Reaches (c ∷ cs) s t gas r u g e =
      Reaches-and_then k engine reveal_hash s (handle_commit k engine reveal_hash t c gas)
        (λ t' g. handle_commits k engine reveal_hash t' cs g) (handle_commit-Reaches s t c gas r)
        (λ t' g r'. handle_commits-Reaches cs s t' g r') u g e

  -- A state without the recorder that a block has put in it.
  abbrev pub stop_recording : State → State
  stop_recording s = record s { recorder = none }

  -- A block that applies is a sequence of writes under its recorder, which is then taken away.
  pub upgrade-Reach :
      (archive : Bool) (s s' : State) (block : FullBlock) (gas : ℕ)
      → upgrade k engine reveal_hash archive s block ≡ ok s' gas
      → (t : State) × (Reach k (start_recording k engine reveal_hash archive block.height s) t)
        × (s' ≡ stop_recording t)
  unfolding upgrade finish_block
  upgrade-Reach archive s s' block gas e =
      let start = start_recording k engine reveal_hash archive block.height s in
      let (committed, g, first, rest) =
        and_then-ok (handle_commits k engine reveal_hash start block.commits max_block_gas)
          (λ t g.
            and_then (handle_txs k engine reveal_hash t block.txs block.timestamp g)
              (λ u g'. ok (finish_block k engine reveal_hash u block) g'))
          s' gas e in
      let (handled, g', second, last) =
        and_then-ok (handle_txs k engine reveal_hash committed block.txs block.timestamp g)
          (λ u g'. ok (finish_block k engine reveal_hash u block) g') s' gas rest in
      let r =
        handle_commits-Reaches block.commits start start max_block_gas here committed g first in
      let q = handle_txs-Reaches block.txs start committed block.timestamp g r handled g' second in
      let b = update_beacon k.hash256 handled block in
      (
        record b { commits = prune_commits b.commits block.height },
        to_commits (Reach-update_beacon k start handled block q)
            (prune_commits b.commits block.height),
        sym (state-ok (finish_block k engine reveal_hash handled block) s' g' gas last),
      )
