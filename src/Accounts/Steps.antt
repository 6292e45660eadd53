-- ===== src/Accounts/Steps.antt =====
-- The handlers of a block as sequences of writes.
use ngcore.Base.{
  ℕ, ◌+◌, ◌-◌, ◌≡◌, subst, length, ltb, ◌==◌, inl, inr, Bool-cases, Option-cases, arith,
  if◌then◌else◌,
}
use ngcore.Types.{Hash, FullTx, total_expenditure}
use ngcore.Commits.Reveal.{Reveal, applied, refused, consume_reveal}
use ngcore.Envelope.{Crypto, tx_from, verify_tx}
use ngcore.Accounts.{State, get_balance, set_balance, get_contract, contract_exists, is_live}
use ngcore.Accounts.Keys.{key_resolver, register_pub_key}
use ngcore.Accounts.Run.{on_tx, on_validate, Engine, run_contract}
use ngcore.Accounts.Charges.{and_then-ok}
use ngcore.Accounts.Apply.{
  Step, ok, err, bad_reveal, and_then, reveal_step, run_validate, verify_and_register, mint,
  handle_generate, burn, charge_from, call_recipient, handle_transaction, reveal_and_validate,
}
use ngcore.Accounts.Reach.{
  Reach, to_balance, to_commits, Reach-trans, Reach-ok, Reach-run_contract, Reach-register_pub_key,
}

module _ (k : Crypto) (engine : Engine) (reveal_hash : FullTx → Hash) where
  -- A step that, where it ends in a state, has reached it by writes from `s`.
  abbrev pub Reaches : State → Step → Type 0
  Reaches s st = (u : State) (g : ℕ) → st ≡ ok u g → Reach k s u

  pub Reaches-ok : (s t : State) (g : ℕ) → Reach k s t → Reaches s (ok t g)
  Reaches-ok s t g r u g' e = Reach-ok k s t u g g' r e

  pub Reaches-and_then :
      (s : State) (st : Step) (f : State → ℕ → Step)
      → Reaches s st
      → ((t : State) (g : ℕ) → Reach k s t → Reaches s (f t g))
      → Reaches s (and_then st f)
  Reaches-and_then s st f first next u g e =
      let (mid, g', e1, e2) = and_then-ok st f u g e in next mid g' (first mid g' e1) u g e2

  pub Reaches-same : (s : State) (st st' : Step) → Reaches s st → st ≡ st' → Reaches s st'
  Reaches-same s st st' r e = subst (λ (x : Step). Reaches s x) e r

  verify_and_register-Reaches :
      (s t : State) (tx : FullTx) (gas : ℕ)
      → Reach k s t
      → Reaches s (verify_and_register k engine reveal_hash t tx gas)
  unfolding verify_and_register
  verify_and_register-Reaches s t tx gas r u g e =
      elim (Option-cases (verify_tx k (key_resolver t) tx)) [
        | inr (bad, there) ↦ absurd (ground arith)
        | inl good ↦
            Reach-ok k s (register_pub_key k t tx) u gas g (Reach-register_pub_key k s t tx r)
              (ground arith)
      ]

  pub handle_generate-Reaches :
      (s t : State) (tx : FullTx) (gas : ℕ)
      → Reach k s t
      → Reaches s (handle_generate k engine reveal_hash t tx gas)
  unfolding handle_generate mint
  handle_generate-Reaches s t tx gas r =
      let signed : Reaches s (
          if length tx.sign == 0
          then ok t gas
          else verify_and_register k engine reveal_hash t tx gas) =
        elim (Bool-cases (length tx.sign == 0)) [
          | inl unsigned ↦ Reaches-same s (ok t gas) _ (Reaches-ok s t gas r) (ground arith)
          | inr signature ↦
              Reaches-same s (verify_and_register k engine reveal_hash t tx gas) _
                (verify_and_register-Reaches s t tx gas r) (ground arith)
        ] in
      Reaches-and_then s
        (if length tx.sign == 0
          then ok t gas
          else verify_and_register k engine reveal_hash t tx gas)
        (λ t' g. ok (mint t' tx.to tx.value) g) signed
        (λ t' g r'.
          Reaches-ok s (mint t' tx.to tx.value) g
            (to_balance r' tx.to (get_balance t' tx.to + tx.value)))

  burn-Reaches :
      (s t : State) (tx : FullTx) (expense gas : ℕ)
      → Reach k s t
      → Reaches s (burn k engine reveal_hash t tx expense gas)
  unfolding burn
  burn-Reaches s t tx expense gas r u g e = elim (Option-cases (tx_from k tx)) [
    | inl missing ↦ absurd (ground arith)
    | inr (from, there) ↦ elim (Bool-cases (ltb (get_balance t from) expense)) [
      | inl short ↦ absurd (ground arith)
      | inr enough ↦
          let left = get_balance t from - expense in
          Reach-ok k s (set_balance t from left) u gas g (to_balance r from left) (ground arith)
    ]
  ]

  pub charge_from-Reaches :
      (s t : State) (tx : FullTx) (expense gas : ℕ)
      → Reach k s t
      → Reaches s (charge_from k engine reveal_hash t tx expense gas)
  unfolding charge_from
  charge_from-Reaches s t tx expense gas r =
      Reaches-and_then s (verify_and_register k engine reveal_hash t tx gas)
        (λ t' g. burn k engine reveal_hash t' tx expense g)
        (verify_and_register-Reaches s t tx gas r) (λ t' g r'. burn-Reaches s t' tx expense g r')

  call_recipient-Reaches :
      (s t : State) (tx : FullTx) (block_time gas : ℕ)
      → Reach k s t
      → Reaches s (call_recipient k engine reveal_hash t tx block_time gas)
  unfolding call_recipient
  call_recipient-Reaches s t tx block_time gas r u g e =
      let ran = run_contract k.hash256 engine t tx.to tx on_tx block_time gas in
      elim (Bool-cases (contract_exists t tx.to)) [
        | inl there ↦
            Reach-ok k s ran.state u ran.gas g
              (Reach-trans k s t ran.state r
                (Reach-run_contract k engine t tx.to tx on_tx block_time gas))
              (ground arith)
        | inr missing ↦ Reach-ok k s t u gas g r (ground arith)
      ]

  pub handle_transaction-Reaches :
      (s t : State) (tx : FullTx) (block_time gas : ℕ)
      → Reach k s t
      → Reaches s (handle_transaction k engine reveal_hash t tx block_time gas)
  unfolding handle_transaction mint
  handle_transaction-Reaches s t tx block_time gas r =
      Reaches-and_then s (charge_from k engine reveal_hash t tx (total_expenditure tx) gas)
        (λ t' g. call_recipient k engine reveal_hash (mint t' tx.to tx.value) tx block_time g)
        (charge_from-Reaches s t tx (total_expenditure tx) gas r)
        (λ t' g r'.
          call_recipient-Reaches s (mint t' tx.to tx.value) tx block_time g
            (to_balance r' tx.to (get_balance t' tx.to + tx.value)))

  revealed-Reaches :
      (s t : State) (gas : ℕ) (revealed : Reveal)
      → Reach k s t
      → Reaches s (elim revealed [
        | applied commits ↦ ok (record t { commits = commits }) gas
        | refused e ↦ err (bad_reveal e)
      ])
  revealed-Reaches s t gas (applied commits) r u g e =
      Reaches-ok s (record t { commits = commits }) gas (to_commits r commits) u g e
  revealed-Reaches s t gas (refused x) r u g e = absurd (ground arith)

  reveal_step-Reaches :
      (s t : State) (tx : FullTx) (gas : ℕ)
      → Reach k s t
      → Reaches s (reveal_step k engine reveal_hash t tx gas)
  unfolding reveal_step
  reveal_step-Reaches s t tx gas r =
      revealed-Reaches s t gas (consume_reveal (tx_from k) reveal_hash t.commits tx) r

  run_validate-Reaches :
      (s t : State) (tx : FullTx) (block_time gas : ℕ)
      → Reach k s t
      → Reaches s (run_validate k engine reveal_hash t tx block_time gas)
  unfolding run_validate
  run_validate-Reaches s t tx block_time gas r u g e = elim (Option-cases (tx_from k tx)) [
    | inl missing ↦ absurd (ground arith)
    | inr (from, there) ↦ elim (Option-cases (get_contract t from)) [
      | inl no_slot ↦ Reach-ok k s t u gas g r (ground arith)
      | inr (account, slot) ↦ elim (Bool-cases (is_live account)) [
        | inr dormant ↦ Reach-ok k s t u gas g r (ground arith)
        | inl live ↦ elim (Bool-cases (engine.has_export account.source on_validate)) [
          | inr no_policy ↦ Reach-ok k s t u gas g r (ground arith)
          | inl policy ↦
              let ran = run_contract k.hash256 engine t from tx on_validate block_time gas in
              elim (Bool-cases ran.ok) [
                | inr vetoed ↦ absurd (ground arith)
                | inl permitted ↦
                    Reach-ok k s ran.state u ran.gas g
                      (Reach-trans k s t ran.state r
                        (Reach-run_contract k engine t from tx on_validate block_time gas))
                      (ground arith)
              ]
        ]
      ]
    ]
  ]

  pub reveal_and_validate-Reaches :
      (s t : State) (tx : FullTx) (block_time gas : ℕ)
      → Reach k s t
      → Reaches s (reveal_and_validate k engine reveal_hash t tx block_time gas)
  unfolding reveal_and_validate
  reveal_and_validate-Reaches s t tx block_time gas r =
      Reaches-and_then s (reveal_step k engine reveal_hash t tx gas)
        (λ t' g. run_validate k engine reveal_hash t' tx block_time g)
        (reveal_step-Reaches s t tx gas r) (λ t' g r'. run_validate-Reaches s t' tx block_time g r')
