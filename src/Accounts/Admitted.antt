-- ===== src/Accounts/Admitted.antt =====
-- A transfer that the check admits is applied: `CheckTx` against `HandleTxs`.
use ngcore.Base.{
  ℕ, ◌-◌, ◌≡◌, ◌≤◌, ap, ◌∙◌, Option, none, some, length, ltb, inl, inr, Bool-cases, Option-cases,
  arith,
}
use ngcore.Types.{Address, Hash, FullTx, transact_tx, total_expenditure, tx_is_signed}
use ngcore.Maps.{lookup}
use ngcore.Commits.{CommitStore}
use ngcore.Commits.Reveal.{check_reveal, check_reveal-applies}
use ngcore.Envelope.{Crypto, tx_from, verify_tx, tx_max_extra_size}
use ngcore.Accounts.{State, get_balance, set_balance, get_contract, contract_exists, amount_or_zero}
use ngcore.Accounts.Keys.{key_resolver, register_pub_key}
use ngcore.Accounts.Run.{on_tx, Engine, run_contract}
use ngcore.Accounts.Apply.{
  Step, ok, and_then, reveal_step, run_validate, reveal_and_validate, handle_tx, handle_transaction,
  charge_from, verify_and_register, burn, mint, call_recipient,
}
use ngcore.Accounts.Charges.{register_pub_key-balances}
use ngcore.Accounts.Check.{check_tx, check_effect, check_transaction, from_with_balance}

-- A step that ends in a state.
abbrev pub Succeeds : Step → Type 0
Succeeds st = (s' : State) × (gas' : ℕ) × (st ≡ ok s' gas')

and_then-Succeeds :
    (st : Step) (f : State → ℕ → Step) (s : State) (gas : ℕ)
    → st ≡ ok s gas
    → Succeeds (f s gas)
    → Succeeds (and_then st f)
unfolding and_then
and_then-Succeeds st f s gas e (s', gas', out) = (s', gas', ap (λ t. and_then t f) e ∙ out)

module _ (k : Crypto) (engine : Engine) (reveal_hash : FullTx → Hash)
    (encoded_length : FullTx → Option ℕ) where
  call_recipient-Succeeds :
      (s : State) (tx : FullTx) (block_time gas : ℕ)
      → Succeeds (call_recipient k engine reveal_hash s tx block_time gas)
  unfolding call_recipient
  call_recipient-Succeeds s tx block_time gas =
      let ran = run_contract k.hash256 engine s tx.to tx on_tx block_time gas in
      elim (Bool-cases (contract_exists s tx.to)) [
        | inl there ↦ (ran.state, ran.gas, ground arith)
        | inr missing ↦ (s, gas, ground arith)
      ]

  from_with_balance-enough :
      (s : State) (tx : FullTx) (from : Address) (expense : ℕ)
      → tx_from k tx ≡ some from
      → from_with_balance k engine reveal_hash encoded_length s tx expense ≡ none
      → expense ≤ get_balance s from
  unfolding from_with_balance
  from_with_balance-enough s tx from expense sent e =
      elim (Bool-cases (ltb (get_balance s from) expense)) [
        | inl short ↦ absurd (ground arith)
        | inr enough ↦ ground arith
      ]

  balance-register :
      (s : State) (tx : FullTx) (a : Address)
      → get_balance (register_pub_key k s tx) a ≡ get_balance s a
  unfolding get_balance
  balance-register s tx a =
      ap (λ d. amount_or_zero (lookup a d.current)) (register_pub_key-balances k s tx)

  charge_from-Succeeds :
      (s : State) (tx : FullTx) (from : Address) (expense gas : ℕ)
      → tx_from k tx ≡ some from
      → verify_tx k (key_resolver s) tx ≡ none
      → expense ≤ get_balance s from
      → Succeeds (charge_from k engine reveal_hash s tx expense gas)
  unfolding charge_from verify_and_register burn
  charge_from-Succeeds s tx from expense gas sent verified enough =
      let s' = register_pub_key k s tx in
      let same = balance-register s tx from in
      and_then-Succeeds (verify_and_register k engine reveal_hash s tx gas)
        (λ t g. burn k engine reveal_hash t tx expense g) s' gas (ground (arith, verified))
        (
          set_balance s' from (get_balance s' from - expense),
          gas,
          ground (arith, sent, same, enough),
        )

  handle_transaction-Succeeds :
      (s : State) (tx : FullTx) (from : Address) (block_time gas : ℕ)
      → tx_from k tx ≡ some from
      → verify_tx k (key_resolver s) tx ≡ none
      → total_expenditure tx ≤ get_balance s from
      → Succeeds (handle_transaction k engine reveal_hash s tx block_time gas)
  unfolding handle_transaction
  handle_transaction-Succeeds s tx from block_time gas sent verified enough =
      let (mid, g, charged) =
        charge_from-Succeeds s tx from (total_expenditure tx) gas sent verified enough in
      and_then-Succeeds (charge_from k engine reveal_hash s tx (total_expenditure tx) gas)
        (λ t g. call_recipient k engine reveal_hash (mint t tx.to tx.value) tx block_time g) mid g
        charged (call_recipient-Succeeds (mint mid tx.to tx.value) tx block_time g)

  reveal_and_validate-ok :
      (s : State) (tx : FullTx) (from : Address) (block_time gas : ℕ)
      → tx_from k tx ≡ some from
      → get_contract s from ≡ none
      → check_reveal (tx_from k) reveal_hash s.commits tx ≡ none
      → (commits : CommitStore) × (reveal_and_validate k engine reveal_hash s tx block_time gas
          ≡ ok (record s { commits = commits }) gas)
  unfolding reveal_and_validate reveal_step run_validate get_contract and_then
  reveal_and_validate-ok s tx from block_time gas sent no_slot revealed =
      let (commits, there) = check_reveal-applies (tx_from k) reveal_hash s.commits tx revealed in
      (commits, ground (arith, there, sent, no_slot))

  check_tx-parts :
      (s : State) (tx : FullTx)
      → tx.type ≡ transact_tx
      → check_tx k engine reveal_hash encoded_length s tx ≡ none
      → (check_reveal (tx_from k) reveal_hash s.commits tx ≡ none)
        × (verify_tx k (key_resolver s) tx ≡ none)
        × (from_with_balance k engine reveal_hash encoded_length s tx (total_expenditure tx) ≡ none)
  unfolding check_tx check_effect check_transaction
  check_tx-parts s tx type e = elim (Bool-cases (tx_is_signed tx)) [
    | inr unsigned ↦ absurd (ground arith)
    | inl signed ↦ elim (Bool-cases (ltb tx_max_extra_size (length tx.extra))) [
      | inl large ↦ absurd (ground arith)
      | inr fits ↦ elim (Option-cases (check_reveal (tx_from k) reveal_hash s.commits tx)) [
        | inr (bad, there) ↦ absurd (ground (arith, type))
        | inl revealed ↦ elim (Option-cases (verify_tx k (key_resolver s) tx)) [
          | inr (bad, there) ↦ absurd (ground (arith, type))
          | inl verified ↦ (revealed, verified, ground (arith, type))
        ]
      ]
    ]
  ]

  -- A transfer that the check admits against a state is applied to that state, whatever gas is left,
  -- where its sender has no contract, whose policy could refuse it.
  pub check_tx-handle_tx :
      (s : State) (tx : FullTx) (from : Address) (block_time gas : ℕ)
      → tx.type ≡ transact_tx
      → tx_from k tx ≡ some from
      → get_contract s from ≡ none
      → check_tx k engine reveal_hash encoded_length s tx ≡ none
      → Succeeds (handle_tx k engine reveal_hash s tx block_time gas)
  unfolding handle_tx
  check_tx-handle_tx s tx from block_time gas type sent no_slot checked =
      let (revealed, verified, funded) = check_tx-parts s tx type checked in
      let (commits, before) =
        reveal_and_validate-ok s tx from block_time gas sent no_slot revealed in
      let s' = record s { commits = commits } in
      let (t, g, out) =
        and_then-Succeeds (reveal_and_validate k engine reveal_hash s tx block_time gas)
          (λ t g. handle_transaction k engine reveal_hash t tx block_time g) s' gas before
          (handle_transaction-Succeeds s' tx from block_time gas sent verified
            (from_with_balance-enough s tx from (total_expenditure tx) sent funded)) in
      (t, g, ground (arith, type, out))
