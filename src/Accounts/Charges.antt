-- ===== src/Accounts/Charges.antt =====
-- What the handlers of generates and transfers make of the coins, and the validation before them.
use ngcore.Base.{
  ℕ, ◌+◌, ◌-◌, ◌≡◌, ◌≤◌, refl, sym, ap, ◌∙◌, length, take, drop, ltb, ◌==◌, inl, inr, Bool-cases,
  Option-cases, arith, if◌then◌else◌,
}
use ngcore.Types.{Address, Hash, Bytes, FullTx, total_expenditure}
use ngcore.Maps.{lookup}
use ngcore.Maps.Weigh.{weigh}
use ngcore.Commits.Reveal.{Reveal, applied, refused, consume_reveal}
use ngcore.Envelope.{Crypto, pub_key_size, address_of_pub_key, tx_from, verify_tx}
use ngcore.Accounts.{
  State, ContractContext, storage_deposit_escrow, get_balance, set_balance, get_contract,
  contract_exists, is_live,
}
use ngcore.Accounts.Effects.{coins, supply, supply-set_balance}
use ngcore.Accounts.Keys.{key_resolver, put_key, register_pub_key, envelope_scheme}
use ngcore.Accounts.Run.{on_tx, on_validate, Engine, run_contract}
use ngcore.Accounts.Supply.{supply-run_contract}
use ngcore.Accounts.Apply.{
  Step, ok, err, bad_reveal, and_then, refund_contract_deposit, reveal_step, run_validate,
  verify_and_register, mint, handle_generate, burn, charge_from, call_recipient, handle_transaction,
  reveal_and_validate,
}

pub and_then-ok :
    (st : Step) (f : State → ℕ → Step) (s' : State) (gas' : ℕ)
    → and_then st f ≡ ok s' gas'
    → (mid : State) × (gas : ℕ) × (st ≡ ok mid gas) × (f mid gas ≡ ok s' gas')
unfolding and_then
and_then-ok (ok mid gas) f s' gas' e = (mid, gas, refl, e)
and_then-ok (err x) f s' gas' e = absurd (ground arith)

pub state-ok : (s s' : State) (g g' : ℕ) → ok s g ≡ ok s' g' → s ≡ s'
state-ok s s' g g' e = cc

pub supply-ok : (s s' : State) (g g' : ℕ) → ok s g ≡ ok s' g' → supply s' ≡ supply s
supply-ok s s' g g' e = ap (λ (t : State). supply t) (sym (state-ok s s' g g' e))

pub supply-refund_contract_deposit :
    (s : State) (a : Address) (ctx : ContractContext)
    → supply (refund_contract_deposit s a ctx) ≡ supply s
unfolding refund_contract_deposit
supply-refund_contract_deposit s a ctx =
    let bal = get_balance s storage_deposit_escrow in
    let pay = if ltb bal ctx.rent then bal else ctx.rent in
    let s' = set_balance s storage_deposit_escrow (bal - pay) in
    let out = supply-set_balance s storage_deposit_escrow (bal - pay) in
    let back = supply-set_balance s' a (get_balance s' a + pay) in
    let le : pay ≤ bal = ground arith in
    let sum : supply (set_balance s' a (get_balance s' a + pay)) ≡ supply s =
      omega (arith, out, back, le) in
    elim (Bool-cases (ctx.rent == 0)) [
      | inl unlocked ↦ ground arith
      | inr locked ↦ elim (Bool-cases (pay == 0)) [
        | inl nothing ↦ ground arith
        | inr coin ↦ ground (arith, sum)
      ]
    ]

pub supply-mint : (s : State) (a : Address) (n : ℕ) → supply (mint s a n) ≡ supply s + n
unfolding mint
supply-mint s a n = omega (arith, supply-set_balance s a (get_balance s a + n))

module _ (k : Crypto) where
  pub put_key-balances :
      (s : State) (scheme : ℕ) (key : Bytes) → (put_key k s scheme key).balances ≡ s.balances
  unfolding put_key
  put_key-balances s scheme key =
      elim (Option-cases (lookup (address_of_pub_key k scheme key) s.keys.current)) [
        | inl e ↦ ground arith
        | inr (entry, e) ↦ ground arith
      ]

  pub register_pub_key-balances :
      (s : State) (tx : FullTx) → (register_pub_key k s tx).balances ≡ s.balances
  unfolding register_pub_key
  register_pub_key-balances s tx =
      let scheme = envelope_scheme tx.sign in
      let size = pub_key_size k scheme in
      ground (arith, put_key-balances s scheme (take size (drop 2 tx.sign)))

pub revealed-supply :
    (s s' : State) (gas gas' : ℕ) (r : Reveal)
    → elim r [
      | applied commits ↦ ok (record s { commits = commits }) gas
      | refused e ↦ err (bad_reveal e)
    ]
      ≡ ok s' gas'
    → supply s' ≡ supply s
revealed-supply s s' gas gas' (applied commits) e =
    supply-ok (record s { commits = commits }) s' gas gas' e
revealed-supply s s' gas gas' (refused x) e = absurd (ground arith)

module _ (k : Crypto) (engine : Engine) (reveal_hash : FullTx → Hash) where
  pub verify_and_register-balances :
      (s s' : State) (tx : FullTx) (gas gas' : ℕ)
      → verify_and_register k engine reveal_hash s tx gas ≡ ok s' gas'
      → s'.balances ≡ s.balances
  unfolding verify_and_register
  verify_and_register-balances s s' tx gas gas' e =
      elim (Option-cases (verify_tx k (key_resolver s) tx)) [
        | inr (bad, there) ↦ absurd (ground arith)
        | inl good ↦
            let same = state-ok (register_pub_key k s tx) s' gas gas' (ground arith) in
            ap (λ (t : State). t.balances) (sym same) ∙ register_pub_key-balances k s tx
      ]

  pub supply-verify_and_register :
      (s s' : State) (tx : FullTx) (gas gas' : ℕ)
      → verify_and_register k engine reveal_hash s tx gas ≡ ok s' gas'
      → supply s' ≡ supply s
  supply-verify_and_register s s' tx gas gas' e =
      ap (λ d. weigh coins d.current) (verify_and_register-balances s s' tx gas gas' e)

  pub supply-handle_generate :
      (s s' : State) (tx : FullTx) (gas gas' : ℕ)
      → handle_generate k engine reveal_hash s tx gas ≡ ok s' gas'
      → supply s' ≡ supply s + tx.value
  unfolding handle_generate
  supply-handle_generate s s' tx gas gas' e =
      let (mid, g, checked, out) =
        and_then-ok
          (if length tx.sign == 0
            then ok s gas
            else verify_and_register k engine reveal_hash s tx gas)
          (λ t g. ok (mint t tx.to tx.value) g) s' gas' e in
      let minted = supply-ok (mint mid tx.to tx.value) s' g gas' out in
      let kept : supply mid ≡ supply s = elim (Bool-cases (length tx.sign == 0)) [
        | inl unsigned ↦ supply-ok s mid gas g (ground arith)
        | inr signed ↦ supply-verify_and_register s mid tx gas g (ground arith)
      ] in
      omega (arith, minted, kept, supply-mint mid tx.to tx.value)

  pub supply-burn :
      (s s' : State) (tx : FullTx) (expense gas gas' : ℕ)
      → burn k engine reveal_hash s tx expense gas ≡ ok s' gas'
      → supply s' + expense ≡ supply s
  unfolding burn
  supply-burn s s' tx expense gas gas' e = elim (Option-cases (tx_from k tx)) [
    | inl missing ↦ absurd (ground arith)
    | inr (from, there) ↦ elim (Bool-cases (ltb (get_balance s from) expense)) [
      | inl short ↦ absurd (ground arith)
      | inr enough ↦
          let left = get_balance s from - expense in
          let same = supply-ok (set_balance s from left) s' gas gas' (ground arith) in
          let le : expense ≤ get_balance s from = ground arith in
          omega (arith, same, le, supply-set_balance s from left)
    ]
  ]

  pub supply-charge_from :
      (s s' : State) (tx : FullTx) (expense gas gas' : ℕ)
      → charge_from k engine reveal_hash s tx expense gas ≡ ok s' gas'
      → supply s' + expense ≡ supply s
  unfolding charge_from
  supply-charge_from s s' tx expense gas gas' e =
      let (mid, g, checked, out) =
        and_then-ok (verify_and_register k engine reveal_hash s tx gas)
          (λ t g. burn k engine reveal_hash t tx expense g) s' gas' e in
      omega (
        arith,
        supply-verify_and_register s mid tx gas g checked,
        supply-burn mid s' tx expense g gas' out,
      )

  pub supply-call_recipient :
      (s s' : State) (tx : FullTx) (block_time gas gas' : ℕ)
      → call_recipient k engine reveal_hash s tx block_time gas ≡ ok s' gas'
      → supply s' ≡ supply s
  unfolding call_recipient
  supply-call_recipient s s' tx block_time gas gas' e =
      let ran = run_contract k.hash256 engine s tx.to tx on_tx block_time gas in
      elim (Bool-cases (contract_exists s tx.to)) [
        | inl there ↦
            supply-ok ran.state s' ran.gas gas' (ground arith)
            ∙ supply-run_contract k.hash256 engine s tx.to tx on_tx block_time gas
        | inr missing ↦ supply-ok s s' gas gas' (ground arith)
      ]

  pub supply-handle_transaction :
      (s s' : State) (tx : FullTx) (block_time gas gas' : ℕ)
      → handle_transaction k engine reveal_hash s tx block_time gas ≡ ok s' gas'
      → supply s' + tx.fee ≡ supply s
  unfolding handle_transaction total_expenditure
  supply-handle_transaction s s' tx block_time gas gas' e =
      let (mid, g, charged, out) =
        and_then-ok (charge_from k engine reveal_hash s tx (total_expenditure tx) gas)
          (λ t g. call_recipient k engine reveal_hash (mint t tx.to tx.value) tx block_time g) s'
          gas' e in
      omega (
        arith,
        supply-charge_from s mid tx (total_expenditure tx) gas g charged,
        supply-mint mid tx.to tx.value,
        supply-call_recipient (mint mid tx.to tx.value) s' tx block_time g gas' out,
      )

  pub supply-reveal_step :
      (s s' : State) (tx : FullTx) (gas gas' : ℕ)
      → reveal_step k engine reveal_hash s tx gas ≡ ok s' gas'
      → supply s' ≡ supply s
  unfolding reveal_step
  supply-reveal_step s s' tx gas gas' e =
      revealed-supply s s' gas gas' (consume_reveal (tx_from k) reveal_hash s.commits tx) e

  pub supply-run_validate :
      (s s' : State) (tx : FullTx) (block_time gas gas' : ℕ)
      → run_validate k engine reveal_hash s tx block_time gas ≡ ok s' gas'
      → supply s' ≡ supply s
  unfolding run_validate
  supply-run_validate s s' tx block_time gas gas' e = elim (Option-cases (tx_from k tx)) [
    | inl missing ↦ absurd (ground arith)
    | inr (from, there) ↦ elim (Option-cases (get_contract s from)) [
      | inl no_slot ↦ supply-ok s s' gas gas' (ground arith)
      | inr (account, slot) ↦ elim (Bool-cases (is_live account)) [
        | inr dormant ↦ supply-ok s s' gas gas' (ground arith)
        | inl live ↦ elim (Bool-cases (engine.has_export account.source on_validate)) [
          | inr no_policy ↦ supply-ok s s' gas gas' (ground arith)
          | inl policy ↦
              let ran = run_contract k.hash256 engine s from tx on_validate block_time gas in
              elim (Bool-cases ran.ok) [
                | inr vetoed ↦ absurd (ground arith)
                | inl permitted ↦
                    supply-ok ran.state s' ran.gas gas' (ground arith)
                    ∙ supply-run_contract k.hash256 engine s from tx on_validate block_time gas
              ]
        ]
      ]
    ]
  ]

  pub supply-reveal_and_validate :
      (s s' : State) (tx : FullTx) (block_time gas gas' : ℕ)
      → reveal_and_validate k engine reveal_hash s tx block_time gas ≡ ok s' gas'
      → supply s' ≡ supply s
  unfolding reveal_and_validate
  supply-reveal_and_validate s s' tx block_time gas gas' e =
      let (mid, g, revealed, out) =
        and_then-ok (reveal_step k engine reveal_hash s tx gas)
          (λ t g. run_validate k engine reveal_hash t tx block_time g) s' gas' e in
      supply-run_validate mid s' tx block_time g gas' out
      ∙ supply-reveal_step s mid tx gas g revealed
