-- ===== src/Accounts/Reach.antt =====
-- Every handler of a block is a sequence of a few kinds of write, so what those writes keep, a block
-- keeps.
use ngcore.Base.{
  ℕ, ◌+◌, ◌-◌, ◌%◌, ◌^◌, ◌≡◌, subst, Option, none, some, List, [], ◌∷◌, length, take, drop, ltb,
  leb, ◌==◌, inl, inr, Bool-cases, Option-cases, arith, if◌then◌else◌,
}
use ngcore.Forks.{is_fork_active, fork_state_rent, fork_random_beacon}
use ngcore.Types.{Address, Hash, Bytes, FullTx, FullBlock}
use ngcore.Maps.{Map}
use ngcore.Commits.{CommitStore}
use ngcore.Envelope.{Crypto, pub_key_size, sig_size}
use ngcore.Accounts.{
  State, Contract, ContractContext, storage_deposit_escrow, get_balance, set_balance, get_contract,
  set_contract, del_contract, is_live,
}
use ngcore.Accounts.Keys.{put_key, register_pub_key, is_compact_envelope, envelope_scheme}
use ngcore.Accounts.Beacon.{update_beacon, set_beacon, next_seed, get_beacon}
use ngcore.Accounts.Journal.{
  VmJournal, new_vm_journal, HostOp, run_ops, flush_balances, flush_accounts, flush,
}
use ngcore.Accounts.Deps.{pin_deps, release_deps, set_ref_count}
use ngcore.Accounts.Run.{Entry, Engine, finish_run, run_contract}
use ngcore.Accounts.Charges.{state-ok}
use ngcore.Accounts.Apply.{ok, refund_contract_deposit}

module _ (k : Crypto) where
  -- The states that writes lead to.
  pub data Reach (s : State) : State → Type 0 where
    here : Reach s s
    to_balance : {t : State} → Reach s t → (a : Address) (n : ℕ) → Reach s (set_balance t a n)
    to_slot : {t : State} → Reach s t → (c : Contract) → Reach s (set_contract k.hash256 t c)
    to_no_slot : {t : State} → Reach s t → (a : Address) → Reach s (del_contract t a)
    to_key : {t : State} → Reach s t → (scheme : ℕ) (key : Bytes) → Reach s (put_key k t scheme key)
    to_commits :
        {t : State} → Reach s t → (commits : CommitStore) → Reach s (record t { commits = commits })
    to_beacon : {t : State} → Reach s t → (seed : Hash) → Reach s (set_beacon t seed)

  pub Reach-trans : (s t u : State) → Reach s t → Reach t u → Reach s u
  Reach-trans s t _ r here = r
  Reach-trans s t _ r (to_balance q a n) = to_balance (Reach-trans s t _ r q) a n
  Reach-trans s t _ r (to_slot q c) = to_slot (Reach-trans s t _ r q) c
  Reach-trans s t _ r (to_no_slot q a) = to_no_slot (Reach-trans s t _ r q) a
  Reach-trans s t _ r (to_key q scheme key) = to_key (Reach-trans s t _ r q) scheme key
  Reach-trans s t _ r (to_commits q commits) = to_commits (Reach-trans s t _ r q) commits
  Reach-trans s t _ r (to_beacon q seed) = to_beacon (Reach-trans s t _ r q) seed

  pub Reach-same : (s t u : State) → Reach s t → t ≡ u → Reach s u
  Reach-same s t u r e = subst (λ (v : State). Reach s v) e r

  pub Reach-ok : (s t u : State) (g g' : ℕ) → Reach s t → ok t g ≡ ok u g' → Reach s u
  Reach-ok s t u g g' r e = Reach-same s t u r (state-ok t u g g' e)

  Reach-flush_balances : (over : Map ℕ) (s t : State) → Reach s t → Reach s (flush_balances over t)
  unfolding flush_balances
  Reach-flush_balances [] s t r = r
  Reach-flush_balances ((a, n) ∷ over) s t r =
      Reach-flush_balances over s (set_balance t a n) (to_balance r a n)

  Reach-flush_accounts :
      (over : Map Contract) (s t : State) → Reach s t → Reach s (flush_accounts k.hash256 over t)
  unfolding flush_accounts
  Reach-flush_accounts [] s t r = r
  Reach-flush_accounts ((a, c) ∷ over) s t r =
      Reach-flush_accounts over s (set_contract k.hash256 t c) (to_slot r c)

  Reach-flush : (j : VmJournal) (s : State) → Reach s (flush k.hash256 j s)
  unfolding flush
  Reach-flush j s =
      Reach-flush_accounts j.accounts s (flush_balances j.balances s)
        (Reach-flush_balances j.balances s s here)

  Reach-finish_run :
      (engine : Engine) (s : State) (account : Contract) (tx : FullTx)
      (calls : Option (List HostOp)) (gas : ℕ)
      → Reach s (finish_run k.hash256 engine s account tx calls gas).state
  unfolding finish_run
  Reach-finish_run engine s account tx none gas = here
  Reach-finish_run engine s account tx (some ops) gas =
      let rent = is_fork_active tx.network fork_state_rent tx.height in
      elim (Option-cases (run_ops s rent (new_vm_journal account) ops)) [
        | inl trap ↦ Reach-same s s _ here (ground (arith, trap))
        | inr (j, ran) ↦
            Reach-same s (flush k.hash256 j s) _ (Reach-flush j s) (ground (arith, ran))
      ]

  pub Reach-run_contract :
      (engine : Engine) (s : State) (a : Address) (tx : FullTx) (entry : Entry) (block_time gas : ℕ)
      → Reach s (run_contract k.hash256 engine s a tx entry block_time gas).state
  unfolding run_contract
  Reach-run_contract engine s a tx entry block_time gas = elim (Option-cases (get_contract s a)) [
    | inl missing ↦ Reach-same s s _ here (ground arith)
    | inr (account, there) ↦ elim (Bool-cases (is_live account)) [
      | inr dormant ↦ Reach-same s s _ here (ground arith)
      | inl live ↦ elim (Bool-cases (gas == 0)) [
        | inl drained ↦ Reach-same s s _ here (ground arith)
        | inr left ↦
            let called = engine.run s account tx block_time entry gas in
            let spent = if leb gas called.gas_used then 0 else gas - called.gas_used in
            Reach-same s (finish_run k.hash256 engine s account tx called.calls spent).state _
              (Reach-finish_run engine s account tx called.calls spent) (ground arith)
      ]
    ]
  ]

  pub Reach-pin_deps :
      (deps : List Address) (s t u : State)
      → Reach s t
      → pin_deps k.hash256 t deps ≡ some u
      → Reach s u
  unfolding pin_deps
  Reach-pin_deps [] s t u r e = let same : t ≡ u = cc in Reach-same s t u r same
  Reach-pin_deps (a ∷ rest) s t u r e = elim (Option-cases (get_contract t a)) [
    | inl missing ↦ absurd (ground arith)
    | inr (c, there) ↦
        let c' = set_ref_count c ((c.context.refs + 1) % 2 ^ 64) in
        Reach-pin_deps rest s (set_contract k.hash256 t c') u (to_slot r c') (ground arith)
  ]

  pub Reach-release_deps :
      (deps : List Address) (s t u : State)
      → Reach s t
      → release_deps k.hash256 t deps ≡ some u
      → Reach s u
  unfolding release_deps
  Reach-release_deps [] s t u r e = let same : t ≡ u = cc in Reach-same s t u r same
  Reach-release_deps (a ∷ rest) s t u r e = elim (Option-cases (get_contract t a)) [
    | inl missing ↦ absurd (ground arith)
    | inr (c, there) ↦ elim (Bool-cases (ltb 0 c.context.refs)) [
      | inr unreferenced ↦ Reach-release_deps rest s t u r (ground arith)
      | inl referenced ↦
          let c' = set_ref_count c (c.context.refs - 1) in
          Reach-release_deps rest s (set_contract k.hash256 t c') u (to_slot r c') (ground arith)
    ]
  ]

  pub Reach-refund_contract_deposit :
      (s t : State) (a : Address) (ctx : ContractContext)
      → Reach s t
      → Reach s (refund_contract_deposit t a ctx)
  unfolding refund_contract_deposit
  Reach-refund_contract_deposit s t a ctx r =
      let bal = get_balance t storage_deposit_escrow in
      let pay = if ltb bal ctx.rent then bal else ctx.rent in
      let t' = set_balance t storage_deposit_escrow (bal - pay) in
      let paid = set_balance t' a (get_balance t' a + pay) in
      let moved =
        to_balance (to_balance r storage_deposit_escrow (bal - pay)) a (get_balance t' a + pay) in
      elim (Bool-cases (ctx.rent == 0)) [
        | inl unlocked ↦ Reach-same s t _ r (ground arith)
        | inr locked ↦ elim (Bool-cases (pay == 0)) [
          | inl nothing ↦ Reach-same s t _ r (ground arith)
          | inr coin ↦ Reach-same s paid _ moved (ground arith)
        ]
      ]

  pub Reach-register_pub_key :
      (s t : State) (tx : FullTx) → Reach s t → Reach s (register_pub_key k t tx)
  unfolding register_pub_key
  Reach-register_pub_key s t tx r =
      let scheme = envelope_scheme tx.sign in
      let size = pub_key_size k scheme in
      let key = take size (drop 2 tx.sign) in
      elim (Bool-cases (is_compact_envelope tx)) [
        | inl compact ↦ Reach-same s t _ r (ground arith)
        | inr other ↦ elim (Bool-cases (size == 0)) [
          | inl unknown ↦ Reach-same s t _ r (ground arith)
          | inr known ↦ elim (Bool-cases (length tx.sign == 2 + size + sig_size k scheme)) [
            | inr wrong ↦ Reach-same s t _ r (ground arith)
            | inl fits ↦
                Reach-same s (put_key k t scheme key) _ (to_key r scheme key) (ground arith)
          ]
        ]
      ]

  pub Reach-update_beacon :
      (s t : State) (block : FullBlock) → Reach s t → Reach s (update_beacon k.hash256 t block)
  unfolding update_beacon
  Reach-update_beacon s t block r =
      let seed = next_seed k.hash256 (get_beacon t) block in
      elim (Bool-cases (is_fork_active block.network fork_random_beacon block.height)) [
        | inr before ↦ Reach-same s t _ r (ground arith)
        | inl active ↦ elim (Bool-cases (block.height == 0)) [
          | inl genesis ↦ Reach-same s t _ r (ground arith)
          | inr later ↦ Reach-same s (set_beacon t seed) _ (to_beacon r seed) (ground arith)
        ]
      ]
