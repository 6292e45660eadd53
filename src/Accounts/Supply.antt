-- ===== src/Accounts/Supply.antt =====
-- The coins over a block: what the handlers mint and burn, and nothing else.
use ngcore.Base.{
  ℕ, ◌+◌, ◌-◌, ◌%◌, ◌^◌, ◌≡◌, refl, sym, ap, ◌∙◌, subst, Option, none, some, List, [], ◌∷◌, All,
  ltb, leb, ◌==◌, inl, inr, Bool-cases, Option-cases, arith, if◌then◌else◌,
}
use ngcore.Forks.{is_fork_active, fork_state_rent}
use ngcore.Types.{Address, Hash, Bytes, FullTx}
use ngcore.Maps.{Map, lookup, insert}
use ngcore.Maps.Laws.{insert-Distinct}
use ngcore.Maps.Weigh.{weigh, flush_over}
use ngcore.Accounts.{State, Contract, storage_deposit_escrow, set_contract, get_contract, is_live}
use ngcore.Accounts.Journal.{
  VmJournal, new_vm_journal, HostOp, run_ops, flush_balances, flush_accounts, flush,
}
use ngcore.Accounts.Effects.{coins, supply, pending_supply, IsJournal, moved-supply}
use ngcore.Accounts.Moves.{
  Move, touch, pay, bond, free, Moves, done, more, executing, run_ops-Moves,
}
use ngcore.Accounts.Flush.{flush_balances-parts, balances-set_contract}
use ngcore.Accounts.Deps.{pin_deps, release_deps, set_ref_count}
use ngcore.Accounts.Run.{Entry, Engine, finish_run, run_contract}

-- Any address.
abbrev Anyone : Address → Type 0
Anyone a = Unit

everyone : (ops : List HostOp) → All (λ op. Anyone (executing op)) ops
everyone [] = tt
everyone (op ∷ ops) = (tt, everyone ops)

module _ (s : State) where
  -- The journal's maps have no repeated key, and its coins are those of the state.
  record Kept (j : VmJournal) : Type 0 where
    pub formed : IsJournal j
    pub kept : pending_supply s j ≡ supply s

  written-Kept :
      (j paid j' : VmJournal) (a : Address) (c : Contract)
      → Kept j
      → IsJournal paid × (pending_supply s paid ≡ pending_supply s j)
      → j'.balances ≡ paid.balances
      → j'.accounts ≡ insert a c j.accounts
      → Kept j'
  written-Kept j paid j' a c ok paid_ok balances accounts = record {
    formed = record {
      one_balance = rw balances paid_ok.0.one_balance;
      one_account = rw accounts (insert-Distinct a c j.accounts ok.formed.one_account);
    };
    kept =
        ap (λ (m : Map ℕ). weigh coins (flush_over m s.balances.current)) balances
        ∙ paid_ok.1
        ∙ ok.kept;
  }

  Move-Kept : (j j' : VmJournal) → Kept j → Move s Anyone j j' → Kept j'
  Move-Kept j j' ok (touch a c c' work same balances accounts) =
      written-Kept j j j' a c' ok (ok.formed, refl) balances accounts
  Move-Kept j j' ok (pay from to v g le out) =
      let (formed, supplied) = moved-supply s j from to v ok.formed le in
      subst (λ (k : VmJournal). Kept k) out record { formed = formed; kept = supplied ∙ ok.kept }
  Move-Kept j j' ok (bond a c c' v g le work same balances accounts) =
      written-Kept j _ j' a c' ok (moved-supply s j a storage_deposit_escrow v ok.formed le)
        balances accounts
  Move-Kept j j' ok (free a c c' v g le locked work same balances accounts) =
      written-Kept j _ j' a c' ok (moved-supply s j storage_deposit_escrow a v ok.formed le)
        balances accounts

  Moves-Kept : (j j' : VmJournal) → Kept j → Moves s Anyone j j' → Kept j'
  Moves-Kept j _ ok done = ok
  Moves-Kept j j' ok (more {mid} ms m) = Move-Kept mid j' (Moves-Kept j mid ok ms) m

  fresh-Kept : (self : Contract) → Kept (new_vm_journal self)
  unfolding new_vm_journal flush_over lookup
  fresh-Kept self = record {
    formed = record { one_balance = tt; one_account = (refl, tt) };
    kept = refl;
  }

module _ (hash256 : Bytes → Hash) where
  balances-flush_accounts :
      (over : Map Contract) (s : State) → (flush_accounts hash256 over s).balances ≡ s.balances
  unfolding flush_accounts
  balances-flush_accounts [] s = refl
  balances-flush_accounts ((a, c) ∷ over) s =
      balances-flush_accounts over (set_contract hash256 s c) ∙ balances-set_contract hash256 s c

  supply-flush : (s : State) (j : VmJournal) → Kept s j → supply (flush hash256 j s) ≡ supply s
  unfolding flush
  supply-flush s j ok =
      let (values, slots) = flush_balances-parts j.balances s in
      ap (λ d. weigh coins d.current)
        (balances-flush_accounts j.accounts (flush_balances j.balances s))
      ∙ ap (weigh coins) values
      ∙ ok.kept

  supply-finish_run :
      (engine : Engine) (s : State) (account : Contract) (tx : FullTx)
      (calls : Option (List HostOp)) (gas : ℕ)
      → supply (finish_run hash256 engine s account tx calls gas).state ≡ supply s
  unfolding finish_run
  supply-finish_run engine s account tx none gas = refl
  supply-finish_run engine s account tx (some ops) gas =
      let rent = is_fork_active tx.network fork_state_rent tx.height in
      elim (Option-cases (run_ops s rent (new_vm_journal account) ops)) [
        | inl trap ↦ ground (arith, trap)
        | inr (j, ran) ↦
            let ok =
              Moves-Kept s (new_vm_journal account) j (fresh-Kept s account)
                (run_ops-Moves s Anyone rent ops (new_vm_journal account) j ran (everyone ops)) in
            ground (arith, ran, supply-flush s j ok)
      ]

  -- Whatever a contract call does, ended, trapped or refused, the coins are as many as before.
  pub supply-run_contract :
      (engine : Engine) (s : State) (a : Address) (tx : FullTx) (entry : Entry) (block_time gas : ℕ)
      → supply (run_contract hash256 engine s a tx entry block_time gas).state ≡ supply s
  unfolding run_contract
  supply-run_contract engine s a tx entry block_time gas = elim (Option-cases (get_contract s a)) [
    | inl missing ↦ ground arith
    | inr (account, there) ↦ elim (Bool-cases (is_live account)) [
      | inr dormant ↦ ground arith
      | inl live ↦ elim (Bool-cases (gas == 0)) [
        | inl drained ↦ ground arith
        | inr left ↦
            let called = engine.run s account tx block_time entry gas in
            let spent = if leb gas called.gas_used then 0 else gas - called.gas_used in
            ground (arith, supply-finish_run engine s account tx called.calls spent)
      ]
    ]
  ]

  pub supply-set_contract :
      (s : State) (c : Contract) → supply (set_contract hash256 s c) ≡ supply s
  supply-set_contract s c = ap (λ d. weigh coins d.current) (balances-set_contract hash256 s c)

  pub supply-pin_deps :
      (deps : List Address) (s s' : State)
      → pin_deps hash256 s deps ≡ some s'
      → supply s' ≡ supply s
  unfolding pin_deps
  supply-pin_deps [] s s' e = let same : s ≡ s' = cc in ap (λ (t : State). supply t) (sym same)
  supply-pin_deps (a ∷ rest) s s' e = elim (Option-cases (get_contract s a)) [
    | inl missing ↦ absurd (ground arith)
    | inr (c, there) ↦
        let pinned = set_contract hash256 s (set_ref_count c ((c.context.refs + 1) % 2 ^ 64)) in
        supply-pin_deps rest pinned s' (ground arith)
        ∙ supply-set_contract s (set_ref_count c ((c.context.refs + 1) % 2 ^ 64))
  ]

  pub supply-release_deps :
      (deps : List Address) (s s' : State)
      → release_deps hash256 s deps ≡ some s'
      → supply s' ≡ supply s
  unfolding release_deps
  supply-release_deps [] s s' e = let same : s ≡ s' = cc in ap (λ (t : State). supply t) (sym same)
  supply-release_deps (a ∷ rest) s s' e = elim (Option-cases (get_contract s a)) [
    | inl missing ↦ absurd (ground arith)
    | inr (c, there) ↦ elim (Bool-cases (ltb 0 c.context.refs)) [
      | inr unreferenced ↦ supply-release_deps rest s s' (ground arith)
      | inl referenced ↦
          let released = set_contract hash256 s (set_ref_count c (c.context.refs - 1)) in
          supply-release_deps rest released s' (ground arith)
          ∙ supply-set_contract s (set_ref_count c (c.context.refs - 1))
    ]
  ]
