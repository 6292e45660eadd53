-- ===== src/Accounts/Moves.antt =====
-- The moves that a run is made of: the host functions as steps of a relation on journals.
use ngcore.Base.{
  ℕ, ◌+◌, ◌-◌, ◌≡◌, ◌≤◌, refl, sym, ap, ◌∙◌, subst, Bool, Option, none, some, List, [], ◌∷◌, All,
  ltb, ◌==◌, ==_self, length, inl, inr, Bool-cases, Option-cases, arith,
}
use ngcore.Types.{Address, Bytes}
use ngcore.Maps.{Map, lookup, insert}
use ngcore.Accounts.{State, Contract, get_contract, storage_deposit_escrow}
use ngcore.Accounts.Journal.{
  VmJournal, contract_of, balance_of, pay_into, transfer, with_context, set_locked_deposit,
  lock_deposit, refund_deposit, refund_pay, move_deposit, put_entries, kv_set_op, kv_del_op, HostOp,
  load, coin_transfer, kv_set, kv_del, host_step, run_ops, deposit_for, ctx_set, ctx_del, ctx_get,
  entry_size, is_reserved_key,
}
use ngcore.Accounts.Effects.{moved, transfer-moved}

insert-insert :
    (a : ℕ) (x y : Contract) (m : Map Contract) → insert a x (insert a y m) ≡ insert a x m
unfolding insert
insert-insert a x y [] = ground (arith, ==_self a)
insert-insert a x y ((b, z) ∷ m) = ground (arith, ==_self a, insert-insert a x y m)

insert-same : (a : ℕ) (x : Contract) (m : Map Contract) → lookup a m ≡ some x → insert a x m ≡ m
unfolding insert lookup
insert-same a x [] e = cc
insert-same a x ((b, z) ∷ m) e = elim (Bool-cases (b == a)) [
  | inl same ↦ ground arith
  | inr other ↦ ground (arith, insert-same a x m)
]

some-injective : (p q : Contract × VmJournal) → some p ≡ some q → (p.0 ≡ q.0) × (p.1 ≡ q.1)
some-injective p q e =
    let same : p ≡ q = cc in
    (ap (λ (k : Contract × VmJournal). k.0) same, ap (λ (k : Contract × VmJournal). k.1) same)

-- The address whose code makes the call.
abbrev pub executing : HostOp → Address
executing (load a) = a
executing (coin_transfer cur to value) = cur
executing (kv_set cur key value) = cur
executing (kv_del cur key) = cur

module _ (s : State) where
  -- The contract of an address as the run sees it.
  abbrev pub working : VmJournal → Address → Option Contract
  working j a = elim (lookup a j.accounts) [ none ↦ get_contract s a | some c ↦ some c ]

  -- The contract keeps its code, and its locked deposit becomes `rent`.
  abbrev pub Rewritten : Contract → Contract → ℕ → Type 0
  Rewritten c c' rent = (c'.owner ≡ c.owner) × (c'.source ≡ c.source) × (c'.context.rent ≡ rent)

-- `Guard` is what is known of an address that executes.
module _ (s : State) (Guard : Address → Type 0) where
  pub data Move (j j' : VmJournal) : Type 0 where
    -- A working copy is loaded, or its entries written.
    touch :
        (a : Address) (c c' : Contract)
        → working s j a ≡ some c
        → Rewritten s c c' c.context.rent
        → j'.balances ≡ j.balances
        → j'.accounts ≡ insert a c' j.accounts
        → Move j j'
    -- A contract pays.
    pay :
        (from to : Address) (v : ℕ)
        → Guard from
        → v ≤ balance_of s j from
        → moved s j from to v ≡ j'
        → Move j j'
    -- A contract locks a deposit.
    bond :
        (a : Address) (c c' : Contract) (v : ℕ)
        → Guard a
        → v ≤ balance_of s j a
        → working s j a ≡ some c
        → Rewritten s c c' (c.context.rent + v)
        → j'.balances ≡ (moved s j a storage_deposit_escrow v).balances
        → j'.accounts ≡ insert a c' j.accounts
        → Move j j'
    -- A contract is paid back from its locked deposit.
    free :
        (a : Address) (c c' : Contract) (v : ℕ)
        → Guard a
        → v ≤ balance_of s j storage_deposit_escrow
        → v ≤ c.context.rent
        → working s j a ≡ some c
        → Rewritten s c c' (c.context.rent - v)
        → j'.balances ≡ (moved s j storage_deposit_escrow a v).balances
        → j'.accounts ≡ insert a c' j.accounts
        → Move j j'

  pub data Moves (j : VmJournal) : VmJournal → Type 0 where
    done : Moves j j
    more : {mid j' : VmJournal} → Moves j mid → Move mid j' → Moves j j'

  Moves-trans : (j mid j' : VmJournal) → Moves j mid → Moves mid j' → Moves j j'
  Moves-trans j mid _ ms done = ms
  Moves-trans j mid _ ms (more ns n) = more (Moves-trans j mid _ ms ns) n

  abbrev with_accounts : VmJournal → Map Contract → VmJournal
  with_accounts j m = record j { accounts = m }

  -- The journal that a load leaves.
  abbrev with_account : VmJournal → Address → Contract → VmJournal
  with_account j a c = with_accounts j (insert a c j.accounts)

  contract_of-kept :
      (j : VmJournal) (a : Address) (c : Contract)
      → lookup a j.accounts ≡ some c
      → contract_of s j a ≡ some (c, j)
  unfolding contract_of
  contract_of-kept j a c e = ground arith

  contract_of-fresh :
      (j : VmJournal) (a : Address) (c : Contract)
      → lookup a j.accounts ≡ none
      → get_contract s a ≡ some c
      → contract_of s j a ≡ some (c, with_account j a c)
  unfolding contract_of
  contract_of-fresh j a c e g = ground arith

  contract_of-missing :
      (j : VmJournal) (a : Address)
      → lookup a j.accounts ≡ none
      → get_contract s a ≡ none
      → contract_of s j a ≡ none
  unfolding contract_of
  contract_of-missing j a e g = ground arith

  contract_of-loaded :
      (j j' : VmJournal) (a : Address) (c : Contract)
      → contract_of s j a ≡ some (c, j')
      → (working s j a ≡ some c) × (with_account j a c ≡ j')
  contract_of-loaded j j' a c e = elim (Option-cases (lookup a j.accounts)) [
    | inr (kept, there) ↦
        let (p, q) = some-injective (kept, j) (c, j') (sym (contract_of-kept j a kept there) ∙ e) in
        (
          ground arith,
          ap (λ (m : Map Contract). with_accounts j m)
                (insert-same a c j.accounts (there ∙ ap some p))
              ∙ q,
        )
    | inl missing ↦ elim (Option-cases (get_contract s a)) [
      | inl no_slot ↦ cc (sym (contract_of-missing j a missing no_slot) ∙ e)
      | inr (kept, there) ↦
          let (p, q) =
            some-injective (kept, with_account j a kept) (c, j')
              (sym (contract_of-fresh j a kept missing there) ∙ e) in
          (ground arith, ap (with_account j a) (sym p) ∙ q)
    ]
  ]

  put_entries-touch :
      (j j' : VmJournal) (a : Address) (f : List (Bytes × Bytes) → List (Bytes × Bytes))
      → put_entries s j a f ≡ some j'
      → Move j j'
  unfolding put_entries with_context
  put_entries-touch j j' a f e = elim (Option-cases (contract_of s j a)) [
    | inl missing ↦ absurd (ground (arith, missing))
    | inr ((c, mid), there) ↦
        let (work, loaded) = contract_of-loaded j mid a c there in
        let c' : Contract = record c {
          context = record c.context { entries = f c.context.entries };
        } in
        let out : with_account mid a c' ≡ j' = ground arith in
        touch a c c' work (refl, refl, refl)
          (sym (ap (λ (k : VmJournal). k.balances) (ap (λ k. with_account k a c') loaded ∙ out)))
          (sym (ap (λ (k : VmJournal). k.accounts) (ap (λ k. with_account k a c') loaded ∙ out))
            ∙ insert-insert a c' c j.accounts)
  ]

  load-touch :
      (j j' : VmJournal) (a : Address) (c : Contract) → contract_of s j a ≡ some (c, j') → Move j j'
  load-touch j j' a c e =
      let (work, loaded) = contract_of-loaded j j' a c e in
      touch a c c work (refl, refl, refl) (sym (ap (λ (k : VmJournal). k.balances) loaded))
        (sym (ap (λ (k : VmJournal). k.accounts) loaded))

  stay : (j j' : VmJournal) → j ≡ j' → Moves j j'
  stay j j' e = subst (λ (k : VmJournal). Moves j k) e done

  once : (j j' : VmJournal) → Move j j' → Moves j j'
  once j j' m = more done m

  -- A working copy is loaded and its deposit set, after the coins have moved.
  set_locked-written :
      (j paid j1 j' : VmJournal) (a : Address) (c : Contract) (rent : ℕ)
      → paid.accounts ≡ j.accounts
      → contract_of s paid a ≡ some (c, j1)
      → set_locked_deposit s j1 a c rent ≡ j'
      → (working s j a ≡ some c)
        × (j'.balances ≡ paid.balances)
        × (j'.accounts
            ≡ insert a (record c { context = record c.context { rent = rent } }) j.accounts)
  unfolding set_locked_deposit with_context
  set_locked-written j paid j1 j' a c rent same there out =
      let (work, loaded) = contract_of-loaded paid j1 a c there in
      let c' : Contract = record c { context = record c.context { rent = rent } } in
      let out' : with_account j1 a c' ≡ j' = out in
      let whole = ap (λ k. with_account k a c') loaded ∙ out' in
      (
        ap (λ (m : Map Contract). elim (lookup a m) [ none ↦ get_contract s a | some d ↦ some d ])
              (sym same)
            ∙ work,
        sym (ap (λ (k : VmJournal). k.balances) whole),
        sym (ap (λ (k : VmJournal). k.accounts) whole)
            ∙ insert-insert a c' c paid.accounts
            ∙ ap (insert a c') same,
      )

  lock_deposit-Moves :
      (j j' : VmJournal) (a : Address) (v : ℕ)
      → lock_deposit s j a v ≡ some j'
      → Guard a
      → Moves j j'
  unfolding lock_deposit pay_into
  lock_deposit-Moves j j' a v e ne = elim (Bool-cases (v == 0)) [
    | inl zero ↦ stay j j' (ground arith)
    | inr some_coins ↦ elim (Option-cases (transfer s j a storage_deposit_escrow v)) [
      | inl refused ↦ absurd (ground arith)
      | inr (paid, transferred) ↦ elim (Option-cases (contract_of s paid a)) [
        | inl missing ↦ absurd (ground arith)
        | inr ((c, j1), there) ↦
            let (le, shape) = transfer-moved s j paid a storage_deposit_escrow v transferred in
            let out : set_locked_deposit s j1 a c (c.context.rent + v) ≡ j' = ground arith in
            let kept : paid.accounts ≡ j.accounts =
              ap (λ (k : VmJournal). k.accounts) (sym shape) in
            let (work, balances, accounts) =
              set_locked-written j paid j1 j' a c (c.context.rent + v) kept there out in
            once j j' (
              bond a c (record c { context = record c.context { rent = c.context.rent + v } }) v ne
                le work (refl, refl, refl)
                (balances ∙ ap (λ (k : VmJournal). k.balances) (sym shape)) accounts)
      ]
    ]
  ]

  refund_pay-bounds :
      (amount locked bal : ℕ)
      → (refund_pay s amount locked bal ≤ locked)
        × (refund_pay s amount locked bal ≤ bal)
        × (refund_pay s amount locked bal ≤ amount)
  unfolding refund_pay
  refund_pay-bounds amount locked bal = ground arith

  refund_deposit-Moves :
      (j j' : VmJournal) (a : Address) (amount : ℕ)
      → refund_deposit s j a amount ≡ some j'
      → Guard a
      → Moves j j'
  unfolding refund_deposit pay_into balance_of set_locked_deposit with_context
  refund_deposit-Moves j j' a amount e ne = elim (Bool-cases (amount == 0)) [
    | inl zero ↦ stay j j' (ground arith)
    | inr some_coins ↦ elim (Option-cases (contract_of s j a)) [
      | inl missing ↦ absurd (ground arith)
      | inr ((c, j1), there) ↦
          let (work, loaded) = contract_of-loaded j j1 a c there in
          let pay = refund_pay s amount c.context.rent (balance_of s j1 storage_deposit_escrow) in
          let (le_locked, le_bal, le_amount) =
            refund_pay-bounds amount c.context.rent (balance_of s j1 storage_deposit_escrow) in
          elim (Bool-cases (pay == 0)) [
            | inl nothing ↦ once j j' (load-touch j j' a c (there ∙ ground arith))
            | inr coins ↦ elim (Option-cases (transfer s j1 storage_deposit_escrow a pay)) [
              | inl refused ↦ once j j' (load-touch j j' a c (there ∙ ground arith))
              | inr (paid, transferred) ↦
                  let (le, shape) =
                    transfer-moved s j1 paid storage_deposit_escrow a pay transferred in
                  let c' : Contract = record c {
                    context = record c.context { rent = c.context.rent - pay };
                  } in
                  let out : with_account paid a c' ≡ j' = ground arith in
                  let same : balance_of s j1 storage_deposit_escrow
                      ≡ balance_of s j storage_deposit_escrow =
                    ap (λ k. balance_of s k storage_deposit_escrow) (sym loaded) in
                  let accounts : paid.accounts ≡ insert a c j.accounts =
                    ap (λ (k : VmJournal). k.accounts) (sym shape)
                    ∙ ap (λ (k : VmJournal). k.accounts) (sym loaded) in
                  once j j' (
                    free a c c' pay ne (omega (arith, le, same)) le_locked work (refl, refl, refl)
                      (sym (ap (λ (k : VmJournal). k.balances) out)
                        ∙ ap (λ (k : VmJournal). k.balances) (sym shape)
                        ∙ ap (λ k. (moved s k storage_deposit_escrow a pay).balances) (sym loaded))
                      (sym (ap (λ (k : VmJournal). k.accounts) out)
                        ∙ ap (insert a c') accounts
                        ∙ insert-insert a c' c j.accounts))
            ]
          ]
    ]
  ]

  move_deposit-Moves :
      (j j' : VmJournal) (a : Address) (old new : ℕ)
      → move_deposit s j a old new ≡ some j'
      → Guard a
      → Moves j j'
  unfolding move_deposit
  move_deposit-Moves j j' a old new e ne = elim (Bool-cases (ltb old new)) [
    | inl grow ↦ lock_deposit-Moves j j' a (deposit_for (new - old)) (ground arith) ne
    | inr not_grow ↦ elim (Bool-cases (ltb new old)) [
      | inl shrink ↦ refund_deposit-Moves j j' a (deposit_for (old - new)) (ground arith) ne
      | inr level ↦ stay j j' (ground arith)
    ]
  ]

  -- A load, the deposit of a write, and the write.
  deposit_write-Moves :
      (j j1 j2 j' : VmJournal) (a : Address) (c : Contract) (old new : ℕ)
      (f : List (Bytes × Bytes) → List (Bytes × Bytes))
      → contract_of s j a ≡ some (c, j1)
      → move_deposit s j1 a old new ≡ some j2
      → put_entries s j2 a f ≡ some j'
      → Guard a
      → Moves j j'
  deposit_write-Moves j j1 j2 j' a c old new f loaded charged wrote ne =
      more
        (Moves-trans j j1 j2 (once j j1 (load-touch j j1 a c loaded))
          (move_deposit-Moves j1 j2 a old new charged ne))
        (put_entries-touch j2 j' a f wrote)

  kv_set_op-Moves :
      (rent : Bool) (j j' : VmJournal) (a : Address) (key value : Bytes)
      → kv_set_op s rent j a key value ≡ some j'
      → Guard a
      → Moves j j'
  unfolding kv_set_op
  kv_set_op-Moves rent j j' a key value e ne = elim (Bool-cases (is_reserved_key key)) [
    | inl reserved ↦ absurd (ground arith)
    | inr free_key ↦ elim (Bool-cases rent) [
      | inr before ↦ once j j' (put_entries-touch j j' a (ctx_set key value) (ground arith))
      | inl active ↦ elim (Option-cases (contract_of s j a)) [
        | inl missing ↦ absurd (ground arith)
        | inr ((c, j1), there) ↦
            let old = entry_size key (ctx_get key c.context.entries) in
            let new = length key + length value in
            elim (Option-cases (move_deposit s j1 a old new)) [
              | inl short ↦ absurd (ground arith)
              | inr (j2, charged) ↦
                  deposit_write-Moves j j1 j2 j' a c old new (ctx_set key value) there charged
                    (ground arith) ne
            ]
      ]
    ]
  ]

  kv_del_op-Moves :
      (rent : Bool) (j j' : VmJournal) (a : Address) (key : Bytes)
      → kv_del_op s rent j a key ≡ some j'
      → Guard a
      → Moves j j'
  unfolding kv_del_op
  kv_del_op-Moves rent j j' a key e ne = elim (Bool-cases (is_reserved_key key)) [
    | inl reserved ↦ absurd (ground arith)
    | inr free_key ↦ elim (Bool-cases rent) [
      | inr before ↦ once j j' (put_entries-touch j j' a (ctx_del key) (ground arith))
      | inl active ↦ elim (Option-cases (contract_of s j a)) [
        | inl missing ↦ absurd (ground arith)
        | inr ((c, j1), there) ↦
            let old = entry_size key (ctx_get key c.context.entries) in
            elim (Option-cases (move_deposit s j1 a old 0)) [
              | inl short ↦ absurd (ground arith)
              | inr (j2, charged) ↦
                  deposit_write-Moves j j1 j2 j' a c old 0 (ctx_del key) there charged
                    (ground arith) ne
            ]
      ]
    ]
  ]

  host_step-Moves :
      (rent : Bool) (j j' : VmJournal) (op : HostOp)
      → host_step s rent j op ≡ some j'
      → Guard (executing op)
      → Moves j j'
  unfolding host_step
  host_step-Moves rent j j' (load a) e ne = elim (Option-cases (contract_of s j a)) [
    | inl missing ↦ absurd (ground arith)
    | inr ((c, j1), there) ↦ once j j' (load-touch j j' a c (there ∙ ground arith))
  ]
  host_step-Moves rent j j' (coin_transfer cur to v) e ne =
      elim (Option-cases (transfer s j cur to v)) [
        | inl refused ↦ stay j j' (ground arith)
        | inr (paid, there) ↦
            let (le, shape) = transfer-moved s j paid cur to v there in
            once j j' (pay cur to v ne le (shape ∙ ground arith))
      ]
  host_step-Moves rent j j' (kv_set cur key value) e ne =
      kv_set_op-Moves rent j j' cur key value e ne
  host_step-Moves rent j j' (kv_del cur key) e ne = kv_del_op-Moves rent j j' cur key e ne

  -- A run that does not trap, none of whose frames is the escrow, is a sequence of moves.
  pub run_ops-Moves :
      (rent : Bool) (ops : List HostOp) (j j' : VmJournal)
      → run_ops s rent j ops ≡ some j'
      → All (λ op. Guard (executing op)) ops
      → Moves j j'
  unfolding run_ops
  run_ops-Moves rent [] j j' e all = stay j j' (ground arith)
  run_ops-Moves rent (op ∷ ops) j j' e all = elim (Option-cases (host_step s rent j op)) [
    | inl trap ↦ absurd (ground arith)
    | inr (mid, there) ↦
        Moves-trans j mid j' (host_step-Moves rent j mid op there all.0)
          (run_ops-Moves rent ops mid j' (ground arith) all.1)
  ]
