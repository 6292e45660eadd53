-- ===== src/Accounts/Journal.antt =====
-- The journal of one contract execution (ngstate/journal.go), the deposits on stored bytes
-- (ngstate/rent.go) and the host functions that change state (ngstate/imports_kv.go and
-- ngstate/imports_coin.go). A trap of a host function is `none`: the run fails, its journal dropped.
-- `cur` is the executing address, the top of the call frames.
use ngcore.Base.{
  ℕ, suc, ◌+◌, ◌-◌, ◌*◌, ◌^◌, Bool, false, not, ◌&&◌, Option, none, some, List, [], ◌∷◌, ltb, ◌==◌,
  length, bytes_eq, if◌then◌else◌,
}
use ngcore.Types.{Address, Hash, Bytes}
use ngcore.Maps.{Map, lookup, insert}
use ngcore.Accounts.{
  State, Contract, ContractContext, storage_deposit_escrow, get_balance, set_balance, get_contract,
  set_contract,
}

pub record VmJournal : Type 0 where
  -- The working copies of the contracts that the run has touched.
  pub accounts : Map Contract
  -- The pending balance of an address.
  pub balances : Map ℕ

-- `newVMJournal`
unfoldable pub new_vm_journal : Contract → VmJournal
new_vm_journal self = record { accounts = (self.owner, self) ∷ []; balances = [] }

-- The entries of a context (ngtypes/contract_context.go). Their order, which only the encoding shows,
-- is left out.
unfoldable pub ctx_get : Bytes → List (Bytes × Bytes) → Option Bytes
ctx_get key [] = none
ctx_get key ((k, v) ∷ es) = if bytes_eq k key then some v else ctx_get key es

unfoldable pub ctx_set : Bytes → Bytes → List (Bytes × Bytes) → List (Bytes × Bytes)
ctx_set key value [] = (key, value) ∷ []
ctx_set key value ((k, v) ∷ es) =
    let rest = ctx_set key value es in if bytes_eq k key then (k, value) ∷ es else (k, v) ∷ rest

unfoldable pub ctx_del : Bytes → List (Bytes × Bytes) → List (Bytes × Bytes)
ctx_del key [] = []
ctx_del key ((k, v) ∷ es) =
    let rest = ctx_del key es in if bytes_eq k key then rest else (k, v) ∷ rest

-- `isReservedKey`: 95 is '_' and 32 the size of an address.
unfoldable pub is_reserved_key : Bytes → Bool
is_reserved_key [] = false
is_reserved_key (c ∷ cs) = c == 95 && not (suc (length cs) == 32)

abbrev pub deposit_per_byte : ℕ
deposit_per_byte = 10 ^ 12

-- `depositFor`
unfoldable pub deposit_for : ℕ → ℕ
deposit_for bytes = deposit_per_byte * bytes

-- The bytes that an entry owes the bond for; an absent key owes nothing.
unfoldable pub entry_size : Bytes → Option Bytes → ℕ
entry_size key none = 0
entry_size key (some value) = length key + length value

pub data HostOp : Type 0 where
  -- A context read, which loads the working copy.
  load : Address → HostOp
  coin_transfer : Address → Address → ℕ → HostOp
  kv_set : Address → Bytes → Bytes → HostOp
  kv_del : Address → Bytes → HostOp

module _ (s : State) where
  -- `contractOf`
  unfoldable pub contract_of : VmJournal → Address → Option (Contract × VmJournal)
  unfolding get_contract
  contract_of j a = elim (lookup a j.accounts) [
    | some acc ↦ some (acc, j)
    | none ↦ elim (get_contract s a) [
      | none ↦ none
      | some loaded ↦ some (loaded, record j { accounts = insert a loaded j.accounts })
    ]
  ]

  -- `balanceOf`
  unfoldable pub balance_of : VmJournal → Address → ℕ
  unfolding get_balance
  balance_of j a = elim (lookup a j.balances) [ none ↦ get_balance s a | some n ↦ n ]

  unfoldable pub pay_into : VmJournal → Address → ℕ → VmJournal
  pay_into j a n = record j { balances = insert a n j.balances }

  -- `transfer`
  unfoldable pub transfer : VmJournal → Address → Address → ℕ → Option VmJournal
  unfolding balance_of pay_into
  transfer j from to value =
      if ltb (balance_of j from) value
      then none
      else let j' = pay_into j from (balance_of j from - value) in
        some (pay_into j' to (balance_of j' to + value))

  -- The working copy of an address, written with a new context.
  unfoldable pub with_context : VmJournal → Address → Contract → ContractContext → VmJournal
  with_context j a c ctx = record j { accounts = insert a (record c { context = ctx }) j.accounts }

  -- `setLockedDeposit` on the working copy of the executing address.
  unfoldable pub set_locked_deposit : VmJournal → Address → Contract → ℕ → VmJournal
  unfolding with_context
  set_locked_deposit j cur c amount = with_context j cur c (record c.context { rent = amount })

  -- `lockDeposit`
  unfoldable pub lock_deposit : VmJournal → Address → ℕ → Option VmJournal
  unfolding transfer contract_of set_locked_deposit
  lock_deposit j cur amount =
      if amount == 0 then some j else elim (transfer j cur storage_deposit_escrow amount) [
        | none ↦ none
        | some paid ↦ elim (contract_of paid cur) [
          | none ↦ none
          | some (c, j') ↦ some (set_locked_deposit j' cur c (c.context.rent + amount))
        ]
      ]

  -- What a refund pays: no more than is asked, than the contract has locked, and than the escrow has.
  unfoldable pub refund_pay : ℕ → ℕ → ℕ → ℕ
  refund_pay amount locked escrow_bal =
      let pay = if ltb locked amount then locked else amount in
      if ltb escrow_bal pay then escrow_bal else pay

  -- `refundDeposit`
  unfoldable pub refund_deposit : VmJournal → Address → ℕ → Option VmJournal
  unfolding transfer contract_of set_locked_deposit refund_pay balance_of
  refund_deposit j cur amount = if amount == 0 then some j else elim (contract_of j cur) [
    | none ↦ none
    | some (c, j') ↦
        let pay = refund_pay amount c.context.rent (balance_of j' storage_deposit_escrow) in
        if pay == 0 then some j' else elim (transfer j' storage_deposit_escrow cur pay) [
          | none ↦ some j'
          | some paid ↦ some (set_locked_deposit paid cur c (c.context.rent - pay))
        ]
  ]

  -- The deposit that a write moves: from `old` bytes to `new` bytes.
  unfoldable pub move_deposit : VmJournal → Address → ℕ → ℕ → Option VmJournal
  unfolding lock_deposit refund_deposit deposit_for
  move_deposit j cur old new =
      if ltb old new
      then lock_deposit j cur (deposit_for (new - old))
      else if ltb new old
      then refund_deposit j cur (deposit_for (old - new))
      else some j

  -- `vmContext(vm)`, written with new entries.
  unfoldable pub put_entries :
      VmJournal → Address → (List (Bytes × Bytes) → List (Bytes × Bytes)) → Option VmJournal
  unfolding contract_of with_context
  put_entries j cur f = elim (contract_of j cur) [
    | none ↦ none
    | some (c, j') ↦
        some (with_context j' cur c (record c.context { entries = f c.context.entries }))
  ]

  -- The host function `kv.set`; `rent` says whether the fork of the storage deposit is active.
  unfoldable pub kv_set_op : Bool → VmJournal → Address → Bytes → Bytes → Option VmJournal
  unfolding is_reserved_key move_deposit put_entries contract_of entry_size ctx_get ctx_set
  kv_set_op rent j cur key value =
      if is_reserved_key key
      then none
      else if rent
      then elim (contract_of j cur) [
        | none ↦ none
        | some (c, j') ↦
            elim (move_deposit j' cur (entry_size key (ctx_get key c.context.entries))
              (length key + length value)) [
                | none ↦ none
                | some moved ↦ put_entries moved cur (ctx_set key value)
              ]
      ]
      else put_entries j cur (ctx_set key value)

  -- The host function `kv.del`.
  unfoldable pub kv_del_op : Bool → VmJournal → Address → Bytes → Option VmJournal
  unfolding is_reserved_key move_deposit put_entries contract_of entry_size ctx_get ctx_del
  kv_del_op rent j cur key =
      if is_reserved_key key
      then none
      else if rent
      then elim (contract_of j cur) [
        | none ↦ none
        | some (c, j') ↦
            elim (move_deposit j' cur (entry_size key (ctx_get key c.context.entries)) 0) [
              | none ↦ none
              | some moved ↦ put_entries moved cur (ctx_del key)
            ]
      ]
      else put_entries j cur (ctx_del key)

  -- One host function of a run. A transfer that is refused answers 0 to the contract, and the run
  -- goes on.
  unfoldable pub host_step : Bool → VmJournal → HostOp → Option VmJournal
  unfolding kv_set_op kv_del_op transfer contract_of
  host_step rent j (load a) = elim (contract_of j a) [ none ↦ none | some (c, j') ↦ some j' ]
  host_step rent j (coin_transfer cur to value) = elim (transfer j cur to value) [
    | none ↦ some j
    | some j' ↦ some j'
  ]
  host_step rent j (kv_set cur key value) = kv_set_op rent j cur key value
  host_step rent j (kv_del cur key) = kv_del_op rent j cur key

  unfoldable pub run_ops : Bool → VmJournal → List HostOp → Option VmJournal
  unfolding host_step
  run_ops rent j [] = some j
  run_ops rent j (op ∷ ops) = elim (host_step rent j op) [
    | none ↦ none
    | some j' ↦ run_ops rent j' ops
  ]

unfoldable pub flush_balances : Map ℕ → State → State
unfolding set_balance
flush_balances [] s = s
flush_balances ((a, n) ∷ rest) s = flush_balances rest (set_balance s a n)

module _ (hash256 : Bytes → Hash) where
  unfoldable pub flush_accounts : Map Contract → State → State
  unfolding set_contract
  flush_accounts [] s = s
  flush_accounts ((a, c) ∷ rest) s = flush_accounts rest (set_contract hash256 s c)

  -- `flush`
  unfoldable pub flush : VmJournal → State → State
  unfolding flush_balances flush_accounts
  flush j s = flush_accounts j.accounts (flush_balances j.balances s)
