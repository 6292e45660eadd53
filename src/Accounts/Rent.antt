-- ===== src/Accounts/Rent.antt =====
-- The storage deposits against the escrow (ngstate/rent.go): what a run may do with them.
use ngcore.Base.{
  ℕ, ◌+◌, ◌-◌, ◌≡◌, ◌≢◌, ◌≤◌, refl, sym, ap, ◌∙◌, subst, false, none, some, All, ◌==◌, ==_self, inl,
  inr, Bool-cases, Option-cases, arith, if◌then◌else◌,
}
use ngcore.Types.{Address}
use ngcore.Maps.{Map, lookup, insert}
use ngcore.Maps.Laws.{insert-Distinct}
use ngcore.Maps.Weigh.{flush_over, seen, weigh, worth, weigh-write_over}
use ngcore.Maps.Values.{
  map_values, lookup-map_values, map_values-insert, map_values-Distinct, All-insert, All-lookup,
}
use ngcore.Accounts.{
  State, Contract, StoredContract, get_balance, get_contract, decode_stored_contract,
  storage_deposit_escrow,
}
use ngcore.Accounts.Journal.{VmJournal, balance_of, pay_into}
use ngcore.Accounts.Effects.{
  coins, supply, pending_supply, IsJournal, moved, moved-supply, balance-pay_into,
}
use ngcore.Accounts.Moves.{Move, touch, pay, bond, free, Moves, done, more, working, Rewritten}

abbrev pub stored_rent : StoredContract → ℕ
stored_rent stored = stored.context.rent

abbrev pub rent_of : Contract → ℕ
rent_of c = c.context.rent

-- An address that is not the escrow, which no key hashes to, so that no contract stands at it.
abbrev pub NotEscrow : Address → Type 0
NotEscrow a = a ≢ storage_deposit_escrow

-- The deposits that the slots have locked.
abbrev pub deposited : State → ℕ
deposited s = weigh coins (map_values stored_rent s.slots.current)

-- Every slot stands under its owner.
abbrev pub IsOwned : State → Type 0
IsOwned s = All (λ (e : ℕ × StoredContract). e.1.owner ≡ e.0) s.slots.current

abbrev pub OwnsAccounts : VmJournal → Type 0
OwnsAccounts j = All (λ (e : ℕ × Contract). e.1.owner ≡ e.0) j.accounts

module _ (s : State) where
  -- The deposits as the run sees them.
  abbrev pub pending_rents : VmJournal → ℕ
  pending_rents j =
      weigh coins
        (flush_over (map_values rent_of j.accounts) (map_values stored_rent s.slots.current))

  -- The rent of a contract as the run sees it.
  worth-rents :
      (j : VmJournal) (a : Address) (c : Contract)
      → working s j a ≡ some c
      → worth coins
          (seen (map_values rent_of j.accounts) (map_values stored_rent s.slots.current) a)
        ≡ c.context.rent
  unfolding get_contract decode_stored_contract
  worth-rents j a c work =
      let over = lookup-map_values rent_of a j.accounts in
      let under = lookup-map_values stored_rent a s.slots.current in
      elim (Option-cases (lookup a j.accounts)) [
        | inr (d, e) ↦ let p : d ≡ c = ground arith in ground (arith, over, ap rent_of p)
        | inl e ↦ elim (Option-cases (lookup a s.slots.current)) [
          | inl missing ↦ absurd (ground arith)
          | inr (stored, there) ↦
              let p : decode_stored_contract s.code stored ≡ c = ground arith in
              ground (arith, over, under, ap rent_of p)
        ]
      ]

  rents-insert :
      (j j' : VmJournal) (a : Address) (c c' : Contract)
      → IsJournal j
      → working s j a ≡ some c
      → j'.accounts ≡ insert a c' j.accounts
      → pending_rents j' + c.context.rent ≡ pending_rents j + c'.context.rent
  rents-insert j j' a c c' ok work out =
      let under = map_values stored_rent s.slots.current in
      let step =
        weigh-write_over coins (map_values rent_of j.accounts) under a c'.context.rent
          (map_values-Distinct rent_of j.accounts ok.one_account) in
      let shape : map_values rent_of j'.accounts
          ≡ insert a c'.context.rent (map_values rent_of j.accounts) =
        ap (map_values rent_of) out ∙ map_values-insert rent_of a c' j.accounts in
      omega (arith, step, worth-rents j a c work, ap (λ m. weigh coins (flush_over m under)) shape)

  -- The balance of `e` after a transfer.
  balance-moved :
      (j : VmJournal) (from to e : Address) (v : ℕ)
      → v ≤ balance_of s j from
      → balance_of s (moved s j from to v) e + (if from == e then v else 0)
        ≡ balance_of s j e + (if to == e then v else 0)
  balance-moved j from to e v enough =
      let left = balance_of s j from - v in
      let j' = pay_into s j from left in
      let last = balance-pay_into s j' to e (balance_of s j' to + v) in
      let mid_to = balance-pay_into s j from to left in
      let mid_e = balance-pay_into s j from e left in
      elim (Bool-cases (to == e)) [
        | inl here ↦
            let p : to ≡ e = ground arith in
            let mid = ap (balance_of s j') p in
            elim (Bool-cases (from == e)) [
              | inl there ↦
                  let q : from ≡ e = ground arith in
                  ground (arith, last, mid_e, mid, ap (balance_of s j) q)
              | inr away ↦ ground (arith, last, mid_e, mid)
            ]
        | inr other ↦ elim (Bool-cases (from == e)) [
          | inl there ↦
              let q : from ≡ e = ground arith in ground (arith, last, mid_e, ap (balance_of s j) q)
          | inr away ↦ ground (arith, last, mid_e)
        ]
      ]

  -- The journal of a run: its maps are well formed, no coin is made or lost, and the escrow covers
  -- the deposits that the contracts have locked.
  pub record Sound (j : VmJournal) : Type 0 where
    pub formed : IsJournal j
    pub owned : OwnsAccounts j
    pub kept : pending_supply s j ≡ supply s
    pub covered : pending_rents j ≤ balance_of s j storage_deposit_escrow

  working-owner :
      (j : VmJournal) (a : Address) (c : Contract)
      → IsOwned s
      → OwnsAccounts j
      → working s j a ≡ some c
      → c.owner ≡ a
  unfolding get_contract decode_stored_contract
  working-owner j a c owned accounts work = elim (Option-cases (lookup a j.accounts)) [
    | inr (d, e) ↦
        let p : d ≡ c = ground arith in
        ap (λ (k : Contract). k.owner) (sym p) ∙ All-lookup _ a d j.accounts accounts e
    | inl e ↦ elim (Option-cases (lookup a s.slots.current)) [
      | inl missing ↦ absurd (ground arith)
      | inr (stored, there) ↦
          let p : decode_stored_contract s.code stored ≡ c = ground arith in
          ap (λ (k : Contract). k.owner) (sym p) ∙ All-lookup _ a stored s.slots.current owned there
    ]
  ]

  -- The maps of the journal after a working copy is written over `paid`.
  written-formed :
      (j paid j' : VmJournal) (a : Address) (c c' : Contract) (rent : ℕ)
      → IsOwned s
      → OwnsAccounts j
      → IsJournal j
      → IsJournal paid
      → working s j a ≡ some c
      → Rewritten s c c' rent
      → j'.balances ≡ paid.balances
      → j'.accounts ≡ insert a c' j.accounts
      → IsJournal j' × OwnsAccounts j'
  written-formed j paid j' a c c' rent slots owned ok paid_ok work same balances accounts =
      let owner : c'.owner ≡ a = same.0 ∙ working-owner j a c slots owned work in
      (
        record {
          one_balance = rw balances paid_ok.one_balance;
          one_account = rw accounts (insert-Distinct a c' j.accounts ok.one_account);
        },
        rw accounts (All-insert _ a c' j.accounts owned owner),
      )

  balance-same :
      (j j' : VmJournal) (e : Address)
      → j'.balances ≡ j.balances
      → balance_of s j' e ≡ balance_of s j e
  unfolding balance_of
  balance-same j j' e same =
      ap (λ (m : Map ℕ). elim (lookup e m) [ none ↦ get_balance s e | some n ↦ n ]) same

  -- A working copy written after coins have moved to `paid`, which covers the new deposit.
  written-Sound :
      (j paid j' : VmJournal) (a : Address) (c c' : Contract) (rent : ℕ)
      → IsOwned s
      → Sound j
      → IsJournal paid × (pending_supply s paid ≡ pending_supply s j)
      → working s j a ≡ some c
      → Rewritten s c c' rent
      → j'.balances ≡ paid.balances
      → j'.accounts ≡ insert a c' j.accounts
      → pending_rents j + rent ≤ balance_of s paid storage_deposit_escrow + c.context.rent
      → Sound j'
  written-Sound j paid j' a c c' rent slots ok paid_ok work same balances accounts enough =
      let (formed, owned) =
        written-formed j paid j' a c c' rent slots ok.owned ok.formed paid_ok.0 work same balances
          accounts in
      record {
        formed = formed;
        owned = owned;
        kept =
            ap (λ (m : Map ℕ). weigh coins (flush_over m s.balances.current)) balances
            ∙ paid_ok.1
            ∙ ok.kept;
        covered = omega (
          arith,
          enough,
          same.2,
          rents-insert j j' a c c' ok.formed work accounts,
          balance-same paid j' storage_deposit_escrow balances,
        );
      }

  Move-Sound : (j j' : VmJournal) → IsOwned s → Sound j → Move s NotEscrow j j' → Sound j'
  unfolding pay_into
  Move-Sound j j' slots ok (touch a c c' work same balances accounts) =
      written-Sound j j j' a c c' c.context.rent slots ok (ok.formed, refl) work same balances
        accounts (omega (arith, ok.covered))
  Move-Sound j j' slots ok (pay from to v ne le out) =
      let (formed, supplied) = moved-supply s j from to v ok.formed le in
      let away : (from == storage_deposit_escrow) ≡ false = ground arith in
      let balance = balance-moved j from to storage_deposit_escrow v le in
      subst (λ (k : VmJournal). Sound k) out
        record {
          formed = formed;
          owned = ok.owned;
          kept = supplied ∙ ok.kept;
          covered = ground (arith, balance, ok.covered);
        }
  Move-Sound j j' slots ok (bond a c c' v ne le work same balances accounts) =
      let e = storage_deposit_escrow in
      let away : (a == e) ≡ false = ground arith in
      let balance = balance-moved j a e e v le in
      let grown : balance_of s (moved s j a e v) e ≡ balance_of s j e + v =
        ground (arith, balance, ==_self e) in
      written-Sound j (moved s j a e v) j' a c c' (c.context.rent + v) slots ok
        (moved-supply s j a e v ok.formed le) work same balances accounts
        (omega (arith, ok.covered, grown))
  Move-Sound j j' slots ok (free a c c' v ne le locked work same balances accounts) =
      let e = storage_deposit_escrow in
      let away : (a == e) ≡ false = ground arith in
      let balance = balance-moved j e a e v le in
      let spent : balance_of s (moved s j e a v) e + v ≡ balance_of s j e =
        ground (arith, balance, ==_self e) in
      written-Sound j (moved s j e a v) j' a c c' (c.context.rent - v) slots ok
        (moved-supply s j e a v ok.formed le) work same balances accounts
        (omega (arith, ok.covered, spent, locked))

  pub Moves-Sound : (j j' : VmJournal) → IsOwned s → Sound j → Moves s NotEscrow j j' → Sound j'
  Moves-Sound j _ slots ok done = ok
  Moves-Sound j j' slots ok (more {mid} ms m) =
      Move-Sound mid j' slots (Moves-Sound j mid slots ok ms) m
