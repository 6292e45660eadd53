-- ===== src/Accounts/Flush.antt =====
-- A run written back to the state: `flush` (ngstate/journal.go) after the host functions.
use ngcore.Base.{
  ℕ, ◌≡◌, ◌≤◌, refl, sym, ap, ◌∙◌, Bool, some, List, [], ◌∷◌, All, inl, inr, Option-cases, arith,
}
use ngcore.Types.{Address, Hash, Bytes}
use ngcore.Maps.{Map, lookup, insert}
use ngcore.Maps.Weigh.{flush_over, weigh, worth, weigh-insert, lookup-flush_over}
use ngcore.Maps.Values.{
  map_values, apply_some, lookup-map_values, map_values-insert, All-insert, All-lookup,
}
use ngcore.Accounts.{
  State, Contract, get_balance, amount_or_zero, set_balance, set_contract, get_contract,
  decode_stored_contract, storage_deposit_escrow,
}
use ngcore.Accounts.Shared.{slots-set_contract, stored_form}
use ngcore.Accounts.Journal.{
  VmJournal, new_vm_journal, balance_of, HostOp, run_ops, flush_balances, flush_accounts, flush,
}
use ngcore.Accounts.Effects.{coins, supply, IsJournal, current-set_balance}
use ngcore.Accounts.Moves.{executing, run_ops-Moves}
use ngcore.Accounts.Rent.{
  NotEscrow, stored_rent, rent_of, deposited, IsOwned, pending_rents, Sound, Moves-Sound,
}

-- The slots stand under their owners, and the escrow has the deposits that they have locked.
pub record Healthy (s : State) : Type 0 where
  pub owned : IsOwned s
  pub solvent : deposited s ≤ get_balance s storage_deposit_escrow

slots-set_balance : (s : State) (a : Address) (n : ℕ) → (set_balance s a n).slots ≡ s.slots
unfolding set_balance
slots-set_balance s a n = refl

pub flush_balances-parts :
    (over : Map ℕ) (s : State)
    → ((flush_balances over s).balances.current ≡ flush_over over s.balances.current)
      × ((flush_balances over s).slots ≡ s.slots)
unfolding flush_balances flush_over
flush_balances-parts [] s = (refl, refl)
flush_balances-parts ((a, n) ∷ over) s =
    let (values, slots) = flush_balances-parts over (set_balance s a n) in
    (values ∙ ap (flush_over over) (current-set_balance s a n), slots ∙ slots-set_balance s a n)

module _ (hash256 : Bytes → Hash) where
  pub balances-set_contract :
      (s : State) (c : Contract) → (set_contract hash256 s c).balances ≡ s.balances
  unfolding set_contract
  balances-set_contract s c = refl

  pub rents-set_contract :
      (s : State) (c : Contract)
      → map_values stored_rent (set_contract hash256 s c).slots.current
        ≡ insert c.owner c.context.rent (map_values stored_rent s.slots.current)
  rents-set_contract s c =
      ap (map_values stored_rent) (slots-set_contract hash256 s c)
      ∙ map_values-insert stored_rent c.owner (stored_form hash256 c) s.slots.current

  pub set_contract-IsOwned :
      (s : State) (c : Contract) → IsOwned s → IsOwned (set_contract hash256 s c)
  set_contract-IsOwned s c owned =
      rw (slots-set_contract hash256 s c)
        (All-insert _ c.owner (stored_form hash256 c) s.slots.current owned refl)

  flush_accounts-parts :
      (over : Map Contract) (s : State)
      → All (λ (e : ℕ × Contract). e.1.owner ≡ e.0) over
      → IsOwned s
      → ((flush_accounts hash256 over s).balances ≡ s.balances)
        × (map_values stored_rent (flush_accounts hash256 over s).slots.current
            ≡ flush_over (map_values rent_of over) (map_values stored_rent s.slots.current))
        × IsOwned (flush_accounts hash256 over s)
  unfolding flush_accounts flush_over
  flush_accounts-parts [] s all owned = (refl, refl, owned)
  flush_accounts-parts ((a, c) ∷ over) s all owned =
      let s' = set_contract hash256 s c in
      let (values, rents, owned') =
        flush_accounts-parts over s' all.1 (set_contract-IsOwned s c owned) in
      (
        values ∙ balances-set_contract s c,
        rents
            ∙ ap (flush_over (map_values rent_of over)) (
                rents-set_contract s c
                ∙ ap (λ k. insert k c.context.rent (map_values stored_rent s.slots.current)) all.0),
        owned',
      )

  balance-flush :
      (s t : State) (j : VmJournal) (a : Address)
      → IsJournal j
      → t.balances.current ≡ flush_over j.balances s.balances.current
      → get_balance t a ≡ balance_of s j a
  unfolding get_balance amount_or_zero balance_of
  balance-flush s t j a ok same =
      let there =
        ap (lookup a) same ∙ lookup-flush_over j.balances s.balances.current a ok.one_balance in
      elim (Option-cases (lookup a j.balances)) [
        | inl e ↦ ground (arith, there)
        | inr (n, e) ↦ ground (arith, there)
      ]

  -- A journal that is sound, written back.
  flush-Healthy :
      (s : State) (j : VmJournal)
      → IsOwned s
      → Sound s j
      → (supply (flush hash256 j s) ≡ supply s) × Healthy (flush hash256 j s)
  unfolding flush
  flush-Healthy s j owned ok =
      let mid = flush_balances j.balances s in
      let (values, slots) = flush_balances-parts j.balances s in
      let mid_owned : IsOwned mid = rw slots owned in
      let (same, rents, owned') = flush_accounts-parts j.accounts mid ok.owned mid_owned in
      let t = flush hash256 j s in
      let current : t.balances.current ≡ flush_over j.balances s.balances.current =
        ap (λ d. d.current) same ∙ values in
      let locked : deposited t ≡ pending_rents s j =
        ap (weigh coins) rents
        ∙ ap
            (λ d.
              weigh coins
                (flush_over (map_values rent_of j.accounts) (map_values stored_rent d.current)))
            slots in
      (
        ap (weigh coins) current ∙ ok.kept,
        record {
          owned = owned';
          solvent = omega (
            arith,
            ok.covered,
            locked,
            balance-flush s t j storage_deposit_escrow ok.formed current,
          );
        },
      )

-- The journal of a fresh run.
fresh-Sound :
    (s : State) (a : Address) (self : Contract)
    → Healthy s
    → get_contract s a ≡ some self
    → Sound s (new_vm_journal self)
unfolding new_vm_journal flush_over get_contract decode_stored_contract balance_of lookup
fresh-Sound s a self healthy e = elim (Option-cases (lookup a s.slots.current)) [
  | inl missing ↦ absurd (ground arith)
  | inr (stored, there) ↦
      let p : decode_stored_contract s.code stored ≡ self = ground arith in
      let under : self.owner ≡ a =
        ap (λ (c : Contract). c.owner) (sym p)
        ∙ All-lookup _ a stored s.slots.current healthy.owned there in
      let rents = map_values stored_rent s.slots.current in
      let was : worth coins (lookup self.owner rents) ≡ self.context.rent =
        ap (λ k. worth coins (lookup k rents)) under
        ∙ ap (worth coins)
            (lookup-map_values stored_rent a s.slots.current ∙ ap (apply_some stored_rent) there)
        ∙ ap rent_of p in
      record {
        formed = record { one_balance = tt; one_account = (refl, tt) };
        owned = (refl, tt);
        kept = refl;
        covered =
            omega
              (arith, healthy.solvent, was, weigh-insert coins self.owner self.context.rent rents);
      }
]

-- A run that does not trap neither makes nor loses coins, and the escrow has afterwards what the
-- contracts' slots have locked, if it had before and no frame of the run is the escrow.
pub flush-run_ops :
    (hash256 : Bytes → Hash) (s : State) (a : Address) (self : Contract) (rent : Bool)
    (ops : List HostOp) (j : VmJournal)
    → Healthy s
    → get_contract s a ≡ some self
    → All (λ op. NotEscrow (executing op)) ops
    → run_ops s rent (new_vm_journal self) ops ≡ some j
    → (supply (flush hash256 j s) ≡ supply s) × Healthy (flush hash256 j s)
flush-run_ops hash256 s a self rent ops j healthy e frames ran =
    flush-Healthy hash256 s j healthy.owned (
      Moves-Sound s (new_vm_journal self) j healthy.owned (fresh-Sound s a self healthy e)
        (run_ops-Moves s NotEscrow rent ops (new_vm_journal self) j ran frames))
