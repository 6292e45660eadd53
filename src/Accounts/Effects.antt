-- ===== src/Accounts/Effects.antt =====
-- What a run does to the coins: balances read through the journal, their total, and the flush.
use ngcore.Base.{
  ℕ, ◌+◌, ◌-◌, ◌≡◌, ◌≤◌, ap, ◌∙◌, some, ltb, ◌==◌, inl, inr, Bool-cases, Option-cases, arith,
  if◌then◌else◌,
}
use ngcore.Types.{Address}
use ngcore.Maps.{lookup, insert, Distinct}
use ngcore.Maps.Laws.{lookup-insert, insert-Distinct}
use ngcore.Maps.Weigh.{flush_over, seen, weigh, worth, weigh-write_over, weigh-insert}
use ngcore.Changeset.{write}
use ngcore.Changeset.Leaves.{record_pre-same}
use ngcore.Accounts.{State, get_balance, amount_or_zero, set_balance, balance_leaf}
use ngcore.Accounts.Journal.{VmJournal, balance_of, pay_into, transfer}

abbrev pub coins : ℕ → ℕ
coins n = n

-- All the coins of a state.
abbrev pub supply : State → ℕ
supply s = weigh coins s.balances.current

-- `set_balance` moves the supply by the difference of the two balances.
pub current-set_balance :
    (s : State) (a : Address) (n : ℕ)
    → (set_balance s a n).balances.current ≡ insert a n s.balances.current
unfolding set_balance write
current-set_balance s a n = ap (insert a n) (record_pre-same balance_leaf s.recorder s.balances a).0

worth-balance :
    (s : State) (a : Address) → worth coins (lookup a s.balances.current) ≡ get_balance s a
unfolding get_balance amount_or_zero
worth-balance s a = elim (Option-cases (lookup a s.balances.current)) [
  | inl e ↦ ground arith
  | inr (n, e) ↦ ground arith
]

pub supply-set_balance :
    (s : State) (a : Address) (n : ℕ) → supply (set_balance s a n) + get_balance s a ≡ supply s + n
supply-set_balance s a n = omega (
  arith,
  ap (weigh coins) (current-set_balance s a n),
  weigh-insert coins a n s.balances.current,
  worth-balance s a,
)

pub get-set_balance :
    (s : State) (a b : Address) (n : ℕ)
    → get_balance (set_balance s a n) b ≡ (if a == b then n else get_balance s b)
unfolding get_balance amount_or_zero
get-set_balance s a b n =
    let there =
      ap (lookup b) (current-set_balance s a n) ∙ lookup-insert a b n s.balances.current in
    elim (Bool-cases (a == b)) [ inl e ↦ ground (arith, there) | inr e ↦ ground (arith, there) ]

pub record IsJournal (j : VmJournal) : Type 0 where
  pub one_balance : Distinct j.balances
  pub one_account : Distinct j.accounts

module _ (s : State) where
  -- The coins as the run sees them.
  abbrev pub pending_supply : VmJournal → ℕ
  pending_supply j = weigh coins (flush_over j.balances s.balances.current)

  worth-pending :
      (j : VmJournal) (a : Address)
      → worth coins (seen j.balances s.balances.current a) ≡ balance_of s j a
  unfolding balance_of
  worth-pending j a = elim (Option-cases (lookup a j.balances)) [
    | inl e ↦ ground (arith, worth-balance s a)
    | inr (n, e) ↦ ground arith
  ]

  supply-pay_into :
      (j : VmJournal) (a : Address) (n : ℕ)
      → IsJournal j
      → pending_supply (pay_into s j a n) + balance_of s j a ≡ pending_supply j + n
  unfolding pay_into
  supply-pay_into j a n ok = omega (
    arith,
    weigh-write_over coins j.balances s.balances.current a n ok.one_balance,
    worth-pending j a,
  )

  pay_into-IsJournal :
      (j : VmJournal) (a : Address) (n : ℕ) → IsJournal j → IsJournal (pay_into s j a n)
  unfolding pay_into
  pay_into-IsJournal j a n ok = record {
    one_balance = insert-Distinct a n j.balances ok.one_balance;
    one_account = ok.one_account;
  }

  pub balance-pay_into :
      (j : VmJournal) (a b : Address) (n : ℕ)
      → balance_of s (pay_into s j a n) b ≡ (if a == b then n else balance_of s j b)
  unfolding balance_of pay_into
  balance-pay_into j a b n = ground (arith, lookup-insert a b n j.balances)

  -- The journal after a transfer that is covered.
  abbrev pub moved : VmJournal → Address → Address → ℕ → VmJournal
  moved j from to v =
      let j' = pay_into s j from (balance_of s j from - v) in
      pay_into s j' to (balance_of s j' to + v)

  pub transfer-moved :
      (j j' : VmJournal) (from to : Address) (v : ℕ)
      → transfer s j from to v ≡ some j'
      → (v ≤ balance_of s j from) × (moved j from to v ≡ j')
  unfolding transfer
  transfer-moved j j' from to v e = elim (Bool-cases (ltb (balance_of s j from) v)) [
    | inl short ↦ cc (rw short at e)
    | inr enough ↦ ground arith
  ]

  pub moved-supply :
      (j : VmJournal) (from to : Address) (v : ℕ)
      → IsJournal j
      → v ≤ balance_of s j from
      → IsJournal (moved j from to v) × (pending_supply (moved j from to v) ≡ pending_supply j)
  moved-supply j from to v ok enough =
      let j' = pay_into s j from (balance_of s j from - v) in
      let ok' = pay_into-IsJournal j from (balance_of s j from - v) ok in
      (
        pay_into-IsJournal j' to (balance_of s j' to + v) ok',
        omega (
          arith,
          supply-pay_into j from (balance_of s j from - v) ok,
          supply-pay_into j' to (balance_of s j' to + v) ok',
        ),
      )
