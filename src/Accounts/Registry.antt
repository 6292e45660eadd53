-- ===== src/Accounts/Registry.antt =====
-- What a block keeps of the key registry and of the leaves of the state commitment.
use ngcore.Base.{ℕ, ◌≡◌, sym, ap, ◌∙◌, subst, Bool, inl, inr, Option-cases, arith}
use ngcore.Types.{Hash, FullTx, FullBlock}
use ngcore.Maps.{lookup}
use ngcore.Changeset.{Domain}
use ngcore.Changeset.Leaves.{IsMirror, apply-IsMirror}
use ngcore.Envelope.{Crypto}
use ngcore.Accounts.{
  State, StoredContract, balance_leaf, slot_leaf, set_balance, set_contract, del_contract,
}
use ngcore.Accounts.Keys.{IsRegistry, put_key-IsRegistry}
use ngcore.Accounts.Beacon.{set_beacon, record_beacon}
use ngcore.Accounts.Run.{Engine}
use ngcore.Accounts.Apply.{ok, start_recording, upgrade}
use ngcore.Accounts.Reach.{
  Reach, here, to_balance, to_slot, to_no_slot, to_key, to_commits, to_beacon,
}
use ngcore.Accounts.BlockSteps.{upgrade-Reach}
use ngcore.Accounts.Unwind.{Reach-Changed}

keys-set_beacon : (t : State) (seed : Hash) → (set_beacon t seed).keys ≡ t.keys
unfolding set_beacon record_beacon
keys-set_beacon t seed = elim (Option-cases t.recorder) [
  | inl e ↦ ground arith
  | inr (h, e) ↦ elim (Option-cases (lookup h t.beacon_changes)) [
    | inl fresh ↦ ground arith
    | inr (old, there) ↦ ground arith
  ]
]

module _ (k : Crypto) where
  Reach-IsRegistry :
      (s t : State) → IsRegistry k s.keys.current → Reach k s t → IsRegistry k t.keys.current
  unfolding set_balance set_contract del_contract
  Reach-IsRegistry s _ held here = held
  Reach-IsRegistry s _ held (to_balance {t} r a n) = Reach-IsRegistry s t held r
  Reach-IsRegistry s _ held (to_slot {t} r c) = Reach-IsRegistry s t held r
  Reach-IsRegistry s _ held (to_no_slot {t} r a) = Reach-IsRegistry s t held r
  Reach-IsRegistry s _ held (to_key {t} r scheme key) =
      put_key-IsRegistry k t scheme key (Reach-IsRegistry s t held r)
  Reach-IsRegistry s _ held (to_commits {t} r commits) = Reach-IsRegistry s t held r
  Reach-IsRegistry s _ held (to_beacon {t} r seed) =
      rw (keys-set_beacon t seed) (Reach-IsRegistry s t held r)

module _ (k : Crypto) (engine : Engine) (reveal_hash : FullTx → Hash) where
  -- A block that applies keeps two invariants of the state: every entry of the key registry is the key
  -- of its address, whatever keys the block reveals, and the leaves of the state commitment for the
  -- balances and for the contract slots are those of the values.
  pub upgrade-invariants :
      (archive : Bool) (s s' : State) (block : FullBlock) (gas : ℕ)
      → IsRegistry k s.keys.current
      → IsMirror balance_leaf s.balances
      → IsMirror slot_leaf s.slots
      → upgrade k engine reveal_hash archive s block ≡ ok s' gas
      → IsRegistry k s'.keys.current
        × IsMirror balance_leaf s'.balances
        × IsMirror slot_leaf s'.slots
  unfolding start_recording
  upgrade-invariants archive s s' block gas registry balances slots e =
      let start = start_recording k engine reveal_hash archive block.height s in
      let (t, r, out) = upgrade-Reach k engine reveal_hash archive s s' block gas e in
      let c = Reach-Changed k start t r in
      (
        subst (λ (u : State). IsRegistry k u.keys.current) (sym out)
            (Reach-IsRegistry k start t registry r),
        subst (λ (d : Domain ℕ). IsMirror balance_leaf d)
            (sym (ap (λ (u : State). u.balances) out ∙ c.paid))
            (apply-IsMirror balance_leaf start.recorder c.payments s.balances balances),
        subst (λ (d : Domain StoredContract). IsMirror slot_leaf d)
            (sym (ap (λ (u : State). u.slots) out ∙ c.stored))
            (apply-IsMirror slot_leaf start.recorder c.stores s.slots slots),
      )
