-- ===== src/Accounts/Unwind.antt =====
-- Unwinding a block (`unwindHeightTxn` of ngstate/changeset.go): the balances, the slots and the keys
-- of the state, with their leaves, are again what the block found.
use ngcore.Base.{
  ℕ, ◌≡◌, ◌<◌, refl, sym, ap, ◌∙◌, subst, true, Option, some, List, [], ◌∷◌, ◌++◌, All, inl, inr,
  Option-cases, arith,
}
use ngcore.Types.{Address, Hash, Bytes, FullTx, FullBlock}
use ngcore.Maps.{lookup}
use ngcore.Commits.{restore_consumed_at_height, delete_commits_at_height}
use ngcore.Commits.Buckets.{entries_at}
use ngcore.Changeset.{
  Domain, Recorder, Change, set, del, apply, write, remove, revert_domain, value_at_height,
}
use ngcore.Changeset.Unwind.{revert_domain-apply}
use ngcore.Changeset.Leaves.{IsMirror}
use ngcore.Changeset.History.{value_at_height-apply}
use ngcore.Envelope.{Crypto, address_of_pub_key}
use ngcore.Accounts.{
  State, StoredContract, balance_leaf, slot_leaf, set_balance, set_contract, del_contract,
}
use ngcore.Accounts.Keys.{put_key}
use ngcore.Accounts.Beacon.{set_beacon, record_beacon, revert_beacon}
use ngcore.Accounts.Run.{Engine}
use ngcore.Accounts.Apply.{ok, start_recording, upgrade}
use ngcore.Accounts.Reach.{
  Reach, here, to_balance, to_slot, to_no_slot, to_key, to_commits, to_beacon,
}
use ngcore.Accounts.BlockSteps.{upgrade-Reach}

-- `unwindHeightTxn`
unfoldable pub unwind_height : State → ℕ → State
unfolding revert_domain revert_beacon
unwind_height s h =
    let s' = record s {
      balances = revert_domain balance_leaf h s.balances;
      slots = revert_domain slot_leaf h s.slots;
      keys = revert_domain some h s.keys;
      commits = restore_consumed_at_height (delete_commits_at_height s.commits h) h;
    } in
    revert_beacon s' h

module _ {V : Type 0} (leaf : V → Option V) where
  apply-append :
      (rec : Recorder) (cs ds : List (Change V)) (d : Domain V)
      → apply leaf rec (cs ++ ds) d ≡ apply leaf rec ds (apply leaf rec cs d)
  unfolding apply
  apply-append rec [] ds d = refl
  apply-append rec (set a v ∷ cs) ds d = apply-append rec cs ds (write leaf rec a v d)
  apply-append rec (del a ∷ cs) ds d = apply-append rec cs ds (remove leaf rec a d)

-- What writes have made of the two recorded domains.
pub record Changed (s t : State) : Type 0 where
  pub recorder : t.recorder ≡ s.recorder
  pub payments : List (Change ℕ)
  pub paid : t.balances ≡ apply balance_leaf s.recorder payments s.balances
  pub stores : List (Change StoredContract)
  pub stored : t.slots ≡ apply slot_leaf s.recorder stores s.slots

-- Writes that leave both domains and the recorder.
aside :
    (s t u : State)
    → Changed s t
    → u.recorder ≡ t.recorder
    → u.balances ≡ t.balances
    → u.slots ≡ t.slots
    → Changed s u
aside s t u c rec balances slots = record {
  recorder = rec ∙ c.recorder;
  payments = c.payments;
  paid = balances ∙ c.paid;
  stores = c.stores;
  stored = slots ∙ c.stored;
}

more_paid :
    (s t u : State) (p : Change ℕ)
    → Changed s t
    → u.recorder ≡ t.recorder
    → u.balances ≡ apply balance_leaf t.recorder (p ∷ []) t.balances
    → u.slots ≡ t.slots
    → Changed s u
more_paid s t u p c rec balances slots = record {
  recorder = rec ∙ c.recorder;
  payments = c.payments ++ p ∷ [];
  paid =
      balances
      ∙ ap (λ r. apply balance_leaf r (p ∷ []) t.balances) c.recorder
      ∙ ap (apply balance_leaf s.recorder (p ∷ [])) c.paid
      ∙ sym (apply-append balance_leaf s.recorder c.payments (p ∷ []) s.balances);
  stores = c.stores;
  stored = slots ∙ c.stored;
}

more_stored :
    (s t u : State) (p : Change StoredContract)
    → Changed s t
    → u.recorder ≡ t.recorder
    → u.balances ≡ t.balances
    → u.slots ≡ apply slot_leaf t.recorder (p ∷ []) t.slots
    → Changed s u
more_stored s t u p c rec balances slots = record {
  recorder = rec ∙ c.recorder;
  payments = c.payments;
  paid = balances ∙ c.paid;
  stores = c.stores ++ p ∷ [];
  stored =
      slots
      ∙ ap (λ r. apply slot_leaf r (p ∷ []) t.slots) c.recorder
      ∙ ap (apply slot_leaf s.recorder (p ∷ [])) c.stored
      ∙ sym (apply-append slot_leaf s.recorder c.stores (p ∷ []) s.slots);
}

beacon-aside :
    (t : State) (seed : Hash)
    → ((set_beacon t seed).recorder ≡ t.recorder)
      × ((set_beacon t seed).balances ≡ t.balances)
      × ((set_beacon t seed).slots ≡ t.slots)
unfolding set_beacon record_beacon
beacon-aside t seed = elim (Option-cases t.recorder) [
  | inl e ↦ ground arith
  | inr (h, e) ↦ elim (Option-cases (lookup h t.beacon_changes)) [
    | inl fresh ↦ ground arith
    | inr (old, there) ↦ ground arith
  ]
]

module _ (k : Crypto) where
  key-aside :
      (t : State) (scheme : ℕ) (key : Bytes)
      → ((put_key k t scheme key).recorder ≡ t.recorder)
        × ((put_key k t scheme key).balances ≡ t.balances)
        × ((put_key k t scheme key).slots ≡ t.slots)
  unfolding put_key
  key-aside t scheme key =
      elim (Option-cases (lookup (address_of_pub_key k scheme key) t.keys.current)) [
        | inl e ↦ ground arith
        | inr (entry, e) ↦ ground arith
      ]

  pub Reach-Changed : (s t : State) → Reach k s t → Changed s t
  unfolding apply set_balance set_contract del_contract
  Reach-Changed s _ here = record {
    recorder = refl;
    payments = [];
    paid = refl;
    stores = [];
    stored = refl;
  }
  Reach-Changed s _ (to_balance {t} r a n) =
      more_paid s t (set_balance t a n) (set a n) (Reach-Changed s t r) refl refl refl
  Reach-Changed s _ (to_slot {t} r c) =
      more_stored s t (set_contract k.hash256 t c)
        (set c.owner
          (record { owner = c.owner; code_hash = k.hash256 c.source; context = c.context }))
        (Reach-Changed s t r) refl refl refl
  Reach-Changed s _ (to_no_slot {t} r a) =
      more_stored s t (del_contract t a) (del a) (Reach-Changed s t r) refl refl refl
  Reach-Changed s _ (to_key {t} r scheme key) =
      let (rec, balances, slots) = key-aside t scheme key in
      aside s t (put_key k t scheme key) (Reach-Changed s t r) rec balances slots
  Reach-Changed s _ (to_commits {t} r commits) =
      aside s t (record t { commits = commits }) (Reach-Changed s t r) refl refl refl
  Reach-Changed s _ (to_beacon {t} r seed) =
      let (rec, balances, slots) = beacon-aside t seed in
      aside s t (set_beacon t seed) (Reach-Changed s t r) rec balances slots

revert_beacon-aside :
    (s : State) (h : ℕ)
    → ((revert_beacon s h).balances ≡ s.balances) × ((revert_beacon s h).slots ≡ s.slots)
unfolding revert_beacon
revert_beacon-aside s h = elim (Option-cases (lookup h s.beacon_changes)) [
  | inl e ↦ ground arith
  | inr (old, e) ↦ ground arith
]

domains-unwind_height :
    (s : State) (h : ℕ)
    → ((unwind_height s h).balances ≡ revert_domain balance_leaf h s.balances)
      × ((unwind_height s h).slots ≡ revert_domain slot_leaf h s.slots)
unfolding unwind_height
domains-unwind_height s h =
    revert_beacon-aside
      (record s {
        balances = revert_domain balance_leaf h s.balances;
        slots = revert_domain slot_leaf h s.slots;
        keys = revert_domain some h s.keys;
        commits = restore_consumed_at_height (delete_commits_at_height s.commits h) h;
      })
      h

-- The values and the leaves that an address has in a domain.
abbrev pub Same : {V : Type 0} → Address → Domain V → Domain V → Type 0
Same a d d' = (lookup a d'.current ≡ lookup a d.current) × (lookup a d'.leaves ≡ lookup a d.leaves)

-- A state whose archive has nothing at a height yet, and whose leaves follow its values.
pub record Ready (s : State) (h : ℕ) : Type 0 where
  pub no_balances : entries_at h s.balances.pre_images ≡ []
  pub no_slots : entries_at h s.slots.pre_images ≡ []
  pub balance_leaves : IsMirror balance_leaf s.balances
  pub slot_leaves : IsMirror slot_leaf s.slots

module _ (k : Crypto) (engine : Engine) (reveal_hash : FullTx → Hash) where
  upgrade-Changed :
      (s s' : State) (block : FullBlock) (gas : ℕ)
      → upgrade k engine reveal_hash true s block ≡ ok s' gas
      → (payments : List (Change ℕ)) × (stores : List (Change StoredContract)) × (s'.balances
          ≡ apply balance_leaf (some block.height) payments s.balances)
        × (s'.slots ≡ apply slot_leaf (some block.height) stores s.slots)
  unfolding start_recording
  upgrade-Changed s s' block gas e =
      let start = start_recording k engine reveal_hash true block.height s in
      let (t, r, out) = upgrade-Reach k engine reveal_hash true s s' block gas e in
      let c = Reach-Changed k start t r in
      (
        c.payments,
        c.stores,
        ap (λ (u : State). u.balances) out ∙ c.paid,
        ap (λ (u : State). u.slots) out ∙ c.stored,
      )

  -- On an archive node whose state has no pre-images at the block's height yet and whose leaves follow
  -- its balances and slots, a block that has been applied is undone by unwinding its height: the
  -- balance and the contract slot of every address, and their leaves in the state commitment, are
  -- again those of the state before the block, whatever the block's transactions and contracts did.
  pub unwind_height-upgrade :
      (s s' : State) (block : FullBlock) (gas : ℕ) (a : Address)
      → Ready s block.height
      → upgrade k engine reveal_hash true s block ≡ ok s' gas
      → Same a s.balances (unwind_height s' block.height).balances
        × Same a s.slots (unwind_height s' block.height).slots
  unwind_height-upgrade s s' block gas a ready e =
      let h = block.height in
      let (payments, stores, paid, stored) = upgrade-Changed s s' block gas e in
      let (balances, slots) = domains-unwind_height s' h in
      (
        subst (λ (d : Domain ℕ). Same a s.balances d)
            (sym (balances ∙ ap (revert_domain balance_leaf h) paid))
            (revert_domain-apply balance_leaf h payments s.balances a ready.no_balances
              ready.balance_leaves),
        subst (λ (d : Domain StoredContract). Same a s.slots d)
            (sym (slots ∙ ap (revert_domain slot_leaf h) stored))
            (revert_domain-apply slot_leaf h stores s.slots a ready.no_slots ready.slot_leaves),
      )

  -- On an archive node, a block above every recorded change of the balances keeps what the balance of
  -- every address at every earlier height reads as, and at its own height the archive reads the
  -- balance that the block leaves.
  pub upgrade-balance_at_height :
      (s s' : State) (block : FullBlock) (gas : ℕ) (a : Address) (t : ℕ)
      → Ready s block.height
      → All (λ e. e.1 < block.height) s.balances.history
      → t < block.height
      → upgrade k engine reveal_hash true s block ≡ ok s' gas
      → (value_at_height s'.balances a t ≡ value_at_height s.balances a t)
        × (value_at_height s'.balances a block.height ≡ lookup a s'.balances.current)
  upgrade-balance_at_height s s' block gas a t ready below earlier e =
      let h = block.height in
      let (payments, stores, paid, stored) = upgrade-Changed s s' block gas e in
      subst
        (λ (d : Domain ℕ).
          (value_at_height d a t ≡ value_at_height s.balances a t)
          × (value_at_height d a h ≡ lookup a d.current))
        (sym paid)
        (value_at_height-apply balance_leaf h payments s.balances a t below ready.no_balances
          earlier)
