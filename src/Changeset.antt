-- ===== src/Changeset.antt =====
-- One state domain with its archive (ngstate/changeset.go): the plain state, the pre-images of each
-- height, the index of change heights, and the leaves of the state commitment that mirror the domain.
-- The domains are the balances and the contract slots; `leaf` says what leaf a value has (a zero
-- balance has none). Keys are pairs of a height and an address.
pub mod Held
pub mod Leaves
pub mod Unwind
pub mod History
mod Examples
use ngcore.Base.{
  ℕ, ◌+◌, Bool, true, false, ◌&&◌, Option, none, some, List, [], ◌∷◌, ltb, leb, ◌==◌, if◌then◌else◌,
}
use ngcore.Types.{Address}
use ngcore.Maps.{Map, lookup, insert, erase}
use ngcore.Commits.Buckets.{Bucket, get, put, delete, entries_at}

pub record Domain (V : Type 0) : Type 0 where
  pub current : Map V
  -- The pre-image at a height and an address: `none` is the tag of an absent value.
  pub pre_images : Bucket (Option V)
  -- The heights at which an address changed.
  pub history : List (Address × ℕ)
  pub leaves : Map V

-- The block that a recorder captures for; `none` is the nil recorder.
abbrev pub Recorder : Type 0
Recorder = Option ℕ

-- `histKey(addr, h)` leaves the index.
unfoldable pub drop_history : Address → ℕ → List (Address × ℕ) → List (Address × ℕ)
drop_history a h [] = []
drop_history a h ((b, i) ∷ es) =
    let rest = drop_history a h es in if b == a && i == h then rest else (b, i) ∷ rest

-- The scan of `firstChangeHeightAfter`: the smallest change height of the address above the target.
unfoldable pub first_change_height_after : List (Address × ℕ) → Address → ℕ → Option ℕ
first_change_height_after [] a target = none
first_change_height_after ((b, h) ∷ es) a target =
    let rest = first_change_height_after es a target in
    if b == a && ltb target h
    then elim rest [ none ↦ some h | some k ↦ if ltb h k then some h else some k ]
    else rest

module _ {V : Type 0} where
  -- `recordBal` and `recordContract`: the first write of a block wins.
  unfoldable pub record_pre : Recorder → Domain V → Address → Domain V
  record_pre none d a = d
  record_pre (some h) d a = elim (get h a d.pre_images) [
    | some old ↦ d
    | none ↦ record d {
      pre_images = put h a (lookup a d.current) d.pre_images;
      history = (a, h) ∷ d.history;
    }
  ]

  -- `balanceAtHeight` and `contractAtHeight`: the value that held at a height.
  unfoldable pub value_at_height : Domain V → Address → ℕ → Option V
  value_at_height d a target = elim (first_change_height_after d.history a target) [
    | none ↦ lookup a d.current
    | some h ↦ elim (get h a d.pre_images) [ none ↦ none | some old ↦ old ]
  ]

-- What one block does to a domain: writes and deletions, in order.
pub data Change (V : Type 0) : Type 0 where
  set : Address → V → Change V
  del : Address → Change V

module _ {V : Type 0} (leaf : V → Option V) where
  -- The leaf of an address in the state commitment (`trieSetBalance` and its kin).
  unfoldable pub set_leaf : Address → Option V → Map V → Map V
  set_leaf a none m = erase a m
  set_leaf a (some v) m = elim (leaf v) [ none ↦ erase a m | some l ↦ insert a l m ]

  unfoldable pub write : Recorder → Address → V → Domain V → Domain V
  unfolding record_pre set_leaf
  write rec a v d =
      let d' = record_pre rec d a in
      record d' { current = insert a v d'.current; leaves = set_leaf a (some v) d'.leaves }

  unfoldable pub remove : Recorder → Address → Domain V → Domain V
  unfolding record_pre set_leaf
  remove rec a d =
      let d' = record_pre rec d a in
      record d' { current = erase a d'.current; leaves = set_leaf a none d'.leaves }

  -- One round of `revertDomain`.
  unfoldable pub revert_one : ℕ → Domain V → Address × Option V → Domain V
  unfolding set_leaf drop_history
  revert_one h d (a, old) = record {
    current = elim old [ none ↦ erase a d.current | some v ↦ insert a v d.current ];
    pre_images = delete h a d.pre_images;
    history = drop_history a h d.history;
    leaves = set_leaf a old d.leaves;
  }

  unfoldable pub revert_all : ℕ → Domain V → List (Address × Option V) → Domain V
  unfolding revert_one
  revert_all h d [] = d
  revert_all h d (e ∷ es) = revert_all h (revert_one h d e) es

  -- `revertDomain`
  unfoldable pub revert_domain : ℕ → Domain V → Domain V
  unfolding revert_all
  revert_domain h d = revert_all h d (entries_at h d.pre_images)

  unfoldable pub apply : Recorder → List (Change V) → Domain V → Domain V
  unfolding write remove
  apply rec [] d = d
  apply rec (set a v ∷ cs) d = apply rec cs (write rec a v d)
  apply rec (del a ∷ cs) d = apply rec cs (remove rec a d)

-- `changesetCovers`
unfoldable pub changeset_covers : {V : Type 0} → Domain V → ℕ → Bool
changeset_covers d h = elim (entries_at h d.pre_images) [ [] ↦ false | e ∷ es ↦ true ]
