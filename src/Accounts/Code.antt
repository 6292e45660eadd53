-- ===== src/Accounts/Code.antt =====
-- The bucket of code (ngstate/state_helper.go): one copy of each module, under its hash, with the
-- number of the slots that refer to it.
use ngcore.Base.{
  ℕ, ◌+◌, ◌-◌, ◌%◌, ◌^◌, Bool, not, ◌&&◌, Option, none, some, [], leb, ◌==◌, if◌then◌else◌,
}
use ngcore.Types.{Hash, Bytes}
use ngcore.Maps.{Map, lookup, insert, erase}

abbrev pub CodeBucket : Type 0
CodeBucket = Map (ℕ × Bytes)

-- `loadCode`
unfoldable pub load_code : CodeBucket → Hash → Bytes
load_code m h = elim (lookup h m) [ none ↦ [] | some (refs, code) ↦ code ]

-- `retainCode`
unfoldable pub retain_code : CodeBucket → Hash → Bytes → CodeBucket
retain_code m h code = elim (lookup h m) [
  | none ↦ insert h (1, code) m
  | some (refs, kept) ↦ insert h ((refs + 1) % 2 ^ 64, kept) m
]

-- `releaseCode`
unfoldable pub release_code : CodeBucket → Hash → Bool → CodeBucket
release_code m h keep_for_history = elim (lookup h m) [
  | none ↦ m
  | some (refs, kept) ↦
      if leb refs 1 && not keep_for_history then erase h m else insert h (refs - 1, kept) m
]

-- The code of `setContract`: the hash the slot had before, if any, is released when it changes.
unfoldable pub reconcile_code : Bool → Option Hash → Hash → Bytes → CodeBucket → CodeBucket
unfolding retain_code release_code
reconcile_code keep none new code m = retain_code m new code
reconcile_code keep (some old) new code m =
    if old == new then m else retain_code (release_code m old keep) new code

-- The code of `delContract`.
unfoldable pub drop_code : Bool → Option Hash → CodeBucket → CodeBucket
unfolding release_code
drop_code keep none m = m
drop_code keep (some old) m = release_code m old keep
