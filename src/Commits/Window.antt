-- ===== src/Commits/Window.antt =====
-- What a reveal may spend: `findCommit`, `commitFromPending`, and what `pruneCommits` leaves of them.
use ngcore.Base.{
  ℕ, zero, suc, ◌+◌, ◌-◌, ◌≡◌, ◌≢◌, refl, ap, none, some, List, [], ◌∷◌, inl, inr, ◌==◌, ltb, ◌≤◌,
  ◌<◌, Bool-cases, Option-cases, if◌then◌else◌, arith,
}
use ngcore.Types.{Address, Hash}
use ngcore.Params.{commit_window}
use ngcore.Commits.Buckets.{Bucket, get, delete, keys_below}
use ngcore.Commits.Buckets.Laws.{get-delete, has_key, has_key-below, get-below}
use ngcore.Commits.{
  CommitStore, find_from, find_commit, window_low, pending_low, is_found, commit_from_pending,
  delete_all, prune_commits,
}

pub find_from-found :
    (b : Bucket Address) (from : Address) (hash : Hash) (low n h : ℕ)
    → find_from b from hash low n ≡ some h
    → (low ≤ h) × (h < low + n) × (get h hash b ≡ some from)
unfolding find_from
find_from-found b from hash low zero h e = cc
find_from-found b from hash low (suc n) h e = elim (Option-cases (get low hash b)) [
  | inl nothing ↦
      let q : find_from b from hash (suc low) n ≡ some h = ground arith in
      let (le, lt, got) = find_from-found b from hash (suc low) n h q in
      (omega arith, omega arith, got)
  | inr (a, got) ↦ elim (Bool-cases (a == from)) [
    | inl mine ↦ ground arith
    | inr other ↦
        let q : find_from b from hash (suc low) n ≡ some h = ground arith in
        let (le, lt, there) = find_from-found b from hash (suc low) n h q in
        (omega arith, omega arith, there)
  ]
]

-- The first height of the window that holds the committer's commitment is found.
pub find_from-finds :
    (b : Bucket Address) (from : Address) (hash : Hash) (low n h : ℕ)
    → low ≤ h
    → h < low + n
    → get h hash b ≡ some from
    → (k : ℕ) × (find_from b from hash low n ≡ some k) × (k ≤ h)
unfolding find_from
find_from-finds b from hash low zero h le lt e = absurd (omega arith)
find_from-finds b from hash low (suc n) h le lt e = elim (Option-cases (get low hash b)) [
  | inl nothing ↦
      let ne : low ≢ h = λ same. ground (arith, nothing, e, ap (λ k. get k hash b) same) in
      let (k, found, below) =
        find_from-finds b from hash (suc low) n h (omega arith) (omega arith) e in
      (k, ground arith, below)
  | inr (a, got) ↦ elim (Bool-cases (a == from)) [
    | inl mine ↦ (low, ground arith, le)
    | inr other ↦
        let ne : low ≢ h = λ same. ground (arith, got, e, ap (λ k. get k hash b) same) in
        let (k, found, below) =
          find_from-finds b from hash (suc low) n h (omega arith) (omega arith) e in
        (k, ground arith, below)
  ]
]

-- A reveal spends a commitment that its sender has recorded, in one of the three blocks below it.
pub find_commit-window :
    (s : CommitStore) (from : Address) (hash : Hash) (reveal h : ℕ)
    → find_commit s from hash reveal ≡ some h
    → (h < reveal) × (reveal ≤ h + commit_window) × (get h hash s.pending ≡ some from)
unfolding find_commit window_low
find_commit-window s from hash reveal h e =
    let (le, lt, got) = find_from-found s.pending from hash _ _ h e in
    (ground arith, ground arith, got)

-- A commitment that is recorded in one of the three blocks below a reveal is found, or an older one
-- of the same sender with the same hash is.
pub find_commit-finds :
    (s : CommitStore) (from : Address) (hash : Hash) (reveal h : ℕ)
    → h < reveal
    → reveal ≤ h + commit_window
    → get h hash s.pending ≡ some from
    → (k : ℕ) × (find_commit s from hash reveal ≡ some k) × (k ≤ h)
unfolding find_commit window_low
find_commit-finds s from hash reveal h lt le e =
    find_from-finds s.pending from hash _ _ h (ground arith) (ground arith) e

pub get-delete_all :
    {A : Type 0} (ks : List (ℕ × Hash)) (h : ℕ) (g : Hash) (b : Bucket A)
    → get h g (delete_all ks b) ≡ (if has_key h g ks then none else get h g b)
unfolding delete_all
get-delete_all [] h g b = refl
get-delete_all ((i, j) ∷ ks) h g b =
    ground (arith, get-delete_all ks h g (delete i j b), get-delete i h j g b)

-- Pruning at a tip drops what lies more than three blocks below it, and nothing else.
pub get-prune_commits :
    (s : CommitStore) (tip h : ℕ) (hash : Hash)
    → get h hash (prune_commits s tip).pending
      ≡ (if ltb (h + commit_window) tip then none else get h hash s.pending)
unfolding prune_commits
get-prune_commits s tip h hash =
    let cutoff = tip - commit_window in
    let stale = keys_below cutoff s.pending in
    let pruned = get-delete_all stale h hash s.pending in
    elim (Bool-cases (ltb h cutoff)) [
      | inr old_enough ↦ ground (arith, pruned, has_key-below cutoff h hash s.pending)
      | inl below ↦ elim (Bool-cases (has_key h hash stale)) [
        | inl listed ↦ ground (arith, pruned)
        | inr unlisted ↦
            ground (arith, pruned, get-below cutoff h hash s.pending (ground arith) unlisted)
      ]
    ]

find_from_ext :
    (b b' : Bucket Address) (from : Address) (hash : Hash) (low n : ℕ)
    → ((h : ℕ) → low ≤ h → get h hash b ≡ get h hash b')
    → find_from b from hash low n ≡ find_from b' from hash low n
unfolding find_from
find_from_ext b b' from hash low zero h = refl
find_from_ext b b' from hash low (suc n) h =
    let here = h low (omega arith) in
    let rest = find_from_ext b b' from hash (suc low) n (λ k le. h k (omega arith)) in
    elim (Option-cases (get low hash b)) [ inl e ↦ ground (arith) | inr (a, e) ↦ ground (arith) ]

-- Pruning at a block's height is invisible to every later block: it finds the same commitments to
-- reveal, and the same duplicates.
pub find_commit-prune_commits :
    (s : CommitStore) (from : Address) (hash : Hash) (tip next : ℕ)
    → tip < next
    → (find_commit (prune_commits s tip) from hash next ≡ find_commit s from hash next)
      × (commit_from_pending (prune_commits s tip) from hash next
          ≡ commit_from_pending s from hash next)
unfolding find_commit window_low commit_from_pending pending_low
find_commit-prune_commits s from hash tip next lt = (
  find_from_ext _ _ from hash _ _ (λ h le. ground (arith, get-prune_commits s tip h hash)),
  ap is_found
      (find_from_ext _ _ from hash _ _ (λ h le. ground (arith, get-prune_commits s tip h hash))),
)
