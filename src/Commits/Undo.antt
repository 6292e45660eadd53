-- ===== src/Commits/Undo.antt =====
-- Undoing a block: the commitments it recorded and the ones it spent.
use ngcore.Base.{
  ==_self, ℕ, ◌≡◌, ◌≢◌, refl, ap₂, true, false, ◌&&◌, none, some, [], ◌∷◌, inl, inr, ◌==◌,
  Bool-cases, if◌then◌else◌, arith,
}
use ngcore.Types.{Address, Hash}
use ngcore.Commits.Buckets.{Bucket, get, put, delete, entries_at}
use ngcore.Commits.Buckets.Laws.{get-delete, get-put, has_key}
use ngcore.Commits.{
  CommitStore, put_commit, consume_commit, journal_consumed, keys_at, delete_commits_at_height,
  restore_one, restore_all, restore_consumed_at_height,
}
use ngcore.Commits.Window.{get-delete_all}

module _ {A : Type 0} where
  has_key-other :
      (h i : ℕ) (j : Hash) (b : Bucket A) → i ≢ h → has_key i j (keys_at h (entries_at h b)) ≡ false
  unfolding entries_at keys_at
  has_key-other h i j [] ne = refl
  has_key-other h i j (((k, l), a) ∷ b) ne = ground (arith, has_key-other h i j b ne)

  get-at :
      (h i : ℕ) (j : Hash) (b : Bucket A)
      → i ≡ h
      → has_key i j (keys_at h (entries_at h b)) ≡ false
      → get i j b ≡ none
  unfolding entries_at keys_at get
  get-at h i j [] same e = refl
  get-at h i j (((k, l), a) ∷ b) same e = ground (arith, get-at h i j b same)

  entries_at-delete :
      (h : ℕ) (g : Hash) (b : Bucket A) → entries_at h b ≡ [] → entries_at h (delete h g b) ≡ []
  unfolding entries_at delete
  entries_at-delete h g [] e = refl
  entries_at-delete h g (((k, l), a) ∷ b) e = ground (arith, entries_at-delete h g b)

  pub entries_at-put :
      (h : ℕ) (g : Hash) (a : A) (b : Bucket A)
      → entries_at h b ≡ []
      → entries_at h (put h g a b) ≡ (g, a) ∷ []
  unfolding entries_at put
  entries_at-put h g a b e = rw (==_self h, entries_at-delete h g b e) refl

  get-none_at : (h : ℕ) (j : Hash) (b : Bucket A) → entries_at h b ≡ [] → get h j b ≡ none
  unfolding entries_at get
  get-none_at h j [] e = refl
  get-none_at h j (((k, l), a) ∷ b) e = ground (arith, get-none_at h j b)

  pub same_key :
      (h i : ℕ) (g j : Hash) (b : Bucket A) → (h == i && g == j) ≡ true → get h g b ≡ get i j b
  same_key h i g j b t =
      let p : h ≡ i = ground arith in let q : g ≡ j = ground arith in ap₂ (λ k l. get k l b) p q

-- Undoing a block drops the commitments recorded at its height, and no other.
pub get-delete_commits_at_height :
    (s : CommitStore) (h i : ℕ) (j : Hash)
    → get i j (delete_commits_at_height s h).pending ≡ (if i == h then none else get i j s.pending)
unfolding delete_commits_at_height
get-delete_commits_at_height s h i j =
    let keys = keys_at h (entries_at h s.pending) in
    let gone = get-delete_all keys i j s.pending in
    elim (Bool-cases (i == h)) [
      | inr other ↦ ground (arith, gone, has_key-other h i j s.pending)
      | inl same ↦
          let e : i ≡ h = ground arith in
          elim (Bool-cases (has_key i j keys)) [
            | inl listed ↦ ground (arith, gone)
            | inr unlisted ↦ ground (arith, gone, get-at h i j s.pending e unlisted)
          ]
    ]

-- A spent commitment is put back at the height it was recorded at.
pub restore-consume :
    (s : CommitStore) (reveal h i : ℕ) (hash j : Hash) (from : Address)
    → get h hash s.pending ≡ some from
    → entries_at reveal s.spent ≡ []
    → (get i j
          (restore_consumed_at_height
            (consume_commit (journal_consumed s reveal h hash from) h hash)
            reveal).pending
        ≡ get i j s.pending)
      × (get i j
            (restore_consumed_at_height
              (consume_commit (journal_consumed s reveal h hash from) h hash)
              reveal).spent
          ≡ get i j s.spent)
unfolding restore_consumed_at_height restore_all restore_one put_commit journal_consumed
    consume_commit
restore-consume s reveal h i hash j from got fresh =
    rw (entries_at-put reveal hash (h, from) s.spent fresh) (
      ground (
        arith,
        get-put h i hash j from (delete h hash s.pending),
        get-delete h i hash j s.pending,
        same_key h i hash j s.pending,
      ),
      ground (
        arith,
        get-delete reveal i hash j (put reveal hash (h, from) s.spent),
        get-put reveal i hash j (h, from) s.spent,
        get-none_at reveal hash s.spent fresh,
        same_key reveal i hash j s.spent,
      ),
    )
