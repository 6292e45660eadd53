-- ===== src/Changeset/Held.antt =====
-- What a recorded block keeps of the values it overwrites.
use ngcore.Base.{
  ℕ, ◌≡◌, refl, sym, ap, ◌∙◌, Bool, true, false, ◌||◌, Option, none, some, List, [], ◌∷◌, All, inl,
  inr, ◌==◌, ==_self, Bool-cases, Option-cases, arith,
}
use ngcore.Types.{Address}
use ngcore.Maps.{Map, lookup}
use ngcore.Maps.Laws.{lookup-insert, lookup-erase}
use ngcore.Commits.Buckets.{Bucket, get, put, delete, entries_at}
use ngcore.Changeset.{Domain, record_pre, write, remove, Change, set, del, apply}

module _ {A : Type 0} where
  -- Whether an entry of the address is listed.
  abbrev pub listed : Address → List (Address × A) → Bool
  listed a [] = false
  listed a ((b, x) ∷ es) = b == a || listed a es

  pub listed-entries_at :
      (h : ℕ) (a : Address) (b : Bucket A) → listed a (entries_at h b) ≡ false → get h a b ≡ none
  unfolding entries_at get
  listed-entries_at h a [] e = refl
  listed-entries_at h a (((i, c), x) ∷ b) e = ground (arith, listed-entries_at h a b)

  pub entries_at-listed :
      (h : ℕ) (a : Address) (b : Bucket A) → get h a b ≡ none → listed a (entries_at h b) ≡ false
  unfolding entries_at get
  entries_at-listed h a [] e = refl
  entries_at-listed h a (((i, c), x) ∷ b) e = ground (arith, entries_at-listed h a b)

  listed-delete_ne :
      (h : ℕ) (a g : Address) (b : Bucket A)
      → (g == a) ≡ false
      → listed a (entries_at h (delete h g b)) ≡ false
      → listed a (entries_at h b) ≡ false
  unfolding entries_at delete
  listed-delete_ne h a g [] ne e = e
  listed-delete_ne h a g (((i, c), x) ∷ b) ne e = ground (arith, listed-delete_ne h a g b ne)

  pub some-listed :
      (h : ℕ) (a : Address) (x : A) (b : Bucket A)
      → get h a b ≡ some x
      → listed a (entries_at h b) ≡ true
  some-listed h a x b e = elim (Bool-cases (listed a (entries_at h b))) [
    | inl here ↦ here
    | inr missing ↦ cc (listed-entries_at h a b missing, e)
  ]

  All-delete :
      (P : Address × A → Type 0) (h : ℕ) (g : Address) (b : Bucket A)
      → All P (entries_at h b)
      → All P (entries_at h (delete h g b))
  unfolding entries_at delete
  All-delete P h g [] all = tt
  All-delete P h g (((k, c), x) ∷ b) all = elim (Bool-cases (k == h)) [
    | inr other ↦ rw other (rw other (All-delete P h g b (rw other at all)))
    | inl here ↦
        let both : P (c, x) × All P (entries_at h b) = rw here at all in
        elim (Bool-cases (c == g)) [
          | inl same ↦ rw (here, same) (All-delete P h g b both.1)
          | inr other ↦ rw (here, other) (rw here (both.0, All-delete P h g b both.1))
        ]
  ]

module _ {V : Type 0} where
  -- What a block has done so far, at its height, to a domain whose values were `m`: what it has not
  -- recorded is as it was, and what it has recorded is what was.
  pub record Held (h : ℕ) (m : Map V) (d : Domain V) : Type 0 where
    pub rest :
        (a : Address)
        → listed a (entries_at h d.pre_images) ≡ false
        → lookup a d.current ≡ lookup a m
    pub faithful : All (λ e. e.1 ≡ lookup e.0 m) (entries_at h d.pre_images)

  pub fresh-Held : (h : ℕ) (d : Domain V) → entries_at h d.pre_images ≡ [] → Held h d.current d
  fresh-Held h d e = record { rest = λ a l. refl; faithful = rw e tt }

  entries_at-put :
      (h : ℕ) (a : Address) (x : Option V) (b : Bucket (Option V))
      → entries_at h (put h a x b) ≡ (a, x) ∷ entries_at h (delete h a b)
  unfolding entries_at put
  entries_at-put h a x b = rw (==_self h) refl

  abbrev pub recorded : ℕ → Domain V → Address → Domain V
  recorded h d a = record d {
    pre_images = put h a (lookup a d.current) d.pre_images;
    history = (a, h) ∷ d.history;
  }

  pub record_pre-seen :
      (h : ℕ) (d : Domain V) (a : Address) (old : Option V)
      → get h a d.pre_images ≡ some old
      → record_pre (some h) d a ≡ d
  unfolding record_pre
  record_pre-seen h d a old e = ground arith

  pub record_pre-new :
      (h : ℕ) (d : Domain V) (a : Address)
      → get h a d.pre_images ≡ none
      → record_pre (some h) d a ≡ recorded h d a
  unfolding record_pre
  record_pre-new h d a e = ground arith

  record_pre-Held :
      (h : ℕ) (m : Map V) (d : Domain V) (a : Address)
      → Held h m d
      → Held h m (record_pre (some h) d a)
        × (listed a (entries_at h (record_pre (some h) d a).pre_images) ≡ true)
        × ((record_pre (some h) d a).current ≡ d.current)
  record_pre-Held h m d a held = elim (Option-cases (get h a d.pre_images)) [
    | inr (old, e) ↦
        rw (record_pre-seen h d a old e) (held, some-listed h a old d.pre_images e, refl)
    | inl e ↦
        let was = held.rest a (entries_at-listed h a d.pre_images e) in
        rw (record_pre-new h d a e) (
          record {
            rest = λ b l.
                let l' : listed b ((a, lookup a d.current) ∷ entries_at h (delete h a d.pre_images))
                    ≡ false =
                  sym (ap (listed b) (entries_at-put h a (lookup a d.current) d.pre_images)) ∙ l in
                held.rest b (listed-delete_ne h b a d.pre_images (ground arith) (ground arith));
            faithful =
                rw (entries_at-put h a (lookup a d.current) d.pre_images)
                  (was, All-delete _ h a d.pre_images held.faithful);
          },
          rw (entries_at-put h a (lookup a d.current) d.pre_images, ==_self a) refl,
          refl,
        )
  ]

  -- A recorded block may write an address, since its pre-image is kept.
  change-Held :
      (h : ℕ) (m : Map V) (d d' : Domain V) (a : Address)
      → Held h m d
      → listed a (entries_at h d.pre_images) ≡ true
      → d'.pre_images ≡ d.pre_images
      → ((b : Address) → (a == b) ≡ false → lookup b d'.current ≡ lookup b d.current)
      → Held h m d'
  change-Held h m d d' a held kept same others = record {
    rest = λ b l.
        let l' : listed b (entries_at h d.pre_images) ≡ false = rw (← same) l in
        elim (Bool-cases (a == b)) [
          | inr other ↦ others b other ∙ held.rest b l'
          | inl this ↦
              let p : a ≡ b = ground arith in
              cc (ap (λ k. listed k (entries_at h d.pre_images)) p, kept, l')
        ];
    faithful = rw same held.faithful;
  }

module _ {V : Type 0} (leaf : V → Option V) where
  pub write-Held :
      (h : ℕ) (m : Map V) (d : Domain V) (a : Address) (v : V)
      → Held h m d
      → Held h m (write leaf (some h) a v d)
  unfolding write
  write-Held h m d a v held =
      let (held', kept, same) = record_pre-Held h m d a held in
      change-Held h m (record_pre (some h) d a) (write leaf (some h) a v d) a held' kept refl
        (λ b ne. ground (arith, lookup-insert a b v (record_pre (some h) d a).current))

  remove-Held :
      (h : ℕ) (m : Map V) (d : Domain V) (a : Address)
      → Held h m d
      → Held h m (remove leaf (some h) a d)
  unfolding remove
  remove-Held h m d a held =
      let (held', kept, same) = record_pre-Held h m d a held in
      change-Held h m (record_pre (some h) d a) (remove leaf (some h) a d) a held' kept refl
        (λ b ne. ground (arith, lookup-erase a b (record_pre (some h) d a).current))

  pub apply-Held :
      (h : ℕ) (m : Map V) (cs : List (Change V)) (d : Domain V)
      → Held h m d
      → Held h m (apply leaf (some h) cs d)
  unfolding apply
  apply-Held h m [] d held = held
  apply-Held h m (set a v ∷ cs) d held =
      apply-Held h m cs (write leaf (some h) a v d) (write-Held h m d a v held)
  apply-Held h m (del a ∷ cs) d held =
      apply-Held h m cs (remove leaf (some h) a d) (remove-Held h m d a held)
