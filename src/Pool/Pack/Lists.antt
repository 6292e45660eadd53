-- ===== src/Pool/Pack/Lists.antt =====
-- The list lemmas of packing: permutations, the cap, and duplicates.
use ngcore.Base.{
  ℕ, zero, suc, ◌≡◌, ◌≢◌, refl, sym, ap, ◌∙◌, true, false, List, [], ◌∷◌, All, In, inl, inr, length,
  take, ◌==◌, Bool-cases, arith,
}
use mathlib.Core.Path.{subst}
use mathlib.Core.List.{Permᴰ}
use ngcore.Maps.{Map}
use ngcore.Pool.Pack.{at_height, member, dedup_by_key}

module _ {A : Type 0} where
  pub Perm-In : {xs ys : List A} (x : A) → Permᴰ xs ys → In x xs → In x ys
  Perm-In x Permᴰ.nil h = h
  Perm-In x (Permᴰ.cons e p) (inl h) = inl (h ∙ e)
  Perm-In x (Permᴰ.cons e p) (inr h) = inr (Perm-In x p h)
  Perm-In x (Permᴰ.swap e f) (inl h) = inr (inl (h ∙ e))
  Perm-In x (Permᴰ.swap e f) (inr (inl h)) = inl (h ∙ f)
  Perm-In x (Permᴰ.swap e f) (inr (inr h)) = inr (inr h)
  Perm-In x (Permᴰ.trans p q) h = Perm-In x q (Perm-In x p h)

  pub Perm-refl : (xs : List A) → Permᴰ xs xs
  Perm-refl [] = Permᴰ.nil
  Perm-refl (x ∷ xs) = Permᴰ.cons refl (Perm-refl xs)

  pub Perm-symm : {xs ys : List A} → Permᴰ xs ys → Permᴰ ys xs
  Perm-symm Permᴰ.nil = Permᴰ.nil
  Perm-symm (Permᴰ.cons e p) = Permᴰ.cons (sym e) (Perm-symm p)
  Perm-symm (Permᴰ.swap e f) = Permᴰ.swap (sym f) (sym e)
  Perm-symm (Permᴰ.trans p q) = Permᴰ.trans (Perm-symm q) (Perm-symm p)

  pub Perm-length : {xs ys : List A} → Permᴰ xs ys → length xs ≡ length ys
  Perm-length Permᴰ.nil = refl
  Perm-length (Permᴰ.cons e p) = ap suc (Perm-length p)
  Perm-length (Permᴰ.swap e f) = refl
  Perm-length (Permᴰ.trans p q) = Perm-length p ∙ Perm-length q

  pub Perm-All : {xs ys : List A} (P : A → Type 0) → Permᴰ xs ys → All P xs → All P ys
  Perm-All P Permᴰ.nil h = h
  Perm-All P (Permᴰ.cons e p) h = (rw e at h.0, Perm-All P p h.1)
  Perm-All P (Permᴰ.swap e f) h = (rw f at h.1.0, (rw e at h.0, h.1.1))
  Perm-All P (Permᴰ.trans p q) h = Perm-All P q (Perm-All P p h)

  -- Pairwise different keys.
  abbrev pub Unique : (A → ℕ) → List A → Type 0
  Unique key [] = Unit
  Unique key (x ∷ xs) = All (λ y. key x ≢ key y) xs × Unique key xs

  All-key :
      (key : A → ℕ) (a b : A) (l : List A)
      → a ≡ b
      → All (λ y. key a ≢ key y) l
      → All (λ y. key b ≢ key y) l
  All-key key a b l e h = subst (λ (z : A). All (λ y. key z ≢ key y) l) e h

  pub Perm-Unique : {xs ys : List A} (key : A → ℕ) → Permᴰ xs ys → Unique key xs → Unique key ys
  Perm-Unique key Permᴰ.nil h = h
  Perm-Unique key (Permᴰ.cons e p) h = (rw e at (Perm-All (λ y. _) p h.0), Perm-Unique key p h.1)
  Perm-Unique key (Permᴰ.swap e f) h = (
    ((λ z. h.0.0 (ap key e ∙ sym z ∙ sym (ap key f))), All-key key _ _ _ f h.1.0),
    (All-key key _ _ _ e h.0.1, h.1.1),
  )
  Perm-Unique key (Permᴰ.trans p q) h = Perm-Unique key q (Perm-Unique key p h)

  pub In-take : (n : ℕ) (x : A) (xs : List A) → In x (take n xs) → In x xs
  In-take zero x xs h = absurd h
  In-take (suc n) x [] h = absurd h
  In-take (suc n) x (y ∷ ys) (inl e) = inl e
  In-take (suc n) x (y ∷ ys) (inr h) = inr (In-take n x ys h)

  pub All-In : (P : A → Type 0) (x : A) (xs : List A) → All P xs → In x xs → P x
  All-In P x [] h i = absurd i
  All-In P x (y ∷ ys) h (inl e) = rw e h.0
  All-In P x (y ∷ ys) h (inr i) = All-In P x ys h.1 i

  pub In-All : (P : A → Type 0) (xs : List A) → ((x : A) → In x xs → P x) → All P xs
  In-All P [] h = tt
  In-All P (y ∷ ys) h = (h y (inl refl), In-All P ys (λ x i. h x (inr i)))

  pub Unique-take : (key : A → ℕ) (n : ℕ) (xs : List A) → Unique key xs → Unique key (take n xs)
  Unique-take key zero xs h = tt
  Unique-take key (suc n) [] h = tt
  Unique-take key (suc n) (y ∷ ys) h =
      (In-All _ (take n ys) (λ x i. All-In _ x ys h.0 (In-take n x ys i)), Unique-take key n ys h.1)

  pub at_height-In :
      (lock : A → ℕ) (h : ℕ) (m : Map A) (x : A)
      → In x (at_height lock h m)
      → (a : ℕ) × In (a, x) m × (lock x ≡ h)
  unfolding at_height
  at_height-In lock h [] x i = absurd i
  at_height-In lock h ((a, y) ∷ m) x i = elim (Bool-cases (lock y == h)) [
    | inr other ↦ let (b, j, e) = at_height-In lock h m x (rw other at i) in (b, inr j, e)
    | inl same ↦ elim (rw same at i) [
      | inl e ↦ (a, inl (ap (λ (z : A). (a, z)) e), ground (arith, ap lock e))
      | inr j ↦ let (b, k, e) = at_height-In lock h m x j in (b, inr k, e)
    ]
  ]

  pub In-at_height :
      (lock : A → ℕ) (h : ℕ) (m : Map A) (a : ℕ) (x : A)
      → In (a, x) m
      → lock x ≡ h
      → In x (at_height lock h m)
  unfolding at_height
  In-at_height lock h [] a x i e = absurd i
  In-at_height lock h ((b, y) ∷ m) a x (inl same) e =
      let q : x ≡ y = ap (λ (p : ℕ × A). p.1) same in
      let t : (lock y == h) ≡ true = ground (arith, ap lock q) in rw t (inl q)
  In-at_height lock h ((b, y) ∷ m) a x (inr i) e = elim (Bool-cases (lock y == h)) [
    | inl here ↦ rw here (inr (In-at_height lock h m a x i e))
    | inr other ↦ rw other (In-at_height lock h m a x i e)
  ]

  -- What `dedupByKey` keeps has keys that are new and pairwise different.
  dedup-fresh :
      (key : A → ℕ) (seen : List ℕ) (xs : List A)
      → All (λ x. member (key x) seen ≡ false) (dedup_by_key key seen xs)
  unfolding dedup_by_key
  dedup-fresh key seen [] = tt
  dedup-fresh key seen (x ∷ xs) = elim (Bool-cases (member (key x) seen)) [
    | inl old ↦ rw old (dedup-fresh key seen xs)
    | inr new ↦ rw new (
      new,
      In-All _ _ (λ y i. ground (arith, All-In _ y _ (dedup-fresh key (key x ∷ seen) xs) i)),
    )
  ]

  pub dedup-Unique :
      (key : A → ℕ) (seen : List ℕ) (xs : List A) → Unique key (dedup_by_key key seen xs)
  unfolding dedup_by_key
  dedup-Unique key seen [] = tt
  dedup-Unique key seen (x ∷ xs) = elim (Bool-cases (member (key x) seen)) [
    | inl old ↦ rw old (dedup-Unique key seen xs)
    | inr new ↦ rw new (
      In-All _ _ (λ y i. ground (arith, All-In _ y _ (dedup-fresh key (key x ∷ seen) xs) i)),
      dedup-Unique key (key x ∷ seen) xs,
    )
  ]

  pub dedup-In :
      (key : A → ℕ) (seen : List ℕ) (xs : List A) (x : A)
      → In x (dedup_by_key key seen xs)
      → In x xs
  unfolding dedup_by_key
  dedup-In key seen [] x i = i
  dedup-In key seen (y ∷ xs) x i = elim (Bool-cases (member (key y) seen)) [
    | inl old ↦ inr (dedup-In key seen xs x (rw old at i))
    | inr new ↦ elim (rw new at i) [
      | inl e ↦ inl e
      | inr j ↦ inr (dedup-In key (key y ∷ seen) xs x j)
    ]
  ]
