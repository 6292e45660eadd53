-- ===== src/Maps/Weigh.antt =====
-- The weight of a map, a number for each of its values, and how insertions, deletions and an overlay
-- written over the map change it.
use ngcore.Base.{
  ℕ, ◌+◌, ◌≡◌, refl, sym, ap, ◌∙◌, Option, none, some, [], ◌∷◌, ◌==◌, inl, inr, Bool-cases,
  Option-cases, arith,
}
use ngcore.Maps.{Map, lookup, insert, erase, Distinct}
use ngcore.Maps.Laws.{lookup-insert, insert-Distinct}

module _ {A : Type 0} where
  -- An overlay written over a map, entry by entry.
  unfoldable pub flush_over : Map A → Map A → Map A
  flush_over [] m = m
  flush_over ((key, x) ∷ over) m = flush_over over (insert key x m)

  -- A read through the overlay.
  abbrev pub seen : Map A → Map A → ℕ → Option A
  seen over m key = elim (lookup key over) [ none ↦ lookup key m | some x ↦ some x ]

  pub lookup-flush_over :
      (over m : Map A) (key : ℕ) → Distinct over → lookup key (flush_over over m) ≡ seen over m key
  unfolding flush_over lookup
  lookup-flush_over [] m key d = refl
  lookup-flush_over ((a, x) ∷ over) m key d =
      ground (arith, lookup-flush_over over (insert a x m) key d.1, lookup-insert a key x m)

module _ {A : Type 0} (f : A → ℕ) where
  abbrev pub worth : Option A → ℕ
  worth none = 0
  worth (some x) = f x

  abbrev pub weigh : Map A → ℕ
  weigh [] = 0
  weigh ((a, x) ∷ rest) = f x + weigh rest

  pub weigh-insert :
      (key : ℕ) (x : A) (m : Map A) → weigh (insert key x m) + worth (lookup key m) ≡ weigh m + f x
  unfolding insert lookup
  weigh-insert key x [] = omega arith
  weigh-insert key x ((a, y) ∷ rest) = ground (arith, weigh-insert key x rest)

  weigh-erase_absent : (key : ℕ) (m : Map A) → lookup key m ≡ none → weigh (erase key m) ≡ weigh m
  unfolding erase lookup
  weigh-erase_absent key [] e = refl
  weigh-erase_absent key ((a, y) ∷ rest) e = ground (arith, weigh-erase_absent key rest)

  pub weigh-erase :
      (key : ℕ) (m : Map A) → Distinct m → weigh (erase key m) + worth (lookup key m) ≡ weigh m
  unfolding erase lookup
  weigh-erase key [] d = refl
  weigh-erase key ((a, y) ∷ rest) d = elim (Bool-cases (a == key)) [
    | inr other ↦ ground (arith, weigh-erase key rest d.1)
    | inl same ↦
        let p : a ≡ key = ground arith in
        let gone = weigh-erase_absent key rest (ap (λ k. lookup k rest) (sym p) ∙ d.0) in
        ground arith
  ]

  -- What the overlay's keys weigh in the map beneath.
  abbrev bases : Map A → Map A → ℕ
  bases m [] = 0
  bases m ((a, x) ∷ over) = worth (lookup a m) + bases m over

  bases-insert_under :
      (m over : Map A) (key : ℕ) (x : A)
      → lookup key over ≡ none
      → bases (insert key x m) over ≡ bases m over
  unfolding lookup
  bases-insert_under m [] key x e = refl
  bases-insert_under m ((a, y) ∷ over) key x e =
      ground (arith, bases-insert_under m over key x, lookup-insert key a x m)

  weigh-flush_over :
      (over m : Map A)
      → Distinct over
      → weigh (flush_over over m) + bases m over ≡ weigh m + weigh over
  unfolding flush_over
  weigh-flush_over [] m d = refl
  weigh-flush_over ((a, x) ∷ over) m d = omega (
    arith,
    weigh-flush_over over (insert a x m) d.1,
    bases-insert_under m over a x d.0,
    weigh-insert a x m,
  )

  bases-insert_new :
      (m over : Map A) (key : ℕ) (x : A)
      → lookup key over ≡ none
      → bases m (insert key x over) ≡ bases m over + worth (lookup key m)
  unfolding lookup insert
  bases-insert_new m [] key x e = omega arith
  bases-insert_new m ((a, y) ∷ over) key x e = ground (arith, bases-insert_new m over key x)

  bases-insert_old :
      (m over : Map A) (key : ℕ) (x y : A)
      → lookup key over ≡ some y
      → bases m (insert key x over) ≡ bases m over
  unfolding lookup insert
  bases-insert_old m [] key x y e = cc
  bases-insert_old m ((a, z) ∷ over) key x y e = elim (Bool-cases (a == key)) [
    | inl same ↦ let p : a ≡ key = ground arith in ground (arith, ap (λ k. worth (lookup k m)) p)
    | inr other ↦ ground (arith, bases-insert_old m over key x y)
  ]

  worth-seen_absent :
      (over m : Map A) (key : ℕ)
      → lookup key over ≡ none
      → (worth (seen over m key) ≡ worth (lookup key m)) × (worth (lookup key over) ≡ 0)
  worth-seen_absent over m key e = ground arith

  worth-seen_present :
      (over m : Map A) (key : ℕ) (y : A)
      → lookup key over ≡ some y
      → worth (seen over m key) ≡ worth (lookup key over)
  worth-seen_present over m key y e = ground arith

  -- A write to the overlay changes the weight of the whole by the difference of the two values.
  pub weigh-write_over :
      (over m : Map A) (key : ℕ) (x : A)
      → Distinct over
      → weigh (flush_over (insert key x over) m) + worth (seen over m key)
        ≡ weigh (flush_over over m) + f x
  weigh-write_over over m key x d =
      let before = weigh-flush_over over m d in
      let after = weigh-flush_over (insert key x over) m (insert-Distinct key x over d) in
      let wrote = weigh-insert key x over in
      elim (Option-cases (lookup key over)) [
        | inl e ↦ omega (
          arith,
          before,
          after,
          wrote,
          bases-insert_new m over key x e,
          worth-seen_absent over m key e,
        )
        | inr (y, e) ↦ omega (
          arith,
          before,
          after,
          wrote,
          bases-insert_old m over key x y e,
          worth-seen_present over m key y e,
        )
      ]
