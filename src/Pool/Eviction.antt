-- ===== src/Pool/Eviction.antt =====
-- `cheapestEntry` returns the least entry, in whatever order the map is iterated.
use ngcore.Base.{
  ℕ, ◌≤◌, ◌<◌, ◌≡◌, refl, ap, ◌∙◌, sym, Option, none, some, [], ◌∷◌, ◌⊎◌, inl, inr, In, length, ltb,
  ◌==◌, ◌&&◌, ◌||◌, Bool-cases, Option-cases, ap₂, arith,
}
use ngcore.Types.{FullTx, Address}
use ngcore.Maps.{Map, lookup, Distinct}
use ngcore.Maps.Laws.{lookup-In, In-lookup}
use ngcore.Pool.{cheaper, cheapest_from, cheapest_entry}

-- The entry (a, f) is evicted before (b, g): a lower fee, or the same fee and no lower address.
abbrev pub Before : Address → ℕ → Address → ℕ → Type 0
Before a f b g = (f < g) ⊎ ((f ≡ g) × (b ≤ a))

Before-trans : (a f b g c h : ℕ) → Before a f b g → Before b g c h → Before a f c h
Before-trans a f b g c h p q = ground arith

-- What the loop has found: an entry that comes before the best so far and every entry of `m`.
record IsLeast (m : Map FullTx) (best : Option (Address × ℕ)) (a : Address) (f : ℕ) : Type 0 where
  source : (best ≡ some (a, f)) ⊎ ((tx : FullTx) × In (a, tx) m × (tx.fee ≡ f))
  below : (b : Address) (tx : FullTx) → In (b, tx) m → Before a f b tx.fee
  below_best : (b : Address) (g : ℕ) → best ≡ some (b, g) → Before a f b g

cheaper-some :
    (b : Address) (tx : FullTx) (best : Option (Address × ℕ))
    → (a : Address) × (f : ℕ) × (cheaper (b, tx) best ≡ some (a, f))
      × ((best ≡ some (a, f)) ⊎ ((a ≡ b) × (f ≡ tx.fee)))
      × Before a f b tx.fee
      × ((c : Address) (g : ℕ) → best ≡ some (c, g) → Before a f c g)
unfolding cheaper
cheaper-some b tx none = (b, tx.fee, refl, inr (refl, refl), inr (refl, omega arith), λ c g e. cc)
cheaper-some b tx (some (a, f)) = elim (Bool-cases (ltb tx.fee f || (tx.fee == f && ltb a b))) [
  | inl new ↦
      (b, tx.fee, ground arith, inr (refl, refl), inr (refl, omega arith), λ c g e. ground arith)
  | inr old ↦ (a, f, ground arith, inl refl, ground arith, λ c g e. ground arith)
]

same_best :
    {a b : Address} {f g : ℕ} {best : Option (Address × ℕ)}
    → best ≡ some (a, f)
    → best ≡ some (b, g)
    → Before a f b g
same_best e h = ground arith

same_entry :
    (a : Address) (f : ℕ) (b d : Address) (tx u : FullTx)
    → ◌≡◌ {A = ℕ × FullTx} (d, u) (b, tx)
    → Before a f b tx.fee
    → Before a f d u.fee
same_entry a f b d tx u e h =
    ground (arith, ap (λ (p : ℕ × FullTx). p.0) e, ap (λ (p : ℕ × FullTx). p.1.fee) e)

source_step :
    (a : Address) (f : ℕ) (c : Address) (g : ℕ) (b : Address) (tx : FullTx) (m : Map FullTx)
    (best next : Option (Address × ℕ))
    → next ≡ some (c, g)
    → (best ≡ some (c, g)) ⊎ ((c ≡ b) × (g ≡ tx.fee))
    → (next ≡ some (a, f)) ⊎ ((t : FullTx) × In (a, t) m × (t.fee ≡ f))
    → (best ≡ some (a, f)) ⊎ ((t : FullTx) × In (a, t) ((b, tx) ∷ m) × (t.fee ≡ f))
source_step a f c g b tx m best next found (inl o) (inl s) = inl (o ∙ sym found ∙ s)
source_step a f c g b tx m best next found (inr (p, q)) (inl s) =
    inr (tx, inl (ground arith), ground arith)
source_step a f c g b tx m best next found o (inr (t, i, q)) = inr (t, inr i, q)

cheapest_from-IsLeast :
    (m : Map FullTx) (best : Option (Address × ℕ)) (a : Address) (f : ℕ)
    → cheapest_from m best ≡ some (a, f)
    → IsLeast m best a f
unfolding cheapest_from
cheapest_from-IsLeast [] best a f e = record {
  source = inl e;
  below = λ b tx h. absurd h;
  below_best = λ b g h. same_best e h;
}
cheapest_from-IsLeast ((b, tx) ∷ m) best a f e =
    let (c, g, found, origin, under, under_best) = cheaper-some b tx best in
    let rest = cheapest_from-IsLeast m (cheaper (b, tx) best) a f e in
    record {
      source = source_step a f c g b tx m best (cheaper (b, tx) best) found origin rest.source;
      below = λ d u h. elim h [
        | inl e' ↦
            same_entry a f b d tx u e'
              (Before-trans a f c g b tx.fee (rest.below_best c g found) under)
        | inr i ↦ rest.below d u i
      ];
      below_best = λ d k h. Before-trans a f c g d k (rest.below_best c g found) (under_best d k h);
    }

cheapest_entry-IsLeast :
    (m : Map FullTx) {a : Address} {f : ℕ} → cheapest_entry m ≡ some (a, f) → IsLeast m none a f
unfolding cheapest_entry
cheapest_entry-IsLeast m e = cheapest_from-IsLeast m none _ _ e

found-In :
    (m : Map FullTx) (a : Address) (f : ℕ)
    → Distinct m
    → (◌≡◌ {A = Option (Address × ℕ)} none (some (a, f)))
      ⊎ ((t : FullTx) × In (a, t) m × (t.fee ≡ f))
    → (t : FullTx) × (lookup a m ≡ some t) × (t.fee ≡ f)
found-In m a f d (inl e) = cc
found-In m a f d (inr (t, i, q)) = (t, In-lookup a t m d i, q)

pub cheapest_entry-found :
    (m : Map FullTx) (a : Address) (f : ℕ)
    → Distinct m
    → cheapest_entry m ≡ some (a, f)
    → (t : FullTx) × (lookup a m ≡ some t) × (t.fee ≡ f)
cheapest_entry-found m a f d e = found-In m a f d (cheapest_entry-IsLeast m e).source

-- The entry that eviction picks from a map without a repeated key is in the map, and comes before
-- every entry of it: none has a lower fee, and none of the same fee has a higher address.
pub cheapest_entry-least :
    (m : Map FullTx) (a : Address) (f : ℕ) (b : Address) (tx : FullTx)
    → Distinct m
    → cheapest_entry m ≡ some (a, f)
    → lookup b m ≡ some tx
    → ((t : FullTx) × (lookup a m ≡ some t) × (t.fee ≡ f)) × Before a f b tx.fee
cheapest_entry-least m a f b tx d e h =
    let least = cheapest_entry-IsLeast m e in
    (found-In m a f d least.source, least.below b tx (lookup-In b tx m h))

cheapest_from-some :
    (m : Map FullTx) (best : Address × ℕ)
    → (r : Address × ℕ) × (cheapest_from m (some best) ≡ some r)
unfolding cheapest_from
cheapest_from-some [] best = (best, refl)
cheapest_from-some ((b, tx) ∷ m) best =
    let (c, g, found, _, _, _) = cheaper-some b tx (some best) in
    rw found (cheapest_from-some m (c, g))

cheapest_entry-none : (m : Map FullTx) (k : ℕ) → cheapest_entry m ≡ none → lookup k m ≡ none
unfolding cheapest_entry cheapest_from lookup
cheapest_entry-none [] k e = refl
cheapest_entry-none ((b, tx) ∷ m) k e =
    let (c, g, found, _, _, _) = cheaper-some b tx none in
    let (r, some_r) = cheapest_from-some m (c, g) in cc (e, found, some_r)

Before-antisym : (a f b g : ℕ) → Before a f b g → Before b g a f → (a ≡ b) × (f ≡ g)
Before-antisym a f b g p q = ground arith

both_least :
    (m m' : Map FullTx) (r r' : Address × ℕ)
    → Distinct m
    → Distinct m'
    → ((k : ℕ) → lookup k m ≡ lookup k m')
    → cheapest_entry m ≡ some r
    → cheapest_entry m' ≡ some r'
    → (r.0 ≡ r'.0) × (r.1 ≡ r'.1)
both_least m m' r r' d d' same e e' =
    let (t, i, q) = found-In m r.0 r.1 d (cheapest_entry-IsLeast m e).source in
    let (t', i', q') = found-In m' r'.0 r'.1 d' (cheapest_entry-IsLeast m' e').source in
    Before-antisym r.0 r.1 r'.0 r'.1
      (rw (← q') (cheapest_entry-least m r.0 r.1 r'.0 t' d e (same r'.0 ∙ i')).1)
      (rw (← q) (cheapest_entry-least m' r'.0 r'.1 r.0 t d' e' (sym (same r.0) ∙ i)).1)

-- The iteration order does not show: two maps without a repeated key and with the same lookups have
-- the same cheapest entry.
pub cheapest_entry-order :
    (m m' : Map FullTx)
    → Distinct m
    → Distinct m'
    → ((k : ℕ) → lookup k m ≡ lookup k m')
    → cheapest_entry m ≡ cheapest_entry m'
cheapest_entry-order m m' d d' same = elim (Option-cases (cheapest_entry m)) [
  | inl e ↦ elim (Option-cases (cheapest_entry m')) [
    | inl e' ↦ e ∙ sym e'
    | inr (r', e') ↦
        let (t, i, q) = found-In m' r'.0 r'.1 d' (cheapest_entry-IsLeast m' e').source in
        cc (cheapest_entry-none m r'.0 e, same r'.0, i)
  ]
  | inr (r, e) ↦ elim (Option-cases (cheapest_entry m')) [
    | inl e' ↦
        let (t, i, q) = found-In m r.0 r.1 d (cheapest_entry-IsLeast m e).source in
        cc (cheapest_entry-none m' r.0 e', same r.0, i)
    | inr (r', e') ↦
        let (p, q) = both_least m m' r r' d d' same e e' in
        e ∙ ap₂ (λ (a f : ℕ). some (a, f)) p q ∙ sym e'
  ]
]

pub cheapest_entry-empty : (m : Map FullTx) → cheapest_entry m ≡ none → length m ≡ 0
unfolding cheapest_entry cheapest_from
cheapest_entry-empty [] e = refl
cheapest_entry-empty ((b, tx) ∷ m) e =
    let (c, g, found, _, _, _) = cheaper-some b tx none in
    let (r, some_r) = cheapest_from-some m (c, g) in cc (e, found, some_r)
