-- ===== src/Chain/Work.antt =====
-- `cumulativeWork` against its definition: the sum of the declared difficulties down to the origin.
use ngcore.Base.{
  ℕ, zero, suc, ◌+◌, ◌≡◌, ◌≢◌, refl, sym, ap, ap₂, ◌∙◌, Option, none, some, inl, inr, ◌⊎◌, ◌==◌,
  ◌<◌, Bool-cases, Option-cases, arith,
}
use mathlib.Core.Path.{subst}
use ngcore.Types.{Hash, FullBlock}
use ngcore.Maps.{lookup}
use ngcore.Maps.Laws.{lookup-insert}
use ngcore.Blocks.{BlockStore, get_block_by_hash, put_block_work}
use ngcore.Chain.{work_of, cumulative_work}

-- The work of the chain of `n` links that ends at a digest, by the stored bodies.
pub data WorkTo (s : BlockStore) : Hash → ℕ → ℕ → Type 0 where
  origin :
      (b : FullBlock) (g : Hash)
      → g ≡ s.origin_hash
      → lookup g s.bodies ≡ some b
      → WorkTo s g 0 (work_of b)
  above :
      (b : FullBlock) (g : Hash) (n w : ℕ)
      → g ≢ s.origin_hash
      → lookup g s.bodies ≡ some b
      → WorkTo s b.prev_block_hash n w
      → WorkTo s g (suc n) (w + work_of b)

-- Every memoized work is the work of its chain.
abbrev pub IsMemo : BlockStore → Type 0
IsMemo s = (g : Hash) (w : ℕ) → lookup g s.work ≡ some w → (n : ℕ) × WorkTo s g n w

-- The two stores differ in their memos only.
abbrev pub Same : BlockStore → BlockStore → Type 0
Same s s' = (s'.bodies ≡ s.bodies) × (s'.origin_hash ≡ s.origin_hash) × (s'.canon ≡ s.canon)

same_block : {b c : FullBlock} {o : Option FullBlock} → o ≡ some b → o ≡ some c → b ≡ c
same_block e f = cc

WorkTo-unique : (s : BlockStore) (g : Hash) (n m v w : ℕ) → WorkTo s g n v → WorkTo s g m w → v ≡ w
WorkTo-unique s g _ _ _ _ (origin b _ e p) (origin c _ f q) =
    ap (λ (x : FullBlock). work_of x) (same_block p q)
WorkTo-unique s g _ _ _ _ (origin b _ e p) (above c _ m w ne q r) = absurd (ne e)
WorkTo-unique s g _ _ _ _ (above c _ m w ne q r) (origin b _ e p) = absurd (ne e)
WorkTo-unique s g _ _ _ _ (above b _ n v ne p r) (above c _ m w ne' q r') =
    let same = same_block p q in
    let rest =
      WorkTo-unique s c.prev_block_hash n m v w
        (subst (λ (x : FullBlock). WorkTo s x.prev_block_hash n v) same r) r' in
    ap₂ (λ i j. i + j) rest (ap (λ (x : FullBlock). work_of x) same)

WorkTo-Same :
    (s s' : BlockStore) (g : Hash) (n w : ℕ) → Same s s' → WorkTo s g n w → WorkTo s' g n w
WorkTo-Same s s' g _ _ same (origin b _ e p) =
    origin b g (e ∙ sym same.1) (ap (lookup g) same.0 ∙ p)
WorkTo-Same s s' g _ _ same (above b _ n w ne p r) =
    above b g n w (λ e. ne (e ∙ same.1)) (ap (lookup g) same.0 ∙ p)
      (WorkTo-Same s s' b.prev_block_hash n w same r)

put-IsMemo :
    (s : BlockStore) (g : Hash) (n w : ℕ)
    → IsMemo s
    → WorkTo s g n w
    → IsMemo (put_block_work s g w)
unfolding put_block_work
put-IsMemo s g n w memo r = λ h v e. elim (Bool-cases (g == h)) [
  | inr other ↦
      let (m, q) = memo h v (ground (arith, lookup-insert g h w s.work)) in
      (m, WorkTo-Same s _ h m v (refl, refl, refl) q)
  | inl here ↦
      let p : g ≡ h = ground arith in
      let q : w ≡ v = ground (arith, lookup-insert g h w s.work) in
      (
        n,
        WorkTo-Same s _ h n v (refl, refl, refl)
            (subst (λ (k : ℕ). WorkTo s h n k) q (subst (λ (k : Hash). WorkTo s k n w) p r)),
      )
]

WorkTo-stored :
    (s : BlockStore) (g : Hash) (n w : ℕ)
    → WorkTo s g n w
    → (b : FullBlock) × (lookup g s.bodies ≡ some b)
WorkTo-stored s g _ _ (origin b _ e p) = (b, p)
WorkTo-stored s g _ _ (above b _ n w ne p r) = (b, p)

-- The last link of a chain that ends at a stored block.
WorkTo-cases :
    (s : BlockStore) (g : Hash) (n w : ℕ) (b : FullBlock)
    → lookup g s.bodies ≡ some b
    → WorkTo s g n w
    → ((g ≡ s.origin_hash) × (w ≡ work_of b))
      ⊎ ((g ≢ s.origin_hash)
          × ((m : ℕ) × (v : ℕ) × (n ≡ suc m)
              × (w ≡ v + work_of b)
              × WorkTo s b.prev_block_hash m v))
WorkTo-cases s g _ _ b held (origin c _ e p) =
    inl (e, ap (λ (x : FullBlock). work_of x) (same_block p held))
WorkTo-cases s g _ _ b held (above c _ n w ne p r) =
    let same = same_block p held in
    inr (
      ne,
      (
        n,
        w,
        refl,
        ap (λ (x : FullBlock). w + work_of x) same,
        subst (λ (x : FullBlock). WorkTo s x.prev_block_hash n w) same r,
      ),
    )

module _ (block_hash : FullBlock → Hash) where
  step-memo :
      (fuel : ℕ) (s : BlockStore) (block : FullBlock) (v : ℕ)
      → lookup (block_hash block) s.work ≡ some v
      → cumulative_work block_hash (suc fuel) s block ≡ some (v, s)
  unfolding cumulative_work
  step-memo fuel s block v e = ground (arith, e)

  step-above :
      (fuel : ℕ) (s s' : BlockStore) (block parent : FullBlock) (v : ℕ)
      → lookup (block_hash block) s.work ≡ none
      → block_hash block ≢ s.origin_hash
      → lookup block.prev_block_hash s.bodies ≡ some parent
      → cumulative_work block_hash fuel s parent ≡ some (v, s')
      → cumulative_work block_hash (suc fuel) s block
        ≡ some (v + work_of block, put_block_work s' (block_hash block) (v + work_of block))
  unfolding cumulative_work get_block_by_hash
  step-above fuel s s' block parent v e ne there done = ground (arith, e, ne, there, done)

  -- On a chain that links a stored block to the origin, with more fuel than it has links, where
  -- each body is stored under its digest and the memoized works are right, the walk ends with the
  -- sum of the declared difficulties of the chain, whatever part of it was memoized: it memoizes
  -- only such sums and changes neither bodies, origin nor height index.
  pub cumulative_work-WorkTo :
      (fuel : ℕ) (s : BlockStore) (block : FullBlock) (n w : ℕ)
      → ((b : FullBlock) (g : Hash) → lookup g s.bodies ≡ some b → block_hash b ≡ g)
      → IsMemo s
      → lookup (block_hash block) s.bodies ≡ some block
      → WorkTo s (block_hash block) n w
      → n < fuel
      → (s' : BlockStore) × (cumulative_work block_hash fuel s block ≡ some (w, s'))
        × IsMemo s'
        × Same s s'
  unfolding cumulative_work put_block_work get_block_by_hash
  cumulative_work-WorkTo zero s block n w digests memo held r lt = absurd (omega arith)
  cumulative_work-WorkTo (suc fuel) s block n w digests memo held r lt =
      elim (Option-cases (lookup (block_hash block) s.work)) [
        | inr (v, e) ↦
            let (m, q) = memo (block_hash block) v e in
            let same = WorkTo-unique s (block_hash block) m n v w q r in
            (
              s,
              step-memo fuel s block v e ∙ ap (λ (k : ℕ). some (k, s)) same,
              memo,
              (refl, refl, refl),
            )
        | inl e ↦ elim (WorkTo-cases s (block_hash block) n w block held r) [
          | inl (first, total) ↦ (
            put_block_work s (block_hash block) (work_of block),
            ground (arith, e),
            put-IsMemo s (block_hash block) n (work_of block) memo
                (subst (λ (k : ℕ). WorkTo s (block_hash block) n k) total r),
            (refl, refl, refl),
          )
          | inr (ne, (m, v, links, total, q)) ↦
              let (parent, there) = WorkTo-stored s block.prev_block_hash m v q in
              let named = digests parent block.prev_block_hash there in
              let (s₁, done, memo₁, same) =
                cumulative_work-WorkTo fuel s parent m v digests memo
                  (ap (λ k. lookup k s.bodies) named ∙ there)
                  (subst (λ (k : Hash). WorkTo s k m v) (sym named) q) (omega arith) in
              (
                put_block_work s₁ (block_hash block) (v + work_of block),
                step-above fuel s s₁ block parent v e ne there done
                    ∙ ap
                        (λ (k : ℕ).
                          some (k, put_block_work s₁ (block_hash block) (v + work_of block)))
                        (sym total),
                put-IsMemo s₁ (block_hash block) n (v + work_of block) memo₁ (
                    WorkTo-Same s s₁ (block_hash block) n (v + work_of block) same
                      (subst (λ (k : ℕ). WorkTo s (block_hash block) n k) total r)),
                same,
              )
        ]
      ]
