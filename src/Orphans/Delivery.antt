-- ===== src/Orphans/Delivery.antt =====
-- The count of the pool of orphans, and what a parent's arrival hands over.
use ngcore.Base.{
  ◌+◌, ◌≡◌, ◌≤◌, refl, ap, ◌∙◌, Bool, true, false, List, [], ◌∷◌, ◌++◌, length, ==_self, inl, inr,
  subst, Option-cases, arith,
}
use ngcore.Types.{Hash, FullBlock}
use ngcore.Maps.{lookup, Distinct}
use ngcore.Maps.Laws.{lookup-insert, lookup-erase, insert-Distinct, erase-Distinct}
use ngcore.Maps.Weigh.{weigh, worth, weigh-insert, weigh-erase}
use ngcore.Orphans.{
  OrphanPool, max_orphan_blocks, new_orphan_pool, waiting, is_waiting, add, take_children,
}

-- The count is the number of the stored blocks, and never above the bound.
abbrev pub IsPool : OrphanPool → Type 0
IsPool p = Distinct p.by_prev × (p.count ≡ weigh length p.by_prev) × (p.count ≤ max_orphan_blocks)

length-snoc : {A : Type 0} (xs : List A) (x : A) → length (xs ++ (x ∷ [])) ≡ length xs + 1
length-snoc [] x = refl
length-snoc (y ∷ xs) x = omega (arith, length-snoc xs x)

length-waiting :
    (key : Hash) (p : OrphanPool) → length (waiting key p) ≡ worth length (lookup key p.by_prev)
unfolding waiting
length-waiting key p = ground arith

take_children-waiting : (key : Hash) (p : OrphanPool) → (take_children key p).0 ≡ waiting key p
unfolding take_children waiting
take_children-waiting key p = ground arith

take_children-IsPool :
    (key : Hash) (p : OrphanPool)
    → IsPool p
    → IsPool (take_children key p).1
      × ((take_children key p).1.count + length (waiting key p) ≡ p.count)
unfolding take_children
take_children-IsPool key p ok =
    let size = length-waiting key p in
    let weight = weigh-erase length key p.by_prev ok.0 in
    elim (Option-cases (lookup key p.by_prev)) [
      | inl e ↦ ground (arith, size)
      | inr (children, e) ↦ let fine = erase-Distinct key p.by_prev ok.0 in ground arith
    ]

module _ (digest : FullBlock → Hash) where
  add-IsPool : (b : FullBlock) (p : OrphanPool) → IsPool p → IsPool (add digest b p).1
  unfolding add
  add-IsPool b p ok =
      let key = b.prev_block_hash in
      let more = waiting key p ++ (b ∷ []) in
      let fine = insert-Distinct key more p.by_prev ok.0 in
      let weight = weigh-insert length key more p.by_prev in
      let size = length-waiting key p in let longer = length-snoc (waiting key p) b in ground arith

  -- Taken twice, a parent hands over nothing.
  take_children-again :
      (key : Hash) (p : OrphanPool) → (take_children key (take_children key p).1).0 ≡ []
  unfolding take_children
  take_children-again key p = ground (arith, lookup-erase key key p.by_prev, ==_self key)

  pub data OrphanEvent : Type 0 where
    arrives : FullBlock → OrphanEvent
    parent_found : Hash → OrphanEvent

  -- The pool after the events, the latest of them first.
  unfoldable pub run_events : List OrphanEvent → OrphanPool
  unfolding add take_children
  run_events [] = new_orphan_pool
  run_events (arrives b ∷ events) = (add digest b (run_events events)).1
  run_events (parent_found key ∷ events) = (take_children key (run_events events)).1

  run_events-IsPool : (events : List OrphanEvent) → IsPool (run_events events)
  unfolding run_events
  run_events-IsPool [] = (tt, refl, omega arith)
  run_events-IsPool (arrives b ∷ events) =
      add-IsPool b (run_events events) (run_events-IsPool events)
  run_events-IsPool (parent_found key ∷ events) =
      (take_children-IsPool key (run_events events) (run_events-IsPool events)).0

  waiting-add :
      (b : FullBlock) (p p' : OrphanPool)
      → add digest b p ≡ (true, p')
      → (waiting b.prev_block_hash p' ≡ waiting b.prev_block_hash p ++ (b ∷ []))
        × (p'.count ≡ p.count + 1)
        × (is_waiting digest (digest b) (waiting b.prev_block_hash p) ≡ false)
  unfolding add waiting
  waiting-add b p p' e =
      let key = b.prev_block_hash in
      let more = waiting key p ++ (b ∷ []) in
      ground (arith, lookup-insert key key more p.by_prev, ==_self key)

  -- After any arrivals and any found parents, the count of the pool is the number of its blocks and
  -- at most 128. Where the pool accepts one more block, no block of its hash waited for its parent;
  -- when the parent is found next, the blocks that waited for it are handed over in the order in
  -- which they are held and the new block last, the count falls by their number, and a second take
  -- for the same parent hands over nothing.
  pub take_children-add :
      (events : List OrphanEvent) (b : FullBlock) (p : OrphanPool)
      → add digest b (run_events events) ≡ (true, p)
      → (p.count ≡ weigh length p.by_prev)
        × (p.count ≤ max_orphan_blocks)
        × (is_waiting digest (digest b) (waiting b.prev_block_hash (run_events events)) ≡ false)
        × ((take_children b.prev_block_hash p).0
            ≡ waiting b.prev_block_hash (run_events events) ++ (b ∷ []))
        × ((take_children b.prev_block_hash p).1.count
              + length (waiting b.prev_block_hash (run_events events))
              + 1
            ≡ p.count)
        × ((take_children b.prev_block_hash (take_children b.prev_block_hash p).1).0 ≡ [])
  take_children-add events b p e =
      let before = run_events events in
      let key = b.prev_block_hash in
      let valid : IsPool p =
        subst (λ (r : Bool × OrphanPool). IsPool r.1) e
          (add-IsPool b before (run_events-IsPool events)) in
      let placed = waiting-add b before p e in
      let handed = take_children-IsPool key p valid in
      let size : length (waiting key p) ≡ length (waiting key before) + 1 =
        ap length placed.0 ∙ length-snoc (waiting key before) b in
      (
        valid.1,
        valid.2,
        placed.2,
        take_children-waiting key p ∙ placed.0,
        omega (arith, handed.1, size),
        take_children-again key p,
      )
