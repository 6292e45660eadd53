-- ===== src/Relay/Bounded.antt =====
-- The queues of the relay stay within their size, and hold an item until its window closes.
use ngcore.Base.{
  ℕ, ◌+◌, ◌*◌, ◌≡◌, ◌≤◌, ◌<◌, refl, sym, ap, ◌∙◌, ◌||◌, Option, none, some, List, [], ◌∷◌, In,
  length, ltb, leb, ◌==◌, ==_self, subst, inl, inr, Bool-cases, Option-cases, arith, if◌then◌else◌,
}
use ngcore.Params.{commit_window, min_salt_size}
use ngcore.Types.{Address, Hash, FullTx, transact_tx, deploy_tx, tx_is_signed}
use ngcore.Maps.{Map, lookup, insert, Distinct}
use ngcore.Maps.Laws.{insert-Distinct, length-insert_new, length-insert_old, lookup-insert}
use ngcore.Envelope.{Crypto, tx_from}
use ngcore.Accounts.{State}
use ngcore.Accounts.Run.{Engine}
use ngcore.Accounts.Check.{check_reveal_except_commitment}
use ngcore.Relay.{
  Relay, held, enqueue, drop_expired, reveal_attempts, relay_reveals, relay_reveal, relay_expiry,
}

module _ {A : Type 0} where
  -- A queue with one item for each address, and no more than `n`.
  abbrev pub Within : ℕ → Map (A × ℕ) → Type 0
  Within n queue = Distinct queue × (length queue ≤ n)

  enqueue-Within :
      (n : ℕ) (from : Address) (item : A) (expire_at : ℕ) (queue queue' : Map (A × ℕ))
      → Within n queue
      → enqueue n from item expire_at queue ≡ some queue'
      → Within n queue' × (lookup from queue' ≡ some (item, expire_at))
  unfolding enqueue
  enqueue-Within n from item expire_at queue queue' ok e =
      let placed : Map (A × ℕ) = insert from (item, expire_at) queue in
      let fine = insert-Distinct from (item, expire_at) queue ok.0 in
      let found : lookup from placed ≡ some (item, expire_at) =
        ground (arith, lookup-insert from from (item, expire_at) queue, ==_self from) in
      elim (Option-cases (lookup from queue)) [
        | inr (old, there) ↦
            let same : placed ≡ queue' = ground arith in
            let size = length-insert_old from (item, expire_at) old queue there in
            subst (λ (q : Map (A × ℕ)). Within n q × (lookup from q ≡ some (item, expire_at))) same
              ((fine, omega (arith, size, ok.1)), found)
        | inl absent ↦ elim (Bool-cases (leb n (length queue))) [
          | inl full ↦ absurd (ground arith)
          | inr room ↦
              let same : placed ≡ queue' = ground arith in
              let size = length-insert_new from (item, expire_at) queue absent in
              let less : length queue < n = ground arith in
              subst (λ (q : Map (A × ℕ)). Within n q × (lookup from q ≡ some (item, expire_at)))
                same ((fine, omega (arith, size, less)), found)
        ]
      ]

  drop_expired-length :
      (next : ℕ) (queue : Map (A × ℕ)) → length (drop_expired next queue) ≤ length queue
  unfolding drop_expired
  drop_expired-length next [] = omega arith
  drop_expired-length next ((from, (item, at)) ∷ queue) =
      ground (arith, drop_expired-length next queue)

  lookup-drop_absent :
      (next : ℕ) (from : Address) (queue : Map (A × ℕ))
      → lookup from queue ≡ none
      → lookup from (drop_expired next queue) ≡ none
  unfolding drop_expired lookup
  lookup-drop_absent next from [] e = refl
  lookup-drop_absent next from ((a, (item, at)) ∷ queue) e =
      ground (arith, lookup-drop_absent next from queue)

  drop_expired-Distinct :
      (next : ℕ) (queue : Map (A × ℕ)) → Distinct queue → Distinct (drop_expired next queue)
  unfolding drop_expired
  drop_expired-Distinct next [] d = tt
  drop_expired-Distinct next ((a, (item, at)) ∷ queue) d = elim (Bool-cases (ltb at next)) [
    | inl late ↦ rw late (drop_expired-Distinct next queue d.1)
    | inr early ↦
        rw early (lookup-drop_absent next a queue d.0, drop_expired-Distinct next queue d.1)
  ]

  pub same-item : (p q : A × ℕ) → some p ≡ some q → p ≡ q
  same-item p q e = cc

  lookup-drop_expired :
      (next : ℕ) (from : Address) (item : A) (at : ℕ) (queue : Map (A × ℕ))
      → next ≤ at
      → lookup from queue ≡ some (item, at)
      → lookup from (drop_expired next queue) ≡ some (item, at)
  unfolding drop_expired lookup
  lookup-drop_expired next from item at [] le e = cc
  lookup-drop_expired next from item at ((a, (x, b)) ∷ queue) le e = elim (Bool-cases (a == from)) [
    | inr other ↦ ground (arith, lookup-drop_expired next from item at queue le)
    | inl here ↦
        let out : (x, b) ≡ (item, at) = same-item (x, b) (item, at) (ground arith) in
        let last : b ≡ at = ap (λ (p : A × ℕ). p.1) out in ground (arith, last, out)
  ]

-- What stands in the queue is tried.
In-reveal_attempts :
    (next : ℕ) (from : Address) (tx : FullTx) (at : ℕ) (queue : Map (FullTx × ℕ))
    → lookup from queue ≡ some (tx, at)
    → In (record tx { height = next }) (reveal_attempts next queue)
unfolding reveal_attempts lookup
In-reveal_attempts next from tx at [] e = cc
In-reveal_attempts next from tx at ((a, (x, b)) ∷ queue) e = elim (Bool-cases (a == from)) [
  | inr other ↦ inr (In-reveal_attempts next from tx at queue (ground arith))
  | inl here ↦
      let out : (x, b) ≡ (tx, at) = same-item (x, b) (tx, at) (ground arith) in
      inl (ap (λ (p : FullTx × ℕ). record p.0 { height = next }) (sym out))
]

-- A tip that does not pass the window of a held reveal tries it at the height after the tip, and goes
-- on holding it.
pub relay_reveals-retries :
    (latest : ℕ) (relay : Relay) (from : Address) (tx : FullTx) (at : ℕ)
    → lookup from relay.reveal_queue ≡ some (tx, at)
    → latest + 1 ≤ at
    → In (record tx { height = latest + 1 }) (relay_reveals latest relay).1
      × (lookup from (relay_reveals latest relay).0.reveal_queue ≡ some (tx, at))
unfolding relay_reveals
relay_reveals-retries latest relay from tx at e le =
    let kept = lookup-drop_expired (latest + 1) from tx at relay.reveal_queue le e in
    (
      In-reveal_attempts (latest + 1) from tx at (drop_expired (latest + 1) relay.reveal_queue)
          kept,
      kept,
    )

-- The drain that follows an accepted reveal.
queued-held :
    (latest : ℕ) (relay relay' : Relay) (from : Address) (tx : FullTx) (queue : Map (FullTx × ℕ))
    (attempts : List FullTx)
    → Within relay.max_size relay.reveal_queue
    → enqueue relay.max_size from tx (relay_expiry (latest + 1)) relay.reveal_queue ≡ some queue
    → held
        (relay_reveals latest (record relay { reveal_queue = queue })).0
        (relay_reveals latest (record relay { reveal_queue = queue })).1
      ≡ held relay' attempts
    → (lookup from relay'.reveal_queue ≡ some (tx, latest + 1 + 2 * commit_window))
      × In (record tx { height = latest + 1 }) attempts
      × Within relay.max_size relay'.reveal_queue
unfolding relay_expiry relay_reveals
queued-held latest relay relay' from tx queue attempts ok queued e =
    let next = latest + 1 in
    let full : Relay = record relay { reveal_queue = queue } in
    let drained = relay_reveals latest full in
    let (within, there) =
      enqueue-Within relay.max_size from tx (next + 2 * commit_window) relay.reveal_queue queue ok
        queued in
    let (tried, kept) =
      relay_reveals-retries latest full from tx (next + 2 * commit_window) there (omega arith) in
    let same : drained.0 ≡ relay' = cc in
    let list : drained.1 ≡ attempts = cc in
    let size = drop_expired-length next queue in
    let still : Within relay.max_size (drop_expired next queue) =
      (drop_expired-Distinct next queue within.0, omega (arith, size, within.1)) in
    (
      ap (λ (r : Relay). lookup from r.reveal_queue) (sym same) ∙ kept,
      subst (λ (l : List FullTx). In (record tx { height = next }) l) list tried,
      subst (λ (r : Relay). Within relay.max_size r.reveal_queue) same still,
    )

module _ (k : Crypto) (engine : Engine) (reveal_hash : FullTx → Hash)
    (encoded_length : FullTx → Option ℕ) where
  -- A reveal that the relay accepts is held for its sender, and for two commit windows after the next
  -- height, is tried at once at the next height, and leaves the queue with one reveal for each
  -- address and within its size.
  pub relay_reveal-held :
      (s : State) (latest : ℕ) (relay relay' : Relay) (tx : FullTx) (attempts : List FullTx)
      → Within relay.max_size relay.reveal_queue
      → relay_reveal k engine reveal_hash encoded_length s latest relay tx ≡ held relay' attempts
      → (from : Address) × (tx_from k tx ≡ some from)
        × (lookup from relay'.reveal_queue ≡ some (tx, latest + 1 + 2 * commit_window))
        × In (record tx { height = latest + 1 }) attempts
        × Within relay.max_size relay'.reveal_queue
  unfolding relay_reveal
  relay_reveal-held s latest relay relay' tx attempts ok e =
      let probe = if tx.height == 0 then record tx { height = 1 } else tx in
      elim (Bool-cases (tx_is_signed tx)) [
        | inr bare ↦ absurd (ground arith)
        | inl signed ↦ elim (Bool-cases (tx.type == transact_tx || tx.type == deploy_tx)) [
          | inr other ↦ absurd (ground arith)
          | inl effect ↦ elim (Bool-cases (ltb (length tx.salt) min_salt_size)) [
            | inl short ↦ absurd (ground arith)
            | inr salted ↦
                elim (Option-cases
                  (check_reveal_except_commitment k engine reveal_hash encoded_length s probe)) [
                    | inr (bad, there) ↦ absurd (ground arith)
                    | inl good ↦ elim (Option-cases (tx_from k tx)) [
                      | inl missing ↦ absurd (ground arith)
                      | inr (from, sent) ↦
                          elim (Option-cases (
                            enqueue relay.max_size from tx (relay_expiry (latest + 1))
                              relay.reveal_queue)) [
                                | inl full ↦ absurd (ground arith)
                                | inr (queue, queued) ↦
                                    let (still, tried, within) =
                                      queued-held latest relay relay' from tx queue attempts ok
                                        queued (ground arith) in
                                    (from, sent, still, tried, within)
                              ]
                    ]
                  ]
          ]
        ]
      ]
