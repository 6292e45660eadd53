-- ===== src/Accounts/Issuance.antt =====
-- The coins of a block: its generates mint, its fees burn, and nothing else makes or loses a coin.
use ngcore.Base.{
  ℕ, ◌+◌, ◌-◌, ◌≡◌, ◌≤◌, ap, Bool, List, [], ◌∷◌, ltb, ◌==◌, inl, inr, Bool-cases, Option-cases,
  arith, if◌then◌else◌,
}
use ngcore.Types.{Hash, FullTx, FullBlock, Commitment, generate_tx, transact_tx, deploy_tx}
use ngcore.Maps.Weigh.{weigh}
use ngcore.Commits.{commit_from_pending, put_commit}
use ngcore.Envelope.{Crypto, commitment_from, verify_commitment}
use ngcore.Accounts.{State, get_balance, set_balance}
use ngcore.Accounts.Effects.{coins, supply, supply-set_balance}
use ngcore.Accounts.Keys.{key_resolver}
use ngcore.Accounts.Beacon.{balances-update_beacon}
use ngcore.Accounts.Run.{Engine}
use ngcore.Params.{max_block_gas}
use ngcore.Accounts.Apply.{
  ok, and_then, handle_transaction, handle_deploy, reveal_and_validate, handle_tx, handle_txs,
  handle_commit, handle_commits, start_recording, finish_block, upgrade,
}
use ngcore.Accounts.Charges.{
  and_then-ok, supply-ok, supply-handle_generate, supply-handle_transaction,
  supply-reveal_and_validate,
}
use ngcore.Accounts.Deploys.{supply-handle_deploy}

-- The coins that a transaction makes, and that it burns.
abbrev pub minted : FullTx → ℕ
minted tx = if tx.type == generate_tx then tx.value else 0

abbrev pub burned : FullTx → ℕ
burned tx = if tx.type == generate_tx then 0 else tx.fee

abbrev pub all_minted : List FullTx → ℕ
all_minted [] = 0
all_minted (tx ∷ txs) = minted tx + all_minted txs

abbrev pub all_burned : List FullTx → ℕ
all_burned [] = 0
all_burned (tx ∷ txs) = burned tx + all_burned txs

abbrev pub commit_fees : List Commitment → ℕ
commit_fees [] = 0
commit_fees (c ∷ cs) = c.fee + commit_fees cs

module _ (k : Crypto) (engine : Engine) (reveal_hash : FullTx → Hash) where
  supply-handle_tx :
      (s s' : State) (tx : FullTx) (block_time gas gas' : ℕ)
      → handle_tx k engine reveal_hash s tx block_time gas ≡ ok s' gas'
      → supply s' + burned tx ≡ supply s + minted tx
  unfolding handle_tx
  supply-handle_tx s s' tx block_time gas gas' e = elim (Bool-cases (tx.type == generate_tx)) [
    | inl generate ↦
        let made = supply-handle_generate k engine reveal_hash s s' tx gas gas' (ground arith) in
        ground (arith, made)
    | inr effect ↦ elim (Bool-cases (tx.type == transact_tx)) [
      | inl transact ↦
          let (mid, g, before, out) =
            and_then-ok (reveal_and_validate k engine reveal_hash s tx block_time gas)
              (λ t g. handle_transaction k engine reveal_hash t tx block_time g) s' gas'
              (ground arith) in
          let kept =
            supply-reveal_and_validate k engine reveal_hash s mid tx block_time gas g before in
          let paid =
            supply-handle_transaction k engine reveal_hash mid s' tx block_time g gas' out in
          ground (arith, kept, paid)
      | inr other ↦ elim (Bool-cases (tx.type == deploy_tx)) [
        | inr unknown ↦ absurd (ground arith)
        | inl is_deploy ↦
            let (mid, g, before, out) =
              and_then-ok (reveal_and_validate k engine reveal_hash s tx block_time gas)
                (λ t g. handle_deploy k engine reveal_hash t tx block_time g) s' gas'
                (ground arith) in
            let kept =
              supply-reveal_and_validate k engine reveal_hash s mid tx block_time gas g before in
            let paid = supply-handle_deploy k engine reveal_hash mid s' tx block_time g gas' out in
            ground (arith, kept, paid)
      ]
    ]
  ]

  supply-handle_txs :
      (txs : List FullTx) (s s' : State) (block_time gas gas' : ℕ)
      → handle_txs k engine reveal_hash s txs block_time gas ≡ ok s' gas'
      → supply s' + all_burned txs ≡ supply s + all_minted txs
  unfolding handle_txs
  supply-handle_txs [] s s' block_time gas gas' e = omega (arith, supply-ok s s' gas gas' e)
  supply-handle_txs (tx ∷ txs) s s' block_time gas gas' e =
      let (mid, g, first, out) =
        and_then-ok (handle_tx k engine reveal_hash s tx block_time gas)
          (λ t g. handle_txs k engine reveal_hash t txs block_time g) s' gas' e in
      omega (
        arith,
        supply-handle_tx s mid tx block_time gas g first,
        supply-handle_txs txs mid s' block_time g gas' out,
      )

  supply-handle_commit :
      (s s' : State) (c : Commitment) (gas gas' : ℕ)
      → handle_commit k engine reveal_hash s c gas ≡ ok s' gas'
      → supply s' + c.fee ≡ supply s
  unfolding handle_commit
  supply-handle_commit s s' c gas gas' e =
      elim (Option-cases (verify_commitment k (key_resolver s) c)) [
        | inr (bad, there) ↦ absurd (ground arith)
        | inl good ↦ elim (Option-cases (commitment_from k c)) [
          | inl missing ↦ absurd (ground arith)
          | inr (from, there) ↦
              elim (Bool-cases (commit_from_pending s.commits from c.hash c.height)) [
                | inl twice ↦ absurd (ground arith)
                | inr fresh ↦ elim (Bool-cases (ltb (get_balance s from) c.fee)) [
                  | inl short ↦ absurd (ground arith)
                  | inr enough ↦
                      let paid = set_balance s from (get_balance s from - c.fee) in
                      let le : c.fee ≤ get_balance s from = ground arith in
                      let out =
                        supply-ok
                          (record paid { commits = put_commit paid.commits c.height c.hash from })
                          s' gas gas' (ground arith) in
                      omega (arith, out, le, supply-set_balance s from (get_balance s from - c.fee))
                ]
              ]
        ]
      ]

  supply-handle_commits :
      (cs : List Commitment) (s s' : State) (gas gas' : ℕ)
      → handle_commits k engine reveal_hash s cs gas ≡ ok s' gas'
      → supply s' + commit_fees cs ≡ supply s
  unfolding handle_commits
  supply-handle_commits [] s s' gas gas' e = omega (arith, supply-ok s s' gas gas' e)
  supply-handle_commits (c ∷ cs) s s' gas gas' e =
      let (mid, g, first, out) =
        and_then-ok (handle_commit k engine reveal_hash s c gas)
          (λ t g. handle_commits k engine reveal_hash t cs g) s' gas' e in
      omega (
        arith,
        supply-handle_commit s mid c gas g first,
        supply-handle_commits cs mid s' g gas' out,
      )

  supply-finish_block :
      (s : State) (block : FullBlock)
      → supply (finish_block k engine reveal_hash s block) ≡ supply s
  unfolding finish_block
  supply-finish_block s block =
      ap (λ d. weigh coins d.current) (balances-update_beacon k.hash256 s block)

  -- A block that applies makes exactly the coins of its generates and burns exactly the fees of its
  -- other transactions and of its commitments, on archive nodes and on others, whatever its contracts
  -- do: transfers, deposits, refunds, deploys and destroys make and lose none.
  pub upgrade-supply :
      (archive : Bool) (s s' : State) (block : FullBlock) (gas : ℕ)
      → upgrade k engine reveal_hash archive s block ≡ ok s' gas
      → supply s' + all_burned block.txs + commit_fees block.commits
        ≡ supply s + all_minted block.txs
  unfolding upgrade start_recording
  upgrade-supply archive s s' block gas e =
      let start = start_recording k engine reveal_hash archive block.height s in
      let (committed, g, first, rest) =
        and_then-ok (handle_commits k engine reveal_hash start block.commits max_block_gas)
          (λ t g.
            and_then (handle_txs k engine reveal_hash t block.txs block.timestamp g)
              (λ u g'. ok (finish_block k engine reveal_hash u block) g'))
          s' gas e in
      let (handled, g', second, last) =
        and_then-ok (handle_txs k engine reveal_hash committed block.txs block.timestamp g)
          (λ u g'. ok (finish_block k engine reveal_hash u block) g') s' gas rest in
      let out = supply-ok (finish_block k engine reveal_hash handled block) s' g' gas last in
      omega (
        arith,
        supply-handle_commits block.commits start committed max_block_gas g first,
        supply-handle_txs block.txs committed handled block.timestamp g g' second,
        supply-finish_block handled block,
        out,
      )
