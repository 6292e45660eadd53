-- ===== src/Accounts/Generates.antt =====
-- The generates of a block (`checkBlockGenerates` of ngstate/state_check.go and `CheckGenerate` of
-- ngtypes/tx.go). The map of the rewards that are still due, with their counts, is a list in which a
-- reward stands once for each time it is due.
use ngcore.Base.{
  ℕ, suc, ◌+◌, ◌≡◌, refl, ap, not, ◌&&◌, Option, none, some, List, [], ◌∷◌, length, ◌==◌, inl, inr,
  Bool-cases, Option-cases, arith, if◌then◌else◌,
}
use ngcore.Types.{
  Address, FullTx, FullBlock, BlockHeader, generate_tx, total_expenditure, tx_is_signed,
}
use ngcore.Reward.{get_block_reward, uncle_reward}
use ngcore.Envelope.{Crypto, SignError, Resolver, tx_from, verify_tx}
use ngcore.Accounts.Issuance.{all_minted}

pub data GenerateError : Type 0 where
  two_miners no_miner wrong_coinbase reward_invalid fee_invalid to_invalid : GenerateError
  uncle_count height_mismatch no_uncle : GenerateError
  sign : SignError → GenerateError

-- The signed generate and the unsigned ones.
pub data Gathered : Type 0 where
  gathered : Option FullTx → List FullTx → Gathered
  refused : GenerateError → Gathered

unfoldable pub add_unsigned : FullTx → Gathered → Gathered
add_unsigned tx (gathered primary gens) = gathered primary (tx ∷ gens)
add_unsigned tx (refused e) = refused e

-- The first loop of `checkBlockGenerates`, with the signed generate found so far.
unfoldable pub gather : Option FullTx → List FullTx → Gathered
unfolding tx_is_signed add_unsigned
gather primary [] = gathered primary []
gather primary (tx ∷ txs) =
    if not (tx.type == generate_tx)
    then gather primary txs
    else if tx_is_signed tx
    then elim primary [ none ↦ gather (some tx) txs | some other ↦ refused two_miners ]
    else add_unsigned tx (gather primary txs)

-- `want`, of the declared uncles.
unfoldable pub rewards_due : ℕ → List BlockHeader → List (Address × ℕ)
unfolding uncle_reward
rewards_due height [] = []
rewards_due height (u ∷ us) = (u.coinbase, uncle_reward u.height height) ∷ rewards_due height us

-- `want[key]--`, or `none` where `want[key]` is 0.
unfoldable pub take_due : Address → ℕ → List (Address × ℕ) → Option (List (Address × ℕ))
take_due a n [] = none
take_due a n ((b, m) ∷ due) =
    let rest = take_due a n due in
    if b == a && m == n
    then some due
    else elim rest [ none ↦ none | some left ↦ some ((b, m) ∷ left) ]

-- The last loop of `checkBlockGenerates`.
unfoldable pub match_uncles : ℕ → List (Address × ℕ) → List FullTx → Option GenerateError
unfolding take_due
match_uncles height due [] = none
match_uncles height due (g ∷ gens) =
    if not (g.fee == 0)
    then some fee_invalid
    else if not (g.height == height)
    then some height_mismatch
    else elim (take_due g.to g.value due) [
      | none ↦ some no_uncle
      | some left ↦ match_uncles height left gens
    ]

module _ (k : Crypto) (lookup : Resolver) where
  -- The signer of `CheckGenerate`, which is paid above genesis.
  unfoldable pub check_signer : FullTx → Option GenerateError
  unfolding tx_from
  check_signer tx = if tx.height == 0 then none else elim (tx_from k tx) [
    | none ↦ some to_invalid
    | some from ↦ if from == tx.to then none else some to_invalid
  ]

  -- `FullTx.CheckGenerate`
  unfoldable pub check_generate : ℕ → FullTx → Option GenerateError
  unfolding total_expenditure get_block_reward verify_tx check_signer
  check_generate height tx =
      if not (total_expenditure tx == get_block_reward height)
      then some reward_invalid
      else if not (tx.fee == 0)
      then some fee_invalid
      else elim (verify_tx k lookup tx) [ some e ↦ some (sign e) | none ↦ check_signer tx ]

  -- `checkBlockGenerates` after the first loop.
  unfoldable pub check_gathered : FullBlock → Gathered → Option GenerateError
  unfolding check_generate match_uncles rewards_due
  check_gathered block (refused e) = some e
  check_gathered block (gathered none gens) = some no_miner
  check_gathered block (gathered (some primary) gens) =
      if not (primary.to == block.coinbase)
      then some wrong_coinbase
      else elim (check_generate block.height primary) [
        | some e ↦ some e
        | none ↦
            if length gens == length block.uncles
            then match_uncles block.height (rewards_due block.height block.uncles) gens
            else some uncle_count
      ]

  -- `checkBlockGenerates`
  unfoldable pub check_block_generates : FullBlock → Option GenerateError
  unfolding gather check_gathered
  check_block_generates block = check_gathered block (gather none block.txs)

abbrev due_sum : List (Address × ℕ) → ℕ
due_sum [] = 0
due_sum ((a, n) ∷ due) = n + due_sum due

abbrev values : List FullTx → ℕ
values [] = 0
values (tx ∷ txs) = tx.value + values txs

-- The rewards of the uncles that a block declares.
abbrev pub uncle_rewards : ℕ → List BlockHeader → ℕ
uncle_rewards height [] = 0
uncle_rewards height (u ∷ us) = uncle_reward u.height height + uncle_rewards height us

take_due-sum :
    (a : Address) (n : ℕ) (due left : List (Address × ℕ))
    → take_due a n due ≡ some left
    → (due_sum due ≡ n + due_sum left) × (length due ≡ suc (length left))
unfolding take_due
take_due-sum a n [] left e = cc
take_due-sum a n ((b, m) ∷ due) left e = elim (Bool-cases (b == a && m == n)) [
  | inl here ↦
      let p : due ≡ left = ground arith in
      ground (arith, ap due_sum p, ap (length {A = Address × ℕ}) p)
  | inr later ↦ elim (Option-cases (take_due a n due)) [
    | inl missing ↦ absurd (ground arith)
    | inr (kept, there) ↦
        let (total, size) = take_due-sum a n due kept there in
        let p : (b, m) ∷ kept ≡ left = ground arith in
        ground (arith, total, size, ap due_sum p, ap (length {A = Address × ℕ}) p)
  ]
]

match_uncles-sum :
    (height : ℕ) (due : List (Address × ℕ)) (gens : List FullTx)
    → match_uncles height due gens ≡ none
    → length gens ≡ length due
    → values gens ≡ due_sum due
unfolding match_uncles
match_uncles-sum height [] [] e size = refl
match_uncles-sum height (d ∷ due) [] e size = absurd (omega (arith, size))
match_uncles-sum height due (g ∷ gens) e size = elim (Bool-cases (g.fee == 0)) [
  | inr charged ↦ absurd (ground arith)
  | inl free ↦ elim (Bool-cases (g.height == height)) [
    | inr elsewhere ↦ absurd (ground arith)
    | inl here ↦ elim (Option-cases (take_due g.to g.value due)) [
      | inl missing ↦ absurd (ground arith)
      | inr (left, there) ↦
          let (total, less) = take_due-sum g.to g.value due left there in
          omega (
            arith,
            total,
            match_uncles-sum height left gens (ground arith) (omega (arith, size, less)),
          )
    ]
  ]
]

rewards_due-sum :
    (height : ℕ) (us : List BlockHeader)
    → (due_sum (rewards_due height us) ≡ uncle_rewards height us)
      × (length (rewards_due height us) ≡ length us)
unfolding rewards_due
rewards_due-sum height [] = (refl, refl)
rewards_due-sum height (u ∷ us) =
    let (total, size) = rewards_due-sum height us in (omega (arith, total), omega (arith, size))

-- What the signed generate makes.
abbrev primary_value : Option FullTx → ℕ
primary_value none = 0
primary_value (some tx) = tx.value

add_unsigned-values :
    (tx : FullTx) (g : Gathered) (primary : Option FullTx) (gens : List FullTx)
    → add_unsigned tx g ≡ gathered primary gens
    → (gens' : List FullTx) × (g ≡ gathered primary gens') × (values gens ≡ tx.value + values gens')
unfolding add_unsigned
add_unsigned-values tx (refused x) primary gens e = absurd (ground arith)
add_unsigned-values tx (gathered p gens') primary gens e =
    let same : p ≡ primary = cc in
    let more : tx ∷ gens' ≡ gens = cc in
    (gens', ap (λ q. gathered q gens') same, omega (arith, ap values more))

gather-sum :
    (txs : List FullTx) (before primary : Option FullTx) (gens : List FullTx)
    → gather before txs ≡ gathered primary gens
    → primary_value primary + values gens ≡ primary_value before + all_minted txs
unfolding gather
gather-sum [] before primary gens e =
    let p : before ≡ primary = cc in
    let q : [] ≡ gens = cc in omega (arith, ap primary_value p, ap values q)
gather-sum (tx ∷ txs) before primary gens e = elim (Bool-cases (tx.type == generate_tx)) [
  | inr effect ↦
      let rest = gather-sum txs before primary gens (ground arith) in ground (arith, rest)
  | inl generate ↦ elim (Bool-cases (tx_is_signed tx)) [
    | inl signed ↦ elim (Option-cases before) [
      | inl first ↦
          let rest = gather-sum txs (some tx) primary gens (ground arith) in
          ground (arith, rest, ap primary_value first)
      | inr (other, again) ↦ absurd (ground arith)
    ]
    | inr unsigned ↦
        let (gens', there, total) =
          add_unsigned-values tx (gather before txs) primary gens (ground arith) in
        let rest = gather-sum txs before primary gens' there in ground (arith, rest, total)
  ]
]

check_generate-value :
    (k : Crypto) (lookup : Resolver) (height : ℕ) (tx : FullTx)
    → check_generate k lookup height tx ≡ none
    → tx.value ≡ get_block_reward height
unfolding check_generate total_expenditure
check_generate-value k lookup height tx e =
    elim (Bool-cases (total_expenditure tx == get_block_reward height)) [
      | inr wrong ↦ absurd (ground arith)
      | inl right ↦ elim (Bool-cases (tx.fee == 0)) [
        | inr charged ↦ absurd (ground arith)
        | inl free ↦ ground arith
      ]
    ]

check_gathered-minted :
    (k : Crypto) (lookup : Resolver) (block : FullBlock) (g : Gathered)
    → check_gathered k lookup block g ≡ none
    → (primary : FullTx) × (gens : List FullTx) × (g ≡ gathered (some primary) gens)
      × (primary.value + values gens
          ≡ get_block_reward block.height + uncle_rewards block.height block.uncles)
unfolding check_gathered
check_gathered-minted k lookup block (refused x) e = absurd (ground arith)
check_gathered-minted k lookup block (gathered none gens) e = absurd (ground arith)
check_gathered-minted k lookup block (gathered (some primary) gens) e =
    elim (Bool-cases (primary.to == block.coinbase)) [
      | inr wrong ↦ absurd (ground arith)
      | inl right ↦ elim (Option-cases (check_generate k lookup block.height primary)) [
        | inr (bad, there) ↦ absurd (ground arith)
        | inl good ↦ elim (Bool-cases (length gens == length block.uncles)) [
          | inr short ↦ absurd (ground arith)
          | inl fits ↦
              let due = rewards_due block.height block.uncles in
              let (total, size) = rewards_due-sum block.height block.uncles in
              let same : length gens ≡ length block.uncles = ground arith in
              let matched =
                match_uncles-sum block.height due gens (ground arith) (omega (arith, same, size)) in
              (
                primary,
                gens,
                refl,
                omega (
                  arith,
                  total,
                  matched,
                  check_generate-value k lookup block.height primary good,
                ),
              )
        ]
      ]
    ]

-- The generates of a block that passes their check make exactly the block's reward and the rewards of
-- the uncles that it declares.
pub check_block_generates-minted :
    (k : Crypto) (lookup : Resolver) (block : FullBlock)
    → check_block_generates k lookup block ≡ none
    → all_minted block.txs ≡ get_block_reward block.height + uncle_rewards block.height block.uncles
unfolding check_block_generates
check_block_generates-minted k lookup block e =
    let (primary, gens, there, total) =
      check_gathered-minted k lookup block (gather none block.txs) e in
    omega (arith, total, gather-sum block.txs none (some primary) gens there)
