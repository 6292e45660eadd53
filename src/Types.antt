-- ===== src/Types.antt =====
-- The wire types: transactions (ngtypes/tx.go), commitments (ngtypes/commitment.go), block headers
-- and blocks (ngtypes/block_header.go, ngtypes/block.go).
-- A digest or an address is its 32 bytes read as one big-endian number, so `bytes.Compare` on them is
-- the order of numbers. Amounts and big-endian fields are numbers: RLP carries no negative integer.
use ngcore.Base.{ℕ, ◌+◌, Bool, not, List, ◌==◌, length}
use ngcore.Forks.{Network}

abbrev pub Hash : Type 0
Hash = ℕ

abbrev pub Address : Type 0
Address = ℕ

abbrev pub Bytes : Type 0
Bytes = List ℕ

-- A byte in the source, compared with these constants.
abbrev pub TxType : Type 0
TxType = ℕ

abbrev pub invalid_tx : TxType
invalid_tx = 0

abbrev pub generate_tx : TxType
generate_tx = 1

abbrev pub transact_tx : TxType
transact_tx = 2

abbrev pub deploy_tx : TxType
deploy_tx = 3

pub record FullTx : Type 0 where
  pub network : Network
  pub type : TxType
  pub height : ℕ
  pub to : Address
  pub value : ℕ
  pub fee : ℕ
  pub extra : Bytes
  pub sign : Bytes
  pub salt : Bytes

unfoldable pub tx_is_signed : FullTx → Bool
tx_is_signed tx = not (length tx.sign == 0)

unfoldable pub total_expenditure : FullTx → ℕ
total_expenditure tx = tx.fee + tx.value

pub record Commitment : Type 0 where
  pub network : Network
  pub height : ℕ
  pub hash : Hash
  pub fee : ℕ
  pub sign : Bytes

pub record BlockHeader : Type 0 where
  pub network : Network
  pub height : ℕ
  pub timestamp : ℕ
  pub prev_block_hash : Hash
  pub tx_trie_hash : Hash
  pub witness_root : Hash
  pub difficulty : ℕ
  pub coinbase : Address
  pub uncles_hash : Hash
  pub state_root : Hash
  pub base_fee : ℕ
  pub nonce : Bytes

pub record FullBlock : Type 0 where
  pub header : BlockHeader
  pub open header use *
  pub txs : List FullTx
  pub uncles : List BlockHeader
  pub commits : List Commitment
