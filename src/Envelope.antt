-- ===== src/Envelope.antt =====
-- Signature envelopes (ngtypes/tx.go, ngtypes/commitment.go, ngtypes/keys.go, ngtypes/address.go):
-- who signed a transaction or a commitment, and whether the signature holds.
-- The hash, the RLP encoding and the signature schemes of other packages are the fields of `Crypto`.
pub mod Sender
pub mod Sign
pub mod Toy
mod Examples
use ngcore.Base.{
  ℕ, zero, suc, ◌+◌, ◌*◌, ◌^◌, Bool, true, false, not, ◌&&◌, Option, none, some, List, [], ◌∷◌,
  ◌++◌, ltb, leb, ◌==◌, length, take, drop, bytes_eq, if◌then◌else◌,
}
use ngcore.Types.{Address, Hash, Bytes, FullTx, Commitment, TxType, transact_tx, deploy_tx}

abbrev pub SigScheme : Type 0
SigScheme = ℕ

abbrev pub scheme_secp256k1 : SigScheme
scheme_secp256k1 = 1

abbrev pub scheme_fndsa512 : SigScheme
scheme_fndsa512 = 16

abbrev pub scheme_mldsa44 : SigScheme
scheme_mldsa44 = 17

abbrev pub scheme_slhdsa128 : SigScheme
scheme_slhdsa128 = 18

abbrev pub address_size : ℕ
address_size = 32

abbrev pub address_version : ℕ
address_version = 1

abbrev pub tx_max_extra_size : ℕ
tx_max_extra_size = 2 ^ 20

abbrev pub envelope_full : ℕ
envelope_full = 1

abbrev pub envelope_compact : ℕ
envelope_compact = 2

abbrev pub envelope_recover : ℕ
envelope_recover = 3

-- What the packages of the cryptography provide.
pub record Crypto : Type 0 where
  pub hash256 : Bytes → Hash
  pub encode_tx : FullTx → Bytes
  pub encode_commitment : Commitment → Bytes
  pub fndsa_key_size : ℕ
  pub fndsa_sig_size : ℕ
  pub mldsa_key_size : ℕ
  pub mldsa_sig_size : ℕ
  -- The compressed key of a recoverable signature, and whether it was compressed.
  pub recover_compact : Bytes → Hash → Option (Bytes × Bool)
  -- Each test is of a key, a digest and a signature, and false for a key that does not parse.
  pub fndsa_verify : Bytes → Hash → Bytes → Bool
  pub mldsa_verify : Bytes → Hash → Bytes → Bool
  pub slhdsa_verify : Bytes → Hash → Bytes → Bool

pub data SignError : Type 0 where
  unsigned sign_invalid extra_excess : SignError

-- A key registry, from an address to scheme ‖ key; `none` is the nil resolver, and an address without
-- an entry has the empty bytes.
abbrev pub Resolver : Type 0
Resolver = Option (Address → Bytes)

pub data Opened : Type 0 where
  opened : SigScheme → Bytes → Bytes → Opened
  failed : SignError → Opened

-- `HasRecovery`
unfoldable pub has_recovery : SigScheme → Bool
has_recovery scheme = scheme == scheme_secp256k1

-- The 32 bytes of an address, read as a number.
unfoldable pub address_of_bytes : ℕ → Bytes → Address
address_of_bytes acc [] = acc
address_of_bytes acc (b ∷ bs) = address_of_bytes (acc * 256 + b) bs

-- `SigningHash` leaves out the height of a transaction that has an effect.
unfoldable pub signs_unheighted : TxType → Bool
signs_unheighted type = if type == transact_tx then true else type == deploy_tx

module _ (k : Crypto) where
  -- `PubKeySize`
  unfoldable pub pub_key_size : SigScheme → ℕ
  pub_key_size scheme =
      if scheme == scheme_secp256k1
      then 33
      else if scheme == scheme_fndsa512
      then k.fndsa_key_size
      else if scheme == scheme_mldsa44
      then k.mldsa_key_size
      else if scheme == scheme_slhdsa128
      then 32
      else 0

  -- `SigSize`
  unfoldable pub sig_size : SigScheme → ℕ
  sig_size scheme =
      if scheme == scheme_secp256k1
      then 65
      else if scheme == scheme_fndsa512
      then k.fndsa_sig_size
      else if scheme == scheme_mldsa44
      then k.mldsa_sig_size
      else if scheme == scheme_slhdsa128
      then 7856
      else 0

  -- `VerifyHashSig`
  unfoldable pub verify_hash_sig : SigScheme → Bytes → Hash → Bytes → Bool
  unfolding pub_key_size sig_size
  verify_hash_sig scheme key hash sig =
      if not (length key == pub_key_size scheme && length sig == sig_size scheme)
      then false
      else if scheme == scheme_secp256k1
      then elim (k.recover_compact sig hash) [
        | none ↦ false
        | some (recovered, compressed) ↦ compressed && bytes_eq recovered key
      ]
      else if scheme == scheme_fndsa512
      then k.fndsa_verify key hash sig
      else if scheme == scheme_mldsa44
      then k.mldsa_verify key hash sig
      else if scheme == scheme_slhdsa128
      then k.slhdsa_verify key hash sig
      else false

  -- `RecoverPubKey`
  unfoldable pub recover_pub_key : SigScheme → Hash → Bytes → Option Bytes
  unfolding sig_size
  recover_pub_key scheme hash sig =
      if scheme == scheme_secp256k1 && length sig == sig_size scheme
      then elim (k.recover_compact sig hash) [
        | none ↦ none
        | some (recovered, compressed) ↦ if compressed then some recovered else none
      ]
      else none

  -- `AddressOfPubKey`
  unfoldable pub address_of_pub_key : SigScheme → Bytes → Address
  address_of_pub_key scheme key = k.hash256 (address_version ∷ scheme ∷ key)

  -- The compact case of `envelope`.
  unfoldable pub open_compact : Resolver → SigScheme → Bytes → Opened
  unfolding pub_key_size sig_size address_of_bytes address_of_pub_key
  open_compact none scheme body = failed sign_invalid
  open_compact (some registry) scheme body =
      let from = address_of_bytes 0 (take address_size body) in
      elim (registry from) [
        | [] ↦ failed sign_invalid
        | tag ∷ key ↦
            if not (length key == pub_key_size scheme && tag == scheme)
            then failed sign_invalid
            else if address_of_pub_key scheme key == from
            then opened scheme key (drop address_size body)
            else failed sign_invalid
      ]

  -- `envelope`, of a signature that covers `digest`.
  unfoldable pub open_envelope : Resolver → Hash → Bytes → Opened
  unfolding pub_key_size sig_size has_recovery recover_pub_key open_compact
  open_envelope lookup digest [] = failed unsigned
  open_envelope lookup digest (form ∷ []) = failed unsigned
  open_envelope lookup digest (form ∷ scheme ∷ body) =
      if pub_key_size scheme == 0
      then failed sign_invalid
      else if form == envelope_full
      then if length body == pub_key_size scheme + sig_size scheme
        then opened scheme (take (pub_key_size scheme) body) (drop (pub_key_size scheme) body)
        else failed sign_invalid
      else if form == envelope_recover
      then if has_recovery scheme && length body == sig_size scheme
        then elim (recover_pub_key scheme digest body) [
          | none ↦ failed sign_invalid
          | some key ↦ opened scheme key body
        ]
        else failed sign_invalid
      else if form == envelope_compact
      then if length body == address_size + sig_size scheme
        then open_compact lookup scheme body
        else failed sign_invalid
      else failed unsigned

  -- `From`, of a signature that covers `digest`.
  unfoldable pub sender_of : Hash → Bytes → Option Address
  unfolding pub_key_size sig_size has_recovery recover_pub_key address_of_bytes address_of_pub_key
  sender_of digest [] = none
  sender_of digest (form ∷ []) = none
  sender_of digest (form ∷ scheme ∷ body) =
      if form == envelope_full
      then if pub_key_size scheme == 0
        then none
        else if length body == pub_key_size scheme + sig_size scheme
        then some (address_of_pub_key scheme (take (pub_key_size scheme) body))
        else none
      else if form == envelope_compact
      then if pub_key_size scheme == 0
        then none
        else if length body == address_size + sig_size scheme
        then some (address_of_bytes 0 (take address_size body))
        else none
      else if form == envelope_recover
      then if has_recovery scheme && length body == sig_size scheme
        then elim (recover_pub_key scheme digest body) [
          | none ↦ none
          | some key ↦ some (address_of_pub_key scheme key)
        ]
        else none
      else none

  unfoldable pub check_opened : Hash → Opened → Option SignError
  unfolding verify_hash_sig
  check_opened digest (failed e) = some e
  check_opened digest (opened scheme key sig) =
      if verify_hash_sig scheme key digest sig then none else some sign_invalid

  -- `FullTx.GetUnsignedHash`
  unfoldable pub get_unsigned_hash : FullTx → Hash
  get_unsigned_hash tx = k.hash256 (k.encode_tx (record tx { sign = []; salt = [] }))

  -- `FullTx.UnheightedHash`
  unfoldable pub unheighted_hash : FullTx → Hash
  unheighted_hash tx = k.hash256 (k.encode_tx (record tx { sign = []; salt = []; height = 0 }))

  -- `FullTx.SigningHash`
  unfoldable pub signing_hash : FullTx → Hash
  unfolding signs_unheighted get_unsigned_hash unheighted_hash
  signing_hash tx = if signs_unheighted tx.type then unheighted_hash tx else get_unsigned_hash tx

  -- `FullTx.From`
  unfoldable pub tx_from : FullTx → Option Address
  unfolding sender_of signing_hash
  tx_from tx = sender_of (signing_hash tx) tx.sign

  -- `FullTx.Verify`; `none` is the nil error.
  unfoldable pub verify_tx : Resolver → FullTx → Option SignError
  unfolding open_envelope signing_hash check_opened
  verify_tx lookup tx =
      if tx.height == 0
      then none
      else if length tx.sign == 0
      then some unsigned
      else if ltb tx_max_extra_size (length tx.extra)
      then some extra_excess
      else check_opened (signing_hash tx) (open_envelope lookup (signing_hash tx) tx.sign)

  -- `Commitment.SigningHash`
  unfoldable pub commitment_signing_hash : Commitment → Hash
  commitment_signing_hash c = k.hash256 (k.encode_commitment (record c { sign = []; height = 0 }))

  -- `Commitment.From`
  unfoldable pub commitment_from : Commitment → Option Address
  unfolding sender_of commitment_signing_hash
  commitment_from c = sender_of (commitment_signing_hash c) c.sign

  -- `Commitment.Verify`
  unfoldable pub verify_commitment : Resolver → Commitment → Option SignError
  unfolding open_envelope commitment_signing_hash check_opened
  verify_commitment lookup c =
      if length c.sign == 0
      then some unsigned
      else check_opened (commitment_signing_hash c)
          (open_envelope lookup (commitment_signing_hash c) c.sign)
