-- ===== src/Envelope/Toy.antt =====
-- A scheme whose signature of a digest is one byte, for the runs of the other modules.
use ngcore.Base.{◌+◌, ◌*◌, ◌%◌, false, none, some, [], ◌∷◌, ◌++◌, bytes_eq}
use ngcore.Types.{Address, Hash, Bytes, FullTx}
use ngcore.Envelope.{Crypto}
use ngcore.Envelope.Sign.{PrivateKey, signature}

abbrev pub toy_hash : Bytes → Hash
toy_hash [] = 0
toy_hash (b ∷ bs) = b + 1 + 300 * toy_hash bs

abbrev pub toy_sign : Bytes → Hash → Bytes
toy_sign [] hash = []
toy_sign (b ∷ bs) hash = (b + hash) % 251 ∷ []

abbrev pub toy : Crypto
toy = record {
  hash256 = toy_hash;
  encode_tx = λ tx. tx.type ∷ tx.height ∷ tx.to ∷ tx.value ∷ tx.fee ∷ tx.sign ++ tx.salt;
  encode_commitment = λ c. c.height ∷ c.hash ∷ c.fee ∷ c.sign;
  fndsa_key_size = 1;
  fndsa_sig_size = 1;
  mldsa_key_size = 2;
  mldsa_sig_size = 2;
  recover_compact = λ sig hash. none;
  fndsa_verify = λ key hash sig. bytes_eq sig (toy_sign key hash);
  mldsa_verify = λ key hash sig. false;
  slhdsa_verify = λ key hash sig. false;
}

abbrev pub toy_key : PrivateKey
toy_key = record {
  scheme = 16;
  public_bytes = 5 ∷ [];
  sign_hash = λ hash. some (toy_sign (5 ∷ []) hash);
}

abbrev pub payer : Address
payer = toy_hash (1 ∷ 16 ∷ 5 ∷ [])

abbrev pub salt16 : Bytes
salt16 = 1 ∷ 2 ∷ 3 ∷ 4 ∷ 5 ∷ 6 ∷ 7 ∷ 8 ∷ 9 ∷ 10 ∷ 11 ∷ 12 ∷ 13 ∷ 14 ∷ 15 ∷ 16 ∷ []

abbrev pub signed_by : PrivateKey → FullTx → FullTx
signed_by key tx = elim (signature toy key tx) [ none ↦ tx | some tx' ↦ tx' ]
