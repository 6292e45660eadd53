-- ===== src/Envelope/Sign.antt =====
-- Signing (ngtypes/tx.go): the envelopes that a wallet makes, and that they verify.
use ngcore.Base.{
  ◌≡◌, ◌≢◌, ◌≤◌, refl, sym, ap, ◌∙◌, subst, true, false, ◌&&◌, Option, none, some, [], ◌∷◌, ◌++◌,
  length, length-append, take, take-append, drop, drop-append, ◌==◌, inl, inr, Bool-cases,
  Option-cases, arith, if◌then◌else◌,
}
use ngcore.Types.{Hash, Bytes, FullTx}
use ngcore.Envelope.{
  Crypto, SigScheme, Resolver, opened, envelope_full, envelope_recover, has_recovery, pub_key_size,
  sig_size, verify_hash_sig, recover_pub_key, address_of_pub_key, open_envelope, check_opened,
  signing_hash, get_unsigned_hash, unheighted_hash, tx_from, verify_tx, tx_max_extra_size,
}
use ngcore.Envelope.Sender.{signer, open_envelope-signer}

-- A key, with the signing function of its scheme's package.
pub record PrivateKey : Type 0 where
  pub scheme : SigScheme
  pub public_bytes : Bytes
  pub sign_hash : Hash → Option Bytes

-- The envelope of a signature: the recover form where the key is in the signature, or the full form.
unfoldable pub envelope_of : PrivateKey → Bytes → Bytes
unfolding has_recovery
envelope_of key sig =
    if has_recovery key.scheme
    then envelope_recover ∷ key.scheme ∷ sig
    else envelope_full ∷ key.scheme ∷ (key.public_bytes ++ sig)

envelope_of-length : (key : PrivateKey) (sig : Bytes) → (length (envelope_of key sig) == 0) ≡ false
unfolding envelope_of
envelope_of-length key sig = elim (Bool-cases (has_recovery key.scheme)) [
  | inl recovers ↦ ground arith
  | inr full ↦ ground arith
]

module _ (k : Crypto) where
  -- `FullTx.Signature`
  unfoldable pub signature : PrivateKey → FullTx → Option FullTx
  unfolding signing_hash envelope_of
  signature key tx = elim (key.sign_hash (signing_hash k (record tx { sign = [] }))) [
    | none ↦ none
    | some sig ↦ some (record tx { sign = envelope_of key sig })
  ]

  -- The package signs: its signatures verify under the key, and give the key back where the scheme
  -- recovers it.
  pub record Signs (key : PrivateKey) : Type 0 where
    pub known : pub_key_size k key.scheme ≢ 0
    pub verifies :
        (digest : Hash) (sig : Bytes)
        → key.sign_hash digest ≡ some sig
        → verify_hash_sig k key.scheme key.public_bytes digest sig ≡ true
    pub recovers :
        (digest : Hash) (sig : Bytes)
        → has_recovery key.scheme ≡ true
        → key.sign_hash digest ≡ some sig
        → recover_pub_key k key.scheme digest sig ≡ some key.public_bytes

  verify_hash_sig-sizes :
      (scheme : SigScheme) (key : Bytes) (digest : Hash) (sig : Bytes)
      → verify_hash_sig k scheme key digest sig ≡ true
      → (length key ≡ pub_key_size k scheme) × (length sig ≡ sig_size k scheme)
  unfolding verify_hash_sig
  verify_hash_sig-sizes scheme key digest sig e =
      elim (Bool-cases (length key == pub_key_size k scheme && length sig == sig_size k scheme)) [
        | inl fits ↦ ground arith
        | inr wrong ↦ absurd (ground arith)
      ]

  open_envelope-envelope_of :
      (lookup : Resolver) (key : PrivateKey) (digest : Hash) (sig : Bytes)
      → Signs key
      → key.sign_hash digest ≡ some sig
      → open_envelope k lookup digest (envelope_of key sig) ≡ opened key.scheme key.public_bytes sig
  unfolding open_envelope envelope_of
  open_envelope-envelope_of lookup key digest sig ok made =
      let known = ok.known in
      let (key_fits, sig_fits) =
        verify_hash_sig-sizes key.scheme key.public_bytes digest sig
          (ok.verifies digest sig made) in
      elim (Bool-cases (has_recovery key.scheme)) [
        | inl recovers ↦
            let found = ok.recovers digest sig recovers made in ground (arith, found, sig_fits)
        | inr full ↦
            let whole = length-append key.public_bytes sig in
            let front : take (pub_key_size k key.scheme) (key.public_bytes ++ sig)
                ≡ key.public_bytes =
              ap (λ n. take n (key.public_bytes ++ sig)) (sym key_fits)
              ∙ take-append key.public_bytes sig in
            let back : drop (pub_key_size k key.scheme) (key.public_bytes ++ sig) ≡ sig =
              ap (λ n. drop n (key.public_bytes ++ sig)) (sym key_fits)
              ∙ drop-append key.public_bytes sig in
            ground (arith, whole, front, back, key_fits, sig_fits)
      ]

  signed-signing_hash :
      (tx : FullTx) (sign : Bytes)
      → signing_hash k (record tx { sign = sign }) ≡ signing_hash k (record tx { sign = [] })
  unfolding signing_hash get_unsigned_hash unheighted_hash
  signed-signing_hash tx sign = refl

  signed-verifies :
      (lookup : Resolver) (key : PrivateKey) (tx : FullTx) (sig : Bytes)
      → Signs key
      → length tx.extra ≤ tx_max_extra_size
      → key.sign_hash (signing_hash k (record tx { sign = [] })) ≡ some sig
      → (verify_tx k lookup (record tx { sign = envelope_of key sig }) ≡ none)
        × (tx_from k (record tx { sign = envelope_of key sig })
            ≡ some (address_of_pub_key k key.scheme key.public_bytes))
  unfolding verify_tx tx_from check_opened
  signed-verifies lookup key tx sig ok fits made =
      let sign = envelope_of key sig in
      let digest = signing_hash k (record tx { sign = sign }) in
      let made' : key.sign_hash digest ≡ some sig =
        ap key.sign_hash (signed-signing_hash tx sign) ∙ made in
      let shut = open_envelope-envelope_of lookup key digest sig ok made' in
      let good = ok.verifies digest sig made' in
      let checked : check_opened k digest (open_envelope k lookup digest sign) ≡ none =
        ap (check_opened k digest) shut ∙ ground (arith, good) in
      let long : (length sign == 0) ≡ false = envelope_of-length key sig in
      (
        ground (arith, checked, long),
        open_envelope-signer k lookup digest sign (address_of_pub_key k key.scheme key.public_bytes)
            (ap (signer k) shut),
      )

  -- A transaction that a key signs, its extra data within the size, verifies under any registry, at
  -- any height, and its sender is the address of the key.
  pub signature-verify_tx :
      (lookup : Resolver) (key : PrivateKey) (tx tx' : FullTx)
      → Signs key
      → length tx.extra ≤ tx_max_extra_size
      → signature key tx ≡ some tx'
      → (verify_tx k lookup tx' ≡ none)
        × (tx_from k tx' ≡ some (address_of_pub_key k key.scheme key.public_bytes))
  unfolding signature
  signature-verify_tx lookup key tx tx' ok fits e =
      elim (Option-cases (key.sign_hash (signing_hash k (record tx { sign = [] })))) [
        | inl refused ↦ absurd (ground arith)
        | inr (sig, made) ↦
            let out : record tx { sign = envelope_of key sig } ≡ tx' = ground arith in
            subst
              (λ (t : FullTx).
                (verify_tx k lookup t ≡ none)
                × (tx_from k t ≡ some (address_of_pub_key k key.scheme key.public_bytes)))
              out (signed-verifies lookup key tx sig ok fits made)
      ]
