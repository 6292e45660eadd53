-- ===== src/Envelope/Sender.antt =====
-- The sender of a signature is the owner of the key that verifies it, at whatever height it is packed.
use ngcore.Base.{
  ℕ, ◌+◌, ◌≡◌, ◌≢◌, refl, sym, ap, ◌∙◌, true, not, ◌&&◌, Option, none, some, [], ◌∷◌, length, take,
  drop, ◌==◌, inl, inr, Bool-cases, Option-cases, arith, if◌then◌else◌,
}
use ngcore.Types.{Address, Hash, Bytes, FullTx, Commitment}
use ngcore.Envelope.{
  Crypto, SigScheme, sign_invalid, Resolver, Opened, opened, failed, envelope_full,
  envelope_compact, envelope_recover, address_of_bytes, address_size, pub_key_size, sig_size,
  verify_hash_sig, recover_pub_key, address_of_pub_key, open_compact, open_envelope, sender_of,
  check_opened, signing_hash, signs_unheighted, unheighted_hash, tx_from, verify_tx,
  verify_commitment, commitment_from, commitment_signing_hash,
}

module _ (k : Crypto) where
  -- The address of the key that an envelope opens to.
  abbrev pub signer : Opened → Option Address
  signer (failed e) = none
  signer (opened scheme key sig) = some (address_of_pub_key k scheme key)

  entry-signer :
      (scheme : SigScheme) (body entry : Bytes) (a : Address)
      → signer (elim entry [
        | [] ↦ failed sign_invalid
        | tag ∷ key ↦
            if not (length key == pub_key_size k scheme && tag == scheme)
            then failed sign_invalid
            else if address_of_pub_key k scheme key == address_of_bytes 0 (take address_size body)
            then opened scheme key (drop address_size body)
            else failed sign_invalid
      ])
        ≡ some a
      → address_of_bytes 0 (take address_size body) ≡ a
  entry-signer scheme body [] a e = cc
  entry-signer scheme body (tag ∷ key) a e =
      let from = address_of_bytes 0 (take address_size body) in
      elim (Bool-cases (length key == pub_key_size k scheme && tag == scheme)) [
        | inr bad ↦ absurd (ground arith)
        | inl good ↦ elim (Bool-cases (address_of_pub_key k scheme key == from)) [
          | inr apart ↦ absurd (ground arith)
          | inl same ↦
              let p : address_of_pub_key k scheme key ≡ from = ground arith in
              let q : address_of_pub_key k scheme key ≡ a = ground arith in sym p ∙ q
        ]
      ]

  open_compact-signer :
      (lookup : Resolver) (scheme : SigScheme) (body : Bytes) (a : Address)
      → signer (open_compact k lookup scheme body) ≡ some a
      → address_of_bytes 0 (take address_size body) ≡ a
  unfolding open_compact
  open_compact-signer none scheme body a e = cc
  open_compact-signer (some registry) scheme body a e =
      entry-signer scheme body (registry (address_of_bytes 0 (take address_size body))) a e

  -- Whoever an envelope opens to is its sender.
  pub open_envelope-signer :
      (lookup : Resolver) (digest : Hash) (sign : Bytes) (a : Address)
      → signer (open_envelope k lookup digest sign) ≡ some a
      → sender_of k digest sign ≡ some a
  unfolding open_envelope sender_of
  open_envelope-signer lookup digest [] a e = cc
  open_envelope-signer lookup digest (form ∷ []) a e = cc
  open_envelope-signer lookup digest (form ∷ scheme ∷ body) a e =
      elim (Bool-cases (pub_key_size k scheme == 0)) [
        | inl unknown ↦ absurd (ground arith)
        | inr known ↦ elim (Bool-cases (form == envelope_full)) [
          | inl full ↦
              elim (Bool-cases (length body == pub_key_size k scheme + sig_size k scheme)) [
                | inl fits ↦ ground arith
                | inr wrong ↦ absurd (ground arith)
              ]
          | inr not_full ↦ elim (Bool-cases (form == envelope_recover)) [
            | inl recover ↦ elim (Option-cases (recover_pub_key k scheme digest body)) [
              | inl missing ↦ absurd (ground arith)
              | inr (key, found) ↦ ground arith
            ]
            | inr not_recover ↦ elim (Bool-cases (form == envelope_compact)) [
              | inr none_of ↦ absurd (ground arith)
              | inl compact ↦ elim (Bool-cases (length body == address_size + sig_size k scheme)) [
                | inr wrong ↦ absurd (ground arith)
                | inl fits ↦ ground (arith, open_compact-signer lookup scheme body a (ground arith))
              ]
            ]
          ]
        ]
      ]

  check_opened-verified :
      (digest : Hash) (o : Opened)
      → check_opened k digest o ≡ none
      → (scheme : SigScheme) × (key : Bytes) × (sig : Bytes) × (verify_hash_sig k scheme key digest
            sig
          ≡ true)
        × (signer o ≡ some (address_of_pub_key k scheme key))
  unfolding check_opened
  check_opened-verified digest (failed e) h = cc
  check_opened-verified digest (opened scheme key sig) h =
      elim (Bool-cases (verify_hash_sig k scheme key digest sig)) [
        | inl good ↦ (scheme, key, sig, good, refl)
        | inr bad ↦ absurd (ground arith)
      ]

  -- A transaction that verifies, above genesis, has a sender: the address of a key whose signature
  -- over the transaction's signing hash holds, whichever form of envelope it has.
  pub verify_tx-tx_from :
      (lookup : Resolver) (tx : FullTx)
      → tx.height ≢ 0
      → verify_tx k lookup tx ≡ none
      → (scheme : SigScheme) × (key : Bytes) × (sig : Bytes) × (verify_hash_sig k scheme key
            (signing_hash k tx)
            sig
          ≡ true)
        × (tx_from k tx ≡ some (address_of_pub_key k scheme key))
  unfolding verify_tx tx_from
  verify_tx-tx_from lookup tx above e =
      let digest = signing_hash k tx in
      let shut : check_opened k digest (open_envelope k lookup digest tx.sign) ≡ none =
        ground arith in
      let (scheme, key, sig, good, signed) =
        check_opened-verified digest (open_envelope k lookup digest tx.sign) shut in
      (
        scheme,
        key,
        sig,
        good,
        open_envelope-signer lookup digest tx.sign (address_of_pub_key k scheme key) signed,
      )

  -- The same of a commitment, whose committer is then the owner of the key.
  pub verify_commitment-from :
      (lookup : Resolver) (c : Commitment)
      → verify_commitment k lookup c ≡ none
      → (scheme : SigScheme) × (key : Bytes) × (sig : Bytes) × (verify_hash_sig k scheme key
            (commitment_signing_hash k c)
            sig
          ≡ true)
        × (commitment_from k c ≡ some (address_of_pub_key k scheme key))
  unfolding verify_commitment commitment_from
  verify_commitment-from lookup c e =
      let digest = commitment_signing_hash k c in
      let shut : check_opened k digest (open_envelope k lookup digest c.sign) ≡ none =
        ground arith in
      let (scheme, key, sig, good, signed) =
        check_opened-verified digest (open_envelope k lookup digest c.sign) shut in
      (
        scheme,
        key,
        sig,
        good,
        open_envelope-signer lookup digest c.sign (address_of_pub_key k scheme key) signed,
      )

  retarget-signing_hash :
      (tx : FullTx) (h : ℕ)
      → signs_unheighted tx.type ≡ true
      → signing_hash k (record tx { height = h }) ≡ signing_hash k tx
  unfolding signing_hash unheighted_hash
  retarget-signing_hash tx h e = ground arith

  -- A transaction with an effect may be moved to another height above genesis without a new
  -- signature: it verifies there just when it did, and from the same sender.
  pub verify_tx-retarget :
      (lookup : Resolver) (tx : FullTx) (h : ℕ)
      → signs_unheighted tx.type ≡ true
      → tx.height ≢ 0
      → h ≢ 0
      → (verify_tx k lookup (record tx { height = h }) ≡ verify_tx k lookup tx)
        × (tx_from k (record tx { height = h }) ≡ tx_from k tx)
  unfolding verify_tx tx_from
  verify_tx-retarget lookup tx h effect above there =
      let same = retarget-signing_hash tx h effect in
      (
        ground (arith, ap (λ d. check_opened k d (open_envelope k lookup d tx.sign)) same),
        ap (λ d. sender_of k d tx.sign) same,
      )
