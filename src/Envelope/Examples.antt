-- ===== src/Envelope/Examples.antt =====
-- Transactions that the toy scheme signs.
use ngcore.Base.{ℕ, ◌+◌, ◌%◌, ◌≡◌, refl, true, none, some, [], ◌∷◌, ==_self, subst, bytes_eq, arith}
use ngcore.Forks.{zeronet}
use ngcore.Types.{Bytes, FullTx, Commitment, transact_tx}
use ngcore.Envelope.{
  Crypto, Resolver, tx_from, verify_tx, verify_commitment, commitment_from, verify_hash_sig,
  signing_hash, commitment_signing_hash, address_of_pub_key, pub_key_size, has_recovery,
}
use ngcore.Envelope.Sender.{verify_tx-tx_from, verify_tx-retarget}
use ngcore.Envelope.Sign.{Signs, signature, signature-verify_tx}
use ngcore.Envelope.Toy.{toy, toy_hash, toy_sign, toy_key, salt16, signed_by}

abbrev bare : FullTx
bare = record {
  network = zeronet;
  type = transact_tx;
  height = 5;
  to = 77;
  value = 20;
  fee = 3;
  extra = [];
  sign = [];
  salt = salt16;
}

abbrev pub no_registry : Resolver
no_registry = none

abbrev sent : FullTx
sent = signed_by toy_key bare

abbrev retargeted : FullTx
retargeted = record sent { height = 9 }

abbrev blind : Commitment
blind = record {
  network = zeronet;
  height = 4;
  hash = 99;
  fee = 2;
  sign = 1 ∷ 16 ∷ 5 ∷ toy_sign (5 ∷ []) (toy_hash (0 ∷ 99 ∷ 2 ∷ []));
}

sent-verifies : verify_tx toy no_registry sent ≡ none
unfolding verify_tx signature bytes_eq
sent-verifies = refl

verify_tx-tx_from_example :
    (scheme : ℕ) × (key : Bytes) × (sig : Bytes) × (verify_hash_sig toy scheme key
        (signing_hash toy sent)
        sig
      ≡ true)
    × (tx_from toy sent ≡ some (address_of_pub_key toy scheme key))
unfolding signature
verify_tx-tx_from_example = verify_tx-tx_from toy no_registry sent (omega arith) sent-verifies

verify_tx-retarget_example :
    (verify_tx toy no_registry retargeted ≡ verify_tx toy no_registry sent)
    × (tx_from toy retargeted ≡ tx_from toy sent)
unfolding ngcore.Envelope.signs_unheighted signature
verify_tx-retarget_example =
    verify_tx-retarget toy no_registry sent 9 refl (omega arith) (omega arith)

toy-verifies :
    (digest : ℕ) → verify_hash_sig toy 16 (5 ∷ []) digest (toy_sign (5 ∷ []) digest) ≡ true
unfolding verify_hash_sig bytes_eq
toy-verifies digest = ground (arith, ==_self ((5 + digest) % 251))

toy-Signs : Signs toy toy_key
unfolding pub_key_size has_recovery
toy-Signs = record {
  known = omega arith;
  verifies = λ digest sig e.
      let p : toy_sign (5 ∷ []) digest ≡ sig = cc in
      subst (λ (x : Bytes). verify_hash_sig toy 16 (5 ∷ []) digest x ≡ true) p
        (toy-verifies digest);
  recovers = λ digest sig e made. absurd (ground arith);
}

signature-verify_tx_example :
    (verify_tx toy no_registry sent ≡ none)
    × (tx_from toy sent ≡ some (address_of_pub_key toy 16 (5 ∷ [])))
unfolding signature
signature-verify_tx_example =
    signature-verify_tx toy no_registry toy_key bare sent toy-Signs (omega arith) refl
