-- ===== src/Accounts/Keys.antt =====
-- The key registry (ngstate/state_helper.go): an address's key, revealed by its first full envelope.
use ngcore.Base.{
  ℕ, ◌+◌, ◌≡◌, refl, Bool, false, Option, none, some, [], ◌∷◌, All, length, take, drop, ◌==◌, inl,
  inr, Option-cases, arith, if◌then◌else◌,
}
use ngcore.Types.{Address, Bytes, FullTx}
use ngcore.Maps.{Map, lookup, insert}
use ngcore.Maps.Values.{All-insert}
use ngcore.Commits.Buckets.{get, put}
use ngcore.Changeset.{Domain, Recorder}
use ngcore.Envelope.{
  Crypto, SigScheme, Resolver, envelope_compact, pub_key_size, sig_size, address_of_pub_key,
}
use ngcore.Accounts.{State}

unfoldable pub entry_or_empty : Option Bytes → Bytes
entry_or_empty none = []
entry_or_empty (some entry) = entry

-- `keyResolver`
unfoldable pub key_resolver : State → Resolver
unfolding entry_or_empty
key_resolver s = some (λ a. entry_or_empty (lookup a s.keys.current))

-- `recordKey`: the pre-image of a reveal is always absent.
unfoldable pub record_key : Recorder → Domain Bytes → Address → Domain Bytes
record_key none d a = d
record_key (some h) d a = elim (get h a d.pre_images) [
  | some old ↦ d
  | none ↦ record d { pre_images = put h a none d.pre_images }
]

-- `IsCompactEnvelope`
unfoldable pub is_compact_envelope : FullTx → Bool
is_compact_envelope tx = elim tx.sign [ [] ↦ false | form ∷ rest ↦ form == envelope_compact ]

-- `EnvelopeScheme`
unfoldable pub envelope_scheme : Bytes → SigScheme
envelope_scheme [] = 0
envelope_scheme (form ∷ []) = 0
envelope_scheme (form ∷ scheme ∷ rest) = scheme

module _ (k : Crypto) where
  unfoldable pub put_key : State → SigScheme → Bytes → State
  unfolding record_key
  put_key s scheme key =
      let a = address_of_pub_key k scheme key in
      elim (lookup a s.keys.current) [
        | some entry ↦ s
        | none ↦
            let d = record_key s.recorder s.keys a in
            record s {
              keys = record d {
                current = insert a (scheme ∷ key) d.current;
                leaves = insert a (scheme ∷ key) d.leaves;
              };
            }
      ]

  -- `registerPubKey`
  unfoldable pub register_pub_key : State → FullTx → State
  unfolding is_compact_envelope envelope_scheme put_key pub_key_size sig_size
  register_pub_key s tx =
      let scheme = envelope_scheme tx.sign in
      let size = pub_key_size k scheme in
      if is_compact_envelope tx
      then s
      else if size == 0
      then s
      else if length tx.sign == 2 + size + sig_size k scheme
      then put_key s scheme (take size (drop 2 tx.sign))
      else s

  -- Every entry is the key, with its scheme, of the address it stands at.
  abbrev pub IsRegistry : Map Bytes → Type 0
  IsRegistry m =
      All
        (λ (e : ℕ × Bytes).
          (scheme : SigScheme) × (key : Bytes) × (e.1 ≡ scheme ∷ key)
          × (address_of_pub_key k scheme key ≡ e.0))
        m

  current-record_key :
      (rec : Recorder) (d : Domain Bytes) (a : Address) → (record_key rec d a).current ≡ d.current
  unfolding record_key
  current-record_key none d a = refl
  current-record_key (some h) d a = elim (Option-cases (get h a d.pre_images)) [
    | inl e ↦ ground arith
    | inr (old, e) ↦ ground arith
  ]

  put_key-new :
      (s : State) (scheme : SigScheme) (key : Bytes)
      → lookup (address_of_pub_key k scheme key) s.keys.current ≡ none
      → (put_key s scheme key).keys.current
        ≡ insert (address_of_pub_key k scheme key) (scheme ∷ key) s.keys.current
  unfolding put_key
  put_key-new s scheme key e =
      ground (arith, current-record_key s.recorder s.keys (address_of_pub_key k scheme key))

  put_key-old :
      (s : State) (scheme : SigScheme) (key entry : Bytes)
      → lookup (address_of_pub_key k scheme key) s.keys.current ≡ some entry
      → put_key s scheme key ≡ s
  unfolding put_key
  put_key-old s scheme key entry e = ground arith

  pub put_key-IsRegistry :
      (s : State) (scheme : SigScheme) (key : Bytes)
      → IsRegistry s.keys.current
      → IsRegistry (put_key s scheme key).keys.current
  put_key-IsRegistry s scheme key ok =
      let a = address_of_pub_key k scheme key in
      elim (Option-cases (lookup a s.keys.current)) [
        | inr (entry, e) ↦ rw (put_key-old s scheme key entry e) ok
        | inl e ↦
            rw (put_key-new s scheme key e)
              (All-insert _ a (scheme ∷ key) s.keys.current ok (scheme, key, refl, refl))
      ]
