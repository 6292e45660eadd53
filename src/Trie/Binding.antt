-- ===== src/Trie/Binding.antt =====
-- Two proofs that show different values at one path under one root give a clash of the hash.
use ngcore.Base.{
  ℕ, zero, suc, ◌≡◌, ◌≢◌, refl, sym, ◌∙◌, List, [], ◌∷◌, ◌++◌, Option, some, none, Bool, true,
  false, length, bytes_eq, bytes_eq_sound, bytes_eq-apart, append_cancel, Bool-cases, Option-cases,
  inl, inr, ◌==◌, arith, if◌then◌else◌,
}
use ngcore.Types.{Bytes}
use ngcore.Params.{hash_size}
use ngcore.Trie.{
  tree_depth, leaf_tag, internal_tag, zero_hash, is_zero, path_bit, leaf_hash, internal_hash, join,
  verify_from, verify,
}

cons_tail : (x y : ℕ) (xs ys : Bytes) → ◌≡◌ {A = Bytes} (x ∷ xs) (y ∷ ys) → xs ≡ ys
cons_tail x y xs ys e = cc

some_eq : {x y : Bytes} → ◌≡◌ {A = Option Bytes} (some x) (some y) → x ≡ y
some_eq e = cc

-- What is hashed one level up.
ordered : Bool → Bytes → Bytes → Bytes
ordered true cur sib = internal_tag ∷ cur ++ sib
ordered false cur sib = internal_tag ∷ sib ++ cur

preimage : ℕ → Bytes → Bytes → Bytes
unfolding ordered
preimage bit = ordered (bit == 0)

ordered-cancel :
    (b : Bool) (x y p q : Bytes)
    → length p ≡ length q
    → length x ≡ length y
    → ordered b x p ≡ ordered b y q
    → x ≡ y
unfolding ordered
ordered-cancel true x y p q l m e = (append_cancel x y p q m (cons_tail _ _ _ _ e)).0
ordered-cancel false x y p q l m e = (append_cancel p q x y l (cons_tail _ _ _ _ e)).1

preimage-cancel :
    (bit : ℕ) (x y p q : Bytes)
    → length p ≡ length q
    → length x ≡ length y
    → preimage bit x p ≡ preimage bit y q
    → x ≡ y
unfolding preimage
preimage-cancel bit x y p q l m e = ordered-cancel (bit == 0) x y p q l m e

-- Two strings of one hash, or a string whose hash is the all-zero hash of an absent leaf.
pub data Clash : Type 0 where
  collision : Bytes → Bytes → Clash
  zero_preimage : Bytes → Clash

module _ (hash256 : Bytes → Bytes) where
  abbrev pub IsClash : Clash → Type 0
  IsClash (collision x y) = (x ≢ y) × (hash256 x ≡ hash256 y)
  IsClash (zero_preimage x) = hash256 x ≡ zero_hash

  -- Looks for the first level, going up, at which two branches meet.
  meet : Bytes → ℕ → Bytes → List Bytes → Bytes → List Bytes → Option Clash
  unfolding preimage
  meet path zero a ps b qs = none
  meet path (suc d) a [] b qs = none
  meet path (suc d) a (p ∷ ps) b [] = none
  meet path (suc d) a (p ∷ ps) b (q ∷ qs) =
      let x = preimage (path_bit path d) a p in
      let y = preimage (path_bit path d) b q in
      let rest = meet path d (hash256 x) ps (hash256 y) qs in
      if bytes_eq (hash256 x) (hash256 y) then some (collision x y) else rest

  -- The clash of two leaves with one hash.
  leaf_clash : Bytes → Bytes → Bytes → Clash
  leaf_clash path v w =
      if is_zero v
      then zero_preimage (leaf_tag ∷ path ++ w)
      else if is_zero w
      then zero_preimage (leaf_tag ∷ path ++ v)
      else collision (leaf_tag ∷ path ++ v) (leaf_tag ∷ path ++ w)

  -- The clash that two proofs of different values lead to.
  pub find_clash : Bytes → Bytes → List Bytes → Bytes → List Bytes → Option Clash
  find_clash path v ps w qs =
      if bytes_eq (leaf_hash hash256 path v) (leaf_hash hash256 path w)
      then some (leaf_clash path v w)
      else meet path tree_depth (leaf_hash hash256 path v) ps (leaf_hash hash256 path w) qs

  join-preimage : (b : ℕ) (cur sib : Bytes) → join hash256 b cur sib ≡ hash256 (preimage b cur sib)
  unfolding join internal_hash preimage
  join-preimage b cur sib = ground arith

  verify_from-cons :
      (path : Bytes) (d : ℕ) (cur sib r : Bytes) (ps : List Bytes)
      → verify_from hash256 path (suc d) cur (sib ∷ ps) ≡ some r
      → (length sib ≡ hash_size)
        × (verify_from hash256 path d (hash256 (preimage (path_bit path d) cur sib)) ps ≡ some r)
  unfolding verify_from
  verify_from-cons path d cur sib r ps e =
      rw (← join-preimage (path_bit path d) cur sib) (ground arith)

  meet-IsClash :
      (path : Bytes) (d : ℕ) (a b : Bytes) (ps qs : List Bytes) {r : Bytes}
      → length a ≡ length b
      → a ≢ b
      → ((x : Bytes) → length (hash256 x) ≡ hash_size)
      → verify_from hash256 path d a ps ≡ some r
      → verify_from hash256 path d b qs ≡ some r
      → (c : Clash) × (meet path d a ps b qs ≡ some c) × IsClash c
  unfolding verify_from meet
  meet-IsClash path zero a b ps qs l ne size e f = absurd (ne (some_eq (e ∙ sym f)))
  meet-IsClash path (suc d) a b [] qs l ne size e f = cc
  meet-IsClash path (suc d) a b (p ∷ ps) [] l ne size e f = cc
  meet-IsClash path (suc d) a b (p ∷ ps) (q ∷ qs) {r} l ne size e f =
      let bit = path_bit path d in
      let x = preimage bit a p in
      let y = preimage bit b q in
      let (lp, e') = verify_from-cons path d a p r ps e in
      let (lq, f') = verify_from-cons path d b q r qs f in
      elim (Bool-cases (bytes_eq (hash256 x) (hash256 y))) [
        | inl same ↦ (
          collision x y,
          rw same refl,
          ((λ z. ne (preimage-cancel bit a b p q (lp ∙ sym lq) l z)), bytes_eq_sound _ _ same),
        )
        | inr other ↦ rw other (
            meet-IsClash path d (hash256 x) (hash256 y) ps qs (size x ∙ sym (size y))
              (bytes_eq-apart _ _ other) size e' f')
      ]

  zero_eq : (v w : Bytes) → length v ≡ length w → is_zero v ≡ true → is_zero w ≡ true → v ≡ w
  unfolding is_zero
  zero_eq [] [] l p q = refl
  zero_eq (x ∷ v) (y ∷ w) l p q = ground (arith, zero_eq v w (omega arith))
  zero_eq [] (y ∷ w) l p q = absurd (omega arith)
  zero_eq (x ∷ v) [] l p q = absurd (omega arith)

  leaf_cases :
      (path v w : Bytes) (bv bw : Bool)
      → length v ≡ length w
      → v ≢ w
      → is_zero v ≡ bv
      → is_zero w ≡ bw
      → (if bv then zero_hash else hash256 (leaf_tag ∷ path ++ v))
        ≡ (if bw then zero_hash else hash256 (leaf_tag ∷ path ++ w))
      → IsClash (
          if bv
          then zero_preimage (leaf_tag ∷ path ++ w)
          else if bw
          then zero_preimage (leaf_tag ∷ path ++ v)
          else collision (leaf_tag ∷ path ++ v) (leaf_tag ∷ path ++ w))
  leaf_cases path v w true true l ne p q e = absurd (ne (zero_eq v w l p q))
  leaf_cases path v w true false l ne p q e = sym e
  leaf_cases path v w false true l ne p q e = e
  leaf_cases path v w false false l ne p q e =
      ((λ z. ne (append_cancel path path v w refl (cons_tail _ _ _ _ z)).1), e)

  leaf-IsClash :
      (path v w : Bytes)
      → length v ≡ length w
      → v ≢ w
      → leaf_hash hash256 path v ≡ leaf_hash hash256 path w
      → IsClash (leaf_clash path v w)
  unfolding leaf_hash leaf_clash
  leaf-IsClash path v w l ne e = leaf_cases path v w (is_zero v) (is_zero w) l ne refl refl e

  verify-true :
      (root path v : Bytes) (ps : List Bytes)
      → verify hash256 root path v ps ≡ true
      → (length v ≡ hash_size)
        × (verify_from hash256 path tree_depth (leaf_hash hash256 path v) ps ≡ some root)
  unfolding verify
  verify-true root path v ps e =
      elim (Option-cases (verify_from hash256 path tree_depth (leaf_hash hash256 path v) ps)) [
        | inl no_root ↦ ground arith
        | inr (cur, climbed) ↦ ground (arith, bytes_eq_sound cur root)
      ]

  leaf-size :
      (path v : Bytes)
      → ((x : Bytes) → length (hash256 x) ≡ hash_size)
      → length (leaf_hash hash256 path v) ≡ hash_size
  unfolding leaf_hash
  leaf-size path v size = ground (arith, size (leaf_tag ∷ path ++ v))

  -- If two proofs verify different value hashes at one path against one root, then `find_clash` turns
  -- them into two strings with one hash, or a string whose hash is all zero.
  pub verify-binding :
      (root path v w : Bytes) (ps qs : List Bytes)
      → ((x : Bytes) → length (hash256 x) ≡ hash_size)
      → verify hash256 root path v ps ≡ true
      → verify hash256 root path w qs ≡ true
      → v ≢ w
      → (c : Clash) × (find_clash path v ps w qs ≡ some c) × IsClash c
  unfolding find_clash
  verify-binding root path v w ps qs size e f ne =
      let (lv, e') = verify-true root path v ps e in
      let (lw, f') = verify-true root path w qs f in
      elim (Bool-cases (bytes_eq (leaf_hash hash256 path v) (leaf_hash hash256 path w))) [
        | inl same ↦ (
          leaf_clash path v w,
          rw same refl,
          leaf-IsClash path v w (lv ∙ sym lw) ne (bytes_eq_sound _ _ same),
        )
        | inr other ↦ rw other (
            meet-IsClash path tree_depth (leaf_hash hash256 path v) (leaf_hash hash256 path w) ps qs
              (leaf-size path v size ∙ sym (leaf-size path w size)) (bytes_eq-apart _ _ other) size
              e' f')
      ]
