-- ===== src/Trie/Examples.antt =====
-- The theorems about the tree at concrete inputs, over a toy hash that folds its input to 32 bytes.
use ngcore.Base.{
  ℕ, ◌+◌, ◌*◌, ◌%◌, ◌≡◌, ◌≢◌, refl, List, [], ◌∷◌, some, true, length, replicate, bytes_eq, All,
  arith,
}
use ngcore.Types.{Bytes}
use ngcore.Params.{hash_size}
use ngcore.Trie.{
  empty_store, zero_hash, leaf_hash, join, is_zero, path_bit, root, prove, verify, verify_from,
}
use ngcore.Trie.Paths.{IsPath}
use ngcore.Trie.History.{Write, IsWrite, latest, run, verify-run}
use ngcore.Trie.Canonical.{root-run}
use ngcore.Trie.Binding.{Clash, IsClash, find_clash, verify-binding}

abbrev fold : Bytes → ℕ
fold [] = 7
fold (x ∷ xs) = (fold xs * 31 + x) % 256

abbrev toy_hash : Bytes → Bytes
toy_hash b = replicate 32 (fold b)

toy_hash-size : (b : Bytes) → length (toy_hash b) ≡ hash_size
toy_hash-size b = refl

abbrev path_a : Bytes
path_a = replicate 32 5

abbrev path_b : Bytes
path_b = replicate 32 200

path_a-IsPath : IsPath path_a
path_a-IsPath = record { size = refl; bytes = omega arith }

path_b-IsPath : IsPath path_b
path_b-IsPath = record { size = refl; bytes = omega arith }

abbrev value_one : Bytes
value_one = replicate 32 1

abbrev value_two : Bytes
value_two = replicate 32 2

abbrev writes : List Write
writes = (path_a, value_one) ∷ (path_b, value_two) ∷ (path_a, value_two) ∷ []

abbrev writes' : List Write
writes' = (path_a, value_two) ∷ (path_b, value_two) ∷ []

writes-IsWrite : All IsWrite writes
writes-IsWrite = ((path_a-IsPath, refl), ((path_b-IsPath, refl), ((path_a-IsPath, refl), tt)))

verify-run_example :
    verify toy_hash
      (root toy_hash (run toy_hash empty_store writes))
      path_a
      value_two
      (prove toy_hash (run toy_hash empty_store writes) path_a)
    ≡ true
unfolding bytes_eq
verify-run_example = verify-run toy_hash toy_hash-size writes path_a writes-IsWrite path_a-IsPath

writes'-IsWrite : All IsWrite writes'
writes'-IsWrite = ((path_a-IsPath, refl), ((path_b-IsPath, refl), tt))

same_entries :
    (path : Bytes) → IsPath path → latest writes path zero_hash ≡ latest writes' path zero_hash
same_entries path h = ground arith

root-run_example :
    root toy_hash (run toy_hash empty_store writes)
    ≡ root toy_hash (run toy_hash empty_store writes')
root-run_example = root-run toy_hash writes writes' writes-IsWrite writes'-IsWrite same_entries

-- A hash with one value: every proof verifies.
abbrev constant_hash : Bytes → Bytes
constant_hash b = replicate 32 7

abbrev siblings : List Bytes
siblings = replicate 256 (replicate 32 9)

verify_one : verify constant_hash (replicate 32 7) path_a value_one siblings ≡ true
unfolding verify verify_from bytes_eq leaf_hash join path_bit is_zero
verify_one = refl

verify_two : verify constant_hash (replicate 32 7) path_a value_two siblings ≡ true
unfolding verify verify_from bytes_eq leaf_hash join path_bit is_zero
verify_two = refl

values_differ : value_one ≢ value_two
values_differ e = cc

verify-binding_example :
    (c : Clash) × (find_clash constant_hash path_a value_one siblings value_two siblings ≡ some c)
    × IsClash constant_hash c
verify-binding_example =
    verify-binding constant_hash (replicate 32 7) path_a value_one value_two siblings siblings
      (λ b. refl) verify_one verify_two values_differ
