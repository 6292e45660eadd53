-- ===== src/Accounts/Deps.antt =====
-- The modules that a contract links against (ngstate/deps.go, with `validateDeps`, `pinDeps` and
-- `releaseContractDeps` of ngstate/state_handle.go). A compiled module's import names and the bs58
-- decoding of a name are parameters.
use ngcore.Base.{
  ℕ, ◌+◌, ◌-◌, ◌%◌, ◌^◌, Bool, true, false, not, ◌||◌, Option, none, some, List, [], ◌∷◌, length,
  ltb, ◌==◌, if◌then◌else◌,
}
use ngcore.Types.{Address, Hash, Bytes}
use ngcore.Accounts.{State, Contract, get_contract, set_contract, is_live}

abbrev pub ImportName : Type 0
ImportName = ℕ

abbrev pub max_deps_per_contract : ℕ
max_deps_per_contract = 32

unfoldable pub listed_in : ℕ → List ℕ → Bool
listed_in n [] = false
listed_in n (m ∷ ms) = m == n || listed_in n ms

-- Whether an import names an address.
unfoldable pub is_address : Option Address → Bool
is_address none = false
is_address (some a) = true

module _ (bs58_address : ImportName → Option Address) where
  -- The loop of `parseContractDeps`, with the names seen before.
  unfoldable pub dep_names : List ℕ → List ImportName → List ImportName
  unfolding listed_in is_address
  dep_names seen [] = []
  dep_names seen (n ∷ ns) =
      let skip = dep_names seen ns in
      let keep = dep_names (n ∷ seen) ns in
      if not (is_address (bs58_address n))
      then skip
      else if listed_in n seen
      then skip
      else n ∷ keep

  -- `parseContractDeps`
  unfoldable pub parse_contract_deps : List ImportName → Option (List ImportName)
  unfolding dep_names
  parse_contract_deps imports =
      let deps = dep_names [] imports in
      if ltb max_deps_per_contract (length deps) then none else some deps

  -- `resolveDepAddrs`, with the addresses seen before.
  unfoldable pub resolve_dep_addrs : List Address → List ImportName → Option (List Address)
  unfolding listed_in
  resolve_dep_addrs seen [] = some []
  resolve_dep_addrs seen (n ∷ ns) = elim (bs58_address n) [
    | none ↦ none
    | some a ↦
        if listed_in a seen
        then resolve_dep_addrs seen ns
        else elim (resolve_dep_addrs (a ∷ seen) ns) [
          | none ↦ none
          | some more_deps ↦ some (a ∷ more_deps)
        ]
  ]

  -- `extractContractDeps`, of the import names of the module, or `none` where it does not compile.
  unfoldable pub extract_contract_deps :
      (Bytes → Option (List ImportName)) → Bytes → Option (List Address)
  unfolding parse_contract_deps resolve_dep_addrs
  extract_contract_deps imports_of source =
      if length source == 0 then some [] else elim (imports_of source) [
        | none ↦ none
        | some imports ↦ elim (parse_contract_deps imports) [
          | none ↦ none
          | some deps ↦ resolve_dep_addrs [] deps
        ]
      ]

-- The loop of `validateDeps`: each is a live contract, and none is the deployer.
unfoldable pub all_live : State → Address → List Address → Bool
unfolding get_contract is_live
all_live s from [] = true
all_live s from (a ∷ more_deps) =
    let rest = all_live s from more_deps in
    if a == from
    then false
    else elim (get_contract s a) [ none ↦ false | some c ↦ if is_live c then rest else false ]

-- `setRefCount`
unfoldable pub set_ref_count : Contract → ℕ → Contract
set_ref_count c n = record c { context = record c.context { refs = n } }

-- `setContractDeps`
unfoldable pub set_contract_deps : Contract → List Address → Contract
set_contract_deps c deps = record c { context = record c.context { deps = deps } }

module _ (hash256 : Bytes → Hash) where
  -- `pinDeps`
  unfoldable pub pin_deps : State → List Address → Option State
  unfolding get_contract set_contract set_ref_count
  pin_deps s [] = some s
  pin_deps s (a ∷ more_deps) = elim (get_contract s a) [
    | none ↦ none
    | some c ↦
        pin_deps (set_contract hash256 s (set_ref_count c ((c.context.refs + 1) % 2 ^ 64)))
          more_deps
  ]

  -- The loop of `releaseContractDeps`.
  unfoldable pub release_deps : State → List Address → Option State
  unfolding get_contract set_contract set_ref_count
  release_deps s [] = some s
  release_deps s (a ∷ more_deps) = elim (get_contract s a) [
    | none ↦ none
    | some c ↦
        if ltb 0 c.context.refs
        then release_deps (set_contract hash256 s (set_ref_count c (c.context.refs - 1))) more_deps
        else release_deps s more_deps
  ]
