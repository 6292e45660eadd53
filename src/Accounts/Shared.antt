-- ===== src/Accounts/Shared.antt =====
-- The bucket of code against the slots: each module is counted once for every slot that refers to it,
-- so no slot loses its code to what another one does.
use ngcore.Base.{
  ℕ, ◌+◌, ◌-◌, ◌%◌, ◌^◌, ◌≡◌, ◌≢◌, ◌≤◌, ◌<◌, refl, ap, ◌∙◌, Bool, false, Option, none, some, [],
  ◌∷◌, length, ◌==◌, ==_self, inl, inr, Bool-cases, Option-cases, arith, if◌then◌else◌,
}
use ngcore.Types.{Address, Hash, Bytes}
use ngcore.Maps.{Map, lookup, insert, erase, Distinct}
use ngcore.Maps.Laws.{lookup-insert, lookup-erase, insert-Distinct, erase-Distinct}
use ngcore.Maps.Weigh.{worth, weigh, weigh-insert, weigh-erase}
use ngcore.Changeset.{write, remove}
use ngcore.Changeset.Leaves.{record_pre-same}
use ngcore.Accounts.{
  State, StoredContract, Contract, set_contract, del_contract, get_contract, decode_stored_contract,
  slot_leaf, stored_hash, keeps_history,
}
use ngcore.Accounts.Code.{
  CodeBucket, load_code, retain_code, release_code, reconcile_code, drop_code,
}

abbrev refs_of : Hash → CodeBucket → ℕ
refs_of h m = elim (lookup h m) [ none ↦ 0 | some (refs, code) ↦ refs ]

refs-retain_code :
    (m : CodeBucket) (h g : Hash) (code : Bytes)
    → refs_of h m + 1 < 2 ^ 64
    → refs_of g (retain_code m h code) ≡ (if h == g then refs_of h m + 1 else refs_of g m)
unfolding retain_code
refs-retain_code m h g code small = elim (Option-cases (lookup h m)) [
  | inl e ↦ ground (arith, lookup-insert h g (1, code) m)
  | inr ((refs, kept), e) ↦ ground (arith, lookup-insert h g ((refs + 1) % 2 ^ 64, kept) m)
]

refs-release_code :
    (m : CodeBucket) (h g : Hash) (keep : Bool)
    → refs_of g (release_code m h keep) ≡ (if h == g then refs_of h m - 1 else refs_of g m)
unfolding release_code
refs-release_code m h g keep = elim (Option-cases (lookup h m)) [
  | inl e ↦ ground arith
  | inr ((refs, kept), e) ↦ ground (arith, lookup-insert h g (refs - 1, kept) m, lookup-erase h g m)
]

load-retain_code :
    (m : CodeBucket) (h g : Hash) (code : Bytes)
    → 0 < refs_of g m
    → load_code (retain_code m h code) g ≡ load_code m g
unfolding retain_code load_code
load-retain_code m h g code held = elim (Option-cases (lookup h m)) [
  | inl e ↦ ground (arith, lookup-insert h g (1, code) m)
  | inr ((refs, kept), e) ↦ ground (arith, lookup-insert h g ((refs + 1) % 2 ^ 64, kept) m)
]

load-release_code :
    (m : CodeBucket) (h g : Hash) (keep : Bool)
    → 0 < refs_of g (release_code m h keep)
    → load_code (release_code m h keep) g ≡ load_code m g
unfolding release_code load_code
load-release_code m h g keep held = elim (Option-cases (lookup h m)) [
  | inl e ↦ ground arith
  | inr ((refs, kept), e) ↦ ground (arith, lookup-insert h g (refs - 1, kept) m, lookup-erase h g m)
]

-- Whether a slot refers to the module of a hash.
abbrev counts : Hash → StoredContract → ℕ
counts h stored = if stored.code_hash == h then 1 else 0

-- A module is counted once for each slot that refers to it, and the slots have distinct addresses.
pub record IsCounted (s : State) : Type 0 where
  pub counted : (h : Hash) → refs_of h s.code ≡ weigh (counts h) s.slots.current
  pub distinct : Distinct s.slots.current

counts-length : (h : Hash) (m : Map StoredContract) → weigh (counts h) m ≤ length m
counts-length h [] = omega arith
counts-length h ((a, stored) ∷ m) = elim (Bool-cases (stored.code_hash == h)) [
  | inl e ↦ ground (arith, counts-length h m)
  | inr e ↦ ground (arith, counts-length h m)
]

-- What the old slot of an address counted.
abbrev counted_before : Hash → Option Hash → ℕ
counted_before g none = 0
counted_before g (some old) = if old == g then 1 else 0

before-stored_hash :
    (g : Hash) (a : Address) (m : Map StoredContract)
    → worth (counts g) (lookup a m) ≡ counted_before g (stored_hash (lookup a m))
unfolding stored_hash
before-stored_hash g a m = elim (Option-cases (lookup a m)) [
  | inl e ↦ ground arith
  | inr (stored, e) ↦ ground arith
]

refs-reconcile_code :
    (keep : Bool) (old : Option Hash) (new g : Hash) (code : Bytes) (m : CodeBucket)
    → ((h : Hash) → refs_of h m + 1 < 2 ^ 64)
    → ((h : Hash) → counted_before h old ≤ refs_of h m)
    → refs_of g (reconcile_code keep old new code m) + counted_before g old
      ≡ refs_of g m + (if new == g then 1 else 0)
unfolding reconcile_code
refs-reconcile_code keep none new g code m small held =
    ground (arith, refs-retain_code m new g code (small new))
refs-reconcile_code keep (some old) new g code m small held =
    let m' = release_code m old keep in
    let low : refs_of new m' + 1 < 2 ^ 64 =
      ground (arith, refs-release_code m old new keep, small new, small old) in
    let one = refs-retain_code m' new g code low in
    elim (Bool-cases (old == new)) [
      | inl same ↦ ground (arith, held g)
      | inr other ↦ elim (Bool-cases (old == g)) [
        | inl e ↦
            ground
              (arith, one, refs-release_code m old g keep, refs-release_code m old new keep, held g)
        | inr n ↦
            ground
              (arith, one, refs-release_code m old g keep, refs-release_code m old new keep, held g)
      ]
    ]

refs-drop_code :
    (keep : Bool) (old : Option Hash) (g : Hash) (m : CodeBucket)
    → counted_before g old ≤ refs_of g m
    → refs_of g (drop_code keep old m) + counted_before g old ≡ refs_of g m
unfolding drop_code
refs-drop_code keep none g m held = omega arith
refs-drop_code keep (some old) g m held = elim (Bool-cases (old == g)) [
  | inl e ↦ ground (arith, refs-release_code m old g keep)
  | inr n ↦ ground (arith, refs-release_code m old g keep)
]

counted-before :
    (s : State) (a : Address) (g : Hash)
    → IsCounted s
    → counted_before g (stored_hash (lookup a s.slots.current)) ≤ refs_of g s.code
counted-before s a g ok = omega (
  arith,
  ok.counted g,
  weigh-erase (counts g) a s.slots.current ok.distinct,
  before-stored_hash g a s.slots.current,
)

load-reconcile_code :
    (keep : Bool) (old : Option Hash) (new g : Hash) (code : Bytes) (m : CodeBucket)
    → counted_before g old < refs_of g m
    → load_code (reconcile_code keep old new code m) g ≡ load_code m g
unfolding reconcile_code
load-reconcile_code keep none new g code m held = load-retain_code m new g code held
load-reconcile_code keep (some old) new g code m held =
    let m' = release_code m old keep in
    let left : 0 < refs_of g m' = elim (Bool-cases (old == g)) [
      | inl e ↦ ground (arith, refs-release_code m old g keep)
      | inr n ↦ ground (arith, refs-release_code m old g keep)
    ] in
    let kept : load_code (retain_code m' new code) g ≡ load_code m g =
      load-retain_code m' new g code left ∙ load-release_code m old g keep left in
    elim (Bool-cases (old == new)) [ inl same ↦ ground arith | inr other ↦ ground (arith, kept) ]

load-drop_code :
    (keep : Bool) (old : Option Hash) (g : Hash) (m : CodeBucket)
    → counted_before g old < refs_of g m
    → load_code (drop_code keep old m) g ≡ load_code m g
unfolding drop_code
load-drop_code keep none g m held = refl
load-drop_code keep (some old) g m held =
    load-release_code m old g keep (elim (Bool-cases (old == g)) [
      | inl e ↦ ground (arith, refs-release_code m old g keep)
      | inr n ↦ ground (arith, refs-release_code m old g keep)
    ])

-- A slot's module has a reference that is not another slot's.
another-counts :
    (s : State) (a b : Address) (stored : StoredContract)
    → IsCounted s
    → (a == b) ≡ false
    → lookup b s.slots.current ≡ some stored
    → counted_before stored.code_hash (stored_hash (lookup a s.slots.current))
      < refs_of stored.code_hash s.code
another-counts s a b stored ok ne e =
    let m = s.slots.current in
    let f = counts stored.code_hash in
    let there : lookup b (erase a m) ≡ some stored = ground (arith, lookup-erase a b m) in
    let one : worth f (lookup b (erase a m)) ≡ 1 =
      ap (worth f) there ∙ ground (arith, ==_self stored.code_hash) in
    omega (
      arith,
      one,
      ok.counted stored.code_hash,
      weigh-erase f a m ok.distinct,
      weigh-erase f b (erase a m) (erase-Distinct a m ok.distinct),
      before-stored_hash stored.code_hash a m,
    )

module _ (hash256 : Bytes → Hash) where
  abbrev pub stored_form : Contract → StoredContract
  stored_form c = record { owner = c.owner; code_hash = hash256 c.source; context = c.context }

  pub slots-set_contract :
      (s : State) (c : Contract)
      → (set_contract hash256 s c).slots.current ≡ insert c.owner (stored_form c) s.slots.current
  unfolding set_contract write
  slots-set_contract s c =
      ap (insert c.owner (stored_form c)) (record_pre-same slot_leaf s.recorder s.slots c.owner).0

  code-set_contract :
      (s : State) (c : Contract)
      → (set_contract hash256 s c).code
        ≡ reconcile_code
            (keeps_history s.recorder)
            (stored_hash (lookup c.owner s.slots.current))
            (hash256 c.source)
            c.source
            s.code
  unfolding set_contract
  code-set_contract s c = refl

  -- Storing a slot, the module it had released and its module retained, keeps every module counted
  -- once for each slot that refers to it, on archive nodes and on others, with fewer than 2 ^ 64 slots.
  pub set_contract-IsCounted :
      (s : State) (c : Contract)
      → IsCounted s
      → length s.slots.current + 1 < 2 ^ 64
      → IsCounted (set_contract hash256 s c)
  set_contract-IsCounted s c ok few =
      let m = s.slots.current in
      let keep = keeps_history s.recorder in
      let old = stored_hash (lookup c.owner m) in
      record {
        counted = λ g.
            rw (slots-set_contract s c, code-set_contract s c)
              (omega (
                arith,
                refs-reconcile_code keep old (hash256 c.source) g c.source s.code
                    (λ h. omega (arith, ok.counted h, counts-length h m))
                    (λ h. counted-before s c.owner h ok),
                ok.counted g,
                weigh-insert (counts g) c.owner (stored_form c) m,
                before-stored_hash g c.owner m,
              ));
        distinct =
            rw (slots-set_contract s c) (insert-Distinct c.owner (stored_form c) m ok.distinct);
      }

  -- Where every module is counted once for each slot that refers to it, storing a slot leaves every
  -- other address's contract, its code included, as it was.
  pub get_contract-set_contract :
      (s : State) (c : Contract) (b : Address)
      → IsCounted s
      → c.owner ≢ b
      → get_contract (set_contract hash256 s c) b ≡ get_contract s b
  unfolding get_contract decode_stored_contract
  get_contract-set_contract s c b ok apart =
      let m = s.slots.current in
      let ne : (c.owner == b) ≡ false = ground arith in
      let same : lookup b (set_contract hash256 s c).slots.current ≡ lookup b m =
        ap (lookup b) (slots-set_contract s c)
        ∙ ground (arith, lookup-insert c.owner b (stored_form c) m) in
      elim (Option-cases (lookup b m)) [
        | inl e ↦ ground (arith, same)
        | inr (stored, e) ↦
            let code =
              ap (λ k. load_code k stored.code_hash) (code-set_contract s c)
              ∙ load-reconcile_code (keeps_history s.recorder) (stored_hash (lookup c.owner m))
                  (hash256 c.source) stored.code_hash c.source s.code
                  (another-counts s c.owner b stored ok ne e) in
            ground (arith, same, code)
      ]

pub slots-del_contract :
    (s : State) (a : Address) → (del_contract s a).slots.current ≡ erase a s.slots.current
unfolding del_contract remove
slots-del_contract s a = ap (erase a) (record_pre-same slot_leaf s.recorder s.slots a).0

code-del_contract :
    (s : State) (a : Address)
    → (del_contract s a).code
      ≡ drop_code (keeps_history s.recorder) (stored_hash (lookup a s.slots.current)) s.code
unfolding del_contract
code-del_contract s a = refl

-- Where every module is counted once for each slot that refers to it, deleting a slot keeps it so,
-- and leaves every other address's contract, its code included, as it was.
pub del_contract-IsCounted :
    (s : State) (a b : Address)
    → IsCounted s
    → a ≢ b
    → IsCounted (del_contract s a) × (get_contract (del_contract s a) b ≡ get_contract s b)
unfolding get_contract decode_stored_contract
del_contract-IsCounted s a b ok apart =
    let m = s.slots.current in
    let keep = keeps_history s.recorder in
    let ne : (a == b) ≡ false = ground arith in
    let same : lookup b (del_contract s a).slots.current ≡ lookup b m =
      ap (lookup b) (slots-del_contract s a) ∙ ground (arith, lookup-erase a b m) in
    let still : IsCounted (del_contract s a) = record {
      counted = λ g.
          rw (slots-del_contract s a, code-del_contract s a)
            (omega (
              arith,
              refs-drop_code keep (stored_hash (lookup a m)) g s.code (counted-before s a g ok),
              ok.counted g,
              weigh-erase (counts g) a m ok.distinct,
              before-stored_hash g a m,
            ));
      distinct = rw (slots-del_contract s a) (erase-Distinct a m ok.distinct);
    } in
    elim (Option-cases (lookup b m)) [
      | inl e ↦ (still, ground (arith, same))
      | inr (stored, e) ↦
          let code =
            ap (λ k. load_code k stored.code_hash) (code-del_contract s a)
            ∙ load-drop_code keep (stored_hash (lookup a m)) stored.code_hash s.code
                (another-counts s a b stored ok ne e) in
          (still, ground (arith, same, code))
    ]
