-- ===== src/Changeset/Leaves.antt =====
-- The leaves of the state commitment follow the values of a domain.
use ngcore.Base.{
  ◌≡◌, refl, ap, ◌∙◌, Option, none, some, List, [], ◌∷◌, inl, inr, ◌==◌, Bool-cases, Option-cases,
  arith, if◌then◌else◌,
}
use ngcore.Types.{Address}
use ngcore.Maps.{Map, lookup}
use ngcore.Maps.Laws.{lookup-insert, lookup-erase}
use ngcore.Commits.Buckets.{get}
use ngcore.Changeset.{
  Domain, Recorder, record_pre, set_leaf, write, remove, Change, set, del, apply,
}

module _ {V : Type 0} (leaf : V → Option V) where
  -- The leaf that the value of an address has.
  abbrev pub leaf_of : Option V → Option V
  leaf_of none = none
  leaf_of (some v) = leaf v

  -- The leaves of the state commitment are those of the current values.
  abbrev pub IsMirror : Domain V → Type 0
  IsMirror d = (a : Address) → lookup a d.leaves ≡ leaf_of (lookup a d.current)

  pub lookup-set_leaf :
      (a b : Address) (o : Option V) (m : Map V)
      → lookup b (set_leaf leaf a o m) ≡ (if a == b then leaf_of o else lookup b m)
  unfolding set_leaf
  lookup-set_leaf a b none m = lookup-erase a b m
  lookup-set_leaf a b (some v) m = elim (Option-cases (leaf v)) [
    | inl e ↦ ground (arith, e, lookup-erase a b m)
    | inr (l, e) ↦ ground (arith, e, lookup-insert a b l m)
  ]

  -- A domain whose address `a` has been given the value `o`, and its leaf.
  pub given-IsMirror :
      (d d' : Domain V) (a : Address) (o : Option V)
      → IsMirror d
      → ((b : Address) → lookup b d'.current ≡ (if a == b then o else lookup b d.current))
      → d'.leaves ≡ set_leaf leaf a o d.leaves
      → IsMirror d'
  given-IsMirror d d' a o mirror now leaves = λ b.
      let there = ap (lookup b) leaves ∙ lookup-set_leaf a b o d.leaves in
      elim (Bool-cases (a == b)) [
        | inl same ↦ ground (arith, there, now b)
        | inr other ↦ ground (arith, there, now b, mirror b)
      ]

  pub record_pre-same :
      (rec : Recorder) (d : Domain V) (a : Address)
      → ((record_pre rec d a).current ≡ d.current) × ((record_pre rec d a).leaves ≡ d.leaves)
  unfolding record_pre
  record_pre-same none d a = (refl, refl)
  record_pre-same (some h) d a = elim (Option-cases (get h a d.pre_images)) [
    | inl e ↦ ground arith
    | inr (old, e) ↦ ground arith
  ]

  write-IsMirror :
      (rec : Recorder) (d : Domain V) (a : Address) (v : V)
      → IsMirror d
      → IsMirror (write leaf rec a v d)
  unfolding write
  write-IsMirror rec d a v mirror =
      let (values, leaves) = record_pre-same rec d a in
      given-IsMirror d (write leaf rec a v d) a (some v) mirror
        (λ b.
          lookup-insert a b v (record_pre rec d a).current
          ∙ ap (λ m. if a == b then some v else lookup b m) values)
        (ap (set_leaf leaf a (some v)) leaves)

  remove-IsMirror :
      (rec : Recorder) (d : Domain V) (a : Address) → IsMirror d → IsMirror (remove leaf rec a d)
  unfolding remove
  remove-IsMirror rec d a mirror =
      let (values, leaves) = record_pre-same rec d a in
      given-IsMirror d (remove leaf rec a d) a none mirror
        (λ b.
          lookup-erase a b (record_pre rec d a).current
          ∙ ap (λ m. if a == b then none else lookup b m) values)
        (ap (set_leaf leaf a none) leaves)

  -- Every block keeps the leaves those of the values, archived or not.
  pub apply-IsMirror :
      (rec : Recorder) (cs : List (Change V)) (d : Domain V)
      → IsMirror d
      → IsMirror (apply leaf rec cs d)
  unfolding apply
  apply-IsMirror rec [] d mirror = mirror
  apply-IsMirror rec (set a v ∷ cs) d mirror =
      apply-IsMirror rec cs (write leaf rec a v d) (write-IsMirror rec d a v mirror)
  apply-IsMirror rec (del a ∷ cs) d mirror =
      apply-IsMirror rec cs (remove leaf rec a d) (remove-IsMirror rec d a mirror)
