-- ===== src/Changeset/Unwind.antt =====
-- Reverting a height restores the domain that the block found.
use ngcore.Base.{
  ℕ, ◌≡◌, refl, sym, ap, ◌∙◌, Option, none, some, List, [], ◌∷◌, All, inl, inr, ◌==◌, Bool-cases,
  arith, if◌then◌else◌,
}
use ngcore.Types.{Address}
use ngcore.Maps.{Map, lookup}
use ngcore.Maps.Laws.{lookup-insert, lookup-erase}
use ngcore.Commits.Buckets.{entries_at}
use ngcore.Changeset.{Domain, set_leaf, revert_one, revert_all, revert_domain, Change, apply}
use ngcore.Changeset.Held.{listed, fresh-Held, apply-Held}
use ngcore.Changeset.Leaves.{leaf_of, IsMirror, given-IsMirror, apply-IsMirror}

module _ {V : Type 0} (leaf : V → Option V) where
  lookup-revert_one :
      (h : ℕ) (d : Domain V) (b : Address) (old : Option V) (a : Address)
      → lookup a (revert_one leaf h d (b, old)).current
        ≡ (if b == a then old else lookup a d.current)
  unfolding revert_one
  lookup-revert_one h d b none a = ground (arith, lookup-erase b a d.current)
  lookup-revert_one h d b (some v) a = ground (arith, lookup-insert b a v d.current)

  lookup-revert_all :
      (h : ℕ) (m : Map V) (es : List (Address × Option V)) (d : Domain V) (a : Address)
      → All (λ e. e.1 ≡ lookup e.0 m) es
      → lookup a (revert_all leaf h d es).current
        ≡ (if listed a es then lookup a m else lookup a d.current)
  unfolding revert_all
  lookup-revert_all h m [] d a all = refl
  lookup-revert_all h m ((b, old) ∷ es) d a all =
      let rest = lookup-revert_all h m es (revert_one leaf h d (b, old)) a all.1 in
      let here = lookup-revert_one h d b old a in
      elim (Bool-cases (b == a)) [
        | inr other ↦ ground (arith, rest, here)
        | inl same ↦
            let p : b ≡ a = ground arith in
            let was : old ≡ lookup a m = all.0 ∙ ap (λ k. lookup k m) p in
            ground (arith, rest, here, was)
      ]

  leaves-revert_one :
      (h : ℕ) (d : Domain V) (a : Address) (o : Option V)
      → (revert_one leaf h d (a, o)).leaves ≡ set_leaf leaf a o d.leaves
  unfolding revert_one
  leaves-revert_one h d a o = refl

  revert_all-IsMirror :
      (h : ℕ) (es : List (Address × Option V)) (d : Domain V)
      → IsMirror leaf d
      → IsMirror leaf (revert_all leaf h d es)
  unfolding revert_all
  revert_all-IsMirror h [] d mirror = mirror
  revert_all-IsMirror h ((a, o) ∷ es) d mirror =
      revert_all-IsMirror h es (revert_one leaf h d (a, o)) (
        given-IsMirror leaf d (revert_one leaf h d (a, o)) a o mirror
          (λ b. lookup-revert_one h d a o b) (leaves-revert_one h d a o))

  lookup-revert_domain :
      (h : ℕ) (cs : List (Change V)) (d : Domain V) (a : Address)
      → entries_at h d.pre_images ≡ []
      → lookup a (revert_domain leaf h (apply leaf (some h) cs d)).current ≡ lookup a d.current
  unfolding revert_domain
  lookup-revert_domain h cs d a e =
      let d' = apply leaf (some h) cs d in
      let held = apply-Held leaf h d.current cs d (fresh-Held h d e) in
      let back = lookup-revert_all h d.current (entries_at h d'.pre_images) d' a held.faithful in
      elim (Bool-cases (listed a (entries_at h d'.pre_images))) [
        | inl seen ↦ ground (arith, back)
        | inr unseen ↦ ground (arith, back, held.rest a unseen)
      ]

  -- What a block has written to a domain at its height, where nothing was recorded for the height
  -- before, reverting the height takes back: every value and every leaf of the state commitment is what
  -- the block found.
  pub revert_domain-apply :
      (h : ℕ) (cs : List (Change V)) (d : Domain V) (a : Address)
      → entries_at h d.pre_images ≡ []
      → IsMirror leaf d
      → (lookup a (revert_domain leaf h (apply leaf (some h) cs d)).current ≡ lookup a d.current)
        × (lookup a (revert_domain leaf h (apply leaf (some h) cs d)).leaves ≡ lookup a d.leaves)
  unfolding revert_domain
  revert_domain-apply h cs d a e mirror =
      let d' = apply leaf (some h) cs d in
      let back = lookup-revert_domain h cs d a e in
      let after =
        revert_all-IsMirror h (entries_at h d'.pre_images) d'
          (apply-IsMirror leaf (some h) cs d mirror) in
      (back, after a ∙ ap (leaf_of leaf) back ∙ sym (mirror a))
