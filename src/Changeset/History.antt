-- ===== src/Changeset/History.antt =====
-- The archive: a block never changes what the values of the past read as.
use ngcore.Base.{
  ℕ, ◌+◌, ◌≡◌, ◌≢◌, ◌≤◌, ◌<◌, refl, sym, ap, ◌∙◌, false, ◌&&◌, Option, none, some, List, [], ◌∷◌,
  All, ltb, ◌==◌, inl, inr, Bool-cases, Option-cases, arith, if◌then◌else◌,
}
use ngcore.Types.{Address}
use ngcore.Maps.{lookup}
use ngcore.Maps.Laws.{lookup-insert, lookup-erase}
use ngcore.Commits.Buckets.{get, entries_at}
use ngcore.Commits.Buckets.Laws.{get-put}
use ngcore.Changeset.{
  Domain, record_pre, first_change_height_after, value_at_height, write, remove, Change, set, del,
  apply,
}
use ngcore.Changeset.Held.{listed-entries_at, recorded, record_pre-seen, record_pre-new}

abbrev first : List (Address × ℕ) → Address → ℕ → Option ℕ
first = first_change_height_after

first-above :
    (es : List (Address × ℕ)) (a : Address) (t h : ℕ)
    → All (λ e. e.1 < h) es
    → h ≤ t + 1
    → first es a t ≡ none
unfolding first_change_height_after
first-above [] a t h all le = refl
first-above ((b, k) ∷ es) a t h all le = ground (arith, first-above es a t h all.1 le)

first-below :
    (es : List (Address × ℕ)) (a : Address) (t h k : ℕ)
    → All (λ e. e.1 < h) es
    → first es a t ≡ some k
    → k < h
unfolding first_change_height_after
first-below [] a t h k all e = cc
first-below ((b, i) ∷ es) a t h k all e = elim (Option-cases (first es a t)) [
  | inl missing ↦ ground arith
  | inr (j, there) ↦ ground (arith, first-below es a t h j all.1 there)
]

module _ {V : Type 0} where
  -- The index agrees with the pre-images of the height, which is the highest in it.
  record Agrees (h : ℕ) (d : Domain V) : Type 0 where
    pub top : (a : Address) → first d.history a h ≡ none
    pub missing :
        (a : Address) (t : ℕ) → t < h → first d.history a t ≡ none → get h a d.pre_images ≡ none
    pub bound : (a : Address) (t k : ℕ) → t < h → first d.history a t ≡ some k → k ≤ h
    pub kept :
        (a : Address) (t : ℕ) → t < h → first d.history a t ≡ some h → get h a d.pre_images ≢ none

  fresh-Agrees :
      (h : ℕ) (d : Domain V)
      → All (λ e. e.1 < h) d.history
      → entries_at h d.pre_images ≡ []
      → Agrees h d
  fresh-Agrees h d all fresh = record {
    top = λ a. first-above d.history a h h all (omega arith);
    missing = λ a t lt e. listed-entries_at h a d.pre_images (rw fresh refl);
    bound = λ a t k lt e. omega (arith, first-below d.history a t h k all e);
    kept = λ a t lt e. absurd (omega (arith, first-below d.history a t h h all e));
  }

  first-recorded :
      (h : ℕ) (d : Domain V) (b a : Address) (t : ℕ)
      → first (recorded h d b).history a t ≡ (
          if b == a && ltb t h
          then elim (first d.history a t) [
            | none ↦ some h
            | some k ↦ if ltb h k then some h else some k
          ]
          else first d.history a t)
  unfolding first_change_height_after
  first-recorded h d b a t = refl

  get-recorded :
      (h k : ℕ) (d : Domain V) (b a : Address)
      → get k a (recorded h d b).pre_images
        ≡ (if h == k && b == a then some (lookup b d.current) else get k a d.pre_images)
  get-recorded h k d b a = get-put h k b a (lookup b d.current) d.pre_images

  record_pre-Agrees :
      (h : ℕ) (d : Domain V) (b : Address) → Agrees h d → Agrees h (record_pre (some h) d b)
  record_pre-Agrees h d b ok = elim (Option-cases (get h b d.pre_images)) [
    | inr (old, e) ↦ rw (record_pre-seen h d b old e) ok
    | inl e ↦ rw (record_pre-new h d b e) record {
      top = λ a. ground (arith, first-recorded h d b a h, ok.top a);
      missing = λ a t lt n. elim (Option-cases (first d.history a t)) [
        | inl f ↦
            ground (arith, first-recorded h d b a t, get-recorded h h d b a, ok.missing a t lt f)
        | inr (k, f) ↦ ground (arith, first-recorded h d b a t)
      ];
      bound = λ a t k lt f. elim (Option-cases (first d.history a t)) [
        | inl g ↦ ground (arith, first-recorded h d b a t)
        | inr (j, g) ↦ ground (arith, first-recorded h d b a t, ok.bound a t j lt g)
      ];
      kept = λ a t lt f n. elim (Bool-cases (b == a)) [
        | inl same ↦ ground (arith, get-recorded h h d b a)
        | inr other ↦
            ok.kept a t lt (ground (arith, first-recorded h d b a t))
              (ground (arith, get-recorded h h d b a))
      ];
    }
  ]

  -- A pre-image read as a value: absent where there is none.
  abbrev flat : Option (Option V) → Option V
  flat none = none
  flat (some old) = old

  value-none :
      (d : Domain V) (a : Address) (t : ℕ)
      → first d.history a t ≡ none
      → value_at_height d a t ≡ lookup a d.current
  unfolding value_at_height
  value-none d a t e = ground arith

  value-some :
      (d : Domain V) (a : Address) (t k : ℕ)
      → first d.history a t ≡ some k
      → value_at_height d a t ≡ flat (get k a d.pre_images)
  unfolding value_at_height
  value-some d a t k e = elim (Option-cases (get k a d.pre_images)) [
    | inl g ↦ ground arith
    | inr (old, g) ↦ ground arith
  ]

  value-recorded :
      (h : ℕ) (d : Domain V) (b a : Address) (t : ℕ)
      → Agrees h d
      → t < h
      → get h b d.pre_images ≡ none
      → value_at_height (recorded h d b) a t ≡ value_at_height d a t
  value-recorded h d b a t ok lt e =
      let d' = recorded h d b in
      elim (Option-cases (first d.history a t)) [
        | inl f ↦ elim (Bool-cases (b == a)) [
          | inr other ↦
              value-none d' a t (ground (arith, first-recorded h d b a t))
              ∙ sym (value-none d a t f)
          | inl same ↦
              let p : b ≡ a = ground arith in
              let g : get h a d'.pre_images ≡ some (lookup b d.current) =
                ground (arith, get-recorded h h d b a) in
              value-some d' a t h (ground (arith, first-recorded h d b a t))
              ∙ ap flat g
              ∙ ap (λ c. lookup c d.current) p
              ∙ sym (value-none d a t f)
        ]
        | inr (k, f) ↦
            let le = ok.bound a t k lt f in
            let g : get k a d'.pre_images ≡ get k a d.pre_images = elim (Bool-cases (b == a)) [
              | inr other ↦ ground (arith, get-recorded h k d b a)
              | inl same ↦
                  let p : b ≡ a = ground arith in
                  let apart : k ≢ h = λ q.
                    ok.kept a t lt (f ∙ ap some q) (ap (λ c. get h c d.pre_images) (sym p) ∙ e) in
                  ground (arith, get-recorded h k d b a)
            ] in
            value-some d' a t k (ground (arith, first-recorded h d b a t))
            ∙ ap flat g
            ∙ sym (value-some d a t k f)
      ]

  -- Recording an address keeps the past: the pre-image is the value that held.
  value-record_pre :
      (h : ℕ) (d : Domain V) (b a : Address) (t : ℕ)
      → Agrees h d
      → t < h
      → value_at_height (record_pre (some h) d b) a t ≡ value_at_height d a t
  value-record_pre h d b a t ok lt = elim (Option-cases (get h b d.pre_images)) [
    | inr (old, e) ↦ rw (record_pre-seen h d b old e) refl
    | inl e ↦ rw (record_pre-new h d b e) (value-recorded h d b a t ok lt e)
  ]

  -- A write after its recording does not reach the past.
  value-write :
      (h : ℕ) (d d' : Domain V) (b a : Address) (t : ℕ)
      → Agrees h d
      → t < h
      → get h b d.pre_images ≢ none
      → d'.pre_images ≡ d.pre_images
      → d'.history ≡ d.history
      → ((c : Address) → (b == c) ≡ false → lookup c d'.current ≡ lookup c d.current)
      → value_at_height d' a t ≡ value_at_height d a t
  value-write h d d' b a t ok lt kept pre hist others =
      let same = ap (λ es. first es a t) hist in
      elim (Option-cases (first d.history a t)) [
        | inr (k, f) ↦
            value-some d' a t k (same ∙ f)
            ∙ ap (λ m. flat (get k a m)) pre
            ∙ sym (value-some d a t k f)
        | inl f ↦ elim (Bool-cases (b == a)) [
          | inr other ↦ value-none d' a t (same ∙ f) ∙ others a other ∙ sym (value-none d a t f)
          | inl eq ↦
              let p : b ≡ a = ground arith in
              absurd (kept (ap (λ c. get h c d.pre_images) p ∙ ok.missing a t lt f))
        ]
      ]

  write-Agrees :
      (h : ℕ) (d d' : Domain V)
      → Agrees h d
      → d'.pre_images ≡ d.pre_images
      → d'.history ≡ d.history
      → Agrees h d'
  write-Agrees h d d' ok pre hist = record {
    top = λ a. ap (λ es. first es a h) hist ∙ ok.top a;
    missing =
        λ a t lt f. ap (get h a) pre ∙ ok.missing a t lt (sym (ap (λ es. first es a t) hist) ∙ f);
    bound = λ a t k lt f. ok.bound a t k lt (sym (ap (λ es. first es a t) hist) ∙ f);
    kept = λ a t lt f n.
        ok.kept a t lt (sym (ap (λ es. first es a t) hist) ∙ f) (sym (ap (get h a) pre) ∙ n);
  }

  record_pre-kept :
      (h : ℕ) (d : Domain V) (b : Address) → get h b (record_pre (some h) d b).pre_images ≢ none
  record_pre-kept h d b = elim (Option-cases (get h b d.pre_images)) [
    | inr (old, e) ↦ rw (record_pre-seen h d b old e) (λ n. cc)
    | inl e ↦
        let g : get h b (recorded h d b).pre_images ≡ some (lookup b d.current) =
          ground (arith, get-recorded h h d b b) in
        rw (record_pre-new h d b e) (λ n. cc (g, n))
  ]

  -- One change of a recorded block: the address is recorded, and then only its value moves.
  change-past :
      (h : ℕ) (d d' : Domain V) (b : Address)
      → Agrees h d
      → d'.pre_images ≡ (record_pre (some h) d b).pre_images
      → d'.history ≡ (record_pre (some h) d b).history
      → ((c : Address)
          → (b == c) ≡ false
          → lookup c d'.current ≡ lookup c (record_pre (some h) d b).current)
      → Agrees h d'
        × ((a : Address) (t : ℕ) → t < h → value_at_height d' a t ≡ value_at_height d a t)
  change-past h d d' b ok pre hist others =
      let mid = record_pre (some h) d b in
      let ok' = record_pre-Agrees h d b ok in
      (
        write-Agrees h mid d' ok' pre hist,
        λ a t lt.
            value-write h mid d' b a t ok' lt (record_pre-kept h d b) pre hist others
            ∙ value-record_pre h d b a t ok lt,
      )

module _ {V : Type 0} (leaf : V → Option V) where
  write-past :
      (h : ℕ) (d : Domain V) (b : Address) (v : V)
      → Agrees h d
      → Agrees h (write leaf (some h) b v d)
        × ((a : Address) (t : ℕ)
            → t < h
            → value_at_height (write leaf (some h) b v d) a t ≡ value_at_height d a t)
  unfolding write
  write-past h d b v ok =
      change-past h d (write leaf (some h) b v d) b ok refl refl
        (λ c ne. ground (arith, lookup-insert b c v (record_pre (some h) d b).current))

  remove-past :
      (h : ℕ) (d : Domain V) (b : Address)
      → Agrees h d
      → Agrees h (remove leaf (some h) b d)
        × ((a : Address) (t : ℕ)
            → t < h
            → value_at_height (remove leaf (some h) b d) a t ≡ value_at_height d a t)
  unfolding remove
  remove-past h d b ok =
      change-past h d (remove leaf (some h) b d) b ok refl refl
        (λ c ne. ground (arith, lookup-erase b c (record_pre (some h) d b).current))

  apply-past :
      (h : ℕ) (cs : List (Change V)) (d : Domain V)
      → Agrees h d
      → Agrees h (apply leaf (some h) cs d)
        × ((a : Address) (t : ℕ)
            → t < h
            → value_at_height (apply leaf (some h) cs d) a t ≡ value_at_height d a t)
  unfolding apply
  apply-past h [] d ok = (ok, λ a t lt. refl)
  apply-past h (set b v ∷ cs) d ok =
      let (ok', past) = write-past h d b v ok in
      let (ok'', past') = apply-past h cs (write leaf (some h) b v d) ok' in
      (ok'', λ a t lt. past' a t lt ∙ past a t lt)
  apply-past h (del b ∷ cs) d ok =
      let (ok', past) = remove-past h d b ok in
      let (ok'', past') = apply-past h cs (remove leaf (some h) b d) ok' in
      (ok'', λ a t lt. past' a t lt ∙ past a t lt)

  -- A block at a height above every recorded change leaves the value that an address had at any lower
  -- height readable as it was, and at its own height the archive reads the value that it left.
  pub value_at_height-apply :
      (h : ℕ) (cs : List (Change V)) (d : Domain V) (a : Address) (t : ℕ)
      → All (λ e. e.1 < h) d.history
      → entries_at h d.pre_images ≡ []
      → t < h
      → (value_at_height (apply leaf (some h) cs d) a t ≡ value_at_height d a t)
        × (value_at_height (apply leaf (some h) cs d) a h
            ≡ lookup a (apply leaf (some h) cs d).current)
  value_at_height-apply h cs d a t all fresh lt =
      let (ok, past) = apply-past h cs d (fresh-Agrees h d all fresh) in
      (past a t lt, value-none (apply leaf (some h) cs d) a h (ok.top a))
