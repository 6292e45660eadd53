-- ===== src/Chain/Order.antt =====
-- The fork choice is an order: which tip a node ends on does not depend on the order of arrival.
use ngcore.Base.{ℕ, ◌≡◌, refl, ap₂, Bool-cases, inl, inr, Bool, true, false, arith, if◌then◌else◌}
use ngcore.Types.{Hash}
use ngcore.Chain.{replaces_tip}

abbrev pub Tip : Type 0
Tip = ℕ × Hash

unfoldable pub beats : Tip → Tip → Bool
beats new tip = replaces_tip new.0 new.1 tip.0 tip.1

-- The tip of a node after a candidate has arrived.
unfoldable pub choose : Tip → Tip → Tip
choose tip new = if beats new tip then new else tip

beats_trans : (a b c : Tip) → beats a b ≡ true → beats b c ≡ true → beats a c ≡ true
unfolding beats replaces_tip
beats_trans a b c h k = ground arith

beats_asym : (a b : Tip) → beats a b ≡ true → beats b a ≡ false
unfolding beats replaces_tip
beats_asym a b h = ground arith

beats_neg_trans : (a b c : Tip) → beats a b ≡ false → beats b c ≡ false → beats a c ≡ false
unfolding beats replaces_tip
beats_neg_trans a b c h k = ground arith

beats_total : (a b : Tip) → beats a b ≡ false → beats b a ≡ false → a ≡ b
unfolding beats replaces_tip
beats_total a b h k =
    let p : a.0 ≡ b.0 = ground arith in
    let q : a.1 ≡ b.1 = ground arith in ap₂ (λ (x y : ℕ). (x, y)) p q

irreflexive : (a : Tip) → beats a a ≡ false
unfolding beats replaces_tip
irreflexive a = ground arith

choose-loses : (tip new : Tip) → beats new (choose tip new) ≡ false
unfolding choose
choose-loses tip new = elim (Bool-cases (beats new tip)) [
  | inl wins ↦ rw wins (irreflexive new)
  | inr loses ↦ rw loses loses
]

choose-keeps : (tip new x : Tip) → beats x tip ≡ false → beats x (choose tip new) ≡ false
unfolding choose
choose-keeps tip new x h = elim (Bool-cases (beats new tip)) [
  | inr loses ↦ rw loses h
  | inl wins ↦ rw wins (elim (Bool-cases (beats x new)) [
    | inr under ↦ under
    | inl over ↦ cc (beats_trans x new tip over wins, h)
  ])
]

swap : (tip a b : Tip) → choose (choose tip a) b ≡ choose (choose tip b) a
unfolding choose
swap tip a b = elim (Bool-cases (beats a tip)) [
  | inl a_wins ↦ elim (Bool-cases (beats b tip)) [
    | inl b_wins ↦ elim (Bool-cases (beats b a)) [
      | inl over ↦ rw (a_wins, b_wins, over, beats_asym b a over) refl
      | inr under ↦ elim (Bool-cases (beats a b)) [
        | inl back ↦ rw (a_wins, b_wins, under, back) refl
        | inr level ↦ rw (a_wins, b_wins, under, level) (beats_total a b level under)
      ]
    ]
    | inr b_loses ↦ elim (Bool-cases (beats b a)) [
      | inl over ↦ cc (beats_trans b a tip over a_wins, b_loses)
      | inr under ↦ rw (a_wins, b_loses, under, a_wins) refl
    ]
  ]
  | inr a_loses ↦ elim (Bool-cases (beats b tip)) [
    | inr b_loses ↦ rw (a_loses, b_loses, a_loses) refl
    | inl b_wins ↦ elim (Bool-cases (beats a b)) [
      | inl over ↦ cc (beats_trans a b tip over b_wins, a_loses)
      | inr under ↦ rw (a_loses, b_wins, under) refl
    ]
  ]
]

-- By the fork choice of work and digest, the tip that two candidates leave does not depend on which
-- of them arrived first, and it loses to neither of them.
pub choose_comm :
    (tip a b : Tip)
    → (choose (choose tip a) b ≡ choose (choose tip b) a)
      × (beats a (choose (choose tip a) b) ≡ false)
      × (beats b (choose (choose tip a) b) ≡ false)
choose_comm tip a b = (
  swap tip a b,
  choose-keeps (choose tip a) b a (choose-loses tip a),
  choose-loses (choose tip a) b,
)
