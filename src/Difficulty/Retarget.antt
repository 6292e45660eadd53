-- ===== src/Difficulty/Retarget.antt =====
-- The laws of the retarget.
use ngcore.Base.{ℕ, zero, suc, ◌+◌, ◌*◌, ◌/◌, ◌^◌, ◌≤◌, ◌<◌, ◌≡◌, some, arith}
use ngcore.Base.Int.{
  ℤ, pos, negsuc, pos_part, neg_part, ◌+ℤ◌, ◌-ℤ◌, ◌*ℤ◌, ◌≤ℤ◌, quo, int64_of, wrap64, +ℤ_parts,
  -ℤ_parts, int_laws,
}
use ngcore.Params.{target_time}
use ngcore.Forks.{Network}
use ngcore.Difficulty.{
  minimum_diff_of, clamp_factor, raw_factor, retarget, bomb, floor_diff, get_next_diff,
}

-- The difficulty never falls below the network's minimum.
pub minimum_diff_of-le-get_next_diff :
    (height time : ℕ) (net : Network) (parent_time diff : ℕ) {next : ℕ}
    → get_next_diff height time net parent_time diff ≡ some next
    → minimum_diff_of net ≤ next
unfolding get_next_diff
minimum_diff_of-le-get_next_diff height time net parent_time diff e = ground arith

-- With stamps below 2 ^ 62 the interval does not overflow.
raw_factor-exact :
    (target time parent_time : ℕ)
    → target < 2 ^ 62
    → time < 2 ^ 62
    → parent_time < 2 ^ 62
    → raw_factor target time parent_time ≡ pos (target + parent_time) -ℤ pos time
unfolding raw_factor ◌-ℤ◌ int64_of wrap64
raw_factor-exact target time parent_time a b c = ground arith

-- Before height 200000 there is no bump.
pub bomb-zero : (h : ℕ) → h < 200000 → bomb h ≡ 0
unfolding bomb ◌-ℤ◌ int64_of quo
bomb-zero h lt = ground arith

-- A step of `k` over the target raises by a share of the difficulty, one under it lowers by one.
retarget-pos : (diff k t : ℕ) → retarget diff (pos k) t ≡ pos (diff + diff * k / (2048 * t))
unfolding retarget quo ◌+ℤ◌ ◌*ℤ◌
retarget-pos diff k t = ground arith

product_negsuc : (diff k : ℕ) → pos diff *ℤ negsuc k ≡ pos 0 -ℤ pos (diff * suc k)
unfolding ◌*ℤ◌ ◌-ℤ◌
product_negsuc diff k = ground arith

quo-neg : (n d : ℕ) → quo (pos 0 -ℤ pos n) d ≡ pos 0 -ℤ pos (n / d)
unfolding quo ◌-ℤ◌
quo-neg zero d = ground arith
quo-neg (suc n) d = ground arith

retarget-negsuc :
    (diff k t : ℕ) → retarget diff (negsuc k) t ≡ pos diff -ℤ pos (diff * suc k / (2048 * t))
unfolding retarget
retarget-negsuc diff k t = rw (product_negsuc, quo-neg) (omega int_laws)

share_le : (diff k : ℕ) → k ≤ target_time → diff * k / (2048 * target_time) ≤ diff / 2048
share_le diff k h = grind arith

share_le_down :
    (diff k : ℕ) → k ≤ 99 * target_time → diff * k / (2048 * target_time) ≤ 99 * diff / 2048
share_le_down diff k h = grind arith

share_mono : (diff j k d : ℕ) → j ≤ k → diff * j / d ≤ diff * k / d
share_mono diff j k d h = grind arith

clamp_factor_range :
    (raw : ℤ)
    → (pos_part (clamp_factor target_time raw) ≤ target_time)
      × (neg_part (clamp_factor target_time raw) ≤ 99 * target_time)
unfolding clamp_factor ◌-ℤ◌
clamp_factor_range raw = ground arith

clamp_factor_mono : (a b : ℤ) → a ≤ℤ b → clamp_factor target_time a ≤ℤ clamp_factor target_time b
unfolding clamp_factor ◌-ℤ◌
clamp_factor_mono a b h = ground arith

retarget_mono :
    (diff : ℕ) (f g : ℤ) → f ≤ℤ g → retarget diff f target_time ≤ℤ retarget diff g target_time
retarget_mono diff (pos j) (pos k) h =
    simp retarget-pos (omega (arith, share_mono diff j k (2048 * target_time) (omega arith)))
retarget_mono diff (negsuc j) (pos k) h = rw (retarget-pos, retarget-negsuc) (omega int_laws)
retarget_mono diff (negsuc j) (negsuc k) h =
    simp retarget-negsuc
      (omega (int_laws, share_mono diff (suc k) (suc j) (2048 * target_time) (omega arith)))
retarget_mono diff (pos j) (negsuc k) h = absurd (omega arith)

-- The part of the retarget behind the check of the parent's stamp.
stepped : ℕ → ℕ → Network → ℕ → ℕ → ℕ
stepped height time net parent_time diff = floor_diff (minimum_diff_of net) (
    retarget diff (clamp_factor target_time (raw_factor target_time time parent_time)) target_time
    +ℤ pos (bomb height))

get_next_diff-eq-stepped :
    (height time : ℕ) (net : Network) (parent_time diff : ℕ) {next : ℕ}
    → get_next_diff height time net parent_time diff ≡ some next
    → next ≡ stepped height time net parent_time diff
unfolding get_next_diff stepped
get_next_diff-eq-stepped height time net parent_time diff e = ground arith

floor_diff_mono : (m : ℕ) (a b : ℤ) → a ≤ℤ b → floor_diff m a ≤ floor_diff m b
unfolding floor_diff
floor_diff_mono m a b h = ground arith

+ℤ_mono_left : (a b c : ℤ) → a ≤ℤ b → a +ℤ c ≤ℤ b +ℤ c
+ℤ_mono_left a b c h = omega int_laws

raw_factor_antitone :
    (s t p : ℕ)
    → s ≤ t
    → t < 2 ^ 62
    → p < 2 ^ 62
    → raw_factor target_time t p ≤ℤ raw_factor target_time s p
raw_factor_antitone s t p h a b =
    rw
      (
        raw_factor-exact target_time t p (omega arith) a b,
        raw_factor-exact target_time s p (omega arith) (omega arith) b,
      )
      (omega int_laws)

-- Of two blocks on one parent, the one stamped later never has to meet a higher difficulty (the
-- stamps being below 2 ^ 62 milliseconds, so that no int64 subtraction wraps).
pub get_next_diff_antitone :
    (height s t : ℕ) (net : Network) (parent_time diff : ℕ) {early late : ℕ}
    → s ≤ t
    → t < 2 ^ 62
    → parent_time < 2 ^ 62
    → get_next_diff height s net parent_time diff ≡ some early
    → get_next_diff height t net parent_time diff ≡ some late
    → late ≤ early
unfolding stepped
get_next_diff_antitone height s t net parent_time diff h a b e f =
    rw
      (
        get_next_diff-eq-stepped height s net parent_time diff e,
        get_next_diff-eq-stepped height t net parent_time diff f,
      )
      (floor_diff_mono _ _ _ (
        +ℤ_mono_left _ _ _ (
          retarget_mono diff _ _
            (clamp_factor_mono _ _ (raw_factor_antitone s t parent_time h a b)))))

retarget_range :
    (diff : ℕ) (f : ℤ)
    → pos_part f ≤ target_time
    → neg_part f ≤ 99 * target_time
    → (retarget diff f target_time ≤ℤ pos (diff + diff / 2048))
      × (pos diff -ℤ pos (99 * diff / 2048) ≤ℤ retarget diff f target_time)
retarget_range diff (pos k) h g = rw retarget-pos (omega (int_laws, share_le diff k h))
retarget_range diff (negsuc k) h g =
    rw retarget-negsuc (omega (int_laws, share_le_down diff (suc k) g))

floor_diff_range :
    (m up down b diff : ℕ) (r : ℤ)
    → r ≤ℤ pos up
    → pos diff -ℤ pos down ≤ℤ r
    → (floor_diff m (r +ℤ pos b) ≤ m + (up + b)) × (diff ≤ floor_diff m (r +ℤ pos b) + down)
unfolding floor_diff
floor_diff_range m up down b diff r h k =
    ground (arith, +ℤ_parts r (pos b), -ℤ_parts (pos diff) (pos down))

-- One block moves the difficulty up by at most a 2048th of the parent's, the height's bump and the
-- network's minimum, and down by at most 99 times a 2048th.
pub get_next_diff_step :
    (height time : ℕ) (net : Network) (parent_time diff : ℕ) {next : ℕ}
    → get_next_diff height time net parent_time diff ≡ some next
    → (next ≤ minimum_diff_of net + (diff + diff / 2048 + bomb height))
      × (diff ≤ next + 99 * diff / 2048)
unfolding stepped
get_next_diff_step height time net parent_time diff e =
    let f = clamp_factor target_time (raw_factor target_time time parent_time) in
    let c = clamp_factor_range (raw_factor target_time time parent_time) in
    let range = retarget_range diff f c.0 c.1 in
    rw (get_next_diff-eq-stepped height time net parent_time diff e) (
      floor_diff_range (minimum_diff_of net) (diff + diff / 2048) (99 * diff / 2048) (bomb height)
        diff (retarget diff f target_time) range.0 range.1)

on_time_factor :
    (p : ℕ)
    → p + target_time < 2 ^ 62
    → clamp_factor target_time (raw_factor target_time (p + target_time) p) ≡ pos 0
unfolding clamp_factor ◌-ℤ◌
on_time_factor p h =
    rw (raw_factor-exact target_time (p + target_time) p (omega arith) h (omega arith))
      (ground arith)

-- A block that comes exactly at the target time after its parent, before the bump begins, keeps a
-- difficulty that is at or above the minimum.
pub get_next_diff-on_time :
    (height : ℕ) (net : Network) (parent_time diff : ℕ) {next : ℕ}
    → height < 200000
    → parent_time + target_time < 2 ^ 62
    → minimum_diff_of net ≤ diff
    → get_next_diff height (parent_time + target_time) net parent_time diff ≡ some next
    → next ≡ diff
unfolding stepped floor_diff ◌+ℤ◌
get_next_diff-on_time height net parent_time diff a b c e =
    rw
      (
        get_next_diff-eq-stepped height (parent_time + target_time) net parent_time diff e,
        on_time_factor parent_time b,
        retarget-pos,
        bomb-zero height a,
      )
      (ground arith)
