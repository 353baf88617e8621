-- ===== src/Common/Int128/Order.antt =====
-- `CompareScaled` is the order of the fractions.
use antb.Prelude.{
  ℕ, zero, suc, ◌+◌, ◌-◌, ◌*◌, ◌^◌, ◌≤◌, ◌<◌, ◌≡◌, refl, ap, some, ltb, lt→ltb, not_lt→ltb, ◌↔◌,
  arith, false, ◌∙◌, sym,
}
use antb.Prelude.Int.{ℤ, pos, negsuc, neg, scale_by, pos_part, neg_part}
use antb.Common.Int128.{
  IsInt128, fits, power_of_ten, Sign, less, equal, greater, compare_ℤ, compare_up, compare_down,
  compare_scaled,
}
use native.Mathlib.Nat.{mul-le-mul_right, pow-suc, mul_assoc, zero-mul, add-zero}
use native.Mathlib.Decide.{dec_lt}
use Prim.Native.Nat.pow

pub pow-add : (b m n : ℕ) → b ^ (m + n) ≡ b ^ m * b ^ n
pow-add b m zero = rw (add-zero m, pow.zero b) (omega arith)
pow-add b m (suc n) =
    let e : m + suc n ≡ suc (m + n) = omega arith in
    rw (e, pow-suc b (m + n), pow-suc b n, pow-add b m n) (mul_assoc (b ^ m) (b ^ n) b)

pub ten_pow-pos : (n : ℕ) → 0 < 10 ^ n
ten_pow-pos zero = omega arith
ten_pow-pos (suc n) = rw pow-suc (omega (arith, ten_pow-pos n))

abbrev neg-parts : (n : ℕ) → (pos_part (neg n) ≡ 0) × (neg_part (neg n) ≡ n)
neg-parts zero = (refl, refl)
neg-parts (suc n) = (refl, refl)

pos_part-scale : (a : ℤ) (d : ℕ) → pos_part (scale_by a d) ≡ pos_part a * d
pos_part-scale (pos n) d = refl
pos_part-scale (negsuc n) d = omega (arith, (neg-parts (suc n * d)).0)

neg_part-scale : (a : ℤ) (d : ℕ) → neg_part (scale_by a d) ≡ neg_part a * d
neg_part-scale (pos n) d = omega arith
neg_part-scale (negsuc n) d = omega (arith, (neg-parts (suc n * d)).1)

abbrev flip : Sign → Sign
flip less = greater
flip equal = equal
flip greater = less

lt-mul_iff : (x y p : ℕ) → 0 < p → (x * p < y * p) ↔ (x < y)
lt-mul_iff x y p h = (
  λ less. elim (dec_lt x y) [
    | yes k ↦ k
    | no k ↦ absurd (omega (arith, mul-le-mul_right p (sub_le x y k)))
  ],
  λ less. omega (arith, mul-le-mul_right p less),
)
  where
    sub_le : (x y : ℕ) → ¬ (x < y) → y ≤ x
    sub_le x y k = omega arith

ltb-eq_of_iff : (x y z w : ℕ) → (x < y) ↔ (z < w) → ltb x y ≡ ltb z w
ltb-eq_of_iff x y z w e = elim (dec_lt z w) [
  | yes k ↦ rw (lt→ltb x y (e.1 k)) (sym (lt→ltb z w k))
  | no k ↦ ground (arith, e.0)
]

-- A comparison of sums is kept when every term is multiplied.
ltb-scale : (x y z w p : ℕ) → 0 < p → ltb (x * p + z * p) (y * p + w * p) ≡ ltb (x + z) (y + w)
ltb-scale x y z w p h =
    let left : x * p + z * p ≡ (x + z) * p = omega arith in
    let right : y * p + w * p ≡ (y + w) * p = omega arith in
    rw (left, right) (ltb-eq_of_iff _ _ _ _ (lt-mul_iff (x + z) (y + w) p h))

pub compare_ℤ-scale :
    (a b : ℤ) (p : ℕ) → 0 < p → compare_ℤ (scale_by a p) (scale_by b p) ≡ compare_ℤ a b
unfolding compare_ℤ
compare_ℤ-scale a b p h =
    rw
      (
        pos_part-scale a p,
        pos_part-scale b p,
        neg_part-scale a p,
        neg_part-scale b p,
        ltb-scale (pos_part a) (pos_part b) (neg_part b) (neg_part a) p h,
        ltb-scale (pos_part b) (pos_part a) (neg_part a) (neg_part b) p h,
      )
      refl

scale_by-neg : (k p : ℕ) → scale_by (neg k) p ≡ neg (k * p)
scale_by-neg zero p = rw zero-mul refl
scale_by-neg (suc k) p = refl

scale_by-scale_by : (a : ℤ) (d p : ℕ) → scale_by (scale_by a d) p ≡ scale_by a (d * p)
scale_by-scale_by (pos n) d p = ap pos (mul_assoc n d p)
scale_by-scale_by (negsuc n) d p = scale_by-neg (suc n * d) p ∙ ap neg (mul_assoc (suc n) d p)

-- A value out of range lies beyond every value in range, on the side of its sign.
below_range :
    (k : ℕ) (b : ℤ) → 0 < k → IsInt128 b → fits (neg k) ≡ false → compare_ℤ (neg k) b ≡ less
unfolding compare_ℤ
below_range zero b p h e = absurd (omega arith)
below_range (suc k) (pos n) p h e = ground arith
below_range (suc k) (negsuc n) p h e = ground arith

above_range : (k : ℕ) (b : ℤ) → IsInt128 b → fits (pos k) ≡ false → compare_ℤ (pos k) b ≡ greater
unfolding compare_ℤ
above_range k (pos n) h e = ground arith
above_range k (negsuc n) h e = ground arith

compare_up_lem :
    (a b : ℤ) (d : ℕ) → 0 < d → IsInt128 b → compare_up a d b ≡ compare_ℤ (scale_by a d) b
unfolding compare_up
compare_up_lem (pos n) b d p h = ground (arith, above_range (n * d) b h)
compare_up_lem (negsuc n) b d p h = ground (arith, below_range (suc n * d) b (grind arith) h)

compare_ℤ-flip : (a b : ℤ) → compare_ℤ b a ≡ flip (compare_ℤ a b)
unfolding compare_ℤ
compare_ℤ-flip a b = ground arith

compare_down_lem :
    (a b : ℤ) (d : ℕ) → 0 < d → IsInt128 a → compare_down a b d ≡ compare_ℤ a (scale_by b d)
unfolding compare_down compare_up
compare_down_lem a (pos n) d p h =
    rw (compare_ℤ-flip (pos (n * d)) a)
      (ground (arith, above_range (n * d) a h, compare_ℤ-flip (pos (n * d)) a))
compare_down_lem a (negsuc n) d p h =
    ground (arith, below_range (suc n * d) a (grind arith) h, compare_ℤ-flip (neg (suc n * d)) a)

pub power_of_ten-eq : (n : ℕ) → n ≤ 38 → power_of_ten n ≡ some (10 ^ n)
unfolding power_of_ten
power_of_ten-eq n h = ground arith

-- Both sides may be multiplied by 10 ^ i.
scale_both :
    (a b : ℤ) {i j : ℕ}
    → i ≤ j
    → compare_ℤ (scale_by a (10 ^ (j - i))) b
      ≡ compare_ℤ (scale_by a (10 ^ j)) (scale_by b (10 ^ i))
scale_both a b {i} {j} h =
    let split : 10 ^ j ≡ 10 ^ (j - i) * 10 ^ i =
      ap (λ k. 10 ^ k) (omega arith) ∙ pow-add 10 (j - i) i in
    rw (split, ← scale_by-scale_by a (10 ^ (j - i)) (10 ^ i))
      (sym (compare_ℤ-scale (scale_by a (10 ^ (j - i))) b (10 ^ i) (ten_pow-pos i)))

scale_both_flip :
    (a b : ℤ) {i j : ℕ}
    → j ≤ i
    → compare_ℤ a (scale_by b (10 ^ (i - j)))
      ≡ compare_ℤ (scale_by a (10 ^ j)) (scale_by b (10 ^ i))
scale_both_flip a b {i} {j} h =
    compare_ℤ-flip (scale_by b (10 ^ (i - j))) a
    ∙ ap flip (scale_both b a h)
    ∙ sym (compare_ℤ-flip (scale_by b (10 ^ i)) (scale_by a (10 ^ j)))

-- With scales of at most 38 the comparison is that of the two fractions
-- a / 10 ^ a_scale and b / 10 ^ b_scale, for all 128-bit integers a and b, and no check fails.
pub compare_scaled_lem :
    (a b : ℤ) (a_scale b_scale : ℕ)
    → IsInt128 a
    → IsInt128 b
    → a_scale ≤ 38
    → b_scale ≤ 38
    → compare_scaled a a_scale b b_scale
      ≡ some (compare_ℤ (scale_by a (10 ^ b_scale)) (scale_by b (10 ^ a_scale)))
unfolding compare_scaled
compare_scaled_lem a b i j ha hb hi hj = elim (dec_lt i j) [
  | yes k ↦
      rw
        (
          lt→ltb i j k,
          power_of_ten-eq (j - i) (omega arith),
          compare_up_lem a b _ (ten_pow-pos (j - i)) hb,
        )
        (ap some (scale_both a b (omega arith)))
  | no k ↦ elim (dec_lt j i) [
    | yes l ↦
        rw
          (
            not_lt→ltb i j k,
            lt→ltb j i l,
            power_of_ten-eq (i - j) (omega arith),
            compare_down_lem a b _ (ten_pow-pos (i - j)) ha,
          )
          (ap some (scale_both_flip a b (omega arith)))
    | no l ↦
        rw (not_lt→ltb i j k, not_lt→ltb j i l)
          (ap some (
            sym (
              ap (λ m. compare_ℤ (scale_by a (10 ^ j)) (scale_by b (10 ^ m))) (omega arith)
              ∙ compare_ℤ-scale a b (10 ^ j) (ten_pow-pos j))))
  ]
]
