-- ===== src/Common/Int128/Rounding.antt =====
-- `Rescale`: exact up, and half away from zero down.
use antb.Prelude.{
  ℕ, zero, suc, ◌+◌, ◌-◌, ◌*◌, ◌/◌, ◌^◌, ◌≤◌, ◌<◌, ◌≡◌, refl, ap, some, true, Bool-cases, inl, inr,
  lt→not_leb, le→leb, arith, ◌∙◌, if◌then◌else◌,
}
use antb.Prelude.Int.{ℤ, pos, negsuc, pos_part, neg_part, neg, scale_by, ◌+ℤ◌}
use antb.Common.Int128.{
  IsInt128, fits, is_negative, rescale, round_down, checked_add, halved, mul_overflow, div_trunc,
}
use antb.Common.Int128.Order.{ten_pow-pos, power_of_ten-eq}
use native.Mathlib.Nat.{lt-div-mul-add, pow-suc, div-mul-le_self, mul-le-mul_right}
use native.Mathlib.Decide.{dec_lt}

-- q is n / f rounded to the nearest integer, a half up.
abbrev pub IsNearest : ℕ → ℕ → ℕ → Type 0
IsNearest n f q = (2 * (q * f) ≤ 2 * n + f) × (2 * n + f < 2 * (suc q * f))

-- The rounding of the source, for a magnitude: in two steps, by half the divisor.
abbrev round_magnitude : ℕ → ℕ → ℕ
round_magnitude n f = (n / (f / 2) + 1) / 2

div-bounds : (n g : ℕ) → 0 < g → ((n / g) * g ≤ n) × (n < suc (n / g) * g)
div-bounds n g h = (div-mul-le_self n g, omega (arith, lt-div-mul-add {a = n} h))

round_magnitude-IsNearest : (n g : ℕ) → 0 < g → IsNearest n (2 * g) (round_magnitude n (2 * g))
round_magnitude-IsNearest n g h =
    let e : 2 * g / 2 ≡ g = omega arith in
    let (low, high) = div-bounds n g h in
    let half : ℕ = (n / g + 1) / 2 in
    let under : 2 * half * g ≤ (n / g + 1) * g = mul-le-mul_right g (omega arith) in
    let over : n / g * g ≤ 2 * half * g = mul-le-mul_right g (omega arith) in
    rw e (omega arith, omega arith)

-- The value without the test of the addition.
abbrev round_exactly : ℤ → ℕ → ℤ
round_exactly v f =
    let halves = div_trunc v (f / 2) in
    div_trunc (if is_negative halves then halves +ℤ negsuc 0 else halves +ℤ pos 1) 2

round_halves :
    (k : ℕ)
    → div_trunc (if is_negative (neg k) then neg k +ℤ negsuc 0 else neg k +ℤ pos 1) 2
      ≡ neg ((k + 1) / 2)
round_halves zero = refl
round_halves (suc k) =
    let e : suc (suc k + 1 - 0 - 1) ≡ suc k + 1 = omega arith in ground (arith, e)

-- `round_exactly` acts on the magnitude and keeps the sign.
round_exactly-pos : (n f : ℕ) → round_exactly (pos n) f ≡ pos (round_magnitude n f)
round_exactly-pos n f = ground arith

round_exactly-neg : (n f : ℕ) → round_exactly (negsuc n) f ≡ neg (round_magnitude (suc n) f)
round_exactly-neg n f = round_halves (suc n / (f / 2))

-- The value v divided by f, rounded to the nearest integer, a half away from zero.
abbrev pub IsRounded : ℤ → ℕ → ℤ → Type 0
IsRounded (pos n) f r = (q : ℕ) × (r ≡ pos q) × IsNearest n f q
IsRounded (negsuc n) f r = (q : ℕ) × (r ≡ neg q) × IsNearest (suc n) f q

even_ten_pow : (k : ℕ) → 10 ^ suc k ≡ 2 * (5 * 10 ^ k)
even_ten_pow k = rw pow-suc (omega arith)

round_magnitude-ten : (n k : ℕ) → IsNearest n (10 ^ suc k) (round_magnitude n (10 ^ suc k))
round_magnitude-ten n k =
    rw even_ten_pow (round_magnitude-IsNearest n (5 * 10 ^ k) (omega (arith, ten_pow-pos k)))

round_exactly-IsRounded : (v : ℤ) (k : ℕ) → IsRounded v (10 ^ suc k) (round_exactly v (10 ^ suc k))
round_exactly-IsRounded (pos n) k =
    (round_magnitude n (10 ^ suc k), round_exactly-pos n (10 ^ suc k), round_magnitude-ten n k)
round_exactly-IsRounded (negsuc n) k = (
  round_magnitude (suc n) (10 ^ suc k),
  round_exactly-neg n (10 ^ suc k),
  round_magnitude-ten (suc n) k,
)

-- A quotient by half a power of ten leaves room for one more.
quotient-room : (n g m : ℕ) → n < m → 5 ≤ g → 5 * (n / g) < m
quotient-room n g m h l =
    let under = div-mul-le_self n g in
    let fewer : 5 * (n / g) ≤ g * (n / g) = mul-le-mul_right (n / g) l in
    omega (arith, under, fewer, h)

five_le_half : (k : ℕ) → 5 ≤ 10 ^ suc k / 2
five_le_half k = rw even_ten_pow (omega (arith, ten_pow-pos k))

checked_add-away :
    (v : ℤ)
    → suc (pos_part v + neg_part v) < 2 ^ 127
    → checked_add v (if is_negative v then negsuc 0 else pos 1)
      ≡ some (if is_negative v then v +ℤ negsuc 0 else v +ℤ pos 1)
unfolding checked_add
checked_add-away (pos m) h = ground (arith, h)
checked_add-away (negsuc m) h = ground (arith, h)

magnitude-neg : (m : ℕ) → pos_part (neg m) + neg_part (neg m) ≡ m
magnitude-neg zero = refl
magnitude-neg (suc m) = omega arith

-- No step overflows.
round_down-exactly :
    (v : ℤ) (k : ℕ) → IsInt128 v → round_down v (10 ^ suc k) ≡ some (round_exactly v (10 ^ suc k))
unfolding round_down
round_down-exactly (pos n) k h =
    let room = quotient-room n (10 ^ suc k / 2) (2 ^ 127) (omega (arith, h)) (five_le_half k) in
    ap halved (checked_add-away (pos (n / (10 ^ suc k / 2))) (omega (arith, room)))
round_down-exactly (negsuc n) k h =
    let room =
      quotient-room (suc n) (10 ^ suc k / 2) (suc (2 ^ 127)) (omega (arith, h)) (five_le_half k) in
    ap halved (
      checked_add-away (neg (suc n / (10 ^ suc k / 2)))
        (omega (arith, room, magnitude-neg (suc n / (10 ^ suc k / 2)))))

-- To a smaller scale a 128-bit value is divided by the power of ten and rounded to the nearest
-- integer, a half away from zero; no step of that overflows, and no check fails with scales of at
-- most 38.
pub rescale-IsRounded :
    (v : ℤ) (from to : ℕ)
    → IsInt128 v
    → to < from
    → from ≤ 38
    → (r : ℤ) × (rescale v from to ≡ some (some r)) × IsRounded v (10 ^ (from - to)) r
unfolding rescale
rescale-IsRounded v from to b h k =
    let e : from - to ≡ suc (from - to - 1) = omega arith in
    let exact : round_down v (10 ^ (from - to)) ≡ some (round_exactly v (10 ^ (from - to))) =
      rw e (round_down-exactly v (from - to - 1) b) in
    (
      round_exactly v (10 ^ (from - to)),
      rw (lt→not_leb from to h, power_of_ten-eq (from - to) (omega arith), exact) refl,
      rw e (round_exactly-IsRounded v (from - to - 1)),
    )

-- The nearest integer to an exact multiple.
IsNearest-multiple : (n f q : ℕ) → 0 < f → IsNearest (n * f) f q → q ≡ n
IsNearest-multiple n f q p (low, high) = elim (dec_lt n q) [
  | yes k ↦ let above : suc n * f ≤ q * f = mul-le-mul_right f k in absurd (omega arith)
  | no k ↦ elim (dec_lt q n) [
    | yes l ↦ let below : suc q * f ≤ n * f = mul-le-mul_right f l in absurd (omega arith)
    | no l ↦ omega arith
  ]
]

IsRounded-scale : (v : ℤ) (f : ℕ) (r : ℤ) → 0 < f → IsRounded (scale_by v f) f r → r ≡ v
IsRounded-scale (pos n) f r p (q, e, near) = e ∙ ap pos (IsNearest-multiple n f q p near)
IsRounded-scale (negsuc n) f r p h = go (suc n * f) refl h
  where
    go : (m : ℕ) → m ≡ suc n * f → IsRounded (neg m) f r → r ≡ negsuc n
    go zero e h' = absurd (grind arith)
    go (suc m) e (q, e', near) = e' ∙ ap neg (IsNearest-multiple (suc n) f q p (rw (← e) near))

mul_overflow-some : (v : ℤ) (d : ℕ) {w : ℤ} → mul_overflow v d ≡ some w → w ≡ scale_by v d
mul_overflow-some v d e = ground arith

fits-IsInt128 : (v : ℤ) → fits v ≡ true → IsInt128 v
fits-IsInt128 (pos n) h = ground (arith, h)
fits-IsInt128 (negsuc n) h = ground (arith, h)

mul_overflow-fits : (v : ℤ) (d : ℕ) {w : ℤ} → mul_overflow v d ≡ some w → fits (scale_by v d) ≡ true
mul_overflow-fits v d e = elim (Bool-cases (fits (scale_by v d))) [
  | inl y ↦ y
  | inr n ↦ ground (arith, rw n at e)
]

mul_overflow-IsInt128 : (v : ℤ) (d : ℕ) {w : ℤ} → mul_overflow v d ≡ some w → IsInt128 w
mul_overflow-IsInt128 v d {w = w} e =
    fits-IsInt128 w (rw (mul_overflow-some v d e) (mul_overflow-fits v d e))

rescale_up :
    (v : ℤ) (s t : ℕ) → s ≤ t → t ≤ 38 → rescale v s t ≡ some (mul_overflow v (10 ^ (t - s)))
unfolding rescale
rescale_up v s t h k = rw (le→leb s t h, power_of_ten-eq (t - s) (omega arith)) refl

-- A value that was multiplied up to a larger scale without overflow comes back unchanged.
pub rescale-rescale :
    (v w : ℤ) (s t : ℕ)
    → s < t
    → t ≤ 38
    → rescale v s t ≡ some (some w)
    → rescale w t s ≡ some (some v)
rescale-rescale v w s t h k e =
    let up : mul_overflow v (10 ^ (t - s)) ≡ some w = cc (rescale_up v s t (omega arith) k) in
    let (r, rounded, near) =
      rescale-IsRounded w t s (mul_overflow-IsInt128 v (10 ^ (t - s)) up) h k in
    let same : r ≡ v =
      IsRounded-scale v (10 ^ (t - s)) r (ten_pow-pos (t - s))
        (rw (← mul_overflow-some v (10 ^ (t - s)) up) near) in
    rw rounded (cc same)
