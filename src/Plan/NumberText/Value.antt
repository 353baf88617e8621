-- ===== src/Plan/NumberText/Value.antt =====
-- src/plan/literal.cc: the number that `ParseExactNumber` makes of the digits and the exponent.
use antb.Prelude.{
  ℕ, suc, ◌+◌, ◌-◌, ◌*◌, ◌/◌, ◌%◌, ◌^◌, ◌≤◌, ◌<◌, ◌≡◌, ◌≢◌, ◌↔◌, refl, sym, ◌∙◌, ap, Bool, true,
  false, not, ◌==◌, [], ◌∷◌, ◌++◌, length, take, drop, arith, if_elim, ltb, length-drop, ltb→lt,
  not_ltb→le, Bool-cases, ==_iff, inl, inr,
}
use mathlib.Core.Bool.{false≢true}
use antb.Prelude.Int.{ℤ, pos, negsuc, pos_part, neg_part, ◌+ℤ◌, ◌-ℤ◌, ltb_ℤ, leb_ℤ}
use native.Mathlib.Nat.{div-eq_of_lt-le, mod-eq-sub-div-mul}
use antb.Common.Int128.{Text}
use antb.Plan.FoldComparison.{ExactNumber}
use antb.Plan.NumberText.{
  digits_value, all_digits, all_zeros, scaled_number, number_of, without_zeros,
  number_of_significand, zero_number,
}
use antb.Plan.NumberText.Digits.{
  ten_pow-pos, ten_pow-add, ten_pow_mono, digits_value-lt, digits_value-ge, digits_value-split,
  all_zeros_iff, all_digits-drop,
}

-- The number stands for the fraction num / den: huge from 10^38 on, and else the whole part, with
-- a flag for a rest.
pub record Denotes (n : ExactNumber) (num den : ℕ) : Type 0 where
  pub huge : (n.huge ≡ true) ↔ (10 ^ 38 * den ≤ num)
  pub whole : n.huge ≡ false → n.magnitude ≡ num / den
  pub rest : n.huge ≡ false → (n.fraction ≡ true) ↔ (num % den ≢ 0)

denotes_huge :
    (negative : Bool) (num den : ℕ)
    → 10 ^ 38 * den ≤ num
    → Denotes (record { negative = negative; huge = true; magnitude = 0; fraction = false }) num den
denotes_huge negative num den h = record {
  huge = (λ _. h, λ _. refl);
  whole = λ e. cc;
  rest = λ e. cc;
}

denotes_finite :
    (negative : Bool) (num den q r : ℕ) (f : Bool)
    → num ≡ q * den + r
    → r < den
    → num < 10 ^ 38 * den
    → (f ≡ true) ↔ (r ≢ 0)
    → Denotes (record { negative = negative; huge = false; magnitude = q; fraction = f }) num den
denotes_finite negative num den q r f e l h b =
    let quotient : num / den ≡ q = div-eq_of_lt-le den (omega arith) (omega arith) in
    let left : num % den ≡ r = mod-eq-sub-div-mul num den ∙ rw quotient (omega arith) in
    record {
      huge = (λ t. cc, λ g. absurd (omega arith));
      whole = λ _. sym quotient;
      rest = λ _. rw left b;
    }

-- The tests on the sum of a length and a scale.
scale_pos-tests :
    (l k : ℕ) → (ltb_ℤ (pos 38) (pos l +ℤ pos k) ≡ ltb 38 (l + k)) × (leb_ℤ (pos 0) (pos k) ≡ true)
scale_pos-tests l k = (ground arith, ground arith)

scale_negsuc-tests :
    (l k : ℕ)
    → (ltb_ℤ (pos 38) (pos l +ℤ negsuc k) ≡ ltb (39 + k) l)
      × (leb_ℤ (pos 0) (negsuc k) ≡ false)
      × (ltb_ℤ (pos 0) (pos l +ℤ negsuc k) ≡ ltb (suc k) l)
      × (pos_part (pos l +ℤ negsuc k) ≡ l - suc k)
scale_negsuc-tests l k = (ground arith, ground arith, ground arith, ground arith)

not_zeros : (s : Text) → all_digits s ≡ true → (not (all_zeros s) ≡ true) ↔ (digits_value s ≢ 0)
not_zeros s d = of_test (all_zeros s) (all_zeros_iff s d)
  where
    of_test : (b : Bool) → (b ≡ true) ↔ (digits_value s ≡ 0) → (not b ≡ true) ↔ (digits_value s ≢ 0)
    of_test true e = ((λ h. cc), λ h. absurd (h (e.0 refl)))
    of_test false e = (λ _ z. false≢true (e.1 z), λ _. refl)

module _ (negative : Bool) (c : ℕ) (cs : Text) (d : all_digits (c ∷ cs) ≡ true) (n : c ≢ b'0') where
  abbrev value : ℕ
  value = digits_value (c ∷ cs)

  least : 10 ^ length cs ≤ value
  least = digits_value-ge c cs (ground arith) n

  most : value < 10 ^ suc (length cs)
  most = digits_value-lt (c ∷ cs) d

  at_least : (k : ℕ) → 38 < suc (length cs) + k → 10 ^ 38 * 1 ≤ value * 10 ^ k
  at_least k h =
      let wide : 10 ^ 38 ≤ 10 ^ (length cs + k) = ten_pow_mono 38 (length cs + k) (omega arith) in
      let scaled : 10 ^ length cs * 10 ^ k ≤ value * 10 ^ k = grind (arith, least) in
      omega (arith, ten_pow-add (length cs) k)

  below : (k : ℕ) → suc (length cs) + k ≤ 38 → value * 10 ^ k < 10 ^ 38 * 1
  below k h =
      let wide : 10 ^ (suc (length cs) + k) ≤ 10 ^ 38 = ten_pow_mono (suc (length cs) + k) 38 h in
      let scaled : (value + 1) * 10 ^ k ≤ 10 ^ suc (length cs) * 10 ^ k = grind (arith, most) in
      omega (arith, ten_pow-add (suc (length cs)) k, ten_pow-pos k)

  huge_fraction : (k : ℕ) → 39 + k < suc (length cs) → 10 ^ 38 * 10 ^ suc k ≤ value * 1
  huge_fraction k h =
      let wide : 10 ^ (38 + suc k) ≤ 10 ^ length cs =
        ten_pow_mono (38 + suc k) (length cs) (omega arith) in
      omega (arith, ten_pow-add 38 (suc k), least)

  small_fraction : (k : ℕ) → suc (length cs) ≤ 39 + k → value * 1 < 10 ^ 38 * 10 ^ suc k
  small_fraction k h =
      let wide : 10 ^ suc (length cs) ≤ 10 ^ (38 + suc k) =
        ten_pow_mono (suc (length cs)) (38 + suc k) (omega arith) in
      omega (arith, ten_pow-add 38 (suc k), most)

  -- Some of the digits stand before the point.
  part :
      (k : ℕ)
      → suc k < suc (length cs)
      → value * 1 < 10 ^ 38 * 10 ^ suc k
      → Denotes
          (record {
            negative = negative;
            huge = false;
            magnitude = digits_value (take (suc (length cs) - suc k) (c ∷ cs));
            fraction = not (all_zeros (drop (suc (length cs) - suc k) (c ∷ cs)));
          })
          (value * 1)
          (10 ^ suc k)
  part k h l =
      let s : ℕ = suc (length cs) - suc k in
      let size : length (drop s (c ∷ cs)) ≡ suc k = length-drop s (c ∷ cs) ∙ omega arith in
      let digits : all_digits (drop s (c ∷ cs)) ≡ true = all_digits-drop s (c ∷ cs) d in
      let left : suc (length cs) - s ≡ suc k = omega arith in
      let whole : value * 1
          ≡ digits_value (take s (c ∷ cs)) * 10 ^ suc k + digits_value (drop s (c ∷ cs)) =
        omega (
          arith,
          digits_value-split s (c ∷ cs) (omega arith),
          ap (λ (n : ℕ). digits_value (take s (c ∷ cs)) * 10 ^ n) left,
        ) in
      denotes_finite negative _ _ _ (digits_value (drop s (c ∷ cs))) _ whole
        (rw size at (digits_value-lt (drop s (c ∷ cs)) digits)) l
        (not_zeros (drop s (c ∷ cs)) digits)

  -- All digits stand behind the point.
  none :
      (k : ℕ)
      → suc (length cs) ≤ suc k
      → value * 1 < 10 ^ 38 * 10 ^ suc k
      → Denotes
          (record { negative = negative; huge = false; magnitude = 0; fraction = true })
          (value * 1)
          (10 ^ suc k)
  none k h l =
      denotes_finite negative _ _ 0 (value * 1) true (omega arith)
        (omega (arith, most, ten_pow_mono (suc (length cs)) (suc k) h)) l
        ((λ _ z. omega (arith, z, least, ten_pow-pos (length cs))), λ _. refl)

  Denotes-pos : (k : ℕ) → Denotes (scaled_number negative (c ∷ cs) (pos k)) (value * 10 ^ k) 1
  unfolding scaled_number
  Denotes-pos k =
      let t = scale_pos-tests (suc (length cs)) k in
      rw t.0 (
        if_elim (λ x. Denotes x (value * 10 ^ k) 1) (ltb 38 (suc (length cs) + k)) _ _
          (λ e. denotes_huge negative _ _ (at_least k (ltb→lt 38 (suc (length cs) + k) e)))
          (λ e. rw t.1 (
            denotes_finite negative _ _ (value * 10 ^ k) 0 false (omega arith) (omega arith)
              (below k (not_ltb→le 38 (suc (length cs) + k) e)) (λ e. cc, λ e. absurd (e refl)))))

  Denotes-negsuc :
      (k : ℕ) → Denotes (scaled_number negative (c ∷ cs) (negsuc k)) (value * 10 ^ 0) (10 ^ suc k)
  unfolding scaled_number
  Denotes-negsuc k =
      let t = scale_negsuc-tests (suc (length cs)) k in
      rw t.0 (
        if_elim (λ x. Denotes x (value * 1) (10 ^ suc k)) (ltb (39 + k) (suc (length cs))) _ _
          (λ e. denotes_huge negative _ _ (huge_fraction k (ltb→lt (39 + k) (suc (length cs)) e)))
          (λ e.
            rw (t.1, t.2)
              (if_elim (λ x. Denotes x (value * 1) (10 ^ suc k)) (ltb (suc k) (suc (length cs))) _ _
                (λ f. rw t.3 (
                  part k (ltb→lt (suc k) (suc (length cs)) f)
                    (small_fraction k (not_ltb→le (39 + k) (suc (length cs)) e))))
                (λ f.
                  none k (not_ltb→le (suc k) (suc (length cs)) f)
                    (small_fraction k (not_ltb→le (39 + k) (suc (length cs)) e))))))

-- A significand that starts with a digit other than 0, times a power of ten, is read exactly.
pub scaled_number-Denotes :
    (negative : Bool) (c : ℕ) (cs : Text) (scale : ℤ)
    → all_digits (c ∷ cs) ≡ true
    → c ≢ b'0'
    → Denotes
        (scaled_number negative (c ∷ cs) scale)
        (digits_value (c ∷ cs) * 10 ^ pos_part scale)
        (10 ^ neg_part scale)
scaled_number-Denotes negative c cs (pos k) d n = Denotes-pos negative c cs d n k
scaled_number-Denotes negative c cs (negsuc k) d n = Denotes-negsuc negative c cs d n k

zero-Denotes : (p k : ℕ) → Denotes zero_number (0 * p) (10 ^ k)
zero-Denotes p k =
    denotes_finite false _ _ 0 0 false (omega arith) (ten_pow-pos k) (omega (arith, ten_pow-pos k))
      ((λ e. cc), λ e. absurd (e refl))

significand-Denotes :
    (negative : Bool) (s : Text) (scale : ℤ)
    → all_digits s ≡ true
    → Denotes
        (number_of_significand negative (without_zeros s) scale)
        (digits_value s * 10 ^ pos_part scale)
        (10 ^ neg_part scale)
significand-Denotes negative [] scale d = zero-Denotes (10 ^ pos_part scale) (neg_part scale)
significand-Denotes negative (c ∷ cs) scale d = elim (Bool-cases (c == b'0')) [
  | inl e ↦ rw (e, (==_iff c b'0').0 e) (significand-Denotes negative cs scale (ground arith))
  | inr e ↦ rw e (scaled_number-Denotes negative c cs scale d (λ z. ground arith))
]

-- The number that the parts of a literal denote, for any digits and exponent.
pub number_of-Denotes :
    (negative : Bool) (integer_part fraction_part : Text) (exponent : ℤ)
    → all_digits (integer_part ++ fraction_part) ≡ true
    → Denotes
        (number_of negative integer_part fraction_part exponent)
        (digits_value (integer_part ++ fraction_part)
          * 10 ^ pos_part (exponent -ℤ pos (length fraction_part)))
        (10 ^ neg_part (exponent -ℤ pos (length fraction_part)))
unfolding number_of
number_of-Denotes negative integer_part fraction_part exponent d =
    significand-Denotes negative (integer_part ++ fraction_part)
      (exponent -ℤ pos (length fraction_part)) d
