-- ===== src/Plan/NumberText/Negative.antt =====
-- src/plan/literal.cc: the sign of the number that `ParseExactNumber` makes.
use antb.Prelude.{
  ℕ, ◌<◌, ◌≡◌, refl, ◌∙◌, Bool, true, false, not, ◌&&◌, ◌==◌, [], ◌∷◌, ◌++◌, length, arith, if_elim,
  Bool-cases, ==_iff, inl, inr,
}
use antb.Prelude.Int.{ℤ, pos, ◌+ℤ◌, ◌-ℤ◌, ltb_ℤ, leb_ℤ}
use antb.Common.Int128.{Text}
use antb.Plan.FoldComparison.{ExactNumber}
use antb.Plan.NumberText.{
  digits_value, all_digits, scaled_number, number_of, without_zeros, number_of_significand,
}
use antb.Plan.NumberText.Digits.{ten_pow-pos, digits_value-ge}

scaled_number-negative :
    (negative : Bool) (sig : Text) (scale : ℤ)
    → (scaled_number negative sig scale).negative ≡ negative
unfolding scaled_number
scaled_number-negative negative sig scale =
    if_elim (λ (x : ExactNumber). x.negative ≡ negative)
      (ltb_ℤ (pos 38) (pos (length sig) +ℤ scale)) _ _ (λ y. refl)
      (λ n.
        if_elim (λ (x : ExactNumber). x.negative ≡ negative) (leb_ℤ (pos 0) scale) _ _ (λ y. refl)
          (λ m.
            if_elim (λ (x : ExactNumber). x.negative ≡ negative)
              (ltb_ℤ (pos 0) (pos (length sig) +ℤ scale)) _ _ (λ y. refl) (λ k. refl)))

significand-negative :
    (negative : Bool) (s : Text) (scale : ℤ)
    → all_digits s ≡ true
    → (number_of_significand negative (without_zeros s) scale).negative
      ≡ (negative && not (digits_value s == 0))
significand-negative negative [] scale d = ground arith
significand-negative negative (c ∷ cs) scale d = elim (Bool-cases (c == b'0')) [
  | inl e ↦ rw (e, (==_iff c b'0').0 e) (significand-negative negative cs scale (ground arith))
  | inr e ↦ rw e (
      scaled_number-negative negative (c ∷ cs) scale
      ∙ some_value negative (digits_value (c ∷ cs)) (
          omega (
            arith,
            digits_value-ge c cs (ground arith) (λ z. ground arith),
            ten_pow-pos (length cs),
          )))
]
  where
    some_value : (b : Bool) (n : ℕ) → 0 < n → b ≡ (b && not (n == 0))
    some_value true n h = ground (arith, h)
    some_value false n h = refl

-- A literal keeps its sign unless its value is 0.
pub number_of-negative :
    (negative : Bool) (integer_part fraction_part : Text) (exponent : ℤ)
    → all_digits (integer_part ++ fraction_part) ≡ true
    → (number_of negative integer_part fraction_part exponent).negative
      ≡ (negative && not (digits_value (integer_part ++ fraction_part) == 0))
unfolding number_of
number_of-negative negative integer_part fraction_part exponent d =
    significand-negative negative (integer_part ++ fraction_part)
      (exponent -ℤ pos (length fraction_part)) d
