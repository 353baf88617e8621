-- ===== src/Tests/Common.antt =====
-- 128-bit integers, UTF-8 and positions in a text at concrete values.
use antb.Prelude.{◌++◌, inl, length, ◌^◌, ◌-◌, ◌≡◌, refl, Option, some, [], ◌∷◌, arith}
use antb.Prelude.Int.{ℤ, pos, neg, scale_by}
use antb.Common.Int128.{
  int128_to_string, Sign, greater, compare_ℤ, compare_scaled, rescale, push_digits, magnitude,
  compare_up, power_of_ten, round_down,
}
use antb.Common.Utf8.{utf8_sequence_length, sequence_of}
use antb.Common.Utf8.Scalars.{encode, utf8_sequence_length-encode}
use antb.Common.Utf8.Sound.{StartsScalar, utf8_sequence_length-StartsScalar}
use antb.Common.SourceSpan.{to_line_column, end_lines, to_line_column-end_lines}
use antb.Common.Int128.Order.{compare_scaled_lem}
use antb.Common.Int128.Rounding.{IsRounded, rescale-IsRounded, rescale-rescale}
use antb.Common.Int128.Text.{Prints, int128_to_string-Prints}

-- 1.05 against 1.049.
abbrev longer : Option Sign
longer = compare_scaled (pos 105) 2 (pos 1049) 3

longer_greater : longer ≡ some greater
unfolding compare_scaled compare_up compare_ℤ power_of_ten
longer_greater = refl

compare_scaled_example :
    compare_scaled (pos 105) 2 (pos 1049) 3
    ≡ some (compare_ℤ (scale_by (pos 105) (10 ^ 3)) (scale_by (pos 1049) (10 ^ 2)))
compare_scaled_example =
    compare_scaled_lem (pos 105) (pos 1049) 2 3 (omega arith) (omega arith) (omega arith)
      (omega arith)

printed : int128_to_string (neg 120) ≡ some (b'-' ∷ b'1' ∷ b'2' ∷ b'0' ∷ [])
unfolding int128_to_string push_digits magnitude
printed = refl

int128_to_string_example : Prints (neg 120)
int128_to_string_example = int128_to_string-Prints (neg 120) (omega arith)

-- -1.25 at one digit less is -1.3.
half_away : rescale (neg 125) 2 1 ≡ some (some (neg 13))
unfolding rescale round_down power_of_ten
half_away = refl

rescale-IsRounded_example :
    (r : ℤ) × (rescale (neg 125) 2 1 ≡ some (some r)) × IsRounded (neg 125) (10 ^ (2 - 1)) r
rescale-IsRounded_example =
    rescale-IsRounded (neg 125) 2 1 (omega arith) (omega arith) (omega arith)

scaled_up : rescale (neg 125) 2 4 ≡ some (some (neg 12500))
unfolding rescale power_of_ten
scaled_up = refl

rescale-back_example : rescale (neg 12500) 4 2 ≡ some (some (neg 125))
rescale-back_example =
    rescale-rescale (neg 125) (neg 12500) 2 4 (omega arith) (omega arith) scaled_up

-- The fourth byte is the second one of the second line.
to_line_column_example :
    to_line_column ((end_lines ((b'a' ∷ []) ∷ []) ++ (b'b' ∷ [])) ++ (b'c' ∷ [])) 3
    ≡ record { line = 2; column = 2 }
to_line_column_example =
    to_line_column-end_lines ((b'a' ∷ []) ∷ []) (b'b' ∷ []) (b'c' ∷ []) 3
      (((λ e. ground (arith, e)), tt), tt) ((λ e. ground (arith, e)), tt) (inl refl)

-- The euro sign, U+20AC, before another byte.
utf8_sequence_length-encode_example :
    utf8_sequence_length (encode 8_364 ++ b'x' ∷ []) ≡ length (encode 8_364)
utf8_sequence_length-encode_example =
    utf8_sequence_length-encode 8_364 (b'x' ∷ []) (inl (omega arith)) (omega arith)

surrogate_refused : utf8_sequence_length (237 ∷ 160 ∷ 128 ∷ []) ≡ 0
unfolding utf8_sequence_length sequence_of
surrogate_refused = refl

utf8_sequence_length-StartsScalar_example : StartsScalar (226 ∷ 130 ∷ 172 ∷ b'x' ∷ [])
unfolding utf8_sequence_length sequence_of
utf8_sequence_length-StartsScalar_example =
    utf8_sequence_length-StartsScalar (226 ∷ 130 ∷ 172 ∷ b'x' ∷ []) (omega arith)
