-- ===== src/Plan/NumberText.antt =====
-- src/plan/literal.cc: `ParseExactNumber`, `IsApproximateNumber` and `ParseDecimalLiteral`, the
-- exact values of numeric literals. An exponent saturates at 10^9, so int64 does not overflow.
use antb.Prelude.{
  ℕ, ◌+◌, ◌-◌, ◌*◌, ◌^◌, Bool, true, false, not, ◌&&◌, ◌||◌, ltb, ◌==◌, min, max, Option, none,
  some, [], ◌∷◌, ◌++◌, length, take, drop, if◌then◌else◌,
}
use antb.Prelude.Int.{ℤ, pos, pos_part, ◌+ℤ◌, ◌-ℤ◌, ltb_ℤ, leb_ℤ}
use antb.Common.Int128.{Text}
use antb.Sql.Token.{is_digit}
use antb.Sql.Scan.{count_while}
use antb.Plan.FoldComparison.{ExactNumber, signed}
use antb.Plan.Types.{LogicalType, decimal_type}
pub mod Digits
pub mod Value
pub mod Negative
pub mod Parse
pub mod Decimal

abbrev pub max_exponent : ℕ
max_exponent = 1_000_000_000

abbrev pub max_integer_digits : ℕ
max_integer_digits = 38

-- `DigitsValue`, from a value on.
abbrev pub digits_from : ℕ → Text → ℕ
digits_from value [] = value
digits_from value (c ∷ cs) = digits_from (value * 10 + (c - b'0')) cs

abbrev pub digits_value : Text → ℕ
digits_value s = digits_from 0 s

abbrev pub exponent_from : ℕ → Text → ℕ
exponent_from value [] = value
exponent_from value (c ∷ cs) = exponent_from (min (value * 10 + (c - b'0')) max_exponent) cs

abbrev pub all_digits : Text → Bool
all_digits [] = true
all_digits (c ∷ cs) = is_digit c && all_digits cs

-- From the first digit that is not 0.
abbrev pub without_zeros : Text → Text
without_zeros [] = []
without_zeros (c ∷ cs) = let rest = without_zeros cs in if c == b'0' then rest else c ∷ cs

abbrev pub all_zeros : Text → Bool
all_zeros [] = true
all_zeros (c ∷ cs) = c == b'0' && all_zeros cs

-- The digits at the front, and what follows them.
abbrev pub digits : Text → Text
digits s = take (count_while is_digit s) s

abbrev pub after_digits : Text → Text
after_digits s = drop (count_while is_digit s) s

abbrev pub is_empty : Text → Bool
is_empty [] = true
is_empty (_ ∷ _) = false

abbrev pub zero_number : ExactNumber
zero_number = record { negative = false; huge = false; magnitude = 0; fraction = false }

-- The value `sig * 10^scale`, where `sig` starts with a digit that is not 0.
unfoldable pub scaled_number : Bool → Text → ℤ → ExactNumber
scaled_number negative sig scale =
    let integer_digits = pos (length sig) +ℤ scale in
    if ltb_ℤ (pos max_integer_digits) integer_digits
    then record { negative = negative; huge = true; magnitude = 0; fraction = false }
    else if leb_ℤ (pos 0) scale
    then record {
      negative = negative;
      huge = false;
      magnitude = digits_value sig * 10 ^ pos_part scale;
      fraction = false;
    }
    else if ltb_ℤ (pos 0) integer_digits
    then record {
      negative = negative;
      huge = false;
      magnitude = digits_value (take (pos_part integer_digits) sig);
      fraction = not (all_zeros (drop (pos_part integer_digits) sig));
    }
    else record { negative = negative; huge = false; magnitude = 0; fraction = true }

abbrev pub number_of_significand : Bool → Text → ℤ → ExactNumber
number_of_significand negative [] scale = zero_number
number_of_significand negative (c ∷ cs) scale = scaled_number negative (c ∷ cs) scale

unfoldable pub number_of : Bool → Text → Text → ℤ → ExactNumber
unfolding scaled_number
number_of negative integer_part fraction_part exponent =
    number_of_significand negative (without_zeros (integer_part ++ fraction_part))
      (exponent -ℤ pos (length fraction_part))

abbrev pub is_exponent_letter : ℕ → Bool
is_exponent_letter c = c == b'e' || c == b'E'

-- The exponent at the front, which the text must end with: `none` for any other text.
abbrev pub exponent_digits : Bool → Text → Option ℤ
exponent_digits negative s =
    if is_empty (digits s) || not (is_empty (after_digits s))
    then none
    else some (signed negative (exponent_from 0 (digits s)))

abbrev pub exponent_value : Text → Option ℤ
exponent_value [] = none
exponent_value (c ∷ cs) =
    if c == b'-'
    then exponent_digits true cs
    else if c == b'+'
    then exponent_digits false cs
    else exponent_digits false (c ∷ cs)

abbrev pub exponent_of : Text → Option ℤ
exponent_of [] = some (pos 0)
exponent_of (c ∷ cs) = if is_exponent_letter c then exponent_value cs else none

abbrev pub with_exponent : Option ℤ → Bool → Text → Text → ℤ → Option ExactNumber
with_exponent none negative integer_part fraction_part shift = none
with_exponent (some exponent) negative integer_part fraction_part shift =
    some (number_of negative integer_part fraction_part (exponent +ℤ shift))

-- What follows the parts: both empty is no number.
abbrev pub from_parts : Text → Text → Text → Bool → ℤ → Option ExactNumber
from_parts integer_part fraction_part rest negative shift =
    if is_empty integer_part && is_empty fraction_part
    then none
    else with_exponent (exponent_of rest) negative integer_part fraction_part shift

-- Behind the integer part.
abbrev pub from_point : Text → Text → Bool → ℤ → Option ExactNumber
from_point integer_part [] negative shift = from_parts integer_part [] [] negative shift
from_point integer_part (c ∷ cs) negative shift =
    if c == b'.'
    then from_parts integer_part (digits cs) (after_digits cs) negative shift
    else from_parts integer_part [] (c ∷ cs) negative shift

unfoldable pub parse_exact_number : Text → Bool → ℤ → Option ExactNumber
unfolding number_of count_while
parse_exact_number text negative shift = from_point (digits text) (after_digits text) negative shift

abbrev pub any_byte : (ℕ → Bool) → Text → Bool
any_byte p [] = false
any_byte p (c ∷ cs) = p c || any_byte p cs

abbrev pub count_if : (ℕ → Bool) → Text → ℕ
count_if p [] = 0
count_if p (c ∷ cs) = (if p c then 1 else 0) + count_if p cs

unfoldable pub is_approximate_number : Text → Bool
is_approximate_number text =
    if any_byte is_exponent_letter text
    then true
    else any_byte (λ c. c == b'.') text && ltb max_integer_digits (count_if is_digit text)

pub record DecimalLiteral : Type 0 where
  pub type : LogicalType
  pub unscaled : ℤ

-- `text.find('.')`: the bytes before the first point, and behind it.
abbrev pub before_point : Text → Text
before_point s = take (count_while (λ c. not (c == b'.')) s) s

abbrev pub from_first_point : Text → Text
from_first_point s = drop (count_while (λ c. not (c == b'.')) s) s

abbrev is_some : Option ExactNumber → Bool
is_some none = false
is_some (some _) = true

abbrev decimal_parts : Text → Text → Text → Bool → Option DecimalLiteral
decimal_parts text before [] negative = none
decimal_parts text before (_ ∷ after) negative =
    if is_approximate_number text || not (is_some (parse_exact_number text negative (pos 0)))
    then none
    else some (record {
      type = decimal_type (max (length text - 1) 1) (length after);
      unscaled = signed negative (digits_value (before ++ after));
    })

unfoldable pub parse_decimal_literal : Text → Bool → Option DecimalLiteral
unfolding is_approximate_number parse_exact_number count_while
parse_decimal_literal text negative =
    decimal_parts text (before_point text) (from_first_point text) negative
