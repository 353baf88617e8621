-- ===== src/Plan/TimeText.antt =====
-- src/plan/literal.cc: `ParseTimestamp` and `FormatTimestamp`.
use antb.Prelude.{
  ℕ, zero, suc, ◌+◌, ◌-◌, ◌*◌, ◌/◌, ◌%◌, not, ◌&&◌, ◌||◌, ltb, leb, ◌==◌, Option, none, some, [],
  ◌∷◌, ◌++◌, length, take, drop, if◌then◌else◌,
}
use mathlib.Core.Option
use antb.Prelude.Int.{ℤ, pos, neg, negsuc, ◌+ℤ◌, scale_by}
use antb.Common.Int128.{Text}
use antb.Sql.Token.{is_digit}
use antb.Plan.DateText.{parse_date, padded, infinity, same_ℤ, format_date}
use antb.Plan.NumberText.{all_digits}

-- The state of `ParseTimestamp` behind the date: two digits at the front of `rest`.
abbrev pub two_digits : ℕ → Text → Option (ℕ × Text)
two_digits most (a ∷ b ∷ rest) =
    if not (is_digit a) || not (is_digit b)
    then none
    else if leb ((a - b'0') * 10 + (b - b'0')) most
    then some ((a - b'0') * 10 + (b - b'0'), rest)
    else none
two_digits most _ = none

-- The first six digits of a fraction count.
abbrev pub fraction_value : ℕ → ℕ → Text → ℕ
fraction_value zero value s = value
fraction_value (suc left) value [] = fraction_value left (value * 10) []
fraction_value (suc left) value (c ∷ cs) = fraction_value left (value * 10 + (c - b'0')) cs

abbrev pub fraction_micros : Text → Option ℕ
fraction_micros [] = some 0
fraction_micros (c ∷ cs) =
    if not (c == b'.') || (ltb (length cs) 1 || ltb 9 (length cs))
    then none
    else if all_digits cs
    then some (fraction_value 6 0 cs)
    else none

-- The seconds and their fraction, in microseconds.
abbrev pub with_seconds : Option (ℕ × Text) → Option ℕ
with_seconds none = none
with_seconds (some (seconds, rest)) =
    Option.map (λ fraction. seconds * 1_000_000 + fraction) (fraction_micros rest)

abbrev pub after_minutes : Text → Option ℕ
after_minutes [] = some 0
after_minutes (c ∷ cs) = if c == b':' then with_seconds (two_digits 59 cs) else none

abbrev pub with_minutes : Option (ℕ × Text) → Option ℕ
with_minutes none = none
with_minutes (some (minutes, rest)) =
    Option.map (λ micros. minutes * 60_000_000 + micros) (after_minutes rest)

abbrev pub after_hours : Text → Option ℕ
after_hours [] = none
after_hours (c ∷ cs) = if c == b':' then with_minutes (two_digits 59 cs) else none

abbrev pub with_hours : Option (ℕ × Text) → Option ℕ
with_hours none = none
with_hours (some (hours, rest)) =
    Option.map (λ micros. hours * 3_600_000_000 + micros) (after_hours rest)

-- The time of the day in microseconds: nothing, or a space or `T` and the time.
unfoldable pub time_of_day : Text → Option ℕ
time_of_day [] = some 0
time_of_day (c ∷ cs) =
    if not (c == 32) && not (c == b'T') then none else with_hours (two_digits 23 cs)

abbrev pub micros_per_day : ℕ
micros_per_day = 86_400_000_000

abbrev pub at_time : Option ℤ → Option ℕ → Option ℤ
at_time (some days) (some micros) = some (scale_by days micros_per_day +ℤ pos micros)
at_time days micros = none

unfoldable pub parse_timestamp : Text → Option ℤ
unfolding parse_date time_of_day
parse_timestamp s =
    if ltb (length s) 10 then none else at_time (parse_date (take 10 s)) (time_of_day (drop 10 s))

-- The digits of the fraction without the zeros at the end.
abbrev pub drop_zero : ℕ → Text → Text
drop_zero c [] = if c == b'0' then [] else c ∷ []
drop_zero c (d ∷ ds) = c ∷ d ∷ ds

abbrev pub without_end_zeros : Text → Text
without_end_zeros [] = []
without_end_zeros (c ∷ cs) = drop_zero c (without_end_zeros cs)

unfoldable pub format_time : ℕ → Text
unfolding padded
format_time rest =
    let seconds = rest / 1_000_000 in
    let fraction = rest % 1_000_000 in
    padded 2 (seconds / 3_600)
    ++ b':' ∷ padded 2 ((seconds / 60) % 60)
    ++ b':' ∷ padded 2 (seconds % 60)
    ++ (if fraction == 0 then [] else b'.' ∷ without_end_zeros (padded 6 fraction))

-- Division that rounds down: the day of a time, and the time of the day.
abbrev pub day_of : ℤ → ℤ
day_of (pos n) = pos (n / micros_per_day)
day_of (negsuc n) =
    let up = suc n / micros_per_day in if suc n % micros_per_day == 0 then neg up else negsuc up

abbrev pub time_of : ℤ → ℕ
time_of (pos n) = n % micros_per_day
time_of (negsuc n) =
    let rest = suc n % micros_per_day in if rest == 0 then 0 else micros_per_day - rest

unfoldable pub format_timestamp : ℤ → Text
unfolding format_date format_time
format_timestamp micros =
    if same_ℤ micros (pos 9_223_372_036_854_775_807)
    then infinity
    else if same_ℤ micros (neg 9_223_372_036_854_775_807)
    then b'-' ∷ infinity
    else format_date (day_of micros) ++ 32 ∷ format_time (time_of micros)
