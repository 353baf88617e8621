-- ===== src/Plan/DateText.antt =====
-- src/plan/literal.cc: `ParseDate` and `FormatDate`. `std::chrono` counts the days of the proleptic Gregorian calendar.
use antb.Prelude.{
  ℕ, zero, suc, ◌+◌, ◌-◌, ◌*◌, ◌/◌, ◌%◌, Bool, true, not, ◌&&◌, ◌||◌, ltb, leb, ◌==◌, Option, none,
  some, [], ◌∷◌, ◌++◌, length, take, drop, if◌then◌else◌,
}
use antb.Prelude.Int.{ℤ, pos, neg, sub_ℕ, ◌+ℤ◌, leb_ℤ, scale_by, pos_part, ◌-ℤ◌}
use antb.Common.Int128.{Text, div_trunc}
use antb.Sql.Token.{is_digit}
use antb.Plan.NumberText.{digits_value, all_digits}
pub mod Calendar
pub mod RoundTrip

-- `field`: the value of some bytes, if they are digits.
abbrev pub field : Text → Option ℕ
field s = if all_digits s then some (digits_value s) else none

abbrev pub is_leap : ℕ → Bool
is_leap y = (y % 4 == 0) && (not (y % 100 == 0) || (y % 400 == 0))

-- The days of the months before `m` in a year that is no leap year.
abbrev pub days_before_month : ℕ → ℕ
days_before_month m =
    if m == 1
    then 0
    else if m == 2
    then 31
    else if m == 3
    then 59
    else if m == 4
    then 90
    else if m == 5
    then 120
    else if m == 6
    then 151
    else if m == 7
    then 181
    else if m == 8
    then 212
    else if m == 9
    then 243
    else if m == 10
    then 273
    else if m == 11
    then 304
    else 334

-- The days of a month, the leap day included.
abbrev pub days_of_month : ℕ → ℕ → ℕ
days_of_month y m =
    if m == 2
    then (if is_leap y then 29 else 28)
    else if (m == 4 || m == 6) || (m == 9 || m == 11)
    then 30
    else 31

-- `year_month_day::ok`, for a year from 0 to 9999.
abbrev pub is_date : ℕ → ℕ → ℕ → Bool
is_date y m d = ((leb 1 m && leb m 12) && leb 1 d) && leb d (days_of_month y m)

-- The days from 0000-01-01, a leap year, to a date.
abbrev pub day_number : ℕ → ℕ → ℕ → ℕ
day_number y m d =
    365 * y
    + (y + 3) / 4
    + (y + 399) / 400
    + days_before_month m
    + (if is_leap y && ltb 2 m then 1 else 0)
    + (d - 1)
    - (y + 99) / 100

-- `sys_days`: 1970-01-01 is the day 719528.
unfoldable pub sys_days : ℕ → ℕ → ℕ → ℤ
sys_days y m d = sub_ℕ (day_number y m d) 719_528

abbrev pub byte_at : ℕ → Text → ℕ
byte_at i [] = 0
byte_at zero (c ∷ cs) = c
byte_at (suc i) (c ∷ cs) = byte_at i cs

abbrev pub date_of : Option ℕ → Option ℕ → Option ℕ → Option ℤ
date_of (some y) (some m) (some d) = if is_date y m d then some (sys_days y m d) else none
date_of y m d = none

unfoldable pub parse_date : Text → Option ℤ
unfolding sys_days
parse_date s =
    if not (length s == 10) || (not (byte_at 4 s == b'-') || not (byte_at 7 s == b'-'))
    then none
    else date_of (field (take 4 s)) (field (take 2 (drop 5 s))) (field (take 2 (drop 8 s)))

-- `{:0w}`: decimal digits, filled up with zeros. Twenty digits hold any 64 bits.
abbrev pub decimal_digits : ℕ → ℕ → Text → Text
decimal_digits zero n out = out
decimal_digits (suc f) n out =
    let rest = decimal_digits f (n / 10) ((b'0' + n % 10) ∷ out) in
    if ltb n 10 then (b'0' + n) ∷ out else rest

abbrev pub zeros : ℕ → Text → Text
zeros zero s = s
zeros (suc n) s = b'0' ∷ zeros n s

abbrev pub fill : ℕ → Text → Text
fill w s = zeros (w - length s) s

unfoldable pub padded : ℕ → ℕ → Text
padded w n = fill w (decimal_digits 20 n [])

-- A quotient and a remainder that round down, as the code computes them for a negative number.
abbrev pub era_of : ℤ → ℤ
era_of z = div_trunc (if leb_ℤ (pos 0) z then z else z -ℤ pos 146_096) 146_097

abbrev pub year_of_era : ℕ → ℕ
year_of_era n = (n + n / 36_524 - (n / 1_460 + n / 146_096)) / 365

abbrev pub day_of_year : ℕ → ℕ → ℕ
day_of_year n y = n + y / 100 - (365 * y + y / 4)

-- 0 is March.
abbrev pub shifted_month : ℕ → ℕ
shifted_month n = (5 * n + 2) / 153

abbrev pub month_of : ℕ → ℕ
month_of mp = if ltb mp 10 then mp + 3 else mp - 9

abbrev pub month_and_day : ℕ → ℕ → Text
month_and_day month day = b'-' ∷ (padded 2 month ++ b'-' ∷ padded 2 day)

abbrev before_christ : Text
before_christ = 32 ∷ b'(' ∷ b'B' ∷ b'C' ∷ b')' ∷ []

abbrev pub date_text : ℤ → ℕ → ℕ → Text
date_text year month day =
    if leb_ℤ year (pos 0)
    then padded 4 (pos_part (pos 1 -ℤ year)) ++ month_and_day month day ++ before_christ
    else padded 4 (pos_part year) ++ month_and_day month day

-- The date of a day of an era, the year counted from March.
abbrev pub civil_text : ℤ → ℕ → Text
civil_text era n =
    let y = year_of_era n in
    let doy = day_of_year n y in
    let mp = shifted_month doy in
    let month = month_of mp in
    date_text (pos y +ℤ scale_by era 400 +ℤ pos (if leb month 2 then 1 else 0)) month
      (doy - (153 * mp + 2) / 5 + 1)

abbrev pub infinity : Text
infinity = b'i' ∷ b'n' ∷ b'f' ∷ b'i' ∷ b'n' ∷ b'i' ∷ b't' ∷ b'y' ∷ []

abbrev pub same_ℤ : ℤ → ℤ → Bool
same_ℤ a b = leb_ℤ a b && leb_ℤ b a

unfoldable pub format_date : ℤ → Text
unfolding padded
format_date days =
    let z = days +ℤ pos 719_468 in
    let era = era_of z in
    if same_ℤ days (pos 2_147_483_647)
    then infinity
    else if same_ℤ days (neg 2_147_483_647)
    then b'-' ∷ infinity
    else civil_text era (pos_part (z -ℤ scale_by era 146_097))
