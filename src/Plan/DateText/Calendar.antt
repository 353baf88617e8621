-- ===== src/Plan/DateText/Calendar.antt =====
-- src/plan/literal.cc: the arithmetic of `FormatDate` gives back the date of a day.
use antb.Prelude.{
  ℕ, zero, suc, ◌+◌, ◌-◌, ◌*◌, ◌/◌, ◌%◌, ◌≤◌, ◌<◌, ◌≡◌, ◌≢◌, refl, ◌⊎◌, inl, inr, true, false, leb,
  ◌==◌, if◌then◌else◌, arith, Bool-cases, ◌++◌, ap, ◌∙◌, lt→not_leb,
}
use antb.Common.Int128.{Text}
use antb.Prelude.Int.{ℤ, pos, pos_part, neg, sub_ℕ, scale_by, ◌+ℤ◌, ◌-ℤ◌}
use antb.Plan.DateText.{
  era_of, civil_text, date_text, padded, month_and_day, sys_days, format_date, same_ℤ, is_leap,
  days_of_month, is_date, day_number, year_of_era, day_of_year, shifted_month, month_of,
}

-- The years counted from March: the days before year `y` of an era.
abbrev pub before_year : ℕ → ℕ
before_year y = 365 * y + y / 4 - y / 100

year_of_era-short : (y n : ℕ) → y < 400 → n < 365 → year_of_era (365 * y + y / 4 - y / 100 + n) ≡ y
year_of_era-short y n h k = omega arith

year_of_era-leap :
    (y : ℕ)
    → y < 400
    → (y + 1) % 4 ≡ 0
    → ((y + 1) % 100 ≢ 0) ⊎ (y ≡ 399)
    → year_of_era (365 * y + y / 4 - y / 100 + 365) ≡ y
year_of_era-leap y h k l = omega arith

-- A claim of every month.
pub month_cases {ℓ} :
    (P : ℕ → Type ℓ)
    → P 1
    → P 2
    → P 3
    → P 4
    → P 5
    → P 6
    → P 7
    → P 8
    → P 9
    → P 10
    → P 11
    → P 12
    → (m : ℕ) → 1 ≤ m
    → m ≤ 12
    → P m
month_cases P a b c d e f g h i j k l zero lo hi = absurd (omega arith)
month_cases P a b c d e f g h i j k l (suc zero) lo hi = a
month_cases P a b c d e f g h i j k l (suc (suc zero)) lo hi = b
month_cases P a b c d e f g h i j k l (suc (suc (suc zero))) lo hi = c
month_cases P a b c d e f g h i j k l (suc (suc (suc (suc zero)))) lo hi = d
month_cases P a b c d e f g h i j k l (suc (suc (suc (suc (suc zero))))) lo hi = e
month_cases P a b c d e f g h i j k l (suc (suc (suc (suc (suc (suc zero)))))) lo hi = f
month_cases P a b c d e f g h i j k l (suc (suc (suc (suc (suc (suc (suc zero))))))) lo hi = g
month_cases P a b c d e f g h i j k l (suc (suc (suc (suc (suc (suc (suc (suc zero)))))))) lo hi = h
month_cases P a b c d e f g h i j k l (suc (suc (suc (suc (suc (suc (suc (suc (suc zero))))))))) lo
      hi =
    i
month_cases P a b c d e f g h i j k l
      (suc (suc (suc (suc (suc (suc (suc (suc (suc (suc zero)))))))))) lo hi =
    j
month_cases P a b c d e f g h i j k l
      (suc (suc (suc (suc (suc (suc (suc (suc (suc (suc (suc zero))))))))))) lo hi =
    k
month_cases P a b c d e f g h i j k l
      (suc (suc (suc (suc (suc (suc (suc (suc (suc (suc (suc (suc zero)))))))))))) lo hi =
    l
month_cases P a b c d e f g h i j k l
      (suc (suc (suc (suc (suc (suc (suc (suc (suc (suc (suc (suc (suc n))))))))))))) lo hi =
    absurd (omega arith)

abbrev pub march_year : ℕ → ℕ → ℕ
march_year y m = if leb m 2 then y - 1 else y

abbrev pub march_month : ℕ → ℕ
march_month m = if leb m 2 then m + 9 else m - 3

abbrev pub march_day : ℕ → ℕ → ℕ
march_day m d = (153 * march_month m + 2) / 5 + (d - 1)

-- The days since 0000-03-01.
abbrev pub march_number : ℕ → ℕ → ℕ
march_number y n = 365 * y + y / 4 - y / 100 + y / 400 + n

-- What a date says of the year and the day from March.
abbrev IsMarchDate : ℕ → ℕ → ℕ → Type 0
IsMarchDate y m d =
    (day_number y m d ≡ 60 + march_number (march_year y m) (march_day m d))
    × (shifted_month (march_day m d) ≡ march_month m)
    × (month_of (march_month m) ≡ m)
    × (march_day m d - (153 * march_month m + 2) / 5 + 1 ≡ d)
    × ((march_day m d < 365) ⊎ ((march_day m d ≡ 365) × (is_leap (march_year y m + 1) ≡ true)))

IsMarchDate-lem :
    (y m d : ℕ) → 1 ≤ y → 1 ≤ m → m ≤ 12 → 1 ≤ d → d ≤ days_of_month y m → IsMarchDate y m d
IsMarchDate-lem y m d h lo hi k l =
    month_cases (λ m. d ≤ days_of_month y m → IsMarchDate y m d) (λ l. (ground arith))
      (λ l. (ground arith)) (λ l. (ground arith)) (λ l. (ground arith)) (λ l. (ground arith))
      (λ l. (ground arith)) (λ l. (ground arith)) (λ l. (ground arith)) (λ l. (ground arith))
      (λ l. (ground arith)) (λ l. (ground arith)) (λ l. (ground arith)) m lo hi l

-- A day of the year from March, the leap day last.
abbrev IsMarchDay : ℕ → ℕ → Type 0
IsMarchDay y n = (n < 365) ⊎ ((n ≡ 365) × (is_leap (y + 1) ≡ true))

era-year : (y n : ℕ) → IsMarchDay y n → march_number y n / 146_097 ≡ y / 400
era-year y n (inl h) = omega arith
era-year y n (inr (h, l)) = ground arith

era-day :
    (y n : ℕ) → IsMarchDay y n → march_number y n - (y / 400) * 146_097 ≡ before_year (y % 400) + n
era-day y n (inl h) = omega arith
era-day y n (inr (h, l)) = omega arith

centuries : (y : ℕ) → is_leap (y + 1) ≡ true → ((y % 400 + 1) % 100 ≢ 0) ⊎ (y % 400 ≡ 399)
centuries y l = elim (Bool-cases ((y + 1) % 100 == 0)) [
  | inl e ↦ inr (ground arith)
  | inr e ↦ inl (ground arith)
]

year_of_era-day : (y n : ℕ) → IsMarchDay y n → year_of_era (before_year (y % 400) + n) ≡ y % 400
year_of_era-day y n (inl h) = year_of_era-short (y % 400) n (omega arith) h
year_of_era-day y n (inr (h, l)) =
    rw h (year_of_era-leap (y % 400) (omega arith) (ground arith) (centuries y l))

day_of_year-day : (y n : ℕ) → IsMarchDay y n → day_of_year (before_year (y % 400) + n) (y % 400) ≡ n
day_of_year-day y n h = omega arith

era_of-pos : (z : ℕ) → era_of (pos z) ≡ pos (z / 146_097)
era_of-pos z = ground arith

pos-sub : (a b : ℕ) → b ≤ a → pos_part (pos a -ℤ pos b) ≡ a - b
pos-sub a b h = ground arith

-- `FormatDate` at a day from 0000-03-01 on.
format-march :
    (y n : ℕ)
    → IsMarchDay y n
    → civil_text
        (era_of (pos (march_number y n)))
        (pos_part (pos (march_number y n) -ℤ scale_by (era_of (pos (march_number y n))) 146_097))
      ≡ civil_text (pos (y / 400)) (before_year (y % 400) + n)
format-march y n h =
    ap (λ e. civil_text e (pos_part (pos (march_number y n) -ℤ scale_by e 146_097)))
      (era_of-pos (march_number y n) ∙ ap pos (era-year y n h))
    ∙ ap (civil_text (pos (y / 400))) (pos-sub _ _ (omega arith) ∙ era-day y n h)

civil_text-day :
    (y n : ℕ)
    → IsMarchDay y n
    → civil_text (pos (y / 400)) (before_year (y % 400) + n)
      ≡ date_text
          (pos (y % 400)
            +ℤ pos (y / 400 * 400)
            +ℤ pos (if leb (month_of (shifted_month n)) 2 then 1 else 0))
          (month_of (shifted_month n))
          (n - (153 * shifted_month n + 2) / 5 + 1)
civil_text-day y n h = rw (year_of_era-day y n h, day_of_year-day y n h) refl

-- The year and the parts of a date, written with zeros.
abbrev pub written_date : ℕ → ℕ → ℕ → Text
written_date y m d = padded 4 y ++ month_and_day m d

date_text-pos : (x : ℤ) (y m d : ℕ) → x ≡ pos y → 1 ≤ y → date_text x m d ≡ written_date y m d
date_text-pos x y m d e h = rw (e, lt→not_leb (y + 0) (0 + 0) (omega arith)) refl

epoch : (b : ℕ) → sub_ℕ (60 + b) 719_528 +ℤ pos 719_468 ≡ pos b
epoch b = ground arith

finite :
    (a : ℕ)
    → a ≤ 4_000_000
    → (same_ℤ (sub_ℕ a 719_528) (pos 2_147_483_647) ≡ false)
      × (same_ℤ (sub_ℕ a 719_528) (neg 2_147_483_647) ≡ false)
finite a h = (ground arith, ground arith)

format_day :
    (y n : ℕ)
    → IsMarchDay y n
    → y ≤ 9999
    → format_date (sub_ℕ (60 + march_number y n) 719_528)
      ≡ civil_text (pos (y / 400)) (before_year (y % 400) + n)
unfolding format_date
format_day y n h u =
    let small : 60 + march_number y n ≤ 4_000_000 = omega arith in
    rw ((finite (60 + march_number y n) small).0, (finite (60 + march_number y n) small).1)
      (ap (λ z. civil_text (era_of z) (pos_part (z -ℤ scale_by (era_of z) 146_097)))
          (epoch (march_number y n))
        ∙ format-march y n h)

civil_year :
    (y m : ℕ)
    → 1 ≤ y
    → pos (march_year y m % 400)
        +ℤ pos (march_year y m / 400 * 400)
        +ℤ pos (if leb m 2 then 1 else 0)
      ≡ pos y
civil_year y m h = ground arith

-- `FormatDate` at the days of a date, from year 1 on.
pub format_date-sys_days :
    (y m d : ℕ)
    → 1 ≤ y
    → y ≤ 9999
    → is_date y m d ≡ true
    → format_date (sys_days y m d) ≡ written_date y m d
unfolding sys_days
format_date-sys_days y m d h u v =
    let at : IsMarchDate y m d =
      IsMarchDate-lem y m d h (ground arith) (ground arith) (ground arith) (ground arith) in
    ap (λ k. format_date (sub_ℕ k 719_528)) at.0
    ∙ format_day (march_year y m) (march_day m d) at.4 (ground arith)
    ∙ civil_text-day (march_year y m) (march_day m d) at.4
    ∙ rw (at.1, at.2, at.3) (date_text-pos _ y m d (civil_year y m h) h)
