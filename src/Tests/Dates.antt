-- ===== src/Tests/Dates.antt =====
-- Numbers, dates and times on small texts.
use antb.Prelude.{
  inl, not, ◌==◌, true, ltb, leb, ◌&&◌, ◌<◌, if◌then◌else◌, ◌*◌, ◌^◌, ◌++◌, ◌∷◌, length, arith, ◌≡◌,
  refl, some, none,
}
use antb.Prelude.Int.{pos_part, neg_part, ◌+ℤ◌, ◌-ℤ◌, pos, neg}
use antb.Plan.DateText.{parse_date, format_date}
use antb.Plan.TimeText.{parse_timestamp, format_timestamp}
use antb.Plan.Types.{decimal_type}
use antb.Plan.FoldComparison.{ExactNumber, signed}
use antb.Plan.NumberText.{digits_value, parse_exact_number, parse_decimal_literal}
use antb.Plan.NumberText.Value.{Denotes}
use antb.Plan.NumberText.Parse.{minus, parse_exact_number-Denotes}
use antb.Plan.NumberText.Decimal.{parse_decimal_literal_lem}
use antb.Plan.DateText.RoundTrip.{format_date-parse_date}
use antb.Tests.Sql.{codes}

dates :
    (parse_date (codes "1969-12-31") ≡ some (neg 1))
    × (parse_date (codes "2024-02-29") ≡ some (pos 19782))
    × (parse_date (codes "2023-02-29") ≡ none)
    × (format_date (pos 19782) ≡ codes "2024-02-29")
    × (format_date (neg 719529) ≡ codes "0002-12-31 (BC)")
unfolding parse_date format_date
dates = (refl, refl, refl, refl, refl)

times :
    (parse_timestamp (codes "1969-12-31T23:59:59.5") ≡ some (neg 500000))
    × (format_timestamp (neg 500000) ≡ codes "1969-12-31 23:59:59.5")
unfolding parse_timestamp format_timestamp
times = (refl, refl)

format_date-parse_date_example : format_date (pos 19782) ≡ codes "2024-02-29"
format_date-parse_date_example =
    format_date-parse_date (codes "2024-02-29") (pos 19782) (dates.1) (omega arith)

-- -12.50e-1 with a shift by one digit.
parse_exact_number-Denotes_example :
    (n : ExactNumber) × (parse_exact_number
        (codes "12" ++ b'.' ∷ (codes "50" ++ codes "e-1"))
        true
        (pos 1)
      ≡ some n)
    × (n.negative ≡ (true && not (digits_value (codes "12" ++ codes "50") == 0)))
    × Denotes n
        (digits_value (codes "12" ++ codes "50")
          * 10 ^ pos_part (neg 1 +ℤ pos 1 -ℤ pos (length (codes "50"))))
        (10 ^ neg_part (neg 1 +ℤ pos 1 -ℤ pos (length (codes "50"))))
parse_exact_number-Denotes_example =
    parse_exact_number-Denotes (codes "12") (codes "50") (codes "e-1") true (pos 1) (neg 1) refl
      refl (minus b'e' (codes "1") (inl refl) (omega arith) refl) refl

-- -012.50 is a DECIMAL(5, 2), every digit counted.
parse_decimal_literal_example :
    (parse_decimal_literal (codes "012" ++ b'.' ∷ codes "50") true ≡ (
      if ltb 0 5 && leb 5 38
      then some (record {
        type = decimal_type 5 2;
        unscaled = signed true (digits_value (codes "012" ++ codes "50"));
      })
      else none))
    × (digits_value (codes "012" ++ codes "50") < 10 ^ 5)
parse_decimal_literal_example = parse_decimal_literal_lem (codes "012") (codes "50") true refl refl
