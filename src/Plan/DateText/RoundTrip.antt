-- ===== src/Plan/DateText/RoundTrip.antt =====
-- src/plan/literal.cc: `FormatDate` writes the text that `ParseDate` read.
use antb.Prelude.{
  ℕ, ◌+◌, ◌-◌, ◌*◌, ◌/◌, ◌%◌, ◌≤◌, ◌<◌, ◌≡◌, refl, ap, ap₂, sym, ==_iff, drop, ◌∙◌, Bool, true,
  false, not, ◌||◌, ◌==◌, Option, none, some, [], ◌∷◌, take, length, arith, if◌then◌else◌,
}
use mathlib.Core.Option.{some-injective}
use antb.Prelude.Int.{ℤ}
use antb.Common.Int128.{Text}
use antb.Plan.NumberText.{digits_value, all_digits}
use antb.Plan.DateText.{is_date, sys_days, parse_date, padded, format_date, byte_at, field, date_of}
use antb.Plan.DateText.Calendar.{written_date, format_date-sys_days}

padded-two : (n : ℕ) → n < 100 → padded 2 n ≡ (b'0' + n / 10) ∷ (b'0' + n % 10) ∷ []
unfolding padded
padded-two n h = ground arith

padded-four :
    (n : ℕ)
    → n < 10_000
    → padded 4 n
      ≡ (b'0' + n / 1000) ∷ (b'0' + n / 100 % 10) ∷ (b'0' + n / 10 % 10) ∷ (b'0' + n % 10) ∷ []
unfolding padded
padded-four n h = ground arith

padded-digits_two :
    (a b : ℕ) → all_digits (a ∷ b ∷ []) ≡ true → padded 2 (digits_value (a ∷ b ∷ [])) ≡ a ∷ b ∷ []
padded-digits_two a b h = ground (arith, padded-two ((0 * 10 + (a - b'0')) * 10 + (b - b'0')))

padded-digits_four :
    (a b c d : ℕ)
    → all_digits (a ∷ b ∷ c ∷ d ∷ []) ≡ true
    → padded 4 (digits_value (a ∷ b ∷ c ∷ d ∷ [])) ≡ a ∷ b ∷ c ∷ d ∷ []
padded-digits_four a b c d h = ground (
  arith,
  padded-four ((((0 * 10 + (a - b'0')) * 10 + (b - b'0')) * 10 + (c - b'0')) * 10 + (d - b'0')),
)

-- What a date that is read says of its fields.
field-some : (s : Text) (n : ℕ) → field s ≡ some n → (all_digits s ≡ true) × (digits_value s ≡ n)
field-some s n = of_test (all_digits s)
  where
    of_test :
        (b : Bool)
        → (if b then some (digits_value s) else none) ≡ some n
        → (b ≡ true) × (digits_value s ≡ n)
    of_test true e = (refl, some-injective _ _ e)
    of_test false e = cc

date_of-some :
    (oy om od : Option ℕ) (days : ℤ)
    → date_of oy om od ≡ some days
    → (y : ℕ) × (m : ℕ) × (d : ℕ) × (oy ≡ some y)
      × (om ≡ some m)
      × (od ≡ some d)
      × (is_date y m d ≡ true)
      × (sys_days y m d ≡ days)
date_of-some none om od days e = cc
date_of-some (some y) none od days e = cc
date_of-some (some y) (some m) none days e = cc
date_of-some (some y) (some m) (some d) days e = of_test (is_date y m d) refl e
  where
    Fields : Type 0
    Fields =
        (y' : ℕ) × (m' : ℕ) × (d' : ℕ) × (some y ≡ some y')
        × (some m ≡ some m')
        × (some d ≡ some d')
        × (is_date y' m' d' ≡ true)
        × (sys_days y' m' d' ≡ days)

    of_test :
        (b : Bool)
        → is_date y m d ≡ b
        → (if b then some (sys_days y m d) else none) ≡ some days
        → Fields
    of_test true v e = (y, m, d, refl, refl, refl, v, some-injective _ _ e)
    of_test false v e = cc

if-some {ℓ} :
    {A : Type ℓ} (b : Bool) (x : Option A) (v : A)
    → (if b then none else x) ≡ some v
    → (b ≡ false) × (x ≡ some v)
if-some true x v e = cc
if-some false x v e = (refl, e)

separators :
    (n : ℕ) (x y : Bool)
    → (not (n == 10) || (not x || not y)) ≡ false
    → (n ≡ 10) × (x ≡ true) × (y ≡ true)
separators n x y e = ground arith

parse_date-some :
    (s : Text) (days : ℤ)
    → parse_date s ≡ some days
    → (length s ≡ 10)
      × ((byte_at 4 s == b'-') ≡ true)
      × ((byte_at 7 s == b'-') ≡ true)
      × (date_of (field (take 4 s)) (field (take 2 (drop 5 s))) (field (take 2 (drop 8 s)))
          ≡ some days)
unfolding parse_date
parse_date-some s days p =
    let q = if-some _ _ days p in
    let r = separators (length s) (byte_at 4 s == b'-') (byte_at 7 s == b'-') q.0 in
    (r.0, r.1, r.2, q.1)

-- A written date of three fields that were read.
written-fields :
    (a b c d f g i j y m n : ℕ)
    → field (a ∷ b ∷ c ∷ d ∷ []) ≡ some y
    → field (f ∷ g ∷ []) ≡ some m
    → field (i ∷ j ∷ []) ≡ some n
    → written_date y m n ≡ a ∷ b ∷ c ∷ d ∷ b'-' ∷ f ∷ g ∷ b'-' ∷ i ∷ j ∷ []
written-fields a b c d f g i j y m n p q r =
    let year = field-some (a ∷ b ∷ c ∷ d ∷ []) y p in
    let month = field-some (f ∷ g ∷ []) m q in
    let day = field-some (i ∷ j ∷ []) n r in
    rw
      (
        ← year.1,
        ← month.1,
        ← day.1,
        padded-digits_four a b c d year.0,
        padded-digits_two f g month.0,
        padded-digits_two i j day.0,
      )
      refl

four_digits-le :
    (a b c d : ℕ)
    → all_digits (a ∷ b ∷ c ∷ d ∷ []) ≡ true
    → digits_value (a ∷ b ∷ c ∷ d ∷ []) ≤ 9999
four_digits-le a b c d h = ground arith

-- A date from year 1 on is written as it was read.
pub format_date-parse_date :
    (s : Text) (days : ℤ)
    → parse_date s ≡ some days
    → 1 ≤ digits_value (take 4 s)
    → format_date days ≡ s
format_date-parse_date (a ∷ b ∷ c ∷ d ∷ e ∷ f ∷ g ∷ h ∷ i ∷ j ∷ []) days p l =
    let (_, minus, minus', of) = parse_date-some _ days p in
    let (y, m, n, py, pm, pn, valid, sum) =
      date_of-some (field (a ∷ b ∷ c ∷ d ∷ [])) (field (f ∷ g ∷ [])) (field (i ∷ j ∷ [])) days of in
    let (digits, year) = field-some (a ∷ b ∷ c ∷ d ∷ []) y py in
    ap format_date (sym sum)
    ∙ format_date-sys_days y m n (rw (← year) l) (rw (← year) (four_digits-le a b c d digits)) valid
    ∙ written-fields a b c d f g i j y m n py pm pn
    ∙ ap₂ (λ v w. a ∷ b ∷ c ∷ d ∷ v ∷ f ∷ g ∷ w ∷ i ∷ j ∷ []) (sym ((==_iff e b'-').0 minus))
        (sym ((==_iff h b'-').0 minus'))
format_date-parse_date s days p l = absurd (omega (arith, (parse_date-some s days p).0))
