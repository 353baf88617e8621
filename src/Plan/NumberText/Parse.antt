-- ===== src/Plan/NumberText/Parse.antt =====
-- src/plan/literal.cc: what `ParseExactNumber` reads.
use antb.Prelude.{
  ℕ, ◌+◌, ◌-◌, ◌<◌, min, not, ◌==◌, ◌⊎◌, ap, ◌*◌, ◌^◌, ◌≡◌, refl, ◌∙◌, Bool, true, false, ◌&&◌,
  some, [], ◌∷◌, ◌++◌, length, take-append, drop-append, arith,
}
use antb.Prelude.Int.{ℤ, pos, neg, pos_part, neg_part, ◌+ℤ◌, ◌-ℤ◌}
use antb.Common.Int128.{Text}
use antb.Sql.Token.{is_digit}
use antb.Sql.Scan.{count_while, first_is}
use antb.Plan.FoldComparison.{ExactNumber, signed}
use antb.Plan.NumberText.{
  digits_value, digits_from, digits, after_digits, all_digits, is_empty, number_of, exponent_from,
  exponent_digits, is_exponent_letter, exponent_of, from_parts, parse_exact_number,
}
use antb.Plan.NumberText.Value.{Denotes, number_of-Denotes}
use antb.Plan.NumberText.Negative.{number_of-negative}

-- The digits of a text that goes on without a digit.
count_while-digits :
    (s rest : Text)
    → all_digits s ≡ true
    → first_is is_digit rest ≡ false
    → count_while is_digit (s ++ rest) ≡ length s
unfolding count_while
count_while-digits [] [] d h = refl
count_while-digits [] (c ∷ cs) d h = rw h refl
count_while-digits (c ∷ cs) rest d h = ground (arith, count_while-digits cs rest)

pub all_digits-append :
    (s t : Text) → all_digits s ≡ true → all_digits t ≡ true → all_digits (s ++ t) ≡ true
all_digits-append [] t d e = e
all_digits-append (c ∷ cs) t d e = ground (arith, all_digits-append cs t)

module _ (integer_part fraction_part rest : Text) (negative : Bool) (shift : ℤ)
    (d : all_digits integer_part ≡ true) (e : all_digits fraction_part ≡ true)
    (h : first_is is_digit rest ≡ false) where
  pub parsed :
      parse_exact_number (integer_part ++ b'.' ∷ (fraction_part ++ rest)) negative shift
      ≡ from_parts integer_part fraction_part rest negative shift
  unfolding parse_exact_number
  parsed =
      rw
        (
          count_while-digits integer_part (b'.' ∷ (fraction_part ++ rest)) d refl,
          take-append integer_part (b'.' ∷ (fraction_part ++ rest)),
          drop-append integer_part (b'.' ∷ (fraction_part ++ rest)),
          count_while-digits fraction_part rest e h,
          take-append fraction_part rest,
          drop-append fraction_part rest,
        )
        refl

-- `e` or `E`.
abbrev pub IsLetter : ℕ → Type 0
IsLetter c = (c ≡ b'e') ⊎ (c ≡ b'E')

-- What may follow the digits: nothing, or a letter, a sign or none, and digits; those stand for their
-- number, at most 10^9.
pub data Exponent : Text → ℤ → Type 0 where
  absent : Exponent [] (pos 0)
  unsigned :
      (c : ℕ) (ds : Text)
      → IsLetter c
      → 0 < length ds
      → all_digits ds ≡ true
      → Exponent (c ∷ ds) (pos (min (digits_value ds) (10 ^ 9)))
  plus :
      (c : ℕ) (ds : Text)
      → IsLetter c
      → 0 < length ds
      → all_digits ds ≡ true
      → Exponent (c ∷ b'+' ∷ ds) (pos (min (digits_value ds) (10 ^ 9)))
  minus :
      (c : ℕ) (ds : Text)
      → IsLetter c
      → 0 < length ds
      → all_digits ds ≡ true
      → Exponent (c ∷ b'-' ∷ ds) (neg (min (digits_value ds) (10 ^ 9)))

digits-all : (ds : Text) → all_digits ds ≡ true → (digits ds ≡ ds) × (after_digits ds ≡ [])
unfolding count_while
digits-all [] d = (refl, refl)
digits-all (c ∷ cs) d =
    let (e, f) = digits-all cs (ground (arith, d)) in
    let digit : is_digit c ≡ true = ground (arith, d) in rw digit (ap (λ s. c ∷ s) e, f)

exponent_from-min :
    (v : ℕ) (ds : Text) → exponent_from (min v (10 ^ 9)) ds ≡ min (digits_from v ds) (10 ^ 9)
exponent_from-min v [] = refl
exponent_from-min v (c ∷ cs) =
    ap (λ n. exponent_from n cs) (omega arith) ∙ exponent_from-min (v * 10 + (c - b'0')) cs

exponent_digits-all :
    (negative : Bool) (ds : Text)
    → 0 < length ds
    → all_digits ds ≡ true
    → exponent_digits negative ds ≡ some (signed negative (min (digits_value ds) (10 ^ 9)))
exponent_digits-all negative [] l d = ground (arith, l)
exponent_digits-all negative (c ∷ cs) l d =
    let (e, f) = digits-all (c ∷ cs) d in
    rw (e, f) (ap (λ n. some (signed negative n)) (exponent_from-min 0 (c ∷ cs)))

Exponent-exponent_of :
    (rest : Text) (exponent : ℤ) → Exponent rest exponent → exponent_of rest ≡ some exponent
Exponent-exponent_of rest exponent absent = refl
Exponent-exponent_of rest exponent (unsigned c [] h l d) = ground (arith, l)
Exponent-exponent_of rest exponent (unsigned c (k ∷ ks) h l d) =
    let letter : is_exponent_letter c ≡ true = ground (arith, h) in
    let no_minus : (k == b'-') ≡ false = ground (arith, d) in
    let no_plus : (k == b'+') ≡ false = ground (arith, d) in
    rw (letter, no_minus, no_plus) (exponent_digits-all false (k ∷ ks) l d)
Exponent-exponent_of rest exponent (plus c ds h l d) =
    let letter : is_exponent_letter c ≡ true = ground (arith, h) in
    rw letter (exponent_digits-all false ds l d)
Exponent-exponent_of rest exponent (minus c ds h l d) =
    let letter : is_exponent_letter c ≡ true = ground (arith, h) in
    rw letter (exponent_digits-all true ds l d)

no_digit : (c : ℕ) → IsLetter c → is_digit c ≡ false
no_digit c h = ground (arith, h)

Exponent-first :
    (rest : Text) (exponent : ℤ) → Exponent rest exponent → first_is is_digit rest ≡ false
Exponent-first rest exponent absent = refl
Exponent-first rest exponent (unsigned c ds h l d) = no_digit c h
Exponent-first rest exponent (plus c ds h l d) = no_digit c h
Exponent-first rest exponent (minus c ds h l d) = no_digit c h

-- Digits with a point among or around them, and then nothing or an exponent, are read, and the number
-- is the value of the digits at the exponent, less the digits behind the point: huge exactly from
-- 10^38 on, and else its whole part and a flag for a rest; it is negative if the literal is and the
-- digits are not all 0.
pub parse_exact_number-Denotes :
    (integer_part fraction_part rest : Text) (negative : Bool) (shift exponent : ℤ)
    → all_digits integer_part ≡ true
    → all_digits fraction_part ≡ true
    → Exponent rest exponent
    → (is_empty integer_part && is_empty fraction_part) ≡ false
    → (n : ExactNumber) × (parse_exact_number
          (integer_part ++ b'.' ∷ (fraction_part ++ rest))
          negative
          shift
        ≡ some n)
      × (n.negative ≡ (negative && not (digits_value (integer_part ++ fraction_part) == 0)))
      × Denotes n
          (digits_value (integer_part ++ fraction_part)
            * 10 ^ pos_part (exponent +ℤ shift -ℤ pos (length fraction_part)))
          (10 ^ neg_part (exponent +ℤ shift -ℤ pos (length fraction_part)))
parse_exact_number-Denotes integer_part fraction_part rest negative shift exponent d e x
      some_digit =
    (
      number_of negative integer_part fraction_part (exponent +ℤ shift),
      parsed integer_part fraction_part rest negative shift d e (Exponent-first rest exponent x)
          ∙ rw (some_digit, Exponent-exponent_of rest exponent x) refl,
      number_of-negative negative integer_part fraction_part (exponent +ℤ shift)
          (all_digits-append integer_part fraction_part d e),
      number_of-Denotes negative integer_part fraction_part (exponent +ℤ shift)
          (all_digits-append integer_part fraction_part d e),
    )
