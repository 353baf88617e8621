-- ===== src/Plan/NumberText/Decimal.antt =====
-- src/plan/literal.cc: what `ParseDecimalLiteral` reads.
use antb.Prelude.{
  ℕ, suc, ◌+◌, ◌-◌, ◌^◌, ◌<◌, ◌≡◌, refl, sym, ◌∙◌, ap, Bool, true, false, not, ◌&&◌, ◌||◌, ltb, leb,
  lt→ltb, ◌==◌, max, some, none, [], ◌∷◌, ◌++◌, length, length-append, take-append, drop-append,
  if◌then◌else◌, arith,
}
use antb.Prelude.Int.{pos}
use antb.Common.Int128.{Text}
use antb.Sql.Token.{is_digit}
use antb.Sql.Scan.{count_while}
use antb.Plan.Types.{decimal_type}
use antb.Plan.FoldComparison.{signed}
use antb.Plan.NumberText.{
  digits_value, all_digits, is_exponent_letter, from_parts, parse_exact_number, any_byte, count_if,
  is_approximate_number, DecimalLiteral, is_some, decimal_parts, parse_decimal_literal,
  max_integer_digits,
}
use antb.Plan.NumberText.Digits.{digits_value-lt}
use antb.Plan.NumberText.Parse.{parsed, all_digits-append}

++-[] : (s : Text) → s ++ [] ≡ s
++-[] [] = refl
++-[] (c ∷ cs) = ap (λ (t : Text). c ∷ t) (++-[] cs)

no_exponent : (s : Text) → all_digits s ≡ true → any_byte is_exponent_letter s ≡ false
no_exponent [] d = refl
no_exponent (c ∷ cs) d = ground (arith, no_exponent cs)

no_exponent-point :
    (s t : Text)
    → all_digits s ≡ true
    → all_digits t ≡ true
    → any_byte is_exponent_letter (s ++ b'.' ∷ t) ≡ false
no_exponent-point [] t d e = no_exponent t e
no_exponent-point (c ∷ cs) t d e = ground (arith, no_exponent-point cs t)

has_point : (s t : Text) → any_byte (λ c. c == b'.') (s ++ b'.' ∷ t) ≡ true
has_point [] t = refl
has_point (c ∷ cs) t = ground (arith, has_point cs t)

count_digits : (s : Text) → all_digits s ≡ true → count_if is_digit s ≡ length s
count_digits [] d = refl
count_digits (c ∷ cs) d = ground (arith, count_digits cs)

count_digits-point :
    (s t : Text)
    → all_digits s ≡ true
    → all_digits t ≡ true
    → count_if is_digit (s ++ b'.' ∷ t) ≡ length s + length t
count_digits-point [] t d e = omega (arith, count_digits t e)
count_digits-point (c ∷ cs) t d e = ground (arith, count_digits-point cs t)

count_while-point :
    (s t : Text)
    → all_digits s ≡ true
    → count_while (λ c. not (c == b'.')) (s ++ b'.' ∷ t) ≡ length s
unfolding count_while
count_while-point [] t d = refl
count_while-point (c ∷ cs) t d = ground (arith, count_while-point cs t)

some_digit :
    (s t : Text) (negative : Bool)
    → is_some (from_parts s t [] negative (pos 0)) ≡ ltb 0 (length s + length t)
some_digit [] [] negative = refl
some_digit [] (c ∷ cs) negative = sym (lt→ltb 0 (0 + suc (length cs)) (omega arith))
some_digit (c ∷ cs) t negative = sym (lt→ltb 0 (suc (length cs) + length t) (omega arith))

max_pos : (n : ℕ) → 0 < n → max n 1 ≡ n
max_pos n h = omega arith

decided :
    {A : Type 0} (n : ℕ) (x y : A)
    → (0 < n → x ≡ y)
    → (if ltb 38 n || not (ltb 0 n) then none else some x)
      ≡ (if ltb 0 n && leb n 38 then some y else none)
decided n x y h = ground (arith, h)

module _ (ip fp : Text) (negative : Bool) (d : all_digits ip ≡ true)
    (e : all_digits fp ≡ true) where
  abbrev text : Text
  text = ip ++ b'.' ∷ fp

  abbrev count : ℕ
  count = length ip + length fp

  is_approximate : is_approximate_number text ≡ ltb max_integer_digits count
  unfolding is_approximate_number
  is_approximate =
      rw (no_exponent-point ip fp d e, has_point ip fp, count_digits-point ip fp d e) refl

  is_number : is_some (parse_exact_number text negative (pos 0)) ≡ ltb 0 count
  is_number =
      ap (λ (t : Text). is_some (parse_exact_number (ip ++ b'.' ∷ t) negative (pos 0)))
        (sym (++-[] fp))
      ∙ ap is_some (parsed ip fp [] negative (pos 0) d e refl)
      ∙ some_digit ip fp negative

  taken_apart : parse_decimal_literal text negative ≡ decimal_parts text ip (b'.' ∷ fp) negative
  unfolding parse_decimal_literal
  taken_apart =
      rw (count_while-point ip fp d, take-append ip (b'.' ∷ fp), drop-append ip (b'.' ∷ fp)) refl

  width : max (length text - 1) 1 ≡ max count 1
  width = omega (arith, length-append ip (b'.' ∷ fp))

  abbrev literal : DecimalLiteral
  literal = record {
    type = decimal_type count (length fp);
    unscaled = signed negative (digits_value (ip ++ fp));
  }

  -- Digits with a point among or around them are a decimal exactly if there are 1 to 38 of them, with
  -- their number as the width, those behind the point as the scale and the value of them all, which
  -- the width bounds.
  pub parse_decimal_literal_lem :
      (parse_decimal_literal text negative
        ≡ (if ltb 0 count && leb count 38 then some literal else none))
      × (digits_value (ip ++ fp) < 10 ^ count)
  parse_decimal_literal_lem = (
    taken_apart
        ∙ rw (is_approximate, is_number)
            (decided count _ literal λ h. rw (width, max_pos count h) refl),
    (let b = digits_value-lt (ip ++ fp) (all_digits-append ip fp d e) in
        rw (← length-append ip fp) b),
  )
