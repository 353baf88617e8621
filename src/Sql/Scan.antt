-- ===== src/Sql/Scan.antt =====
-- The loops of `Lexer::Next` in src/sql/lexer.cc. Each reads the text that follows a position, and
-- gives the number of bytes that it passes.
use antb.Prelude.{
  ℕ, zero, suc, ◌+◌, ◌-◌, Bool, true, false, not, ◌&&◌, ◌||◌, ltb, ◌==◌, Option, none, some, [],
  ◌∷◌, drop, if◌then◌else◌,
}
use antb.Common.Int128.{Text}
use antb.Sql.Token.{
  is_digit, is_ident_char, is_newline, is_space, ascii_upper, is_sign, is_operator_char,
  is_non_sql_operator_char, is_digit_of_base,
}
pub mod Bounds

unfoldable pub count_while : (ℕ → Bool) → Text → ℕ
count_while p [] = 0
count_while p (c ∷ cs) = let more = suc (count_while p cs) in if p c then more else 0

-- The byte at the position, and 0 at the end.
abbrev pub first_byte : Text → ℕ
first_byte [] = 0
first_byte (c ∷ cs) = c

-- `i < n && p(text[i])`.
abbrev pub first_is : (ℕ → Bool) → Text → Bool
first_is p [] = false
first_is p (c ∷ cs) = p c

-- `text.substr(i, 2)` is these two bytes.
abbrev pub starts_pair : ℕ → ℕ → Text → Bool
starts_pair a b (c ∷ d ∷ cs) = c == a && d == b
starts_pair a b _ = false

abbrev pub opens_comment : Text → Bool
opens_comment s = starts_pair b'/' b'*' s

abbrev pub closes_comment : Text → Bool
closes_comment s = starts_pair b'*' b'/' s

abbrev pub advance : ℕ → Option ℕ → Option ℕ
advance n none = none
advance n (some m) = some (n + m)

-- The loop of a block comment from a depth on: to behind the end that closes it, if there is one.
unfoldable pub block_length : ℕ → Text → Option ℕ
block_length depth [] = none
block_length depth (c ∷ []) = none
block_length depth (c ∷ d ∷ cs) =
    let deeper = advance 2 (block_length (depth + 1) cs) in
    let shallower = advance 2 (block_length (depth - 1) cs) in
    let on = advance 1 (block_length depth (d ∷ cs)) in
    if opens_comment (c ∷ d ∷ cs)
    then deeper
    else if not (closes_comment (c ∷ d ∷ cs))
    then on
    else if depth == 1
    then some 2
    else shallower

unfoldable pub line_comment_length : Text → ℕ
unfolding count_while
line_comment_length s = 2 + count_while (λ c. not (is_newline c)) (drop 2 s)

-- Where the loop over whitespace and comments stops: at a token or the end, at a comment that is
-- not closed, or out of fuel.
pub data Blank : Type 0 where
  blank open_comment : ℕ → Blank
  out_of_fuel : Blank

abbrev pub past : ℕ → Blank → Blank
past n (blank m) = blank (n + m)
past n (open_comment m) = open_comment (n + m)
past n out_of_fuel = out_of_fuel

unfoldable pub skip_blank : ℕ → Text → Blank
unfolding line_comment_length block_length
skip_blank zero s = out_of_fuel
skip_blank (suc f) [] = blank 0
skip_blank (suc f) (c ∷ cs) =
    let after_space = past 1 (skip_blank f cs) in
    let line = line_comment_length (c ∷ cs) in
    let after_line = past line (skip_blank f (drop line (c ∷ cs))) in
    let after_block : Blank = elim (block_length 0 (c ∷ cs)) [
      | none ↦ open_comment 0
      | some n ↦ past n (skip_blank f (drop n (c ∷ cs)))
    ] in
    if is_space c
    then after_space
    else if starts_pair b'-' b'-' (c ∷ cs)
    then after_line
    else if opens_comment (c ∷ cs)
    then after_block
    else blank 0

-- A based literal, 0x1F: the digit, the letter of the base and one digit of it.
abbrev is_base : ℕ → Bool
is_base b = (b == b'X' || b == b'O') || b == b'B'

unfoldable pub is_based_literal : Text → Bool
unfolding is_digit_of_base
is_based_literal (c ∷ d ∷ e ∷ cs) = (c == b'0' && is_base (ascii_upper d)) && is_digit_of_base e d
is_based_literal _ = false

unfoldable pub based_length : Text → ℕ
unfolding count_while
based_length s = 2 + count_while is_ident_char (drop 2 s)

-- The digits and the fraction of a number.
abbrev pub has_point : Text → Bool
has_point s = first_is (λ c. c == b'.') s

unfoldable pub fraction_length : Text → ℕ
unfolding count_while
fraction_length s = if has_point s then 1 + count_while is_digit (drop 1 s) else 0

abbrev sign_length : Text → ℕ
sign_length s = if first_is is_sign s then 1 else 0

abbrev digits_behind : ℕ → Text → ℕ
digits_behind n s = if first_is is_digit s then n + count_while is_digit s else 0

-- An exponent counts only with a digit behind its sign.
unfoldable pub exponent_length : Text → ℕ
unfolding count_while
exponent_length s =
    if first_is (λ c. c == b'e' || c == b'E') s
    then digits_behind (1 + sign_length (drop 1 s)) (drop (1 + sign_length (drop 1 s)) s)
    else 0

-- Where the exponent may stand, and the whole number.
unfoldable pub mantissa_length : Text → ℕ
unfolding count_while
mantissa_length s = count_while is_digit s + fraction_length (drop (count_while is_digit s) s)

unfoldable pub number_length : Text → ℕ
number_length s = mantissa_length s + exponent_length (drop (mantissa_length s) s)

-- `decimal` of a number: it has a point or an exponent.
unfoldable pub is_decimal : Text → Bool
unfolding count_while
is_decimal s =
    has_point (drop (count_while is_digit s) s)
    || ltb 0 (exponent_length (drop (mantissa_length s) s))

-- The characters of an operator behind its first: no comment starts in them.
unfoldable pub operator_length : Text → ℕ
unfolding is_operator_char
operator_length [] = 0
operator_length (c ∷ cs) =
    let more = suc (operator_length cs) in
    if is_operator_char c && not (starts_pair b'-' b'-' (c ∷ cs)) && not (opens_comment (c ∷ cs))
    then more
    else 0

abbrev pub none_non_sql : Text → Bool
none_non_sql [] = true
none_non_sql (c ∷ cs) = not (is_non_sql_operator_char c) && none_non_sql cs

abbrev pub keep_unless : Bool → ℕ → Text → Text
keep_unless drops c [] = if drops then [] else c ∷ []
keep_unless drops c (d ∷ ds) = c ∷ d ∷ ds

-- The loop that removes signs from the back.
unfoldable pub without_signs : Text → Text
without_signs [] = []
without_signs (c ∷ cs) = keep_unless (is_sign c) c (without_signs cs)

-- The first character stays. The guard that the last one is a sign is the loop's own test.
unfoldable pub trimmed : Text → Text
unfolding without_signs is_non_sql_operator_char
trimmed [] = []
trimmed (c ∷ cs) = if none_non_sql (c ∷ cs) then c ∷ without_signs cs else c ∷ cs

-- A quoted text behind its first quote: the text, and the bytes to behind the closing quote.
abbrev pub keep : ℕ → ℕ → Option (Text × ℕ) → Option (Text × ℕ)
keep c n none = none
keep c n (some (value, m)) = some (c ∷ value, n + m)

unfoldable pub quoted : ℕ → Text → Option (Text × ℕ)
quoted quote [] = none
quoted quote (c ∷ []) = if c == quote then some ([], 1) else none
quoted quote (c ∷ d ∷ cs) =
    let doubled = keep quote 2 (quoted quote cs) in
    let on = keep c 1 (quoted quote (d ∷ cs)) in
    if not (c == quote) then on else if d == quote then doubled else some ([], 1)
