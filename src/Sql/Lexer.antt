-- ===== src/Sql/Lexer.antt =====
-- src/sql/lexer.cc: `Lexer::Next` and `Tokenize`. `rest` is the text from `pos_` on, so the size
-- of the whole text is `pos` and the bytes of `rest`.
use antb.Prelude.{
  ℕ, zero, suc, ◌+◌, Bool, true, false, not, ◌&&◌, ◌||◌, ltb, ◌==◌, Option, none, some, List, [],
  ◌∷◌, length, take, drop, if◌then◌else◌,
}
use antb.Common.Int128.{Text}
use antb.Common.Utf8.{utf8_sequence_length}
use antb.Sql.Token.{
  TokenKind, identifier, quoted_identifier, string, integer, decimal, comma, left_paren,
  right_paren, semicolon, dot, double_colon, parameter, left_bracket, left_brace, end_of_input,
  Token, ErrorKind, syntax, unsupported, Message, unterminated_comment, unterminated_string,
  unterminated_identifier, empty_identifier, invalid_number, based_integer, digit_separators,
  non_ascii_name, unexpected_byte, ParseError, is_digit, is_ident_start, is_ident_char,
  is_operator_char, operator_kind,
}
use antb.Sql.Scan.{
  count_while, first_byte, first_is, Blank, blank, open_comment, out_of_fuel, skip_blank,
  is_based_literal, based_length, number_length, is_decimal, operator_length, trimmed, quoted,
}
pub mod Step
pub mod Progress

pub record Lexer : Type 0 where
  pub rest : Text
  pub pos : ℕ

pub data Lexed : Type 0 where
  token : Token → Lexed
  error : ParseError → Lexed

-- `emit`: a token of the next `n` bytes, and the lexer behind it.
abbrev pub emit : TokenKind → ℕ → ℕ → Text → Lexed × Lexer
emit kind n pos s = (
  token (record { kind = kind; text = take n s; offset = pos; length = n }),
  record { rest = drop n s; pos = pos + n },
)

-- An error over the next `n` bytes: the lexer is exhausted.
abbrev pub fail : ErrorKind → Message → ℕ → ℕ → Text → Lexed × Lexer
fail kind message n pos s = (
  error (record { kind = kind; message = message; offset = pos; length = n }),
  record { rest = []; pos = pos + length s },
)

-- What follows the digits of a number, `n` bytes in.
abbrev pub number_end : ℕ → Bool → ℕ → Text → Text → Lexed × Lexer
number_end n has_fraction pos s after =
    if not (first_is is_ident_start after)
    then emit (if has_fraction then decimal else integer) n pos s
    else if first_is (λ c. c == b'_') after && first_is is_digit (drop 1 after)
    then fail unsupported digit_separators (n + count_while (λ c. is_digit c || c == b'_') after)
        pos s
    else fail syntax invalid_number (n + 1) pos s

unfoldable pub number : ℕ → Text → Lexed × Lexer
number pos s =
    if is_based_literal s
    then fail unsupported based_integer (based_length s) pos s
    else number_end (number_length s) (is_decimal s) pos s (drop (number_length s) s)

abbrev pub is_empty : Text → Bool
is_empty [] = true
is_empty (_ ∷ _) = false

abbrev pub quoted_result : Bool → Option (Text × ℕ) → ℕ → Text → Lexed × Lexer
quoted_result is_string none pos s =
    fail syntax (if is_string then unterminated_string else unterminated_identifier) (length s) pos
      s
quoted_result is_string (some (value, n)) pos s =
    if not (is_empty value) || is_string
    then (
      token (record {
        kind = if is_string then string else quoted_identifier;
        text = value;
        offset = pos;
        length = 1 + n;
      }),
      record { rest = drop (1 + n) s; pos = pos + (1 + n) },
    )
    else fail syntax empty_identifier (1 + n) pos s

unfoldable pub quoted_token : ℕ → Text → Lexed × Lexer
quoted_token pos s = quoted_result (first_byte s == b'\'') (quoted (first_byte s) (drop 1 s)) pos s

unfoldable pub operator_token : ℕ → Text → Lexed × Lexer
operator_token pos s =
    let op = trimmed (take (1 + operator_length (drop 1 s)) s) in
    emit (operator_kind op) (length op) pos s

abbrev pub unexpected : ℕ → ℕ → Text → Lexed × Lexer
unexpected len pos s =
    if ltb 0 len
    then fail unsupported non_ascii_name len pos s
    else fail syntax (unexpected_byte (first_byte s)) 1 pos s

unfoldable pub punctuation : ℕ → Text → Lexed × Lexer
punctuation pos s =
    let c = first_byte s in
    if c == b','
    then emit comma 1 pos s
    else if c == b'('
    then emit left_paren 1 pos s
    else if c == b')'
    then emit right_paren 1 pos s
    else if c == b';'
    then emit semicolon 1 pos s
    else if c == b'.'
    then emit dot 1 pos s
    else if c == b'['
    then emit left_bracket 1 pos s
    else if c == b'{'
    then emit left_brace 1 pos s
    else if c == b':' && first_byte (drop 1 s) == b':'
    then emit double_colon 2 pos s
    else if c == b'$'
    then emit parameter (1 + count_while is_ident_char (drop 1 s)) pos s
    else unexpected (utf8_sequence_length s) pos s

-- What follows the whitespace and comments.
unfoldable pub scan : ℕ → Text → Lexed × Lexer
scan pos [] = emit end_of_input 0 pos []
scan pos (c ∷ cs) =
    if is_ident_start c
    then emit identifier (count_while is_ident_char (c ∷ cs)) pos (c ∷ cs)
    else if is_digit c || (c == b'.' && is_digit (first_byte cs))
    then number pos (c ∷ cs)
    else if c == b'\'' || c == b'"'
    then quoted_token pos (c ∷ cs)
    else if is_operator_char c
    then operator_token pos (c ∷ cs)
    else punctuation pos (c ∷ cs)

abbrev pub after_blank : Blank → Lexer → Option (Lexed × Lexer)
after_blank (blank n) l = some (scan (l.pos + n) (drop n l.rest))
after_blank (open_comment n) l =
    some (fail syntax unterminated_comment (length (drop n l.rest)) (l.pos + n) (drop n l.rest))
after_blank out_of_fuel l = none

-- `none` means that the fuel ran out: a round of the loop passes a byte at least.
unfoldable pub next : Lexer → Option (Lexed × Lexer)
next l = after_blank (skip_blank (suc (length l.rest)) l.rest) l

pub data Tokens : Type 0 where
  tokens : List Token → Tokens
  failed : ParseError → Tokens

abbrev pub prepend : Token → Option Tokens → Option Tokens
prepend t none = none
prepend t (some (tokens ts)) = some (tokens (t ∷ ts))
prepend t (some (failed e)) = some (failed e)

abbrev pub is_end : TokenKind → Bool
is_end end_of_input = true
is_end _ = false

-- The loop of `Tokenize`, a token for each unit of fuel.
unfoldable pub tokens_from : ℕ → Lexer → Option Tokens
tokens_from zero l = none
tokens_from (suc f) l = elim (next l) [
  | none ↦ none
  | some (error e, l') ↦ some (failed e)
  | some (token t, l') ↦ elim (is_end t.kind) [
    | true ↦ some (tokens (t ∷ []))
    | false ↦ prepend t (tokens_from f l')
  ]
]

unfoldable pub tokenize : Text → Option Tokens
tokenize text = tokens_from (suc (length text)) (record { rest = text; pos = 0 })
