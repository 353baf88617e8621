-- ===== src/Tests/Sql.antt =====
-- The lexer on small texts.
use Prim.Native.Char.{code}
use Prim.Native.String.{String}
use antb.Prelude.{drop, length, ◌++◌, inl, arith, ℕ, ◌≡◌, refl, Option, some, [], ◌∷◌}
use antb.Common.Int128.{Text}
use antb.Sql.Token.{
  identifier, string, less_equal, minus, integer, decimal, end_of_input, Token, TokenKind,
  operator_kind, is_digit_of_base,
}
use antb.Common.Utf8.{utf8_sequence_length}
use antb.Sql.Scan.{
  skip_blank, line_comment_length, block_length, is_based_literal, based_length, count_while,
  number_length, mantissa_length, fraction_length, exponent_length, is_decimal, operator_length,
  trimmed, quoted,
}
use antb.Sql.Quote.{quote}
use antb.Sql.Quote.RoundTrip.{next-quote, quoted_lexed}
use antb.Sql.Lexer.Progress.{Moves, next-Moves, Splits, tokenize-Splits}
use antb.Sql.Lexer.{
  Lexer, Lexed, tokens_from, next, scan, number, quoted_token, operator_token, punctuation, Tokens,
  tokens, tokenize,
}

abbrev pub codes : String → Text
codes String.[] = []
codes (String.◌∷◌ c s) = code c ∷ codes s

abbrev tok : TokenKind → String → ℕ → ℕ → Token
tok k s o n = record { kind = k; text = codes s; offset = o; length = n }

-- Every definition that the lexer calls.
lexer : Text → Option Tokens
unfolding tokenize tokens_from next skip_blank scan number quoted_token operator_token punctuation
    line_comment_length block_length is_based_literal based_length count_while number_length
    mantissa_length fraction_length exponent_length is_decimal operator_length trimmed quoted
    operator_kind is_digit_of_base utf8_sequence_length
lexer = tokenize

lexed :
    tokenize (codes "a<=-1 /* /*x*/ -- */ 'it''s' .5e3--")
    ≡ some (
        tokens (
          tok identifier "a" 0 1
          ∷ tok less_equal "<=" 1 2
          ∷ tok minus "-" 3 1
          ∷ tok integer "1" 4 1
          ∷ tok string "it's" 21 7
          ∷ tok decimal ".5e3" 29 4
          ∷ tok end_of_input "" 35 0
          ∷ []))
unfolding lexer
lexed = refl

-- A text of two tokens, a blank between them and the end.
abbrev short : Text
short = codes "a 1"

next-Moves_example :
    (r : Lexed × Lexer) × (next (record { rest = drop 1 short; pos = 1 }) ≡ some r)
    × Moves short (record { rest = drop 1 short; pos = 1 }) r
next-Moves_example =
    next-Moves short (record { rest = drop 1 short; pos = 1 })
      (record { rest = refl; within = omega arith })

tokenize-Splits_example : (r : Tokens) × (tokenize short ≡ some r) × Splits short 0 r
tokenize-Splits_example = tokenize-Splits short

next-quote_example :
    next (record { rest = quote (codes "it's") b'\'' ++ codes " x"; pos = 4 })
    ≡ some (quoted_lexed string (codes "it's") (length (quote (codes "it's") b'\'')) 4 (codes " x"))
next-quote_example = next-quote b'\'' (codes "it's") (codes " x") 4 (inl refl) refl refl
