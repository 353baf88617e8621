-- ===== src/Sql/Token.antt =====
-- src/sql/include/antb1/sql/token.h, error.h and the character classes of src/sql/lexer.cc. A
-- message is a name for its text.
use antb.Prelude.{ℕ, ◌-◌, Bool, true, false, ◌&&◌, ◌||◌, leb, ◌==◌, [], ◌∷◌, if◌then◌else◌}
use antb.Common.Int128.{Text}

pub data TokenKind : Type 0 where
  identifier quoted_identifier string integer decimal star comma left_paren right_paren semicolon
        dot plus minus slash :
      TokenKind
  percent equal not_equal less less_equal greater greater_equal double_colon concat operator
        parameter :
      TokenKind
  left_bracket left_brace end_of_input : TokenKind

pub record Token : Type 0 where
  pub kind : TokenKind
  pub text : Text
  pub offset : ℕ
  pub length : ℕ

pub data ErrorKind : Type 0 where
  syntax unsupported : ErrorKind

pub data Message : Type 0 where
  unterminated_comment unterminated_string unterminated_identifier empty_identifier invalid_number :
      Message
  based_integer digit_separators non_ascii_name : Message
  unexpected_byte : ℕ → Message

pub record ParseError : Type 0 where
  pub kind : ErrorKind
  pub message : Message
  pub offset : ℕ
  pub length : ℕ

abbrev pub is_digit : ℕ → Bool
is_digit c = leb b'0' c && leb c b'9'

abbrev is_ascii_alpha : ℕ → Bool
is_ascii_alpha c = (leb b'a' c && leb c b'z') || (leb b'A' c && leb c b'Z')

abbrev pub is_ident_start : ℕ → Bool
is_ident_start c = is_ascii_alpha c || c == b'_'

abbrev pub is_ident_char : ℕ → Bool
is_ident_char c = is_ident_start c || is_digit c

abbrev pub is_newline : ℕ → Bool
is_newline c = c == 10 || c == 13

-- ' ', \t, \n, \r, \v and \f.
abbrev pub is_space : ℕ → Bool
is_space c = c == 32 || (leb 9 c && leb c 13)

abbrev pub ascii_upper : ℕ → ℕ
ascii_upper c = if leb b'a' c && leb c b'z' then c - 32 else c

abbrev contains : Text → ℕ → Bool
contains [] c = false
contains (x ∷ xs) c = (x == c) || contains xs c

abbrev non_sql_operator_chars : Text
non_sql_operator_chars = b'~' ∷ b'!' ∷ b'@' ∷ b'#' ∷ b'^' ∷ b'&' ∷ b'|' ∷ b'`' ∷ b'?' ∷ b'%' ∷ []

abbrev operator_chars : Text
operator_chars =
    b'~' ∷ b'!' ∷ b'@' ∷ b'#' ∷ b'^' ∷ b'&' ∷ b'|' ∷ b'`' ∷ b'?' ∷ b'+' ∷ b'-' ∷ b'*' ∷ b'/' ∷ b'%'
    ∷ b'<' ∷ b'>' ∷ b'=' ∷ []

unfoldable pub is_operator_char : ℕ → Bool
is_operator_char c = contains operator_chars c

unfoldable pub is_non_sql_operator_char : ℕ → Bool
is_non_sql_operator_char c = contains non_sql_operator_chars c

abbrev pub is_sign : ℕ → Bool
is_sign c = c == b'+' || c == b'-'

unfoldable pub is_digit_of_base : ℕ → ℕ → Bool
is_digit_of_base c base =
    let b = ascii_upper base in
    if b == b'X'
    then is_digit c || (leb b'A' (ascii_upper c) && leb (ascii_upper c) b'F')
    else if b == b'O'
    then leb b'0' c && leb c b'7'
    else c == b'0' || c == b'1'

abbrev operator_of_char : ℕ → TokenKind
operator_of_char c =
    if c == b'*'
    then star
    else if c == b'+'
    then plus
    else if c == b'-'
    then minus
    else if c == b'/'
    then slash
    else if c == b'%'
    then percent
    else if c == b'='
    then equal
    else if c == b'<'
    then less
    else if c == b'>'
    then greater
    else operator

abbrev operator_of_pair : ℕ → ℕ → TokenKind
operator_of_pair c d =
    if (c == b'<' && d == b'>') || (c == b'!' && d == b'=')
    then not_equal
    else if c == b'<' && d == b'='
    then less_equal
    else if c == b'>' && d == b'='
    then greater_equal
    else if c == b'|' && d == b'|'
    then concat
    else operator

unfoldable pub operator_kind : Text → TokenKind
operator_kind (c ∷ []) = operator_of_char c
operator_kind (c ∷ d ∷ []) = operator_of_pair c d
operator_kind _ = operator

abbrev same_letters : Text → Text → Bool
same_letters [] [] = true
same_letters (x ∷ xs) (y ∷ ys) = (ascii_upper x == ascii_upper y) && same_letters xs ys
same_letters _ _ = false

abbrev is_identifier : TokenKind → Bool
is_identifier identifier = true
is_identifier _ = false

unfoldable pub is_keyword : Token → Text → Bool
is_keyword t keyword = is_identifier t.kind && same_letters t.text keyword
