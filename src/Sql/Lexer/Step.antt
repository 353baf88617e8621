-- ===== src/Sql/Lexer/Step.antt =====
-- src/sql/lexer.cc, one call of `Lexer::Next` behind the whitespace: where its token stands.
use antb.Prelude.{
  ℕ, suc, ◌+◌, ◌≤◌, ◌<◌, ◌≡◌, refl, ◌⊎◌, inl, inr, Bool, true, false, not, ◌&&◌, ◌||◌, Option, none,
  some, [], ◌∷◌, length, length-drop, length-take, take, drop, arith, ltb, ◌==◌, if◌then◌else◌,
  if_elim, ltb→lt,
}
use Prim.Native.Nat.add
use antb.Common.Int128.{Text}
use antb.Common.Utf8.{utf8_sequence_length-within}
use antb.Sql.Token.{
  TokenKind, identifier, quoted_identifier, string, integer, decimal, comma, left_paren,
  right_paren, semicolon, dot, double_colon, parameter, left_bracket, left_brace, non_ascii_name,
  unexpected_byte, ErrorKind, syntax, unsupported, Message, unterminated_string,
  unterminated_identifier, empty_identifier, invalid_number, based_integer, digit_separators,
  is_operator_char, Token, is_digit, is_ident_start, is_ident_char, operator_kind,
}
use antb.Sql.Scan.{
  first_byte, first_is, is_based_literal, based_length, number_length, is_decimal, operator_length,
  trimmed, quoted,
}
use antb.Sql.Scan.Bounds.{
  count_while-le, count_while-pos, is_based_literal-length, number_length-le, number_length-pos,
  trimmed-le, trimmed-pos, WithinQuoted, quoted-Within,
}
use antb.Sql.Lexer.{
  Lexer, Lexed, token, error, emit, fail, number_end, number, quoted_result, quoted_token,
  operator_token, unexpected, punctuation, scan, is_end,
}

abbrev pub is_quoted : TokenKind → Bool
is_quoted string = true
is_quoted quoted_identifier = true
is_quoted _ = false

-- The end is a token without bytes behind the text, and any other token has bytes.
abbrev pub IsSized : Token → Text → Type 0
IsSized t s =
    ((is_end t.kind ≡ true) × (s ≡ []) × (t.length ≡ 0))
    ⊎ ((is_end t.kind ≡ false) × (0 < t.length))

-- What a scan of `s` at `pos` gives.
abbrev pub Scanned : ℕ → Text → Lexed × Lexer → Type 0
Scanned pos s (token t, l) =
    (t.offset ≡ pos)
    × (t.length ≤ length s)
    × (l.pos ≡ pos + t.length)
    × (l.rest ≡ drop t.length s)
    × (is_quoted t.kind ≡ false → t.text ≡ take t.length s)
    × IsSized t s
Scanned pos s (error e, l) =
    (e.offset ≡ pos)
    × (0 < e.length)
    × (e.length ≤ length s)
    × (l.rest ≡ [])
    × (l.pos ≡ pos + length s)

emit-Scanned :
    (kind : TokenKind) (n pos : ℕ) (s : Text)
    → is_end kind ≡ false
    → 0 < n
    → n ≤ length s
    → Scanned pos s (emit kind n pos s)
emit-Scanned kind n pos s e l u = (refl, u, refl, refl, λ _. refl, inr (e, l))

pub fail-Scanned :
    (kind : ErrorKind) (m : Message) (n pos : ℕ) (s : Text)
    → 0 < n
    → n ≤ length s
    → Scanned pos s (fail kind m n pos s)
fail-Scanned kind m n pos s l u = (refl, l, u, refl, refl)

number_end-Scanned :
    (n : ℕ) (d : Bool) (pos : ℕ) (s after : Text)
    → 0 < n
    → n + length after ≡ length s
    → Scanned pos s (number_end n d pos s after)
number_end-Scanned n d pos s [] l e =
    emit-Scanned (if d then decimal else integer) n pos s (ground arith) l (omega arith)
number_end-Scanned n d pos s (c ∷ cs) l e =
    if_elim (Scanned pos s) (not (is_ident_start c)) _ _
      (λ _. emit-Scanned (if d then decimal else integer) n pos s (ground arith) l (omega arith))
      λ _.
        if_elim (Scanned pos s) ((c == b'_') && first_is is_digit cs) _ _
          (λ _.
            fail-Scanned unsupported digit_separators _ pos s (omega arith)
              (omega (arith, count_while-le (λ c. is_digit c || c == b'_') (c ∷ cs))))
          (λ _. fail-Scanned syntax invalid_number _ pos s (omega arith) (omega arith))

number-Scanned :
    (pos c : ℕ) (cs : Text)
    → (is_digit c || (c == b'.' && is_digit (first_byte cs))) ≡ true
    → Scanned pos (c ∷ cs) (number pos (c ∷ cs))
unfolding number based_length
number-Scanned pos c cs h =
    if_elim (Scanned pos (c ∷ cs)) (is_based_literal (c ∷ cs)) _ _
      (λ e.
        fail-Scanned unsupported based_integer _ pos (c ∷ cs) (omega arith)
          (is_based_literal-length (c ∷ cs) e))
      λ _.
        number_end-Scanned (number_length (c ∷ cs)) (is_decimal (c ∷ cs)) pos (c ∷ cs)
          (drop (number_length (c ∷ cs)) (c ∷ cs)) (number_length-pos c cs h)
          (omega (arith, number_length-le (c ∷ cs), length-drop (number_length (c ∷ cs)) (c ∷ cs)))

quoted_token-Scanned : (pos c : ℕ) (cs : Text) → Scanned pos (c ∷ cs) (quoted_token pos (c ∷ cs))
unfolding quoted_token
quoted_token-Scanned pos c cs = result (c == b'\'') (quoted c cs) (quoted-Within c cs)
  where
    result :
        (is_string : Bool) (r : Option (Text × ℕ))
        → WithinQuoted cs r
        → Scanned pos (c ∷ cs) (quoted_result is_string r pos (c ∷ cs))
    result is_string none w =
        fail-Scanned syntax (if is_string then unterminated_string else unterminated_identifier) _
          pos (c ∷ cs) (omega arith) (omega arith)
    result true (some ([], n)) w =
        (refl, omega arith, refl, refl, (λ e. cc), inr (refl, omega arith))
    result true (some (v ∷ vs, n)) w =
        (refl, omega arith, refl, refl, (λ e. cc), inr (refl, omega arith))
    result false (some ([], n)) w =
        fail-Scanned syntax empty_identifier _ pos (c ∷ cs) (omega arith) (omega arith)
    result false (some (v ∷ vs, n)) w =
        (refl, omega arith, refl, refl, (λ e. cc), inr (refl, omega arith))

operator_kind-not_end : (op : Text) → is_end (operator_kind op) ≡ false
unfolding operator_kind
operator_kind-not_end [] = refl
operator_kind-not_end (c ∷ []) = ground arith
operator_kind-not_end (c ∷ d ∷ []) = ground arith
operator_kind-not_end (c ∷ d ∷ e ∷ cs) = refl

operator_token-Scanned :
    (pos c : ℕ) (cs : Text) → Scanned pos (c ∷ cs) (operator_token pos (c ∷ cs))
unfolding operator_token
operator_token-Scanned pos c cs =
    emit-Scanned _ _ pos (c ∷ cs) (operator_kind-not_end _) (run-pos (operator_length cs)) (
      omega (
        arith,
        trimmed-le (take (1 + operator_length cs) (c ∷ cs)),
        length-take (1 + operator_length cs) (c ∷ cs),
      ))
  where
    run-pos : (n : ℕ) → 0 < length (trimmed (take (1 + n) (c ∷ cs)))
    run-pos n = rw add.suc (rw add.zero (trimmed-pos c (take n cs)))

one_byte-Scanned :
    (kind : TokenKind) (pos c : ℕ) (cs : Text)
    → is_end kind ≡ false
    → Scanned pos (c ∷ cs) (emit kind 1 pos (c ∷ cs))
one_byte-Scanned kind pos c cs e = emit-Scanned kind 1 pos (c ∷ cs) e (omega arith) (omega arith)

unexpected-Scanned :
    (len pos c : ℕ) (cs : Text)
    → len ≤ suc (length cs)
    → Scanned pos (c ∷ cs) (unexpected len pos (c ∷ cs))
unexpected-Scanned len pos c cs h =
    if_elim (Scanned pos (c ∷ cs)) (ltb 0 len) _ _
      (λ e. fail-Scanned unsupported non_ascii_name len pos (c ∷ cs) (ltb→lt 0 len e) h)
      (λ _. fail-Scanned syntax (unexpected_byte c) 1 pos (c ∷ cs) (omega arith) (omega arith))

two_colons :
    (pos c : ℕ) (cs : Text)
    → ((c == b':') && (first_byte cs == b':')) ≡ true
    → Scanned pos (c ∷ cs) (emit double_colon 2 pos (c ∷ cs))
two_colons pos c [] h = absurd (ground arith)
two_colons pos c (d ∷ cs) h =
    emit-Scanned double_colon 2 pos (c ∷ d ∷ cs) refl (omega arith) (omega arith)

punctuation-Scanned : (pos c : ℕ) (cs : Text) → Scanned pos (c ∷ cs) (punctuation pos (c ∷ cs))
unfolding punctuation
punctuation-Scanned pos c cs = if_elim P (c == b',') _ _ (one comma refl) λ _.
    if_elim P (c == b'(') _ _ (one left_paren refl) λ _.
      if_elim P (c == b')') _ _ (one right_paren refl) λ _.
        if_elim P (c == b';') _ _ (one semicolon refl) λ _.
          if_elim P (c == b'.') _ _ (one dot refl) λ _.
            if_elim P (c == b'[') _ _ (one left_bracket refl) λ _.
              if_elim P (c == b'{') _ _ (one left_brace refl) λ _.
                if_elim P ((c == b':') && (first_byte cs == b':')) _ _ (two_colons pos c cs) λ _.
                  if_elim P (c == b'$') _ _
                    (λ _.
                      emit-Scanned parameter _ pos (c ∷ cs) refl (omega arith)
                        (omega (arith, count_while-le is_ident_char cs)))
                    (λ _. unexpected-Scanned _ pos c cs (utf8_sequence_length-within (c ∷ cs)))
  where
    P : Lexed × Lexer → Type 0
    P = Scanned pos (c ∷ cs)

    one : (k : TokenKind) → is_end k ≡ false → {b : Bool} → b ≡ true → P (emit k 1 pos (c ∷ cs))
    one k e _ = one_byte-Scanned k pos c cs e

pub scan-Scanned : (pos : ℕ) (s : Text) → Scanned pos s (scan pos s)
unfolding scan
scan-Scanned pos [] = (refl, omega arith, refl, refl, (λ _. refl), inl (refl, refl, refl))
scan-Scanned pos (c ∷ cs) =
    if_elim P (is_ident_start c) _ _
      (λ h.
        emit-Scanned identifier _ pos (c ∷ cs) refl
          (count_while-pos is_ident_char c cs (ground arith))
          (count_while-le is_ident_char (c ∷ cs)))
      λ _.
        if_elim P (is_digit c || (c == b'.' && is_digit (first_byte cs))) _ _
          (λ h. number-Scanned pos c cs h)
          λ _.
            if_elim P (c == b'\'' || c == b'"') _ _ (λ _. quoted_token-Scanned pos c cs)
              λ _.
                if_elim P (is_operator_char c) _ _ (λ _. operator_token-Scanned pos c cs)
                  (λ _. punctuation-Scanned pos c cs)
  where
    P : Lexed × Lexer → Type 0
    P = Scanned pos (c ∷ cs)
