-- ===== src/Sql/Quote/RoundTrip.antt =====
-- src/sql/unparse.cc and lexer.cc: the lexer reads what `Quote` writes.
use antb.Prelude.{
  ℕ, suc, ◌+◌, ◌≡◌, refl, sym, ◌∙◌, ap, ap₂, drop-append, true, false, not, ◌||◌, ◌⊎◌, inl, inr,
  Option, some, [], ◌∷◌, ◌++◌, length, length-append, drop, arith, ◌==◌, ==_iff, if◌then◌else◌,
  Bool-cases,
}
use mathlib.Core.List.{append_assoc}
use native.Mathlib.Nat.{add-zero}
use antb.Common.Int128.{Text}
use antb.Sql.Token.{TokenKind, string, quoted_identifier}
use antb.Sql.Scan.{first_is, quoted, keep, blank, skip_blank}
use antb.Sql.Lexer.{Lexer, Lexed, token, is_empty, quoted_result, quoted_token, scan, next}
use antb.Sql.Quote.{doubled, quote}

quoted-other : (q c : ℕ) (cs : Text) → (c == q) ≡ false → quoted q (c ∷ cs) ≡ keep c 1 (quoted q cs)
unfolding quoted
quoted-other q c [] h = ground arith
quoted-other q c (d ∷ cs) h = rw h

quoted-double :
    (q c : ℕ) (cs : Text) → (c == q) ≡ true → quoted q (c ∷ q ∷ cs) ≡ keep q 2 (quoted q cs)
unfolding quoted
quoted-double q c cs h = rw (h, (==_iff q q).1 refl)

quoted-close :
    (q : ℕ) (rest : Text) → first_is (λ c. c == q) rest ≡ false → quoted q (q ∷ rest) ≡ some ([], 1)
unfolding quoted
quoted-close q [] h = rw ((==_iff q q).1 refl)
quoted-close q (d ∷ ds) h = rw ((==_iff q q).1 refl, h)

quoted-doubled :
    (q : ℕ) (text rest : Text)
    → first_is (λ c. c == q) rest ≡ false
    → quoted q (doubled q text ++ q ∷ rest) ≡ some (text, length (doubled q text) + 1)
unfolding doubled
quoted-doubled q [] rest h = quoted-close q rest h
quoted-doubled q (c ∷ cs) rest h = elim (Bool-cases (c == q)) [
  | inl e ↦ rw e (
      quoted-double q c (doubled q cs ++ q ∷ rest) e
      ∙ ap (keep q 2) (quoted-doubled q cs rest h)
      ∙ same q c (sym ((==_iff c q).0 e)) (omega arith))
  | inr e ↦ rw e (
      quoted-other q c (doubled q cs ++ q ∷ rest) e
      ∙ ap (keep c 1) (quoted-doubled q cs rest h)
      ∙ same c c refl (omega arith))
]
  where
    same :
        (x y : ℕ) {m n : ℕ}
        → x ≡ y
        → m ≡ n
        → ◌≡◌ {A = Option (Text × ℕ)} (some (x ∷ cs, m)) (some (y ∷ cs, n))
    same x y p q = ap₂ (λ (v w : ℕ). some (v ∷ cs, w)) p q

-- What the lexer makes of a quoted text: one token of all its bytes.
abbrev pub quoted_lexed : TokenKind → Text → ℕ → ℕ → Text → Lexed × Lexer
quoted_lexed kind text n pos rest = (
  token (record { kind = kind; text = text; offset = pos; length = n }),
  record { rest = rest; pos = pos + n },
)

length-quote : (text : Text) (q : ℕ) → length (quote text q) ≡ 2 + length (doubled q text)
unfolding quote
length-quote text q = omega (arith, length-append (doubled q text) (q ∷ []))

drop-quote :
    (text : Text) (q : ℕ) (rest : Text)
    → drop (2 + length (doubled q text)) (quote text q ++ rest) ≡ rest
drop-quote text q rest = rw (← length-quote text q) (drop-append (quote text q) rest)

quote-append :
    (text : Text) (q : ℕ) (rest : Text) → quote text q ++ rest ≡ q ∷ (doubled q text ++ q ∷ rest)
unfolding quote
quote-append text q rest = ap (λ (t : Text). q ∷ t) (append_assoc (doubled q text) (q ∷ []) rest)

abbrev pub kind_of : ℕ → TokenKind
kind_of q = if q == b'\'' then string else quoted_identifier

quoted_result-some :
    (q pos n : ℕ) (text s : Text)
    → (not (is_empty text) || q == b'\'') ≡ true
    → quoted_result (q == b'\'') (some (text, n)) pos s
      ≡ quoted_lexed (kind_of q) text (1 + n) pos (drop (1 + n) s)
quoted_result-some q pos n text s h = rw h

quoted_token-quote :
    (q pos : ℕ) (text rest : Text)
    → (not (is_empty text) || q == b'\'') ≡ true
    → first_is (λ c. c == q) rest ≡ false
    → quoted_token pos (q ∷ (doubled q text ++ q ∷ rest))
      ≡ quoted_lexed (kind_of q) text (length (quote text q)) pos rest
unfolding quoted_token
quoted_token-quote q pos text rest n h =
    ap (λ r. quoted_result (q == b'\'') r pos (q ∷ s)) (quoted-doubled q text rest h)
    ∙ quoted_result-some q pos (length (doubled q text) + 1) text (q ∷ s) n
    ∙ ap₂ (λ m r. quoted_lexed (kind_of q) text m pos r) size
        (ap (λ m. drop m (q ∷ s)) same_size
          ∙ rw (← quote-append text q rest) (drop-quote text q rest))
  where
    s : Text
    s = doubled q text ++ q ∷ rest

    size : 1 + (length (doubled q text) + 1) ≡ length (quote text q)
    size = omega (arith, length-quote text q)

    same_size : 1 + (length (doubled q text) + 1) ≡ 2 + length (doubled q text)
    same_size = omega arith

-- No blank and no comment starts with a quote.
skip_blank-quote :
    (q f : ℕ) (s : Text) → (q ≡ b'\'') ⊎ (q ≡ b'"') → skip_blank (suc f) (q ∷ s) ≡ blank 0
unfolding skip_blank
skip_blank-quote q f [] h = ground arith
skip_blank-quote q f (d ∷ ds) h = ground arith

scan-quote :
    (q pos : ℕ) (s : Text) → (q ≡ b'\'') ⊎ (q ≡ b'"') → scan pos (q ∷ s) ≡ quoted_token pos (q ∷ s)
unfolding scan
scan-quote q pos s h = ground arith

-- A quoted text is read as one token of all its bytes, with the text; a name is not empty, and no
-- quote follows.
pub next-quote :
    (q : ℕ) (text rest : Text) (pos : ℕ)
    → (q ≡ b'\'') ⊎ (q ≡ b'"')
    → (not (is_empty text) || q == b'\'') ≡ true
    → first_is (λ c. c == q) rest ≡ false
    → next (record { rest = quote text q ++ rest; pos = pos })
      ≡ some (quoted_lexed (kind_of q) text (length (quote text q)) pos rest)
unfolding next
next-quote q text rest pos k n h = rw (quote-append text q rest) (
    rw (skip_blank-quote q (suc (length s)) s k)
      (ap some (rw add-zero (scan-quote q pos s k ∙ quoted_token-quote q pos text rest n h))))
  where
    s : Text
    s = doubled q text ++ q ∷ rest
