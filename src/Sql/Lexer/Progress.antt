-- ===== src/Sql/Lexer/Progress.antt =====
-- src/sql/lexer.cc: `Lexer::Next` and `Tokenize` end, and where their tokens stand in the text.
use antb.Prelude.{
  ℕ, zero, suc, ◌+◌, ◌-◌, ◌≤◌, ◌<◌, ◌≡◌, refl, sym, ◌∙◌, ap, ◌⊎◌, inl, inr, true, false, some, List,
  [], ◌∷◌, length, length-drop, take, drop, drop-drop, arith,
}
use antb.Common.Int128.{Text}
use antb.Sql.Token.{Token, syntax, unterminated_comment}
use antb.Sql.Scan.{Blank, blank, open_comment, out_of_fuel, skip_blank}
use antb.Sql.Scan.Bounds.{Stops, skip_blank-Stops}
use antb.Sql.Lexer.{
  Lexer, Lexed, token, error, fail, scan, after_blank, next, is_end, Tokens, tokens, failed,
  tokens_from, tokenize,
}
use antb.Sql.Lexer.Step.{is_quoted, IsSized, Scanned, fail-Scanned, scan-Scanned}

-- The token is a part of the text: what is written there, unless it is unquoted. The end stands
-- behind the text and has no bytes, and any other token has some.
pub record IsPart (text : Text) (t : Token) : Type 0 where
  pub within : t.offset + t.length ≤ length text
  pub written : is_quoted t.kind ≡ false → t.text ≡ take t.length (drop t.offset text)
  pub sized :
      ((is_end t.kind ≡ true) × (t.offset ≡ length text) × (t.length ≡ 0))
      ⊎ ((is_end t.kind ≡ false) × (0 < t.length))

-- The lexer stands in the text.
pub record IsAt (text : Text) (l : Lexer) : Type 0 where
  pub rest : l.rest ≡ drop l.pos text
  pub within : l.pos ≤ length text

-- A call at `l` gives a token of the text no earlier than `l`, and goes on behind it, or an error
-- over some bytes of the text, and is exhausted.
abbrev pub Moves : Text → Lexer → Lexed × Lexer → Type 0
Moves text l (token t, l') =
    IsPart text t × (l.pos ≤ t.offset) × (l'.pos ≡ t.offset + t.length) × IsAt text l'
Moves text l (error e, l') =
    (l.pos ≤ e.offset)
    × (0 < e.length)
    × (e.offset + e.length ≤ length text)
    × (l'.pos ≡ length text)
    × (l'.rest ≡ [])

module _ (text : Text) (l : Lexer) (n : ℕ) (at : IsAt text l) (h : n ≤ length l.rest) where
  behind : drop n l.rest ≡ drop (l.pos + n) text
  behind = ap (drop n) at.rest ∙ drop-drop l.pos n text

  left : length (drop n l.rest) + (l.pos + n) ≡ length text
  left = omega (arith, length-drop n l.rest, ap length at.rest, length-drop l.pos text, at.within)

  sized :
      (t : Token)
      → t.offset ≡ l.pos + n
      → IsSized t (drop n l.rest)
      → ((is_end t.kind ≡ true) × (t.offset ≡ length text) × (t.length ≡ 0))
        ⊎ ((is_end t.kind ≡ false) × (0 < t.length))
  sized t o (inl (e, empty, z)) = inl (e, omega (arith, ap length empty, left), z)
  sized t o (inr s) = inr s

  Scanned-Moves : (r : Lexed × Lexer) → Scanned (l.pos + n) (drop n l.rest) r → Moves text l r
  Scanned-Moves (token t, l') (o, u, p, r, w, z) = (
    record {
      within = omega (arith, left);
      written = λ q. w q ∙ ap (take t.length) (behind ∙ ap (λ k. drop k text) (sym o));
      sized = sized t o z;
    },
    omega arith,
    omega arith,
    record {
      rest =
          r
          ∙ ap (drop t.length) behind
          ∙ drop-drop (l.pos + n) t.length text
          ∙ ap (λ k. drop k text) (sym p);
      within = omega (arith, left);
    },
  )
  Scanned-Moves (error e, l') (o, p, u, r, q) =
      (omega arith, p, omega (arith, left), omega (arith, left), r)

-- Whatever the state, a call ends, and its token or its error stands in the text.
pub next-Moves :
    (text : Text) (l : Lexer)
    → IsAt text l
    → (r : Lexed × Lexer) × (next l ≡ some r) × Moves text l r
unfolding next
next-Moves text l at =
    by_blank (skip_blank (suc (length l.rest)) l.rest)
      (skip_blank-Stops (suc (length l.rest)) l.rest (omega arith))
  where
    by_blank :
        (b : Blank)
        → Stops l.rest b
        → (r : Lexed × Lexer) × (after_blank b l ≡ some r) × Moves text l r
    by_blank (blank n) h = (
      scan (l.pos + n) (drop n l.rest),
      refl,
      Scanned-Moves text l n at h (scan (l.pos + n) (drop n l.rest))
          (scan-Scanned (l.pos + n) (drop n l.rest)),
    )
    by_blank (open_comment n) h =
        let r : Lexed × Lexer =
          fail syntax unterminated_comment (length (drop n l.rest)) (l.pos + n) (drop n l.rest) in
        (
          r,
          refl,
          Scanned-Moves text l n at (omega arith) r (
              fail-Scanned syntax unterminated_comment (length (drop n l.rest)) (l.pos + n)
                (drop n l.rest) (omega (arith, length-drop n l.rest)) (omega arith)),
        )
    by_blank out_of_fuel h = absurd h

-- Tokens of the text in order from a position on, without overlap, up to the end and no further.
pub data Parts (text : Text) : ℕ → List Token → Type 0 where
  last :
      {from : ℕ} {t : Token}
      → IsPart text t
      → from ≤ t.offset
      → is_end t.kind ≡ true
      → Parts text from (t ∷ [])
  more :
      {from : ℕ} {t : Token} {ts : List Token}
      → IsPart text t
      → from ≤ t.offset
      → is_end t.kind ≡ false
      → Parts text (t.offset + t.length) ts
      → Parts text from (t ∷ ts)

abbrev pub Splits : Text → ℕ → Tokens → Type 0
Splits text from (tokens ts) = Parts text from ts
Splits text from (failed e) =
    (from ≤ e.offset) × (0 < e.length) × (e.offset + e.length ≤ length text)

-- The rest of the tokens is found.
abbrev Found : Text → ℕ → ℕ → Lexer → Type 0
Found text f from l = (r : Tokens) × (tokens_from f l ≡ some r) × Splits text from r

found_more :
    (text : Text) (f from : ℕ) (l l' : Lexer) (t : Token)
    → next l ≡ some (token t, l')
    → IsPart text t
    → from ≤ t.offset
    → l'.pos ≡ t.offset + t.length
    → is_end t.kind ≡ false
    → Found text f l'.pos l'
    → Found text (suc f) from l
unfolding tokens_from
found_more text f from l l' t eq p o q e (tokens ts, found, s) =
    (tokens (t ∷ ts), ground arith, more p o e (rw (← q) s))
found_more text f from l l' t eq p o q e (failed err, found, s) =
    (failed err, ground arith, (omega arith, s.1, s.2))

found :
    (text : Text) (f : ℕ) (l : Lexer)
    → (r : Lexed × Lexer) × (next l ≡ some r) × Moves text l r
    → ((l' : Lexer) → IsAt text l' → l.pos < l'.pos → Found text f l'.pos l')
    → Found text (suc f) l.pos l
unfolding tokens_from
found text f l ((error e, l'), eq, m) ih = (failed e, rw (eq, tokens_from) refl, (m.0, m.1, m.2))
found text f l ((token t, l'), eq, (p, o, q, at)) ih = by_size p.sized
  where
    by_size :
        ((is_end t.kind ≡ true) × (t.offset ≡ length text) × (t.length ≡ 0))
          ⊎ ((is_end t.kind ≡ false) × (0 < t.length))
        → Found text (suc f) l.pos l
    by_size (inl (e, _, _)) = (tokens (t ∷ []), ground arith, last p o e)
    by_size (inr (e, z)) = found_more text f l.pos l l' t eq p o q e (ih l' at (omega arith))

tokens_from-Splits :
    (text : Text) (f : ℕ) (l : Lexer) → IsAt text l → length text - l.pos < f → Found text f l.pos l
tokens_from-Splits text zero l at h = elim h [ ]
tokens_from-Splits text (suc f) l at h =
    found text f l (next-Moves text l at)
      λ l' at' m. tokens_from-Splits text f l' at' (omega (arith, at'.within))

-- The text of any query is split in `length text + 1` calls at most.
pub tokenize-Splits : (text : Text) → (r : Tokens) × (tokenize text ≡ some r) × Splits text 0 r
unfolding tokenize
tokenize-Splits text =
    tokens_from-Splits text (suc (length text)) _ (record { rest = refl; within = omega arith })
      (omega arith)
