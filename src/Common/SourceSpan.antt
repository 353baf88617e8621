-- ===== src/Common/SourceSpan.antt =====
-- src/common/source_span.cc: the line and the column of an offset.
use antb.Prelude.{
  ℕ, zero, suc, ◌+◌, ◌≤◌, ◌≡◌, ◌≢◌, ◌⊎◌, inl, inr, refl, ap, ap₂, ◌∙◌, false, List, [], ◌∷◌, ◌++◌,
  length, take, take-append, All, ◌==◌, if◌then◌else◌, arith,
}
use antb.Common.Int128.{Text}

pub record LineColumn : Type 0 where
  pub line : ℕ
  pub column : ℕ

-- The body of the loop.
abbrev pub past_byte : ℕ → LineColumn → LineColumn
past_byte c at =
    if c == 10
    then record { line = at.line + 1; column = 1 }
    else record { line = at.line; column = at.column + 1 }

-- The loop over the bytes before the offset.
unfoldable pub walk : Text → LineColumn → LineColumn
walk [] at = at
walk (c ∷ cs) at = walk cs (past_byte c at)

-- `take` stops at the end of the text, as `min(span.offset, text.size())` does.
unfoldable pub to_line_column : Text → ℕ → LineColumn
unfolding walk
to_line_column text offset = walk (take offset text) (record { line = 1; column = 1 })

-- A line without its newline, and lines that each end with one.
abbrev pub IsLine : Text → Type 0
IsLine line = All (λ c. c ≢ 10) line

abbrev pub end_lines : List Text → Text
end_lines [] = []
end_lines (l ∷ ls) = l ++ 10 ∷ end_lines ls

walk-append : (s u : Text) (at : LineColumn) → walk (s ++ u) at ≡ walk u (walk s at)
unfolding walk
walk-append [] u at = refl
walk-append (c ∷ cs) u at = walk-append cs u (past_byte c at)

abbrev place : ℕ → ℕ → LineColumn
place line column = record { line = line; column = column }

not_newline : (c : ℕ) → c ≢ 10 → (c == 10) ≡ false
not_newline c n = ground (arith, n)

walk-IsLine :
    (line : Text) (n m : ℕ) → IsLine line → walk line (place n m) ≡ place n (m + length line)
unfolding walk
walk-IsLine [] n m h = ap (place n) (omega arith)
walk-IsLine (c ∷ cs) n m (d, h) =
    rw (not_newline c d) (walk-IsLine cs n (m + 1) h ∙ ap (place n) (omega arith))

walk-end_lines :
    (lines : List Text) (n : ℕ)
    → All IsLine lines
    → walk (end_lines lines) (place n 1) ≡ place (n + length lines) 1
unfolding walk
walk-end_lines [] n h = ap (λ k. place k 1) (omega arith)
walk-end_lines (l ∷ ls) n (a, h) =
    walk-append l (10 ∷ end_lines ls) (place n 1)
    ∙ ap (walk (10 ∷ end_lines ls)) (walk-IsLine l n 1 a)
    ∙ walk-end_lines ls (n + 1) h
    ∙ ap (λ k. place k 1) (omega arith)

take-end : (s : Text) (n : ℕ) → length s ≤ n → take n (s ++ []) ≡ s
take-end [] zero h = refl
take-end [] (suc n) h = refl
take-end (c ∷ cs) zero h = absurd (omega arith)
take-end (c ∷ cs) (suc n) h = ap (λ u. c ∷ u) (take-end cs n (omega arith))

-- The bytes before an offset, which the end of the text cuts off.
prefix :
    (s rest : Text) (offset : ℕ)
    → (offset ≡ length s) ⊎ ((rest ≡ []) × (length s ≤ offset))
    → take offset (s ++ rest) ≡ s
prefix s rest offset (inl e) = rw e (take-append s rest)
prefix s rest offset (inr (e, h)) = rw e (take-end s offset h)

-- Behind some whole lines and a part of the next one, or behind the end of a text that ends there, the
-- line is the number of those lines and one, and the column the number of the bytes of the part and
-- one.
pub to_line_column-end_lines :
    (lines : List Text) (part rest : Text) (offset : ℕ)
    → All IsLine lines
    → IsLine part
    → (offset ≡ length (end_lines lines ++ part))
      ⊎ ((rest ≡ []) × (length (end_lines lines ++ part) ≤ offset))
    → to_line_column ((end_lines lines ++ part) ++ rest) offset
      ≡ record { line = suc (length lines); column = suc (length part) }
unfolding to_line_column
to_line_column-end_lines lines part rest offset h k o =
    ap (λ s. walk s (place 1 1)) (prefix (end_lines lines ++ part) rest offset o)
    ∙ walk-append (end_lines lines) part (place 1 1)
    ∙ ap (walk part) (walk-end_lines lines 1 h)
    ∙ walk-IsLine part (1 + length lines) 1 k
    ∙ ap₂ place (omega arith) (omega arith)
