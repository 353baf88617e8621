-- ===== src/Tests/Like.antt =====
-- LIKE patterns on small texts.
use antb.Prelude.{◌≡◌, refl, true, false, ℕ, List, [], ◌∷◌, ◌++◌, inl, arith}
use antb.Common.Utf8.{utf8_sequence_length, sequence_of}
use antb.Exec.Like.{like_pattern, matches, answer, match_general}
use antb.Exec.Like.Pattern.{Matches, encode_all}
use antb.Exec.Like.General.{Decides}
use antb.Exec.Like.Laws.{matches-Decides}
use antb.Tests.Sql.{codes}

backtracks :
    (matches (like_pattern (codes "%a_c%")) (codes "aababc") ≡ answer true)
    × (matches (like_pattern (codes "%a_c")) (codes "aababd") ≡ answer false)
    × (matches (like_pattern (codes "ab%ba")) (codes "aba") ≡ answer false)
    × (matches (like_pattern (codes "a%b%c")) (codes "axxbyc") ≡ answer true)
unfolding like_pattern matches utf8_sequence_length sequence_of
backtracks = (refl, refl, refl, refl)

-- `_` is one character of the text, here the euro sign.
one_character :
    matches (like_pattern (codes "a_b")) (b'a' ∷ 226 ∷ 130 ∷ 172 ∷ b'b' ∷ []) ≡ answer true
unfolding like_pattern matches utf8_sequence_length sequence_of
one_character = refl

-- A byte inside the euro sign is found in it, where the pattern is no text in UTF-8 and has no `_`.
inside_character :
    (matches (like_pattern (b'%' ∷ 130 ∷ b'%' ∷ [])) (226 ∷ 130 ∷ 172 ∷ []) ≡ answer true)
    × (match_general (b'%' ∷ 130 ∷ b'%' ∷ []) (226 ∷ 130 ∷ 172 ∷ []) ≡ answer false)
unfolding like_pattern matches utf8_sequence_length sequence_of
inside_character = (refl, refl)

-- %€_
abbrev euro : List ℕ
euro = b'%' ∷ 8_364 ∷ b'_' ∷ []

matches-Decides_example :
    Decides
      (Matches euro (codes "x" ++ 226 ∷ 130 ∷ 172 ∷ b'y' ∷ []))
      (matches (like_pattern (encode_all euro)) (codes "x" ++ 226 ∷ 130 ∷ 172 ∷ b'y' ∷ []))
matches-Decides_example =
    matches-Decides euro (codes "x" ++ 226 ∷ 130 ∷ 172 ∷ b'y' ∷ [])
      (inl (omega arith), (inl (omega arith), (inl (omega arith), tt)))
