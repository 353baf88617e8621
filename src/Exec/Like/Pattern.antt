-- ===== src/Exec/Like/Pattern.antt =====
-- What it means for a text to match a LIKE pattern, with no order of search in it. The pattern is
-- the list of its characters, and the text any bytes.
use antb.Prelude.{
  ℕ, ◌≤◌, ◌<◌, ◌≡◌, ◌≢◌, refl, List, [], ◌∷◌, ◌++◌, length, arith, drop-append, length-drop,
  if_elim, ltb, lt→ltb, true,
}
use native.Mathlib.Decide.{dec_le}
use antb.Common.Int128.{Text}
use antb.Common.Utf8.{utf8_sequence_length}
use antb.Common.Utf8.Scalars.{IsScalar, encode, utf8_sequence_length-encode}
use antb.Exec.Like.{percent, underscore, char_length, past}

-- The bytes of characters.
abbrev pub encode_all : List ℕ → Text
encode_all [] = []
encode_all (n ∷ ns) = encode n ++ encode_all ns

-- `%` stands for any characters of the text, `_` for one, and any other character for itself.
pub data Matches : List ℕ → Text → Type 0 where
  done : Matches [] []
  char :
      {n : ℕ} {ns : List ℕ} {s t : Text}
      → n ≢ percent
      → n ≢ underscore
      → s ≡ encode n ++ t
      → Matches ns t
      → Matches (n ∷ ns) s
  one :
      {n c : ℕ} {ns : List ℕ} {t : Text}
      → n ≡ underscore
      → Matches ns (past (c ∷ t))
      → Matches (n ∷ ns) (c ∷ t)
  leave : {n : ℕ} {ns : List ℕ} {t : Text} → n ≡ percent → Matches ns t → Matches (n ∷ ns) t
  extend :
      {n c : ℕ} {ns : List ℕ} {t : Text}
      → n ≡ percent
      → Matches (n ∷ ns) (past (c ∷ t))
      → Matches (n ∷ ns) (c ∷ t)

pub length-past : (c : ℕ) (t : Text) → length (past (c ∷ t)) ≤ length t
unfolding past char_length
length-past c t =
    let pos : 0 < char_length (c ∷ t) = ground arith in
    omega (arith, length-drop (char_length (c ∷ t)) (c ∷ t), pos)

-- The first byte of a character of more than one byte tells it from ASCII.
char_length-encode :
    (n : ℕ) (t : Text) → IsScalar n → char_length (encode n ++ t) ≡ length (encode n)
unfolding char_length
char_length-encode n t s = elim (dec_le 128 n) [
  | yes h ↦
      if_elim Long (ltb n 128) _ _ (λ l _. absurd (ground arith))
        (λ _.
          if_elim Long (ltb n 2_048) _ _ (λ _ e. ground arith)
            (λ _. if_elim Long (ltb n 65_536) _ _ (λ _ e. ground arith) (λ _ e. ground arith)))
        (utf8_sequence_length-encode n t s h)
  | no h ↦ let small : ltb n 128 ≡ true = lt→ltb n 128 (omega arith) in rw small (rw small refl)
]
  where
    Long : Text → Type 0
    Long w = utf8_sequence_length (w ++ t) ≡ length w → char_length (w ++ t) ≡ length w

-- A character of the pattern that stands in the text is a character of the text.
pub past-encode : (n : ℕ) (t : Text) → IsScalar n → past (encode n ++ t) ≡ t
unfolding past
past-encode n t s = rw (char_length-encode n t s) (drop-append (encode n) t)

pub length-encode : (n : ℕ) → 0 < length (encode n)
length-encode n = ground arith
