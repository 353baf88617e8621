-- ===== src/Common/Utf8/Scalars.antt =====
-- src/common/utf8.cc: the sequences that it accepts are those of the Unicode scalar values.
use antb.Prelude.{
  ℕ, ◌+◌, ◌/◌, ◌%◌, ◌≤◌, ◌<◌, ◌≡◌, ◌⊎◌, ltb, [], ◌∷◌, ◌++◌, length, if◌then◌else◌, if_elim, ltb→lt,
  not_ltb→le, arith,
}
use antb.Common.Int128.{Text}
use antb.Common.Utf8.{utf8_sequence_length, sequence_of}

-- A Unicode scalar value: a code point that is no surrogate.
abbrev pub IsScalar : ℕ → Type 0
IsScalar n = (n < 55_296) ⊎ ((57_344 ≤ n) × (n < 1_114_112))

-- UTF-8, as RFC 3629 defines it.
abbrev pub encode : ℕ → Text
encode n =
    if ltb n 128
    then n ∷ []
    else if ltb n 2_048
    then (192 + n / 64) ∷ (128 + n % 64) ∷ []
    else if ltb n 65_536
    then (224 + n / 4_096) ∷ (128 + n / 64 % 64) ∷ (128 + n % 64) ∷ []
    else (240 + n / 262_144) ∷ (128 + n / 4_096 % 64) ∷ (128 + n / 64 % 64) ∷ (128 + n % 64) ∷ []

two_bytes :
    (q a : ℕ) (rest : Text)
    → 2 ≤ q
    → q < 32
    → a < 64
    → utf8_sequence_length ((192 + q) ∷ (128 + a) ∷ rest) ≡ 2
unfolding utf8_sequence_length sequence_of
two_bytes q a rest l h k = ground arith

three_bytes :
    (q a b : ℕ) (rest : Text)
    → q < 16
    → a < 64
    → b < 64
    → (q ≡ 0 → 32 ≤ a)
    → (q ≡ 13 → a < 32)
    → utf8_sequence_length ((224 + q) ∷ (128 + a) ∷ (128 + b) ∷ rest) ≡ 3
unfolding utf8_sequence_length sequence_of
three_bytes q a b rest h k l m n = ground (arith, m, n)

four_bytes :
    (q a b c : ℕ) (rest : Text)
    → q < 5
    → a < 64
    → b < 64
    → c < 64
    → (q ≡ 0 → 16 ≤ a)
    → (q ≡ 4 → a < 16)
    → utf8_sequence_length ((240 + q) ∷ (128 + a) ∷ (128 + b) ∷ (128 + c) ∷ rest) ≡ 4
unfolding utf8_sequence_length sequence_of
four_bytes q a b c rest h k l m n o = ground (arith, n, o)

-- The encoding of a scalar value that is not ASCII is a sequence, whatever follows it.
pub utf8_sequence_length-encode :
    (n : ℕ) (rest : Text)
    → IsScalar n
    → 128 ≤ n
    → utf8_sequence_length (encode n ++ rest) ≡ length (encode n)
utf8_sequence_length-encode n rest s h =
    if_elim (λ t. utf8_sequence_length (t ++ rest) ≡ length t) (ltb n 128) _ _
      (λ l. absurd (ground arith))
      λ _.
        if_elim (λ t. utf8_sequence_length (t ++ rest) ≡ length t) (ltb n 2_048) _ _
          (λ l.
            two_bytes (n / 64) (n % 64) rest (omega arith) (omega (arith, ltb→lt _ _ l))
              (omega arith))
          λ k.
            if_elim (λ t. utf8_sequence_length (t ++ rest) ≡ length t) (ltb n 65_536) _ _
              (λ l.
                three_bytes (n / 4_096) (n / 64 % 64) (n % 64) rest (omega (arith, ltb→lt _ _ l))
                  (omega arith) (omega arith) (λ z. omega (arith, not_ltb→le n 2_048 k))
                  (λ z. omega (arith, s)))
              (λ l.
                four_bytes (n / 262_144) (n / 4_096 % 64) (n / 64 % 64) (n % 64) rest
                  (omega (arith, s)) (omega arith) (omega arith) (omega arith)
                  (λ z. omega (arith, not_ltb→le n 65_536 l)) (λ z. omega (arith, s)))
