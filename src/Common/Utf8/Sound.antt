-- ===== src/Common/Utf8/Sound.antt =====
-- src/common/utf8.cc: a sequence that it accepts encodes a Unicode scalar value.
use antb.Prelude.{
  ℕ, ◌+◌, ◌-◌, ◌*◌, ◌/◌, ◌%◌, ◌≤◌, ◌<◌, ◌≡◌, inl, inr, refl, [], ◌∷◌, take, lt→ltb, not_lt→ltb,
  arith,
}
use native.Mathlib.Decide.{dec_le}
use antb.Common.Int128.{Text}
use antb.Common.Utf8.{utf8_sequence_length, sequence_of}
use antb.Common.Utf8.Scalars.{IsScalar, encode}

encode-two : (q a : ℕ) → 2 ≤ q → q < 32 → a < 64 → encode (q * 64 + a) ≡ (192 + q) ∷ (128 + a) ∷ []
encode-two q a l h k =
    let n = q * 64 + a in
    let first : n / 64 ≡ q = omega arith in
    let second : n % 64 ≡ a = omega arith in
    rw (not_lt→ltb n 128 (omega arith), lt→ltb n 2_048 (omega arith), first, second) refl

encode-three :
    (q a b : ℕ)
    → q < 16
    → a < 64
    → b < 64
    → (q ≡ 0 → 32 ≤ a)
    → encode (q * 4_096 + a * 64 + b) ≡ (224 + q) ∷ (128 + a) ∷ (128 + b) ∷ []
encode-three q a b h k l m =
    let n = q * 4_096 + a * 64 + b in
    let big : 2_048 ≤ n = ground (arith, m) in
    let first : n / 4_096 ≡ q = omega arith in
    let second : n / 64 % 64 ≡ a = omega arith in
    let third : n % 64 ≡ b = omega arith in
    rw
      (
        not_lt→ltb n 128 (omega arith),
        not_lt→ltb n 2_048 (omega arith),
        lt→ltb n 65_536 (omega arith),
        first,
        second,
        third,
      )
      refl

encode-four :
    (q a b c : ℕ)
    → q < 5
    → a < 64
    → b < 64
    → c < 64
    → (q ≡ 0 → 16 ≤ a)
    → encode (q * 262_144 + a * 4_096 + b * 64 + c)
      ≡ (240 + q) ∷ (128 + a) ∷ (128 + b) ∷ (128 + c) ∷ []
encode-four q a b c h k l m o =
    let n = q * 262_144 + a * 4_096 + b * 64 + c in
    let big : 65_536 ≤ n = ground (arith, o) in
    let first : n / 262_144 ≡ q = omega arith in
    let second : n / 4_096 % 64 ≡ a = omega arith in
    let third : n / 64 % 64 ≡ b = omega arith in
    let fourth : n % 64 ≡ c = omega arith in
    rw
      (
        not_lt→ltb n 128 (omega arith),
        not_lt→ltb n 2_048 (omega arith),
        not_lt→ltb n 65_536 (omega arith),
        first,
        second,
        third,
        fourth,
      )
      refl

-- The sequence that a text starts with is the encoding of a scalar value.
abbrev pub StartsScalar : Text → Type 0
StartsScalar s = (n : ℕ) × IsScalar n × (128 ≤ n) × (take (utf8_sequence_length s) s ≡ encode n)

accept-two :
    (lead b : ℕ) (rest : Text)
    → 194 ≤ lead
    → lead ≤ 223
    → 0 < utf8_sequence_length (lead ∷ b ∷ rest)
    → StartsScalar (lead ∷ b ∷ rest)
unfolding utf8_sequence_length sequence_of
accept-two lead b rest l h p =
    let within : (128 ≤ b) × (b ≤ 191) = ground arith in
    let two : utf8_sequence_length (lead ∷ b ∷ rest) ≡ 2 = ground arith in
    let first : 192 + (lead - 192) ≡ lead = omega arith in
    let second : 128 + (b - 128) ≡ b = omega arith in
    (
      (lead - 192) * 64 + (b - 128),
      inl (omega arith),
      omega arith,
      rw
          (
            two,
            encode-two (lead - 192) (b - 128) (omega arith) (omega arith) (omega arith),
            first,
            second,
          )
          refl,
    )

accept-three :
    (lead b c : ℕ) (rest : Text)
    → 224 ≤ lead
    → lead ≤ 239
    → 0 < utf8_sequence_length (lead ∷ b ∷ c ∷ rest)
    → StartsScalar (lead ∷ b ∷ c ∷ rest)
unfolding utf8_sequence_length sequence_of
accept-three lead b c rest l h p =
    let within : ((128 ≤ b) × (b ≤ 191)) × ((128 ≤ c) × (c ≤ 191)) = ground arith in
    let overlong : lead ≡ 224 → 160 ≤ b = ground arith in
    let surrogate : lead ≡ 237 → b ≤ 159 = ground arith in
    let three : utf8_sequence_length (lead ∷ b ∷ c ∷ rest) ≡ 3 = ground arith in
    let first : 224 + (lead - 224) ≡ lead = omega arith in
    let second : 128 + (b - 128) ≡ b = omega arith in
    let third : 128 + (c - 128) ≡ c = omega arith in
    (
      (lead - 224) * 4_096 + (b - 128) * 64 + (c - 128),
      elim (dec_le lead 237) [
        | yes z ↦ inl (ground (arith, surrogate))
        | no z ↦ inr (omega arith, omega arith)
      ],
      ground (arith, overlong),
      rw
          (
            three,
            encode-three (lead - 224) (b - 128) (c - 128) (omega arith) (omega arith) (omega arith)
                (λ z. omega (arith, overlong (omega arith))),
            first,
            second,
            third,
          )
          refl,
    )

accept-four :
    (lead b c d : ℕ) (rest : Text)
    → 240 ≤ lead
    → lead ≤ 244
    → 0 < utf8_sequence_length (lead ∷ b ∷ c ∷ d ∷ rest)
    → StartsScalar (lead ∷ b ∷ c ∷ d ∷ rest)
unfolding utf8_sequence_length sequence_of
accept-four lead b c d rest l h p =
    let within : ((128 ≤ b) × (b ≤ 191)) × (((128 ≤ c) × (c ≤ 191)) × ((128 ≤ d) × (d ≤ 191))) =
      ground arith in
    let overlong : lead ≡ 240 → 144 ≤ b = ground arith in
    let beyond : lead ≡ 244 → b ≤ 143 = ground arith in
    let four : utf8_sequence_length (lead ∷ b ∷ c ∷ d ∷ rest) ≡ 4 = ground arith in
    let first : 240 + (lead - 240) ≡ lead = omega arith in
    let second : 128 + (b - 128) ≡ b = omega arith in
    let third : 128 + (c - 128) ≡ c = omega arith in
    let fourth : 128 + (d - 128) ≡ d = omega arith in
    (
      (lead - 240) * 262_144 + (b - 128) * 4_096 + (c - 128) * 64 + (d - 128),
      inr (ground (arith, overlong), ground (arith, beyond)),
      ground (arith, overlong),
      rw
          (
            four,
            encode-four (lead - 240) (b - 128) (c - 128) (d - 128) (omega arith) (omega arith)
                (omega arith) (omega arith) (λ z. omega (arith, overlong (omega arith))),
            first,
            second,
            third,
            fourth,
          )
          refl,
    )

-- A text that is accepted starts with the encoding of a scalar value that is not ASCII.
pub utf8_sequence_length-StartsScalar : (s : Text) → 0 < utf8_sequence_length s → StartsScalar s
unfolding utf8_sequence_length sequence_of
utf8_sequence_length-StartsScalar [] p = absurd (omega arith)
utf8_sequence_length-StartsScalar (lead ∷ []) p = absurd (ground arith)
utf8_sequence_length-StartsScalar (lead ∷ b ∷ []) p =
    accept-two lead b [] (ground arith) (ground arith) p
utf8_sequence_length-StartsScalar (lead ∷ b ∷ c ∷ []) p = elim (dec_le lead 223) [
  | yes l ↦ accept-two lead b (c ∷ []) (ground arith) l p
  | no l ↦ accept-three lead b c [] (omega arith) (ground arith) p
]
utf8_sequence_length-StartsScalar (lead ∷ b ∷ c ∷ d ∷ rest) p = elim (dec_le lead 223) [
  | yes l ↦ accept-two lead b (c ∷ d ∷ rest) (ground arith) l p
  | no l ↦ elim (dec_le lead 239) [
    | yes h ↦ accept-three lead b c (d ∷ rest) (omega arith) h p
    | no h ↦ accept-four lead b c d rest (omega arith) (ground arith) p
  ]
]
