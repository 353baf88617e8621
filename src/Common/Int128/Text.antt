-- ===== src/Common/Int128/Text.antt =====
-- `Int128ToString` and `Int128ToInt64`.
use antb.Prelude.{
  ℕ, zero, suc, ◌+◌, ◌-◌, ◌*◌, ◌/◌, ◌%◌, ◌^◌, ◌≤◌, ◌<◌, ◌≡◌, refl, ap, some, [], ◌∷◌, ◌++◌, ◌==◌,
  ==_iff, if◌then◌else◌, arith, ◌↔◌, Bool-cases, inl, inr, ◌∙◌,
}
use antb.Prelude.Int.{ℤ, pos, negsuc, neg, ◌≤ℤ◌}
use antb.Common.Int128.{IsInt128, Text, magnitude, push_digits, int128_to_string, int128_to_int64}
use mathlib.Core.List.{reverse, reverse-cons, reverse-append, append_assoc, append-nil}
use native.Mathlib.Nat.{pow-suc}

-- A reader of decimal text: digits after an optional minus sign.
abbrev pub read_digits : ℕ → Text → ℕ
read_digits acc [] = acc
read_digits acc (c ∷ s) = read_digits (acc * 10 + (c - b'0')) s

abbrev pub read_signed : Text → ℤ
read_signed [] = pos 0
read_signed (c ∷ s) = if c == b'-' then neg (read_digits 0 s) else pos (read_digits 0 (c ∷ s))

read_digits-snoc :
    (s : Text) (acc c : ℕ) → read_digits acc (s ++ c ∷ []) ≡ read_digits acc s * 10 + (c - b'0')
read_digits-snoc [] acc c = refl
read_digits-snoc (x ∷ s) acc c = read_digits-snoc s (acc * 10 + (x - b'0')) c

-- The digits of m, the lowest one first.
digits_of : ℕ → ℕ → Text
digits_of zero m = []
digits_of (suc f) m =
    let rest = digits_of f (m / 10) in if m == 0 then [] else (b'0' + m % 10) ∷ rest

div_ten-lt : (f m : ℕ) → m < 10 ^ suc f → m / 10 < 10 ^ f
div_ten-lt f m h = let wide : m < 10 ^ f * 10 = rw (← pow-suc 10 f) h in omega arith

push_digits-digits_of :
    (f m : ℕ) (out : Text) → m < 10 ^ f → push_digits f m out ≡ some (out ++ digits_of f m)
unfolding push_digits digits_of
push_digits-digits_of zero m out h = ground (arith, append-nil out)
push_digits-digits_of (suc f) m out h = elim (Bool-cases (m == 0)) [
  | inl e ↦ rw (e, append-nil) refl
  | inr e ↦ rw e (
      push_digits-digits_of f (m / 10) (out ++ (b'0' + m % 10) ∷ []) (div_ten-lt f m h)
      ∙ ap some (append_assoc out ((b'0' + m % 10) ∷ []) (digits_of f (m / 10))))
]

read-digits_of : (f m : ℕ) → m < 10 ^ f → read_digits 0 (reverse (digits_of f m)) ≡ m
unfolding digits_of
read-digits_of zero m h = omega arith
read-digits_of (suc f) m h = elim (Bool-cases (m == 0)) [
  | inl e ↦ rw e (ground arith)
  | inr e ↦
      rw
        (
          e,
          reverse-cons,
          read_digits-snoc (reverse (digits_of f (m / 10))) 0 (b'0' + m % 10),
          read-digits_of f (m / 10) (div_ten-lt f m h),
        )
        (omega arith)
]

-- The text of a positive number begins with a digit that is not 0.
abbrev IsNumeral : Text → Type 0
IsNumeral [] = ⊥
IsNumeral (c ∷ s) = (b'1' ≤ c) × (c ≤ b'9')

IsNumeral-append : (s t : Text) → IsNumeral s → IsNumeral (s ++ t)
IsNumeral-append [] t h = absurd h
IsNumeral-append (c ∷ s) t h = h

digits_of-zero : (f : ℕ) → digits_of f 0 ≡ []
unfolding digits_of
digits_of-zero zero = refl
digits_of-zero (suc f) = refl

digits_of-IsNumeral : (f m : ℕ) → m < 10 ^ f → 0 < m → IsNumeral (reverse (digits_of f m))
unfolding digits_of
digits_of-IsNumeral zero m h p = absurd (omega arith)
digits_of-IsNumeral (suc f) m h p = elim (Bool-cases (m == 0)) [
  | inl e ↦ absurd (ground arith)
  | inr e ↦
      rw (e, reverse-cons)
        (elim (Bool-cases (m / 10 == 0)) [
          | inl z ↦ rw ((==_iff (m / 10) 0).0 z, digits_of-zero) (ground arith)
          | inr z ↦
              IsNumeral-append (reverse (digits_of f (m / 10))) ((b'0' + m % 10) ∷ [])
                (digits_of-IsNumeral f (m / 10) (div_ten-lt f m h) (ground arith))
        ])
]

read_signed-IsNumeral : (t : Text) → IsNumeral t → read_signed t ≡ pos (read_digits 0 t)
read_signed-IsNumeral [] h = absurd h
read_signed-IsNumeral (c ∷ s) h = ground arith

-- The text that the value v has: no leading zero, and a minus sign exactly for a negative value.
abbrev pub IsTextOf : ℤ → Text → Type 0
IsTextOf (pos zero) t = t ≡ b'0' ∷ []
IsTextOf (pos (suc n)) t = IsNumeral t
IsTextOf (negsuc n) t = (s : Text) × (t ≡ b'-' ∷ s) × IsNumeral s

abbrev pub Prints : ℤ → Type 0
Prints v = (t : Text) × (int128_to_string v ≡ some t) × (read_signed t ≡ v) × IsTextOf v t

magnitude-negsuc : (n : ℕ) → suc n ≤ 2 ^ 127 → magnitude (negsuc n) ≡ suc n
unfolding magnitude
magnitude-negsuc n h = ground arith

magnitude-pos : (n : ℕ) → magnitude (pos n) ≡ n
unfolding magnitude
magnitude-pos n = ground arith

print_positive :
    (n : ℕ)
    → suc n < 10 ^ 39
    → int128_to_string (pos (suc n)) ≡ some (reverse (digits_of 39 (suc n)))
unfolding int128_to_string
print_positive n h =
    rw (magnitude-pos (suc n), push_digits-digits_of 39 (suc n) [] h) (ground arith)

print_negative :
    (n : ℕ)
    → suc n ≤ 2 ^ 127
    → int128_to_string (negsuc n) ≡ some (b'-' ∷ reverse (digits_of 39 (suc n)))
unfolding int128_to_string
print_negative n h =
    rw (magnitude-negsuc n h, push_digits-digits_of 39 (suc n) [] (omega arith))
      (ground (arith, reverse-append (digits_of 39 (suc n)) (b'-' ∷ [])))

-- The fuel suffices, and the text printed for a value reads back as it, in its canonical form.
pub int128_to_string-Prints : (v : ℤ) → IsInt128 v → Prints v
unfolding push_digits int128_to_string magnitude
int128_to_string-Prints (pos zero) h = (b'0' ∷ [], refl, refl, refl)
int128_to_string-Prints (pos (suc n)) h =
    let numeral = digits_of-IsNumeral 39 (suc n) (omega arith) (omega arith) in
    (
      reverse (digits_of 39 (suc n)),
      print_positive n (omega arith),
      read_signed-IsNumeral _ numeral ∙ ap pos (read-digits_of 39 (suc n) (omega arith)),
      numeral,
    )
int128_to_string-Prints (negsuc n) h =
    let numeral = digits_of-IsNumeral 39 (suc n) (omega arith) (omega arith) in
    (
      b'-' ∷ reverse (digits_of 39 (suc n)),
      print_negative n h,
      ap neg (read-digits_of 39 (suc n) (omega arith)),
      (reverse (digits_of 39 (suc n)), refl, numeral),
    )

-- A value is kept exactly where it lies between the bounds of an `int64_t`, and refused elsewhere.
pub int128_to_int64_iff :
    (v w : ℤ)
    → (int128_to_int64 v ≡ some w) ↔ ((v ≡ w) × (neg (2 ^ 63) ≤ℤ v) × (v ≤ℤ pos (2 ^ 63 - 1)))
unfolding int128_to_int64
int128_to_int64_iff v w = (λ e. ground arith, λ e. ground arith)
