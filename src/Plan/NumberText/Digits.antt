-- ===== src/Plan/NumberText/Digits.antt =====
-- Powers of ten and the values of digits, for src/plan/literal.cc.
use antb.Prelude.{
  ℕ, zero, suc, ◌+◌, ◌-◌, ◌*◌, ◌^◌, ◌≤◌, ◌<◌, ◌≡◌, ◌≢◌, ◌↔◌, refl, sym, ◌∙◌, ap, true, [], ◌∷◌,
  ◌++◌, length, take, drop, arith, length-drop, take-append-drop,
}
use native.Mathlib.Decide.{dec_le}
use native.Mathlib.Nat.{pow-suc, add-zero, add-suc, pow-le-pow_right}
use antb.Common.Int128.{Text}
use antb.Sql.Token.{is_digit}
use antb.Plan.NumberText.{digits_from, digits_value, all_digits, all_zeros}

pub ten_pow-pos : (n : ℕ) → 0 < 10 ^ n
ten_pow-pos zero = omega arith
ten_pow-pos (suc n) = rw pow-suc (omega (arith, ten_pow-pos n))

pub ten_pow-add : (m n : ℕ) → 10 ^ (m + n) ≡ 10 ^ m * 10 ^ n
ten_pow-add m zero = rw add-zero (omega arith)
ten_pow-add m (suc n) =
    rw (add-suc m n, pow-suc 10 (m + n), pow-suc 10 n, ten_pow-add m n) (grind arith)

pub ten_pow_mono : (m n : ℕ) → m ≤ n → 10 ^ m ≤ 10 ^ n
ten_pow_mono m n h = pow-le-pow_right (omega arith) h

pub digits_from-add : (v : ℕ) (s : Text) → digits_from v s ≡ v * 10 ^ length s + digits_value s
digits_from-add v [] = omega arith
digits_from-add v (c ∷ cs) = omega (
  arith,
  digits_from-add (v * 10 + (c - b'0')) cs,
  digits_from-add (0 + (c - b'0')) cs,
  ap (λ (p : ℕ). v * p) (pow-suc 10 (length cs)),
)

digits_from-append : (v : ℕ) (s t : Text) → digits_from v (s ++ t) ≡ digits_from (digits_from v s) t
digits_from-append v [] t = refl
digits_from-append v (c ∷ cs) t = digits_from-append (v * 10 + (c - b'0')) cs t

pub digits_value-append :
    (s t : Text) → digits_value (s ++ t) ≡ digits_value s * 10 ^ length t + digits_value t
digits_value-append s t = digits_from-append 0 s t ∙ digits_from-add (digits_value s) t

pub digits_value-lt : (s : Text) → all_digits s ≡ true → digits_value s < 10 ^ length s
digits_value-lt [] h = omega arith
digits_value-lt (c ∷ cs) h =
    let digit : c - b'0' ≤ 9 = ground arith in
    let rest : digits_value cs < 10 ^ length cs = digits_value-lt cs (ground arith) in
    let part : (c - b'0') * 10 ^ length cs ≤ 9 * 10 ^ length cs = grind arith in
    omega (arith, digits_from-add (0 + (c - b'0')) cs, pow-suc 10 (length cs))

all_zeros-value : (s : Text) → all_zeros s ≡ true → digits_value s ≡ 0
all_zeros-value [] h = refl
all_zeros-value (c ∷ cs) h =
    let rest : digits_value cs ≡ 0 = all_zeros-value cs (ground arith) in
    let first : c - b'0' ≡ 0 = ground arith in
    digits_from-add (0 + (c - b'0')) cs ∙ rw (first, rest) (omega arith)

value-all_zeros : (s : Text) → all_digits s ≡ true → digits_value s ≡ 0 → all_zeros s ≡ true
value-all_zeros [] h z = refl
value-all_zeros (c ∷ cs) h z =
    let digit : b'0' ≤ c = ground arith in
    let rest : digits_value cs ≡ 0 = omega (arith, digits_from-add (0 + (c - b'0')) cs) in
    let none : (c - b'0') * 10 ^ length cs ≡ 0 =
      omega (arith, digits_from-add (0 + (c - b'0')) cs) in
    let first : c ≡ b'0' = elim (dec_le c b'0') [
      | yes l ↦ omega arith
      | no g ↦ absurd (grind (arith, ten_pow-pos (length cs)))
    ] in
    ground (arith, value-all_zeros cs)

pub all_zeros_iff : (s : Text) → all_digits s ≡ true → (all_zeros s ≡ true) ↔ (digits_value s ≡ 0)
all_zeros_iff s h = (all_zeros-value s, value-all_zeros s h)

pub all_digits-take : (n : ℕ) (s : Text) → all_digits s ≡ true → all_digits (take n s) ≡ true
all_digits-take zero s h = refl
all_digits-take (suc n) [] h = refl
all_digits-take (suc n) (c ∷ cs) h = ground (arith, all_digits-take n cs)

pub all_digits-drop : (n : ℕ) (s : Text) → all_digits s ≡ true → all_digits (drop n s) ≡ true
all_digits-drop zero s h = h
all_digits-drop (suc n) [] h = refl
all_digits-drop (suc n) (c ∷ cs) h = all_digits-drop n cs (ground arith)

-- A value of digits, taken apart behind the first `n` of them.
pub digits_value-split :
    (n : ℕ) (s : Text)
    → n ≤ length s
    → digits_value s ≡ digits_value (take n s) * 10 ^ (length s - n) + digits_value (drop n s)
digits_value-split n s h =
    ap digits_value (sym (take-append-drop n s))
    ∙ digits_value-append (take n s) (drop n s)
    ∙ ap (λ k. digits_value (take n s) * 10 ^ k + digits_value (drop n s)) (length-drop n s)

-- Digits that begin with a digit other than 0 have a value of their length.
pub digits_value-ge :
    (c : ℕ) (cs : Text) → is_digit c ≡ true → c ≢ b'0' → 10 ^ length cs ≤ digits_value (c ∷ cs)
digits_value-ge c cs h n =
    let first : 1 ≤ c - b'0' = ground arith in
    let part : 10 ^ length cs ≤ (c - b'0') * 10 ^ length cs = grind arith in
    omega (arith, digits_from-add (0 + (c - b'0')) cs)
