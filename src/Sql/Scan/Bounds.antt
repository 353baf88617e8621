-- ===== src/Sql/Scan/Bounds.antt =====
-- The loops of `Lexer::Next` in src/sql/lexer.cc stay within the text.
use antb.Prelude.{
  ℕ, zero, suc, ◌+◌, ◌-◌, ◌≤◌, ◌<◌, ◌≡◌, inl, inr, Bool, true, false, not, ◌&&◌, ◌||◌, Option, none,
  some, [], ◌∷◌, length, length-drop, drop, arith, ◌==◌, Bool-cases, if_elim,
}
use antb.Common.Int128.{Text}
use antb.Sql.Token.{is_digit, is_newline, is_ident_char, is_space}
use antb.Sql.Scan.{
  count_while, block_length, line_comment_length, Blank, blank, open_comment, out_of_fuel,
  skip_blank, is_based_literal, based_length, fraction_length, exponent_length, mantissa_length,
  number_length, first_byte, digits_behind, sign_length, operator_length, without_signs, trimmed,
  quoted, past, starts_pair, opens_comment, closes_comment, advance, keep,
}

pub count_while-le : (p : ℕ → Bool) (s : Text) → count_while p s ≤ length s
unfolding count_while
count_while-le p [] = omega arith
count_while-le p (c ∷ cs) = ground (arith, count_while-le p cs)

pub count_while-pos : (p : ℕ → Bool) (c : ℕ) (cs : Text) → p c ≡ true → 0 < count_while p (c ∷ cs)
unfolding count_while
count_while-pos p c cs h = ground arith

count_while-none : (p : ℕ → Bool) (c : ℕ) (cs : Text) → p c ≡ false → count_while p (c ∷ cs) ≡ 0
unfolding count_while
count_while-none p c cs h = ground arith

-- What a loop may answer: within the text, and at least `least`.
abbrev pub Within : ℕ → Text → Option ℕ → Type 0
Within least s none = Unit
Within least s (some n) = (least ≤ n) × (n ≤ length s)

Within-advance :
    (k j : ℕ) (s t : Text) (r : Option ℕ)
    → length s ≡ k + length t
    → 1 ≤ k
    → Within j t r
    → Within 1 s (advance k r)
Within-advance k j s t none e l h = tt
Within-advance k j s t (some n) e l h = omega arith

pub block_length-Within : (d : ℕ) (s : Text) → Within 1 s (block_length d s)
unfolding block_length
block_length-Within d [] = tt
block_length-Within d (c ∷ []) = tt
block_length-Within d (c ∷ e ∷ cs) =
    let P : Option ℕ → Type 0 = Within 1 (c ∷ e ∷ cs) in
    let deeper : P (advance 2 (block_length (d + 1) cs)) =
      Within-advance 2 1 (c ∷ e ∷ cs) cs _ (omega arith) (omega arith)
        (block_length-Within (d + 1) cs) in
    let shallower : P (advance 2 (block_length (d - 1) cs)) =
      Within-advance 2 1 (c ∷ e ∷ cs) cs _ (omega arith) (omega arith)
        (block_length-Within (d - 1) cs) in
    let on : P (advance 1 (block_length d (e ∷ cs))) =
      Within-advance 1 1 (c ∷ e ∷ cs) (e ∷ cs) _ (omega arith) (omega arith)
        (block_length-Within d (e ∷ cs)) in
    if_elim P (opens_comment (c ∷ e ∷ cs)) _ _ (λ _. deeper)
      λ _.
        if_elim P (not (closes_comment (c ∷ e ∷ cs))) _ _ (λ _. on)
          λ _. if_elim P (d == 1) _ _ (λ _. omega arith) (λ _. shallower)

-- Where the loop over blanks may stop, with enough fuel.
abbrev pub Stops : Text → Blank → Type 0
Stops s (blank n) = n ≤ length s
Stops s (open_comment n) = n < length s
Stops s out_of_fuel = ⊥

Stops-past : (k : ℕ) (s : Text) (b : Blank) → k ≤ length s → Stops (drop k s) b → Stops s (past k b)
Stops-past k s (blank n) h w = omega (arith, length-drop k s)
Stops-past k s (open_comment n) h w = omega (arith, length-drop k s)
Stops-past k s out_of_fuel h w = w

line_comment_length-le :
    (s : Text)
    → starts_pair b'-' b'-' s ≡ true
    → (1 ≤ line_comment_length s) × (line_comment_length s ≤ length s)
unfolding line_comment_length
line_comment_length-le [] h = cc
line_comment_length-le (c ∷ []) h = cc
line_comment_length-le (c ∷ d ∷ cs) h = omega (arith, count_while-le (λ c. not (is_newline c)) cs)

pub skip_blank-Stops : (f : ℕ) (s : Text) → length s < f → Stops s (skip_blank f s)
unfolding skip_blank
skip_blank-Stops zero s h = elim h [ ]
skip_blank-Stops (suc f) [] h = omega arith
skip_blank-Stops (suc f) (c ∷ cs) h = step (skip_blank-Stops f)
  where
    s : Text
    s = c ∷ cs

    P : Blank → Type 0
    P = Stops s

    Later : Type 0
    Later = (k : ℕ) → 1 ≤ k → k ≤ length s → P (past k (skip_blank f (drop k s)))

    closed :
        Later
        → (r : Option ℕ) → Within 1 s r
        → P (elim r [ none ↦ open_comment 0 | some n ↦ past n (skip_blank f (drop n s)) ])
    closed again none w = omega arith
    closed again (some n) w = again n w.0 w.1

    split : Later → P (skip_blank (suc f) s)
    split again =
        if_elim P (is_space c) _ _ (λ _. again 1 (omega arith) (omega arith))
          λ _.
            if_elim P (starts_pair b'-' b'-' s) _ _
              (λ e.
                again (line_comment_length s) (line_comment_length-le s e).0
                  (line_comment_length-le s e).1)
              λ _.
                if_elim P (opens_comment s) _ _
                  (λ _. closed again (block_length 0 s) (block_length-Within 0 s))
                  (λ _. omega arith)

    step : ((t : Text) → length t < f → Stops t (skip_blank f t)) → P (skip_blank (suc f) s)
    step ih = split λ k l u. Stops-past k s _ u (ih (drop k s) (omega (arith, length-drop k s)))

pub is_based_literal-length : (s : Text) → is_based_literal s ≡ true → based_length s ≤ length s
unfolding is_based_literal based_length
is_based_literal-length [] h = cc
is_based_literal-length (c ∷ []) h = cc
is_based_literal-length (c ∷ d ∷ []) h = cc
is_based_literal-length (c ∷ d ∷ e ∷ cs) h = omega (arith, count_while-le is_ident_char (e ∷ cs))

pub fraction_length-le : (s : Text) → fraction_length s ≤ length s
unfolding fraction_length
fraction_length-le [] = omega arith
fraction_length-le (c ∷ cs) = ground (arith, count_while-le is_digit cs)

digits_behind-le : (n : ℕ) (s : Text) → digits_behind n (drop n s) ≤ length s
digits_behind-le n s = at (drop n s) (length-drop n s)
  where
    at : (t : Text) → length t ≡ length s - n → digits_behind n t ≤ length s
    at [] e = omega arith
    at (c ∷ cs) e = ground (arith, count_while-le is_digit (c ∷ cs))

pub exponent_length-le : (s : Text) → exponent_length s ≤ length s
unfolding exponent_length
exponent_length-le s = ground (arith, digits_behind-le (1 + sign_length (drop 1 s)) s)

mantissa_length-le : (s : Text) → mantissa_length s ≤ length s
unfolding mantissa_length
mantissa_length-le s = omega (
  arith,
  count_while-le is_digit s,
  fraction_length-le (drop (count_while is_digit s) s),
  length-drop (count_while is_digit s) s,
)

pub number_length-le : (s : Text) → number_length s ≤ length s
unfolding number_length
number_length-le s = omega (
  arith,
  mantissa_length-le s,
  exponent_length-le (drop (mantissa_length s) s),
  length-drop (mantissa_length s) s,
)

pub number_length-pos :
    (c : ℕ) (cs : Text)
    → (is_digit c || (c == b'.' && is_digit (first_byte cs))) ≡ true
    → 0 < number_length (c ∷ cs)
unfolding number_length mantissa_length fraction_length
number_length-pos c cs h = elim (Bool-cases (is_digit c)) [
  | inl e ↦ omega (arith, count_while-pos is_digit c cs e)
  | inr e ↦ rw (count_while-none is_digit c cs e) (ground arith)
]

pub operator_length-le : (s : Text) → operator_length s ≤ length s
unfolding operator_length
operator_length-le [] = omega arith
operator_length-le (c ∷ cs) = ground (arith, operator_length-le cs)

without_signs-le : (s : Text) → length (without_signs s) ≤ length s
unfolding without_signs
without_signs-le [] = omega arith
without_signs-le (c ∷ cs) = ground (arith, without_signs-le cs)

pub trimmed-le : (s : Text) → length (trimmed s) ≤ length s
unfolding trimmed
trimmed-le [] = omega arith
trimmed-le (c ∷ cs) = ground (arith, without_signs-le cs)

pub trimmed-pos : (c : ℕ) (cs : Text) → 0 < length (trimmed (c ∷ cs))
unfolding trimmed
trimmed-pos c cs = ground arith

abbrev pub WithinQuoted : Text → Option (Text × ℕ) → Type 0
WithinQuoted s none = Unit
WithinQuoted s (some (value, n)) = (1 ≤ n) × (n ≤ length s)

WithinQuoted-keep :
    (quote k : ℕ) (s t : Text) (r : Option (Text × ℕ))
    → length s ≡ k + length t
    → 1 ≤ k
    → WithinQuoted t r
    → WithinQuoted s (keep quote k r)
WithinQuoted-keep quote k s t none e l h = tt
WithinQuoted-keep quote k s t (some (value, n)) e l h = omega arith

pub quoted-Within : (quote : ℕ) (s : Text) → WithinQuoted s (quoted quote s)
unfolding quoted
quoted-Within quote [] = tt
quoted-Within quote (c ∷ []) = ground arith
quoted-Within quote (c ∷ d ∷ cs) =
    if_elim P (not (c == quote)) _ _
      (λ _.
        WithinQuoted-keep c 1 (c ∷ d ∷ cs) (d ∷ cs) _ (omega arith) (omega arith)
          (quoted-Within quote (d ∷ cs)))
      λ _.
        if_elim P (d == quote) _ _
          (λ _.
            WithinQuoted-keep quote 2 (c ∷ d ∷ cs) cs _ (omega arith) (omega arith)
              (quoted-Within quote cs))
          (λ _. omega arith)
  where
    P : Option (Text × ℕ) → Type 0
    P = WithinQuoted (c ∷ d ∷ cs)
