-- ===== src/Common/Int128.antt =====
-- src/common/int128.cc and int128.h: exact 128-bit integers. An `Int128` is an integer in
-- [-2^127, 2^127); the overflow builtins compute the exact result and test that range.
use antb.Prelude.{
  ℕ, zero, suc, ◌+◌, ◌-◌, ◌*◌, ◌/◌, ◌%◌, ◌^◌, ◌≤◌, Bool, Option, none, some, List, [], ◌∷◌, ◌++◌,
  ltb, leb, ◌==◌, if◌then◌else◌,
}
use antb.Prelude.Int.{ℤ, pos, negsuc, neg, scale_by, ltb_ℤ, ◌+ℤ◌}
use mathlib.Core.List.{reverse}
pub mod Text
pub mod Order
pub mod Rounding

-- The values of an `Int128`, and the test of the overflow builtins.
abbrev pub IsInt128 : ℤ → Type 0
IsInt128 (pos n) = suc n ≤ 2 ^ 127
IsInt128 (negsuc n) = suc n ≤ 2 ^ 127

abbrev pub fits : ℤ → Bool
fits (pos n) = ltb n (2 ^ 127)
fits (negsuc n) = ltb n (2 ^ 127)

abbrev pub Text : Type 0
Text = List ℕ

-- `static_cast<UInt128>(value)`: two's complement.
abbrev pub to_unsigned : ℤ → ℕ
to_unsigned (pos n) = n
to_unsigned (negsuc n) = 2 ^ 128 - suc n

abbrev pub is_negative : ℤ → Bool
is_negative v = ltb_ℤ v (pos 0)

-- The loop over `magnitude`; `none` means that the fuel ran out.
unfoldable pub push_digits : ℕ → ℕ → Text → Option Text
push_digits zero m digits = if m == 0 then some digits else none
push_digits (suc f) m digits =
    let rest = push_digits f (m / 10) (digits ++ (b'0' + m % 10) ∷ []) in
    if m == 0 then some digits else rest

-- The unsigned magnitude: 0 - value wraps around for a negative value.
unfoldable pub magnitude : ℤ → ℕ
magnitude v = if is_negative v then (0 + 2 ^ 128 - to_unsigned v) % 2 ^ 128 else to_unsigned v

-- What follows the loop: the sign, and the digits turned round.
abbrev pub signed_text : Bool → Option Text → Option Text
signed_text negative none = none
signed_text negative (some digits) =
    some (reverse (if negative then digits ++ b'-' ∷ [] else digits))

-- The 128 bits of the magnitude have at most 39 decimal digits.
unfoldable pub int128_to_string : ℤ → Option Text
int128_to_string v =
    let digits = push_digits 39 (magnitude v) [] in
    if to_unsigned v == 0 then some (b'0' ∷ []) else signed_text (is_negative v) digits

unfoldable pub int128_to_int64 : ℤ → Option ℤ
int128_to_int64 v =
    if ltb_ℤ v (neg (2 ^ 63)) then none else if ltb_ℤ (pos (2 ^ 63 - 1)) v then none else some v

-- `__builtin_add_overflow` and `__builtin_mul_overflow`, the second by a power of ten.
unfoldable pub checked_add : ℤ → ℤ → Option ℤ
checked_add a b = if fits (a +ℤ b) then some (a +ℤ b) else none

abbrev pub mul_overflow : ℤ → ℕ → Option ℤ
mul_overflow a d = if fits (scale_by a d) then some (scale_by a d) else none

-- A failed ANTB1_CHECK ends the program: `none`.
abbrev pub max_power_of_ten : ℕ
max_power_of_ten = 38

unfoldable pub power_of_ten : ℕ → Option ℕ
power_of_ten n = if leb n max_power_of_ten then some (10 ^ n) else none

-- The three-way answers -1, 0 and 1.
pub data Sign : Type 0 where
  less equal greater : Sign

unfoldable pub compare_ℤ : ℤ → ℤ → Sign
compare_ℤ a b = if ltb_ℤ a b then less else if ltb_ℤ b a then greater else equal

-- One side is multiplied up; where that overflows its sign decides.
unfoldable pub compare_up : ℤ → ℕ → ℤ → Sign
unfolding compare_ℤ
compare_up a d b = elim (mul_overflow a d) [
  | none ↦ if is_negative a then less else greater
  | some scaled ↦ compare_ℤ scaled b
]

unfoldable pub compare_down : ℤ → ℤ → ℕ → Sign
unfolding compare_ℤ
compare_down a b d = elim (mul_overflow b d) [
  | none ↦ if is_negative b then greater else less
  | some scaled ↦ compare_ℤ a scaled
]

unfoldable pub compare_scaled : ℤ → ℕ → ℤ → ℕ → Option Sign
compare_scaled a a_scale b b_scale =
    if ltb a_scale b_scale
    then elim (power_of_ten (b_scale - a_scale)) [ none ↦ none | some d ↦ some (compare_up a d b) ]
    else if ltb b_scale a_scale
    then elim (power_of_ten (a_scale - b_scale)) [
      | none ↦ none
      | some d ↦ some (compare_down a b d)
    ]
    else some (compare_ℤ a b)

-- C++ division of an `Int128` by a positive number: towards zero.
abbrev pub div_trunc : ℤ → ℕ → ℤ
div_trunc (pos n) d = pos (n / d)
div_trunc (negsuc n) d = neg (suc n / d)

abbrev pub halved : Option ℤ → Option ℤ
halved none = none
halved (some sum) = some (div_trunc sum 2)

-- Division by the power of ten `f`, half away from zero; `none` where the addition overflows.
unfoldable pub round_down : ℤ → ℕ → Option ℤ
unfolding checked_add
round_down v f =
    let halves = div_trunc v (f / 2) in
    halved (checked_add halves (if is_negative halves then negsuc 0 else pos 1))

-- What is undefined counts as a failed check.
abbrev pub rescaled_down : Option ℤ → Option (Option ℤ)
rescaled_down none = none
rescaled_down (some r) = some (some r)

-- The outer `none` is a failed check, the inner one an overflow.
unfoldable pub rescale : ℤ → ℕ → ℕ → Option (Option ℤ)
unfolding round_down
rescale v from to =
    if leb from to
    then elim (power_of_ten (to - from)) [ none ↦ none | some d ↦ some (mul_overflow v d) ]
    else elim (power_of_ten (from - to)) [ none ↦ none | some f ↦ rescaled_down (round_down v f) ]
