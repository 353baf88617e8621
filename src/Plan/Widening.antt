-- ===== src/Plan/Widening.antt =====
-- src/plan/literal.cc (`RangeOf`) and src/plan/logical_plan.cc (`IsExactWidening`,
-- `IsExecutableCast`): the values of a type, and the casts that keep each of them.
use antb.Prelude.{
  ℕ, zero, suc, ◌+◌, ◌-◌, ◌/◌, ◌^◌, Bool, true, false, ◌&&◌, ◌||◌, ltb, leb, max, not, Option, none,
  some, if◌then◌else◌,
}
use antb.Prelude.Int.{ℤ, pos, neg, leb_ℤ, pos_part, neg_part}
use antb.Plan.Types.{
  TypeId, small_int, integer, big_int, u_small_int, huge_int, decimal, double, LogicalType, is,
  same_type, is_integer,
}

pub record IntegerRange : Type 0 where
  pub min : ℤ
  pub max : ℤ

abbrev range : ℕ → ℕ → IntegerRange
range low high = record { min = neg low; max = pos high }

-- A failed check ends the program: `none`.
unfoldable pub range_of : LogicalType → Option IntegerRange
range_of t = at t.id t.width
  where
    at : TypeId → ℕ → Option IntegerRange
    at small_int w = some (range (2 ^ 15) (2 ^ 15 - 1))
    at integer w = some (range (2 ^ 31) (2 ^ 31 - 1))
    at big_int w = some (range (2 ^ 63) (2 ^ 63 - 1))
    at u_small_int w = some (range 0 (2 ^ 16 - 1))
    at huge_int w = some (range (10 ^ 38 - 1) (10 ^ 38 - 1))
    at decimal w = some (range (10 ^ w - 1) (10 ^ w - 1))
    at _ w = none

unfoldable pub within : Option IntegerRange → Option IntegerRange → Bool
within (some inner) (some outer) = leb_ℤ outer.min inner.min && leb_ℤ inner.max outer.max
within _ _ = false

-- The loop over `magnitude`; a magnitude below 10 ^ 39 leaves it within 39 rounds.
abbrev count_digits : ℕ → ℕ → ℕ
count_digits zero magnitude = 0
count_digits (suc fuel) magnitude =
    let rest = count_digits fuel (magnitude / 10) in if ltb 0 magnitude then rest + 1 else 0

unfoldable pub integer_digits : LogicalType → ℕ
unfolding range_of
integer_digits t = digits (range_of t)
  where
    digits : Option IntegerRange → ℕ
    digits none = 0
    digits (some r) = count_digits 39 (max (pos_part r.max) (neg_part r.min))

unfoldable pub is_exact_widening : LogicalType → LogicalType → Bool
unfolding is_integer within range_of integer_digits
is_exact_widening from to =
    if same_type from to
    then true
    else if is_integer from && is_integer to
    then within (range_of from) (range_of to)
    else if not (is to decimal)
    then false
    else if is_integer from
    then leb (integer_digits from) (to.width - to.scale)
    else is from decimal
      && (leb from.scale to.scale && leb (from.width - from.scale) (to.width - to.scale))

unfoldable pub is_executable_cast : LogicalType → LogicalType → Bool
unfolding is_exact_widening
is_executable_cast from to =
    let exact_number = is_integer from || is from decimal in
    is_exact_widening from to
    || (is to decimal && exact_number)
    || (is_integer to && (exact_number || (is from double && not (is to huge_int))))
