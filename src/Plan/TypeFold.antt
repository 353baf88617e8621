-- ===== src/Plan/TypeFold.antt =====
-- src/plan/type_fold.cc: the common type of two values.
use antb.Prelude.{
  ℕ, ◌+◌, ◌-◌, ◌≤◌, ◌≡◌, refl, Bool, true, false, not, ◌&&◌, ◌||◌, ◌==◌, ltb, leb, max, min, Option,
  none, some, if◌then◌else◌, arith,
}
use antb.Plan.Types.{
  TypeId, small_int, integer, big_int, u_small_int, huge_int, decimal, double, varchar, date,
  timestamp, boolean, LogicalType, of_id, decimal_type, max_decimal_width, is, same_type,
  is_integer, is_numeric, IsValid,
}
use antb.Plan.KeyType.{combine_integers, decimal_of_integer}
pub mod Laws

unfoldable pub common_integer : LogicalType → LogicalType → LogicalType
common_integer a b =
    if is a u_small_int && is b small_int || is a small_int && is b u_small_int
    then of_id integer
    else combine_integers a b

-- Two DECIMALs, then a DECIMAL and an integer type.
unfoldable pub common_decimals : LogicalType → LogicalType → LogicalType
common_decimals a b =
    let integers = max (a.width - a.scale) (b.width - b.scale) in
    let scale = max a.scale b.scale in
    if leb (integers + scale) max_decimal_width
    then decimal_type (integers + scale) scale
    else decimal_type max_decimal_width (max_decimal_width - integers)

unfoldable pub common_decimal : LogicalType → LogicalType → LogicalType
unfolding common_decimals
common_decimal d other =
    if not (is other decimal)
    then (let digits = (decimal_of_integer other).width in
        if leb digits (d.width - d.scale)
        then d
        else decimal_type (min max_decimal_width (digits + d.scale)) d.scale)
    else common_decimals d other

abbrev pub is_temporal : LogicalType → Bool
is_temporal t = is t date || is t timestamp

abbrev pub is_number : LogicalType → Bool
is_number t = is_numeric t || is t decimal

-- A value's type, or the type of NULL.
abbrev pub ValueType : Type 0
ValueType = Option LogicalType

unfoldable pub common_type : LogicalType → LogicalType → LogicalType
common_type x y =
    if is x varchar || is y varchar
    then of_id varchar
    else if is_temporal x && is_temporal y
    then of_id timestamp
    else if is_temporal x || is_temporal y
    then if is_temporal x then x else y
    else if is x boolean || is y boolean
    then if is x boolean then y else x
    else if is x double || is y double
    then of_id double
    else if is x decimal || is y decimal
    then if is x decimal then common_decimal x y else common_decimal y x
    else common_integer x y

unfoldable pub common_value_type : ValueType → ValueType → ValueType
common_value_type none b = b
common_value_type (some a) none = some a
common_value_type (some a) (some b) = if same_type a b then some a else some (common_type a b)

unfoldable pub duck_db_case_mixes : ValueType → ValueType → Bool
duck_db_case_mixes none b = true
duck_db_case_mixes (some x) none = true
duck_db_case_mixes (some x) (some y) =
    if same_type x y
    then true
    else if is_temporal x || is_temporal y
    then is_temporal x && is_temporal y
    else if is x boolean || is y boolean
    then is_integer (if is x boolean then y else x)
    else is_number x && is_number y
