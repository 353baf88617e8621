-- ===== src/Plan/KeyType.antt =====
-- src/plan/key_type.cc: the type a join key is compared in.
use antb.Prelude.{
  ℕ, ◌+◌, ◌-◌, ◌≤◌, ◌≡◌, refl, Bool, true, false, not, ◌&&◌, ◌||◌, ◌==◌, ltb, leb, max, Option,
  none, some, if◌then◌else◌, arith,
}
use antb.Plan.Types.{
  TypeId, small_int, integer, big_int, u_small_int, huge_int, decimal, double, varchar, date,
  timestamp, boolean, LogicalType, of_id, decimal_type, max_decimal_width, is, same_type,
  is_integer, IsValid,
}
pub mod Laws

abbrev rank : TypeId → ℕ
rank small_int = 1
rank integer = 2
rank big_int = 3
rank huge_int = 4
rank _ = 0

unfoldable pub signed_rank : LogicalType → ℕ
signed_rank t = rank t.id

unfoldable pub combine_integers : LogicalType → LogicalType → LogicalType
unfolding signed_rank
combine_integers a b =
    if same_type a b
    then a
    else if is a u_small_int || is b u_small_int
    then (let other = if is a u_small_int then b else a in
        if is other small_int then of_id big_int else other)
    else if leb (signed_rank b) (signed_rank a)
    then a
    else b

abbrev integer_width : TypeId → ℕ
integer_width small_int = 5
integer_width u_small_int = 5
integer_width integer = 10
integer_width big_int = 19
integer_width _ = max_decimal_width

unfoldable pub decimal_of_integer : LogicalType → LogicalType
decimal_of_integer t = decimal_type (integer_width t.id) 0

abbrev pub wide : LogicalType → LogicalType
wide t = if is t decimal then t else decimal_of_integer t

-- The last part of `KeyType`: one DECIMAL for two exact numbers.
unfoldable pub key_decimal : LogicalType → LogicalType → Option LogicalType
key_decimal a b =
    let scale = max a.scale b.scale in
    let digits = max (a.width - a.scale) (b.width - b.scale) in
    if ltb max_decimal_width (digits + scale)
    then none
    else some (decimal_type (digits + scale) scale)

unfoldable pub key_type : LogicalType → LogicalType → Option LogicalType
unfolding is_integer combine_integers decimal_of_integer key_decimal
key_type a b =
    if is a double || is b double || is a boolean || is b boolean
    then none
    else if same_type a b
    then some a
    else if is_integer a && is_integer b
    then some (combine_integers a b)
    else if not (is a decimal || is_integer a) || not (is b decimal || is_integer b)
    then none
    else key_decimal (wide a) (wide b)
