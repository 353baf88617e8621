-- ===== src/Plan/TypeFold/Laws.antt =====
-- The common type does not depend on the order of the two values.
use antb.Prelude.{ℕ, ◌-◌, ◌≡◌, refl, ap, true, false, max, none, some, arith, Bool-cases, inl, inr}
use antb.Plan.Types.{
  TypeId, decimal, varchar, LogicalType, is, same_type, is_integer, IsValid, same_type→eq,
}
use antb.Plan.KeyType.{combine_integers, decimal_of_integer}
use antb.Plan.TypeFold.{
  common_integer, common_decimals, common_decimal, common_type, common_value_type, ValueType,
}

combine_integers_comm :
    (a b : LogicalType)
    → IsValid a
    → IsValid b
    → is_integer a ≡ true
    → is_integer b ≡ true
    → combine_integers a b ≡ combine_integers b a
unfolding combine_integers is_integer
combine_integers_comm a b ha hb p q = ground arith

common_integer_comm :
    (a b : LogicalType)
    → IsValid a
    → IsValid b
    → is_integer a ≡ true
    → is_integer b ≡ true
    → common_integer a b ≡ common_integer b a
unfolding common_integer
common_integer_comm a b ha hb p q = ground (arith, combine_integers_comm a b ha hb p q)

max_comm : (a b : ℕ) → max a b ≡ max b a
max_comm a b = omega arith

common_decimals_comm : (a b : LogicalType) → common_decimals a b ≡ common_decimals b a
unfolding common_decimals
common_decimals_comm a b =
    rw (max_comm (a.width - a.scale) (b.width - b.scale), max_comm a.scale b.scale) refl

common_decimal_comm :
    (a b : LogicalType)
    → is a decimal ≡ true
    → is b decimal ≡ true
    → common_decimal a b ≡ common_decimal b a
unfolding common_decimal
common_decimal_comm a b p q = rw (p, q) (common_decimals_comm a b)

abbrev type_of : TypeId → ℕ → ℕ → LogicalType
type_of i w s = record { id = i; width = w; scale = s }

common_type_comm_at :
    (i j : TypeId) (w s v r : ℕ)
    → IsValid (type_of i w s)
    → IsValid (type_of j v r)
    → same_type (type_of i w s) (type_of j v r) ≡ false
    → common_type (type_of i w s) (type_of j v r) ≡ common_type (type_of j v r) (type_of i w s)
unfolding common_type is_integer
common_type_comm_at varchar j w s v r ha hb n = ground arith
common_type_comm_at decimal decimal w s v r ha hb n =
    common_decimal_comm (type_of decimal w s) (type_of decimal v r) refl refl
common_type_comm_at i j w s v r ha hb n =
    ground (arith, common_integer_comm (type_of i w s) (type_of j v r) ha hb)

same_type_comm : (a b : LogicalType) → same_type a b ≡ same_type b a
same_type_comm a b = ground arith

abbrev pub IsValidValue : ValueType → Type 0
IsValidValue none = Unit
IsValidValue (some t) = IsValid t

-- The common type of two values does not depend on their order.
pub common_value_type_comm :
    (a b : ValueType)
    → IsValidValue a
    → IsValidValue b
    → common_value_type a b ≡ common_value_type b a
unfolding common_value_type
common_value_type_comm none none ha hb = refl
common_value_type_comm none (some y) ha hb = refl
common_value_type_comm (some x) none ha hb = refl
common_value_type_comm (some x) (some y) ha hb = elim (Bool-cases (same_type x y)) [
  | inl e ↦ rw (e, same_type_comm y x, e) (ap some (same_type→eq x y e))
  | inr e ↦
      rw (e, same_type_comm y x, e)
        (ap some (common_type_comm_at x.id y.id x.width x.scale y.width y.scale ha hb e))
]

combine_integers-IsValid :
    (a b : LogicalType) → IsValid a → IsValid b → IsValid (combine_integers a b)
unfolding combine_integers
combine_integers-IsValid a b ha hb = ground arith

common_decimals-IsValid :
    (w s v r : ℕ)
    → IsValid (type_of decimal w s)
    → IsValid (type_of decimal v r)
    → IsValid (common_decimals (type_of decimal w s) (type_of decimal v r))
unfolding common_decimals
common_decimals-IsValid w s v r ha hb = ground arith

common_decimal-IsValid :
    (w s : ℕ) (b : LogicalType)
    → IsValid (type_of decimal w s)
    → IsValid b
    → IsValid (common_decimal (type_of decimal w s) b)
unfolding common_decimal decimal_of_integer
common_decimal-IsValid w s b ha hb = ground (arith, common_decimals-IsValid w s b.width b.scale ha)

common_type-IsValid_at :
    (i j : TypeId) (w s v r : ℕ)
    → IsValid (type_of i w s)
    → IsValid (type_of j v r)
    → IsValid (common_type (type_of i w s) (type_of j v r))
unfolding common_type common_integer
common_type-IsValid_at varchar j w s v r ha hb = ground arith
common_type-IsValid_at decimal j w s v r ha hb =
    ground (arith, common_decimal-IsValid w s (type_of j v r) ha hb)
common_type-IsValid_at i decimal w s v r ha hb =
    ground (arith, common_decimal-IsValid v r (type_of i w s) hb ha)
common_type-IsValid_at i j w s v r ha hb =
    ground (arith, combine_integers-IsValid (type_of i w s) (type_of j v r) ha hb)

-- The common type of two valid types is valid: a DECIMAL keeps 1 to 38 digits, of which its scale
-- is a part.
pub common_value_type-IsValid :
    (a b : ValueType) → IsValidValue a → IsValidValue b → IsValidValue (common_value_type a b)
unfolding common_value_type
common_value_type-IsValid none b ha hb = hb
common_value_type-IsValid (some x) none ha hb = ha
common_value_type-IsValid (some x) (some y) ha hb = elim (Bool-cases (same_type x y)) [
  | inl e ↦ rw e ha
  | inr e ↦ rw e (common_type-IsValid_at x.id y.id x.width x.scale y.width y.scale ha hb)
]
