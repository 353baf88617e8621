-- ===== src/Plan/Types.antt =====
-- src/plan/include/antb1/plan/types.h and types.cc: the engine's SQL types.
use antb.Prelude.{ℕ, ◌≤◌, ◌≡◌, Bool, true, false, not, arith, ◌&&◌, ◌||◌, ◌==◌}

pub data TypeId : Type 0 where
  small_int integer big_int u_small_int huge_int decimal double varchar date timestamp boolean :
      TypeId

-- The enumeration's value, by which two ids are compared.
abbrev pub value : TypeId → ℕ
value small_int = 0
value integer = 1
value big_int = 2
value u_small_int = 3
value huge_int = 4
value decimal = 5
value double = 6
value varchar = 7
value date = 8
value timestamp = 9
value boolean = 10

pub record LogicalType : Type 0 where
  pub id : TypeId
  pub width : ℕ
  pub scale : ℕ

-- A type without parameters is written as its id.
abbrev pub of_id : TypeId → LogicalType
of_id i = record { id = i; width = 0; scale = 0 }

abbrev pub decimal_type : ℕ → ℕ → LogicalType
decimal_type w s = record { id = decimal; width = w; scale = s }

abbrev pub max_decimal_width : ℕ
max_decimal_width = 38

abbrev pub is : LogicalType → TypeId → Bool
is t i = value t.id == value i

abbrev pub same_type : LogicalType → LogicalType → Bool
same_type a b = value a.id == value b.id && (a.width == b.width && a.scale == b.scale)

abbrev is_integer_id : TypeId → Bool
is_integer_id small_int = true
is_integer_id integer = true
is_integer_id big_int = true
is_integer_id u_small_int = true
is_integer_id huge_int = true
is_integer_id _ = false

unfoldable pub is_integer : LogicalType → Bool
is_integer t = is_integer_id t.id

unfoldable pub is_numeric : LogicalType → Bool
unfolding is_integer
is_numeric t = is_integer t || is t double

unfoldable pub has_comparable_statistics : LogicalType → Bool
unfolding is_integer
has_comparable_statistics t = is_integer t && not (is t huge_int) || is t date || is t decimal

-- What the constructors of the class promise: only a DECIMAL has a width and a scale, and the
-- caller of `Decimal` checks 1 <= width <= 38 and scale <= width.
abbrev IsValidId : TypeId → ℕ → ℕ → Type 0
IsValidId decimal w s = (1 ≤ w) × (w ≤ 38) × (s ≤ w)
IsValidId _ w s = (w ≡ 0) × (s ≡ 0)

abbrev pub IsValid : LogicalType → Type 0
IsValid t = IsValidId t.id t.width t.scale

value-injective : (i j : TypeId) → (value i == value j) ≡ true → i ≡ j
value-injective i j e = ground arith

pub same_type→eq : (a b : LogicalType) → same_type a b ≡ true → a ≡ b
same_type→eq a b e = ground (arith, value-injective a.id b.id)
