-- ===== src/Plan/Predicate.antt =====
-- src/plan/include/antb1/plan/logical_plan.h: comparisons of a column with constants. Of a
-- `BoundColumn` and a `Predicate` the fields that the rules read: no ids, names or source spans.
use antb.Prelude.{ℕ, Bool, true, false, Option, List}
use antb.Prelude.Int.{ℤ}
use antb.Common.Int128.{Text, Sign, less, equal, greater}
use antb.Plan.Types.{LogicalType}

pub data CompareOp : Type 0 where
  eq ne lt le gt ge : CompareOp

-- What an operator says of a three-way comparison.
unfoldable pub holds : CompareOp → Sign → Bool
holds eq equal = true
holds eq _ = false
holds ne equal = false
holds ne _ = true
holds lt less = true
holds lt _ = false
holds le greater = false
holds le _ = true
holds gt greater = true
holds gt _ = false
holds ge less = false
holds ge _ = true

-- A DOUBLE is its 64 bits: no rule here computes with one.
pub data Value : Type 0 where
  int : ℤ → Value
  double_bits : ℕ → Value
  text : Text → Value
  null : Value

pub record Constant : Type 0 where
  pub type : LogicalType
  pub value : Value

pub record BoundColumn : Type 0 where
  pub index : ℤ
  pub type : LogicalType

pub data Kind : Type 0 where
  compare_constant compare_columns like not_like in_list not_in_list is_not_null is_null never
        is_true :
      Kind

pub record Predicate : Type 0 where
  pub kind : Kind
  pub column : Option BoundColumn
  pub other : Option BoundColumn
  pub op : CompareOp
  pub constant : Constant
  pub values : List Constant
