-- ===== src/Plan/BranchTruth/Meaning.antt =====
-- What a predicate means for one row, in SQL's three-valued logic: the specification of the rules.
use antb.Prelude.{
  ◌^◌, Bool, true, false, not, ◌||◌, Option, none, some, List, [], ◌∷◌, if◌then◌else◌,
}
use antb.Prelude.Int.{scale_by}
use antb.Common.Int128.{Sign, compare_ℤ}
use antb.Plan.Predicate.{
  CompareOp, holds, eq, Value, int, text, Constant, BoundColumn, Predicate, Kind, compare_constant,
  compare_columns, in_list, not_in_list, is_not_null, is_null, never,
}
use antb.Plan.BranchTruth.{is_null_value, compare_text, scale_of}

abbrev pub Truth : Type 0
Truth = Option Bool

abbrev pub kleene_or : Truth → Truth → Truth
kleene_or (some true) b = some true
kleene_or a (some true) = some true
kleene_or (some false) b = b
kleene_or none b = none

abbrev pub kleene_not : Truth → Truth
kleene_not none = none
kleene_not (some b) = some (not b)

-- `compare_other` compares what is not exact (DOUBLE, BOOLEAN and values of two domains), and
-- `other_condition` evaluates LIKE, NOT LIKE and IS TRUE: both are left open.
module _ (compare_other : Constant → Constant → Sign)
    (other_condition : Predicate → Value → Bool) where
  -- Two integers stand for a / 10 ^ scale and b / 10 ^ scale.
  abbrev pub order_of : Constant → Constant → Value → Value → Sign
  order_of a b (int x) (int y) =
      compare_ℤ (scale_by x (10 ^ scale_of b.type)) (scale_by y (10 ^ scale_of a.type))
  order_of a b (text x) (text y) = compare_text x y
  order_of a b v w = compare_other a b

  abbrev pub compare_values : CompareOp → Constant → Constant → Truth
  compare_values op a b =
      if is_null_value a.value || is_null_value b.value
      then none
      else some (holds op (order_of a b a.value b.value))

  abbrev pub is_in : Constant → List Constant → Truth
  is_in a [] = some false
  is_in a (b ∷ bs) = kleene_or (compare_values eq a b) (is_in a bs)

  abbrev pub typed : Option BoundColumn → Value → Option Constant
  typed none v = none
  typed (some c) v = some (record { type = c.type; value = v })

  abbrev pub compare_typed : CompareOp → Option Constant → Option Constant → Truth
  compare_typed op (some a) (some b) = compare_values op a b
  compare_typed op a b = none

  abbrev pub in_typed : Option Constant → List Constant → Truth
  in_typed none bs = none
  in_typed (some a) bs = is_in a bs

  abbrev pub eval_kind : Kind → Predicate → Value → Value → Truth
  eval_kind compare_constant p v w = compare_typed p.op (typed p.column v) (some p.constant)
  eval_kind compare_columns p v w = compare_typed p.op (typed p.column v) (typed p.other w)
  eval_kind in_list p v w = in_typed (typed p.column v) p.values
  eval_kind not_in_list p v w = kleene_not (in_typed (typed p.column v) p.values)
  eval_kind is_not_null p v w = if is_null_value v then none else some true
  eval_kind is_null p v w = some (is_null_value v)
  eval_kind never p v w = some false
  eval_kind _ p v w = if is_null_value v then none else some (other_condition p v)

  -- The predicate for a row that holds `v` in its column and `w` in the other one.
  abbrev pub eval : Predicate → Value → Value → Truth
  eval p v w = eval_kind p.kind p v w
