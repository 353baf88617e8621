-- ===== src/Plan/FoldComparison.antt =====
-- src/plan/literal.cc (`FoldIntegerComparison`): a comparison of an integer column with any number,
-- as one with an integer of the column's range.
use antb.Prelude.{ℕ, ◌+◌, Bool, true, false, not, ◌&&◌, ◌||◌, if◌then◌else◌}
use antb.Prelude.Int.{ℤ, pos, negsuc, neg, ltb_ℤ}
use antb.Plan.Predicate.{
  CompareOp, eq, ne, lt, le, gt, ge, Kind, compare_constant, never, is_not_null,
}
use antb.Plan.Widening.{IntegerRange}
pub mod Laws

pub record ExactNumber : Type 0 where
  pub negative : Bool
  pub huge : Bool
  pub magnitude : ℕ
  pub fraction : Bool

pub record FoldedComparison : Type 0 where
  pub kind : Kind
  pub op : CompareOp
  pub value : ℤ

-- A result that is no comparison leaves the other fields at their defaults.
abbrev pub folded : Kind → FoldedComparison
folded k = record { kind = k; op = eq; value = pos 0 }

-- -magnitude for a negative literal.
abbrev pub signed : Bool → ℕ → ℤ
signed negative magnitude = if negative then neg magnitude else pos magnitude

-- Every column value lies on the other side of the literal.
abbrev pub outside : CompareOp → Bool → Bool → FoldedComparison
outside eq below above = folded never
outside ne below above = folded is_not_null
outside lt below above = folded (if above then is_not_null else never)
outside le below above = folded (if above then is_not_null else never)
outside gt below above = folded (if below then is_not_null else never)
outside ge below above = folded (if below then is_not_null else never)

-- The second half: the operator and the integer against the range.
unfoldable pub fold_bound : CompareOp → ℤ → ExactNumber → IntegerRange → FoldedComparison
fold_bound op value l r =
    let below = if l.huge then l.negative else ltb_ℤ value r.min in
    let above = if l.huge then not l.negative else ltb_ℤ r.max value in
    if not below && not above
    then record { kind = compare_constant; op = op; value = value }
    else outside op below above

unfoldable pub ceiling : ExactNumber → ℤ
ceiling l = if l.negative then neg l.magnitude else pos (l.magnitude + 1)

unfoldable pub floor : ExactNumber → ℤ
floor l = if l.negative then neg (l.magnitude + 1) else pos l.magnitude

-- The switch over the operator for a literal that is no integer.
unfoldable pub fold_fraction : CompareOp → ExactNumber → IntegerRange → FoldedComparison
unfolding fold_bound ceiling floor
fold_fraction eq l r = folded never
fold_fraction ne l r = folded is_not_null
fold_fraction gt l r = fold_bound ge (ceiling l) l r
fold_fraction ge l r = fold_bound ge (ceiling l) l r
fold_fraction lt l r = fold_bound le (floor l) l r
fold_fraction le l r = fold_bound le (floor l) l r

unfoldable pub fold_integer_comparison : CompareOp → ExactNumber → IntegerRange → FoldedComparison
unfolding fold_fraction
fold_integer_comparison op l r =
    if l.fraction && not l.huge
    then fold_fraction op l r
    else fold_bound op (signed l.negative l.magnitude) l r
