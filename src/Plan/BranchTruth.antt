-- ===== src/Plan/BranchTruth.antt =====
-- src/plan/branch_truth.cc: what a predicate is over rows that hold the same constants.
use antb.Prelude.{
  ℕ, zero, suc, ◌≡◌, Bool, true, false, not, ◌&&◌, ◌||◌, ◌==◌, ltb, Option, none, some, List, [],
  ◌∷◌, if◌then◌else◌,
}
use antb.Prelude.Int.{ℤ}
use antb.Common.Int128.{Text, Sign, less, equal, greater, compare_ℤ, compare_scaled}
use antb.Plan.Types.{
  TypeId, small_int, integer, big_int, u_small_int, huge_int, decimal, double, varchar, date,
  timestamp, boolean, LogicalType, is, same_type,
}
use antb.Plan.Predicate.{
  CompareOp, holds, Value, int, double_bits, text, null, Constant, BoundColumn, Predicate, Kind,
  compare_constant, compare_columns, like, not_like, in_list, not_in_list, is_not_null, is_null,
  never, is_true,
}
pub mod Meaning
pub mod Laws
pub mod Sound

pub data BranchTruth : Type 0 where
  never_true always_true unknown : BranchTruth

pub data Domain : Type 0 where
  number days micros bytes : Domain

abbrev domain_of_id : TypeId → Option Domain
domain_of_id small_int = some number
domain_of_id integer = some number
domain_of_id big_int = some number
domain_of_id u_small_int = some number
domain_of_id huge_int = some number
domain_of_id decimal = some number
domain_of_id date = some days
domain_of_id timestamp = some micros
domain_of_id varchar = some bytes
domain_of_id double = none
domain_of_id boolean = none

unfoldable pub domain_of : LogicalType → Option Domain
domain_of t = domain_of_id t.id

abbrev pub is_null_value : Value → Bool
is_null_value null = true
is_null_value _ = false

-- `IsNull` of an optional constant.
abbrev pub is_null_constant : Option Constant → Bool
is_null_constant none = false
is_null_constant (some c) = is_null_value c.value

abbrev pub scale_of : LogicalType → ℕ
scale_of t = if is t decimal then t.scale else 0

-- `std::string_view::compare`: by unsigned bytes, a proper prefix first.
abbrev pub compare_text : Text → Text → Sign
compare_text [] [] = equal
compare_text [] (y ∷ ys) = less
compare_text (x ∷ xs) [] = greater
compare_text (x ∷ xs) (y ∷ ys) =
    if ltb x y then less else if ltb y x then greater else compare_text xs ys

-- The visit of `a.value` in the domain that both constants share. A failed check of the scales,
-- which valid types exclude, reads as no answer.
abbrev order_in : Domain → LogicalType → Value → LogicalType → Value → Option Sign
order_in number t (int x) u (int y) = compare_scaled x (scale_of t) y (scale_of u)
order_in days t (int x) u (int y) = some (compare_ℤ x y)
order_in micros t (int x) u (int y) = some (compare_ℤ x y)
order_in bytes t (text x) u (text y) = some (compare_text x y)
order_in d t v u w = none

abbrev same_domain : Domain → Domain → Bool
same_domain number number = true
same_domain days days = true
same_domain micros micros = true
same_domain bytes bytes = true
same_domain _ _ = false

abbrev order_at :
    Option Domain → Option Domain → LogicalType → Value → LogicalType → Value → Option Sign
order_at none e t v u w = none
order_at (some d) none t v u w = none
order_at (some d) (some e) t v u w = if same_domain d e then order_in d t v u w else none

unfoldable pub order : Constant → Constant → Option Sign
unfolding domain_of
order a b = order_at (domain_of a.type) (domain_of b.type) a.type a.value b.type b.value

abbrev pub truth : Bool → BranchTruth
truth true = always_true
truth false = never_true

abbrev pub truth_of : CompareOp → Option Sign → BranchTruth
truth_of op none = unknown
truth_of op (some s) = truth (holds op s)

-- A null pointer is `none`.
abbrev pub of_its_type : Option BoundColumn → Option Constant → Option Constant
of_its_type none v = none
of_its_type (some c) none = none
of_its_type (some c) (some v) = if same_type v.type c.type then some v else none

abbrev pub is_equal : Sign → Bool
is_equal equal = true
is_equal _ = false

-- The loop of `InList`, with its variable `equal`.
unfoldable pub in_loop : List Constant → Constant → Bool → BranchTruth
in_loop [] v found = truth found
in_loop (c ∷ cs) v found = elim (if same_type c.type v.type then order v c else none) [
  | none ↦ unknown
  | some s ↦ in_loop cs v (found || is_equal s)
]

abbrev pub in_truth : List Constant → Constant → BranchTruth
in_truth [] v = unknown
in_truth (c ∷ cs) v = in_loop (c ∷ cs) v false

abbrev pub negated : BranchTruth → BranchTruth
negated never_true = always_true
negated always_true = never_true
negated unknown = unknown

-- The switch for values that are not NULL.
abbrev compare_truth : Predicate → Option Constant → BranchTruth
compare_truth p none = unknown
compare_truth p (some v) =
    if same_type p.constant.type v.type then truth_of p.op (order v p.constant) else unknown

abbrev columns_truth : CompareOp → Option Constant → Option Constant → BranchTruth
columns_truth op none w = unknown
columns_truth op (some v) none = unknown
columns_truth op (some v) (some w) = truth_of op (order v w)

abbrev list_truth : List Constant → Option Constant → BranchTruth
list_truth values none = unknown
list_truth values (some v) = in_truth values v

abbrev if_typed : Option Constant → BranchTruth → BranchTruth
if_typed none t = unknown
if_typed (some v) t = t

abbrev switch_truth : Kind → Predicate → Option Constant → Option Constant → BranchTruth
switch_truth compare_constant p v w = compare_truth p (of_its_type p.column v)
switch_truth compare_columns p v w =
    columns_truth p.op (of_its_type p.column v) (of_its_type p.other w)
switch_truth in_list p v w = list_truth p.values (of_its_type p.column v)
switch_truth not_in_list p v w = negated (list_truth p.values (of_its_type p.column v))
switch_truth is_not_null p v w = if_typed (of_its_type p.column v) always_true
switch_truth never p v w = never_true
switch_truth _ p v w = unknown

abbrev has {ℓ} : {A : Type ℓ} → Option A → Bool
has none = false
has (some _) = true

abbrev reads_null : Predicate → Option Constant → Option Constant → Bool
reads_null p v w = (has p.column && is_null_constant v) || (has p.other && is_null_constant w)

abbrev truth_over_kind : Kind → Predicate → Option Constant → Option Constant → BranchTruth
truth_over_kind is_null p v w =
    if is_null_constant v then always_true else if_typed (of_its_type p.column v) never_true
truth_over_kind never p v w = switch_truth never p v w
truth_over_kind k p v w = if reads_null p v w then never_true else switch_truth k p v w

unfoldable pub truth_over : Predicate → Option Constant → Option Constant → BranchTruth
truth_over p v w = truth_over_kind p.kind p v w
