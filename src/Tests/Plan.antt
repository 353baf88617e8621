-- ===== src/Tests/Plan.antt =====
-- The rules of the plan at concrete types, predicates and rows.
use antb.Prelude.{
  ℕ, zero, suc, ◌≡◌, refl, ◌==◌, Bool, true, false, none, some, List, [], ◌∷◌, arith,
}
use antb.Prelude.Int.{pos, neg}
use antb.Common.Int128.{Sign, equal}
use antb.Plan.Types.{LogicalType, of_id, decimal_type, integer, small_int, big_int, is_integer}
use antb.Plan.Predicate.{lt, ge, holds, Value, int, null, Constant, Predicate, compare_constant}
use antb.Plan.BranchTruth.{always_true, truth_over, order, domain_of}
use antb.Plan.BranchTruth.Meaning.{eval}
use antb.Plan.BranchTruth.Sound.{IsSound, truth_over-IsSound}
use antb.Plan.FoldComparison.{
  ExactNumber, FoldedComparison, fold_integer_comparison, fold_fraction, fold_bound, ceiling, floor,
}
use antb.Plan.FoldComparison.Laws.{
  eval_folded, fold_integer_comparison_lem, fold_integer_comparison-in_range,
}
use antb.Plan.JoinKind.{inner, build_left, build_right, probe_drops_unmatched_rows, traits}
use antb.Plan.JoinKind.Rows.{join, keep, some_row}
use antb.Plan.JoinKind.Laws.{join-keep_left, join-keep_right}
use antb.Plan.Widening.{IntegerRange, is_exact_widening}
use antb.Plan.KeyType.{key_type, key_decimal, decimal_of_integer}
use antb.Plan.KeyType.Laws.{key_type-widens}
use antb.Plan.TypeFold.{common_value_type}
use antb.Plan.TypeFold.Laws.{IsValidValue, common_value_type-IsValid}

abbrev price : LogicalType
price = decimal_type 9 2

abbrev below_two : Predicate
below_two = record {
  kind = compare_constant;
  column = some (record { index = pos 0; type = of_id integer });
  other = none;
  op = lt;
  constant = record { type = of_id integer; value = int (pos 2) };
  values = [];
}

abbrev one : Constant
one = record { type = of_id integer; value = int (pos 1) }

abbrev no_order : Constant → Constant → Sign
no_order a b = equal

abbrev no_condition : Predicate → Value → Bool
no_condition p v = false

one_below : truth_over below_two (some one) none ≡ always_true
unfolding truth_over order domain_of antb.Common.Int128.compare_scaled antb.Common.Int128.compare_up
    antb.Common.Int128.compare_ℤ antb.Common.Int128.power_of_ten holds
one_below = refl

truth_over_example :
    IsSound no_order no_condition
      (truth_over below_two (some one) none)
      (eval no_order no_condition below_two (int (pos 1)) null)
truth_over_example =
    truth_over-IsSound no_order no_condition below_two (some one) none (int (pos 1)) null
      (record {
        fields = (refl, refl);
        constant_valid = (omega arith, omega arith);
        values_valid = tt;
      })
      refl tt (omega arith, omega arith) tt

-- A literal 10.5 against a SMALLINT column.
abbrev literal : ExactNumber
literal = record { magnitude = 10; fraction = true; negative = false; huge = false }

abbrev small : IntegerRange
small = record { min = neg 32768; max = pos 32767 }

eleven : (fold_integer_comparison ge literal small).value ≡ pos 11
unfolding fold_integer_comparison fold_fraction fold_bound ceiling
eleven = refl

fold_example :
    eval_folded (fold_integer_comparison ge literal small) (pos 10)
    ≡ holds ge (antb.Plan.FoldComparison.Laws.order (pos 10) literal)
fold_example = fold_integer_comparison_lem ge literal small (pos 10) (omega arith) (omega arith)

-- Rows are their keys, and 0 is a NULL key.
abbrev same_key : ℕ → ℕ → Bool
same_key zero r = false
same_key (suc l) r = suc l == r

abbrev no_key : ℕ → Bool
no_key k = k == 0

abbrev lefts : List ℕ
lefts = 1 ∷ 2 ∷ 0 ∷ []

abbrev rights : List ℕ
rights = 2 ∷ 2 ∷ 3 ∷ []

inner_rows :
    join same_key no_key no_key inner lefts rights ≡ (some 2, some 2) ∷ (some 2, some 2) ∷ []
unfolding join
inner_rows = refl

inner_drops_left : probe_drops_unmatched_rows inner build_right ≡ true
unfolding probe_drops_unmatched_rows traits
inner_drops_left = refl

inner_drops_right : probe_drops_unmatched_rows inner build_left ≡ true
unfolding probe_drops_unmatched_rows traits
inner_drops_right = refl

join-keep_left_example :
    join same_key no_key no_key inner (keep (λ l. some_row (same_key l) rights) lefts) rights
    ≡ join same_key no_key no_key inner lefts rights
join-keep_left_example = join-keep_left same_key no_key no_key inner lefts rights inner_drops_left

join-keep_right_example :
    join same_key no_key no_key inner lefts (keep (λ r. some_row (λ l. same_key l r) lefts) rights)
    ≡ join same_key no_key no_key inner lefts rights
join-keep_right_example =
    join-keep_right same_key no_key no_key inner lefts rights inner_drops_right

-- A DECIMAL(9, 2) and a BIGINT.
price_key : key_type price (of_id big_int) ≡ some (decimal_type 21 2)
unfolding key_type key_decimal decimal_of_integer is_integer
price_key = refl

key_type-widens_example :
    (is_exact_widening price (decimal_type 21 2) ≡ true)
    × (is_exact_widening (of_id big_int) (decimal_type 21 2) ≡ true)
key_type-widens_example =
    key_type-widens price (of_id big_int) (omega arith) (omega arith) price_key

common_value_type-valid_example :
    IsValidValue (common_value_type (some price) (some (of_id small_int)))
common_value_type-valid_example =
    common_value_type-IsValid (some price) (some (of_id small_int)) (omega arith) (omega arith)
