-- ===== src/Tests/Exec.antt =====
-- Part pruning on a table of two parts, the memory budget, heavy hitters, a limit and grouping sets.
use antb.Prelude.{
  ℕ, zero, suc, ◌≡◌, refl, sym, ap, ◌∙◌, true, false, Option, none, some, List, [], ◌∷◌, inl, inr,
  arith, All,
}
use antb.Prelude.Int.{ℤ, pos, negsuc, ◌≤ℤ◌}
use mathlib.Core.Option.{some-injective}
use antb.Common.Int128.{equal, compare_ℤ}
use antb.Plan.Types.{of_id, integer, has_comparable_statistics, is_integer}
use antb.Plan.Predicate.{gt, int, null, Predicate, compare_constant, holds}
use antb.Exec.HeavyHitters.{empty, add_all}
use antb.Exec.HeavyHitters.Bounds.{IsSummary, add_all-IsSummary}
use antb.Exec.PartPruning.{
  PartStats, Table, kept_parts, kept_from, part_may_match, never_true, comparable_with, SortKey,
  part_may_beat,
}
use antb.Exec.Limit.{
  Batch, Limit, open_limit, negative_offset, pull_all, next, pass_batch, window, bounds_from,
}
use antb.Exec.Limit.Pull.{FitBatch, LetsThrough, open_limit-LetsThrough}
use antb.Exec.GroupingSets.{distinct_sets, add_sets, add_set, find_source, is_root, includes}
use antb.Exec.GroupingSets.Sources.{HasSource, find_source-HasSource}
use antb.Exec.GroupingSets.Entries.{Shapes, distinct_sets-Shapes}
use antb.Plan.BranchTruth.Meaning.{eval}
use antb.Exec.PartPruning.Laws.{Describes}
use antb.Exec.PartPruning.Keep.{Fields, Has, AreExact, kept_parts-Has, Counts, part_may_beat-true}
use antb.Exec.MemoryBudget.{
  Budget, Status, ok, out_of_memory, charge, allocate, reserve, uncharge, Reservation, resize,
}
use antb.Exec.MemoryBudget.Counters.{IsValid}
use antb.Exec.MemoryBudget.Laws.{
  AreFair, Call, allocating, freeing, reserving, reallocating, run, run_all, run_all-IsValid,
  Settled, run-Settled,
}

abbrev first : PartStats
first = record { min = some (pos 0); max = some (pos 9); null_count = 0; rows = 10 }

abbrev second : PartStats
second = record { min = some (pos 10); max = some (pos 19); null_count = 0; rows = 10 }

abbrev table : Table
table = record { num_parts = 2; part_stats = stats }
  where
    stats : ℕ → ℤ → Option PartStats
    stats zero f = some first
    stats (suc part) f = some second

abbrev above_twelve : Predicate
above_twelve = record {
  kind = compare_constant;
  column = some (record { index = pos 0; type = of_id integer });
  other = none;
  op = gt;
  constant = record { type = of_id integer; value = int (pos 12) };
  values = [];
}

abbrev fields : List ℤ
fields = pos 0 ∷ []

one_part : kept_parts table fields (above_twelve ∷ []) ≡ 1 ∷ []
unfolding kept_parts kept_from part_may_match never_true comparable_with has_comparable_statistics
    is_integer
one_part = refl

-- The second part holds one row, 15 in every field.
abbrev fifteen : Fields
fifteen f = int (pos 15)

abbrev Holds : ℕ → Fields → Type 0
Holds part row = (part ≡ 1) × (row ≡ fifteen)

bounds_of_second :
    (lo hi : ℤ)
    → some (pos 10) ≡ some lo
    → some (pos 19) ≡ some hi
    → (lo ≤ℤ pos 15) × (pos 15 ≤ℤ hi)
bounds_of_second lo hi l h = ground (arith, some-injective _ _ l, some-injective _ _ h)

second-Describes : Describes second (int (pos 15))
second-Describes = record { nulls = λ h. absurd (omega arith); bounds = bounds_of_second }

table_exact : AreExact (λ a b. equal) (λ p v. false) table Holds
table_exact part row f s (p, r) e =
    rw (r, ← some-injective _ _ (ap (λ k. table.part_stats k f) (sym p) ∙ e)) second-Describes

above_kept : eval (λ a b. equal) (λ p v. false) above_twelve (int (pos 15)) (null) ≡ some true
unfolding holds compare_ℤ
above_kept = refl

kept_parts_example : Has 1 (kept_parts table fields (above_twelve ∷ []))
kept_parts_example =
    kept_parts-Has (λ a b. equal) (λ p v. false) table Holds fields (above_twelve ∷ []) 1 fifteen
      table_exact (omega arith) (refl, refl) (((inl refl, tt), above_kept), tt)

-- The smallest of a column first, NULLs last, with 12 found so far.
abbrev ascending : SortKey
ascending = record {
  column = record { index = pos 0; type = of_id integer };
  descending = false;
  nulls_first = false;
}

second-Counts : Counts second (int (pos 11))
second-Counts = record {
  null_counted = λ e. cc;
  bounded = λ x e. (pos 10, pos 19, refl, refl, ground arith, ground arith);
}

part_may_beat_example : part_may_beat second ascending (pos 12) ≡ true
part_may_beat_example =
    part_may_beat-true second ascending (pos 12) (int (pos 11)) second-Counts
      (inr (refl, omega arith))

abbrev budget : Budget
budget = record { limit = some 100; used = 60; peak = 60 }

abbrev calls : List Call
calls = allocating 30 true ∷ reserving 20 ∷ freeing 50 ∷ allocating 40 false ∷ []

-- The reservation is past the limit, and the backend refuses the last buffer.
after_calls : (run_all budget calls).used ≡ 40
unfolding run allocate reserve charge uncharge antb.Exec.MemoryBudget.free
after_calls = refl

fair : AreFair budget calls
unfolding run allocate reserve charge uncharge antb.Exec.MemoryBudget.free
fair = (
  (omega arith, omega arith),
  ((omega arith, omega arith), ((omega arith, omega arith), ((omega arith, omega arith), tt))),
)

run_all_example : IsValid (run_all budget calls)
run_all_example = run_all-IsValid budget calls fair (record {
  peak_fits = omega arith;
  limit_fits = omega arith;
  below_peak = omega arith;
  below_limit = omega arith;
})

run_example : Settled 30 50 budget (run budget (reallocating 50 30 true))
run_example = run-Settled budget (reallocating 50 30 true) (omega arith) (omega arith)

-- 7 is two of three values, with one counter.
add_all-IsSummary_example : IsSummary 1 (7 ∷ 8 ∷ 7 ∷ []) (add_all (7 ∷ 8 ∷ 7 ∷ []) (empty 1)) 7
add_all-IsSummary_example = add_all-IsSummary 1 (7 ∷ 8 ∷ 7 ∷ []) 7

one_heavy : (add_all (7 ∷ 8 ∷ 7 ∷ []) (empty 1)).counters ≡ (7, 1) ∷ []
unfolding add_all empty
one_heavy = refl

-- The first batch has no selection, and the second one selects three of its four rows.
abbrev two_batches : List (Batch ℕ)
two_batches =
    record { rows = 1 ∷ 2 ∷ []; selection = none }
    ∷ record { rows = 3 ∷ 4 ∷ 5 ∷ 6 ∷ []; selection = some (true ∷ false ∷ true ∷ true ∷ []) }
    ∷ []

two_batches_fit : All FitBatch two_batches
two_batches_fit = (tt, (refl, tt))

open_limit_example : LetsThrough (some 3) 1 two_batches
open_limit_example = open_limit-LetsThrough (some 3) 1 two_batches two_batches_fit

abbrev started : Limit
started = record { limit = some 3; offset = 1; skipped = 0; emitted = 0 }

-- The rows 2, 3 and 5, and no more than those of the second batch that are needed.
limited_batches :
    pull_all 3 started two_batches
    ≡ some (
        record { rows = 2 ∷ []; selection = none }
        ∷ record { rows = 3 ∷ 4 ∷ 5 ∷ []; selection = some (true ∷ false ∷ true ∷ []) }
        ∷ [])
unfolding pull_all next pass_batch window bounds_from
limited_batches = refl

negative_offset_first : open_limit none (negsuc 0) ≡ negative_offset (negsuc 0)
unfolding open_limit
negative_offset_first = refl

-- (a, b), (a), (a, b) and () are three sets.
abbrev four_sets : List (List ℕ)
four_sets = (0 ∷ 1 ∷ []) ∷ (0 ∷ []) ∷ (0 ∷ 1 ∷ []) ∷ [] ∷ []

distinct_sets_example : Shapes four_sets (distinct_sets four_sets)
distinct_sets_example = distinct_sets-Shapes four_sets

three_distinct :
    ((distinct_sets four_sets).entries ≡ 0 ∷ 1 ∷ 0 ∷ 2 ∷ [])
    × (find_source true
          (distinct_sets four_sets).sets
          (0 ∷ [])
          0
          (distinct_sets four_sets).sets
          none
        ≡ some (0, 2))
unfolding distinct_sets add_sets add_set find_source is_root includes
three_distinct = (refl, refl)

find_source-HasSource_example : HasSource true ((0 ∷ 1 ∷ []) ∷ (0 ∷ []) ∷ [] ∷ []) (0 ∷ [])
find_source-HasSource_example =
    find_source-HasSource true ((0 ∷ 1 ∷ []) ∷ (0 ∷ []) ∷ [] ∷ []) 1 (0 ∷ [])
      (((omega arith, tt), (tt, tt)), ((tt, tt), (tt, tt))) refl
