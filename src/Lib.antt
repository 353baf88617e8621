-- ===== src/Lib.antt =====
-- antb1 is a SQL engine over Parquet files. A query's text is parsed (src/sql), bound to typed
-- columns and rewritten as a plan (src/plan), and run by operators over Arrow batches (src/exec). The
-- tables come from src/io; src/engine and src/cli hold the session and the command line. This library
-- models how a query's text and its literals are read, the rules that decide what a plan may skip,
-- compare or rewrite, and the bounded structures of the executor.
--
-- The parts:
-- [Prelude] Boolean tests on the native numbers, lists, options and integers, for every part.
-- [Common/Int128] src/common/int128.cc. An Int128 is an integer between the bounds, and an
--   overflow of `__builtin_mul_overflow` is `none`. The fuel of the digits is 39, enough for a
--   magnitude of at most 2^127. A failed check of PowerOfTen is `none`, and so is a step of Rescale
--   that is undefined.
-- [Common/Utf8, Common/SourceSpan] src/common/utf8.cc and src/common/source_span.cc.
-- [Sql/Token] the tokens, errors and character classes of src/sql/lexer.cc and its headers. A text
--   is the list of its bytes.
-- [Sql/Scan, Sql/Lexer] Lexer::Next and Tokenize of src/sql/lexer.cc. The lexer's text_ and pos_
--   are a position and the text from there on. The loop over blanks has a unit of fuel for each
--   byte and one more, and so has Tokenize: a round and a token pass a byte at least.
-- [Sql/Quote] Quote of src/sql/unparse.cc.
-- [Plan/NumberText] ParseExactNumber, IsApproximateNumber and ParseDecimalLiteral of
--   src/plan/literal.cc.
-- [Plan/DateText, Plan/TimeText] ParseDate and FormatDate, ParseTimestamp and FormatTimestamp of
--   src/plan/literal.cc. Numbers are printed with 20 digits of fuel, enough for 64 bits.
-- [Plan/Types] src/plan/types.cc. A DECIMAL is a type with a width and a scale.
-- [Plan/KeyType, Plan/TypeFold] src/plan/key_type.cc and src/plan/type_fold.cc, the types in
--   which two types are compared and joined.
-- [Plan/Widening] RangeOf of src/plan/literal.cc, and the exact casts of src/plan/logical_plan.cc.
-- [Plan/FoldComparison] FoldIntegerComparison of src/plan/literal.cc.
-- [Plan/Predicate] the predicates and constants of src/plan/include/antb1/plan/logical_plan.h.
-- [Plan/BranchTruth] src/plan/branch_truth.cc, with the meaning of a predicate in three-valued logic.
-- [Sql/Ast] the expressions of src/sql/include/antb1/sql/ast.h, and EqualIgnoringSpans of
--   src/sql/ast.cc. The type of nested queries and their equality are arguments.
-- [Plan/Conjuncts, Plan/ImpliedLists, Plan/OrFactoring] src/plan/or_factoring.cc: the conjuncts and
--   branches of an expression, DeriveImpliedInLists and FactorSharedConjuncts. Conjunction of no
--   parts, which no call reaches, is `none`.
-- [Plan/JoinKind] src/plan/include/antb1/plan/join_kind.h, with the rows of a join as a specification.
-- [Exec/PartPruning] src/exec/part_pruning.cc, over any table's statistics.
-- [Exec/MemoryBudget] src/exec/memory_budget.cc, one call after another. A counter is the 64 bits of
--   an int64, and its sums and differences wrap around.
-- [Exec/PartScheduler] src/exec/part_scheduler.h. Next is split where it waits for its part, and a
--   part's task that finishes is a step of its own, so that the steps come in every order in which
--   the threads can interleave. Tasks, the budget's pressure and the executor's Submit are
--   arguments. Next waits for the future at the front, and then takes the slot of its part, which is
--   Invalid if the slot is empty; windows and part numbers are below 2^63 - 1. A task gives the same
--   result whenever it runs alone, and beside others it may run out of memory instead. Submit has a
--   unit of fuel for each part that is left to submit.
-- [Exec/KeyFilter] src/exec/key_filter.cc and src/exec/include/antb1/exec/key_filter.h. A word is
--   its 32 bits, and the words are a function of an index, with their number beside it. The
--   reservation is that of MemoryBudget. `bit_ceil` has as many rounds as its argument, enough to
--   double to it.
-- [Exec/HeavyHitters] src/exec/heavy_hitters.cc; the hash map is an association list.
-- [Exec/Limit] src/exec/limit.cc, with Batch and PullAll of src/exec/operator.cc. The input is the
--   list of the batches that it still gives. A pull has a unit of fuel for each batch and one more.
-- [Exec/Like] src/exec/like.cc. A position in a text is the text from there on. A search has
--   (bytes of the text + 1) * (bytes of the pattern + 1) units of fuel, enough for its rounds.
-- [Exec/GroupingSets] the distinct sets, roots and sources of PlanGroupingSets in
--   src/exec/grouping_sets_shape.cc.
-- [Plan/SetFormula] CheckSetFormula, SetTreeOf and SetStarters of src/plan/logical_plan.cc. A
--   message of the check is a name for its text, and marks by input are a function.
-- [Exec/SetOperation] Combine and Evaluate of src/exec/set_operation.cc, for one group.
-- [Tests] runs on small inputs, and the theorems at concrete arguments.
--
-- The lexer hands number tokens to NumberText, whose exact numbers FoldComparison turns into the
-- constants that predicates hold. BranchTruth and PartPruning both rest on Predicate and on the
-- comparison of Int128; the rules of pruning are stated against the same meaning of a predicate.
-- KeyType gives the types that Widening accepts as casts.
--
-- Left open: how DOUBLE, BOOLEAN and values of two domains compare, and what LIKE and IS TRUE answer
-- (arguments of the meaning); what Arrow's memory pool serves (an argument of each call); the
-- statements nested in an expression and their equality (arguments). Not modelled: floating point,
-- the parser, the binder, the rewrites of whole plans, and the operators that call Arrow's kernels.
-- The threads of the budget are not interleaved: each of its calls is one step.
pub mod Prelude
pub mod Common
pub mod Plan
pub mod Sql
pub mod Exec
pub mod Tests
