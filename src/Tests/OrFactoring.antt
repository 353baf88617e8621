-- ===== src/Tests/OrFactoring.antt =====
-- OR factoring on a small predicate, and a meaning of the expressions in it.
use antb.Prelude.{
  if◌then◌else◌, ℕ, ◌==◌, ==_iff, ◌≡◌, ◌↔◌, refl, Bool, true, false, [], ◌∷◌, none, some, Option,
  arith, ap,
}
use native.Mathlib.Decide.{ℕ_discrete}
use antb.Common.Int128.{Text}
use antb.Sql.Ast.{
  equal_ignoring_spans, SourceSpan, Expr, column, literal, binary, in_list, Exprs, nil, cons, eq,
  and, or, string, same, Text-discrete, BinaryOp-discrete, LiteralKind-discrete, Bool-discrete,
}
use antb.Sql.Ast.Equal.{equal_ignoring_spans_iff}
use antb.Sql.Ast.Strip.{strip, strip_list, same_iff}
use antb.Plan.BranchTruth.Meaning.{Truth, kleene_or}
use antb.Plan.Conjuncts.{kept, bound_only}
use antb.Plan.Conjuncts.Meaning.{Meaning, kleene_and, equals_any, all_truth}
use antb.Plan.OrFactoring.{factor_shared_conjuncts}
use antb.Plan.OrFactoring.Laws.{factor_shared_conjuncts-truth}
use antb.Tests.Sql.{codes}

-- The column `c` holds 'A', and each other column is NULL.
abbrev value : Expr ℕ → Option Text
value (column c) = if same Text-discrete c.name (codes "c") then some (codes "A") else none
value (literal l) = some l.text
value e = none

abbrev equals_of : Option Text → Option Text → Truth
equals_of (some x) (some y) = some (same Text-discrete x y)
equals_of _ _ = none

abbrev equals : Expr ℕ → Expr ℕ → Truth
equals a b = equals_of (value a) (value b)

abbrev truth : Expr ℕ → Truth
truth (binary and a b s t) = kleene_and (truth a) (truth b)
truth (binary or a b s t) = kleene_or (truth a) (truth b)
truth (binary eq a b s t) = equals a b
truth (in_list a vs false s t) = equals_any equals a vs
truth e = none

abbrev same_query : ℕ → ℕ → Bool
same_query p r = p == r

abbrev stripped : ℕ → ℕ
stripped p = p

value-strip : (a : Expr ℕ) → value (strip stripped a) ≡ value a
unfolding strip
value-strip (column c) = refl
value-strip e = refl

same_comm : (x y : Text) → same Text-discrete x y ≡ same Text-discrete y x
same_comm x y = ground (arith, same_iff Text-discrete x y, same_iff Text-discrete y x)

equals_of_comm : (x y : Option Text) → equals_of x y ≡ equals_of y x
equals_of_comm (some x) (some y) = ap some (same_comm x y)
equals_of_comm none none = refl
equals_of_comm none (some y) = refl
equals_of_comm (some x) none = refl

list-strip :
    (a : Expr ℕ) (vs : Exprs ℕ)
    → equals_any equals (strip stripped a) (strip_list stripped vs) ≡ equals_any equals a vs
unfolding strip
list-strip a nil = refl
list-strip a (cons v vs) = rw (value-strip a, value-strip v, list-strip a vs)

truth-strip : (a : Expr ℕ) → truth (strip stripped a) ≡ truth a
unfolding strip
truth-strip (binary and a b s t) = rw (truth-strip a, truth-strip b)
truth-strip (binary or a b s t) = rw (truth-strip a, truth-strip b)
truth-strip (binary eq a b s t) = rw (value-strip a, value-strip b)
truth-strip (in_list a vs false s t) = list-strip a vs
truth-strip e = refl

abbrev row : Meaning ℕ stripped
row = record {
  truth = truth;
  equals = equals;
  truth_and = λ a b s t. refl;
  truth_or = λ a b s t. refl;
  truth_eq = λ a b s t. refl;
  truth_in = λ a vs s t. refl;
  equals_comm = λ a b. equals_of_comm (value a) (value b);
  truth_strip = truth-strip;
  equals_strip = λ a b. ap (λ v. equals_of v (value b)) (value-strip a);
}

abbrev at : SourceSpan
at = record { offset = 0; length = 1 }

abbrev name : Text → Expr ℕ
name t =
    column
      (record { name = t; quoted = false; span = at; qualifier = []; qualifier_quoted = false })

abbrev text : Text → Expr ℕ
text t = literal (record { kind = string; negative = false; text = t; span = at })

abbrev is : Text → Text → Expr ℕ
is c v = binary eq (name c) (text v) at at

-- (c = 'A' AND x = 'B') OR (c = 'C' AND x = 'B')
abbrev predicate : Expr ℕ
predicate =
    binary or (binary and (is (codes "c") (codes "A")) (is (codes "x") (codes "B")) at at)
      (binary and (is (codes "c") (codes "C")) (is (codes "x") (codes "B")) at at) at at

same_query_iff : (p r : ℕ) → (same_query p r ≡ true) ↔ (stripped p ≡ stripped r)
same_query_iff p r = ==_iff p r

-- c = 'A' OR c = 'C', and c IN ('A', 'C')
factors : factor_shared_conjuncts same_query predicate [] [] ≡ (
    kept (is (codes "x") (codes "B"))
    ∷ kept (binary or (is (codes "c") (codes "A")) (is (codes "c") (codes "C")) at at)
    ∷ kept (
        in_list
          (name (codes "c"))
          (cons (text (codes "A")) (cons (text (codes "C")) nil))
          false
          (record { offset = 0; length = 0 })
          (record { offset = 0; length = 0 }))
    ∷ [])
unfolding factor_shared_conjuncts ℕ_discrete BinaryOp-discrete Text-discrete LiteralKind-discrete
    Bool-discrete
factors = refl

-- (x = 'B') OR (x = 'B' AND c = 'A') keeps the whole OR, only to be bound.
abbrev implied : Expr ℕ
implied =
    binary or (is (codes "x") (codes "B"))
      (binary and (is (codes "x") (codes "B")) (is (codes "c") (codes "A")) at at) at at

implies :
    factor_shared_conjuncts same_query implied [] []
    ≡ (kept (is (codes "x") (codes "B")) ∷ bound_only implied ∷ [])
unfolding factor_shared_conjuncts ℕ_discrete BinaryOp-discrete Text-discrete LiteralKind-discrete
    Bool-discrete
implies = refl

factor_shared_conjuncts-truth_example :
    all_truth row (factor_shared_conjuncts same_query predicate [] [])
    ≡ kleene_and (all_truth row []) (truth predicate)
factor_shared_conjuncts-truth_example =
    factor_shared_conjuncts-truth row same_query same_query_iff predicate [] []

abbrev elsewhere : SourceSpan
elsewhere = record { offset = 7; length = 5 }

abbrev moved : Expr ℕ
moved = binary eq (name (codes "c")) (text (codes "A")) elsewhere elsewhere

equal_ignoring_spans_iff_example :
    (equal_ignoring_spans same_query (is (codes "c") (codes "A")) moved ≡ true)
    ↔ (strip stripped (is (codes "c") (codes "A")) ≡ strip stripped moved)
equal_ignoring_spans_iff_example =
    equal_ignoring_spans_iff same_query stripped same_query_iff (is (codes "c") (codes "A")) moved
