-- ===== src/Plan/Conjuncts/Meaning.antt =====
-- What an expression is for a row, in SQL's three-valued logic: the specification of the rewrites.
use antb.Prelude.{
  ◌≡◌, Bool, true, false, ◌&&◌, ◌||◌, if◌then◌else◌, some, List, [], ◌∷◌, refl, arith, ◌↔◌, ◌⊎◌,
  Any,
}
use antb.Sql.Ast.{SourceSpan, eq, and, or, Expr, binary, in_list, Exprs, nil, cons}
use antb.Sql.Ast.Strip.{strip}
use antb.Plan.Conjuncts.{FactoredConjunct}
use antb.Plan.ImpliedLists.{listed}
use antb.Plan.BranchTruth.Meaning.{Truth, kleene_or, kleene_not}

abbrev pub kleene_and : Truth → Truth → Truth
kleene_and a b = kleene_not (kleene_or (kleene_not a) (kleene_not b))

-- `c = v` for one of the values.
abbrev pub equals_any :
    {Query : Type 0} → (Expr Query → Expr Query → Truth) → Expr Query → Exprs Query → Truth
equals_any equals c nil = some false
equals_any equals c (cons v vs) = kleene_or (equals c v) (equals_any equals c vs)

-- A meaning of the expressions for a row, which does not depend on their spans. `equals` is that of
-- `=`; AND, OR and IN follow SQL, and what everything else means is left open.
pub record Meaning (Query : Type 0) (strip_query : Query → Query) : Type 0 where
  pub truth : Expr Query → Truth
  pub equals : Expr Query → Expr Query → Truth
  pub truth_and :
      (a b : Expr Query) (s t : SourceSpan)
      → truth (binary and a b s t) ≡ kleene_and (truth a) (truth b)
  pub truth_or :
      (a b : Expr Query) (s t : SourceSpan)
      → truth (binary or a b s t) ≡ kleene_or (truth a) (truth b)
  pub truth_eq : (a b : Expr Query) (s t : SourceSpan) → truth (binary eq a b s t) ≡ equals a b
  pub truth_in :
      (a : Expr Query) (vs : Exprs Query) (s t : SourceSpan)
      → truth (in_list a vs false s t) ≡ equals_any equals a vs
  pub equals_comm : (a b : Expr Query) → equals a b ≡ equals b a
  pub truth_strip : (a : Expr Query) → truth (strip strip_query a) ≡ truth a
  pub equals_strip : (a b : Expr Query) → equals (strip strip_query a) b ≡ equals a b

-- What conjuncts are together, without those that are only bound.
abbrev pub all_truth :
    {Query : Type 0} {strip_query : Query → Query}
    → Meaning Query strip_query
    → List (FactoredConjunct Query)
    → Truth
all_truth m [] = some true
all_truth m (f ∷ fs) =
    let rest = all_truth m fs in if f.bind_only then rest else kleene_and (m.truth f.expr) rest

-- One of the two questions that tell the truth values apart: true, and not false.
pub record Question : Type 0 where
  pub asks : Truth → Bool
  pub asks_and : (a b : Truth) → asks (kleene_and a b) ≡ (asks a && asks b)
  pub asks_or : (a b : Truth) → asks (kleene_or a b) ≡ (asks a || asks b)
  pub asks_true : asks (some true) ≡ true
  pub asks_false : asks (some false) ≡ false

abbrev is_true : Truth → Bool
is_true (some true) = true
is_true _ = false

abbrev is_not_false : Truth → Bool
is_not_false (some false) = false
is_not_false _ = true

is_true-and : (a b : Truth) → is_true (kleene_and a b) ≡ (is_true a && is_true b)
is_true-and a b = ground arith

is_true-or : (a b : Truth) → is_true (kleene_or a b) ≡ (is_true a || is_true b)
is_true-or a b = ground arith

is_not_false-and :
    (a b : Truth) → is_not_false (kleene_and a b) ≡ (is_not_false a && is_not_false b)
is_not_false-and a b = ground arith

is_not_false-or : (a b : Truth) → is_not_false (kleene_or a b) ≡ (is_not_false a || is_not_false b)
is_not_false-or a b = ground arith

pub true_question : Question
true_question = record {
  asks = is_true;
  asks_and = is_true-and;
  asks_or = is_true-or;
  asks_true = refl;
  asks_false = refl;
}

pub not_false_question : Question
not_false_question = record {
  asks = is_not_false;
  asks_and = is_not_false-and;
  asks_or = is_not_false-or;
  asks_true = refl;
  asks_false = refl;
}

pub same_answers :
    (x y : Truth)
    → (true_question.asks x ≡ true) ↔ (true_question.asks y ≡ true)
    → (not_false_question.asks x ≡ true) ↔ (not_false_question.asks y ≡ true)
    → x ≡ y
unfolding true_question not_false_question
same_answers x y h k = ground arith

module _ {Query : Type 0} {strip_query : Query → Query} (m : Meaning Query strip_query)
    (q : Question) where
  abbrev pub Holds : Expr Query → Type 0
  Holds e = q.asks (m.truth e) ≡ true

  abbrev pub Equals : Expr Query → Expr Query → Type 0
  Equals c v = q.asks (m.equals c v) ≡ true

  pub Holds-and :
      (a b : Expr Query) (s t : SourceSpan) → Holds (binary and a b s t) ↔ (Holds a × Holds b)
  Holds-and a b s t = ground (arith, m.truth_and a b s t, q.asks_and (m.truth a) (m.truth b))

  pub Holds-or :
      (a b : Expr Query) (s t : SourceSpan) → Holds (binary or a b s t) ↔ (Holds a ⊎ Holds b)
  Holds-or a b s t = ground (arith, m.truth_or a b s t, q.asks_or (m.truth a) (m.truth b))

  pub Holds-eq : (a b : Expr Query) (s t : SourceSpan) → Holds (binary eq a b s t) ↔ Equals a b
  Holds-eq a b s t = rw (m.truth_eq a b s t) ((λ h. h), (λ h. h))

  pub Equals-Any :
      (c : Expr Query) (vs : Exprs Query)
      → (q.asks (equals_any m.equals c vs) ≡ true) ↔ Any (Equals c) (listed vs)
  Equals-Any c nil = ground (arith, q.asks_false)
  Equals-Any c (cons v vs) =
      ground (arith, q.asks_or (m.equals c v) (equals_any m.equals c vs), Equals-Any c vs)

  pub Holds-in :
      (c : Expr Query) (vs : Exprs Query) (s t : SourceSpan)
      → Holds (in_list c vs false s t) ↔ Any (Equals c) (listed vs)
  Holds-in c vs s t = rw (m.truth_in c vs s t) (Equals-Any c vs)

  -- A conjunct that is not only bound.
  abbrev pub Passes : FactoredConjunct Query → Type 0
  Passes f = f.bind_only ≡ false → Holds f.expr
