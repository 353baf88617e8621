-- ===== src/Plan/ImpliedLists.antt =====
-- src/plan/or_factoring.cc: the IN lists that an OR implies.
use antb.Prelude.{
  ℕ, ◌+◌, ◌-◌, ◌^◌, ◌%◌, ltb, Bool, true, false, not, ◌&&◌, ◌||◌, Option, none, some, List, [], ◌∷◌,
  ◌++◌, length, if◌then◌else◌,
}
use antb.Sql.Ast.{
  SourceSpan, LiteralKind, LiteralKind-discrete, Literal, BinaryOp, BinaryOp-discrete, eq, and, or,
  Expr, literal, binary, in_list, Exprs, nil, cons, span_of, same, equal_ignoring_spans,
}
use antb.Plan.Conjuncts.{
  any_of, all_of, is_empty, front, is_op, is_literal, FactoredConjunct, kept, is_one_of,
}
pub mod Values
pub mod Sound

module _ {Query : Type 0} where
  abbrev pub all_literals : Exprs Query → Bool
  all_literals nil = true
  all_literals (cons v vs) = is_literal v && all_literals vs

  abbrev pub listed : Exprs Query → List (Expr Query)
  listed nil = []
  listed (cons v vs) = v ∷ listed vs

  abbrev pub literal_only : Expr Query → List (Expr Query)
  literal_only v = if is_literal v then v ∷ [] else []

  abbrev pub kind_is : LiteralKind → Expr Query → Bool
  kind_is k (literal l) = same LiteralKind-discrete l.kind k
  kind_is k _ = false

  -- `std::get` of what is no literal throws; the values are literals.
  unfoldable pub same_kind : List (Expr Query) → Bool
  same_kind (literal l ∷ vs) = all_of (kind_is l.kind) (literal l ∷ vs)
  same_kind _ = false

  -- The operand that a conjunct of the first branch may bound.
  unfoldable pub operand_of : Expr Query → Option (Expr Query)
  operand_of (binary o a b s t) = if is_op o eq then some (if is_literal b then a else b) else none
  operand_of (in_list a vs negated s t) = if negated then none else some a
  operand_of e = none

  abbrev pub and_more : List (Expr Query) → Option (List (Expr Query)) → Option (List (Expr Query))
  and_more vs none = none
  and_more vs (some ws) = some (vs ++ ws)

module _ {Query : Type 0} (same_query : Query → Query → Bool) where
  -- The values that a conjunct appends. Where the code answers false it appends none.
  unfoldable pub values_of : Expr Query → Expr Query → List (Expr Query)
  unfolding equal_ignoring_spans
  values_of (binary o a b s t) c =
      if not (is_op o eq)
      then []
      else if equal_ignoring_spans same_query a c
      then literal_only b
      else if not (equal_ignoring_spans same_query b c)
      then []
      else literal_only a
  values_of (in_list a vs negated s t) c =
      if negated || not (equal_ignoring_spans same_query a c)
      then []
      else if not (all_literals vs)
      then []
      else listed vs
  values_of e c = []

  abbrev pub add_candidate : Option (Expr Query) → List (Expr Query) → List (Expr Query)
  add_candidate none cs = cs
  add_candidate (some c) cs =
      if is_literal c || any_of (λ d. equal_ignoring_spans same_query d c) cs
      then cs
      else cs ++ (c ∷ [])

  unfoldable pub candidates : List (Expr Query) → List (Expr Query) → List (Expr Query)
  unfolding operand_of equal_ignoring_spans
  candidates [] cs = cs
  candidates (e ∷ es) cs = candidates es (add_candidate (operand_of e) cs)

  abbrev pub branch_values : Expr Query → List (Expr Query) → List (Expr Query)
  branch_values c [] = []
  branch_values c (e ∷ es) = values_of e c ++ branch_values c es

  -- The values of all branches, `none` where one does not bound the column.
  unfoldable pub candidate_values :
      Expr Query → List (List (Expr Query)) → Option (List (Expr Query))
  unfolding values_of
  candidate_values c [] = some []
  candidate_values c (es ∷ bs) =
      let more = and_more (branch_values c es) (candidate_values c bs) in
      if is_empty (branch_values c es) then none else more

  -- The values that are not repeated, behind those found.
  unfoldable pub distinct_values : List (Expr Query) → List (Expr Query) → List (Expr Query)
  unfolding equal_ignoring_spans
  distinct_values [] found = found
  distinct_values (v ∷ vs) found =
      distinct_values vs (if is_one_of same_query found v then found else found ++ (v ∷ []))

abbrev pub listing : {Query : Type 0} → List (Expr Query) → Exprs Query
listing [] = nil
listing (v ∷ vs) = cons v (listing vs)

abbrev no_span : SourceSpan
no_span = record { offset = 0; length = 0 }

abbrev pub derived_in : {Query : Type 0} → Expr Query → List (Expr Query) → Expr Query
derived_in c vs = in_list c (listing vs) false no_span no_span

module _ {Query : Type 0} (same_query : Query → Query → Bool) where
  -- The end of the loop over the candidates, for the distinct values of one.
  unfoldable pub derive_list :
      Expr Query
      → List (Expr Query)
      → List (Expr Query)
      → List (FactoredConjunct Query)
      → List (FactoredConjunct Query)
  unfolding equal_ignoring_spans
  derive_list c vs siblings out =
      if ltb (length vs) 2
      then out
      else if any_of (λ e. equal_ignoring_spans same_query e (derived_in c vs)) siblings
          || any_of (λ f. equal_ignoring_spans same_query f.expr (derived_in c vs)) out
      then out
      else out ++ (kept (derived_in c vs) ∷ [])

  unfoldable pub derive_candidate :
      Expr Query
      → Option (List (Expr Query))
      → List (Expr Query)
      → List (FactoredConjunct Query)
      → List (FactoredConjunct Query)
  unfolding derive_list distinct_values same_kind
  derive_candidate c none siblings out = out
  derive_candidate c (some vs) siblings out =
      if ltb (length vs) 2 || not (same_kind vs)
      then out
      else derive_list c (distinct_values same_query vs []) siblings out

  unfoldable pub derive_each :
      List (Expr Query)
      → List (List (Expr Query))
      → List (Expr Query)
      → List (FactoredConjunct Query)
      → List (FactoredConjunct Query)
  unfolding derive_candidate candidate_values
  derive_each [] bs siblings out = out
  derive_each (c ∷ cs) bs siblings out =
      derive_each cs bs siblings
        (derive_candidate c (candidate_values same_query c bs) siblings out)

  -- `DeriveImpliedInLists`.
  unfoldable pub derive_implied_in_lists :
      List (List (Expr Query))
      → List (Expr Query)
      → List (FactoredConjunct Query)
      → List (FactoredConjunct Query)
  unfolding derive_each candidates
  derive_implied_in_lists bs siblings out =
      derive_each (candidates same_query (front bs) []) bs siblings out
