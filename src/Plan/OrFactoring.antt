-- ===== src/Plan/OrFactoring.antt =====
-- src/plan/or_factoring.cc: the conjuncts that every branch of an OR shares.
use antb.Prelude.{
  ℕ, ◌+◌, ◌-◌, ◌^◌, ◌%◌, ltb, Bool, true, false, not, ◌&&◌, ◌||◌, Option, none, some, List, [], ◌∷◌,
  ◌++◌, length, if◌then◌else◌,
}
use antb.Sql.Ast.{
  SourceSpan, LiteralKind, LiteralKind-discrete, Literal, BinaryOp, BinaryOp-discrete, eq, and, or,
  Expr, literal, binary, in_list, Exprs, nil, cons, span_of, same, equal_ignoring_spans,
}
use antb.Plan.Conjuncts.{
  any_of, all_of, is_empty, front, is_op, FactoredConjunct, kept, bound_only, is_one_of, branches,
  conjuncts, conjunction, disjunction,
}
use antb.Plan.ImpliedLists.{derive_implied_in_lists}
pub mod Shared
pub mod Laws

module _ {Query : Type 0} where
  abbrev pub per_branch : List (Expr Query) → List (List (Expr Query))
  per_branch [] = []
  per_branch (e ∷ es) = conjuncts e ∷ per_branch es

  abbrev pub or_else : Expr Query → Option (Expr Query) → Option (Expr Query)
  or_else e none = none
  or_else e (some f) = some (disjunction e f)

  -- The loop that ORs what is left of the branches, the first one in `folded`.
  unfoldable pub fold_from : Option (Expr Query) → List (List (Expr Query)) → Option (Expr Query)
  unfolding conjunction disjunction
  fold_from none bs = none
  fold_from (some e) [] = some e
  fold_from (some e) (b ∷ bs) = fold_from (or_else e (conjunction b)) bs

  unfoldable pub folded : List (List (Expr Query)) → Option (Expr Query)
  unfolding fold_from
  folded [] = none
  folded (b ∷ bs) = fold_from (conjunction b) bs

  abbrev pub kept_all : List (Expr Query) → List (FactoredConjunct Query)
  kept_all [] = []
  kept_all (e ∷ es) = kept e ∷ kept_all es

  unfoldable pub is_or : Expr Query → Bool
  is_or (binary o a b s t) = is_op o or
  is_or _ = false

module _ {Query : Type 0} (same_query : Query → Query → Bool) where
  -- The candidates that every branch has, behind those found.
  unfoldable pub shared_from :
      List (Expr Query) → List (List (Expr Query)) → List (Expr Query) → List (Expr Query)
  unfolding equal_ignoring_spans
  shared_from [] bs found = found
  shared_from (c ∷ cs) bs found = shared_from cs bs (
      if not (is_one_of same_query found c) && all_of (λ b. is_one_of same_query b c) bs
      then found ++ (c ∷ [])
      else found)

  unfoldable pub without : List (Expr Query) → List (Expr Query) → List (Expr Query)
  unfolding equal_ignoring_spans
  without shared [] = []
  without shared (e ∷ es) =
      let more = without shared es in if is_one_of same_query shared e then more else e ∷ more

  unfoldable pub rest_of : List (Expr Query) → List (List (Expr Query)) → List (List (Expr Query))
  unfolding without
  rest_of shared [] = []
  rest_of shared (b ∷ bs) = without shared b ∷ rest_of shared bs

  -- What an OR of no branch without a rest becomes.
  abbrev pub add_folded :
      Option (Expr Query)
      → List (List (Expr Query))
      → List (Expr Query)
      → List (FactoredConjunct Query)
      → List (FactoredConjunct Query)
  add_folded none rest siblings out = out
  add_folded (some e) rest siblings out =
      derive_implied_in_lists same_query rest siblings (out ++ (kept e ∷ []))

  -- The round of the loop for an OR, given its branches' conjuncts and those they share.
  unfoldable pub factor_shared :
      Expr Query
      → List (List (Expr Query))
      → List (Expr Query)
      → List (Expr Query)
      → List (FactoredConjunct Query)
      → List (FactoredConjunct Query)
  unfolding derive_implied_in_lists rest_of folded
  factor_shared e bs shared siblings out =
      if is_empty shared
      then derive_implied_in_lists same_query bs siblings (out ++ (kept e ∷ []))
      else if any_of is_empty (rest_of shared bs)
      then out ++ kept_all shared ++ (bound_only e ∷ [])
      else add_folded (folded (rest_of shared bs)) (rest_of shared bs) siblings
          (out ++ kept_all shared)

  unfoldable pub factor_conjunct :
      Expr Query → List (Expr Query) → List (FactoredConjunct Query) → List (FactoredConjunct Query)
  unfolding is_or branches conjuncts factor_shared shared_from
  factor_conjunct e siblings out =
      if not (is_or e)
      then out ++ (kept e ∷ [])
      else factor_shared e (per_branch (branches e))
          (shared_from (front (per_branch (branches e))) (per_branch (branches e)) []) siblings out

  abbrev pub factor_each :
      List (Expr Query)
      → List (Expr Query)
      → List (FactoredConjunct Query)
      → List (FactoredConjunct Query)
  factor_each [] siblings out = out
  factor_each (e ∷ es) siblings out = factor_each es siblings (factor_conjunct e siblings out)

  -- `FactorSharedConjuncts`.
  unfoldable pub factor_shared_conjuncts :
      Expr Query → List (Expr Query) → List (FactoredConjunct Query) → List (FactoredConjunct Query)
  unfolding conjuncts factor_conjunct
  factor_shared_conjuncts e siblings out = factor_each (conjuncts e) siblings out
