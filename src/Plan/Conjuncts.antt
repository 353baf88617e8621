-- ===== src/Plan/Conjuncts.antt =====
-- src/plan/or_factoring.cc: the conjuncts and branches of an expression, and expressions built from
-- them. A pointer to an expression is the expression, so that `owned`, which keeps the built ones
-- alive, is left out.
use antb.Prelude.{
  ℕ, ◌+◌, ◌-◌, ◌^◌, ◌%◌, ltb, Bool, true, false, not, ◌&&◌, ◌||◌, Option, none, some, List, [], ◌∷◌,
  ◌++◌, length, if◌then◌else◌,
}
use antb.Sql.Ast.{
  SourceSpan, LiteralKind, LiteralKind-discrete, Literal, BinaryOp, BinaryOp-discrete, eq, and, or,
  Expr, literal, binary, in_list, Exprs, nil, cons, span_of, same, equal_ignoring_spans,
}
pub mod Meaning
pub mod Flat

abbrev pub any_of {ℓ} : {A : Type ℓ} → (A → Bool) → List A → Bool
any_of f [] = false
any_of f (x ∷ xs) = f x || any_of f xs

abbrev pub all_of {ℓ} : {A : Type ℓ} → (A → Bool) → List A → Bool
all_of f [] = true
all_of f (x ∷ xs) = f x && all_of f xs

abbrev pub is_empty {ℓ} : {A : Type ℓ} → List A → Bool
is_empty [] = true
is_empty (x ∷ xs) = false

-- The first of a list that is not empty.
abbrev pub front {ℓ} : {A : Type ℓ} → List (List A) → List A
front [] = []
front (x ∷ xs) = x

abbrev pub is_op : BinaryOp → BinaryOp → Bool
is_op o p = same BinaryOp-discrete o p

-- The span of two expressions, in 64 bits.
abbrev pub spanning : SourceSpan → SourceSpan → SourceSpan
spanning l r = record {
  offset = l.offset;
  length = (r.offset + r.length + (2 ^ 64 - l.offset)) % 2 ^ 64;
}

module _ {Query : Type 0} where
  unfoldable pub branches : Expr Query → List (Expr Query)
  branches (binary o a b s t) =
      let left = branches a in
      let right = branches b in if is_op o or then left ++ right else binary o a b s t ∷ []
  branches e = e ∷ []

  unfoldable pub conjuncts : Expr Query → List (Expr Query)
  conjuncts (binary o a b s t) =
      let left = conjuncts a in
      let right = conjuncts b in if is_op o and then left ++ right else binary o a b s t ∷ []
  conjuncts e = e ∷ []

  -- The conjuncts of the elements of a predicate.
  abbrev pub conjuncts_of : List (Expr Query) → List (Expr Query)
  conjuncts_of [] = []
  conjuncts_of (e ∷ es) = conjuncts e ++ conjuncts_of es

  abbrev pub joined : BinaryOp → Expr Query → Expr Query → Expr Query
  joined o l r = binary o l r (spanning (span_of l) (span_of r)) (spanning (span_of l) (span_of r))

  unfoldable pub disjunction : Expr Query → Expr Query → Expr Query
  disjunction l r = joined or l r

  -- The loop of `Conjunction`.
  abbrev pub conjunction_from : Expr Query → List (Expr Query) → Expr Query
  conjunction_from e [] = e
  conjunction_from e (f ∷ fs) = conjunction_from (joined and e f) fs

  -- `none` is the list without parts, which no call gives.
  unfoldable pub conjunction : List (Expr Query) → Option (Expr Query)
  conjunction [] = none
  conjunction (e ∷ es) = some (conjunction_from e es)

  abbrev pub is_literal : Expr Query → Bool
  is_literal (literal l) = true
  is_literal _ = false

pub record FactoredConjunct (Query : Type 0) : Type 0 where
  pub expr : Expr Query
  pub bind_only : Bool

abbrev pub kept : {Query : Type 0} → Expr Query → FactoredConjunct Query
kept e = record { expr = e; bind_only = false }

abbrev pub bound_only : {Query : Type 0} → Expr Query → FactoredConjunct Query
bound_only e = record { expr = e; bind_only = true }

-- `std::ranges::any_of` with EqualIgnoringSpans.
module _ {Query : Type 0} (same_query : Query → Query → Bool) where
  abbrev pub is_one_of : List (Expr Query) → Expr Query → Bool
  is_one_of [] v = false
  is_one_of (k ∷ ks) v = equal_ignoring_spans same_query k v || is_one_of ks v
