-- ===== src/Sql/Ast.antt =====
-- src/sql/include/antb1/sql/ast.h and src/sql/ast.cc: expressions, and their equality up to where
-- they stand in the text.
use antb.Prelude.{ℕ, ◌+◌, ◌-◌, ◌^◌, ◌%◌, Bool, true, false, ◌&&◌, ◌==◌, List, []}
use antb.Common.Int128.{Text}
use native.Mathlib.Decide.{ℕ_discrete}
pub mod Strip
pub mod Equal

-- `SourceSpan`, from src/common.
pub record SourceSpan : Type 0 where
  pub offset : ℕ
  pub length : ℕ

pub record ColumnRef : Type 0 where
  pub name : Text
  pub quoted : Bool
  pub span : SourceSpan
  pub qualifier : Text
  pub qualifier_quoted : Bool

pub data LiteralKind : Type 0 where
  integer decimal string date timestamp null : LiteralKind

pub record Literal : Type 0 where
  pub kind : LiteralKind
  pub negative : Bool
  pub text : Text
  pub span : SourceSpan

pub data AggKind : Type 0 where
  count_star count sum avg min max stddev_samp stddev stddev_pop var_samp variance var_pop : AggKind

pub data UnaryOp : Type 0 where
  negate not_op : UnaryOp

pub data BinaryOp : Type 0 where
  add subtract multiply divide integer_divide modulo eq ne lt le gt ge and or : BinaryOp

pub data SubqueryKind : Type 0 where
  scalar in_query exists : SubqueryKind

-- A nested query is left open: `Query` is the type of the statements. The spans stand last, in the
-- order of the source. An `Operand` is an optional expression.
mutual
  pub data Expr (Query : Type 0) : Type 0 where
    column : ColumnRef → Expr Query
    literal : Literal → Expr Query
    aggregate : AggKind → Operand Query → Bool → SourceSpan → Expr Query
    unary : UnaryOp → Expr Query → SourceSpan → SourceSpan → Expr Query
    binary : BinaryOp → Expr Query → Expr Query → SourceSpan → SourceSpan → Expr Query
    like : Expr Query → Expr Query → Bool → SourceSpan → SourceSpan → Expr Query
    in_list : Expr Query → Exprs Query → Bool → SourceSpan → SourceSpan → Expr Query
    between : Expr Query → Expr Query → Expr Query → Bool → SourceSpan → SourceSpan → Expr Query
    function : Text → Bool → Exprs Query → SourceSpan → SourceSpan → Expr Query
    case_when : Operand Query → CaseBranches Query → Operand Query → SourceSpan → Expr Query
    extract : Text → Expr Query → SourceSpan → SourceSpan → Expr Query
    cast : Expr Query → Text → List Text → Bool → SourceSpan → SourceSpan → SourceSpan → Expr Query
    subquery : SubqueryKind → Query → Operand Query → Bool → SourceSpan → SourceSpan → Expr Query
    is_null : Expr Query → Bool → SourceSpan → SourceSpan → Expr Query

  pub data Operand (Query : Type 0) : Type 0 where
    absent : Operand Query
    present : Expr Query → Operand Query

  pub data Exprs (Query : Type 0) : Type 0 where
    nil : Exprs Query
    cons : Expr Query → Exprs Query → Exprs Query

  pub data CaseBranches (Query : Type 0) : Type 0 where
    end : CaseBranches Query
    branch : Expr Query → Expr Query → CaseBranches Query → CaseBranches Query

-- `Expr::span`.
abbrev pub span_of : {Query : Type 0} → Expr Query → SourceSpan
span_of (column c) = c.span
span_of (literal l) = l.span
span_of (aggregate k a d s) = s
span_of (unary o a t s) = s
span_of (binary o a b t s) = s
span_of (like a b n t s) = s
span_of (in_list a vs n t s) = s
span_of (between a b c n t s) = s
span_of (function f q xs t s) = s
span_of (case_when o bs e s) = s
span_of (extract f a t s) = s
span_of (cast a t ps y o u s) = s
span_of (subquery k q o n t s) = s
span_of (is_null a n t s) = s

unfoldable pub LiteralKind-discrete : Discrete LiteralKind
LiteralKind-discrete = hlevel

unfoldable pub AggKind-discrete : Discrete AggKind
AggKind-discrete = hlevel

unfoldable pub UnaryOp-discrete : Discrete UnaryOp
UnaryOp-discrete = hlevel

unfoldable pub BinaryOp-discrete : Discrete BinaryOp
BinaryOp-discrete = hlevel

unfoldable pub SubqueryKind-discrete : Discrete SubqueryKind
SubqueryKind-discrete = hlevel

unfoldable pub Bool-discrete : Discrete Bool
Bool-discrete = hlevel

unfoldable pub Text-discrete : Discrete Text
Text-discrete = hlevel (ℕ_discrete)

unfoldable pub Texts-discrete : Discrete (List Text)
Texts-discrete = hlevel (ℕ_discrete)

-- `==` of the fields.
abbrev pub same {ℓ} : {A : Type ℓ} → Discrete A → A → A → Bool
same d x y = elim (d x y) [ yes e ↦ true | no e ↦ false ]

-- `Eq` of two columns and of two literals.
unfoldable pub same_column : ColumnRef → ColumnRef → Bool
same_column a b =
    same Text-discrete a.name b.name
    && same Bool-discrete a.quoted b.quoted
    && same Text-discrete a.qualifier b.qualifier
    && same Bool-discrete a.qualifier_quoted b.qualifier_quoted

unfoldable pub same_literal : Literal → Literal → Bool
same_literal a b =
    same LiteralKind-discrete a.kind b.kind
    && same Bool-discrete a.negative b.negative
    && same Text-discrete a.text b.text

-- `Eq` of statements is an argument.
module _ {Query : Type 0} (same_query : Query → Query → Bool) where
  unfoldable mutual
    unfolding same_column same_literal

    pub equal_ignoring_spans : Expr Query → Expr Query → Bool
    equal_ignoring_spans (column a) (column b) = same_column a b
    equal_ignoring_spans (literal a) (literal b) = same_literal a b
    equal_ignoring_spans (aggregate k a d s) (aggregate l b e t) =
        same AggKind-discrete k l && same Bool-discrete d e && same_operand a b
    equal_ignoring_spans (unary o a s t) (unary p b u v) =
        same UnaryOp-discrete o p && equal_ignoring_spans a b
    equal_ignoring_spans (binary o a b s t) (binary p c d u v) =
        same BinaryOp-discrete o p && equal_ignoring_spans a c && equal_ignoring_spans b d
    equal_ignoring_spans (like a b n s t) (like c d m u v) =
        same Bool-discrete n m && equal_ignoring_spans a c && equal_ignoring_spans b d
    equal_ignoring_spans (in_list a xs n s t) (in_list b ys m u v) =
        same Bool-discrete n m && equal_ignoring_spans a b && same_list xs ys
    equal_ignoring_spans (between a b c n s t) (between d e f m u v) =
        same Bool-discrete n m
        && equal_ignoring_spans a d
        && equal_ignoring_spans b e
        && equal_ignoring_spans c f
    equal_ignoring_spans (function f q xs s t) (function g r ys u v) =
        same Text-discrete f g && same Bool-discrete q r && same_list xs ys
    equal_ignoring_spans (case_when o bs e s) (case_when p cs f t) =
        same_operand o p && same_operand e f && same_branches bs cs
    equal_ignoring_spans (extract f a s t) (extract g b u v) =
        same Text-discrete f g && equal_ignoring_spans a b
    equal_ignoring_spans (cast a k ps y s t u) (cast b l qs z v w x) =
        same Bool-discrete y z
        && same Text-discrete k l
        && same Texts-discrete ps qs
        && equal_ignoring_spans a b
    equal_ignoring_spans (subquery k q o n s t) (subquery l r p m u v) =
        same SubqueryKind-discrete k l
        && same Bool-discrete n m
        && same_operand o p
        && same_query q r
    equal_ignoring_spans (is_null a n s t) (is_null b m u v) =
        same Bool-discrete n m && equal_ignoring_spans a b
    equal_ignoring_spans _ _ = false

    pub same_operand : Operand Query → Operand Query → Bool
    same_operand absent absent = true
    same_operand (present a) (present b) = equal_ignoring_spans a b
    same_operand _ _ = false

    pub same_list : Exprs Query → Exprs Query → Bool
    same_list nil nil = true
    same_list (cons a xs) (cons b ys) = equal_ignoring_spans a b && same_list xs ys
    same_list _ _ = false

    pub same_branches : CaseBranches Query → CaseBranches Query → Bool
    same_branches end end = true
    same_branches (branch a b bs) (branch c d cs) =
        equal_ignoring_spans a c && equal_ignoring_spans b d && same_branches bs cs
    same_branches _ _ = false
