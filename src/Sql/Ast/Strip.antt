-- ===== src/Sql/Ast/Strip.antt =====
-- An expression with every span set to the same one, and the equality of two such trees.
use antb.Prelude.{◌≡◌, ◌↔◌, refl, ap, Bool, true, false, ◌&&◌, arith}
use antb.Sql.Ast.{
  LiteralKind-discrete, Bool-discrete, Text-discrete, SourceSpan, ColumnRef, Literal, Expr, column,
  literal, aggregate, unary, binary, like, in_list, between, function, case_when, extract, cast,
  subquery, is_null, Operand, absent, present, Exprs, nil, cons, CaseBranches, end, branch, same,
  same_column, same_literal,
}

abbrev nowhere : SourceSpan
nowhere = record { offset = 0; length = 0 }

abbrev strip_column : ColumnRef → ColumnRef
strip_column c = record {
  name = c.name;
  quoted = c.quoted;
  span = nowhere;
  qualifier = c.qualifier;
  qualifier_quoted = c.qualifier_quoted;
}

abbrev strip_literal : Literal → Literal
strip_literal l = record { kind = l.kind; negative = l.negative; text = l.text; span = nowhere }

-- A nested query without its spans is an argument.
module _ {Query : Type 0} (strip_query : Query → Query) where
  unfoldable mutual
    pub strip : Expr Query → Expr Query
    strip (column c) = column (strip_column c)
    strip (literal l) = literal (strip_literal l)
    strip (aggregate k a d s) = aggregate k (strip_operand a) d nowhere
    strip (unary o a s t) = unary o (strip a) nowhere nowhere
    strip (binary o a b s t) = binary o (strip a) (strip b) nowhere nowhere
    strip (like a b n s t) = like (strip a) (strip b) n nowhere nowhere
    strip (in_list a xs n s t) = in_list (strip a) (strip_list xs) n nowhere nowhere
    strip (between a b c n s t) = between (strip a) (strip b) (strip c) n nowhere nowhere
    strip (function f q xs s t) = function f q (strip_list xs) nowhere nowhere
    strip (case_when o bs e s) =
        case_when (strip_operand o) (strip_branches bs) (strip_operand e) nowhere
    strip (extract f a s t) = extract f (strip a) nowhere nowhere
    strip (cast a k ps y s t u) = cast (strip a) k ps y nowhere nowhere nowhere
    strip (subquery k q o n s t) = subquery k (strip_query q) (strip_operand o) n nowhere nowhere
    strip (is_null a n s t) = is_null (strip a) n nowhere nowhere

    pub strip_operand : Operand Query → Operand Query
    strip_operand absent = absent
    strip_operand (present a) = present (strip a)

    pub strip_list : Exprs Query → Exprs Query
    strip_list nil = nil
    strip_list (cons a xs) = cons (strip a) (strip_list xs)

    pub strip_branches : CaseBranches Query → CaseBranches Query
    strip_branches end = end
    strip_branches (branch a b bs) = branch (strip a) (strip b) (strip_branches bs)

pub same_iff {ℓ} : {A : Type ℓ} (d : Discrete A) (x y : A) → (same d x y ≡ true) ↔ (x ≡ y)
same_iff d x y =
    elim (d x y) as (λ z. ((elim z [ yes e ↦ true | no e ↦ false ]) ≡ true) ↔ (x ≡ y)) [
      | yes e ↦ ((λ h. e), (λ h. refl))
      | no e ↦ ground (arith)
    ]

abbrev pub same_eq {ℓ} : {A : Type ℓ} (d : Discrete A) (x y : A) → same d x y ≡ true → x ≡ y
same_eq d x y h = (same_iff d x y).0 h

pub same_yes {ℓ} : {A : Type ℓ} (d : Discrete A) (x y : A) → x ≡ y → same d x y ≡ true
same_yes d x y e = (same_iff d x y).1 e

pub both : {a b : Bool} → (a && b) ≡ true → (a ≡ true) × (b ≡ true)
both {a} {b} h = ground arith

-- A conjunction that ends in a comparison of two fields.
both_same {ℓ} :
    {A : Type ℓ} (d : Discrete A) (x y : A) (b : Bool)
    → (b && same d x y) ≡ true
    → (b ≡ true) × (x ≡ y)
both_same d x y b h = let (i, j) = both h in (i, same_eq d x y j)

pub column_to_strip : (a b : ColumnRef) → same_column a b ≡ true → strip_column a ≡ strip_column b
unfolding same_column
column_to_strip a b h =
    let (i, e) = both_same Bool-discrete a.qualifier_quoted b.qualifier_quoted _ h in
    let (j, f) = both_same Text-discrete a.qualifier b.qualifier _ i in
    let (k, g) = both_same Bool-discrete a.quoted b.quoted _ j in
    let l = same_eq Text-discrete a.name b.name k in cc

pub literal_to_strip : (a b : Literal) → same_literal a b ≡ true → strip_literal a ≡ strip_literal b
unfolding same_literal
literal_to_strip a b h =
    let (i, e) = both_same Text-discrete a.text b.text _ h in
    let (j, f) = both_same Bool-discrete a.negative b.negative _ i in
    let g = same_eq LiteralKind-discrete a.kind b.kind j in cc

pub column_from_strip : (a b : ColumnRef) → strip_column a ≡ strip_column b → same_column a b ≡ true
unfolding same_column
column_from_strip a b h = rw (
  same_yes Text-discrete a.name b.name (ap (λ c. c.name) h),
  same_yes Bool-discrete a.quoted b.quoted (ap (λ c. c.quoted) h),
  same_yes Text-discrete a.qualifier b.qualifier (ap (λ c. c.qualifier) h),
  same_yes Bool-discrete a.qualifier_quoted b.qualifier_quoted (ap (λ c. c.qualifier_quoted) h),
)

pub literal_from_strip :
    (a b : Literal) → strip_literal a ≡ strip_literal b → same_literal a b ≡ true
unfolding same_literal
literal_from_strip a b h = rw (
  same_yes LiteralKind-discrete a.kind b.kind (ap (λ c. c.kind) h),
  same_yes Bool-discrete a.negative b.negative (ap (λ c. c.negative) h),
  same_yes Text-discrete a.text b.text (ap (λ c. c.text) h),
)
