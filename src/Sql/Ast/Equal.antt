-- ===== src/Sql/Ast/Equal.antt =====
-- EqualIgnoringSpans against the equality of the trees without spans.
use antb.Prelude.{◌≡◌, ◌↔◌, refl, ap, Bool, true, arith}
use antb.Sql.Ast.{
  AggKind-discrete, UnaryOp-discrete, BinaryOp-discrete, SubqueryKind-discrete, Bool-discrete,
  Text-discrete, Texts-discrete, Expr, column, literal, aggregate, unary, binary, like, in_list,
  between, function, case_when, extract, cast, subquery, is_null, Operand, absent, present, Exprs,
  nil, cons, CaseBranches, end, branch, same_column, same_literal, equal_ignoring_spans,
  same_operand, same_list, same_branches,
}
use antb.Sql.Ast.Strip.{
  strip, strip_operand, strip_list, strip_branches, same_eq, same_yes, both, column_to_strip,
  literal_to_strip, column_from_strip, literal_from_strip,
}

module _ {Query : Type 0} (same_query : Query → Query → Bool) (strip_query : Query → Query)
    (same_query_iff : (p q : Query)
      → (same_query p q ≡ true) ↔ (strip_query p ≡ strip_query q)) where
  mutual
    unfolding strip equal_ignoring_spans same_column same_literal

    to_strip :
        (a b : Expr Query)
        → equal_ignoring_spans same_query a b ≡ true
        → strip strip_query a ≡ strip strip_query b
    to_strip (column a) (column b) h = ap column (column_to_strip a b h)
    to_strip (literal a) (literal b) h = ap literal (literal_to_strip a b h)
    to_strip (aggregate k a d s) (aggregate l b e t) h =
        let (h2, e2) = both h in
        let (h1, e1) = both h2 in
        let p0 = same_eq AggKind-discrete k l h1 in
        let p1 = same_eq Bool-discrete d e e1 in let p2 = operand_to_strip a b e2 in cc
    to_strip (unary o a s t) (unary p b u v) h =
        let (h1, e1) = both h in
        let p0 = same_eq UnaryOp-discrete o p h1 in let p1 = to_strip a b e1 in cc
    to_strip (binary o a b s t) (binary p c d u v) h =
        let (h2, e2) = both h in
        let (h1, e1) = both h2 in
        let p0 = same_eq BinaryOp-discrete o p h1 in
        let p1 = to_strip a c e1 in let p2 = to_strip b d e2 in cc
    to_strip (like a b n s t) (like c d m u v) h =
        let (h2, e2) = both h in
        let (h1, e1) = both h2 in
        let p0 = same_eq Bool-discrete n m h1 in
        let p1 = to_strip a c e1 in let p2 = to_strip b d e2 in cc
    to_strip (in_list a xs n s t) (in_list b ys m u v) h =
        let (h2, e2) = both h in
        let (h1, e1) = both h2 in
        let p0 = same_eq Bool-discrete n m h1 in
        let p1 = to_strip a b e1 in let p2 = list_to_strip xs ys e2 in cc
    to_strip (between a b c n s t) (between d e f m u v) h =
        let (h3, e3) = both h in
        let (h2, e2) = both h3 in
        let (h1, e1) = both h2 in
        let p0 = same_eq Bool-discrete n m h1 in
        let p1 = to_strip a d e1 in let p2 = to_strip b e e2 in let p3 = to_strip c f e3 in cc
    to_strip (function f q xs s t) (function g r ys u v) h =
        let (h2, e2) = both h in
        let (h1, e1) = both h2 in
        let p0 = same_eq Text-discrete f g h1 in
        let p1 = same_eq Bool-discrete q r e1 in let p2 = list_to_strip xs ys e2 in cc
    to_strip (case_when o bs e s) (case_when p cs f t) h =
        let (h2, e2) = both h in
        let (h1, e1) = both h2 in
        let p0 = operand_to_strip o p h1 in
        let p1 = operand_to_strip e f e1 in let p2 = branches_to_strip bs cs e2 in cc
    to_strip (extract f a s t) (extract g b u v) h =
        let (h1, e1) = both h in
        let p0 = same_eq Text-discrete f g h1 in let p1 = to_strip a b e1 in cc
    to_strip (cast a k ps y s t u) (cast b l qs z v w x) h =
        let (h3, e3) = both h in
        let (h2, e2) = both h3 in
        let (h1, e1) = both h2 in
        let p0 = same_eq Bool-discrete y z h1 in
        let p1 = same_eq Text-discrete k l e1 in
        let p2 = same_eq Texts-discrete ps qs e2 in let p3 = to_strip a b e3 in cc
    to_strip (subquery k q o n s t) (subquery l r p m u v) h =
        let (h3, e3) = both h in
        let (h2, e2) = both h3 in
        let (h1, e1) = both h2 in
        let p0 = same_eq SubqueryKind-discrete k l h1 in
        let p1 = same_eq Bool-discrete n m e1 in
        let p2 = operand_to_strip o p e2 in let p3 = (same_query_iff q r).0 e3 in cc
    to_strip (is_null a n s t) (is_null b m u v) h =
        let (h1, e1) = both h in
        let p0 = same_eq Bool-discrete n m h1 in let p1 = to_strip a b e1 in cc
    to_strip _ _ h = ground arith

    operand_to_strip :
        (a b : Operand Query)
        → same_operand same_query a b ≡ true
        → strip_operand strip_query a ≡ strip_operand strip_query b
    operand_to_strip absent absent h = refl
    operand_to_strip (present a) (present b) h = ap present (to_strip a b h)
    operand_to_strip _ _ h = ground arith

    list_to_strip :
        (xs ys : Exprs Query)
        → same_list same_query xs ys ≡ true
        → strip_list strip_query xs ≡ strip_list strip_query ys
    list_to_strip nil nil h = refl
    list_to_strip (cons a xs) (cons b ys) h =
        let (h1, e1) = both h in let p0 = to_strip a b h1 in let p1 = list_to_strip xs ys e1 in cc
    list_to_strip _ _ h = ground arith

    branches_to_strip :
        (bs cs : CaseBranches Query)
        → same_branches same_query bs cs ≡ true
        → strip_branches strip_query bs ≡ strip_branches strip_query cs
    branches_to_strip end end h = refl
    branches_to_strip (branch a b bs) (branch c d cs) h =
        let (h2, e2) = both h in
        let (h1, e1) = both h2 in
        let p0 = to_strip a c h1 in
        let p1 = to_strip b d e1 in let p2 = branches_to_strip bs cs e2 in cc
    branches_to_strip _ _ h = ground arith

  mutual
    unfolding strip equal_ignoring_spans

    from_strip :
        (a b : Expr Query)
        → strip strip_query a ≡ strip strip_query b
        → equal_ignoring_spans same_query a b ≡ true
    from_strip (column a) (column b) h = column_from_strip a b cc
    from_strip (literal a) (literal b) h = literal_from_strip a b cc
    from_strip (aggregate k a d s) (aggregate l b e t) h =
        let p0 = same_yes AggKind-discrete k l cc in
        let p1 = same_yes Bool-discrete d e cc in
        let p2 = operand_from_strip a b cc in rw (p0, p1, p2)
    from_strip (unary o a s t) (unary p b u v) h =
        let p0 = same_yes UnaryOp-discrete o p cc in let p1 = from_strip a b cc in rw (p0, p1)
    from_strip (binary o a b s t) (binary p c d u v) h =
        let p0 = same_yes BinaryOp-discrete o p cc in
        let p1 = from_strip a c cc in let p2 = from_strip b d cc in rw (p0, p1, p2)
    from_strip (like a b n s t) (like c d m u v) h =
        let p0 = same_yes Bool-discrete n m cc in
        let p1 = from_strip a c cc in let p2 = from_strip b d cc in rw (p0, p1, p2)
    from_strip (in_list a xs n s t) (in_list b ys m u v) h =
        let p0 = same_yes Bool-discrete n m cc in
        let p1 = from_strip a b cc in let p2 = list_from_strip xs ys cc in rw (p0, p1, p2)
    from_strip (between a b c n s t) (between d e f m u v) h =
        let p0 = same_yes Bool-discrete n m cc in
        let p1 = from_strip a d cc in
        let p2 = from_strip b e cc in let p3 = from_strip c f cc in rw (p0, p1, p2, p3)
    from_strip (function f q xs s t) (function g r ys u v) h =
        let p0 = same_yes Text-discrete f g cc in
        let p1 = same_yes Bool-discrete q r cc in
        let p2 = list_from_strip xs ys cc in rw (p0, p1, p2)
    from_strip (case_when o bs e s) (case_when p cs f t) h =
        let p0 = operand_from_strip o p cc in
        let p1 = operand_from_strip e f cc in
        let p2 = branches_from_strip bs cs cc in rw (p0, p1, p2)
    from_strip (extract f a s t) (extract g b u v) h =
        let p0 = same_yes Text-discrete f g cc in let p1 = from_strip a b cc in rw (p0, p1)
    from_strip (cast a k ps y s t u) (cast b l qs z v w x) h =
        let p0 = same_yes Bool-discrete y z cc in
        let p1 = same_yes Text-discrete k l cc in
        let p2 = same_yes Texts-discrete ps qs cc in
        let p3 = from_strip a b cc in rw (p0, p1, p2, p3)
    from_strip (subquery k q o n s t) (subquery l r p m u v) h =
        let p0 = same_yes SubqueryKind-discrete k l cc in
        let p1 = same_yes Bool-discrete n m cc in
        let p2 = operand_from_strip o p cc in
        let p3 = (same_query_iff q r).1 cc in rw (p0, p1, p2, p3)
    from_strip (is_null a n s t) (is_null b m u v) h =
        let p0 = same_yes Bool-discrete n m cc in let p1 = from_strip a b cc in rw (p0, p1)
    from_strip _ _ h = ground arith

    operand_from_strip :
        (a b : Operand Query)
        → strip_operand strip_query a ≡ strip_operand strip_query b
        → same_operand same_query a b ≡ true
    operand_from_strip absent absent h = refl
    operand_from_strip (present a) (present b) h = from_strip a b cc
    operand_from_strip _ _ h = ground arith

    list_from_strip :
        (xs ys : Exprs Query)
        → strip_list strip_query xs ≡ strip_list strip_query ys
        → same_list same_query xs ys ≡ true
    list_from_strip nil nil h = refl
    list_from_strip (cons a xs) (cons b ys) h =
        let p0 = from_strip a b cc in let p1 = list_from_strip xs ys cc in rw (p0, p1)
    list_from_strip _ _ h = ground arith

    branches_from_strip :
        (bs cs : CaseBranches Query)
        → strip_branches strip_query bs ≡ strip_branches strip_query cs
        → same_branches same_query bs cs ≡ true
    branches_from_strip end end h = refl
    branches_from_strip (branch a b bs) (branch c d cs) h =
        let p0 = from_strip a c cc in
        let p1 = from_strip b d cc in let p2 = branches_from_strip bs cs cc in rw (p0, p1, p2)
    branches_from_strip _ _ h = ground arith

  -- EqualIgnoringSpans holds of two expressions exactly if they are the same with every span erased,
  -- where it does so for nested queries.
  pub equal_ignoring_spans_iff :
      (a b : Expr Query)
      → (equal_ignoring_spans same_query a b ≡ true) ↔ (strip strip_query a ≡ strip strip_query b)
  equal_ignoring_spans_iff a b = (to_strip a b, from_strip a b)
