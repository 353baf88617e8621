-- ===== src/Plan/Conjuncts/Flat.antt =====
-- The conjuncts and the branches of an expression against its meaning.
use antb.Prelude.{
  ◌≡◌, ◌↔◌, ◌⊎◌, inl, inr, Bool, true, List, [], ◌∷◌, All, Any, All-append, Any-append, arith,
  Bool-cases, if_elim,
}
use antb.Sql.Ast.{BinaryOp, BinaryOp-discrete, and, or, Expr, binary, equal_ignoring_spans}
use antb.Sql.Ast.Strip.{same_iff}
use antb.Sql.Ast.Equal.{equal_ignoring_spans_iff}
use antb.Plan.Conjuncts.{is_op, branches, conjuncts, conjunction_from, is_one_of, joined}
use antb.Plan.Conjuncts.Meaning.{Meaning, Question, Holds, Equals, Holds-and, Holds-or}

pub ↔_trans : {A B C : Type 0} → A ↔ B → B ↔ C → A ↔ C
↔_trans f g = ((λ a. g.0 (f.0 a)), (λ c. f.1 (g.1 c)))

pub ↔_sym : {A B : Type 0} → A ↔ B → B ↔ A
↔_sym f = (f.1, f.0)

pub pair_iff : {A B C D : Type 0} → A ↔ C → B ↔ D → (A × B) ↔ (C × D)
pair_iff f g = ((λ h. (f.0 h.0, g.0 h.1)), (λ h. (f.1 h.0, g.1 h.1)))

pub sum_iff : {A B C D : Type 0} → A ↔ C → B ↔ D → (A ⊎ B) ↔ (C ⊎ D)
sum_iff f g = (
  λ h. elim h [ inl a ↦ inl (f.0 a) | inr b ↦ inr (g.0 b) ],
  λ h. elim h [ inl c ↦ inl (f.1 c) | inr d ↦ inr (g.1 d) ],
)

pub ↔_refl : {A : Type 0} → A ↔ A
↔_refl = ((λ a. a), (λ a. a))

pub sum_assoc : {A B C : Type 0} → ((A ⊎ B) ⊎ C) ↔ (A ⊎ (B ⊎ C))
sum_assoc = (
  λ h. elim h [ inl k ↦ elim k [ inl a ↦ inl a | inr b ↦ inr (inl b) ] | inr c ↦ inr (inr c) ],
  λ h. elim h [ inl a ↦ inl (inl a) | inr k ↦ elim k [ inl b ↦ inl (inr b) | inr c ↦ inr c ] ],
)

pub is_op-eq : (o p : BinaryOp) → is_op o p ≡ true → o ≡ p
is_op-eq o p h = (same_iff BinaryOp-discrete o p).0 h

module _ {Query : Type 0} {strip_query : Query → Query} (m : Meaning Query strip_query)
    (q : Question) where
  All-one : (e : Expr Query) → Holds m q e ↔ All (Holds m q) (e ∷ [])
  All-one e = ((λ h. (h, tt)), (λ h. h.0))

  Any-one : (e : Expr Query) → Holds m q e ↔ Any (Holds m q) (e ∷ [])
  Any-one e = (inl, λ h. elim h [ inl k ↦ k | inr b ↦ absurd b ])

  pub conjuncts-All : (e : Expr Query) → Holds m q e ↔ All (Holds m q) (conjuncts e)
  unfolding conjuncts
  conjuncts-All (binary o a b s t) =
      if_elim (λ l. Holds m q (binary o a b s t) ↔ All (Holds m q) l) (is_op o and) _ _
        (λ y. rw (is_op-eq o and y) (
          ↔_trans (Holds-and m q a b s t) (
            ↔_trans (pair_iff (conjuncts-All a) (conjuncts-All b))
              (↔_sym (All-append (Holds m q) (conjuncts a) (conjuncts b))))))
        (λ n. All-one (binary o a b s t))
  conjuncts-All e = All-one e

  pub branches-Any : (e : Expr Query) → Holds m q e ↔ Any (Holds m q) (branches e)
  unfolding branches
  branches-Any (binary o a b s t) =
      if_elim (λ l. Holds m q (binary o a b s t) ↔ Any (Holds m q) l) (is_op o or) _ _
        (λ y. rw (is_op-eq o or y) (
          ↔_trans (Holds-or m q a b s t) (
            ↔_trans (sum_iff (branches-Any a) (branches-Any b))
              (↔_sym (Any-append (Holds m q) (branches a) (branches b))))))
        (λ n. Any-one (binary o a b s t))
  branches-Any e = Any-one e

  pub conjunction_from-All :
      (e : Expr Query) (es : List (Expr Query))
      → Holds m q (conjunction_from e es) ↔ (Holds m q e × All (Holds m q) es)
  conjunction_from-All e [] = ((λ h. (h, tt)), (λ h. h.0))
  conjunction_from-All e (f ∷ fs) =
      let (f1, g1) = conjunction_from-All (joined and e f) fs in
      let (f2, g2) = Holds-and m q e f _ _ in
      ((λ h. let (x, y) = f1 h in ((f2 x).0, ((f2 x).1, y))), (λ h. g1 (g2 (h.0, h.1.0), h.1.1)))

module _ {Query : Type 0} {strip_query : Query → Query} (m : Meaning Query strip_query)
    (q : Question) (same_query : Query → Query → Bool)
    (same_query_iff : (p r : Query)
      → (same_query p r ≡ true) ↔ (strip_query p ≡ strip_query r)) where
  same-Holds :
      (a b : Expr Query) → equal_ignoring_spans same_query a b ≡ true → Holds m q a → Holds m q b
  same-Holds a b e h =
      let w = (equal_ignoring_spans_iff same_query strip_query same_query_iff a b).0 e in
      ground (arith, m.truth_strip a, m.truth_strip b, w)

  pub same-Equals :
      (a b v : Expr Query)
      → equal_ignoring_spans same_query a b ≡ true
      → Equals m q a v ↔ Equals m q b v
  same-Equals a b v e =
      let w = (equal_ignoring_spans_iff same_query strip_query same_query_iff a b).0 e in
      ground (arith, m.equals_strip a v, m.equals_strip b v, w)

  pub is_one_of-Holds :
      (ks : List (Expr Query)) (v : Expr Query)
      → is_one_of same_query ks v ≡ true
      → All (Holds m q) ks
      → Holds m q v
  is_one_of-Holds [] v e h = ground arith
  is_one_of-Holds (k ∷ ks) v e h = elim (Bool-cases (equal_ignoring_spans same_query k v)) [
    | inl y ↦ same-Holds k v y h.0
    | inr n ↦ is_one_of-Holds ks v (rw n at e) h.1
  ]
