-- ===== src/Plan/OrFactoring/Laws.antt =====
-- FactorSharedConjuncts keeps what an expression is for each row.
use antb.Prelude.{
  ◌≡◌, ◌↔◌, inl, inr, Bool, true, false, not, refl, List, [], ◌∷◌, ◌++◌, All, Any, All-append,
  arith, Bool-cases, if_elim,
}
use antb.Sql.Ast.{Expr, or, binary}
use antb.Plan.Conjuncts.{
  any_of, is_empty, front, is_op, branches, conjuncts, FactoredConjunct, kept, bound_only,
}
use antb.Plan.Conjuncts.Meaning.{
  Meaning, Question, Holds, Passes, kleene_and, true_question, not_false_question, same_answers,
  all_truth,
}
use antb.Plan.BranchTruth.Meaning.{Truth}
use antb.Plan.Conjuncts.Flat.{branches-Any, conjuncts-All, ↔_trans, ↔_sym, pair_iff, ↔_refl}
use antb.Plan.ImpliedLists.{derive_implied_in_lists}
use antb.Plan.ImpliedLists.Sound.{add-Passes, derive_implied_in_lists-Adds}
use antb.Plan.OrFactoring.{
  shared_from, rest_of, per_branch, folded, kept_all, is_or, add_folded, factor_shared,
  factor_conjunct, factor_each, factor_shared_conjuncts,
}
use antb.Plan.OrFactoring.Shared.{per_branch-Any, folded-Any, is_empty-Any, shared_iff}

module _ {Query : Type 0} where
  is_empty-append : (xs ys : List (Expr Query)) → is_empty xs ≡ false → is_empty (xs ++ ys) ≡ false
  is_empty-append [] ys h = ground (arith, h)
  is_empty-append (x ∷ xs) ys h = refl

  is_empty-branches : (e : Expr Query) → is_empty (branches e) ≡ false
  unfolding branches
  is_empty-branches (binary o a b s t) =
      if_elim (λ (l : List (Expr Query)). is_empty l ≡ false) (is_op o or) _ _
        (λ y. is_empty-append (branches a) (branches b) (is_empty-branches a)) (λ n. refl)
  is_empty-branches e = refl

  is_empty-per_branch : (es : List (Expr Query)) → is_empty (per_branch es) ≡ is_empty es
  is_empty-per_branch [] = refl
  is_empty-per_branch (e ∷ es) = refl

module _ {Query : Type 0} {strip_query : Query → Query} (m : Meaning Query strip_query)
    (q : Question) where
  kept_all-Passes : (es : List (Expr Query)) → All (Passes m q) (kept_all es) ↔ All (Holds m q) es
  kept_all-Passes [] = ↔_refl
  kept_all-Passes (e ∷ es) =
      let (f, g) = kept_all-Passes es in ((λ h. (h.0 refl, f h.1)), (λ h. ((λ z. h.0), g h.1)))

  add_each-Passes :
      (es : List (Expr Query)) (out : List (FactoredConjunct Query))
      → All (Passes m q) (out ++ kept_all es) ↔ (All (Passes m q) out × All (Holds m q) es)
  add_each-Passes es out =
      ↔_trans (All-append (Passes m q) out (kept_all es)) (pair_iff ↔_refl (kept_all-Passes es))

  bound_only-Passes : (e : Expr Query) → Passes m q (bound_only e)
  bound_only-Passes e h = ground (arith, h)

module _ {Query : Type 0} {strip_query : Query → Query} (m : Meaning Query strip_query)
    (q : Question) (same_query : Query → Query → Bool)
    (same_query_iff : (p r : Query)
      → (same_query p r ≡ true) ↔ (strip_query p ≡ strip_query r)) where
  -- `new` passes where `out` passes and `P` holds.
  abbrev Steps : List (FactoredConjunct Query) → Type 0 → List (FactoredConjunct Query) → Type 0
  Steps out P new = All (Passes m q) new ↔ (All (Passes m q) out × P)

  kept-Steps :
      (e : Expr Query) (bs : List (List (Expr Query))) (siblings : List (Expr Query))
      (out : List (FactoredConjunct Query))
      → Holds m q e ↔ Any (All (Holds m q)) bs
      → Steps out
          (Holds m q e)
          (derive_implied_in_lists same_query bs siblings (out ++ (kept e ∷ [])))
  kept-Steps e bs siblings out r =
      let (f, g) =
        derive_implied_in_lists-Adds m q same_query same_query_iff bs siblings
          (out ++ (kept e ∷ [])) in
      let (h, k) = add-Passes m q e out in ((λ x. h (f x)), (λ p. g (r.0 p.1) (k p)))

  implied-Steps :
      (e : Expr Query) (shared : List (Expr Query)) (rest : List (List (Expr Query)))
      (out : List (FactoredConjunct Query))
      → Holds m q e ↔ (All (Holds m q) shared × Any (All (Holds m q)) rest)
      → any_of is_empty rest ≡ true
      → Steps out (Holds m q e) (out ++ kept_all shared ++ (bound_only e ∷ []))
  implied-Steps e shared rest out r n =
      let (f, g) = All-append (Passes m q) (out ++ kept_all shared) (bound_only e ∷ []) in
      let (h, k) = add_each-Passes m q shared out in
      (
        λ x. let (y, z) = h ((f x).0) in (y, r.1 (z, is_empty-Any m q rest n)),
        λ x. g (k (x.0, (r.0 x.1).0), (bound_only-Passes m q e, tt)),
      )

  folded-Steps :
      (e : Expr Query) (shared : List (Expr Query)) (rest : List (List (Expr Query)))
      (siblings : List (Expr Query)) (out : List (FactoredConjunct Query))
      → Holds m q e ↔ (All (Holds m q) shared × Any (All (Holds m q)) rest)
      → is_empty rest ≡ false
      → any_of is_empty rest ≡ false
      → Steps out
          (Holds m q e)
          (add_folded same_query (folded rest) rest siblings (out ++ kept_all shared))
  folded-Steps e shared [] siblings out r z n = ground (arith, z)
  folded-Steps e shared (b ∷ bs) siblings out r z n =
      let (f, k, w) = folded-Any m q b bs n in
      let (g, h) = add_each-Passes m q shared out in
      let (x, y) = kept-Steps f (b ∷ bs) siblings (out ++ kept_all shared) w in
      rw k (
        (λ p. let (u, v) = x p in let (a, c) = g u in (a, r.1 (c, w.0 v))),
        (λ p. let (a, c) = r.0 p.1 in y (h (p.0, a), w.1 c)),
      )

  is_empty-rest_of :
      (shared : List (Expr Query)) (bs : List (List (Expr Query)))
      → is_empty bs ≡ false
      → is_empty (rest_of same_query shared bs) ≡ false
  unfolding rest_of
  is_empty-rest_of shared [] h = ground (arith, h)
  is_empty-rest_of shared (b ∷ bs) h = refl

  factor_shared-Steps :
      (e : Expr Query) (bs : List (List (Expr Query))) (cs siblings : List (Expr Query))
      (out : List (FactoredConjunct Query))
      → Holds m q e ↔ Any (All (Holds m q)) bs
      → is_empty bs ≡ false
      → Steps out
          (Holds m q e)
          (factor_shared same_query e bs (shared_from same_query cs bs []) siblings out)
  unfolding factor_shared
  factor_shared-Steps e bs cs siblings out r z =
      let shared = shared_from same_query cs bs [] in
      let w = ↔_trans r (shared_iff m q same_query same_query_iff bs cs) in
      if_elim (Steps out (Holds m q e)) (is_empty shared) _ _ (λ y. kept-Steps e bs siblings out r)
        (λ n.
          if_elim (Steps out (Holds m q e)) (any_of is_empty (rest_of same_query shared bs)) _ _
            (λ y. implied-Steps e shared (rest_of same_query shared bs) out w y)
            (λ k.
              folded-Steps e shared (rest_of same_query shared bs) siblings out w
                (is_empty-rest_of shared bs z) k))

  factor_conjunct-Steps :
      (e : Expr Query) (siblings : List (Expr Query)) (out : List (FactoredConjunct Query))
      → Steps out (Holds m q e) (factor_conjunct same_query e siblings out)
  unfolding factor_conjunct
  factor_conjunct-Steps e siblings out =
      if_elim (Steps out (Holds m q e)) (not (is_or e)) _ _ (λ y. add-Passes m q e out)
        (λ n.
          factor_shared-Steps e (per_branch (branches e)) (front (per_branch (branches e))) siblings
            out (↔_trans (branches-Any m q e) (per_branch-Any m q (branches e)))
            (rw is_empty-per_branch (is_empty-branches e)))

  factor_each-Steps :
      (es siblings : List (Expr Query)) (out : List (FactoredConjunct Query))
      → Steps out (All (Holds m q) es) (factor_each same_query es siblings out)
  factor_each-Steps [] siblings out = ((λ h. (h, tt)), (λ h. h.0))
  factor_each-Steps (e ∷ es) siblings out =
      let (f, g) = factor_each-Steps es siblings (factor_conjunct same_query e siblings out) in
      let (h, k) = factor_conjunct-Steps e siblings out in
      (λ x. let (y, z) = f x in let (u, v) = h y in (u, (v, z)), λ x. g (k (x.0, x.1.0), x.1.1))

  factor_shared_conjuncts-Steps :
      (e : Expr Query) (siblings : List (Expr Query)) (out : List (FactoredConjunct Query))
      → Steps out (Holds m q e) (factor_shared_conjuncts same_query e siblings out)
  unfolding factor_shared_conjuncts
  factor_shared_conjuncts-Steps e siblings out =
      ↔_trans (factor_each-Steps (conjuncts e) siblings out)
        (pair_iff ↔_refl (↔_sym (conjuncts-All m q e)))

  asks_both :
      (x y : Truth) → (q.asks (kleene_and x y) ≡ true) ↔ ((q.asks x ≡ true) × (q.asks y ≡ true))
  asks_both x y = ground (arith, q.asks_and x y)

  all_truth-Passes :
      (out : List (FactoredConjunct Query))
      → (q.asks (all_truth m out) ≡ true) ↔ All (Passes m q) out
  all_truth-Passes [] = ((λ h. tt), (λ h. q.asks_true))
  all_truth-Passes (f ∷ fs) =
      let (g, h) = all_truth-Passes fs in
      elim (Bool-cases f.bind_only) [
        | inl y ↦ rw y ((λ x. ((λ z. ground (arith, z)), g x)), (λ p. h p.1))
        | inr n ↦
            let (u, v) = asks_both (m.truth f.expr) (all_truth m fs) in
            rw n ((λ x. let (a, b) = u x in ((λ z. a), g b)), (λ p. v (p.0 refl, h p.1)))
      ]

  factor-asks :
      (e : Expr Query) (siblings : List (Expr Query)) (out : List (FactoredConjunct Query))
      → (q.asks (all_truth m (factor_shared_conjuncts same_query e siblings out)) ≡ true)
        ↔ (q.asks (kleene_and (all_truth m out) (m.truth e)) ≡ true)
  factor-asks e siblings out =
      ↔_trans (all_truth-Passes (factor_shared_conjuncts same_query e siblings out)) (
        ↔_trans (factor_shared_conjuncts-Steps e siblings out) (
          ↔_sym (
            ↔_trans (asks_both (all_truth m out) (m.truth e))
              (pair_iff (all_truth-Passes out) ↔_refl))))

-- For any meaning of expressions in three-valued logic in which AND, OR, = and IN follow SQL and
-- spans mean nothing, and an equality of nested queries that holds exactly if they are the same
-- without spans: the conjuncts behind FactorSharedConjuncts, less those that are only bound, are
-- together what the conjuncts before it and the expression are.
pub factor_shared_conjuncts-truth :
    {Query : Type 0} {strip_query : Query → Query} (m : Meaning Query strip_query)
    (same_query : Query → Query → Bool)
    (same_query_iff : (p r : Query) → (same_query p r ≡ true) ↔ (strip_query p ≡ strip_query r))
    (e : Expr Query) (siblings : List (Expr Query)) (out : List (FactoredConjunct Query))
    → all_truth m (factor_shared_conjuncts same_query e siblings out)
      ≡ kleene_and (all_truth m out) (m.truth e)
factor_shared_conjuncts-truth m same_query same_query_iff e siblings out =
    same_answers _ _ (factor-asks m true_question same_query same_query_iff e siblings out)
      (factor-asks m not_false_question same_query same_query_iff e siblings out)
