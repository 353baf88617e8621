-- ===== src/Plan/ImpliedLists/Sound.antt =====
-- The derived lists hold of every row of the OR.
use antb.Prelude.{
  ◌≡◌, ◌↔◌, inl, inr, Bool, true, not, ◌||◌, ltb, refl, List, [], ◌∷◌, ◌++◌, length, All, Any,
  All-append, Option-cases, if_elim, ap,
}
use antb.Sql.Ast.{Expr, equal_ignoring_spans}
use antb.Plan.Conjuncts.{any_of, front, FactoredConjunct, kept}
use antb.Plan.Conjuncts.Meaning.{Meaning, Question, Holds, Equals, Holds-in, Passes}
use antb.Plan.ImpliedLists.{
  listed, listing, derived_in, candidates, candidate_values, distinct_values, same_kind,
  derive_list, derive_candidate, derive_each, derive_implied_in_lists,
}
use antb.Plan.ImpliedLists.Values.{candidate_values-Any, distinct_values-Any}

listed-listing : {Query : Type 0} (vs : List (Expr Query)) → listed (listing vs) ≡ vs
listed-listing [] = refl
listed-listing (v ∷ vs) = ap (λ ws. v ∷ ws) (listed-listing vs)

module _ {Query : Type 0} {strip_query : Query → Query} (m : Meaning Query strip_query)
    (q : Question) where
  pub add-Passes :
      (e : Expr Query) (out : List (FactoredConjunct Query))
      → All (Passes m q) (out ++ (kept e ∷ [])) ↔ (All (Passes m q) out × Holds m q e)
  add-Passes e out =
      let (f, g) = All-append (Passes m q) out (kept e ∷ []) in
      ((λ h. let (x, y) = f h in (x, y.0 refl)), (λ h. g (h.0, ((λ z. h.1), tt))))

module _ {Query : Type 0} {strip_query : Query → Query} (m : Meaning Query strip_query)
    (q : Question) (same_query : Query → Query → Bool)
    (same_query_iff : (p r : Query)
      → (same_query p r ≡ true) ↔ (strip_query p ≡ strip_query r)) where
  -- More conjuncts than `out`, which pass where `out` does and `P` holds.
  abbrev pub Adds : List (FactoredConjunct Query) → Type 0 → List (FactoredConjunct Query) → Type 0
  Adds out P new =
      (All (Passes m q) new → All (Passes m q) out)
      × (P → All (Passes m q) out → All (Passes m q) new)

  pub Adds-none : (P : Type 0) (out : List (FactoredConjunct Query)) → Adds out P out
  Adds-none P out = ((λ h. h), (λ p h. h))

  derive_list-Adds :
      (c : Expr Query) (vs siblings : List (Expr Query)) (out : List (FactoredConjunct Query))
      → Adds out (Any (Equals m q c) vs) (derive_list same_query c vs siblings out)
  unfolding derive_list
  derive_list-Adds c vs siblings out =
      if_elim (Adds out (Any (Equals m q c) vs)) (ltb (length vs) 2) _ _ (λ y. Adds-none _ out)
        (λ n.
          if_elim (Adds out (Any (Equals m q c) vs))
            (any_of (λ e. equal_ignoring_spans same_query e (derived_in c vs)) siblings
              || any_of (λ f. equal_ignoring_spans same_query f.expr (derived_in c vs)) out)
            _ _ (λ y. Adds-none _ out)
            (λ k.
              let (f, g) = add-Passes m q (derived_in c vs) out in
              (
                (λ h. (f h).0),
                (λ p h. g (h, (Holds-in m q c (listing vs) _ _).1 (rw (listed-listing vs) p))),
              )))

  derive_candidate-Adds :
      (c : Expr Query) (bs : List (List (Expr Query))) (siblings : List (Expr Query))
      (out : List (FactoredConjunct Query))
      → Adds out
          (Any (All (Holds m q)) bs)
          (derive_candidate same_query c (candidate_values same_query c bs) siblings out)
  unfolding derive_candidate
  derive_candidate-Adds c bs siblings out = elim (Option-cases (candidate_values same_query c bs)) [
    | inl e ↦ rw e (Adds-none _ out)
    | inr (vs, e) ↦ rw e (
        let (f, g) = derive_list-Adds c (distinct_values same_query vs []) siblings out in
        if_elim (Adds out (Any (All (Holds m q)) bs)) (ltb (length vs) 2 || not (same_kind vs)) _ _
          (λ y. Adds-none _ out)
          (λ n. (
            f,
            λ p x.
                g
                  (distinct_values-Any m q same_query same_query_iff c vs []
                    (inl (candidate_values-Any m q same_query same_query_iff c bs vs e p)))
                  x,
          )))
  ]

  derive_each-Adds :
      (cs : List (Expr Query)) (bs : List (List (Expr Query))) (siblings : List (Expr Query))
      (out : List (FactoredConjunct Query))
      → Adds out (Any (All (Holds m q)) bs) (derive_each same_query cs bs siblings out)
  unfolding derive_each
  derive_each-Adds [] bs siblings out = Adds-none _ out
  derive_each-Adds (c ∷ cs) bs siblings out =
      let (f, g) = derive_candidate-Adds c bs siblings out in
      let (h, k) = derive_each-Adds cs bs siblings _ in ((λ x. f (h x)), (λ p x. k p (g p x)))

  -- The derived lists hold where the OR holds.
  pub derive_implied_in_lists-Adds :
      (bs : List (List (Expr Query))) (siblings : List (Expr Query))
      (out : List (FactoredConjunct Query))
      → Adds out (Any (All (Holds m q)) bs) (derive_implied_in_lists same_query bs siblings out)
  unfolding derive_implied_in_lists
  derive_implied_in_lists-Adds bs siblings out =
      derive_each-Adds (candidates same_query (front bs) []) bs siblings out
