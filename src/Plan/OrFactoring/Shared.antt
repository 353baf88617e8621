-- ===== src/Plan/OrFactoring/Shared.antt =====
-- The shared conjuncts and what is left of the branches, against what they mean.
use antb.Prelude.{
  ◌≡◌, ◌↔◌, ◌⊎◌, inl, inr, Bool, true, false, not, ◌&&◌, refl, List, [], ◌∷◌, All, Any, All-append,
  arith, Bool-cases, if_elim, some,
}
use antb.Sql.Ast.{Expr}
use antb.Plan.Conjuncts.{
  any_of, all_of, is_empty, is_one_of, conjunction, conjunction_from, disjunction,
}
use antb.Plan.Conjuncts.Meaning.{Meaning, Question, Holds, Holds-or}
use antb.Plan.Conjuncts.Flat.{
  is_one_of-Holds, conjuncts-All, conjunction_from-All, ↔_trans, ↔_refl, sum_iff, sum_assoc,
}
use antb.Sql.Ast.Strip.{both}
use antb.Plan.OrFactoring.{shared_from, without, rest_of, per_branch, fold_from, folded}

module _ {Query : Type 0} {strip_query : Query → Query} (m : Meaning Query strip_query)
    (q : Question) where
  pub per_branch-Any :
      (es : List (Expr Query)) → Any (Holds m q) es ↔ Any (All (Holds m q)) (per_branch es)
  per_branch-Any [] = ((λ h. h), (λ h. h))
  per_branch-Any (e ∷ es) = sum_iff (conjuncts-All m q e) (per_branch-Any es)

  -- What is folded from branches of which none is empty.
  fold_from-Any :
      (e : Expr Query) (bs : List (List (Expr Query)))
      → any_of is_empty bs ≡ false
      → (f : Expr Query) × (fold_from (some e) bs ≡ some f)
        × (Holds m q f ↔ (Holds m q e ⊎ Any (All (Holds m q)) bs))
  unfolding fold_from conjunction disjunction
  fold_from-Any e [] n = (e, refl, (inl, λ h. elim h [ inl x ↦ x | inr b ↦ absurd b ]))
  fold_from-Any e ([] ∷ bs) n = ground (arith, n)
  fold_from-Any e ((g ∷ gs) ∷ bs) n =
      let (f, k, r) = fold_from-Any (disjunction e (conjunction_from g gs)) bs n in
      let first =
        ↔_trans (Holds-or m q e (conjunction_from g gs) _ _)
          (sum_iff ↔_refl (conjunction_from-All m q g gs)) in
      (f, k, ↔_trans r (↔_trans (sum_iff first ↔_refl) sum_assoc))

  pub folded-Any :
      (b : List (Expr Query)) (bs : List (List (Expr Query)))
      → any_of is_empty (b ∷ bs) ≡ false
      → (f : Expr Query) × (folded (b ∷ bs) ≡ some f)
        × (Holds m q f ↔ Any (All (Holds m q)) (b ∷ bs))
  unfolding folded conjunction
  folded-Any [] bs n = ground (arith, n)
  folded-Any (g ∷ gs) bs n =
      let (f, k, r) = fold_from-Any (conjunction_from g gs) bs n in
      (f, k, ↔_trans r (sum_iff (conjunction_from-All m q g gs) ↔_refl))

  -- A branch without a rest holds.
  pub is_empty-Any :
      (bs : List (List (Expr Query))) → any_of is_empty bs ≡ true → Any (All (Holds m q)) bs
  is_empty-Any [] h = ground (arith, h)
  is_empty-Any ([] ∷ bs) h = inl tt
  is_empty-Any ((b ∷ bs) ∷ cs) h = inr (is_empty-Any cs h)

module _ {Query : Type 0} {strip_query : Query → Query} (m : Meaning Query strip_query)
    (q : Question) (same_query : Query → Query → Bool)
    (same_query_iff : (p r : Query)
      → (same_query p r ≡ true) ↔ (strip_query p ≡ strip_query r)) where
  one_of :
      (ks : List (Expr Query)) (v : Expr Query)
      → is_one_of same_query ks v ≡ true
      → All (Holds m q) ks
      → Holds m q v
  one_of = is_one_of-Holds m q same_query same_query_iff

  in_each-Holds :
      (c : Expr Query) (bs : List (List (Expr Query)))
      → all_of (λ b. is_one_of same_query b c) bs ≡ true
      → Any (All (Holds m q)) bs
      → Holds m q c
  in_each-Holds c [] e h = absurd h
  in_each-Holds c (b ∷ bs) e (inl a) = one_of b c (both e).0 a
  in_each-Holds c (b ∷ bs) e (inr k) = in_each-Holds c bs (both e).1 k

  shared_from-All :
      (cs : List (Expr Query)) (bs : List (List (Expr Query))) (found : List (Expr Query))
      → Any (All (Holds m q)) bs
      → All (Holds m q) found
      → All (Holds m q) (shared_from same_query cs bs found)
  unfolding shared_from
  shared_from-All [] bs found h k = k
  shared_from-All (c ∷ cs) bs found h k = shared_from-All cs bs _ h (
      if_elim (All (Holds m q))
        (not (is_one_of same_query found c) && all_of (λ b. is_one_of same_query b c) bs) _ _
        (λ y. (All-append (Holds m q) found (c ∷ [])).1 (k, (in_each-Holds c bs (both y).1 h, tt)))
        (λ n. k))

  without-All :
      (shared es : List (Expr Query))
      → All (Holds m q) es
      → All (Holds m q) (without same_query shared es)
  unfolding without
  without-All shared [] h = tt
  without-All shared (e ∷ es) h =
      if_elim (All (Holds m q)) (is_one_of same_query shared e) _ _ (λ y. without-All shared es h.1)
        (λ n. (h.0, without-All shared es h.1))

  All-without :
      (shared es : List (Expr Query))
      → All (Holds m q) shared
      → All (Holds m q) (without same_query shared es)
      → All (Holds m q) es
  unfolding without
  All-without shared [] s h = tt
  All-without shared (e ∷ es) s h = elim (Bool-cases (is_one_of same_query shared e)) [
    | inl y ↦ (one_of shared e y s, All-without shared es s (rw y at h))
    | inr n ↦
        let k : All (Holds m q) (e ∷ without same_query shared es) = rw n at h in
        (k.0, All-without shared es s k.1)
  ]

  rest_of-Any :
      (shared : List (Expr Query)) (bs : List (List (Expr Query)))
      → Any (All (Holds m q)) bs
      → Any (All (Holds m q)) (rest_of same_query shared bs)
  unfolding rest_of
  rest_of-Any shared [] h = h
  rest_of-Any shared (b ∷ bs) (inl a) = inl (without-All shared b a)
  rest_of-Any shared (b ∷ bs) (inr k) = inr (rest_of-Any shared bs k)

  Any-rest_of :
      (shared : List (Expr Query)) (bs : List (List (Expr Query)))
      → All (Holds m q) shared
      → Any (All (Holds m q)) (rest_of same_query shared bs)
      → Any (All (Holds m q)) bs
  unfolding rest_of
  Any-rest_of shared [] s h = h
  Any-rest_of shared (b ∷ bs) s (inl a) = inl (All-without shared b s a)
  Any-rest_of shared (b ∷ bs) s (inr k) = inr (Any-rest_of shared bs s k)

  -- An OR holds exactly if what its branches share holds and the rest of a branch.
  pub shared_iff :
      (bs : List (List (Expr Query))) (cs : List (Expr Query))
      → Any (All (Holds m q)) bs ↔ (
          All (Holds m q) (shared_from same_query cs bs [])
          × Any (All (Holds m q)) (rest_of same_query (shared_from same_query cs bs []) bs))
  shared_iff bs cs =
      ((λ h. (shared_from-All cs bs [] h tt, rest_of-Any _ bs h)), (λ h. Any-rest_of _ bs h.0 h.1))
