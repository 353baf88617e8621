-- ===== src/Plan/ImpliedLists/Values.antt =====
-- The values collected for a column against what the conjuncts mean.
use antb.Prelude.{
  ◌≡◌, ◌↔◌, ◌⊎◌, inl, inr, Bool, true, false, not, refl, List, [], ◌∷◌, ◌++◌, All, Any, Any-append,
  arith, Bool-cases, Option-cases, sym, if◌then◌else◌, if_elim, some,
}
use antb.Sql.Ast.{eq, Expr, binary, in_list, equal_ignoring_spans}
use antb.Plan.Conjuncts.{is_op, is_empty, is_one_of, is_literal}
use antb.Plan.Conjuncts.Meaning.{Meaning, Question, Holds, Equals, Holds-eq, Holds-in}
use antb.Plan.Conjuncts.Flat.{is_op-eq, same-Equals}
use antb.Plan.ImpliedLists.{
  values_of, literal_only, listed, all_literals, branch_values, candidate_values, distinct_values,
}

Any-map :
    {A : Type 0} {P Q : A → Type 0} (xs : List A) → ((x : A) → P x → Q x) → Any P xs → Any Q xs
Any-map [] f h = h
Any-map (x ∷ xs) f (inl p) = inl (f x p)
Any-map (x ∷ xs) f (inr k) = inr (Any-map xs f k)

some-injective : {A : Type 0} {x y : A} → some x ≡ some y → x ≡ y
some-injective e = cc

not-false : (b : Bool) → not b ≡ false → b ≡ true
not-false b h = ground arith

module _ {Query : Type 0} {strip_query : Query → Query} (m : Meaning Query strip_query)
    (q : Question) (same_query : Query → Query → Bool)
    (same_query_iff : (p r : Query)
      → (same_query p r ≡ true) ↔ (strip_query p ≡ strip_query r)) where
  flip : (a b : Expr Query) → Equals m q a b → Equals m q b a
  flip a b h = rw (m.equals_comm b a) h

  moved :
      (a b v : Expr Query)
      → equal_ignoring_spans same_query a b ≡ true
      → Equals m q a v
      → Equals m q b v
  moved a b v e h = (same-Equals m q same_query same_query_iff a b v e).0 h

  -- No values, or one of them is the column's.
  abbrev pub Bounds : Expr Query → List (Expr Query) → Type 0
  Bounds c vs = (vs ≡ []) ⊎ Any (Equals m q c) vs

  literal_only-Bounds : (c v : Expr Query) → Equals m q c v → Bounds c (literal_only v)
  literal_only-Bounds c v h =
      if_elim (Bounds c) (is_literal v) _ _ (λ y. inr (inl h)) (λ n. inl refl)

  values_of-Bounds : (e c : Expr Query) → Holds m q e → Bounds c (values_of same_query e c)
  unfolding values_of
  values_of-Bounds (binary o a b s t) c h =
      if_elim (Bounds c) (not (is_op o eq)) _ _ (λ y. inl refl)
        (λ n.
          let e = (Holds-eq m q a b s t).0 (rw (is_op-eq o eq (not-false (is_op o eq) n)) at h) in
          if_elim (Bounds c) (equal_ignoring_spans same_query a c) _ _
            (λ y. literal_only-Bounds c b (moved a c b y e))
            (λ k.
              if_elim (Bounds c) (not (equal_ignoring_spans same_query b c)) _ _ (λ y. inl refl)
                (λ l.
                  literal_only-Bounds c a (
                    moved b c a (not-false (equal_ignoring_spans same_query b c) l) (flip a b e)))))
  values_of-Bounds (in_list a vs true s t) c h = inl refl
  values_of-Bounds (in_list a vs false s t) c h =
      if_elim (Bounds c) (not (equal_ignoring_spans same_query a c)) _ _ (λ y. inl refl)
        (λ n.
          if_elim (Bounds c) (not (all_literals vs)) _ _ (λ y. inl refl)
            (λ k. inr (
              Any-map (listed vs)
                (λ v. moved a c v (not-false (equal_ignoring_spans same_query a c) n))
                ((Holds-in m q a vs s t).0 h))))
  values_of-Bounds e c h = inl refl

  Bounds-append :
      (c : Expr Query) (vs ws : List (Expr Query)) → Bounds c vs → Bounds c ws → Bounds c (vs ++ ws)
  Bounds-append c vs ws (inl e) k = rw e k
  Bounds-append c vs ws (inr a) k = inr ((Any-append (Equals m q c) vs ws).1 (inl a))

  branch_values-Bounds :
      (c : Expr Query) (es : List (Expr Query))
      → All (Holds m q) es
      → Bounds c (branch_values same_query c es)
  branch_values-Bounds c [] h = inl refl
  branch_values-Bounds c (e ∷ es) h =
      Bounds-append c (values_of same_query e c) (branch_values same_query c es)
        (values_of-Bounds e c h.0) (branch_values-Bounds c es h.1)

  bounded :
      (c : Expr Query) (vs : List (Expr Query))
      → is_empty vs ≡ false
      → Bounds c vs
      → Any (Equals m q c) vs
  bounded c vs n (inl e) = ground (arith, e, n)
  bounded c vs n (inr a) = a

  pub candidate_values-Any :
      (c : Expr Query) (bs : List (List (Expr Query))) (vs : List (Expr Query))
      → candidate_values same_query c bs ≡ some vs
      → Any (All (Holds m q)) bs
      → Any (Equals m q c) vs
  unfolding candidate_values
  candidate_values-Any c [] vs e h = absurd h
  candidate_values-Any c (es ∷ bs) vs e h =
      elim (Bool-cases (is_empty (branch_values same_query c es))) [
        | inl y ↦ ground (arith, y)
        | inr n ↦ elim (Option-cases (candidate_values same_query c bs)) [
          | inl y ↦ ground (arith, y, n)
          | inr (ws, k) ↦
              let parts : branch_values same_query c es ++ ws ≡ vs =
                some-injective (rw (n, k) at e) in
              rw (sym parts) (
                (Any-append (Equals m q c) (branch_values same_query c es) ws).1 (elim h [
                  | inl a ↦
                      inl
                        (bounded c (branch_values same_query c es) n (branch_values-Bounds c es a))
                  | inr a ↦ inr (candidate_values-Any c bs ws k a)
                ]))
        ]
      ]

  is_one_of-Any :
      (ks : List (Expr Query)) (c v : Expr Query)
      → is_one_of same_query ks v ≡ true
      → Equals m q c v
      → Any (Equals m q c) ks
  is_one_of-Any [] c v e h = ground (arith, e)
  is_one_of-Any (k ∷ ks) c v e h = elim (Bool-cases (equal_ignoring_spans same_query k v)) [
    | inl y ↦ inl (flip k c ((same-Equals m q same_query same_query_iff k v c y).1 (flip c v h)))
    | inr n ↦ inr (is_one_of-Any ks c v (rw n at e) h)
  ]

  with_value-Any :
      (c v : Expr Query) (found : List (Expr Query))
      → Equals m q c v ⊎ Any (Equals m q c) found
      → Any (Equals m q c) (if is_one_of same_query found v then found else found ++ (v ∷ []))
  with_value-Any c v found h =
      if_elim (Any (Equals m q c)) (is_one_of same_query found v) _ _
        (λ y. elim h [ inl p ↦ is_one_of-Any found c v y p | inr k ↦ k ])
        (λ n.
          (Any-append (Equals m q c) found (v ∷ [])).1
            (elim h [ inl p ↦ inr (inl p) | inr k ↦ inl k ]))

  pub distinct_values-Any :
      (c : Expr Query) (vs found : List (Expr Query))
      → Any (Equals m q c) vs ⊎ Any (Equals m q c) found
      → Any (Equals m q c) (distinct_values same_query vs found)
  unfolding distinct_values
  distinct_values-Any c [] found h = elim h [ inl b ↦ absurd b | inr k ↦ k ]
  distinct_values-Any c (v ∷ vs) found h = distinct_values-Any c vs _ (elim h [
    | inl k ↦ elim k [ inl p ↦ inr (with_value-Any c v found (inl p)) | inr r ↦ inl r ]
    | inr r ↦ inr (with_value-Any c v found (inr r))
  ])
