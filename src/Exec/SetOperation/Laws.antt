-- ===== src/Exec/SetOperation/Laws.antt =====
-- The copies of a group against the value of the formula's tree.
use antb.Prelude.{
  ℕ, zero, suc, inl, inr, ◌-◌, ltb, ◌==◌, ◌&&◌, ◌||◌, min, Bool, true, false, Bool-cases, none,
  some, List, [], ◌∷◌, ◌++◌, length, take, drop, ◌≡◌, refl, ap, arith,
}
use antb.Plan.SetFormula.{
  SetTermKind, union, intersect, intersect_all, except, except_all, SetTerm, is_input, SetTreeNode,
  node, nil, nodes, grow, check_set_formula, set_tree_of,
}
use antb.Plan.SetFormula.Checked.{set_tree_of-some}
use antb.Exec.SetOperation.{bit, combine_from, combine, run_terms, copies}
use antb.Exec.SetOperation.Meaning.{
  any_positive, each_positive, none_positive, least, sum, operate, value, values,
}

some-injective : {A : Type 0} {x y : A} → some x ≡ some y → x ≡ y
some-injective e = cc

some-none : {A : Type 0} (x : A) → none ≡ some x → true ≡ false
some-none x e = ground (arith, e)

union-bit : (b : Bool) (vs : List ℕ) → combine_from union (bit b) vs ≡ bit (b || any_positive vs)
unfolding combine_from
union-bit b [] = ground arith
union-bit true (v ∷ vs) = union-bit true vs
union-bit false (v ∷ vs) = union-bit (ltb 0 v) vs

intersect-bit :
    (b : Bool) (vs : List ℕ) → combine_from intersect (bit b) vs ≡ bit (b && each_positive vs)
unfolding combine_from
intersect-bit b [] = ground arith
intersect-bit true (v ∷ vs) = intersect-bit (ltb 0 v) vs
intersect-bit false (v ∷ vs) = intersect-bit false vs

except-bit : (b : Bool) (vs : List ℕ) → combine_from except (bit b) vs ≡ bit (b && none_positive vs)
unfolding combine_from
except-bit b [] = ground arith
except-bit true (v ∷ vs) = except-bit (v == 0) vs
except-bit false (v ∷ vs) = except-bit false vs

least-min : (v w : ℕ) (ws : List ℕ) → least (min v w) ws ≡ min v (least w ws)
least-min v w [] = refl
least-min v w (x ∷ xs) = omega (arith, least-min v w xs)

intersect_all-least : (v : ℕ) (vs : List ℕ) → combine_from intersect_all v vs ≡ least v vs
unfolding combine_from
intersect_all-least v [] = refl
intersect_all-least v (w ∷ ws) = rw (intersect_all-least (min v w) ws) (least-min v w ws)

except_all-sum : (v : ℕ) (vs : List ℕ) → combine_from except_all v vs ≡ v - sum vs
unfolding combine_from
except_all-sum v [] = omega arith
except_all-sum v (w ∷ ws) = omega (arith, except_all-sum (v - w) ws)

input-first : (v : ℕ) (vs : List ℕ) → combine_from SetTermKind.input v vs ≡ v
unfolding combine_from
input-first v [] = refl
input-first v (w ∷ ws) = input-first v ws

combine-operate : (k : SetTermKind) (vs : List ℕ) → combine k vs ≡ operate k vs
unfolding combine
combine-operate k [] = refl
combine-operate union (v ∷ vs) = union-bit (ltb 0 v) vs
combine-operate intersect (v ∷ vs) = intersect-bit (ltb 0 v) vs
combine-operate except (v ∷ vs) = except-bit (ltb 0 v) vs
combine-operate intersect_all (v ∷ vs) = intersect_all-least v vs
combine-operate except_all (v ∷ vs) = except_all-sum v vs
combine-operate SetTermKind.input (v ∷ vs) = input-first v vs

module _ (member : ℕ → ℕ) where
  abbrev stack_values : List SetTreeNode → List ℕ
  stack_values [] = []
  stack_values (t ∷ ts) = value member t ∷ stack_values ts

  values-nodes : (ts : List SetTreeNode) → values member (nodes ts) ≡ stack_values ts
  unfolding value
  values-nodes [] = refl
  values-nodes (t ∷ ts) = ap (λ vs. value member t ∷ vs) (values-nodes ts)

  stack_values-append :
      (xs ys : List SetTreeNode) → stack_values (xs ++ ys) ≡ stack_values xs ++ stack_values ys
  stack_values-append [] ys = refl
  stack_values-append (x ∷ xs) ys = ap (λ vs. value member x ∷ vs) (stack_values-append xs ys)

  length-stack_values : (xs : List SetTreeNode) → length (stack_values xs) ≡ length xs
  length-stack_values [] = refl
  length-stack_values (x ∷ xs) = ap suc (length-stack_values xs)

  take-stack_values :
      (n : ℕ) (xs : List SetTreeNode) → take n (stack_values xs) ≡ stack_values (take n xs)
  take-stack_values zero xs = refl
  take-stack_values (suc n) [] = refl
  take-stack_values (suc n) (x ∷ xs) = ap (λ vs. value member x ∷ vs) (take-stack_values n xs)

  drop-stack_values :
      (n : ℕ) (xs : List SetTreeNode) → drop n (stack_values xs) ≡ stack_values (drop n xs)
  drop-stack_values zero xs = refl
  drop-stack_values (suc n) [] = refl
  drop-stack_values (suc n) (x ∷ xs) = drop-stack_values n xs

  value-operator :
      (k : SetTermKind) (ts : List SetTreeNode)
      → is_input k ≡ false
      → value member (node k 0 (nodes ts)) ≡ combine k (stack_values ts)
  unfolding value
  value-operator SetTermKind.input ts h = ground (arith, h)
  value-operator k ts h = rw (combine-operate k (stack_values ts), values-nodes ts)

  value-input :
      (k : SetTermKind) (i : ℕ) → is_input k ≡ true → value member (node k i nil) ≡ member i
  unfolding value
  value-input SetTermKind.input i h = refl
  value-input _ i h = ground (arith, h)

  stack_values-read :
      (k : SetTermKind) (i : ℕ) (stack : List SetTreeNode)
      → is_input k ≡ true
      → stack_values stack ++ (member i ∷ []) ≡ stack_values (stack ++ (node k i nil ∷ []))
  stack_values-read k i stack h =
      rw (stack_values-append stack (node k i nil ∷ []), value-input k i h) refl

  stack_values-combined :
      (k : SetTermKind) (n : ℕ) (stack : List SetTreeNode)
      → is_input k ≡ false
      → take n (stack_values stack) ++ (combine k (drop n (stack_values stack)) ∷ [])
        ≡ stack_values (take n stack ++ (node k 0 (nodes (drop n stack)) ∷ []))
  stack_values-combined k n stack h =
      rw
        (
          stack_values-append (take n stack) (node k 0 (nodes (drop n stack)) ∷ []),
          value-operator k (drop n stack) h,
          take-stack_values n stack,
          drop-stack_values n stack,
        )
        refl

  run_terms-grow :
      (ts : List SetTerm) (stack out : List SetTreeNode)
      → grow ts stack ≡ some out
      → run_terms member ts (stack_values stack) ≡ stack_values out
  unfolding run_terms grow
  run_terms-grow [] stack out h = ap stack_values (some-injective h)
  run_terms-grow (t ∷ ts) stack out h = elim (Bool-cases (is_input t.kind)) [
    | inl y ↦ rw (y, stack_values-read t.kind t.input stack y) (run_terms-grow ts _ out (rw y at h))
    | inr n ↦ elim (Bool-cases (ltb (length stack) t.operands)) [
      | inl less ↦ ground (arith, some-none out (rw (n, less) at h))
      | inr k ↦
          rw
            (
              n,
              length-stack_values stack,
              stack_values-combined t.kind (length stack - t.operands) stack n,
            )
            (run_terms-grow ts _ out (rw (n, k) at h))
    ]
  ]

-- A formula that checks is a tree, and the stack that runs it over any memberships gives the value of
-- the tree.
pub copies-value :
    (f : List SetTerm) (inputs : ℕ)
    → check_set_formula f inputs ≡ none
    → (member : ℕ → ℕ)
    → (tree : SetTreeNode) × (set_tree_of f ≡ some tree) × (copies member f ≡ value member tree)
unfolding set_tree_of copies
copies-value f inputs h member =
    let (tree, e) = set_tree_of-some f inputs h in
    (tree, rw e refl, rw (run_terms-grow member f [] (tree ∷ []) e) refl)
