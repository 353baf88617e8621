-- ===== src/Plan/SetFormula/Checked.antt =====
-- A formula that checks is a tree.
use antb.Prelude.{
  ℕ, suc, inl, inr, ◌-◌, ltb, ◌==◌, ◌||◌, false, Bool-cases, none, some, List, [], ◌∷◌, ◌++◌,
  length, take, drop, ◌≡◌, refl, length-append, length-take, arith,
}
use antb.Plan.SetFormula.{
  SetTermKind, SetTerm, is_input, Problem, Walked, problem, walked, walk, check_end,
  check_set_formula, SetTreeNode, node, nil, nodes, grow,
}

-- The trees on the stack after the loop, as many as the check has counted.
Grown : List SetTerm → List SetTreeNode → ℕ → Type 0
Grown ts stack d = (out : List SetTreeNode) × (grow ts stack ≡ some out) × (length out ≡ d)

length-combined :
    (n : ℕ) (stack : List SetTreeNode) (t : SetTreeNode)
    → ((n == 0) || ltb (length stack) n) ≡ false
    → length (take (length stack - n) stack ++ (t ∷ [])) ≡ length stack - (n - 1)
length-combined n stack t h = ground (
  arith,
  length-append (take (length stack - n) stack) (t ∷ []),
  length-take (length stack - n) stack,
)

length-read :
    (k : SetTermKind) (i : ℕ) (stack : List SetTreeNode)
    → length (stack ++ (node k i nil ∷ [])) ≡ suc (length stack)
length-read k i stack = omega (arith, length-append stack (node k i nil ∷ []))

not-less : (n d : ℕ) → ((n == 0) || ltb d n) ≡ false → ltb d n ≡ false
not-less n d h = ground (arith, h)

not-walked : {p : Problem} {d n : ℕ} → problem p ≡ walked d n → ⊥
not-walked e = ground (arith, e)

walked-depth : {d n e m : ℕ} → walked d n ≡ walked e m → d ≡ e
walked-depth e = cc

grow-Grown :
    (ts : List SetTerm) (stack : List SetTreeNode) (next d n : ℕ)
    → walk ts (length stack) next ≡ walked d n
    → Grown ts stack d
unfolding walk grow Grown
grow-Grown [] stack next d n h = (stack, refl, walked-depth h)
grow-Grown (t ∷ ts) stack next d n h = elim (Bool-cases (is_input t.kind)) [
  | inl y ↦ elim (Bool-cases (t.input == next)) [
    | inl e ↦ rw y (
        grow-Grown ts (stack ++ (node t.kind t.input nil ∷ [])) (suc next) d n
          (rw (length-read t.kind t.input stack) (rw (y, e) at h)))
    | inr e ↦ absurd (not-walked (rw (y, e) at h))
  ]
  | inr k ↦ elim (Bool-cases ((t.operands == 0) || ltb (length stack) t.operands)) [
    | inl e ↦ absurd (not-walked (rw (k, e) at h))
    | inr e ↦
        rw (k, not-less t.operands (length stack) e)
          (grow-Grown ts _ next d n (
            rw
              (length-combined t.operands stack
                (node t.kind 0 (nodes (drop (length stack - t.operands) stack))) e)
              (rw (k, e) at h)))
  ]
]

one_tree : (out : List SetTreeNode) → length out ≡ 1 → (tree : SetTreeNode) × (out ≡ tree ∷ [])
one_tree [] h = ground (arith, h)
one_tree (t ∷ []) h = (t, refl)
one_tree (t ∷ u ∷ ts) h = ground (arith, h)

-- A check that ends well has one term on the stack.
check_end-none :
    (w : Walked) (f : List SetTerm) (inputs : ℕ) → check_end w f inputs ≡ none → w ≡ walked 1 inputs
check_end-none (problem p) f inputs h = ground (arith, h)
check_end-none (walked depth next) f inputs h = ground (arith, h)

pub set_tree_of-some :
    (f : List SetTerm) (inputs : ℕ)
    → check_set_formula f inputs ≡ none
    → (tree : SetTreeNode) × (grow f [] ≡ some (tree ∷ []))
unfolding check_set_formula Grown
set_tree_of-some [] inputs h = ground (arith, h)
set_tree_of-some (t ∷ ts) inputs h =
    let w = check_end-none (walk (t ∷ ts) 0 0) (t ∷ ts) inputs h in
    let (out, e, l) = grow-Grown (t ∷ ts) [] 0 1 inputs w in
    let (tree, k) = one_tree out l in (tree, rw (e, k) refl)
