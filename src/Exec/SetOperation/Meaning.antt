-- ===== src/Exec/SetOperation/Meaning.antt =====
-- How often a set operation gives a row, from how often each input has it: the specification.
use antb.Prelude.{ℕ, ◌+◌, ◌-◌, ltb, ◌==◌, ◌&&◌, ◌||◌, min, Bool, true, false, List, [], ◌∷◌}
use antb.Plan.SetFormula.{
  SetTermKind, input, union, intersect, intersect_all, except, except_all, SetTreeNode, node,
  SetTreeNodes, nil, cons,
}
use antb.Exec.SetOperation.{bit}

abbrev pub any_positive : List ℕ → Bool
any_positive [] = false
any_positive (v ∷ vs) = ltb 0 v || any_positive vs

abbrev pub each_positive : List ℕ → Bool
each_positive [] = true
each_positive (v ∷ vs) = ltb 0 v && each_positive vs

abbrev pub none_positive : List ℕ → Bool
none_positive [] = true
none_positive (v ∷ vs) = v == 0 && none_positive vs

abbrev pub least : ℕ → List ℕ → ℕ
least v [] = v
least v (w ∷ ws) = min v (least w ws)

abbrev pub sum : List ℕ → ℕ
sum [] = 0
sum (v ∷ vs) = v + sum vs

-- The value of an operator over the values of its operands.
abbrev pub operate : SetTermKind → List ℕ → ℕ
operate k [] = 0
operate union (v ∷ vs) = bit (any_positive (v ∷ vs))
operate intersect (v ∷ vs) = bit (each_positive (v ∷ vs))
operate except (v ∷ vs) = bit (ltb 0 v && none_positive vs)
operate intersect_all (v ∷ vs) = least v vs
operate except_all (v ∷ vs) = v - sum vs
operate input (v ∷ vs) = v

unfoldable mutual
  pub value : (ℕ → ℕ) → SetTreeNode → ℕ
  value member (node input i ts) = member i
  value member (node k i ts) = operate k (values member ts)

  pub values : (ℕ → ℕ) → SetTreeNodes → List ℕ
  values member nil = []
  values member (cons t ts) = value member t ∷ values member ts
