-- ===== src/Tests/SetOperation.antt =====
-- Set operations on small formulas.
use antb.Prelude.{◌<◌, true, arith, if◌then◌else◌, ◌==◌, ℕ, ◌≡◌, refl, none, some, List, [], ◌∷◌}
use antb.Plan.SetFormula.{
  SetTermKind, union, intersect_all, except_all, SetTerm, check_set_formula, SetTreeNode,
  set_tree_of, Marks, set_starters, wrong_operands, root_is_input,
}
use antb.Exec.SetOperation.{copies}
use antb.Exec.SetOperation.Meaning.{value}
use antb.Exec.SetOperation.Starters.{copies-started}
use antb.Exec.SetOperation.Laws.{copies-value}

abbrev reads : ℕ → SetTerm
reads i = record { kind = SetTermKind.input; input = i; operands = 2 }

abbrev operator : SetTermKind → ℕ → SetTerm
operator k n = record { kind = k; input = 0; operands = n }

-- 0 EXCEPT ALL (1 INTERSECT ALL 2) EXCEPT ALL 3
abbrev formula : List SetTerm
formula =
    reads 0 ∷ reads 1 ∷ reads 2 ∷ operator intersect_all 2 ∷ reads 3 ∷ operator except_all 3 ∷ []

-- A row 9, 3, 2 and 4 times in the inputs.
abbrev member : ℕ → ℕ
member i = if i == 0 then 9 else if i == 1 then 3 else if i == 2 then 2 else 4

counts :
    (check_set_formula formula 4 ≡ none)
    × (copies member formula ≡ 3)
    × (check_set_formula (reads 0 ∷ operator union 2 ∷ []) 1 ≡ some wrong_operands)
    × (check_set_formula (reads 0 ∷ []) 1 ≡ some root_is_input)
unfolding check_set_formula copies
counts = (refl, refl, refl, refl)

copies-value_example :
    (tree : SetTreeNode) × (set_tree_of formula ≡ some tree)
    × (copies member formula ≡ value member tree)
copies-value_example = copies-value formula 4 counts.0 member

copies-started_example :
    (marks : Marks) × (set_starters formula ≡ some marks)
    × (k : ℕ) × (marks k ≡ true)
    × (0 < member k)
copies-started_example = copies-started formula 4 member counts.0 (omega (arith, counts.1))
