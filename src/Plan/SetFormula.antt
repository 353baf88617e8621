-- ===== src/Plan/SetFormula.antt =====
-- src/plan/logical_plan.cc: the formula of a set operation, its check and its tree.
use antb.Prelude.{
  ℕ, suc, ◌+◌, ◌-◌, ltb, ◌==◌, ◌||◌, not, Bool, true, false, Option, none, some, List, [], ◌∷◌,
  ◌++◌, length, take, drop, if◌then◌else◌,
}
pub mod Checked

pub data SetTermKind : Type 0 where
  input union intersect intersect_all except except_all : SetTermKind

pub record SetTerm : Type 0 where
  pub kind : SetTermKind
  pub input : ℕ
  pub operands : ℕ

abbrev pub is_input : SetTermKind → Bool
is_input SetTermKind.input = true
is_input _ = false

-- What CheckSetFormula writes.
pub data Problem : Type 0 where
  empty_formula unexpected_input wrong_operands unread_inputs not_one_root root_is_input : Problem

-- The loop's end: a problem, or the terms on the stack and the next input.
pub data Walked : Type 0 where
  problem : Problem → Walked
  walked : ℕ → ℕ → Walked

unfoldable pub walk : List SetTerm → ℕ → ℕ → Walked
walk [] depth next = walked depth next
walk (t ∷ ts) depth next =
    let read = walk ts (suc depth) (suc next) in
    let combined = walk ts (depth - (t.operands - 1)) next in
    if is_input t.kind
    then if t.input == next then read else problem unexpected_input
    else if t.operands == 0 || ltb depth t.operands
    then problem wrong_operands
    else combined

abbrev pub last_is_input : List SetTerm → Bool
last_is_input [] = false
last_is_input (t ∷ []) = is_input t.kind
last_is_input (t ∷ u ∷ ts) = last_is_input (u ∷ ts)

abbrev pub check_end : Walked → List SetTerm → ℕ → Option Problem
check_end (problem p) f inputs = some p
check_end (walked depth next) f inputs =
    if not (next == inputs)
    then some unread_inputs
    else if not (depth == 1)
    then some not_one_root
    else if last_is_input f
    then some root_is_input
    else none

-- `CheckSetFormula`.
unfoldable pub check_set_formula : List SetTerm → ℕ → Option Problem
unfolding walk
check_set_formula [] inputs = some empty_formula
check_set_formula (t ∷ ts) inputs = check_end (walk (t ∷ ts) 0 0) (t ∷ ts) inputs

mutual
  pub data SetTreeNode : Type 0 where
    node : SetTermKind → ℕ → SetTreeNodes → SetTreeNode

  pub data SetTreeNodes : Type 0 where
    nil : SetTreeNodes
    cons : SetTreeNode → SetTreeNodes → SetTreeNodes

abbrev pub nodes : List SetTreeNode → SetTreeNodes
nodes [] = nil
nodes (t ∷ ts) = cons t (nodes ts)

-- The loop of SetTreeOf. A check that fails is `none`.
unfoldable pub grow : List SetTerm → List SetTreeNode → Option (List SetTreeNode)
grow [] stack = some stack
grow (t ∷ ts) stack =
    let read = grow ts (stack ++ (node t.kind t.input nil ∷ [])) in
    let first = length stack - t.operands in
    let combined = grow ts (take first stack ++ (node t.kind 0 (nodes (drop first stack)) ∷ [])) in
    if is_input t.kind then read else if ltb (length stack) t.operands then none else combined

abbrev pub only_one : Option (List SetTreeNode) → Option SetTreeNode
only_one (some (t ∷ [])) = some t
only_one _ = none

-- `SetTreeOf`.
unfoldable pub set_tree_of : List SetTerm → Option SetTreeNode
unfolding grow
set_tree_of f = only_one (grow f [])

-- A `std::vector<bool>` by input.
abbrev pub Marks : Type 0
Marks = ℕ → Bool

abbrev pub set_mark : ℕ → Marks → Marks
set_mark i marks k = k == i || marks k

-- `MarkStarters`.
unfoldable mutual
  pub mark_starters : SetTreeNode → Marks → Marks
  mark_starters (node SetTermKind.input i ts) marks = set_mark i marks
  mark_starters (node union i ts) marks = mark_each ts marks
  mark_starters (node k i ts) marks = mark_front ts marks

  pub mark_each : SetTreeNodes → Marks → Marks
  mark_each nil marks = marks
  mark_each (cons t ts) marks = mark_each ts (mark_starters t marks)

  pub mark_front : SetTreeNodes → Marks → Marks
  mark_front nil marks = marks
  mark_front (cons t ts) marks = mark_starters t marks

abbrev pub no_marks : Marks
no_marks k = false

abbrev pub starters_of : Option SetTreeNode → Option Marks
starters_of none = none
starters_of (some t) = some (mark_starters t no_marks)

-- `SetStarters`.
unfoldable pub set_starters : List SetTerm → Option Marks
unfolding set_tree_of mark_starters
set_starters f = starters_of (set_tree_of f)
