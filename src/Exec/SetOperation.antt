-- ===== src/Exec/SetOperation.antt =====
-- src/exec/set_operation.cc: the copies of a group, by the formula over its memberships.
use antb.Prelude.{
  ℕ, ◌-◌, ltb, ◌==◌, ◌&&◌, ◌||◌, not, min, Bool, true, false, List, [], ◌∷◌, ◌++◌, length, take,
  drop, if◌then◌else◌,
}
use antb.Plan.SetFormula.{
  SetTermKind, union, intersect, intersect_all, except, except_all, SetTerm, is_input,
}
pub mod Meaning
pub mod Laws
pub mod Starters

abbrev pub bit : Bool → ℕ
bit b = if b then 1 else 0

-- The first switch of `Combine`.
abbrev pub combine_first : SetTermKind → ℕ → ℕ
combine_first union v = bit (ltb 0 v)
combine_first intersect v = bit (ltb 0 v)
combine_first except v = bit (ltb 0 v)
combine_first k v = v

-- The second one.
abbrev pub combine_next : SetTermKind → ℕ → ℕ → ℕ
combine_next union out v = bit (not (out == 0) || ltb 0 v)
combine_next intersect out v = bit (not (out == 0) && ltb 0 v)
combine_next except out v = bit (not (out == 0) && v == 0)
combine_next intersect_all out v = min out v
combine_next except_all out v = out - v
combine_next SetTermKind.input out v = out

unfoldable pub combine_from : SetTermKind → ℕ → List ℕ → ℕ
combine_from k out [] = out
combine_from k out (v ∷ vs) = combine_from k (combine_next k out v) vs

-- `Combine` for one group. Without operands, which a checked formula does not have, it is 0.
unfoldable pub combine : SetTermKind → List ℕ → ℕ
unfolding combine_from
combine k [] = 0
combine k (v ∷ vs) = combine_from k (combine_first k v) vs

-- The loop over the terms in `Evaluate` for one group, given its memberships by input.
unfoldable pub run_terms : (ℕ → ℕ) → List SetTerm → List ℕ → List ℕ
unfolding combine
run_terms member [] stack = stack
run_terms member (t ∷ ts) stack =
    let read = run_terms member ts (stack ++ (member t.input ∷ [])) in
    let first = length stack - t.operands in
    let combined =
      run_terms member ts (take first stack ++ (combine t.kind (drop first stack) ∷ [])) in
    if is_input t.kind then read else combined

abbrev pub top : List ℕ → ℕ
top [] = 0
top (v ∷ []) = v
top (v ∷ w ∷ vs) = top (w ∷ vs)

unfoldable pub copies : (ℕ → ℕ) → List SetTerm → ℕ
unfolding run_terms
copies member f = top (run_terms member f [])
