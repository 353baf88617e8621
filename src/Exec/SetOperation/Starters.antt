-- ===== src/Exec/SetOperation/Starters.antt =====
-- A row that a set operation gives is in a starter.
use antb.Prelude.{
  ℕ, ◌≡◌, ◌<◌, ==_refl, ltb, ltb→lt, true, Bool-cases, inl, inr, none, some, List, [], ◌∷◌, arith,
  refl,
}
use antb.Plan.SetFormula.{
  SetTermKind, union, intersect, intersect_all, except, except_all, SetTerm, SetTreeNode, node,
  SetTreeNodes, nil, cons, Marks, mark_starters, mark_each, mark_front, no_marks, set_starters,
  check_set_formula,
}
use antb.Exec.SetOperation.{copies}
use antb.Exec.SetOperation.Meaning.{any_positive, least, operate, value, values}
use antb.Exec.SetOperation.Laws.{copies-value}

-- A marked input that has the row.
abbrev Started : (ℕ → ℕ) → Marks → Type 0
Started member marks = (k : ℕ) × (marks k ≡ true) × (0 < member k)

-- Marks are never taken back.
mutual
  unfolding mark_starters

  mark_starters-keeps :
      (t : SetTreeNode) (marks : Marks) (k : ℕ) → marks k ≡ true → mark_starters t marks k ≡ true
  mark_starters-keeps (node SetTermKind.input i ts) marks k h = ground (arith, h)
  mark_starters-keeps (node union i ts) marks k h = mark_each-keeps ts marks k h
  mark_starters-keeps (node _ i ts) marks k h = mark_front-keeps ts marks k h

  mark_each-keeps :
      (ts : SetTreeNodes) (marks : Marks) (k : ℕ) → marks k ≡ true → mark_each ts marks k ≡ true
  mark_each-keeps nil marks k h = h
  mark_each-keeps (cons t ts) marks k h =
      mark_each-keeps ts (mark_starters t marks) k (mark_starters-keeps t marks k h)

  mark_front-keeps :
      (ts : SetTreeNodes) (marks : Marks) (k : ℕ) → marks k ≡ true → mark_front ts marks k ≡ true
  mark_front-keeps nil marks k h = h
  mark_front-keeps (cons t ts) marks k h = mark_starters-keeps t marks k h

abbrev first : List ℕ → ℕ
first [] = 0
first (v ∷ vs) = v

least-le : (v : ℕ) (vs : List ℕ) → 0 < least v vs → 0 < v
least-le v [] h = h
least-le v (w ∷ ws) h = omega (arith, h)

-- An operator other than UNION is 0 where its first operand is.
abbrev BoundsFirst : SetTermKind → Type 0
BoundsFirst k = (vs : List ℕ) → 0 < operate k vs → 0 < first vs

intersect-BoundsFirst : BoundsFirst intersect
intersect-BoundsFirst [] h = h
intersect-BoundsFirst (v ∷ vs) h = ground (arith, h)

intersect_all-BoundsFirst : BoundsFirst intersect_all
intersect_all-BoundsFirst [] h = h
intersect_all-BoundsFirst (v ∷ vs) h = least-le v vs h

except-BoundsFirst : BoundsFirst except
except-BoundsFirst [] h = h
except-BoundsFirst (v ∷ vs) h = ground (arith, h)

except_all-BoundsFirst : BoundsFirst except_all
except_all-BoundsFirst [] h = h
except_all-BoundsFirst (v ∷ vs) h = omega (arith, h)

union-any : (vs : List ℕ) → 0 < operate union vs → any_positive vs ≡ true
union-any [] h = ground (arith, h)
union-any (v ∷ vs) h = ground (arith, h)

module _ (member : ℕ → ℕ) where
  mutual
    unfolding mark_starters value

    value-Started :
        (t : SetTreeNode) (marks : Marks)
        → 0 < value member t
        → Started member (mark_starters t marks)
    value-Started (node SetTermKind.input i ts) marks h = (i, rw (==_refl i) refl, h)
    value-Started (node union i ts) marks h = each-Started ts marks (union-any (values member ts) h)
    value-Started (node intersect i ts) marks h =
        front-Started ts marks (intersect-BoundsFirst (values member ts) h)
    value-Started (node intersect_all i ts) marks h =
        front-Started ts marks (intersect_all-BoundsFirst (values member ts) h)
    value-Started (node except i ts) marks h =
        front-Started ts marks (except-BoundsFirst (values member ts) h)
    value-Started (node except_all i ts) marks h =
        front-Started ts marks (except_all-BoundsFirst (values member ts) h)

    each-Started :
        (ts : SetTreeNodes) (marks : Marks)
        → any_positive (values member ts) ≡ true
        → Started member (mark_each ts marks)
    each-Started nil marks h = ground (arith, h)
    each-Started (cons t ts) marks h = elim (Bool-cases (ltb 0 (value member t))) [
      | inl y ↦
          let (k, a, b) = value-Started t marks (ltb→lt 0 (value member t) y) in
          (k, mark_each-keeps ts (mark_starters t marks) k a, b)
      | inr n ↦ each-Started ts (mark_starters t marks) (rw n at h)
    ]

    front-Started :
        (ts : SetTreeNodes) (marks : Marks)
        → 0 < first (values member ts)
        → Started member (mark_front ts marks)
    front-Started nil marks h = ground (arith, h)
    front-Started (cons t ts) marks h = value-Started t marks h

-- A row that a checked formula gives at least once is in an input that SetStarters marks.
pub copies-started :
    (f : List SetTerm) (inputs : ℕ) (member : ℕ → ℕ)
    → check_set_formula f inputs ≡ none
    → 0 < copies member f
    → (marks : Marks) × (set_starters f ≡ some marks) × (k : ℕ) × (marks k ≡ true) × (0 < member k)
unfolding set_starters
copies-started f inputs member h p =
    let (tree, e, v) = copies-value f inputs h member in
    let (k, a, b) = value-Started member tree no_marks (rw v at p) in
    (mark_starters tree no_marks, rw e refl, k, a, b)
