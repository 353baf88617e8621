-- ===== src/Exec/GroupingSets/Entries.antt =====
-- src/exec/grouping_sets_shape.cc: the distinct sets, and the set of each entry.
use antb.Prelude.{
  ℕ, zero, suc, ◌≤◌, ◌<◌, ◌≡◌, refl, ◌∙◌, ap, ap₂, true, false, ◌==◌, ==_iff, some, List, [], ◌∷◌,
  ◌++◌, length, get_elem?, if_elim, Bool-cases, inl, inr, arith,
}
use antb.Exec.GroupingSets.{same_set, find_set, Distinct, add_set, add_sets, distinct_sets}

-- The entries name the sets of the list, one after the other.
abbrev pub Name : List (List ℕ) → List ℕ → List (List ℕ) → Type 0
Name sets [] [] = Unit
Name sets (i ∷ is) (s ∷ ss) = (get_elem? sets i ≡ some s) × Name sets is ss
Name sets _ _ = ⊥

-- No set stands twice.
abbrev pub AreDistinct : List (List ℕ) → Type 0
AreDistinct [] = Unit
AreDistinct (s ∷ ss) = (find_set s ss ≡ length ss) × AreDistinct ss

same_set-eq : (s t : List ℕ) → same_set s t ≡ true → s ≡ t
same_set-eq [] [] h = refl
same_set-eq [] (y ∷ ys) h = absurd (ground arith)
same_set-eq (x ∷ xs) [] h = absurd (ground arith)
same_set-eq (x ∷ xs) (y ∷ ys) h =
    ap₂ (λ (z : ℕ) (zs : List ℕ). z ∷ zs) ((==_iff x y).0 (ground arith))
      (same_set-eq xs ys (ground arith))

same_set_comm : (s t : List ℕ) → same_set s t ≡ same_set t s
same_set_comm [] [] = refl
same_set_comm [] (y ∷ ys) = refl
same_set_comm (x ∷ xs) [] = refl
same_set_comm (x ∷ xs) (y ∷ ys) = ground (arith, same_set_comm xs ys)

find_set-le : (s : List ℕ) (ss : List (List ℕ)) → find_set s ss ≤ length ss
find_set-le s [] = omega arith
find_set-le s (t ∷ ts) = ground (arith, find_set-le s ts)

-- What is found is the set.
get-find_set :
    (s : List ℕ) (ss : List (List ℕ))
    → find_set s ss < length ss
    → get_elem? ss (find_set s ss) ≡ some s
get-find_set s [] h = absurd (omega arith)
get-find_set s (t ∷ ts) h = elim (Bool-cases (same_set t s)) [
  | inl q ↦ rw q (ap (λ (u : List ℕ). some u) (same_set-eq t s q))
  | inr q ↦ rw q (get-find_set s ts (ground arith))
]

get-append :
    (i : ℕ) (ss ts : List (List ℕ)) (s : List ℕ)
    → get_elem? ss i ≡ some s
    → get_elem? (ss ++ ts) i ≡ some s
get-append i [] ts s h = absurd (ground arith)
get-append zero (t ∷ ss) ts s h = h
get-append (suc i) (t ∷ ss) ts s h = get-append i ss ts s h

get-length : (ss : List (List ℕ)) (s : List ℕ) → get_elem? (ss ++ (s ∷ [])) (length ss) ≡ some s
get-length [] s = refl
get-length (t ∷ ts) s = get-length ts s

Name-extend :
    (sets ts : List (List ℕ)) (is : List ℕ) (ss : List (List ℕ))
    → Name sets is ss
    → Name (sets ++ ts) is ss
Name-extend sets ts [] [] n = tt
Name-extend sets ts [] (s ∷ ss) n = n
Name-extend sets ts (i ∷ is) [] n = n
Name-extend sets ts (i ∷ is) (s ∷ ss) (g, n) =
    (get-append i sets ts s g, Name-extend sets ts is ss n)

Name-snoc :
    (sets : List (List ℕ)) (is : List ℕ) (ss : List (List ℕ)) (i : ℕ) (s : List ℕ)
    → Name sets is ss
    → get_elem? sets i ≡ some s
    → Name sets (is ++ (i ∷ [])) (ss ++ (s ∷ []))
Name-snoc sets [] [] i s n g = (g, tt)
Name-snoc sets [] (t ∷ ss) i s n g = absurd n
Name-snoc sets (j ∷ is) [] i s n g = absurd n
Name-snoc sets (j ∷ is) (t ∷ ss) i s (h, n) g = (h, Name-snoc sets is ss i s n g)

absent-snoc :
    (t s : List ℕ) (ts : List (List ℕ))
    → find_set t ts ≡ length ts
    → same_set s t ≡ false
    → find_set t (ts ++ (s ∷ [])) ≡ length (ts ++ (s ∷ []))
absent-snoc t s [] a d = rw d refl
absent-snoc t s (u ∷ ts) a d = elim (Bool-cases (same_set u t)) [
  | inl q ↦ absurd (ground arith)
  | inr q ↦ ground (arith, absent-snoc t s ts)
]

AreDistinct-snoc :
    (ss : List (List ℕ)) (s : List ℕ)
    → AreDistinct ss
    → find_set s ss ≡ length ss
    → AreDistinct (ss ++ (s ∷ []))
AreDistinct-snoc [] s d a = (refl, tt)
AreDistinct-snoc (t ∷ ts) s (b, d) a = elim (Bool-cases (same_set t s)) [
  | inl q ↦ absurd (ground arith)
  | inr q ↦ (absent-snoc t s ts b (same_set_comm s t ∙ q), AreDistinct-snoc ts s d (ground arith))
]

-- The sets and the entries of the lists of sets so far.
abbrev pub Shapes : List (List ℕ) → Distinct → Type 0
Shapes ss d = Name d.sets d.entries ss × AreDistinct d.sets

add_set-Shapes :
    (s : List ℕ) (ss : List (List ℕ)) (d : Distinct)
    → Shapes ss d
    → Shapes (ss ++ (s ∷ [])) (add_set s d)
unfolding add_set
add_set-Shapes s ss d (n, u) =
    let i = find_set s d.sets in
    if_elim (λ sets. Name sets (d.entries ++ (i ∷ [])) (ss ++ (s ∷ [])) × AreDistinct sets)
      (i == length d.sets) _ _
      (λ q.
        let new : i ≡ length d.sets = (==_iff _ _).0 q in
        (
          Name-snoc (d.sets ++ (s ∷ [])) d.entries ss i s
              (Name-extend d.sets (s ∷ []) d.entries ss n) (rw new (get-length d.sets s)),
          AreDistinct-snoc d.sets s u new,
        ))
      (λ q. (
        Name-snoc d.sets d.entries ss i s n
            (get-find_set s d.sets (ground (arith, find_set-le s d.sets))),
        u,
      ))

++-[] : (ss : List (List ℕ)) → ss ++ [] ≡ ss
++-[] [] = refl
++-[] (s ∷ ss) = ap (λ (t : List (List ℕ)). s ∷ t) (++-[] ss)

snoc-append : (ss ts : List (List ℕ)) (s : List ℕ) → (ss ++ (s ∷ [])) ++ ts ≡ ss ++ (s ∷ ts)
snoc-append [] ts s = refl
snoc-append (t ∷ ss) ts s = ap (λ (us : List (List ℕ)). t ∷ us) (snoc-append ss ts s)

add_sets-Shapes :
    (ts ss : List (List ℕ)) (d : Distinct) → Shapes ss d → Shapes (ss ++ ts) (add_sets ts d)
unfolding add_sets
add_sets-Shapes [] ss d h = rw (++-[] ss) h
add_sets-Shapes (t ∷ ts) ss d h =
    rw (← snoc-append ss ts t)
      (add_sets-Shapes ts (ss ++ (t ∷ [])) (add_set t d) (add_set-Shapes t ss d h))

-- The entries name the sets of the list, one after the other, among sets of which no two are equal.
pub distinct_sets-Shapes : (ss : List (List ℕ)) → Shapes ss (distinct_sets ss)
unfolding distinct_sets
distinct_sets-Shapes ss = add_sets-Shapes ss [] (record { sets = []; entries = [] }) (tt, tt)
