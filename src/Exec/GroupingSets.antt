-- ===== src/Exec/GroupingSets.antt =====
-- src/exec/grouping_sets_shape.cc: the distinct sets of a list of grouping sets, and the set that
-- each of them is merged from. A set is the ascending list of its keys.
use antb.Prelude.{
  ℕ, zero, suc, ◌+◌, Bool, true, false, not, ◌&&◌, ◌||◌, ltb, ◌==◌, Option, none, some, List, [],
  ◌∷◌, ◌++◌, length, get_elem?, if◌then◌else◌,
}
pub mod Entries
pub mod Includes
pub mod Roots
pub mod Sources

-- `==` of two vectors.
abbrev pub same_set : List ℕ → List ℕ → Bool
same_set [] [] = true
same_set [] (y ∷ ys) = false
same_set (x ∷ xs) [] = false
same_set (x ∷ xs) (y ∷ ys) = x == y && same_set xs ys

-- `std::ranges::find(sets, set) - sets.begin()`.
abbrev pub find_set : List ℕ → List (List ℕ) → ℕ
find_set x [] = 0
find_set x (s ∷ ss) = let rest = suc (find_set x ss) in if same_set s x then 0 else rest

-- `GroupingSetsShape::sets` and `entries`.
pub record Distinct : Type 0 where
  pub sets : List (List ℕ)
  pub entries : List ℕ

unfoldable pub add_set : List ℕ → Distinct → Distinct
add_set s d =
    let i = find_set s d.sets in
    record {
      sets = if i == length d.sets then d.sets ++ (s ∷ []) else d.sets;
      entries = d.entries ++ (i ∷ []);
    }

unfoldable pub add_sets : List (List ℕ) → Distinct → Distinct
unfolding add_set
add_sets [] d = d
add_sets (s ∷ ss) d = add_sets ss (add_set s d)

unfoldable pub distinct_sets : List (List ℕ) → Distinct
unfolding add_sets
distinct_sets ss = add_sets ss (record { sets = []; entries = [] })

-- `std::ranges::includes` of two ascending ranges.
unfoldable pub includes : List ℕ → List ℕ → Bool
includes xs [] = true
includes [] (y ∷ ys) = false
includes (x ∷ xs) (y ∷ ys) =
    let past = includes xs (y ∷ ys) in
    let both = includes xs ys in if ltb y x then false else if x == y then both else past

abbrev pub none_larger : List (List ℕ) → List ℕ → Bool
none_larger [] s = true
none_larger (o ∷ os) s = not (ltb (length s) (length o) && includes o s) && none_larger os s

-- `roots[s]`.
unfoldable pub is_root : Bool → List (List ℕ) → List ℕ → Bool
unfolding includes
is_root exact sets s = not exact || none_larger sets s

abbrev pub is_smaller : ℕ → Option (ℕ × ℕ) → Bool
is_smaller n none = true
is_smaller n (some (i, m)) = ltb n m

-- The loop over the roots `r` from an index on, with the source so far and its size.
unfoldable pub find_source :
    Bool → List (List ℕ) → List ℕ → ℕ → List (List ℕ) → Option (ℕ × ℕ) → Option (ℕ × ℕ)
unfolding includes is_root
find_source exact sets s r [] source = source
find_source exact sets s r (t ∷ ts) source = find_source exact sets s (r + 1) ts (
    if is_root exact sets t && includes t s && is_smaller (length t) source
    then some (r, length t)
    else source)
