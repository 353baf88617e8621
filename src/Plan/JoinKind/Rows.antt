-- ===== src/Plan/JoinKind/Rows.antt =====
-- The rows of a join, by the definitions of the kinds alone: a specification for the table.
use antb.Prelude.{Bool, false, ◌||◌, Option, none, some, List, [], ◌∷◌, ◌++◌, if◌then◌else◌}
use antb.Plan.JoinKind.{JoinKind, inner, left, semi, anti, null_aware_anti, one_row, full}

module _ {A : Type 0} where
  abbrev pub keep : (A → Bool) → List A → List A
  keep p [] = []
  keep p (x ∷ xs) = if p x then x ∷ keep p xs else keep p xs

  abbrev pub some_row : (A → Bool) → List A → Bool
  some_row p [] = false
  some_row p (x ∷ xs) = p x || some_row p xs

-- `m` says whether two rows match (a NULL key never does), `null_left` and `null_right` whether a
-- row's key is NULL. The columns of an absent side are NULL.
module _ {L R : Type 0} (m : L → R → Bool) (null_left : L → Bool) (null_right : R → Bool) where
  abbrev pub Row : Type 0
  Row = Option L × Option R

  abbrev pub pairs : L → List R → List Row
  pairs l [] = []
  pairs l (r ∷ rs) = if m l r then (some l, some r) ∷ pairs l rs else pairs l rs

  abbrev pub product : L → List R → List Row
  product l [] = []
  product l (r ∷ rs) = (some l, some r) ∷ product l rs

  abbrev pub only : L → List Row
  only l = (some l, none) ∷ []

  abbrev not_in : L → List R → List Row
  not_in l [] = only l
  not_in l (r ∷ rs) =
      if some_row null_right (r ∷ rs) || (null_left l || some_row (m l) (r ∷ rs))
      then []
      else only l

  -- The rows of one left row.
  abbrev pub rows_of : JoinKind → List R → L → List Row
  rows_of inner rs l = pairs l rs
  rows_of left rs l = if some_row (m l) rs then pairs l rs else only l
  rows_of semi rs l = if some_row (m l) rs then only l else []
  rows_of anti rs l = if some_row (m l) rs then [] else only l
  rows_of null_aware_anti rs l = not_in l rs
  rows_of one_row rs l = product l rs
  rows_of full rs l = if some_row (m l) rs then pairs l rs else only l

  abbrev pub left_rows_of : JoinKind → List R → List L → List Row
  left_rows_of k rs [] = []
  left_rows_of k rs (l ∷ ls) = rows_of k rs l ++ left_rows_of k rs ls

  abbrev pub unmatched_right : List L → List R → List Row
  unmatched_right ls [] = []
  unmatched_right ls (r ∷ rs) =
      if some_row (λ l. m l r) ls
      then unmatched_right ls rs
      else (none, some r) ∷ unmatched_right ls rs

  abbrev pub right_rows_of : JoinKind → List L → List R → List Row
  right_rows_of full ls rs = unmatched_right ls rs
  right_rows_of _ ls rs = []

  unfoldable pub join : JoinKind → List L → List R → List Row
  join k ls rs = left_rows_of k rs ls ++ right_rows_of k ls rs
