-- ===== src/Plan/JoinKind/Laws.antt =====
-- The table's rules against the rows of the joins.
use antb.Prelude.{
  ℕ, ◌+◌, ◌≤◌, ◌≡◌, refl, ap, Bool, true, false, List, [], ◌∷◌, ◌++◌, length, All, arith,
  length-append, Bool-cases, inl, inr, ◌⊎◌,
}
use antb.Plan.JoinKind.{
  JoinKind, inner, left, semi, anti, full, build_left, build_right, padded_join_rows,
  empty_build_empties_join, probe_drops_unmatched_rows, int64_max,
}
use antb.Plan.JoinKind.Rows.{
  keep, some_row, pairs, rows_of, left_rows_of, unmatched_right, right_rows_of, join,
}
use mathlib.Core.List.{append-nil}

module _ {L R : Type 0} (m : L → R → Bool) (null_left : L → Bool) (null_right : R → Bool) where
  inner_over_nothing : (ls : List L) → left_rows_of m null_left null_right inner [] ls ≡ []
  inner_over_nothing [] = refl
  inner_over_nothing (l ∷ ls) = inner_over_nothing ls

  semi_over_nothing : (ls : List L) → left_rows_of m null_left null_right semi [] ls ≡ []
  semi_over_nothing [] = refl
  semi_over_nothing (l ∷ ls) = semi_over_nothing ls

  -- Where an empty build is said to empty the join, either input without rows leaves no row.
  pub join_empty :
      (k : JoinKind) (ls : List L) (rs : List R)
      → empty_build_empties_join k ≡ true
      → (join m null_left null_right k ls [] ≡ []) × (join m null_left null_right k [] rs ≡ [])
  unfolding join empty_build_empties_join
  join_empty inner ls rs e = (rw append-nil (inner_over_nothing ls), refl)
  join_empty semi ls rs e = (rw append-nil (semi_over_nothing ls), refl)
  join_empty k ls rs e = cc

  pairs-unmatched :
      (l : L) (rs : List R) → some_row (m l) rs ≡ false → pairs m null_left null_right l rs ≡ []
  pairs-unmatched l [] e = refl
  pairs-unmatched l (r ∷ rs) e = ground (arith, pairs-unmatched l rs)

  -- Left rows without a match give nothing in a join that drops them.
  keep_matched_left :
      (k : JoinKind) (ls : List L) (rs : List R)
      → probe_drops_unmatched_rows k build_right ≡ true
      → left_rows_of m null_left null_right k rs (keep (λ l. some_row (m l) rs) ls)
        ≡ left_rows_of m null_left null_right k rs ls
  unfolding probe_drops_unmatched_rows
  keep_matched_left inner [] rs e = refl
  keep_matched_left inner (l ∷ ls) rs e = elim (Bool-cases (some_row (m l) rs)) [
    | inl h ↦
        rw h (ap (λ t. pairs m null_left null_right l rs ++ t) (keep_matched_left inner ls rs e))
    | inr h ↦ rw (h, pairs-unmatched l rs h) (keep_matched_left inner ls rs e)
  ]
  keep_matched_left semi [] rs e = refl
  keep_matched_left semi (l ∷ ls) rs e = ground (arith, keep_matched_left semi ls rs e)
  keep_matched_left k ls rs e = cc

  -- Where a probe of the left input is said to drop its unmatched rows, a filter of the left rows by
  -- the keys of the right ones changes no row of the join.
  pub join-keep_left :
      (k : JoinKind) (ls : List L) (rs : List R)
      → probe_drops_unmatched_rows k build_right ≡ true
      → join m null_left null_right k (keep (λ l. some_row (m l) rs) ls) rs
        ≡ join m null_left null_right k ls rs
  unfolding join probe_drops_unmatched_rows
  join-keep_left inner ls rs e = rw (keep_matched_left inner ls rs e) refl
  join-keep_left semi ls rs e = rw (keep_matched_left semi ls rs e) refl
  join-keep_left k ls rs e = cc

  -- Every row that l matches passes p.
  abbrev Covers : (R → Bool) → L → Type 0
  Covers p l = (r : R) → m l r ≡ true → p r ≡ true

  pairs-keep :
      (p : R → Bool) (l : L) (rs : List R)
      → Covers p l
      → pairs m null_left null_right l (keep p rs) ≡ pairs m null_left null_right l rs
  pairs-keep p l [] h = refl
  pairs-keep p l (r ∷ rs) h = ground (arith, h r, pairs-keep p l rs h)

  some_row-keep :
      (p : R → Bool) (l : L) (rs : List R)
      → Covers p l
      → some_row (m l) (keep p rs) ≡ some_row (m l) rs
  some_row-keep p l [] h = refl
  some_row-keep p l (r ∷ rs) h = ground (arith, h r, some_row-keep p l rs h)

  rows_of-keep :
      (k : JoinKind) (p : R → Bool) (l : L) (rs : List R)
      → probe_drops_unmatched_rows k build_left ≡ true
      → Covers p l
      → rows_of m null_left null_right k (keep p rs) l ≡ rows_of m null_left null_right k rs l
  unfolding probe_drops_unmatched_rows
  rows_of-keep inner p l rs e h = pairs-keep p l rs h
  rows_of-keep left p l rs e h = rw (some_row-keep p l rs h, pairs-keep p l rs h) refl
  rows_of-keep semi p l rs e h = rw (some_row-keep p l rs h) refl
  rows_of-keep anti p l rs e h = rw (some_row-keep p l rs h) refl
  rows_of-keep k p l rs e h = cc

  left_rows_of-keep :
      (k : JoinKind) (p : R → Bool) (ls : List L) (rs : List R)
      → probe_drops_unmatched_rows k build_left ≡ true
      → All (Covers p) ls
      → left_rows_of m null_left null_right k (keep p rs) ls
        ≡ left_rows_of m null_left null_right k rs ls
  left_rows_of-keep k p [] rs e h = refl
  left_rows_of-keep k p (l ∷ ls) rs e (h, t) =
      rw (rows_of-keep k p l rs e h, left_rows_of-keep k p ls rs e t) refl

  Covers-more :
      (x : L) (ls ks : List L)
      → All (Covers (λ r. some_row (λ l. m l r) ls)) ks
      → All (Covers (λ r. some_row (λ l. m l r) (x ∷ ls))) ks
  Covers-more x ls [] h = tt
  Covers-more x ls (k ∷ ks) (h, t) = (λ r e. ground (arith, h r e), Covers-more x ls ks t)

  All-covered : (ls : List L) → All (Covers (λ r. some_row (λ l. m l r) ls)) ls
  All-covered [] = tt
  All-covered (l ∷ ls) = (λ r e. ground arith, Covers-more l ls ls (All-covered ls))

  no_right_rows :
      (k : JoinKind) (ls : List L) (rs ks : List R)
      → probe_drops_unmatched_rows k build_left ≡ true
      → right_rows_of m null_left null_right k ls rs ≡ right_rows_of m null_left null_right k ls ks
  unfolding probe_drops_unmatched_rows
  no_right_rows full ls rs ks e = cc
  no_right_rows k ls rs ks e = refl

  -- Where a probe of the right input is said to drop its unmatched rows, a filter of the right rows
  -- by the keys of the left ones changes no row of the join.
  pub join-keep_right :
      (k : JoinKind) (ls : List L) (rs : List R)
      → probe_drops_unmatched_rows k build_left ≡ true
      → join m null_left null_right k ls (keep (λ r. some_row (λ l. m l r) ls) rs)
        ≡ join m null_left null_right k ls rs
  unfolding join
  join-keep_right k ls rs e =
      rw
        (
          left_rows_of-keep k (λ r. some_row (λ l. m l r) ls) ls rs e (All-covered ls),
          no_right_rows k ls (keep (λ r. some_row (λ l. m l r) ls) rs) rs e,
        )
        refl

  -- The number of matching pairs.
  abbrev pub matches : List L → List R → ℕ
  matches ls rs = length (left_rows_of m null_left null_right inner rs ls)

  unmatched_right-le :
      (ls : List L) (rs : List R)
      → length (unmatched_right m null_left null_right ls rs) ≤ length rs
  unmatched_right-le ls [] = omega arith
  unmatched_right-le ls (r ∷ rs) = ground (arith, unmatched_right-le ls rs)

  some_row-pairs :
      (l : L) (rs : List R)
      → some_row (m l) rs ≡ true
      → 1 ≤ length (pairs m null_left null_right l rs)
  some_row-pairs l [] e = cc
  some_row-pairs l (r ∷ rs) e = ground (arith, some_row-pairs l rs)

  padded_left-bounds :
      (ls : List L) (rs : List R)
      → let rows = length (left_rows_of m null_left null_right left rs ls) in
        (matches ls rs ≤ rows) × (length ls ≤ rows) × (rows ≤ matches ls rs + length ls)
  padded_left-bounds [] rs = omega arith
  padded_left-bounds (l ∷ ls) rs = elim (Bool-cases (some_row (m l) rs)) [
    | inl h ↦ rw h (
        omega (
          arith,
          padded_left-bounds ls rs,
          some_row-pairs l rs h,
          length-append (pairs m null_left null_right l rs)
              (left_rows_of m null_left null_right left rs ls),
          length-append (pairs m null_left null_right l rs)
              (left_rows_of m null_left null_right inner rs ls),
        ))
    | inr h ↦ rw (h, pairs-unmatched l rs h) (omega (arith, padded_left-bounds ls rs))
  ]

  full_as_left :
      (ls : List L) (rs : List R)
      → left_rows_of m null_left null_right full rs ls
        ≡ left_rows_of m null_left null_right left rs ls
  full_as_left [] rs = refl
  full_as_left (l ∷ ls) rs =
      ap (λ t. rows_of m null_left null_right left rs l ++ t) (full_as_left ls rs)

  full-bound :
      (ls : List L) (rs : List R)
      → length (join m null_left null_right full ls rs) ≤ matches ls rs + length ls + length rs
  unfolding join
  full-bound ls rs = rw (full_as_left ls rs) (
      omega (
        arith,
        padded_left-bounds ls rs,
        unmatched_right-le ls rs,
        length-append (left_rows_of m null_left null_right left rs ls)
            (unmatched_right m null_left null_right ls rs),
      ))

  -- The estimate from the number of matches is exact for an inner join, a lower bound for a left
  -- join, and for a full join an upper bound unless it is the largest int64.
  pub padded_join_rows-bounds :
      (ls : List L) (rs : List R)
      → let rows = λ (k : JoinKind). length (join m null_left null_right k ls rs) in
        let estimate =
          λ (k : JoinKind). padded_join_rows k (matches ls rs) (length ls) (length rs) in
        (rows inner ≡ estimate inner)
        × (estimate left ≤ rows left)
        × ((rows full ≤ estimate full) ⊎ (estimate full ≡ int64_max))
  unfolding join padded_join_rows
  padded_join_rows-bounds ls rs = (
    rw append-nil refl,
    rw append-nil (omega (arith, padded_left-bounds ls rs)),
    ground (arith, full-bound ls rs),
  )
