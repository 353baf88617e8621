-- ===== src/Exec/Limit/Selection.antt =====
-- The rows of a batch that take part, and the ranges of rows that hold some of them.
use antb.Prelude.{
  ℕ, zero, suc, ◌+◌, ◌-◌, ◌<◌, ◌≡◌, refl, sym, ap, ◌∙◌, Bool, true, false, Option, none, some, List,
  [], ◌∷◌, length, length-drop, take, drop, arith,
}
use Prim.Native.Nat.add
use antb.Exec.Limit.{Batch, true_count, slice, selected_in, selected_rows}

-- The rows that take part.
module _ {ℓ} {A : Type ℓ} where
  abbrev pub select : List A → List Bool → List A
  select [] bs = []
  select (x ∷ xs) [] = []
  select (x ∷ xs) (true ∷ bs) = x ∷ select xs bs
  select (x ∷ xs) (false ∷ bs) = select xs bs

  abbrev pub taking_part : List A → Option (List Bool) → List A
  taking_part xs none = xs
  taking_part xs (some bs) = select xs bs

  abbrev pub rows_of : Batch A → List A
  rows_of b = taking_part b.rows b.selection

  -- A selection has a flag for each row.
  abbrev pub Fits : List A → Option (List Bool) → Type 0
  Fits xs none = Unit
  Fits xs (some bs) = length xs ≡ length bs

-- The row of the k-th flag that is set.
abbrev pub position : ℕ → List Bool → ℕ
position k [] = 0
position k (false ∷ bs) = suc (position k bs)
position zero (true ∷ bs) = 0
position (suc k) (true ∷ bs) = suc (position k bs)

module _ {ℓ} {A : Type ℓ} where
  select-drop :
      (k : ℕ) (xs : List A) (bs : List Bool)
      → length xs ≡ length bs
      → k < true_count bs
      → select (drop (position k bs) xs) (drop (position k bs) bs) ≡ drop k (select xs bs)
  select-drop k xs [] e h = absurd (omega arith)
  select-drop k [] (b ∷ bs) e h = absurd (omega arith)
  select-drop k (x ∷ xs) (false ∷ bs) e h = select-drop k xs bs (omega arith) h
  select-drop zero (x ∷ xs) (true ∷ bs) e h = refl
  select-drop (suc k) (x ∷ xs) (true ∷ bs) e h = select-drop k xs bs (omega arith) (omega arith)

  select-take :
      (k : ℕ) (xs : List A) (bs : List Bool)
      → length xs ≡ length bs
      → k < true_count bs
      → select (take (suc (position k bs)) xs) (take (suc (position k bs)) bs)
        ≡ take (suc k) (select xs bs)
  select-take k xs [] e h = absurd (omega arith)
  select-take k [] (b ∷ bs) e h = absurd (omega arith)
  select-take k (x ∷ xs) (false ∷ bs) e h = select-take k xs bs (omega arith) h
  select-take zero (x ∷ xs) (true ∷ bs) e h = refl
  select-take (suc k) (x ∷ xs) (true ∷ bs) e h =
      ap (λ (t : List A). x ∷ t) (select-take k xs bs (omega arith) (omega arith))

true_count-drop :
    (k : ℕ) (bs : List Bool)
    → k < true_count bs
    → true_count (drop (position k bs) bs) + k ≡ true_count bs
true_count-drop k [] h = absurd (omega arith)
true_count-drop k (false ∷ bs) h = true_count-drop k bs h
true_count-drop zero (true ∷ bs) h = omega arith
true_count-drop (suc k) (true ∷ bs) h = omega (arith, true_count-drop k bs (omega arith))

position-drop :
    (k m : ℕ) (bs : List Bool)
    → k < true_count bs
    → position m (drop (position k bs) bs) + position k bs ≡ position (k + m) bs
position-drop k m [] h = absurd (omega arith)
position-drop k m (false ∷ bs) h = omega (arith, position-drop k m bs h)
position-drop zero m (true ∷ bs) h = rw add.zero (omega arith)
position-drop (suc k) m (true ∷ bs) h =
    rw add.suc (omega (arith, position-drop k m bs (omega arith)))

module _ {ℓ} {A : Type ℓ} where
  length-select :
      (xs : List A) (bs : List Bool) → length xs ≡ length bs → length (select xs bs) ≡ true_count bs
  length-select [] [] e = refl
  length-select [] (b ∷ bs) e = absurd (omega arith)
  length-select (x ∷ xs) [] e = absurd (omega arith)
  length-select (x ∷ xs) (true ∷ bs) e = omega (arith, length-select xs bs (omega arith))
  length-select (x ∷ xs) (false ∷ bs) e = length-select xs bs (omega arith)

  -- From the row `skip` to the row `skip + k`, of those that take part.
  pub select-slice :
      (skip k : ℕ) (xs : List A) (bs : List Bool)
      → length xs ≡ length bs
      → skip + k < true_count bs
      → (select
            (slice (position skip bs) (position (skip + k) bs - position skip bs + 1) xs)
            (slice (position skip bs) (position (skip + k) bs - position skip bs + 1) bs)
          ≡ take (suc k) (drop skip (select xs bs)))
  select-slice skip k xs bs e h =
      let p = position skip bs in
      let count = true_count-drop skip bs (omega arith) in
      let size : position (skip + k) bs - p + 1 ≡ suc (position k (drop p bs)) =
        omega (arith, position-drop skip k bs (omega arith)) in
      rw size (
        select-take k (drop p xs) (drop p bs) (omega (arith, length-drop p xs, length-drop p bs))
          (omega (arith, count))
        ∙ ap (take (suc k)) (select-drop skip xs bs e (omega arith)))

module _ {ℓ} {A : Type ℓ} where
  pub selected_rows-length :
      (b : Batch A) → Fits b.rows b.selection → selected_rows b ≡ length (rows_of b)
  selected_rows-length b f = counted b.rows b.selection f
    where
      counted :
          (xs : List A) (o : Option (List Bool))
          → Fits xs o
          → selected_in xs o ≡ length (taking_part xs o)
      counted xs none f = refl
      counted xs (some bs) f = sym (length-select xs bs f)
