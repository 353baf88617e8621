-- ===== src/Exec/Limit/Window.antt =====
-- src/exec/limit.cc: a window of a batch holds the rows that it should.
use antb.Prelude.{
  ℕ, zero, suc, ◌+◌, ◌-◌, ◌≤◌, ◌<◌, ◌≡◌, refl, ◌∙◌, Bool, true, false, ◌==◌, ==_iff, Option, none,
  some, List, [], ◌∷◌, length, length-drop, length-take, take, drop, arith,
}
use Prim.Native.Nat.add
use antb.Exec.Limit.{
  Batch, true_count, bounds_from, selected_rows, slice, window_in, selected_in, window,
}
use antb.Exec.Limit.Selection.{taking_part, rows_of, Fits, position, select-slice}

both : {a b c d : ℕ} → a ≡ b → c ≡ d → Path (Option ℕ × Option ℕ) (some a, some c) (some b, some d)
both p q = cc

later :
    (first : Option ℕ) {a b : ℕ}
    → a ≡ b
    → Path (Option ℕ × Option ℕ) (first, some a) (first, some b)
later first p = cc

same : (a b : ℕ) → a ≡ b → (a == b) ≡ true
same a b e = (==_iff a b).1 e

not_same : (a b : ℕ) → ¬ (a ≡ b) → (a == b) ≡ false
not_same a b h = ground arith

-- Behind the first row of the window, the loop finds its last one.
bounds-last :
    (skip last k i seen : ℕ) (first : Option ℕ) (bs : List Bool)
    → last ≡ seen + k
    → skip < seen
    → k < true_count bs
    → bounds_from skip last i seen first bs ≡ (first, some (i + position k bs))
unfolding bounds_from
bounds-last skip last k i seen first [] e l h = absurd (omega arith)
bounds-last skip last k i seen first (false ∷ bs) e l h =
    bounds-last skip last k (i + 1) seen first bs e l h ∙ later first (omega arith)
bounds-last skip last zero i seen first (true ∷ bs) e l h =
    rw (not_same seen skip (omega arith), same seen last (omega arith)) (later first (omega arith))
bounds-last skip last (suc k) i seen first (true ∷ bs) e l h =
    rw (not_same seen skip (omega arith), not_same seen last (omega arith))
      (bounds-last skip last k (i + 1) (seen + 1) first bs (omega arith) (omega arith) (omega arith)
        ∙ later first (omega arith))

-- The loop finds both rows.
bounds_from-position :
    (skip last k m i seen : ℕ) (first : Option ℕ) (bs : List Bool)
    → skip ≡ seen + k
    → last ≡ seen + m
    → k ≤ m
    → m < true_count bs
    → bounds_from skip last i seen first bs ≡ (some (i + position k bs), some (i + position m bs))
unfolding bounds_from
bounds_from-position skip last k m i seen first [] e f l h = absurd (omega arith)
bounds_from-position skip last k m i seen first (false ∷ bs) e f l h =
    bounds_from-position skip last k m (i + 1) seen first bs e f l h
    ∙ both (omega arith) (omega arith)
bounds_from-position skip last zero zero i seen first (true ∷ bs) e f l h =
    rw (same seen skip (omega arith), same seen last (omega arith))
      (both (omega arith) (omega arith))
bounds_from-position skip last zero (suc m) i seen first (true ∷ bs) e f l h =
    rw (same seen skip (omega arith), not_same seen last (omega arith))
      (bounds-last skip last m (i + 1) (seen + 1) (some i) bs (omega arith) (omega arith)
          (omega arith)
        ∙ both (omega arith) (omega arith))
bounds_from-position skip last (suc k) zero i seen first (true ∷ bs) e f l h = absurd (omega arith)
bounds_from-position skip last (suc k) (suc m) i seen first (true ∷ bs) e f l h =
    rw (not_same seen skip (omega arith), not_same seen last (omega arith))
      (bounds_from-position skip last k m (i + 1) (seen + 1) first bs (omega arith) (omega arith)
          (omega arith) (omega arith)
        ∙ both (omega arith) (omega arith))

module _ {ℓ} {A : Type ℓ} where
  -- The batch has a flag for each row, and its rows that take part are these.
  abbrev pub Holds : Batch A → List A → Type ℓ
  Holds b ys = Fits b.rows b.selection × (rows_of b ≡ ys)

  length-slice :
      (from n : ℕ) (xs : List A) (bs : List Bool)
      → length xs ≡ length bs
      → length (slice from n xs) ≡ length (slice from n bs)
  length-slice from n xs bs e = omega (
    arith,
    length-take n (drop from xs),
    length-take n (drop from bs),
    length-drop from xs,
    length-drop from bs,
  )

  window_in-Holds :
      (xs : List A) (o : Option (List Bool)) (skip k : ℕ)
      → Fits xs o
      → skip + k < selected_in xs o
      → Holds (window_in xs o skip (suc k)) (take (suc k) (drop skip (taking_part xs o)))
  unfolding bounds_from
  window_in-Holds xs none skip k f h = (tt, refl)
  window_in-Holds xs (some bs) skip k f h =
      rw
        (
          bounds_from-position skip (skip + suc k - 1) skip (skip + k) 0 0 none bs (omega arith)
              (omega arith) (omega arith) h,
          add.zero (position skip bs),
          add.zero (position (skip + k) bs),
        )
        (length-slice _ _ xs bs f, select-slice skip k xs bs f h)

  -- The rows `skip` to `skip + n - 1` of those that take part.
  pub window-Holds :
      (b : Batch A) (skip n : ℕ)
      → Fits b.rows b.selection
      → 0 < n
      → skip + n ≤ selected_rows b
      → Holds (window b skip n) (take n (drop skip (rows_of b)))
  unfolding window
  window-Holds b skip zero f h l = absurd (omega arith)
  window-Holds b skip (suc k) f h l = window_in-Holds b.rows b.selection skip k f (omega arith)
