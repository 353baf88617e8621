-- ===== src/Exec/Limit/Rows.antt =====
-- src/exec/limit.cc: the rows that the operator passes on.
use antb.Prelude.{
  ℕ, ◌+◌, ◌-◌, ◌≤◌, ◌<◌, ◌≡◌, refl, sym, ap, ap₂, ◌∙◌, Bool, true, false, ◌&&◌, ◌==◌, ==_iff,
  Option, none, some, List, [], ◌∷◌, ◌++◌, length, length-drop, length-take, take, drop, arith, min,
  if_elim,
}
use antb.Exec.Limit.{Batch, selected_rows, Limit, at_most, pass_batch}
use antb.Exec.Limit.Selection.{rows_of, Fits, selected_rows-length}
use antb.Exec.Limit.Prefix.{drop-++, take-++, take-min, drop-min, take-all}
use antb.Exec.Limit.Window.{Holds, window-Holds}

at_most-le : (limit : Option ℕ) (emitted n : ℕ) → at_most limit emitted n ≤ n
at_most-le none emitted n = omega arith
at_most-le (some limit) emitted n = omega arith

both_true : (a b : Bool) → (a && b) ≡ true → (a ≡ true) × (b ≡ true)
both_true true b h = (refl, h)
both_true false b h = absurd (ground arith)

module _ {ℓ} {A : Type ℓ} where
  -- What a limit lets through when some rows are emitted.
  abbrev pub limited : Option ℕ → ℕ → List A → List A
  limited none emitted xs = xs
  limited (some limit) emitted xs = take (limit - emitted) xs

  abbrev pub wanted : Limit → List A → List A
  wanted l xs = limited l.limit l.emitted (drop (l.offset - l.skipped) xs)

  abbrev pub all_rows : List (Batch A) → List A
  all_rows [] = []
  all_rows (b ∷ bs) = rows_of b ++ all_rows bs

  -- The rows of a batch that a round passes on, and what it leaves of the input behind it.
  limited-++ :
      (limit : Option ℕ) (emitted : ℕ) (xs ys : List A)
      → limited limit emitted (xs ++ ys)
        ≡ take (at_most limit emitted (length xs)) xs
          ++ limited limit (emitted + at_most limit emitted (length xs)) ys
  limited-++ none emitted xs ys = rw (take-all xs) refl
  limited-++ (some limit) emitted xs ys =
      let e : limit - emitted - length xs ≡ limit - (emitted + min (length xs) (limit - emitted)) =
        omega arith in
      take-++ (limit - emitted) xs ys
      ∙ ap₂ (λ (zs : List A) (k : ℕ). zs ++ take k ys) (sym (take-min (limit - emitted) xs)) e

  module _ (l : Limit) (b : Batch A) (fits : Fits b.rows b.selection) where
    abbrev pub skip : ℕ
    skip = min (l.offset - l.skipped) (selected_rows b)

    abbrev pub passed : ℕ
    passed = at_most l.limit l.emitted (selected_rows b - skip)

    abbrev pub moved : Limit
    moved = record l { skipped = l.skipped + skip; emitted = l.emitted + passed }

    abbrev pub passing : List A
    passing = take passed (drop skip (rows_of b))

    pub wanted-++ : (ys : List A) → wanted l (rows_of b ++ ys) ≡ passing ++ wanted moved ys
    wanted-++ ys =
        let skip_rows : drop (l.offset - l.skipped) (rows_of b) ≡ drop skip (rows_of b) = sym (
          ap (λ (n : ℕ). drop (min (l.offset - l.skipped) n) (rows_of b))
            (selected_rows-length b fits)
          ∙ drop-min (l.offset - l.skipped) (rows_of b)) in
        let skip_more : l.offset - l.skipped - length (rows_of b) ≡ l.offset - (l.skipped + skip) =
          omega (arith, selected_rows-length b fits) in
        let size : length (drop skip (rows_of b)) ≡ selected_rows b - skip =
          omega (arith, selected_rows-length b fits, length-drop skip (rows_of b)) in
        ap (limited l.limit l.emitted) (drop-++ (l.offset - l.skipped) (rows_of b) ys)
        ∙ ap₂ (λ (zs : List A) (k : ℕ). limited l.limit l.emitted (zs ++ drop k ys)) skip_rows
            skip_more
        ∙ limited-++ l.limit l.emitted (drop skip (rows_of b))
            (drop (l.offset - (l.skipped + skip)) ys)
        ∙ ap
            (λ (n : ℕ).
              take (at_most l.limit l.emitted n) (drop skip (rows_of b))
              ++ limited l.limit (l.emitted + at_most l.limit l.emitted n)
                  (drop (l.offset - (l.skipped + skip)) ys))
            size

    length-passing : length passing ≡ passed
    length-passing = omega (
      arith,
      length-take passed (drop skip (rows_of b)),
      length-drop skip (rows_of b),
      selected_rows-length b fits,
      at_most-le l.limit l.emitted (selected_rows b - skip),
    )

    passing-whole : (skip == 0 && passed == selected_rows b) ≡ true → passing ≡ rows_of b
    passing-whole h =
        let (no_skip, all) = both_true (skip == 0) (passed == selected_rows b) h in
        ap₂ (λ (n k : ℕ). take n (drop k (rows_of b)))
          ((==_iff _ _).0 all ∙ selected_rows-length b fits) ((==_iff _ _).0 no_skip)
        ∙ take-all (rows_of b)

    abbrev pub Gives : Option (Batch A) → Type ℓ
    Gives none = passing ≡ []
    Gives (some c) = Holds c passing × (0 < length passing)

    abbrev pub Passes : Limit × Option (Batch A) → Type ℓ
    Passes r = (r.0 ≡ moved) × Gives r.1

    pub pass_batch-Passes : Passes (pass_batch l b)
    unfolding pass_batch
    pass_batch-Passes =
        if_elim Passes (passed == 0) _ _
          (λ z. (refl, ap (λ (n : ℕ). take n (drop skip (rows_of b))) ((==_iff _ _).0 z)))
          λ z.
            let some_rows : 0 < passed = ground arith in
            if_elim Passes (skip == 0 && passed == selected_rows b) _ _
              (λ w. (refl, ((fits, sym (passing-whole w)), omega (arith, length-passing))))
              (λ w. (
                refl,
                (
                  window-Holds b skip passed fits some_rows
                      (omega (arith, at_most-le l.limit l.emitted (selected_rows b - skip))),
                  omega (arith, length-passing),
                ),
              ))
