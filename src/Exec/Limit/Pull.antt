-- ===== src/Exec/Limit/Pull.antt =====
-- src/exec/limit.cc: the rows that the operator passes on, until it is exhausted.
use antb.Prelude.{
  ℕ, zero, suc, ◌-◌, ◌<◌, ◌≡◌, refl, sym, ap, ap₂, ◌∙◌, true, Option, none, some, List, [], ◌∷◌,
  ◌++◌, length, take, drop, arith, All, if_elim,
}
use mathlib.Core.Option
use antb.Prelude.Int.{pos}
use antb.Exec.Limit.{
  Batch, Limit, opened, open_limit, reached, pass_batch, after_round, next, pull_all,
}
use antb.Exec.Limit.Selection.{rows_of, Fits}
use antb.Exec.Limit.Rows.{limited, wanted, all_rows, wanted-++, Passes, pass_batch-Passes}

abbrev start : Option ℕ → ℕ → Limit
start limit offset = record { limit = limit; offset = offset; skipped = 0; emitted = 0 }

open_limit-start :
    (limit : Option ℕ) (offset : ℕ)
    → open_limit (Option.map pos limit) (pos offset) ≡ opened (start limit offset)
unfolding open_limit
open_limit-start none offset = refl
open_limit-start (some limit) offset = refl

module _ {ℓ} {A : Type ℓ} where
  abbrev pub FitBatch : Batch A → Type 0
  FitBatch b = Fits b.rows b.selection

  -- What a call of `next` gives: a batch with rows, the next ones that are wanted, or the end.
  abbrev Finds : Limit → List (Batch A) → Option (Batch A) × Limit × List (Batch A) → Type ℓ
  Finds l input (none, l', rest) = wanted l (all_rows input) ≡ []
  Finds l input (some b, l', rest) =
      (FitBatch b × (0 < length (rows_of b)))
      × (wanted l (all_rows input) ≡ rows_of b ++ wanted l' (all_rows rest))
      × All FitBatch rest
      × (length rest < length input)

  reached-limited :
      (limit : Option ℕ) (emitted : ℕ) (xs : List A)
      → reached limit emitted ≡ true
      → limited limit emitted xs ≡ []
  reached-limited none emitted xs h = absurd (ground arith)
  reached-limited (some limit) emitted xs h =
      let e : limit - emitted ≡ 0 = ground arith in ap (λ (n : ℕ). take n xs) e

  take-[] : (n : ℕ) → Path (List A) (take n []) []
  take-[] zero = refl
  take-[] (suc n) = refl

  drop-[] : (n : ℕ) → Path (List A) (drop n []) []
  drop-[] zero = refl
  drop-[] (suc n) = refl

  limited-[] : (limit : Option ℕ) (emitted : ℕ) → Path (List A) (limited limit emitted []) []
  limited-[] none emitted = refl
  limited-[] (some limit) emitted = take-[] (limit - emitted)

  Finds-past :
      (l l' : Limit) (b : Batch A) (bs : List (Batch A))
      → wanted l (all_rows (b ∷ bs)) ≡ wanted l' (all_rows bs)
      → (r : Option (Batch A) × Limit × List (Batch A)) → Finds l' bs r
      → Finds l (b ∷ bs) r
  Finds-past l l' b bs e (none, k, rest) f = e ∙ f
  Finds-past l l' b bs e (some c, k, rest) (g, f, h, s) = (g, e ∙ f, h, omega arith)

  after_round-Finds :
      (l : Limit) (b : Batch A) (bs : List (Batch A)) (fits : FitBatch b)
      → All FitBatch bs
      → ((l' : Limit) → Finds l' bs (next l' bs))
      → (r : Limit × Option (Batch A)) → Passes l b fits r
      → Finds l (b ∷ bs) (after_round r bs (λ l'. next l' bs))
  after_round-Finds l b bs fits fit more (l', none) (e, g) =
      Finds-past l l' b bs
        (wanted-++ l b fits (all_rows bs)
          ∙ ap₂ (λ (xs : List A) (k : Limit). xs ++ wanted k (all_rows bs)) g (sym e))
        (next l' bs) (more l')
  after_round-Finds l b bs fits fit more (l', some c) (e, (h, p)) = (
    (h.0, rw (h.1) p),
    wanted-++ l b fits (all_rows bs)
        ∙ ap₂ (λ (xs : List A) (k : Limit). xs ++ wanted k (all_rows bs)) (sym h.1) (sym e),
    fit,
    omega arith,
  )

  next-Finds :
      (l : Limit) (input : List (Batch A)) → All FitBatch input → Finds l input (next l input)
  unfolding next
  next-Finds l [] fit =
      ap (limited l.limit l.emitted) (drop-[] (l.offset - l.skipped)) ∙ limited-[] l.limit l.emitted
  next-Finds l (b ∷ bs) fit =
      if_elim (Finds l (b ∷ bs)) (reached l.limit l.emitted) _ _
        (λ r. reached-limited l.limit l.emitted _ r)
        (λ r.
          after_round-Finds l b bs fit.0 fit.1 (λ l'. next-Finds l' bs fit.1) (pass_batch l b)
            (pass_batch-Passes l b fit.0))

  -- The rows that LIMIT and OFFSET let through.
  abbrev pub let_through : Option ℕ → ℕ → List A → List A
  let_through none offset xs = drop offset xs
  let_through (some limit) offset xs = take limit (drop offset xs)

  abbrev pub HasRows : Batch A → Type 0
  HasRows b = FitBatch b × (0 < length (rows_of b))

  -- The batches that are pulled, and the rows in them.
  abbrev Pulls : Limit → List (Batch A) → ℕ → Type ℓ
  Pulls l input f =
      (out : List (Batch A)) × (pull_all f l input ≡ some out)
      × (all_rows out ≡ wanted l (all_rows input))
      × All HasRows out

  pulled-Pulls :
      (f : ℕ) (l : Limit) (input : List (Batch A))
      → length input < suc f
      → ((l' : Limit) (rest : List (Batch A))
          → length rest < f
          → All FitBatch rest
          → Pulls l' rest f)
      → (r : Option (Batch A) × Limit × List (Batch A)) → next l input ≡ r
      → Finds l input r
      → Pulls l input (suc f)
  unfolding pull_all
  pulled-Pulls f l input h more (none, l', rest) e g = ([], rw e refl, sym g, tt)
  pulled-Pulls f l input h more (some b, l', rest) e (p, g, fit, s) =
      let (out, q, rows, all) = more l' rest (omega arith) fit in
      (b ∷ out, rw (e, q) refl, ap (λ (xs : List A). rows_of b ++ xs) rows ∙ sym g, (p, all))

  pull_all_lem :
      (f : ℕ) (l : Limit) (input : List (Batch A))
      → length input < f
      → All FitBatch input
      → Pulls l input f
  pull_all_lem zero l input h fit = absurd (omega arith)
  pull_all_lem (suc f) l input h fit =
      pulled-Pulls f l input h (λ l' rest. pull_all_lem f l' rest) (next l input) refl
        (next-Finds l input fit)

  -- What an operator with a limit and an offset gives: it opens, and when it is pulled to its end,
  -- every batch has rows, and their rows together are those that the limit and the offset let
  -- through.
  abbrev pub LetsThrough : Option ℕ → ℕ → List (Batch A) → Type ℓ
  LetsThrough limit offset input =
      (l : Limit) × (open_limit (Option.map pos limit) (pos offset) ≡ opened l)
      × (out : List (Batch A)) × (pull_all (suc (length input)) l input ≡ some out)
      × (all_rows out ≡ let_through limit offset (all_rows input))
      × All HasRows out

  start-wanted :
      (limit : Option ℕ) (offset : ℕ) (xs : List A)
      → wanted (start limit offset) xs ≡ let_through limit offset xs
  start-wanted none offset xs =
      let e : offset - 0 ≡ offset = omega arith in ap (λ (n : ℕ). drop n xs) e
  start-wanted (some limit) offset xs =
      let e : offset - 0 ≡ offset = omega arith in
      let f : limit - 0 ≡ limit = omega arith in ap₂ (λ (m n : ℕ). take m (drop n xs)) f e

  -- An operator whose limit and offset are not negative opens and passes on exactly the rows that
  -- they let through, in batches that have rows, if a selection of the input has a flag for each row.
  pub open_limit-LetsThrough :
      (limit : Option ℕ) (offset : ℕ) (input : List (Batch A))
      → All FitBatch input
      → LetsThrough limit offset input
  open_limit-LetsThrough limit offset input fit =
      let (out, pulls, rows, all) =
        pull_all_lem (suc (length input)) (start limit offset) input (omega arith) fit in
      (
        start limit offset,
        open_limit-start limit offset,
        out,
        pulls,
        rows ∙ start-wanted limit offset (all_rows input),
        all,
      )
