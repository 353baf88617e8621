-- ===== src/Exec/Limit.antt =====
-- src/exec/limit.cc and the batches of src/exec/operator.cc. A batch is its rows and, if it has a
-- selection, a flag for each row. The input is the list of the batches that it still gives, and its
-- errors are left out.
use antb.Prelude.{
  ℕ, zero, suc, ◌+◌, ◌-◌, Bool, true, false, not, ◌&&◌, ltb, ◌==◌, min, Option, none, some, List,
  [], ◌∷◌, length, take, drop, if◌then◌else◌,
}
use antb.Prelude.Int.{ℤ, pos}
pub mod Selection
pub mod Window
pub mod Prefix
pub mod Rows
pub mod Pull

pub record Batch {ℓ} (A : Type ℓ) : Type ℓ where
  pub rows : List A
  pub selection : Option (List Bool)

abbrev pub true_count : List Bool → ℕ
true_count [] = 0
true_count (true ∷ bs) = suc (true_count bs)
true_count (false ∷ bs) = true_count bs

-- The skip-th selected row and the last one of a window, from the row `i` on.
unfoldable pub bounds_from : ℕ → ℕ → ℕ → ℕ → Option ℕ → List Bool → Option ℕ × Option ℕ
bounds_from skip last i seen first [] = (first, none)
bounds_from skip last i seen first (false ∷ bs) = bounds_from skip last (i + 1) seen first bs
bounds_from skip last i seen first (true ∷ bs) =
    let found : Option ℕ = if seen == skip then some i else first in
    let rest = bounds_from skip last (i + 1) (seen + 1) found bs in
    if seen == last then (found, some i) else rest

module _ {ℓ} {A : Type ℓ} where
  abbrev pub selected_in : List A → Option (List Bool) → ℕ
  selected_in xs none = length xs
  selected_in xs (some bs) = true_count bs

  abbrev pub selected_rows : Batch A → ℕ
  selected_rows b = selected_in b.rows b.selection

  abbrev pub slice : ℕ → ℕ → List A → List A
  slice from n xs = take n (drop from xs)

-- `Window`: with no bound found the source would cut with -1, which its condition excludes.
module _ {ℓ} {A : Type ℓ} where
  abbrev pub between : Option ℕ × Option ℕ → List A → List Bool → Batch A
  between (some first, some last) xs bs = record {
    rows = slice first (last - first + 1) xs;
    selection = some (slice first (last - first + 1) bs);
  }
  between _ xs bs = record { rows = []; selection = none }

  abbrev pub window_in : List A → Option (List Bool) → ℕ → ℕ → Batch A
  window_in xs none skip n = record { rows = slice skip n xs; selection = none }
  window_in xs (some bs) skip n = between (bounds_from skip (skip + n - 1) 0 0 none bs) xs bs

  unfoldable pub window : Batch A → ℕ → ℕ → Batch A
  unfolding bounds_from
  window b skip n = window_in b.rows b.selection skip n

pub record Limit : Type 0 where
  pub limit : Option ℕ
  pub offset : ℕ
  pub skipped : ℕ
  pub emitted : ℕ

pub data Opened : Type 0 where
  opened : Limit → Opened
  negative_limit negative_offset : ℤ → Opened

abbrev pub open_offset : Option ℕ → ℤ → Opened
open_offset limit (pos offset) =
    opened (record { limit = limit; offset = offset; skipped = 0; emitted = 0 })
open_offset limit offset = negative_offset offset

-- `Open` with the arguments of the constructor: an invalid argument is its error.
unfoldable pub open_limit : Option ℤ → ℤ → Opened
open_limit none offset = open_offset none offset
open_limit (some (pos limit)) offset = open_offset (some limit) offset
open_limit (some limit) offset = negative_limit limit

abbrev pub reached : Option ℕ → ℕ → Bool
reached none emitted = false
reached (some limit) emitted = not (ltb emitted limit)

abbrev pub at_most : Option ℕ → ℕ → ℕ → ℕ
at_most none emitted n = n
at_most (some limit) emitted n = min n (limit - emitted)

-- One round of the loop of `Next`: what is left of a batch, if anything is.
module _ {ℓ} {A : Type ℓ} where
  unfoldable pub pass_batch : Limit → Batch A → Limit × Option (Batch A)
  unfolding window
  pass_batch l b =
      let rows = selected_rows b in
      let skip = min (l.offset - l.skipped) rows in
      let n = at_most l.limit l.emitted (rows - skip) in
      let moved = record l { skipped = l.skipped + skip; emitted = l.emitted + n } in
      if n == 0
      then (moved, none)
      else if skip == 0 && n == rows
      then (moved, some b)
      else (moved, some (window b skip n))

  abbrev pub after_round :
      Limit × Option (Batch A)
      → List (Batch A)
      → (Limit → Option (Batch A) × Limit × List (Batch A))
      → Option (Batch A) × Limit × List (Batch A)
  after_round (l, none) rest more = more l
  after_round (l, some b) rest more = (some b, l, rest)

  -- `Next`: a batch, or the end, with the state and the input that follow.
  unfoldable pub next : Limit → List (Batch A) → Option (Batch A) × Limit × List (Batch A)
  unfolding pass_batch
  next l [] = (none, l, [])
  next l (b ∷ bs) =
      if reached l.limit l.emitted
      then (none, l, b ∷ bs)
      else after_round (pass_batch l b) bs (λ l'. next l' bs)

  abbrev pub pulled :
      Option (Batch A) × Limit × List (Batch A)
      → (Limit → List (Batch A) → Option (List (Batch A)))
      → Option (List (Batch A))
  pulled (none, l, rest) more = some []
  pulled (some b, l, rest) more = elim (more l rest) [ none ↦ none | some out ↦ some (b ∷ out) ]

  -- All batches, as `Drain` pulls them, a call for each unit of fuel.
  unfoldable pub pull_all : ℕ → Limit → List (Batch A) → Option (List (Batch A))
  pull_all zero l input = none
  pull_all (suc f) l input = pulled (next l input) (pull_all f)
