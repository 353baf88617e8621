-- ===== src/Exec/PartScheduler/Pending.antt =====
-- The tasks that have not finished yet.
use antb.Prelude.{ℕ, ◌+◌, ◌≤◌, ◌<◌, true, Option, none, some, List, [], ◌∷◌, ◌≡◌, arith}
use antb.Exec.PartScheduler.{Result, Slots, put}
use antb.Exec.PartScheduler.Steps.{is_among}

abbrev unset : {T : Type 0} → Option (Result T) → ℕ
unset none = 1
unset (some r) = 0

-- The tasks without a result so far.
abbrev pub pending : {T : Type 0} → Slots T → List ℕ → ℕ
pending slots [] = 0
pending slots (p ∷ ps) = unset (slots p) + pending slots ps

module _ {T : Type 0} where
  pending-put_le :
      (slots : Slots T) (p : ℕ) (r : Result T) (ps : List ℕ)
      → pending (put p r slots) ps ≤ pending slots ps
  pending-put_le slots p r [] = omega arith
  pending-put_le slots p r (q ∷ qs) = ground (arith, pending-put_le slots p r qs)

  -- A task that finishes leaves one less.
  pub pending-put :
      (slots : Slots T) (p : ℕ) (r : Result T) (ps : List ℕ)
      → is_among p ps ≡ true
      → slots p ≡ none
      → pending (put p r slots) ps < pending slots ps
  pending-put slots p r [] a f = ground (arith, a)
  pending-put slots p r (q ∷ qs) a f =
      ground (arith, a, f, pending-put_le slots p r qs, pending-put slots p r qs)
