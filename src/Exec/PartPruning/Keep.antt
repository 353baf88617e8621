-- ===== src/Exec/PartPruning/Keep.antt =====
-- The parts that a scan keeps hold every row that its predicates keep.
use antb.Prelude.{
  ℕ, zero, suc, ◌+◌, ◌≤◌, ◌<◌, ◌≡◌, refl, sym, Bool, true, false, ◌||◌, Option, none, some, List,
  [], ◌∷◌, if◌then◌else◌, arith, Bool-cases, Option-cases, inl, inr, ◌⊎◌, ◌≢◌, All,
}
use antb.Prelude.Int.{ℤ, ◌≤ℤ◌}
use mathlib.Core.Path.{subst}
use native.Mathlib.Decide.{ℕ_discrete}
use antb.Common.Int128.{Sign}
use antb.Plan.Predicate.{Value, int, null, Constant, BoundColumn, Predicate, Kind, never}
use antb.Plan.BranchTruth.{is_null_value}
use antb.Plan.BranchTruth.Meaning.{eval, eval_kind}
use antb.Exec.PartPruning.{
  PartStats, Table, never_true, predicate_excludes, is_never, field_of, part_may_match, kept_from,
  kept_parts, no_predicates, SortKey, part_may_beat, reaches,
}
use antb.Exec.PartPruning.Laws.{Describes, IsTypedPredicate, never_true-fails}

-- A row gives each field of the table its value; a column that the scan does not read is NULL.
abbrev pub Fields : Type 0
Fields = ℤ → Value

abbrev pub value_in : Fields → Option ℤ → Value
value_in row none = null
value_in row (some f) = row f

-- The parts that are listed.
abbrev pub Has : ℕ → List ℕ → Type 0
Has part [] = ⊥
Has part (x ∷ xs) = (part ≡ x) ⊎ Has part xs

Has-here :
    (b : Bool) (part x : ℕ) (xs : List ℕ) → part ≡ x → Has part (if b || true then x ∷ xs else xs)
Has-here true part x xs e = inl e
Has-here false part x xs e = inl e

Has-there :
    (b : Bool) (part x : ℕ) (xs : List ℕ) → Has part xs → Has part (if b then x ∷ xs else xs)
Has-there true part x xs h = inr h
Has-there false part x xs h = h

-- `InPart part row` says which rows a part holds. The table's statistics describe them.
module _ (compare_other : Constant → Constant → Sign) (other_condition : Predicate → Value → Bool)
    (t : Table) (InPart : ℕ → Fields → Type 0) where
  abbrev pub AreExact : Type 0
  AreExact =
      (part : ℕ) (row : Fields) (f : ℤ) (s : PartStats)
      → InPart part row
      → t.part_stats part f ≡ some s
      → Describes s (row f)

  -- The predicate is true of the row.
  abbrev pub Keeps : List ℤ → Fields → Predicate → Type 0
  Keeps fields row p =
      IsTypedPredicate compare_other other_condition p
      × (eval compare_other other_condition p (value_in row (field_of fields p.column))
            (value_in row (field_of fields p.other))
          ≡ some true)

  never-false :
      (p : Predicate) (v w : Value)
      → is_never p.kind ≡ true
      → eval compare_other other_condition p v w ≢ some true
  never-false p v w h = at p.kind h
    where
      at :
          (k : Kind)
          → is_never k ≡ true
          → eval_kind compare_other other_condition k p v w ≢ some true
      at never e = λ q. cc
      at k e = λ q. cc

  column_of_field :
      (fields : List ℤ) (c : Option BoundColumn) (f : ℤ)
      → field_of fields c ≡ some f
      → (b : BoundColumn) × (c ≡ some b)
  column_of_field fields none f e = absurd (cc e)
  column_of_field fields (some b) f e = (b, refl)

  not-excluded :
      (fields : List ℤ) (part : ℕ) (row : Fields) (p : Predicate)
      → AreExact
      → InPart part row
      → Keeps fields row p
      → predicate_excludes t part fields p ≡ false
  not-excluded fields part row p exact here (typed, holds) = elim (Bool-cases (is_never p.kind)) [
    | inl n ↦ absurd (never-false p _ _ n holds)
    | inr n ↦ elim (Option-cases (field_of fields p.column)) [
      | inl e ↦ rw (n, e) refl
      | inr (f, e) ↦ elim (Option-cases (t.part_stats part f)) [
        | inl u ↦ rw (n, e, u) refl
        | inr (s, u) ↦ elim (Bool-cases (never_true p s)) [
          | inl x ↦
              let (b, column) = column_of_field fields p.column f e in
              absurd (
                never_true-fails compare_other other_condition p b s (row f) _ column typed
                  (exact part row f s here u) x
                  (subst
                    (λ o.
                      eval compare_other other_condition p (value_in row o)
                        (value_in row (field_of fields p.other))
                      ≡ some true)
                    e holds))
          | inr x ↦ rw (n, e, u) x
        ]
      ]
    ]
  ]

  part_may_match-true :
      (fields : List ℤ) (part : ℕ) (row : Fields) (ps : List Predicate)
      → AreExact
      → InPart part row
      → All (Keeps fields row) ps
      → part_may_match t part fields ps ≡ true
  unfolding part_may_match
  part_may_match-true fields part row [] exact here h = refl
  part_may_match-true fields part row (p ∷ ps) exact here (h, hs) =
      rw (not-excluded fields part row p exact here h)
        (part_may_match-true fields part row ps exact here hs)

  kept_from-Has :
      (fields : List ℤ) (ps : List Predicate) (from left part : ℕ)
      → from ≤ part
      → part < from + left
      → part_may_match t part fields ps ≡ true
      → Has part (kept_from t fields ps from left)
  unfolding kept_from
  kept_from-Has fields ps from zero part low high h = absurd (omega arith)
  kept_from-Has fields ps from (suc left) part low high h = elim (ℕ_discrete part from) [
    | yes e ↦
        subst
          (λ b. Has part (
            if no_predicates ps || b
            then from ∷ kept_from t fields ps (from + 1) left
            else kept_from t fields ps (from + 1) left))
          (sym (subst (λ k. part_may_match t k fields ps ≡ true) e h))
          (Has-here (no_predicates ps) part from (kept_from t fields ps (from + 1) left) e)
    | no n ↦
        Has-there (no_predicates ps || part_may_match t from fields ps) part from
          (kept_from t fields ps (from + 1) left)
          (kept_from-Has fields ps (from + 1) left part (omega arith) (omega arith) h)
  ]

  -- A part is kept if it holds a row that every predicate is true of.
  pub kept_parts-Has :
      (fields : List ℤ) (ps : List Predicate) (part : ℕ) (row : Fields)
      → AreExact
      → part < t.num_parts
      → InPart part row
      → All (Keeps fields row) ps
      → Has part (kept_parts t fields ps)
  unfolding kept_parts
  kept_parts-Has fields ps part row exact h here keeps =
      kept_from-Has fields ps 0 t.num_parts part (omega arith) (omega arith)
        (part_may_match-true fields part row ps exact here keeps)

-- What the statistics of a sort key's column say of a value: the counts and the bounds are exact.
pub record Counts (s : PartStats) (v : Value) : Type 0 where
  pub null_counted : is_null_value v ≡ true → 0 < s.null_count
  pub bounded :
      (x : ℤ)
      → v ≡ int x
      → (lo : ℤ) × (hi : ℤ) × (s.min ≡ some lo) × (s.max ≡ some hi) × (lo ≤ℤ x) × (x ≤ℤ hi)

-- The value sorts no later than the bound: a NULL with NULLS FIRST, or a number in the direction.
abbrev pub SortsBy : SortKey → ℤ → Value → Type 0
SortsBy key bound null = key.nulls_first ≡ true
SortsBy key bound (int x) =
    (key.descending ≡ true × (bound ≤ℤ x)) ⊎ (key.descending ≡ false × (x ≤ℤ bound))
SortsBy key bound _ = ⊥

reaches-true :
    (descending : Bool) (lo hi x bound : ℤ)
    → lo ≤ℤ x
    → x ≤ℤ hi
    → ((descending ≡ true × (bound ≤ℤ x)) ⊎ (descending ≡ false × (x ≤ℤ bound)))
    → reaches descending (some lo) (some hi) bound ≡ true
reaches-true true lo hi x bound low high h = ground arith
reaches-true false lo hi x bound low high h = ground arith

-- A part that holds a row whose key sorts no later than the bound may beat it.
pub part_may_beat-true :
    (s : PartStats) (key : SortKey) (bound : ℤ) (v : Value)
    → Counts s v
    → SortsBy key bound v
    → part_may_beat s key bound ≡ true
unfolding part_may_beat
part_may_beat-true s key bound null c h = ground (arith, c.null_counted refl)
part_may_beat-true s key bound (int x) c h =
    let (lo, hi, l, u, low, high) = c.bounded x refl in
    rw (l, u) (ground (arith, reaches-true key.descending lo hi x bound low high h))
part_may_beat-true s key bound v c h = absurd h
