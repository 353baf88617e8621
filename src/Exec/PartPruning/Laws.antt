-- ===== src/Exec/PartPruning/Laws.antt =====
-- A part that is skipped has no row that the query keeps.
use antb.Prelude.{
  ◌^◌, ◌≤◌, ◌≡◌, refl, ap, Bool, true, false, leb, leb→le, some, List, [], ◌∷◌, arith, Bool-cases,
  Option-cases, inl, inr, ◌⊎◌, ◌≢◌, All,
}
use mathlib.Core.Bool.{false≢true}
use antb.Prelude.Int.{ℤ, ◌≤ℤ◌}
use antb.Common.Int128.{Sign, compare_ℤ}
use antb.Common.Int128.Order.{compare_ℤ-scale, ten_pow-pos}
use antb.Plan.Types.{LogicalType, is, double, same_type, same_type→eq, has_comparable_statistics}
use antb.Plan.Predicate.{
  CompareOp, eq, holds, Value, int, null, Constant, BoundColumn, Predicate, Kind, compare_constant,
  in_list, is_not_null,
}
use antb.Plan.BranchTruth.{is_null_value, scale_of}
use antb.Plan.BranchTruth.Meaning.{eval, eval_kind, is_in, compare_values}
use antb.Plan.BranchTruth.Sound.{is_in-null}
use antb.Exec.PartPruning.{
  PartStats, comparable_with, column_type, excludes, compare_excludes, all_outside, list_excludes,
  never_true, never_true_kind,
}

-- A value that is NULL, or a number between the bounds.
abbrev InBounds : ℤ → ℤ → Value → Type 0
InBounds lo hi (int x) = (lo ≤ℤ x) × (x ≤ℤ hi)
InBounds lo hi null = Unit
InBounds lo hi _ = ⊥

-- What exact statistics say of each value of the column.
pub record Describes (s : PartStats) (v : Value) : Type 0 where
  pub nulls : s.rows ≤ s.null_count → is_null_value v ≡ true
  pub bounds : (lo hi : ℤ) → s.min ≡ some lo → s.max ≡ some hi → InBounds lo hi v

-- A constant has its column's type, or is a DOUBLE.
abbrev IsTyped : LogicalType → Constant → Type 0
IsTyped t c = (same_type c.type t ≡ true) ⊎ (is c.type double ≡ true)

holds-excluded :
    (op : CompareOp) (x c lo hi : ℤ)
    → lo ≤ℤ x
    → x ≤ℤ hi
    → excludes op c lo hi ≡ true
    → holds op (compare_ℤ x c) ≡ false
unfolding holds compare_ℤ
holds-excluded eq x c lo hi h k e = ground arith
holds-excluded op x c lo hi h k e = ground arith

comparable-value :
    (c : Constant) (t : LogicalType) {y : ℤ} → comparable_with c t ≡ some y → c.value ≡ int y
unfolding comparable_with
comparable-value c t e = ground arith

comparable-not_double :
    (c : Constant) (t : LogicalType) {y : ℤ}
    → comparable_with c t ≡ some y
    → is c.type double ≡ false
unfolding comparable_with has_comparable_statistics
comparable-not_double c t e = ground arith

-- A comparable constant is at the column's scale.
comparable-scale :
    (c : Constant) (t : LogicalType) {y : ℤ}
    → IsTyped t c
    → comparable_with c t ≡ some y
    → scale_of c.type ≡ scale_of t
comparable-scale c t (inl same) e = ap scale_of (same_type→eq c.type t same)
comparable-scale c t (inr d) e = cc (comparable-not_double c t e)

module _ (compare_other : Constant → Constant → Sign)
    (other_condition : Predicate → Value → Bool) where
  abbrev typed_constant : LogicalType → Value → Constant
  typed_constant t v = record { type = t; value = v }

  -- A comparison of a number with a comparable constant is that of their integers.
  compare-comparable :
      (op : CompareOp) (t : LogicalType) (x y : ℤ) (c : Constant)
      → IsTyped t c
      → comparable_with c t ≡ some y
      → compare_values compare_other other_condition op (typed_constant t (int x)) c
        ≡ some (holds op (compare_ℤ x y))
  compare-comparable op t x y c h e =
      rw
        (
          comparable-value c t e,
          comparable-scale c t h e,
          compare_ℤ-scale x y (10 ^ scale_of t) (ten_pow-pos (scale_of t)),
        )
        refl

  compare-excluded :
      (op : CompareOp) (t : LogicalType) (v : Value) (c : Constant) (lo hi y : ℤ)
      → IsTyped t c
      → InBounds lo hi v
      → comparable_with c t ≡ some y
      → excludes op y lo hi ≡ true
      → compare_values compare_other other_condition op (typed_constant t v) c ≢ some true
  compare-excluded op t (int x) c lo hi y h (low, high) e ex =
      rw (compare-comparable op t x y c h e, holds-excluded op x y lo hi low high ex) (λ q. cc)
  compare-excluded op t null c lo hi y h b e ex = λ q. cc
  compare-excluded op t v c lo hi y h b e ex = absurd b

  in-excluded :
      (t : LogicalType) (v : Value) (cs : List Constant) (lo hi : ℤ)
      → All (IsTyped t) cs
      → InBounds lo hi v
      → all_outside cs t lo hi ≡ true
      → is_in compare_other other_condition (typed_constant t v) cs ≢ some true
  unfolding all_outside
  in-excluded t v [] lo hi h b e = λ q. cc
  in-excluded t v (c ∷ cs) lo hi (h, hs) b e = elim (Option-cases (comparable_with c t)) [
    | inl n ↦ ground (arith)
    | inr (y, n) ↦
        ground (arith, compare-excluded eq t v c lo hi y h b n, in-excluded t v cs lo hi hs b)
  ]

  -- The constants of a predicate have its column's type, or are DOUBLEs.
  abbrev pub IsTypedPredicate : Predicate → Type 0
  IsTypedPredicate p =
      IsTyped (column_type p.column) p.constant × All (IsTyped (column_type p.column)) p.values

  abbrev Fails : Kind → Predicate → Value → Value → Type 0
  Fails k p v w = eval_kind compare_other other_condition k p v w ≢ some true

  compare-Fails :
      (p : Predicate) (c : BoundColumn) (s : PartStats) (v w : Value)
      → p.column ≡ some c
      → IsTyped c.type p.constant
      → Describes s v
      → compare_excludes p.op (comparable_with p.constant c.type) s.min s.max ≡ true
      → Fails compare_constant p v w
  compare-Fails p c s v w e h d x = elim (Option-cases (comparable_with p.constant c.type)) [
    | inl n ↦ absurd (false≢true (ground arith))
    | inr (y, n) ↦ elim (Option-cases s.min) [
      | inl l ↦ absurd (false≢true (ground arith))
      | inr (lo, l) ↦ elim (Option-cases s.max) [
        | inl u ↦ absurd (false≢true (ground arith))
        | inr (hi, u) ↦ rw e (
            compare-excluded p.op c.type v p.constant lo hi y h (d.bounds lo hi l u) n
              (ground arith))
      ]
    ]
  ]

  in-Fails :
      (p : Predicate) (c : BoundColumn) (s : PartStats) (v w : Value)
      → p.column ≡ some c
      → All (IsTyped c.type) p.values
      → Describes s v
      → list_excludes p.values c.type s.min s.max ≡ true
      → Fails in_list p v w
  in-Fails p c s v w e h d x = elim (Option-cases s.min) [
    | inl l ↦ absurd (false≢true (ground arith))
    | inr (lo, l) ↦ elim (Option-cases s.max) [
      | inl u ↦ absurd (false≢true (ground arith))
      | inr (hi, u) ↦
          rw e (in-excluded c.type v p.values lo hi h (d.bounds lo hi l u) (ground arith))
    ]
  ]

  null-Fails :
      (v : Value) (p : Predicate) (c : BoundColumn) (w : Value)
      → p.column ≡ some c
      → is_null_value v ≡ true
      → Fails compare_constant p v w × Fails is_not_null p v w × Fails in_list p v w
  null-Fails v p c w e h = (
    rw (e, h) (λ q. cc),
    rw h (λ q. cc),
    rw e (is_in-null compare_other other_condition (typed_constant c.type v) p.values h),
  )

  -- The statistics of a column prove a predicate on it false or NULL.
  kind-Fails :
      (k : Kind) (p : Predicate) (c : BoundColumn) (s : PartStats) (v w : Value)
      → p.column ≡ some c
      → IsTypedPredicate p
      → Describes s v
      → never_true_kind k p s (leb s.rows s.null_count) ≡ true
      → Fails k p v w
  kind-Fails compare_constant p c s v w e (h, hs) d x =
      elim (Bool-cases (leb s.rows s.null_count)) [
        | inl n ↦ (null-Fails v p c w e (d.nulls (leb→le _ _ n))).0
        | inr n ↦
            compare-Fails p c s v w e (rw (← ap column_type e) h) d
              (ground (arith, ap column_type e))
      ]
  kind-Fails in_list p c s v w e (h, hs) d x = elim (Bool-cases (leb s.rows s.null_count)) [
    | inl n ↦ (null-Fails v p c w e (d.nulls (leb→le _ _ n))).2
    | inr n ↦ in-Fails p c s v w e (rw (← ap column_type e) hs) d (ground (arith, ap column_type e))
  ]
  kind-Fails is_not_null p c s v w e h d x = (null-Fails v p c w e (d.nulls (leb→le _ _ x))).1
  kind-Fails k p c s v w e h d x = cc

  pub never_true-fails :
      (p : Predicate) (c : BoundColumn) (s : PartStats) (v w : Value)
      → p.column ≡ some c
      → IsTypedPredicate p
      → Describes s v
      → never_true p s ≡ true
      → eval compare_other other_condition p v w ≢ some true
  unfolding never_true
  never_true-fails p c s v w e h d x = kind-Fails p.kind p c s v w e h d (ground arith)
