-- ===== src/Plan/BranchTruth/Sound.antt =====
-- `TruthOver` against the meaning of the predicate.
use antb.Prelude.{
  ◌≡◌, refl, ap, sym, Bool, true, false, ◌&&◌, Option, none, some, List, [], ◌∷◌, if◌then◌else◌,
  arith, Bool-cases, Option-cases, inl, inr, ◌⊎◌, ◌≢◌, All,
}
use mathlib.Core.Path.{subst}
use antb.Common.Int128.{Sign}
use antb.Plan.Types.{same_type, same_type→eq}
use antb.Plan.Predicate.{
  CompareOp, Value, Constant, BoundColumn, Predicate, Kind, compare_constant, compare_columns,
  in_list, not_in_list, is_not_null, is_null, never,
}
use antb.Plan.BranchTruth.{
  BranchTruth, never_true, always_true, unknown, is_null_value, truth_over, of_its_type,
  truth_over_kind, switch_truth, if_typed, reads_null, has, is_null_constant,
}
use antb.Plan.BranchTruth.Meaning.{Truth, is_in, eval, eval_kind, typed, compare_values}
use antb.Plan.BranchTruth.Laws.{
  IsValidConstant, IsValidOption, Matches, Decides, compare_truth-Decides, columns_truth-Decides,
  list_truth-Decides, negated-Decides,
}

-- The row holds the constant, where one is given.
abbrev pub HoldsConstant : Option Constant → Value → Type 0
HoldsConstant none v = Unit
HoldsConstant (some a) v = v ≡ a.value

-- The fields that a kind needs: every kind but FALSE has a column, only a comparison of columns has
-- another one, and an IN list is not empty.
abbrev HasFields : Kind → Predicate → Type 0
HasFields never p = Unit
HasFields compare_columns p = (has p.column ≡ true) × (has p.other ≡ true)
HasFields in_list p = (has p.column ≡ true) × (has p.other ≡ false) × (p.values ≢ [])
HasFields not_in_list p = (has p.column ≡ true) × (has p.other ≡ false) × (p.values ≢ [])
HasFields _ p = (has p.column ≡ true) × (has p.other ≡ false)

pub record IsWellFormed (p : Predicate) : Type 0 where
  pub fields : HasFields p.kind p
  pub constant_valid : IsValidConstant p.constant
  pub values_valid : All IsValidConstant p.values

module _ (compare_other : Constant → Constant → Sign)
    (other_condition : Predicate → Value → Bool) where
  -- An answer for all the rows, of one row.
  abbrev pub IsSound : BranchTruth → Truth → Type 0
  IsSound always_true t = t ≡ some true
  IsSound never_true t = t ≢ some true
  IsSound unknown t = Unit

  Decides→IsSound :
      (b : BranchTruth) (t : Truth) → Decides compare_other other_condition b t → IsSound b t
  Decides→IsSound always_true t h = h
  Decides→IsSound never_true t h = λ e. cc
  Decides→IsSound unknown t h = tt

  typed-Matches :
      (c : Option BoundColumn) (a : Option Constant) (v : Value)
      → HoldsConstant a v
      → Matches compare_other other_condition
          (of_its_type c a)
          (typed compare_other other_condition c v)
  typed-Matches none a v h = tt
  typed-Matches (some c) none v h = tt
  typed-Matches (some c) (some a) v h = elim (Bool-cases (same_type a.type c.type)) [
    | inl e ↦
        rw (e, h)
          (ap (λ t. some (record { type = t; value = a.value }))
            (sym (same_type→eq a.type c.type e)))
    | inr e ↦ rw e tt
  ]

  typed-valid :
      (c : Option BoundColumn) (a : Option Constant)
      → IsValidOption compare_other other_condition a
      → IsValidOption compare_other other_condition (of_its_type c a)
  typed-valid none a h = tt
  typed-valid (some c) none h = tt
  typed-valid (some c) (some a) h = elim (Bool-cases (same_type a.type c.type)) [
    | inl e ↦ rw e h
    | inr e ↦ rw e tt
  ]

  -- A list searched for NULL never answers, if it is not empty.
  pub is_in-null :
      (a : Constant) (bs : List Constant)
      → is_null_value a.value ≡ true
      → is_in compare_other other_condition a bs ≢ some true
  is_in-null a [] h = λ e. cc
  is_in-null a (b ∷ bs) h = ground (arith, is_in-null a bs h)

  is_in-null_none :
      (a : Constant) (bs : List Constant)
      → is_null_value a.value ≡ true
      → bs ≢ []
      → is_in compare_other other_condition a bs ≡ none
  is_in-null_none a [] h n = absurd (n refl)
  is_in-null_none a (b ∷ bs) h n = ground (arith, is_in-null a bs h)

  compare-null_left :
      (op : CompareOp) (a b : Constant)
      → is_null_value a.value ≡ true
      → compare_values compare_other other_condition op a b ≡ none
  compare-null_left op a b h = rw h refl

  -- Where a value that is read is NULL the predicate is not true.
  null_column :
      (k : Kind) (p : Predicate) (c : BoundColumn) (v w : Value)
      → k ≢ is_null
      → p.column ≡ some c
      → HasFields k p
      → is_null_value v ≡ true
      → eval_kind compare_other other_condition k p v w ≢ some true
  null_column compare_constant p c v w n e f h = rw (e, h) (λ q. cc)
  null_column compare_columns p c v w n e f h = elim (Option-cases p.other) [
    | inl o ↦ rw (e, o) (λ q. cc)
    | inr (d, o) ↦ rw (e, o, h) (λ q. cc)
  ]
  null_column in_list p c v w n e f h =
      rw (e, is_in-null_none (record { type = c.type; value = v }) p.values h f.2) (λ q. cc)
  null_column not_in_list p c v w n e f h =
      rw (e, is_in-null_none (record { type = c.type; value = v }) p.values h f.2) (λ q. cc)
  null_column is_null p c v w n e f h = absurd (n refl)
  null_column never p c v w n e f h = λ q. cc
  null_column k p c v w n e f h = rw h (λ q. cc)

  null_other :
      (p : Predicate) (v w : Value)
      → is_null_value w ≡ true
      → eval_kind compare_other other_condition compare_columns p v w ≢ some true
  null_other p v w h = elim (Option-cases p.column) [
    | inl e ↦ rw e (λ q. cc)
    | inr (c, e) ↦ elim (Option-cases p.other) [
      | inl o ↦ rw (e, o) (λ q. cc)
      | inr (d, o) ↦ rw (e, o, h) (ground arith)
    ]
  ]

  -- The test of the early return.
  reads_null-cases :
      (p : Predicate) (a b : Option Constant)
      → reads_null p a b ≡ true
      → ((c : BoundColumn) × (p.column ≡ some c) × (is_null_constant a ≡ true))
        ⊎ ((has p.other ≡ true) × (is_null_constant b ≡ true))
  reads_null-cases p a b h = elim (Option-cases p.column) [
    | inl e ↦ inr (ground arith)
    | inr (c, e) ↦ elim (Bool-cases (is_null_constant a)) [
      | inl n ↦ inl (c, e, n)
      | inr n ↦ inr (ground arith)
    ]
  ]

  null_value :
      (a : Option Constant) (v : Value)
      → HoldsConstant a v
      → is_null_constant a ≡ true
      → is_null_value v ≡ true
  null_value none v h e = cc
  null_value (some a) v h e = rw h e

  abbrev Rows : Predicate → Option Constant → Option Constant → Value → Value → Type 0
  Rows p a b v w =
      HoldsConstant a v
      × HoldsConstant b w
      × IsValidOption compare_other other_condition a
      × IsValidOption compare_other other_condition b
      × IsValidConstant p.constant
      × All IsValidConstant p.values

  not_null-IsSound :
      (c : Option BoundColumn) (a : Option Constant) (v : Value)
      → HoldsConstant a v
      → has c && is_null_constant a ≡ false
      → IsSound
          (if_typed (of_its_type c a) always_true)
          (if is_null_value v then none else some true)
  not_null-IsSound none a v h n = tt
  not_null-IsSound (some c) none v h n = tt
  not_null-IsSound (some c) (some a) v h n = elim (Bool-cases (same_type a.type c.type)) [
    | inl e ↦ rw (e, h, n) refl
    | inr e ↦ rw e tt
  ]

  switch-IsSound :
      (k : Kind) (p : Predicate) (a b : Option Constant) (v w : Value)
      → Rows p a b v w
      → reads_null p a b ≡ false
      → IsSound (switch_truth k p a b) (eval_kind compare_other other_condition k p v w)
  switch-IsSound compare_constant p a b v w (ha, hb, va, vb, vc, vs) r = Decides→IsSound _ _ (
      compare_truth-Decides compare_other other_condition p (of_its_type p.column a) _
        (typed-Matches p.column a v ha) (typed-valid p.column a va) vc)
  switch-IsSound compare_columns p a b v w (ha, hb, va, vb, vc, vs) r = Decides→IsSound _ _ (
      columns_truth-Decides compare_other other_condition p.op (of_its_type p.column a) _
        (of_its_type p.other b) _ (typed-Matches p.column a v ha) (typed-Matches p.other b w hb)
        (typed-valid p.column a va) (typed-valid p.other b vb))
  switch-IsSound in_list p a b v w (ha, hb, va, vb, vc, vs) r = Decides→IsSound _ _ (
      list_truth-Decides compare_other other_condition p.values (of_its_type p.column a) _
        (typed-Matches p.column a v ha) (typed-valid p.column a va) vs)
  switch-IsSound not_in_list p a b v w (ha, hb, va, vb, vc, vs) r = Decides→IsSound _ _ (
      negated-Decides compare_other other_condition _ _ (
        list_truth-Decides compare_other other_condition p.values (of_its_type p.column a) _
          (typed-Matches p.column a v ha) (typed-valid p.column a va) vs))
  switch-IsSound is_not_null p a b v w h r = not_null-IsSound p.column a v h.0 (ground arith)
  switch-IsSound never p a b v w h r = λ e. cc
  switch-IsSound k p a b v w h r = tt

  -- Only a comparison of columns has another column.
  other_kind :
      (k : Kind) (p : Predicate)
      → k ≢ never
      → HasFields k p
      → has p.other ≡ true
      → k ≡ compare_columns
  other_kind compare_columns p n f h = refl
  other_kind never p n f h = absurd (n refl)
  other_kind in_list p n f h = cc (f.1)
  other_kind not_in_list p n f h = cc (f.1)
  other_kind k p n f h = cc (f.1)

  null-IsSound :
      (k : Kind) (p : Predicate) (a b : Option Constant) (v w : Value)
      → k ≢ is_null
      → k ≢ never
      → Rows p a b v w
      → HasFields k p
      → reads_null p a b ≡ true
      → eval_kind compare_other other_condition k p v w ≢ some true
  null-IsSound k p a b v w n m h f r = elim (reads_null-cases p a b r) [
    | inl (c, e, q) ↦ null_column k p c v w n e f (null_value a v h.0 q)
    | inr (o, q) ↦
        subst (λ k. eval_kind compare_other other_condition k p v w ≢ some true)
          (sym (other_kind k p m f o)) (null_other p v w (null_value b w h.1 q))
  ]

  guarded-IsSound :
      (k : Kind) (p : Predicate) (a b : Option Constant) (v w : Value)
      → k ≢ is_null
      → k ≢ never
      → Rows p a b v w
      → HasFields k p
      → IsSound
          (if reads_null p a b then never_true else switch_truth k p a b)
          (eval_kind compare_other other_condition k p v w)
  guarded-IsSound k p a b v w n m h f = elim (Bool-cases (reads_null p a b)) [
    | inl r ↦ rw r (null-IsSound k p a b v w n m h f r)
    | inr r ↦ rw r (switch-IsSound k p a b v w h r)
  ]

  is_null-IsSound :
      (c : Option BoundColumn) (a : Option Constant) (v : Value)
      → HoldsConstant a v
      → IsSound
          (if is_null_constant a then always_true else if_typed (of_its_type c a) never_true)
          (some (is_null_value v))
  is_null-IsSound none none v h = tt
  is_null-IsSound (some c) none v h = tt
  is_null-IsSound none (some a) v h = elim (Bool-cases (is_null_value a.value)) [
    | inl n ↦ rw (n, h, n) refl
    | inr n ↦ rw n tt
  ]
  is_null-IsSound (some c) (some a) v h = elim (Bool-cases (is_null_value a.value)) [
    | inl n ↦ rw (n, h, n) refl
    | inr n ↦ elim (Bool-cases (same_type a.type c.type)) [
      | inl e ↦ rw (n, e, h, n) (λ q. cc)
      | inr e ↦ rw (n, e) tt
    ]
  ]

  kind-IsSound :
      (k : Kind) (p : Predicate) (a b : Option Constant) (v w : Value)
      → Rows p a b v w
      → HasFields k p
      → IsSound (truth_over_kind k p a b) (eval_kind compare_other other_condition k p v w)
  kind-IsSound is_null p a b v w h f = is_null-IsSound p.column a v h.0
  kind-IsSound never p a b v w h f = λ e. cc
  kind-IsSound compare_constant p a b v w h f =
      guarded-IsSound compare_constant p a b v w (λ e. cc) (λ e. cc) h f
  kind-IsSound k p a b v w h f = guarded-IsSound k p a b v w (λ e. cc) (λ e. cc) h f

  -- For a row that holds the constants that are given: a predicate said to be always true is true of
  -- it, and one said to be never true is false or NULL. Constants compare by value at their
  -- scales; whatever compares other values, and whatever LIKE and IS TRUE answer.
  pub truth_over-IsSound :
      (p : Predicate) (a b : Option Constant) (v w : Value)
      → IsWellFormed p
      → HoldsConstant a v
      → HoldsConstant b w
      → IsValidOption compare_other other_condition a
      → IsValidOption compare_other other_condition b
      → IsSound (truth_over p a b) (eval compare_other other_condition p v w)
  unfolding truth_over
  truth_over-IsSound p a b v w f ha hb va vb =
      kind-IsSound p.kind p a b v w (ha, hb, va, vb, f.constant_valid, f.values_valid) f.fields
