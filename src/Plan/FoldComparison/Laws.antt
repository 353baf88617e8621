-- ===== src/Plan/FoldComparison/Laws.antt =====
-- Folding keeps the answer for every value of the column.
use antb.Prelude.{
  ℕ, zero, suc, ◌+◌, ◌*◌, ◌≡◌, refl, Bool, true, false, not, ◌&&◌, if◌then◌else◌, arith, Bool-cases,
  inl, inr, ◌∙◌, sym, ap,
}
use mathlib.Core.Path.{subst}
use antb.Prelude.Int.{ℤ, pos, negsuc, neg, ◌≤ℤ◌}
use antb.Common.Int128.{Sign, less, greater, compare_ℤ}
use antb.Plan.Predicate.{
  CompareOp, eq, ne, lt, le, gt, ge, Kind, compare_constant, is_not_null, holds,
}
use antb.Plan.Widening.{IntegerRange}
use antb.Plan.FoldComparison.{
  ExactNumber, FoldedComparison, fold_bound, fold_fraction, fold_integer_comparison, ceiling, floor,
  signed,
}

-- Twice an integer, and twice a literal that is not huge with a half for its fraction: an integer
-- is on the same side of m + 1/2 as of m + f for every fraction f.
abbrev twice : ℤ → ℤ
twice (pos n) = pos (2 * n)
twice (negsuc n) = negsuc (2 * n + 1)

abbrev twice_literal : ExactNumber → ℤ
twice_literal l = signed l.negative (2 * l.magnitude + (if l.fraction then 1 else 0))

-- The order of a column value and the literal. A huge one is beyond every value.
abbrev pub order : ℤ → ExactNumber → Sign
order c l =
    if l.huge then if l.negative then greater else less else compare_ℤ (twice c) (twice_literal l)

-- What a folded comparison says of a column value that is not NULL.
abbrev pub eval_folded : FoldedComparison → ℤ → Bool
eval_folded f c = at f.kind
  where
    at : Kind → Bool
    at compare_constant = holds f.op (compare_ℤ c f.value)
    at is_not_null = true
    at _ = false

bound_huge :
    (op : CompareOp) (v : ℤ) (l : ExactNumber) (r : IntegerRange) (c : ℤ)
    → l.huge ≡ true
    → eval_folded (fold_bound op v l r) c ≡ holds op (if l.negative then greater else less)
unfolding fold_bound holds
bound_huge eq v l r c h = ground arith
bound_huge op v l r c h = ground arith

bound_plain :
    (op : CompareOp) (v : ℤ) (l : ExactNumber) (r : IntegerRange) (c : ℤ)
    → l.huge ≡ false
    → r.min ≤ℤ c
    → c ≤ℤ r.max
    → eval_folded (fold_bound op v l r) c ≡ holds op (compare_ℤ c v)
unfolding fold_bound holds compare_ℤ
bound_plain eq v l r c h low high = ground arith
bound_plain op v l r c h low high = ground arith

compare-twice : (c v : ℤ) → compare_ℤ (twice c) (twice v) ≡ compare_ℤ c v
unfolding compare_ℤ
compare-twice (pos n) (pos k) = ground arith
compare-twice (pos n) (negsuc k) = ground arith
compare-twice (negsuc n) (pos k) = ground arith
compare-twice (negsuc n) (negsuc k) = ground arith

neg-double : (n : ℕ) → neg (2 * n + 0) ≡ twice (neg n)
neg-double zero = refl
neg-double (suc n) = let e : 2 * suc n + 0 ≡ suc (2 * n + 1) = omega arith in rw e refl

twice-signed : (b : Bool) (n : ℕ) → signed b (2 * n + 0) ≡ twice (signed b n)
twice-signed true n = neg-double n
twice-signed false n = let e : 2 * n + 0 ≡ 2 * n = omega arith in rw e refl

above_ceiling :
    (c : ℤ) (l : ExactNumber)
    → l.fraction ≡ true
    → (holds gt (compare_ℤ (twice c) (twice_literal l)) ≡ holds ge (compare_ℤ c (ceiling l)))
      × (holds ge (compare_ℤ (twice c) (twice_literal l)) ≡ holds ge (compare_ℤ c (ceiling l)))
unfolding holds ceiling compare_ℤ
above_ceiling (pos n) l h = ground arith
above_ceiling (negsuc n) l h = ground arith

below_floor :
    (c : ℤ) (l : ExactNumber)
    → l.fraction ≡ true
    → (holds lt (compare_ℤ (twice c) (twice_literal l)) ≡ holds le (compare_ℤ c (floor l)))
      × (holds le (compare_ℤ (twice c) (twice_literal l)) ≡ holds le (compare_ℤ c (floor l)))
unfolding holds floor compare_ℤ
below_floor (pos n) l h = ground arith
below_floor (negsuc n) l h = ground arith

-- No integer equals a literal with a fraction.
between :
    (c : ℤ) (l : ExactNumber)
    → l.fraction ≡ true
    → (holds eq (compare_ℤ (twice c) (twice_literal l)) ≡ false)
      × (holds ne (compare_ℤ (twice c) (twice_literal l)) ≡ true)
unfolding holds compare_ℤ
between (pos n) l h = ground arith
between (negsuc n) l h = ground arith

fraction_plain :
    (op : CompareOp) (l : ExactNumber) (r : IntegerRange) (c : ℤ)
    → l.huge ≡ false
    → l.fraction ≡ true
    → r.min ≤ℤ c
    → c ≤ℤ r.max
    → eval_folded (fold_fraction op l r) c ≡ holds op (compare_ℤ (twice c) (twice_literal l))
unfolding fold_fraction
fraction_plain eq l r c h f low high = sym (between c l f).0
fraction_plain ne l r c h f low high = sym (between c l f).1
fraction_plain gt l r c h f low high =
    bound_plain ge (ceiling l) l r c h low high ∙ sym (above_ceiling c l f).0
fraction_plain ge l r c h f low high =
    bound_plain ge (ceiling l) l r c h low high ∙ sym (above_ceiling c l f).1
fraction_plain lt l r c h f low high =
    bound_plain le (floor l) l r c h low high ∙ sym (below_floor c l f).0
fraction_plain le l r c h f low high =
    bound_plain le (floor l) l r c h low high ∙ sym (below_floor c l f).1

folds_fraction :
    (op : CompareOp) (l : ExactNumber) (r : IntegerRange)
    → l.huge ≡ false
    → l.fraction ≡ true
    → fold_integer_comparison op l r ≡ fold_fraction op l r
unfolding fold_integer_comparison
folds_fraction op l r h f = ground arith

folds_bound :
    (op : CompareOp) (l : ExactNumber) (r : IntegerRange)
    → l.fraction && not l.huge ≡ false
    → fold_integer_comparison op l r ≡ fold_bound op (signed l.negative l.magnitude) l r
unfolding fold_integer_comparison
folds_bound op l r h = ground arith

order-huge :
    (c : ℤ) (l : ExactNumber) → l.huge ≡ true → order c l ≡ (if l.negative then greater else less)
order-huge c l h = ground arith

order-plain :
    (c : ℤ) (l : ExactNumber) → l.huge ≡ false → order c l ≡ compare_ℤ (twice c) (twice_literal l)
order-plain c l h = ground arith

twice-literal :
    (l : ExactNumber) → l.fraction ≡ false → twice_literal l ≡ twice (signed l.negative l.magnitude)
twice-literal l f = ground (arith, twice-signed l.negative l.magnitude)

-- For every value of the column, which its range bounds, the folded comparison says what the
-- comparison with the literal itself says, whether the literal is an integer, has a fraction or
-- lies beyond every integer type.
pub fold_integer_comparison_lem :
    (op : CompareOp) (l : ExactNumber) (r : IntegerRange) (c : ℤ)
    → r.min ≤ℤ c
    → c ≤ℤ r.max
    → eval_folded (fold_integer_comparison op l r) c ≡ holds op (order c l)
fold_integer_comparison_lem op l r c low high =
    let value = signed l.negative l.magnitude in
    elim (Bool-cases l.huge) [
      | inl h ↦
          ap (λ k. eval_folded k c) (folds_bound op l r (ground arith))
          ∙ bound_huge op value l r c h
          ∙ ap (holds op) (sym (order-huge c l h))
      | inr h ↦ elim (Bool-cases l.fraction) [
        | inl f ↦
            ap (λ k. eval_folded k c) (folds_fraction op l r h f)
            ∙ fraction_plain op l r c h f low high
            ∙ ap (holds op) (sym (order-plain c l h))
        | inr f ↦
            ap (λ k. eval_folded k c) (folds_bound op l r (ground arith))
            ∙ bound_plain op value l r c h low high
            ∙ ap (holds op) (
                sym (
                  order-plain c l h
                  ∙ ap (compare_ℤ (twice c)) (twice-literal l f)
                  ∙ compare-twice c value))
      ]
    ]

abbrev InRange : IntegerRange → FoldedComparison → Type 0
InRange r f = f.kind ≡ compare_constant → (r.min ≤ℤ f.value) × (f.value ≤ℤ r.max)

bound-InRange :
    (op : CompareOp) (v : ℤ) (l : ExactNumber) (r : IntegerRange) → InRange r (fold_bound op v l r)
unfolding fold_bound
bound-InRange eq v l r = ground arith
bound-InRange op v l r = ground arith

fraction-InRange :
    (op : CompareOp) (l : ExactNumber) (r : IntegerRange) → InRange r (fold_fraction op l r)
unfolding fold_fraction
fraction-InRange eq l r = λ e. cc
fraction-InRange ne l r = λ e. cc
fraction-InRange gt l r = bound-InRange ge (ceiling l) l r
fraction-InRange ge l r = bound-InRange ge (ceiling l) l r
fraction-InRange lt l r = bound-InRange le (floor l) l r
fraction-InRange le l r = bound-InRange le (floor l) l r

-- A comparison that is left compares with an integer of the column's range.
pub fold_integer_comparison-in_range :
    (op : CompareOp) (l : ExactNumber) (r : IntegerRange)
    → (fold_integer_comparison op l r).kind ≡ compare_constant
    → (r.min ≤ℤ (fold_integer_comparison op l r).value)
      × ((fold_integer_comparison op l r).value ≤ℤ r.max)
unfolding fold_integer_comparison
fold_integer_comparison-in_range op l r e = elim (Bool-cases (l.fraction && not l.huge)) [
  | inl f ↦
      let same : fold_integer_comparison op l r ≡ fold_fraction op l r = rw f refl in
      subst (InRange r) (sym same) (fraction-InRange op l r) e
  | inr f ↦
      subst (InRange r) (sym (folds_bound op l r f))
        (bound-InRange op (signed l.negative l.magnitude) l r) e
]
