-- ===== src/Plan/BranchTruth/Laws.antt =====
-- What the rules decide holds of every row.
use antb.Prelude.{
  ◌≤◌, ◌≡◌, refl, ap, ◌∙◌, sym, Bool, true, false, ◌||◌, Option, none, some, List, [], ◌∷◌,
  if◌then◌else◌, arith, Option-cases, inl, inr, ◌⊎◌, All,
}
use antb.Prelude.Int.{ℤ}
use antb.Common.Int128.{IsInt128, Sign, less, equal, greater, compare_ℤ}
use antb.Common.Int128.Order.{compare_scaled_lem, compare_ℤ-scale}
use mathlib.Core.Path.{subst, subst₂}
use mathlib.Core.Option.{some-injective}
use antb.Plan.Types.{LogicalType, same_type}
use antb.Plan.Predicate.{CompareOp, holds, eq, Value, int, text, Constant, Predicate}
use antb.Plan.BranchTruth.{
  BranchTruth, never_true, always_true, unknown, Domain, number, days, micros, bytes, order_in,
  order_at, order, is_null_value, scale_of, is_equal, domain_of, in_loop, in_truth, truth, truth_of,
  compare_truth, columns_truth, list_truth, negated,
}
use antb.Plan.BranchTruth.Meaning.{
  Truth, order_of, compare_values, is_in, kleene_or, kleene_not, compare_typed, in_typed,
}

abbrev IsExactValue : Value → Type 0
IsExactValue (int x) = IsInt128 x
IsExactValue _ = Unit

-- An integer value is an `Int128`, and a scale at most 38.
abbrev pub IsValidConstant : Constant → Type 0
IsValidConstant c = (scale_of c.type ≤ 38) × IsExactValue c.value

holds-eq : (s : Sign) → holds eq s ≡ is_equal s
unfolding holds
holds-eq less = refl
holds-eq equal = refl
holds-eq greater = refl

module _ (compare_other : Constant → Constant → Sign)
    (other_condition : Predicate → Value → Bool) where
  abbrev constant_of : LogicalType → Value → Constant
  constant_of t v = record { type = t; value = v }

  -- Both are values, and s is their order.
  abbrev IsOrder : Constant → Constant → Sign → Type 0
  IsOrder a b s =
      (order_of compare_other other_condition a b a.value b.value ≡ s)
      × (is_null_value a.value ≡ false)
      × (is_null_value b.value ≡ false)

  unscaled :
      (x y : ℤ) (t u : LogicalType)
      → scale_of t ≡ 0
      → scale_of u ≡ 0
      → order_of compare_other other_condition
          (constant_of t (int x))
          (constant_of u (int y))
          (int x)
          (int y)
        ≡ compare_ℤ x y
  unscaled x y t u p q = rw (p, q) (compare_ℤ-scale x y 1 (omega arith))

  scale_of-domain :
      (t : LogicalType) → (domain_of t ≡ some days) ⊎ (domain_of t ≡ some micros) → scale_of t ≡ 0
  unfolding domain_of
  scale_of-domain t h = ground arith

  order_in-IsOrder :
      (d : Domain) (t : LogicalType) (v : Value) (u : LogicalType) (w : Value) {s : Sign}
      → domain_of t ≡ some d
      → domain_of u ≡ some d
      → IsValidConstant (constant_of t v)
      → IsValidConstant (constant_of u w)
      → order_in d t v u w ≡ some s
      → IsOrder (constant_of t v) (constant_of u w) s
  order_in-IsOrder number t (int x) u (int y) p q (hs, hx) (hr, hy) e = (
    some-injective _ _ (sym (compare_scaled_lem x y (scale_of t) (scale_of u) hx hy hs hr) ∙ e),
    refl,
    refl,
  )
  order_in-IsOrder days t (int x) u (int y) p q h k e = (
    unscaled x y t u (scale_of-domain t (inl p)) (scale_of-domain u (inl q)) ∙ some-injective _ _ e,
    refl,
    refl,
  )
  order_in-IsOrder micros t (int x) u (int y) p q h k e = (
    unscaled x y t u (scale_of-domain t (inr p)) (scale_of-domain u (inr q)) ∙ some-injective _ _ e,
    refl,
    refl,
  )
  order_in-IsOrder bytes t (text x) u (text y) p q h k e = (some-injective _ _ e, refl, refl)
  order_in-IsOrder d t v u w p q h k e = cc

  order_at-IsOrder :
      (d e : Option Domain) (t : LogicalType) (v : Value) (u : LogicalType) (w : Value) {s : Sign}
      → domain_of t ≡ d
      → domain_of u ≡ e
      → IsValidConstant (constant_of t v)
      → IsValidConstant (constant_of u w)
      → order_at d e t v u w ≡ some s
      → IsOrder (constant_of t v) (constant_of u w) s
  order_at-IsOrder none e t v u w p q h k o = cc
  order_at-IsOrder (some d) none t v u w p q h k o = cc
  order_at-IsOrder (some number) (some number) t v u w p q h k o =
      order_in-IsOrder number t v u w p q h k o
  order_at-IsOrder (some days) (some days) t v u w p q h k o =
      order_in-IsOrder days t v u w p q h k o
  order_at-IsOrder (some micros) (some micros) t v u w p q h k o =
      order_in-IsOrder micros t v u w p q h k o
  order_at-IsOrder (some bytes) (some bytes) t v u w p q h k o =
      order_in-IsOrder bytes t v u w p q h k o
  order_at-IsOrder (some d) (some e) t v u w p q h k o = cc

  -- Where two constants compare, it is by the order of what they stand for.
  order-IsOrder :
      (a b : Constant) {s : Sign}
      → IsValidConstant a
      → IsValidConstant b
      → order a b ≡ some s
      → IsOrder a b s
  unfolding order
  order-IsOrder a b h k o =
      order_at-IsOrder (domain_of a.type) (domain_of b.type) a.type a.value b.type b.value refl refl
        h k o

  compare-order :
      (op : CompareOp) (a b : Constant) {s : Sign}
      → IsValidConstant a
      → IsValidConstant b
      → order a b ≡ some s
      → compare_values compare_other other_condition op a b ≡ some (holds op s)
  compare-order op a b h k o = let (e, p, q) = order-IsOrder a b h k o in rw (p, q, e) refl

  -- An answer that is decided is that of the predicate.
  abbrev pub Decides : BranchTruth → Truth → Type 0
  Decides always_true t = t ≡ some true
  Decides never_true t = t ≡ some false
  Decides unknown t = Unit

  truth-Decides : (b : Bool) → Decides (truth b) (some b)
  truth-Decides true = refl
  truth-Decides false = refl

  if_typed-Decides :
      (b : Bool) (x : BranchTruth) (t : Truth) → Decides x t → Decides (if b then x else unknown) t
  if_typed-Decides true x t h = h
  if_typed-Decides false x t h = tt

  or_false : (t : Truth) → kleene_or (some false) t ≡ t
  or_false t = ground arith

  or_assoc :
      (f g : Bool) (t : Truth)
      → kleene_or (some (f || g)) t ≡ kleene_or (some f) (kleene_or (some g) t)
  or_assoc true g t = refl
  or_assoc false true t = ground arith
  or_assoc false false t = ground arith

  -- What the loop compares a candidate with.
  abbrev candidate : Constant → Constant → Option Sign
  candidate c v = if same_type c.type v.type then order v c else none

  in_loop-unknown :
      (c : Constant) (cs : List Constant) (v : Constant) (found : Bool)
      → candidate c v ≡ none
      → in_loop (c ∷ cs) v found ≡ unknown
  unfolding in_loop
  in_loop-unknown c cs v found e = ground arith

  in_loop-next :
      (c : Constant) (cs : List Constant) (v : Constant) (found : Bool) (s : Sign)
      → candidate c v ≡ some s
      → in_loop (c ∷ cs) v found ≡ in_loop cs v (found || is_equal s)
  unfolding in_loop
  in_loop-next c cs v found s e = ground arith

  candidate-order : (c v : Constant) (s : Sign) → candidate c v ≡ some s → order v c ≡ some s
  candidate-order c v s e = ground arith

  in_loop-Decides :
      (cs : List Constant) (v : Constant) (found : Bool)
      → IsValidConstant v
      → All IsValidConstant cs
      → Decides
          (in_loop cs v found)
          (kleene_or (some found) (is_in compare_other other_condition v cs))
  unfolding in_loop
  in_loop-Decides [] v true h k = refl
  in_loop-Decides [] v false h k = refl
  in_loop-Decides (c ∷ cs) v found h (k, ks) = elim (Option-cases (candidate c v)) [
    | inl e ↦
        subst
          (λ b. Decides b (kleene_or (some found) (is_in compare_other other_condition v (c ∷ cs))))
          (sym (in_loop-unknown c cs v found e)) tt
    | inr (s, e) ↦
        subst₂ Decides (sym (in_loop-next c cs v found s e))
          (or_assoc found (is_equal s) (is_in compare_other other_condition v cs)
            ∙ ap
                (λ b.
                  kleene_or (some found)
                    (kleene_or (some b) (is_in compare_other other_condition v cs)))
                (sym (holds-eq s))
            ∙ ap
                (λ b.
                  kleene_or (some found) (kleene_or b (is_in compare_other other_condition v cs)))
                (sym (compare-order eq v c h k (candidate-order c v s e))))
          (in_loop-Decides cs v (found || is_equal s) h ks)
  ]

  in_truth-Decides :
      (cs : List Constant) (v : Constant)
      → IsValidConstant v
      → All IsValidConstant cs
      → Decides (in_truth cs v) (is_in compare_other other_condition v cs)
  in_truth-Decides [] v h k = tt
  in_truth-Decides (c ∷ cs) v h k =
      subst (Decides (in_loop (c ∷ cs) v false))
        (or_false (is_in compare_other other_condition v (c ∷ cs)))
        (in_loop-Decides (c ∷ cs) v false h k)

  pub negated-Decides :
      (b : BranchTruth) (t : Truth) → Decides b t → Decides (negated b) (kleene_not t)
  negated-Decides always_true t h = rw h refl
  negated-Decides never_true t h = rw h refl
  negated-Decides unknown t h = tt

  truth_of-Decides :
      (op : CompareOp) (a b : Constant)
      → IsValidConstant a
      → IsValidConstant b
      → Decides (truth_of op (order a b)) (compare_values compare_other other_condition op a b)
  truth_of-Decides op a b h k = elim (Option-cases (order a b)) [
    | inl e ↦ rw e tt
    | inr (s, e) ↦ rw (e, compare-order op a b h k e) (truth-Decides (holds op s))
  ]

  -- A constant that a rule takes for a column's value, and the value that the row has.
  abbrev pub Matches : Option Constant → Option Constant → Type 0
  Matches none t = Unit
  Matches (some a) t = t ≡ some a

  abbrev pub IsValidOption : Option Constant → Type 0
  IsValidOption none = Unit
  IsValidOption (some a) = IsValidConstant a

  pub compare_truth-Decides :
      (p : Predicate) (o t : Option Constant)
      → Matches o t
      → IsValidOption o
      → IsValidConstant p.constant
      → Decides
          (compare_truth p o)
          (compare_typed compare_other other_condition p.op t (some p.constant))
  compare_truth-Decides p none t e h k = tt
  compare_truth-Decides p (some a) t e h k =
      subst
        (λ x.
          Decides (compare_truth p (some a))
            (compare_typed compare_other other_condition p.op x (some p.constant)))
        (sym e)
        (if_typed-Decides (same_type p.constant.type a.type) _ _
          (truth_of-Decides p.op a p.constant h k))

  pub columns_truth-Decides :
      (op : CompareOp) (o t u x : Option Constant)
      → Matches o t
      → Matches u x
      → IsValidOption o
      → IsValidOption u
      → Decides (columns_truth op o u) (compare_typed compare_other other_condition op t x)
  columns_truth-Decides op none t u x e f h k = tt
  columns_truth-Decides op (some a) t none x e f h k = tt
  columns_truth-Decides op (some a) t (some b) x e f h k = rw (e, f) (truth_of-Decides op a b h k)

  pub list_truth-Decides :
      (cs : List Constant) (o t : Option Constant)
      → Matches o t
      → IsValidOption o
      → All IsValidConstant cs
      → Decides (list_truth cs o) (in_typed compare_other other_condition t cs)
  list_truth-Decides cs none t e h k = tt
  list_truth-Decides cs (some a) t e h k = rw e (in_truth-Decides cs a h k)
