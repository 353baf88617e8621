-- ===== src/Exec/GroupingSets/Roots.antt =====
-- src/exec/grouping_sets_shape.cc: every set is contained in a root.
use antb.Prelude.{
  ℕ, zero, suc, ◌+◌, ◌≤◌, ◌<◌, ◌≡◌, refl, ap, Bool, true, false, ◌&&◌, ltb, some, List, [], ◌∷◌,
  length, max, get_elem?, Bool-cases, inl, inr, arith, All,
}
use mathlib.Core.Option.{some-injective}
use antb.Exec.GroupingSets.{includes, none_larger, is_root}
use antb.Exec.GroupingSets.Includes.{Ascends, includes_trans, includes_refl}

-- A set that no root is has a larger one that contains it.
larger :
    (os : List (List ℕ)) (s : List ℕ)
    → none_larger os s ≡ false
    → (i : ℕ) × (o : List ℕ) × (get_elem? os i ≡ some o)
      × (length s < length o)
      × (includes o s ≡ true)
larger [] s h = absurd (ground arith)
larger (o ∷ os) s h = elim (Bool-cases (ltb (length s) (length o) && includes o s)) [
  | inl q ↦ (0, o, refl, ground arith, ground arith)
  | inr q ↦ let (i, p, g, l, c) = larger os s (ground arith) in (suc i, p, g, l, c)
]

abbrev longest : List (List ℕ) → ℕ
longest [] = 0
longest (s ∷ ss) = max (length s) (longest ss)

get-longest :
    (i : ℕ) (ss : List (List ℕ)) (s : List ℕ) → get_elem? ss i ≡ some s → length s ≤ longest ss
get-longest i [] s h = absurd (ground arith)
get-longest zero (t ∷ ss) s h = omega (arith, ap length (some-injective _ _ h))
get-longest (suc i) (t ∷ ss) s h = omega (arith, get-longest i ss s h)

get-All {ℓ} :
    (P : List ℕ → Type ℓ) (i : ℕ) (ss : List (List ℕ)) (s : List ℕ)
    → All P ss
    → get_elem? ss i ≡ some s
    → P s
get-All P i [] s a h = absurd (ground arith)
get-All P zero (t ∷ ss) s (p, a) h = rw (← some-injective _ _ h) p
get-All P (suc i) (t ∷ ss) s (p, a) h = get-All P i ss s a h

module _ (sets : List (List ℕ)) (ascend : All Ascends sets) where
  -- Some root contains the set.
  abbrev pub Contained : Bool → List ℕ → Type 0
  Contained exact s =
      (j : ℕ) × (t : List ℕ) × (get_elem? sets j ≡ some t)
      × (is_root exact sets t ≡ true)
      × (includes t s ≡ true)

  root_above :
      (f i : ℕ) (s : List ℕ)
      → get_elem? sets i ≡ some s
      → longest sets ≤ length s + f
      → Contained true s
  unfolding is_root
  root_above zero i s g l = elim (Bool-cases (none_larger sets s)) [
    | inl q ↦ (i, s, g, q, includes_refl s)
    | inr q ↦
        let (j, o, h, m, c) = larger sets s q in absurd (omega (arith, get-longest j sets o h))
  ]
  root_above (suc f) i s g l = elim (Bool-cases (none_larger sets s)) [
    | inl q ↦ (i, s, g, q, includes_refl s)
    | inr q ↦
        let (j, o, h, m, c) = larger sets s q in
        let (k, t, e, root, d) = root_above f j o h (omega arith) in
        (
          k,
          t,
          e,
          root,
          includes_trans t o s (get-All Ascends k sets t ascend e)
              (get-All Ascends i sets s ascend g) d c,
        )
  ]

  pub contained :
      (exact : Bool) (i : ℕ) (s : List ℕ) → get_elem? sets i ≡ some s → Contained exact s
  unfolding is_root
  contained true i s g = root_above (longest sets) i s g (omega arith)
  contained false i s g = (i, s, g, refl, includes_refl s)
