-- ===== src/Exec/GroupingSets/Includes.antt =====
-- src/exec/grouping_sets_shape.cc: `Contains` of ascending sets is the inclusion of their keys.
use antb.Prelude.{
  ℕ, ◌≤◌, ◌<◌, ◌≡◌, refl, Bool, true, false, ◌||◌, ◌==◌, ==_iff, ==_refl, List, [], ◌∷◌, Bool-cases,
  inl, inr, arith, All,
}
use antb.Exec.GroupingSets.{includes}

abbrev pub has_key : ℕ → List ℕ → Bool
has_key k [] = false
has_key k (x ∷ xs) = k == x || has_key k xs

abbrev pub Ascends : List ℕ → Type 0
Ascends [] = Unit
Ascends (x ∷ xs) = All (λ y. x < y) xs × Ascends xs

has_key-above : (k x : ℕ) (xs : List ℕ) → All (λ y. x < y) xs → has_key k xs ≡ true → x < k
has_key-above k x [] a h = absurd (ground arith)
has_key-above k x (y ∷ ys) (l, a) h = elim (Bool-cases (k == y)) [
  | inl q ↦ rw ((==_iff k y).0 q) l
  | inr q ↦ has_key-above k x ys a (ground arith)
]

has_key-from : (k y : ℕ) (ys : List ℕ) → All (λ z. y < z) ys → has_key k (y ∷ ys) ≡ true → y ≤ k
has_key-from k y ys a h = elim (Bool-cases (k == y)) [
  | inl q ↦ omega (arith, (==_iff k y).0 q)
  | inr q ↦ omega (arith, has_key-above k y ys a (ground arith))
]

pub includes-has_key :
    (xs ys : List ℕ) → includes xs ys ≡ true → (k : ℕ) → has_key k ys ≡ true → has_key k xs ≡ true
unfolding includes
includes-has_key xs [] h k e = absurd (ground arith)
includes-has_key [] (y ∷ ys) h k e = absurd (ground arith)
includes-has_key (x ∷ xs) (y ∷ ys) h k e =
    let both : includes xs ys ≡ true → has_key k ys ≡ true → has_key k xs ≡ true =
      λ p q. includes-has_key xs ys p k q in
    let past : includes xs (y ∷ ys) ≡ true → has_key k xs ≡ true =
      λ p. includes-has_key xs (y ∷ ys) p k e in
    ground (arith, both, past)

pub includes_complete :
    (xs ys : List ℕ)
    → Ascends xs
    → Ascends ys
    → ((k : ℕ) → has_key k ys ≡ true → has_key k xs ≡ true)
    → includes xs ys ≡ true
unfolding includes
includes_complete xs [] a b f = refl
includes_complete [] (y ∷ ys) a b f = absurd (ground (arith, f y))
includes_complete (x ∷ xs) (y ∷ ys) (l, a) (m, b) f =
    let at_first : has_key y (x ∷ xs) ≡ true = f y (rw (==_refl y) refl) in
    elim (Bool-cases (y == x)) [
      | inl q ↦
          let same : y ≡ x = (==_iff y x).0 q in
          let rest : includes xs ys ≡ true = includes_complete xs ys a b (λ k e.
            behind k (f k (ground arith)) (omega (arith, has_key-above k y ys m e, same))) in
          ground (arith, same)
      | inr q ↦
          let above : x < y = has_key-above y x xs l (ground arith) in
          let rest : includes xs (y ∷ ys) ≡ true =
            includes_complete xs (y ∷ ys) a (m, b)
              (λ k e. behind k (f k e) (omega (arith, has_key-from k y ys m e))) in
          ground (arith, above)
    ]
  where
    behind : (k : ℕ) → has_key k (x ∷ xs) ≡ true → x < k → has_key k xs ≡ true
    behind k h p = ground arith

-- Ascending sets: the inclusion is transitive and reflexive.
pub includes_trans :
    (xs ys zs : List ℕ)
    → Ascends xs
    → Ascends zs
    → includes xs ys ≡ true
    → includes ys zs ≡ true
    → includes xs zs ≡ true
includes_trans xs ys zs a c h k =
    includes_complete xs zs a c (λ n e. includes-has_key xs ys h n (includes-has_key ys zs k n e))

pub includes_refl : (xs : List ℕ) → includes xs xs ≡ true
unfolding includes
includes_refl [] = refl
includes_refl (x ∷ xs) = ground (arith, includes_refl xs)
