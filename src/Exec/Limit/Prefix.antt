-- ===== src/Exec/Limit/Prefix.antt =====
-- Prefixes and suffixes of two lists, one behind the other.
use antb.Prelude.{
  ℕ, zero, suc, ◌-◌, ◌≡◌, refl, ap, ◌∙◌, List, [], ◌∷◌, ◌++◌, length, take, drop, min, arith,
}

module _ {ℓ} {A : Type ℓ} where
  pub drop-++ : (k : ℕ) (xs ys : List A) → drop k (xs ++ ys) ≡ drop k xs ++ drop (k - length xs) ys
  drop-++ zero xs ys = let e : 0 ≡ 0 - length xs = omega arith in ap (λ (k : ℕ). xs ++ drop k ys) e
  drop-++ (suc k) [] ys = let e : suc k ≡ suc k - 0 = omega arith in ap (λ (k : ℕ). drop k ys) e
  drop-++ (suc k) (x ∷ xs) ys =
      let e : k - length xs ≡ suc k - suc (length xs) = omega arith in
      drop-++ k xs ys ∙ ap (λ (n : ℕ). drop k xs ++ drop n ys) e

  pub take-++ : (k : ℕ) (xs ys : List A) → take k (xs ++ ys) ≡ take k xs ++ take (k - length xs) ys
  take-++ zero xs ys = let e : 0 ≡ 0 - length xs = omega arith in ap (λ (k : ℕ). take k ys) e
  take-++ (suc k) [] ys = let e : suc k ≡ suc k - 0 = omega arith in ap (λ (k : ℕ). take k ys) e
  take-++ (suc k) (x ∷ xs) ys =
      let e : k - length xs ≡ suc k - suc (length xs) = omega arith in
      ap (λ (t : List A). x ∷ t) (take-++ k xs ys ∙ ap (λ (n : ℕ). take k xs ++ take n ys) e)

  pub take-min : (k : ℕ) (xs : List A) → take (min (length xs) k) xs ≡ take k xs
  take-min zero xs = let e : min (length xs) 0 ≡ 0 = omega arith in rw e refl
  take-min (suc k) [] = let e : min 0 (suc k) ≡ 0 = omega arith in rw e refl
  take-min (suc k) (x ∷ xs) =
      let e : min (suc (length xs)) (suc k) ≡ suc (min (length xs) k) = omega arith in
      rw e (ap (λ (t : List A). x ∷ t) (take-min k xs))

  pub drop-min : (k : ℕ) (xs : List A) → drop (min k (length xs)) xs ≡ drop k xs
  drop-min zero xs = let e : min 0 (length xs) ≡ 0 = omega arith in rw e refl
  drop-min (suc k) [] = let e : min (suc k) 0 ≡ 0 = omega arith in rw e refl
  drop-min (suc k) (x ∷ xs) =
      let e : min (suc k) (suc (length xs)) ≡ suc (min k (length xs)) = omega arith in
      rw e (drop-min k xs)

  pub take-all : (xs : List A) → take (length xs) xs ≡ xs
  take-all [] = refl
  take-all (x ∷ xs) = ap (λ (t : List A). x ∷ t) (take-all xs)
