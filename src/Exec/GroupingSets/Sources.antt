-- ===== src/Exec/GroupingSets/Sources.antt =====
-- src/exec/grouping_sets_shape.cc: a set is merged from a smallest root that contains it.
use antb.Prelude.{
  ℕ, zero, suc, ◌+◌, ◌≤◌, ◌≡◌, ◌⊎◌, refl, ◌∙◌, ap, Bool, true, false, ◌&&◌, ltb, Option, none, some,
  List, [], ◌∷◌, length, get_elem?, if◌then◌else◌, if_elim, Bool-cases, inl, inr, arith, All,
  ltb→lt, not_ltb→le,
}
use mathlib.Core.Option.{some-injective}
use antb.Exec.GroupingSets.{includes, is_root, is_smaller, find_source}
use Prim.Native.Nat.add
use antb.Exec.GroupingSets.Roots.{contained}
use antb.Exec.GroupingSets.Includes.{Ascends}

-- The loop over the roots.
abbrev Below : Option (ℕ × ℕ) → ℕ → Type 0
Below none n = ⊥
Below (some (i, m)) n = m ≤ n

keeps :
    (a b : Bool) (l r : ℕ) (source : Option (ℕ × ℕ)) (n : ℕ)
    → Below source n
    → Below (if a && b && is_smaller l source then some (r, l) else source) n
keeps a b l r none n h = absurd h
keeps true true l r (some (i, m)) n h =
    if_elim (λ x. Below x n) (ltb l m) _ _ (λ q. omega (arith, ltb→lt _ _ q)) (λ _. h)
keeps true false l r (some (i, m)) n h = h
keeps false b l r (some (i, m)) n h = h

takes :
    (l r : ℕ) (source : Option (ℕ × ℕ))
    → Below (if true && true && is_smaller l source then some (r, l) else source) l
takes l r none = omega arith
takes l r (some (i, m)) =
    if_elim (λ x. Below x l) (ltb l m) _ _ (λ q. omega arith) (λ q. not_ltb→le _ _ q)

both_true : (a b : Bool) → (a && b) ≡ true → (a ≡ true) × (b ≡ true)
both_true true b h = (refl, h)
both_true false b h = absurd (ground arith)

All-get :
    (P : List ℕ → Type 0) (xs : List (List ℕ))
    → ((k : ℕ) (u : List ℕ) → get_elem? xs k ≡ some u → P u)
    → All P xs
All-get P [] h = tt
All-get P (x ∷ xs) h = (h 0 x refl, All-get P xs (λ k u g. h (suc k) u g))

module _ (exact : Bool) (sets : List (List ℕ)) (s : List ℕ) where
  -- What the loop has found: the index and the size of a root that contains the set.
  abbrev Sourced : Option (ℕ × ℕ) → Type 0
  Sourced none = Unit
  Sourced (some (j, m)) =
      (t : List ℕ) × (get_elem? sets j ≡ some t)
      × (m ≡ length t)
      × (is_root exact sets t ≡ true)
      × (includes t s ≡ true)

  chosen :
      (a b c : Bool) (r : ℕ) (t : List ℕ) (source : Option (ℕ × ℕ))
      → (a ≡ true → b ≡ true → Sourced (some (r, length t)))
      → Sourced source
      → Sourced (if a && b && c then some (r, length t) else source)
  chosen true true true r t source f h = f refl refl
  chosen true true false r t source f h = h
  chosen true false c r t source f h = h
  chosen false b c r t source f h = h

  find_source-Sourced :
      (r : ℕ) (ts : List (List ℕ)) (source : Option (ℕ × ℕ))
      → ((k : ℕ) (t : List ℕ) → get_elem? ts k ≡ some t → get_elem? sets (r + k) ≡ some t)
      → Sourced source
      → Sourced (find_source exact sets s r ts source)
  unfolding find_source
  find_source-Sourced r [] source at h = h
  find_source-Sourced r (t ∷ ts) source at h =
      find_source-Sourced (r + 1) ts _ (λ k u g. next_index k u (at (suc k) u g))
        (chosen (is_root exact sets t) (includes t s) (is_smaller (length t) source) r t source
          (λ a b. (t, first (at 0 t refl), refl, a, b)) h)
    where
      next_index :
          (k : ℕ) (u : List ℕ)
          → get_elem? sets (r + suc k) ≡ some u
          → get_elem? sets (r + 1 + k) ≡ some u
      next_index k u g = let e : r + 1 + k ≡ r + suc k = omega arith in rw e g

      first : get_elem? sets (r + 0) ≡ some t → get_elem? sets r ≡ some t
      first g = let e : r ≡ r + 0 = omega arith in rw e g

  find_source-keeps :
      (r : ℕ) (ts : List (List ℕ)) (source : Option (ℕ × ℕ)) (n : ℕ)
      → Below source n
      → Below (find_source exact sets s r ts source) n
  unfolding find_source
  find_source-keeps r [] source n h = h
  find_source-keeps r (t ∷ ts) source n h =
      find_source-keeps (r + 1) ts _ n
        (keeps (is_root exact sets t) (includes t s) (length t) r source n h)

  find_source-least :
      (r : ℕ) (ts : List (List ℕ)) (source : Option (ℕ × ℕ)) (k : ℕ) (u : List ℕ)
      → get_elem? ts k ≡ some u
      → is_root exact sets u ≡ true
      → includes u s ≡ true
      → Below (find_source exact sets s r ts source) (length u)
  unfolding find_source
  find_source-least r [] source k u g a b = absurd (ground arith)
  find_source-least r (t ∷ ts) source zero u g a b =
      find_source-keeps (r + 1) ts _ (length u)
        (rw (some-injective _ _ g, a, b) (takes (length u) r source))
  find_source-least r (t ∷ ts) source (suc k) u g a b = find_source-least (r + 1) ts _ k u g a b

-- The loop finds a source: a root that contains the set, and no root that contains it is smaller.
pub record HasSource (exact : Bool) (sets : List (List ℕ)) (s : List ℕ) : Type 0 where
  pub index : ℕ
  pub root : List ℕ
  pub found : find_source exact sets s 0 sets none ≡ some (index, length root)
  pub at : get_elem? sets index ≡ some root
  pub is_one : is_root exact sets root ≡ true
  pub contains : includes root s ≡ true
  pub smallest :
      All (λ u. ((is_root exact sets u && includes u s) ≡ false) ⊎ (length root ≤ length u)) sets

module _ (exact : Bool) (sets : List (List ℕ)) (s : List ℕ) where
  source_of :
      (o : Option (ℕ × ℕ)) (n : ℕ)
      → find_source exact sets s 0 sets none ≡ o
      → Sourced exact sets s o
      → Below o n
      → All (λ u. ((is_root exact sets u && includes u s) ≡ false) ⊎ Below o (length u)) sets
      → HasSource exact sets s
  source_of none n e h b all = absurd b
  source_of (some (j, m)) n e (t, g, q, a, c) b all = record {
    index = j;
    root = t;
    found = e ∙ ap (λ (k : ℕ). some (j, k)) q;
    at = g;
    is_one = a;
    contains = c;
    smallest = rw (← q) all;
  }

-- Every one of some ascending sets has a source among them: a root that contains it, and no root
-- that contains it is smaller.
pub find_source-HasSource :
    (exact : Bool) (sets : List (List ℕ)) (i : ℕ) (s : List ℕ)
    → All Ascends sets
    → get_elem? sets i ≡ some s
    → HasSource exact sets s
find_source-HasSource exact sets i s ascend g =
    let (j, t, h, a, b) = contained sets ascend exact i s g in
    source_of exact sets s (find_source exact sets s 0 sets none) (length t) refl
      (find_source-Sourced exact sets s 0 sets none (λ k u e. rw (add.zero k) e) tt)
      (find_source-least exact sets s 0 sets none j t h a b)
      (All-get
        (λ u.
          ((is_root exact sets u && includes u s) ≡ false)
          ⊎ Below (find_source exact sets s 0 sets none) (length u))
        sets least)
  where
    least :
        (k : ℕ) (u : List ℕ)
        → get_elem? sets k ≡ some u
        → ((is_root exact sets u && includes u s) ≡ false)
          ⊎ Below (find_source exact sets s 0 sets none) (length u)
    least k u e = elim (Bool-cases (is_root exact sets u && includes u s)) [
      | inl q ↦
          let (a, b) = both_true (is_root exact sets u) (includes u s) q in
          inr (find_source-least exact sets s 0 sets none k u e a b)
      | inr q ↦ inl q
    ]
