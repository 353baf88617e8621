-- ===== src/Exec/HeavyHitters/Counters.antt =====
-- src/exec/heavy_hitters.cc: the counters of a summary under the operations of the hash map.
use antb.Prelude.{
  ℕ, ◌+◌, ◌-◌, ◌≤◌, ◌≡◌, refl, true, false, ◌==◌, ==_iff, [], ◌∷◌, length, if◌then◌else◌, arith,
  if_elim, Bool-cases, inl, inr,
}
use antb.Exec.HeavyHitters.{CounterMap, has, increment, decrement_all}

-- The counter of a value, 0 without one.
abbrev pub counter_of : ℕ → CounterMap → ℕ
counter_of v [] = 0
counter_of v ((k, n) ∷ cs) = if k == v then n else counter_of v cs

abbrev pub total : CounterMap → ℕ
total [] = 0
total ((k, n) ∷ cs) = n + total cs

-- Each key has one counter, which is not 0.
abbrev pub IsMap : CounterMap → Type 0
IsMap [] = Unit {0}
IsMap ((k, n) ∷ cs) = (has k cs ≡ false) × (1 ≤ n) × IsMap cs

pub counter_of-absent : (v : ℕ) (cs : CounterMap) → has v cs ≡ false → counter_of v cs ≡ 0
counter_of-absent v [] h = refl
counter_of-absent v ((k, n) ∷ cs) h = ground (arith, counter_of-absent v cs)

has-increment : (u v : ℕ) (cs : CounterMap) → has u (increment v cs) ≡ has u cs
unfolding increment
has-increment u v [] = refl
has-increment u v ((k, n) ∷ cs) = ground (arith, has-increment u v cs)

pub IsMap-increment : (v : ℕ) (cs : CounterMap) → IsMap cs → IsMap (increment v cs)
unfolding increment
IsMap-increment v [] m = tt
IsMap-increment v ((k, n) ∷ cs) (a, l, m) =
    if_elim IsMap (k == v) _ _ (λ _. (a, omega arith, m))
      (λ _. (ground (arith, has-increment k v cs), l, IsMap-increment v cs m))

pub counter_of-increment :
    (u v : ℕ) (cs : CounterMap)
    → has v cs ≡ true
    → counter_of u (increment v cs) ≡ counter_of u cs + (if v == u then 1 else 0)
unfolding increment
counter_of-increment u v [] h = cc
counter_of-increment u v ((k, n) ∷ cs) h = ground (arith, counter_of-increment u v cs)

pub total-increment :
    (v : ℕ) (cs : CounterMap) → has v cs ≡ true → total (increment v cs) ≡ total cs + 1
unfolding increment
total-increment v [] h = cc
total-increment v ((k, n) ∷ cs) h = ground (arith, total-increment v cs)

pub length-increment : (v : ℕ) (cs : CounterMap) → length (increment v cs) ≡ length cs
unfolding increment
length-increment v [] = refl
length-increment v ((k, n) ∷ cs) = ground (arith, length-increment v cs)

has-decrement_all : (v : ℕ) (cs : CounterMap) → has v cs ≡ false → has v (decrement_all cs) ≡ false
unfolding decrement_all
has-decrement_all v [] h = refl
has-decrement_all v ((k, n) ∷ cs) h = ground (arith, has-decrement_all v cs)

pub IsMap-decrement_all : (cs : CounterMap) → IsMap cs → IsMap (decrement_all cs)
unfolding decrement_all
IsMap-decrement_all [] m = tt
IsMap-decrement_all ((k, n) ∷ cs) (a, l, m) =
    if_elim IsMap ((n - 1) == 0) _ _ (λ _. IsMap-decrement_all cs m)
      (λ e. (has-decrement_all k cs a, ground arith, IsMap-decrement_all cs m))

pub counter_of-decrement_all :
    (v : ℕ) (cs : CounterMap) → IsMap cs → counter_of v (decrement_all cs) ≡ counter_of v cs - 1
unfolding decrement_all
counter_of-decrement_all v [] m = refl
counter_of-decrement_all v ((k, n) ∷ cs) (a, l, m) =
    let rest = counter_of-decrement_all v cs m in
    elim (Bool-cases (k == v)) [
      | inl e ↦ ground (arith, counter_of-absent v cs (rw (← (==_iff k v).0 e) a))
      | inr e ↦ ground arith
    ]

pub total-decrement_all :
    (cs : CounterMap) → IsMap cs → total (decrement_all cs) + length cs ≡ total cs
unfolding decrement_all
total-decrement_all [] m = refl
total-decrement_all ((k, n) ∷ cs) (a, l, m) = ground (arith, total-decrement_all cs m)

pub length-decrement_all : (cs : CounterMap) → length (decrement_all cs) ≤ length cs
unfolding decrement_all
length-decrement_all [] = omega arith
length-decrement_all ((k, n) ∷ cs) = ground (arith, length-decrement_all cs)
