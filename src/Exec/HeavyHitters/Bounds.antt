-- ===== src/Exec/HeavyHitters/Bounds.antt =====
-- src/exec/heavy_hitters.cc: how far a counter is from the number of times its value was added.
use antb.Prelude.{
  ℕ, ◌+◌, ◌-◌, ◌*◌, ◌≤◌, ◌<◌, ◌≡◌, refl, true, false, ltb, ◌==◌, ==_iff, List, [], ◌∷◌, length, max,
  if◌then◌else◌, arith, if_elim, Bool-cases, inl, inr, not_ltb→le, ltb→lt,
}
use antb.Exec.HeavyHitters.{
  CounterMap, HeavyHitters, empty, has, increment, decrement_all, add, add_all,
}
use antb.Exec.HeavyHitters.Counters.{
  counter_of, total, IsMap, counter_of-absent, IsMap-increment, counter_of-increment,
  total-increment, length-increment, IsMap-decrement_all, counter_of-decrement_all,
  total-decrement_all, length-decrement_all,
}

abbrev pub times : ℕ → List ℕ → ℕ
times v [] = 0
times v (x ∷ xs) = (if x == v then 1 else 0) + times v xs

-- The summary after some values, of which `u` was `seen u` times, and `d` rounds of `erase_if`.
record Summary (h : HeavyHitters) (d : ℕ) (seen : ℕ → ℕ) : Type 0 where
  is_map : IsMap h.counters
  fits : length h.counters ≤ h.capacity
  sum : total h.counters + (h.capacity + 1) * d ≡ h.count
  upper : (u : ℕ) → counter_of u h.counters ≤ seen u
  lower : (u : ℕ) → seen u ≤ counter_of u h.counters + d

abbrev once_more : ℕ → (ℕ → ℕ) → ℕ → ℕ
once_more v seen u = seen u + (if v == u then 1 else 0)

module _ (h : HeavyHitters) (d : ℕ) (seen : ℕ → ℕ) (s : Summary h d seen) (v : ℕ) where
  absent : has v h.counters ≡ false → (u : ℕ) → (v == u) ≡ true → counter_of u h.counters ≡ 0
  absent e u q = counter_of-absent u h.counters (rw (← (==_iff v u).0 q) e)

  known :
      has v h.counters ≡ true
      → Summary
          (record h { counters = increment v h.counters; count = h.count + 1 })
          d
          (once_more v seen)
  known e = record {
    is_map = IsMap-increment v h.counters s.is_map;
    fits = rw (length-increment v h.counters) s.fits;
    sum = omega (arith, total-increment v h.counters e, s.sum);
    upper = λ u. rw (counter_of-increment u v h.counters e) (omega (arith, s.upper u));
    lower = λ u. rw (counter_of-increment u v h.counters e) (omega (arith, s.lower u));
  }

  new :
      has v h.counters ≡ false
      → length h.counters < h.capacity
      → Summary
          (record h { counters = (v, 1) ∷ h.counters; count = h.count + 1 })
          d
          (once_more v seen)
  new e l = record {
    is_map = (e, omega arith, s.is_map);
    fits = omega arith;
    sum = omega (arith, s.sum);
    upper = λ u. ground (arith, s.upper u);
    lower = λ u. elim (Bool-cases (v == u)) [
      | inl q ↦ ground (arith, s.lower u, absent e u q)
      | inr q ↦ ground (arith, s.lower u)
    ];
  }

  full :
      has v h.counters ≡ false
      → h.capacity ≤ length h.counters
      → Summary
          (record h { counters = decrement_all h.counters; count = h.count + 1 })
          (d + 1)
          (once_more v seen)
  full e l = record {
    is_map = IsMap-decrement_all h.counters s.is_map;
    fits = omega (arith, length-decrement_all h.counters, s.fits);
    sum = omega (arith, total-decrement_all h.counters s.is_map, s.sum, s.fits);
    upper = λ u. rw (counter_of-decrement_all u h.counters s.is_map) (ground (arith, s.upper u));
    lower = λ u. rw (counter_of-decrement_all u h.counters s.is_map) (elim (Bool-cases (v == u)) [
      | inl q ↦ ground (arith, s.lower u, absent e u q)
      | inr q ↦ ground (arith, s.lower u)
    ]);
  }

  abbrev Next : CounterMap → Type 0
  Next cs =
      (d' : ℕ) × Summary (record h { counters = cs; count = h.count + 1 }) d' (once_more v seen)

  add-Summary : (d' : ℕ) × Summary (add v h) d' (once_more v seen)
  unfolding add
  add-Summary =
      if_elim Next (has v h.counters) _ _ (λ e. (d, known e))
        λ e.
          if_elim Next (ltb (length h.counters) h.capacity) _ _ (λ l. (d, new e (ltb→lt _ _ l)))
            (λ l. (d + 1, full e (not_ltb→le _ _ l)))

add_all-Summary :
    (vs : List ℕ) (h : HeavyHitters) (d : ℕ) (seen all : ℕ → ℕ)
    → ((u : ℕ) → all u ≡ seen u + times u vs)
    → Summary h d seen
    → (d' : ℕ) × Summary (add_all vs h) d' all
unfolding add_all
add_all-Summary [] h d seen all e s = (
  d,
  record {
    is_map = s.is_map;
    fits = s.fits;
    sum = s.sum;
    upper = λ u. omega (arith, e u, s.upper u);
    lower = λ u. omega (arith, e u, s.lower u);
  },
)
add_all-Summary (v ∷ vs) h d seen all e s =
    let (d', after) = add-Summary h d seen s v in
    add_all-Summary vs (add v h) d' (once_more v seen) all (λ u. omega (arith, e u)) after

add_all-counts :
    (vs : List ℕ) (h : HeavyHitters)
    → ((add_all vs h).count ≡ h.count + length vs) × ((add_all vs h).capacity ≡ h.capacity)
unfolding add_all add
add_all-counts [] h = (omega arith, refl)
add_all-counts (v ∷ vs) h =
    let rest = add_all-counts vs (add v h) in (omega (arith, rest.0), rest.1)

-- What the summary of a stream promises of a value: a counter is at most the value's count, falls
-- short of it by at most a share 1 / (capacity + 1) of the stream, and a value that is more
-- frequent than that has a counter.
pub record IsSummary (capacity : ℕ) (vs : List ℕ) (h : HeavyHitters) (u : ℕ) : Type 0 where
  pub room : h.capacity ≡ max capacity 1
  pub counted : h.count ≡ length vs
  pub bounded : length h.counters ≤ h.capacity
  pub upper : counter_of u h.counters ≤ times u vs
  pub lower : (h.capacity + 1) * (times u vs - counter_of u h.counters) ≤ length vs
  pub frequent : length vs < (h.capacity + 1) * times u vs → has u h.counters ≡ true

pub add_all-IsSummary :
    (capacity : ℕ) (vs : List ℕ) (u : ℕ) → IsSummary capacity vs (add_all vs (empty capacity)) u
unfolding empty
add_all-IsSummary capacity vs u = summed (
    add_all-Summary vs (empty capacity) 0 (λ _. 0) (λ u. times u vs) (λ u. omega arith)
      (record {
        is_map = tt;
        fits = omega arith;
        sum = omega arith;
        upper = λ u. omega arith;
        lower = λ u. omega arith;
      }))
  where
    h : HeavyHitters
    h = add_all vs (empty capacity)

    summed : (d : ℕ) × Summary h d (λ u. times u vs) → IsSummary capacity vs h u
    summed (d, s) =
        let size : h.count ≡ length vs = omega (arith, (add_all-counts vs (empty capacity)).0) in
        let rounds : (h.capacity + 1) * d ≤ length vs = omega (arith, s.sum) in
        let short : (h.capacity + 1) * (times u vs - counter_of u h.counters) ≤ length vs =
          grind (arith, s.lower u) in
        record {
          room = (add_all-counts vs (empty capacity)).1;
          counted = size;
          bounded = s.fits;
          upper = s.upper u;
          lower = short;
          frequent = λ l. elim (Bool-cases (has u h.counters)) [
            | inl e ↦ e
            | inr e ↦ absurd (grind (arith, counter_of-absent u h.counters e))
          ];
        }
