-- ===== src/Exec/KeyFilter/Keys.antt =====
-- The keys that are published, and the parts that may hold one of them.
use antb.Prelude.{
  ◌+◌, ◌*◌, true, Option, some, List, [], ◌∷◌, length, ◌≡◌, ◌⊎◌, ◌↔◌, inl, inr, refl, arith, All,
  Any, if_elim,
}
use antb.Prelude.Int.{ℤ, leb_ℤ, ltb_ℤ, ◌≤ℤ◌}
use antb.Exec.MemoryBudget.{Status, ok, is_ok, out_of_memory, backend_error, Reservation, resize}
use antb.Exec.KeyFilter.{
  KeyRange, KeyFilter, insert, sort, publish_values, publish_all, publish_keys, lower_bound,
  is_at_most, in_range, may_hold, may_hold_a_key_in,
}

-- A part from `lo` to `hi` holds the key.
abbrev pub Holds : ℤ → ℤ → ℤ → Type 0
Holds lo hi k = (lo ≤ℤ k) × (k ≤ℤ hi)

abbrev Sorted : List ℤ → Type 0
Sorted [] = Unit
Sorted (k ∷ ks) = All (λ x. k ≤ℤ x) ks × Sorted ks

insert-Any : (P : ℤ → Type 0) (k : ℤ) (ks : List ℤ) → Any P (insert k ks) ↔ (P k ⊎ Any P ks)
insert-Any P k [] = (λ h. h, λ h. h)
insert-Any P k (x ∷ xs) =
    let rest = insert-Any P k xs in
    if_elim (λ r. Any P r ↔ (P k ⊎ (P x ⊎ Any P xs))) (leb_ℤ k x) _ _ (λ y. (λ h. h, λ h. h))
      (λ n. (
        λ h. elim h [
          | inl p ↦ inr (inl p)
          | inr q ↦ elim (rest.0 q) [ inl p ↦ inl p | inr r ↦ inr (inr r) ]
        ],
        λ h. elim h [
          | inl p ↦ inr (rest.1 (inl p))
          | inr q ↦ elim q [ inl p ↦ inl p | inr r ↦ inr (rest.1 (inr r)) ]
        ],
      ))

sort-Any : (P : ℤ → Type 0) (ks : List ℤ) → Any P (sort ks) ↔ Any P ks
sort-Any P [] = (λ h. h, λ h. h)
sort-Any P (k ∷ ks) =
    let (f, g) = insert-Any P k (sort ks) in
    let (l, r) = sort-Any P ks in
    (
      λ h. elim (f h) [ inl p ↦ inl p | inr q ↦ inr (l q) ],
      λ h. elim h [ inl p ↦ g (inl p) | inr q ↦ g (inr (r q)) ],
    )

insert-All : (P : ℤ → Type 0) (k : ℤ) (ks : List ℤ) → P k → All P ks → All P (insert k ks)
insert-All P k [] p h = (p, tt)
insert-All P k (x ∷ xs) p (q, h) =
    if_elim (λ r. All P r) (leb_ℤ k x) _ _ (λ y. (p, (q, h))) (λ n. (q, insert-All P k xs p h))

above-All : (j k : ℤ) (ks : List ℤ) → j ≤ℤ k → All (λ x. k ≤ℤ x) ks → All (λ x. j ≤ℤ x) ks
above-All j k [] l h = tt
above-All j k (x ∷ xs) l (m, h) = (omega (arith, l, m), above-All j k xs l h)

insert-Sorted : (k : ℤ) (ks : List ℤ) → Sorted ks → Sorted (insert k ks)
insert-Sorted k [] h = (tt, tt)
insert-Sorted k (x ∷ xs) (a, h) =
    if_elim Sorted (leb_ℤ k x) _ _
      (λ y. ((ground (arith, y), above-All k x xs (ground (arith, y)) a), (a, h)))
      (λ n. (insert-All (λ z. x ≤ℤ z) k xs (ground (arith, n)) a, insert-Sorted k xs h))

sort-Sorted : (ks : List ℤ) → Sorted (sort ks)
sort-Sorted [] = tt
sort-Sorted (k ∷ ks) = insert-Sorted k (sort ks) (sort-Sorted ks)

least_at_most : (k lo hi : ℤ) (ks : List ℤ) → All (λ x. k ≤ℤ x) ks → Any (Holds lo hi) ks → k ≤ℤ hi
least_at_most k lo hi [] a h = absurd h
least_at_most k lo hi (x ∷ xs) (l, a) (inl (p, q)) = omega (arith, l, q)
least_at_most k lo hi (x ∷ xs) (l, a) (inr h) = least_at_most k lo hi xs a h

-- The first key that is not below `lo` decides for all that follow it.
lower_bound-Holds :
    (ks : List ℤ) (lo hi : ℤ)
    → Sorted ks
    → (is_at_most (lower_bound ks lo) hi ≡ true) ↔ Any (Holds lo hi) ks
lower_bound-Holds [] lo hi h = (λ e. ground (arith, e), λ e. absurd e)
lower_bound-Holds (k ∷ ks) lo hi (a, h) =
    let rest = lower_bound-Holds ks lo hi h in
    if_elim (λ r. (is_at_most r hi ≡ true) ↔ (Holds lo hi k ⊎ Any (Holds lo hi) ks)) (ltb_ℤ k lo) _
      _
      (λ y.
        (λ e. inr (rest.0 e), λ e. elim e [ inl (p, q) ↦ ground (arith, y, p) | inr m ↦ rest.1 m ]))
      (λ n. (
        λ e. inl (ground (arith, n), ground (arith, e)),
        λ e. elim e [
          | inl (p, q) ↦ ground (arith, q)
          | inr m ↦ ground (arith, least_at_most k lo hi ks a m)
        ],
      ))

-- What is published: the interval around the build's keys, and the keys themselves or none.
abbrev Published : KeyFilter → List ℤ → ℤ → ℤ → Type 0
Published g keys low high =
    (g.key_range ≡ some (record { min = low; max = high }))
    × ((g.key_values ≡ sort keys) ⊎ (g.key_values ≡ []))

publish_values-Published :
    (f : KeyFilter) (keys : List ℤ) (low high : ℤ) (r : Reservation × Status)
    → f.key_range ≡ some (record { min = low; max = high })
    → f.key_values ≡ []
    → Published (publish_values keys f r) keys low high
publish_values-Published f keys low high (r, ok) e v = (e, inl refl)
publish_values-Published f keys low high (r, out_of_memory) e v = (e, inr v)
publish_values-Published f keys low high (r, backend_error) e v = (e, inr v)

publish_all-Published :
    (f : KeyFilter) (keys : List ℤ) (low high : ℤ)
    → f.key_range ≡ some (record { min = low; max = high })
    → f.key_values ≡ []
    → Published (publish_all keys f) keys low high
publish_all-Published f [] low high e v = (e, inr v)
publish_all-Published f (k ∷ ks) low high e v = publish_values-Published f (k ∷ ks) low high _ e v

values-Holds :
    (r : KeyRange) (values : List ℤ) (lo hi : ℤ)
    → Sorted values
    → Any (Holds lo hi) values
    → in_range r values lo hi ≡ true
values-Holds r [] lo hi s h = absurd h
values-Holds r (k ∷ ks) lo hi s h = (lower_bound-Holds (k ∷ ks) lo hi s).1 h

interval-Holds :
    (r : KeyRange) (keys : List ℤ) (lo hi : ℤ)
    → All (Holds r.min r.max) keys
    → Any (Holds lo hi) keys
    → in_range r [] lo hi ≡ true
interval-Holds r [] lo hi a h = absurd h
interval-Holds r (k ∷ ks) lo hi ((p, q), a) (inl (m, n)) = ground (arith, p, q, m, n)
interval-Holds r (k ∷ ks) lo hi (p, a) (inr h) = interval-Holds r ks lo hi a h

may_hold-Holds :
    (range : Option KeyRange) (values : List ℤ) (keys all : List ℤ) (low high lo hi : ℤ)
    → range ≡ some (record { min = low; max = high })
    → (values ≡ sort keys) ⊎ (values ≡ [])
    → (keys ≡ all) ⊎ (keys ≡ [])
    → All (Holds low high) all
    → Any (Holds lo hi) all
    → may_hold range values lo hi ≡ true
may_hold-Holds range values keys all low high lo hi e (inr v) k a h =
    rw (e, v) (interval-Holds (record { min = low; max = high }) all lo hi a h)
may_hold-Holds range values keys all low high lo hi e (inl v) (inr k) a h =
    rw (e, v, k) (interval-Holds (record { min = low; max = high }) all lo hi a h)
may_hold-Holds range values keys all low high lo hi e (inl v) (inl k) a h =
    rw (e, v, k)
      (values-Holds (record { min = low; max = high }) (sort all) lo hi (sort-Sorted all)
        ((sort-Any (Holds lo hi) all).1 h))

-- Where the keys of a build, or none of them for their number, are published with an interval around
-- them all, a part that holds a key of the build is never ruled out, whatever the budget grants.
pub may_hold_a_key_in-publish_keys :
    (f : KeyFilter) (all keys : List ℤ) (low high lo hi : ℤ)
    → f.key_values ≡ []
    → (keys ≡ all) ⊎ (keys ≡ [])
    → All (Holds low high) all
    → Any (Holds lo hi) all
    → may_hold_a_key_in (publish_keys f keys low high) lo hi ≡ true
unfolding may_hold_a_key_in publish_keys
may_hold_a_key_in-publish_keys f all keys low high lo hi v k a h =
    let g : KeyFilter = record f { key_range = some (record { min = low; max = high }) } in
    let (e, w) = publish_all-Published g keys low high refl v in
    may_hold-Holds _ _ keys all low high lo hi e w k a h

publish_values-granted :
    (f : KeyFilter) (keys : List ℤ) (r : Reservation × Status)
    → is_ok r.1 ≡ true
    → (publish_values keys f r).key_values ≡ sort keys
publish_values-granted f keys (r, ok) h = refl
publish_values-granted f keys (r, out_of_memory) h = ground (arith, h)
publish_values-granted f keys (r, backend_error) h = ground (arith, h)

publish_values-range :
    (f : KeyFilter) (keys : List ℤ) (r : Reservation × Status)
    → (publish_values keys f r).key_range ≡ f.key_range
publish_values-range f keys (r, ok) = refl
publish_values-range f keys (r, out_of_memory) = refl
publish_values-range f keys (r, backend_error) = refl

insert-in_range :
    (r : KeyRange) (k : ℤ) (ks : List ℤ) (lo hi : ℤ)
    → in_range r (insert k ks) lo hi ≡ is_at_most (lower_bound (insert k ks) lo) hi
insert-in_range r k [] lo hi = refl
insert-in_range r k (x ∷ xs) lo hi =
    if_elim (λ s. in_range r s lo hi ≡ is_at_most (lower_bound s lo) hi) (leb_ℤ k x) _ _ (λ y. refl)
      (λ n. refl)

may_hold_iff :
    (range : Option KeyRange) (values : List ℤ) (r : KeyRange) (k : ℤ) (ks : List ℤ) (lo hi : ℤ)
    → range ≡ some r
    → values ≡ sort (k ∷ ks)
    → (may_hold range values lo hi ≡ true) ↔ Any (Holds lo hi) (k ∷ ks)
may_hold_iff range values r k ks lo hi e v =
    let (f, g) = lower_bound-Holds (sort (k ∷ ks)) lo hi (sort-Sorted (k ∷ ks)) in
    let (l, m) = sort-Any (Holds lo hi) (k ∷ ks) in
    rw (e, v, insert-in_range r k (sort ks) lo hi) (λ h. l (f h), λ h. g (m h))

-- Keys that are published and whose room is granted rule out exactly the parts that hold none of
-- them.
pub may_hold_a_key_in_iff :
    (f : KeyFilter) (k : ℤ) (ks : List ℤ) (low high lo hi : ℤ)
    → is_ok (resize f.memory (f.bits_bytes + length (k ∷ ks) * 16)).1 ≡ true
    → (may_hold_a_key_in (publish_keys f (k ∷ ks) low high) lo hi ≡ true)
      ↔ Any (Holds lo hi) (k ∷ ks)
unfolding may_hold_a_key_in publish_keys
may_hold_a_key_in_iff f k ks low high lo hi granted =
    let g : KeyFilter = record f { key_range = some (record { min = low; max = high }) } in
    may_hold_iff _ _ (record { min = low; max = high }) k ks lo hi
      (publish_values-range g (k ∷ ks) _) (publish_values-granted g (k ∷ ks) _ granted)
