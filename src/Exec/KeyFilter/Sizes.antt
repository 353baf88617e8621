-- ===== src/Exec/KeyFilter/Sizes.antt =====
-- The sizes of a filter that Make gives.
use antb.Prelude.{
  ℕ, zero, suc, ◌+◌, ◌-◌, ◌*◌, ◌/◌, ◌%◌, ◌^◌, ◌≤◌, ltb, leb, ◌==◌, true, false, Option, none, some,
  ◌≡◌, ◌⊎◌, inl, inr, refl, sym, ap, arith, if◌then◌else◌, if_elim,
}
use native.Mathlib.Nat.{mod-lt, zero-lt-suc}
use antb.Exec.MemoryBudget.{ltb_int64, Budget, ok, Reservation, resize, reserve, charge, passes}
use antb.Exec.KeyFilter.{
  KeyFilter, max_bytes, words_per_block, block_at, may_contain, ceil_from, bit_ceil, blocks_for,
  bytes_for, over_limit, refuses, Made, no_filter, made, new_filter, make,
}

abbrev pub IsPower : ℕ → Type 0
IsPower p = (k : ℕ) × (p ≡ 2 ^ k)

IsPower-double : (p : ℕ) → IsPower p → IsPower (2 * p)
IsPower-double p (k, e) = (suc k, omega (arith, e))

ceil_from-IsPower : (fuel p n : ℕ) → IsPower p → IsPower (ceil_from fuel p n)
ceil_from-IsPower zero p n h = h
ceil_from-IsPower (suc fuel) p n h =
    if_elim IsPower (leb n p) _ _ (λ y. h)
      (λ m. ceil_from-IsPower fuel (2 * p) n (IsPower-double p h))

-- With a unit of fuel for each step that is missing, the power reaches n.
ceil_from-reaches : (fuel p n : ℕ) → 1 ≤ p → n ≤ p + fuel → n ≤ ceil_from fuel p n
ceil_from-reaches zero p n o h = omega (arith, h)
ceil_from-reaches (suc fuel) p n o h =
    if_elim (λ c. n ≤ c) (leb n p) _ _ (λ y. ground (arith, y))
      (λ m. ceil_from-reaches fuel (2 * p) n (omega (arith, o)) (omega (arith, o, h)))

bit_ceil-IsPower : (n : ℕ) → IsPower (bit_ceil n)
unfolding bit_ceil
bit_ceil-IsPower n = ceil_from-IsPower n 1 n (0, refl)

bit_ceil-reaches : (n : ℕ) → n ≤ bit_ceil n
unfolding bit_ceil
bit_ceil-reaches n = ceil_from-reaches n 1 n (omega arith) (omega arith)

blocks_for-IsPower : (n : ℕ) → IsPower (blocks_for n)
unfolding blocks_for
blocks_for-IsPower n = bit_ceil-IsPower (((n * 16 + 31) / 32 + 8 - 1) / 8)

-- The bits of the whole blocks are enough for every key.
enough_blocks :
    (n blocks : ℕ)
    → ((n * 16 + 31) / 32 + 8 - 1) / 8 ≤ blocks
    → n * 16 ≤ 32 * (blocks * words_per_block)
enough_blocks n blocks h = omega (arith, h)

blocks_for-enough : (n : ℕ) → n * 16 ≤ 32 * (blocks_for n * words_per_block)
unfolding blocks_for
blocks_for-enough n = enough_blocks n _ (bit_ceil-reaches (((n * 16 + 31) / 32 + 8 - 1) / 8))

two_to_positive : (k : ℕ) → 1 ≤ 2 ^ k
two_to_positive zero = omega arith
two_to_positive (suc k) = omega (arith, two_to_positive k)

power_positive : (p : ℕ) → IsPower p → 1 ≤ p
power_positive p (k, e) = omega (arith, e, two_to_positive k)

-- A filter with no bit set: a power of two of blocks, with 16 bits for each key at least, that is
-- charged for its words and no larger than is worth building; a block of any hash is in it.
pub record IsSized (n : ℕ) (f : KeyFilter) : Type 0 where
  pub power : IsPower (suc f.block_mask)
  pub whole : f.num_words ≡ suc f.block_mask * words_per_block
  pub enough : n * 16 ≤ 32 * f.num_words
  pub small : f.num_words * 4 ≤ max_bytes
  pub charged : f.memory.bytes ≡ f.num_words * 4
  pub clear : (hash : ℕ) → may_contain f hash ≡ false
  pub within : (hash : ℕ) → block_at f hash + words_per_block ≤ f.num_words

passes-over_limit :
    (limit : Option ℕ) (used bytes : ℕ)
    → over_limit limit used bytes ≡ false
    → passes limit ((used + bytes) % 2 ^ 64) ≡ false
passes-over_limit none used bytes h = refl
passes-over_limit (some l) used bytes h = ground (arith, h)

charge-granted :
    (b : Budget) (bytes : ℕ)
    → over_limit b.limit b.used bytes ≡ false
    → (after : Budget) × (charge b bytes ≡ (after, ok))
unfolding charge
charge-granted b bytes h =
    let now = (b.used + bytes) % 2 ^ 64 in
    (
      record b { used = now; peak = if ltb_int64 b.peak now then now else b.peak },
      rw (passes-over_limit b.limit b.used bytes h) refl,
    )

reserve-granted :
    (b : Budget) (bytes : ℕ)
    → over_limit b.limit b.used bytes ≡ false
    → (after : Budget) × (reserve b bytes ≡ (after, ok))
unfolding reserve
reserve-granted b bytes h =
    if_elim (λ r. (after : Budget) × (r ≡ (after, ok))) (bytes == 0) _ _ (λ y. (b, refl))
      (λ n. charge-granted b bytes h)

-- A budget that does not refuse the size grants it.
granted :
    (budget : Option Budget) (bytes : ℕ)
    → 1 ≤ bytes
    → refuses budget bytes ≡ false
    → (r : Reservation) × (resize (record { budget = budget; bytes = 0 }) bytes ≡ (r, ok))
      × (r.bytes ≡ bytes)
unfolding resize
granted none bytes o h = (_, refl, refl)
granted (some b) bytes o h =
    let (after, e) = reserve-granted b bytes h in
    let some_bytes : ltb 0 bytes ≡ true = ground (arith, o) in
    let all_of_it : bytes - 0 ≡ bytes = omega arith in
    (record { budget = some after; bytes = bytes }, rw (some_bytes, all_of_it, e) refl, refl)

within_blocks :
    (h mask blocks : ℕ)
    → suc mask ≡ blocks
    → h % suc mask * words_per_block + words_per_block ≤ blocks * words_per_block
within_blocks h mask blocks e = omega (arith, e, mod-lt h (zero-lt-suc mask))

new_filter-IsSized :
    (n blocks : ℕ) (r : Reservation)
    → IsPower blocks
    → suc (blocks - 1) ≡ blocks
    → n * 16 ≤ 32 * (blocks * words_per_block)
    → bytes_for blocks ≤ max_bytes
    → r.bytes ≡ bytes_for blocks
    → (f : KeyFilter) × (new_filter n blocks (r, ok) ≡ made f) × IsSized n f
unfolding may_contain block_at
new_filter-IsSized n blocks r p b e s c = (
  _,
  refl,
  record {
    power = rw b p;
    whole = ap (λ k. k * words_per_block) (sym b);
    enough = e;
    small = s;
    charged = c;
    clear = λ hash. refl;
    within = λ hash. within_blocks (hash / 2 ^ 32) (blocks - 1) blocks b;
  },
)

-- Make gives no filter, or one with no bit set of a power of two of blocks, with 16 bits for each key
-- at least, charged for its words and no larger than is worth building, in which the block of any
-- hash lies; it gives no error where nothing else is charged between its test of the budget and its
-- reservation.
pub make-IsSized :
    (n : ℕ) (budget : Option Budget)
    → (make n budget ≡ no_filter) ⊎ ((f : KeyFilter) × (make n budget ≡ made f) × IsSized n f)
unfolding make
make-IsSized n budget =
    let blocks = blocks_for n in
    let bytes = bytes_for blocks in
    let Fits = λ (m : Made). (m ≡ no_filter) ⊎ ((f : KeyFilter) × (m ≡ made f) × IsSized n f) in
    let power = blocks_for-IsPower n in
    let one = power_positive blocks power in
    if_elim Fits (n == 0) _ _ (λ y. inl refl)
      (λ some_keys.
        if_elim Fits (ltb max_bytes bytes) _ _ (λ y. inl refl)
          (λ small.
            if_elim Fits (refuses budget bytes) _ _ (λ y. inl refl)
              (λ held.
                let (r, e, c) = granted budget bytes (omega (arith, one)) held in
                rw e (
                  inr (
                    new_filter-IsSized n blocks r power (omega (arith, one)) (blocks_for-enough n)
                      (ground (arith, small)) c)))))
