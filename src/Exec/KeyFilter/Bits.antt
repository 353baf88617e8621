-- ===== src/Exec/KeyFilter/Bits.antt =====
-- The bits of the hashes that were added.
use antb.Prelude.{
  ℕ, zero, suc, ◌+◌, true, false, List, [], ◌∷◌, ◌≡◌, inl, inr, refl, ==_refl, Bool-cases, arith,
  Any,
}
use antb.Exec.KeyFilter.{
  KeyFilter, Words, words_per_block, mask_word, block_at, set_bit, add_words, test_words, add,
  add_all, may_contain,
}

-- Adding keeps the bits that are set.
add_words-set :
    (n block word hash : ℕ) (words : Words) (a b : ℕ)
    → words a b ≡ true
    → add_words n block word hash words a b ≡ true
add_words-set zero block word hash words a b h = h
add_words-set (suc n) block word hash words a b h =
    add_words-set n block (suc word) hash _ a b (ground (arith, h))

set_bit-own : (a b : ℕ) (words : Words) → set_bit a b words a b ≡ true
set_bit-own a b words = rw (==_refl a, ==_refl b) refl

false-true : false ≡ true → ⊥
false-true h = ground (arith, h)

-- The test passes where the bits of the words are set.
test_words-add_words :
    (n block word hash : ℕ) (words : Words)
    → test_words n block word hash (add_words n block word hash words) ≡ true
test_words-add_words zero block word hash words = refl
test_words-add_words (suc n) block word hash words =
    let ws = set_bit (block + word) (mask_word hash word) words in
    let own =
      add_words-set n block (suc word) hash ws (block + word) (mask_word hash word)
        (set_bit-own (block + word) (mask_word hash word) words) in
    rw own (test_words-add_words n block (suc word) hash ws)

-- More bits keep a test that passes.
test_words-more :
    (n block word hash : ℕ) (us vs : Words)
    → ((a b : ℕ) → us a b ≡ true → vs a b ≡ true)
    → test_words n block word hash us ≡ true
    → test_words n block word hash vs ≡ true
test_words-more zero block word hash us vs h k = refl
test_words-more (suc n) block word hash us vs h k =
    elim (Bool-cases (us (block + word) (mask_word hash word))) [
      | inl y ↦ rw (h _ _ y) (test_words-more n block (suc word) hash us vs h (rw y at k))
      | inr m ↦ absurd (false-true (rw m at k))
    ]

may_contain-more :
    (f : KeyFilter) (added hash : ℕ)
    → may_contain f hash ≡ true
    → may_contain (add f added) hash ≡ true
unfolding may_contain add
may_contain-more f added hash h =
    test_words-more words_per_block (block_at f hash) 0 hash _ _
      (λ a b k. add_words-set words_per_block (block_at f added) 0 added f.words a b k) h

may_contain-add_more :
    (f : KeyFilter) (hashes : List ℕ) (hash : ℕ)
    → may_contain f hash ≡ true
    → may_contain (add_all f hashes) hash ≡ true
unfolding add_all
may_contain-add_more f [] hash h = h
may_contain-add_more f (x ∷ xs) hash h =
    may_contain-add_more (add f x) xs hash (may_contain-more f x hash h)

may_contain-add : (f : KeyFilter) (hash : ℕ) → may_contain (add f hash) hash ≡ true
unfolding may_contain add block_at
may_contain-add f hash = test_words-add_words words_per_block (block_at f hash) 0 hash f.words

-- A hash that was added may be contained: the filter has no false negative.
pub may_contain-add_all :
    (f : KeyFilter) (hashes : List ℕ) (hash : ℕ)
    → Any (λ h. h ≡ hash) hashes
    → may_contain (add_all f hashes) hash ≡ true
unfolding add_all
may_contain-add_all f [] hash h = absurd h
may_contain-add_all f (x ∷ xs) hash (inl e) =
    may_contain-add_more (add f x) xs hash (rw e (may_contain-add f hash))
may_contain-add_all f (x ∷ xs) hash (inr k) = may_contain-add_all (add f x) xs hash k
