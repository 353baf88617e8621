-- ===== src/Tests/KeyFilter.antt =====
-- A filter for three keys, two hashes in it, and three keys published.
use antb.Prelude.{
  ℕ, ◌+◌, ◌*◌, ◌≡◌, ◌⊎◌, ◌↔◌, inl, inr, refl, true, false, List, [], ◌∷◌, none, some, length, arith,
  Any,
}
use antb.Prelude.Int.{ℤ, pos, negsuc}
use antb.Exec.MemoryBudget.{Budget, is_ok, resize}
use antb.Exec.KeyFilter.{
  KeyFilter, no_filter, made, make, blocks_for, bit_ceil, block_at, mask_word, add, add_all,
  may_contain, publish_keys, may_hold_a_key_in,
}
use antb.Exec.KeyFilter.Bits.{may_contain-add_all}
use antb.Exec.KeyFilter.Sizes.{IsSized, make-IsSized}
use antb.Exec.KeyFilter.Keys.{Holds, may_hold_a_key_in-publish_keys, may_hold_a_key_in_iff}

abbrev filter : KeyFilter
filter = record {
  words = λ at bit. false;
  num_words = 16;
  block_mask = 1;
  keys = 20;
  memory = record { budget = none; bytes = 64 };
  bits_bytes = 64;
  key_range = none;
  key_values = [];
}

abbrev hashes : List ℕ
hashes = 4294967301 ∷ 77 ∷ []

-- The hash 5 was not added, and one of its bits is not set.
absent_hash : may_contain (add_all filter hashes) 5 ≡ false
unfolding may_contain add_all add block_at mask_word
absent_hash = refl

may_contain-add_all_example : may_contain (add_all filter hashes) 77 ≡ true
may_contain-add_all_example = may_contain-add_all filter hashes 77 (inr (inl refl))

abbrev budget : Budget
budget = record { limit = some 1000; used = 100; peak = 100 }

abbrev small_budget : Budget
small_budget = record { limit = some 200; used = 100; peak = 100 }

-- 32 bytes are more than an eighth of the limit.
refused : make 3 (some small_budget) ≡ no_filter
unfolding make blocks_for bit_ceil
refused = refl

make-IsSized_example :
    (make 3 (some budget) ≡ no_filter)
    ⊎ ((f : KeyFilter) × (make 3 (some budget) ≡ made f) × IsSized 3 f)
make-IsSized_example = make-IsSized 3 (some budget)

abbrev keys : List ℤ
keys = pos 30 ∷ negsuc 4 ∷ pos 12 ∷ []

-- The interval holds 20 and the keys do not.
ruled_out :
    may_hold_a_key_in (publish_keys filter keys (negsuc 4) (pos 30)) (pos 15) (pos 20) ≡ false
unfolding may_hold_a_key_in publish_keys resize
ruled_out = refl

publish_keys_example :
    may_hold_a_key_in (publish_keys filter keys (negsuc 4) (pos 30)) (pos 10) (pos 20) ≡ true
publish_keys_example =
    may_hold_a_key_in-publish_keys filter keys keys (negsuc 4) (pos 30) (pos 10) (pos 20) refl
      (inl refl)
      ((omega arith, omega arith), ((omega arith, omega arith), ((omega arith, omega arith), tt)))
      (inr (inr (inl (omega arith, omega arith))))

granted : is_ok (resize filter.memory (filter.bits_bytes + length keys * 16)).1 ≡ true
unfolding resize
granted = refl

may_hold_a_key_in_iff_example :
    (may_hold_a_key_in (publish_keys filter keys (negsuc 4) (pos 30)) (pos 15) (pos 20) ≡ true)
    ↔ Any (Holds (pos 15) (pos 20)) keys
may_hold_a_key_in_iff_example =
    may_hold_a_key_in_iff filter (pos 30) (negsuc 4 ∷ pos 12 ∷ []) (negsuc 4) (pos 30) (pos 15)
      (pos 20) granted
