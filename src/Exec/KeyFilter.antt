-- ===== src/Exec/KeyFilter.antt =====
-- src/exec/key_filter.cc and key_filter.h: the Bloom filter over the keys of a join's build, and the
-- keys that it publishes. A word is its 32 bits. Sizes are natural numbers: the 16 bits for each key
-- are fewer than 2^63.
use antb.Prelude.{
  ℕ, zero, suc, ◌+◌, ◌-◌, ◌*◌, ◌/◌, ◌%◌, ◌^◌, ltb, leb, ◌==◌, ◌&&◌, ◌||◌, not, Bool, true, false,
  Option, none, some, List, [], ◌∷◌, length, if◌then◌else◌,
}
use antb.Prelude.Int.{ℤ, leb_ℤ, ltb_ℤ}
use antb.Exec.MemoryBudget.{ltb_int64, Budget, Status, ok, is_ok, Reservation, resize}
pub mod Bits
pub mod Sizes
pub mod Keys

abbrev pub Words : Type 0
Words = ℕ → ℕ → Bool

pub record KeyRange : Type 0 where
  pub min : ℤ
  pub max : ℤ

-- `words at bit` is a bit of the word at an index, and there are `num_words` of them.
pub record KeyFilter : Type 0 where
  pub words : Words
  pub num_words : ℕ
  pub block_mask : ℕ
  pub keys : ℕ
  pub memory : Reservation
  pub bits_bytes : ℕ
  pub key_range : Option KeyRange
  pub key_values : List ℤ

abbrev pub bits_per_key : ℕ
bits_per_key = 16

abbrev pub max_bytes : ℕ
max_bytes = 32 * 1024 * 1024

abbrev pub words_per_block : ℕ
words_per_block = 8

abbrev pub salts : List ℕ
salts =
    1203114875 ∷ 1150766481 ∷ 2284105051 ∷ 2729912477 ∷ 1884591559 ∷ 770785867 ∷ 2667333959
    ∷ 1550580529 ∷ []

abbrev pub salt_at : List ℕ → ℕ → ℕ
salt_at [] n = 0
salt_at (s ∷ ss) zero = s
salt_at (s ∷ ss) (suc n) = salt_at ss n

-- The place of the one bit of `MaskWord`.
unfoldable pub mask_word : ℕ → ℕ → ℕ
mask_word hash word = (hash % 2 ^ 32) * salt_at salts word % 2 ^ 32 / 2 ^ 27

-- There is a power of two of blocks, so that & with the mask is a remainder.
unfoldable pub block_at : KeyFilter → ℕ → ℕ
block_at f hash = hash / 2 ^ 32 % suc f.block_mask * words_per_block

abbrev pub set_bit : ℕ → ℕ → Words → Words
set_bit at bit words a b = (a == at && b == bit) || words a b

-- The loops over the words of a block: `n` words from `word` on.
abbrev pub add_words : ℕ → ℕ → ℕ → ℕ → Words → Words
add_words zero block word hash words = words
add_words (suc n) block word hash words =
    add_words n block (suc word) hash (set_bit (block + word) (mask_word hash word) words)

abbrev pub test_words : ℕ → ℕ → ℕ → ℕ → Words → Bool
test_words zero block word hash words = true
test_words (suc n) block word hash words =
    let rest = test_words n block (suc word) hash words in
    if not (words (block + word) (mask_word hash word)) then false else rest

unfoldable pub add : KeyFilter → ℕ → KeyFilter
unfolding block_at
add f hash = record f { words = add_words words_per_block (block_at f hash) 0 hash f.words }

unfoldable pub add_all : KeyFilter → List ℕ → KeyFilter
unfolding add
add_all f [] = f
add_all f (hash ∷ hashes) = add_all (add f hash) hashes

unfoldable pub may_contain : KeyFilter → ℕ → Bool
unfolding block_at
may_contain f hash = test_words words_per_block (block_at f hash) 0 hash f.words

-- `std::bit_ceil`: the least power of two from p on that reaches n.
abbrev pub ceil_from : ℕ → ℕ → ℕ → ℕ
ceil_from zero p n = p
ceil_from (suc fuel) p n = let rest = ceil_from fuel (2 * p) n in if leb n p then p else rest

unfoldable pub bit_ceil : ℕ → ℕ
bit_ceil n = ceil_from n 1 n

unfoldable pub blocks_for : ℕ → ℕ
unfolding bit_ceil
blocks_for num_keys =
    let bits = num_keys * bits_per_key in
    let words = (bits + 31) / 32 in bit_ceil ((words + words_per_block - 1) / words_per_block)

abbrev pub bytes_for : ℕ → ℕ
bytes_for blocks = blocks * words_per_block * 4

abbrev pub over_limit : Option ℕ → ℕ → ℕ → Bool
over_limit none used bytes = false
over_limit (some limit) used bytes =
    ltb (limit / 8) bytes || ltb_int64 limit ((used + bytes) % 2 ^ 64)

abbrev pub refuses : Option Budget → ℕ → Bool
refuses none bytes = false
refuses (some b) bytes = over_limit b.limit b.used bytes

-- A null pointer, an error, or a filter.
pub data Made : Type 0 where
  no_filter : Made
  failed : Status → Made
  made : KeyFilter → Made

abbrev pub new_filter : ℕ → ℕ → Reservation × Status → Made
new_filter num_keys blocks (r, ok) = made record {
  words = λ at bit. false;
  num_words = blocks * words_per_block;
  block_mask = blocks - 1;
  keys = num_keys;
  memory = r;
  bits_bytes = bytes_for blocks;
  key_range = none;
  key_values = [];
}
new_filter num_keys blocks (r, e) = failed e

unfoldable pub make : ℕ → Option Budget → Made
unfolding blocks_for
make num_keys budget =
    let blocks = blocks_for num_keys in
    let bytes = bytes_for blocks in
    if num_keys == 0
    then no_filter
    else if ltb max_bytes bytes
    then no_filter
    else if refuses budget bytes
    then no_filter
    else new_filter num_keys blocks (resize (record { budget = budget; bytes = 0 }) bytes)

unfoldable pub reserve_keys : KeyFilter → ℕ → Bool × KeyFilter
reserve_keys f count =
    let result = resize f.memory (f.bits_bytes + count * 16) in
    if ltb 0 count then (is_ok result.1, record f { memory = result.0 }) else (false, f)

-- `std::ranges::sort`.
abbrev pub insert : ℤ → List ℤ → List ℤ
insert k [] = k ∷ []
insert k (x ∷ xs) = let rest = insert k xs in if leb_ℤ k x then k ∷ x ∷ xs else x ∷ rest

abbrev pub sort : List ℤ → List ℤ
sort [] = []
sort (k ∷ ks) = insert k (sort ks)

abbrev pub publish_values : List ℤ → KeyFilter → Reservation × Status → KeyFilter
publish_values keys f (r, ok) = record f { memory = r; key_values = sort keys }
publish_values keys f (r, e) = record f { memory = r }

abbrev pub publish_all : List ℤ → KeyFilter → KeyFilter
publish_all [] f = f
publish_all (k ∷ ks) f =
    publish_values (k ∷ ks) f (resize f.memory (f.bits_bytes + length (k ∷ ks) * 16))

unfoldable pub publish_keys : KeyFilter → List ℤ → ℤ → ℤ → KeyFilter
publish_keys f keys min max =
    publish_all keys (record f { key_range = some (record { min = min; max = max }) })

-- `std::ranges::lower_bound`: the first key that is not below `min`.
abbrev pub lower_bound : List ℤ → ℤ → Option ℤ
lower_bound [] min = none
lower_bound (k ∷ ks) min = let rest = lower_bound ks min in if ltb_ℤ k min then rest else some k

abbrev pub is_at_most : Option ℤ → ℤ → Bool
is_at_most none max = false
is_at_most (some k) max = leb_ℤ k max

abbrev pub in_range : KeyRange → List ℤ → ℤ → ℤ → Bool
in_range r [] min max = leb_ℤ r.min max && leb_ℤ min r.max
in_range r (k ∷ ks) min max = is_at_most (lower_bound (k ∷ ks) min) max

abbrev pub may_hold : Option KeyRange → List ℤ → ℤ → ℤ → Bool
may_hold none values min max = true
may_hold (some r) values min max = in_range r values min max

unfoldable pub may_hold_a_key_in : KeyFilter → ℤ → ℤ → Bool
may_hold_a_key_in f min max = may_hold f.key_range f.key_values min max
