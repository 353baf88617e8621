-- ===== src/Common/Utf8.antt =====
-- src/common/utf8.cc: the length of the valid UTF-8 sequence that a text starts with. The text is
-- what follows position i, and a byte is below 256.
use antb.Prelude.{
  ℕ, suc, ◌+◌, ◌-◌, ◌/◌, ◌≤◌, Bool, true, false, not, ◌&&◌, ◌||◌, ltb, leb, ◌==◌, Option, none,
  some, [], ◌∷◌, length, take, drop, if◌then◌else◌, arith,
}
use antb.Common.Int128.{Text}
pub mod Scalars
pub mod Sound

-- The length, and the range of the second byte.
pub record Sequence : Type 0 where
  pub len : ℕ
  pub lo : ℕ
  pub hi : ℕ

unfoldable pub sequence_of : ℕ → Option Sequence
sequence_of lead =
    if leb 194 lead && leb lead 223
    then some (record { len = 2; lo = 128; hi = 191 })
    else if leb 224 lead && leb lead 239
    then some (record {
      len = 3;
      lo = if lead == 224 then 160 else 128;
      hi = if lead == 237 then 159 else 191;
    })
    else if leb 240 lead && leb lead 244
    then some (record {
      len = 4;
      lo = if lead == 240 then 144 else 128;
      hi = if lead == 244 then 143 else 191;
    })
    else none

-- `(byte & 0xC0) == 0x80`.
abbrev is_continuation : ℕ → Bool
is_continuation byte = (byte / 64) == 2

abbrev all_continue : Text → Bool
all_continue [] = true
all_continue (b ∷ bs) = is_continuation b && all_continue bs

abbrev second_within : ℕ → ℕ → Text → Bool
second_within lo hi [] = false
second_within lo hi (b ∷ bs) = leb lo b && leb b hi

abbrev checked_length : Option Sequence → Text → ℕ
checked_length none bs = 0
checked_length (some q) bs =
    if ltb (1 + length bs) q.len || not (second_within q.lo q.hi bs)
    then 0
    else if all_continue (take (q.len - 2) (drop 1 bs))
    then q.len
    else 0

unfoldable pub utf8_sequence_length : Text → ℕ
unfolding sequence_of
utf8_sequence_length [] = 0
utf8_sequence_length (lead ∷ bs) = checked_length (sequence_of lead) bs

checked_length-le : (q : Option Sequence) (bs : Text) → checked_length q bs ≤ suc (length bs)
checked_length-le none bs = omega arith
checked_length-le (some q) bs = ground arith

pub utf8_sequence_length-within : (s : Text) → utf8_sequence_length s ≤ length s
unfolding utf8_sequence_length
utf8_sequence_length-within [] = omega arith
utf8_sequence_length-within (lead ∷ bs) = checked_length-le (sequence_of lead) bs
