-- ===== src/Exec/Like.antt =====
-- src/exec/like.cc: `LikePattern`. A pattern and a text are the lists of their bytes, and a
-- position in one is the bytes from there on.
use antb.Prelude.{
  ℕ, zero, suc, ◌+◌, ◌*◌, Bool, true, false, ◌&&◌, ltb, leb, ◌==◌, not, ◌-◌, ◌||◌, take, Option,
  none, some, List, [], ◌∷◌, length, take, drop, if◌then◌else◌,
}
use antb.Common.Int128.{Text}
use antb.Common.Utf8.{utf8_sequence_length}
pub mod Pattern
pub mod Star
pub mod General
pub mod Reach
pub mod Pieces
pub mod Segments
pub mod Ends
pub mod Laws

-- `CharLength` at the start of a text that is not empty.
unfoldable pub char_length : Text → ℕ
char_length [] = 1
char_length (c ∷ cs) =
    let n = utf8_sequence_length (c ∷ cs) in if ltb c 128 then 1 else if n == 0 then 1 else n

-- The text behind its first character.
unfoldable pub past : Text → Text
unfolding char_length
past t = drop (char_length t) t

abbrev pub percent : ℕ
percent = b'%'

abbrev pub underscore : ℕ
underscore = b'_'

-- The last loop of `MatchGeneral`, and whether it ends at the end of the pattern.
unfoldable pub only_percents : Text → Bool
only_percents [] = true
only_percents (d ∷ p) = d == percent && only_percents p

-- `out_of_range` is a character read behind the end of the text, `out_of_fuel` is the model's own.
pub data Answer : Type 0 where
  answer : Bool → Answer
  out_of_range out_of_fuel : Answer

-- The last `%` seen: the pattern behind it, and `star_text`.
abbrev pub Star : Type 0
Star = Option (Text × Text)

abbrev pub Round : Type 0
Round = Text → Text → Star → Answer

-- The last two branches of the loop.
abbrev pub retry : Star → Round → Answer
retry none next = answer false
retry (some (p, [])) next = out_of_range
retry (some (p, c ∷ t)) next = next p (past (c ∷ t)) (some (p, past (c ∷ t)))

unfoldable pub general_from : ℕ → Round
unfolding past only_percents
general_from zero p t star = out_of_fuel
general_from (suc f) p [] star = answer (only_percents p)
general_from (suc f) [] (c ∷ t) star = retry star (general_from f)
general_from (suc f) (d ∷ p) (c ∷ t) star =
    let at_percent = general_from f p (c ∷ t) (some (p, c ∷ t)) in
    let at_underscore = general_from f p (past (c ∷ t)) star in
    let at_byte = general_from f p t star in
    let again = retry star (general_from f) in
    if d == percent
    then at_percent
    else if d == underscore
    then at_underscore
    else if d == c
    then at_byte
    else again

unfoldable pub match_general : Text → Text → Answer
unfolding general_from
match_general p t = general_from ((length t + 1) * (length p + 1)) p t none

-- The text between the `%`s of a pattern, empty ones too.
abbrev pub push : ℕ → List Text → List Text
push c [] = []
push c (q ∷ qs) = (c ∷ q) ∷ qs

unfoldable pub pieces : Text → List Text
pieces [] = [] ∷ []
pieces (c ∷ p) =
    let rest = pieces p in let more = push c rest in if c == percent then [] ∷ rest else more

-- `if (end > start)`.
unfoldable pub non_empty : List Text → List Text
non_empty [] = []
non_empty ([] ∷ qs) = non_empty qs
non_empty ((c ∷ q) ∷ qs) = (c ∷ q) ∷ non_empty qs

unfoldable pub contains : ℕ → Text → Bool
contains x [] = false
contains x (c ∷ t) = c == x || contains x t

abbrev pub starts_with_byte : ℕ → Text → Bool
starts_with_byte x [] = false
starts_with_byte x (c ∷ t) = c == x

unfoldable pub ends_with_byte : ℕ → Text → Bool
ends_with_byte x [] = false
ends_with_byte x (c ∷ []) = c == x
ends_with_byte x (c ∷ d ∷ t) = ends_with_byte x (d ∷ t)

pub record LikePattern : Type 0 where
  pub pattern : Text
  pub has_underscore : Bool
  pub leading_percent : Bool
  pub trailing_percent : Bool
  pub segments : List Text

-- The constructor.
unfoldable pub like_pattern : Text → LikePattern
unfolding contains ends_with_byte pieces non_empty
like_pattern p = record {
  pattern = p;
  has_underscore = contains underscore p;
  leading_percent = starts_with_byte percent p;
  trailing_percent = ends_with_byte percent p;
  segments = non_empty (pieces p);
}

unfoldable pub starts_with : Text → Text → Bool
starts_with t [] = true
starts_with [] (d ∷ q) = false
starts_with (c ∷ t) (d ∷ q) = c == d && starts_with t q

unfoldable pub same_bytes : Text → Text → Bool
same_bytes [] [] = true
same_bytes [] (d ∷ q) = false
same_bytes (c ∷ t) [] = false
same_bytes (c ∷ t) (d ∷ q) = c == d && same_bytes t q

abbrev pub ends_with : Text → Text → Bool
ends_with t q = leb (length q) (length t) && same_bytes (drop (length t - length q) t) q

abbrev pub later : Option ℕ → Option ℕ
later none = none
later (some k) = some (suc k)

-- `window.find`, from the window's start.
unfoldable pub find_text : Text → Text → Option ℕ
unfolding starts_with
find_text q [] = if starts_with [] q then some 0 else none
find_text q (c ∷ t) =
    let rest = later (find_text q t) in if starts_with (c ∷ t) q then some 0 else rest

abbrev pub after_found : Option ℕ → Text → Text → (Text → Bool) → Bool
after_found none q w more = false
after_found (some k) q w more = more (drop (k + length q) w)

-- The loop over the segments, the window taken from `pos` on.
unfoldable pub match_middle : List Text → Text → Bool
unfolding find_text
match_middle [] w = true
match_middle (q ∷ qs) w = after_found (find_text q w) q w (match_middle qs)

abbrev pub front : List Text → Text
front [] = []
front (q ∷ qs) = q

abbrev pub without_front : List Text → List Text
without_front [] = []
without_front (q ∷ qs) = qs

unfoldable pub back : List Text → Text
back [] = []
back (q ∷ []) = q
back (q ∷ r ∷ qs) = back (r ∷ qs)

unfoldable pub without_back : List Text → List Text
without_back [] = []
without_back (q ∷ []) = []
without_back (q ∷ r ∷ qs) = q ∷ without_back (r ∷ qs)

-- From `pos` on: a suffix that fits there is one of the whole text exactly if it is one of the rest.
unfoldable pub match_rest : Bool → List Text → Text → Bool
unfolding same_bytes back without_back match_middle
match_rest true segments rest = match_middle segments rest
match_rest false segments rest =
    if not (ends_with rest (back segments))
    then false
    else match_middle (without_back segments) (take (length rest - length (back segments)) rest)

unfoldable pub match_segments : LikePattern → Text → Bool
unfolding contains starts_with same_bytes match_rest
match_segments l t =
    if not (contains percent l.pattern)
    then same_bytes t l.pattern
    else if l.leading_percent
    then match_rest l.trailing_percent l.segments t
    else if not (starts_with t (front l.segments))
    then false
    else match_rest l.trailing_percent (without_front l.segments)
        (drop (length (front l.segments)) t)

-- `LikePattern::Matches`.
unfoldable pub matches : LikePattern → Text → Answer
unfolding match_general match_segments
matches l t = if l.has_underscore then match_general l.pattern t else answer (match_segments l t)
