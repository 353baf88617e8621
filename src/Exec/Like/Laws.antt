-- ===== src/Exec/Like/Laws.antt =====
-- src/exec/like.cc: `LikePattern::Matches` answers whether a text matches a pattern of characters.
use antb.Prelude.{
  ℕ, ◌≡◌, ◌↔◌, refl, sym, ap, ◌∙◌, true, false, not, List, [], ◌∷◌, ◌++◌, length, drop, drop-append,
  arith, ◌==◌, if◌then◌else◌, Bool-cases, inl, inr, All,
}
use antb.Common.Int128.{Text}
use antb.Common.Utf8.Scalars.{IsScalar, encode}
use antb.Exec.Like.{
  percent, underscore, push, front, without_front, pieces, non_empty, contains, starts_with_byte,
  ends_with_byte, like_pattern, starts_with, back, match_rest, match_segments, matches,
}
use antb.Exec.Like.Pattern.{Matches, encode_all}
use antb.Exec.Like.General.{Decides, answer-Decides, match_general-Decides}
use antb.Exec.Like.Reach.{NoOne}
use antb.Exec.Like.Pieces.{Fits, pieces-some, Matches_iff_Fits}
use antb.Exec.Like.Segments.{same_bytes_iff, starts_with→eq, starts_with-append}
use antb.Exec.Like.Ends.{is_empty, match_rest_iff}

-- Without a `%` the pattern is one piece.
contains-pieces : (p : Text) → contains percent p ≡ false → pieces p ≡ p ∷ []
unfolding contains pieces
contains-pieces [] h = refl
contains-pieces (c ∷ p) h = ground (arith, contains-pieces p)

-- With one there are two pieces at least, and the first is empty exactly if the `%` leads.
pieces-two :
    (p : Text)
    → contains percent p ≡ true
    → (q : Text) × (r : Text) × (qs : List Text) × (pieces p ≡ q ∷ r ∷ qs)
      × (starts_with_byte percent p ≡ is_empty q)
unfolding contains pieces
pieces-two [] h = absurd (ground arith)
pieces-two (c ∷ p) h = elim (Bool-cases (c == percent)) [
  | inl e ↦ let (q, qs, f) = pieces-some p in ([], q, qs, rw (e, f) refl, e)
  | inr e ↦ let (q, r, qs, f, _) = pieces-two p (ground arith) in (c ∷ q, r, qs, rw (e, f) refl, e)
]

pieces-nil : pieces [] ≡ [] ∷ []
unfolding pieces
pieces-nil = refl

pieces-at : (c : ℕ) (p : Text) → (c == percent) ≡ true → pieces (c ∷ p) ≡ [] ∷ pieces p
unfolding pieces
pieces-at c p e = rw e refl

pieces-on : (c : ℕ) (p : Text) → (c == percent) ≡ false → pieces (c ∷ p) ≡ push c (pieces p)
unfolding pieces
pieces-on c p e = rw e refl

pieces-single : (p q : Text) → pieces p ≡ q ∷ [] → q ≡ p
unfolding pieces
pieces-single [] q h = ground arith
pieces-single (c ∷ p) q h = elim (Bool-cases (c == percent)) [
  | inl e ↦
      let (r, qs, f) = pieces-some p in
      let two : Path (List Text) ([] ∷ r ∷ qs) (q ∷ []) = rw f at (sym (pieces-at c p e) ∙ h) in
      absurd (ground arith)
  | inr e ↦
      let (r, qs, f) = pieces-some p in
      let parts : Path (List Text) ((c ∷ r) ∷ qs) (q ∷ []) = rw f at (sym (pieces-on c p e) ∙ h) in
      let rest : r ≡ p =
        pieces-single p r (f ∙ ap (λ (x : List Text). r ∷ x) (ap without_front parts)) in
      sym (ap front parts) ∙ ap (λ (x : Text). c ∷ x) rest
]

back-push :
    (c d : ℕ) (p q : Text) (qs : List Text)
    → pieces (d ∷ p) ≡ q ∷ qs
    → is_empty (back ((c ∷ q) ∷ qs)) ≡ is_empty (back (q ∷ qs))
unfolding back
back-push c d p q [] e = rw (pieces-single (d ∷ p) q e) refl
back-push c d p q (r ∷ qs) e = refl

-- The last piece is empty exactly if the pattern ends with a `%`.
ends_with_byte-pieces :
    (c : ℕ) (p : Text) → is_empty (back (pieces (c ∷ p))) ≡ ends_with_byte percent (c ∷ p)
unfolding ends_with_byte back
ends_with_byte-pieces c [] = elim (Bool-cases (c == percent)) [
  | inl e ↦ rw (pieces-at c [] e, pieces-nil, e) refl
  | inr e ↦ rw (pieces-on c [] e, pieces-nil, e) refl
]
ends_with_byte-pieces c (d ∷ p) =
    let (q, qs, f) = pieces-some (d ∷ p) in
    let rest : is_empty (back (q ∷ qs)) ≡ ends_with_byte percent (d ∷ p) =
      rw f at (ends_with_byte-pieces d p) in
    elim (Bool-cases (c == percent)) [
      | inl e ↦ rw (pieces-at c (d ∷ p) e, f) rest
      | inr e ↦ rw (pieces-on c (d ∷ p) e, f) (back-push c d p q qs f ∙ rest)
    ]

front_iff :
    (w r t : Text) (qs : List Text)
    → ((if not (starts_with t w)
          then false
          else match_rest (is_empty (back (r ∷ qs))) (non_empty (r ∷ qs)) (drop (length w) t))
        ≡ true)
      ↔ Fits (w ∷ r ∷ qs) t
front_iff w r t qs = (
  λ h. elim (Bool-cases (starts_with t w)) [
    | inl e ↦
        let (u, f, v, x, g, k) = (match_rest_iff r qs (drop (length w) t)).0 (rw e at h) in
        (drop (length w) t, starts_with→eq t w e, v, x, f ∙ g, k)
    | inr e ↦ cc (rw e at h)
  ],
  λ (u, e, v, x, f, k).
      rw (e, starts_with-append w u, drop-append w u)
        ((match_rest_iff r qs u).1 (u, refl, v, x, f, k)),
)

-- `MatchSegments` of a pattern decides whether its pieces fit.
match_segments-two :
    (p q r t : Text) (qs : List Text)
    → contains percent p ≡ true
    → pieces p ≡ q ∷ r ∷ qs
    → starts_with_byte percent p ≡ is_empty q
    → ends_with_byte percent p ≡ is_empty (back (r ∷ qs))
    → (match_segments (like_pattern p) t ≡ true) ↔ Fits (q ∷ r ∷ qs) t
unfolding match_segments like_pattern
match_segments-two p [] r t qs h e f g = rw (h, e, f, g) (match_rest_iff r qs t)
match_segments-two p (c ∷ q) r t qs h e f g = rw (h, e, f, g) (front_iff (c ∷ q) r t qs)

without_percent :
    (p t : Text) → contains percent p ≡ false → (match_segments (like_pattern p) t ≡ true) ↔ (t ≡ p)
unfolding match_segments like_pattern
without_percent p t h = rw h (same_bytes_iff t p)

with_percent :
    (p t : Text)
    → contains percent p ≡ true
    → (match_segments (like_pattern p) t ≡ true) ↔ Fits (pieces p) t
unfolding back contains
with_percent [] t h = cc
with_percent (c ∷ p) t h =
    let (q, r, qs, e, f) = pieces-two (c ∷ p) h in
    let g : is_empty (back (q ∷ r ∷ qs)) ≡ ends_with_byte percent (c ∷ p) =
      rw e at (ends_with_byte-pieces c p) in
    rw e (match_segments-two (c ∷ p) q r t qs h e f (sym g))

match_segments_iff : (p t : Text) → (match_segments (like_pattern p) t ≡ true) ↔ Fits (pieces p) t
match_segments_iff p t = elim (Bool-cases (contains percent p)) [
  | inl h ↦ with_percent p t h
  | inr h ↦ rw (contains-pieces p h) (without_percent p t h)
]

contains-append : (x : ℕ) (w p : Text) → contains x (w ++ p) ≡ false → contains x p ≡ false
unfolding contains
contains-append x [] p h = h
contains-append x (c ∷ w) p h = contains-append x w p (ground arith)

contains-NoOne : (ns : List ℕ) → contains underscore (encode_all ns) ≡ false → NoOne ns
unfolding contains
contains-NoOne [] h = tt
contains-NoOne (n ∷ ns) h = (
  λ u. cc (rw u at h),
  contains-NoOne ns (contains-append underscore (encode n) (encode_all ns) h),
)

-- For a pattern of characters and any text, the pattern that the constructor makes ends and answers
-- whether the text matches, by its segments or, if it has a `_`, by going back to the last `%`.
pub matches-Decides :
    (ns : List ℕ) (t : Text)
    → All IsScalar ns
    → Decides (Matches ns t) (matches (like_pattern (encode_all ns)) t)
unfolding matches like_pattern
matches-Decides ns t s = elim (Bool-cases (contains underscore (encode_all ns))) [
  | inl h ↦ rw h (match_general-Decides ns t s)
  | inr h ↦
      let a = contains-NoOne ns h in
      rw h (
        answer-Decides (match_segments (like_pattern (encode_all ns)) t) (
          λ e. (Matches_iff_Fits ns t a).1 ((match_segments_iff (encode_all ns) t).0 e),
          λ m. (match_segments_iff (encode_all ns) t).1 ((Matches_iff_Fits ns t a).0 m),
        ))
]
