-- ===== src/Exec/Like/Ends.antt =====
-- src/exec/like.cc: `MatchSegments` behind its first segment finds the other pieces of a pattern.
use antb.Prelude.{
  ◌-◌, ◌≡◌, ◌↔◌, refl, sym, ap, ◌∙◌, true, false, ◌&&◌, leb, Bool, List, [], ◌∷◌, ◌++◌, length,
  length-append, drop-append, take, take-append, arith, take-append-drop, Bool-cases, inl, inr,
  le→leb,
}
use mathlib.Core.List.{append_assoc, append-nil}
use antb.Common.Int128.{Text}
use antb.Exec.Like.{non_empty, ends_with, match_middle, back, without_back, match_rest}
use antb.Exec.Like.Pieces.{Fits}
use antb.Exec.Like.Segments.{same_bytes_iff, InOrder, match_middle_iff}

regroup : (v q x b : Text) → v ++ (q ++ (x ++ b)) ≡ (v ++ (q ++ x)) ++ b
regroup v q x b = simp append_assoc

-- The last piece stands at the end, and the others before it.
abbrev EndsIn : List Text → Text → Type 0
EndsIn qs t = (w : Text) × (t ≡ w ++ back qs) × InOrder (without_back qs) w

Fits→EndsIn : (q : Text) (qs : List Text) (t : Text) → Fits ([] ∷ q ∷ qs) t → EndsIn (q ∷ qs) t
unfolding back without_back
Fits→EndsIn q [] t (u, e, v, w, f, h) = (v, e ∙ f ∙ ap (λ (x : Text). v ++ x) h, tt)
Fits→EndsIn q (r ∷ qs) t (u, e, v, w, f, (u', g, v', w', i, h)) =
    let (x, j, k) = Fits→EndsIn r qs u' (u', refl, v', w', i, h) in
    (
      v ++ (q ++ x),
      e
          ∙ f
          ∙ ap (λ (y : Text). v ++ y) (g ∙ ap (λ (y : Text). q ++ y) j)
          ∙ regroup v q x (back (r ∷ qs)),
      (v, x, refl, k),
    )

EndsIn→Fits : (q : Text) (qs : List Text) (t : Text) → EndsIn (q ∷ qs) t → Fits ([] ∷ q ∷ qs) t
unfolding back without_back
EndsIn→Fits q [] t (w, e, h) = (t, refl, w, q, e, refl)
EndsIn→Fits q (r ∷ qs) t (w, e, (v, u, f, h)) =
    let (u', g, v', w', i, k) = EndsIn→Fits r qs (u ++ back (r ∷ qs)) (u, refl, h) in
    (
      t,
      refl,
      v,
      q ++ (u ++ back (r ∷ qs)),
      e ∙ ap (λ (y : Text). y ++ back (r ∷ qs)) f ∙ sym (regroup v q u (back (r ∷ qs))),
      (u ++ back (r ∷ qs), refl, v', w', g ∙ i, k),
    )

abbrev pub is_empty : Text → Bool
is_empty [] = true
is_empty (c ∷ q) = false

-- The back of a list that is not empty stays the back, unless it is empty itself.
drops_back :
    (q : Text) (qs : List Text)
    → is_empty (back (q ∷ qs)) ≡ true
    → (back (q ∷ qs) ≡ []) × (non_empty (q ∷ qs) ≡ non_empty (without_back (q ∷ qs)))
unfolding back without_back non_empty
drops_back [] [] h = (refl, refl)
drops_back (c ∷ q) [] h = absurd (ground arith)
drops_back [] (r ∷ qs) h = drops_back r qs h
drops_back (c ∷ q) (r ∷ qs) h =
    let (e, f) = drops_back r qs h in (e, ap (λ (x : List Text). (c ∷ q) ∷ x) f)

keeps_back :
    (q : Text) (qs : List Text)
    → is_empty (back (q ∷ qs)) ≡ false
    → (x : Text) × (xs : List Text) × (non_empty (q ∷ qs) ≡ x ∷ xs)
      × (back (x ∷ xs) ≡ back (q ∷ qs))
      × (without_back (x ∷ xs) ≡ non_empty (without_back (q ∷ qs)))
unfolding back without_back non_empty
keeps_back [] [] h = absurd (ground arith)
keeps_back (c ∷ q) [] h = (c ∷ q, [], refl, refl, refl)
keeps_back [] (r ∷ qs) h = keeps_back r qs h
keeps_back (c ∷ q) (r ∷ qs) h =
    let (x, xs, e, f, g) = keeps_back r qs h in
    (c ∷ q, x ∷ xs, ap (λ (y : List Text). (c ∷ q) ∷ y) e, f, ap (λ (y : List Text). (c ∷ q) ∷ y) g)

ends_with→eq : (t q : Text) → ends_with t q ≡ true → t ≡ take (length t - length q) t ++ q
ends_with→eq t q h =
    sym (take-append-drop (length t - length q) t)
    ∙ ap (λ (x : Text). take (length t - length q) t ++ x) ((same_bytes_iff _ q).0 (ground arith))

take-before : (w q : Text) → take (length (w ++ q) - length q) (w ++ q) ≡ w
take-before w q =
    let e : length (w ++ q) - length q ≡ length w = omega (arith, length-append w q) in
    rw e (take-append w q)

ends_with-append : (w q : Text) → ends_with (w ++ q) q ≡ true
ends_with-append w q =
    let e : length (w ++ q) - length q ≡ length w = omega (arith, length-append w q) in
    let fits : leb (length q) (length (w ++ q)) ≡ true =
      le→leb _ _ (omega (arith, length-append w q)) in
    rw (fits, e, drop-append w q) ((same_bytes_iff q q).1 refl)

match_rest-false :
    (qs : List Text) (t : Text)
    → match_rest false qs t ≡ (
        ends_with t (back qs)
        && match_middle (without_back qs) (take (length t - length (back qs)) t))
unfolding match_rest
match_rest-false qs t = ground arith

match_rest-false_inv :
    (qs : List Text) (t : Text)
    → match_rest false qs t ≡ true
    → (ends_with t (back qs) ≡ true)
      × (match_middle (without_back qs) (take (length t - length (back qs)) t) ≡ true)
unfolding match_rest
match_rest-false_inv qs t h = ground arith

match_rest→EndsIn :
    (q : Text) (qs : List Text) (t : Text)
    → match_rest (is_empty (back (q ∷ qs))) (non_empty (q ∷ qs)) t ≡ true
    → EndsIn (q ∷ qs) t
unfolding match_rest
match_rest→EndsIn q qs t h = elim (Bool-cases (is_empty (back (q ∷ qs)))) [
  | inl e ↦
      let (f, g) = drops_back q qs e in
      (
        t,
        rw f (sym (append-nil t)),
        (match_middle_iff (without_back (q ∷ qs)) t).0 (rw (e, g) at h),
      )
  | inr e ↦
      let (x, xs, f, g, i) = keeps_back q qs e in
      let run : match_rest false (x ∷ xs) t ≡ true = rw (e, f) at h in
      let (a, b) = match_rest-false_inv (x ∷ xs) t run in
      (
        take (length t - length (back (q ∷ qs))) t,
        ends_with→eq t (back (q ∷ qs)) (rw g at a),
        (match_middle_iff (without_back (q ∷ qs)) _).0 (rw (g, i) at b),
      )
]

EndsIn→match_rest :
    (q : Text) (qs : List Text) (t : Text)
    → EndsIn (q ∷ qs) t
    → match_rest (is_empty (back (q ∷ qs))) (non_empty (q ∷ qs)) t ≡ true
unfolding match_rest
EndsIn→match_rest q qs t (w, e, h) = elim (Bool-cases (is_empty (back (q ∷ qs)))) [
  | inl f ↦
      let (g, i) = drops_back q qs f in
      let whole : t ≡ w = e ∙ rw g (append-nil w) in
      rw (f, i) ((match_middle_iff (without_back (q ∷ qs)) t).1 (rw whole h))
  | inr f ↦
      let (x, xs, g, i, j) = keeps_back q qs f in
      let b = back (q ∷ qs) in
      rw (f, g)
        (match_rest-false (x ∷ xs) t
          ∙ rw (i, j, e, ends_with-append w b, take-before w b)
              ((match_middle_iff (without_back (q ∷ qs)) w).1 h))
]

-- Behind the first segment, `MatchSegments` looks for the other pieces.
pub match_rest_iff :
    (q : Text) (qs : List Text) (t : Text)
    → (match_rest (is_empty (back (q ∷ qs))) (non_empty (q ∷ qs)) t ≡ true) ↔ Fits ([] ∷ q ∷ qs) t
match_rest_iff q qs t = (
  λ h. EndsIn→Fits q qs t (match_rest→EndsIn q qs t h),
  λ h. EndsIn→match_rest q qs t (Fits→EndsIn q qs t h),
)
