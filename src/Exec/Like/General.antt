-- ===== src/Exec/Like/General.antt =====
-- src/exec/like.cc: `MatchGeneral` decides whether a text matches, for a pattern of characters.
use antb.Prelude.{
  ℕ, zero, suc, ◌+◌, ◌*◌, ◌≤◌, ◌<◌, ◌≡◌, ◌≢◌, ◌↔◌, inl, inr, refl, sym, ap, ap₂, ◌∙◌, Bool, true,
  false, ltb, ◌==◌, ==_iff, Bool-cases, none, some, List, [], ◌∷◌, ◌++◌, length, drop, All, arith,
  if_elim, if◌then◌else◌, length-append,
}
use native.Mathlib.Decide.{ℕ_discrete}
use antb.Common.Int128.{Text}
use antb.Common.Utf8.Scalars.{IsScalar, encode}
use antb.Exec.Like.{
  percent, underscore, past, only_percents, Answer, answer, out_of_range, out_of_fuel, Star, retry,
  general_from, match_general,
}
use antb.Exec.Like.Pattern.{
  Matches, done, char, one, leave, extend, encode_all, length-past, length-encode,
}
use antb.Exec.Like.Star.{
  char_inv, one_inv, percent_at_end, has_to_extend, two_percents, drop_char, drop_one, behind_char,
  fits_char,
}

-- No byte of it is a `%` or a `_`.
abbrev pub Plain : Text → Type 0
Plain w = All (λ c. (c ≢ percent) × (c ≢ underscore)) w

pub encode-Plain : (n : ℕ) → n ≢ percent → n ≢ underscore → Plain (encode n)
encode-Plain n p u =
    if_elim Plain (ltb n 128) _ _ (λ _. ((p, u), tt))
      (λ _.
        if_elim Plain (ltb n 2_048) _ _ (λ _. omega arith)
          (λ _. if_elim Plain (ltb n 65_536) _ _ (λ _. omega arith) (λ _. omega arith)))

-- What the loop makes of plain bytes: it passes them, the text ends in them, or one differs.
data Passed (f : ℕ) (w p t : Text) (star : Star) : Type 0 where
  passed :
      (r : Text) (g : ℕ)
      → t ≡ w ++ r
      → f ≡ g + length w
      → general_from f (w ++ p) t star ≡ general_from g p r star
      → Passed f w p t star
  ended : length t < length w → general_from f (w ++ p) t star ≡ answer false → Passed f w p t star
  differs :
      (g : ℕ)
      → ((r : Text) → t ≢ w ++ r)
      → 0 < length t
      → f ≤ g + length w
      → g < f
      → general_from f (w ++ p) t star ≡ retry star (general_from g)
      → Passed f w p t star

step_byte :
    (f d c : ℕ) (p t : Text) (star : Star)
    → d ≢ percent
    → d ≢ underscore
    → general_from (suc f) (d ∷ p) (c ∷ t) star
      ≡ (if d == c then general_from f p t star else retry star (general_from f))
unfolding general_from
step_byte f d c p t star a b = ground arith

Passed-byte :
    (f d c : ℕ) (w p t : Text) (star : Star)
    → d ≡ c
    → general_from (suc f) (d ∷ (w ++ p)) (c ∷ t) star ≡ general_from f (w ++ p) t star
    → Passed f w p t star
    → Passed (suc f) (d ∷ w) p (c ∷ t) star
Passed-byte f d c w p t star e step (passed r g q m h) =
    passed r g (ap₂ (λ (x : ℕ) (xs : Text). x ∷ xs) (sym e) q) (omega arith) (step ∙ h)
Passed-byte f d c w p t star e step (ended l h) = ended (omega arith) (step ∙ h)
Passed-byte f d c w p t star e step (differs g n l a b h) =
    differs g (λ r q. n r (ap (drop 1) q)) (omega arith) (omega arith) (omega arith) (step ∙ h)

pass_bytes : (f : ℕ) (w p t : Text) (star : Star) → Plain w → length w < f → Passed f w p t star
unfolding general_from only_percents
pass_bytes f [] p t star w l = passed t f refl (omega arith) refl
pass_bytes zero (d ∷ w) p t star h l = absurd (omega arith)
pass_bytes (suc f) (d ∷ w) p [] star ((a, b), h) l = ended (omega arith) (ground arith)
pass_bytes (suc f) (d ∷ w) p (c ∷ t) star ((a, b), h) l = elim (Bool-cases (d == c)) [
  | inl e ↦
      Passed-byte f d c w p t star ((==_iff d c).0 e)
        (step_byte f d c (w ++ p) t star a b ∙ rw e refl) (pass_bytes f w p t star h (omega arith))
  | inr e ↦
      differs f (λ r q. ground arith) (omega arith) (omega arith) (omega arith)
        (step_byte f d c (w ++ p) t star a b ∙ rw e refl)
]

abbrev pub Decides : Type 0 → Answer → Type 0
Decides G (answer true) = G
Decides G (answer false) = ¬ G
Decides G out_of_range = ⊥
Decides G out_of_fuel = ⊥

pub answer-Decides : {G : Type 0} (b : Bool) → (b ≡ true) ↔ G → Decides G (answer b)
answer-Decides true e = e.0 refl
answer-Decides false e = λ g. cc (e.1 g)

only_percents-Plain : (w p : Text) → 0 < length w → Plain w → only_percents (w ++ p) ≡ false
unfolding only_percents
only_percents-Plain [] p l h = absurd (omega arith)
only_percents-Plain (c ∷ w) p l ((a, b), h) = ground arith

only_percents→Matches : (ns : List ℕ) → only_percents (encode_all ns) ≡ true → Matches ns []
unfolding only_percents
only_percents→Matches [] h = done
only_percents→Matches (n ∷ ns) h = elim (ℕ_discrete n percent) [
  | yes p ↦ leave p (only_percents→Matches ns (rw p at h))
  | no p ↦ elim (ℕ_discrete n underscore) [
    | yes u ↦ cc (rw u at h)
    | no u ↦
        cc (only_percents-Plain (encode n) (encode_all ns) (length-encode n) (encode-Plain n p u))
  ]
]

Matches→only_percents :
    (ns : List ℕ) (t : Text) → t ≡ [] → Matches ns t → only_percents (encode_all ns) ≡ true
unfolding only_percents
Matches→only_percents [] t e m = refl
Matches→only_percents (n ∷ ns) t e (char p u q m) =
    absurd (omega (arith, ap length (sym q ∙ e), length-append (encode n) _, length-encode n))
Matches→only_percents (n ∷ ns) t e (one u m) = cc
Matches→only_percents (n ∷ ns) t e (leave p m) = rw p (Matches→only_percents ns t e m)
Matches→only_percents (n ∷ ns) t e (extend p m) = cc

-- `G` is the question asked at the start, and every pattern in play is shorter than `k`.
module _ (G : Type 0) (k : ℕ) where
  -- What the saved position means. `m` bounds the text that is left to try.
  abbrev Saved : ℕ → List ℕ → Text → Star → Type 0
  Saved m ns t none = G → Matches ns t
  Saved m ns t (some (q, u)) =
      (bs : List ℕ) × (q ≡ encode_all bs)
      × All IsScalar bs
      × (G ↔ Matches (percent ∷ bs) u)
      × (Matches bs u → Matches ns t)
      × (length t ≤ length u)
      × (length u ≤ m)
      × (length q < k)

  record Asks (f m : ℕ) (ns : List ℕ) (t : Text) (star : Star) : Type 0 where
    sound : Matches ns t → G
    complete : G → Matches (percent ∷ ns) t
    saved : Saved m ns t star
    scalars : All IsScalar ns
    text_bound : length t ≤ m
    pattern_bound : length (encode_all ns) < k
    fuel : m * k + length (encode_all ns) < f

  -- At a `%` the question is whether the rest of the pattern matches from here on.
  Asks-percent :
      (f m : ℕ) (ns : List ℕ) (t : Text)
      → All IsScalar ns
      → G ↔ Matches (percent ∷ ns) t
      → length t ≤ m
      → length (encode_all ns) < k
      → m * k + length (encode_all ns) < f
      → Asks f m ns t (some (encode_all ns, t))
  Asks-percent f m ns t s e l b h = record {
    sound = λ d. e.1 (leave refl d);
    complete = e.0;
    saved = (ns, refl, s, e, λ d. d, omega arith, l, b);
    scalars = s;
    text_bound = l;
    pattern_bound = b;
    fuel = h;
  }

  -- The text and the pattern move on, and what follows in them is asked.
  Saved-on :
      (m : ℕ) (ns ms : List ℕ) (t u : Text) (star : Star)
      → (Matches ns t → Matches ms u)
      → length u ≤ length t
      → Saved m ns t star
      → Saved m ms u star
  Saved-on m ns ms t u none on l h = λ g. on (h g)
  Saved-on m ns ms t u (some (q, v)) on l (bs, e, s, i, d, a, b, c) =
      (bs, e, s, i, λ x. on (d x), omega arith, b, c)

  -- The last `%` takes one more character.
  retry-Decides :
      (g m : ℕ) (ns : List ℕ) (t : Text) (star : Star)
      → ((m' : ℕ) (ms : List ℕ) (u : Text) (s : Star)
          → Asks g m' ms u s
          → Decides G (general_from g (encode_all ms) u s))
      → Saved m ns t star
      → 0 < length t
      → m * k ≤ g
      → ¬ Matches ns t
      → Decides G (retry star (general_from g))
  retry-Decides g m ns t none again h l b no_match = λ x. no_match (h x)
  retry-Decides g m ns t (some (q, [])) again (bs, e, s, i, d, a, u, c) l b no_match = omega arith
  retry-Decides g zero ns t (some (q, x ∷ v)) again (bs, e, s, i, d, a, u, c) l b no_match =
      absurd (omega arith)
  retry-Decides g (suc m) ns t (some (q, x ∷ v)) again (bs, e, s, i, d, a, u, c) l b no_match =
      rw e (
        again m bs (past (x ∷ v)) (some (encode_all bs, past (x ∷ v))) (
          Asks-percent g m bs (past (x ∷ v)) s
            (λ y. has_to_extend refl (i.0 y) (λ z. no_match (d z)), λ y. i.1 (extend refl y))
            (omega (arith, length-past x v)) (omega (arith, ap length e))
            (grind (arith, ap length e))))

  -- A character of the pattern: its bytes are passed, or the last `%` has to be tried again.
  char-Decides :
      (f m n : ℕ) (ns : List ℕ) (t : Text) (star : Star)
      → n ≢ percent
      → n ≢ underscore
      → 0 < length t
      → Asks f m (n ∷ ns) t star
      → ((g m' : ℕ) (ms : List ℕ) (u : Text) (s : Star)
          → g < f
          → Asks g m' ms u s
          → Decides G (general_from g (encode_all ms) u s))
      → Passed f (encode n) (encode_all ns) t star
      → Decides G (general_from f (encode n ++ encode_all ns) t star)
  char-Decides f m n ns t star p u l a again (passed r g q e h) = rw h (
      again g m ns r star (omega (arith, length-encode n)) (record {
        sound = λ d. a.sound (char p u q d);
        complete = λ x. drop_char refl r p u (a.scalars.0) q (a.complete x);
        saved =
            Saved-on m (n ∷ ns) ns t r star (behind_char r p u (a.scalars.0) q)
              (omega (arith, ap length q, length-append (encode n) r)) a.saved;
        scalars = a.scalars.1;
        text_bound = omega (arith, a.text_bound, ap length q, length-append (encode n) r);
        pattern_bound = omega (arith, a.pattern_bound, length-append (encode n) (encode_all ns));
        fuel = omega (arith, a.fuel, length-append (encode n) (encode_all ns));
      }))
  char-Decides f m n ns t star p u l a again (ended b h) =
      rw h (λ x. omega (arith, fits_char refl p u (a.complete x)))
  char-Decides f m n ns t star p u l a again (differs g d _ b c h) = rw h (
      retry-Decides g m (n ∷ ns) t star (λ m' ms v s. again g m' ms v s c) a.saved l
        (omega (arith, a.fuel, length-append (encode n) (encode_all ns)))
        (λ y. let (r, e, _) = char_inv p u y in d r e))

  general_from-Decides :
      (b f m : ℕ) (ns : List ℕ) (t : Text) (star : Star)
      → f < b
      → Asks f m ns t star
      → Decides G (general_from f (encode_all ns) t star)
  unfolding general_from
  general_from-Decides zero f m ns t star l a = absurd (omega arith)
  general_from-Decides (suc b) zero m ns t star l a = absurd (omega (arith, a.fuel))
  general_from-Decides (suc b) (suc f) m ns [] star l a =
      answer-Decides (only_percents (encode_all ns)) (
        λ h. a.sound (only_percents→Matches ns h),
        λ x. Matches→only_percents ns [] refl (percent_at_end refl refl (a.complete x)),
      )
  general_from-Decides (suc b) (suc f) m [] (c ∷ t) star l a =
      retry-Decides f m [] (c ∷ t) star
        (λ m' ms v s. general_from-Decides b f m' ms v s (omega arith)) a.saved (omega arith)
        (omega (arith, a.fuel)) (λ d. elim d [ ])
  general_from-Decides (suc b) (suc f) m (n ∷ ns) (c ∷ t) star l a = elim (ℕ_discrete n percent) [
    | yes p ↦ rw p (
        general_from-Decides b f m ns (c ∷ t) (some (encode_all ns, c ∷ t)) (omega arith) (
          Asks-percent f m ns (c ∷ t) (a.scalars.1)
            (λ x. rw p at (two_percents refl p (a.complete x)), λ d. a.sound (rw (← p) at d))
            a.text_bound (omega (arith, a.pattern_bound, length-append (encode n) (encode_all ns)))
            (omega (arith, a.fuel, length-append (encode n) (encode_all ns), length-encode n))))
    | no p ↦ elim (ℕ_discrete n underscore) [
      | yes u ↦ rw u (
          general_from-Decides b f m ns (past (c ∷ t)) star (omega arith) (record {
            sound = λ d. a.sound (one u d);
            complete = λ x. drop_one refl u (a.complete x);
            saved =
                Saved-on m (n ∷ ns) ns (c ∷ t) (past (c ∷ t)) star (one_inv u)
                  (omega (arith, length-past c t)) a.saved;
            scalars = a.scalars.1;
            text_bound = omega (arith, a.text_bound, length-past c t);
            pattern_bound =
                omega (arith, a.pattern_bound, length-append (encode n) (encode_all ns));
            fuel = omega (arith, a.fuel, length-append (encode n) (encode_all ns), length-encode n);
          }))
      | no u ↦
          char-Decides (suc f) m n ns (c ∷ t) star p u (omega arith) a
            (λ g m' ms v s h. general_from-Decides b g m' ms v s (omega arith))
            (pass_bytes (suc f) (encode n) (encode_all ns) (c ∷ t) star (encode-Plain n p u)
              (omega (arith, a.fuel, length-append (encode n) (encode_all ns))))
    ]
  ]

-- `MatchGeneral` ends, reads no character behind the end of the text, and answers rightly.
pub match_general-Decides :
    (ns : List ℕ) (t : Text)
    → All IsScalar ns
    → Decides (Matches ns t) (match_general (encode_all ns) t)
unfolding match_general
match_general-Decides ns t s =
    general_from-Decides (Matches ns t) (length (encode_all ns) + 1)
      (suc ((length t + 1) * (length (encode_all ns) + 1)))
      ((length t + 1) * (length (encode_all ns) + 1)) (length t) ns t none (omega arith)
      (record {
        sound = λ d. d;
        complete = leave refl;
        saved = λ d. d;
        scalars = s;
        text_bound = omega arith;
        pattern_bound = omega arith;
        fuel = grind arith;
      })
