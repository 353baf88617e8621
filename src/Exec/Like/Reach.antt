-- ===== src/Exec/Like/Reach.antt =====
-- A `%` reaches every place of the text where a character of the pattern can stand.
use antb.Prelude.{
  ℕ, zero, suc, ◌+◌, ◌-◌, ◌≤◌, ◌<◌, ◌≡◌, ◌≢◌, refl, sym, ap, ◌∙◌, List, [], ◌∷◌, ◌++◌, length,
  length-take, drop, All, arith, if_elim, ltb, drop-drop, take-append-drop,
}
use native.Mathlib.Decide.{dec_lt}
use antb.Common.Int128.{Text}
use antb.Common.Utf8.{utf8_sequence_length, utf8_sequence_length-within, sequence_of}
use antb.Common.Utf8.Scalars.{encode}
use antb.Common.Utf8.Sound.{utf8_sequence_length-StartsScalar}
use antb.Exec.Like.{percent, underscore, char_length, past}
use antb.Exec.Like.Star.{extend_past}
use antb.Exec.Like.Pattern.{Matches, done, char, one, leave, extend}

-- A byte inside a character.
abbrev Inner : ℕ → Type 0
Inner b = (128 ≤ b) × (b < 192)

char_length-Inner : (b : ℕ) (t : Text) → Inner b → char_length (b ∷ t) ≡ 1
unfolding char_length utf8_sequence_length sequence_of
char_length-Inner b t h = ground arith

encode-first : (n b : ℕ) (s t : Text) → encode n ++ s ≡ b ∷ t → ¬ Inner b
encode-first n b s t =
    if_elim (λ w. w ++ s ≡ b ∷ t → ¬ Inner b) (ltb n 128) _ _ (λ l e h. ground arith)
      (λ _.
        if_elim (λ w. w ++ s ≡ b ∷ t → ¬ Inner b) (ltb n 2_048) _ _ (λ _ e h. ground arith)
          (λ _.
            if_elim (λ w. w ++ s ≡ b ∷ t → ¬ Inner b) (ltb n 65_536) _ _ (λ _ e h. ground arith)
              (λ _ e h. ground arith)))

-- The bytes behind the first one.
abbrev InnerTail : Text → Type 0
InnerTail [] = Unit
InnerTail (c ∷ w) = All Inner w

encode-InnerTail : (n : ℕ) → InnerTail (encode n)
encode-InnerTail n =
    if_elim InnerTail (ltb n 128) _ _ (λ _. tt)
      (λ _.
        if_elim InnerTail (ltb n 2_048) _ _ (λ _. ((omega arith, omega arith), tt))
          (λ _. if_elim InnerTail (ltb n 65_536) _ _ (λ _. omega arith) (λ _. omega arith)))

drop-All :
    (P : ℕ → Type 0) (k : ℕ) (w u : Text)
    → All P w
    → k < length w
    → (b : ℕ) × (t : Text) × (drop k (w ++ u) ≡ b ∷ t) × P b
drop-All P k [] u a h = absurd (omega arith)
drop-All P zero (c ∷ w) u (p, a) h = (c, w ++ u, refl, p)
drop-All P (suc k) (c ∷ w) u (p, a) h = drop-All P k w u a (omega arith)

-- Inside a character of the text.
inside :
    (t : Text) (k : ℕ)
    → 0 < k
    → k < char_length t
    → (b : ℕ) × (s : Text) × (drop k t ≡ b ∷ s) × Inner b
unfolding char_length
inside [] k p l = absurd (omega arith)
inside (c ∷ cs) k p l =
    let n = utf8_sequence_length (c ∷ cs) in
    let whole : char_length (c ∷ cs) ≡ n = ground arith in
    let (x, _, _, e) = utf8_sequence_length-StartsScalar (c ∷ cs) (omega (arith, whole)) in
    in_encoding (encode x) (drop n (c ∷ cs)) k (encode-InnerTail x)
      (sym (take-append-drop n (c ∷ cs)) ∙ ap (λ (w : Text). w ++ drop n (c ∷ cs)) e) p
      (omega (
        arith,
        ap length e,
        length-take n (c ∷ cs),
        utf8_sequence_length-within (c ∷ cs),
        whole,
        l,
      ))
  where
    in_encoding :
        (w u : Text) (k : ℕ)
        → InnerTail w
        → c ∷ cs ≡ w ++ u
        → 0 < k
        → k < length w
        → (b : ℕ) × (s : Text) × (drop k (c ∷ cs) ≡ b ∷ s) × Inner b
    in_encoding [] u k a e p l = absurd (omega arith)
    in_encoding (d ∷ w) u zero a e p l = absurd (omega arith)
    in_encoding (d ∷ w) u (suc k) a e p l =
        let (b, s, f, i) = drop-All Inner k w u a (omega arith) in
        (b, s, ap (drop (suc k)) e ∙ f, i)

-- No `_` stands in the pattern.
abbrev pub NoOne : List ℕ → Type 0
NoOne ns = All (λ n. n ≢ underscore) ns

behind-Inner : (c : ℕ) (r : Text) → Inner c → past (c ∷ r) ≡ r
unfolding past
behind-Inner c r i = rw (char_length-Inner c r i) refl

at_end : (t : Text) (k : ℕ) → k ≡ char_length t → drop k t ≡ past t
unfolding past
at_end t k e = ap (λ (n : ℕ). drop n t) e

-- A pattern that matches from inside a character starts with a `%`, which can start before it.
from_inside :
    (k : ℕ) (ns : List ℕ) (s t : Text)
    → NoOne ns
    → 0 < k
    → k < char_length t
    → s ≡ drop k t
    → Matches ns s
    → Matches (percent ∷ ns) t
from_inside k ns s t a p l e done = let (b, r, f, _) = inside t k p l in absurd (cc)
from_inside k ns s t a p l e (char {n} _ _ q m) =
    let (b, r, f, i) = inside t k p l in absurd (encode-first n b _ r (sym q ∙ e ∙ f) i)
from_inside k ns s t a p l e (one v m) = absurd (a.0 v)
from_inside k ns s t a p l e (leave {n} {ns = ms} q m) =
    leave refl (rw q (from_inside k ms s t (a.1) p l e m))
from_inside k ns s t a p l e (extend {n} {c} {ns = ms} {t = r} q m) =
    let (b, r', f, i) = inside t k p l in
    let inner : Inner c = ground (arith, e, f) in
    let on : past (c ∷ r) ≡ drop (k + 1) t =
      behind-Inner c r inner ∙ ap (drop 1) e ∙ drop-drop k 1 t in
    elim (dec_lt (k + 1) (char_length t)) [
      | yes h ↦ from_inside (k + 1) (n ∷ ms) (past (c ∷ r)) t a (omega arith) h on m
      | no h ↦
          let last : k + 1 ≡ char_length t = omega arith in
          extend_past t refl (leave refl (rw (← at_end t (k + 1) last, ← on) m))
    ]

char_length-pos : (t : Text) → 0 < char_length t
unfolding char_length
char_length-pos [] = omega arith
char_length-pos (c ∷ t) = ground arith

drop-past : (k : ℕ) (t : Text) → char_length t ≤ k → drop (k - char_length t) (past t) ≡ drop k t
unfolding past
drop-past k t l =
    let e : char_length t + (k - char_length t) ≡ k = omega arith in
    drop-drop (char_length t) (k - char_length t) t ∙ ap (λ (n : ℕ). drop n t) e

-- What matches from any byte of the text on matches behind a `%`.
pub reach :
    (b k : ℕ) (ns : List ℕ) (t : Text)
    → NoOne ns
    → k ≤ b
    → Matches ns (drop k t)
    → Matches (percent ∷ ns) t
reach b zero ns t a l m = leave refl m
reach zero (suc k) ns t a l m = absurd (omega arith)
reach (suc b) (suc k) ns t a l m = elim (dec_lt (suc k) (char_length t)) [
  | yes h ↦ from_inside (suc k) ns (drop (suc k) t) t a (omega arith) h refl m
  | no h ↦ extend_past t refl (
      reach b (suc k - char_length t) ns (past t) a (omega (arith, char_length-pos t))
        (rw (drop-past (suc k) t (omega arith)) m))
]
