-- ===== src/Exec/Like/Pieces.antt =====
-- src/exec/like.cc: a pattern without `_` matches a text exactly if its pieces between the `%`s
-- stand in it, one behind the other.
use antb.Prelude.{
  ℕ, ◌≡◌, ◌↔◌, refl, sym, ap, ◌∙◌, List, [], ◌∷◌, ◌++◌, length, drop-append, take, arith, ◌==◌,
  take-append-drop, Bool-cases, inl, inr,
}
use native.Mathlib.Decide.{ℕ_discrete}
use mathlib.Core.List.{append_assoc}
use antb.Common.Int128.{Text}
use antb.Common.Utf8.Scalars.{encode}
use antb.Exec.Like.{percent, char_length, past, push, pieces}
use antb.Exec.Like.Pattern.{Matches, done, char, one, leave, extend, encode_all}
use antb.Exec.Like.General.{Plain, encode-Plain}
use antb.Exec.Like.Reach.{NoOne, reach}

-- The first piece stands at the start, the last one at the end, and the others in between.
abbrev pub Fits : List Text → Text → Type 0
Fits [] t = ⊥
Fits (q ∷ []) t = t ≡ q
Fits (q ∷ r ∷ qs) t =
    (u : Text) × (t ≡ q ++ u) × (v : Text) × (w : Text) × (u ≡ v ++ w) × Fits (r ∷ qs) w

abbrev push_all : Text → List Text → List Text
push_all [] qs = qs
push_all (c ∷ w) qs = push c (push_all w qs)

pieces-Plain : (w p : Text) → Plain w → pieces (w ++ p) ≡ push_all w (pieces p)
unfolding pieces
pieces-Plain [] p a = refl
pieces-Plain (c ∷ w) p ((a, b), h) = ground (arith, pieces-Plain w p h)

-- There is a piece at least.
pub pieces-some : (p : Text) → (q : Text) × (qs : List Text) × (pieces p ≡ q ∷ qs)
unfolding pieces
pieces-some [] = ([], [], refl)
pieces-some (c ∷ p) = elim (Bool-cases (c == percent)) [
  | inl e ↦ ([], pieces p, rw e refl)
  | inr e ↦ let (q, qs, h) = pieces-some p in (c ∷ q, qs, rw (e, h) refl)
]

push_all-some : (w q : Text) (qs : List Text) → push_all w (q ∷ qs) ≡ (w ++ q) ∷ qs
push_all-some [] q qs = refl
push_all-some (c ∷ w) q qs = rw (push_all-some w q qs) refl

Fits-prefix :
    (w q : Text) (qs : List Text) (t : Text) → Fits (q ∷ qs) t → Fits ((w ++ q) ∷ qs) (w ++ t)
Fits-prefix w q [] t e = ap (λ (x : Text). w ++ x) e
Fits-prefix w q (r ∷ qs) t (u, e, v, x, f, h) =
    (u, rw (append_assoc w q u) (ap (λ (x : Text). w ++ x) e), v, x, f, h)

Fits-prefix_inv :
    (w q : Text) (qs : List Text) (t : Text)
    → Fits ((w ++ q) ∷ qs) t
    → (s : Text) × (t ≡ w ++ s) × Fits (q ∷ qs) s
Fits-prefix_inv w q [] t e = (q, e, refl)
Fits-prefix_inv w q (r ∷ qs) t (u, e, v, x, f, h) =
    (q ++ u, rw (← append_assoc w q u) e, (u, refl, v, x, f, h))

pieces-percent : (n : ℕ) (p : Text) → n ≡ percent → pieces (encode n ++ p) ≡ [] ∷ pieces p
unfolding pieces
pieces-percent n p e = rw e refl

-- Behind a `%` the pieces can stand anywhere.
Fits-anywhere : (p t v w : Text) → t ≡ v ++ w → Fits (pieces p) w → Fits ([] ∷ pieces p) t
Fits-anywhere p t v w e h = let (q, qs, f) = pieces-some p in rw f (t, refl, v, w, e, rw f at h)

Fits-anywhere_inv :
    (p t : Text)
    → Fits ([] ∷ pieces p) t
    → (v : Text) × (w : Text) × (t ≡ v ++ w) × Fits (pieces p) w
Fits-anywhere_inv p t h =
    let (q, qs, f) = pieces-some p in let (u, e, v, w, g, k) = (rw f at h) in (v, w, e ∙ g, rw f k)

past-split : (t : Text) → t ≡ take (char_length t) t ++ past t
unfolding past
past-split t = sym (take-append-drop (char_length t) t)

Matches→Fits : (ns : List ℕ) (t : Text) → NoOne ns → Matches ns t → Fits (pieces (encode_all ns)) t
unfolding pieces
Matches→Fits [] t a done = refl
Matches→Fits (n ∷ ns) s (_, a) (char {t} p u e m) =
    let (q, qs, f) = pieces-some (encode_all ns) in
    rw (e, pieces-Plain (encode n) (encode_all ns) (encode-Plain n p u), f, push_all-some)
      (Fits-prefix (encode n) q qs t (rw f at (Matches→Fits ns t a m)))
Matches→Fits (n ∷ ns) t (b, a) (one u m) = absurd (b u)
Matches→Fits (n ∷ ns) t (b, a) (leave e m) =
    rw (pieces-percent n (encode_all ns) e)
      (Fits-anywhere (encode_all ns) t [] t refl (Matches→Fits ns t a m))
Matches→Fits (n ∷ ns) s (b, a) (extend {c} {t} e m) =
    let rest : Fits ([] ∷ pieces (encode_all ns)) (past (c ∷ t)) =
      rw (pieces-percent n (encode_all ns) e) at (Matches→Fits (n ∷ ns) (past (c ∷ t)) (b, a) m) in
    let (v, w, f, h) = Fits-anywhere_inv (encode_all ns) (past (c ∷ t)) rest in
    rw (pieces-percent n (encode_all ns) e) (
      Fits-anywhere (encode_all ns) (c ∷ t) (take (char_length (c ∷ t)) (c ∷ t) ++ v) w
        (past-split (c ∷ t)
          ∙ ap (λ (x : Text). take (char_length (c ∷ t)) (c ∷ t) ++ x) f
          ∙ sym (append_assoc (take (char_length (c ∷ t)) (c ∷ t)) v w))
        h)

renamed :
    {n : ℕ} {ns : List ℕ} {t : Text} → n ≡ percent → Matches (percent ∷ ns) t → Matches (n ∷ ns) t
renamed e m = rw e m

Fits→Matches : (ns : List ℕ) (t : Text) → NoOne ns → Fits (pieces (encode_all ns)) t → Matches ns t
unfolding pieces
Fits→Matches [] t a e = rw e done
Fits→Matches (n ∷ ns) t (b, a) h = elim (ℕ_discrete n percent) [
  | yes e ↦
      let (v, w, f, k) =
        Fits-anywhere_inv (encode_all ns) t (rw (pieces-percent n (encode_all ns) e) at h) in
      renamed e (
        reach (length v) (length v) ns t a (omega arith)
          (rw (f, drop-append v w) (Fits→Matches ns w a k)))
  | no e ↦
      let (q, qs, f) = pieces-some (encode_all ns) in
      let parts : Fits ((encode n ++ q) ∷ qs) t =
        rw (pieces-Plain (encode n) (encode_all ns) (encode-Plain n e b), f, push_all-some) at h in
      let (s, g, k) = Fits-prefix_inv (encode n) q qs t parts in
      char e b g (Fits→Matches ns s a (rw f k))
]

-- A pattern without `_` matches a text exactly if its pieces fit.
pub Matches_iff_Fits :
    (ns : List ℕ) (t : Text) → NoOne ns → Matches ns t ↔ Fits (pieces (encode_all ns)) t
Matches_iff_Fits ns t a = (Matches→Fits ns t a, Fits→Matches ns t a)
