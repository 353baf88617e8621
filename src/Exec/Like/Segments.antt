-- ===== src/Exec/Like/Segments.antt =====
-- src/exec/like.cc: the searches of `MatchSegments` find the pieces of a pattern in the text.
use antb.Prelude.{
  ℕ, suc, ◌+◌, ◌-◌, ◌≤◌, ◌≡◌, ◌↔◌, refl, sym, ap, ap₂, ◌∙◌, true, some, List, [], ◌∷◌, ◌++◌, length,
  length-append, drop, drop-append, take, arith, drop-drop, take-append-drop, ==_iff, Bool-cases,
  Option-cases, inl, inr,
}
use mathlib.Core.List.{append_assoc}
use antb.Common.Int128.{Text}
use antb.Exec.Like.{starts_with, same_bytes, find_text, match_middle, non_empty}

same_bytes→eq : (t q : Text) → same_bytes t q ≡ true → t ≡ q
unfolding same_bytes
same_bytes→eq [] [] h = refl
same_bytes→eq [] (d ∷ q) h = absurd (ground arith)
same_bytes→eq (c ∷ t) [] h = absurd (ground arith)
same_bytes→eq (c ∷ t) (d ∷ q) h =
    ap₂ (λ (x : ℕ) (xs : Text). x ∷ xs) ((==_iff c d).0 (ground arith))
      (same_bytes→eq t q (ground arith))

same_bytes_refl : (t : Text) → same_bytes t t ≡ true
unfolding same_bytes
same_bytes_refl [] = refl
same_bytes_refl (c ∷ t) = ground (arith, same_bytes_refl t)

pub same_bytes_iff : (t q : Text) → (same_bytes t q ≡ true) ↔ (t ≡ q)
same_bytes_iff t q = (same_bytes→eq t q, λ e. rw e (same_bytes_refl q))

pub starts_with→eq : (t q : Text) → starts_with t q ≡ true → t ≡ q ++ drop (length q) t
unfolding starts_with
starts_with→eq t [] h = refl
starts_with→eq [] (d ∷ q) h = absurd (ground arith)
starts_with→eq (c ∷ t) (d ∷ q) h =
    ap₂ (λ (x : ℕ) (xs : Text). x ∷ xs) ((==_iff c d).0 (ground arith))
      (starts_with→eq t q (ground arith))

pub starts_with-append : (q u : Text) → starts_with (q ++ u) q ≡ true
unfolding starts_with
starts_with-append [] u = ground arith
starts_with-append (d ∷ q) u = ground (arith, starts_with-append q u)

-- What is found is there.
find_text-some :
    (q t : Text) (k : ℕ)
    → find_text q t ≡ some k
    → (v : Text) × (u : Text) × (t ≡ v ++ (q ++ u)) × (length v ≡ k)
unfolding find_text
find_text-some q [] k h = elim (Bool-cases (starts_with [] q)) [
  | inl e ↦ ([], drop (length q) [], starts_with→eq [] q e, ground arith)
  | inr e ↦ absurd (ground arith)
]
find_text-some q (c ∷ t) k h = elim (Bool-cases (starts_with (c ∷ t) q)) [
  | inl e ↦ ([], drop (length q) (c ∷ t), starts_with→eq (c ∷ t) q e, ground arith)
  | inr e ↦ elim (Option-cases (find_text q t)) [
    | inl f ↦ absurd (ground arith)
    | inr (j, f) ↦
        let (v, u, g, l) = find_text-some q t j f in
        (c ∷ v, u, ap (λ (x : Text). c ∷ x) g, ground arith)
  ]
]

find_text-start : (q t : Text) → starts_with t q ≡ true → find_text q t ≡ some 0
unfolding find_text
find_text-start q [] h = rw h refl
find_text-start q (c ∷ t) h = rw h refl

-- What is there is found, no later than there.
find_text-le :
    (q t v u : Text) → t ≡ v ++ (q ++ u) → (k : ℕ) × (find_text q t ≡ some k) × (k ≤ length v)
unfolding find_text
find_text-le q t [] u e = (0, find_text-start q t (rw e (starts_with-append q u)), omega arith)
find_text-le q [] (x ∷ v) u e = absurd (cc)
find_text-le q (c ∷ t) (x ∷ v) u e =
    let (k, f, l) = find_text-le q t v u (ap (drop 1) e) in
    elim (Bool-cases (starts_with (c ∷ t) q)) [
      | inl g ↦ (0, rw g refl, omega arith)
      | inr g ↦ (suc k, rw (g, f) refl, omega arith)
    ]

-- The pieces stand in the text, one behind the other.
abbrev pub InOrder : List Text → Text → Type 0
InOrder [] w = Unit
InOrder (q ∷ qs) w = (v : Text) × (u : Text) × (w ≡ v ++ (q ++ u)) × InOrder qs u

InOrder-longer : (qs : List Text) (x u : Text) → InOrder qs u → InOrder qs (x ++ u)
InOrder-longer [] x u h = tt
InOrder-longer (q ∷ qs) x u (v, r, e, h) =
    (x ++ v, r, rw (append_assoc x v (q ++ r)) (ap (λ (y : Text). x ++ y) e), h)

-- An empty piece stands anywhere.
non_empty_iff : (qs : List Text) (w : Text) → InOrder (non_empty qs) w ↔ InOrder qs w
unfolding non_empty
non_empty_iff [] w = (λ h. h, λ h. h)
non_empty_iff ([] ∷ qs) w = (
  λ h. ([], w, refl, (non_empty_iff qs w).0 h),
  λ (v, u, e, h). rw e (InOrder-longer (non_empty qs) v u ((non_empty_iff qs u).1 h)),
)
non_empty_iff ((c ∷ q) ∷ qs) w = (
  λ (v, u, e, h). (v, u, e, (non_empty_iff qs u).0 h),
  λ (v, u, e, h). (v, u, e, (non_empty_iff qs u).1 h),
)

drop-found : (q w v u : Text) (k : ℕ) → w ≡ v ++ (q ++ u) → length v ≡ k → drop (k + length q) w ≡ u
drop-found q w v u k e l =
    let n : k + length q ≡ length (v ++ q) = omega (arith, length-append v q) in
    rw (n, e, ← append_assoc v q u) (drop-append (v ++ q) u)

match_middle→InOrder : (qs : List Text) (w : Text) → match_middle qs w ≡ true → InOrder qs w
unfolding match_middle
match_middle→InOrder [] w h = tt
match_middle→InOrder (q ∷ qs) w h = elim (Option-cases (find_text q w)) [
  | inl e ↦ cc (rw e at h)
  | inr (k, e) ↦
      let (v, u, f, l) = find_text-some q w k e in
      (v, u, f, match_middle→InOrder qs u (rw (e, drop-found q w v u k f l) at h))
]

-- The first place that is found leaves at least as much of the text as any other.
leaves_more :
    (w v q u v' u' : Text)
    → w ≡ v ++ (q ++ u)
    → w ≡ v' ++ (q ++ u')
    → length v ≤ length v'
    → (x : Text) × (u ≡ x ++ u')
leaves_more w v q u v' u' e f l =
    let n = length v' - length v in
    let sum : length v + length q + n ≡ length v' + length q = omega arith in
    let rest : drop n u ≡ u' =
      ap (drop n) (sym (drop-found q w v u (length v) e refl))
      ∙ drop-drop (length v + length q) n w
      ∙ ap (λ (k : ℕ). drop k w) sum
      ∙ drop-found q w v' u' (length v') f refl in
    (take n u, sym (take-append-drop n u) ∙ ap (λ (y : Text). take n u ++ y) rest)

InOrder→match_middle : (qs : List Text) (w : Text) → InOrder qs w → match_middle qs w ≡ true
unfolding match_middle
InOrder→match_middle [] w h = refl
InOrder→match_middle (q ∷ qs) w (v', u', e, h) =
    let (k, f, l) = find_text-le q w v' u' e in
    let (v, u, g, m) = find_text-some q w k f in
    let (x, y) = leaves_more w v q u v' u' g e (omega arith) in
    rw (f, drop-found q w v u k g m) (InOrder→match_middle qs u (rw y (InOrder-longer qs x u' h)))

pub match_middle_iff :
    (qs : List Text) (w : Text) → (match_middle (non_empty qs) w ≡ true) ↔ InOrder qs w
match_middle_iff qs w = (
  λ h. (non_empty_iff qs w).0 (match_middle→InOrder (non_empty qs) w h),
  λ h. InOrder→match_middle (non_empty qs) w ((non_empty_iff qs w).1 h),
)
