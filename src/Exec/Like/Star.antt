-- ===== src/Exec/Like/Star.antt =====
-- What a `%` of a LIKE pattern can stand for: why only the last one has to be tried again.
use antb.Prelude.{
  ℕ, ◌≡◌, ◌≢◌, refl, sym, ap, ◌∙◌, List, [], ◌∷◌, ◌++◌, length, length-append, ◌≤◌, arith,
}
use antb.Common.Int128.{Text}
use antb.Common.Utf8.Scalars.{IsScalar, encode}
use antb.Exec.Like.{percent, underscore, past}
use antb.Exec.Like.Pattern.{Matches, char, one, leave, extend, past-encode, length-past}

module _ {n : ℕ} {ns : List ℕ} where
  pub char_inv :
      {s : Text}
      → n ≢ percent
      → n ≢ underscore
      → Matches (n ∷ ns) s
      → (t : Text) × (s ≡ encode n ++ t) × Matches ns t
  char_inv p u (char _ _ e m) = (_, e, m)
  char_inv p u (one e _) = absurd (u e)
  char_inv p u (leave e _) = absurd (p e)
  char_inv p u (extend e _) = absurd (p e)

  pub one_inv :
      {c : ℕ} {t : Text} → n ≡ underscore → Matches (n ∷ ns) (c ∷ t) → Matches ns (past (c ∷ t))
  one_inv u (char _ v _ _) = absurd (v u)
  one_inv u (one _ m) = m
  one_inv u (leave e _) = absurd (omega arith)
  one_inv u (extend e _) = absurd (omega arith)

  pub no_one_at_end : {s : Text} → s ≡ [] → n ≡ underscore → ¬ Matches (n ∷ ns) s
  no_one_at_end e u (char _ v _ _) = v u
  no_one_at_end e u (one _ _) = cc
  no_one_at_end e u (leave p _) = absurd (omega arith)
  no_one_at_end e u (extend p _) = absurd (omega arith)

  pub percent_at_end : {s : Text} → s ≡ [] → n ≡ percent → Matches (n ∷ ns) s → Matches ns s
  percent_at_end e p (char q _ _ _) = absurd (q p)
  percent_at_end e p (one u _) = absurd (omega arith)
  percent_at_end e p (leave _ m) = m
  percent_at_end e p (extend _ _) = absurd (cc)

  pub has_to_extend :
      {c : ℕ} {t : Text}
      → n ≡ percent
      → Matches (n ∷ ns) (c ∷ t)
      → ¬ Matches ns (c ∷ t)
      → Matches (n ∷ ns) (past (c ∷ t))
  has_to_extend p (char q _ _ _) h = absurd (q p)
  has_to_extend p (one u _) h = absurd (omega arith)
  has_to_extend p (leave _ m) h = absurd (h m)
  has_to_extend p (extend _ m) h = m

  pub extend_past : (t : Text) → n ≡ percent → Matches (n ∷ ns) (past t) → Matches (n ∷ ns) t
  unfolding past
  extend_past [] p m = m
  extend_past (c ∷ t) p m = extend p m

module _ {m : ℕ} {ns : List ℕ} {t : Text} where
  pub behind_char :
      (r : Text)
      → m ≢ percent
      → m ≢ underscore
      → IsScalar m
      → t ≡ encode m ++ r
      → Matches (m ∷ ns) t
      → Matches ns r
  behind_char r q u s e d =
      let (r', e', d') = char_inv q u d in
      let same : r' ≡ r = sym (past-encode m r' s) ∙ ap past (sym e' ∙ e) ∙ past-encode m r s in
      rw (← same) d'

module _ {m n : ℕ} {ns : List ℕ} (p : n ≡ percent) where
  pub two_percents : {t : Text} → m ≡ percent → Matches (n ∷ m ∷ ns) t → Matches (m ∷ ns) t
  two_percents q (char h _ _ _) = absurd (h p)
  two_percents q (one u _) = absurd (omega arith)
  two_percents q (leave _ d) = d
  two_percents q (extend _ d) = extend q (two_percents q d)

  -- A `%` reaches behind any character that follows it in the pattern.
  skip_char :
      {t : Text}
      → m ≢ percent
      → m ≢ underscore
      → IsScalar m
      → Matches (n ∷ m ∷ ns) t
      → Matches (n ∷ ns) t
  skip_char q u s (char h _ _ _) = absurd (h p)
  skip_char q u s (one v _) = absurd (omega arith)
  skip_char q u s (leave {t} _ d) =
      let (r, e, d') = char_inv q u d in extend_past t p (rw (e, past-encode m r s) (leave p d'))
  skip_char q u s (extend _ d) = extend p (skip_char q u s d)

  pub drop_char :
      {t : Text} (r : Text)
      → m ≢ percent
      → m ≢ underscore
      → IsScalar m
      → t ≡ encode m ++ r
      → Matches (n ∷ m ∷ ns) t
      → Matches (n ∷ ns) r
  drop_char r q u s e (char h _ _ _) = absurd (h p)
  drop_char r q u s e (one v _) = absurd (omega arith)
  drop_char r q u s e (leave _ d) = leave p (behind_char r q u s e d)
  drop_char r q u s e (extend {c} {t} _ d) = rw (← past-encode m r s, ← e) (skip_char q u s d)

  skip_one : {t : Text} → m ≡ underscore → Matches (n ∷ m ∷ ns) t → Matches (n ∷ ns) t
  skip_one u (char h _ _ _) = absurd (h p)
  skip_one u (one v _) = absurd (omega arith)
  skip_one u (leave {t = []} _ d) = absurd (no_one_at_end refl u d)
  skip_one u (leave {t = c ∷ t} _ d) = extend p (leave p (one_inv u d))
  skip_one u (extend _ d) = extend p (skip_one u d)

  pub drop_one :
      {c : ℕ} {t : Text}
      → m ≡ underscore
      → Matches (n ∷ m ∷ ns) (c ∷ t)
      → Matches (n ∷ ns) (past (c ∷ t))
  drop_one u (char h _ _ _) = absurd (h p)
  drop_one u (one v _) = absurd (omega arith)
  drop_one u (leave _ d) = leave p (one_inv u d)
  drop_one u (extend _ d) = skip_one u d

  -- A character of the pattern has room in the text.
  pub fits_char :
      {t : Text}
      → m ≢ percent
      → m ≢ underscore
      → Matches (n ∷ m ∷ ns) t
      → length (encode m) ≤ length t
  fits_char q u (char h _ _ _) = absurd (h p)
  fits_char q u (one v _) = absurd (omega arith)
  fits_char q u (leave {t} _ d) =
      let (r, e, _) = char_inv q u d in omega (arith, ap length e, length-append (encode m) r)
  fits_char q u (extend {c} {t} _ d) = omega (arith, fits_char q u d, length-past c t)
