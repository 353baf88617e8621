-- ===== src/Sql/Quote.antt =====
-- src/sql/unparse.cc: `Quote`, which writes a string literal or a quoted name.
use antb.Prelude.{ℕ, Bool, true, false, List, [], ◌∷◌, ◌++◌, ◌==◌, if◌then◌else◌}
use antb.Common.Int128.{Text}
pub mod RoundTrip

-- The loop: a quote is written twice.
unfoldable pub doubled : ℕ → Text → Text
doubled q [] = []
doubled q (c ∷ cs) = c ∷ (if c == q then q ∷ doubled q cs else doubled q cs)

unfoldable pub quote : Text → ℕ → Text
unfolding doubled
quote text q = q ∷ (doubled q text ++ q ∷ [])
