-- ===== src/Plan/KeyType/Laws.antt =====
-- The key type of two types holds every value of both.
use antb.Prelude.{ℕ, ◌-◌, ◌≤◌, ◌≡◌, refl, true, some, arith}
use antb.Plan.Types.{
  TypeId, small_int, integer, big_int, u_small_int, huge_int, decimal, LogicalType, of_id,
  is_integer, IsValid,
}
use antb.Plan.KeyType.{combine_integers, key_type}
use antb.Plan.Widening.{is_exact_widening, integer_digits}

abbrev type_of : TypeId → ℕ → ℕ → LogicalType
type_of i w s = record { id = i; width = w; scale = s }

abbrev Widens : LogicalType → LogicalType → LogicalType → Type 0
Widens a b k = (is_exact_widening a k ≡ true) × (is_exact_widening b k ≡ true)

digits_table :
    (integer_digits (of_id small_int) ≡ 5)
    × (integer_digits (of_id u_small_int) ≡ 5)
    × (integer_digits (of_id integer) ≡ 10)
    × (integer_digits (of_id big_int) ≡ 19)
    × (integer_digits (of_id huge_int) ≡ 38)
unfolding integer_digits
digits_table = (refl, refl, refl, refl, refl)

combine_integers-widens :
    (i j : TypeId)
    → is_integer (of_id i) ≡ true
    → is_integer (of_id j) ≡ true
    → Widens (of_id i) (of_id j) (combine_integers (of_id i) (of_id j))
unfolding is_exact_widening combine_integers
combine_integers-widens small_int small_int p q = (refl, refl)
combine_integers-widens i j p q = ground arith

-- The DECIMAL of an exact number, and what makes it hold that number's values.
exact_digits :
    (i : TypeId) (w s : ℕ)
    → IsValid (type_of i w s)
    → is_integer (type_of i w s) ≡ true
    → (w ≡ 0) × (s ≡ 0)
unfolding is_integer
exact_digits decimal w s h p = cc
exact_digits i w s h p = ground arith

widens_integer :
    (i : TypeId) (k l : ℕ)
    → is_integer (of_id i) ≡ true
    → integer_digits (of_id i) ≤ k - l
    → is_exact_widening (of_id i) (type_of decimal k l) ≡ true
unfolding is_exact_widening
widens_integer decimal k l p h = cc
widens_integer i k l p h = ground arith

widens_decimal :
    (w s k l : ℕ)
    → s ≤ l
    → w - s ≤ k - l
    → is_exact_widening (type_of decimal w s) (type_of decimal k l) ≡ true
unfolding is_exact_widening
widens_decimal w s k l p h = ground arith

key_type-widens_at :
    (i j : TypeId) (w s v r : ℕ) {k : LogicalType}
    → IsValid (type_of i w s)
    → IsValid (type_of j v r)
    → key_type (type_of i w s) (type_of j v r) ≡ some k
    → Widens (type_of i w s) (type_of j v r) k
unfolding key_type is_exact_widening
key_type-widens_at decimal decimal w s v r ha hb e = ground arith
key_type-widens_at decimal j w s v r ha hb e = ground arith
key_type-widens_at i decimal w s v r ha hb e = ground arith
key_type-widens_at i j w s v r ha hb e = ground arith

-- Where two valid types have a key type, both widen to it exactly by the cast rules of the plan.
pub key_type-widens :
    (a b : LogicalType) {k : LogicalType}
    → IsValid a
    → IsValid b
    → key_type a b ≡ some k
    → (is_exact_widening a k ≡ true) × (is_exact_widening b k ≡ true)
key_type-widens a b ha hb e = key_type-widens_at a.id b.id a.width a.scale b.width b.scale ha hb e
