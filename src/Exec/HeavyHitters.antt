-- ===== src/Exec/HeavyHitters.antt =====
-- src/exec/heavy_hitters.cc: the frequent values of a stream in bounded memory. The hash map is an
-- association list with a counter for each key. `Above` computes with doubles and is left out.
use antb.Prelude.{
  ℕ, ◌+◌, ◌-◌, Bool, true, false, ltb, ◌==◌, max, List, [], ◌∷◌, length, if◌then◌else◌,
}
pub mod Bounds
pub mod Counters

abbrev pub CounterMap : Type 0
CounterMap = List (ℕ × ℕ)

pub record HeavyHitters : Type 0 where
  pub capacity : ℕ
  pub counters : CounterMap
  pub count : ℕ

unfoldable pub empty : ℕ → HeavyHitters
empty capacity = record { capacity = max capacity 1; counters = []; count = 0 }

-- `counters_.find(value) != counters_.end()`.
abbrev pub has : ℕ → CounterMap → Bool
has v [] = false
has v ((k, n) ∷ cs) = if k == v then true else has v cs

-- `++it->second`.
unfoldable pub increment : ℕ → CounterMap → CounterMap
increment v [] = []
increment v ((k, n) ∷ cs) = if k == v then (k, n + 1) ∷ cs else (k, n) ∷ increment v cs

-- `erase_if`: every counter goes down by one, and is erased at 0.
unfoldable pub decrement_all : CounterMap → CounterMap
decrement_all [] = []
decrement_all ((k, n) ∷ cs) =
    if (n - 1) == 0 then decrement_all cs else (k, n - 1) ∷ decrement_all cs

abbrev pub with_value : ℕ → ℕ → CounterMap → CounterMap
with_value v capacity cs =
    if has v cs
    then increment v cs
    else if ltb (length cs) capacity
    then (v, 1) ∷ cs
    else decrement_all cs

unfoldable pub add : ℕ → HeavyHitters → HeavyHitters
unfolding increment decrement_all
add v h = record h { counters = with_value v h.capacity h.counters; count = h.count + 1 }

-- A stream, its first value added first.
unfoldable pub add_all : List ℕ → HeavyHitters → HeavyHitters
unfolding add
add_all [] h = h
add_all (v ∷ vs) h = add_all vs (add v h)
