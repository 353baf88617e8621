-- ===== src/Exec/PartPruning.antt =====
-- src/exec/part_pruning.cc: which parts of a table a scan may skip, by the statistics of its footer.
use antb.Prelude.{
  ℕ, zero, suc, ◌+◌, ◌≤◌, ◌≡◌, Bool, true, false, not, ◌&&◌, ◌||◌, ltb, leb, ◌==◌, Option, none,
  some, List, [], ◌∷◌, get_elem?, if◌then◌else◌,
}
use antb.Prelude.Int.{ℤ, pos, negsuc, ltb_ℤ, leb_ℤ}
use antb.Plan.Types.{LogicalType, of_id, varchar, decimal, is, same_type, has_comparable_statistics}
use antb.Plan.Predicate.{
  CompareOp, eq, ne, lt, le, gt, ge, Value, int, Constant, BoundColumn, Predicate, Kind,
  compare_constant, compare_columns, in_list, is_not_null, never,
}
pub mod Laws
pub mod Keep

-- The counts are at least 0.
pub record PartStats : Type 0 where
  pub min : Option ℤ
  pub max : Option ℤ
  pub null_count : ℕ
  pub rows : ℕ

-- What the scan asks of a table: the number of its parts, and the statistics of a field of a part.
pub record Table : Type 0 where
  pub num_parts : ℕ
  pub part_stats : ℕ → ℤ → Option PartStats

abbrev int_of : Value → Option ℤ
int_of (int x) = some x
int_of _ = none

unfoldable pub comparable_with : Constant → LogicalType → Option ℤ
comparable_with c column =
    if not (has_comparable_statistics c.type)
    then none
    else if is c.type decimal && not (same_type c.type column)
    then none
    else int_of c.value

abbrev pub column_type : Option BoundColumn → LogicalType
column_type none = of_id varchar
column_type (some c) = c.type

-- No value between `lo` and `hi` stands in the relation to `c`.
abbrev pub excludes : CompareOp → ℤ → ℤ → ℤ → Bool
excludes eq c lo hi = ltb_ℤ c lo || ltb_ℤ hi c
excludes ne c lo hi = (leb_ℤ lo c && leb_ℤ c lo) && (leb_ℤ hi c && leb_ℤ c hi)
excludes lt c lo hi = leb_ℤ c lo
excludes le c lo hi = ltb_ℤ c lo
excludes gt c lo hi = leb_ℤ hi c
excludes ge c lo hi = ltb_ℤ hi c

abbrev pub compare_excludes : CompareOp → Option ℤ → Option ℤ → Option ℤ → Bool
compare_excludes op (some c) (some lo) (some hi) = excludes op c lo hi
compare_excludes op c lo hi = false

-- Every value of the list is a number outside the bounds.
unfoldable pub all_outside : List Constant → LogicalType → ℤ → ℤ → Bool
all_outside [] column lo hi = true
all_outside (v ∷ vs) column lo hi = elim (comparable_with v column) [
  | none ↦ false
  | some x ↦ (ltb_ℤ x lo || ltb_ℤ hi x) && all_outside vs column lo hi
]

abbrev pub list_excludes : List Constant → LogicalType → Option ℤ → Option ℤ → Bool
list_excludes vs column (some lo) (some hi) = all_outside vs column lo hi
list_excludes vs column lo hi = false

abbrev never_true_kind : Kind → Predicate → PartStats → Bool → Bool
never_true_kind compare_constant p s all_null =
    all_null
    || compare_excludes p.op (comparable_with p.constant (column_type p.column)) s.min s.max
never_true_kind in_list p s all_null =
    all_null || list_excludes p.values (column_type p.column) s.min s.max
never_true_kind is_not_null p s all_null = all_null
never_true_kind _ p s all_null = false

unfoldable pub never_true : Predicate → PartStats → Bool
never_true p s = if s.rows == 0 then false else never_true_kind p.kind p s (leb s.rows s.null_count)

abbrev is_never : Kind → Bool
is_never never = true
is_never _ = false

-- The table field of a column of the scan's output, if its index is one.
abbrev pub field_at : List ℤ → ℤ → Option ℤ
field_at fields (negsuc i) = none
field_at fields (pos i) = get_elem? fields i

abbrev pub field_of : List ℤ → Option BoundColumn → Option ℤ
field_of fields none = none
field_of fields (some c) = field_at fields c.index

abbrev pub stats_exclude : Predicate → Option PartStats → Bool
stats_exclude p none = false
stats_exclude p (some s) = never_true p s

abbrev pub field_excludes : Table → ℕ → Predicate → Option ℤ → Bool
field_excludes t part p none = false
field_excludes t part p (some f) = stats_exclude p (t.part_stats part f)

abbrev pub predicate_excludes : Table → ℕ → List ℤ → Predicate → Bool
predicate_excludes t part fields p =
    if is_never p.kind then true else field_excludes t part p (field_of fields p.column)

unfoldable pub part_may_match : Table → ℕ → List ℤ → List Predicate → Bool
part_may_match t part fields [] = true
part_may_match t part fields (p ∷ ps) =
    not (predicate_excludes t part fields p) && part_may_match t part fields ps

abbrev no_predicates : List Predicate → Bool
no_predicates [] = true
no_predicates (_ ∷ _) = false

-- The loop from `part` with `left` parts to go.
unfoldable pub kept_from : Table → List ℤ → List Predicate → ℕ → ℕ → List ℕ
unfolding part_may_match
kept_from t fields ps part zero = []
kept_from t fields ps part (suc left) =
    let rest = kept_from t fields ps (part + 1) left in
    if no_predicates ps || part_may_match t part fields ps then part ∷ rest else rest

unfoldable pub kept_parts : Table → List ℤ → List Predicate → List ℕ
unfolding kept_from
kept_parts t fields ps = kept_from t fields ps 0 t.num_parts

-- The first sort key of a top-N, and whether a part can hold a row before the bound.
pub record SortKey : Type 0 where
  pub column : BoundColumn
  pub descending : Bool
  pub nulls_first : Bool

abbrev reaches : Bool → Option ℤ → Option ℤ → ℤ → Bool
reaches descending (some lo) (some hi) bound = if descending then leb_ℤ bound hi else leb_ℤ lo bound
reaches descending lo hi bound = false

unfoldable pub part_may_beat : PartStats → SortKey → ℤ → Bool
part_may_beat s key bound =
    if key.nulls_first && ltb 0 s.null_count then true else reaches key.descending s.min s.max bound
