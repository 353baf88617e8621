-- ===== src/Plan/JoinKind.antt =====
-- src/plan/include/antb1/plan/join_kind.h: what each kind of join does with its rows.
use antb.Prelude.{
  ℕ, ◌+◌, ◌-◌, ◌^◌, ◌≤◌, ◌≡◌, Bool, true, false, not, ◌&&◌, ◌||◌, max, ltb, if◌then◌else◌,
}
pub mod Rows
pub mod Laws

pub data JoinKind : Type 0 where
  inner left semi anti null_aware_anti one_row full : JoinKind

pub data BuildSide : Type 0 where
  build_left build_right : BuildSide

pub record JoinKindTraits : Type 0 where
  pub outputs_right : Bool
  pub filters_left : Bool
  pub pads_right : Bool
  pub pads_left : Bool
  pub drops_unmatched_left : Bool
  pub keyless : Bool
  pub null_aware : Bool
  pub residuals : Bool
  pub may_build_left : Bool

abbrev no_traits : JoinKindTraits
no_traits = record {
  outputs_right = false;
  filters_left = false;
  pads_right = false;
  pads_left = false;
  drops_unmatched_left = false;
  keyless = false;
  null_aware = false;
  residuals = false;
  may_build_left = false;
}

-- Only the fields that a row of the table sets to true are given.
unfoldable pub traits : JoinKind → JoinKindTraits
traits inner = record no_traits {
  outputs_right = true;
  drops_unmatched_left = true;
  residuals = true;
  may_build_left = true;
}
traits left = record no_traits { outputs_right = true; pads_right = true; residuals = true }
traits semi = record no_traits {
  filters_left = true;
  drops_unmatched_left = true;
  residuals = true;
  may_build_left = true;
}
traits anti = record no_traits { filters_left = true; residuals = true; may_build_left = true }
traits null_aware_anti = record no_traits { filters_left = true; null_aware = true }
traits one_row = record no_traits { outputs_right = true; keyless = true }
traits full = record no_traits {
  outputs_right = true;
  pads_right = true;
  pads_left = true;
  residuals = true;
}

unfoldable pub outputs_matches_only : JoinKind → Bool
unfolding traits
outputs_matches_only k =
    let t = traits k in t.outputs_right && (not t.pads_left && (not t.pads_right && not t.keyless))

-- `std::numeric_limits<int64_t>::max()`, and a sum that saturates at it.
abbrev pub int64_max : ℕ
int64_max = 2 ^ 63 - 1

abbrev saturating_sum : ℕ → ℕ → ℕ → ℕ
saturating_sum a b c =
    if ltb int64_max (a + b) || ltb int64_max (a + b + c) then int64_max else a + b + c

-- The counts are at least 0.
unfoldable pub padded_join_rows : JoinKind → ℕ → ℕ → ℕ → ℕ
unfolding traits
padded_join_rows k matches left_rows right_rows =
    let t = traits k in
    if t.pads_left && t.pads_right
    then saturating_sum matches left_rows right_rows
    else let rows = if t.pads_right then max matches left_rows else matches in
      if t.pads_left then max rows right_rows else rows

unfoldable pub emits_build_rows : JoinKind → BuildSide → Bool
unfolding traits
emits_build_rows k build_left = (traits k).filters_left || (traits k).pads_right
emits_build_rows k build_right = (traits k).pads_left

unfoldable pub emits_probe_and_build_rows : JoinKind → BuildSide → Bool
unfolding emits_build_rows
emits_probe_and_build_rows k side = emits_build_rows k side && (traits k).outputs_right

unfoldable pub emits_unmatched_build_rows : JoinKind → BuildSide → Bool
unfolding traits
emits_unmatched_build_rows k build_left =
    let t = traits k in t.pads_right || (t.filters_left && not t.drops_unmatched_left)
emits_unmatched_build_rows k build_right = (traits k).pads_left

unfoldable pub empty_build_empties_join : JoinKind → Bool
unfolding traits
empty_build_empties_join k = let t = traits k in t.drops_unmatched_left && not t.pads_left

unfoldable pub probe_drops_unmatched_rows : JoinKind → BuildSide → Bool
unfolding traits
probe_drops_unmatched_rows k build =
    let t = traits k in if t.null_aware || t.keyless then false else drops build t
  where
    drops : BuildSide → JoinKindTraits → Bool
    drops build_right u = u.drops_unmatched_left
    drops build_left u = not u.pads_left
