-- ===== src/Execution/Expression/Filters.antt =====
-- src/include/execution/expression/filter.hpp: the filters. The subclasses are constructors, and a
-- user defined filter is a function.
use p2_hash_join_optimizatio.Common.{
  ℕ, String, Bool, true, false, not, ◌&&◌, ◌||◌, ◌≡◌, List, [], ◌∷◌, Result, ok, ◌>>=◌, arith,
  ltb_ℤ, eqb_ℤ, if◌then◌else◌,
}
use p2_hash_join_optimizatio.Types.Ranges.{in_range}
use p2_hash_join_optimizatio.Types.{
  Data, Tuple, Schema, RangeInfo, at, get_key_attrs, keys_from_tuple,
}

pub data Condition : Type 0 where
  range_filter : RangeInfo → Condition
  equal_filter : Data → Condition
  ud_filter : (Tuple → Bool) → Condition

pub record Filter : Type 0 where
  pub keys_schema : Schema
  pub condition : Condition
  pub key_attrs : List ℕ

unfoldable pub new_range_filter : String → RangeInfo → Filter
new_range_filter column_name range = record {
  keys_schema = column_name ∷ [];
  condition = range_filter range;
  key_attrs = [];
}

unfoldable pub new_equal_filter : String → Data → Filter
new_equal_filter column_name target_key = record {
  keys_schema = column_name ∷ [];
  condition = equal_filter target_key;
  key_attrs = [];
}

unfoldable pub new_ud_filter : Schema → (Tuple → Bool) → Filter
new_ud_filter keys_schema udf = record {
  keys_schema = keys_schema;
  condition = ud_filter udf;
  key_attrs = [];
}

-- The three early returns of `RangeFilter::CheckInternal`.
unfoldable pub check_range : RangeInfo → Data → Bool
check_range range x =
    if ltb_ℤ x range.start || ltb_ℤ range.end x
    then false
    else if not range.contain_start && eqb_ℤ x range.start
    then false
    else if not range.contain_end && eqb_ℤ x range.end
    then false
    else true

unfoldable pub check_internal : Condition → Tuple → Result Bool
unfolding check_range
check_internal (range_filter range) tuple = do x ← at tuple 0; ok (check_range range x)
check_internal (equal_filter target_key) tuple = do x ← at tuple 0; ok (eqb_ℤ x target_key)
check_internal (ud_filter udf) tuple = ok (udf tuple)

unfoldable pub check : Filter → Tuple → Result Bool
unfolding check_internal
check filter tuple = do
  keys ← keys_from_tuple tuple filter.key_attrs
  check_internal filter.condition keys

unfoldable pub init : Filter → Schema → Result Filter
init filter input_schema = do
  attrs ← get_key_attrs input_schema filter.keys_schema
  ok (record filter { key_attrs = attrs })

-- The early returns of RangeFilter::CheckInternal decide membership in the range, for every range,
-- also one whose start is its end or lies behind it.
pub check_range-in_range : (range : RangeInfo) (x : Data) → check_range range x ≡ in_range range x
unfolding check_range in_range
check_range-in_range range x = ground arith
