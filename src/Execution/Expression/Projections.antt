-- ===== src/Execution/Expression/Projections.antt =====
-- src/include/execution/expression/projection.hpp: the projections. The subclasses are constructors,
-- and a user defined projection is a function.
use p2_hash_join_optimizatio.Common.{ℕ, String, List, [], ◌∷◌, Result, ok, ◌>>=◌}
use p2_hash_join_optimizatio.Types.{Data, Tuple, Schema, at, get_key_attrs, keys_from_tuple}

pub data Calculation : Type 0 where
  unit_projection : Calculation
  ud_projection : (Tuple → Data) → Calculation

pub record Projection : Type 0 where
  pub keys_schema : Schema
  pub output_name : String
  pub calculation : Calculation
  pub key_attrs : List ℕ

unfoldable pub new_unit_projection : String → String → Projection
new_unit_projection column_name output_name = record {
  keys_schema = column_name ∷ [];
  output_name = output_name;
  calculation = unit_projection;
  key_attrs = [];
}

unfoldable pub new_ud_projection : Schema → String → (Tuple → Data) → Projection
new_ud_projection keys_schema output_name udf = record {
  keys_schema = keys_schema;
  output_name = output_name;
  calculation = ud_projection udf;
  key_attrs = [];
}

unfoldable pub calc_internal : Calculation → Tuple → Result Data
calc_internal unit_projection keys = at keys 0
calc_internal (ud_projection udf) keys = ok (udf keys)

unfoldable pub calc : Projection → Tuple → Result Data
unfolding calc_internal
calc p tuple = do keys ← keys_from_tuple tuple p.key_attrs; calc_internal p.calculation keys

unfoldable pub init : Projection → Schema → Result Projection
init p input_schema = do
  attrs ← get_key_attrs input_schema p.keys_schema
  ok (record p { key_attrs = attrs })
