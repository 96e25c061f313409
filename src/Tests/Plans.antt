-- ===== src/Tests/Plans.antt =====
-- A tree of operators: orders above a number, joined with the customers of a filter.
use p2_hash_join_optimizatio.Common.{
  ℕ, ◌≡◌, refl, pos, false, List, [], ◌∷◌, ok, arith, Bool-cases, inl, inr, str_eq, ok_injective,
}
use p2_hash_join_optimizatio.Common.Assoc.{lookup}
use p2_hash_join_optimizatio.Types.{Data, Tuple, get_key_attr, get_key_attrs}
use p2_hash_join_optimizatio.Storage.Table.{Table, Row, fresh_meta}
use p2_hash_join_optimizatio.Storage.Catalog.{fetch_table}
use p2_hash_join_optimizatio.Execution.Operator.{ExecutionContext, Entry, check_schema}
use p2_hash_join_optimizatio.Execution.UnorderedMultimap.{list_multimap}
use p2_hash_join_optimizatio.Execution.Value.{ValueOperator, value_operator}
use p2_hash_join_optimizatio.Execution.Value
use p2_hash_join_optimizatio.Execution.SeqScan.{
  SeqScanOperator, new_seq_scan_columns, seq_scan_operator,
}
use p2_hash_join_optimizatio.Execution.SeqScan
use p2_hash_join_optimizatio.Execution.Expression.Filters
use p2_hash_join_optimizatio.Execution.Expression.Filters.{Filter, equal_filter, new_equal_filter}
use p2_hash_join_optimizatio.Execution.Filter
use p2_hash_join_optimizatio.Execution.Filter.{filter_operator, init_filters}
use p2_hash_join_optimizatio.Execution.HashJoin.{HashJoinOperator, hash_join_operator}
use p2_hash_join_optimizatio.Execution.HashJoin
use p2_hash_join_optimizatio.Execution.Value.Rows.{as_rows}
use p2_hash_join_optimizatio.Execution.SeqScan.Rows.{live_rows}
use p2_hash_join_optimizatio.Execution.Filter.Rows.{keep, Applies}
use p2_hash_join_optimizatio.Execution.HashJoin.Spec.{nested_loop_join}
use p2_hash_join_optimizatio.Execution.Plan.{Plan, values, scan, filter, join, State, operator}
use p2_hash_join_optimizatio.Execution.Plan.Answers.{
  Answers, of_values, of_scan, of_filter, of_join,
}
use p2_hash_join_optimizatio.Execution.Plan.Rows.{Runs, plan-Runs}
use p2_hash_join_optimizatio.Execution.Plan.Checks.{RowsFit, check-Runs}

abbrev row : Tuple → Row
row tuple = record { tuple = tuple; tuple_meta = fresh_meta }

abbrev orders : Table
orders = record {
  name = "orders";
  schema = "id" ∷ "customer" ∷ [];
  rows = row (pos 1 ∷ pos 7 ∷ []) ∷ row (pos 2 ∷ pos 8 ∷ []) ∷ row (pos 3 ∷ pos 7 ∷ []) ∷ [];
  index_name = "";
}

abbrev customers : ValueOperator
customers = record {
  output_schema = "key" ∷ "city" ∷ [];
  tuples = (pos 7 ∷ pos 1 ∷ []) ∷ (pos 8 ∷ pos 2 ∷ []) ∷ (pos 9 ∷ pos 1 ∷ []) ∷ [];
  next_tuple_id = 0;
}

abbrev scanned : SeqScanOperator
scanned = record {
  output_schema = "orders.id" ∷ "orders.customer" ∷ [];
  table_name = "orders";
  fetch_columns = "id" ∷ "customer" ∷ [];
  next_row_id = 0;
}

abbrev in_city : Filter
in_city = record { keys_schema = "city" ∷ []; condition = equal_filter (pos 1); key_attrs = [] }

abbrev ctx : ExecutionContext
ctx = record {
  catalog = record { tables = ("orders", orders) ∷ []; indexes = [] };
  config = record { chunk_suggest_size = 2 };
}

abbrev plan : Plan
plan = join (scan scanned) (filter (in_city ∷ []) (values customers)) "orders.customer" "key"

abbrev objects : (List Filter) → State (list_multimap ℕ) plan
objects filters = record {
  cursor = record {
    probe_child = scanned;
    buffer = [];
    buffer_ptr = 0;
    probe_child_exhausted = false;
  };
  build_child = record { child = customers; filters = filters };
  table = record {
    tuples = [];
    tuple_count = 0;
    width = 0;
    pointer_table = (list_multimap ℕ).empty;
  };
  hash_table_build = false;
}

abbrev found : Filter
found = record { keys_schema = "city" ∷ []; condition = equal_filter (pos 1); key_attrs = 1 ∷ [] }

checked :
    (operator (list_multimap ℕ) plan).check ctx (objects (in_city ∷ [])) ≡ ok (objects (found ∷ []))
unfolding hash_join_operator filter_operator value_operator seq_scan_operator HashJoin.check
    Filter.check Filter.self_init Filters.init Value.check Value.self_check SeqScan.check
    SeqScan.self_check check_schema get_key_attrs get_key_attr fetch_table lookup
checked = refl

rows_fit : RowsFit ctx.catalog
unfolding fetch_table lookup
rows_fit name table fetched = elim (Bool-cases (str_eq "orders" name)) [
  | inl same ↦
      let whole : orders ≡ table = ok_injective (rw (same, fetch_table, lookup) at fetched) in
      rw (← whole) (refl, (refl, (refl, tt)))
  | inr other ↦ absurd (cc (rw (other, fetch_table, lookup) at fetched))
]

check-Runs_example :
    (rows : List Entry) × Answers ctx.catalog plan rows
    × Runs (list_multimap ℕ) ctx plan (objects (found ∷ [])) rows
check-Runs_example =
    check-Runs (list_multimap ℕ) ctx rows_fit plan (objects (in_city ∷ [])) (objects (found ∷ []))
      (omega arith) (tt, tt, tt) (tt, ((omega arith, tt), tt)) (refl, (refl, refl)) checked

-- The rows of the orders, and the customers of the city.
scan_rows : List Entry
scan_rows = live_rows (0 ∷ 1 ∷ []) orders.rows 0

answer :
    Answers ctx.catalog plan
      (nested_loop_join 1 0 scan_rows (keep (found ∷ []) (as_rows customers.tuples)))
unfolding scan_rows get_key_attr get_key_attrs fetch_table lookup init_filters Filters.init
answer =
    of_join "orders.customer" "key" 1 0
      (of_scan scanned orders (0 ∷ 1 ∷ []) refl refl refl (
        ((omega arith, (omega arith, tt))),
        ((omega arith, (omega arith, tt)), ((omega arith, (omega arith, tt)), tt)),
      ))
      (of_filter (in_city ∷ []) (found ∷ []) (of_values customers (refl, (refl, (refl, tt)))) refl (
        (applies (pos 7) (pos 1), tt),
        ((applies (pos 8) (pos 2), tt), ((applies (pos 9) (pos 1), tt), tt)),
      ))
      refl refl
  where
    applies : (x y : Data) → Applies found (x ∷ y ∷ [])
    applies x y = ((omega arith, tt), omega arith)

plan-Runs_example :
    Runs
      (list_multimap ℕ)
      ctx
      plan
      (objects (found ∷ []))
      (nested_loop_join 1 0 scan_rows (keep (found ∷ []) (as_rows customers.tuples)))
plan-Runs_example =
    plan-Runs (list_multimap ℕ) ctx (objects (found ∷ [])) (omega arith) (tt, tt, tt) answer
      (refl, (refl, refl))
