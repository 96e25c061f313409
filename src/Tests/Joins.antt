-- ===== src/Tests/Joins.antt =====
-- The hash join, the filter and the operator over values.
use p2_hash_join_optimizatio.Common.{
  ℕ, zero, suc, ◌≡◌, refl, true, false, pos, List, [], ◌∷◌, Perm, map, flatten, ok, err, arith,
  length, All,
}
use p2_hash_join_optimizatio.Types.{
  invalid_id, get_key_attr, get_key_attrs, key_from_tuple, keys_from_tuple,
}
use p2_hash_join_optimizatio.Storage.Catalog.{empty_catalog}
use p2_hash_join_optimizatio.Execution.Operator.{
  ExecutionContext, Entry, Chunk, Operator, have_more_output, exhausted, write, resize,
}
use p2_hash_join_optimizatio.Execution.Operator.Contract.{Produces, Streams, Yields, delivered}
use p2_hash_join_optimizatio.Execution.Value.{ValueOperator, value_operator}
use p2_hash_join_optimizatio.Execution.Value.Rows.{value_operator-Produces, as_rows}
use p2_hash_join_optimizatio.Execution.Value
use p2_hash_join_optimizatio.Execution.Value.{next_loop}
use p2_hash_join_optimizatio.Execution.Filter
use p2_hash_join_optimizatio.Execution.Filter.{
  FilterOperator, filter_operator, filter_rows, pass_tag,
}
use p2_hash_join_optimizatio.Execution.Filter.Rows.{filter_operator-Streams, keep, Applies}
use p2_hash_join_optimizatio.Execution.Expression.Filters
use p2_hash_join_optimizatio.Execution.Expression.Filters.{Filter, equal_filter}
use p2_hash_join_optimizatio.Execution.HashJoin.Stops.{empty_chunk_stops}
use p2_hash_join_optimizatio.Execution.UnorderedMultimap.{list_multimap}
use p2_hash_join_optimizatio.Execution.HashJoin
use p2_hash_join_optimizatio.Execution.HashJoin.{
  HashJoinOperator, hash_join_operator, self_init, build_hash_table, build_loop, append_rows,
  index_loop, probe_loop, refill, emit_matches, union_tuple,
}
use p2_hash_join_optimizatio.Execution.HashJoin.Spec.{nested_loop_join, Wide}
use p2_hash_join_optimizatio.Execution.HashJoin.Rows.{hash_join_operator-Produces}

abbrev ctx : ExecutionContext
ctx = record { catalog = empty_catalog; config = record { chunk_suggest_size = 2 } }

abbrev orders : ValueOperator
orders = record {
  output_schema = "id" ∷ "customer" ∷ [];
  tuples = (pos 1 ∷ pos 7 ∷ []) ∷ (pos 2 ∷ pos 8 ∷ []) ∷ (pos 3 ∷ pos 7 ∷ []) ∷ [];
  next_tuple_id = 3;
}

abbrev customers : ValueOperator
customers = record {
  output_schema = "key" ∷ [];
  tuples = (pos 7 ∷ []) ∷ (pos 7 ∷ []) ∷ (pos 9 ∷ []) ∷ [];
  next_tuple_id = 0;
}

value_operator-Produces_example :
    Produces
      (value_operator orders)
      ctx
      (record orders { next_tuple_id = 0 })
      (as_rows orders.tuples)
value_operator-Produces_example = value_operator-Produces ctx orders (omega arith)

abbrev joined : HashJoinOperator (list_multimap ℕ) ValueOperator ValueOperator
joined = record {
  cursor = record {
    probe_child = record orders { next_tuple_id = 0 };
    buffer = [];
    buffer_ptr = 0;
    probe_child_exhausted = false;
  };
  build_child = customers;
  table = record {
    tuples = [];
    tuple_count = 0;
    width = 1;
    pointer_table = (list_multimap ℕ).empty;
  };
  hash_table_build = true;
}

abbrev join : Operator (HashJoinOperator (list_multimap ℕ) ValueOperator ValueOperator)
join =
    hash_join_operator (list_multimap ℕ) (value_operator orders) (value_operator customers)
      "customer" "key"

hash_join_operator-Produces_example :
    (rows : List Entry) × Produces join ctx
      (self_init
        (list_multimap ℕ)
        (value_operator orders)
        (value_operator customers)
        "key"
        "customer"
        joined)
      rows
    × Perm rows (nested_loop_join 1 0 (as_rows orders.tuples) (as_rows customers.tuples))
    × Wide (length join.output_schema) rows
unfolding value_operator get_key_attr hash_join_operator
hash_join_operator-Produces_example =
    hash_join_operator-Produces (list_multimap ℕ) (value_operator orders) (value_operator customers)
      "customer" "key" ctx 1 0 refl refl (omega arith) joined (as_rows orders.tuples)
      (as_rows customers.tuples) (value_operator-Produces ctx orders (omega arith))
      (delivered (value_operator customers) ctx
        (value_operator-Produces ctx customers (omega arith)))
      (refl, (refl, (refl, tt))) (refl, (refl, (refl, tt)))

abbrev one_at_a_time : ExecutionContext
one_at_a_time = record { catalog = empty_catalog; config = record { chunk_suggest_size = 1 } }

abbrev of_customer : Filter
of_customer = record {
  keys_schema = "customer" ∷ [];
  condition = equal_filter (pos 8);
  key_attrs = 1 ∷ [];
}

-- The first row does not pass: the first chunk is empty.
first_chunk :
    Yields
      (filter_operator (value_operator orders))
      one_at_a_time
      3
      (record { child = record orders { next_tuple_id = 0 }; filters = of_customer ∷ [] })
      have_more_output
      []
      (record { child = record orders { next_tuple_id = 1 }; filters = of_customer ∷ [] })
unfolding filter_operator value_operator Filter.next Value.next next_loop filter_rows pass_tag
    Filters.check keys_from_tuple
first_chunk (suc (suc fuel)) chunk h = refl
first_chunk (suc zero) chunk h = absurd (omega arith)
first_chunk zero chunk h = absurd (omega arith)

abbrev filtered : HashJoinOperator (list_multimap ℕ) (FilterOperator ValueOperator) ValueOperator
filtered = record {
  cursor = record {
    probe_child = record {
      child = record orders { next_tuple_id = 0 };
      filters = of_customer ∷ [];
    };
    buffer = [];
    buffer_ptr = 0;
    probe_child_exhausted = false;
  };
  build_child = customers;
  table = record {
    tuples = [];
    tuple_count = 0;
    width = 1;
    pointer_table = (list_multimap ℕ).empty;
  };
  hash_table_build = false;
}

empty_chunk_stops_example :
    (enough : ℕ) × (j' : HashJoinOperator
      (list_multimap ℕ)
      (FilterOperator ValueOperator)
      ValueOperator)
    × Yields
        (hash_join_operator
          (list_multimap ℕ)
          (filter_operator (value_operator orders))
          (value_operator customers)
          "customer"
          "key")
        one_at_a_time
        enough
        (self_init
          (list_multimap ℕ)
          (filter_operator (value_operator orders))
          (value_operator customers)
          "key"
          "customer"
          filtered)
        exhausted
        []
        j'
unfolding value_operator filter_operator get_key_attr
empty_chunk_stops_example =
    empty_chunk_stops (list_multimap ℕ) (filter_operator (value_operator orders))
      (value_operator customers) "customer" "key" one_at_a_time 1 0 refl refl (omega arith) filtered
      3 (record { child = record orders { next_tuple_id = 1 }; filters = of_customer ∷ [] })
      (as_rows customers.tuples) first_chunk
      (delivered (value_operator customers) one_at_a_time
        (value_operator-Produces one_at_a_time customers (omega arith)))
      (refl, (refl, (refl, tt)))

abbrev produced :
    Produces
      (value_operator orders)
      ctx
      (record orders { next_tuple_id = 0 })
      (as_rows orders.tuples)
produced = value_operator-Produces ctx orders (omega arith)

abbrev conditions : List Filter
conditions = of_customer ∷ []

-- Each tuple has the column.
applies : All (λ f. Applies f (pos 1 ∷ pos 2 ∷ [])) conditions
applies = (((omega arith, tt), omega arith), tt)

filter_operator-Streams_example :
    Streams
      (filter_operator (value_operator orders))
      ctx
      produced.bound
      (record { child = record orders { next_tuple_id = 0 }; filters = conditions })
      (map (keep conditions) produced.chunks)
    × (flatten (map (keep conditions) produced.chunks) ≡ keep conditions (flatten produced.chunks))
filter_operator-Streams_example =
    filter_operator-Streams (value_operator orders) ctx produced.bound conditions produced.chunks
      produced.streams (rw (produced.total) (applies, (applies, (applies, tt))))

-- What a list of calls of `Next` returns.
drain : ℕ → HashJoinOperator (list_multimap ℕ) ValueOperator ValueOperator → List Chunk
drain zero j = []
drain (suc calls) j = elim (join.next 20 ctx j []) [
  | err e ↦ []
  | ok r ↦ elim r.0 [ exhausted ↦ r.1 ∷ [] | have_more_output ↦ r.1 ∷ drain calls r.2 ]
]

program : Unit {0}
unfolding drain hash_join_operator HashJoin.next HashJoin.self_init build_hash_table build_loop
    append_rows index_loop probe_loop refill emit_matches union_tuple value_operator Value.next
    next_loop list_multimap get_key_attrs get_key_attr key_from_tuple write resize
program = tt

-- A probe row with two matches fills the chunk; the next one has none.
join_returns :
    drain 10 (
      self_init
        (list_multimap ℕ)
        (value_operator orders)
        (value_operator customers)
        "key"
        "customer"
        joined)
    ≡ (((pos 1 ∷ pos 7 ∷ pos 7 ∷ []), invalid_id) ∷ ((pos 1 ∷ pos 7 ∷ pos 7 ∷ []), invalid_id) ∷ [])
      ∷ (((pos 3 ∷ pos 7 ∷ pos 7 ∷ []), invalid_id)
          ∷ ((pos 3 ∷ pos 7 ∷ pos 7 ∷ []), invalid_id)
          ∷ [])
      ∷ []
      ∷ []
unfolding program
join_returns = refl
