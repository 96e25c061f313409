-- ===== src/Execution/Plan/Rows.antt =====
-- A tree of operators returns its answer, up to the order that the hash tables of its joins choose.
use mathlib.Core.List.Perm
use p2_hash_join_optimizatio.Common.{
  ℕ, ◌<◌, String, ◌≡◌, refl, ap, ap₂, ◌∙◌, List, ◌++◌, Perm, ok, length, All-perm, map,
}
use p2_hash_join_optimizatio.Types.{get_key_attr}
use p2_hash_join_optimizatio.Execution.Operator.{ExecutionContext, Entry}
use p2_hash_join_optimizatio.Execution.Operator.Contract.{Busy, Delivers, Produces, delivered}
use p2_hash_join_optimizatio.Execution.UnorderedMultimap.{UnorderedMultimap}
use p2_hash_join_optimizatio.Execution.Value.{value_operator}
use p2_hash_join_optimizatio.Execution.Value
use p2_hash_join_optimizatio.Execution.Value.Rows.{value_operator-Produces}
use p2_hash_join_optimizatio.Execution.SeqScan.{seq_scan_operator}
use p2_hash_join_optimizatio.Execution.SeqScan
use p2_hash_join_optimizatio.Execution.SeqScan.Loop.{live_rows-Wide}
use p2_hash_join_optimizatio.Execution.SeqScan.Rows.{seq_scan_operator-Produces}
use p2_hash_join_optimizatio.Execution.Expression.Filters.{Filter}
use p2_hash_join_optimizatio.Execution.Filter.{filter_operator}
use p2_hash_join_optimizatio.Execution.Filter
use p2_hash_join_optimizatio.Execution.Filter.Rows.{keep, AllApply, filter_operator-Streams}
use p2_hash_join_optimizatio.Execution.HashJoin.{hash_join_operator, self_init}
use p2_hash_join_optimizatio.Execution.HashJoin
use p2_hash_join_optimizatio.Execution.HashJoin.Spec.{nested_loop_join, Wide}
use p2_hash_join_optimizatio.Execution.HashJoin.Rows.{hash_join_operator-Produces}
use p2_hash_join_optimizatio.Execution.Plan.{
  Plan, values, scan, filter, join, State, operator, output_schema,
}
use p2_hash_join_optimizatio.Execution.Plan.Answers.{
  Answers, of_values, of_scan, of_filter, of_join, Unfiltered, ProbesUnfiltered,
}
use p2_hash_join_optimizatio.Execution.Plan.Widths.{All-prop, Applies-prop, keep-All}
use p2_hash_join_optimizatio.Execution.Plan.Objects.{Built, init_filters-same}
use p2_hash_join_optimizatio.Execution.Plan.Perms.{keep-perm, nested_loop_join-perm}

module _ (multimap : UnorderedMultimap ℕ) where
  pub output_schema_lem :
      (plan : Plan) → (operator multimap plan).output_schema ≡ output_schema plan
  unfolding value_operator seq_scan_operator filter_operator hash_join_operator
  output_schema_lem (values v) = refl
  output_schema_lem (scan s) = refl
  output_schema_lem (filter filters child) = output_schema_lem child
  output_schema_lem (join probe build probe_column build_column) =
      ap₂ (λ a b. a ++ b) (output_schema_lem probe) (output_schema_lem build)

  module _ (ctx : ExecutionContext) where
    -- After `Init` of the objects in `s`, the calls of `Next` return `rows` in some order, each as
    -- wide as the schema; and no chunk but the last is empty, where no filter stands at the top.
    abbrev pub Runs : (plan : Plan) → State multimap plan → List Entry → Type 0
    Runs plan s rows =
        (s' : State multimap plan) × ((operator multimap plan).init s ≡ ok s')
        × (out : List Entry) × (d : Delivers (operator multimap plan) ctx s' out) × (Unfiltered plan
            → Busy d.chunks)
        × Perm out rows
        × Wide (length (output_schema plan)) out

    filter-Runs :
        (child : Plan) (filters ready : List Filter) (rows : List Entry)
        (s : State multimap (filter filters child))
        → Built multimap (filter filters child) s
        → Filter.init_filters (output_schema child) filters ≡ ok ready
        → AllApply ready rows
        → Runs child s.child rows
        → Runs (filter filters child) s (keep ready rows)
    unfolding filter_operator Filter.init Filter.self_init
    filter-Runs child filters ready rows s (_, same) started applies
          (c', begun, out, d, busy, perm, wide) =
        let fits : AllApply ready out =
          All-perm _ (λ row. All-prop _ (Applies-prop row.0) ready) out rows perm applies in
        let (streams, total) =
          filter_operator-Streams (operator multimap child) ctx d.bound ready d.chunks d.streams
            (rw (← d.total) at fits) in
        let start : Filter.init_filters (operator multimap child).output_schema s.filters
            ≡ ok ready =
          rw (output_schema_lem child)
            (init_filters-same (output_schema child) s.filters filters same ∙ started) in
        (
          record { child = c'; filters = ready },
          rw (begun, start) refl,
          keep ready out,
          record {
            bound = d.bound;
            chunks = map (keep ready) d.chunks;
            streams = streams;
            total = total ∙ ap (keep ready) d.total;
          },
          λ none. absurd none,
          keep-perm ready perm,
          keep-All _ ready out wide,
        )

    join-Runs :
        (probe build : Plan) (probe_column build_column : String) (ps bs : List Entry)
        (probe_attr build_attr : ℕ)
        (s : State multimap (join probe build probe_column build_column))
        → 0 < ctx.config.chunk_suggest_size
        → Unfiltered probe
        → get_key_attr (output_schema probe) probe_column ≡ ok probe_attr
        → get_key_attr (output_schema build) build_column ≡ ok build_attr
        → Runs probe s.cursor.probe_child ps
        → Runs build s.build_child bs
        → Runs
            (join probe build probe_column build_column)
            s
            (nested_loop_join probe_attr build_attr ps bs)
    unfolding hash_join_operator HashJoin.init
    join-Runs probe build probe_column build_column ps bs probe_attr build_attr s positive plain
          probe_key build_key (p', p_begun, p_out, p, p_busy, p_perm, p_wide)
          (b', b_begun, b_out, b, b_busy, b_perm, b_wide) =
        let j = record s { cursor = record s.cursor { probe_child = p' }; build_child = b' } in
        let pulled : Produces (operator multimap probe) ctx p' p_out = record {
          bound = p.bound;
          chunks = p.chunks;
          streams = p.streams;
          busy = p_busy plain;
          total = p.total;
        } in
        let (rows, produced, perm, wide) =
          hash_join_operator-Produces multimap (operator multimap probe) (operator multimap build)
            probe_column build_column ctx probe_attr build_attr
            (rw (output_schema_lem probe) probe_key) (rw (output_schema_lem build) build_key)
            positive j p_out b_out pulled b (rw (output_schema_lem probe) p_wide)
            (rw (output_schema_lem build) b_wide) in
        (
          _,
          rw (p_begun, b_begun) refl,
          rows,
          delivered _ ctx produced,
          λ _. produced.busy,
          Perm.trans perm (nested_loop_join-perm probe_attr build_attr p_perm b_perm),
          rw (output_schema_lem (join probe build probe_column build_column)) at wide,
        )

    -- After Init, whatever its objects have returned before, a tree of ValueOperator,
    -- SeqScanOperator, FilterOperator and HashJoinOperator, in which no join probes a filter,
    -- returns with enough fuel and in finitely many calls of Next the answer of the tree over the
    -- catalog, in some order: the tuples, the live rows of a table, the rows of the child that pass
    -- all filters, and the nested loop join of the two children; each row is as wide as the output
    -- schema, where the suggested size of a chunk is positive.
    pub plan-Runs :
        {plan : Plan} {rows : List Entry} (s : State multimap plan)
        → 0 < ctx.config.chunk_suggest_size
        → ProbesUnfiltered plan
        → Answers ctx.catalog plan rows
        → Built multimap plan s
        → Runs plan s rows
    unfolding value_operator seq_scan_operator Value.self_init SeqScan.self_init
    plan-Runs s positive plain (of_values v wide) built =
        let p = value_operator-Produces ctx v positive in
        (
          record v { next_tuple_id = 0 },
          ap (λ (t : State multimap (values v)). ok (record t { next_tuple_id = 0 })) built,
          _,
          delivered _ ctx p,
          λ _. p.busy,
          Perm.refl _,
          wide,
        )
    plan-Runs s positive plain (of_scan q table attrs found keys count fits) built =
        let p = seq_scan_operator-Produces ctx q table attrs found keys fits positive in
        (
          record q { next_row_id = 0 },
          ap (λ (t : State multimap (scan q)). ok (record t { next_row_id = 0 })) built,
          _,
          delivered _ ctx p,
          λ _. p.busy,
          Perm.refl _,
          rw (← count) (live_rows-Wide attrs table.rows 0),
        )
    plan-Runs s positive plain (of_filter {child} {rows} filters ready answers started applies)
          built =
        filter-Runs child filters ready rows s built started applies
          (plan-Runs s.child positive plain answers built.0)
    plan-Runs s positive plain
          (of_join {probe} {build} {probe_rows = ps} {build_rows = bs} probe_column build_column
            probe_attr build_attr pa ba pk bk)
          built =
        join-Runs probe build probe_column build_column ps bs probe_attr build_attr s positive
          plain.0 pk bk (plan-Runs s.cursor.probe_child positive plain.1 pa built.0)
          (plan-Runs s.build_child positive plain.2 ba built.1)
