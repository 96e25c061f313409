-- ===== src/Execution/Plan/Checks.antt =====
-- A tree of operators that passes `Check` has an answer.
use p2_hash_join_optimizatio.Common.{
  subst, ℕ, String, ◌<◌, ◌≡◌, sym, ap, ◌∙◌, inl, inr, List, [], ◌∷◌, ok, length, All, All-map,
  >>=-eq-ok, Bool-cases, ok_injective, ==_iff, ◌==◌, map,
}
use p2_hash_join_optimizatio.Types.{get_key_attrs}
use p2_hash_join_optimizatio.Types.Schemas.{get_key_attrs-lt}
use p2_hash_join_optimizatio.Storage.Table.{Table}
use p2_hash_join_optimizatio.Storage.Catalog.{Catalog, fetch_table}
use p2_hash_join_optimizatio.Execution.Operator.{ExecutionContext, Entry, check_schema}
use p2_hash_join_optimizatio.Execution.UnorderedMultimap.{UnorderedMultimap}
use p2_hash_join_optimizatio.Execution.Value.{ValueOperator, value_operator, check_tuples}
use p2_hash_join_optimizatio.Execution.Value
use p2_hash_join_optimizatio.Execution.SeqScan.{seq_scan_operator}
use p2_hash_join_optimizatio.Execution.SeqScan
use p2_hash_join_optimizatio.Execution.Expression.Filters.{Filter}
use p2_hash_join_optimizatio.Execution.Filter.{filter_operator, init_filters}
use p2_hash_join_optimizatio.Execution.Filter
use p2_hash_join_optimizatio.Execution.Filter.Rows.{HasKey}
use p2_hash_join_optimizatio.Execution.HashJoin.{hash_join_operator}
use p2_hash_join_optimizatio.Execution.HashJoin
use p2_hash_join_optimizatio.Execution.Plan.{
  Plan, values, scan, filter, join, State, operator, output_schema,
}
use p2_hash_join_optimizatio.Execution.Plan.Answers.{
  Answers, of_values, of_scan, of_filter, of_join, ProbesUnfiltered,
}
use p2_hash_join_optimizatio.Execution.Plan.Objects.{
  Built, plain, init_filters-same, plain-init_filters,
}
use p2_hash_join_optimizatio.Execution.Plan.Columns.{
  check_tuples-Wide, columns-Fits, init_filters-Applies, key_attr_of_one,
}
use p2_hash_join_optimizatio.Execution.Plan.Widths.{Answers-Wide}
use p2_hash_join_optimizatio.Execution.Plan.Rows.{Runs, plan-Runs, output_schema_lem}

-- Every row of every table is as wide as the schema of the table.
abbrev pub RowsFit : Catalog → Type 0
RowsFit catalog =
    (name : String) (table : Table)
    → fetch_table catalog name ≡ ok table
    → All (λ row. length row.tuple ≡ length table.schema) table.rows

-- The built in filters have a column to read.
abbrev pub Keyed : Plan → Type 0
Keyed (values v) = Unit
Keyed (scan s) = Unit
Keyed (filter filters child) =
    All (λ f. HasKey f.condition (length f.keys_schema)) filters × Keyed child
Keyed (join probe build probe_column build_column) = Keyed probe × Keyed build

module _ (multimap : UnorderedMultimap ℕ) (ctx : ExecutionContext) (fit : RowsFit ctx.catalog) where
  -- What `Check` makes sure of.
  abbrev Sound : (plan : Plan) → State multimap plan → Type 0
  Sound plan s = (rows : List Entry) × Built multimap plan s × Answers ctx.catalog plan rows

  scan-Sound :
      (q : SeqScan.SeqScanOperator) (s s' : SeqScan.SeqScanOperator)
      → s ≡ record q { next_row_id = s.next_row_id }
      → SeqScan.check ctx s ≡ ok s'
      → Sound (scan q) s'
  unfolding SeqScan.check SeqScan.self_check SeqScan.fetch_table_schema
  scan-Sound q s s' built h =
      let (_, _, h₁) = >>=-eq-ok (check_schema s.output_schema) _ h in
      let (schema, fetched, h₂) = >>=-eq-ok (SeqScan.fetch_table_schema ctx s.table_name) _ h₁ in
      let (table, found, is_schema) = >>=-eq-ok (fetch_table ctx.catalog s.table_name) _ fetched in
      let (attrs, keys, h₃) = >>=-eq-ok (get_key_attrs schema s.fetch_columns) _ h₂ in
      let same_schema = ok_injective is_schema in
      let found' : fetch_table ctx.catalog q.table_name ≡ ok table =
        ap (λ (t : SeqScan.SeqScanOperator). fetch_table ctx.catalog t.table_name) (sym built)
        ∙ found in
      let keys' : get_key_attrs table.schema q.fetch_columns ≡ ok attrs =
        ap (λ (t : SeqScan.SeqScanOperator). get_key_attrs table.schema t.fetch_columns) (sym built)
        ∙ rw (← same_schema) at keys in
      elim (Bool-cases (length s.fetch_columns == length s.output_schema)) [
        | inr differ ↦ absurd (cc (rw differ at h₃))
        | inl same ↦
            let count : length attrs ≡ length q.output_schema =
              (get_key_attrs-lt table.schema q.fetch_columns attrs keys').1
              ∙ ap (λ (t : SeqScan.SeqScanOperator). length t.fetch_columns) (sym built)
              ∙ (==_iff (length s.fetch_columns) (length s.output_schema)).0 same
              ∙ ap (λ (t : SeqScan.SeqScanOperator). length t.output_schema) built in
            (
              _,
              rw (ok_injective (rw same at h₃)) at built,
              of_scan q table attrs found' keys' count (
                  columns-Fits table.schema q.fetch_columns attrs table.rows keys'
                    (fit q.table_name table found')),
            )
      ]

  values-Sound :
      (v s s' : ValueOperator)
      → s ≡ record v { next_tuple_id = s.next_tuple_id }
      → Value.check ctx s ≡ ok s'
      → Sound (values v) s'
  unfolding Value.check Value.self_check
  values-Sound v s s' built h =
      let (_, _, h₁) = >>=-eq-ok (check_schema s.output_schema) _ h in
      let (_, checked, h₂) = >>=-eq-ok (check_tuples s.output_schema s.tuples) _ h₁ in
      let checked' : check_tuples v.output_schema v.tuples ≡ ok tt =
        ap (λ (t : ValueOperator). check_tuples t.output_schema t.tuples) (sym built) ∙ checked in
      (
        _,
        rw (ok_injective h₂) at built,
        of_values v (check_tuples-Wide v.output_schema v.tuples checked'),
      )

  module _ (child : Plan) (filters : List Filter) where
    filter-Sound :
        (c : State multimap child) (fs ready : List Filter)
        → map plain fs ≡ map plain filters
        → All (λ f. HasKey f.condition (length f.keys_schema)) filters
        → init_filters (output_schema child) fs ≡ ok ready
        → Sound child c
        → Sound (filter filters child) (record { child = c; filters = ready })
    filter-Sound c fs ready same keyed started (rows, built, answers) =
        let started' : init_filters (output_schema child) filters ≡ ok ready =
          sym (init_filters-same (output_schema child) fs filters same) ∙ started in
        (
          _,
          (built, plain-init_filters (output_schema child) fs ready started ∙ same),
          of_filter filters ready answers started' (
              All-map _ _
                (λ row width.
                  init_filters-Applies (output_schema child) filters ready started' keyed row.0
                    width)
                rows (Answers-Wide answers)),
        )

  check-Sound :
      (plan : Plan) (s s' : State multimap plan)
      → Keyed plan
      → Built multimap plan s
      → (operator multimap plan).check ctx s ≡ ok s'
      → Sound plan s'
  unfolding value_operator seq_scan_operator filter_operator hash_join_operator Filter.check
      Filter.self_init HashJoin.check
  check-Sound (values v) s s' keyed built h = values-Sound v s s' built h
  check-Sound (scan q) s s' keyed built h = scan-Sound q s s' built h
  check-Sound (filter filters child) s s' keyed built h =
      let (c, checked, h₁) = >>=-eq-ok ((operator multimap child).check ctx s.child) _ h in
      let (_, _, h₂) = >>=-eq-ok (check_schema (operator multimap child).output_schema) _ h₁ in
      let (ready, started, h₃) =
        >>=-eq-ok (init_filters (operator multimap child).output_schema s.filters) _ h₂ in
      subst (Sound (filter filters child)) (ok_injective h₃) (
        filter-Sound child filters c s.filters ready built.1 keyed.0
          (rw (output_schema_lem multimap child) at started)
          (check-Sound child s.child c keyed.1 built.0 checked))
  check-Sound (join probe build probe_column build_column) s s' keyed built h =
      let (p, p_checked, h₁) =
        >>=-eq-ok ((operator multimap probe).check ctx s.cursor.probe_child) _ h in
      let (b, b_checked, h₂) = >>=-eq-ok ((operator multimap build).check ctx s.build_child) _ h₁ in
      let (_, _, h₃) = >>=-eq-ok (check_schema _) _ h₂ in
      let (ps, p_keys, h₄) =
        >>=-eq-ok (get_key_attrs (operator multimap probe).output_schema (probe_column ∷ [])) _
          h₃ in
      let (bs, b_keys, h₅) =
        >>=-eq-ok (get_key_attrs (operator multimap build).output_schema (build_column ∷ [])) _
          h₄ in
      let (pa, pk) =
        key_attr_of_one (output_schema probe) _ probe_column ps (output_schema_lem multimap probe)
          p_keys in
      let (ba, bk) =
        key_attr_of_one (output_schema build) _ build_column bs (output_schema_lem multimap build)
          b_keys in
      let (p_rows, p_built, p_answers) =
        check-Sound probe s.cursor.probe_child p keyed.0 built.0 p_checked in
      let (b_rows, b_built, b_answers) =
        check-Sound build s.build_child b keyed.1 built.1 b_checked in
      subst (Sound (join probe build probe_column build_column)) (ok_injective h₅)
        (_, (p_built, b_built), of_join probe_column build_column pa ba p_answers b_answers pk bk)

  -- Where every row of every table is as wide as the schema of the table, the suggested size of a
  -- chunk is positive, and the built in filters have a column to read: a tree of ValueOperator,
  -- SeqScanOperator, FilterOperator and HashJoinOperator, in which no join probes a filter and
  -- which passes Check, has an answer; and after Init the calls of Next return it in some order, in
  -- finitely many calls and with enough fuel, each row as wide as the output schema.
  pub check-Runs :
      (plan : Plan) (s s' : State multimap plan)
      → 0 < ctx.config.chunk_suggest_size
      → ProbesUnfiltered plan
      → Keyed plan
      → Built multimap plan s
      → (operator multimap plan).check ctx s ≡ ok s'
      → (rows : List Entry) × Answers ctx.catalog plan rows × Runs multimap ctx plan s' rows
  check-Runs plan s s' positive plain keyed built checked =
      let (rows, built', answers) = check-Sound plan s s' keyed built checked in
      (rows, answers, plan-Runs multimap ctx s' positive plain answers built')
