-- ===== src/Execution/Filter/Rows.antt =====
-- The filter operator returns the rows of its child that every filter accepts, chunk by chunk.
use p2_hash_join_optimizatio.Common.{
  ℕ, ◌≡◌, refl, inl, inr, Bool, true, ◌&&◌, List, [], ◌∷◌, ◌++◌, map, flatten, ok, arith, length,
  All, All-append_left, All-append_right, Bool-cases, if◌then◌else◌, eqb_ℤ, ◌<◌,
}
use p2_hash_join_optimizatio.Types.{Tuple}
use p2_hash_join_optimizatio.Types.Ranges.{in_range}
use p2_hash_join_optimizatio.Types.Lookup.{column, project, keys_from_tuple-project, length-project}
use p2_hash_join_optimizatio.Execution.Operator.{ExecutionContext, Entry, Chunk, Operator}
use p2_hash_join_optimizatio.Execution.Operator.Contract.{Streams, last, more}
use p2_hash_join_optimizatio.Execution.Expression.Filters
use p2_hash_join_optimizatio.Execution.Expression.Filters.{
  Filter, Condition, range_filter, equal_filter, ud_filter, check_range-in_range, check_internal,
}
use p2_hash_join_optimizatio.Execution.Filter.{pass_tag, filter_rows, next, filter_operator}

-- What the condition says of the key columns of a tuple.
abbrev pub holds : Condition → Tuple → Bool
holds (range_filter range) keys = in_range range (column keys 0)
holds (equal_filter target_key) keys = eqb_ℤ (column keys 0) target_key
holds (ud_filter udf) keys = udf keys

-- The tuple satisfies all conditions.
abbrev pub accepts : List Filter → Tuple → Bool
accepts [] tuple = true
accepts (f ∷ fs) tuple = holds f.condition (project tuple f.key_attrs) && accepts fs tuple

-- The built in conditions read one key.
abbrev pub HasKey : Condition → ℕ → Type 0
HasKey (range_filter range) n = 0 < n
HasKey (equal_filter target_key) n = 0 < n
HasKey (ud_filter udf) n = Unit

-- The filter can be evaluated: its columns are there, and the built in conditions have one.
abbrev pub Applies : Filter → Tuple → Type 0
Applies f tuple = All (λ p. p < length tuple) f.key_attrs × HasKey f.condition (length f.key_attrs)

unfoldable pub keep : List Filter → List Entry → List Entry
keep fs [] = []
keep fs (row ∷ rows) = let rest = keep fs rows in if accepts fs row.0 then row ∷ rest else rest

check_internal-holds :
    (c : Condition) (keys : Tuple)
    → HasKey c (length keys)
    → check_internal c keys ≡ ok (holds c keys)
unfolding check_internal
check_internal-holds (range_filter range) [] h = absurd (omega arith)
check_internal-holds (equal_filter target_key) [] h = absurd (omega arith)
check_internal-holds (ud_filter udf) [] h = refl
check_internal-holds (range_filter range) (x ∷ keys) h = rw check_range-in_range
check_internal-holds (equal_filter target_key) (x ∷ keys) h = refl
check_internal-holds (ud_filter udf) (x ∷ keys) h = refl

check-holds :
    (f : Filter) (tuple : Tuple)
    → Applies f tuple
    → Filters.check f tuple ≡ ok (holds f.condition (project tuple f.key_attrs))
unfolding Filters.check
check-holds f tuple (cols, key) =
    rw (keys_from_tuple-project tuple f.key_attrs cols)
      (check_internal-holds f.condition _ (rw length-project key))

pass_tag-accepts :
    (fs : List Filter) (tuple : Tuple)
    → All (λ f. Applies f tuple) fs
    → pass_tag fs tuple ≡ ok (accepts fs tuple)
unfolding pass_tag
pass_tag-accepts [] tuple h = refl
pass_tag-accepts (f ∷ fs) tuple h =
    let rest = pass_tag-accepts fs tuple h.1 in
    elim (Bool-cases (holds f.condition (project tuple f.key_attrs))) [
      | inl pass ↦ rw (check-holds f tuple h.0, pass, rest)
      | inr stop ↦ rw (check-holds f tuple h.0, stop)
    ]

-- Every filter can be evaluated on every row.
abbrev pub AllApply : List Filter → List Entry → Type 0
AllApply fs rows = All (λ row. All (λ f. Applies f row.0) fs) rows

pub filter_rows-keep :
    (fs : List Filter) (rows : List Entry)
    → AllApply fs rows
    → filter_rows fs rows ≡ ok (keep fs rows)
unfolding filter_rows keep
filter_rows-keep fs [] h = refl
filter_rows-keep fs (row ∷ rows) h =
    let rest = filter_rows-keep fs rows h.1 in
    elim (Bool-cases (accepts fs row.0)) [
      | inl pass ↦ rw (pass_tag-accepts fs row.0 h.0, rest, pass)
      | inr stop ↦ rw (pass_tag-accepts fs row.0 h.0, rest, stop)
    ]

keep-append : (fs : List Filter) (a b : List Entry) → keep fs (a ++ b) ≡ keep fs a ++ keep fs b
unfolding keep
keep-append fs [] b = refl
keep-append fs (row ∷ a) b = elim (Bool-cases (accepts fs row.0)) [
  | inl pass ↦ rw (pass, keep-append fs a b)
  | inr stop ↦ rw (stop, keep-append fs a b)
]

flatten-keep :
    (fs : List Filter) (chunks : List Chunk)
    → flatten (map (keep fs) chunks) ≡ keep fs (flatten chunks)
unfolding flatten keep
flatten-keep fs [] = refl
flatten-keep fs (c ∷ chunks) = rw (keep-append fs c (flatten chunks), flatten-keep fs chunks)

module _ {C : Type 0} (child : Operator C) (ctx : ExecutionContext) (n : ℕ) (fs : List Filter) where
  filter_chunks :
      {c : C} {chunks : List Chunk}
      → Streams child ctx n c chunks
      → AllApply fs (flatten chunks)
      → Streams
          (filter_operator child)
          ctx
          n
          (record { child = c; filters = fs })
          (map (keep fs) chunks)
  unfolding filter_operator next flatten
  filter_chunks (last {s'} {out} y) h =
      last {s' = record { child = s'; filters = fs }}
        (λ fuel chunk b. rw (y fuel [] b, filter_rows-keep fs out (All-append_left _ out [] h)))
  filter_chunks (more {s'} {out} {rest} y st) h =
      more {s' = record { child = s'; filters = fs }}
        (λ fuel chunk b.
          rw (y fuel [] b, filter_rows-keep fs out (All-append_left _ out (flatten rest) h)))
        (filter_chunks st (All-append_right _ out (flatten rest) h))

  -- Over a child that returns chunks on which all filters can be evaluated, FilterOperator returns
  -- as many chunks, each with those of its rows that all filters accept, so that in all it returns
  -- the accepted rows of the child in their order and with their row ids.
  pub filter_operator-Streams :
      {c : C} (chunks : List Chunk)
      → Streams child ctx n c chunks
      → AllApply fs (flatten chunks)
      → Streams
          (filter_operator child)
          ctx
          n
          (record { child = c; filters = fs })
          (map (keep fs) chunks)
        × (flatten (map (keep fs) chunks) ≡ keep fs (flatten chunks))
  filter_operator-Streams chunks st h = (filter_chunks st h, flatten-keep fs chunks)
