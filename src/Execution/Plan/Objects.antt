-- ===== src/Execution/Plan/Objects.antt =====
-- The objects of a tree between the calls on it: what `Next` changes is left open, `Init` sets it.
use p2_hash_join_optimizatio.Common.{
  ℕ, ◌≡◌, refl, sym, ap, ◌∙◌, List, [], ◌∷◌, ok, map, Result-cases, inl, inr, >>=-eq-ok,
}
use p2_hash_join_optimizatio.Types.{Schema, get_key_attrs}
use p2_hash_join_optimizatio.Execution.Expression.Filters
use p2_hash_join_optimizatio.Execution.Expression.Filters.{Filter}
use p2_hash_join_optimizatio.Execution.Filter.{init_filters}
use p2_hash_join_optimizatio.Execution.UnorderedMultimap.{UnorderedMultimap}
use p2_hash_join_optimizatio.Execution.Plan.{Plan, values, scan, filter, join, State}

-- A filter as it is built.
abbrev pub plain : Filter → Filter
plain f = record f { key_attrs = [] }

module _ (multimap : UnorderedMultimap ℕ) where
  abbrev pub Built : (plan : Plan) → State multimap plan → Type 0
  Built (values v) s = s ≡ record v { next_tuple_id = s.next_tuple_id }
  Built (scan q) s = s ≡ record q { next_row_id = s.next_row_id }
  Built (filter filters child) s = Built child s.child × (map plain s.filters ≡ map plain filters)
  Built (join probe build probe_column build_column) s =
      Built probe s.cursor.probe_child × Built build s.build_child

-- `Init` of a filter does not read the columns that it has found before.
init_filters-plain :
    (schema : Schema) (fs : List Filter)
    → init_filters schema fs ≡ init_filters schema (map plain fs)
unfolding init_filters Filters.init
init_filters-plain schema [] = refl
init_filters-plain schema (f ∷ fs) = rw (← init_filters-plain schema fs) refl

pub init_filters-same :
    (schema : Schema) (fs gs : List Filter)
    → map plain fs ≡ map plain gs
    → init_filters schema fs ≡ init_filters schema gs
init_filters-same schema fs gs same =
    init_filters-plain schema fs
    ∙ ap (init_filters schema) same
    ∙ sym (init_filters-plain schema gs)

-- `Init` changes nothing else of a filter.
pub plain-init_filters :
    (schema : Schema) (fs ready : List Filter)
    → init_filters schema fs ≡ ok ready
    → map plain ready ≡ map plain fs
unfolding init_filters Filters.init
plain-init_filters schema [] ready h = cc h
plain-init_filters schema (f ∷ fs) ready h =
    elim (Result-cases (get_key_attrs schema f.keys_schema)) [
      | inl (e, failed) ↦ absurd (cc (rw failed at h))
      | inr (attrs, found) ↦
          let (others, done, whole) = >>=-eq-ok (init_filters schema fs) _ (rw found at h) in
          let same : ready ≡ record f { key_attrs = attrs } ∷ others = cc whole in
          rw same (ap (λ r. plain f ∷ r) (plain-init_filters schema fs others done))
    ]
