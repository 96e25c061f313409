-- ===== src/Execution/Projection/Width.antt =====
-- The schema of the operator against the tuples that it returns.
use p2_hash_join_optimizatio.Common.{
  ok_injective, suc, ◌+◌, ◌≡◌, refl, sym, ap, ◌∙◌, Bool, true, false, List, [], ◌∷◌, ◌++◌, Option,
  none, some, Option-cases, inl, inr, ok, arith, length, replicate, set, length-append, length-set,
  length-replicate, All, All-map, subst, if◌then◌else◌, >>=-eq-ok,
}
use p2_hash_join_optimizatio.Types.{Tuple, Schema, at, get_key_attr}
use p2_hash_join_optimizatio.Execution.Operator.{Entry, Chunk}
use p2_hash_join_optimizatio.Execution.Expression.Projections
use p2_hash_join_optimizatio.Execution.Expression.Projections.{Projection}
use p2_hash_join_optimizatio.Execution.Projection.{
  place, fill_units, push_names, new_projection, project_tuple, project_rows, init_projections,
}

project_tuple-length :
    (ps : List Projection) (tuple out : Tuple)
    → project_tuple ps tuple ≡ ok out
    → length out ≡ length ps
unfolding project_tuple
project_tuple-length [] tuple [] h = refl
project_tuple-length [] tuple (x ∷ out) h = absurd (cc)
project_tuple-length (p ∷ ps) tuple out h =
    let (x, calculated, rest) = >>=-eq-ok (Projections.calc p tuple) _ h in
    let (xs, others, done) = >>=-eq-ok (project_tuple ps tuple) _ rest in
    let whole : out ≡ x ∷ xs = cc done in
    rw whole (ap suc (project_tuple-length ps tuple xs others))

place-length :
    (schema : Schema) (ps slots out : List (Option Projection))
    → place schema ps slots ≡ ok out
    → length out ≡ length slots
unfolding place
place-length schema [] slots out h = ap length (sym (ok_injective h))
place-length schema (none ∷ ps) slots out h = absurd (cc)
place-length schema (some p ∷ ps) slots out h =
    let (attr, key, rest) = >>=-eq-ok (get_key_attr schema p.output_name) _ h in
    let (slot, read, rest') = >>=-eq-ok (at slots attr) _ rest in
    elim (Option-cases slot) [
      | inr (q, taken) ↦ absurd (cc (rw taken at rest'))
      | inl free ↦
          place-length schema ps (set slots attr (some p)) out (rw free at rest')
          ∙ length-set slots attr (some p)
    ]

fill_units-length :
    (schema : Schema) (slots : List (Option Projection))
    → length slots ≡ length schema
    → length (fill_units schema slots) ≡ length schema
unfolding fill_units
fill_units-length [] slots h = refl
fill_units-length (c ∷ schema) [] h = absurd (omega arith)
fill_units-length (c ∷ schema) (some p ∷ slots) h =
    ap suc (fill_units-length schema slots (omega arith))
fill_units-length (c ∷ schema) (none ∷ slots) h =
    ap suc (fill_units-length schema slots (omega arith))

push_names-length :
    (schema out : Schema) (ps : List (Option Projection)) (qs : List Projection)
    → push_names schema ps ≡ ok (out, qs)
    → length out ≡ length schema + length qs
unfolding push_names
push_names-length schema out [] qs h =
    let e = ok_injective h in
    omega (
      arith,
      ap (λ (r : Schema × List Projection). length r.0) e,
      ap (λ (r : Schema × List Projection). length r.1) e,
    )
push_names-length schema out (none ∷ ps) qs h = absurd (cc)
push_names-length schema out (some p ∷ ps) qs h =
    let (r, pushed, done) = >>=-eq-ok (push_names (schema ++ p.output_name ∷ []) ps) _ h in
    let same : r.0 ≡ out = cc done in
    let count : p ∷ r.1 ≡ qs = cc done in
    omega (
      arith,
      push_names-length (schema ++ p.output_name ∷ []) r.0 ps r.1 pushed,
      ap length same,
      ap length count,
      length-append schema (p.output_name ∷ []),
    )

init_projections-length :
    (schema : Schema) (ps qs : List Projection)
    → init_projections schema ps ≡ ok qs
    → length qs ≡ length ps
unfolding init_projections
init_projections-length schema [] qs h = ap length (sym (ok_injective h))
init_projections-length schema (p ∷ ps) qs h =
    let (q, one, rest) = >>=-eq-ok (Projections.init p schema) _ h in
    let (qs', others, done) = >>=-eq-ok (init_projections schema ps) _ rest in
    let whole : qs ≡ q ∷ qs' = cc done in
    rw whole (ap suc (init_projections-length schema ps qs' others))

project_rows-All :
    (ps : List Projection) (chunk out : Chunk)
    → project_rows ps chunk ≡ ok out
    → All (λ row. length row.0 ≡ length ps) out
unfolding project_rows
project_rows-All ps [] out h = rw (← ok_injective h) tt
project_rows-All ps (row ∷ rows) out h =
    let (tuple, calculated, rest) = >>=-eq-ok (project_tuple ps row.0) _ h in
    let (others, after, done) = >>=-eq-ok (project_rows ps rows) _ rest in
    let whole : out ≡ (tuple, row.1) ∷ others = cc done in
    rw whole (project_tuple-length ps row.0 tuple calculated, project_rows-All ps rows others after)

-- For a ProjectionOperator that is built and initialised, and that projects a chunk without an
-- error: built in place, it has the schema of its child and each row has as many values as the
-- schema has columns; built otherwise, the schema is longer than each row by the width of the
-- child.
pub new_projection-width :
    (child_schema schema : Schema) (projections : List (Option Projection))
    (ps qs : List Projection) (update_in_place : Bool) (chunk out : Chunk)
    → new_projection child_schema projections update_in_place ≡ ok (schema, ps)
    → init_projections child_schema ps ≡ ok qs
    → project_rows qs chunk ≡ ok out
    → if update_in_place
      then ((schema ≡ child_schema) × All (λ row. length row.0 ≡ length schema) out)
      else All (λ row. length schema ≡ length child_schema + length row.0) out
unfolding new_projection
new_projection-width child_schema schema projections ps qs true chunk out h ready run =
    let (slots, placed, done) =
      >>=-eq-ok (place child_schema projections (replicate (length child_schema) none)) _ h in
    let e = ok_injective done in
    let filled : length ps ≡ length child_schema =
      ap (λ (r : Schema × List Projection). length r.1) (sym e)
      ∙ fill_units-length child_schema slots (
          place-length child_schema projections _ slots placed
          ∙ length-replicate (length child_schema) none) in
    let same : schema ≡ child_schema = ap (λ (r : Schema × List Projection). r.0) (sym e) in
    let width : length qs ≡ length schema =
      init_projections-length child_schema ps qs ready ∙ filled ∙ ap length (sym same) in
    (
      same,
      subst (λ n. All (λ (row : Entry). length row.0 ≡ n) out) width
          (project_rows-All qs chunk out run),
    )
new_projection-width child_schema schema projections ps qs false chunk out h ready run =
    All-map _ _
      (λ row width. omega (
        arith,
        push_names-length child_schema schema projections ps h,
        init_projections-length child_schema ps qs ready,
      ))
      out (project_rows-All qs chunk out run)
