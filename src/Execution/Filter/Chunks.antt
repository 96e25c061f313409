-- ===== src/Execution/Filter/Chunks.antt =====
-- A filter makes its answer of one chunk of its child.
use p2_hash_join_optimizatio.Common.{
  ℕ, ◌≡◌, refl, sym, ap, ◌∙◌, inl, inr, String, Bool-cases, List, [], ◌∷◌, ◌++◌, ok, ok_injective,
  >>=-eq-ok, subst, All,
}
use p2_hash_join_optimizatio.Storage.Table.{Table}
use p2_hash_join_optimizatio.Execution.Operator.{ExecutionContext, Operator, Chunk, Entry}
use p2_hash_join_optimizatio.Execution.Operator.Walks.{Walks}
use p2_hash_join_optimizatio.Execution.Operator.Walks.Chunkwise.{Chunkwise, Walks-Chunkwise}
use p2_hash_join_optimizatio.Execution.Expression.Filters.{Filter}
use p2_hash_join_optimizatio.Execution.Filter.{pass_tag, filter_rows, next, filter_operator}

filter_rows-append :
    (fs : List Filter) (a b out : Chunk)
    → filter_rows fs (a ++ b) ≡ ok out
    → (x y : Chunk) × (filter_rows fs a ≡ ok x) × (filter_rows fs b ≡ ok y) × (out ≡ x ++ y)
unfolding filter_rows
filter_rows-append fs [] b out h = ([], out, refl, h, refl)
filter_rows-append fs (row ∷ a) b out h =
    let (pass, tested, rest) = >>=-eq-ok (pass_tag fs row.0) _ h in
    let (others, after, done) = >>=-eq-ok (filter_rows fs (a ++ b)) _ rest in
    let (x, y, first, second, joined) = filter_rows-append fs a b others after in
    elim (Bool-cases pass) [
      | inl passed ↦ (
        row ∷ x,
        y,
        rw (tested, first, passed) refl,
        second,
        sym (ok_injective (rw passed at done)) ∙ ap (λ r. row ∷ r) joined,
      )
      | inr failed ↦ (
        x,
        y,
        rw (tested, first, failed) refl,
        second,
        sym (ok_injective (rw failed at done)) ∙ joined,
      )
    ]

pub filter_rows-ids :
    (fs : List Filter) (Q : ℕ → Type 0) (a out : Chunk)
    → filter_rows fs a ≡ ok out
    → All (λ (e : Entry). Q e.1) a
    → All (λ (e : Entry). Q e.1) out
unfolding filter_rows
filter_rows-ids fs Q [] out h below = rw (← ok_injective h) tt
filter_rows-ids fs Q (row ∷ a) out h (here, below) =
    let (pass, tested, rest) = >>=-eq-ok (pass_tag fs row.0) _ h in
    let (others, after, done) = >>=-eq-ok (filter_rows fs a) _ rest in
    let kept = filter_rows-ids fs Q a others after below in
    elim (Bool-cases pass) [
      | inl passed ↦
          subst (All (λ (e : Entry). Q e.1)) (ok_injective (rw passed at done)) (here, kept)
      | inr failed ↦ subst (All (λ (e : Entry). Q e.1)) (ok_injective (rw failed at done)) kept
    ]

abbrev filter_chunks :
    {C : Type 0} (child : Operator C) (fs : List Filter) → Chunkwise child (filter_operator child)
unfolding filter_operator next
filter_chunks child fs = record {
  make = filter_rows fs;
  wrap = λ s. record { child = s; filters = fs };
  answers = λ fuel ctx s s' state out made chunk y made_of. rw (y [], made_of) refl;
  parts = filter_rows-append fs;
  ids = filter_rows-ids fs;
}

-- A filter over an operator that walks a table walks it.
pub filter-Walks :
    {C : Type 0} (child : Operator C) (fs : List Filter) (ctx : ExecutionContext)
    (table_name : String) (table : Table) (s : C) (input made : List Entry)
    → Walks child ctx table_name table s input
    → filter_rows fs input ≡ ok made
    → Walks (filter_operator child) ctx table_name table (record { child = s; filters = fs }) made
unfolding filter_chunks
filter-Walks child fs ctx table_name table s input made w whole =
    Walks-Chunkwise child (filter_operator child) (filter_chunks child fs) ctx table_name table s
      input made w whole
