-- ===== src/Execution/Plan/Columns.antt =====
-- What the tests of `Check` say of the tuples.
use p2_hash_join_optimizatio.Common.{
  ℕ, String, ◌≡◌, sym, ap, ◌∙◌, inl, inr, List, [], ◌∷◌, ok, length, All, All-map, >>=-eq-ok,
  Bool-cases, ok_injective, ==_iff, ◌==◌,
}
use p2_hash_join_optimizatio.Types.{Tuple, Schema, get_key_attrs, get_key_attr}
use p2_hash_join_optimizatio.Types.Schemas.{get_key_attrs-lt}
use p2_hash_join_optimizatio.Storage.Table.{Row}
use p2_hash_join_optimizatio.Execution.Value.{check_tuples}
use p2_hash_join_optimizatio.Execution.Value.Rows.{as_rows}
use p2_hash_join_optimizatio.Execution.SeqScan.Rows.{Fits}
use p2_hash_join_optimizatio.Execution.Expression.Filters
use p2_hash_join_optimizatio.Execution.Expression.Filters.{Filter}
use p2_hash_join_optimizatio.Execution.Filter.{init_filters}
use p2_hash_join_optimizatio.Execution.Filter.Rows.{HasKey, Applies}
use p2_hash_join_optimizatio.Execution.HashJoin.Spec.{Wide}

pub check_tuples-Wide :
    (schema : Schema) (tuples : List Tuple)
    → check_tuples schema tuples ≡ ok tt
    → Wide (length schema) (as_rows tuples)
unfolding check_tuples
check_tuples-Wide schema [] h = tt
check_tuples-Wide schema (t ∷ ts) h = elim (Bool-cases (length schema == length t)) [
  | inl same ↦ (
    sym ((==_iff (length schema) (length t)).0 same),
    check_tuples-Wide schema ts (rw (same, check_tuples) at h),
  )
  | inr differ ↦ absurd (cc (rw (differ, check_tuples) at h))
]

-- The columns of a schema are there in tuples of its width.
pub columns-Fits :
    (schema columns : Schema) (attrs : List ℕ) (rows : List Row)
    → get_key_attrs schema columns ≡ ok attrs
    → All (λ row. length row.tuple ≡ length schema) rows
    → Fits attrs rows
columns-Fits schema columns attrs rows h wide =
    All-map _ _
      (λ row width.
        All-map _ _ (λ p lt. rw width lt) attrs (get_key_attrs-lt schema columns attrs h).0)
      rows wide

pub init_filters-Applies :
    (schema : Schema) (fs ready : List Filter)
    → init_filters schema fs ≡ ok ready
    → All (λ f. HasKey f.condition (length f.keys_schema)) fs
    → (t : Tuple) → length t ≡ length schema
    → All (λ f. Applies f t) ready
unfolding init_filters Filters.init
init_filters-Applies schema [] ready h keyed t width = rw (← ok_injective h) tt
init_filters-Applies schema (f ∷ fs) ready h keyed t width =
    let (g, one, rest) = >>=-eq-ok (Filters.init f schema) _ h in
    let (attrs, found, made) = >>=-eq-ok (get_key_attrs schema f.keys_schema) _ one in
    let (others, done, whole) = >>=-eq-ok (init_filters schema fs) _ rest in
    let same : ready ≡ record f { key_attrs = attrs } ∷ others =
      sym (ok_injective whole) ∙ ap (λ x. x ∷ others) (sym (ok_injective made)) in
    let (bounds, count) = get_key_attrs-lt schema f.keys_schema attrs found in
    rw same (
      (rw width bounds, rw count keyed.0),
      init_filters-Applies schema fs others done keyed.1 t width,
    )

pub key_attr_of_one :
    (schema given : Schema) (column : String) (attrs : List ℕ)
    → given ≡ schema
    → get_key_attrs given (column ∷ []) ≡ ok attrs
    → (attr : ℕ) × (get_key_attr schema column ≡ ok attr)
unfolding get_key_attrs
key_attr_of_one schema given column attrs same h =
    let (attr, found, _) = >>=-eq-ok (get_key_attr given column) _ h in
    (attr, ap (λ s. get_key_attr s column) (sym same) ∙ found)
