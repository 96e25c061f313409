-- ===== src/Execution/RangeIndexScan/Same.antt =====
-- The ids that the index gives and those of a walk over the table are the same up to order.
use p2_hash_join_optimizatio.Common.{
  ℕ, ◌+◌, ◌≡◌, refl, sym, ap, ◌∙◌, Bool, ◌&&◌, List, [], ◌∷◌, some, arith, drop, drop-suc,
  get_elem?, get_elem?-drop, if◌then◌else◌, Bool-cases, Option-cases, inl, inr, Perm, All,
  perm_of_occurs, ==_refl, eqb_ℤ_refl,
}
use native.Mathlib.Nat.{zero-add}
use p2_hash_join_optimizatio.Types.{Data}
use p2_hash_join_optimizatio.Types.Lookup.{column, project}
use p2_hash_join_optimizatio.Storage.Table.{Row}
use p2_hash_join_optimizatio.Storage.StlmapIndex.{Entries, StlmapIndex, find}
use p2_hash_join_optimizatio.Storage.StlmapIndex.Laws.{IsSorted, Above}
use p2_hash_join_optimizatio.Storage.StlmapIndex.Ranges.{ids}
use p2_hash_join_optimizatio.Storage.StlmapIndex.OfTable.{IsIndexed}
use p2_hash_join_optimizatio.Execution.RangeIndexScan.Fetched.{fetched, chosen_rows, fetched-perm}
use p2_hash_join_optimizatio.Execution.RangeIndexScan.Counts.{
  live_at, key_at, leads_to, live_ids, walk_ids, occurs-live_ids, occurs-ids, occurs-walk_ids,
}

-- An entry of an index in order is the one that its key finds.
pub entries-found : (m : Entries) → IsSorted m → All (λ e. find e.0 m ≡ some e.1) m
unfolding find
entries-found [] s = tt
entries-found ((j, q) ∷ m) s = (rw (eqb_ℤ_refl j), behind m s.0 (entries-found m s.1))
  where
    behind :
        (n : Entries)
        → Above j n
        → All (λ e. find e.0 m ≡ some e.1) n
        → All (λ e. find e.0 ((j, q) ∷ m) ≡ some e.1) n
    behind [] a f = tt
    behind (e ∷ n) a f = (ground (arith, f.0, a.0), behind n a.1 f.1)

module _ (attr : ℕ) (rows : List Row) (index : StlmapIndex) (ind : IsIndexed attr rows index) where
  entry-key :
      (r : ℕ) (n : Entries)
      → All (λ e. find e.0 index.index ≡ some e.1) n
      → All (λ e. e.1 ≡ r → e.0 ≡ key_at attr rows r) n
  entry-key r [] f = tt
  entry-key r (e ∷ n) f =
      let (row, there, keyed) = ind.sound e.0 e.1 f.0 in
      ((λ same. sym keyed ∙ sym (rw (← same, there))), entry-key r n f.1)

  -- Every entry leads to a row of the table.
  pub ids-rows :
      (choose : Data → Bool) (n : Entries)
      → All (λ e. find e.0 index.index ≡ some e.1) n
      → All (λ r. (row : Row) × (get_elem? rows r ≡ some row)) (ids choose n)
  unfolding ids
  ids-rows choose [] f = tt
  ids-rows choose (e ∷ n) f =
      let (row, there, keyed) = ind.sound e.0 e.1 f.0 in
      elim (Bool-cases (choose e.0)) [
        | inl taken ↦ rw taken ((row, there), ids-rows choose n f.1)
        | inr left ↦ rw left (ids-rows choose n f.1)
      ]

  -- Which ids occur on either side.
  live-leads_to :
      (choose : Data → Bool) (r n : ℕ)
      → n ≡ (
          if choose (key_at attr rows r) && leads_to r (find (key_at attr rows r) index.index)
          then 1
          else 0)
      → (if live_at rows r then n else 0)
        ≡ (if live_at rows r && choose (key_at attr rows r) then 1 else 0)
  live-leads_to choose r n e = elim (Option-cases (get_elem? rows r)) [
    | inl absent ↦ rw absent
    | inr (row, there) ↦ elim (Bool-cases row.tuple_meta.is_deleted) [
      | inl gone ↦ rw (there, gone)
      | inr kept ↦
          let found = ind.complete r row there kept in
          elim (Bool-cases (choose (column row.tuple attr))) [
            | inl chosen ↦ rw (there, kept, chosen) (rw (there, chosen, found, ==_refl r) at e)
            | inr not_chosen ↦ rw (there, kept, not_chosen) (rw (there, not_chosen) at e)
          ]
    ]
  ]

  live_ids-perm :
      (choose : Data → Bool)
      → IsSorted index.index
      → Perm (live_ids rows (ids choose index.index)) (walk_ids choose attr rows 0)
  live_ids-perm choose s = perm_of_occurs _ _ (λ r.
      let indexed =
        occurs-ids choose (key_at attr rows r) r index.index s
          (entry-key r index.index (entries-found index.index s)) in
      occurs-live_ids rows r (ids choose index.index)
      ∙ live-leads_to choose r _ indexed
      ∙ sym (rw zero-add at (occurs-walk_ids choose attr rows 0 r)))

fetched-live_ids :
    (attrs : List ℕ) (rows : List Row) (xs : List ℕ)
    → fetched attrs rows (live_ids rows xs) ≡ fetched attrs rows xs
unfolding fetched
fetched-live_ids attrs rows [] = refl
fetched-live_ids attrs rows (r ∷ xs) =
    let rest = fetched-live_ids attrs rows xs in
    elim (Option-cases (get_elem? rows r)) [
      | inl absent ↦ rw absent rest
      | inr (row, there) ↦ elim (Bool-cases row.tuple_meta.is_deleted) [
        | inl gone ↦ rw (there, gone) rest
        | inr kept ↦ rw (there, kept, there, kept) (ap (λ x. (project row.tuple attrs, r) ∷ x) rest)
      ]
    ]

fetched-walk_ids :
    (choose : Data → Bool) (attr : ℕ) (attrs : List ℕ) (rows rest : List Row) (i : ℕ)
    → drop i rows ≡ rest
    → fetched attrs rows (walk_ids choose attr rest i) ≡ chosen_rows choose attr attrs rest i
unfolding fetched chosen_rows
fetched-walk_ids choose attr attrs rows [] i e = refl
fetched-walk_ids choose attr attrs rows (row ∷ rest) i e =
    let here = get_elem?-drop i rows row rest e in
    let next = fetched-walk_ids choose attr attrs rows rest (i + 1) (drop-suc i rows row rest e) in
    elim (Bool-cases (choose (column row.tuple attr))) [
      | inl chosen ↦ elim (Bool-cases row.tuple_meta.is_deleted) [
        | inl gone ↦ rw (chosen, gone) next
        | inr kept ↦ rw (chosen, kept, here, kept) (ap (λ x. (project row.tuple attrs, i) ∷ x) next)
      ]
      | inr not_chosen ↦ elim (Bool-cases row.tuple_meta.is_deleted) [
        | inl gone ↦ rw (not_chosen, gone) next
        | inr kept ↦ rw (not_chosen, kept) next
      ]
    ]

-- The live rows that an index right for the table gives are those of a walk over the table.
pub fetched-chosen_rows :
    (choose : Data → Bool) (attr : ℕ) (attrs : List ℕ) (rows : List Row) (index : StlmapIndex)
    → IsIndexed attr rows index
    → IsSorted index.index
    → Perm (fetched attrs rows (ids choose index.index)) (chosen_rows choose attr attrs rows 0)
fetched-chosen_rows choose attr attrs rows index ind s =
    rw
      (
        ← fetched-live_ids attrs rows (ids choose index.index),
        ← fetched-walk_ids choose attr attrs rows rows 0 refl,
      )
      (fetched-perm attrs rows (live_ids-perm attr rows index ind choose s))
