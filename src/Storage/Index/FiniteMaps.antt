-- ===== src/Storage/Index/FiniteMaps.antt =====
-- The abstract view of an index: a function from keys to row ids, without an order of the entries.
use mathlib.Core.Path.{fun_ext}
use p2_hash_join_optimizatio.Common.{
  ℕ, ◌≡◌, refl, sym, ap, ap₂, ◌∙◌, inl, inr, String, List, [], ◌∷◌, Option, none, some, Result, ok,
  throw, duplicated_key, Option-cases, eqb_ℤ, if◌then◌else◌,
}
use p2_hash_join_optimizatio.Types.{Data, invalid_id}
use p2_hash_join_optimizatio.Storage.StlmapIndex.{
  StlmapIndex, find, insert_entry, erase_entry, scan_key,
}
use p2_hash_join_optimizatio.Storage.StlmapIndex.Laws.{
  IsSorted, find-put, put-IsSorted, find-erase, erase-IsSorted,
}
use p2_hash_join_optimizatio.Storage.Index.{
  Index, IndexCall, inserts, erases, scans, stlmap_index, serve, serve_all,
}

pub record FiniteMap : Type 0 where
  pub name : String
  pub table_name : String
  pub key_name : String
  pub row_id_of : Data → Option ℕ

-- What an index is to do: no key is inserted twice, and a key that is not there has the invalid id.
unfoldable pub finite_map : Index FiniteMap
finite_map = record {
  name = λ m. m.name;
  table_name = λ m. m.table_name;
  key_name = λ m. m.key_name;
  insert_entry = λ key row_id m. elim (m.row_id_of key) [
    | some _ ↦ throw duplicated_key
    | none ↦ ok (record m { row_id_of = λ j. if eqb_ℤ key j then some row_id else m.row_id_of j })
  ];
  erase_entry =
      λ key row_id m. record m { row_id_of = λ j. if eqb_ℤ key j then none else m.row_id_of j };
  scan_key = λ key m. elim (m.row_id_of key) [ none ↦ invalid_id | some row_id ↦ row_id ];
}

abbrev pub view : StlmapIndex → FiniteMap
view i = record {
  name = i.name;
  table_name = i.table_name;
  key_name = i.key_name;
  row_id_of = λ key. find key i.index;
}

-- One call does the same on both sides.
abbrev Same : IndexCall → StlmapIndex → Type 0
Same call i =
    (serve finite_map call (view i)
      ≡ (view (serve stlmap_index.index call i).0, (serve stlmap_index.index call i).1))
    × IsSorted (serve stlmap_index.index call i).0.index

serve-Same : (call : IndexCall) (i : StlmapIndex) → IsSorted i.index → Same call i
unfolding serve finite_map stlmap_index insert_entry erase_entry scan_key
serve-Same (inserts key row_id) i sorted = elim (Option-cases (find key i.index)) [
  | inr (r, there) ↦ rw (there, serve, finite_map, insert_entry) (refl, sorted)
  | inl absent ↦
      rw (absent, serve, finite_map, insert_entry)
        (
          ap (λ f. (record (view i) { row_id_of = f }, ok none))
              (sym (fun_ext (λ j. find-put key j row_id i.index))),
          put-IsSorted key row_id i.index sorted,
        )
]
serve-Same (erases key row_id) i sorted = (
  ap (λ f. (record (view i) { row_id_of = f }, ok none))
      (sym (fun_ext (λ j. find-erase key j i.index sorted))),
  erase-IsSorted key i.index sorted,
)
serve-Same (scans key) i sorted = (refl, sorted)

-- Whatever a client calls on an index in order, InsertEntry, EraseEntry and ScanKey in any
-- sequence, each call of StlmapIndex replies or throws as the finite map does that the index stands
-- for, the index after the calls stands for the finite map after them, and it is in order.
pub stlmap_index-Refines :
    (calls : List IndexCall) (i : StlmapIndex)
    → IsSorted i.index
    → ((serve_all stlmap_index.index calls i).1 ≡ (serve_all finite_map calls (view i)).1)
      × (view (serve_all stlmap_index.index calls i).0 ≡ (serve_all finite_map calls (view i)).0)
      × IsSorted (serve_all stlmap_index.index calls i).0.index
unfolding serve_all
stlmap_index-Refines [] i sorted = (refl, refl, sorted)
stlmap_index-Refines (call ∷ calls) i sorted =
    let (same, kept) = serve-Same call i sorted in
    let first = serve stlmap_index.index call i in
    let (replies, after, sorted') = stlmap_index-Refines calls first.0 kept in
    let first_reply = ap (λ (r : FiniteMap × Result (Option ℕ)). r.1) same in
    let first_map = ap (λ (r : FiniteMap × Result (Option ℕ)). r.0) same in
    (
      ap₂ (λ r rs. r ∷ rs) (sym first_reply)
          (replies ∙ ap (λ m. (serve_all finite_map calls m).1) (sym first_map)),
      after ∙ ap (λ m. (serve_all finite_map calls m).0) (sym first_map),
      sorted',
    )
