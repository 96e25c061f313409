-- ===== src/Storage/Index.antt =====
-- src/include/storage/index.hpp: the interface of the indexes, which are over the primary key of a table.
pub mod FiniteMaps
use p2_hash_join_optimizatio.Common.{ℕ, String, List, [], ◌∷◌, Option, none, some, Result, ok, err}
use p2_hash_join_optimizatio.Types.{Data, RangeInfo}
use p2_hash_join_optimizatio.Storage.StlmapIndex.{
  StlmapIndex, insert_entry, erase_entry, scan_key, scan_range,
}

-- The members and the virtual methods over an index's state `I`.
pub record Index (I : Type 0) : Type 0 where
  pub name : I → String
  pub table_name : I → String
  pub key_name : I → String
  pub insert_entry : Data → ℕ → I → Result I
  pub erase_entry : Data → ℕ → I → I
  pub scan_key : Data → I → ℕ

pub record RangeIndex (I : Type 0) : Type 0 where
  pub index : Index I
  pub scan_range : RangeInfo → I → Result (List ℕ)

unfoldable pub stlmap_index : RangeIndex StlmapIndex
stlmap_index = record {
  index = record {
    name = λ i. i.name;
    table_name = λ i. i.table_name;
    key_name = λ i. i.key_name;
    insert_entry = insert_entry;
    erase_entry = erase_entry;
    scan_key = scan_key;
  };
  scan_range = scan_range;
}

-- What a client of an index calls.
pub data IndexCall : Type 0 where
  inserts : Data → ℕ → IndexCall
  erases : Data → ℕ → IndexCall
  scans : Data → IndexCall

module _ {I : Type 0} (methods : Index I) where
  -- A call that throws changes nothing.
  unfoldable pub serve : IndexCall → I → I × Result (Option ℕ)
  serve (inserts key row_id) i = elim (methods.insert_entry key row_id i) [
    | ok i' ↦ (i', ok none)
    | err e ↦ (i, err e)
  ]
  serve (erases key row_id) i = (methods.erase_entry key row_id i, ok none)
  serve (scans key) i = (i, ok (some (methods.scan_key key i)))

  -- The replies to a series of calls, and the index after them.
  unfoldable pub serve_all : List IndexCall → I → I × List (Result (Option ℕ))
  unfolding serve
  serve_all [] i = (i, [])
  serve_all (call ∷ calls) i =
      let first = serve call i in let rest = serve_all calls first.0 in (rest.0, first.1 ∷ rest.1)
