-- ===== src/Storage/StlmapIndex/Laws.antt =====
-- The index as a map from keys to row ids, kept in the order of the keys.
use p2_hash_join_optimizatio.Common.{
  ℕ, ◌≡◌, ◌≢◌, refl, ◌⊎◌, inl, inr, true, [], ◌∷◌, none, some, Option-cases, ok, throw,
  duplicated_key, arith, All, Bool-cases, ltb_ℤ, eqb_ℤ, if◌then◌else◌,
}
use p2_hash_join_optimizatio.Types.{Data, invalid_id}
use p2_hash_join_optimizatio.Storage.StlmapIndex.{
  Entries, StlmapIndex, find, put, erase, insert_entry, erase_entry, scan_key,
}

-- All keys are greater than `k`.
abbrev pub Above : Data → Entries → Type 0
Above k m = All (λ e. ltb_ℤ k e.0 ≡ true) m

-- The keys increase, so none occurs twice.
abbrev pub IsSorted : Entries → Type 0
IsSorted [] = Unit
IsSorted ((k, r) ∷ m) = Above k m × IsSorted m

pub find-put :
    (k j : Data) (r : ℕ) (m : Entries)
    → find j (put k r m) ≡ (if eqb_ℤ k j then some r else find j m)
unfolding find put
find-put k j r [] = refl
find-put k j r ((i, q) ∷ m) = ground (arith, find-put k j r m)

Above-trans : (k j : Data) (m : Entries) → ltb_ℤ k j ≡ true → Above j m → Above k m
Above-trans k j [] h a = tt
Above-trans k j ((i, q) ∷ m) h a = (ground (arith, a.0), Above-trans k j m h a.1)

Above-put : (i k : Data) (r : ℕ) (m : Entries) → ltb_ℤ i k ≡ true → Above i m → Above i (put k r m)
unfolding put
Above-put i k r [] h a = (h, tt)
Above-put i k r ((j, q) ∷ m) h a = elim (Bool-cases (eqb_ℤ j k)) [
  | inl same ↦ rw same (h, a.1)
  | inr ne ↦ elim (Bool-cases (ltb_ℤ k j)) [
    | inl before ↦ rw (ne, before) (h, a)
    | inr after ↦ rw (ne, after) (a.0, Above-put i k r m h a.1)
  ]
]

pub put-IsSorted : (k : Data) (r : ℕ) (m : Entries) → IsSorted m → IsSorted (put k r m)
unfolding put
put-IsSorted k r [] s = (tt, tt)
put-IsSorted k r ((j, q) ∷ m) s = elim (Bool-cases (eqb_ℤ j k)) [
  | inl same ↦ rw same (Above-eq j k m same s.0, s.1)
  | inr ne ↦ elim (Bool-cases (ltb_ℤ k j)) [
    | inl before ↦ rw (ne, before) ((before, Above-trans k j m before s.0), s)
    | inr after ↦ rw (ne, after) (Above-put j k r m (ground arith) s.0, put-IsSorted k r m s.1)
  ]
]
  where
    Above-eq : (j k : Data) (m : Entries) → eqb_ℤ j k ≡ true → Above j m → Above k m
    Above-eq j k [] e a = tt
    Above-eq j k (x ∷ m) e a = (ground (arith, a.0), Above-eq j k m e a.1)

Above-erase : (i k : Data) (m : Entries) → Above i m → Above i (erase k m)
unfolding erase
Above-erase i k [] a = tt
Above-erase i k ((j, q) ∷ m) a = elim (Bool-cases (eqb_ℤ j k)) [
  | inl same ↦ rw same a.1
  | inr ne ↦ rw ne (a.0, Above-erase i k m a.1)
]

pub erase-IsSorted : (k : Data) (m : Entries) → IsSorted m → IsSorted (erase k m)
unfolding erase
erase-IsSorted k [] s = tt
erase-IsSorted k ((j, q) ∷ m) s = elim (Bool-cases (eqb_ℤ j k)) [
  | inl same ↦ rw same s.1
  | inr ne ↦ rw ne (Above-erase j k m s.0, erase-IsSorted k m s.1)
]

pub find-Above : (k : Data) (m : Entries) → Above k m → find k m ≡ none
unfolding find
find-Above k [] a = refl
find-Above k ((j, q) ∷ m) a = ground (arith, find-Above k m, a.0, a.1)

pub find-erase :
    (k j : Data) (m : Entries)
    → IsSorted m
    → find j (erase k m) ≡ (if eqb_ℤ k j then none else find j m)
unfolding find erase
find-erase k j [] s = ground arith
find-erase k j ((i, q) ∷ m) s = ground (arith, find-erase k j m s.1, find-Above i m s.0)

-- On an index in order, InsertEntry of a key that is there throws; any other key is inserted: the
-- order is kept, ScanKey of the key then returns the row id, and ScanKey of any other key returns
-- what it returned before.
insert_entry-scan_key :
    (key : Data) (row_id : ℕ) (ix : StlmapIndex)
    → IsSorted ix.index
    → ((find key ix.index ≢ none) × (insert_entry key row_id ix ≡ throw duplicated_key))
      ⊎ ((find key ix.index ≡ none)
          × (ix' : StlmapIndex) × (insert_entry key row_id ix ≡ ok ix')
          × IsSorted ix'.index
          × ((j : Data) → scan_key j ix' ≡ (if eqb_ℤ key j then row_id else scan_key j ix)))
unfolding insert_entry scan_key
insert_entry-scan_key key row_id ix s = elim (Option-cases (find key ix.index)) [
  | inr (r, there) ↦ inl ((λ e. cc), rw (there, insert_entry))
  | inl absent ↦ inr (
    absent,
    record ix { index = put key row_id ix.index },
    rw (absent, insert_entry),
    put-IsSorted key row_id ix.index s,
    λ j. ground (arith, find-put key j row_id ix.index),
  )
]

-- On an index in order, after EraseEntry the order is kept, ScanKey of the key finds nothing and
-- ScanKey of any other key returns what it returned before.
erase_entry-scan_key :
    (key j : Data) (row_id : ℕ) (ix : StlmapIndex)
    → IsSorted ix.index
    → IsSorted (erase_entry key row_id ix).index
      × (scan_key j (erase_entry key row_id ix)
          ≡ (if eqb_ℤ key j then invalid_id else scan_key j ix))
unfolding erase_entry scan_key
erase_entry-scan_key key j row_id ix s =
    (erase-IsSorted key ix.index s, ground (arith, find-erase key j ix.index s))
