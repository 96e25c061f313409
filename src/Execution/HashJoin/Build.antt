-- ===== src/Execution/HashJoin/Build.antt =====
-- `BuildHashTable`: all rows of the build child stand in one vector, and the offsets under a key are
-- those of the rows with that key.
use mathlib.Core.List.Perm
use native.Mathlib.Bridge.{le_prop}
use native.Mathlib.Nat.{zero-add}
use p2_hash_join_optimizatio.Common.{
  ℕ, suc, ◌+◌, ◌*◌, ◌≤◌, ◌<◌, ◌≡◌, refl, sym, ap₂, ◌∙◌, inl, inr, List, [], ◌∷◌, ◌++◌, append_assoc,
  append-nil, map, flatten, Perm, ok, arith, length, take, drop, All, length-append, by_fuel,
  take-append_length, drop-append_length, eqb_ℤ, if◌then◌else◌, Bool-cases, All-perm,
  perm-if_middle, String,
}
use p2_hash_join_optimizatio.Types.{Data, Tuple, at, get_key_attrs}
use p2_hash_join_optimizatio.Types.Lookup.{column, at-get_or, at-append_left, at-append_right}
use p2_hash_join_optimizatio.Execution.Operator.{ExecutionContext, Entry, Chunk, Operator}
use p2_hash_join_optimizatio.Execution.Operator.Contract.{Streams, last, more, Delivers}
use p2_hash_join_optimizatio.Execution.UnorderedMultimap.{UnorderedMultimap}
use p2_hash_join_optimizatio.Execution.HashJoin.Spec.{matching, Wide}
use p2_hash_join_optimizatio.Execution.HashJoin.{
  BuildTable, append_rows, build_loop, index_loop, HashJoinOperator, build_hash_table,
}

-- The values of the rows, one row after the other.
unfoldable pub values : List Entry → List Data
values [] = []
values (row ∷ rows) = row.0 ++ values rows

-- The offsets of the rows whose column is `key`, where the first row given has number `i`.
offsets : ℕ → ℕ → Data → ℕ → List Entry → List ℕ
offsets width attr key i [] = []
offsets width attr key i (row ∷ rows) =
    let rest = offsets width attr key (i + 1) rows in
    if eqb_ℤ (column row.0 attr) key then (i * width) ∷ rest else rest

-- The row that starts at an offset.
abbrev pub slice : List Data → ℕ → ℕ → Tuple
slice tuples width start = take width (drop start tuples)

module _ (width attr : ℕ) (key : Data) where
  slice-head :
      (pre row rest : List Data) (start : ℕ)
      → length pre ≡ start
      → length row ≡ width
      → slice (pre ++ (row ++ rest)) width start ≡ row
  slice-head pre row rest start p r = rw (← p, ← r, drop-append_length, take-append_length)

  -- The rows at the offsets are the matching rows, and none passes the end.
  offsets-matching :
      (rows : List Entry) (pre : List Data) (i : ℕ)
      → length pre ≡ i * width
      → Wide width rows
      → (map (slice (pre ++ values rows) width) (offsets width attr key i rows)
          ≡ matching attr key rows)
        × All (λ start. start + width ≤ length (pre ++ values rows)) (offsets width attr key i rows)
  unfolding offsets matching values
  offsets-matching [] pre i p wide = (refl, tt)
  offsets-matching (row ∷ rows) pre i p wide =
      let shift = append_assoc pre row.0 (values rows) in
      let (rest, fit) =
        offsets-matching rows (pre ++ row.0) (i + 1)
          (omega (arith, length-append pre row.0, wide.0)) wide.1 in
      elim (Bool-cases (eqb_ℤ (column row.0 attr) key)) [
        | inl same ↦
            let here = slice-head pre row.0 (values rows) (i * width) p wide.0 in
            let room : i * width + width ≤ length (pre ++ (row.0 ++ values rows)) = omega (
              arith,
              p,
              wide.0,
              length-append pre (row.0 ++ values rows),
              length-append row.0 (values rows),
            ) in
            rw same (ap₂ (λ x y. x ∷ y) here (rw shift at rest), (room, rw shift at fit))
        | inr other ↦ rw other (rw shift at rest, rw shift at fit)
      ]

module _ (multimap : UnorderedMultimap ℕ) where
  open multimap use {
    Map, empty, reserve, insert, equal_range, range-insert, range-empty, range-reserve,
  }

  append_rows_lem :
      (rows : List Entry) (t : BuildTable multimap)
      → append_rows multimap rows t
        ≡ record t { tuples = t.tuples ++ values rows; tuple_count = t.tuple_count + length rows }
  unfolding append_rows values
  append_rows_lem [] t = ground (arith, append-nil t.tuples)
  append_rows_lem (row ∷ rows) t =
      append_rows_lem rows _ ∙ ground (arith, append_assoc t.tuples row.0 (values rows))

  append_rows-append :
      (a b : List Entry) (t : BuildTable multimap)
      → append_rows multimap (a ++ b) t ≡ append_rows multimap b (append_rows multimap a t)
  unfolding append_rows
  append_rows-append [] b t = refl
  append_rows-append (row ∷ a) b t = append_rows-append a b _

  -- The first loop takes all rows of the child into the vector.
  build_loop-append_rows :
      {B : Type 0} (build : Operator B) (ctx : ExecutionContext) (n : ℕ) (t : BuildTable multimap)
      {s : B} {chunks : List Chunk}
      → Streams build ctx n s chunks
      → (s' : B) × ((chunk : Chunk) (fuel : ℕ)
          → n + length chunks < fuel
          → build_loop multimap build fuel ctx s chunk t
            ≡ ok (s', append_rows multimap (flatten chunks) t))
  unfolding build_loop flatten
  build_loop-append_rows build ctx n t (last {s'} {out} y) =
      (s', λ chunk. by_fuel _ (n + 1) (λ g h. rw (y g chunk (omega arith), append-nil)))
  build_loop-append_rows build ctx n t (more {s'} {out} {rest} y st) =
      let (s'', run) = build_loop-append_rows build ctx n (append_rows multimap out t) st in
      (
        s'',
        λ chunk. by_fuel _ (n + suc (length rest)) (λ g h.
            rw (y g chunk (omega arith), append_rows-append out (flatten rest) t)
              (run out g (omega arith))),
      )

  -- What the second loop does from row `i` on, where `pre` holds the values of the rows before.
  index_loop-offsets :
      (width attr : ℕ)
      → attr < width
      → (rows : List Entry) (pre : List Data) (i : ℕ) (t : BuildTable multimap)
      → t.tuples ≡ pre ++ values rows
      → t.width ≡ width
      → length pre ≡ i * width
      → Wide width rows
      → (m : Map) × (index_loop multimap (length rows) i attr t
          ≡ ok (record t { pointer_table = m }))
        × ((k : Data)
            → Perm (equal_range k m) (offsets width attr k i rows ++ equal_range k t.pointer_table))
  unfolding index_loop offsets values
  index_loop-offsets width attr h [] pre i t e ew p wide = (t.pointer_table, refl, λ k. Perm.refl _)
  index_loop-offsets width attr h (row ∷ rows) pre i t e ew p wide =
      let key = column row.0 attr in
      let read : at t.tuples (i * t.width + attr) ≡ ok key =
        rw (e, ew)
          (at-append_right pre (row.0 ++ values rows) attr (i * width) p
            ∙ at-append_left row.0 (values rows) attr (omega (arith, wide.0))
            ∙ at-get_or row.0 attr _ (omega (arith, wide.0))) in
      let t₁ : BuildTable multimap = record t {
        pointer_table = insert key (i * t.width) t.pointer_table;
      } in
      let (m, run, perm) =
        index_loop-offsets width attr h rows (pre ++ row.0) (i + 1) t₁
          (e ∙ sym (append_assoc pre row.0 (values rows))) ew
          (omega (arith, length-append pre row.0, wide.0)) wide.1 in
      (
        m,
        rw read run,
        λ k. Perm.trans (perm k) (
            Perm.trans (Perm.append_left _ (range-insert k key (i * t.width) t.pointer_table))
              (rw ew (perm-if_middle (eqb_ℤ key k) (i * width) _ _))),
      )

  -- The table answers every key with the offsets of the rows that have it.
  pub record Holds (width attr : ℕ) (rows : List Entry) (t : BuildTable multimap) : Type 0 where
    pub width_eq : t.width ≡ width
    pub valid :
        (k : Data) → All (λ start. start + width ≤ length t.tuples) (equal_range k t.pointer_table)
    pub matches :
        (k : Data)
        → Perm (map (slice t.tuples width) (equal_range k t.pointer_table)) (matching attr k rows)

  abbrev pub fresh_table : ℕ → BuildTable multimap
  fresh_table width = record { tuples = []; tuple_count = 0; width = width; pointer_table = empty }

  -- The second loop over all the rows makes a table that holds them.
  index_loop-Holds :
      (width attr : ℕ) (rows : List Entry)
      → attr < width
      → Wide width rows
      → (m : Map) → ((k : Data) → Perm (equal_range k m) [])
      → (t : BuildTable multimap) × (index_loop multimap
            (length rows)
            0
            attr
            (record (fresh_table width) {
              tuples = values rows;
              tuple_count = length rows;
              pointer_table = m;
            })
          ≡ ok t)
        × Holds width attr rows t
  index_loop-Holds width attr rows h wide m nothing =
      let (m', run, perm) =
        index_loop-offsets width attr h rows [] 0
          (record (fresh_table width) {
            tuples = values rows;
            tuple_count = length rows;
            pointer_table = m;
          })
          refl refl (omega arith) wide in
      let found : (k : Data) → Perm (equal_range k m') (offsets width attr k 0 rows) =
        λ k. rw append-nil at (Perm.trans (perm k) (Perm.append_left _ (nothing k))) in
      let at_offsets = λ (k : Data). offsets-matching width attr k rows [] 0 (omega arith) wide in
      (
        _,
        run,
        record {
          width_eq = refl;
          valid = λ k. All-perm _ (λ _. le_prop) _ _ (found k) (at_offsets k).1;
          matches = λ k. rw (at_offsets k).0 at (Perm.map (slice (values rows) width) (found k));
        },
      )

  module _ {P B : Type 0} (probe : Operator P) (build : Operator B) (build_column_name : String)
      (ctx : ExecutionContext) where
    -- `BuildHashTable` after `Init`: with enough fuel it returns, and its table holds the rows.
    pub build_hash_table-Holds :
        (attr : ℕ) (j : HashJoinOperator multimap P B) (rows : List Entry)
        → get_key_attrs build.output_schema (build_column_name ∷ []) ≡ ok (attr ∷ [])
        → attr < length build.output_schema
        → j.table ≡ fresh_table (length build.output_schema)
        → Wide (length build.output_schema) rows
        → (p : Delivers build ctx j.build_child rows)
        → (b : B) × (t : BuildTable multimap) × ((fuel : ℕ)
            → p.bound + length p.chunks < fuel
            → build_hash_table multimap probe build build_column_name fuel ctx j
              ≡ ok (record j { build_child = b; table = t }))
          × Holds (length build.output_schema) attr rows t
    unfolding build_hash_table
    build_hash_table-Holds attr j rows key h fresh wide p =
        let width = length build.output_schema in
        let (b, run) = build_loop-append_rows build ctx p.bound j.table p.streams in
        let whole : append_rows multimap (flatten p.chunks) j.table
            ≡ record (fresh_table width) { tuples = values rows; tuple_count = length rows } =
          rw (p.total, fresh) (append_rows_lem rows (fresh_table width) ∙ rw zero-add) in
        let (t, index, holds) =
          index_loop-Holds width attr rows h wide (reserve (length rows * 4) empty)
            (λ k. rw (range-empty k) at (range-reserve k (length rows * 4) empty)) in
        (b, t, λ fuel enough. rw (key, run [] fuel enough, whole, index), holds)
