-- ===== src/Execution/Update/Row/Indexed.antt =====
-- An update in place keeps the index right for the table.
use p2_hash_join_optimizatio.Common.{
  ℕ, ◌≡◌, sym, ap, ◌∙◌, ◌⊎◌, inl, inr, String, Bool, true, false, not, List, Option, some,
  Bool-cases, ok, fault, assertion_failed, >>=-eq-ok, ok_injective, some_injective, arith,
  get_elem?, set, get_elem?-set, get_elem?-lt, eqb_ℤ, eqb_ℤ_iff, ◌==◌, ==_iff, if◌then◌else◌, subst,
}
use p2_hash_join_optimizatio.Types.{Tuple, at, key_from_tuple}
use p2_hash_join_optimizatio.Types.Lookup.{column, get_elem?-at, column-at}
use p2_hash_join_optimizatio.Storage.Table.{Row}
use p2_hash_join_optimizatio.Storage.StlmapIndex.{StlmapIndex, find}
use p2_hash_join_optimizatio.Execution.Delete.{assert_valid}
use p2_hash_join_optimizatio.Storage.StlmapIndex.OfTable.{IsIndexed}
use p2_hash_join_optimizatio.Execution.Update.Row.{update_tuple, changes_key, update_row}

module _ (attr : ℕ) (rows : List Row) (index : StlmapIndex) (ind : IsIndexed attr rows index) where
  set-IsIndexed :
      (row_id : ℕ) (row : Row) (new_tuple : Tuple)
      → get_elem? rows row_id ≡ some row
      → column new_tuple attr ≡ column row.tuple attr
      → IsIndexed attr (set rows row_id (record row { tuple = new_tuple })) index
  set-IsIndexed row_id row new_tuple there same_key =
      let new : Row = record row { tuple = new_tuple } in
      let look = λ (j : ℕ). get_elem?-set rows row_id j new (get_elem?-lt rows row_id row there) in
      record {
        sound = λ k r h.
            let (old, at_r, keyed) = ind.sound k r h in
            elim (Bool-cases (row_id == r)) [
              | inl same ↦
                  let e : old ≡ row =
                    some_injective
                      (sym at_r ∙ ap (get_elem? rows) (sym ((==_iff row_id r).0 same)) ∙ there) in
                  (
                    new,
                    ground (arith, look r),
                    same_key ∙ ap (λ (x : Row). column x.tuple attr) (sym e) ∙ keyed,
                  )
              | inr ne ↦ (old, ground (arith, look r), keyed)
            ];
        complete = λ r row' h live. elim (Bool-cases (row_id == r)) [
          | inl same ↦
              let e : new ≡ row' = some_injective (ground (arith, look r)) in
              ap (λ (x : Row). find (column x.tuple attr) index.index) (sym e)
              ∙ ap (λ k. find k index.index) same_key
              ∙ ind.complete row_id row there (ap (λ (x : Row). x.tuple_meta.is_deleted) e ∙ live)
              ∙ ap some ((==_iff row_id r).0 same)
          | inr ne ↦ ind.complete r row' (ground (arith, look r)) live
        ];
      }

  -- In a table whose index is right for it, a round of UpdateOperator::Next that returns leaves the
  -- index right: where the key changes, no row is changed, and else the row with the id takes the
  -- new values, among them its old key.
  pub update_row-IsIndexed :
      (name : String) (key_attrs : Option (List ℕ)) (tuple new : Tuple) (row_id : ℕ)
      (changed : Bool) (rows' : List Row)
      → update_row key_attrs (some (name, attr)) tuple row_id rows ≡ ok (new, changed, rows')
      → IsIndexed attr rows' index
        × (((changed ≡ true) × (rows' ≡ rows))
            ⊎ ((row : Row) × (changed ≡ false)
                × (get_elem? rows row_id ≡ some row)
                × (column row.tuple attr ≡ column new attr)
                × (rows' ≡ set rows row_id (record row { tuple = new }))))
  unfolding update_row changes_key key_from_tuple
  update_row-IsIndexed name key_attrs tuple new row_id changed rows' h =
      let (_, valid, h₁) = >>=-eq-ok (assert_valid row_id) _ h in
      let (new_tuple, projected, h₂) = >>=-eq-ok (update_tuple key_attrs tuple) _ h₁ in
      let (row, read, h₃) = >>=-eq-ok (at rows row_id) _ h₂ in
      let (_, live, h₄) =
        >>=-eq-ok (if row.tuple_meta.is_deleted then fault assertion_failed else ok (tt {0})) _
          h₃ in
      let (differs, compared, h₅) =
        >>=-eq-ok (changes_key (some (name, attr)) new_tuple row.tuple) _ h₄ in
      let (new_key, read_new, h₆) = >>=-eq-ok (at new_tuple attr) _ compared in
      let (old_key, read_old, h₇) = >>=-eq-ok (at row.tuple attr) _ h₆ in
      let there = get_elem?-at rows row_id row read in
      let e = ok_injective h₅ in
      let answer : not (eqb_ℤ new_key old_key) ≡ differs = ok_injective h₇ in
      let tuples : new_tuple ≡ new = ap (λ (p : Tuple × Bool × List Row). p.0) e in
      let flags : differs ≡ changed = ap (λ (p : Tuple × Bool × List Row). p.1) e in
      let after : (if differs then rows else set rows row_id (record row { tuple = new_tuple }))
          ≡ rows' =
        ap (λ (p : Tuple × Bool × List Row). p.2) e in
      elim (Bool-cases (eqb_ℤ new_key old_key)) [
        | inl same ↦
            let stays : differs ≡ false = sym answer ∙ ap not same in
            let in_place : set rows row_id (record row { tuple = new_tuple }) ≡ rows' =
              rw stays at after in
            let same_key : column new_tuple attr ≡ column row.tuple attr =
              column-at new_tuple attr new_key read_new
              ∙ (eqb_ℤ_iff new_key old_key).0 same
              ∙ sym (column-at row.tuple attr old_key read_old) in
            (
              subst (λ rs. IsIndexed attr rs index) in_place
                  (set-IsIndexed row_id row new_tuple there same_key),
              inr (
                row,
                sym flags ∙ stays,
                there,
                sym same_key ∙ ap (λ t. column t attr) tuples,
                sym in_place ∙ ap (λ t. set rows row_id (record row { tuple = t })) tuples,
              ),
            )
        | inr ne ↦
            let moves : differs ≡ true = sym answer ∙ ap not ne in
            let kept : rows ≡ rows' = rw moves at after in
            (subst (λ rs. IsIndexed attr rs index) kept ind, inl (sym flags ∙ moves, sym kept))
      ]
