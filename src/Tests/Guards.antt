-- ===== src/Tests/Guards.antt =====
-- Readers and a writer on one table.
use p2_hash_join_optimizatio.Common.{
  ◌≤◌, ◌≡◌, refl, true, false, List, [], ◌∷◌, none, some, ok, fault, null_dereference, All, pos,
}
use p2_hash_join_optimizatio.Storage.Table.{Row, fresh_meta}
use p2_hash_join_optimizatio.Storage.Table.Guards.{
  Latch, lock, lock_shared, unlock, unlock_shared, nullptr, to_rows, ReadTableGuard,
  WriteTableGuard, get_read_table_guard, get_write_table_guard, drop_read, drop_write, dereference,
  Guard, read_guard, drop_guard, Shared, GuardStep, open_read, dropped, GuardSteps, done, then_step,
  unshared,
}
use p2_hash_join_optimizatio.Storage.Table.Held.{IsHeld, IsPointed, live_readers, live_writers}
use p2_hash_join_optimizatio.Storage.Table.Latching.{GuardSteps-IsHeld, drop_guard-returns}
use p2_hash_join_optimizatio.Storage.Table.Holders.{read_guard-keeps, GuardSteps-unlocked}

program : Unit {0}
unfolding lock lock_shared unlock unlock_shared get_read_table_guard get_write_table_guard drop_read
    drop_write drop_guard dereference
program = tt

abbrev one_row : List Row
one_row = record { tuple = pos 1 ∷ []; tuple_meta = fresh_meta } ∷ []

abbrev reader : ReadTableGuard
reader = record { read_rows = to_rows; read_drop_tag = false }

-- Two threads read, and one of them has dropped its guard.
abbrev reading : Shared
reading = record {
  rows = one_row;
  latch = record { readers = 1; writer = false };
  guards =
      read_guard (record { read_rows = nullptr; read_drop_tag = true }) ∷ read_guard reader ∷ [];
}

reading-GuardSteps : GuardSteps (unshared one_row) reading
unfolding program
reading-GuardSteps =
    then_step (then_step (then_step done (open_read refl)) (open_read refl))
      (dropped [] (read_guard reader ∷ []) (read_guard reader) refl refl)

GuardSteps-IsHeld_example :
    IsHeld reading.latch (live_readers reading.guards) (live_writers reading.guards)
    × (live_writers reading.guards ≤ 1)
    × All IsPointed reading.guards
GuardSteps-IsHeld_example = GuardSteps-IsHeld reading-GuardSteps

drop_guard-returns_example :
    (g' : Guard) × (l' : Latch) × (drop_guard (read_guard reader) reading.latch ≡ ok (g', l'))
    × (drop_guard g' l' ≡ ok (g', l'))
    × IsHeld l' 0 0
drop_guard-returns_example =
    drop_guard-returns (read_guard (record { read_rows = nullptr; read_drop_tag = true }) ∷ []) []
      (read_guard reader) reading-GuardSteps refl

another_reader : GuardStep reading (record reading {
  latch = record { readers = 2; writer = false };
  guards = read_guard reader ∷ reading.guards;
})
unfolding program
another_reader = open_read refl

read_guard-keeps_example : (one_row ≡ one_row) × (dereference to_rows one_row ≡ ok one_row)
read_guard-keeps_example =
    read_guard-keeps (read_guard (record { read_rows = nullptr; read_drop_tag = true }) ∷ []) []
      reader reading-GuardSteps refl refl another_reader

GuardSteps-unlocked_example :
    (t : Shared) × (g : WriteTableGuard) × (l : Latch) × GuardSteps reading t
    × (t.rows ≡ reading.rows)
    × (t.guards ≡ [])
    × (get_write_table_guard t.latch ≡ some (g, l))
GuardSteps-unlocked_example = GuardSteps-unlocked reading-GuardSteps

-- A writer waits for the reader.
writer_waits : get_write_table_guard reading.latch ≡ none
unfolding program
writer_waits = refl

-- `Rows()` after `Drop` is undefined.
rows_after_drop : dereference nullptr one_row ≡ fault null_dereference
unfolding program
rows_after_drop = refl
