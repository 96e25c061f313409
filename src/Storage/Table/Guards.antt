-- ===== src/Storage/Table/Guards.antt =====
-- src/storage/table.cpp and the guards of src/include/storage/table.hpp: the latch of one table, and the
-- guards that threads hold on its rows.
use p2_hash_join_optimizatio.Common.{
  ℕ, ◌+◌, ◌-◌, ◌≡◌, Bool, true, false, ◌||◌, List, [], ◌∷◌, ◌++◌, Option, none, some, Result, ok,
  ◌>>=◌, fault, null_dereference, latch_not_held, ltb, if◌then◌else◌,
}
use p2_hash_join_optimizatio.Storage.Table.{Row}

-- `std::shared_mutex`: how many hold it shared, and whether one holds it alone.
pub record Latch : Type 0 where
  pub readers : ℕ
  pub writer : Bool

-- `lock_shared`, with `none` where the caller waits
unfoldable pub lock_shared : Latch → Option Latch
lock_shared l = if l.writer then none else some (record l { readers = l.readers + 1 })

unfoldable pub lock : Latch → Option Latch
lock l = if l.writer || ltb 0 l.readers then none else some (record l { writer = true })

-- Undefined where nobody holds it that way.
unfoldable pub unlock_shared : Latch → Result Latch
unlock_shared l =
    if ltb 0 l.readers then ok (record l { readers = l.readers - 1 }) else fault latch_not_held

unfoldable pub unlock : Latch → Result Latch
unlock l = if l.writer then ok (record l { writer = false }) else fault latch_not_held

-- `rows_` of a guard
pub data RowsPointer : Type 0 where
  nullptr : RowsPointer
  to_rows : RowsPointer

pub record ReadTableGuard : Type 0 where
  pub read_rows : RowsPointer
  pub read_drop_tag : Bool

pub record WriteTableGuard : Type 0 where
  pub write_rows : RowsPointer
  pub write_drop_tag : Bool

-- `GetReadTableGuard`, the constructor of the guard
unfoldable pub get_read_table_guard : Latch → Option (ReadTableGuard × Latch)
get_read_table_guard l = elim (lock_shared l) [
  | none ↦ none
  | some l' ↦ some (record { read_rows = to_rows; read_drop_tag = false }, l')
]

unfoldable pub get_write_table_guard : Latch → Option (WriteTableGuard × Latch)
get_write_table_guard l = elim (lock l) [
  | none ↦ none
  | some l' ↦ some (record { write_rows = to_rows; write_drop_tag = false }, l')
]

-- `ReadTableGuard::Drop`
unfoldable pub drop_read : ReadTableGuard → Latch → Result (ReadTableGuard × Latch)
drop_read g l =
    if g.read_drop_tag
    then ok (g, l)
    else (do l' ← unlock_shared l; ok (record { read_rows = nullptr; read_drop_tag = true }, l'))

-- `WriteTableGuard::Drop`
unfoldable pub drop_write : WriteTableGuard → Latch → Result (WriteTableGuard × Latch)
drop_write g l =
    if g.write_drop_tag
    then ok (g, l)
    else (do l' ← unlock l; ok (record { write_rows = nullptr; write_drop_tag = true }, l'))

-- `Rows()`: `*rows_`
unfoldable pub dereference : RowsPointer → List Row → Result (List Row)
dereference nullptr rows = fault null_dereference
dereference to_rows rows = ok rows

pub data Guard : Type 0 where
  read_guard : ReadTableGuard → Guard
  write_guard : WriteTableGuard → Guard

-- `Drop` of either
unfoldable pub drop_guard : Guard → Latch → Result (Guard × Latch)
unfolding drop_read drop_write
drop_guard (read_guard g) l = do r ← drop_read g l; ok (read_guard r.0, r.1)
drop_guard (write_guard g) l = do r ← drop_write g l; ok (write_guard r.0, r.1)

-- A table with the guards that have been made and not destroyed.
pub record Shared : Type 0 where
  pub rows : List Row
  pub latch : Latch
  pub guards : List Guard

-- What one thread does at a time. A thread that would wait makes no step.
pub data GuardStep : Shared → Shared → Type 0 where
  open_read :
      {s : Shared} {g : ReadTableGuard} {l : Latch}
      → get_read_table_guard s.latch ≡ some (g, l)
      → GuardStep s (record s { latch = l; guards = read_guard g ∷ s.guards })
  open_write :
      {s : Shared} {g : WriteTableGuard} {l : Latch}
      → get_write_table_guard s.latch ≡ some (g, l)
      → GuardStep s (record s { latch = l; guards = write_guard g ∷ s.guards })
  -- `Drop`, called by the holder
  dropped :
      {s : Shared} (before after : List Guard) (g : Guard) {g' : Guard} {l : Latch}
      → s.guards ≡ before ++ g ∷ after
      → drop_guard g s.latch ≡ ok (g', l)
      → GuardStep s (record s { latch = l; guards = before ++ g' ∷ after })
  -- The destructor calls `Drop`.
  destroyed :
      {s : Shared} (before after : List Guard) (g : Guard) {g' : Guard} {l : Latch}
      → s.guards ≡ before ++ g ∷ after
      → drop_guard g s.latch ≡ ok (g', l)
      → GuardStep s (record s { latch = l; guards = before ++ after })
  -- A write to the rows through a guard.
  written :
      {s : Shared} (before after : List Guard) (g : WriteTableGuard) {old : List Row}
      (new : List Row)
      → s.guards ≡ before ++ write_guard g ∷ after
      → dereference g.write_rows s.rows ≡ ok old
      → GuardStep s (record s { rows = new })

pub data GuardSteps : Shared → Shared → Type 0 where
  done : {s : Shared} → GuardSteps s s
  then_step : {s t u : Shared} → GuardSteps s t → GuardStep t u → GuardSteps s u

-- `Table::Table`: nobody holds the latch.
abbrev pub unshared : List Row → Shared
unshared rows = record { rows = rows; latch = record { readers = 0; writer = false }; guards = [] }
