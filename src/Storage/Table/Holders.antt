-- ===== src/Storage/Table/Holders.antt =====
-- src/storage/table.cpp: the guards, seen from the threads that hold them.
use p2_hash_join_optimizatio.Common.{
  ◌+◌, ◌≡◌, refl, ap, ◌∙◌, inl, inr, true, false, List, [], ◌∷◌, ◌++◌, some, ok, arith, Bool-cases,
}
use p2_hash_join_optimizatio.Storage.Table.{Row}
use p2_hash_join_optimizatio.Storage.Table.Guards.{
  Latch, lock, to_rows, ReadTableGuard, WriteTableGuard, get_write_table_guard, dereference, Guard,
  read_guard, write_guard, Shared, GuardStep, open_read, open_write, dropped, destroyed, written,
  GuardSteps, done, then_step, unshared,
}
use p2_hash_join_optimizatio.Storage.Table.Held.{
  IsSound, live_readers, live_writers, live_readers-append, live_writers-append, IsPointed,
}
use p2_hash_join_optimizatio.Storage.Table.Latching.{
  GuardSteps-IsSound, unshared-IsSound, drop_guard-IsSound, middle-IsHeld,
}

-- A write guard through which the rows are reached has not been dropped.
pointer-live :
    (g : WriteTableGuard) (rows old : List Row)
    → IsPointed (write_guard g)
    → dereference g.write_rows rows ≡ ok old
    → g.write_drop_tag ≡ false
unfolding dereference
pointer-live g rows old pointed run = elim (Bool-cases g.write_drop_tag) [
  | inr kept ↦ kept
  | inl gone ↦ absurd (cc (rw (pointed, gone) at run))
]

-- In any state that a table comes to, while a read guard has not been dropped, no step of any
-- thread changes the rows, and Rows of the guard are the rows of the table.
pub read_guard-keeps :
    {rows : List Row} {s t : Shared} (before after : List Guard) (g : ReadTableGuard)
    → GuardSteps (unshared rows) s
    → s.guards ≡ before ++ read_guard g ∷ after
    → g.read_drop_tag ≡ false
    → GuardStep s t
    → (t.rows ≡ s.rows) × (dereference g.read_rows s.rows ≡ ok s.rows)
unfolding dereference
read_guard-keeps {rows} {s} {t} before after g steps e kept step =
    let sound = GuardSteps-IsSound steps (unshared-IsSound rows) in
    let (_, _, pointed, _) = middle-IsHeld s before after (read_guard g) e sound in
    (same step sound, rw (pointed, kept))
  where
    same : {t : Shared} → GuardStep s t → IsSound s → t.rows ≡ s.rows
    same (open_read run) sound = refl
    same (open_write run) sound = refl
    same (dropped b a g' e' run) sound = refl
    same (destroyed b a g' e' run) sound = refl
    same (written b a g' new e' run) sound =
        let (_, _, pointed, _) = middle-IsHeld s b a (write_guard g') e' sound in
        let open_tag = pointer-live g' s.rows _ pointed run in
        let writers : live_writers s.guards ≡ 1 + live_writers (b ++ a) =
          rw open_tag at (ap live_writers e' ∙ live_writers-append b a (write_guard g')) in
        let readers : live_readers s.guards ≡ 1 + live_readers (before ++ after) =
          rw kept at (ap live_readers e ∙ live_readers-append before after (read_guard g)) in
        elim sound.held.alone [
          | inl none_writes ↦ absurd (omega arith)
          | inr none_reads ↦ absurd (omega arith)
        ]

GuardSteps-trans : {s t u : Shared} → GuardSteps s t → GuardSteps t u → GuardSteps s u
GuardSteps-trans p done = p
GuardSteps-trans p (then_step q r) = then_step (GuardSteps-trans p q) r

-- The guards are destroyed from the newest on.
destroy_all :
    (guards : List Guard) (s : Shared)
    → s.guards ≡ guards
    → IsSound s
    → (t : Shared) × GuardSteps s t × (t.rows ≡ s.rows) × (t.guards ≡ []) × IsSound t
destroy_all [] s e sound = (s, done, refl, e, sound)
destroy_all (g ∷ guards) s e sound =
    let (g', l', run, _, removed) = drop_guard-IsSound s [] guards g e sound in
    let (t, steps, same, empty, sound') =
      destroy_all guards (record s { latch = l'; guards = guards }) refl removed in
    (t, GuardSteps-trans (then_step done (destroyed [] guards g e run)) steps, same, empty, sound')

free-lock :
    (s : Shared)
    → s.guards ≡ []
    → IsSound s
    → (g : WriteTableGuard) × (l : Latch) × (get_write_table_guard s.latch ≡ some (g, l))
unfolding get_write_table_guard lock
free-lock s e sound =
    let no_readers : s.latch.readers ≡ 0 = sound.held.readers_eq ∙ ap live_readers e in
    let no_writer : s.latch.writer ≡ false =
      ground (arith, sound.held.writer_eq, ap live_writers e) in
    (
      record { write_rows = to_rows; write_drop_tag = false },
      record s.latch { writer = true },
      rw (no_writer, no_readers),
    )

-- From any state that a table comes to, its guards can be destroyed one after the other without a
-- change of the rows, and then a thread that asks for a write guard has it at once.
pub GuardSteps-unlocked :
    {rows : List Row} {s : Shared}
    → GuardSteps (unshared rows) s
    → (t : Shared) × (g : WriteTableGuard) × (l : Latch) × GuardSteps s t
      × (t.rows ≡ s.rows)
      × (t.guards ≡ [])
      × (get_write_table_guard t.latch ≡ some (g, l))
GuardSteps-unlocked {rows} {s} steps =
    let (t, more, same, empty, sound) =
      destroy_all s.guards s refl (GuardSteps-IsSound steps (unshared-IsSound rows)) in
    let (g, l, run) = free-lock t empty sound in (t, g, l, more, same, empty, run)
