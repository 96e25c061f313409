-- ===== src/Storage/Table/Latching.antt =====
-- src/storage/table.cpp: the latch of a table and its guards, over the steps of the threads.
use p2_hash_join_optimizatio.Common.{
  ◌+◌, ◌≤◌, ◌≡◌, refl, sym, ◌∙◌, inl, inr, List, ◌∷◌, ◌++◌, some, ok, ok_injective, some_injective,
  arith, ltb, All, All-append, All-append_left, All-append_right, Bool-cases, ltb_false→le, subst,
}
use p2_hash_join_optimizatio.Storage.Table.{Row}
use p2_hash_join_optimizatio.Storage.Table.Guards.{
  Latch, lock_shared, lock, ReadTableGuard, WriteTableGuard, get_read_table_guard,
  get_write_table_guard, Guard, read_guard, write_guard, drop_guard, Shared, GuardStep, open_read,
  open_write, dropped, destroyed, written, GuardSteps, done, then_step, unshared,
}
use p2_hash_join_optimizatio.Storage.Table.Held.{
  reads, writes, live_readers, live_writers, IsPointed, IsHeld, IsSound, live_readers-append,
  live_writers-append, drop_guard-IsHeld, drop_guard-again,
}

-- What is known of the guard that steps.
pub middle-IsHeld :
    (s : Shared) (before after : List Guard) (g : Guard)
    → s.guards ≡ before ++ g ∷ after
    → IsSound s
    → IsHeld s.latch
        (reads g + live_readers (before ++ after))
        (writes g + live_writers (before ++ after))
      × All IsPointed before
      × IsPointed g
      × All IsPointed after
middle-IsHeld s before after g e sound =
    let pointed : All IsPointed (before ++ g ∷ after) = rw e at sound.pointed in
    let (here, behind) = All-append_right _ before (g ∷ after) pointed in
    (
      rw (e, live_readers-append before after g, live_writers-append before after g) at sound.held,
      All-append_left _ before (g ∷ after) pointed,
      here,
      behind,
    )

-- In a sound state a guard that is there can be dropped, and what Drop leaves is sound, with the
-- guard or without it.
pub drop_guard-IsSound :
    (s : Shared) (before after : List Guard) (g : Guard)
    → s.guards ≡ before ++ g ∷ after
    → IsSound s
    → (g' : Guard) × (l' : Latch) × (drop_guard g s.latch ≡ ok (g', l'))
      × IsSound (record s { latch = l'; guards = before ++ g' ∷ after })
      × IsSound (record s { latch = l'; guards = before ++ after })
drop_guard-IsSound s before after g e sound =
    let (held, first, here, behind) = middle-IsHeld s before after g e sound in
    let (g', l', run, no_read, no_write, left, p') = drop_guard-IsHeld g s.latch _ _ held here in
    let readers : live_readers (before ++ g' ∷ after) ≡ live_readers (before ++ after) =
      omega (arith, live_readers-append before after g', no_read) in
    let writers : live_writers (before ++ g' ∷ after) ≡ live_writers (before ++ after) =
      omega (arith, live_writers-append before after g', no_write) in
    (
      g',
      l',
      run,
      record {
        held = rw (readers, writers) left;
        pointed = All-append _ before (g' ∷ after) first (p', behind);
      },
      record { held = left; pointed = All-append _ before after first behind },
    )

open_read-IsSound :
    (s : Shared) (g : ReadTableGuard) (l : Latch)
    → get_read_table_guard s.latch ≡ some (g, l)
    → IsSound s
    → IsSound (record s { latch = l; guards = read_guard g ∷ s.guards })
unfolding get_read_table_guard lock_shared
open_read-IsSound s g l run sound = elim (Bool-cases s.latch.writer) [
  | inl held ↦ absurd (cc (rw held at run))
  | inr free ↦
      let no_writer : live_writers s.guards ≡ 0 = sym (rw free at sound.held.writer_eq) in
      subst
        (λ (r : ReadTableGuard × Latch).
          IsSound (record s { latch = r.1; guards = read_guard r.0 ∷ s.guards }))
        (some_injective (rw free at run))
        (record {
          held = record {
            readers_eq = omega (arith, sound.held.readers_eq);
            writer_eq = omega (arith, no_writer);
            alone = inl (omega (arith, no_writer));
          };
          pointed = (refl, sound.pointed);
        })
]

open_write-IsSound :
    (s : Shared) (g : WriteTableGuard) (l : Latch)
    → get_write_table_guard s.latch ≡ some (g, l)
    → IsSound s
    → IsSound (record s { latch = l; guards = write_guard g ∷ s.guards })
unfolding get_write_table_guard lock
open_write-IsSound s g l run sound = elim (Bool-cases s.latch.writer) [
  | inl held ↦ absurd (cc (rw held at run))
  | inr free ↦ elim (Bool-cases (ltb 0 s.latch.readers)) [
    | inl some_reader ↦ absurd (cc (rw (free, some_reader, get_write_table_guard) at run))
    | inr no_reader ↦
        let no_writer : live_writers s.guards ≡ 0 = sym (rw free at sound.held.writer_eq) in
        let empty : live_readers s.guards ≡ 0 =
          omega (arith, sound.held.readers_eq, ltb_false→le 0 s.latch.readers no_reader) in
        subst
          (λ (r : WriteTableGuard × Latch).
            IsSound (record s { latch = r.1; guards = write_guard r.0 ∷ s.guards }))
          (some_injective (rw (free, no_reader, get_write_table_guard) at run))
          (record {
            held = record {
              readers_eq = omega (arith, sound.held.readers_eq);
              writer_eq = omega (arith, no_writer);
              alone = inr (omega (arith, empty));
            };
            pointed = (refl, sound.pointed);
          })
  ]
]

GuardStep-IsSound : {s t : Shared} → GuardStep s t → IsSound s → IsSound t
GuardStep-IsSound (open_read {s} {g} {l} run) sound = open_read-IsSound s g l run sound
GuardStep-IsSound (open_write {s} {g} {l} run) sound = open_write-IsSound s g l run sound
GuardStep-IsSound (dropped {s} before after g {g'} {l} e run) sound =
    let (h', l', run', kept, removed) = drop_guard-IsSound s before after g e sound in
    subst
      (λ (r : Guard × Latch). IsSound (record s { latch = r.1; guards = before ++ r.0 ∷ after }))
      (ok_injective (sym run' ∙ run)) kept
GuardStep-IsSound (destroyed {s} before after g {g'} {l} e run) sound =
    let (h', l', run', kept, removed) = drop_guard-IsSound s before after g e sound in
    subst (λ (r : Guard × Latch). IsSound (record s { latch = r.1; guards = before ++ after }))
      (ok_injective (sym run' ∙ run)) removed
GuardStep-IsSound (written {s} before after g new e run) sound = record {
  held = sound.held;
  pointed = sound.pointed;
}

pub GuardSteps-IsSound : {s t : Shared} → GuardSteps s t → IsSound s → IsSound t
GuardSteps-IsSound done sound = sound
GuardSteps-IsSound (then_step p q) sound = GuardStep-IsSound q (GuardSteps-IsSound p sound)

pub unshared-IsSound : (rows : List Row) → IsSound (unshared rows)
unshared-IsSound rows = record {
  held = record { readers_eq = refl; writer_eq = refl; alone = inl refl };
  pointed = tt;
}

-- A table that nobody holds and on which threads open, drop, destroy and write through guards has
-- its latch held by as many readers as there are read guards that have not been dropped, and by as
-- many writers as there are such write guards, which are at most one, with no reader beside one;
-- and a guard points to the rows up to its Drop and to nothing after it.
pub GuardSteps-IsHeld :
    {rows : List Row} {s : Shared}
    → GuardSteps (unshared rows) s
    → IsHeld s.latch (live_readers s.guards) (live_writers s.guards)
      × (live_writers s.guards ≤ 1)
      × All IsPointed s.guards
GuardSteps-IsHeld {rows} {s} steps =
    let sound = GuardSteps-IsSound steps (unshared-IsSound rows) in
    (sound.held, ground (arith, sound.held.writer_eq), sound.pointed)

-- In any state that a table comes to, Drop of any guard that is there returns, since the latch is
-- held in its way or the guard has been dropped before; a second Drop changes nothing; and the
-- latch is then held by the other guards alone.
pub drop_guard-returns :
    {rows : List Row} {s : Shared} (before after : List Guard) (g : Guard)
    → GuardSteps (unshared rows) s
    → s.guards ≡ before ++ g ∷ after
    → (g' : Guard) × (l' : Latch) × (drop_guard g s.latch ≡ ok (g', l'))
      × (drop_guard g' l' ≡ ok (g', l'))
      × IsHeld l' (live_readers (before ++ after)) (live_writers (before ++ after))
drop_guard-returns {rows} {s} before after g steps e =
    let (held, first, here, behind) =
      middle-IsHeld s before after g e (GuardSteps-IsSound steps (unshared-IsSound rows)) in
    let (g', l', run, no_read, no_write, left, p') = drop_guard-IsHeld g s.latch _ _ held here in
    (g', l', run, drop_guard-again g' l' no_read no_write, left)
