-- ===== src/Storage/Table/Held.antt =====
-- src/storage/table.cpp: how a guard holds the latch of its table, and its `Drop`.
use native.Mathlib.Nat.{zero-add}
use p2_hash_join_optimizatio.Common.{
  ℕ, ◌+◌, ◌-◌, ◌≡◌, refl, ◌⊎◌, inl, inr, Bool, true, false, List, [], ◌∷◌, ◌++◌, ok, arith, All,
  Bool-cases, lt→ltb,
}
use p2_hash_join_optimizatio.Storage.Table.Guards.{
  Latch, unlock_shared, unlock, RowsPointer, nullptr, to_rows, drop_read, drop_write, Guard,
  read_guard, write_guard, drop_guard, Shared,
}

abbrev pub count : Bool → ℕ
count true = 1
count false = 0

abbrev pub live : Bool → ℕ
live true = 0
live false = 1

-- How often the guard holds the latch shared, and how often alone.
abbrev pub reads : Guard → ℕ
reads (read_guard g) = live g.read_drop_tag
reads (write_guard g) = 0

abbrev pub writes : Guard → ℕ
writes (read_guard g) = 0
writes (write_guard g) = live g.write_drop_tag

abbrev pub live_readers : List Guard → ℕ
live_readers [] = 0
live_readers (g ∷ gs) = reads g + live_readers gs

abbrev pub live_writers : List Guard → ℕ
live_writers [] = 0
live_writers (g ∷ gs) = writes g + live_writers gs

abbrev pub pointer_for : Bool → RowsPointer
pointer_for true = nullptr
pointer_for false = to_rows

-- The guard points to the rows up to its `Drop`.
abbrev pub IsPointed : Guard → Type 0
IsPointed (read_guard g) = g.read_rows ≡ pointer_for g.read_drop_tag
IsPointed (write_guard g) = g.write_rows ≡ pointer_for g.write_drop_tag

-- The latch `l` is held by `r` readers and `w` writers, and by no reader where there is a writer.
pub record IsHeld (l : Latch) (r w : ℕ) : Type 0 where
  pub readers_eq : l.readers ≡ r
  pub writer_eq : count l.writer ≡ w
  pub alone : w ≡ 0 ⊎ r ≡ 0

pub record IsSound (s : Shared) : Type 0 where
  pub held : IsHeld s.latch (live_readers s.guards) (live_writers s.guards)
  pub pointed : All IsPointed s.guards

pub live_readers-append :
    (before after : List Guard) (g : Guard)
    → live_readers (before ++ g ∷ after) ≡ reads g + live_readers (before ++ after)
live_readers-append [] after g = refl
live_readers-append (b ∷ before) after g = omega (arith, live_readers-append before after g)

pub live_writers-append :
    (before after : List Guard) (g : Guard)
    → live_writers (before ++ g ∷ after) ≡ writes g + live_writers (before ++ after)
live_writers-append [] after g = refl
live_writers-append (b ∷ before) after g = omega (arith, live_writers-append before after g)

-- A guard can always be dropped: it then holds nothing, and the latch is held by the others.
pub drop_guard-IsHeld :
    (g : Guard) (l : Latch) (r w : ℕ)
    → IsHeld l (reads g + r) (writes g + w)
    → IsPointed g
    → (g' : Guard) × (l' : Latch) × (drop_guard g l ≡ ok (g', l'))
      × (reads g' ≡ 0)
      × (writes g' ≡ 0)
      × IsHeld l' r w
      × IsPointed g'
unfolding drop_guard drop_read drop_write unlock unlock_shared
drop_guard-IsHeld (read_guard g) l r w h p = elim (Bool-cases g.read_drop_tag) [
  | inl gone ↦ (read_guard g, l, rw gone, rw gone, refl, rw (gone, zero-add r, zero-add w) at h, p)
  | inr kept ↦
      let h' : IsHeld l (1 + r) w = rw (kept, zero-add w) at h in
      (
        read_guard (record { read_rows = nullptr; read_drop_tag = true }),
        record l { readers = l.readers - 1 },
        rw (kept, lt→ltb 0 l.readers (omega (arith, h'.readers_eq))),
        refl,
        refl,
        record {
          readers_eq = omega (arith, h'.readers_eq);
          writer_eq = h'.writer_eq;
          alone = elim h'.alone [ inl e ↦ inl e | inr e ↦ absurd (omega arith) ];
        },
        refl,
      )
]
drop_guard-IsHeld (write_guard g) l r w h p = elim (Bool-cases g.write_drop_tag) [
  | inl gone ↦ (write_guard g, l, rw gone, refl, rw gone, rw (gone, zero-add r, zero-add w) at h, p)
  | inr kept ↦
      let h' : IsHeld l r (1 + w) = rw (kept, zero-add r) at h in
      let held : l.writer ≡ true = ground (arith, h'.writer_eq) in
      (
        write_guard (record { write_rows = nullptr; write_drop_tag = true }),
        record l { writer = false },
        rw (kept, held),
        refl,
        refl,
        record {
          readers_eq = h'.readers_eq;
          writer_eq = ground (arith, h'.writer_eq);
          alone = elim h'.alone [ inl e ↦ absurd (omega arith) | inr e ↦ inr e ];
        },
        refl,
      )
]

pub drop_guard-again :
    (g : Guard) (l : Latch) → reads g ≡ 0 → writes g ≡ 0 → drop_guard g l ≡ ok (g, l)
unfolding drop_guard drop_read drop_write
drop_guard-again (read_guard g) l no_read no_write = elim (Bool-cases g.read_drop_tag) [
  | inl gone ↦ rw gone
  | inr kept ↦ absurd (omega (arith, rw kept at no_read))
]
drop_guard-again (write_guard g) l no_read no_write = elim (Bool-cases g.write_drop_tag) [
  | inl gone ↦ rw gone
  | inr kept ↦ absurd (omega (arith, rw kept at no_write))
]
