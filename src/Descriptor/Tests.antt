-- ===== src/Descriptor/Tests.antt =====
-- A kernel that takes two bytes at a time, a program with a shared descriptor, and the instances of the
-- theorems.
use cs144_2021_sponge.Prelude.{
  ◌||◌, ◌==◌, ℕ, min, ◌≡◌, refl, true, Option, some, List, [], ◌∷◌, length, arith,
}
use cs144_2021_sponge.BufferList.{
  BufferViewList, remove_view_prefix, remove_views, view_size, view_size_loop,
}
use cs144_2021_sponge.Descriptor.{
  returns, wrapper, shown, write, write_loop, write_once, register_write, read, mark_eof,
  register_read,
}
use cs144_2021_sponge.Descriptor.Store.{empty}
use cs144_2021_sponge.Descriptor.Owners.{
  Call, opens, copies, drops, closes, reads, nothing_owned, note, run, note_all, AllHad,
  closed_exactly,
}

abbrev two_at_a_time : ℕ → List ℕ → Option ℕ
two_at_a_time round text = some (min 2 (length text))

abbrev message : BufferViewList
message = record { views = (1 ∷ []) ∷ (2 ∷ 3 ∷ 4 ∷ 5 ∷ []) ∷ [] }

-- Three calls of the kernel.
write-message :
    write two_at_a_time true (wrapper 4) message
    ≡ some (returns (record (wrapper 4) { writes = 3 }) 5)
unfolding write write_loop write_once register_write shown remove_view_prefix remove_views view_size
    view_size_loop
write-message = refl

-- A read that returns nothing marks the end of the file.
read-wrapper :
    read (wrapper 4) 10 (some []) ≡ returns (record (wrapper 4) { at_eof = true; reads = 1 }) []
unfolding read mark_eof register_read
read-wrapper = refl

-- Two descriptors with two owners each: the first loses both of its owners, the second is closed by one.
abbrev shared : List Call
shared = opens 3 ∷ opens 4 ∷ copies 0 ∷ copies 1 ∷ drops 0 ∷ reads 0 ∷ closes 1 ∷ drops 0 ∷ []

closed_exactly_example :
    ((run empty shared).cells 0).wrapper.is_closed
      ≡ ((note_all nothing_owned shared).shut 0 || ((note_all nothing_owned shared).owners 0 == 0))
    × (((run empty shared).cells 0).refs ≡ (note_all nothing_owned shared).owners 0)
unfolding AllHad note note_all
closed_exactly_example =
    closed_exactly shared 0
      (
        tt,
        (
          tt,
          (
            omega arith,
            (omega arith, (omega arith, (omega arith, (omega arith, (omega arith, tt))))),
          ),
        ),
      )
      (omega arith)
