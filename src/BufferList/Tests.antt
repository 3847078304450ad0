-- ===== src/BufferList/Tests.antt =====
-- Runs of a list of two buffers, and the instances of its theorems.
use cs144_2021_sponge.Prelude.{◌≡◌, refl, some, [], ◌∷◌, arith}
use cs144_2021_sponge.Buffer.{Buffer, buffer_of, str}
use cs144_2021_sponge.Buffer as Buffer
use cs144_2021_sponge.Buffer.Laws.{buffer_of-IsSound}
use cs144_2021_sponge.BufferList.{
  BufferList, concatenate, concatenate_loop, remove_prefix, remove_loop,
}
use cs144_2021_sponge.BufferList.Laws.{AllSound, Discards, remove_prefix-Discards}

abbrev first_part : Buffer
first_part = buffer_of (1 ∷ 2 ∷ [])

abbrev second_part : Buffer
second_part = buffer_of (3 ∷ 4 ∷ 5 ∷ [])

abbrev packet : BufferList
packet = record { buffers = first_part ∷ second_part ∷ [] }

packet-AllSound : AllSound packet.buffers
unfolding AllSound
packet-AllSound = (
  buffer_of-IsSound (1 ∷ 2 ∷ []) (omega arith),
  (buffer_of-IsSound (3 ∷ 4 ∷ 5 ∷ []) (omega arith), tt),
)

remove_prefix-packet :
    remove_prefix packet 3
    ≡ some
        (record { buffers = record { storage = some (3 ∷ 4 ∷ 5 ∷ []); starting_offset = 1 } ∷ [] })
unfolding remove_prefix remove_loop Buffer.remove_prefix Buffer.size Buffer.advance
    Buffer.reset_if_done str
remove_prefix-packet = refl

remove_prefix-Discards_example : Discards packet 3
unfolding concatenate concatenate_loop str
remove_prefix-Discards_example =
    remove_prefix-Discards packet 3 packet-AllSound (omega arith) (omega arith)
