-- ===== src/Buffer.antt =====
-- `Buffer` of libsponge/util/buffer.hh and buffer.cc: a shared read-only text that discards bytes from
-- its front by moving an offset.
pub mod Laws
mod Tests
use cs144_2021_sponge.Prelude.{
  ℕ, Option, none, some, List, [], ltb, ◌==◌, if◌then◌else◌, length, get_elem?, drop, add64,
}

-- The members of `Buffer`. The storage is `none` where the shared pointer is null. The text itself
-- never changes, so that copies that share it need no store.
pub record Buffer : Type 0 where
  pub storage : Option (List ℕ)
  pub starting_offset : ℕ

abbrev pub default_buffer : Buffer
default_buffer = record { storage = none; starting_offset = 0 }

-- The constructor from a string.
abbrev pub buffer_of : List ℕ → Buffer
buffer_of text = record { storage = some text; starting_offset = 0 }

unfoldable pub str : Buffer → List ℕ
str b = elim b.storage [ none ↦ [] | some text ↦ drop b.starting_offset text ]

-- `at` throws out of range: the result is then `none`.
unfoldable pub byte_at : Buffer → ℕ → Option ℕ
unfolding str
byte_at b n = get_elem? (str b) n

unfoldable pub size : Buffer → ℕ
unfolding str
size b = length (str b)

abbrev pub copy : Buffer → List ℕ
copy b = str b

-- `_storage.reset()`, once the whole text has been discarded.
unfoldable pub reset_if_done : Buffer → Buffer
reset_if_done b = elim b.storage [
  | none ↦ b
  | some text ↦ if b.starting_offset == length text then record b { storage = none } else b
]

-- What `remove_prefix` does after its test.
unfoldable pub advance : Buffer → ℕ → Buffer
unfolding reset_if_done
advance b n = reset_if_done (record b { starting_offset = add64 b.starting_offset n })

-- The exception of `remove_prefix` is `none`.
unfoldable pub remove_prefix : Buffer → ℕ → Option Buffer
unfolding size advance
remove_prefix b n = if ltb (size b) n then none else some (advance b n)
