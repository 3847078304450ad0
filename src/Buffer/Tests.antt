-- ===== src/Buffer/Tests.antt =====
-- Runs of a buffer on a small text.
use cs144_2021_sponge.Prelude.{◌≡◌, refl, none, some, [], ◌∷◌}
use cs144_2021_sponge.Buffer.{Buffer, buffer_of, str, byte_at, advance, reset_if_done}

abbrev word : Buffer
word = buffer_of (7 ∷ 8 ∷ 9 ∷ [])

-- The last byte takes the storage with it.
advance-word : advance word 3 ≡ record { storage = none; starting_offset = 3 }
unfolding advance reset_if_done
advance-word = refl

byte_at-advance : byte_at (advance word 1) 1 ≡ some 9
unfolding byte_at str advance reset_if_done
byte_at-advance = refl
