-- ===== src/Checksum/Tests.antt =====
-- A run of the checksum on a small text.
use cs144_2021_sponge.Prelude.{ℕ, ◌≡◌, refl, List, [], ◌∷◌}
use cs144_2021_sponge.Checksum.{checksum, add, fold_loop, value}

abbrev bytes : List ℕ
bytes = 0xff ∷ 0xfe ∷ 0x12 ∷ 0x34 ∷ []

value-bytes : value (add (checksum 0) bytes) ≡ 0xedcc
unfolding value add fold_loop
value-bytes = refl
