-- ===== src/Socket/Tests.antt =====
-- A device name that is too long, and an `accept` that fails.
use cs144_2021_sponge.Prelude.{◌≡◌, refl, none, [], ◌∷◌, ◌++◌, replicate}
use cs144_2021_sponge.Address.{c_str}
use cs144_2021_sponge.Descriptor.{wrapper, register_read, throws}
use cs144_2021_sponge.Socket.{ifr_name, accept, new}

-- A name of 20 characters loses the last five and gets its null.
ifr_name-long : ifr_name (replicate 20 97) ≡ replicate 15 97 ++ (0 ∷ [])
unfolding ifr_name c_str
ifr_name-long = refl

-- A failing `accept` counts a read all the same.
accept-fails : accept (wrapper 3) 2 1 none none none ≡ throws (record (wrapper 3) { reads = 1 })
unfolding accept new register_read
accept-fails = refl
