-- ===== src/Address/Tests.antt =====
-- A port in digits, and an address of the loopback network.
use cs144_2021_sponge.Prelude.{ℕ, ◌≡◌, refl, some, [], ◌∷◌}
use cs144_2021_sponge.Address.{
  Address, address, sockaddr_of, family_of, decimal, ipv4_numeric, from_ipv4_numeric,
}

decimal-http : decimal 5 8080 ≡ 56 ∷ 48 ∷ 56 ∷ 48 ∷ []
unfolding decimal
decimal-http = refl

abbrev loopback : ℕ
loopback = 0x7f000001

loopback-read :
    (a : Address) × (from_ipv4_numeric loopback ≡ some a) × (ipv4_numeric a ≡ some loopback)
unfolding from_ipv4_numeric address sockaddr_of ipv4_numeric family_of
loopback-read = (_, refl, refl)
