-- ===== src/Address/Laws.antt =====
-- Numeric addresses of libsponge/util/address.cc, and when two addresses are equal.
use cs144_2021_sponge.Prelude.{
  ℕ, ◌+◌, ◌*◌, ◌/◌, ◌%◌, ◌^◌, ◌<◌, ◌≡◌, ◌↔◌, refl, sym, ap, ◌∙◌, true, some, List, [], ◌∷◌, take,
  arith,
}
use cs144_2021_sponge.Address.{
  Address, address, ipv4_numeric, from_ipv4_numeric, sockaddr_of, family_of, same_bytes, equals,
}

same_bytes_self : (xs : List ℕ) → same_bytes xs xs ≡ true
unfolding same_bytes
same_bytes_self [] = refl
same_bytes_self (x ∷ xs) = ground (arith, same_bytes_self xs)

-- The four bytes of a number make it up.
rebuilt :
    (n : ℕ)
    → n < 2 ^ 32
    → 2 ^ 24 * (n / 2 ^ 24 % 256)
        + 2 ^ 16 * (n / 2 ^ 16 % 256)
        + 2 ^ 8 * (n / 2 ^ 8 % 256)
        + n % 256
      ≡ n
rebuilt n small = omega arith

same_bytes-four :
    (m n : ℕ)
    → m < 2 ^ 32
    → n < 2 ^ 32
    → same_bytes (take 16 (sockaddr_of m)) (take 16 (sockaddr_of n)) ≡ true
    → m ≡ n
unfolding same_bytes sockaddr_of
same_bytes-four m n small small' e = ground (arith, rebuilt m small, rebuilt n small', e)

-- An address that is built from a 32-bit number reads back as that number; two such addresses are equal
-- exactly if the numbers are.
pub numeric-round :
    (ip other : ℕ)
    → ip < 2 ^ 32
    → other < 2 ^ 32
    → (a : Address) × (b : Address) × (from_ipv4_numeric ip ≡ some a)
      × (from_ipv4_numeric other ≡ some b)
      × (ipv4_numeric a ≡ some ip)
      × ((equals a b ≡ true) ↔ (ip ≡ other))
unfolding from_ipv4_numeric address ipv4_numeric sockaddr_of family_of equals
numeric-round ip other small small' = (
  _,
  _,
  refl,
  refl,
  ap some (rebuilt ip small),
  (
    same_bytes-four ip other small small',
    λ e.
        ap (λ (n : ℕ). same_bytes (take 16 (sockaddr_of ip)) (take 16 (sockaddr_of n))) (sym e)
        ∙ same_bytes_self (take 16 (sockaddr_of ip)),
  ),
)
