-- ===== src/Address.antt =====
-- libsponge/util/address.hh and address.cc: a socket address is the bytes of a `sockaddr_storage` and a
-- size. The layout of `sockaddr_in` is that of Linux on a little-endian machine. `getaddrinfo` is a
-- parameter; the functions that only make or read texts (ip_port, to_string) are left out.
pub mod Laws
pub mod Names
mod Tests
use cs144_2021_sponge.Prelude.{
  ℕ, zero, suc, ◌+◌, ◌-◌, ◌*◌, ◌/◌, ◌%◌, ◌^◌, Bool, true, false, ◌&&◌, ◌||◌, not, Option, none,
  some, List, [], ◌∷◌, ◌++◌, ltb, ◌==◌, if◌then◌else◌, length, take, drop, replicate, get_or,
}

-- `sizeof(sockaddr_storage)` and `sizeof(sockaddr_in)`.
abbrev pub storage_size : ℕ
storage_size = 128

abbrev pub sockaddr_in_size : ℕ
sockaddr_in_size = 16

pub record Address : Type 0 where
  pub size : ℕ
  pub storage : List ℕ

-- The constructor from a `sockaddr *`: `addr` is the memory there, at
-- least `size` bytes. `none` stands for the exception.
unfoldable pub address : List ℕ → ℕ → Option Address
address addr size =
    if ltb storage_size size
    then none
    else some
        (record { size = size; storage = take size addr ++ replicate (storage_size - size) 0 })

pub data AiFlags : Type 0 where
  ai_all ai_numeric : AiFlags

abbrev pub af_inet : ℕ
af_inet = 2

pub record Hints : Type 0 where
  pub flags : AiFlags
  pub family : ℕ

unfoldable pub make_hints : AiFlags → ℕ → Hints
make_hints flags family = record { flags = flags; family = family }

-- What `getaddrinfo` answers: an error, no entry, or the first entry's address and length.
pub data Resolved : Type 0 where
  gai_error : ℕ → Resolved
  no_results : Resolved
  found : List ℕ → ℕ → Resolved

-- `c_str` as a C function reads it: up to the first null.
unfoldable pub c_str : List ℕ → List ℕ
c_str [] = []
c_str (c ∷ cs) = let rest = c_str cs in if c == 0 then [] else c ∷ rest

unfoldable pub resolve :
    (getaddrinfo : List ℕ → List ℕ → Hints → Resolved) (node service : List ℕ)
    → Hints
    → Option Address
resolve getaddrinfo node service hints = elim (getaddrinfo (c_str node) (c_str service) hints) [
  | gai_error code ↦ none
  | no_results ↦ none
  | found addr size ↦ address addr size
]

-- The constructor from a host name and the name of a service.
unfoldable pub from_host :
    (getaddrinfo : List ℕ → List ℕ → Hints → Resolved) (hostname service : List ℕ) → Option Address
unfolding make_hints
from_host getaddrinfo hostname service =
    resolve getaddrinfo hostname service (make_hints ai_all af_inet)

-- `std::to_string` of a 16-bit number: at most five digits.
unfoldable pub decimal : ℕ → ℕ → List ℕ
decimal zero n = []
decimal (suc fuel) n =
    let rest = decimal fuel (n / 10) in
    if ltb n 10 then (48 + n) ∷ [] else rest ++ ((48 + n % 10) ∷ [])

-- The constructor from an address in digits and a port.
unfoldable pub from_ip :
    (getaddrinfo : List ℕ → List ℕ → Hints → Resolved) (ip : List ℕ) (port : ℕ) → Option Address
from_ip getaddrinfo ip port =
    resolve getaddrinfo ip (decimal 5 port) (make_hints ai_numeric af_inet)

-- `ss_family`, in the machine's byte order.
unfoldable pub family_of : Address → ℕ
family_of a = get_or a.storage 0 0 + 256 * get_or a.storage 1 0

-- `be32toh` of `sin_addr.s_addr`.
unfoldable pub ipv4_numeric : Address → Option ℕ
ipv4_numeric a =
    if not (family_of a == af_inet) || not (a.size == sockaddr_in_size)
    then none
    else some (
        2 ^ 24 * get_or a.storage 4 0
        + 2 ^ 16 * get_or a.storage 5 0
        + 2 ^ 8 * get_or a.storage 6 0
        + get_or a.storage 7 0)

-- The `sockaddr_in` that is built: family, port 0, the number in network order, and padding.
unfoldable pub sockaddr_of : ℕ → List ℕ
sockaddr_of ip =
    af_inet
    ∷ 0
    ∷ 0
    ∷ 0
    ∷ (ip / 2 ^ 24 % 256)
    ∷ (ip / 2 ^ 16 % 256)
    ∷ (ip / 2 ^ 8 % 256)
    ∷ (ip % 256)
    ∷ replicate 8 0

unfoldable pub from_ipv4_numeric : ℕ → Option Address
from_ipv4_numeric ip = address (sockaddr_of ip) sockaddr_in_size

-- `memcmp` of as many bytes as both have.
unfoldable pub same_bytes : List ℕ → List ℕ → Bool
same_bytes [] ys = true
same_bytes (x ∷ xs) [] = true
same_bytes (x ∷ xs) (y ∷ ys) = (x == y) && same_bytes xs ys

unfoldable pub equals : Address → Address → Bool
equals a b =
    if not (a.size == b.size)
    then false
    else same_bytes (take a.size a.storage) (take a.size b.storage)
