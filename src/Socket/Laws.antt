-- ===== src/Socket/Laws.antt =====
-- Datagrams through libsponge/util/socket.cc.
use cs144_2021_sponge.Prelude.{
  ℕ, ◌-◌, ◌≤◌, ◌≡◌, refl, ap, ap₂, ◌∙◌, true, false, some, List, [], ◌∷◌, ◌++◌, ltb, leb,
  if◌then◌else◌, length, take, replicate, arith, inl, inr, Bool-cases, take_all, append-nil,
  length-append,
}
use cs144_2021_sponge.Address.{Address, address, storage_size}
use cs144_2021_sponge.Descriptor.{FdWrapper, register_read, returns, throws}
use cs144_2021_sponge.Socket.{Received, recv}
use cs144_2021_sponge.Header.{resize}

-- `recvfrom` with MSG_TRUNC: the datagram's true length, and as many of its bytes as fit.
abbrev pub truncating : ℕ → List ℕ → List ℕ → ℕ → Received
truncating mtu datagram source fromlen = record {
  recv_len = length datagram;
  filled = take mtu datagram;
  source = source;
  fromlen = fromlen;
}

take-append_all : (xs ys : List ℕ) → take (length xs) (xs ++ ys) ≡ xs
take-append_all [] ys = refl
take-append_all (x ∷ xs) ys = ap (λ zs. x ∷ zs) (take-append_all xs ys)

resize-twice :
    (d : List ℕ) (mtu : ℕ) → length d ≤ mtu → resize (resize (take mtu d) mtu) (length d) ≡ d
unfolding resize
resize-twice d mtu fits =
    let zeros : List ℕ = replicate (mtu - length d) 0 in
    let none_left : length d - length (d ++ zeros) ≡ 0 = omega (arith, length-append d zeros) in
    rw (take_all mtu d fits, take_all mtu d fits)
      (ap₂ ◌++◌ (take-append_all d zeros) (ap (λ (k : ℕ). replicate k 0) none_left) ∙ append-nil d)

address-fits :
    (source : List ℕ) (fromlen : ℕ)
    → fromlen ≤ storage_size
    → (a : Address) × (address source fromlen ≡ some a)
unfolding address
address-fits source fromlen fits = (
  record { size = fromlen; storage = take fromlen source ++ replicate (storage_size - fromlen) 0 },
  ground (arith, fits),
)

recv-known :
    (w : FdWrapper) (mtu : ℕ) (datagram source : List ℕ) (fromlen : ℕ) (a : Address)
    → address source fromlen ≡ some a
    → recv w mtu (some (truncating mtu datagram source fromlen)) ≡ (
        if leb (length datagram) mtu
        then returns (register_read w) (record { source_address = a; payload = datagram })
        else throws w)
unfolding recv
recv-known w mtu datagram source fromlen a e = elim (Bool-cases (leb (length datagram) mtu)) [
  | inl small ↦
      let fits : ltb mtu (length datagram) ≡ false = ground (arith, small) in
      rw (small, fits, e, resize-twice datagram mtu (ground (arith, small))) refl
  | inr big ↦
      let over : ltb mtu (length datagram) ≡ true = ground (arith, big) in rw (big, over) refl
]

-- Where `recvfrom` tells the true length of a datagram and the sender's address fits: `recv` returns the whole
-- datagram with its sender and counts a read, if the datagram is no longer than `mtu`; else it throws and
-- counts none. It never returns a part.
pub recv_whole :
    (w : FdWrapper) (mtu : ℕ) (datagram source : List ℕ) (fromlen : ℕ)
    → fromlen ≤ storage_size
    → (a : Address) × (address source fromlen ≡ some a)
      × (recv w mtu (some (truncating mtu datagram source fromlen)) ≡ (
          if leb (length datagram) mtu
          then returns (register_read w) (record { source_address = a; payload = datagram })
          else throws w))
recv_whole w mtu datagram source fromlen fits =
    let (a, e) = address-fits source fromlen fits in
    (a, e, recv-known w mtu datagram source fromlen a e)
