-- ===== src/Socket.antt =====
-- libsponge/util/socket.hh and socket.cc, and libsponge/util/tun.cc: what the methods do to the
-- FileDescriptor. What a system call answers is an argument; `none` stands for a failure, on which
-- SystemCall throws.
pub mod Laws
mod Tests
use cs144_2021_sponge.Prelude.{
  ℕ, zero, suc, ◌+◌, ◌-◌, Bool, true, false, ◌&&◌, ◌||◌, not, Option, none, some, List, [], ◌∷◌,
  ◌++◌, ltb, ◌==◌, if◌then◌else◌, length, take, replicate,
}
use cs144_2021_sponge.Address.{Address, address, c_str}
use cs144_2021_sponge.Header.{resize}
use cs144_2021_sponge.BufferList.{BufferViewList, view_size}
use cs144_2021_sponge.Descriptor.{
  FdWrapper, wrapper, register_read, register_write, Outcome, returns, throws,
}

-- The constructor from a domain and a type: the number that `socket` returns.
unfoldable pub new : Option ℕ → Option FdWrapper
new none = none
new (some fd) = some (wrapper fd)

-- `getsockopt` answers with a length and a value.
unfoldable pub mismatch : ℕ → ℕ × ℕ → Bool
mismatch wanted (len, actual) = not (len == 4) || not (actual == wanted)

-- The constructor from a FileDescriptor, with the answers for SO_DOMAIN and SO_TYPE.
unfoldable pub from_descriptor :
    FdWrapper → (domain type : ℕ) → (domain_answer type_answer : Option (ℕ × ℕ)) → Option FdWrapper
from_descriptor w domain type none type_answer = none
from_descriptor w domain type (some d) none = none
from_descriptor w domain type (some d) (some t) =
    if mismatch domain d then none else if mismatch type t then none else some w

-- Nothing but a system call.
unfoldable pub checked : FdWrapper → Option ℕ → Outcome Bool
checked w none = throws w
checked w (some n) = returns w true

unfoldable pub bind : (kernel : Address → Option ℕ) → FdWrapper → Address → Outcome Bool
unfolding checked
bind kernel w address = checked w (kernel address)

unfoldable pub connect : (kernel : Address → Option ℕ) → FdWrapper → Address → Outcome Bool
unfolding checked
connect kernel w address = checked w (kernel address)

unfoldable pub listen : (kernel : ℕ → Option ℕ) → FdWrapper → ℕ → Outcome Bool
unfolding checked
listen kernel w backlog = checked w (kernel backlog)

unfoldable pub set_reuseaddr : (kernel : Bool → Option ℕ) → FdWrapper → Outcome Bool
unfolding checked
set_reuseaddr kernel w = checked w (kernel true)

-- `get_address`, for `local_address` and `peer_address`.
unfoldable pub get_address : Option (List ℕ × ℕ) → Option Address
get_address none = none
get_address (some (raw, size)) = address raw size

-- The values of `how`.
pub data How : Type 0 where
  shut_rd shut_wr shut_rdwr : How
  other : How

unfoldable pub shutdown : FdWrapper → How → Option ℕ → Outcome Bool
shutdown w how none = throws w
shutdown w shut_rd (some n) = returns (register_read w) true
shutdown w shut_wr (some n) = returns (register_write w) true
shutdown w shut_rdwr (some n) = returns (register_write (register_read w)) true
shutdown w other (some n) = throws w

pub record ReceivedDatagram : Type 0 where
  pub source_address : Address
  pub payload : List ℕ

-- What `recvfrom` answers: its result, the bytes it has put into the buffer, and the sender.
pub record Received : Type 0 where
  pub recv_len : ℕ
  pub filled : List ℕ
  pub source : List ℕ
  pub fromlen : ℕ

-- `recv`. `mtu` stays below 2 ^ 63: a string takes no greater size.
unfoldable pub recv : FdWrapper → ℕ → Option Received → Outcome ReceivedDatagram
recv w mtu none = throws w
recv w mtu (some r) =
    let buffer = resize r.filled mtu in
    let done : Outcome ReceivedDatagram = elim (address r.source r.fromlen) [
      | none ↦ throws (register_read w)
      | some a ↦
          returns (register_read w)
            (record { source_address = a; payload = resize buffer r.recv_len })
    ] in
    if ltb mtu r.recv_len then throws w else done

-- `sendmsg_helper`, with what `sendmsg` answers.
unfoldable pub sendmsg_helper : BufferViewList → Option ℕ → Bool
sendmsg_helper payload none = false
sendmsg_helper payload (some bytes_sent) = bytes_sent == view_size payload

-- `sendto` and `send`.
unfoldable pub send : FdWrapper → BufferViewList → Option ℕ → Outcome Bool
send w payload answer =
    if sendmsg_helper payload answer then returns (register_write w) true else throws w

-- `accept`: the read is counted before the call. The new socket is checked as a TCP socket.
unfoldable pub accept :
    FdWrapper
    → (domain type : ℕ) → Option ℕ
    → (domain_answer type_answer : Option (ℕ × ℕ)) → Outcome FdWrapper
unfolding new
accept w domain type answer domain_answer type_answer =
    let accepted : Option FdWrapper = new answer in
    elim accepted [
      | none ↦ throws (register_read w)
      | some fresh ↦ elim (from_descriptor fresh domain type domain_answer type_answer) [
        | none ↦ throws (register_read w)
        | some socket ↦ returns (register_read w) socket
      ]
    ]

-- `ifr_name` of a TunTapFD: `strncpy` into 16 places, with a null at the end.
abbrev pub ifnamsiz : ℕ
ifnamsiz = 16

unfoldable pub ifr_name : List ℕ → List ℕ
ifr_name devname =
    let copied = take (ifnamsiz - 1) (c_str devname) in
    copied ++ replicate (ifnamsiz - length copied) 0

-- `ifr_flags`: IFF_TUN or IFF_TAP, and IFF_NO_PI.
unfoldable pub ifr_flags : Bool → ℕ
ifr_flags is_tun = (if is_tun then 1 else 2) + 0x1000

-- The constructor of a TunTapFD, with the number from `open` and the answer of `ioctl`.
unfoldable pub tun_tap :
    Option ℕ → (ioctl : List ℕ → ℕ → Option ℕ) → List ℕ → Bool → Option FdWrapper
tun_tap none ioctl devname is_tun = none
tun_tap (some fd) ioctl devname is_tun = elim (ioctl (ifr_name devname) (ifr_flags is_tun)) [
  | none ↦ none
  | some n ↦ some (wrapper fd)
]
