-- ===== src/Webget.antt =====
-- apps/webget.cc: `get_URL` and `main`, over a TCPSocket (libsponge/util/socket.cc). Texts are lists of character
-- codes. What the system answers is a parameter.
pub mod Laws
mod Tests
use cs144_2021_sponge.Prelude.{
  ℕ, zero, suc, ◌+◌, ◌-◌, ◌^◌, Bool, true, false, Option, none, some, List, [], ◌∷◌, ◌++◌,
  if◌then◌else◌,
}
use cs144_2021_sponge.Address.{Address, Resolved, Hints, from_host}
use cs144_2021_sponge.BufferList.{view_of}
use cs144_2021_sponge.Descriptor.{FdWrapper, Outcome, returns, throws, read, write, close}
use cs144_2021_sponge.Socket as Socket
use cs144_2021_sponge.Socket.{connect, shutdown, shut_wr}

pub record System : Type 0 where
  pub socket : Option ℕ
  pub getaddrinfo : List ℕ → List ℕ → Hints → Resolved
  pub connect : Address → Option ℕ
  -- The answers of `writev`, in the rounds of each of the four calls of `write`.
  pub writev : ℕ → ℕ → List ℕ → Option ℕ
  pub shutdown : Option ℕ
  pub reads : ℕ → Option (List ℕ)
  pub close : Option ℕ

-- How the call ends: with the descriptor and what was printed, or by an exception after some of it.
pub data Fetch : Type 0 where
  finished : FdWrapper → List ℕ → Fetch
  failed : List ℕ → Fetch

-- "GET ", " HTTP/1.1\r\n", "Host: ", "Connection: close\r\n", "\r\n" and "http".
abbrev pub get_text : List ℕ
get_text = 71 ∷ 69 ∷ 84 ∷ 32 ∷ []

abbrev pub crlf : List ℕ
crlf = 13 ∷ 10 ∷ []

abbrev pub version_text : List ℕ
version_text = (32 ∷ 72 ∷ 84 ∷ 84 ∷ 80 ∷ 47 ∷ 49 ∷ 46 ∷ 49 ∷ []) ++ crlf

abbrev pub host_text : List ℕ
host_text = 72 ∷ 111 ∷ 115 ∷ 116 ∷ 58 ∷ 32 ∷ []

abbrev pub close_text : List ℕ
close_text =
    (67 ∷ 111 ∷ 110 ∷ 110 ∷ 101 ∷ 99 ∷ 116 ∷ 105 ∷ 111 ∷ 110 ∷ 58 ∷ 32 ∷ 99 ∷ 108 ∷ 111 ∷ 115 ∷ 101
      ∷ [])
    ++ crlf

abbrev pub http_text : List ℕ
http_text = 104 ∷ 116 ∷ 116 ∷ 112 ∷ []

-- On to the next statement, unless there was an exception. `none` stands for a loop that goes on.
unfoldable pub and_then :
    {A : Type 0} → Option (Outcome A) → (FdWrapper → Option Fetch) → Option Fetch
and_then none next = none
and_then (some (throws w)) next = some (failed [])
and_then (some (returns w a)) next = next w

-- `close`: it changes the descriptor if the system call succeeds.
unfoldable pub try_close : Option ℕ → FdWrapper → List ℕ → Fetch
try_close none w printed = failed printed
try_close (some n) w printed = finished (close w) printed

-- The loop that prints, and what follows it. The fuel bounds the rounds.
unfoldable pub read_loop : ℕ → System → ℕ → FdWrapper → List ℕ → Option Fetch
read_loop zero k i w printed = none
read_loop (suc fuel) k i w printed =
    if w.at_eof
    then some (try_close k.close w printed)
    else elim (read w (2 ^ 64 - 1) (k.reads i)) [
      | throws w' ↦ some (failed printed)
      | returns w' recv_msg ↦ read_loop fuel k (i + 1) w' (printed ++ recv_msg)
    ]

-- One `write` of a text.
unfoldable pub send_text : System → ℕ → List ℕ → FdWrapper → Option (Outcome ℕ)
send_text k i text w = write (k.writev i) true w (view_of text)

-- The rest of `get_URL`, with the connected socket.
unfoldable pub talk : ℕ → System → (host path : List ℕ) → FdWrapper → Option Fetch
talk fuel k host path w = and_then (send_text k 0 (get_text ++ path ++ version_text) w) (λ w.
    and_then (send_text k 1 (host_text ++ host ++ crlf) w) (λ w.
      and_then (send_text k 2 close_text w) (λ w.
        and_then (send_text k 3 crlf w)
          (λ w. and_then (some (shutdown w shut_wr k.shutdown)) (λ w. read_loop fuel k 0 w [])))))

unfoldable pub get_url : ℕ → System → (host path : List ℕ) → Option Fetch
get_url fuel k host path = elim (Socket.new k.socket) [
  | none ↦ some (failed [])
  | some w ↦ elim (from_host k.getaddrinfo host http_text) [
    | none ↦ some (failed [])
    | some addr ↦ and_then (some (connect k.connect w addr)) (talk fuel k host path)
  ]
]

-- How the program ends: by `abort`, or with a status and what it has printed on its output.
pub data Exit : Type 0 where
  aborted : Exit
  exited : ℕ → List ℕ → Exit

unfoldable pub exit_of : Fetch → Exit
exit_of (finished w printed) = exited 0 printed
exit_of (failed printed) = exited 1 printed

unfoldable pub exits : Option Fetch → Option Exit
exits none = none
exits (some f) = some (exit_of f)

-- `main`, with `argv` as a list of `argc` texts.
unfoldable pub main : ℕ → System → List (List ℕ) → Option Exit
main fuel k [] = some aborted
main fuel k (program ∷ []) = some (exited 1 [])
main fuel k (program ∷ host ∷ []) = some (exited 1 [])
main fuel k (program ∷ host ∷ path ∷ []) = exits (get_url fuel k host path)
main fuel k (program ∷ host ∷ path ∷ more ∷ rest) = some (exited 1 [])
