-- ===== src/ByteStream.antt =====
-- libsponge/byte_stream.hh and byte_stream.cc: the flow-controlled in-memory byte stream. A method
-- that changes the object returns the new stream, beside its result where it has one.
pub mod Spec
pub mod Loops
pub mod Refine
pub mod Laws
mod Tests
use cs144_2021_sponge.Prelude.{
  ℕ, zero, suc, ◌<◌, min, Bool, true, false, ◌&&◌, List, [], ◌∷◌, ◌++◌, ltb, if◌then◌else◌, length,
  add64, sub64,
}

-- The members of `ByteStream`. The head of `buffer` is the front of the deque; `error_flag` is
-- `_error`. A byte is a number: the stream moves bytes and never computes with them.
pub record ByteStream : Type 0 where
  pub buffer : List ℕ
  pub capacity : ℕ
  pub end_write : Bool
  pub end_read : Bool
  pub written_bytes : ℕ
  pub read_bytes : ℕ
  pub error_flag : Bool

unfoldable pub new : ℕ → ByteStream
new capa = record {
  buffer = [];
  capacity = capa;
  end_write = false;
  end_read = false;
  written_bytes = 0;
  read_bytes = 0;
  error_flag = false;
}

abbrev pub is_empty : List ℕ → Bool
is_empty [] = true
is_empty (c ∷ cs) = false

-- The loop of `write`: the rounds left, the bytes from `data[i]` on, and the buffer.
unfoldable pub write_loop : ℕ → List ℕ → List ℕ → List ℕ
write_loop zero bytes buf = buf
write_loop (suc rounds) [] buf = buf
write_loop (suc rounds) (c ∷ bytes) buf = write_loop rounds bytes (buf ++ (c ∷ []))

unfoldable pub write : ByteStream → List ℕ → ByteStream × ℕ
write b bytes =
    let can_write = sub64 b.capacity (length b.buffer) in
    let real_write = min can_write (length bytes) in
    (
      record b {
        buffer = write_loop real_write bytes b.buffer;
        written_bytes = add64 b.written_bytes real_write;
      },
      real_write,
    )

-- The loop of `peek_output`: the rounds left, the buffer from index `i` on, and `out`.
unfoldable pub peek_loop : ℕ → List ℕ → List ℕ → List ℕ
peek_loop zero buf out = out
peek_loop (suc rounds) [] out = out
peek_loop (suc rounds) (c ∷ buf) out = peek_loop rounds buf (out ++ (c ∷ []))

unfoldable pub peek_output : ByteStream → ℕ → List ℕ
peek_output b len = let can_peek = min len (length b.buffer) in peek_loop can_peek b.buffer []

unfoldable pub set_error : ByteStream → ByteStream
set_error b = record b { error_flag = true }

-- The loop of `pop_output`: `pop_front`, as often as there are rounds.
unfoldable pub pop_loop : ℕ → List ℕ → List ℕ
pop_loop zero buf = buf
pop_loop (suc rounds) [] = []
pop_loop (suc rounds) (c ∷ buf) = pop_loop rounds buf

unfoldable pub pop_output : ByteStream → ℕ → ByteStream
unfolding set_error
pop_output b len =
    if ltb (length b.buffer) len
    then set_error b
    else record b { buffer = pop_loop len b.buffer; read_bytes = add64 b.read_bytes len }

-- The loop of `read`: the rounds left, the buffer and `out`.
unfoldable pub read_loop : ℕ → List ℕ → List ℕ → List ℕ × List ℕ
read_loop zero buf out = (buf, out)
read_loop (suc rounds) [] out = ([], out)
read_loop (suc rounds) (c ∷ buf) out = read_loop rounds buf (out ++ (c ∷ []))

unfoldable pub read : ByteStream → ℕ → ByteStream × List ℕ
unfolding set_error
read b len =
    let (rest, out) = read_loop len b.buffer [] in
    if ltb (length b.buffer) len
    then (set_error b, [])
    else (record b { buffer = rest; read_bytes = add64 b.read_bytes len }, out)

unfoldable pub end_input : ByteStream → ByteStream
end_input b = record b { end_write = true }

abbrev pub input_ended : ByteStream → Bool
input_ended b = b.end_write

abbrev pub error : ByteStream → Bool
error b = b.error_flag

abbrev pub buffer_size : ByteStream → ℕ
buffer_size b = length b.buffer

abbrev pub buffer_empty : ByteStream → Bool
buffer_empty b = is_empty b.buffer

abbrev pub eof : ByteStream → Bool
eof b = is_empty b.buffer && b.end_write

abbrev pub bytes_written : ByteStream → ℕ
bytes_written b = b.written_bytes

abbrev pub bytes_read : ByteStream → ℕ
bytes_read b = b.read_bytes

abbrev pub remaining_capacity : ByteStream → ℕ
remaining_capacity b = sub64 b.capacity (length b.buffer)
