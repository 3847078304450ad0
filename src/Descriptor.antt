-- ===== src/Descriptor.antt =====
-- libsponge/util/file_descriptor.hh and file_descriptor.cc: the state that is kept for a file descriptor
-- and shared by its duplicates. What a system call returns is an argument: `none` stands for a failure,
-- on which SystemCall throws.
pub mod Laws
pub mod Store
pub mod Owners
pub mod Flags
mod Tests
use cs144_2021_sponge.Prelude.{
  ℕ, zero, suc, ◌+◌, ◌*◌, ◌%◌, ◌^◌, min, Bool, true, false, ◌&&◌, not, Option, none, some, List, [],
  ◌∷◌, ◌++◌, ltb, ◌==◌, if◌then◌else◌, length, add64,
}
use cs144_2021_sponge.BufferList.{BufferViewList, remove_view_prefix, view_size}

-- The members of `FDWrapper`, to which every duplicate of a `FileDescriptor` points.
pub record FdWrapper : Type 0 where
  pub fd : ℕ
  pub at_eof : Bool
  pub is_closed : Bool
  pub reads : ℕ
  pub writes : ℕ

-- The constructor, for a number that is not negative.
abbrev pub wrapper : ℕ → FdWrapper
wrapper fd = record { fd = fd; at_eof = false; is_closed = false; reads = 0; writes = 0 }

-- `close`, where the system call succeeds; else SystemCall throws and nothing changes.
unfoldable pub close : FdWrapper → FdWrapper
close w = record w { at_eof = true; is_closed = true }

unfoldable pub register_read : FdWrapper → FdWrapper
register_read w = record w { reads = (w.reads + 1) % 2 ^ 32 }

unfoldable pub register_write : FdWrapper → FdWrapper
register_write w = record w { writes = (w.writes + 1) % 2 ^ 32 }

-- How a call ends: with a result, or by an exception; the state is as it was left.
pub data Outcome (A : Type 0) : Type 0 where
  returns : FdWrapper → A → Outcome A
  throws : FdWrapper → Outcome A

-- The size of one read.
abbrev pub buffer_size : ℕ
buffer_size = 1024 * 1024

unfoldable pub mark_eof : FdWrapper → ℕ → ℕ → FdWrapper
mark_eof w limit bytes_read =
    if ltb 0 limit && (bytes_read == 0) then record w { at_eof = true } else w

-- `read`, with the bytes that the kernel has put into the buffer.
unfoldable pub read : FdWrapper → ℕ → Option (List ℕ) → Outcome (List ℕ)
read w limit none = throws w
read w limit (some bytes) =
    let size_to_read = min buffer_size limit in
    let marked = mark_eof w limit (length bytes) in
    if ltb size_to_read (length bytes) then throws marked else returns (register_read marked) bytes

-- One round of `write`, with what `writev` returned: the new state, the rest of the buffer and the total.
unfoldable pub write_once : FdWrapper → BufferViewList → ℕ → Option ℕ → Outcome (BufferViewList × ℕ)
write_once w buffer total none = throws w
write_once w buffer total (some bytes_written) =
    let rest : Outcome (BufferViewList × ℕ) = elim (remove_view_prefix buffer bytes_written) [
      | none ↦ throws (register_write w)
      | some left ↦ returns (register_write w) (left, add64 total bytes_written)
    ] in
    if (bytes_written == 0) && not (view_size buffer == 0)
    then throws w
    else if ltb (view_size buffer) bytes_written
    then throws w
    else rest

-- The text that a list of views shows: what `as_iovecs` lets the kernel see.
unfoldable pub shown : List (List ℕ) → List ℕ
shown [] = []
shown (view ∷ views) = view ++ shown views

-- The loop of `write`. `writev` is the kernel: its answer in each round to the text that it sees. The
-- fuel bounds the rounds; `none` means that it ran out.
unfoldable pub write_loop :
    ℕ
    → (round : ℕ) (writev : ℕ → List ℕ → Option ℕ) (write_all : Bool) → FdWrapper
    → BufferViewList
    → ℕ
    → Option (Outcome ℕ)
write_loop zero round writev write_all w buffer total = none
write_loop (suc fuel) round writev write_all w buffer total =
    elim (write_once w buffer total (writev round (shown buffer.views))) [
      | throws w' ↦ some (throws w')
      | returns w' r ↦
          let rest = write_loop fuel (round + 1) writev write_all w' r.0 r.1 in
          if write_all && not (view_size r.0 == 0) then rest else some (returns w' r.1)
    ]

-- `write`. One round for each byte, and one for an empty text.
unfoldable pub write :
    (writev : ℕ → List ℕ → Option ℕ) (write_all : Bool)
    → FdWrapper
    → BufferViewList
    → Option (Outcome ℕ)
write writev write_all w buffer =
    write_loop (length (shown buffer.views) + 1) 0 writev write_all w buffer 0
