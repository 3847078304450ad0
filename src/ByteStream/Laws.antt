-- ===== src/ByteStream/Laws.antt =====
-- How the calls of libsponge/byte_stream.cc relate to one another, and what `write` does to a
-- stream whose input has ended.
use cs144_2021_sponge.Prelude.{
  ℕ, zero, suc, ◌≤◌, ◌<◌, ◌≡◌, ◌≢◌, refl, true, false, List, [], ◌∷◌, ◌++◌, length, take, min,
  arith, take-min,
}
use cs144_2021_sponge.ByteStream.Loops.{
  write_loop-append, peek_loop-append, pop_loop-drop, read_loop-split,
}
use cs144_2021_sponge.ByteStream.{
  ByteStream, write, peek_output, pop_output, read, eof, buffer_size, remaining_capacity, is_empty,
}

-- `read` of as many bytes as are held returns what `peek_output` shows and leaves the stream as
-- `pop_output` does.
pub read-peek-pop :
    (b : ByteStream) (n : ℕ) → n ≤ buffer_size b → read b n ≡ (pop_output b n, peek_output b n)
unfolding read pop_output peek_output
read-peek-pop b n h = ground (
  arith,
  read_loop-split n b.buffer [],
  pop_loop-drop n b.buffer,
  peek_loop-append (min n (length b.buffer)) b.buffer [],
  take-min n b.buffer,
)

is_empty-append-take :
    (n x : ℕ) (xs buf : List ℕ) → 0 < n → is_empty (buf ++ take n (x ∷ xs)) ≡ false
is_empty-append-take zero x xs [] h = absurd (omega arith)
is_empty-append-take (suc n) x xs [] h = refl
is_empty-append-take n x xs (y ∷ buf) h = refl

-- A stream at its end of file with room left leaves it again: `write` does not look at the end flag
-- and accepts every non-empty text as before, so that `eof` turns false.
pub eof-write :
    (b : ByteStream) (xs : List ℕ)
    → eof b ≡ true
    → 0 < remaining_capacity b
    → xs ≢ []
    → (eof (write b xs).0 ≡ false) × (0 < (write b xs).1)
unfolding write
eof-write b [] e room h = absurd (h refl)
eof-write b (x ∷ xs) e room h =
    let room' : 0 < min (remaining_capacity b) (suc (length xs)) = omega arith in
    (rw (write_loop-append, is_empty-append-take _ x xs b.buffer room'), room')
