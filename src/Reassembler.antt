-- ===== src/Reassembler.antt =====
-- libsponge/stream_reassembler.hh and stream_reassembler.cc: substrings of a byte stream arrive in
-- any order, and the window of the next `capacity` bytes keeps them until they are contiguous.
pub mod Bitmap
pub mod Window
pub mod Copy
pub mod Drain
pub mod Invariant
pub mod Store
pub mod Push
pub mod Known
pub mod Deliver
pub mod Contract
pub mod Reading
pub mod Runs
mod Tests
use cs144_2021_sponge.Prelude.{
  ℕ, zero, suc, ◌+◌, min, max, Bool, true, false, ◌&&◌, ◌||◌, List, [], ◌∷◌, ◌++◌, ltb, leb, ◌==◌,
  if◌then◌else◌, length, get_or, set, replicate, add64, sub64,
}
use cs144_2021_sponge.ByteStream.{ByteStream, bytes_read, bytes_written}
use cs144_2021_sponge.ByteStream as Stream

-- The members of `StreamReassembler`. The heads of `buffer` and `bitmap` are the fronts of the
-- deques; `unassembled` is `_unassembled_bytes`.
pub record StreamReassembler : Type 0 where
  pub buffer : List ℕ
  pub bitmap : List Bool
  pub eof_flag : Bool
  pub eof_index : ℕ
  pub unassembled : ℕ
  pub output : ByteStream
  pub capacity : ℕ

unfoldable pub new : ℕ → StreamReassembler
new capacity = record {
  buffer = replicate capacity 0;
  bitmap = replicate capacity false;
  eof_flag = false;
  eof_index = 0;
  unassembled = 0;
  output = Stream.new capacity;
  capacity = capacity;
}

-- The body of both copying loops: the byte goes to slot `k` of the window unless one is there.
unfoldable pub put : StreamReassembler → ℕ → ℕ → StreamReassembler
put r k byte = if get_or r.bitmap k false then r else record r {
  buffer = set r.buffer k byte;
  bitmap = set r.bitmap k true;
  unassembled = add64 r.unassembled 1;
}

-- The copying loops: the rounds left and the index `i`. Byte `i + src` of the text goes to slot
-- `i + dst`; case 2 of `push_substring` has `src = 0` and case 3 has `dst = 0`.
unfoldable pub copy_loop :
    ℕ → ℕ → (dst src : ℕ) (text : List ℕ) → StreamReassembler → StreamReassembler
copy_loop zero i dst src text r = r
copy_loop (suc rounds) i dst src text r =
    copy_loop rounds (i + 1) dst src text (put r (add64 i dst) (get_or text (add64 i src) 0))

-- `front`, `pop_front` and `push_back` of the two deques.
abbrev pub front {ℓ} : {A : Type ℓ} → List A → A → A
front xs d = get_or xs 0 d

abbrev pub shift {ℓ} : {A : Type ℓ} → List A → A → List A
shift [] d = d ∷ []
shift (x ∷ xs) d = xs ++ (d ∷ [])

-- The loop that moves the contiguous front of the window to `str`. The fuel is the number of slots
-- and one more round for the test that stops it.
unfoldable pub drain_loop : ℕ → StreamReassembler → List ℕ → StreamReassembler × List ℕ
drain_loop zero r str = (r, str)
drain_loop (suc fuel) r str =
    let rest =
      drain_loop fuel (record r { buffer = shift r.buffer 0; bitmap = shift r.bitmap false })
        (str ++ (front r.buffer 0 ∷ [])) in
    if front r.bitmap false then rest else (r, str)

unfoldable pub record_eof : StreamReassembler → ℕ → Bool → StreamReassembler
record_eof r end eof = if eof then record r { eof_flag = true; eof_index = end } else r

unfoldable pub check_eof : StreamReassembler → StreamReassembler
check_eof r =
    if r.eof_flag && (r.eof_index == bytes_written r.output)
    then record r { output = Stream.end_input r.output }
    else r

-- What came out of the window is written, and leaves the count of waiting bytes.
unfoldable pub write_out : StreamReassembler → List ℕ → StreamReassembler
write_out r str =
    if ltb 0 (length str)
    then record r {
      output = (Stream.write r.output str).0;
      unassembled = sub64 r.unassembled (length str);
    }
    else r

-- The second half of `push_substring`: drain the window, write what came out, look for the end.
unfoldable pub assemble : StreamReassembler → StreamReassembler
assemble r =
    let (drained, str) = drain_loop (length r.bitmap + 1) r [] in check_eof (write_out drained str)

-- Cases 2 and 3: the part of the text that lies in the window is copied.
unfoldable pub store :
    StreamReassembler
    → (text : List ℕ) (index start end first_unassembled first_unacceptable : ℕ) → StreamReassembler
store r text index start end first_unassembled first_unacceptable =
    if leb first_unassembled start
    then copy_loop (sub64 (min end first_unacceptable) start) 0 (sub64 index first_unassembled) 0
        text r
    else if ltb first_unassembled end
    then copy_loop (sub64 (min end first_unacceptable) (max start first_unassembled)) 0 0
        (sub64 first_unassembled index) text r
    else r

unfoldable pub push_substring : StreamReassembler → List ℕ → ℕ → Bool → StreamReassembler
push_substring r text index eof =
    let first_unread = bytes_read r.output in
    let first_unassembled = bytes_written r.output in
    let first_unacceptable = add64 first_unread r.capacity in
    let end = add64 index (length text) in
    let checked = check_eof (record_eof r end eof) in
    if leb end first_unassembled || leb first_unacceptable index
    then checked
    else assemble (store checked text index index end first_unassembled first_unacceptable)

abbrev pub unassembled_bytes : StreamReassembler → ℕ
unassembled_bytes r = r.unassembled

abbrev pub empty : StreamReassembler → Bool
empty r = r.unassembled == 0

-- `stream_out`, as it is used by a reader: the output is read through the reference.
unfoldable pub read_output : StreamReassembler → ℕ → StreamReassembler × List ℕ
read_output r len =
    let (rest, bytes) = Stream.read r.output len in (record r { output = rest }, bytes)
