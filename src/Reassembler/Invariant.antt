-- ===== src/Reassembler/Invariant.antt =====
-- What holds of the reassembler of libsponge/stream_reassembler.cc while a peer sends the stream `s`:
-- the output is a prefix of `s`, and the window holds bytes of `s` in their places.
use cs144_2021_sponge.Prelude.{
  ℕ, ◌+◌, ◌^◌, ◌≤◌, ◌<◌, ◌≡◌, refl, sym, Bool, true, false, ◌&&◌, List, ◌==◌, length, get_or, take,
  arith, length-replicate,
}
use cs144_2021_sponge.ByteStream.{bytes_read, bytes_written}
use cs144_2021_sponge.ByteStream.Spec.{History, start}
use cs144_2021_sponge.ByteStream.Refine.{Represents, new-Represents}
use cs144_2021_sponge.Reassembler.{StreamReassembler, new, front}
use cs144_2021_sponge.Reassembler.Bitmap.{marked, get_or-replicate, marked-replicate}
use cs144_2021_sponge.Reassembler.Window.{Window}

module _ (s : List ℕ) where
  -- A substring of the stream: its bytes are those of `s` from `index` on, and the end flag comes
  -- with the last byte only.
  pub record Fragment (text : List ℕ) (index : ℕ) (eof : Bool) : Type 0 where
    pub inside : index + length text ≤ length s
    pub right : (i : ℕ) → i < length text → get_or text i 0 ≡ get_or s (index + i) 0
    pub last : eof ≡ true → index + length text ≡ length s

  -- The state between two steps of `push_substring`.
  pub record Filled (r : StreamReassembler) : Type 0 where
    pub history : History
    pub represents : Represents r.capacity r.output history
    pub prefix : history.accepted ≡ take (length history.accepted) s
    pub inside : length history.accepted ≤ length s
    pub small : length s + r.capacity < 2 ^ 64
    pub window : Window s (length history.accepted) (history.taken + r.capacity) r
    pub counted : r.unassembled ≡ marked r.bitmap
    pub eof_right : r.eof_flag ≡ true → r.eof_index ≡ length s
    pub ended_last :
        history.has_ended ≡ true → (r.eof_flag ≡ true) × (length history.accepted ≡ length s)

  -- The state between two calls: the byte after the assembled ones is missing, and the output has
  -- ended exactly when the end is known and all bytes are written.
  pub record Inv (r : StreamReassembler) : Type 0 where
    pub filled : Filled r
    pub settled : front r.bitmap false ≡ false
    pub ended : r.output.end_write ≡ (r.eof_flag && (length s == bytes_written r.output))

  -- The counters of the output have not wrapped.
  pub counters :
      {r : StreamReassembler} (f : Filled r)
      → (bytes_written r.output ≡ length f.history.accepted)
        × (bytes_read r.output ≡ f.history.taken)
  counters f =
      omega
        (arith, f.represents.written, f.represents.given, f.represents.within, f.inside, f.small)

  pub new-Inv : (capacity : ℕ) → length s + capacity < 2 ^ 64 → Inv (new capacity)
  unfolding new start
  new-Inv capacity small = record {
    filled = record {
      history = start;
      represents = new-Represents capacity;
      prefix = refl;
      inside = omega arith;
      small = small;
      window = record {
        slots = length-replicate capacity 0;
        marks = length-replicate capacity false;
        reach = omega arith;
        holds = λ i h. cc (get_or-replicate capacity i false);
      };
      counted = sym (marked-replicate capacity);
      eof_right = λ e. cc;
      ended_last = λ e. cc;
    };
    settled = get_or-replicate capacity 0 false;
    ended = (new-Represents capacity).ended;
  }
