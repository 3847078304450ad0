-- ===== src/Reassembler/Runs.antt =====
-- Whole histories of a reassembler (libsponge/stream_reassembler.cc): pieces of one stream arrive in
-- any order, overlapping and repeated, and the reader takes bytes in between.
use cs144_2021_sponge.Prelude.{
  ℕ, ◌+◌, ◌^◌, ◌≤◌, ◌<◌, ◌≡◌, refl, sym, ap, ap₂, ◌∙◌, Bool, true, false, ◌&&◌, ◌||◌, List, [], ◌∷◌,
  ◌++◌, ltb, leb, length, take, drop, arith, take_all, take-append-drop,
}
use cs144_2021_sponge.ByteStream as Stream
use cs144_2021_sponge.ByteStream.{bytes_read, bytes_written, buffer_size, input_ended}
use cs144_2021_sponge.Reassembler.{
  StreamReassembler, new, push_substring, read_output, unassembled_bytes,
}
use cs144_2021_sponge.Reassembler.Bitmap.{marked, marked-le}
use cs144_2021_sponge.Reassembler.Invariant.{Fragment, Inv, counters, new-Inv}
use cs144_2021_sponge.Reassembler.Known.{known}
use cs144_2021_sponge.Reassembler.Deliver.{push-Learns}
use cs144_2021_sponge.Reassembler.Reading.{read_output-Reads}
use cs144_2021_sponge.Reassembler.Contract.{complete, within_capacity}

-- What happens to a reassembler: a substring arrives, or the reader asks for bytes.
pub data Event : Type 0 where
  arrives : List ℕ → ℕ → Bool → Event
  consumes : ℕ → Event

-- Every substring that arrives is a piece of the stream `s`.
abbrev pub AllPieces : List ℕ → List Event → Type 0
AllPieces s [] = Unit {0}
AllPieces s (arrives text index eof ∷ es) = Fragment s text index eof × AllPieces s es
AllPieces s (consumes n ∷ es) = AllPieces s es

-- The state after the events, and all bytes that were read, in order.
unfoldable pub run : StreamReassembler → List ℕ → List Event → StreamReassembler × List ℕ
run r got [] = (r, got)
run r got (arrives text index eof ∷ es) = run (push_substring r text index eof) got es
run r got (consumes n ∷ es) = let (r', bytes) = read_output r n in run r' (got ++ bytes) es

-- Some piece holds byte `j`.
unfoldable pub covered : List Event → ℕ → Bool
covered [] j = false
covered (arrives text index eof ∷ es) j =
    (leb index j && ltb j (index + length text)) || covered es j
covered (consumes n ∷ es) j = covered es j

-- Some piece carries the end flag.
unfoldable pub has_last : List Event → Bool
has_last [] = false
has_last (arrives text index eof ∷ es) = eof || has_last es
has_last (consumes n ∷ es) = has_last es

new-facts :
    (capacity : ℕ) → (bytes_read (new capacity).output ≡ 0) × ((new capacity).capacity ≡ capacity)
unfolding new Stream.new
new-facts capacity = (refl, refl)

module _ (s : List ℕ) where
  record Ran (r : StreamReassembler) (es : List Event) (out : StreamReassembler × List ℕ)
      : Type 0 where
    inv : Inv s out.0
    order : out.1 ≡ take (bytes_read out.0.output) s
    -- With room for the whole stream nothing that arrived is lost.
    complete_known :
        length s ≤ r.capacity → (j : ℕ) → j < length s → known out.0 j ≡ (known r j || covered es j)
    flagged : out.0.eof_flag ≡ (r.eof_flag || has_last es)
    room : out.0.capacity ≡ r.capacity

  run-Ran :
      (es : List Event) (r : StreamReassembler) (got : List ℕ)
      → AllPieces s es
      → Inv s r
      → got ≡ take (bytes_read r.output) s
      → Ran r es (run r got es)
  unfolding run covered has_last
  run-Ran [] r got ps v e = record {
    inv = v;
    order = e;
    complete_known = λ fits j h. ground arith;
    flagged = ground arith;
    room = refl;
  }
  run-Ran (arrives text index eof ∷ es) r got ps v e =
      let l = push-Learns r v ps.0 in
      let ran = run-Ran es _ got ps.1 l.inv (e ∙ ap (λ (k : ℕ). take k s) (sym l.unread)) in
      record {
        inv = ran.inv;
        order = ran.order;
        complete_known =
            λ fits j h. ground (arith, ran.complete_known (omega (arith, l.room)) j h, l.learned j);
        flagged = ground (arith, ran.flagged, l.flagged);
        room = ran.room ∙ l.room;
      }
  run-Ran (consumes n ∷ es) r got ps v e =
      let d = read_output-Reads r v n in
      let ran = run-Ran es _ _ ps d.inv (ap (λ xs. xs ++ (read_output r n).1) e ∙ sym d.next) in
      record {
        inv = ran.inv;
        order = ran.order;
        complete_known = λ fits j h.
            ran.complete_known (omega (arith, d.room)) j h ∙ ap (λ b. b || covered es j) (d.same j);
        flagged = ran.flagged ∙ ap (λ b. b || has_last es) d.flag;
        room = ran.room ∙ d.room;
      }

  -- Whatever pieces of the stream `s` arrive and however many bytes the reader asks for in between,
  -- the bytes that the reader has got are the first bytes of `s`, in order and each once, and the
  -- invariant holds. The stream and the capacity together stay below 2 ^ 64.
  pub run_in_order :
      (capacity : ℕ) (es : List Event)
      → length s + capacity < 2 ^ 64
      → AllPieces s es
      → let (r, got) = run (new capacity) [] es in (got ≡ take (bytes_read r.output) s) × Inv s r
  run_in_order capacity es small ps =
      let start = new-Inv s capacity small in
      let ran =
        run-Ran es (new capacity) [] ps start
          (ap (λ (k : ℕ). take k s) (sym (new-facts capacity).0)) in
      (ran.order, ran.inv)

  -- Whatever pieces of the stream `s` arrive at a new reassembler and whatever the reader takes in between:
  -- `unassembled_bytes` is the number of slots of the window that hold a byte, and these bytes and those that
  -- are assembled but not read never exceed the capacity together. The stream and the capacity together stay
  -- below 2 ^ 64.
  pub stays_within :
      (capacity : ℕ) (es : List Event)
      → length s + capacity < 2 ^ 64
      → AllPieces s es
      → let r = (run (new capacity) [] es).0 in
        (unassembled_bytes r ≡ marked r.bitmap)
        × (length r.bitmap ≡ capacity)
        × (unassembled_bytes r + buffer_size r.output ≤ capacity)
  stays_within capacity es small ps =
      let facts = new-facts capacity in
      let ran =
        run-Ran es (new capacity) [] ps (new-Inv s capacity small)
          (ap (λ (k : ℕ). take k s) (sym facts.0)) in
      let same = ran.room ∙ facts.1 in
      (
        ran.inv.filled.counted,
        ran.inv.filled.window.marks ∙ same,
        omega (arith, within_capacity _ ran.inv, same),
      )

  module _ {r : StreamReassembler} (v : Inv s r) (full : bytes_written r.output ≡ length s) where
    accepted_all : v.filled.history.accepted ≡ s
    accepted_all = v.filled.prefix ∙ take_all _ s (omega (arith, full, counters s v.filled))

    rest-buffer : r.output.buffer ≡ drop (bytes_read r.output) s
    rest-buffer =
        v.filled.represents.contents
        ∙ ap₂ (λ (k : ℕ) (xs : List ℕ). drop k xs) (sym (counters s v.filled).1) accepted_all

    none_waits : unassembled_bytes r ≡ 0
    none_waits = omega (
      arith,
      v.filled.counted,
      marked-le r.bitmap 0
          (λ i h. omega (arith, v.filled.window.holds i h, full, counters s v.filled)),
    )

  -- With room for the whole stream `s`, once pieces that together hold every byte have arrived, one of
  -- them with the end flag, in any order and with any reads in between: what was read and what can be
  -- read make up exactly `s`, the output has ended, and nothing is left waiting.
  pub run_complete :
      (capacity : ℕ) (es : List Event)
      → length s + capacity < 2 ^ 64
      → length s ≤ capacity
      → AllPieces s es
      → ((j : ℕ) → j < length s → covered es j ≡ true)
      → has_last es ≡ true
      → let (r, got) = run (new capacity) [] es in
        (got ++ r.output.buffer ≡ s) × (input_ended r.output ≡ true) × (unassembled_bytes r ≡ 0)
  run_complete capacity es small fits ps all last =
      let facts = new-facts capacity in
      let ran =
        run-Ran es (new capacity) [] ps (new-Inv s capacity small)
          (ap (λ (k : ℕ). take k s) (sym facts.0)) in
      let (full, ended) =
        complete _ ran.inv (ran.flagged ∙ flag_last)
          (λ j h. ran.complete_known (omega (arith, facts.1)) j h ∙ covers j (all j h)) in
      (
        ap₂ ◌++◌ ran.order (rest-buffer ran.inv full) ∙ take-append-drop _ s,
        ended,
        none_waits ran.inv full,
      )
    where
      flag_last : ((new capacity).eof_flag || has_last es) ≡ true
      flag_last = ground arith

      covers : (j : ℕ) → covered es j ≡ true → (known (new capacity) j || covered es j) ≡ true
      covers j h = ground arith
