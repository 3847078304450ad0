-- ===== src/Reassembler/Reading.antt =====
-- Reading from `stream_out` of libsponge/stream_reassembler.hh between two pushes.
use cs144_2021_sponge.Prelude.{
  ℕ, ◌+◌, ◌^◌, ◌≤◌, ◌<◌, ◌≡◌, refl, sym, ap, ◌∙◌, true, List, [], ◌++◌, append-nil, ltb, length,
  take, drop, add64, arith, Bool-cases, inl, inr, take-add, take-drop-take,
}
use cs144_2021_sponge.ByteStream.{ByteStream, bytes_read, read, set_error}
use cs144_2021_sponge.ByteStream.Spec.{held}
use cs144_2021_sponge.ByteStream.Loops.{read_loop-split}
use cs144_2021_sponge.ByteStream.Refine.{length-buffer, taken_Represents, failed_Represents}
use cs144_2021_sponge.Reassembler.{StreamReassembler, read_output}
use cs144_2021_sponge.Reassembler.Window.{Window-kept, Window-grown}
use cs144_2021_sponge.Reassembler.Known.{known}
use cs144_2021_sponge.Reassembler.Invariant.{Filled, Inv, counters}

-- What a read may do: it hands out the next bytes of the stream.
pub record Reads (s : List ℕ) (r : StreamReassembler) (out : StreamReassembler × List ℕ)
    : Type 0 where
  pub inv : Inv s out.0
  pub next : take (bytes_read out.0.output) s ≡ take (bytes_read r.output) s ++ out.1
  pub same : (j : ℕ) → known out.0 j ≡ known r j
  pub flag : out.0.eof_flag ≡ r.eof_flag
  pub room : out.0.capacity ≡ r.capacity

module _ {s : List ℕ} (r : StreamReassembler) (v : Inv s r) (n : ℕ) where
  f : Filled s r
  f = v.filled

  cap_word : r.capacity < 2 ^ 64
  cap_word = omega (arith, f.small)

  too_much : Reads s r (record r { output = set_error r.output }, [])
  unfolding f set_error
  too_much = record {
    inv = record {
      filled = record {
        history = record f.history { has_error = true };
        represents = failed_Represents cap_word f.represents;
        prefix = f.prefix;
        inside = f.inside;
        small = f.small;
        window = Window-kept _ _ _ _ f.window;
        counted = f.counted;
        eof_right = f.eof_right;
        ended_last = f.ended_last;
      };
      settled = v.settled;
      ended = v.ended;
    };
    next = sym (append-nil _);
    same = λ j. refl;
    flag = refl;
    room = refl;
  }

  abbrev after : ByteStream
  after = record r.output {
    buffer = drop n r.output.buffer;
    read_bytes = add64 r.output.read_bytes n;
  }

  module _ (h : n ≤ held v.filled.history) where
    next_read : add64 r.output.read_bytes n ≡ f.history.taken + n
    unfolding f
    next_read = omega (arith, (counters s f).1, f.represents.within, f.inside, f.small, h)

    slice : take n r.output.buffer ≡ take n (drop f.history.taken s)
    unfolding f
    slice =
        ap (λ xs. take n xs) (f.represents.contents ∙ ap (λ xs. drop f.history.taken xs) f.prefix)
        ∙ take-drop-take f.history.taken n (length f.history.accepted) s
            (omega (arith, f.represents.within, h))

  enough :
      n ≤ held v.filled.history → Reads s r (record r { output = after }, take n r.output.buffer)
  unfolding f
  enough h = record {
    inv = record {
      filled = record {
        history = record f.history { taken = f.history.taken + n };
        represents = taken_Represents cap_word f.represents n h;
        prefix = f.prefix;
        inside = f.inside;
        small = f.small;
        window =
            Window-kept _ _ _ _
              (Window-grown (omega arith) (omega (arith, f.represents.within)) f.window);
        counted = f.counted;
        eof_right = f.eof_right;
        ended_last = f.ended_last;
      };
      settled = v.settled;
      ended = v.ended;
    };
    next =
        rw (next_read h, (counters s f).1)
          (take-add f.history.taken n s ∙ ap (λ xs. take f.history.taken s ++ xs) (sym (slice h)));
    same = λ j. refl;
    flag = refl;
    room = refl;
  }

  -- `read` on the output of a reassembler keeps its invariant.
  pub read_output-Reads : Reads s r (read_output r n)
  unfolding read_output read f
  read_output-Reads = elim (Bool-cases (ltb (length r.output.buffer) n)) [
    | inl over ↦ rw over too_much
    | inr fits ↦
        rw (fits, read_loop-split n r.output.buffer [])
          (enough (ground (arith, length-buffer cap_word f.represents)))
  ]
