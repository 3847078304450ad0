-- ===== src/Reassembler/Push.antt =====
-- Every part of `push_substring` in libsponge/stream_reassembler.cc keeps the invariant.
use cs144_2021_sponge.Prelude.{
  ℕ, ◌+◌, ◌-◌, ◌^◌, ◌≤◌, ◌<◌, ◌≡◌, refl, sym, ap, ap₂, ◌∙◌, Bool, true, false, ◌&&◌, List, [], ◌∷◌,
  ◌++◌, append-nil, ltb, ◌==◌, length, take, arith, length-append, Bool-cases, inl, inr,
  if◌then◌else◌, lt→ltb, length-take,
}
use cs144_2021_sponge.ByteStream.{bytes_written, end_input, write, ByteStream}
use cs144_2021_sponge.ByteStream.Spec.{History, held}
use cs144_2021_sponge.ByteStream.Refine.{Represents, write-Represents, ended_Represents}
use cs144_2021_sponge.Reassembler.{StreamReassembler, record_eof, check_eof, write_out}
use cs144_2021_sponge.Reassembler.Bitmap.{marked, marked-le-length}
use cs144_2021_sponge.Reassembler.Window.{Window-kept, Window-moved}
use cs144_2021_sponge.Reassembler.Drain.{Drained}
use cs144_2021_sponge.Reassembler.Invariant.{Filled, counters}

pub output-write_out :
    (r : StreamReassembler) (str : List ℕ)
    → (write_out r str).output ≡ (if ltb 0 (length str) then (write r.output str).0 else r.output)
unfolding write_out
output-write_out r str = ground arith

pub write_out-only :
    (r : StreamReassembler) (str : List ℕ)
    → write_out r str
      ≡ record r { unassembled = (write_out r str).unassembled; output = (write_out r str).output }
unfolding write_out
write_out-only r str = ground arith

-- The write that is skipped for an empty text would not have changed the output.
write_str-Represents :
    {cap : ℕ}
    → cap < 2 ^ 64
    → {b : ByteStream} {h : History} → Represents cap b h
    → (str : List ℕ) → length str ≤ cap - held h
    → Represents cap
        (if ltb 0 (length str) then (write b str).0 else b)
        (record h { accepted = h.accepted ++ str })
write_str-Represents small r [] fits = rw append-nil r
write_str-Represents small r (x ∷ xs) fits =
    rw (lt→ltb 0 (length (x ∷ xs)) (omega arith)) (write-Represents small r (x ∷ xs) fits)

module _ (s : List ℕ) where
  pub record_eof-Filled :
      (r : StreamReassembler) (end : ℕ) (eof : Bool)
      → (eof ≡ true → end ≡ length s)
      → Filled s r
      → Filled s (record_eof r end eof)
  unfolding record_eof
  record_eof-Filled r end true last f = record {
    history = f.history;
    represents = f.represents;
    prefix = f.prefix;
    inside = f.inside;
    small = f.small;
    window = Window-kept _ _ _ _ f.window;
    counted = f.counted;
    eof_right = λ e. last refl;
    ended_last = λ e. (refl, (f.ended_last e).1);
  }
  record_eof-Filled r end false last f = f

  pub ended_exactly :
      (r : StreamReassembler) (f : Filled s r)
      → (check_eof r).output.end_write ≡ (r.eof_flag && (length s == bytes_written r.output))
  unfolding check_eof end_input
  ended_exactly r f = ground (arith, counters s f, f.eof_right, f.ended_last, f.represents.ended)

  pub check_eof-Filled : (r : StreamReassembler) → Filled s r → Filled s (check_eof r)
  unfolding check_eof
  check_eof-Filled r f = elim (Bool-cases (r.eof_flag && (r.eof_index == bytes_written r.output))) [
    | inl done ↦ rw done (record {
      history = record f.history { has_ended = true };
      represents = ended_Represents (omega (arith, f.small)) f.represents;
      prefix = f.prefix;
      inside = f.inside;
      small = f.small;
      window = Window-kept _ _ _ _ f.window;
      counted = f.counted;
      eof_right = f.eof_right;
      ended_last = λ e. last done;
    })
    | inr open_ ↦ rw open_ f
  ]
    where
      last :
          (r.eof_flag && (r.eof_index == bytes_written r.output)) ≡ true
          → (r.eof_flag ≡ true) × (length f.history.accepted ≡ length s)
      last e = ground (arith, counters s f, f.eof_right)

  module _ {r : StreamReassembler} {d : StreamReassembler × List ℕ} (f : Filled s r)
      (drained : Drained s (f.history.taken + r.capacity) (length f.history.accepted) r [] d) where
    abbrev pub grown : History
    grown = record f.history { accepted = f.history.accepted ++ d.1 }

    grown-prefix : grown.accepted ≡ take drained.reached s
    grown-prefix = ap₂ ◌++◌ f.prefix drained.text ∙ sym drained.advance

    -- The position that the drain has reached is the number of bytes then written.
    pub length-grown : length grown.accepted ≡ drained.reached
    length-grown =
        omega (arith, ap length grown-prefix, length-take drained.reached s, drained.in_stream)

    length-text : length d.1 + length f.history.accepted ≡ drained.reached
    length-text = omega (arith, length-grown, length-append f.history.accepted d.1)

    pub write_out-Represents : Represents d.0.capacity (write_out d.0 d.1).output grown
    write_out-Represents =
        rw (output-write_out d.0 d.1, drained.frame.capacity, drained.frame.output)
          (write_str-Represents (omega (arith, f.small)) f.represents d.1
            (omega (arith, length-text, drained.in_window, f.represents.within)))

    write_out-counted : (write_out d.0 d.1).unassembled ≡ marked d.0.bitmap
    unfolding write_out
    write_out-counted = ground (
      arith,
      length-text,
      drained.counter,
      drained.marks,
      f.counted,
      marked-le-length r.bitmap,
      f.window.marks,
      f.small,
    )

    pub write_out-Filled : Filled s (write_out d.0 d.1)
    write_out-Filled = rw (write_out-only d.0 d.1) (record {
      history = grown;
      represents = write_out-Represents;
      prefix = grown-prefix ∙ ap (λ (n : ℕ). take n s) (sym length-grown);
      inside = omega (arith, length-grown, drained.in_stream);
      small = omega (arith, f.small, drained.frame.capacity);
      window = Window-kept _ _ _ _ (
          Window-moved (sym length-grown)
            (ap (λ (c : ℕ). f.history.taken + c) (sym drained.frame.capacity)) drained.window);
      counted = write_out-counted;
      eof_right = λ e. drained.frame.eof_index ∙ f.eof_right (sym drained.frame.eof_flag ∙ e);
      ended_last = λ e.
          let (known, complete) = f.ended_last e in
          (
            drained.frame.eof_flag ∙ known,
            omega (arith, complete, length-grown, drained.grows, drained.in_stream),
          );
    })
