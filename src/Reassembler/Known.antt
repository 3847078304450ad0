-- ===== src/Reassembler/Known.antt =====
-- `push_substring` of libsponge/stream_reassembler.cc as a whole: it keeps the invariant, and makes
-- known exactly the bytes of the substring that lie below the end of the window.
use cs144_2021_sponge.Prelude.{
  ℕ, ◌+◌, ◌≡◌, refl, sym, ap, ap₂, ◌∙◌, Bool, false, ◌&&◌, ◌||◌, List, [], ◌==◌, length, arith,
}
use cs144_2021_sponge.ByteStream.{bytes_read, bytes_written, end_input}
use cs144_2021_sponge.Reassembler.{
  StreamReassembler, front, record_eof, check_eof, drain_loop, write_out, assemble,
}
use cs144_2021_sponge.Reassembler.Bitmap.{marked-le-length}
use cs144_2021_sponge.Reassembler.Window.{Window-moved}
use cs144_2021_sponge.Reassembler.Drain.{Drained, drain_loop-Drained, known_at}
use cs144_2021_sponge.Reassembler.Invariant.{Filled, Inv, counters}
use cs144_2021_sponge.Reassembler.Store.{Stored}
use cs144_2021_sponge.Reassembler.Push.{
  check_eof-Filled, ended_exactly, write_out-Filled, write_out-Represents, length-grown,
}

-- Byte `j` of the stream has been written to the output or waits in the window.
abbrev pub known : StreamReassembler → ℕ → Bool
known r j = known_at (bytes_written r.output) r.bitmap j

-- What the end-of-stream steps leave alone.
pub record Kept (r r' : StreamReassembler) : Type 0 where
  pub bitmap : r'.bitmap ≡ r.bitmap
  pub capacity : r'.capacity ≡ r.capacity
  pub written : bytes_written r'.output ≡ bytes_written r.output
  pub unread : bytes_read r'.output ≡ bytes_read r.output
  pub flag : r'.eof_flag ≡ r.eof_flag

pub check_eof-Kept : (r : StreamReassembler) → Kept r (check_eof r)
unfolding check_eof end_input
check_eof-Kept r = ground arith

pub checked-Kept :
    (r : StreamReassembler) (end : ℕ) (eof : Bool)
    → ((check_eof (record_eof r end eof)).bitmap ≡ r.bitmap)
      × ((check_eof (record_eof r end eof)).capacity ≡ r.capacity)
      × (bytes_written (check_eof (record_eof r end eof)).output ≡ bytes_written r.output)
      × (bytes_read (check_eof (record_eof r end eof)).output ≡ bytes_read r.output)
      × ((check_eof (record_eof r end eof)).eof_flag ≡ (r.eof_flag || eof))
unfolding record_eof check_eof end_input
checked-Kept r end eof = ground arith

module _ (s : List ℕ) where
  -- After the last look for the end the invariant is complete.
  pub check_eof-Inv :
      (r : StreamReassembler) → Filled s r → front r.bitmap false ≡ false → Inv s (check_eof r)
  check_eof-Inv r f clear =
      let kept = check_eof-Kept r in
      record {
        filled = check_eof-Filled s r f;
        settled = ap (λ b. front b false) kept.bitmap ∙ clear;
        ended =
            ended_exactly s r f
            ∙ ap₂ (λ b n. b && (length s == n)) (sym kept.flag) (sym kept.written);
      }

  pub Stored-Filled :
      {text : List ℕ} {index : ℕ} {r r' : StreamReassembler} (f : Filled s r)
      → Stored s text index r f r'
      → Filled s r'
  Stored-Filled f d = record {
    history = f.history;
    represents = rw (d.frame.output, d.frame.capacity) f.represents;
    prefix = f.prefix;
    inside = f.inside;
    small = omega (arith, f.small, d.frame.capacity);
    window =
        Window-moved refl (ap (λ (c : ℕ). f.history.taken + c) (sym d.frame.capacity)) d.window;
    counted = d.counted;
    eof_right = λ e. d.frame.eof_index ∙ f.eof_right (sym d.frame.eof_flag ∙ e);
    ended_last = λ e. (d.frame.eof_flag ∙ (f.ended_last e).0, (f.ended_last e).1);
  }

  module _ (r : StreamReassembler) (f : Filled s r) where
    drained :
        Drained s
          (f.history.taken + r.capacity)
          (length f.history.accepted)
          r
          []
          (drain_loop (length r.bitmap + 1) r [])
    drained =
        drain_loop-Drained s (f.history.taken + r.capacity) (length r.bitmap + 1)
          (length f.history.accepted) r [] (omega (arith, marked-le-length r.bitmap))
          (omega (arith, f.represents.within, f.represents.fits)) f.inside f.window

    out : StreamReassembler × List ℕ
    out = drain_loop (length r.bitmap + 1) r []

    written : StreamReassembler
    unfolding out
    written = write_out out.0 out.1

    written-bitmap : written.bitmap ≡ out.0.bitmap
    unfolding written write_out
    written-bitmap = ground arith

    written-flag : (written.eof_flag ≡ r.eof_flag) × (written.capacity ≡ r.capacity)
    unfolding written write_out out
    written-flag = ground (arith, drained.frame.eof_flag, drained.frame.capacity)

    written-counters :
        (bytes_written written.output ≡ drained.reached)
        × (bytes_read written.output ≡ bytes_read r.output)
    unfolding written out
    written-counters =
        let rep = write_out-Represents s f drained in
        (
          omega (arith, rep.written, length-grown s f drained, drained.in_stream, f.small),
          rep.given ∙ sym f.represents.given,
        )

    written-known : (j : ℕ) → known written j ≡ known r j
    unfolding out
    written-known j =
        ap₂ (λ b n. known_at n b j) written-bitmap written-counters.0
        ∙ drained.known j
        ∙ ap (λ (n : ℕ). known_at n r.bitmap j) (sym (counters s f).0)

    -- Draining the window keeps the invariant and makes no byte known or unknown.
    pub assemble-Inv :
        Inv s (assemble r)
        × ((j : ℕ) → known (assemble r) j ≡ known r j)
        × (bytes_read (assemble r).output ≡ bytes_read r.output)
        × ((assemble r).eof_flag ≡ r.eof_flag)
        × ((assemble r).capacity ≡ r.capacity)
    unfolding assemble written out
    assemble-Inv =
        let kept = check_eof-Kept written in
        (
          check_eof-Inv written (write_out-Filled s f drained)
              (ap (λ b. front b false) written-bitmap ∙ drained.settled),
          λ j. ap₂ (λ b n. known_at n b j) kept.bitmap kept.written ∙ written-known j,
          kept.unread ∙ written-counters.1,
          kept.flag ∙ written-flag.0,
          kept.capacity ∙ written-flag.1,
        )
