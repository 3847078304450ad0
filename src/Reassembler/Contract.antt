-- ===== src/Reassembler/Contract.antt =====
-- What a user of libsponge/stream_reassembler.hh can rely on, whatever pieces of the stream arrive
-- and in whatever order, and however the reader takes the output.
use cs144_2021_sponge.Prelude.{
  ℕ, ◌+◌, ◌-◌, ◌≤◌, ◌<◌, ◌≡◌, ap, ◌∙◌, Bool, true, false, List, length, get_or, take, drop, arith,
  get_or-take, get_or-drop,
}
use cs144_2021_sponge.ByteStream.{bytes_written, buffer_size, input_ended}
use cs144_2021_sponge.ByteStream.Refine.{length-buffer}
use cs144_2021_sponge.Reassembler.{StreamReassembler, unassembled_bytes}
use cs144_2021_sponge.Reassembler.Bitmap.{marked-le}
use cs144_2021_sponge.Reassembler.Invariant.{Fragment, Inv, counters}
use cs144_2021_sponge.Reassembler.Known.{known}

-- A text that is cut out of the stream is a piece of it.
pub slice-Fragment :
    (s text : List ℕ) (index : ℕ) (eof : Bool)
    → index + length text ≤ length s
    → text ≡ take (length text) (drop index s)
    → (eof ≡ true → index + length text ≡ length s)
    → Fragment s text index eof
slice-Fragment s text index eof inside cut last = record {
  inside = inside;
  right = λ i h.
      ap (λ t. get_or t i 0) cut
      ∙ get_or-take (length text) i (drop index s) 0 h
      ∙ get_or-drop index i s 0;
  last = last;
}

module _ {s : List ℕ} (r : StreamReassembler) (v : Inv s r) where
  -- `bytes_written` is the first position whose byte is not known.
  pub first_missing : known r (bytes_written r.output) ≡ false
  first_missing =
      let w = bytes_written r.output in
      let e : w - w ≡ 0 = omega arith in
      ground (arith, ap (λ (k : ℕ). get_or r.bitmap k false) e, v.settled)

  -- While pieces of one stream arrive: once the end is known and no byte of the stream is missing, the
  -- whole stream has been written and the output has ended.
  pub complete :
      r.eof_flag ≡ true
      → ((j : ℕ) → j < length s → known r j ≡ true)
      → (bytes_written r.output ≡ length s) × (input_ended r.output ≡ true)
  complete flag all = ground (
    arith,
    all (bytes_written r.output),
    first_missing,
    counters s v.filled,
    v.filled.inside,
    v.ended,
  )

  -- While pieces of one stream arrive: the bytes assembled but not read and the bytes that wait never
  -- exceed the capacity together.
  pub within_capacity : unassembled_bytes r + buffer_size r.output ≤ r.capacity
  within_capacity =
      let f = v.filled in
      omega (
        arith,
        f.counted,
        length-buffer (omega (arith, f.small)) f.represents,
        f.represents.within,
        f.represents.fits,
        marked-le r.bitmap (f.history.taken + r.capacity - length f.history.accepted)
            (λ i h. omega (arith, f.window.holds i h)),
      )
