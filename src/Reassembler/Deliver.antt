-- ===== src/Reassembler/Deliver.antt =====
-- The contract of `push_substring` in libsponge/stream_reassembler.cc, on every branch.
use cs144_2021_sponge.Prelude.{
  ℕ, ◌+◌, ◌-◌, ◌<◌, ◌≡◌, sym, ap, ap₂, ◌∙◌, Bool, true, false, ◌&&◌, ◌||◌, List, ltb, leb, length,
  get_or, min, add64, arith, Bool-cases, inl, inr,
}
use cs144_2021_sponge.ByteStream.{bytes_read, bytes_written}
use cs144_2021_sponge.Reassembler.{
  StreamReassembler, front, record_eof, check_eof, assemble, store, push_substring,
}
use cs144_2021_sponge.Reassembler.Invariant.{Fragment, Filled, Inv, counters}
use cs144_2021_sponge.Reassembler.Store.{Stored, store-Stored}
use cs144_2021_sponge.Reassembler.Push.{record_eof-Filled}
use cs144_2021_sponge.Reassembler.Known.{
  known, checked-Kept, check_eof-Inv, Stored-Filled, assemble-Inv,
}

-- What a push of the bytes from `index` up to `index + length text` must do to the state.
pub record Learns (s text : List ℕ) (index : ℕ) (eof : Bool) (r r' : StreamReassembler)
    : Type 0 where
  pub inv : Inv s r'
  pub learned :
      (j : ℕ)
      → known r' j ≡ (
          known r j
          || (leb index j && ltb j (min (index + length text) (bytes_read r.output + r.capacity))))
  pub unread : bytes_read r'.output ≡ bytes_read r.output
  pub flagged : r'.eof_flag ≡ (r.eof_flag || eof)
  pub room : r'.capacity ≡ r.capacity

module _ {s text : List ℕ} {index : ℕ} {eof : Bool} (r : StreamReassembler) (v : Inv s r)
    (piece : Fragment s text index eof) where
  end_exact : add64 index (length text) ≡ index + length text
  end_exact = omega (arith, piece.inside, v.filled.small)

  marked_eof : StreamReassembler
  marked_eof = record_eof r (add64 index (length text)) eof

  marked_eof-Filled : Filled s marked_eof
  unfolding marked_eof
  marked_eof-Filled = record_eof-Filled s r _ eof (λ e. end_exact ∙ piece.last e) v.filled

  marked_eof-bitmap : marked_eof.bitmap ≡ r.bitmap
  unfolding marked_eof record_eof
  marked_eof-bitmap = ground arith

  checked : StreamReassembler
  checked = check_eof marked_eof

  checked-Inv : Inv s checked
  unfolding checked
  checked-Inv =
      check_eof-Inv s marked_eof marked_eof-Filled
        (ap (λ b. front b false) marked_eof-bitmap ∙ v.settled)

  checked-same :
      (checked.bitmap ≡ r.bitmap)
      × (checked.capacity ≡ r.capacity)
      × (bytes_written checked.output ≡ bytes_written r.output)
      × (bytes_read checked.output ≡ bytes_read r.output)
      × (checked.eof_flag ≡ (r.eof_flag || eof))
  unfolding checked marked_eof
  checked-same = checked-Kept r (add64 index (length text)) eof

  limit_exact : add64 (bytes_read r.output) r.capacity ≡ bytes_read r.output + r.capacity
  limit_exact =
      omega
        (arith, counters s v.filled, v.filled.represents.within, v.filled.inside, v.filled.small)

  same-known : (j : ℕ) → known checked j ≡ known r j
  same-known j = ap₂ (λ b n. ltb j n || get_or b (j - n) false) checked-same.0 checked-same.2

  nothing :
      (j : ℕ)
      → (leb (add64 index (length text)) (bytes_written r.output)
          || leb (add64 (bytes_read r.output) r.capacity) index)
        ≡ true
      → known r j ≡ (
          known r j
          || (leb index j && ltb j (min (index + length text) (bytes_read r.output + r.capacity))))
  nothing j out = ground (arith, end_exact, limit_exact)

  -- Case 1: the substring lies outside the window.
  outside :
      (leb (add64 index (length text)) (bytes_written r.output)
          || leb (add64 (bytes_read r.output) r.capacity) index)
        ≡ true
      → Learns s text index eof r checked
  outside out = record {
    inv = checked-Inv;
    learned = λ j. same-known j ∙ nothing j out;
    unread = checked-same.3;
    flagged = checked-same.4;
    room = checked-same.1;
  }

  module _
      (in_ : (leb (add64 index (length text)) (bytes_written r.output)
          || leb (add64 (bytes_read r.output) r.capacity) index)
        ≡ false) where
    f : Filled s checked
    f = checked-Inv.filled

    base_exact : bytes_written r.output ≡ length f.history.accepted
    base_exact = sym checked-same.2 ∙ (counters s f).0

    window_exact : bytes_read r.output + r.capacity ≡ f.history.taken + checked.capacity
    window_exact = ap₂ ◌+◌ (sym checked-same.3 ∙ (counters s f).1) (sym checked-same.1)

    stored_state : StreamReassembler
    stored_state =
        store checked text index index (add64 index (length text)) (bytes_written r.output)
          (add64 (bytes_read r.output) r.capacity)

    overlaps :
        (length f.history.accepted < index + length text)
        × (index < f.history.taken + checked.capacity)
    overlaps = ground (arith, base_exact, end_exact, limit_exact, window_exact)

    stored : Stored s text index checked f stored_state
    unfolding stored_state
    stored =
        rw (end_exact, base_exact, limit_exact ∙ window_exact)
          (store-Stored f piece overlaps.0 overlaps.1)

    stored-known :
        (j : ℕ)
        → known stored_state j ≡ (
            known r j
            || (leb index j
                && ltb j (min (index + length text) (bytes_read r.output + r.capacity))))
    stored-known j = ground (
      arith,
      stored.bitmap (j - bytes_written r.output),
      base_exact,
      window_exact,
      checked-same,
      ap (λ o. bytes_written o) stored.frame.output,
    )

    -- Cases 2 and 3.
    inside : Learns s text index eof r (assemble stored_state)
    inside =
        let (inv, same, unread, flag, room) =
          assemble-Inv s stored_state (Stored-Filled s f stored) in
        record {
          inv = inv;
          learned = λ j. same j ∙ stored-known j;
          unread = unread ∙ ap (λ o. bytes_read o) stored.frame.output ∙ checked-same.3;
          flagged = flag ∙ stored.frame.eof_flag ∙ checked-same.4;
          room = room ∙ stored.frame.capacity ∙ checked-same.1;
        }

  -- A reassembler that holds bytes of the stream `s` only, each in its place, gets a piece of `s`,
  -- marked as the last one only if it ends where `s` ends: it holds bytes of `s` only as before, the
  -- bytes that it knows are those it knew and those of the piece below the end of its window, the end
  -- is flagged if it was or if the piece is the last, and bytes read and capacity are as before.
  pub push-Learns : Learns s text index eof r (push_substring r text index eof)
  unfolding push_substring checked marked_eof stored_state
  push-Learns =
      elim (Bool-cases (
        leb (add64 index (length text)) (bytes_written r.output)
        || leb (add64 (bytes_read r.output) r.capacity) index)) [
          | inl out ↦ rw out (outside out)
          | inr in_ ↦ rw in_ (inside in_)
        ]
