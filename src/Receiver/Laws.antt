-- ===== src/Receiver/Laws.antt =====
-- libsponge/tcp_receiver.cc against the stream that the peer sends.
use cs144_2021_sponge.Prelude.{
  ℕ, ◌+◌, ◌-◌, ◌^◌, ◌≤◌, ◌<◌, ◌≡◌, refl, sym, ap, ◌∙◌, Bool, true, false, ◌&&◌, ◌⊎◌, inl, inr, none,
  some, List, ◌==◌, length, distance, arith, add64, sub64,
}
use cs144_2021_sponge.ByteStream.{bytes_read, bytes_written, input_ended}
use cs144_2021_sponge.ByteStream.Refine.{room-exact}
use cs144_2021_sponge.Reassembler.Invariant.{Fragment, Inv, counters}
use cs144_2021_sponge.Reassembler.Deliver.{Learns, push-Learns}
use cs144_2021_sponge.Wrapping.{WrappingInt32, wrap, unwrap}
use cs144_2021_sponge.Wrapping.Laws.{unwrap-wrap}
use cs144_2021_sponge.Segment.{TcpSegment, flag_length}
use cs144_2021_sponge.Receiver.{
  TcpReceiver, stream_index, receive, segment_received, ackno, window_size, stream_out,
}

-- A segment of the stream `s` that starts at position `k`: the SYN has absolute sequence number 0, and
-- the byte at position `k` has `k + 1`. The end of the segment's distance to the bytes assembled so
-- far is below 2 ^ 31, which is what lets a 32-bit number tell positions apart.
pub record Sent (s : List ℕ) (isn : WrappingInt32) (r : TcpReceiver) (k : ℕ) (seg : TcpSegment)
    : Type 0 where
  pub piece : Fragment s seg.payload k seg.header.fin
  pub numbered : seg.header.seqno ≡ wrap (k + 1 - flag_length seg.header.syn) isn
  pub first : seg.header.syn ≡ true → k ≡ 0
  pub near :
      distance (k + 1 - flag_length seg.header.syn) (bytes_written r.reassembler.output) < 2 ^ 31

module _ {s : List ℕ} {isn : WrappingInt32} {r : TcpReceiver} {k : ℕ} {seg : TcpSegment}
    (isn_word : isn.raw_value < 2 ^ 32) (short : length s < 2 ^ 62)
    (sent : Sent s isn r k seg) where
  index_exact :
      add64 (sub64 (k + 1 - flag_length seg.header.syn) 1) (flag_length seg.header.syn) ≡ k
  index_exact = ground (arith, sent.first, sent.piece.inside)

  number_small : k + 1 - flag_length seg.header.syn < 2 ^ 63
  number_small = omega (arith, sent.piece.inside)

  -- The index that the code computes is the position of the segment's payload.
  stream_index_exact : stream_index r isn seg ≡ k
  unfolding stream_index
  stream_index_exact =
      rw (sent.numbered, unwrap-wrap _ isn _ isn_word sent.near number_small) index_exact

  isn_receive : (i : WrappingInt32) → (receive r i seg).isn ≡ some i
  unfolding receive
  isn_receive i = refl

  receive-Learns :
      Inv s r.reassembler
      → Learns s seg.payload k seg.header.fin r.reassembler (receive r isn seg).reassembler
  unfolding receive
  receive-Learns v = rw stream_index_exact (push-Learns r.reassembler v sent.piece)

  -- The number of a SYN is the initial sequence number.
  syn_number : seg.header.syn ≡ true → seg.header.seqno ≡ isn
  unfolding wrap
  syn_number syn = ground (arith, sent.numbered, sent.first syn)

  first_syn :
      r.isn ≡ none → seg.header.syn ≡ true → segment_received r seg ≡ receive r seg.header.seqno seg
  unfolding segment_received
  first_syn e syn = ground arith

  known_isn : r.isn ≡ some isn → segment_received r seg ≡ receive r isn seg
  unfolding segment_received
  known_isn e = ground arith

  knows_isn :
      (r.isn ≡ some isn) ⊎ ((r.isn ≡ none) × (seg.header.syn ≡ true))
      → segment_received r seg ≡ receive r isn seg
  unfolding segment_received
  knows_isn (inl e) = known_isn e
  knows_isn (inr (e, syn)) = first_syn e syn ∙ ap (λ i. receive r i seg) (syn_number syn)

  -- A segment of the peer's stream, on a receiver that knows the initial sequence number or learns it
  -- from this segment's SYN: the receiver knows it afterwards, and the payload and the FIN reach the
  -- reassembler at their own position, so that the invariant is kept and exactly the bytes of the
  -- payload below the end of the window become known. The stream is shorter than 2 ^ 62, and the
  -- segment's number lies less than 2 ^ 31 away from the number of bytes assembled.
  pub segment_received-Learns :
      (r.isn ≡ some isn) ⊎ ((r.isn ≡ none) × (seg.header.syn ≡ true))
      → Inv s r.reassembler
      → Learns s seg.payload k seg.header.fin r.reassembler (segment_received r seg).reassembler
        × ((segment_received r seg).isn ≡ some isn)
  segment_received-Learns knows v = rw (knows_isn knows) (receive-Learns v, isn_receive isn)

window_size-room :
    {s : List ℕ} (r : TcpReceiver)
    → Inv s r.reassembler
    → window_size r + bytes_written (stream_out r)
      ≡ bytes_read (stream_out r) + r.reassembler.capacity
unfolding window_size
window_size-room {s} r v =
    let f = v.filled in
    omega (
      arith,
      room-exact (omega (arith, f.small)) f.represents,
      counters s f,
      f.represents.within,
      f.represents.fits,
    )

-- The absolute sequence number of the first byte or flag that is missing.
abbrev pub acknowledged : List ℕ → TcpReceiver → ℕ
acknowledged s r =
    bytes_written (stream_out r)
    + 1
    + flag_length (r.reassembler.eof_flag && (length s == bytes_written (stream_out r)))

module _ {s : List ℕ} (r : TcpReceiver) (isn : WrappingInt32) (v : Inv s r.reassembler)
    (short : length s < 2 ^ 62) (word : isn.raw_value < 2 ^ 32) (known : r.isn ≡ some isn) where
  add_flag :
      (n : ℕ) (b : Bool) → n ≤ length s → add64 (add64 n 1) (flag_length b) ≡ n + 1 + flag_length b
  add_flag n true h = omega arith
  add_flag n false h = omega arith

  written_inside : bytes_written (stream_out r) ≤ length s
  written_inside = omega (arith, counters s v.filled, v.filled.inside)

  pub ackno-wrap : ackno r ≡ some (wrap (acknowledged s r) isn)
  unfolding ackno
  ackno-wrap =
      rw (known, ackno)
        (ap (λ (n : ℕ). some (wrap n isn))
          (ap (λ b. add64 (add64 (bytes_written (stream_out r)) 1) (flag_length b)) v.ended
            ∙ add_flag (bytes_written (stream_out r)) _ written_inside))

  acknowledged-small : acknowledged s r < 2 ^ 63
  acknowledged-small = ground (arith, written_inside)

  -- While pieces of the stream `s` arrive, shorter than 2 ^ 62, at a receiver that knows the initial
  -- sequence number: a peer that unwraps the acknowledgment number with a checkpoint less than 2 ^ 31
  -- from the true value reads the number of bytes assembled, plus one for the SYN, plus one for the
  -- FIN exactly when the FIN is known and all bytes are assembled.
  pub ackno-unwrap :
      (checkpoint : ℕ)
      → distance (acknowledged s r) checkpoint < 2 ^ 31
      → (a : WrappingInt32) × (ackno r ≡ some a) × (unwrap a isn checkpoint ≡ acknowledged s r)
  ackno-unwrap checkpoint near = (
    wrap (acknowledged s r) isn,
    ackno-wrap,
    unwrap-wrap (acknowledged s r) isn checkpoint word near acknowledged-small,
  )

  -- While pieces of the stream `s` arrive, shorter than 2 ^ 62, at a receiver that knows the initial sequence
  -- number: until the output has ended, the advertised window is the distance from the acknowledgment number
  -- to the number of the first byte that does not fit, which is the bytes read plus the capacity plus one for
  -- the SYN, as the header file puts it. Afterwards it is one more than that distance, since the
  -- acknowledgment number has moved past the FIN and the window has not.
  pub window_size_formal :
      (ackno r ≡ some (wrap (acknowledged s r) isn))
      × (input_ended (stream_out r) ≡ false
          → window_size r + acknowledged s r
            ≡ bytes_read (stream_out r) + r.reassembler.capacity + 1)
      × (input_ended (stream_out r) ≡ true
          → window_size r + acknowledged s r
            ≡ bytes_read (stream_out r) + r.reassembler.capacity + 1 + 1)
  window_size_formal = (
    ackno-wrap,
    λ open_. omega (arith, window_size-room r v, ap flag_length (sym v.ended ∙ open_)),
    λ over. omega (arith, window_size-room r v, ap flag_length (sym v.ended ∙ over)),
  )
