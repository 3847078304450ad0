-- ===== src/Sender/Made.antt =====
-- The segment that the payload branch of `fill_window` in libsponge/tcp_sender.cc makes.
use cs144_2021_sponge.Prelude.{
  ℕ, ◌+◌, ◌≤◌, ◌≡◌, ap, ◌∙◌, false, ◌&&◌, ltb, length, take, drop, if◌then◌else◌, arith, add64,
  sub64, length-take,
}
use cs144_2021_sponge.ByteStream.{buffer_size, read, eof, input_ended}
use cs144_2021_sponge.Wrapping.{wrap}
use cs144_2021_sponge.Segment.{length_in_sequence_space, flag_length}
use cs144_2021_sponge.Config.{max_payload_size}
use cs144_2021_sponge.Sender.{
  TcpSender, make_payload, payload_size, add_fin, usable_window, bytes_in_flight,
}
use cs144_2021_sponge.Sender.Cases.{made}
use cs144_2021_sponge.Sender.Sending.{IsSound, read_exact}

module _ (s : TcpSender) where
  abbrev pub size : ℕ
  size = payload_size s (usable_window s)

  pub size-le : (size ≤ buffer_size s.stream) × (size ≤ max_payload_size)
  unfolding payload_size
  size-le = omega arith

  pub size-le-room : size ≤ sub64 (usable_window s) (bytes_in_flight s)
  unfolding payload_size
  size-le-room = omega arith

  -- What `made` leaves alone.
  pub made-same :
      ((made s).0.segments_out ≡ s.segments_out)
      × ((made s).0.outstanding_segments ≡ s.outstanding_segments)
      × ((made s).0.isn ≡ s.isn)
      × ((made s).0.receiver_ack ≡ s.receiver_ack)
      × ((made s).0.receiver_window_size ≡ s.receiver_window_size)
  unfolding make_payload add_fin
  made-same = ground arith

  pub made-stream : (made s).0.stream ≡ (read s.stream size).0
  unfolding make_payload add_fin
  made-stream = ground arith

  made-text : (made s).1.payload ≡ (read s.stream size).1
  unfolding make_payload add_fin
  made-text = ground arith

  pub made-seqno : (made s).1.header.seqno ≡ wrap s.next_seqno s.isn
  unfolding make_payload add_fin
  made-seqno = ground arith

  pub made-buffer : (made s).0.stream.buffer ≡ drop size s.stream.buffer
  made-buffer =
      ap (λ b. b.buffer) made-stream ∙ ap (λ b. b.buffer) (read_exact s.stream size size-le.0).0

  pub made-payload : (made s).1.payload ≡ take size s.stream.buffer
  made-payload = made-text ∙ (read_exact s.stream size size-le.0).1

  pub made-ended : input_ended (made s).0.stream ≡ input_ended s.stream
  made-ended =
      ap (λ b. b.end_write) made-stream
      ∙ ap (λ b. b.end_write) (read_exact s.stream size size-le.0).0

  pub made-flags :
      s.set_fin_flag ≡ false
      → ((made s).1.header.syn ≡ false)
        × ((made s).1.header.fin ≡ (made s).0.set_fin_flag)
        × ((made s).0.next_seqno ≡ (
            if (made s).0.set_fin_flag
            then add64 (add64 s.next_seqno size) 1
            else add64 s.next_seqno size))
  unfolding make_payload add_fin
  made-flags e = ground arith

  pub length-payload : length (made s).1.payload ≡ size
  length-payload = omega (arith, ap length made-payload, length-take size s.stream.buffer, size-le)

  module _ (e : s.set_fin_flag ≡ false) (v : IsSound s) where
    pub length-made :
        length_in_sequence_space (made s).1 ≡ size + flag_length (made s).0.set_fin_flag
    unfolding length_in_sequence_space
    length-made = ground (arith, length-payload, made-flags e, size-le)

    pub made-next : (made s).0.next_seqno ≡ s.next_seqno + length_in_sequence_space (made s).1
    made-next = ground (arith, length-made, made-flags e, size-le, v.numbers)

    -- A FIN is taken when the stream is used up and ended, and one more number fits the window.
    pub made-fin : (made s).0.set_fin_flag ≡ (
        eof (read s.stream size).0
        && ltb (sub64 (add64 s.next_seqno size) s.receiver_ack) (usable_window s))
    unfolding make_payload add_fin
    made-fin = ground arith
