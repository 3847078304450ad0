-- ===== src/Receiver.antt =====
-- libsponge/tcp_receiver.hh and tcp_receiver.cc: segments in, acknowledgment number and window out.
pub mod Laws
pub mod Stray
mod Tests
use cs144_2021_sponge.Prelude.{
  ℕ, ◌+◌, Bool, true, false, Option, none, some, if◌then◌else◌, add64, sub64,
}
use cs144_2021_sponge.ByteStream.{ByteStream, bytes_written, input_ended, remaining_capacity}
use cs144_2021_sponge.Reassembler.{StreamReassembler, push_substring}
use cs144_2021_sponge.Reassembler as Reassembler
use cs144_2021_sponge.Wrapping.{WrappingInt32, wrap, unwrap}
use cs144_2021_sponge.Segment.{TcpSegment, flag_length}

-- The members of `TCPReceiver`.
pub record TcpReceiver : Type 0 where
  pub reassembler : StreamReassembler
  pub capacity : ℕ
  pub isn : Option WrappingInt32

unfoldable pub new : ℕ → TcpReceiver
new capacity = record { reassembler = Reassembler.new capacity; capacity = capacity; isn = none }

-- The stream index of a segment's first payload byte, as the code computes it.
unfoldable pub stream_index : TcpReceiver → WrappingInt32 → TcpSegment → ℕ
stream_index r isn seg =
    let checkpoint = bytes_written r.reassembler.output in
    let abs_seq = unwrap seg.header.seqno isn checkpoint in
    add64 (sub64 abs_seq 1) (flag_length seg.header.syn)

-- The rest of `segment_received`, once the initial sequence number is known.
unfoldable pub receive : TcpReceiver → WrappingInt32 → TcpSegment → TcpReceiver
receive r isn seg = record r {
  reassembler = push_substring r.reassembler seg.payload (stream_index r isn seg) seg.header.fin;
  isn = some isn;
}

-- `segment_received`. What comes before a SYN is dropped.
unfoldable pub segment_received : TcpReceiver → TcpSegment → TcpReceiver
segment_received r seg = elim r.isn [
  | none ↦ if seg.header.syn then receive r seg.header.seqno seg else r
  | some isn ↦ receive r isn seg
]

unfoldable pub ackno : TcpReceiver → Option WrappingInt32
ackno r = elim r.isn [
  | none ↦ none
  | some isn ↦ some (
      wrap
        (add64 (add64 (bytes_written r.reassembler.output) 1)
          (flag_length (input_ended r.reassembler.output)))
        isn)
]

unfoldable pub window_size : TcpReceiver → ℕ
window_size r = remaining_capacity r.reassembler.output

abbrev pub unassembled_bytes : TcpReceiver → ℕ
unassembled_bytes r = Reassembler.unassembled_bytes r.reassembler

abbrev pub stream_out : TcpReceiver → ByteStream
stream_out r = r.reassembler.output
