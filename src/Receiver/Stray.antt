-- ===== src/Receiver/Stray.antt =====
-- A flaw of `segment_received` in libsponge/tcp_receiver.cc: the byte before the stream.
use cs144_2021_sponge.Prelude.{ℕ, ◌+◌, ◌-◌, ◌^◌, ◌<◌, ◌≡◌, true, false, some, List, length, arith}
use cs144_2021_sponge.ByteStream.{bytes_written, input_ended, end_input}
use cs144_2021_sponge.Reassembler.{StreamReassembler, push_substring, record_eof, check_eof}
use cs144_2021_sponge.Wrapping.{WrappingInt32, unwrap}
use cs144_2021_sponge.Segment.{TcpSegment}
use cs144_2021_sponge.Receiver.{TcpReceiver, stream_index, receive, segment_received, stream_out}

-- A segment numbered with the initial sequence number itself but without SYN has its payload placed
-- one position before the stream, which is the largest 64-bit index.
stray_index :
    (r : TcpReceiver) (isn : WrappingInt32) (seg : TcpSegment)
    → isn.raw_value < 2 ^ 32
    → bytes_written r.reassembler.output < 2 ^ 31
    → seg.header.seqno ≡ isn
    → seg.header.syn ≡ false
    → stream_index r isn seg ≡ 2 ^ 64 - 1
unfolding stream_index unwrap
stray_index r isn seg word low numbered syn = rw (numbered, syn) (ground arith)

stray_push :
    (q : StreamReassembler) (text : List ℕ)
    → bytes_written q.output < 2 ^ 31
    → length text ≡ bytes_written q.output + 1
    → input_ended (push_substring q text (2 ^ 64 - 1) true).output ≡ true
unfolding push_substring check_eof record_eof end_input
stray_push q text low size = ground arith

-- A receiver that has assembled fewer than 2 ^ 31 bytes ends its output on a segment without SYN that
-- carries the initial sequence number, FIN and one byte more of payload than were assembled, although
-- not one byte of that payload lies in the window: the end of the segment wraps round to the number of
-- bytes written.
pub stray_fin_ends_input :
    (r : TcpReceiver) (isn : WrappingInt32) (seg : TcpSegment)
    → isn.raw_value < 2 ^ 32
    → r.isn ≡ some isn
    → bytes_written (stream_out r) < 2 ^ 31
    → seg.header.seqno ≡ isn
    → seg.header.syn ≡ false
    → seg.header.fin ≡ true
    → length seg.payload ≡ bytes_written (stream_out r) + 1
    → input_ended (stream_out (segment_received r seg)) ≡ true
unfolding segment_received receive
stray_fin_ends_input r isn seg word known low numbered syn fin size = ground (
  arith,
  stray_index r isn seg word low numbered syn,
  stray_push r.reassembler seg.payload low size,
)
