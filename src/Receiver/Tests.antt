-- ===== src/Receiver/Tests.antt =====
-- Runs of the receiver on small inputs, and the instances of its theorems.
use cs144_2021_sponge.Prelude.{ℕ, ◌+◌, ◌≡◌, refl, true, false, some, inr, List, [], ◌∷◌, arith}
use cs144_2021_sponge.ByteStream as Stream
use cs144_2021_sponge.ByteStream.{bytes_read, bytes_written, input_ended}
use cs144_2021_sponge.Reassembler as Reassembler
use cs144_2021_sponge.Reassembler.Invariant.{Inv, new-Inv}
use cs144_2021_sponge.Reassembler.Contract.{slice-Fragment}
use cs144_2021_sponge.Reassembler.Deliver.{Learns}
use cs144_2021_sponge.Wrapping.{WrappingInt32, wrapping, wrap, unwrap}
use cs144_2021_sponge.Segment.{TcpSegment, default_header}
use cs144_2021_sponge.Receiver.{TcpReceiver, new, segment_received, ackno, window_size, stream_out}
use cs144_2021_sponge.Receiver.Laws.{
  Sent, acknowledged, segment_received-Learns, window_size_formal, ackno-unwrap,
}
use cs144_2021_sponge.Receiver.Stray.{stray_fin_ends_input}

abbrev isn : WrappingInt32
isn = wrapping 0xffff_ffff

abbrev stream : List ℕ
stream = 65 ∷ 66 ∷ []

abbrev listening : TcpReceiver
listening = new 8

-- Connected, and no byte received.
abbrev connected : TcpReceiver
connected = record { reassembler = Reassembler.new 8; capacity = 8; isn = some isn }

abbrev syn_segment : TcpSegment
syn_segment = record {
  header = record default_header { seqno = isn; syn = true };
  payload = 65 ∷ [];
}

abbrev stray_segment : TcpSegment
stray_segment = record {
  header = record default_header { seqno = isn; fin = true };
  payload = 99 ∷ [];
}

listening-Inv : Inv stream listening.reassembler
unfolding new
listening-Inv = new-Inv stream 8 (omega arith)

nothing_written : bytes_written (Reassembler.new 8).output ≡ 0
unfolding Reassembler.new Stream.new
nothing_written = refl

syn-Sent : Sent stream isn listening 0 syn_segment
unfolding new wrap
syn-Sent = record {
  piece = slice-Fragment stream (65 ∷ []) 0 false (omega arith) refl (λ e. cc);
  numbered = refl;
  first = λ e. refl;
  near = omega (arith, nothing_written);
}

segment_received-Learns_example :
    Learns stream
      (65 ∷ [])
      0
      false
      listening.reassembler
      (segment_received listening syn_segment).reassembler
    × ((segment_received listening syn_segment).isn ≡ some isn)
unfolding new
segment_received-Learns_example =
    segment_received-Learns (omega arith) (omega arith) syn-Sent (inr (refl, refl)) listening-Inv

window_size_formal_example :
    (ackno connected ≡ some (wrap (acknowledged stream connected) isn))
    × (input_ended (stream_out connected) ≡ false
        → window_size connected + acknowledged stream connected
          ≡ bytes_read (stream_out connected) + connected.reassembler.capacity + 1)
    × (input_ended (stream_out connected) ≡ true
        → window_size connected + acknowledged stream connected
          ≡ bytes_read (stream_out connected) + connected.reassembler.capacity + 1 + 1)
window_size_formal_example =
    window_size_formal connected isn (new-Inv stream 8 (omega arith)) (omega arith) (omega arith)
      refl

ackno-unwrap_example :
    (a : WrappingInt32) × (ackno connected ≡ some a)
    × (unwrap a isn 0 ≡ acknowledged stream connected)
unfolding Reassembler.new Stream.new
ackno-unwrap_example =
    ackno-unwrap connected isn (new-Inv stream 8 (omega arith)) (omega arith) (omega arith) refl 0
      (omega arith)

stray_fin_ends_input_example :
    input_ended (stream_out (segment_received connected stray_segment)) ≡ true
stray_fin_ends_input_example =
    stray_fin_ends_input connected isn stray_segment (omega arith) refl
      (omega (arith, nothing_written)) refl refl refl (omega (arith, nothing_written))
