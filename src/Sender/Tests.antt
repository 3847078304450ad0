-- ===== src/Sender/Tests.antt =====
-- Runs of the sender on small inputs, and the instances of its theorems.
use cs144_2021_sponge.Prelude.{◌≤◌, ◌≡◌, refl, true, false, some, List, [], ◌∷◌, arith}
use cs144_2021_sponge.ByteStream as Stream
use cs144_2021_sponge.ByteStream.{ByteStream}
use cs144_2021_sponge.Wrapping.{WrappingInt32, wrapping, wrap, unwrap}
use cs144_2021_sponge.Segment.{TcpSegment, default_header, length_in_sequence_space}
use cs144_2021_sponge.Sender.{
  TcpSender, new, fill_window, fill_loop, fill_once, make_syn, make_payload, payload_size, add_fin,
  enqueue, ack_received, bytes_in_flight,
}
use cs144_2021_sponge.Sender.Timing.{
  TimerRuns, Call, acks, ticks, fills, ends, writes, run, always_defined,
}
use cs144_2021_sponge.Sender.Sending.{IsSound}
use cs144_2021_sponge.Sender.Fill.{Filled, fill_window-Filled}
use cs144_2021_sponge.Sender.Overrun.{fill_window_fits}
use cs144_2021_sponge.Sender.Acks.{Tracks}
use cs144_2021_sponge.Sender.Taken.{Takes, ack_received-Takes, fill_window-Tracks}

abbrev isn : WrappingInt32
isn = wrapping 100

-- Three bytes to send, of a stream that has ended.
abbrev text : ByteStream
text = record {
  buffer = 7 ∷ 8 ∷ 9 ∷ [];
  capacity = 64;
  end_write = true;
  end_read = false;
  written_bytes = 3;
  read_bytes = 0;
  error_flag = false;
}

abbrev syn_segment : TcpSegment
syn_segment = record { header = record default_header { syn = true; seqno = isn }; payload = [] }

abbrev byte_segment : TcpSegment
byte_segment = record { header = record default_header { seqno = wrapping 101 }; payload = 6 ∷ [] }

-- The SYN and one byte are sent, and neither is acknowledged.
abbrev started : TcpSender
started = record {
  isn = isn;
  segments_out = [];
  initial_retransmission_timeout = 1000;
  stream = text;
  next_seqno = 2;
  retransmission_timer = record {
    is_running = true;
    accumulate_time = 300;
    rto = 2000;
    init_rto = 1000;
  };
  receiver_ack = 0;
  receiver_window_size = 10;
  outstanding_segments = syn_segment ∷ byte_segment ∷ [];
  consecutive_retransmissions = 1;
  set_syn_flag = true;
  set_fin_flag = false;
}

-- The receiver has shrunk its window to 1.
abbrev shrunk : TcpSender
shrunk = record started { receiver_window_size = 1 }

abbrev script : List Call
script =
    writes (1 ∷ 2 ∷ []) ∷ fills ∷ ticks 5000 ∷ acks (wrapping 101) 4 ∷ fills ∷ ends ∷ ticks 9 ∷ []

fill_runs : (fill_window started).next_seqno ≡ 6
unfolding fill_window fill_loop fill_once make_syn make_payload payload_size add_fin enqueue
    Stream.read Stream.read_loop
fill_runs = refl

started-IsSound : IsSound started
started-IsSound = omega arith

started-Tracks : Tracks started
unfolding wrap length_in_sequence_space
started-Tracks = record {
  chain = (refl, omega arith, (refl, omega arith, refl));
  flight = omega arith;
  numbers = omega arith;
  word = omega arith;
}

always_defined_example :
    (s' : TcpSender) × (run (new 64 1000 (some isn) (wrapping 0)) script ≡ some s') × TimerRuns s'
always_defined_example = always_defined 64 1000 (some isn) (wrapping 0) script

fill_window-Filled_example : Filled started (fill_window started)
fill_window-Filled_example = fill_window-Filled started started-IsSound

fill_window_fits_example : bytes_in_flight (fill_window started) ≤ 10
fill_window_fits_example = fill_window_fits started started-IsSound (omega arith)

fill_window-Tracks_example : Tracks (fill_window started)
fill_window-Tracks_example =
    fill_window-Tracks started started-Tracks started-IsSound (omega arith) (omega arith)

ack_received-Takes_example :
    Takes started (unwrap (wrapping 101) isn 2) 4 (ack_received started (wrapping 101) 4)
unfolding unwrap
ack_received-Takes_example =
    ack_received-Takes started started-Tracks (wrapping 101) 4 (omega arith) (omega arith)
