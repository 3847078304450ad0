-- ===== src/Connection.antt =====
-- A sender (libsponge/tcp_sender.cc) and a receiver (libsponge/tcp_receiver.cc) at the two ends of a
-- network that may lose, repeat, delay and reorder what it carries. Their owner, which is not in this
-- repository, calls their methods in any order; one application writes the text `s` into the sender's
-- stream, and another reads the receiver's.
pub mod Drawn
pub mod Filling
pub mod Kept
pub mod Sending
pub mod Queues
pub mod Receiving
pub mod Invariant
pub mod Steps
pub mod Safety
pub mod Front
pub mod Progress
pub mod Refill
pub mod Completion
mod Tests
use cs144_2021_sponge.Prelude.{
  ℕ, ◌+◌, ◌^◌, ◌<◌, ◌≤◌, ◌≡◌, Option, false, some, List, [], ◌∷◌, ◌++◌, get_elem?, take, drop,
  length,
}
use cs144_2021_sponge.ByteStream.{write, end_input, bytes_written}
use cs144_2021_sponge.Wrapping.{WrappingInt32}
use cs144_2021_sponge.Segment.{TcpSegment}
use cs144_2021_sponge.Reassembler.{read_output}
use cs144_2021_sponge.Sender.{TcpSender, fill_window, tick, ack_received, send_empty_segment}
use cs144_2021_sponge.Sender as Sender
use cs144_2021_sponge.Receiver.{TcpReceiver, segment_received, ackno}
use cs144_2021_sponge.Receiver as Receiver

-- The two objects, the segments and the acknowledgments that the network has been given, and the bytes
-- that the reader has got.
pub record Net : Type 0 where
  pub sender : TcpSender
  pub receiver : TcpReceiver
  pub wire : List TcpSegment
  pub acks : List (WrappingInt32 × ℕ)
  pub got : List ℕ

abbrev pub start : (send_capacity receive_capacity retx_timeout : ℕ) → WrappingInt32 → Net
start send_capacity receive_capacity retx_timeout isn = record {
  sender = Sender.new send_capacity retx_timeout (some isn) isn;
  receiver = Receiver.new receive_capacity;
  wire = [];
  acks = [];
  got = [];
}

abbrev pub write_next : List ℕ → TcpSender → ℕ → TcpSender
write_next s x n = record x {
  stream = (write x.stream (take n (drop (bytes_written x.stream) s))).0;
}

abbrev pub transmit : Net → Net
transmit n = record n {
  sender = record n.sender { segments_out = [] };
  wire = n.wire ++ n.sender.segments_out;
}

abbrev pub read_some : Net → ℕ → Net
read_some n k =
    let (rest, bytes) = read_output n.receiver.reassembler k in
    record n { receiver = record n.receiver { reassembler = rest }; got = n.got ++ bytes }

-- One step. What was given to the network once may arrive any number of times, at any time, or never.
-- The window in an acknowledgment is the owner's; it has 16 bits. An empty
-- segment is sent between the SYN and the FIN.
pub data Step (s : List ℕ) (n : Net) : Net → Type 0 where
  writes : (k : ℕ) → Step s n (record n { sender = write_next s n.sender k })
  ends :
      bytes_written n.sender.stream ≡ length s
      → Step s n (record n { sender = record n.sender { stream = end_input n.sender.stream } })
  fills : Step s n (record n { sender = fill_window n.sender })
  ticks : (ms : ℕ) (x : TcpSender) → tick n.sender ms ≡ some x → Step s n (record n { sender = x })
  probes :
      0 < n.sender.next_seqno
      → n.sender.set_fin_flag ≡ false
      → Step s n (record n { sender = send_empty_segment n.sender })
  transmits : Step s n (transmit n)
  delivers :
      (i : ℕ) (seg : TcpSegment)
      → get_elem? n.wire i ≡ some seg
      → Step s n (record n { receiver = segment_received n.receiver seg })
  answers :
      (a : WrappingInt32) (window : ℕ)
      → ackno n.receiver ≡ some a
      → window < 2 ^ 16
      → Step s n (record n { acks = (a, window) ∷ n.acks })
  hears :
      (i : ℕ) (a : WrappingInt32) (window : ℕ)
      → get_elem? n.acks i ≡ some (a, window)
      → Step s n (record n { sender = ack_received n.sender a window })
  reads : (k : ℕ) → Step s n (read_some n k)

pub data Run (s : List ℕ) (n : Net) : Net → Type 0 where
  stay : Run s n n
  then_ : {m o : Net} → Run s n m → Step s m o → Run s n o
