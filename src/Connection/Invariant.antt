-- ===== src/Connection/Invariant.antt =====
-- What holds in every state of a connection, whatever the network does.
use cs144_2021_sponge.Prelude.{
  ℕ, ◌+◌, ◌^◌, ◌≤◌, ◌<◌, ◌≡◌, refl, ◌∙◌, List, length, take, arith, All, All-weaken,
}
use cs144_2021_sponge.ByteStream.{bytes_written, bytes_read, end_input}
use cs144_2021_sponge.Wrapping.{WrappingInt32, wrap}
use cs144_2021_sponge.Reassembler.{read_output}
use cs144_2021_sponge.Sender.{
  TcpSender, fill_window, ack_received, tick, send_empty_segment, is_empty,
}
use cs144_2021_sponge.Sender.Rings.{Rings, new-Rings}
use cs144_2021_sponge.Receiver.{TcpReceiver, ackno, segment_received}
use cs144_2021_sponge.Receiver as Receiver
use cs144_2021_sponge.Reassembler as Reassembler
use cs144_2021_sponge.ByteStream as Stream
use cs144_2021_sponge.Sender as Sender
use cs144_2021_sponge.Connection.{Net, start}
use cs144_2021_sponge.Connection.Drawn.{Good, AllGood-later}
use cs144_2021_sponge.Connection.Sending.{Sends, new-Sends}
use cs144_2021_sponge.Connection.Receiving.{Hears, Hears-later, new-Hears, reached}

-- An acknowledgment of no more than the receiver has.
pub record Answer (isn : WrappingInt32) (limit : ℕ) (a : WrappingInt32 × ℕ) : Type 0 where
  pub number : ℕ
  pub wrapped : a.0 ≡ wrap number isn
  pub within : number ≤ limit
  pub window : a.1 < 2 ^ 16

pub record Holds (s : List ℕ) (isn : WrappingInt32) (cap room : ℕ) (n : Net) : Type 0 where
  pub sends : Sends s isn cap n.sender
  pub rings : Rings n.sender
  pub wire : All (Good s isn n.sender.next_seqno) n.wire
  pub hears : Hears s isn n.sender.next_seqno n.receiver
  pub acks : All (Answer isn (reached s n.receiver)) n.acks
  pub behind : n.sender.receiver_ack ≤ reached s n.receiver
  pub room_kept : n.receiver.reassembler.capacity ≡ room
  pub order : n.got ≡ take (bytes_read n.receiver.reassembler.output) s

Answer-later :
    (isn : WrappingInt32) {m n : ℕ} (xs : List (WrappingInt32 × ℕ))
    → m ≤ n
    → All (Answer isn m) xs
    → All (Answer isn n) xs
Answer-later isn xs le = All-weaken xs (λ a v. record {
  number = v.number;
  wrapped = v.wrapped;
  within = omega (arith, v.within);
  window = v.window;
})

module _ {s : List ℕ} {isn : WrappingInt32} (short : length s + 2 < 2 ^ 31)
    (word : isn.raw_value < 2 ^ 32) {cap : ℕ} (small : cap < 2 ^ 64) where
  pub start-Holds :
      (receive_capacity timeout : ℕ)
      → length s + receive_capacity < 2 ^ 64
      → timeout < 2 ^ 64
      → Holds s isn cap receive_capacity (start cap receive_capacity timeout isn)
  unfolding Receiver.new Reassembler.new Stream.new Sender.new
  start-Holds receive_capacity timeout fits time = record {
    sends = new-Sends short word small timeout;
    rings = new-Rings cap timeout isn time;
    wire = tt;
    hears = new-Hears receive_capacity fits;
    acks = tt;
    behind = omega arith;
    room_kept = refl;
    order = refl;
  }

module _ {s : List ℕ} {isn : WrappingInt32} {cap room : ℕ} (n : Net)
    (v : Holds s isn cap room n) where
  -- A step of the sender.
  pub resent :
      (x : TcpSender)
      → Sends s isn cap x
      → Rings x
      → n.sender.next_seqno ≤ x.next_seqno
      → x.receiver_ack ≤ reached s n.receiver
      → Holds s isn cap room (record n { sender = x })
  resent x w rings grows behind = record {
    sends = w;
    rings = rings;
    wire = AllGood-later s isn n.wire grows v.wire;
    hears = Hears-later grows v.hears;
    acks = v.acks;
    behind = behind;
    room_kept = v.room_kept;
    order = v.order;
  }

  -- A step of the receiver.
  pub reheard :
      (r : TcpReceiver) (got : List ℕ)
      → Hears s isn n.sender.next_seqno r
      → reached s n.receiver ≤ reached s r
      → r.reassembler.capacity ≡ n.receiver.reassembler.capacity
      → got ≡ take (bytes_read r.reassembler.output) s
      → Holds s isn cap room (record n { receiver = r; got = got })
  reheard r got h grows kept order = record {
    sends = v.sends;
    rings = v.rings;
    wire = v.wire;
    hears = h;
    acks = Answer-later isn n.acks grows v.acks;
    behind = omega (arith, v.behind, grows);
    room_kept = kept ∙ v.room_kept;
    order = order;
  }
