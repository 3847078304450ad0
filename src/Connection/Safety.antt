-- ===== src/Connection/Safety.antt =====
-- What the reader of a connection gets, and what the sender may forget, whatever the network does.
use cs144_2021_sponge.Prelude.{
  ℕ, ◌+◌, ◌^◌, ◌≤◌, ◌<◌, ◌≡◌, sym, ap, ◌∙◌, true, List, length, take, arith, length-take, take_all,
}
use cs144_2021_sponge.ByteStream.{bytes_written, bytes_read, eof}
use cs144_2021_sponge.ByteStream.Refine.{length-buffer}
use cs144_2021_sponge.Wrapping.{WrappingInt32}
use cs144_2021_sponge.Reassembler.Invariant.{counters}
use cs144_2021_sponge.Sender.Chain.{Chain}
use cs144_2021_sponge.Receiver.{stream_out}
use cs144_2021_sponge.Connection.{Net, start, Run}
use cs144_2021_sponge.Connection.Drawn.{empty-length}
use cs144_2021_sponge.Connection.Receiving.{reached, reached-sent}
use cs144_2021_sponge.Connection.Invariant.{Holds, start-Holds}
use cs144_2021_sponge.Connection.Steps.{Run-Holds}

module _ (s : List ℕ) (isn : WrappingInt32) (send_capacity receive_capacity timeout : ℕ)
    (short : length s + 2 < 2 ^ 31) (word : isn.raw_value < 2 ^ 32) (small : send_capacity < 2 ^ 64)
    (fits : length s + receive_capacity < 2 ^ 64) (time : timeout < 2 ^ 64) {n : Net}
    (run : Run s (start send_capacity receive_capacity timeout isn) n) where
  v : Holds s isn send_capacity receive_capacity n
  v =
      Run-Holds short word small (start-Holds short word small receive_capacity timeout fits time)
        run

  read_inside : bytes_read (stream_out n.receiver) ≤ length s
  read_inside =
      let f = v.hears.inv.filled in omega (arith, counters s f, f.represents.within, f.inside)

  -- A sender and a receiver start with a stream shorter than 2 ^ 31 - 2 bytes, and any sequence of calls
  -- follows, where an empty segment is sent between the SYN and the FIN only, while the network loses,
  -- repeats and reorders segments and acknowledgments: what the reader has
  -- got is the beginning of what the writer writes, in order and each byte once.
  pub delivered_in_order : n.got ≡ take (length n.got) s
  delivered_in_order =
      let len : length n.got ≡ bytes_read (stream_out n.receiver) = omega (
        arith,
        ap length v.order,
        length-take (bytes_read (stream_out n.receiver)) s,
        read_inside,
      ) in
      v.order ∙ ap (λ (k : ℕ). take k s) (sym len)

  -- A sender and a receiver start with a stream shorter than 2 ^ 31 - 2 bytes, and any sequence of calls
  -- follows, where an empty segment is sent between the SYN and the FIN only, while the network loses,
  -- repeats and reorders segments and acknowledgments: when the reader
  -- finds the end of its stream, it has got the whole text.
  pub eof_means_all : eof (stream_out n.receiver) ≡ true → n.got ≡ s
  eof_means_all e =
      let i = v.hears.inv in
      let f = i.filled in
      let drained = empty-length (stream_out n.receiver).buffer (ground (arith, e)) in
      let ended : bytes_written (stream_out n.receiver) ≡ length s = ground (arith, e, i.ended) in
      let all : bytes_read (stream_out n.receiver) ≡ length s = omega (
        arith,
        drained,
        ended,
        length-buffer (omega (arith, f.small)) f.represents,
        f.represents.within,
        counters s f,
      ) in
      v.order ∙ take_all (bytes_read (stream_out n.receiver)) s (omega (arith, all))

  -- A sender and a receiver start with a stream shorter than 2 ^ 31 - 2 bytes, and any sequence of calls
  -- follows, where an empty segment is sent between the SYN and the FIN only, while the network loses,
  -- repeats and reorders segments and acknowledgments: the sender has
  -- forgotten only what the receiver has, the receiver has only what was sent, and the segments that the
  -- sender keeps number what was sent and is not forgotten, without gap.
  pub nothing_forgotten :
      (n.sender.receiver_ack ≤ reached s n.receiver)
      × (reached s n.receiver ≤ n.sender.next_seqno)
      × Chain n.sender.isn n.sender.receiver_ack n.sender.outstanding_segments n.sender.next_seqno
  nothing_forgotten = (v.behind, reached-sent n.receiver v.hears, v.sends.chain)
