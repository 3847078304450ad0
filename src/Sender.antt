-- ===== src/Sender.antt =====
-- libsponge/tcp_sender.hh and tcp_sender.cc: the outgoing stream is cut into segments, which stay
-- outstanding until they are acknowledged. Queues are lists with the front at the head.
pub mod Cases
pub mod Timing
pub mod Chain
pub mod Sending
pub mod Made
pub mod Round
pub mod Fill
pub mod Acks
pub mod Overrun
pub mod Taken
pub mod Rings
mod Tests
use cs144_2021_sponge.Prelude.{
  ℕ, zero, suc, ◌+◌, ◌%◌, ◌^◌, min, Bool, true, false, ◌&&◌, ◌||◌, not, Option, none, some, List,
  [], ◌∷◌, ◌++◌, ltb, leb, ◌==◌, if◌then◌else◌, add64, sub64,
}
use cs144_2021_sponge.ByteStream.{ByteStream, buffer_size, eof, read}
use cs144_2021_sponge.ByteStream as Stream
use cs144_2021_sponge.Config.{max_payload_size}
use cs144_2021_sponge.Wrapping.{WrappingInt32, wrap, unwrap}
use cs144_2021_sponge.Segment.{
  TcpHeader, TcpSegment, default_header, default_segment, length_in_sequence_space,
}
use cs144_2021_sponge.Timer.{
  RetransmissionTimer, start_timer, stop_timer, handle_timeout, check_timeout, set_timeout,
  set_accumulate_time,
}
use cs144_2021_sponge.Timer as Timer

-- The members of `TCPSender`.
pub record TcpSender : Type 0 where
  pub isn : WrappingInt32
  pub segments_out : List TcpSegment
  pub initial_retransmission_timeout : ℕ
  pub stream : ByteStream
  pub next_seqno : ℕ
  pub retransmission_timer : RetransmissionTimer
  pub receiver_ack : ℕ
  pub receiver_window_size : ℕ
  pub outstanding_segments : List TcpSegment
  pub consecutive_retransmissions : ℕ
  pub set_syn_flag : Bool
  pub set_fin_flag : Bool

abbrev value_or : Option WrappingInt32 → WrappingInt32 → WrappingInt32
value_or none d = d
value_or (some i) d = i

-- The constructor. `random` is what `random_device` returns.
unfoldable pub new :
    (capacity retx_timeout : ℕ) (fixed_isn : Option WrappingInt32) (random : WrappingInt32)
    → TcpSender
new capacity retx_timeout fixed_isn random = record {
  isn = value_or fixed_isn random;
  segments_out = [];
  initial_retransmission_timeout = retx_timeout;
  stream = Stream.new capacity;
  next_seqno = 0;
  retransmission_timer = Timer.new retx_timeout;
  receiver_ack = 0;
  receiver_window_size = 1;
  outstanding_segments = [];
  consecutive_retransmissions = 0;
  set_syn_flag = false;
  set_fin_flag = false;
}

abbrev pub bytes_in_flight : TcpSender → ℕ
bytes_in_flight s = sub64 s.next_seqno s.receiver_ack

abbrev pub window_not_full : TcpSender → ℕ → Bool
window_not_full s window_size = ltb (bytes_in_flight s) window_size

abbrev pub next_seqno_relative : TcpSender → WrappingInt32
next_seqno_relative s = wrap s.next_seqno s.isn

-- `window_size` in `fill_window`: an empty window counts as one byte.
abbrev pub usable_window : TcpSender → ℕ
usable_window s = if s.receiver_window_size == 0 then 1 else s.receiver_window_size

-- The branch of `fill_window` that makes a SYN segment.
unfoldable pub make_syn : TcpSender → TcpSender × TcpSegment
make_syn s = (
  record s { set_syn_flag = true; next_seqno = add64 s.next_seqno 1 },
  record { header = record default_header { syn = true; seqno = s.isn }; payload = [] },
)

unfoldable pub payload_size : TcpSender → ℕ → ℕ
payload_size s window_size =
    min (min (sub64 window_size (bytes_in_flight s)) (buffer_size s.stream)) max_payload_size

-- The branch that makes a segment of payload: the bytes are read and counted.
unfoldable pub make_payload : TcpSender → ℕ → TcpSender × TcpSegment
make_payload s window_size =
    let size = payload_size s window_size in
    let (rest, text) = read s.stream size in
    (
      record s { stream = rest; next_seqno = add64 s.next_seqno size },
      record { header = record default_header { seqno = next_seqno_relative s }; payload = text },
    )

-- A FIN rides on the segment when the stream has ended and there is room for it.
unfoldable pub add_fin : ℕ → TcpSender × TcpSegment → TcpSender × TcpSegment
add_fin window_size (s, seg) =
    if eof s.stream && window_not_full s window_size
    then (
      record s { set_fin_flag = true; next_seqno = add64 s.next_seqno 1 },
      record seg { header = record (seg.header) { fin = true } },
    )
    else (s, seg)

-- The end of `fill_window`: the segment is sent and kept, and the timer runs.
unfoldable pub enqueue : TcpSender → TcpSegment → TcpSender
enqueue s seg = record s {
  segments_out = s.segments_out ++ (seg ∷ []);
  outstanding_segments = s.outstanding_segments ++ (seg ∷ []);
  retransmission_timer = start_timer s.retransmission_timer;
}

-- One call of `fill_window` up to its recursive call, and whether a segment was sent.
unfoldable pub fill_once : TcpSender → TcpSender × Bool
fill_once s =
    let window_size = usable_window s in
    let (opened, syn) = make_syn s in
    let size = payload_size s window_size in
    let (read_on, seg) = add_fin window_size (make_payload s window_size) in
    if s.set_fin_flag
    then (s, false)
    else if s.next_seqno == 0
    then (enqueue opened syn, true)
    else if not read_on.set_fin_flag && size == 0
    then (read_on, false)
    else (enqueue read_on seg, true)

-- `fill_window`. The fuel bounds the depth of the recursion.
unfoldable pub fill_loop : ℕ → TcpSender → TcpSender
fill_loop zero s = s
fill_loop (suc fuel) s =
    let (s', sent) = fill_once s in
    let rest = fill_loop fuel s' in
    if sent && window_not_full s' (usable_window s) then rest else s'

-- A SYN, a FIN, one segment for each byte at most, and the call that sends nothing.
unfoldable pub fill_window : TcpSender → TcpSender
fill_window s = fill_loop (buffer_size s.stream + 3) s

-- The loop of `ack_received` over the outstanding segments, from the front; the flag is
-- `is_ack_update`.
unfoldable pub ack_loop : TcpSender → ℕ → List TcpSegment → Bool → TcpSender × Bool
ack_loop s abs_ackno [] updated = (record s { outstanding_segments = [] }, updated)
ack_loop s abs_ackno (seg ∷ segs) updated =
    let abs_seqno = unwrap seg.header.seqno s.isn s.next_seqno in
    let end = add64 abs_seqno (length_in_sequence_space seg) in
    let rest = ack_loop (record s { receiver_ack = end }) abs_ackno segs true in
    if leb end abs_ackno then rest else (record s { outstanding_segments = seg ∷ segs }, updated)

abbrev pub is_empty : List TcpSegment → Bool
is_empty [] = true
is_empty (seg ∷ segs) = false

unfoldable pub stop_if_done : TcpSender → TcpSender
stop_if_done s =
    if is_empty s.outstanding_segments
    then record s { retransmission_timer = stop_timer s.retransmission_timer }
    else s

unfoldable pub reset_timer : TcpSender → TcpSender
reset_timer s = record s {
  retransmission_timer =
      set_accumulate_time (set_timeout s.retransmission_timer s.initial_retransmission_timeout) 0;
}

unfoldable pub ack_received : TcpSender → WrappingInt32 → ℕ → TcpSender
ack_received s ackno window_size =
    let abs_ackno = unwrap ackno s.isn s.next_seqno in
    let (acked, is_ack_update) =
      ack_loop (record s { receiver_window_size = window_size }) abs_ackno s.outstanding_segments
        false in
    let stopped = stop_if_done acked in
    if ltb s.next_seqno abs_ackno || ltb abs_ackno s.receiver_ack
    then s
    else if is_ack_update
    then record (reset_timer stopped) { consecutive_retransmissions = 0 }
    else stopped

-- What a timeout does, with the oldest outstanding segment. `front` of an empty queue is undefined:
-- the result is then `none`.
unfoldable pub retransmit : TcpSender → List TcpSegment → Option TcpSender
unfolding reset_timer
retransmit s [] = none
retransmit s (seg ∷ segs) =
    let backed_off =
      if ltb 0 s.receiver_window_size
      then record s { retransmission_timer = handle_timeout s.retransmission_timer }
      else reset_timer s in
    some (record backed_off {
      consecutive_retransmissions = (s.consecutive_retransmissions + 1) % 2 ^ 32;
      segments_out = s.segments_out ++ (seg ∷ []);
    })

unfoldable pub tick : TcpSender → ℕ → Option TcpSender
tick s ms_since_last_tick =
    let (timer, expired) = check_timeout s.retransmission_timer ms_since_last_tick in
    let ticked = record s { retransmission_timer = timer } in
    let resent = retransmit ticked s.outstanding_segments in if expired then resent else some ticked

unfoldable pub send_empty_segment : TcpSender → TcpSender
send_empty_segment s = record s {
  segments_out =
      s.segments_out
      ++ (record default_segment {
        header = record default_header { seqno = next_seqno_relative s };
      }
          ∷ []);
}
