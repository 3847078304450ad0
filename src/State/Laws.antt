-- ===== src/State/Laws.antt =====
-- How the states of libsponge/tcp_helpers/tcp_state.cc follow one another.
use cs144_2021_sponge.Prelude.{
  ℕ, ◌≤◌, ◌≡◌, refl, Bool, true, false, not, if◌then◌else◌, arith, ◌⊎◌, inl, inr, Bool-cases,
  Option-cases,
}
use cs144_2021_sponge.ByteStream.{error, input_ended}
use cs144_2021_sponge.Wrapping.{WrappingInt32}
use cs144_2021_sponge.Segment.{TcpSegment, flag_length}
use cs144_2021_sponge.Receiver.{
  TcpReceiver, ackno, stream_out, segment_received, receive, stream_index,
}
use cs144_2021_sponge.State.{ReceiverSummary, receiver_summary, has_value}
use cs144_2021_sponge.State.Monotone.{most_one, push-Keeps}

-- How far a connection has come.
abbrev pub progress : ReceiverSummary → ℕ
progress ReceiverSummary.listen = 0
progress ReceiverSummary.syn_recv = 1
progress ReceiverSummary.fin_recv = 2
progress ReceiverSummary.error_state = 3

-- The summary in terms of the three facts that it rests on.
stage : (has_error knows ended : Bool) → ℕ
stage has_error knows ended = if has_error then 3 else if knows then (if ended then 2 else 1) else 0

summary_stage :
    (has_error knows ended : Bool)
    → progress (
        if has_error
        then ReceiverSummary.error_state
        else if not knows
        then ReceiverSummary.listen
        else if ended
        then ReceiverSummary.fin_recv
        else ReceiverSummary.syn_recv)
      ≡ stage has_error knows ended
unfolding stage
summary_stage true knows ended = refl
summary_stage false false ended = refl
summary_stage false true true = refl
summary_stage false true false = refl

has_value-ackno : (r : TcpReceiver) → has_value (ackno r) ≡ has_value r.isn
unfolding ackno
has_value-ackno r = elim (Option-cases r.isn) [ inl e ↦ rw e refl | inr (isn, e) ↦ rw e refl ]

abbrev reached : TcpReceiver → ℕ
reached r = stage (error (stream_out r)) (has_value r.isn) (input_ended (stream_out r))

progress-stage : (r : TcpReceiver) → progress (receiver_summary r) ≡ reached r
unfolding receiver_summary
progress-stage r =
    rw (has_value-ackno r)
      (summary_stage (error (stream_out r)) (has_value r.isn) (input_ended (stream_out r)))

stage-le :
    (has_error knows knows' ended ended' : Bool)
    → flag_length knows ≤ flag_length knows'
    → flag_length ended ≤ flag_length ended'
    → stage has_error knows ended ≤ stage has_error knows' ended'
unfolding stage
stage-le has_error knows knows' ended ended' k e = ground arith

dropped_or_received :
    (r : TcpReceiver) (seg : TcpSegment)
    → (segment_received r seg ≡ r)
      ⊎ ((isn : WrappingInt32) × (segment_received r seg ≡ receive r isn seg))
unfolding segment_received
dropped_or_received r seg = elim (Option-cases r.isn) [
  | inr (isn, e) ↦ inr (isn, ground arith)
  | inl e ↦ elim (Bool-cases seg.header.syn) [
    | inl syn ↦ inr (seg.header.seqno, ground arith)
    | inr no_syn ↦ inl (ground arith)
  ]
]

receive-stage :
    (r : TcpReceiver) (isn : WrappingInt32) (seg : TcpSegment)
    → reached r ≤ reached (receive r isn seg)
unfolding receive
receive-stage r isn seg =
    let k = push-Keeps r.reassembler seg.payload (stream_index r isn seg) seg.header.fin in
    rw (k.error) (
      stage-le (error (stream_out r)) (has_value r.isn) true _ _ (most_one (has_value r.isn))
        k.ended)

-- Whatever segment arrives, a receiver never goes back in the order LISTEN, SYN_RECV, FIN_RECV and, where
-- the stream has an error, ERROR.
pub never_goes_back :
    (r : TcpReceiver) (seg : TcpSegment)
    → progress (receiver_summary r) ≤ progress (receiver_summary (segment_received r seg))
never_goes_back r seg =
    rw (progress-stage r, progress-stage (segment_received r seg))
      (elim (dropped_or_received r seg) [
        | inl e ↦ rw e (omega arith)
        | inr (isn, e) ↦ rw e (receive-stage r isn seg)
      ])
