-- ===== src/State.antt =====
-- libsponge/tcp_helpers/tcp_state.hh and tcp_state.cc: the states of the TCP specification, read off a
-- receiver and a sender. Each text of the code is a constructor.
pub mod Monotone
pub mod Laws
mod Tests
use cs144_2021_sponge.Prelude.{
  ℕ, ◌+◌, Bool, true, false, not, Option, none, some, ltb, ◌==◌, if◌then◌else◌, add64,
}
use cs144_2021_sponge.ByteStream.{ByteStream, error, input_ended, eof, bytes_written}
use cs144_2021_sponge.Receiver.{TcpReceiver, ackno, stream_out}
use cs144_2021_sponge.Sender.{TcpSender, bytes_in_flight}

pub data ReceiverSummary : Type 0 where
  error_state listen syn_recv fin_recv : ReceiverSummary

pub data SenderSummary : Type 0 where
  error_state closed syn_sent syn_acked fin_sent fin_acked : SenderSummary

abbrev pub has_value {ℓ} : {A : Type ℓ} → Option A → Bool
has_value none = false
has_value (some a) = true

-- `state_summary` of a receiver.
unfoldable pub receiver_summary : TcpReceiver → ReceiverSummary
receiver_summary r =
    if error (stream_out r)
    then ReceiverSummary.error_state
    else if not (has_value (ackno r))
    then ReceiverSummary.listen
    else if input_ended (stream_out r)
    then ReceiverSummary.fin_recv
    else ReceiverSummary.syn_recv

-- `state_summary` of a sender.
unfoldable pub sender_summary : TcpSender → SenderSummary
sender_summary s =
    if error s.stream
    then SenderSummary.error_state
    else if s.next_seqno == 0
    then SenderSummary.closed
    else if s.next_seqno == bytes_in_flight s
    then SenderSummary.syn_sent
    else if not (eof s.stream)
    then SenderSummary.syn_acked
    else if ltb s.next_seqno (add64 (bytes_written s.stream) 2)
    then SenderSummary.syn_acked
    else if not (bytes_in_flight s == 0)
    then SenderSummary.fin_sent
    else SenderSummary.fin_acked
