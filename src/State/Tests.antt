-- ===== src/State/Tests.antt =====
-- The states of small receivers and senders, and the instance of the theorem.
use cs144_2021_sponge.Prelude.{◌≤◌, ◌≡◌, refl, true, some, [], ◌∷◌}
use cs144_2021_sponge.ByteStream as Stream
use cs144_2021_sponge.Wrapping.{wrapping, wrap}
use cs144_2021_sponge.Segment.{TcpSegment, default_header}
use cs144_2021_sponge.Receiver.{TcpReceiver, ackno, segment_received}
use cs144_2021_sponge.Receiver as Receiver
use cs144_2021_sponge.Reassembler as Reassembler
use cs144_2021_sponge.Sender as Sender
use cs144_2021_sponge.Sender.{
  TcpSender, fill_window, fill_loop, fill_once, make_syn, make_payload, payload_size, add_fin,
  enqueue,
}
use cs144_2021_sponge.Timer as Timer
use cs144_2021_sponge.State.{SenderSummary, ReceiverSummary, receiver_summary, sender_summary}
use cs144_2021_sponge.State.Laws.{progress, never_goes_back}

abbrev receiver : TcpReceiver
receiver = Receiver.new 8

abbrev syn_segment : TcpSegment
syn_segment = record { header = record default_header { syn = true }; payload = 65 ∷ [] }

receiver_summary-receiver : receiver_summary receiver ≡ ReceiverSummary.listen
unfolding receiver_summary ackno Receiver.new Reassembler.new Stream.new
receiver_summary-receiver = refl

abbrev sender : TcpSender
sender = Sender.new 8 1000 (some (wrapping 7)) (wrapping 0)

sender_summary-sender : sender_summary sender ≡ SenderSummary.closed
unfolding sender_summary Sender.new Stream.new
sender_summary-sender = refl

sender_summary-fill_window : sender_summary (fill_window sender) ≡ SenderSummary.syn_sent
unfolding sender_summary Sender.new Stream.new fill_window fill_loop fill_once make_syn make_payload
    payload_size add_fin enqueue Stream.read Stream.read_loop Timer.new Timer.start_timer wrap
sender_summary-fill_window = refl

never_goes_back_example :
    progress (receiver_summary receiver)
    ≤ progress (receiver_summary (segment_received receiver syn_segment))
never_goes_back_example = never_goes_back receiver syn_segment
