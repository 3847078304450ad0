-- ===== src/Connection/Tests.antt =====
-- A text of three bytes goes from one end to the other, and the instances of the theorems.
use cs144_2021_sponge.Prelude.{
  ℕ, ◌^◌, ◌-◌, ◌≤◌, ◌≡◌, refl, true, List, [], ◌∷◌, take, length, arith,
}
use cs144_2021_sponge.ByteStream.{eof, end_input, write, write_loop, read, read_loop}
use cs144_2021_sponge.ByteStream as Stream
use cs144_2021_sponge.Wrapping.{WrappingInt32, wrapping, wrap, unwrap}
use cs144_2021_sponge.Segment.{TcpSegment, default_header, length_in_sequence_space}
use cs144_2021_sponge.Reassembler as Reassembler
use cs144_2021_sponge.Sender as Sender
use cs144_2021_sponge.Sender.{fill_window, ack_received}
use cs144_2021_sponge.Sender.Chain.{Chain}
use cs144_2021_sponge.Receiver as Receiver
use cs144_2021_sponge.Receiver.{segment_received, stream_out, ackno}
use cs144_2021_sponge.Timer as Timer
use cs144_2021_sponge.Connection.{
  Net, start, Run, stay, then_, writes, ends, fills, transmits, delivers, answers, hears, reads,
  write_next, transmit, read_some,
}
use cs144_2021_sponge.Connection.Receiving.{reached}
use cs144_2021_sponge.Connection.Safety.{delivered_in_order, eof_means_all, nothing_forgotten}
use cs144_2021_sponge.Connection.Completion.{Complete, all_lost, delivery_possible}

abbrev text : List ℕ
text = 7 ∷ 8 ∷ 9 ∷ []

abbrev isn : WrappingInt32
isn = wrapping (2 ^ 32 - 2)

abbrev first : Net
first = start 10 4 1000 isn

abbrev written : Net
written = record first { sender = write_next text first.sender 3 }

abbrev ended : Net
ended = record written {
  sender = record written.sender { stream = end_input written.sender.stream };
}

abbrev opened : Net
opened = transmit (record ended { sender = fill_window ended.sender })

abbrev syn_segment : TcpSegment
syn_segment = record { header = record default_header { syn = true; seqno = isn }; payload = [] }

abbrev met : Net
met = record opened { receiver = segment_received opened.receiver syn_segment }

abbrev answer : WrappingInt32
answer = wrapping (2 ^ 32 - 1)

abbrev told : Net
told = record met { acks = (answer, 5) ∷ []; sender = ack_received met.sender answer 5 }

abbrev sent : Net
sent = transmit (record told { sender = fill_window told.sender })

abbrev last_segment : TcpSegment
last_segment = record {
  header = record default_header { fin = true; seqno = answer };
  payload = text;
}

abbrev delivered : Net
delivered = record sent { receiver = segment_received sent.receiver last_segment }

abbrev read_out : Net
read_out = read_some delivered 3

run_read_out : Run text first read_out
unfolding Stream.new Sender.new Receiver.new Reassembler.new Timer.new write write_loop end_input
    fill_window Sender.fill_loop Sender.fill_once Sender.make_syn Sender.make_payload
    Sender.payload_size Sender.add_fin Sender.enqueue read read_loop wrap unwrap segment_received
    Receiver.receive Receiver.stream_index ackno Reassembler.push_substring Reassembler.check_eof
    Reassembler.record_eof Reassembler.store Reassembler.copy_loop Reassembler.put
    Reassembler.assemble Reassembler.drain_loop Reassembler.write_out Reassembler.read_output
    ack_received Sender.ack_loop Sender.stop_if_done Sender.reset_timer length_in_sequence_space
run_read_out =
    then_
      (then_
        (then_
          (then_
            (then_
              (then_
                (then_ (then_ (then_ (then_ (then_ stay (writes 3)) (ends refl)) fills) transmits)
                  (delivers 0 syn_segment refl))
                (answers answer 5 refl (omega arith)))
              (hears 0 answer 5 refl))
            fills)
          transmits)
        (delivers 1 last_segment refl))
      (reads 3)

read_out-eof : eof (stream_out read_out.receiver) ≡ true
unfolding Stream.new Sender.new Receiver.new Reassembler.new Timer.new write write_loop end_input
    fill_window Sender.fill_loop Sender.fill_once Sender.make_syn Sender.make_payload
    Sender.payload_size Sender.add_fin Sender.enqueue read read_loop wrap unwrap segment_received
    Receiver.receive Receiver.stream_index ackno Reassembler.push_substring Reassembler.check_eof
    Reassembler.record_eof Reassembler.store Reassembler.copy_loop Reassembler.put
    Reassembler.assemble Reassembler.drain_loop Reassembler.write_out Reassembler.read_output
    ack_received Sender.ack_loop Sender.stop_if_done Sender.reset_timer length_in_sequence_space
read_out-eof = refl

delivered_in_order_example : read_out.got ≡ take (length read_out.got) text
delivered_in_order_example =
    delivered_in_order text isn 10 4 1000 (omega arith) (omega arith) (omega arith) (omega arith)
      (omega arith) run_read_out

eof_means_all_example : read_out.got ≡ text
eof_means_all_example =
    eof_means_all text isn 10 4 1000 (omega arith) (omega arith) (omega arith) (omega arith)
      (omega arith) run_read_out read_out-eof

nothing_forgotten_example :
    (read_out.sender.receiver_ack ≤ reached text read_out.receiver)
    × (reached text read_out.receiver ≤ read_out.sender.next_seqno)
    × Chain read_out.sender.isn read_out.sender.receiver_ack read_out.sender.outstanding_segments
        read_out.sender.next_seqno
nothing_forgotten_example =
    nothing_forgotten text isn 10 4 1000 (omega arith) (omega arith) (omega arith) (omega arith)
      (omega arith) run_read_out

-- A larger receiver, after the SYN is sent and lost.
abbrev lost : Net
lost = let n : Net = start 10 2000 1000 isn in transmit (record n { sender = fill_window n.sender })

delivery_possible_example : (m : Net) × Run text (all_lost lost) m × Complete text m
delivery_possible_example =
    delivery_possible text isn 10 2000 1000 (omega arith) (omega arith) (omega arith) (omega arith)
      (omega arith) (omega arith) (omega arith) (then_ (then_ stay fills) transmits)
