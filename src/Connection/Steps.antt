-- ===== src/Connection/Steps.antt =====
-- Every step of a connection keeps the invariant.
use cs144_2021_sponge.Prelude.{
  ℕ, ◌+◌, ◌^◌, ◌≤◌, ◌<◌, ◌≡◌, refl, sym, ap, ◌∙◌, not, ◌||◌, some, List, ◌++◌, length, take, arith,
  ltb, Bool-cases, inl, inr, All-append, All-at,
}
use cs144_2021_sponge.Wrapping.{WrappingInt32, wrap, unwrap}
use cs144_2021_sponge.Wrapping.Laws.{unwrap-wrap}
use cs144_2021_sponge.Reassembler.{read_output}
use cs144_2021_sponge.Reassembler.Reading.{read_output-Reads}
use cs144_2021_sponge.Sender.{TcpSender, fill_window, ack_received, send_empty_segment, is_empty}
use cs144_2021_sponge.Sender.Chain.{Chain-occupied}
use cs144_2021_sponge.Sender.Fill.{fill_window-Filled}
use cs144_2021_sponge.Sender.Acks.{ack_received_ignored}
use cs144_2021_sponge.Sender.Taken.{ack_received-Takes}
use cs144_2021_sponge.Sender.Rings.{
  Rings, fill_window-Rings, ack_received-Rings, tick-Rings, send_empty_segment-Rings,
}
use cs144_2021_sponge.Receiver.{ackno}
use cs144_2021_sponge.Receiver.Laws.{ackno-wrap, acknowledged}
use mathlib.Core.Option.{some-injective}
use cs144_2021_sponge.Connection.{
  Net, Step, writes, ends, fills, ticks, probes, transmits, delivers, answers, hears, reads, Run,
  stay, then_,
}
use cs144_2021_sponge.Connection.Drawn.{Drawn-IsSound, next_below}
use cs144_2021_sponge.Connection.Kept.{ack_received-kept, tick-Ticked}
use cs144_2021_sponge.Connection.Sending.{
  Sends-Tracks, write_next-Sends, end_input-Sends, fill_window-Sends,
}
use cs144_2021_sponge.Connection.Queues.{
  transmit-Sends, tick-Sends, send_empty_segment-Sends, ack_received-Sends,
}
use cs144_2021_sponge.Connection.Receiving.{
  reached, reached-known, reached-sent, segment_received-Hears, read_output-Hears,
}
use cs144_2021_sponge.Connection.Invariant.{Answer, Holds, resent, reheard}

same_timer_Rings :
    (x y : TcpSender)
    → Rings x
    → y.retransmission_timer ≡ x.retransmission_timer
    → y.initial_retransmission_timeout ≡ x.initial_retransmission_timeout
    → y.outstanding_segments ≡ x.outstanding_segments
    → Rings y
same_timer_Rings x y v t i q = record {
  runs = ap (λ z. z.is_running) t ∙ v.runs ∙ sym (ap (λ z. not (is_empty z)) q);
  words = record {
    rto = omega (arith, ap (λ z. z.rto) t, v.words.rto);
    init_rto = omega (arith, ap (λ z. z.init_rto) t, v.words.init_rto);
    initial = omega (arith, i, v.words.initial);
  };
}

send_empty-same :
    (x : TcpSender)
    → (x.next_seqno ≤ (send_empty_segment x).next_seqno)
      × ((send_empty_segment x).receiver_ack ≡ x.receiver_ack)
unfolding send_empty_segment
send_empty-same x = (omega arith, refl)

module _ {s : List ℕ} {isn : WrappingInt32} (short : length s + 2 < 2 ^ 31)
    (word : isn.raw_value < 2 ^ 32) {cap : ℕ} (small : cap < 2 ^ 64) where
  module _ {room : ℕ} (n : Net) (v : Holds s isn cap room n) where
    same_timer :
        {x : TcpSender}
        → x.retransmission_timer ≡ n.sender.retransmission_timer
        → x.initial_retransmission_timeout ≡ n.sender.initial_retransmission_timeout
        → x.outstanding_segments ≡ n.sender.outstanding_segments
        → Rings x
    same_timer {x} = same_timer_Rings n.sender x v.rings

    fill_window-grows :
        (n.sender.next_seqno ≤ (fill_window n.sender).next_seqno)
        × ((fill_window n.sender).receiver_ack ≡ n.sender.receiver_ack)
    fill_window-grows =
        let f = fill_window-Filled n.sender (Drawn-IsSound s isn short word small v.sends.drawn) in
        (
          omega (
            arith,
            Chain-occupied n.sender.isn n.sender.next_seqno f.segs (fill_window n.sender).next_seqno
                f.sends.chain,
          ),
          f.sends.ack,
        )

    hears-Holds :
        (a : WrappingInt32) (window : ℕ)
        → Answer isn (reached s n.receiver) (a, window)
        → Holds s isn cap room (record n { sender = ack_received n.sender a window })
    hears-Holds a window w =
        let x = n.sender in
        let exact : unwrap a x.isn x.next_seqno ≡ w.number =
          rw (w.wrapped, v.sends.drawn.isn_kept)
            (unwrap-wrap w.number isn x.next_seqno word (omega (arith, limit, w.within))
              (omega (arith, limit, w.within))) in
        let below : (ack_received x a window).receiver_ack ≤ reached s n.receiver =
          elim (Bool-cases (ltb x.next_seqno w.number || ltb w.number x.receiver_ack)) [
            | inl bad ↦ omega (
              arith,
              v.behind,
              ap (λ y. y.receiver_ack)
                  (ack_received_ignored x a window (ground (arith, bad, exact))),
            )
            | inr fine ↦
                let t =
                  ack_received-Takes x (Sends-Tracks short word small v.sends) a window
                    (ground (arith, fine, exact)) (ground (arith, fine, exact)) in
                omega (arith, t.below, exact, w.within)
          ] in
        resent n v _ (ack_received-Sends short word small v.sends a window w.window)
          (ack_received-Rings x a window v.rings) (omega (arith, (ack_received-kept x a window).3))
          below
      where
        limit :
            (n.sender.next_seqno ≤ length s + 2)
            × (reached s n.receiver ≤ n.sender.next_seqno)
            × (length s + 2 < 2 ^ 31)
        limit = (
          next_below s isn short word small v.sends.drawn,
          reached-sent n.receiver v.hears,
          short,
        )

    answers-Answer :
        (a : WrappingInt32) (window : ℕ)
        → ackno n.receiver ≡ some a
        → window < 2 ^ 16
        → Answer isn (reached s n.receiver) (a, window)
    unfolding ackno
    answers-Answer a window e w = elim v.hears.synced [
      | inl none_yet ↦ absurd (ground (arith, none_yet, e))
      | inr p ↦
          let same : a ≡ wrap (acknowledged s n.receiver) isn =
            some-injective _ _
              (sym e ∙ ackno-wrap n.receiver isn v.hears.inv (omega (arith, short)) word p.0) in
          record {
            number = acknowledged s n.receiver;
            wrapped = same;
            within = omega (arith, reached-known s n.receiver p.0);
            window = w;
          }
    ]

    pub Step-Holds : {m : Net} → Step s n m → Holds s isn cap room m
    Step-Holds (writes k) =
        resent n v _ (write_next-Sends short word small v.sends k) (same_timer refl refl refl)
          (omega arith) v.behind
    Step-Holds (ends e) =
        resent n v _ (end_input-Sends short word small v.sends e) (same_timer refl refl refl)
          (omega arith) v.behind
    Step-Holds fills =
        let g = fill_window-grows in
        resent n v _ (fill_window-Sends short word small v.sends)
          (fill_window-Rings n.sender v.rings) g.0 (omega (arith, g.1, v.behind))
    Step-Holds (ticks ms x e) =
        let t = tick-Ticked (λ _. Unit {0}) n.sender x ms e in
        resent n v x (tick-Sends short word small v.sends ms x e)
          (tick-Rings n.sender x ms v.rings e) (omega (arith, t.next))
          (omega (arith, t.ack, v.behind))
    Step-Holds (probes p f) =
        resent n v _ (send_empty_segment-Sends short word small v.sends p f)
          (send_empty_segment-Rings n.sender v.rings) (send_empty-same n.sender).0
          (omega (arith, (send_empty-same n.sender).1, v.behind))
    Step-Holds transmits = record {
      sends = transmit-Sends short word small v.sends;
      rings = same_timer refl refl refl;
      wire = All-append _ n.wire n.sender.segments_out v.wire v.sends.drawn.out;
      hears = v.hears;
      acks = v.acks;
      behind = v.behind;
      room_kept = v.room_kept;
      order = v.order;
    }
    Step-Holds (delivers i seg e) =
        let (h, grows, unread, kept) =
          segment_received-Hears n.receiver v.hears short word seg
            (All-at _ n.wire i seg v.wire e) in
        reheard n v _ n.got h grows kept (v.order ∙ ap (λ (k : ℕ). take k s) (sym unread))
    Step-Holds (answers a window e w) = record {
      sends = v.sends;
      rings = v.rings;
      wire = v.wire;
      hears = v.hears;
      acks = (answers-Answer a window e w, v.acks);
      behind = v.behind;
      room_kept = v.room_kept;
      order = v.order;
    }
    Step-Holds (hears i a window e) = hears-Holds a window (All-at _ n.acks i (a, window) v.acks e)
    Step-Holds (reads k) =
        let (h, grows) = read_output-Hears n.receiver v.hears k in
        reheard n v _ _ h grows (read_output-Reads n.receiver.reassembler v.hears.inv k).room (
          ap (λ bs. bs ++ (read_output n.receiver.reassembler k).1) v.order
          ∙ sym (read_output-Reads n.receiver.reassembler v.hears.inv k).next)

  -- Every state that a run leads to.
  pub Run-Holds :
      {room : ℕ} {n m : Net} → Holds s isn cap room n → Run s n m → Holds s isn cap room m
  Run-Holds v stay = v
  Run-Holds v (then_ run step) = Step-Holds _ (Run-Holds v run) step
