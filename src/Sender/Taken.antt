-- ===== src/Sender/Taken.antt =====
-- `ack_received` of libsponge/tcp_sender.cc as a whole, for an acknowledgment that is credible, and the
-- numbering of the outstanding segments through `fill_window`.
use cs144_2021_sponge.Prelude.{
  ℕ, ◌-◌, ◌^◌, ◌≤◌, ◌<◌, ◌≡◌, refl, sym, ap, subst, ◌∙◌, Bool, false, List, ◌++◌, ltb,
  if◌then◌else◌, arith,
}
use cs144_2021_sponge.Wrapping.{WrappingInt32, unwrap}
use cs144_2021_sponge.Segment.{TcpSegment}
use cs144_2021_sponge.Timer.{set_timeout, set_accumulate_time, stop_timer}
use cs144_2021_sponge.Sender.{
  TcpSender, ack_loop, stop_if_done, reset_timer, ack_received, bytes_in_flight, fill_window,
  usable_window,
}
use cs144_2021_sponge.Sender.Acks.{Tracks, IsPending, Acked, ack_loop-Acked, ack_loop-same}
use cs144_2021_sponge.Sender.Fill.{fill_window-Filled}
use cs144_2021_sponge.Sender.Sending.{IsSound}
use cs144_2021_sponge.Sender.Overrun.{fill_window_fits}
use cs144_2021_sponge.Sender.Chain.{Chain-occupied, Chain-append, Chain-moved, occupied}

-- What a credible acknowledgment up to the absolute number `n` does.
pub record Takes (s : TcpSender) (n window : ℕ) (s' : TcpSender) : Type 0 where
  pub popped : List TcpSegment
  pub split : s.outstanding_segments ≡ popped ++ s'.outstanding_segments
  pub tracks : Tracks s'
  pub grows : s.receiver_ack ≤ s'.receiver_ack
  pub below : s'.receiver_ack ≤ n
  pub pending : IsPending s'.receiver_ack n s'.outstanding_segments
  pub window_kept : s'.receiver_window_size ≡ window
  pub retransmissions :
      s'.consecutive_retransmissions
      ≡ (if ltb s.receiver_ack s'.receiver_ack then 0 else s.consecutive_retransmissions)
  pub timeout : s'.retransmission_timer.rto ≡ (
      if ltb s.receiver_ack s'.receiver_ack
      then s.initial_retransmission_timeout
      else s.retransmission_timer.rto)
  pub elapsed :
      s'.retransmission_timer.accumulate_time
      ≡ (if ltb s.receiver_ack s'.receiver_ack then 0 else s.retransmission_timer.accumulate_time)
  pub in_flight : bytes_in_flight s' ≡ occupied s'.outstanding_segments

module _ (s : TcpSender) (v : Tracks s) (ackno : WrappingInt32) (window : ℕ) where
  abbrev n : ℕ
  n = unwrap ackno s.isn s.next_seqno

  looped : TcpSender × Bool
  looped = ack_loop (record s { receiver_window_size = window }) n s.outstanding_segments false

  acked : Acked (record s { receiver_window_size = window }) n s.outstanding_segments false looped
  unfolding looped
  acked =
      ack_loop-Acked n s.outstanding_segments (record s { receiver_window_size = window }) false
        v.chain v.flight v.numbers v.word

  module _ (low : s.receiver_ack ≤ n) (high : n ≤ s.next_seqno) where
    abbrev finish : TcpSender
    finish =
        if looped.1
        then record (reset_timer (stop_if_done looped.0)) { consecutive_retransmissions = 0 }
        else stop_if_done looped.0

    ack_received-finish : ack_received s ackno window ≡ finish
    unfolding ack_received looped
    ack_received-finish = ground (arith, low, high)

    finish-same :
        (finish.outstanding_segments ≡ looped.0.outstanding_segments)
        × (finish.receiver_ack ≡ looped.0.receiver_ack)
        × (finish.next_seqno ≡ looped.0.next_seqno)
        × (finish.isn ≡ looped.0.isn)
        × (finish.receiver_window_size ≡ looped.0.receiver_window_size)
    unfolding stop_if_done reset_timer
    finish-same = ground arith

    finish-timer :
        (finish.consecutive_retransmissions
          ≡ (if looped.1 then 0 else looped.0.consecutive_retransmissions))
        × (finish.retransmission_timer.rto ≡ (
            if looped.1
            then looped.0.initial_retransmission_timeout
            else looped.0.retransmission_timer.rto))
        × (finish.retransmission_timer.accumulate_time
            ≡ (if looped.1 then 0 else looped.0.retransmission_timer.accumulate_time))
    unfolding stop_if_done reset_timer stop_timer set_timeout set_accumulate_time
    finish-timer = ground arith

    finish-Tracks : Tracks finish
    finish-Tracks = record {
      chain =
          Chain-moved (sym (acked.isn) ∙ sym finish-same.3) (sym finish-same.1) (sym finish-same.0)
            (sym acked.next ∙ sym finish-same.2) acked.chain;
      flight = omega (arith, v.flight, acked.grows, acked.next, finish-same);
      numbers = omega (arith, v.numbers, acked.next, finish-same);
      word =
          subst (λ (i : WrappingInt32). i.raw_value < 2 ^ 32) (sym acked.isn ∙ sym finish-same.3)
            v.word;
    }

    finish-in_flight : bytes_in_flight finish ≡ occupied finish.outstanding_segments
    finish-in_flight =
        let t = finish-Tracks in
        omega (
          arith,
          Chain-occupied finish.isn finish.receiver_ack finish.outstanding_segments
              finish.next_seqno t.chain,
          t.numbers,
        )

    kept :
        (looped.0.receiver_window_size ≡ window)
        × (looped.0.consecutive_retransmissions ≡ s.consecutive_retransmissions)
        × (looped.0.initial_retransmission_timeout ≡ s.initial_retransmission_timeout)
        × (looped.0.retransmission_timer ≡ s.retransmission_timer)
    unfolding looped
    kept = ack_loop-same s.outstanding_segments (record s { receiver_window_size = window }) n false

    updated : looped.1 ≡ ltb s.receiver_ack finish.receiver_ack
    updated = ground (arith, acked.flag, finish-same)

    finish-Takes : Takes s n window finish
    finish-Takes = record {
      popped = acked.popped;
      split = acked.split ∙ ap (λ zs. acked.popped ++ zs) (sym finish-same.0);
      tracks = finish-Tracks;
      grows = omega (arith, acked.grows, finish-same);
      below = omega (arith, acked.below low, finish-same);
      pending =
          subst (λ zs. IsPending finish.receiver_ack n zs) (sym finish-same.0)
            (subst (λ (k : ℕ). IsPending k n looped.0.outstanding_segments) (sym finish-same.1)
              acked.pending);
      window_kept = finish-same.4 ∙ kept.0;
      retransmissions = ground (arith, finish-timer, updated, kept);
      timeout = ground (arith, finish-timer, updated, kept);
      elapsed = ground (arith, finish-timer, updated, kept);
      in_flight = finish-in_flight;
    }

    -- An acknowledgment of what was sent and is not acknowledged yet, with the outstanding segments
    -- numbered without gap and less than 2 ^ 31 numbers in flight: exactly the segments that lie below
    -- it as a whole leave the queue from the front, the rest are still numbered without gap from the
    -- acknowledged number on, and `bytes_in_flight` counts the numbers that they occupy. Progress sets
    -- the timeout back to its initial value, and the elapsed time and the count of retransmissions to 0;
    -- without progress they stay. The window size is recorded either way.
    pub ack_received-Takes : Takes s n window (ack_received s ackno window)
    ack_received-Takes = subst (Takes s n window) (sym ack_received-finish) finish-Takes

-- `fill_window` keeps the outstanding segments numbered without gap from the acknowledged number on,
-- where no more is in flight than the window takes and the next number lies at least 2 ^ 16 below 2 ^ 62.
pub fill_window-Tracks :
    (s : TcpSender)
    → Tracks s
    → IsSound s
    → bytes_in_flight s ≤ usable_window s
    → s.next_seqno < 2 ^ 62 - 2 ^ 16
    → Tracks (fill_window s)
fill_window-Tracks s t v fits small =
    let f = fill_window-Filled s v in
    record {
      chain = Chain-moved (sym f.sends.isn) (sym f.sends.ack) (sym f.sends.kept) refl (
          Chain-append s.isn s.receiver_ack s.outstanding_segments f.segs s.next_seqno
            (fill_window s).next_seqno t.chain f.sends.chain);
      flight = ground (arith, fill_window_fits s v fits, f.sound.acked, f.sound.numbers, v.window);
      numbers =
          ground (
            arith,
            fill_window_fits s v fits,
            f.sound.acked,
            f.sound.numbers,
            f.sends.ack,
            v.window,
          );
      word = f.sound.word;
    }
