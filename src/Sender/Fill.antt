-- ===== src/Sender/Fill.antt =====
-- `fill_window` of libsponge/tcp_sender.cc: it ends, and it leaves nothing to send that the window
-- would take.
use cs144_2021_sponge.Prelude.{
  ℕ, zero, suc, ◌+◌, ◌<◌, Bool, List, ◌++◌, Bool-cases, inl, inr, arith,
}
use cs144_2021_sponge.ByteStream.{buffer_size}
use cs144_2021_sponge.Segment.{TcpSegment}
use cs144_2021_sponge.Sender.{
  TcpSender, fill_once, fill_loop, fill_window, usable_window, window_not_full,
}
use cs144_2021_sponge.Sender.Sending.{IsSound, Sends, Sends-trans, remaining}
use cs144_2021_sponge.Sender.Round.{IsDone, Step, fill_once-Step}

-- What `fill_window` has done when it returns.
pub record Filled (s s' : TcpSender) : Type 0 where
  pub segs : List TcpSegment
  pub sends : Sends s s' segs
  pub sound : IsSound s'
  pub done : IsDone s'

Filled_next : {s u : TcpSender} {out : TcpSender × Bool} → Step s out → Filled out.0 u → Filled s u
Filled_next a b = record {
  segs = a.segs ++ b.segs;
  sends = Sends-trans a.sends b.sends;
  sound = b.sound;
  done = b.done;
}

fill_loop-Filled :
    (fuel : ℕ) (s : TcpSender) → remaining s < fuel → IsSound s → Filled s (fill_loop fuel s)
unfolding fill_loop
fill_loop-Filled zero s h v = absurd (omega arith)
fill_loop-Filled (suc fuel) s h v = elim (Bool-cases ((fill_once s).1)) [
  | inr quiet ↦
      rw quiet (record {
        segs = step.segs;
        sends = step.sends;
        sound = step.sound;
        done = step.stuck quiet;
      })
  | inl sent ↦ elim (Bool-cases (window_not_full (fill_once s).0 (usable_window s))) [
    | inr full ↦
        rw (sent, full)
          (record {
            segs = step.segs;
            sends = step.sends;
            sound = step.sound;
            done = inr (inl (ground (arith, step.sends.window, full)));
          })
    | inl more ↦
        rw (sent, more)
          (Filled_next step
            (fill_loop-Filled fuel (fill_once s).0 (omega (arith, step.shrinks sent)) step.sound))
  ]
]
  where
    step : Step s (fill_once s)
    step = fill_once-Step s v

-- `fill_window` ends, and then the FIN is sent, or the receiver's window is full, or the stream is
-- empty and not ended. The segments that it sent continue the sequence numbers without a gap from
-- `next_seqno` on, carry exactly the bytes that left the stream, at most 1452 each, and are queued
-- for sending and for acknowledgment in that order; window and acknowledgment are as before. The
-- numbers to come must stay below 2 ^ 64.
pub fill_window-Filled : (s : TcpSender) → IsSound s → Filled s (fill_window s)
unfolding fill_window
fill_window-Filled s v = fill_loop-Filled (buffer_size s.stream + 3) s (ground arith) v
