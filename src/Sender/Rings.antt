-- ===== src/Sender/Rings.antt =====
-- The retransmission timer of libsponge/tcp_sender.cc can always ring: its timeout stays a 64-bit number,
-- and while a segment is outstanding some call of `tick` sends the oldest again.
use cs144_2021_sponge.Prelude.{
  ℕ, ◌+◌, ◌-◌, ◌%◌, ◌^◌, ◌<◌, ◌≡◌, refl, sym, subst, ap, ◌∙◌, true, false, not, some, List, [], ◌∷◌,
  ◌++◌, Bool-cases, inl, inr, arith,
}
use mathlib.Core.Option.{some-injective}
use cs144_2021_sponge.ByteStream.{buffer_size}
use cs144_2021_sponge.Wrapping.{WrappingInt32, unwrap}
use cs144_2021_sponge.Segment.{TcpSegment}
use cs144_2021_sponge.Timer as Timer
use cs144_2021_sponge.Timer.{
  RetransmissionTimer, start_timer, stop_timer, handle_timeout, check_timeout, set_timeout,
  set_accumulate_time,
}
use cs144_2021_sponge.Sender.{
  TcpSender, new, make_syn, make_payload, add_fin, enqueue, fill_once, fill_window, is_empty,
  stop_if_done, reset_timer, ack_received, retransmit, tick, send_empty_segment,
}
use cs144_2021_sponge.Sender.Cases.{made, fill_once_cases, fill_loop_induction}
use cs144_2021_sponge.Sender.Acks.{ack_loop-same}
use cs144_2021_sponge.Sender.Timing.{
  TimerRuns, fill_window-TimerRuns, ack_received-TimerRuns, tick_defined,
}

pub record Words (x : TcpSender) : Type 0 where
  pub rto : x.retransmission_timer.rto < 2 ^ 64
  pub init_rto : x.retransmission_timer.init_rto < 2 ^ 64
  pub initial : x.initial_retransmission_timeout < 2 ^ 64

enqueue-Words : (x : TcpSender) (seg : TcpSegment) → Words x → Words (enqueue x seg)
unfolding enqueue start_timer
enqueue-Words x seg v = record {
  rto = ground (arith, v.rto, v.init_rto);
  init_rto = ground (arith, v.init_rto);
  initial = v.initial;
}

made-Words : (x : TcpSender) → Words x → Words (made x).0
unfolding add_fin make_payload
made-Words x v = record {
  rto = ground (arith, v.rto);
  init_rto = ground (arith, v.init_rto);
  initial = ground (arith, v.initial);
}

syn-Words : (x : TcpSender) → Words x → Words (make_syn x).0
unfolding make_syn
syn-Words x v = record { rto = v.rto; init_rto = v.init_rto; initial = v.initial }

fill_once-Words : (x : TcpSender) → Words x → Words (fill_once x).0
fill_once-Words x v =
    fill_once_cases (λ out. Words out.0) x (λ _. v) (λ _ _. enqueue-Words _ _ (syn-Words x v))
      (λ _ _ _ _. made-Words x v) (λ _ _ _. enqueue-Words _ _ (made-Words x v))

fill_window-Words : (x : TcpSender) → Words x → Words (fill_window x)
unfolding fill_window
fill_window-Words x v = fill_loop_induction Words fill_once-Words (buffer_size x.stream + 3) x v

ack_received-Words :
    (x : TcpSender) (a : WrappingInt32) (window : ℕ) → Words x → Words (ack_received x a window)
unfolding ack_received stop_if_done stop_timer reset_timer set_timeout set_accumulate_time
ack_received-Words x a window v =
    let k =
      ack_loop-same x.outstanding_segments (record x { receiver_window_size = window })
        (unwrap a x.isn x.next_seqno) false in
    record {
      rto = ground (arith, k, v.rto, v.initial);
      init_rto = ground (arith, k, v.init_rto);
      initial = ground (arith, k, v.initial);
    }

retransmit-Words :
    (x y : TcpSender) (segs : List TcpSegment) → Words x → retransmit x segs ≡ some y → Words y
unfolding retransmit reset_timer handle_timeout set_timeout set_accumulate_time
retransmit-Words x y [] v e = cc
retransmit-Words x y (seg ∷ segs) v e = record {
  rto = ground (arith, v.rto, v.initial, e);
  init_rto = ground (arith, v.init_rto, e);
  initial = ground (arith, v.initial, e);
}

ticked-Words :
    (x : TcpSender) (ms : ℕ)
    → Words x
    → Words (record x { retransmission_timer = (check_timeout x.retransmission_timer ms).0 })
unfolding check_timeout
ticked-Words x ms v = record {
  rto = ground (arith, v.rto);
  init_rto = ground (arith, v.init_rto);
  initial = v.initial;
}

tick-Words : (x y : TcpSender) (ms : ℕ) → Words x → tick x ms ≡ some y → Words y
unfolding tick
tick-Words x y ms v e = elim (Bool-cases (check_timeout x.retransmission_timer ms).1) [
  | inl late ↦
      retransmit-Words _ y x.outstanding_segments (ticked-Words x ms v) (ground (arith, late, e))
  | inr early ↦
      let same : record x { retransmission_timer = (check_timeout x.retransmission_timer ms).0 }
          ≡ y =
        ground (arith, early, e) in
      subst Words same (ticked-Words x ms v)
]

-- The timer runs exactly while something is outstanding, and its timeout is a 64-bit number.
pub record Rings (x : TcpSender) : Type 0 where
  pub runs : TimerRuns x
  pub words : Words x

pub new-Rings :
    (cap timeout : ℕ) (isn : WrappingInt32)
    → timeout < 2 ^ 64
    → Rings (new cap timeout (some isn) isn)
unfolding new Timer.new
new-Rings cap timeout isn h = record {
  runs = refl;
  words = record { rto = h; init_rto = h; initial = h };
}

pub fill_window-Rings : (x : TcpSender) → Rings x → Rings (fill_window x)
fill_window-Rings x v = record {
  runs = fill_window-TimerRuns x v.runs;
  words = fill_window-Words x v.words;
}

pub ack_received-Rings :
    (x : TcpSender) (a : WrappingInt32) (window : ℕ) → Rings x → Rings (ack_received x a window)
ack_received-Rings x a window v = record {
  runs = ack_received-TimerRuns x a window v.runs;
  words = ack_received-Words x a window v.words;
}

pub tick-Rings : (x y : TcpSender) (ms : ℕ) → Rings x → tick x ms ≡ some y → Rings y
tick-Rings x y ms v e =
    let (z, f, runs) = tick_defined x ms v.runs in
    record {
      runs = subst TimerRuns (some-injective _ _ (sym f ∙ e)) runs;
      words = tick-Words x y ms v.words e;
    }

pub send_empty_segment-Rings : (x : TcpSender) → Rings x → Rings (send_empty_segment x)
unfolding send_empty_segment
send_empty_segment-Rings x v = record {
  runs = v.runs;
  words = record { rto = v.words.rto; init_rto = v.words.init_rto; initial = v.words.initial };
}

-- The clock goes to its last tick before it wraps.
abbrev to_the_end : TcpSender → ℕ
to_the_end x = 2 ^ 64 - 1 - x.retransmission_timer.accumulate_time % 2 ^ 64

expires :
    (x : TcpSender)
    → x.retransmission_timer.is_running ≡ true
    → Words x
    → (check_timeout x.retransmission_timer (to_the_end x)).1 ≡ true
unfolding check_timeout
expires x runs v = ground (arith, runs, v.rto)

retransmit-front :
    (x : TcpSender) (seg : TcpSegment) (segs : List TcpSegment)
    → (y : TcpSender) × (retransmit x (seg ∷ segs) ≡ some y)
      × (y.segments_out ≡ x.segments_out ++ (seg ∷ []))
unfolding retransmit reset_timer
retransmit-front x seg segs = (_, refl, ground arith)

-- While a segment is outstanding, time passes in one call of `tick` so that the oldest is sent again.
pub tick_resends :
    (x : TcpSender) (seg : TcpSegment) (segs : List TcpSegment)
    → Rings x
    → x.outstanding_segments ≡ seg ∷ segs
    → (ms : ℕ) × (ms < 2 ^ 64)
      × (y : TcpSender) × (tick x ms ≡ some y)
      × (y.segments_out ≡ x.segments_out ++ (seg ∷ []))
unfolding tick
tick_resends x seg segs v e =
    let runs : x.retransmission_timer.is_running ≡ true = v.runs ∙ ap (λ q. not (is_empty q)) e in
    let late = expires x runs v.words in
    let (y, r, out) =
      retransmit-front
        (record x {
          retransmission_timer = (check_timeout x.retransmission_timer (to_the_end x)).0;
        })
        seg segs in
    (to_the_end x, omega arith, y, ground (arith, late, e, r), out)
