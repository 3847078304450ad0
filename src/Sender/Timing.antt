-- ===== src/Sender/Timing.antt =====
-- The retransmission timer of libsponge/tcp_sender.cc runs exactly while segments are outstanding, so
-- that `tick` never takes the front of an empty queue.
use cs144_2021_sponge.Prelude.{
  ◌+◌, ℕ, ◌≡◌, refl, ◌∙◌, Bool, true, false, not, Option, none, some, List, [], ◌∷◌, ◌++◌,
  Bool-cases, inl, inr, arith, add64,
}
use cs144_2021_sponge.ByteStream as Stream
use cs144_2021_sponge.ByteStream.{buffer_size}
use cs144_2021_sponge.Wrapping.{WrappingInt32, unwrap}
use cs144_2021_sponge.Segment.{TcpSegment, length_in_sequence_space}
use cs144_2021_sponge.Sender.Cases.{made, fill_once_cases, fill_loop_induction}
use cs144_2021_sponge.Timer as Timer
use cs144_2021_sponge.Timer.{
  RetransmissionTimer, start_timer, stop_timer, handle_timeout, check_timeout, set_timeout,
  set_accumulate_time,
}
use cs144_2021_sponge.Sender.{
  TcpSender, new, make_payload, add_fin, enqueue, fill_once, fill_window, ack_loop, is_empty,
  stop_if_done, reset_timer, ack_received, retransmit, tick, send_empty_segment,
}

abbrev pub TimerRuns : TcpSender → Type 0
TimerRuns s = s.retransmission_timer.is_running ≡ not (is_empty s.outstanding_segments)

is_empty-snoc : (segs : List TcpSegment) (seg : TcpSegment) → is_empty (segs ++ (seg ∷ [])) ≡ false
is_empty-snoc [] seg = refl
is_empty-snoc (x ∷ segs) seg = refl

enqueue-TimerRuns : (s : TcpSender) (seg : TcpSegment) → TimerRuns (enqueue s seg)
unfolding enqueue start_timer
enqueue-TimerRuns s seg = ground (arith, is_empty-snoc s.outstanding_segments seg)

made-TimerRuns : (s : TcpSender) → TimerRuns s → TimerRuns (made s).0
unfolding add_fin make_payload
made-TimerRuns s v = ground arith

fill_once-TimerRuns : (s : TcpSender) → TimerRuns s → TimerRuns (fill_once s).0
fill_once-TimerRuns s v =
    fill_once_cases (λ out. TimerRuns out.0) s (λ _. v) (λ _ _. enqueue-TimerRuns _ _)
      (λ _ _ _ _. made-TimerRuns s v) (λ _ _ _. enqueue-TimerRuns _ _)

pub fill_window-TimerRuns : (s : TcpSender) → TimerRuns s → TimerRuns (fill_window s)
unfolding fill_window
fill_window-TimerRuns s v =
    fill_loop_induction TimerRuns fill_once-TimerRuns (buffer_size s.stream + 3) s v

ack_loop-timer :
    (s : TcpSender) (n : ℕ) (segs : List TcpSegment) (b : Bool)
    → (ack_loop s n segs b).0.retransmission_timer ≡ s.retransmission_timer
unfolding ack_loop
ack_loop-timer s n [] b = refl
ack_loop-timer s n (seg ∷ segs) b =
    let end = add64 (unwrap seg.header.seqno s.isn s.next_seqno) (length_in_sequence_space seg) in
    ground (arith, ack_loop-timer (record s { receiver_ack = end }) n segs true)

-- The loop leaves nothing outstanding where nothing was.
ack_loop-empty :
    (s : TcpSender) (n : ℕ) (segs : List TcpSegment) (b : Bool)
    → is_empty segs ≡ true
    → is_empty (ack_loop s n segs b).0.outstanding_segments ≡ true
unfolding ack_loop
ack_loop-empty s n [] b h = refl
ack_loop-empty s n (seg ∷ segs) b h = cc

pub ack_received-TimerRuns :
    (s : TcpSender) (ackno : WrappingInt32) (window : ℕ)
    → TimerRuns s
    → TimerRuns (ack_received s ackno window)
unfolding ack_received stop_if_done stop_timer reset_timer set_timeout set_accumulate_time
ack_received-TimerRuns s ackno window v =
    let s' = record s { receiver_window_size = window } in
    let n = unwrap ackno s.isn s.next_seqno in
    ground (
      arith,
      ack_loop-timer s' n s.outstanding_segments false,
      ack_loop-empty s' n s.outstanding_segments false,
    )

retransmit-TimerRuns :
    (s s' : TcpSender) (segs : List TcpSegment)
    → TimerRuns s
    → retransmit s segs ≡ some s'
    → TimerRuns s'
unfolding retransmit reset_timer handle_timeout set_timeout set_accumulate_time
retransmit-TimerRuns s s' [] v e = cc
retransmit-TimerRuns s s' (seg ∷ segs) v e = ground arith

retransmit-some :
    (s : TcpSender) (segs : List TcpSegment)
    → is_empty segs ≡ false
    → (s' : TcpSender) × (retransmit s segs ≡ some s')
unfolding retransmit
retransmit-some s [] h = cc
retransmit-some s (seg ∷ segs) h = (_, refl)

check_timeout-running :
    (t : RetransmissionTimer) (ms : ℕ)
    → ((check_timeout t ms).0.is_running ≡ t.is_running)
      × ((check_timeout t ms).1 ≡ true → t.is_running ≡ true)
unfolding check_timeout
check_timeout-running t ms = (ground arith, ground arith)

-- A timeout comes only while something is outstanding, so the retransmission finds a segment.
pub tick_defined :
    (s : TcpSender) (ms : ℕ) → TimerRuns s → (s' : TcpSender) × (tick s ms ≡ some s') × TimerRuns s'
unfolding tick
tick_defined s ms v = elim (Bool-cases (check_timeout s.retransmission_timer ms).1) [
  | inl late ↦
      let full : is_empty s.outstanding_segments ≡ false = ground (arith, running.1 late) in
      let (s', e) = retransmit-some ticked s.outstanding_segments full in
      (s', rw late e, retransmit-TimerRuns ticked s' s.outstanding_segments (running.0 ∙ v) e)
  | inr early ↦ (ticked, rw early, running.0 ∙ v)
]
  where
    ticked : TcpSender
    ticked = record s { retransmission_timer = (check_timeout s.retransmission_timer ms).0 }

    running :
        ((check_timeout s.retransmission_timer ms).0.is_running ≡ s.retransmission_timer.is_running)
        × ((check_timeout s.retransmission_timer ms).1 ≡ true
            → s.retransmission_timer.is_running ≡ true)
    running = check_timeout-running s.retransmission_timer ms

-- What the owner of a sender calls, the writer of its stream included.
pub data Call : Type 0 where
  acks : WrappingInt32 → ℕ → Call
  ticks : ℕ → Call
  fills empties ends : Call
  writes : List ℕ → Call

-- A call on the sender; `none` is undefined behaviour.
unfoldable pub call : TcpSender → Call → Option TcpSender
call s (acks ackno window) = some (ack_received s ackno window)
call s (ticks ms) = tick s ms
call s fills = some (fill_window s)
call s empties = some (send_empty_segment s)
call s ends = some (record s { stream = Stream.end_input s.stream })
call s (writes xs) = some (record s { stream = (Stream.write s.stream xs).0 })

unfoldable pub run : TcpSender → List Call → Option TcpSender
run s [] = some s
run s (c ∷ cs) = elim (call s c) [ none ↦ none | some s' ↦ run s' cs ]

call_defined :
    (s : TcpSender) (c : Call)
    → TimerRuns s
    → (s' : TcpSender) × (call s c ≡ some s') × TimerRuns s'
unfolding call fill_window send_empty_segment
call_defined s (acks ackno window) v = (_, refl, ack_received-TimerRuns s ackno window v)
call_defined s (ticks ms) v = tick_defined s ms v
call_defined s fills v = (_, refl, fill_window-TimerRuns s v)
call_defined s empties v = (_, refl, v)
call_defined s ends v = (_, refl, v)
call_defined s (writes xs) v = (_, refl, v)

run_defined :
    (cs : List Call) (s : TcpSender)
    → TimerRuns s
    → (s' : TcpSender) × (run s cs ≡ some s') × TimerRuns s'
unfolding run
run_defined [] s v = (s, refl, v)
run_defined (c ∷ cs) s v =
    let (t, e, w) = call_defined s c v in
    let (s', e', w') = run_defined cs t w in (s', rw (e, run) e', w')

-- From a new sender, no sequence of calls and stream writes reaches the front of an empty queue in
-- `tick`, and after any of them the timer runs exactly if some segment is outstanding.
pub always_defined :
    (capacity retx_timeout : ℕ) (fixed_isn : Option WrappingInt32) (random : WrappingInt32)
    (cs : List Call)
    → (s' : TcpSender) × (run (new capacity retx_timeout fixed_isn random) cs ≡ some s')
      × TimerRuns s'
unfolding new Timer.new
always_defined capacity retx_timeout fixed_isn random cs = run_defined cs _ refl
