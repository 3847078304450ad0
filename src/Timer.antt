-- ===== src/Timer.antt =====
-- libsponge/retransmission_timer.hh and retransmission_timer.cc.
pub mod Laws
mod Tests
use cs144_2021_sponge.Prelude.{ℕ, ◌*◌, ◌%◌, ◌^◌, Bool, true, false, leb, if◌then◌else◌, add64}

-- The members of `RetransmissionTimer`.
pub record RetransmissionTimer : Type 0 where
  pub is_running : Bool
  pub accumulate_time : ℕ
  pub rto : ℕ
  pub init_rto : ℕ

unfoldable pub new : ℕ → RetransmissionTimer
new retx_timeout = record {
  is_running = false;
  accumulate_time = 0;
  rto = retx_timeout;
  init_rto = retx_timeout;
}

unfoldable pub start_timer : RetransmissionTimer → RetransmissionTimer
start_timer t =
    if t.is_running
    then t
    else record t { is_running = true; rto = t.init_rto; accumulate_time = 0 }

unfoldable pub stop_timer : RetransmissionTimer → RetransmissionTimer
stop_timer t = if t.is_running then record t { is_running = false } else t

unfoldable pub handle_timeout : RetransmissionTimer → RetransmissionTimer
handle_timeout t = record t { rto = t.rto * 2 % 2 ^ 64; accumulate_time = 0 }

unfoldable pub check_timeout : RetransmissionTimer → ℕ → RetransmissionTimer × Bool
check_timeout t ms_since_last_tick =
    let time = add64 t.accumulate_time ms_since_last_tick in
    if t.is_running then (record t { accumulate_time = time }, leb t.rto time) else (t, false)

unfoldable pub set_timeout : RetransmissionTimer → ℕ → RetransmissionTimer
set_timeout t rto_time = record t { rto = rto_time }

unfoldable pub set_accumulate_time : RetransmissionTimer → ℕ → RetransmissionTimer
set_accumulate_time t time = record t { accumulate_time = time }
