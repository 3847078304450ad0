-- ===== src/Timer/Tests.antt =====
-- The instance of the theorem on the timer.
use cs144_2021_sponge.Prelude.{◌≡◌, refl, false, [], ◌∷◌, leb, arith}
use cs144_2021_sponge.Timer.{RetransmissionTimer, start_timer}
use cs144_2021_sponge.Timer.Laws.{total, check_all, expiry}

-- Stopped after two timeouts.
abbrev stopped : RetransmissionTimer
stopped = record { is_running = false; accumulate_time = 7; rto = 4000; init_rto = 1000 }

expiry_example :
    (check_all (start_timer stopped) false (600 ∷ 400 ∷ [])).1 ≡ leb 1000 (total (600 ∷ 400 ∷ []))
unfolding total
expiry_example = expiry stopped (600 ∷ 400 ∷ []) refl (omega arith) (omega arith)
