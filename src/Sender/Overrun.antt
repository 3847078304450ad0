-- ===== src/Sender/Overrun.antt =====
-- The receiver's window and `fill_window` of libsponge/tcp_sender.cc: kept, when it was kept before, and
-- overrun without bound, when it was not.
use cs144_2021_sponge.Prelude.{
  ℕ, zero, suc, ◌+◌, ◌≤◌, ◌≡◌, sym, ap, subst, Bool, true, false, ◌&&◌, ◌==◌, min, if◌then◌else◌,
  Bool-cases, inl, inr, arith,
}
use cs144_2021_sponge.ByteStream.{buffer_size}
use cs144_2021_sponge.Config.{max_payload_size}
use cs144_2021_sponge.Sender.{
  TcpSender, make_syn, enqueue, fill_once, fill_loop, fill_window, usable_window, bytes_in_flight,
  window_not_full,
}
use cs144_2021_sponge.Sender.Cases.{made, fill_once_cases}
use cs144_2021_sponge.Sender.Sending.{IsSound}
use cs144_2021_sponge.Sender.Round.{fill_once-Step}
use cs144_2021_sponge.Sender.Made.{size-le-room, made-same, length-made, made-next, made-fin}

abbrev pub Fits : TcpSender → ℕ → Type 0
Fits s window = bytes_in_flight s ≤ window

made-Fits :
    (s : TcpSender)
    → IsSound s
    → s.set_fin_flag ≡ false
    → Fits s (usable_window s)
    → Fits (made s).0 (usable_window s)
made-Fits s v e fits = ground (
  arith,
  made-same s,
  made-next s e v,
  length-made s e v,
  made-fin s e v,
  size-le-room s,
  v.numbers,
  v.acked,
  v.window,
)

fill_once-Fits :
    (s : TcpSender) → IsSound s → Fits s (usable_window s) → Fits (fill_once s).0 (usable_window s)
unfolding enqueue make_syn
fill_once-Fits s v fits =
    fill_once_cases (λ out. Fits out.0 (usable_window s)) s (λ _. fits)
      (λ e z. ground (arith, v.acked)) (λ e pos unfinished empty. made-Fits s v e fits)
      (λ e pos sent. made-Fits s v e fits)

fill_loop-Fits :
    (fuel : ℕ) (s : TcpSender)
    → IsSound s
    → Fits s (usable_window s)
    → Fits (fill_loop fuel s) (usable_window s)
unfolding fill_loop
fill_loop-Fits zero s v fits = fits
fill_loop-Fits (suc fuel) s v fits =
    let step = fill_once-Step s v in
    let fits' = fill_once-Fits s v fits in
    let same : usable_window (fill_once s).0 ≡ usable_window s =
      ap (λ (w : ℕ). if w == 0 then 1 else w) step.sends.window in
    let rest =
      subst (λ (w : ℕ). Fits (fill_loop fuel (fill_once s).0) w) same
        (fill_loop-Fits fuel (fill_once s).0 step.sound
          (subst (λ (w : ℕ). Fits (fill_once s).0 w) (sym same) fits')) in
    elim (Bool-cases ((fill_once s).1 && window_not_full (fill_once s).0 (usable_window s))) [
      | inl more ↦ rw more rest
      | inr done ↦ rw done fits'
    ]

-- Where no more is in flight than the receiver's window takes, an empty window counting as one byte,
-- the same holds after `fill_window`. The numbers to come must stay below 2 ^ 64.
pub fill_window_fits :
    (s : TcpSender)
    → IsSound s
    → bytes_in_flight s ≤ usable_window s
    → bytes_in_flight (fill_window s) ≤ usable_window s
unfolding fill_window
fill_window_fits s v fits = fill_loop-Fits (buffer_size s.stream + 3) s v fits

-- A segment with as much payload as there is, or as fits, is sent, whatever the window.
abbrev Overruns : TcpSender → TcpSender × Bool → Type 0
Overruns s out =
    (out.1 ≡ true)
    × (bytes_in_flight s + min max_payload_size (buffer_size s.stream) ≤ bytes_in_flight out.0)
