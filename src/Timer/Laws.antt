-- ===== src/Timer/Laws.antt =====
-- When the timer of libsponge/retransmission_timer.cc goes off, and how it backs off.
use cs144_2021_sponge.Prelude.{
  ℕ, zero, suc, ◌+◌, ◌*◌, ◌%◌, ◌^◌, ◌≤◌, ◌<◌, ◌≡◌, refl, sym, ap, ◌∙◌, Bool, true, false, List, [],
  ◌∷◌, leb, arith, add64,
}
use native.Mathlib.Nat.{pow-suc}
use cs144_2021_sponge.Timer.{RetransmissionTimer, start_timer, handle_timeout, check_timeout}

-- The total of a list of intervals.
unfoldable pub total : List ℕ → ℕ
total [] = 0
total (m ∷ ms) = m + total ms

-- The ticks one after another, and what the last of them answered.
unfoldable pub check_all : RetransmissionTimer → Bool → List ℕ → RetransmissionTimer × Bool
check_all t last [] = (t, last)
check_all t last (m ∷ ms) = let (t', late) = check_timeout t m in check_all t' late ms

check_timeout_on :
    (t : RetransmissionTimer) (m : ℕ)
    → t.is_running ≡ true
    → check_timeout t m ≡ (
      record t { accumulate_time = add64 t.accumulate_time m },
      leb t.rto (add64 t.accumulate_time m),
    )
unfolding check_timeout
check_timeout_on t m on = ground arith

check_all-running :
    (ms : List ℕ) (t : RetransmissionTimer) (last : Bool)
    → t.is_running ≡ true
    → t.accumulate_time + total ms < 2 ^ 64
    → last ≡ leb t.rto t.accumulate_time
    → (check_all t last ms).1 ≡ leb t.rto (t.accumulate_time + total ms)
unfolding check_all total
check_all-running [] t last on small e = ground arith
check_all-running (m ∷ ms) t last on small e =
    let exact : add64 t.accumulate_time m + total ms ≡ t.accumulate_time + (m + total ms) =
      omega arith in
    rw (check_timeout_on t m on, check_all)
      (check_all-running ms (record t { accumulate_time = add64 t.accumulate_time m })
          (leb t.rto (add64 t.accumulate_time m)) on (omega arith) refl
        ∙ ap (λ (k : ℕ). leb t.rto k) exact)

start_timer_off :
    (t : RetransmissionTimer)
    → t.is_running ≡ false
    → start_timer t ≡ record t { is_running = true; rto = t.init_rto; accumulate_time = 0 }
unfolding start_timer
start_timer_off t off = ground arith

-- A stopped timer with a positive initial timeout that is started and then ticked: the last tick
-- reports a timeout exactly when the ticks since the start add up to the initial timeout, as long as
-- their total stays below 2 ^ 64. What the timer had accumulated or backed off to before does not
-- count.
pub expiry :
    (t : RetransmissionTimer) (ms : List ℕ)
    → t.is_running ≡ false
    → 0 < t.init_rto
    → total ms < 2 ^ 64
    → (check_all (start_timer t) false ms).1 ≡ leb t.init_rto (total ms)
expiry t ms off pos small = rw (start_timer_off t off) (
    check_all-running ms (record t { is_running = true; rto = t.init_rto; accumulate_time = 0 })
      false refl (omega arith) (ground arith)
    ∙ ap (λ (k : ℕ). leb t.init_rto k) (omega arith))

unfoldable pub handle_timeouts : ℕ → RetransmissionTimer → RetransmissionTimer
handle_timeouts zero t = t
handle_timeouts (suc n) t = handle_timeouts n (handle_timeout t)

pow_pos : (n : ℕ) → 0 < 2 ^ n
pow_pos zero = omega arith
pow_pos (suc n) = rw pow-suc (omega (arith, pow_pos n))

-- One doubling, where the product of all of them does not wrap.
double_exact :
    (r p : ℕ) → 0 < p → r * (p * 2) < 2 ^ 64 → (r * 2 % 2 ^ 64 ≡ r * 2) × (r * 2 * p ≡ r * (p * 2))
double_exact r p pos small =
    let le : r * 2 ≤ r * 2 * p = grind arith in
    let e : r * 2 * p ≡ r * (p * 2) = omega arith in (omega arith, e)

-- `n` timeouts in a row multiply the timeout by 2 ^ n, as long as the result stays below 2 ^ 64.
pub backoff :
    (n : ℕ) (t : RetransmissionTimer)
    → t.rto * 2 ^ n < 2 ^ 64
    → (handle_timeouts n t).rto ≡ t.rto * 2 ^ n
unfolding handle_timeouts handle_timeout
backoff zero t small = omega arith
backoff (suc n) t small =
    let (exact, e) = double_exact t.rto (2 ^ n) (pow_pos n) (rw pow-suc at small) in
    let step : t.rto * 2 % 2 ^ 64 * 2 ^ n ≡ t.rto * 2 ^ suc n =
      ap (λ (k : ℕ). k * 2 ^ n) exact ∙ e ∙ ap (λ (k : ℕ). t.rto * k) (sym (pow-suc 2 n)) in
    backoff n (handle_timeout t) (omega arith) ∙ step
