-- ===== src/Wrapping/Laws.antt =====
-- What `wrap`, `unwrap` and the step operators promise, and where `unwrap` breaks the promise.
use cs144_2021_sponge.Prelude.{ℕ, ◌+◌, ◌-◌, ◌^◌, ◌≤◌, ◌<◌, ◌≡◌, ap, true, arith, distance, add64}
use cs144_2021_sponge.Wrapping.{WrappingInt32, wrap, unwrap, plus, minus, is_equal}

module _ (n isn : WrappingInt32) (checkpoint : ℕ) (n_word : n.raw_value < 2 ^ 32)
    (isn_word : isn.raw_value < 2 ^ 32) where
  -- For a checkpoint below 2 ^ 63 - 2 ^ 31, `unwrap` returns a 64-bit number that `wrap` takes back
  -- to `n`.
  pub wrap-unwrap :
      checkpoint < 2 ^ 63 - 2 ^ 31
      → (wrap (unwrap n isn checkpoint) isn ≡ n) × (unwrap n isn checkpoint < 2 ^ 64)
  unfolding wrap unwrap
  wrap-unwrap h = ground arith

  -- For a checkpoint below 2 ^ 63 - 2 ^ 31, no absolute sequence number that wraps to `n` is closer
  -- to the checkpoint than the one that `unwrap` returns.
  pub unwrap_closest :
      (x : ℕ)
      → checkpoint < 2 ^ 63 - 2 ^ 31
      → wrap x isn ≡ n
      → distance (unwrap n isn checkpoint) checkpoint ≤ distance x checkpoint
  unfolding wrap unwrap
  unwrap_closest x h e = ground (arith, ap (λ (w : WrappingInt32). w.raw_value) e)

module _ (x : ℕ) (isn : WrappingInt32) (checkpoint : ℕ) (isn_word : isn.raw_value < 2 ^ 32)
    (near : distance x checkpoint < 2 ^ 31) where
  -- An absolute sequence number below 2 ^ 63 survives `wrap` and `unwrap` with any checkpoint less
  -- than 2 ^ 31 away from it.
  pub unwrap-wrap : x < 2 ^ 63 → unwrap (wrap x isn) isn checkpoint ≡ x
  unfolding wrap unwrap
  unwrap-wrap h = ground arith

  -- From 2 ^ 63 up to 2 ^ 64 - 2 ^ 32 the round trip fails for every number and every checkpoint
  -- near it: `unwrap` takes the sign bit of the 64-bit sum for a negative result and returns the
  -- number that is 2 ^ 32 too high.
  pub unwrap-wrap_high :
      2 ^ 63 ≤ x → x < 2 ^ 64 - 2 ^ 32 → unwrap (wrap x isn) isn checkpoint ≡ x + 2 ^ 32
  unfolding wrap unwrap
  unwrap-wrap_high low high = ground arith

-- `wrap` turns a step in the absolute space into `operator+`, for a 32-bit step count and as long as
-- the absolute number does not wrap, and `operator-` takes the step back.
pub wrap-plus :
    (x k : ℕ) (isn : WrappingInt32)
    → k < 2 ^ 32
    → x + k < 2 ^ 64
    → (wrap (add64 x k) isn ≡ plus (wrap x isn) k) × (minus (wrap (add64 x k) isn) k ≡ wrap x isn)
unfolding wrap minus
wrap-plus x k isn kh xh = ground arith

-- Within 2 ^ 32 of one another two absolute numbers have equal sequence numbers only if they are
-- equal.
pub wrap-injective :
    (x y : ℕ) (isn : WrappingInt32)
    → distance x y < 2 ^ 32
    → is_equal (wrap x isn) (wrap y isn) ≡ true
    → x ≡ y
unfolding wrap is_equal
wrap-injective x y isn h e = ground arith
