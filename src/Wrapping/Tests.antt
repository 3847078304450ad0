-- ===== src/Wrapping/Tests.antt =====
-- Concrete runs of the sequence number translation, and the instances of its laws.
use cs144_2021_sponge.Prelude.{◌+◌, ◌^◌, ◌≤◌, ◌<◌, ◌≡◌, refl, arith, distance}
use cs144_2021_sponge.Wrapping.{WrappingInt32, wrapping, wrap, unwrap}
use cs144_2021_sponge.Wrapping.Laws.{wrap-unwrap, unwrap_closest, unwrap-wrap_high}

abbrev isn : WrappingInt32
isn = wrapping 0xffff_fffe

unwrap_runs : unwrap (wrapping 0) isn 0 ≡ 2
unfolding unwrap
unwrap_runs = refl

wrap-unwrap_example :
    (wrap (unwrap (wrapping 5) isn (2 ^ 33)) isn ≡ wrapping 5)
    × (unwrap (wrapping 5) isn (2 ^ 33) < 2 ^ 64)
wrap-unwrap_example =
    wrap-unwrap (wrapping 5) isn (2 ^ 33) (omega arith) (omega arith) (omega arith)

unwrap_closest_example : distance (unwrap (wrapping 5) isn (2 ^ 33)) (2 ^ 33) ≤ distance 7 (2 ^ 33)
unfolding wrap
unwrap_closest_example =
    unwrap_closest (wrapping 5) isn (2 ^ 33) (omega arith) (omega arith) 7 (omega arith) refl

unwrap-wrap_high_example : unwrap (wrap (2 ^ 63 + 3) isn) isn (2 ^ 63) ≡ 2 ^ 63 + 3 + 2 ^ 32
unwrap-wrap_high_example =
    unwrap-wrap_high (2 ^ 63 + 3) isn (2 ^ 63) (omega arith) (omega arith) (omega arith)
      (omega arith)
