-- ===== src/Descriptor/Flags/Laws.antt =====
-- What `set_blocking` of libsponge/util/file_descriptor.cc does to the flags.
use cs144_2021_sponge.Prelude.{
  ℕ, ◌*◌, ◌/◌, ◌%◌, ◌≡◌, refl, Bool, true, false, Option, some, if◌then◌else◌, arith,
}
use cs144_2021_sponge.Descriptor.{FdWrapper, returns}
use cs144_2021_sponge.Descriptor.Flags.{o_nonblock, nonblock_of, changed, set_blocking}

changed_bits :
    (flags : ℕ) (blocking_state : Bool)
    → (changed flags blocking_state / o_nonblock % 2 ≡ (if blocking_state then 0 else 1))
      × (changed flags blocking_state % o_nonblock ≡ flags % o_nonblock)
      × (changed flags blocking_state / (2 * o_nonblock) ≡ flags / (2 * o_nonblock))
unfolding changed nonblock_of
changed_bits flags true = (omega arith, omega arith, omega arith)
changed_bits flags false = (omega arith, omega arith, omega arith)

-- Where both calls of fcntl succeed: O_NONBLOCK is set afterwards exactly if blocking is not asked for, every
-- other flag is what it was, and so is the descriptor.
pub set_blocking_exactly :
    (w : FdWrapper) (flags : ℕ) (setfl : ℕ → Option ℕ) (blocking_state : Bool)
    → ((f : ℕ) → (n : ℕ) × (setfl f ≡ some n))
    → (new_flags : ℕ) × (set_blocking w (some flags) setfl blocking_state ≡ returns w new_flags)
      × (new_flags / o_nonblock % 2 ≡ (if blocking_state then 0 else 1))
      × (new_flags % o_nonblock ≡ flags % o_nonblock)
      × (new_flags / (2 * o_nonblock) ≡ flags / (2 * o_nonblock))
unfolding set_blocking
set_blocking_exactly w flags setfl blocking_state works =
    let (n, e) = works (changed flags blocking_state) in
    let (flag, low, high) = changed_bits flags blocking_state in
    (changed flags blocking_state, rw (e, set_blocking) refl, flag, low, high)
