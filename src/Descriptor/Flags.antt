-- ===== src/Descriptor/Flags.antt =====
-- `set_blocking` of libsponge/util/file_descriptor.cc. What fcntl answers is an argument; O_NONBLOCK is
-- Linux's bit.
pub mod Laws
use cs144_2021_sponge.Prelude.{
  ℕ, zero, suc, ◌+◌, ◌-◌, ◌*◌, ◌/◌, ◌%◌, Bool, true, false, Option, none, some, if◌then◌else◌,
}
use cs144_2021_sponge.Descriptor.{FdWrapper, Outcome, returns, throws}

abbrev pub o_nonblock : ℕ
o_nonblock = 2048

-- `flags & O_NONBLOCK`.
unfoldable pub nonblock_of : ℕ → ℕ
nonblock_of flags = flags / o_nonblock % 2 * o_nonblock

-- `flags ^= (flags & O_NONBLOCK)` and `flags |= O_NONBLOCK`.
unfoldable pub changed : ℕ → Bool → ℕ
changed flags true = flags - nonblock_of flags
changed flags false = flags + (o_nonblock - nonblock_of flags)

-- `set_blocking`, with the flags that `F_GETFL` answers and what `F_SETFL` answers to some flags. The
-- result is the flags that the kernel got.
unfoldable pub set_blocking :
    FdWrapper → (getfl : Option ℕ) → (setfl : ℕ → Option ℕ) → Bool → Outcome ℕ
set_blocking w none setfl blocking_state = throws w
set_blocking w (some flags) setfl blocking_state =
    let flags' = changed flags blocking_state in
    elim (setfl flags') [ none ↦ throws w | some n ↦ returns w flags' ]
