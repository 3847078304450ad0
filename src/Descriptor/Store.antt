-- ===== src/Descriptor/Store.antt =====
-- The objects that FileDescriptors share, in libsponge/util/file_descriptor.hh and file_descriptor.cc:
-- each FDWrapper with the number of FileDescriptors that point to it. A FileDescriptor is the place of
-- its FDWrapper in the store.
use cs144_2021_sponge.Prelude.{ℕ, ◌+◌, ◌-◌, ◌==◌, if◌then◌else◌}
use cs144_2021_sponge.Descriptor.{FdWrapper, wrapper, close}

pub record Cell : Type 0 where
  pub wrapper : FdWrapper
  pub refs : ℕ

pub record Store : Type 0 where
  pub cells : ℕ → Cell
  pub next : ℕ

abbrev pub update {ℓ} : {A : Type ℓ} → (ℕ → A) → ℕ → A → ℕ → A
update f i a j = if j == i then a else f j

abbrev pub empty : Store
empty = record { cells = λ h. record { wrapper = wrapper 0; refs = 0 }; next = 0 }

-- The constructor from a number: a new FDWrapper with one owner.
unfoldable pub construct : Store → ℕ → Store × ℕ
construct s fd = (
  record {
    cells = update s.cells s.next (record { wrapper = wrapper fd; refs = 1 });
    next = s.next + 1;
  },
  s.next,
)

-- `duplicate`: one more owner of the same object.
unfoldable pub duplicate : Store → ℕ → Store
duplicate s h =
    let c = s.cells h in record s { cells = update s.cells h (record c { refs = c.refs + 1 }) }

-- `~FDWrapper`. A failure of the system call is caught there, and the object is gone either way.
unfoldable pub destroy : FdWrapper → FdWrapper
unfolding close
destroy w = if w.is_closed then w else close w

-- `~FileDescriptor`: the last owner destroys the object.
unfoldable pub release : Store → ℕ → Store
unfolding destroy
release s h =
    let c = s.cells h in
    let left = c.refs - 1 in
    record s {
      cells =
          update s.cells h
            (record { wrapper = if left == 0 then destroy c.wrapper else c.wrapper; refs = left });
    }

-- What a method does to the object that its FileDescriptor points to.
unfoldable pub modify : Store → ℕ → (FdWrapper → FdWrapper) → Store
modify s h f =
    let c = s.cells h in record s { cells = update s.cells h (record c { wrapper = f c.wrapper }) }
