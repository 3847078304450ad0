-- ===== src/Descriptor/Owners.antt =====
-- When a file descriptor of libsponge/util/file_descriptor.cc is closed, over any sequence of calls.
use cs144_2021_sponge.Prelude.{
  ℕ, ◌+◌, ◌-◌, ◌≤◌, ◌<◌, ◌≡◌, refl, Bool, true, false, ◌||◌, List, [], ◌∷◌, ◌==◌, arith,
}
use cs144_2021_sponge.Descriptor.{close, register_read, register_write}
use cs144_2021_sponge.Descriptor.Store.{
  Store, update, empty, construct, duplicate, destroy, release, modify,
}

-- What a program does with its FileDescriptors.
pub data Call : Type 0 where
  opens : ℕ → Call
  copies drops closes reads writes : ℕ → Call

unfoldable pub call : Store → Call → Store
call s (opens fd) = (construct s fd).0
call s (copies h) = duplicate s h
call s (drops h) = release s h
call s (closes h) = modify s h close
call s (reads h) = modify s h register_read
call s (writes h) = modify s h register_write

-- What the program knows: how many FileDescriptors it has of each object, and which it has closed.
pub record Owned : Type 0 where
  pub opened : ℕ
  pub owners : ℕ → ℕ
  pub shut : ℕ → Bool

abbrev pub nothing_owned : Owned
nothing_owned = record { opened = 0; owners = λ h. 0; shut = λ h. false }

unfoldable pub note : Owned → Call → Owned
note o (opens fd) = record {
  opened = o.opened + 1;
  owners = update o.owners o.opened 1;
  shut = update o.shut o.opened false;
}
note o (copies h) = record o { owners = update o.owners h (o.owners h + 1) }
note o (drops h) = record o { owners = update o.owners h (o.owners h - 1) }
note o (closes h) = record o { shut = update o.shut h true }
note o (reads h) = o
note o (writes h) = o

-- A call is made on a FileDescriptor that the program has.
abbrev pub Has : Owned → Call → Type 0
Has o (opens fd) = Unit {0}
Has o (copies h) = 0 < o.owners h
Has o (drops h) = 0 < o.owners h
Has o (closes h) = 0 < o.owners h
Has o (reads h) = 0 < o.owners h
Has o (writes h) = 0 < o.owners h

record Agrees (s : Store) (o : Owned) : Type 0 where
  next : s.next ≡ o.opened
  refs : (h : ℕ) → (s.cells h).refs ≡ o.owners h
  fresh : (h : ℕ) → o.opened ≤ h → o.owners h ≡ 0
  closed : (h : ℕ) → h < o.opened → (s.cells h).wrapper.is_closed ≡ (o.shut h || (o.owners h == 0))

call-Agrees :
    (s : Store) (o : Owned) (c : Call) → Agrees s o → Has o c → Agrees (call s c) (note o c)
unfolding call note construct duplicate destroy release modify close register_read register_write
call-Agrees s o (opens fd) v h = record {
  next = omega (arith, v.next);
  refs = λ k. ground (arith, v.refs k, v.next);
  fresh = λ k le. ground (arith, v.fresh k);
  closed = λ k lt. ground (arith, v.closed k, v.next);
}
call-Agrees s o (copies i) v h = record {
  next = v.next;
  refs = λ k. ground (arith, v.refs k, v.refs i);
  fresh = λ k le. ground (arith, v.fresh k, v.fresh i);
  closed = λ k lt. ground (arith, v.closed k, v.closed i);
}
call-Agrees s o (drops i) v h = record {
  next = v.next;
  refs = λ k. ground (arith, v.refs k, v.refs i);
  fresh = λ k le. ground (arith, v.fresh k, v.fresh i);
  closed = λ k lt. ground (arith, v.closed k, v.closed i, v.refs i, v.refs k);
}
call-Agrees s o (closes i) v h = record {
  next = v.next;
  refs = λ k. ground (arith, v.refs k, v.refs i);
  fresh = v.fresh;
  closed = λ k lt. ground (arith, v.closed k, v.closed i);
}
call-Agrees s o (reads i) v h = record {
  next = v.next;
  refs = λ k. ground (arith, v.refs k, v.refs i);
  fresh = v.fresh;
  closed = λ k lt. ground (arith, v.closed k, v.closed i);
}
call-Agrees s o (writes i) v h = record {
  next = v.next;
  refs = λ k. ground (arith, v.refs k, v.refs i);
  fresh = v.fresh;
  closed = λ k lt. ground (arith, v.closed k, v.closed i);
}

unfoldable pub run : Store → List Call → Store
run s [] = s
run s (c ∷ cs) = run (call s c) cs

unfoldable pub note_all : Owned → List Call → Owned
note_all o [] = o
note_all o (c ∷ cs) = note_all (note o c) cs

unfoldable pub AllHad : Owned → List Call → Type 0
AllHad o [] = Unit
AllHad o (c ∷ cs) = Has o c × AllHad (note o c) cs

run-Agrees :
    (cs : List Call) (s : Store) (o : Owned)
    → Agrees s o
    → AllHad o cs
    → Agrees (run s cs) (note_all o cs)
unfolding run note_all AllHad
run-Agrees [] s o v h = v
run-Agrees (c ∷ cs) s o v h = run-Agrees cs (call s c) (note o c) (call-Agrees s o c v h.0) h.1

-- Whatever calls a program makes on the FileDescriptors that it has, where the calls of `close` do not fail: an object that it has opened is
-- closed exactly if the program closed it through one of its FileDescriptors or has destroyed the last
-- of them, and the reference count is the number of FileDescriptors that it has.
pub closed_exactly :
    (cs : List Call) (h : ℕ)
    → AllHad nothing_owned cs
    → h < (note_all nothing_owned cs).opened
    → ((run empty cs).cells h).wrapper.is_closed
        ≡ ((note_all nothing_owned cs).shut h || ((note_all nothing_owned cs).owners h == 0))
      × (((run empty cs).cells h).refs ≡ (note_all nothing_owned cs).owners h)
closed_exactly cs h had lt =
    let v =
      run-Agrees cs empty nothing_owned
        (record {
          next = refl;
          refs = λ k. refl;
          fresh = λ k le. refl;
          closed = λ k l. absurd (omega arith);
        })
        had in
    (v.closed h lt, v.refs h)
