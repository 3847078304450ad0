-- ===== src/EventLoop/Fates.antt =====
-- What the answer of `poll` means for a rule, in the second loop of `wait_next_event` in
-- libsponge/util/eventloop.cc, said without the tests that the code makes.
use cs144_2021_sponge.Prelude.{
  ℕ, ◌≡◌, ◌≢◌, refl, Bool, true, false, Option, none, some, ◌⊎◌, List, [], ◌∷◌, arith,
}
use cs144_2021_sponge.Descriptor.Store.{release}
use cs144_2021_sponge.EventLoop.{
  Direction, in_, out, reported, asked_for, World, Rule, Revents, PollFd, poll_ready, defunct,
  service_count, cancel_rule,
}

-- What a place that reports no error means for its rule: nothing, a call, or its end.
pub data Fate : Type 0 where
  waiting called dropped : Fate

-- By whether the event that was asked for has occurred, and whether there was a hangup.
unfoldable pub by_event : Bool → Bool → Fate
by_event true hung_up = called
by_event false true = dropped
by_event false false = waiting

unfoldable pub fate : Option Direction → Revents → Fate
fate none revents = waiting
fate (some in_) revents = by_event revents.readable revents.hung_up
fate (some out) revents = by_event revents.writable revents.hung_up

-- The tests of the code, for each fate.
pub data Tested (p : PollFd) : Fate → Type 0 where
  ends : defunct p ≡ true → Tested p dropped
  calls : defunct p ≡ false → poll_ready p ≡ true → Tested p called
  rests : defunct p ≡ false → poll_ready p ≡ false → Tested p waiting

Tested-by_event :
    (p : PollFd) (event hung_up : Bool)
    → asked_for p ≡ true
    → poll_ready p ≡ event
    → p.revents.hung_up ≡ hung_up
    → Tested p (by_event event hung_up)
unfolding by_event defunct
Tested-by_event p true hung_up a e h = calls (ground (arith, e)) e
Tested-by_event p false true a e h = ends (ground (arith, a, e, h))
Tested-by_event p false false a e h = rests (ground (arith, h)) e

Tested-fate :
    (fd_num : ℕ) (events : Option Direction) (revents : Revents)
    → Tested (record { fd_num = fd_num; events = events; revents = revents }) (fate events revents)
unfolding fate defunct asked_for reported
Tested-fate fd_num none revents = rests (ground arith) refl
Tested-fate fd_num (some in_) revents =
    Tested-by_event _ revents.readable revents.hung_up refl refl refl
Tested-fate fd_num (some out) revents =
    Tested-by_event _ revents.writable revents.hung_up refl refl refl

pub Tested-PollFd : (p : PollFd) → Tested p (fate p.events p.revents)
Tested-PollFd p = Tested-fate p.fd_num p.events p.revents

module _ {A : Type 0} where
  -- The reads or the writes of a rule's descriptor.
  unfoldable pub counted : Direction → Rule A → World A → ℕ
  counted in_ r w = (w.store.cells r.fd).wrapper.reads
  counted out r w = (w.store.cells r.fd).wrapper.writes

  -- The rules that no hangup has ended, in their order.
  unfoldable pub survivors : List (Rule A) → List PollFd → List (Rule A)
  survivors [] ps = []
  survivors (r ∷ rules) [] = r ∷ rules
  survivors (r ∷ rules) (p ∷ ps) =
      let rest = survivors rules ps in
      elim (fate p.events p.revents) [ waiting ↦ r ∷ rest | called ↦ r ∷ rest | dropped ↦ rest ]

  -- What its turn does to the world: nothing, one callback, or `cancel` and the release of its descriptor.
  unfoldable pub effect : Rule A → PollFd → World A → World A
  effect r p w = elim (fate p.events p.revents) [
    | waiting ↦ w
    | called ↦ r.callback w
    | dropped ↦ record (r.cancel w) { store = release (r.cancel w).store r.fd }
  ]

  unfoldable pub effects : List (Rule A) → List PollFd → World A → World A
  effects [] ps w = w
  effects (r ∷ rules) [] w = w
  effects (r ∷ rules) (p ∷ ps) w = effects rules ps (effect r p w)

  -- The callback reads or writes the descriptor, or the rule has no interest any more.
  unfoldable pub Acts : Rule A → World A → Type 0
  Acts r w =
      (counted r.direction r w ≢ counted r.direction r (r.callback w))
      ⊎ ((r.interest (r.callback w)).1 ≡ false)

  unfoldable pub Smooth : List (Rule A) → List PollFd → World A → Type 0
  Smooth [] ps w = Unit
  Smooth (r ∷ rules) [] w = ⊥
  Smooth (r ∷ rules) (p ∷ ps) w =
      (p.revents.error ≡ false)
      × (p.revents.invalid ≡ false)
      × (fate p.events p.revents ≡ called → Acts r w)
      × Smooth rules ps (effect r p w)

  pub service_count-counted :
      (r : Rule A) (w : World A) → service_count r w ≡ counted r.direction r w
  unfolding service_count counted
  service_count-counted r w =
      elim r.direction
        as (λ (d : Direction).
          elim d [
            | in_ ↦ (w.store.cells r.fd).wrapper.reads
            | out ↦ (w.store.cells r.fd).wrapper.writes
          ]
          ≡ counted d r w) [ in_ ↦ refl | out ↦ refl ]

  pub effect-waiting :
      (r : Rule A) (p : PollFd) (w : World A) → fate p.events p.revents ≡ waiting → effect r p w ≡ w
  unfolding effect
  effect-waiting r p w f = rw (f, effect) refl

  pub effect-called :
      (r : Rule A) (p : PollFd) (w : World A)
      → fate p.events p.revents ≡ called
      → effect r p w ≡ r.callback w
  unfolding effect
  effect-called r p w f = rw (f, effect) refl

  pub effect-dropped :
      (r : Rule A) (p : PollFd) (w : World A)
      → fate p.events p.revents ≡ dropped
      → effect r p w ≡ cancel_rule r w
  unfolding effect cancel_rule
  effect-dropped r p w f = rw (f, effect) refl
