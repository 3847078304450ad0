-- ===== src/EventLoop/Served.antt =====
-- The second loop of `wait_next_event` in libsponge/util/eventloop.cc, where the tests of interest only
-- look: whom it calls, whom it cancels, and when it succeeds.
use cs144_2021_sponge.Prelude.{◌≡◌, false, List, [], ◌∷◌, ◌↔◌}
use cs144_2021_sponge.EventLoop.{
  success, World, Rule, PollFd, Fault, returns, Outcome, Turn, stops, erases, keeps,
}
use cs144_2021_sponge.EventLoop.Fates.{
  waiting, called, dropped, fate, survivors, effect, effects, Acts, Smooth,
}

module _ {A : Type 0} where
  unfoldable pub OnlyLook : List (Rule A) → Type 0
  OnlyLook [] = Unit
  OnlyLook (r ∷ rules) = ((w : World A) → (r.interest w).0 ≡ w) × OnlyLook rules

  unfoldable pub Ran : List (Rule A) → List PollFd → World A → Outcome A → Type 0
  Ran rules ps w o =
      (((o.ending ≡ returns success) ↔ Smooth rules ps w))
      × (o.ending ≡ returns success
          → (o.world ≡ effects rules ps w) × (o.rules ≡ survivors rules ps))

  -- The ways in which a turn ends.
  data TurnEnds (r : Rule A) (p : PollFd) (w : World A) (t : Turn A) : Type 0 where
    went_on :
        p.revents.error ≡ false
        → p.revents.invalid ≡ false
        → fate p.events p.revents ≡ waiting
        → t ≡ keeps (effect r p w)
        → TurnEnds r p w t
    served :
        p.revents.error ≡ false
        → p.revents.invalid ≡ false
        → fate p.events p.revents ≡ called
        → Acts r w
        → t ≡ keeps (effect r p w)
        → TurnEnds r p w t
    erased :
        p.revents.error ≡ false
        → p.revents.invalid ≡ false
        → fate p.events p.revents ≡ dropped
        → t ≡ erases (effect r p w)
        → TurnEnds r p w t
    stopped :
        (f : Fault) (v : World A)
        → t ≡ stops f v
        → (p.revents.error ≡ false
            → p.revents.invalid ≡ false
            → (fate p.events p.revents ≡ called → Acts r w)
            → ⊥)
        → TurnEnds r p w t
