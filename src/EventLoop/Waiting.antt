-- ===== src/EventLoop/Waiting.antt =====
-- `wait_next_event` of libsponge/util/eventloop.cc: how it ends, when it says Exit, and what a failure of
-- `poll` does.
use cs144_2021_sponge.Prelude.{
  ◌≡◌, ◌≢◌, refl, ap, ◌∙◌, Bool, true, false, ◌||◌, inl, inr, Option, none, some, List, [], ◌∷◌,
  length, arith, Bool-cases, ◌↔◌,
}
use cs144_2021_sponge.EventLoop.{
  Direction, in_, out, success, exit, World, Rule, nothing, PollFd, Polled, nothing_ready,
  interrupted, failed, ready, Ending, returns, throws, past_end, Setup, reported, asked_for,
  defunct, keeps, cancel_rule, finished, poll_fd, keep_polled, setup, turn, keep_rule, follow,
  dispatch, fill_revents, after_poll, wait_next_event,
}
use cs144_2021_sponge.EventLoop.Aligned.{
  paired, dispatch-paired, length-setup, length-fill_revents, EndsTurns, paired-EndsTurns,
}

-- Whether some place of `pollfds` asks for an event.
unfoldable pub asks_any : List PollFd → Bool
asks_any [] = false
asks_any (p ∷ ps) = asked_for p || asks_any ps

-- No place reports anything.
unfoldable pub Silent : List PollFd → Type 0
Silent [] = Unit
Silent (p ∷ ps) = (p.revents ≡ nothing) × Silent ps

reported-nothing : (events : Option Direction) → reported events nothing ≡ false
unfolding reported
reported-nothing none = refl
reported-nothing (some in_) = refl
reported-nothing (some out) = refl

EndsTurns-exit : (e : Ending) → EndsTurns e → (e ≢ returns exit) × (e ≢ throws past_end)
unfolding EndsTurns
EndsTurns-exit e h = ground (arith, h)

module _ {A : Type 0} where
  dispatch-EndsTurns :
      (rules : List (Rule A)) (ps : List PollFd) (w : World A)
      → length ps ≡ length rules
      → EndsTurns (dispatch rules ps 0 w).ending
  dispatch-EndsTurns rules ps w e =
      rw (dispatch-paired rules [] ps w) (paired-EndsTurns rules ps w e)

  turn-nothing :
      (r : Rule A) (p : PollFd) (w : World A) → p.revents ≡ nothing → turn r p w ≡ keeps w
  unfolding turn defunct
  turn-nothing r p w e = rw e (rw (reported-nothing p.events) refl)

  paired-Silent :
      (rules : List (Rule A)) (ps : List PollFd) (w : World A)
      → length ps ≡ length rules
      → Silent ps
      → paired rules ps w ≡ record { world = w; rules = rules; ending = returns success }
  unfolding paired Silent follow keep_rule
  paired-Silent [] ps w e q = refl
  paired-Silent (r ∷ rules) [] w e q = absurd (omega (arith, e))
  paired-Silent (r ∷ rules) (p ∷ ps) w e q =
      rw (turn-nothing r p w q.0)
        (ap (keep_rule r) (paired-Silent rules ps w (omega (arith, e)) q.1))

  pub setup-asks_any :
      (rules : List (Rule A)) (w : World A)
      → (setup rules w).something_to_poll ≡ asks_any (setup rules w).pollfds
  unfolding setup keep_polled asks_any poll_fd asked_for
  setup-asks_any [] w = refl
  setup-asks_any (r ∷ rules) w =
      ground (arith, setup-asks_any rules (cancel_rule r w), setup-asks_any rules (r.interest w).0)

  setup-Silent : (rules : List (Rule A)) (w : World A) → Silent (setup rules w).pollfds
  unfolding setup keep_polled Silent poll_fd
  setup-Silent [] w = tt
  setup-Silent (r ∷ rules) w = elim (Bool-cases (finished r w)) [
    | inl y ↦ rw y (setup-Silent rules (cancel_rule r w))
    | inr n ↦ rw n (refl, setup-Silent rules (r.interest w).0)
  ]

  after_poll-exit :
      (q : Polled) (s : Setup A)
      → length s.pollfds ≡ length s.rules
      → ((after_poll q s).ending ≢ throws past_end)
        × (((after_poll q s).ending ≡ returns exit) ↔ (q ≡ interrupted))
  unfolding after_poll
  after_poll-exit nothing_ready s e = ground arith
  after_poll-exit interrupted s e = ground arith
  after_poll-exit failed s e =
      let h = EndsTurns-exit _ (dispatch-EndsTurns s.rules s.pollfds s.world e) in ground (arith, h)
  after_poll-exit (ready answer) s e =
      let h = EndsTurns-exit _ (
        dispatch-EndsTurns s.rules (fill_revents answer 0 s.pollfds) s.world
          (length-fill_revents answer 0 s.pollfds ∙ e)) in
      ground (arith, h)

  -- Where a callback may do anything to the program's state and the descriptors, but leaves the list of rules
  -- as it is: whatever the kernel answers, `wait_next_event` reads only places of `pollfds` that belong to a
  -- rule. There is one place for each rule that the first loop leaves, and the second loop looks
  -- at the place of the rule it is at, although erasing a rule shifts the ones behind it.
  pub in_step :
      (poll : List PollFd → Polled) (rules : List (Rule A)) (w : World A)
      → (length (setup rules w).pollfds ≡ length (setup rules w).rules)
        × ((ps : List PollFd)
            → dispatch (setup rules w).rules ps 0 (setup rules w).world
              ≡ paired (setup rules w).rules ps (setup rules w).world)
        × ((wait_next_event poll rules w).ending ≢ throws past_end)
  unfolding wait_next_event
  in_step poll rules w = (
    length-setup rules w,
    λ ps. dispatch-paired (setup rules w).rules [] ps (setup rules w).world,
    ground (
      arith,
      after_poll-exit (poll (setup rules w).pollfds) (setup rules w) (length-setup rules w),
    ),
  )

  -- Where some rule asks to be polled and `poll` fails with an error other than EINTR, `wait_next_event` goes
  -- on as if it had found nothing: it returns Success, calls nothing and keeps every rule.
  pub poll_failure_swallowed :
      (poll : List PollFd → Polled) (rules : List (Rule A)) (w : World A)
      → asks_any (setup rules w).pollfds ≡ true
      → poll (setup rules w).pollfds ≡ failed
      → wait_next_event poll rules w ≡ record {
        world = (setup rules w).world;
        rules = (setup rules w).rules;
        ending = returns success;
      }
  unfolding wait_next_event after_poll
  poll_failure_swallowed poll rules w asks fails =
      rw (setup-asks_any rules w, asks, fails)
        (dispatch-paired (setup rules w).rules [] (setup rules w).pollfds (setup rules w).world
          ∙ paired-Silent (setup rules w).rules (setup rules w).pollfds (setup rules w).world
              (length-setup rules w) (setup-Silent rules w))
