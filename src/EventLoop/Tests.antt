-- ===== src/EventLoop/Tests.antt =====
-- Three rules: one that reads, one that is not interested, and one whose peer hangs up.
use cs144_2021_sponge.Prelude.{
  ℕ, ◌+◌, ◌≡◌, ◌≢◌, refl, Bool, true, false, List, [], ◌∷◌, length, ◌==◌, if◌then◌else◌,
}
use cs144_2021_sponge.Descriptor.{register_read}
use cs144_2021_sponge.Descriptor.Store.{empty, construct, release, destroy, modify}
use cs144_2021_sponge.EventLoop.{
  in_, out, success, World, Rule, Revents, nothing, PollFd, Polled, failed, ready, returns, throws,
  past_end, reported, asked_for, defunct, cancel_rule, finished, poll_fd, keep_polled, setup, turn,
  serve, keep_rule, follow, dispatch, fill_revents, after_poll, wait_next_event, service_count,
}
use cs144_2021_sponge.EventLoop.Aligned.{paired}
use cs144_2021_sponge.EventLoop.Waiting.{asks_any, in_step, poll_failure_swallowed}

-- The application counts its callbacks.
abbrev count_call : World ℕ → World ℕ
count_call w = record w { app = w.app + 1 }

abbrev always : World ℕ → World ℕ × Bool
always w = (w, true)

abbrev never : World ℕ → World ℕ × Bool
never w = (w, false)

abbrev read_once : World ℕ → World ℕ
read_once w = record { store = modify w.store 0 register_read; app = w.app + 1 }

abbrev reader : Rule ℕ
reader = record {
  fd = 0;
  direction = in_;
  callback = read_once;
  interest = always;
  cancel = count_call;
}

abbrev idle : Rule ℕ
idle = record {
  fd = 1;
  direction = out;
  callback = count_call;
  interest = never;
  cancel = count_call;
}

abbrev writer : Rule ℕ
writer = record {
  fd = 2;
  direction = out;
  callback = count_call;
  interest = always;
  cancel = count_call;
}

abbrev rules_set : List (Rule ℕ)
rules_set = reader ∷ idle ∷ writer ∷ []

abbrev start : World ℕ
start = record { store = (construct (construct (construct empty 3).0 4).0 5).0; app = 0 }

-- The first is readable, the others have hung up.
abbrev answer : ℕ → Revents
answer i = if i == 0 then record nothing { readable = true } else record nothing { hung_up = true }

abbrev kernel : List PollFd → Polled
kernel ps = ready answer

abbrev broken : List PollFd → Polled
broken ps = failed

-- The reader is called and the writer is cancelled; the idle rule stays.
wait_next_event-kernel :
    ((wait_next_event kernel rules_set start).world.app ≡ 2)
    × ((wait_next_event kernel rules_set start).rules ≡ reader ∷ idle ∷ [])
    × ((wait_next_event kernel rules_set start).ending ≡ returns success)
    × (((wait_next_event kernel rules_set start).world.store.cells 2).wrapper.is_closed ≡ true)
unfolding wait_next_event after_poll setup keep_polled poll_fd finished dispatch follow keep_rule
    turn serve service_count defunct reported asked_for cancel_rule fill_revents construct modify
    release destroy register_read
wait_next_event-kernel = (refl, refl, refl, refl)

in_step_example :
    (length (setup rules_set start).pollfds ≡ length (setup rules_set start).rules)
    × ((ps : List PollFd)
        → dispatch (setup rules_set start).rules ps 0 (setup rules_set start).world
          ≡ paired (setup rules_set start).rules ps (setup rules_set start).world)
    × ((wait_next_event kernel rules_set start).ending ≢ throws past_end)
in_step_example = in_step kernel rules_set start

poll_failure_swallowed_example : wait_next_event broken rules_set start ≡ record {
  world = (setup rules_set start).world;
  rules = (setup rules_set start).rules;
  ending = returns success;
}
unfolding asks_any setup keep_polled poll_fd asked_for finished construct
poll_failure_swallowed_example = poll_failure_swallowed broken rules_set start refl refl
