-- ===== src/EventLoop.antt =====
-- libsponge/util/eventloop.hh and eventloop.cc: the rules and one turn of the loop. `poll` is the
-- kernel, a parameter. A callback changes the program's state and the FileDescriptors; it returns, and
-- leaves the rules as they are (one that added a rule would read past `pollfds`).
pub mod Aligned
pub mod Waiting
pub mod Fates
pub mod Served
mod Tests
use cs144_2021_sponge.Prelude.{
  ℕ, ◌+◌, Bool, true, false, ◌&&◌, ◌||◌, not, Option, none, some, List, [], ◌∷◌, ◌++◌, ◌==◌,
  if◌then◌else◌, get_elem?,
}
use cs144_2021_sponge.Descriptor.Store.{Store, duplicate, release}

pub data Direction : Type 0 where
  in_ out : Direction

pub data Result : Type 0 where
  success timeout exit : Result

pub record World (A : Type 0) : Type 0 where
  pub store : Store
  pub app : A

-- `fd` is the place of the object that the rule's FileDescriptor points to.
pub record Rule (A : Type 0) : Type 0 where
  pub fd : ℕ
  pub direction : Direction
  pub callback : World A → World A
  pub interest : World A → World A × Bool
  pub cancel : World A → World A

-- The bits of `revents` that the code looks at.
pub record Revents : Type 0 where
  pub readable : Bool
  pub writable : Bool
  pub hung_up : Bool
  pub error : Bool
  pub invalid : Bool

abbrev pub nothing : Revents
nothing = record {
  readable = false;
  writable = false;
  hung_up = false;
  error = false;
  invalid = false;
}

-- No events: a placeholder.
pub record PollFd : Type 0 where
  pub fd_num : ℕ
  pub events : Option Direction
  pub revents : Revents

-- What `poll` does: it returns 0, it fails with EINTR or with another error, or it returns a positive
-- number and has filled in the `revents` of each place.
pub data Polled : Type 0 where
  nothing_ready interrupted failed : Polled
  ready : (ℕ → Revents) → Polled

pub data Fault : Type 0 where
  poll_error busy_wait past_end : Fault

-- How a call ends: with a result, with one of the two exceptions, or by a read past `pollfds`.
pub data Ending : Type 0 where
  returns : Result → Ending
  throws : Fault → Ending

pub record Outcome (A : Type 0) : Type 0 where
  pub world : World A
  pub rules : List (Rule A)
  pub ending : Ending

-- The first loop: the world, the rules that are left, `pollfds`, and `something_to_poll`.
pub record Setup (A : Type 0) : Type 0 where
  pub world : World A
  pub rules : List (Rule A)
  pub pollfds : List PollFd
  pub something_to_poll : Bool

-- `revents & events`.
unfoldable pub reported : Option Direction → Revents → Bool
reported none revents = false
reported (some in_) revents = revents.readable
reported (some out) revents = revents.writable

abbrev pub poll_ready : PollFd → Bool
poll_ready p = reported p.events p.revents

unfoldable pub asked_for : PollFd → Bool
asked_for p = elim p.events [ none ↦ false | some d ↦ true ]

unfoldable pub defunct : PollFd → Bool
defunct p = p.revents.hung_up && asked_for p && not (poll_ready p)

-- What the kernel writes into `pollfds`.
unfoldable pub fill_revents : (ℕ → Revents) → ℕ → List PollFd → List PollFd
fill_revents answer i [] = []
fill_revents answer i (p ∷ ps) = record p { revents = answer i } ∷ fill_revents answer (i + 1) ps

-- The rule's turn: an exception, `erase`, or on to the next rule.
pub data Turn (A : Type 0) : Type 0 where
  stops : Fault → World A → Turn A
  erases keeps : World A → Turn A

module _ {A : Type 0} where
  unfoldable pub service_count : Rule A → World A → ℕ
  service_count r w = elim r.direction [
    | in_ ↦ (w.store.cells r.fd).wrapper.reads
    | out ↦ (w.store.cells r.fd).wrapper.writes
  ]

  unfoldable pub add_rule : World A → List (Rule A) → Rule A → World A × List (Rule A)
  add_rule w rules r = (record w { store = duplicate w.store r.fd }, rules ++ (r ∷ []))

  -- `cancel` and `erase`: the rule's FileDescriptor goes with it.
  unfoldable pub cancel_rule : Rule A → World A → World A
  cancel_rule r w = let w' : World A = r.cancel w in record w' { store = release w'.store r.fd }

  unfoldable pub finished : Rule A → World A → Bool
  finished r w =
      let fd = (w.store.cells r.fd).wrapper in
      let at_eof : Bool = elim r.direction [ in_ ↦ fd.at_eof | out ↦ false ] in
      at_eof || fd.is_closed

  unfoldable pub poll_fd : Rule A → World A → Bool → PollFd
  poll_fd r w asked = record {
    fd_num = (w.store.cells r.fd).wrapper.fd;
    events = if asked then some r.direction else none;
    revents = nothing;
  }

  unfoldable pub keep_polled : Rule A → PollFd → Bool → Setup A → Setup A
  keep_polled r p asked s = record {
    world = s.world;
    rules = r ∷ s.rules;
    pollfds = p ∷ s.pollfds;
    something_to_poll = asked || s.something_to_poll;
  }

  unfoldable pub setup : List (Rule A) → World A → Setup A
  setup [] w = record { world = w; rules = []; pollfds = []; something_to_poll = false }
  setup (r ∷ rules) w =
      let asked : World A × Bool = r.interest w in
      let erased : Setup A = setup rules (cancel_rule r w) in
      let kept : Setup A = setup rules asked.0 in
      if finished r w then erased else keep_polled r (poll_fd r asked.0 asked.1) asked.1 kept

  -- The callback, and the test for a busy wait.
  unfoldable pub serve : Rule A → World A → World A × Bool
  serve r w =
      let count_before = service_count r w in
      let w' : World A = r.callback w in
      if count_before == service_count r w' then r.interest w' else (w', false)

  -- What the body of the second loop does with one rule.
  unfoldable pub turn : Rule A → PollFd → World A → Turn A
  turn r p w =
      let served : World A × Bool = serve r w in
      if p.revents.error || p.revents.invalid
      then stops poll_error w
      else if defunct p
      then erases (cancel_rule r w)
      else if not (poll_ready p)
      then keeps w
      else if served.1
      then stops busy_wait served.0
      else keeps served.0

  unfoldable pub keep_rule : Rule A → Outcome A → Outcome A
  keep_rule r o = record o { rules = r ∷ o.rules }

  unfoldable pub follow : Rule A → List (Rule A) → Turn A → (World A → Outcome A) → Outcome A
  follow r rules (stops f w) next = record { world = w; rules = r ∷ rules; ending = throws f }
  follow r rules (erases w) next = next w
  follow r rules (keeps w) next = keep_rule r (next w)

  -- The second loop, with the index into `pollfds`.
  unfoldable pub dispatch : List (Rule A) → List PollFd → ℕ → World A → Outcome A
  dispatch [] pollfds idx w = record { world = w; rules = []; ending = returns success }
  dispatch (r ∷ rules) pollfds idx w = elim (get_elem? pollfds idx) [
    | none ↦ record { world = w; rules = r ∷ rules; ending = throws past_end }
    | some p ↦ follow r rules (turn r p w) (dispatch rules pollfds (idx + 1))
  ]

  -- What follows the answer of `poll`.
  unfoldable pub after_poll : Polled → Setup A → Outcome A
  after_poll nothing_ready s = record { world = s.world; rules = s.rules; ending = returns timeout }
  after_poll interrupted s = record { world = s.world; rules = s.rules; ending = returns exit }
  after_poll failed s = dispatch s.rules s.pollfds 0 s.world
  after_poll (ready answer) s = dispatch s.rules (fill_revents answer 0 s.pollfds) 0 s.world

  unfoldable pub wait_next_event :
      (poll : List PollFd → Polled) → List (Rule A) → World A → Outcome A
  wait_next_event poll rules w =
      let s : Setup A = setup rules w in
      if s.something_to_poll
      then after_poll (poll s.pollfds) s
      else record { world = s.world; rules = s.rules; ending = returns exit }
