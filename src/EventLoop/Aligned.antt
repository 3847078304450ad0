-- ===== src/EventLoop/Aligned.antt =====
-- The places of `pollfds` in libsponge/util/eventloop.cc: which rule each belongs to, when the loop
-- exits, and what a failure of `poll` does.
use cs144_2021_sponge.Prelude.{
  ℕ, suc, ◌+◌, ◌≡◌, refl, ap, ◌⊎◌, inl, inr, none, some, List, [], ◌∷◌, ◌++◌, length, get_elem?,
  arith, length-append, Bool-cases, subst, fun_ext, append-nil, append_assoc,
}
use cs144_2021_sponge.EventLoop.{
  success, World, Rule, Revents, PollFd, Ending, returns, poll_error, busy_wait, past_end, Outcome,
  throws, cancel_rule, finished, keep_polled, setup, turn, serve, keep_rule, follow, dispatch,
  fill_revents,
}

get_elem?-end : (ps : List PollFd) → get_elem? ps (length ps) ≡ none
get_elem?-end [] = refl
get_elem?-end (p ∷ ps) = get_elem?-end ps

get_elem?-middle :
    (before : List PollFd) (p : PollFd) (ps : List PollFd)
    → get_elem? (before ++ (p ∷ ps)) (length before) ≡ some p
get_elem?-middle [] p ps = refl
get_elem?-middle (q ∷ before) p ps = get_elem?-middle before p ps

pub length-fill_revents :
    (answer : ℕ → Revents) (i : ℕ) (ps : List PollFd)
    → length (fill_revents answer i ps) ≡ length ps
unfolding fill_revents
length-fill_revents answer i [] = refl
length-fill_revents answer i (p ∷ ps) = ap suc (length-fill_revents answer (i + 1) ps)

-- How the second loop ends, where it has a place for each rule.
unfoldable pub EndsTurns : Ending → Type 0
EndsTurns e = (e ≡ returns success) ⊎ ((e ≡ throws poll_error) ⊎ (e ≡ throws busy_wait))

module _ {A : Type 0} where
  -- The second loop with each rule's `pollfd` beside it.
  unfoldable pub paired : List (Rule A) → List PollFd → World A → Outcome A
  paired [] ps w = record { world = w; rules = []; ending = returns success }
  paired (r ∷ rules) [] w = record { world = w; rules = r ∷ rules; ending = throws past_end }
  paired (r ∷ rules) (p ∷ ps) w = follow r rules (turn r p w) (paired rules ps)

  -- The index is that of the rule's own place, whatever was erased before it.
  pub dispatch-paired :
      (rules : List (Rule A)) (before ps : List PollFd) (w : World A)
      → dispatch rules (before ++ ps) (length before) w ≡ paired rules ps w
  unfolding dispatch paired
  dispatch-paired [] before ps w = refl
  dispatch-paired (r ∷ rules) before [] w =
      rw (append-nil before, get_elem?-end before, dispatch) refl
  dispatch-paired (r ∷ rules) before (p ∷ ps) w =
      let next : (v : World A)
          → dispatch rules (before ++ (p ∷ ps)) (length before + 1) v ≡ paired rules ps v =
        λ v.
          subst (λ (qs : List PollFd). dispatch rules qs (length before + 1) v ≡ paired rules ps v)
            (append_assoc before (p ∷ []) ps)
            (subst (λ (i : ℕ). dispatch rules ((before ++ (p ∷ [])) ++ ps) i v ≡ paired rules ps v)
              (length-append before (p ∷ [])) (dispatch-paired rules (before ++ (p ∷ [])) ps v)) in
      rw (get_elem?-middle before p ps, dispatch) (ap (follow r rules (turn r p w)) (fun_ext next))

  pub length-setup :
      (rules : List (Rule A)) (w : World A)
      → length (setup rules w).pollfds ≡ length (setup rules w).rules
  unfolding setup keep_polled
  length-setup [] w = refl
  length-setup (r ∷ rules) w = elim (Bool-cases (finished r w)) [
    | inl y ↦ rw y (length-setup rules (cancel_rule r w))
    | inr n ↦ rw n (ap suc (length-setup rules (r.interest w).0))
  ]

  follow-EndsTurns :
      (r : Rule A) (rules : List (Rule A)) (p : PollFd) (w : World A) (next : World A → Outcome A)
      → ((v : World A) → EndsTurns (next v).ending)
      → EndsTurns (follow r rules (turn r p w) next).ending
  unfolding follow turn keep_rule EndsTurns
  follow-EndsTurns r rules p w next h = ground (arith, h w, h (cancel_rule r w), h (serve r w).0)

  pub paired-EndsTurns :
      (rules : List (Rule A)) (ps : List PollFd) (w : World A)
      → length ps ≡ length rules
      → EndsTurns (paired rules ps w).ending
  unfolding paired EndsTurns
  paired-EndsTurns [] ps w e = inl refl
  paired-EndsTurns (r ∷ rules) [] w e = absurd (omega (arith, e))
  paired-EndsTurns (r ∷ rules) (p ∷ ps) w e =
      follow-EndsTurns r rules p w (paired rules ps)
        (λ v. paired-EndsTurns rules ps v (omega (arith, e)))
