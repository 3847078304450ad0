-- ===== src/Webget/Tests.antt =====
-- A server that sends two texts, and the instance of the theorem.
use cs144_2021_sponge.Prelude.{
  ℕ, min, ◌≡◌, refl, Option, none, some, List, [], ◌∷◌, length, get_elem?, arith,
}
use cs144_2021_sponge.Address.{found, address, from_host, resolve, make_hints, c_str}
use cs144_2021_sponge.Webget.{System, get_url, main, exited}
use cs144_2021_sponge.Webget.Laws.{Works, Serves, Prints, concatenated, fetches_all}

abbrev replies : List (List ℕ)
replies = (72 ∷ 105 ∷ []) ∷ (33 ∷ []) ∷ []

abbrev end_of : Option (List ℕ) → Option (List ℕ)
end_of none = some []
end_of (some text) = some text

abbrev system : System
system = record {
  socket = some 3;
  getaddrinfo = λ node service hints. found (2 ∷ 0 ∷ []) 2;
  connect = λ a. some 0;
  writev = λ i round text. some (min 2 (length text));
  shutdown = some 0;
  reads = λ i. end_of (get_elem? replies i);
  close = some 0;
}

system-Works : Works system (104 ∷ [])
unfolding from_host resolve make_hints address c_str
system-Works = record {
  fd = 3;
  opened = refl;
  address = _;
  resolved = refl;
  connected = (0, refl);
  sends = λ i round text. (min 2 (length text), refl, omega arith, omega arith);
  shut = (0, refl);
  closes = (0, refl);
}

replies-Serves : Serves system.reads 0 replies
unfolding Serves
replies-Serves = (refl, omega arith, omega arith, (refl, omega arith, omega arith, refl))

fetches_all_example :
    Prints (concatenated replies) (get_url 4 system (104 ∷ []) (47 ∷ []))
    × (main 4 system ((119 ∷ []) ∷ (104 ∷ []) ∷ (47 ∷ []) ∷ [])
        ≡ some (exited 0 (72 ∷ 105 ∷ 33 ∷ [])))
unfolding concatenated
fetches_all_example =
    fetches_all system (119 ∷ []) (104 ∷ []) (47 ∷ []) replies 4 system-Works replies-Serves
      (omega arith) (omega arith) (omega arith)

-- Without its two arguments the program fails.
main-usage : main 4 system ((119 ∷ []) ∷ []) ≡ some (exited 1 [])
unfolding main
main-usage = refl
