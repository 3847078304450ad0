-- ===== src/Webget/Laws.antt =====
-- `get_URL` of apps/webget.cc prints all that the server sends.
use cs144_2021_sponge.Prelude.{
  ℕ, zero, suc, ◌+◌, ◌-◌, ◌^◌, ◌≤◌, ◌<◌, ◌≡◌, refl, sym, ap, subst, ◌∙◌, true, false, Option, some,
  List, [], ◌∷◌, ◌++◌, length, arith, append-nil, append_assoc, length-append,
}
use cs144_2021_sponge.Address.{Address, from_host}
use cs144_2021_sponge.BufferList.{view_of}
use cs144_2021_sponge.Descriptor.{
  FdWrapper, wrapper, returns, read, close, register_read, register_write, mark_eof, buffer_size,
  shown,
}
use cs144_2021_sponge.Descriptor.Laws.{Progresses, write_all_returns}
use cs144_2021_sponge.Socket as Socket
use cs144_2021_sponge.Socket.{connect, shutdown, shut_wr}
use cs144_2021_sponge.Webget.{
  System, Fetch, finished, get_text, crlf, version_text, host_text, close_text, http_text, and_then,
  try_close, read_loop, send_text, talk, get_url, exited, exits, exit_of, main,
}

-- The reads from the `i`-th on return these texts, none of them empty or longer than one read takes, and then
-- the end.
unfoldable pub Serves : (reads : ℕ → Option (List ℕ)) → ℕ → List (List ℕ) → Type 0
Serves reads i [] = reads i ≡ some []
Serves reads i (c ∷ cs) =
    (reads i ≡ some c) × (0 < length c) × (length c ≤ buffer_size) × Serves reads (i + 1) cs

unfoldable pub concatenated : List (List ℕ) → List ℕ
concatenated [] = []
concatenated (c ∷ cs) = c ++ concatenated cs

-- The call ends with a closed descriptor and this text printed.
pub record Prints (text : List ℕ) (f : Option Fetch) : Type 0 where
  pub descriptor : FdWrapper
  pub ends : f ≡ some (finished descriptor text)
  pub closed : descriptor.is_closed ≡ true

-- The system lets everything succeed.
pub record Works (k : System) (host : List ℕ) : Type 0 where
  pub fd : ℕ
  pub opened : k.socket ≡ some fd
  pub address : Address
  pub resolved : from_host k.getaddrinfo host http_text ≡ some address
  pub connected : (n : ℕ) × (k.connect address ≡ some n)
  pub sends : (i : ℕ) → Progresses (k.writev i)
  pub shut : (n : ℕ) × (k.shutdown ≡ some n)
  pub closes : (n : ℕ) × (k.close ≡ some n)

read-chunk :
    (w : FdWrapper) (c : List ℕ)
    → 0 < length c
    → length c ≤ buffer_size
    → read w (2 ^ 64 - 1) (some c) ≡ returns (register_read w) c
unfolding read mark_eof
read-chunk w c some_ fits = ground (arith, some_, fits)

read-end :
    (w : FdWrapper)
    → read w (2 ^ 64 - 1) (some []) ≡ returns (register_read (record w { at_eof = true })) []
unfolding read mark_eof
read-end w = refl

loop-step :
    (k : System) (fuel i : ℕ) (w w' : FdWrapper) (printed text : List ℕ)
    → w.at_eof ≡ false
    → read w (2 ^ 64 - 1) (k.reads i) ≡ returns w' text
    → read_loop (suc fuel) k i w printed ≡ read_loop fuel k (i + 1) w' (printed ++ text)
unfolding read_loop
loop-step k fuel i w w' printed text open_ e = ground (arith, open_, e)

loop-end :
    (k : System) (fuel i : ℕ) (w : FdWrapper) (printed : List ℕ) (n : ℕ)
    → w.at_eof ≡ true
    → k.close ≡ some n
    → read_loop (suc fuel) k i w printed ≡ some (finished (close w) printed)
unfolding read_loop try_close
loop-end k fuel i w printed n ended e = ground (arith, ended, e)

register_read-open : (w : FdWrapper) → (register_read w).at_eof ≡ w.at_eof
unfolding register_read
register_read-open w = refl

close-closed : (w : FdWrapper) → (close w).is_closed ≡ true
unfolding close
close-closed w = refl

Prints-same :
    {text text' : List ℕ} {f f' : Option Fetch}
    → text ≡ text'
    → f ≡ f'
    → Prints text' f'
    → Prints text f
Prints-same {text} {text'} {f} {f'} e g p =
    subst (λ (t : List ℕ). Prints t f) (sym e) (subst (Prints text') (sym g) p)

read_loop-Prints :
    (k : System) (cs : List (List ℕ)) (fuel i : ℕ) (w : FdWrapper) (printed : List ℕ)
    → length cs + 2 ≤ fuel
    → w.at_eof ≡ false
    → (n : ℕ) × (k.close ≡ some n)
    → Serves k.reads i cs
    → Prints (printed ++ concatenated cs) (read_loop fuel k i w printed)
unfolding Serves concatenated
read_loop-Prints k cs zero i w printed enough open_ closes serves = absurd (omega (arith, enough))
read_loop-Prints k [] (suc zero) i w printed enough open_ closes serves =
    absurd (omega (arith, enough))
read_loop-Prints k [] (suc (suc fuel)) i w printed enough open_ closes serves =
    let ended : FdWrapper = register_read (record w { at_eof = true }) in
    record {
      descriptor = close ended;
      ends =
          loop-step k (suc fuel) i w ended printed [] open_
            (ap (read w (2 ^ 64 - 1)) serves ∙ read-end w)
          ∙ loop-end k fuel (i + 1) ended (printed ++ []) closes.0
              (register_read-open (record w { at_eof = true })) closes.1;
      closed = close-closed ended;
    }
read_loop-Prints k (c ∷ cs) (suc fuel) i w printed enough open_ closes serves =
    Prints-same (sym (append_assoc printed c (concatenated cs)))
      (loop-step k fuel i w (register_read w) printed c open_
        (ap (read w (2 ^ 64 - 1)) serves.0 ∙ read-chunk w c serves.1 serves.2))
      (read_loop-Prints k cs fuel (i + 1) (register_read w) (printed ++ c) (omega (arith, enough))
        (register_read-open w ∙ open_) closes serves.3)

-- A `write` of the request does not end the call.
send-Prints :
    (k : System) (i : ℕ) (text out : List ℕ) (w : FdWrapper) (next : FdWrapper → Option Fetch)
    → Progresses (k.writev i)
    → length text < 2 ^ 64
    → w.at_eof ≡ false
    → ((v : FdWrapper) → v.at_eof ≡ false → Prints out (next v))
    → Prints out (and_then (send_text k i text w) next)
unfolding and_then send_text shown
send-Prints k i text out w next p small open_ rest =
    let one : shown (text ∷ []) ≡ text = append-nil text in
    let (w', _, e, same, _, _) =
      write_all_returns (k.writev i) w (view_of text) p (omega (arith, ap length one, small)) in
    Prints-same refl (ap (λ o. and_then o next) e) (rest w' (same ∙ open_))

shutdown-Prints :
    (w : FdWrapper) (answer : Option ℕ) (n : ℕ) (out : List ℕ) (next : FdWrapper → Option Fetch)
    → answer ≡ some n
    → w.at_eof ≡ false
    → ((v : FdWrapper) → v.at_eof ≡ false → Prints out (next v))
    → Prints out (and_then (some (shutdown w shut_wr answer)) next)
unfolding and_then shutdown register_write
shutdown-Prints w answer n out next e open_ rest = rw e (rest (register_write w) open_)

talk-Prints :
    (k : System) (host path : List ℕ) (cs : List (List ℕ)) (fuel : ℕ)
    → Works k host
    → Serves k.reads 0 cs
    → length host < 2 ^ 63
    → length path < 2 ^ 63
    → length cs + 2 ≤ fuel
    → (w : FdWrapper) → w.at_eof ≡ false
    → Prints (concatenated cs) (talk fuel k host path w)
unfolding talk
talk-Prints k host path cs fuel works serves host_small path_small enough w open_ =
    send-Prints k 0 _ _ w _ (works.sends 0)
      (omega (
        arith,
        length-append get_text (path ++ version_text),
        length-append get_text path,
        length-append (get_text ++ path) version_text,
        path_small,
      ))
      open_
      (λ v1 o1.
        send-Prints k 1 _ _ v1 _ (works.sends 1)
          (omega (
            arith,
            length-append host_text host,
            length-append (host_text ++ host) crlf,
            host_small,
          ))
          o1
          (λ v2 o2. send-Prints k 2 close_text _ v2 _ (works.sends 2) (omega arith) o2 (λ v3 o3.
            send-Prints k 3 crlf _ v3 _ (works.sends 3) (omega arith) o3 (λ v4 o4.
              shutdown-Prints v4 k.shutdown works.shut.0 _ _ works.shut.1 o4
                (λ v5 o5. read_loop-Prints k cs fuel 0 v5 [] enough o5 works.closes serves)))))

get_url-talk :
    (k : System) (host path : List ℕ) (fuel fd : ℕ) (a : Address) (n : ℕ)
    → k.socket ≡ some fd
    → from_host k.getaddrinfo host http_text ≡ some a
    → k.connect a ≡ some n
    → get_url fuel k host path ≡ talk fuel k host path (wrapper fd)
unfolding get_url and_then Socket.new connect
get_url-talk k host path fuel fd a n opened resolved connected =
    ground (arith, opened, resolved, connected)

exits-Prints : {text : List ℕ} {f : Option Fetch} → Prints text f → exits f ≡ some (exited 0 text)
unfolding exits exit_of
exits-Prints p = ap exits p.ends

-- Where the system lets every call succeed, takes some byte of the request each time, and the server
-- sends some texts and closes: `get_URL` ends, has printed all of these texts in order and nothing else,
-- and leaves the descriptor closed, and the program exits with status 0. Host and path are shorter than
-- 2 ^ 63 bytes.
pub fetches_all :
    (k : System) (program host path : List ℕ) (cs : List (List ℕ)) (fuel : ℕ)
    → Works k host
    → Serves k.reads 0 cs
    → length host < 2 ^ 63
    → length path < 2 ^ 63
    → length cs + 2 ≤ fuel
    → Prints (concatenated cs) (get_url fuel k host path)
      × (main fuel k (program ∷ host ∷ path ∷ []) ≡ some (exited 0 (concatenated cs)))
unfolding main
fetches_all k program host path cs fuel works serves host_small path_small enough =
    let fetched : Prints (concatenated cs) (get_url fuel k host path) =
      Prints-same refl
        (get_url-talk k host path fuel works.fd works.address works.connected.0 works.opened
          works.resolved works.connected.1)
        (talk-Prints k host path cs fuel works serves host_small path_small enough
          (wrapper works.fd) refl) in
    (fetched, exits-Prints fetched)
