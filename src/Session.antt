-- ===== src/Session.antt =====
-- GameServer/ChatServer/Session.cxx (Linear/Session.cxx differs in names only): a chat session keeps the
-- clients of two teams, and passes on what one client sends.
use inferno_game_server.Base.{
  ℕ, zero, suc, ◌+◌, ◌≤◌, Bool, true, false, not, ◌&&◌, List, [], ◌∷◌, ◌++◌, Option, none, some,
  Result, ok, err, ◌>>=◌, ltb, leb, ◌==◌, length, take, if◌then◌else◌,
}
pub mod Teams
pub mod Broadcast
pub mod Loop
pub mod Fuel
pub mod Forgets
pub mod Launch
mod Examples

pub data Team : Type 0 where
  red blue : Team

-- A client is the number of its object.
pub record Clients : Type 0 where
  pub red_clients : List ℕ
  pub blue_clients : List ℕ

unfoldable pub add_client : ℕ → ℕ → Team → Clients → Clients × Bool
add_client team_size c red t =
    if ltb (length t.red_clients) team_size
    then (record t { red_clients = t.red_clients ++ c ∷ [] }, true)
    else (t, false)
add_client team_size c blue t =
    if ltb (length t.blue_clients) team_size
    then (record t { blue_clients = t.blue_clients ++ c ∷ [] }, true)
    else (t, false)

-- std::list::remove
unfoldable pub remove : ℕ → List ℕ → List ℕ
remove target [] = []
remove target (c ∷ cs) = if c == target then remove target cs else c ∷ remove target cs

unfoldable pub remove_client : ℕ → Clients → Clients
unfolding remove
remove_client target t = record {
  red_clients = remove target t.red_clients;
  blue_clients = remove target t.blue_clients;
}

-- The sockets: the highest descriptor, and the set that `select` reads and overwrites.
pub record State : Type 0 where
  pub max_fd : ℕ
  pub client_set : ℕ → Bool

abbrev pub fd_set : ℕ → (ℕ → Bool) → ℕ → Bool
fd_set fd set i = if i == fd then true else set i

abbrev pub fd_clr : ℕ → (ℕ → Bool) → ℕ → Bool
fd_clr fd set i = if i == fd then false else set i

-- A call of `recv` on a blocking socket: at least one byte is there, or it returns 0 or -1, or it does not
-- return.
pub data Received : Type 0 where
  got : ℕ → List ℕ → Received
  closed : Received
  waits : Received

-- A call of `accept`.
pub data Accepted : Type 0 where
  connected : ℕ → Accepted
  refused : Accepted
  idle : Accepted

-- `blocked` in a call that does not return; `select_failed` returns from the loop. `ran_out` of fuel is
-- no behaviour of the code.
pub data Stop : Type 0 where
  blocked select_failed ran_out : Stop

pub record Send : Type 0 where
  pub to : ℕ
  pub bytes : List ℕ

-- What `recv` puts into the array of MAXPACKETSIZE.
abbrev pub packet : ℕ → List ℕ → List ℕ
packet byte bytes = take 1024 (byte ∷ bytes)

-- if(FD_ISSET(i, &client_set)) if((i != conn_socket) && (i != sender_fd)) send(..);
abbrev pub send_one : ℕ → List ℕ → ℕ → (ℕ → Bool) → ℕ → List Send
send_one conn_socket bytes sender_fd client_set i =
    if client_set i
    then if not (i == conn_socket) && not (i == sender_fd)
      then record { to = i; bytes = bytes } ∷ []
      else []
    else []

-- for(i = 0; i < max_fd; i++) ...
unfoldable pub broadcast : ℕ → List ℕ → ℕ → (ℕ → Bool) → ℕ → List Send
broadcast conn_socket bytes sender_fd client_set zero = []
broadcast conn_socket bytes sender_fd client_set (suc i) =
    broadcast conn_socket bytes sender_fd client_set i
    ++ send_one conn_socket bytes sender_fd client_set i

unfoldable pub handle_recv : ℕ → ℕ → Received → State → Result Stop (State × List Send)
unfolding broadcast
handle_recv conn_socket sender_fd waits s = err blocked
handle_recv conn_socket sender_fd closed s =
    ok (record s { client_set = fd_clr sender_fd s.client_set }, [])
handle_recv conn_socket sender_fd (got byte bytes) s =
    ok (s, broadcast conn_socket (packet byte bytes) sender_fd s.client_set s.max_fd)

unfoldable pub handle_accept : Accepted → State → Result Stop (State × List Send)
handle_accept idle s = err blocked
handle_accept refused s = ok (s, [])
handle_accept (connected fd) s = ok (
  record { client_set = fd_set fd s.client_set; max_fd = if ltb s.max_fd fd then fd else s.max_fd },
  [],
)

-- What the system does in one pass of the loop: whether `select` succeeds, the set that it leaves in
-- place of its argument, and what the calls on the sockets give.
pub record World : Type 0 where
  pub select_ok : Bool
  pub ready : ℕ → Bool
  pub accept : Accepted
  pub recv : ℕ → Received

abbrev pub handle : ℕ → World → ℕ → State → Result Stop (State × List Send)
handle conn_socket w i s =
    if i == conn_socket then handle_accept w.accept s else handle_recv conn_socket i (w.recv i) s

-- for(i = 0; i <= max_fd; i++) if(FD_ISSET(i, &temp_set)) ..: `max_fd` may grow on the way.
unfoldable pub sweep : ℕ → ℕ → World → (ℕ → Bool) → ℕ → State → Result Stop (State × List Send)
unfolding handle_recv handle_accept
sweep zero conn_socket w temp_set i s = if leb i s.max_fd then err ran_out else ok (s, [])
sweep (suc fuel) conn_socket w temp_set i s =
    let next = λ (r : State × List Send).
      (sweep fuel conn_socket w temp_set (i + 1) r.0 >>= λ r'. ok (r'.0, r.1 ++ r'.1)) in
    if leb i s.max_fd
    then ((if temp_set i then handle conn_socket w i s else ok (s, [])) >>= next)
    else ok (s, [])

-- One pass of the main loop. Descriptors are below FD_SETSIZE.
unfoldable pub pass : ℕ → World → State → Result Stop (State × List Send)
unfolding sweep
pass conn_socket w s =
    if w.select_ok
    then sweep 1024 conn_socket w s.client_set 0 (record s { client_set = w.ready })
    else err select_failed

unfoldable pub enter_main_loop : ℕ → List World → State → Result Stop (State × List Send)
unfolding pass
enter_main_loop conn_socket [] s = ok (s, [])
enter_main_loop conn_socket (w ∷ ws) s = pass conn_socket w s >>= λ r.
    enter_main_loop conn_socket ws r.0 >>= λ r'. ok (r'.0, r.1 ++ r'.1)

-- FD_SET(conn_socket, &client_set); max_fd = conn_socket;
abbrev pub entered : ℕ → State
entered conn_socket = record { max_fd = conn_socket; client_set = fd_set conn_socket (λ i. false) }
