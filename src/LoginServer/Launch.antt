-- ===== src/LoginServer/Launch.antt =====
-- The constructor of the login server (LoginServer.cxx) and its `main` (launcher.cxx). The port that the
-- constructor is given reaches `getaddrinfo` through a pointer into a string that is gone by then; what
-- `getaddrinfo` makes of it is an argument, as everywhere.
use inferno_game_server.Base.{
  ℕ, suc, ◌≡◌, refl, Bool, true, false, ◌&&◌, List, [], Option, none, some, ◌==◌, if◌then◌else◌,
}
use inferno_game_server.LoginServer.Handler.{Action}
use inferno_game_server.LoginServer.Requests.{Server, Accept, End, rounds, start}
use inferno_game_server.LoginServer.Children.{held, children, rounds-children}
use inferno_game_server.Listeners.{Address, initialize, setup_udp_client_connection}
use inferno_game_server.Listeners.Usable.{judged, first, last_fd, sock_after}
use inferno_game_server.Listeners.FirstUsable.{initialize_refines}

unfoldable pub ssl_initialize : Bool → Bool
ssl_initialize library_init = if library_init then true else false

-- RAND_status
unfoldable pub rng_init : ℕ → Bool
rng_init is_seeded = if is_seeded == 0 then false else true

-- What the constructor meets, and what its two sockets hold before; `connects` is whether the database is
-- there, and no SQLException thrown.
pub record Surroundings : Type 0 where
  pub library_init : Bool
  pub is_seeded : ℕ
  pub connects : Bool
  pub chat_addresses : Option (List Address)
  pub match_addresses : Option (List Address)
  pub chat_sock : Option ℕ
  pub match_sock : Option ℕ

pub record LoginServer : Type 0 where
  pub instance_number : ℕ
  pub server : Server
  pub chat_sock : Option ℕ
  pub match_sock : Option ℕ

abbrev pub fresh_server : Server
fresh_server = record { next_registration_port = 13000; next_login_port = 14000; open_conns = [] }

-- The results of `ssl_initialize`, of `rng_init` and of both set-ups are not used, but for messages. None
-- is returned where the exception ends the program.
unfoldable pub login_server : ℕ → Surroundings → Option LoginServer
unfolding setup_udp_client_connection ssl_initialize rng_init
login_server instance_number w =
    let ssl = ssl_initialize w.library_init in
    let rng = rng_init w.is_seeded in
    if w.connects
    then some (record {
      instance_number = suc instance_number;
      server = fresh_server;
      chat_sock = (setup_udp_client_connection w.chat_addresses w.chat_sock).sock;
      match_sock = (setup_udp_client_connection w.match_addresses w.match_sock).sock;
    })
    else none

abbrev pub launched :
    Option LoginServer
    → (Server → Option (Server × List (End × List Action)))
    → Option (Server × List (End × List Action))
launched none k = none
launched (some ls) k = k ls.server

-- `main`: `stack` is what the listening socket holds before, and `listens` is whether `listen` succeeds on
-- the socket that `initialize` has left; its result is not looked at. None is where no client is served.
unfoldable pub launch :
    Surroundings
    → Option (List Address)
    → (Option ℕ → Bool)
    → Bool
    → Option ℕ
    → List Accept
    → Option (Server × List (End × List Action))
unfolding login_server initialize start
launch w info listens sigaction stack accepts =
    launched (login_server 0 w)
      (λ server. start (listens (initialize info stack).sock) sigaction server accepts)

started :
    (b c : Bool) (s : Server) (accepts : List Accept)
    → start b c s accepts ≡ (if b && c then some (rounds s accepts) else none)
unfolding start
started true true s accepts = refl
started true false s accepts = refl
started false c s accepts = refl

-- From `main` to the clients: if the database is there, the program serves exactly if `listen`, on the
-- socket of the first address that ends the search, or else on what the last address gave, and `sigaction`
-- succeed; and then every child is served with the ports 13000 for signing up and 14000 for logging in,
-- and no descriptor of an accepted connection is closed. Whether `initialize` succeeded makes no
-- difference but for the socket.
pub launch_serves :
    (w : Surroundings) (addresses : List Address) (listens : Option ℕ → Bool) (sigaction : Bool)
    (stack : Option ℕ) (accepts : List Accept)
    → w.connects ≡ true
    → let v = first (λ a. judged a.fd a.reusable a.takes) addresses in
      launch w (some addresses) listens sigaction stack accepts ≡ (
        if listens (sock_after v (last_fd addresses stack)) && sigaction
        then some
            (record fresh_server { open_conns = held accepts [] }, children fresh_server accepts)
        else none)
unfolding launch login_server
launch_serves w addresses listens sigaction stack accepts db =
    rw
      (db, (initialize_refines addresses stack).sock, started, rounds-children fresh_server accepts)
      refl
