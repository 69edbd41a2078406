-- ===== src/Listeners/FirstUsable.antt =====
-- The set-ups of sockets against the search for the first usable address.
use inferno_game_server.Base.{
  ℕ, ◌≡◌, refl, ◌∙◌, Bool, true, false, ◌&&◌, List, [], ◌∷◌, ◌++◌, Option, none, some, arith,
  if◌then◌else◌,
}
use inferno_game_server.ServerUtils.{Action, opens, closes, frees}
use inferno_game_server.ServerUtils.Frees.{free_count, free_count-append}
use inferno_game_server.Listeners.{
  Address, Scan, reuse_turn, take_turn, open_turn, Setup, initialized, taken, initialize, start,
  setup, connect_to_server, setup_udp_client_connection,
}
use inferno_game_server.Listeners.Usable.{
  Verdict, usable, unusable, judged, judged_take, judged_open, first, is_usable, held, sock_after,
  last_fd, left_open,
}
use inferno_game_server.Listeners.Scans.{
  left_open-append, Fits, goes_on, finds, gives_up, Meets, exit_of, scan_addresses-Meets,
}

closed : (fd : ℕ) (fds : List ℕ) → left_open (opens fd ∷ closes fd ∷ []) fds ≡ fds
closed fd fds = ground arith

reuse_turn-Fits :
    (fd : Option ℕ) (reusable takes : Bool)
    → Fits (judged fd reusable takes) fd (reuse_turn fd reusable takes)
reuse_turn-Fits none reusable takes = goes_on (λ fds. refl) refl
reuse_turn-Fits (some fd) false takes = gives_up refl refl
reuse_turn-Fits (some fd) true true = finds refl refl
reuse_turn-Fits (some fd) true false = goes_on (closed fd) refl

take_turn-Fits :
    (fd : Option ℕ) (takes : Bool) → Fits (judged fd true takes) fd (take_turn fd takes)
take_turn-Fits none takes = goes_on (λ fds. refl) refl
take_turn-Fits (some fd) true = finds refl refl
take_turn-Fits (some fd) false = goes_on (closed fd) refl

open_turn-Fits : (fd : Option ℕ) → Fits (judged fd true true) fd (open_turn fd)
open_turn-Fits none = goes_on (λ fds. refl) refl
open_turn-Fits (some fd) = finds refl refl

-- What a set-up promises: the verdict of its search, and how often the list is freed.
pub record Implements (s : Setup) (v : Option Verdict) (last : Option ℕ) (free_times : ℕ)
    : Type 0 where
  pub result : s.result ≡ is_usable v
  pub sock : s.sock ≡ sock_after v last
  pub opened : left_open s.log [] ≡ held v
  pub freed : free_count s.log ≡ free_times

freed-opened : (log : List Action) → left_open (log ++ frees ∷ []) [] ≡ left_open log []
freed-opened log = left_open-append log (frees ∷ []) []

-- ... where the list is freed unless the function is left early,
abbrev pub frees_unless_left : Option Verdict → ℕ
frees_unless_left none = 1
frees_unless_left (some (usable fd)) = 1
frees_unless_left (some (unusable fd)) = 0

initialized-Implements :
    (s : Scan) (v : Option Verdict) (last : Option ℕ)
    → Meets s v last
    → Implements (initialized (exit_of v) s) v last (frees_unless_left v)
initialized-Implements s none last m = record {
  result = refl;
  sock = m.sock;
  opened = freed-opened s.log ∙ m.opened;
  freed = omega (arith, free_count-append s.log (frees ∷ []), m.unfreed);
}
initialized-Implements s (some (usable fd)) last m = record {
  result = refl;
  sock = m.sock;
  opened = freed-opened s.log ∙ m.opened;
  freed = omega (arith, free_count-append s.log (frees ∷ []), m.unfreed);
}
initialized-Implements s (some (unusable fd)) last m = record {
  result = refl;
  sock = m.sock;
  opened = m.opened;
  freed = m.unfreed;
}

-- ... and where it is freed only if the search succeeds.
abbrev pub frees_if_usable : Option Verdict → ℕ
frees_if_usable none = 0
frees_if_usable (some (usable fd)) = 1
frees_if_usable (some (unusable fd)) = 0

taken-Implements :
    (s : Scan) (v : Option Verdict) (last : Option ℕ)
    → Meets s v last
    → Implements (taken (exit_of v) s) v last (frees_if_usable v)
taken-Implements s none last m = record {
  result = refl;
  sock = m.sock;
  opened = m.opened;
  freed = m.unfreed;
}
taken-Implements s (some (usable fd)) last m = record {
  result = refl;
  sock = m.sock;
  opened = freed-opened s.log ∙ m.opened;
  freed = omega (arith, free_count-append s.log (frees ∷ []), m.unfreed);
}
taken-Implements s (some (unusable fd)) last m = record {
  result = refl;
  sock = m.sock;
  opened = m.opened;
  freed = m.unfreed;
}

-- LoginServer::initialize implements the search for the first address whose socket can be bound, or
-- cannot be made reusable: it returns true exactly in the first case, with that socket in its
-- variable, and leaves no other descriptor open; in the second it returns false with the socket
-- open and the list not freed, and else it frees the list once.
pub initialize_refines :
    (addresses : List Address) (sock : Option ℕ)
    → let v = first (λ a. judged a.fd a.reusable a.takes) addresses in
      Implements (initialize (some addresses) sock) v (last_fd addresses sock) (frees_unless_left v)
unfolding initialize
initialize_refines addresses sock =
    let ends : Address → Option Verdict = λ a. judged a.fd a.reusable a.takes in
    let m =
      scan_addresses-Meets (λ a. reuse_turn a.fd a.reusable a.takes) ends
        (λ a. reuse_turn-Fits a.fd a.reusable a.takes) addresses sock in
    rw m.exit (initialized-Implements _ (first ends addresses) (last_fd addresses sock) m)

-- Acceptor::setup and the client's connection implement the search for the first address that can
-- be bound or connected to, and setup_UDP_client_connection that for the first that has a socket:
-- they return true exactly if there is one, with its socket in their variable, and leave no other
-- descriptor open. The last frees the list once in any case, the others only where they succeed.
pub setups_refine :
    (addresses : List Address) (sock : Option ℕ)
    → let v = first judged_take addresses in
      let w = first judged_open addresses in
      let last = last_fd addresses sock in
      Implements (setup (some addresses) sock) v last (frees_if_usable v)
      × Implements (connect_to_server (some addresses) sock) v last (frees_if_usable v)
      × Implements (setup_udp_client_connection (some addresses) sock) w last (frees_unless_left w)
unfolding setup connect_to_server setup_udp_client_connection
setups_refine addresses sock =
    let last = last_fd addresses sock in
    let m =
      scan_addresses-Meets (λ a. take_turn a.fd a.takes) judged_take
        (λ a. take_turn-Fits a.fd a.takes) addresses sock in
    let n =
      scan_addresses-Meets (λ a. open_turn a.fd) judged_open (λ a. open_turn-Fits a.fd) addresses
        sock in
    (
      rw m.exit (taken-Implements _ (first judged_take addresses) last m),
      rw m.exit (taken-Implements _ (first judged_take addresses) last m),
      rw n.exit (initialized-Implements _ (first judged_open addresses) last n),
    )

listened :
    (result listens : Bool) (sock : Option ℕ) (log : List Action)
    → let s : Setup = record { result = result; sock = sock; log = log } in
      (if result then record s { result = listens } else s)
      ≡ record s { result = result && listens }
listened true listens sock log = refl
listened false listens sock log = refl

-- Session::start reaches its main loop exactly if LoginServer::initialize would return true on the
-- same addresses and `listen` succeeds; its socket, the descriptors that it leaves open and the
-- frees of its list are those of LoginServer::initialize either way, so a failed `listen` leaves
-- the socket open.
pub start-initialize :
    (info : Option (List Address)) (listens : Bool) (sock : Option ℕ)
    → let s = initialize info sock in
      start info listens sock ≡ record s { result = s.result && listens }
unfolding start
start-initialize info listens sock =
    let s = initialize info sock in listened s.result listens s.sock s.log
