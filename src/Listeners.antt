-- ===== src/Listeners.antt =====
-- The set-up of sockets, by a loop over the addresses of `getaddrinfo`: LoginServer::initialize
-- (LoginServer.cxx), Session::start (Session.cxx), Acceptor::setup (Acceptor.cxx), the connection
-- that `main` of client.cxx makes, and setup_UDP_client_connection (server_utils.cxx).
use inferno_game_server.Base.{
  ℕ, Bool, true, false, List, [], ◌∷◌, ◌++◌, Option, none, some, if◌then◌else◌,
}
use inferno_game_server.ServerUtils.{Action, opens, closes, frees}
pub mod Usable
pub mod Scans
pub mod FirstUsable
mod Examples

-- An address: the descriptor that `socket` gives, and whether `setsockopt`, and `bind` or
-- `connect`, succeed.
pub record Address : Type 0 where
  pub fd : Option ℕ
  pub reusable : Bool
  pub takes : Bool

-- How a turn of the loop ends: by `continue`, by `break`, or by a `return` out of the function.
pub data Turn : Type 0 where
  continues breaks leaves : List Action → Turn

pub data Exit : Type 0 where
  ran_out broke left : Exit

-- What a loop leaves; `sock` is the variable that every turn assigns, with none for -1.
pub record Scan : Type 0 where
  pub exit : Exit
  pub sock : Option ℕ
  pub log : List Action

abbrev pub then_scan : Turn → Option ℕ → Scan → Scan
then_scan (continues log) sock rest = record rest { log = log ++ rest.log }
then_scan (breaks log) sock rest = record { exit = broke; sock = sock; log = log }
then_scan (leaves log) sock rest = record { exit = left; sock = sock; log = log }

-- for(i = addresses; i != NULL; i = i->ai_next)
unfoldable pub scan_addresses : (Address → Turn) → List Address → Option ℕ → Scan
scan_addresses turn [] sock = record { exit = ran_out; sock = sock; log = [] }
scan_addresses turn (a ∷ as') sock = then_scan (turn a) a.fd (scan_addresses turn as' a.fd)

-- A turn with `setsockopt` and `bind`.
abbrev pub reuse_turn : Option ℕ → Bool → Bool → Turn
reuse_turn none reusable takes = continues []
reuse_turn (some fd) false takes = leaves (opens fd ∷ [])
reuse_turn (some fd) true true = breaks (opens fd ∷ [])
reuse_turn (some fd) true false = continues (opens fd ∷ closes fd ∷ [])

-- A turn with `bind` or `connect` alone.
abbrev pub take_turn : Option ℕ → Bool → Turn
take_turn none takes = continues []
take_turn (some fd) true = breaks (opens fd ∷ [])
take_turn (some fd) false = continues (opens fd ∷ closes fd ∷ [])

-- A turn with neither.
abbrev pub open_turn : Option ℕ → Turn
open_turn none = continues []
open_turn (some fd) = breaks (opens fd ∷ [])

-- The truth value that is returned, the variable afterwards, and what was done.
pub record Setup : Type 0 where
  pub result : Bool
  pub sock : Option ℕ
  pub log : List Action

abbrev pub freed : Bool → Scan → Setup
freed result s = record { result = result; sock = s.sock; log = s.log ++ frees ∷ [] }

abbrev pub kept : Scan → Setup
kept s = record { result = false; sock = s.sock; log = s.log }

abbrev pub initialized : Exit → Scan → Setup
initialized ran_out s = freed false s
initialized broke s = freed true s
initialized left s = kept s

unfoldable pub initialize : Option (List Address) → Option ℕ → Setup
unfolding scan_addresses
initialize none sock = record { result = false; sock = sock; log = [] }
initialize (some available_addrs) sock =
    let s = scan_addresses (λ a. reuse_turn a.fd a.reusable a.takes) available_addrs sock in
    initialized s.exit s

-- Session::start: the result is whether `enter_main_loop` is reached. `listens` is whether `listen`
-- succeeds.
unfoldable pub start : Option (List Address) → Bool → Option ℕ → Setup
unfolding initialize
start info listens conn_socket =
    let s = initialize info conn_socket in if s.result then record s { result = listens } else s

abbrev pub taken : Exit → Scan → Setup
taken ran_out s = kept s
taken broke s = freed true s
taken left s = kept s

unfoldable pub setup : Option (List Address) → Option ℕ → Setup
unfolding scan_addresses
setup none sock = record { result = false; sock = sock; log = [] }
setup (some serverinfo) sock =
    let s = scan_addresses (λ a. take_turn a.fd a.takes) serverinfo sock in taken s.exit s

-- `main` of the client, up to its loop: the result is whether the loop is reached.
unfoldable pub connect_to_server : Option (List Address) → Option ℕ → Setup
unfolding scan_addresses
connect_to_server none sock = record { result = false; sock = sock; log = [] }
connect_to_server (some serverinfo) sock =
    let s = scan_addresses (λ a. take_turn a.fd a.takes) serverinfo sock in taken s.exit s

-- After a failed `getaddrinfo` the pointer, which nothing has set, is freed.
unfoldable pub setup_udp_client_connection : Option (List Address) → Option ℕ → Setup
unfolding scan_addresses
setup_udp_client_connection none sock = record { result = false; sock = sock; log = frees ∷ [] }
setup_udp_client_connection (some server_info) sock =
    let s = scan_addresses (λ a. open_turn a.fd) server_info sock in initialized s.exit s
