-- ===== src/Sockets.antt =====
-- Sockets: the registry of ports (Socket.cxx), sockets for UDP (UDP_Socket.cxx,
-- Unreliable_UDP_Socket.cxx), and clients with a timeout (Client.cxx).
use inferno_game_server.Base.{
  ℕ, zero, suc, ◌+◌, ◌-◌, ◌*◌, ◌/◌, ◌%◌, ◌≤◌, Bool, true, false, not, ◌&&◌, ◌||◌, List, [], ◌∷◌,
  ◌++◌, Option, none, some, Result, ok, err, ltb, leb, ◌==◌, length, take, if◌then◌else◌,
}
use inferno_game_server.Base.Int.{ℤ, pos, negsuc}
use inferno_game_server.Base.Bytes.{overlay}
pub mod Ports
pub mod Addresses
pub mod Timeout
pub mod Refusals
pub mod Lifetimes
pub mod Peers
pub mod Shorts
mod Examples

-- `undefined` behaviour is no errorcode of the source.
pub data Errorcode : Type 0 where
  port_exception initialize_exception buffer_overflow_exception receive_exception : Errorcode
  send_exception undefined : Errorcode

pub data InitCode : Type 0 where
  init_as_server init_as_client : InitCode

-- std::unordered_set::count
abbrev pub is_open : ℕ → List ℕ → Bool
is_open port [] = false
is_open port (p ∷ ps) = port == p || is_open port ps

-- The constructors of `Socket`, on the ports that are open.
unfoldable pub socket : ℕ → List ℕ → Result Errorcode (List ℕ)
socket req_port open_ports =
    if is_open req_port open_ports || ltb req_port 1000
    then err port_exception
    else ok (req_port ∷ open_ports)

unfoldable pub is_port_available : ℕ → List ℕ → Bool
is_port_available req_port open_ports = if is_open req_port open_ports then false else true

-- One address that `getaddrinfo` returns: the descriptor that `socket` gives, if any, and whether `bind`
-- succeeds.
pub record Address : Type 0 where
  pub fd : Option ℕ
  pub binds : Bool

-- What is done to descriptors.
pub data FdAction : Type 0 where
  opens closes : ℕ → FdAction

abbrev pub then_do : List FdAction → Option ℕ × List FdAction → Option ℕ × List FdAction
then_do before r = (r.0, before ++ r.1)

-- One turn of the loop of `initialize_server`, and what the later turns do.
abbrev pub bind_one : Option ℕ → Bool → Option ℕ × List FdAction → Option ℕ × List FdAction
bind_one none binds rest = rest
bind_one (some fd) true rest = (some fd, opens fd ∷ [])
bind_one (some fd) false rest = then_do (opens fd ∷ closes fd ∷ []) rest

-- The loop: the descriptor that is bound.
unfoldable pub bind_first : List Address → Option ℕ × List FdAction
bind_first [] = (none, [])
bind_first (a ∷ as') = bind_one a.fd a.binds (bind_first as')

abbrev pub open_one : Option ℕ → Option ℕ × List FdAction → Option ℕ × List FdAction
open_one none rest = rest
open_one (some fd) rest = (some fd, opens fd ∷ [])

-- The loop of `initialize_client`.
unfoldable pub open_first : List Address → Option ℕ × List FdAction
open_first [] = (none, [])
open_first (a ∷ as') = open_one a.fd (open_first as')

abbrev pub some_address : Option ℕ → Result Errorcode (Option ℕ)
some_address none = err undefined
some_address (some fd) = ok (some fd)

-- `getaddrinfo` fails or gives addresses. The result is the descriptor, where true is returned.
unfoldable pub initialize_server : Option (List Address) → Option ℕ × List FdAction
unfolding bind_first
initialize_server none = (none, [])
initialize_server (some addresses) = bind_first addresses

-- `i->ai_addr` is read before `i` is compared with NULL.
unfoldable pub initialize_client :
    Option (List Address) → Result Errorcode (Option ℕ) × List FdAction
unfolding open_first
initialize_client none = (ok none, [])
initialize_client (some addresses) = let r = open_first addresses in (some_address r.0, r.1)

unfoldable pub initialize :
    InitCode → Option (List Address) → Result Errorcode (Option ℕ) × List FdAction
unfolding initialize_server initialize_client
initialize init_as_server info = let r = initialize_server info in (ok r.0, r.1)
initialize init_as_client info = initialize_client info

abbrev pub initialized : List ℕ → Result Errorcode (Option ℕ) → Result Errorcode ℕ × List ℕ
initialized open_ports (ok none) = (err initialize_exception, open_ports)
initialized open_ports (ok (some fd)) = (ok fd, open_ports)
initialized open_ports (err e) = (err e, open_ports)

abbrev pub constructed :
    InitCode
    → Option (List Address)
    → List ℕ
    → Result Errorcode (List ℕ)
    → Result Errorcode ℕ × List ℕ
constructed code info open_ports (err e) = (err e, open_ports)
constructed code info open_ports (ok open_ports') = initialized open_ports' (initialize code info).0

-- The constructors of `UDP_Socket`: the descriptor or what is thrown, and the ports that are then open.
unfoldable pub udp_socket :
    InitCode → ℕ → Option (List Address) → List ℕ → Result Errorcode ℕ × List ℕ
unfolding socket initialize
udp_socket code port info open_ports = constructed code info open_ports (socket port open_ports)

-- recvfrom: -1, or the bytes that came, of which at most `buf_size` are stored.
unfoldable pub recv_str : ℕ → Option (List ℕ) → List ℕ → Result Errorcode (List ℕ × ℕ)
unfolding overlay
recv_str buf_size none buffer = err receive_exception
recv_str buf_size (some bytes) buffer =
    let stored = take buf_size bytes in
    if ltb buf_size (length stored)
    then err buffer_overflow_exception
    else ok (overlay stored buffer, length stored)

-- A short in the byte order of the network; the 16 bits of a short as a number.
abbrev pub short_of : List ℕ → Result Errorcode ℕ
short_of [] = err receive_exception
short_of (hi ∷ []) = err receive_exception
short_of (hi ∷ lo ∷ bytes) = ok (hi * 256 + lo)

unfoldable pub recv_short : Option (List ℕ) → Result Errorcode ℕ
recv_short none = err receive_exception
recv_short (some bytes) = short_of (take 2 bytes)

abbrev pub sent_all : ℤ → List ℕ → Result Errorcode (List ℕ)
sent_all (negsuc n) buffer = err send_exception
sent_all (pos n) buffer = if n == length buffer then ok buffer else err send_exception

-- sendto: how many bytes go out. The result is the bytes that are sent, or what is thrown.
unfoldable pub send_str : (List ℕ → ℤ) → List ℕ → Result Errorcode (List ℕ)
send_str sendto buffer = sent_all (sendto buffer) buffer

unfoldable pub send_short : (List ℕ → ℤ) → ℕ → Result Errorcode (List ℕ)
unfolding send_str
send_short sendto n = send_str sendto (n / 256 ∷ n % 256 ∷ [])

-- A client: the second of its last contact.
pub record Client : Type 0 where
  pub address : List ℕ
  pub last_contact : ℕ

unfoldable pub update_timeout : ℕ → Client → Client
update_timeout now c = record c { last_contact = now }

-- unsigned int elapsed = current_time.tv_sec - last_contact.tv_sec; elapsed >= TIMEOUT
unfoldable pub is_timed_out : ℕ → Client → Bool
is_timed_out now c =
    if leb c.last_contact now
    then leb 10 ((now - c.last_contact) % 4294967296)
    else leb 10 ((4294967296 - (c.last_contact - now) % 4294967296) % 4294967296)
