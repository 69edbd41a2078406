-- ===== src/Sockets/Lifetimes.antt =====
-- Sockets that come and go (Sockets/UDP_Socket.cxx, Socket.cxx): the destructor closes the
-- descriptor, and the registry keeps the port.
use inferno_game_server.Base.{
  ℕ, ◌+◌, ◌≤◌, ◌≡◌, inl, inr, Bool, true, false, ◌||◌, List, [], ◌∷◌, Option, Result, ok, err, ltb,
  arith, Bool-cases, ◌==◌, ==_iff, if◌then◌else◌,
}
use inferno_game_server.Sockets.{
  Errorcode, InitCode, Address, is_open, socket, initialize, initialized, udp_socket,
}
use inferno_game_server.Sockets.Ports.{initialized-ports}

-- The ports of the registry, and the descriptors of the sockets that live.
pub record Process : Type 0 where
  pub open_ports : List ℕ
  pub sock_fds : List ℕ

pub data Event : Type 0 where
  begins : InitCode → ℕ → Option (List Address) → Event
  ends : ℕ → Event

unfoldable pub close_fd : ℕ → List ℕ → List ℕ
close_fd fd [] = []
close_fd fd (f ∷ fds) = let rest = close_fd fd fds in if f == fd then fds else f ∷ rest

-- UDP_Socket::~UDP_Socket
unfoldable pub destroyed_socket : ℕ → Process → Process
unfolding close_fd
destroyed_socket sock_fd s = record s { sock_fds = close_fd sock_fd s.sock_fds }

abbrev pub lives : Result Errorcode ℕ → List ℕ → List ℕ
lives (ok fd) fds = fd ∷ fds
lives (err e) fds = fds

unfoldable pub happen : Event → Process → Process
unfolding udp_socket destroyed_socket
happen (begins code port info) s =
    let r = udp_socket code port info s.open_ports in
    record { open_ports = r.1; sock_fds = lives r.0 s.sock_fds }
happen (ends fd) s = destroyed_socket fd s

-- How often a constructor on the port returns.
abbrev one_if_ok : Bool → Result Errorcode ℕ → ℕ
one_if_ok true (ok fd) = 1
one_if_ok true (err e) = 0
one_if_ok false r = 0

abbrev pub returns : ℕ → Event → Process → ℕ
returns port (begins code port' info) s =
    one_if_ok (port == port') (udp_socket code port' info s.open_ports).0
returns port (ends fd) s = 0

unfoldable pub times : ℕ → List Event → Process → ℕ
unfolding happen
times port [] s = 0
times port (e ∷ es) s = returns port e s + times port es (happen e s)

-- The port is free.
abbrev pub free : ℕ → Process → ℕ
free port s = if is_open port s.open_ports then 0 else 1

one_if_ok-le : (b : Bool) (r : Result Errorcode ℕ) → one_if_ok b r ≤ 1
one_if_ok-le true (ok fd) = omega arith
one_if_ok-le true (err e) = omega arith
one_if_ok-le false r = omega arith

-- On a port that is not in the registry.
fresh :
    (port port' : ℕ) (r : Result Errorcode ℕ) (ports : List ℕ)
    → (is_open port' ports || ltb port' 1000) ≡ false
    → one_if_ok (port == port') r + (if port == port' || is_open port ports then 0 else 1)
      ≤ (if is_open port ports then 0 else 1)
fresh port port' r ports h = elim (Bool-cases (port == port')) [
  | inl same ↦
      let e = (==_iff port port').0 same in
      let none_open : is_open port ports ≡ false = ground arith in
      rw (same, none_open) (omega (arith, one_if_ok-le true r))
  | inr other ↦ rw other (omega arith)
]

happen-free :
    (port : ℕ) (e : Event) (s : Process) → returns port e s + free port (happen e s) ≤ free port s
unfolding happen udp_socket socket destroyed_socket
happen-free port (ends fd) s = omega arith
happen-free port (begins code port' info) s =
    elim (Bool-cases (is_open port' s.open_ports || ltb port' 1000)) [
      | inl taken ↦ rw taken (ground arith)
      | inr allowed ↦
          rw (allowed, initialized-ports (port' ∷ s.open_ports) (initialize code info).0)
            (let r = (initialized (port' ∷ s.open_ports) (initialize code info).0).0 in
              fresh port port' r s.open_ports allowed)
    ]

times-free : (port : ℕ) (es : List Event) (s : Process) → times port es s ≤ free port s
unfolding times
times-free port [] s = omega arith
times-free port (e ∷ es) s = omega (arith, times-free port es (happen e s), happen-free port e s)

free-le : (port : ℕ) (s : Process) → free port s ≤ 1
free-le port s = ground arith

-- A port serves one socket in the life of a program. However sockets are constructed and destroyed, from
-- whatever registry: on each port a constructor returns at most once, and never if the port is in the
-- registry, though its socket has been destroyed.
pub port_serves_once :
    (port : ℕ) (es : List Event) (s : Process)
    → (times port es s ≤ 1) × (is_open port s.open_ports ≡ true → times port es s ≡ 0)
port_serves_once port es s =
    let bound = times-free port es s in
    let most = free-le port s in (omega (arith, bound, most), λ h. ground (arith, bound))
