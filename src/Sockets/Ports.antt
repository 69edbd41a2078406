-- ===== src/Sockets/Ports.antt =====
-- The registry of ports (Sockets/Socket.cxx, UDP_Socket.cxx).
use inferno_game_server.Base.{
  ℕ, ◌≤◌, ◌≡◌, inl, inr, refl, true, false, ◌||◌, List, [], ◌∷◌, Option, none, some, Result, ok,
  err, arith, ltb, Bool-cases,
}
use inferno_game_server.Sockets.{
  Errorcode, port_exception, InitCode, init_as_server, is_open, socket, is_port_available, Address,
  initialize, initialized, constructed, udp_socket,
}

-- Every port is open once, and none is below 1000.
abbrev pub IsRegistry : List ℕ → Type 0
IsRegistry [] = Unit
IsRegistry (p ∷ ps) = (1000 ≤ p) × (is_open p ps ≡ false) × IsRegistry ps

abbrev IsSound : Result Errorcode (List ℕ) → Type 0
IsSound (ok open_ports) = IsRegistry open_ports
IsSound (err e) = Unit

socket-IsRegistry :
    (port : ℕ) (open_ports : List ℕ) → IsRegistry open_ports → IsSound (socket port open_ports)
unfolding socket
socket-IsRegistry port open_ports h = elim (Bool-cases (is_open port open_ports || ltb port 1000)) [
  | inl taken ↦ rw taken tt
  | inr free ↦ rw free (ground arith)
]

pub initialized-ports :
    (open_ports : List ℕ) (r : Result Errorcode (Option ℕ))
    → (initialized open_ports r).1 ≡ open_ports
initialized-ports open_ports (ok none) = refl
initialized-ports open_ports (ok (some fd)) = refl
initialized-ports open_ports (err e) = refl

constructed-IsRegistry :
    (code : InitCode) (info : Option (List Address)) (open_ports : List ℕ)
    (s : Result Errorcode (List ℕ))
    → IsRegistry open_ports
    → IsSound s
    → IsRegistry (constructed code info open_ports s).1
constructed-IsRegistry code info open_ports (err e) h k = h
constructed-IsRegistry code info open_ports (ok ports) h k =
    rw (initialized-ports ports (initialize code info).0) k

-- Whatever a constructor of a UDP socket returns or throws, the registry keeps to its form.
pub udp_socket-IsRegistry :
    (code : InitCode) (port : ℕ) (info : Option (List Address)) (open_ports : List ℕ)
    → IsRegistry open_ports
    → IsRegistry (udp_socket code port info open_ports).1
unfolding udp_socket
udp_socket-IsRegistry code port info open_ports h =
    constructed-IsRegistry code info open_ports (socket port open_ports) h
      (socket-IsRegistry port open_ports h)

socket_ok :
    (port : ℕ) (open_ports : List ℕ)
    → is_port_available port open_ports ≡ true
    → 1000 ≤ port
    → socket port open_ports ≡ ok (port ∷ open_ports)
unfolding socket is_port_available
socket_ok port open_ports free h = ground arith

socket_taken :
    (port : ℕ) (open_ports : List ℕ) → socket port (port ∷ open_ports) ≡ err port_exception
unfolding socket
socket_taken port open_ports = ground arith

-- A server socket on a port that is available and not below 1000: it takes the port even if it throws
-- because no address can be bound, and from then on the port is not available and every constructor on it
-- throws a port exception.
pub udp_socket_takes_port :
    (port : ℕ) (info : Option (List Address)) (open_ports : List ℕ)
    → is_port_available port open_ports ≡ true
    → 1000 ≤ port
    → let open_ports' = (udp_socket init_as_server port info open_ports).1 in
      (is_port_available port open_ports' ≡ false)
      × ((code : InitCode) (again : Option (List Address))
          → udp_socket code port again open_ports' ≡ (err port_exception, open_ports'))
unfolding udp_socket is_port_available
udp_socket_takes_port port info open_ports free h = rw (socket_ok port open_ports free h) (
    rw (initialized-ports (port ∷ open_ports) (initialize init_as_server info).0)
      (ground arith, λ code again. rw (socket_taken port open_ports) refl))
