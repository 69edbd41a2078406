-- ===== src/Sockets/Refusals.antt =====
-- Which constructors the registry of ports refuses, over any history of constructors (Sockets/Socket.cxx,
-- UDP_Socket.cxx).
use inferno_game_server.Base.{
  ℕ, ◌≡◌, refl, ap, ◌∙◌, Bool, false, ◌&&◌, ◌||◌, Bool-cases, inl, inr, List, [], ◌∷◌, Option, err,
  ltb, leb, ◌==◌, arith, if◌then◌else◌,
}
use inferno_game_server.Sockets.{
  InitCode, Address, port_exception, is_open, socket, initialize, initialized, udp_socket,
}
use inferno_game_server.Sockets.Ports.{initialized-ports}

-- A call of one of the constructors.
pub record Construction : Type 0 where
  pub code : InitCode
  pub port : ℕ
  pub info : Option (List Address)

-- The registry after constructors, the first at the head.
unfoldable pub construct_all : List Construction → List ℕ → List ℕ
unfolding udp_socket
construct_all [] ps = ps
construct_all (c ∷ cs) ps = construct_all cs (udp_socket c.code c.port c.info ps).1

abbrev pub is_requested : ℕ → List Construction → Bool
is_requested port [] = false
is_requested port (c ∷ cs) = port == c.port || is_requested port cs

-- The ports that are open after a constructor: those before, and the port if it is allowed.
constructed-ports :
    (code : InitCode) (port : ℕ) (info : Option (List Address)) (ps : List ℕ) (r : ℕ)
    → is_open r (udp_socket code port info ps).1 ≡ (is_open r ps || (r == port && leb 1000 port))
unfolding udp_socket socket
constructed-ports code port info ps r = elim (Bool-cases (is_open port ps || ltb port 1000)) [
  | inl taken ↦ rw taken (ground arith)
  | inr free ↦ rw (free, initialized-ports (port ∷ ps) (initialize code info).0) (ground arith)
]

refused_again :
    (here later : Bool) (port port' : ℕ)
    → ((here || (port == port' && leb 1000 port')) || (later || ltb port 1000))
      ≡ (here || ((port == port' || later) || ltb port 1000))
refused_again here later port port' = ground arith

construct_all-refuses :
    (cs : List Construction) (ps : List ℕ) (port : ℕ)
    → (is_open port (construct_all cs ps) || ltb port 1000)
      ≡ (is_open port ps || (is_requested port cs || ltb port 1000))
unfolding construct_all
construct_all-refuses [] ps port = ground arith
construct_all-refuses (c ∷ cs) ps port =
    construct_all-refuses cs (udp_socket c.code c.port c.info ps).1 port
    ∙ (ap (λ b. b || (is_requested port cs || ltb port 1000))
          (constructed-ports c.code c.port c.info ps port)
        ∙ refused_again (is_open port ps) (is_requested port cs) port c.port)

-- A port is refused from the second request on. After any constructors, from any registry, a
-- constructor throws a port exception, and changes nothing, exactly if its port is below 1000, was
-- in the registry at first, or was asked for by one of those constructors, whatever became of it;
-- and else its port is entered, and what `initialize` gives decides the rest.
pub constructor_refused :
    (cs : List Construction) (ps : List ℕ) (code : InitCode) (port : ℕ)
    (info : Option (List Address))
    → let ports = construct_all cs ps in
      udp_socket code port info ports ≡ (
        if is_open port ps || (is_requested port cs || ltb port 1000)
        then (err port_exception, ports)
        else initialized (port ∷ ports) (initialize code info).0)
unfolding udp_socket socket
constructor_refused cs ps code port info =
    let refuses = construct_all-refuses cs ps port in
    elim (Bool-cases (is_open port (construct_all cs ps) || ltb port 1000)) [
      | inl taken ↦ rw (← refuses, taken) refl
      | inr free ↦ rw (← refuses, free) refl
    ]
