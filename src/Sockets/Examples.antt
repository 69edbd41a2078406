-- ===== src/Sockets/Examples.antt =====
-- The theorems about sockets on small inputs.
use inferno_game_server.Base.{
  ◌≡◌, refl, true, false, List, [], ◌∷◌, none, some, ℕ, ◌≤◌, replicate, ok, err, ltb, ◌||◌,
  if◌then◌else◌, ◌>>=◌, arith,
}
use inferno_game_server.Sockets.{init_as_server, init_as_client, Address}
use inferno_game_server.Sockets.Refusals.{
  Construction, construct_all, is_requested, constructor_refused,
}
use inferno_game_server.Base.Int.{ℤ}
use inferno_game_server.Sockets.Peers.{Peer, hear, send_str_to, reply_reaches_sender}
use inferno_game_server.Sockets.{
  send_str, is_open, initialized, port_exception, udp_socket, socket, initialize, initialize_server,
  bind_first,
}
use inferno_game_server.Sockets.Lifetimes.{
  Process, Event, begins, ends, happen, destroyed_socket, times, port_serves_once,
}

-- Addresses of which the second can be bound.
abbrev addresses : List Address
addresses =
    record { fd = none; binds = false }
    ∷ record { fd = some 4; binds = false }
    ∷ record { fd = some 4; binds = true }
    ∷ []

-- A peer with room for an address, and two senders.
abbrev peer : Peer
peer = record { last_addr = replicate 16 0; last_addrlen = 16 }

reply_reaches_sender_example :
    (r : List ℕ × Peer) × (hear 4
        ((1 ∷ [], replicate 16 7) ∷ (2 ∷ [], replicate 16 9) ∷ [])
        (replicate 4 0)
        peer
      ≡ ok r)
    × ((sendto : List ℕ → List ℕ → ℤ) (text : List ℕ)
        → send_str_to sendto text r.1
          ≡ (send_str (sendto (replicate 16 9)) text >>= λ out. ok (replicate 16 9, out)))
reply_reaches_sender_example =
    reply_reaches_sender 4 ((1 ∷ [], replicate 16 7) ∷ []) (2 ∷ []) (replicate 16 9) (replicate 4 0)
      peer (refl, omega arith) (refl, tt) refl

-- A socket, its end, and another one on the same port.
abbrev again : List Event
again =
    begins init_as_server 8001 (some addresses)
    ∷ ends 4
    ∷ begins init_as_server 8001 (some addresses)
    ∷ []

abbrev no_sockets : Process
no_sockets = record { open_ports = []; sock_fds = [] }

again_once : times 8001 again no_sockets ≡ 1
unfolding times happen udp_socket socket initialize initialize_server bind_first destroyed_socket
again_once = refl

port_serves_once_example :
    (times 8001 again no_sockets ≤ 1)
    × (is_open 8001 no_sockets.open_ports ≡ true → times 8001 again no_sockets ≡ 0)
port_serves_once_example = port_serves_once 8001 again no_sockets

-- Two sockets, of which the second has no address.
abbrev constructions : List Construction
constructions =
    record { code = init_as_server; port = 8001; info = some addresses }
    ∷ record { code = init_as_client; port = 8002; info = none }
    ∷ []

constructor_refused_example :
    let ports = construct_all constructions (9000 ∷ []) in
    udp_socket init_as_server 8002 (some addresses) ports ≡ (
      if is_open 8002 (9000 ∷ []) || (is_requested 8002 constructions || ltb 8002 1000)
      then (err port_exception, ports)
      else initialized (8002 ∷ ports) (initialize init_as_server (some addresses)).0)
constructor_refused_example =
    constructor_refused constructions (9000 ∷ []) init_as_server 8002 (some addresses)
