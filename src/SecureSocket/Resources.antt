-- ===== src/SecureSocket/Resources.antt =====
-- What a socket for TLS leaves allocated (Sockets/Secure_Socket.cxx).
use inferno_game_server.Base.{
  ℕ, ◌≡◌, List, [], ◌∷◌, ◌++◌, none, Result, ok, err, arith, ◌==◌, if◌then◌else◌,
}
use inferno_game_server.Sockets.{InitCode, init_as_server, init_as_client, Errorcode, socket}
use inferno_game_server.SecureSocket.{
  Resource, context, handle, acceptor, connection, session, Action, creates, frees, binds, listens,
  connects, Tls, Place, ssl_initialize, fetch_diffie_hellman_handle, fetch_ssl_context,
  initialize_server, initialize_client, initialize, thrown, constructed, secure_socket, destroyed,
}

abbrev number : Resource → ℕ
number context = 0
number handle = 1
number acceptor = 2
number connection = 3
number session = 4

abbrev remove : Resource → List Resource → List Resource
remove r [] = []
remove r (q ∷ qs) = if number r == number q then qs else q ∷ remove r qs

-- What is allocated after the actions and belongs to no session, the last first.
abbrev pub left : List Action → List Resource → List Resource
left [] rs = rs
left (creates r ∷ log) rs = left log (r ∷ rs)
left (frees r ∷ log) rs = left log (remove r rs)
left (binds ∷ log) rs = left log (remove connection rs)
left (listens addr ∷ log) rs = left log rs
left (connects addr ∷ log) rs = left log rs

abbrev pub leaked : InitCode → List Resource
leaked init_as_server = acceptor ∷ handle ∷ []
leaked init_as_client = handle ∷ []

initialize-left :
    (code : InitCode) (t : Tls) (at : Place)
    → let r = initialize code t at [] in
      thrown r.0 ≡ none → left (r.1 ++ frees session ∷ frees context ∷ []) [] ≡ leaked code
unfolding initialize ssl_initialize fetch_ssl_context fetch_diffie_hellman_handle initialize_server
    initialize_client
initialize-left init_as_server t at h = ground arith
initialize-left init_as_client t at h = ground arith

constructed-left :
    (code : InitCode) (t : Tls) (at : Place) (open_ports : List ℕ) (s : Result Errorcode (List ℕ))
    → let c = constructed code t at open_ports s in
      c.throws ≡ none → left (c.log ++ frees session ∷ frees context ∷ []) [] ≡ leaked code
unfolding initialize constructed
constructed-left code t at open_ports (ok ports) h = initialize-left code t at h
constructed-left code t at open_ports (err e) h = absurd (cc)

-- A socket that was constructed and then destroyed leaves allocated exactly the Diffie-Hellman
-- handle and, as a server, the BIO that listens: its session, with the connection, and its context
-- are freed.
pub secure_socket_leaks :
    (code : InitCode) (t : Tls) (port : ℕ) (at : Place) (open_ports : List ℕ)
    → let c = secure_socket code t port at open_ports in
      c.throws ≡ none → left (destroyed c) [] ≡ leaked code
unfolding secure_socket destroyed
secure_socket_leaks code t port at open_ports h =
    constructed-left code t at open_ports (socket port open_ports) h
