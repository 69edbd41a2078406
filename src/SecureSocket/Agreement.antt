-- ===== src/SecureSocket/Agreement.antt =====
-- Sockets for TLS and the code that they were taken from (Sockets/Secure_Socket.cxx, LoginServer.cxx,
-- client.cxx, UDP_Socket.cxx).
use inferno_game_server.Base.{
  ℕ, ◌≡◌, refl, ap, ◌∙◌, Bool, true, false, ◌&&◌, List, [], ◌∷◌, ◌++◌, some, inl, inr, Bool-cases,
  if◌then◌else◌,
}
use inferno_game_server.Base.Handlers
use inferno_game_server.Base.Handlers.{
  Outcome, done, returned, fault, continue, require, pure, ◌>>◌, ◌>>=◌,
}
use inferno_game_server.Sockets.{InitCode, init_as_server, init_as_client}
use inferno_game_server.LoginServer.Secure
use inferno_game_server.LoginServer.Secure.{Connection, accept_secure}
use inferno_game_server.LoginClient
use inferno_game_server.LoginClient.{connect_ssl}
use inferno_game_server.SecureSocket
use inferno_game_server.SecureSocket.{
  initialize_as, context, creates, Action, secured, Tls, Place, initialize_server,
  initialize_client, initialize, secure_socket,
}

-- The same calls, as the login server makes them, with a port that can be sent.
abbrev pub as_connection : Tls → Connection
as_connection t = record {
  library = record {
    ctx_new = t.ctx_new;
    dh_new = t.dh_new;
    generate_parameters = t.generate_parameters;
    dh_check = t.dh_check;
    generate_key = t.generate_key;
    set_cipher_list = t.set_cipher_list;
  };
  send_port = true;
  bio_new_accept = t.bio_new_accept;
  bio_do_accept = t.bio_do_accept;
  bio_do_accept_again = t.bio_do_accept_again;
  ssl_new = t.ssl_new;
  ssl_accept = t.ssl_accept;
}

-- ... and as the client of the login server makes them.
abbrev pub as_tls : Tls → LoginClient.Tls
as_tls t = record {
  library_init = t.library_init;
  ctx_new = t.ctx_new;
  set_cipher_list = t.set_cipher_list;
  bio_new_connect = t.bio_new_connect;
  bio_do_connect = t.bio_do_connect;
  ssl_new = t.ssl_new;
  ssl_connect = t.ssl_connect;
}

-- Whether code that goes on got this far.
abbrev pub goes_on : {A : Type 0} → Outcome A → Outcome (Unit {0})
goes_on (done a) = returned true
goes_on (returned b) = returned false
goes_on (fault e) = fault e

module _ {E E' A : Type 0} where
  -- The same test on both sides.
  tests_alike :
      (b : Bool) (k : Unit {0} → Handlers.Handler E (Unit {0}))
      (k' : Unit {0} → Handlers.Handler E' A) (log : List E) (log' : List E')
      → (k tt log).0 ≡ goes_on (k' tt log').0
      → (continue (require b log) k).0 ≡ goes_on (continue (require b log') k').0
  tests_alike true k k' log log' h = h
  tests_alike false k k' log log' h = refl

continue-done :
    {E A B : Type 0}
    → (o : Outcome A) (log : List E) (k : A → Handlers.Handler E B) (a : A) → o ≡ done a
    → continue (o, log) k ≡ k a log
continue-done o log k a e = rw e refl

fetch_handle-alike :
    (t : Tls) (log : List Action)
    → (SecureSocket.fetch_diffie_hellman_handle t log).0
      ≡ done (Secure.fetch_diffie_hellman_handle (as_connection t).library)
unfolding SecureSocket.fetch_diffie_hellman_handle Secure.fetch_diffie_hellman_handle
fetch_handle-alike t log = elim (Bool-cases t.dh_new) [ inl e ↦ rw e refl | inr e ↦ rw e refl ]

fetch_ssl_context-alike :
    (t : Tls) (log : List Action)
    → (SecureSocket.fetch_ssl_context t log).0
      ≡ done (Secure.fetch_ssl_context (as_connection t).library)
unfolding SecureSocket.fetch_ssl_context Secure.fetch_ssl_context
fetch_ssl_context-alike t log = elim (Bool-cases t.ctx_new) [
  | inl e ↦ rw e (
      ap (λ r. r.0)
        (continue-done _
          (SecureSocket.fetch_diffie_hellman_handle t (log ++ creates context ∷ [])).1 _ _
          (fetch_handle-alike t (log ++ creates context ∷ []))))
  | inr e ↦ rw e refl
]

secured-alike :
    {E : Type 0}
    → (ctx ssl_new handshake : Bool) (n : ℕ) (log : List Action) (log' : List E)
    → (secured ctx ssl_new handshake log).0
      ≡ goes_on
          (continue (require {E = E} (ctx && ssl_new) log') (λ u. require handshake >> pure n)).0
secured-alike ctx ssl_new true n log log' = tests_alike (ctx && ssl_new) _ _ log log' refl
secured-alike ctx ssl_new false n log log' = tests_alike (ctx && ssl_new) _ _ log log' refl

initialize_server-alike :
    (t : Tls) (at : Place) (addr : List ℕ) (port : ℕ) (log : List Action)
    → at.unconstructed ≡ some addr
    → (initialize_server t at (Secure.fetch_ssl_context (as_connection t).library) log).0
      ≡ goes_on (accept_secure (as_connection t) port []).0
unfolding initialize_server accept_secure
initialize_server-alike t at addr port log e = rw e (
    tests_alike t.bio_new_accept _ _ _ _ (
      tests_alike t.bio_do_accept _ _ _ _
        (tests_alike t.bio_do_accept_again _ _ _ _ (secured-alike _ t.ssl_new t.ssl_accept _ _ _))))

initialize-fetched :
    (code : InitCode) (t : Tls) (at : Place)
    → t.library_init ≡ true
    → initialize code t at []
      ≡ initialize_as code t at
          (Secure.fetch_ssl_context (as_connection t).library)
          (SecureSocket.fetch_ssl_context t []).1
unfolding initialize SecureSocket.ssl_initialize
initialize-fetched code t at l =
    let started : continue (require {E = Action} (if t.library_init then true else false) [])
          (λ u. SecureSocket.fetch_ssl_context t >>= initialize_as code t at)
        ≡ (SecureSocket.fetch_ssl_context t >>= initialize_as code t at) [] =
      ap
        (λ b.
          continue (require {E = Action} (if b then true else false) [])
            (λ u. SecureSocket.fetch_ssl_context t >>= initialize_as code t at))
        l in
    started
    ∙ continue-done _ (SecureSocket.fetch_ssl_context t []).1 (initialize_as code t at) _
        (fetch_ssl_context-alike t [])

-- A server socket whose address can be read and whose library is initialised returns true exactly
-- if the login server would go on after the same calls, and false exactly if it would give up.
pub initialize-accept_secure :
    (t : Tls) (at : Place) (addr : List ℕ) (port : ℕ)
    → at.unconstructed ≡ some addr
    → t.library_init ≡ true
    → (initialize init_as_server t at []).0 ≡ goes_on (accept_secure (as_connection t) port []).0
unfolding SecureSocket.initialize_as
initialize-accept_secure t at addr port e l =
    ap (λ r. r.0) (initialize-fetched init_as_server t at l)
    ∙ initialize_server-alike t at addr port _ e

-- The client's context, where the handle is made.
context-alike :
    (t : Tls)
    → Secure.fetch_diffie_hellman_handle (as_connection t).library ≡ true
    → Secure.fetch_ssl_context (as_connection t).library ≡ LoginClient.fetch_ssl_context (as_tls t)
unfolding Secure.fetch_ssl_context LoginClient.fetch_ssl_context
context-alike t h = rw h refl

client_secured-alike :
    {E : Type 0}
    → (ctx ssl_new handshake : Bool) (log : List Action) (log' : List E)
    → (secured ctx ssl_new handshake log).0
      ≡ goes_on (continue (require {E = E} (ctx && ssl_new) log') (λ u. require handshake)).0
client_secured-alike ctx ssl_new true log log' = tests_alike (ctx && ssl_new) _ _ log log' refl
client_secured-alike ctx ssl_new false log log' = tests_alike (ctx && ssl_new) _ _ log log' refl

initialize_client-alike :
    (t : Tls) (at : Place) (text : List ℕ) (s : LoginClient.Session) (ack ssl_port : ℕ)
    (log : List Action)
    → at.port ≡ some text
    → t.library_init ≡ true
    → s.recv_ack ≡ some ack
    → s.recv_port ≡ some ssl_port
    → (initialize_client t at (LoginClient.fetch_ssl_context (as_tls t)) log).0
      ≡ goes_on (connect_ssl (record s { tls = as_tls t }) []).0
unfolding initialize_client connect_ssl LoginClient.ssl_initialize
initialize_client-alike t at text s ack ssl_port log e l a p =
    rw (e, a, p, l)
      (tests_alike t.bio_new_connect _ _ _ _ (
        tests_alike t.bio_do_connect _ _ _ _ (
          client_secured-alike (LoginClient.fetch_ssl_context (as_tls t)) t.ssl_new t.ssl_connect _
            _)))

-- A client socket makes a Diffie-Hellman handle, which the client of the login server does not.
-- Where that succeeds, the library is initialised and the port can be read, the socket's
-- constructor gets as far as the client that receives the port of its connection: the one returns
-- true exactly if the other goes on, and false exactly if it gives up.
pub initialize-connect_ssl :
    (t : Tls) (at : Place) (text : List ℕ) (s : LoginClient.Session) (ack ssl_port : ℕ)
    → at.port ≡ some text
    → Secure.fetch_diffie_hellman_handle (as_connection t).library ≡ true
    → t.library_init ≡ true
    → s.recv_ack ≡ some ack
    → s.recv_port ≡ some ssl_port
    → (initialize init_as_client t at []).0
      ≡ goes_on (connect_ssl (record s { tls = as_tls t }) []).0
unfolding SecureSocket.initialize_as
initialize-connect_ssl t at text s ack ssl_port e h l a p =
    ap (λ r. r.0) (initialize-fetched init_as_client t at l)
    ∙ (ap (λ ctx. (initialize_client t at ctx (SecureSocket.fetch_ssl_context t []).1).0)
          (context-alike t h)
        ∙ initialize_client-alike t at text s ack ssl_port _ e l a p)
