-- ===== src/SecureSocket.antt =====
-- Sockets/Secure_Socket.cxx: the constructors of a socket for TLS and its destructor. What the calls of
-- OpenSSL return is an argument.
use inferno_game_server.Base.{
  ℕ, Bool, true, false, ◌&&◌, List, [], ◌∷◌, ◌++◌, Option, none, some, Result, ok, err,
  if◌then◌else◌,
}
use inferno_game_server.Base.Handlers
use inferno_game_server.Base.Handlers.{
  Outcome, done, returned, fault, ◌>>=◌, ◌>>◌, act, pure, return, require, terminated,
}
use inferno_game_server.Sockets.{
  Errorcode, initialize_exception, undefined, InitCode, init_as_server, init_as_client, socket,
}
pub mod Resources
pub mod Agreement
mod Examples

-- What OpenSSL allocates: SSL_CTX, DH, the BIO that listens, the BIO of the connection, and SSL.
pub data Resource : Type 0 where
  context handle acceptor connection session : Resource

pub data Action : Type 0 where
  creates frees : Resource → Action
  -- SSL_set_bio: the connection belongs to the session from then on
  binds : Action
  -- BIO_new_accept and BIO_new_connect, with the address
  listens connects : List ℕ → Action

abbrev pub Handler : Type 0 → Type 0
Handler A = Handlers.Handler Action A

-- Whether the calls of these names succeed.
pub record Tls : Type 0 where
  pub library_init : Bool
  pub ctx_new : Bool
  pub dh_new : Bool
  pub generate_parameters : Bool
  pub dh_check : Bool
  pub generate_key : Bool
  pub set_cipher_list : Bool
  pub bio_new_accept : Bool
  pub bio_do_accept : Bool
  pub bio_do_accept_again : Bool
  pub ssl_accept : Bool
  pub bio_new_connect : Bool
  pub bio_do_connect : Bool
  pub ssl_new : Bool
  pub ssl_connect : Bool

-- `unconstructed` is what the string reads as that `initialize_server` appends to itself, and
-- `port` what the constructor's pointer into a temporary string reads as, if they read as any.
pub record Place : Type 0 where
  pub unconstructed : Option (List ℕ)
  pub remote_host : List ℕ
  pub port : Option (List ℕ)

unfoldable pub ssl_initialize : Tls → Bool
ssl_initialize t = if t.library_init then true else false

-- The result is whether a pointer is returned, and not NULL.
unfoldable pub fetch_diffie_hellman_handle : Tls → Handler Bool
fetch_diffie_hellman_handle t =
    if t.dh_new
    then (do
      act (creates handle)
      pure (
          if t.generate_parameters
          then if t.dh_check then if t.generate_key then true else false else false
          else false))
    else pure false

unfoldable pub fetch_ssl_context : Tls → Handler Bool
unfolding fetch_diffie_hellman_handle
fetch_ssl_context t =
    if t.ctx_new
    then (do
      act (creates context)
      dh ← fetch_diffie_hellman_handle t
      pure (if dh then if t.set_cipher_list then true else false else false))
    else pure false

-- From the BIO of the connection on: `SSL_new` of a NULL context returns NULL.
abbrev pub secured : Bool → Bool → Bool → Handler (Unit {0})
secured ctx ssl_new handshake = do
  require (ctx && ssl_new)
  act (creates session)
  act binds
  require handshake
  return true

-- std::string addr = "*:" + addr;
unfoldable pub initialize_server : Tls → Place → Bool → Handler (Unit {0})
initialize_server t at ctx = do
  addr ← terminated at.unconstructed
  act (listens (42 ∷ 58 ∷ addr))
  require t.bio_new_accept
  act (creates acceptor)
  require t.bio_do_accept
  require t.bio_do_accept_again
  act (creates connection)
  secured ctx t.ssl_new t.ssl_accept

unfoldable pub initialize_client : Tls → Place → Bool → Handler (Unit {0})
initialize_client t at ctx = do
  port ← terminated at.port
  act (connects (at.remote_host ++ 58 ∷ port))
  require t.bio_new_connect
  act (creates connection)
  require t.bio_do_connect
  secured ctx t.ssl_new t.ssl_connect

abbrev pub initialize_as : InitCode → Tls → Place → Bool → Handler (Unit {0})
unfolding initialize_server initialize_client
initialize_as init_as_server t at ctx = initialize_server t at ctx
initialize_as init_as_client t at ctx = initialize_client t at ctx

-- The context is not tested.
unfoldable pub initialize : InitCode → Tls → Place → Handler (Unit {0})
unfolding ssl_initialize fetch_ssl_context
initialize code t at = do
  require (ssl_initialize t)
  ctx ← fetch_ssl_context t
  initialize_as code t at ctx

-- What a constructor throws, if anything.
abbrev pub thrown : Outcome (Unit {0}) → Option Errorcode
thrown (returned true) = none
thrown (returned false) = some initialize_exception
thrown (done a) = none
thrown (fault e) = some undefined

pub record Constructed : Type 0 where
  pub throws : Option Errorcode
  pub log : List Action
  pub open_ports : List ℕ

abbrev pub constructed : InitCode → Tls → Place → List ℕ → Result Errorcode (List ℕ) → Constructed
unfolding initialize
constructed code t at open_ports (err e) = record {
  throws = some e;
  log = [];
  open_ports = open_ports;
}
constructed code t at open_ports (ok open_ports') =
    let r = initialize code t at [] in
    record { throws = thrown r.0; log = r.1; open_ports = open_ports' }

-- The constructors.
unfoldable pub secure_socket : InitCode → Tls → ℕ → Place → List ℕ → Constructed
unfolding socket
secure_socket code t port at open_ports = constructed code t at open_ports (socket port open_ports)

-- The destructor: SSL_free frees the connection with the session.
unfoldable pub destroyed : Constructed → List Action
destroyed c = c.log ++ frees session ∷ frees context ∷ []
